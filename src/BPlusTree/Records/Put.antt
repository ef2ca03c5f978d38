-- ===== src/BPlusTree/Records/Put.antt =====
-- put and get on the records of a tree.
use fat_btree.Prelude.{◌≡◌, ◌≢◌, Bool-cases, inl, inr, some, List, [], ◌∷◌}
use fat_btree.Order.{Order, ◌<?◌}
use fat_btree.BPlusTree.Records.{put, get, Absent}
use fat_btree.BPlusTree.Tree.{Entry}

module _ {K : Type 0} ⦃o : Order K⦄ where
  pub Absent-put :
      (k : K) (e : Entry K) (es : List (Entry K)) → e.key ≢ k → Absent k es → Absent k (put e es)
  unfolding put
  Absent-put k e [] ne a = (ne, tt)
  Absent-put k e (x ∷ xs) ne (a, rest) = elim (Bool-cases (x.key <? e.key)) [
    | inl p ↦ rw p (a, Absent-put k e xs ne rest)
    | inr p ↦ rw p (ne, (a, rest))
  ]

  pub get-put_same : (e : Entry K) (es : List (Entry K)) → get e.key (put e es) ≡ some e
  unfolding get put
  get-put_same e [] = rw (o.lt_irrefl e.key)
  get-put_same e (x ∷ xs) = elim (Bool-cases (x.key <? e.key)) [
    | inl p ↦ rw p (rw p (get-put_same e xs))
    | inr p ↦ rw p (rw (o.lt_irrefl e.key))
  ]

  get-skip : (k : K) (e : Entry K) (es : List (Entry K)) → e.key ≢ k → get k (e ∷ es) ≡ get k es
  unfolding get
  get-skip k e es ne = elim (Bool-cases (e.key <? k)) [
    | inl p ↦ rw p
    | inr p ↦ elim (Bool-cases (k <? e.key)) [
      | inl q ↦ rw (p, q)
      | inr q ↦ absurd (ne (o.lt_tri e.key k p q))
    ]
  ]

  pub get-put_other :
      (k : K) (e : Entry K) (es : List (Entry K)) → e.key ≢ k → get k (put e es) ≡ get k es
  unfolding get put
  get-put_other k e [] ne = get-skip k e [] ne
  get-put_other k e (x ∷ xs) ne = elim (Bool-cases (x.key <? e.key)) [
    | inl p ↦ rw (p, get-put_other k e xs ne)
    | inr p ↦ rw p (get-skip k e (x ∷ xs) ne)
  ]

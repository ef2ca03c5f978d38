-- ===== src/BPlusTree/Records.antt =====
-- The records of a tree as a sorted association list: what its operations promise.
pub mod Put
use fat_btree.Prelude.{
  suc, length, ◌≡◌, ◌≢◌, refl, ap, true, false, Bool-cases, inl, inr, Option, none, some, List, [],
  ◌∷◌, ◌++◌, if◌then◌else◌, All,
}
use fat_btree.Order.{Order, ◌<?◌}
use fat_btree.BPlusTree.Tree.{
  Entry, Token, item, sep, items, entries, keys_of, AllBefore, Cross, Sorted,
}
use fat_btree.BPlusTree.Tree.Sorting.{Sorted-append, Sorted-cut}
use fat_btree.BPlusTree.Tree.Position.{lt_asym, lt_of_le_lt}
use fat_btree.BPlusTree.Overflow.{lower_bound}
use fat_btree.BPlusTree.Access.Choice.{Under, Over}

module _ {K : Type 0} ⦃o : Order K⦄ where
  -- `e` before the first record whose key is not below its own.
  unfoldable pub put : Entry K → List (Entry K) → List (Entry K)
  put e [] = e ∷ []
  put e (x ∷ xs) = let rest = put e xs in if x.key <? e.key then x ∷ rest else e ∷ x ∷ xs

  -- The record of the key `k`, if there is one.
  unfoldable pub get : K → List (Entry K) → Option (Entry K)
  get k [] = none
  get k (x ∷ xs) =
      let rest = get k xs in if x.key <? k then rest else if k <? x.key then rest else some x

  abbrev pub Below : K → Entry K → Type 0
  Below k e = (e.key <? k) ≡ true

  abbrev pub Above : K → Entry K → Type 0
  Above k e = (k <? e.key) ≡ true

  pub put-between :
      (e : Entry K) (xs ys : List (Entry K))
      → All (Below e.key) xs
      → All (Above e.key) ys
      → put e (xs ++ ys) ≡ xs ++ (e ∷ ys)
  unfolding put
  put-between e [] [] b a = refl
  put-between e [] (y ∷ ys) b (a, rest) = elim (Bool-cases (y.key <? e.key)) [
    | inl p ↦ cc (o.lt_trans e.key y.key e.key a p, o.lt_irrefl e.key)
    | inr p ↦ rw p
  ]
  put-between e (x ∷ xs) ys (b, bs) a =
      rw b (ap (λ (l : List (Entry K)). x ∷ l) (put-between e xs ys bs a))

  pub get-between :
      (k : K) (xs : List (Entry K)) (e : Entry K) (ys : List (Entry K))
      → All (Below k) xs
      → (e.key <? k) ≡ false
      → (k <? e.key) ≡ false
      → get k (xs ++ (e ∷ ys)) ≡ some e
  unfolding get
  get-between k [] e ys b p q = rw (p, q)
  get-between k (x ∷ xs) e ys (b, bs) p q = rw b (get-between k xs e ys bs p q)

  pub get-Above : (k : K) (ys : List (Entry K)) → All (Above k) ys → get k ys ≡ none
  unfolding get
  get-Above k [] a = refl
  get-Above k (y ∷ ys) (a, rest) = elim (Bool-cases (y.key <? k)) [
    | inl p ↦ rw p (get-Above k ys rest)
    | inr p ↦ rw (p, a) (get-Above k ys rest)
  ]

  pub get-Below : (k : K) (xs ys : List (Entry K)) → All (Below k) xs → get k (xs ++ ys) ≡ get k ys
  unfolding get
  get-Below k [] ys b = refl
  get-Below k (x ∷ xs) ys (b, bs) = rw b (get-Below k xs ys bs)

  pub entries-Under : (k : K) (ts : List (Token K)) → All (Under k) ts → All (Below k) (entries ts)
  entries-Under k [] u = tt
  entries-Under k (item e ∷ ts) (u, us) = (u, entries-Under k ts us)
  entries-Under k (sep j ∷ ts) (u, us) = entries-Under k ts us

  pub entries-Over : (k : K) (ts : List (Token K)) → All (Over k) ts → All (Above k) (entries ts)
  entries-Over k [] u = tt
  entries-Over k (item e ∷ ts) (u, us) = (u, entries-Over k ts us)
  entries-Over k (sep j ∷ ts) (u, us) = entries-Over k ts us

  Under-before : (e : Entry K) (ts : List (Token K)) → All (Under e.key) ts → AllBefore ts (item e)
  Under-before e [] u = tt
  Under-before e (item x ∷ ts) (u, us) = (u, Under-before e ts us)
  Under-before e (sep j ∷ ts) (u, us) = (u, Under-before e ts us)

  Over-after : (e : Entry K) (ts : List (Token K)) → All (Over e.key) ts → Cross (item e ∷ []) ts
  Over-after e [] u = tt
  Over-after e (item x ∷ ts) (u, us) = ((u, tt), Over-after e ts us)
  Over-after e (sep j ∷ ts) (u, us) = ((u, tt), Over-after e ts us)

  pub Sorted-insert :
      (e : Entry K) (xs ys : List (Token K))
      → Sorted (xs ++ ys)
      → All (Under e.key) xs
      → All (Over e.key) ys
      → Sorted (xs ++ (item e ∷ ys))
  Sorted-insert e xs ys s u v =
      let c = Sorted-cut xs ys s in
      Sorted-append xs (item e ∷ ys) c.0 (Over-after e ys v, c.1) (Under-before e xs u, c.2)

  -- The records of a leaf, parted at the place for `k`.
  pub record Place (k : K) (es : List (Entry K)) : Type 0 where
    pub xs : List (Entry K)
    pub ys : List (Entry K)
    pub parted : es ≡ xs ++ ys
    pub under : All (Under k) (items xs)
    pub above : All (λ (e : Entry K). (e.key <? k) ≡ false) ys
    pub at : lower_bound (keys_of es) k ≡ length (keys_of xs)

  later_above :
      (k : K) (e : Entry K) (ys : List (Entry K))
      → (e.key <? k) ≡ false
      → Cross (item e ∷ []) (items ys)
      → All (λ (y : Entry K). (y.key <? k) ≡ false) ys
  later_above k e [] ge c = tt
  later_above k e (y ∷ ys) ge (c, cs) =
      (lt_asym k y.key (lt_of_le_lt k e.key y.key ge c.0), later_above k e ys ge cs)

  pub place : (k : K) (es : List (Entry K)) → Sorted (items es) → Place k es
  unfolding lower_bound
  place k [] s = record { xs = []; ys = []; parted = refl; under = tt; above = tt; at = refl }
  place k (e ∷ es) s =
      let p = place k es s.1 in
      elim (Bool-cases (e.key <? k)) [
        | inl lt ↦ record {
          xs = e ∷ p.xs;
          ys = p.ys;
          parted = ap (λ (l : List (Entry K)). e ∷ l) p.parted;
          under = (lt, p.under);
          above = p.above;
          at = rw lt (ap suc p.at);
        }
        | inr ge ↦ record {
          xs = [];
          ys = e ∷ es;
          parted = refl;
          under = tt;
          above = (ge, later_above k e es ge s.0);
          at = rw ge;
        }
      ]

  -- No record has the key `k`.
  abbrev pub Absent : K → List (Entry K) → Type 0
  Absent k es = All (λ (e : Entry K). e.key ≢ k) es

  pub Over-Absent :
      (k : K) (ys : List (Entry K))
      → All (λ (y : Entry K). (y.key <? k) ≡ false) ys
      → Absent k ys
      → All (Over k) (items ys)
  Over-Absent k [] a n = tt
  Over-Absent k (y ∷ ys) (a, rest) (n, ns) = (
    elim (Bool-cases (k <? y.key)) [ inl p ↦ p | inr p ↦ absurd (n (o.lt_tri y.key k a p)) ],
    Over-Absent k ys rest ns,
  )

module _ {K : Type 0} where
  pub entries-items : (es : List (Entry K)) → entries (items es) ≡ es
  entries-items [] = refl
  entries-items (e ∷ es) = ap (λ (l : List (Entry K)). e ∷ l) (entries-items es)

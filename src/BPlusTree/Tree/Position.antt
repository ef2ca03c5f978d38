-- ===== src/BPlusTree/Tree/Position.antt =====
-- Where lower_bound finds a key among the separators of a node on a sorted walk, and the walk after
-- a leaf has been split.
use fat_btree.Prelude.{
  suc, ◌≡◌, refl, ap, true, false, List, [], ◌∷◌, ◌++◌, inl, inr, Bool-cases, length, All,
}
use fat_btree.Order.{Order, ◌<?◌}
use fat_btree.BPlusTree.Overflow.{lower_bound}
use fat_btree.BPlusTree.Tree.{
  Entry, Rest, end, more, Token, item, sep, seps, flat, flat_rest, Before, AllBefore, Cross, Sorted,
}
use fat_btree.BPlusTree.Tree.Sorting.{AllBefore-cut, Sorted-append, Sorted-cut}
use fat_btree.BPlusTree.Tree.Zipper.{Lefts, left_keys, left_flat}

module _ {K : Type 0} ⦃o : Order K⦄ where
  pub lt_asym : (a b : K) → (a <? b) ≡ true → (b <? a) ≡ false
  lt_asym a b p = elim (Bool-cases (b <? a)) [
    | inl q ↦ cc (o.lt_trans a b a p q, o.lt_irrefl a)
    | inr q ↦ q
  ]

  pub lt_of_lt_le : (a b c : K) → (a <? b) ≡ true → (c <? b) ≡ false → (a <? c) ≡ true
  lt_of_lt_le a b c p q = elim (Bool-cases (b <? c)) [
    | inl r ↦ o.lt_trans a b c p r
    | inr r ↦ rw (o.lt_tri c b q r) p
  ]

  pub lt_of_le_lt : (a b c : K) → (b <? a) ≡ false → (b <? c) ≡ true → (a <? c) ≡ true
  lt_of_le_lt a b c p q = elim (Bool-cases (a <? b)) [
    | inl r ↦ o.lt_trans a b c r q
    | inr r ↦ rw (o.lt_tri a b r p) q
  ]

  abbrev pub token_key : Token K → K
  token_key (item e) = e.key
  token_key (sep k) = k

  -- The first of `ks`, if there is one, is not below `k`.
  abbrev pub HeadAbove : K → List K → Type 0
  HeadAbove k [] = Unit
  HeadAbove k (x ∷ xs) = (x <? k) ≡ false

  abbrev pub AllBelow : List K → K → Type 0
  AllBelow xs k = All (λ x. (x <? k) ≡ true) xs

  pub lower_bound-append :
      (xs ys : List K) (k : K)
      → AllBelow xs k
      → HeadAbove k ys
      → lower_bound (xs ++ ys) k ≡ length xs
  unfolding lower_bound
  lower_bound-append [] [] k b a = refl
  lower_bound-append [] (y ∷ ys) k b a = rw a
  lower_bound-append (x ∷ xs) ys k (b, bs) a = rw b (ap suc (lower_bound-append xs ys k bs a))

  sep_below : (k : K) (y : Token K) → Before (sep k) y → (k <? token_key y) ≡ true
  sep_below k (item e) p = p
  sep_below k (sep k') p = p

  pub left_below :
      (ls : Lefts K) (y : Token K)
      → AllBefore (left_flat ls) y
      → AllBelow (left_keys ls) (token_key y)
  left_below [] y p = tt
  left_below ((u, k) ∷ ls) y p =
      let q = (AllBefore-cut (flat u) (sep k ∷ left_flat ls) y p).1 in
      (sep_below k y q.0, left_below ls y q.1)

  pub right_above :
      (r : Rest K) (y : Token K) → Cross (y ∷ []) (flat_rest r) → HeadAbove (token_key y) (seps r)
  right_above end y p = tt
  right_above (more k t r) (item e) p = p.0.0
  right_above (more k t r) (sep k') p = lt_asym k' k p.0.0

  -- A key that the walk meets inside a child is found at that child.
  pub lower_bound-inside :
      (ls : Lefts K) (r : Rest K) (y : Token K)
      → AllBefore (left_flat ls) y
      → Cross (y ∷ []) (flat_rest r)
      → lower_bound (left_keys ls ++ seps r) (token_key y) ≡ length (left_keys ls)
  lower_bound-inside ls r y p q =
      lower_bound-append (left_keys ls) (seps r) (token_key y) (left_below ls y p)
        (right_above r y q)

  before_sep :
      (xs : List (Token K)) (e : Entry K) → AllBefore xs (item e) → AllBefore xs (sep e.key)
  before_sep [] e p = tt
  before_sep (item e' ∷ xs) e (p, ps) = (lt_asym e'.key e.key p, before_sep xs e ps)
  before_sep (sep k ∷ xs) e (p, ps) = (p, before_sep xs e ps)

  after_sep :
      (e e2 : Entry K) (ys : List (Token K))
      → (e.key <? e2.key) ≡ true
      → Cross (item e2 ∷ []) ys
      → Cross (sep e.key ∷ []) ys
  after_sep e e2 [] lt p = tt
  after_sep e e2 (item e' ∷ ys) lt (p, ps) =
      ((o.lt_trans e.key e2.key e'.key lt p.0, tt), after_sep e e2 ys lt ps)
  after_sep e e2 (sep k ∷ ys) lt (p, ps) =
      ((lt_of_lt_le e.key e2.key k lt p.0, tt), after_sep e e2 ys lt ps)

  -- The separator that a leaf's split puts between two neighbours: the left one's key.
  pub Sorted-insert_sep :
      (xs : List (Token K)) (e e2 : Entry K) (ys : List (Token K))
      → Sorted (xs ++ (item e ∷ item e2 ∷ ys))
      → Sorted (xs ++ (item e ∷ sep e.key ∷ item e2 ∷ ys))
  Sorted-insert_sep xs e e2 ys s =
      let c = Sorted-cut xs (item e ∷ item e2 ∷ ys) s in
      let lt : (e.key <? e2.key) ≡ true = c.1.0.0.0 in
      Sorted-append xs (item e ∷ sep e.key ∷ item e2 ∷ ys) c.0
        (((o.lt_irrefl e.key, tt), c.1.0), (((lt, tt), after_sep e e2 ys lt c.1.1.0), c.1.1))
        (c.2.0, (before_sep xs e c.2.0, c.2.1))

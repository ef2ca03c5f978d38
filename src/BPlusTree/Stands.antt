-- ===== src/BPlusTree/Stands.antt =====
-- The invariant of a tree under change, seen from one of its nodes: the pool holds the trail and
-- the tree at its end, no address is used twice, unused nodes are as constructed, the walk is
-- sorted, and no node but perhaps the one at hand has m keys or more.
use fat_btree.Prelude.{
  ℕ, ◌+◌, ◌≤◌, ◌<◌, ◌≡◌, refl, ap, List, [], ◌∷◌, ◌++◌, arith, ltb, if◌then◌else◌, length,
}
use Prim.Native.Nat.{max}
use fat_btree.Order.{Order}
use fat_btree.BPlusTree.Store.{BPlusTree, new_node}
use fat_btree.BPlusTree.Tree.{
  Entry, Tree, leaf, inner, Rest, end, more, Token, item, sep, Trail, top, frame, addr, node_keys,
  flat, entries, one, count, Rep, Fits, FitsRest, AllBefore, Cross, Sorted,
}
use fat_btree.BPlusTree.Tree.Sorting.{Cross-cut, cut-Cross, Sorted-cut}
use fat_btree.BPlusTree.Tree.Zipper.{
  Lefts, rebuild, first_of, rest_of, plug, parent_of, before, after, trail_count, RepTrail,
  FitsTrail,
}

module _ {K : Type 0} where
  -- The number of nodes on the longest way down to a leaf.
  abbrev mutual
    pub height : Tree K → ℕ
    height (leaf a es) = 1
    height (inner a t r) = 1 + max (height t) (height_rest r)

    pub height_rest : Rest K → ℕ
    height_rest end = 0
    height_rest (more k t r) = max (height t) (height_rest r)

  height-first :
      (ls : Lefts K) (t u : Tree K) (r s : Rest K) (d : ℕ)
      → max (height u) (height_rest s) ≤ max (height t) (height_rest r) + d
      → max (height (first_of ls u)) (height_rest (rest_of ls u s))
        ≤ max (height (first_of ls t)) (height_rest (rest_of ls t r)) + d
  height-first [] t u r s d h = h
  height-first ((v, k) ∷ ls) t u r s d h = omega (arith, height-first ls t u r s d h)

  -- A change at the end of a trail changes the height of the whole by as much at most.
  pub height-rebuild :
      (a : ℕ) (ls : Lefts K) (t u : Tree K) (r s : Rest K) (d : ℕ)
      → max (height u) (height_rest s) ≤ max (height t) (height_rest r) + d
      → height (rebuild a ls u s) ≤ height (rebuild a ls t r) + d
  height-rebuild a ls t u r s d h = omega (arith, height-first ls t u r s d h)

  pub height-plug :
      (c : Trail K) (t u : Tree K) (d : ℕ)
      → height u ≤ height t + d
      → height (plug c u) ≤ height (plug c t) + d
  height-plug top t u d h = h
  height-plug (frame a ls r up) t u d h =
      height-plug up (rebuild a ls t r) (rebuild a ls u r) d
        (height-rebuild a ls t u r r d (omega arith))

  abbrev pub whole : Trail K → Tree K → List (Token K)
  whole c t = before c ++ (flat t ++ after c)

  -- The children of a node fit; its own size is not looked at.
  abbrev pub FitsBelow : ℕ → Tree K → Type 0
  FitsBelow m (leaf a es) = Unit
  FitsBelow m (inner a t r) = Fits m t × FitsRest m r

  pub Fits-below : (m : ℕ) (t : Tree K) → FitsBelow m t → length (node_keys t) < m → Fits m t
  Fits-below m (leaf a es) f h = h
  Fits-below m (inner a t r) f h = (h, f.0, f.1)

  pub FitsBelow-of : (m : ℕ) (t : Tree K) → Fits m t → FitsBelow m t
  FitsBelow-of m (leaf a es) f = tt
  FitsBelow-of m (inner a t r) f = (f.1, f.2)

  pub entries-append : (xs ys : List (Token K)) → entries (xs ++ ys) ≡ entries xs ++ entries ys
  entries-append [] ys = refl
  entries-append (item e ∷ xs) ys = ap (λ (l : List (Entry K)). e ∷ l) (entries-append xs ys)
  entries-append (sep k ∷ xs) ys = entries-append xs ys

module _ {K : Type 0} ⦃o : Order K⦄ where
  -- Without the sizes, which a split restores one level at a time.
  pub record Stands (m n : ℕ) (s : BPlusTree K) (c : Trail K) (t : Tree K) : Type 0 where
    pub trail : RepTrail s.pool c (addr t)
    pub tree : Rep s.pool (parent_of c) t
    pub spare : (x : ℕ) → trail_count x c + count x t ≤ (if ltb x s.nb_node then 1 else 0)
    pub fresh : (x : ℕ) → s.nb_node ≤ x → s.pool x ≡ new_node
    pub sorted : Sorted (whole c t)
    pub tall : height (plug c t) ≤ n
    pub above_fit : FitsTrail m c
    pub below_fit : FitsBelow m t

  -- A token of the walk inside a child of a node, as that node's separators see it.
  pub token_inside :
      (ps ls xs : List (Token K)) (y : Token K) (ys rs qs : List (Token K))
      → Sorted ((ps ++ ls) ++ ((xs ++ (y ∷ ys)) ++ (rs ++ qs)))
      → AllBefore ls y × Cross (y ∷ []) rs
  token_inside ps ls xs y ys rs qs s =
      let a = Sorted-cut (ps ++ ls) ((xs ++ (y ∷ ys)) ++ (rs ++ qs)) s in
      let b = Sorted-cut (xs ++ (y ∷ ys)) (rs ++ qs) a.1 in
      let left =
        Cross-cut ls xs (y ∷ ys)
          (Cross-cut ls (xs ++ (y ∷ ys)) (rs ++ qs) (cut-Cross ps ls _ a.2).1).0 in
      let right = (cut-Cross xs (y ∷ ys) (rs ++ qs) b.2).1 in
      (left.1.0, (Cross-cut (y ∷ []) rs qs (cut-Cross (y ∷ []) ys (rs ++ qs) right).0).0)

-- An address that is in use is below the counter, and elsewhere it does not occur.
pub used_lt : (n x k : ℕ) → k ≤ (if ltb x n then 1 else 0) → 0 < k → x < n
used_lt n x k h p = ground arith

pub used_once : (n x k : ℕ) → k ≤ (if ltb x n then 1 else 0) → k ≤ 1
used_once n x k h = ground arith

pub unused : (n x k : ℕ) → k ≤ (if ltb x n then 1 else 0) → n ≤ x → k ≡ 0
unused n x k h p = ground arith

pub use_next :
    (n x k : ℕ) → k ≤ (if ltb x n then 1 else 0) → one x n + k ≤ (if ltb x (n + 1) then 1 else 0)
use_next n x k h = ground arith

-- ===== src/BPlusTree/Access/Leaf.antt =====
-- The descent to the leaf for a key, and the key's place in the walk.
use fat_btree.Run.{ok}
use fat_btree.Prelude.{
  ℕ, zero, suc, ◌+◌, ◌≤◌, ◌≡◌, refl, sym, ◌∙◌, false, some, List, [], ◌∷◌, ◌++◌, arith, get_elem?,
  All, All-append,
}
use mathlib.Core.Path.{subst}
use Prim.Native.Nat.{max}
use fat_btree.Order.{Order}
use fat_btree.BPlusTree.Store.{BPlusTree}
use fat_btree.BPlusTree.Overflow.{lower_bound}
use fat_btree.BPlusTree.Access.{find_leaf}
use fat_btree.BPlusTree.Tree.{
  Entry, Tree, leaf, inner, Rest, Trail, frame, addr, one, count, count_rest, flat, flat_rest, Fits,
}
use fat_btree.BPlusTree.Tree.Sorting.{Sorted-cut}
use fat_btree.BPlusTree.Tree.Zipper.{
  Lefts, first_of, rest_of, rebuild, before, after, left_flat, left_count, levels, trail_count,
  count-rebuild,
}
use fat_btree.BPlusTree.Stands.{Stands, whole, height, height_rest}
use fat_btree.BPlusTree.Access.Choice.{
  Choice, choose, Under, Over, lefts_Under, rights_Over, whole-frame, Stands-down,
}

module _ {K : Type 0} where
  height_first :
      (ls : Lefts K) (t : Tree K) (r : Rest K)
      → height t ≤ max (height (first_of ls t)) (height_rest (rest_of ls t r))
  height_first [] t r = omega arith
  height_first ((u, k) ∷ ls) t r = omega (arith, height_first ls t r)

find_leaf-step :
    {K : Type 0} ⦃o : Order K⦄ (fuel : ℕ) (s : BPlusTree K) (k : K) (cur c : ℕ)
    → (s.pool cur).is_leaf ≡ false
    → get_elem? (s.pool cur).child (lower_bound (s.pool cur).key k) ≡ some c
    → find_leaf (suc fuel) k cur s ≡ find_leaf fuel k c s
unfolding find_leaf
find_leaf-step fuel s k cur c leafy found = ground arith

module _ {K : Type 0} ⦃o : Order K⦄ (m n : ℕ) (s : BPlusTree K) (k : K) where
  -- A place in the tree for `k`: all that the walk meets before it lies below `k`, and nothing
  -- after it does.
  pub record Located (c : Trail K) (t : Tree K) : Type 0 where
    pub stands : Stands m n s c t
    pub fits : Fits m t
    pub under : All (Under k) (before c)
    pub over : All (Over k) (after c)

  pub Located-down :
      (c : Trail K) (a : ℕ) (u : Tree K) (r : Rest K) (ch : Choice u r k)
      → Located c (inner a u r)
      → Located (frame a ch.lefts ch.rights c) ch.child
  Located-down c a u r ch loc =
      let e : rebuild a ch.lefts ch.child ch.rights ≡ inner a u r =
        λ i. inner a (ch.first i) (ch.rest i) in
      let down =
        Stands-down m n s c a ch.lefts ch.child ch.rights (subst (Fits m) (sym e) loc.fits)
          (subst (Stands m n s c) (sym e) loc.stands) in
      let cut =
        Sorted-cut (before c ++ left_flat ch.lefts)
          (flat ch.child ++ (flat_rest ch.rights ++ after c)) down.0.sorted in
      let left = Sorted-cut (before c) (left_flat ch.lefts) cut.0 in
      let right = Sorted-cut (flat ch.child) (flat_rest ch.rights ++ after c) cut.1 in
      let last = Sorted-cut (flat_rest ch.rights) (after c) right.1 in
      record {
        stands = down.0;
        fits = down.1;
        under =
            All-append (Under k) (before c) (left_flat ch.lefts) loc.under
              (lefts_Under ch.lefts k left.1 ch.below);
        over =
            All-append (Over k) (flat_rest ch.rights) (after c)
              (rights_Over ch.rights k last.0 ch.above) loc.over;
      }

  pub walk-down :
      (c : Trail K) (a : ℕ) (u : Tree K) (r : Rest K) (ch : Choice u r k)
      → whole (frame a ch.lefts ch.rights c) ch.child ≡ whole c (inner a u r)
  walk-down c a u r ch =
      whole-frame a ch.lefts ch.rights c ch.child ∙ λ i. whole c (inner a (ch.first i) (ch.rest i))

  pub height-down :
      (a : ℕ) (u : Tree K) (r : Rest K) (ch : Choice u r k)
      → height ch.child + 1 ≤ height (inner a u r)
  height-down a u r ch =
      let e : height (rebuild a ch.lefts ch.child ch.rights) ≡ height (inner a u r) =
        λ i. height (inner a (ch.first i) (ch.rest i)) in
      omega (arith, height_first ch.lefts ch.child ch.rights)

  count-down :
      (x a : ℕ) (u : Tree K) (r : Rest K) (ch : Choice u r k)
      → count x (inner a u r)
        ≡ one x a + left_count x ch.lefts + count x ch.child + count_rest x ch.rights
  count-down x a u r ch =
      (λ i. count x (inner a (sym ch.first i) (sym ch.rest i)))
      ∙ count-rebuild x a ch.lefts ch.child ch.rights

  pub record LeafFound (fuel : ℕ) (c : Trail K) (t : Tree K) : Type 0 where
    pub trail : Trail K
    pub cur : ℕ
    pub records : List (Entry K)
    pub located : Located trail (leaf cur records)
    pub same : whole trail (leaf cur records) ≡ whole c t
    pub deep : levels trail + 1 ≤ levels c + height t
    pub kept :
        (x : ℕ) → trail_count x trail + count x (leaf cur records) ≡ trail_count x c + count x t
    pub run : find_leaf fuel k (addr t) s ≡ ok cur s

  -- The descent ends at a leaf, with as much fuel as the tree has levels.
  pub find_leaf_lem :
      (fuel : ℕ) (c : Trail K) (t : Tree K) → Located c t → height t ≤ fuel → LeafFound fuel c t
  unfolding find_leaf
  find_leaf_lem zero c (leaf a es) loc h = absurd (omega arith)
  find_leaf_lem zero c (inner a u r) loc h = absurd (omega arith)
  find_leaf_lem (suc fuel) c (leaf a es) loc h = record {
    trail = c;
    cur = a;
    records = es;
    located = loc;
    same = refl;
    deep = omega arith;
    kept = λ x. refl;
    run = rw loc.stands.tree.0.leafy;
  }
  find_leaf_lem (suc fuel) c (inner a u r) loc h =
      let ch = choose u r k in
      let cell = loc.stands.tree.0 in
      let g =
        find_leaf_lem fuel (frame a ch.lefts ch.rights c) ch.child (Located-down c a u r ch loc)
          (omega (arith, height-down a u r ch)) in
      record {
        trail = g.trail;
        cur = g.cur;
        records = g.records;
        located = g.located;
        same = g.same ∙ walk-down c a u r ch;
        deep = omega (arith, g.deep, height-down a u r ch);
        kept = λ x. omega (arith, g.kept x, count-down x a u r ch);
        run =
            find_leaf-step fuel s k a (addr ch.child) cell.leafy
              ((λ i. get_elem? (cell.child i) (lower_bound (cell.key i) k)) ∙ ch.found)
            ∙ g.run;
      }

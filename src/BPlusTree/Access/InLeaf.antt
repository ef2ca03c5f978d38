-- ===== src/BPlusTree/Access/InLeaf.antt =====
-- The record of a key in the leaf that the descent for the key ends at.
use fat_btree.Prelude.{
  ℕ, ◌≡◌, sym, ap, ◌∙◌, true, false, Bool-cases, inl, inr, some, List, [], ◌∷◌, ◌++◌, append_assoc,
  arith, get_elem?, get_elem?_at, All, All-append,
}
use mathlib.Core.Path.{subst}
use fat_btree.Order.{Order, ◌<?◌}
use fat_btree.BPlusTree.Store.{BPlusTree}
use fat_btree.BPlusTree.Overflow.{lower_bound}
use fat_btree.BPlusTree.Access.Choice.{Under}
use fat_btree.BPlusTree.Access.Leaf.{Located}
use fat_btree.BPlusTree.Records.{
  get, place, Above, get-Below, get-Above, entries-Under, entries-Over, entries-items,
}
use fat_btree.BPlusTree.Tree.Leaves.{ats_of-append, items-append, length-ats_of, length-keys_of}
use fat_btree.BPlusTree.Stands.{whole, entries-append}
use fat_btree.BPlusTree.Tree.{
  Entry, leaf, Trail, keys_of, ats_of, items, entries, Token, Cross, item, Sorted,
}
use fat_btree.BPlusTree.Tree.Sorting.{Sorted-cut}
use fat_btree.BPlusTree.Tree.Zipper.{before, after}

module _ {K : Type 0} ⦃o : Order K⦄ where
  later_Above :
      (k : K) (y : Entry K) (ys : List (Entry K))
      → (k <? y.key) ≡ true
      → Cross (item y ∷ []) (items ys)
      → All (Above k) ys
  later_Above k y [] lt c = tt
  later_Above k y (z ∷ zs) lt (c, cs) = (o.lt_trans k y.key z.key lt c.0, later_Above k y zs lt cs)

  -- The record `e` in a leaf, at the place that lower_bound picks.
  pub record InLeaf (es : List (Entry K)) (k : K) (e : Entry K) : Type 0 where
    pub found : get_elem? (ats_of es) (lower_bound (keys_of es) k) ≡ some e.at
    pub xs : List (Entry K)
    pub ys : List (Entry K)
    pub parted : es ≡ xs ++ (e ∷ ys)

  head_found :
      (k : K) (e : Entry K) (ys : List (Entry K)) (zs : List (Entry K))
      → Sorted (items ys)
      → All (λ (y : Entry K). (y.key <? k) ≡ false) ys
      → All (Above k) zs
      → get k (ys ++ zs) ≡ some e
      → (rest : List (Entry K)) × (ys ≡ e ∷ rest)
  unfolding get
  head_found k e [] zs s a b g = absurd (ground (arith, get-Above k zs b))
  head_found k e (y ∷ ys) zs s (a, rest) b g = elim (Bool-cases (k <? y.key)) [
    | inl p ↦
        let none_later =
          get-Above k (ys ++ zs) (All-append (Above k) ys zs (later_Above k y ys p s.0) b) in
        absurd (ground (arith, none_later))
    | inr p ↦ let same : y ≡ e = ground arith in (ys, ap (λ (x : Entry K). x ∷ ys) same)
  ]

  module _ (m n : ℕ) (s : BPlusTree K) (k : K) (e : Entry K) where
    pub leaf_found :
        (c : Trail K) (cur : ℕ) (es : List (Entry K))
        → Located m n s k c (leaf cur es)
        → get k (entries (whole c (leaf cur es))) ≡ some e
        → InLeaf es k e
    leaf_found c cur es loc g =
        let sorted =
          Sorted-cut (items es) (after c)
            (Sorted-cut (before c) (items es ++ after c) loc.stands.sorted).1 in
        let p = place k es sorted.0 in
        let l = before c ++ items p.xs in
        let r = entries (after c) in
        let joined : before c ++ ((items p.xs ++ items p.ys) ++ after c)
            ≡ l ++ (items p.ys ++ after c) =
          simp append_assoc in
        let walk : entries (whole c (leaf cur es)) ≡ entries l ++ (p.ys ++ r) =
          ap (λ (w : List (Token K)). entries (before c ++ (w ++ after c)))
            (ap items p.parted ∙ items-append p.xs p.ys)
          ∙ ap entries joined
          ∙ entries-append l (items p.ys ++ after c)
          ∙ ap (λ (w : List (Entry K)). entries l ++ w)
              (entries-append (items p.ys) (after c)
                ∙ ap (λ (w : List (Entry K)). w ++ r) (entries-items p.ys)) in
        let below =
          entries-Under k l (All-append (Under k) (before c) (items p.xs) loc.under p.under) in
        let cut =
          Sorted-cut (items p.xs) (items p.ys)
            (subst Sorted (ap items p.parted ∙ items-append p.xs p.ys) sorted.0) in
        let head =
          head_found k e p.ys r cut.1 p.above (entries-Over k (after c) loc.over)
            (sym (ap (get k) walk ∙ get-Below k (entries l) (p.ys ++ r) below) ∙ g) in
        let parted : es ≡ p.xs ++ (e ∷ head.0) =
          p.parted ∙ ap (λ (w : List (Entry K)). p.xs ++ w) head.1 in
        record {
          found =
              (λ i. get_elem? ((ap ats_of parted ∙ ats_of-append p.xs (e ∷ head.0)) i) (p.at i))
              ∙ get_elem?_at (ats_of p.xs) (ats_of head.0) e.at _
                  (length-ats_of p.xs ∙ sym (length-keys_of p.xs));
          xs = p.xs;
          ys = head.0;
          parted = parted;
        }

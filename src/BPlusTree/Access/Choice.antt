-- ===== src/BPlusTree/Access/Choice.antt =====
-- One step of a descent: the child that lower_bound picks, and the invariant seen from there.
use fat_btree.Prelude.{
  ℕ, ◌≡◌, refl, sym, ap, ◌∙◌, true, false, Bool-cases, inl, inr, Option, some, List, [], ◌∷◌, ◌++◌,
  append_assoc, arith, get_elem?, All, All-append,
}
use mathlib.Core.Path.{subst}
use fat_btree.Order.{Order, ◌<?◌}
use fat_btree.BPlusTree.Store.{Node, BPlusTree}
use fat_btree.BPlusTree.Overflow.{lower_bound}
use fat_btree.BPlusTree.Tree.{
  Tree, Rest, end, more, Token, item, sep, Trail, frame, addr, seps, addrs, flat, flat_rest, Cell,
  Rep, RepRest, Fits, FitsRest, AllBefore, Cross, Sorted,
}
use fat_btree.BPlusTree.Tree.Position.{AllBelow, HeadAbove, token_key, lt_asym, lt_of_le_lt}
use fat_btree.BPlusTree.Tree.Sorting.{Sorted-cut}
use fat_btree.BPlusTree.Tree.Zipper.{
  Lefts, left_keys, left_flat, first_of, rest_of, rebuild, before, after, parent_of, FrameCell,
  RepLefts, FitsLefts, seps-rest_of, childs-rebuild, flat-rebuild, count-rebuild, length-rebuild,
}
use fat_btree.BPlusTree.Stands.{Stands, whole, FitsBelow-of}

module _ {K : Type 0} ⦃o : Order K⦄ where
  -- The children `u` and `r` of a node, parted at the child for `k`.
  pub record Choice (u : Tree K) (r : Rest K) (k : K) : Type 0 where
    pub lefts : Lefts K
    pub child : Tree K
    pub rights : Rest K
    pub first : first_of lefts child ≡ u
    pub rest : rest_of lefts child rights ≡ r
    pub below : AllBelow (left_keys lefts) k
    pub above : HeadAbove k (seps rights)
    pub found : get_elem? (addr u ∷ addrs r) (lower_bound (seps r) k) ≡ some (addr child)

  pub choose : (u : Tree K) (r : Rest K) (k : K) → Choice u r k
  unfolding lower_bound
  choose u end k = record {
    lefts = [];
    child = u;
    rights = end;
    first = refl;
    rest = refl;
    below = tt;
    above = tt;
    found = refl;
  }
  choose u (more j t r) k =
      let c = choose t r k in
      elim (Bool-cases (j <? k)) [
        | inl lt ↦ record {
          lefts = (u, j) ∷ c.lefts;
          child = c.child;
          rights = c.rights;
          first = refl;
          rest = λ i. more j (c.first i) (c.rest i);
          below = (lt, c.below);
          above = c.above;
          found = rw lt c.found;
        }
        | inr ge ↦ record {
          lefts = [];
          child = u;
          rights = more j t r;
          first = refl;
          rest = refl;
          below = tt;
          above = ge;
          found = rw ge;
        }
      ]

  -- All before `k`, and all at or after it; a record after it has another key.
  abbrev pub Under : K → Token K → Type 0
  Under k y = (token_key y <? k) ≡ true

  abbrev pub Over : K → Token K → Type 0
  Over k (item e) = (k <? e.key) ≡ true
  Over k (sep j) = (j <? k) ≡ false

  before_Under :
      (k j : K) (ys : List (Token K)) → (j <? k) ≡ true → AllBefore ys (sep j) → All (Under k) ys
  before_Under k j [] lt p = tt
  before_Under k j (item e ∷ ys) lt (p, ps) =
      (lt_of_le_lt e.key j k p lt, before_Under k j ys lt ps)
  before_Under k j (sep i ∷ ys) lt (p, ps) = (o.lt_trans i j k p lt, before_Under k j ys lt ps)

  after_Over :
      (k j : K) (ys : List (Token K)) → (j <? k) ≡ false → Cross (sep j ∷ []) ys → All (Over k) ys
  after_Over k j [] ge p = tt
  after_Over k j (item e ∷ ys) ge (p, ps) = (lt_of_le_lt k j e.key ge p.0, after_Over k j ys ge ps)
  after_Over k j (sep i ∷ ys) ge (p, ps) =
      (lt_asym k i (lt_of_le_lt k j i ge p.0), after_Over k j ys ge ps)

  pub lefts_Under :
      (ls : Lefts K) (k : K)
      → Sorted (left_flat ls)
      → AllBelow (left_keys ls) k
      → All (Under k) (left_flat ls)
  lefts_Under [] k s b = tt
  lefts_Under ((u, j) ∷ ls) k s (b, bs) =
      let c = Sorted-cut (flat u) (sep j ∷ left_flat ls) s in
      All-append (Under k) (flat u) (sep j ∷ left_flat ls) (before_Under k j (flat u) b c.2.0)
        (b, lefts_Under ls k c.1.1 bs)

  pub rights_Over :
      (r : Rest K) (k : K)
      → Sorted (flat_rest r)
      → HeadAbove k (seps r)
      → All (Over k) (flat_rest r)
  rights_Over end k s a = tt
  rights_Over (more j t r) k s a = (a, after_Over k j (flat t ++ flat_rest r) a s.0)

module _ {K : Type 0} where
  Cell-FrameCell :
      (h : ℕ → Node K) (p : Option ℕ) (a : ℕ) (ls : Lefts K) (t : Tree K) (r : Rest K)
      → Cell h p (rebuild a ls t r)
      → FrameCell h p a ls (addr t) r
  Cell-FrameCell h p a ls t r c = record {
    value = c.value;
    leafy = c.leafy;
    parent = c.parent;
    key = c.key ∙ seps-rest_of ls t r;
    child = c.child ∙ childs-rebuild a ls t r;
  }

  RepRest-parted :
      (h : ℕ → Node K) (a : ℕ) (ls : Lefts K) (t : Tree K) (r : Rest K)
      → Rep h (some a) (first_of ls t)
      → RepRest h a (rest_of ls t r)
      → RepLefts h a ls × Rep h (some a) t × RepRest h a r
  RepRest-parted h a [] t r p q = (tt, p, q)
  RepRest-parted h a ((u, k) ∷ ls) t r p q =
      let kids = RepRest-parted h a ls t r q.0 q.1 in ((p, kids.0), kids.1, kids.2)

  FitsRest-parted :
      (m : ℕ) (ls : Lefts K) (t : Tree K) (r : Rest K)
      → Fits m (first_of ls t)
      → FitsRest m (rest_of ls t r)
      → FitsLefts m ls × Fits m t × FitsRest m r
  FitsRest-parted m [] t r p q = (tt, p, q)
  FitsRest-parted m ((u, k) ∷ ls) t r p q =
      let kids = FitsRest-parted m ls t r q.0 q.1 in ((p, kids.0), kids.1, kids.2)

  pub whole-frame :
      (a : ℕ) (ls : Lefts K) (r : Rest K) (c : Trail K) (t : Tree K)
      → whole (frame a ls r c) t ≡ whole c (rebuild a ls t r)
  whole-frame a ls r c t = sym (
      ap (λ (l : List (Token K)). before c ++ (l ++ after c)) (flat-rebuild a ls t r)
      ∙ simp append_assoc)

module _ {K : Type 0} ⦃o : Order K⦄ where
  -- The invariant seen from a child.
  pub Stands-down :
      (m n : ℕ) (s : BPlusTree K) (c : Trail K) (a : ℕ) (ls : Lefts K) (t : Tree K) (r : Rest K)
      → Fits m (rebuild a ls t r)
      → Stands m n s c (rebuild a ls t r)
      → Stands m n s (frame a ls r c) t × Fits m t
  Stands-down m n s c a ls t r f st =
      let kids = RepRest-parted s.pool a ls t r st.tree.1 st.tree.2 in
      let fit = FitsRest-parted m ls t r f.1 f.2 in
      (
        record {
          trail =
              (Cell-FrameCell s.pool (parent_of c) a ls t r st.tree.0, kids.0, kids.2, st.trail);
          tree = kids.1;
          spare = λ x. omega (arith, count-rebuild x a ls t r, st.spare x);
          fresh = st.fresh;
          sorted = subst Sorted (sym (whole-frame a ls r c t)) st.sorted;
          tall = st.tall;
          above_fit = (omega (arith, f.0, length-rebuild a ls t r), fit.0, fit.2, st.above_fit);
          below_fit = FitsBelow-of m t fit.1;
        },
        fit.1,
      )

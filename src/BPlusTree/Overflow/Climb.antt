-- ===== src/BPlusTree/Overflow/Climb.antt =====
-- overflow of lib/b_plus_tree.h from any node of a tree.
use fat_btree.Run.{Run, ok, and_then, Returns, mono, bind}
use fat_btree.Prelude.{
  ℕ, zero, suc, ◌+◌, ◌≤◌, ◌<◌, ◌≡◌, ◌≢◌, sym, ap, ◌∙◌, true, false, ◌||◌, ◌⊎◌, inl, inr, some, [],
  append-nil, arith, leb, ◌==◌, Bool-cases, length,
}
use mathlib.Core.Path.{subst}
use fat_btree.Order.{Order}
use fat_btree.BPlusTree.Store.{BPlusTree, deref, root, max_node_size}
use fat_btree.BPlusTree.Overflow.{overflow, movable, split, copy_down}
use fat_btree.BPlusTree.Tree.{
  Tree, Rest, end, Trail, top, frame, addr, node_keys, entries, flat, Fits, Sorted,
}
use fat_btree.BPlusTree.Tree.Zipper.{
  Lefts, plug, parent_of, levels, flat-plug, count-plug, Rep-plug, Fits-plug,
}
use fat_btree.BPlusTree.Stands.{Stands, whole, Fits-below, FitsBelow-of}
use fat_btree.BPlusTree.Split.Place.{Stepped}
use fat_btree.BPlusTree.Split.Step.{split_lem}
use fat_btree.BPlusTree.Copy.Lowered.{Rep-Cell}
use fat_btree.BPlusTree.Copy.Step.{Lowered, copy_down-Lowered}

module _ {K : Type 0} ⦃o : Order K⦄ where
  -- The pool holds a whole tree of at most `n` levels in which every node has fewer than m keys.
  pub record Holds (m n : ℕ) (s : BPlusTree K) (t : Tree K) : Type 0 where
    pub stands : Stands m n s top t
    pub fits : Fits m t

  pub record Overflowed (m n : ℕ) (s : BPlusTree K) (c : Trail K) (t : Tree K) (s' : BPlusTree K)
      : Type 0 where
    pub tree : Tree K
    pub holds : Holds m n s' tree
    pub same : entries (flat tree) ≡ entries (whole c t)
    pub grown : s'.nb_node ≤ s.nb_node + levels c + 2

  module _ (m n : ℕ) (s : BPlusTree K) (c : Trail K) (t : Tree K) (st : Stands m n s c t) where
    pub cell_keys : (s.pool (addr t)).key ≡ node_keys t
    cell_keys = (Rep-Cell s.pool (parent_of c) t st.tree).key

    pub closed : length (node_keys t) < m → Overflowed m n s c t s
    closed small =
        let r = Rep-plug s.pool c t st.trail st.tree in
        let f = flat-plug c t in
        record {
          tree = plug c t;
          holds = record {
            stands = record {
              trail = r.1;
              tree = r.0;
              spare = λ x. omega (arith, count-plug x c t, st.spare x);
              fresh = st.fresh;
              sorted = subst Sorted (sym (append-nil (flat (plug c t)) ∙ f)) st.sorted;
              tall = st.tall;
              above_fit = tt;
              below_fit =
                  FitsBelow-of m (plug c t)
                    (Fits-plug m c t st.above_fit (Fits-below m t st.below_fit small));
            };
            fits = Fits-plug m c t st.above_fit (Fits-below m t st.below_fit small);
          };
          same = ap entries f;
          grown = omega arith;
        }

    -- A node with fewer than m keys stops the climb.
    pub overflow_small :
        (fuel : ℕ) → length (node_keys t) < m → overflow m (suc fuel) (addr t) s ≡ ok tt s
    unfolding overflow
    overflow_small fuel small =
        let e : leb m (length (s.pool (addr t)).key) ≡ false =
          ground (arith, ap length cell_keys) in
        rw e

  Overflowed-widen :
      (m n : ℕ) (s : BPlusTree K) (c : Trail K) (t : Tree K) (s' : BPlusTree K)
      → Overflowed m n s c t s'
      → Overflowed m (n + 1) s c t s'
  Overflowed-widen m n s c t s' v =
      let st = v.holds.stands in
      record {
        tree = v.tree;
        holds = record {
          stands = record {
            trail = st.trail;
            tree = st.tree;
            spare = st.spare;
            fresh = st.fresh;
            sorted = st.sorted;
            tall = omega (arith, st.tall);
            above_fit = st.above_fit;
            below_fit = st.below_fit;
          };
          fits = v.holds.fits;
        };
        same = v.same;
        grown = v.grown;
      }

  -- What follows the split of `cur`.
  abbrev onward : ℕ → ℕ → ℕ → BPlusTree K → Run (BPlusTree K) (Unit {0})
  onward m fuel cur s = and_then (deref (s.pool cur).parent s) (overflow m fuel)

  overflow_full :
      (m fuel cur : ℕ) (s : BPlusTree K)
      → leb m (length (s.pool cur).key) ≡ true
      → overflow m (suc fuel) cur s
        ≡ and_then
            (movable cur (s.pool cur) s)
            (λ cur' s1. and_then (split m cur' s1) (λ _ s2. onward m fuel cur' s2))
  overflow_full m fuel cur s e = unfold overflow in rw e

  movable_cases :
      (cur : ℕ) (s : BPlusTree K)
      → (movable cur (s.pool cur) s ≡ copy_down cur s)
        ⊎ (movable cur (s.pool cur) s ≡ ok cur s) × (cur ≢ root)
  unfolding movable
  movable_cases cur s = elim (Bool-cases ((cur == root) || (s.pool cur).is_loaded)) [
    | inl e ↦ inl (rw e)
    | inr e ↦ inr (rw e, ground arith)
  ]

  module _ (m : ℕ) (two : 2 ≤ m) where
    -- The node that was copied has one key after the split, and stops the climb.
    onward_copied :
        (n fuel : ℕ) (s s1 s2 : BPlusTree K) (c : Trail K) (t : Tree K) (copy : ℕ)
        (low : Lowered m n s c t copy s1)
        → Stepped m (n + 1) s1 (addr t) [] end c low.tree s2
        → Returns (λ _ s'. Overflowed m (n + 1) s c t s') (onward m (suc fuel) copy s2)
    onward_copied n fuel s s1 s2 c t copy low q =
        let parent : (s2.pool copy).parent ≡ some (addr t) =
          ap (λ (b : ℕ). (s2.pool b).parent) (sym low.at) ∙ q.parent in
        let small : length (node_keys q.tree) < m = omega (arith, q.size) in
        let stop : overflow m (suc fuel) (addr t) s2 ≡ ok tt s2 =
          ap (λ (b : ℕ). overflow m (suc fuel) b s2) (sym q.at)
          ∙ overflow_small m (n + 1) s2 c q.tree q.stands fuel small in
        let v = closed m (n + 1) s2 c q.tree q.stands small in
        rw (parent, stop)
          (record {
            tree = v.tree;
            holds = v.holds;
            same = v.same ∙ q.same ∙ ap entries low.same;
            grown = omega (arith, v.grown, q.grown, low.grown);
          })

    onward_split :
        (n fuel : ℕ) (s s2 : BPlusTree K) (a : ℕ) (ls : Lefts K) (r : Rest K) (up : Trail K)
        (t : Tree K) (q : Stepped m n s a ls r up t s2)
        → Returns (λ _ s'. Overflowed m (n + 1) s2 up q.tree s') (overflow m fuel (addr q.tree) s2)
        → Returns
            (λ _ s'. Overflowed m (n + 1) s (frame a ls r up) t s')
            (onward m fuel (addr t) s2)
    onward_split n fuel s s2 a ls r up t q next = rw q.parent (
        mono (λ _ s'. Overflowed m (n + 1) s2 up q.tree s')
          (λ _ s'. Overflowed m (n + 1) s (frame a ls r up) t s') (overflow m fuel a s2)
          (subst
            (λ (b : ℕ).
              Returns (λ _ s'. Overflowed m (n + 1) s2 up q.tree s') (overflow m fuel b s2))
            q.at next)
          (λ _ s' v. record {
            tree = v.tree;
            holds = v.holds;
            same = v.same ∙ q.same;
            grown = omega (arith, v.grown, q.grown);
          }))

    overflow_copied :
        (n fuel : ℕ) (s : BPlusTree K) (c : Trail K) (t : Tree K)
        → Stands m n s c t
        → length (node_keys t) ≡ m
        → s.nb_node + 2 ≤ max_node_size
        → Returns
            (λ _ s'. Overflowed m (n + 1) s c t s')
            (and_then
              (copy_down (addr t) s)
              (λ cur' s1. and_then (split m cur' s1) (λ _ s2. onward m (suc fuel) cur' s2)))
    overflow_copied n fuel s c t st full room =
        bind (Lowered m n s c t) (λ _ s'. Overflowed m (n + 1) s c t s') (copy_down (addr t) s) _
          (copy_down-Lowered m n s c t st (omega arith) (omega arith))
          λ copy s1 low.
            bind (λ _ s2. Stepped m (n + 1) s1 (addr t) [] end c low.tree s2)
              (λ _ s'. Overflowed m (n + 1) s c t s') (split m copy s1) _
              (subst
                (λ (b : ℕ).
                  Returns (λ _ s2. Stepped m (n + 1) s1 (addr t) [] end c low.tree s2)
                    (split m b s1))
                low.at
                (split_lem m (n + 1) s1 (addr t) [] end c (omega (arith, low.grown)) two low.tree
                  (ap length low.keys ∙ full) low.stands))
              λ _ s2 q. onward_copied n fuel s s1 s2 c t copy low q

    overflow_step :
        (n fuel : ℕ) (s : BPlusTree K) (c : Trail K) (t : Tree K)
        → Stands m n s c t
        → length (node_keys t) ≤ m
        → s.nb_node + 2 ≤ max_node_size
        → (length (node_keys t) ≡ m
            → addr t ≢ root
            → Returns
                (λ _ s'. Overflowed m (n + 1) s c t s')
                (and_then (split m (addr t) s) (λ _ s2. onward m (suc fuel) (addr t) s2)))
        → Returns (λ _ s'. Overflowed m (n + 1) s c t s') (overflow m (suc (suc fuel)) (addr t) s)
    overflow_step n fuel s c t st size room climb =
        elim (Bool-cases (leb m (length (s.pool (addr t)).key))) [
          | inr small ↦
              let few : length (node_keys t) < m =
                ground (arith, ap length (cell_keys m n s c t st)) in
              rw (overflow_small m n s c t st (suc fuel) few)
                (Overflowed-widen m n s c t s (closed m n s c t st few))
          | inl full ↦
              let len : length (node_keys t) ≡ m =
                ground (arith, ap length (cell_keys m n s c t st)) in
              rw (overflow_full m (suc fuel) (addr t) s full) (elim (movable_cases (addr t) s) [
                | inl e ↦ rw e (overflow_copied n fuel s c t st len room)
                | inr (e, ne) ↦ rw e (climb len ne)
              ])
        ]

    -- The climb ends, and leaves a whole tree with the same records in which every node has fewer
    -- than m keys.
    pub overflow_lem :
        (fuel n : ℕ) (s : BPlusTree K) (c : Trail K) (t : Tree K)
        → Stands m n s c t
        → length (node_keys t) ≤ m
        → levels c + 2 ≤ fuel
        → s.nb_node + levels c + 2 ≤ max_node_size
        → Returns (λ _ s'. Overflowed m (n + 1) s c t s') (overflow m fuel (addr t) s)
    overflow_lem zero n s c t st size enough room = absurd (omega arith)
    overflow_lem (suc zero) n s c t st size enough room = absurd (omega arith)
    overflow_lem (suc (suc fuel)) n s top t st size enough room =
        overflow_step n fuel s top t st size (omega arith) (λ len ne. absurd (ne st.trail))
    overflow_lem (suc (suc fuel)) n s (frame a ls r up) t st size enough room =
        overflow_step n fuel s (frame a ls r up) t st size (omega arith) λ len ne.
          bind (λ _ s2. Stepped m n s a ls r up t s2)
            (λ _ s'. Overflowed m (n + 1) s (frame a ls r up) t s') (split m (addr t) s) _
            (split_lem m n s a ls r up (omega arith) two t len st)
            λ _ s2 q. onward_split n (suc fuel) s s2 a ls r up t q (
              overflow_lem (suc fuel) n s2 up q.tree q.stands
                (omega (arith, q.size, st.above_fit.0)) (omega arith) (omega (arith, q.grown)))

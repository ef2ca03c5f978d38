-- ===== src/BPlusTree/Copy/Step.antt =====
-- copy_down and the invariant of the tree.
use fat_btree.Run.{Returns, mono}
use fat_btree.Prelude.{
  ℕ, ◌+◌, ◌≤◌, ◌<◌, ◌≡◌, refl, sym, ap, ◌∙◌, some, List, [], ◌∷◌, ◌++◌, append-nil, arith,
}
use mathlib.Core.Path.{subst}
use fat_btree.Order.{Order}
use fat_btree.BPlusTree.Store.{Node, BPlusTree, max_node_size, new_node}
use fat_btree.BPlusTree.Overflow.{copy_down}
use fat_btree.BPlusTree.Tree.{
  Tree, inner, end, Token, Trail, frame, addr, node_keys, flat, one, count_in, count, Cell, Rep,
  Sorted,
}
use fat_btree.BPlusTree.Tree.Framing.{one_self, count-addr, ne_of_count, RepTrail-same}
use fat_btree.BPlusTree.Tree.Zipper.{before, after, trail_count, parent_of}
use fat_btree.BPlusTree.Stands.{Stands, whole, height-plug, used_lt, used_once, unused, use_next}
use fat_btree.BPlusTree.Copy.{Copied, copy_down_lem}
use fat_btree.BPlusTree.Copy.Lowered.{
  relabel, below_count, count-below, count-relabel, childs_le, flat-relabel, height-relabel,
  keys-relabel, addr-relabel, FitsBelow-relabel, below_after, Rep-Cell, Cell-copied,
}

module _ {K : Type 0} ⦃o : Order K⦄ where
  -- The copy of `t` stands one level below its old place.
  pub record Lowered (m n : ℕ) (s : BPlusTree K) (c : Trail K) (t : Tree K) (copy : ℕ)
      (s' : BPlusTree K) : Type 0 where
    pub tree : Tree K
    pub stands : Stands m (n + 1) s' (frame (addr t) [] end c) tree
    pub at : addr tree ≡ copy
    pub keys : node_keys tree ≡ node_keys t
    pub same : whole (frame (addr t) [] end c) tree ≡ whole c t
    pub grown : s'.nb_node ≡ s.nb_node + 1

  module _ (m n : ℕ) (s : BPlusTree K) (c : Trail K) (t : Tree K) (st : Stands m n s c t) where
    cell : Cell s.pool (parent_of c) t
    cell = Rep-Cell s.pool (parent_of c) t st.tree

    at_cur : trail_count (addr t) c + below_count (addr t) t ≡ 0
    at_cur = omega (
      arith,
      one_self (addr t),
      count-below (addr t) t,
      used_once s.nb_node (addr t) _ (st.spare (addr t)),
    )

    at_new : trail_count s.nb_node c + one s.nb_node (addr t) + below_count s.nb_node t ≡ 0
    at_new =
        omega (arith, count-below s.nb_node t, unused s.nb_node s.nb_node _ (st.spare s.nb_node))

    old : addr t < s.nb_node
    old = used_lt s.nb_node (addr t) _ (st.spare (addr t)) (omega (arith, count-addr t))

    childs_le' : (x : ℕ) → count_in x (s.pool (addr t)).child ≤ below_count x t
    childs_le' x = rw cell.child (childs_le x t)

    run : s.nb_node < max_node_size → Returns (Copied (addr t) s) (copy_down (addr t) s)
    run room =
        copy_down_lem (addr t) s room (λ e. absurd (omega (arith, old)))
          (omega (arith, at_cur, childs_le' (addr t))) (omega (arith, at_new, childs_le' s.nb_node))

    module _ (copy : ℕ) (s' : BPlusTree K) (q : Copied (addr t) s copy s') where
      spared :
          (f : ℕ → ℕ)
          → ((x : ℕ) → f x + one x (addr t) + below_count x t ≤ trail_count x c + count x t)
          → (x : ℕ) → 0 < f x
          → s'.pool x ≡ s.pool x
      spared f part x p =
          (q.others x
              (ne_of_count f x (addr t)
                (omega (
                  arith,
                  part (addr t),
                  one_self (addr t),
                  used_once s.nb_node (addr t) _ (st.spare (addr t)),
                ))
                p)
              (ne_of_count f x s.nb_node
                (omega (arith, part s.nb_node, unused s.nb_node s.nb_node _ (st.spare s.nb_node)))
                p)).1
            (omega (arith, part x, childs_le' x, used_once s.nb_node x _ (st.spare x)))

      tree_after : Rep s'.pool (some (addr t)) (relabel s.nb_node t)
      tree_after =
          below_after s.pool s'.pool (addr t) s.nb_node t (parent_of c) refl
            (λ x. omega (arith, count-below x t, used_once s.nb_node x _ (st.spare x)))
            (λ x p.
              let z =
                q.others x (ne_of_count (λ y. below_count y t) x (addr t) (omega (arith, at_cur)) p)
                  (ne_of_count (λ y. below_count y t) x s.nb_node (omega (arith, at_new)) p) in
              (
                (λ w. z.0 (subst (λ (l : List ℕ). 0 < count_in x l) (sym cell.child) w)),
                (λ w. z.1 (subst (λ (l : List ℕ). count_in x l ≡ 0) (sym cell.child) w)),
              ))
            st.tree
            (Cell-copied s.pool s'.pool (parent_of c) t s.nb_node cell
              (st.fresh s.nb_node (omega arith)) q.below)

      walk_after : whole (frame (addr t) [] end c) (relabel s.nb_node t) ≡ whole c t
      walk_after =
          ap (λ (l : List (Token K)). l ++ (flat (relabel s.nb_node t) ++ after c))
            (append-nil (before c))
          ∙ ap (λ (l : List (Token K)). before c ++ (l ++ after c)) (flat-relabel s.nb_node t)

      fresh_after : (x : ℕ) → s'.nb_node ≤ x → s'.pool x ≡ new_node
      fresh_after x le =
          let gone : trail_count x c + count x t ≡ 0 =
            unused s.nb_node x _ (st.spare x) (omega (arith, q.grown)) in
          (q.others x (λ e. absurd (omega (arith, old, q.grown)))
              (λ e. absurd (omega (arith, q.grown)))).1
            (omega (arith, childs_le' x, count-below x t))
          ∙ st.fresh x (omega (arith, q.grown))

      pub lowered : 0 < m → Lowered m n s c t copy s'
      lowered pos = record {
        tree = relabel s.nb_node t;
        stands = record {
          trail = (
            record {
              value = ap (λ (w : Node K). w.is_value) q.above ∙ cell.value;
              leafy = ap (λ (w : Node K). w.is_leaf) q.above;
              parent = ap (λ (w : Node K). w.parent) q.above ∙ cell.parent;
              key = ap (λ (w : Node K). w.key) q.above;
              child =
                  ap (λ (w : Node K). w.child) q.above
                  ∙ ap (λ (b : ℕ). b ∷ []) (sym (addr-relabel s.nb_node t));
            },
            tt,
            tt,
            RepTrail-same s.pool s'.pool c (addr t)
                (spared (λ x. trail_count x c) (λ x. omega (arith, count-below x t))) st.trail,
          );
          tree = tree_after;
          spare = λ x. rw q.grown (
              omega (
                arith,
                use_next s.nb_node x _ (st.spare x),
                count-below x t,
                count-relabel x s.nb_node t,
              ));
          fresh = fresh_after;
          sorted = subst Sorted (sym walk_after) st.sorted;
          tall = omega (
            arith,
            st.tall,
            height-plug c t (inner (addr t) (relabel s.nb_node t) end) 1
                (omega (arith, height-relabel s.nb_node t)),
          );
          above_fit = (omega arith, tt, tt, st.above_fit);
          below_fit = FitsBelow-relabel m s.nb_node t st.below_fit;
        };
        at = addr-relabel s.nb_node t ∙ sym q.address;
        keys = keys-relabel s.nb_node t;
        same = walk_after;
        grown = q.grown;
      }

    pub copy_down-Lowered :
        s.nb_node < max_node_size → 0 < m → Returns (Lowered m n s c t) (copy_down (addr t) s)
    copy_down-Lowered room pos =
        mono (Copied (addr t) s) (Lowered m n s c t) (copy_down (addr t) s) (run room)
          (λ copy s' q. lowered copy s' q pos)

-- ===== src/BPlusTree/Split/Inner.antt =====
-- The split of a full inner node.
use fat_btree.Run.{Returns, mono}
use fat_btree.Prelude.{
  ℕ, suc, ◌+◌, ◌/◌, ◌≤◌, ◌<◌, ◌≡◌, ◌≢◌, refl, sym, ap, ◌∙◌, some, List, [], ◌∷◌, ◌++◌, append_assoc,
  arith, ltb, if◌then◌else◌, length, length-append, take, drop, take_at, drop_at, get_elem?,
  get_elem?_at,
}
use mathlib.Core.Path.{subst}
use Prim.Native.Nat.{max}
use fat_btree.Order.{Order}
use fat_btree.BPlusTree.Store.{Node, BPlusTree, max_node_size, new_node}
use fat_btree.BPlusTree.Overflow.{split}
use fat_btree.BPlusTree.Tree.{
  Tree, inner, Rest, end, more, Token, sep, Trail, frame, addr, addrs, seps, entries, flat,
  flat_rest, one, count_in, count, count_rest, Cell, Rep, RepRest, Sorted,
}
use fat_btree.BPlusTree.Tree.Framing.{
  one_self, ne_of_count, Rep-same, RepRest-same, RepLefts-same, RepTrail-same,
}
use fat_btree.BPlusTree.Tree.Parts.{
  ◌+++◌, seps-append, addrs-append, flat_rest-append, count_rest-append, RepRest-cut, FitsRest-cut,
  one-le-count, count_in-addrs, RepRest-Adopted,
}
use fat_btree.BPlusTree.Tree.Zipper.{
  Lefts, left_keys, left_flat, left_count, rebuild, before, after, trail_count, parent_of,
  Rep-rebuild, flat-rebuild, count-rebuild, FitsRest-rebuild, length-rebuild,
}
use fat_btree.BPlusTree.Stands.{
  Stands, whole, FitsBelow, height, height_rest, height-plug, height-rebuild, used_once, unused,
  use_next,
}
use fat_btree.BPlusTree.Split.{SplitInner, split-inner}
use fat_btree.BPlusTree.Split.Place.{
  FrameCell-gain, Distinct, frame-Distinct, place-inside, Stepped,
}

-- An inner node `cur` whose child `v`, behind the separator `k`, and the children after it move.
module _ {K : Type 0} ⦃o : Order K⦄ (m n : ℕ) (s : BPlusTree K) (a : ℕ) (ls : Lefts K) (r : Rest K)
    (up : Trail K) (cur : ℕ) (u : Tree K) (front : Rest K) (k : K) (v : Tree K)
    (back : Rest K) where
  abbrev node : Tree K
  node = inner cur u (front +++ more k v back)

  abbrev left : Tree K
  left = inner cur u front

  abbrev right : Tree K
  right = inner s.nb_node v back

  abbrev moved : List ℕ
  moved = addr v ∷ addrs back

  abbrev parted : Tree K
  parted = rebuild a ls left (more k right r)

  height-cut :
      (f : Rest K)
      → max (height_rest f) (max (height v) (height_rest back)) ≤ height_rest (f +++ more k v back)
  height-cut end = omega arith
  height-cut (more k' t f) = omega (arith, height-cut f)

  module _ (st : Stands m n s (frame a ls r up) node) (half : length (seps front) ≡ m / 2) where
    cell : Cell s.pool (some a) node
    cell = st.tree.0

    keys_split : (s.pool cur).key ≡ seps front ++ (k ∷ seps back)
    keys_split = cell.key ∙ seps-append front (more k v back)

    keys_split' : (s.pool cur).key ≡ (seps front ++ (k ∷ [])) ++ seps back
    keys_split' = keys_split ∙ sym (append_assoc (seps front) (k ∷ []) (seps back))

    childs_split : (s.pool cur).child ≡ (addr u ∷ addrs front) ++ moved
    childs_split = cell.child ∙ ap (λ (l : List ℕ). addr u ∷ l) (addrs-append front (more k v back))

    length-addrs : (f : Rest K) → length (addrs f) ≡ length (seps f)
    length-addrs end = refl
    length-addrs (more k' t f) = ap suc (length-addrs f)

    key_left : take (m / 2) (s.pool cur).key ≡ seps front
    key_left = ap (take (m / 2)) keys_split ∙ take_at (seps front) (k ∷ seps back) (m / 2) half

    key_middle : get_elem? (s.pool cur).key (m / 2) ≡ some k
    key_middle =
        ap (λ (l : List K). get_elem? l (m / 2)) keys_split
        ∙ get_elem?_at (seps front) (seps back) k (m / 2) half

    key_right : drop (m / 2 + 1) (s.pool cur).key ≡ seps back
    key_right =
        ap (drop (m / 2 + 1)) keys_split'
        ∙ drop_at (seps front ++ (k ∷ [])) (seps back) (m / 2 + 1)
            (length-append (seps front) (k ∷ []) ∙ omega arith)

    child_left : take (m / 2 + 1) (s.pool cur).child ≡ addr u ∷ addrs front
    child_left =
        ap (take (m / 2 + 1)) childs_split
        ∙ take_at (addr u ∷ addrs front) moved (m / 2 + 1) (omega (arith, length-addrs front))

    child_right : drop (m / 2 + 1) (s.pool cur).child ≡ moved
    child_right =
        ap (drop (m / 2 + 1)) childs_split
        ∙ drop_at (addr u ∷ addrs front) moved (m / 2 + 1) (omega (arith, length-addrs front))

    distinct : Distinct s a cur
    distinct = frame-Distinct m n s a ls r up node st

    uses : (x : ℕ) → ℕ
    uses x =
        left_count x ls
        + count_rest x r
        + trail_count x up
        + count x u
        + count_rest x front
        + count x v
        + count_rest x back

    total : (x : ℕ) → trail_count x (frame a ls r up) + count x node ≡ one x a + one x cur + uses x
    unfolding uses
    total x = omega (arith, count_rest-append x front (more k v back))

    moved_le : (x : ℕ) → count_in x moved ≤ count x v + count_rest x back
    moved_le x = omega (arith, one-le-count x v, count_in-addrs x back)

    at_a : one a cur + uses a ≡ 0
    at_a = omega (arith, one_self a, used_once s.nb_node a _ (st.spare a), total a)

    at_cur : one cur a + uses cur ≡ 0
    at_cur = omega (arith, one_self cur, used_once s.nb_node cur _ (st.spare cur), total cur)

    at_new : one s.nb_node a + one s.nb_node cur + uses s.nb_node ≡ 0
    at_new = omega (arith, unused s.nb_node s.nb_node _ (st.spare s.nb_node), total s.nb_node)

    run :
        s.nb_node < max_node_size
        → Returns (λ _ s'. SplitInner m cur a (length (left_keys ls)) k moved s s') (split m cur s)
    unfolding uses
    run room =
        split-inner m cur a (length (left_keys ls)) k moved s room
          (st.fresh s.nb_node (omega arith)) (λ e. absurd (omega (arith, distinct.cur_old, e)))
          (λ e. absurd (omega (arith, distinct.above_old, e))) distinct.differ cell.leafy
          cell.parent key_middle child_right
          (place-inside m n s a ls r up node st (flat u ++ flat_rest front) (sep k)
            (flat v ++ flat_rest back)
            (ap (λ (l : List (Token K)). flat u ++ l) (flat_rest-append front (more k v back))
              ∙ sym (append_assoc (flat u) (flat_rest front) (flat_rest (more k v back)))))
          (omega (arith, moved_le a, at_a)) (omega (arith, moved_le cur, at_cur))
          (omega (arith, moved_le s.nb_node, at_new))

    -- The separator has only moved up: the walk is the same.
    walk_parted : whole up parted ≡ whole (frame a ls r up) node
    walk_parted =
        let walk : Rest K → List (Token K) = λ f.
          (before up ++ left_flat ls) ++ ((flat u ++ flat_rest f) ++ (flat_rest r ++ after up)) in
        let with_kids : walk (front +++ more k v back)
            ≡ (before up ++ left_flat ls)
              ++ ((flat u ++ (flat_rest front ++ flat_rest (more k v back)))
                  ++ (flat_rest r ++ after up)) =
          ap
            (λ (l : List (Token K)).
              (before up ++ left_flat ls) ++ ((flat u ++ l) ++ (flat_rest r ++ after up)))
            (flat_rest-append front (more k v back)) in
        ap (λ (l : List (Token K)). before up ++ (l ++ after up))
          (flat-rebuild a ls left (more k right r))
        ∙ sym (with_kids ∙ simp append_assoc)

    module _ (s' : BPlusTree K) (q : SplitInner m cur a (length (left_keys ls)) k moved s s') where
      unmoved :
          (x : ℕ)
          → 0 < one x a + one x cur + uses x
          → count x v + count_rest x back ≡ 0
          → x ≢ a
          → x ≢ cur
          → s'.pool x ≡ s.pool x
      unmoved x p z na nc =
          (q.others x na nc (
              ne_of_count (λ y. one y a + one y cur + uses y) x s.nb_node (omega (arith, at_new))
                p)).1
            (omega (arith, moved_le x))

      -- A part of the tree that does not move.
      spared :
          (f : ℕ → ℕ)
          → ((x : ℕ) → f x + count x v + count_rest x back ≤ uses x)
          → (x : ℕ) → 0 < f x
          → s'.pool x ≡ s.pool x
      spared f part x p =
          unmoved x (omega (arith, part x))
            (omega (arith, part x, total x, used_once s.nb_node x _ (st.spare x)))
            (ne_of_count f x a (omega (arith, at_a, part a)) p)
            (ne_of_count f x cur (omega (arith, at_cur, part cur)) p)

      left_after : Rep s'.pool (some a) left
      unfolding uses
      left_after =
          let kids = RepRest-cut s.pool cur front (more k v back) st.tree.2 in
          (
            record {
              value = ap (λ (w : Node K). w.is_value) q.left ∙ cell.value;
              leafy = ap (λ (w : Node K). w.is_leaf) q.left ∙ cell.leafy;
              parent = ap (λ (w : Node K). w.parent) q.left ∙ cell.parent;
              key = ap (λ (w : Node K). w.key) q.left ∙ key_left;
              child = ap (λ (w : Node K). w.child) q.left ∙ child_left;
            },
            Rep-same s.pool s'.pool u (some cur) (spared (λ x. count x u) (λ x. omega arith))
                st.tree.1,
            RepRest-same s.pool s'.pool front cur
                (spared (λ x. count_rest x front) (λ x. omega arith)) kids.0,
          )

      right_kids : RepRest s'.pool s.nb_node (more k v back)
      unfolding uses
      right_kids =
          RepRest-Adopted s.pool s'.pool cur s.nb_node (more k v back)
            (λ x. omega (arith, total x, used_once s.nb_node x _ (st.spare x)))
            (λ x p.
              let f = λ (y : ℕ). count_rest y (more k v back) in
              q.others x (ne_of_count f x a (omega (arith, at_a)) p)
                (ne_of_count f x cur (omega (arith, at_cur)) p)
                (ne_of_count f x s.nb_node (omega (arith, at_new)) p))
            (RepRest-cut s.pool cur front (more k v back) st.tree.2).1

      right_after : Rep s'.pool (some a) right
      right_after =
          let blank = st.fresh s.nb_node (omega arith) in
          (
            record {
              value =
                  ap (λ (w : Node K). w.is_value) q.right ∙ ap (λ (w : Node K). w.is_value) blank;
              leafy = ap (λ (w : Node K). w.is_leaf) q.right;
              parent = ap (λ (w : Node K). w.parent) q.right;
              key = ap (λ (w : Node K). w.key) q.right ∙ key_right;
              child = ap (λ (w : Node K). w.child) q.right;
            },
            right_kids.0,
            right_kids.1,
          )

      tree_after : Rep s'.pool (parent_of up) parted
      unfolding uses
      tree_after =
          Rep-rebuild s'.pool (parent_of up) a ls left (more k right r)
            (FrameCell-gain s.pool s'.pool (parent_of up) a ls cur k right r st.trail.0 q.above)
            (RepLefts-same s.pool s'.pool ls a (spared (λ x. left_count x ls) (λ x. omega arith))
              st.trail.1)
            left_after
            (
              right_after,
              RepRest-same s.pool s'.pool r a (spared (λ x. count_rest x r) (λ x. omega arith))
                  st.trail.2,
            )

      fits_after : length (seps (front +++ more k v back)) ≤ m → 2 ≤ m → FitsBelow m parted
      fits_after len two =
          let l = ap length (seps-append front (more k v back)) in
          let e = length-append (seps front) (k ∷ seps back) in
          let f = FitsRest-cut m front (more k v back) st.below_fit.1 in
          FitsRest-rebuild m ls left (more k right r) st.above_fit.1
            (omega arith, st.below_fit.0, f.0) ((omega arith, f.1.0, f.1.1), st.above_fit.2)

      spare_after :
          (x : ℕ) → trail_count x up + count x parted ≤ (if ltb x s'.nb_node then 1 else 0)
      unfolding uses
      spare_after x = rw q.grown (
          omega (
            arith,
            use_next s.nb_node x _ (st.spare x),
            count-rebuild x a ls left (more k right r),
            count_rest-append x front (more k v back),
          ))

      fresh_after : (x : ℕ) → s'.nb_node ≤ x → s'.pool x ≡ new_node
      fresh_after x le =
          let old : s.nb_node + 1 ≤ x = omega (arith, q.grown) in
          (q.others x (λ e. absurd (omega (arith, distinct.above_old)))
              (λ e. absurd (omega (arith, distinct.cur_old))) (λ e. absurd (omega arith))).1
            (omega (
              arith,
              moved_le x,
              total x,
              unused s.nb_node x _ (st.spare x) (omega arith),
              uses_moved x,
            ))
          ∙ st.fresh x (omega arith)
        where
          uses_moved : (x : ℕ) → count x v + count_rest x back ≤ uses x
          uses_moved x = unfold uses in omega arith

      pub Stepped-inner :
          length (seps (front +++ more k v back)) ≤ m → 2 ≤ m → Stepped m n s a ls r up node s'
      unfolding uses
      Stepped-inner len two = record {
        tree = parted;
        stands = record {
          trail =
              RepTrail-same s.pool s'.pool up a (spared (λ x. trail_count x up) (λ x. omega arith))
                st.trail.3;
          tree = tree_after;
          spare = spare_after;
          fresh = fresh_after;
          sorted = subst Sorted (sym walk_parted) st.sorted;
          tall = omega (
            arith,
            st.tall,
            height-plug up (rebuild a ls node r) parted 0 (
                height-rebuild a ls node left r (more k right r) 0
                  (omega (arith, height-cut front))),
          );
          above_fit = st.above_fit.3;
          below_fit = fits_after len two;
        };
        at = refl;
        size = omega (arith, length-rebuild a ls left (more k right r));
        parent = ap (λ (w : Node K). w.parent) q.left ∙ cell.parent;
        same = ap entries walk_parted;
        grown = q.grown;
      }

    pub run_inner :
        s.nb_node < max_node_size
        → length (seps (front +++ more k v back)) ≤ m
        → 2 ≤ m
        → Returns (λ _ s'. Stepped m n s a ls r up node s') (split m cur s)
    run_inner room len two =
        mono (λ _ s'. SplitInner m cur a (length (left_keys ls)) k moved s s')
          (λ _ s'. Stepped m n s a ls r up node s') (split m cur s) (run room)
          (λ _ s' q. Stepped-inner s' q len two)

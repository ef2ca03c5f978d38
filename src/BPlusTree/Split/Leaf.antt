-- ===== src/BPlusTree/Split/Leaf.antt =====
-- The split of a full leaf.
use fat_btree.Run.{Returns, mono}
use fat_btree.Prelude.{
  ℕ, ◌+◌, ◌/◌, ◌≤◌, ◌<◌, ◌≡◌, refl, sym, ap, ◌∙◌, some, List, [], ◌∷◌, ◌++◌, append_assoc, arith,
  ltb, if◌then◌else◌, length, length-append, take, drop, take_at, drop_at, last?, last?-append, All,
  All-cut,
}
use mathlib.Core.Path.{subst}
use fat_btree.Order.{Order}
use fat_btree.BPlusTree.Store.{Node, BPlusTree, max_node_size, new_node}
use fat_btree.BPlusTree.Overflow.{split}
use fat_btree.BPlusTree.Tree.{
  Entry, Tree, leaf, Rest, more, Token, item, sep, Trail, frame, keys_of, ats_of, items, entries,
  flat_rest, one, count_in, count, count_rest, Cell, IsValueAt, Rep, Sorted,
}
use fat_btree.BPlusTree.Tree.Framing.{
  one_self, ne_of_count, values-kept, RepRest-same, RepLefts-same, RepTrail-same,
}
use fat_btree.BPlusTree.Tree.Position.{Sorted-insert_sep}
use fat_btree.BPlusTree.Tree.Zipper.{
  Lefts, left_keys, left_flat, left_count, rebuild, before, after, trail_count, parent_of,
  Rep-rebuild, flat-rebuild, count-rebuild, FitsRest-rebuild, length-rebuild,
}
use fat_btree.BPlusTree.Stands.{
  Stands, whole, FitsBelow, height-plug, height-rebuild, entries-append, used_once, unused,
  use_next,
}
use fat_btree.BPlusTree.Split.{SplitLeaf, split-leaf}
use fat_btree.BPlusTree.Split.Place.{
  FrameCell-gain, Distinct, frame-Distinct, place-inside, Stepped,
}
use fat_btree.BPlusTree.Tree.Leaves.{
  keys_of-append, ats_of-append, items-append, length-keys_of, length-ats_of, count_in-append,
}

-- A leaf `cur` with the records `xs` and `y`, which stay, and `z` and `zs`, which move.
module _ {K : Type 0} ⦃o : Order K⦄ (m n : ℕ) (s : BPlusTree K) (a : ℕ) (ls : Lefts K) (r : Rest K)
    (up : Trail K) (cur : ℕ) (xs : List (Entry K)) (y z : Entry K) (zs : List (Entry K)) where
  abbrev left : List (Entry K)
  left = xs ++ (y ∷ [])

  abbrev right : List (Entry K)
  right = z ∷ zs

  abbrev all : List (Entry K)
  all = left ++ right

  abbrev parted : Tree K
  parted = rebuild a ls (leaf cur left) (more y.key (leaf s.nb_node right) r)

  module _ (st : Stands m n s (frame a ls r up) (leaf cur all)) (half : length left ≡ m / 2) where
    cell : Cell s.pool (some a) (leaf cur all)
    cell = st.tree.0

    key_left : take (m / 2) (s.pool cur).key ≡ keys_of left
    key_left =
        ap (take (m / 2)) (cell.key ∙ keys_of-append left right)
        ∙ take_at (keys_of left) (keys_of right) (m / 2) (length-keys_of left ∙ half)

    key_right : drop (m / 2) (s.pool cur).key ≡ keys_of right
    key_right =
        ap (drop (m / 2)) (cell.key ∙ keys_of-append left right)
        ∙ drop_at (keys_of left) (keys_of right) (m / 2) (length-keys_of left ∙ half)

    child_left : take (m / 2) (s.pool cur).child ≡ ats_of left
    child_left =
        ap (take (m / 2)) (cell.child ∙ ats_of-append left right)
        ∙ take_at (ats_of left) (ats_of right) (m / 2) (length-ats_of left ∙ half)

    child_right : drop (m / 2) (s.pool cur).child ≡ ats_of right
    child_right =
        ap (drop (m / 2)) (cell.child ∙ ats_of-append left right)
        ∙ drop_at (ats_of left) (ats_of right) (m / 2) (length-ats_of left ∙ half)

    back : last? (keys_of left) ≡ some y.key
    back = ap last? (keys_of-append xs (y ∷ [])) ∙ last?-append (keys_of xs) y.key

    distinct : Distinct s a cur
    distinct = frame-Distinct m n s a ls r up (leaf cur all) st

    run :
        s.nb_node < max_node_size
        → Returns (λ _ s'. SplitLeaf m cur a (length (left_keys ls)) y.key s s') (split m cur s)
    run room =
        split-leaf m cur a (length (left_keys ls)) y.key z.key s room
          (st.fresh s.nb_node (omega arith)) (λ e. absurd (omega (arith, distinct.cur_old, e)))
          (λ e. absurd (omega (arith, distinct.above_old, e))) distinct.differ cell.leafy
          cell.parent (rw key_left back) (rw key_right refl)
          (place-inside m n s a ls r up (leaf cur all) st (items left) (item z) (items zs)
            (items-append left right))

    at_a :
        left_count a ls + count_rest a r + trail_count a up + one a cur + count_in a (ats_of all)
        ≡ 0
    at_a = omega (arith, one_self a, used_once s.nb_node a _ (st.spare a))

    at_cur :
        one cur a
          + left_count cur ls
          + count_rest cur r
          + trail_count cur up
          + count_in cur (ats_of all)
        ≡ 0
    at_cur = omega (arith, one_self cur, used_once s.nb_node cur _ (st.spare cur))

    at_new :
        one s.nb_node a
          + left_count s.nb_node ls
          + count_rest s.nb_node r
          + trail_count s.nb_node up
          + one s.nb_node cur
          + count_in s.nb_node (ats_of all)
        ≡ 0
    at_new = omega (arith, unused s.nb_node s.nb_node _ (st.spare s.nb_node))

    -- The walk with the separator in it.
    walk_parted :
        whole up parted
        ≡ (before up ++ (left_flat ls ++ items xs))
          ++ (item y ∷ sep y.key ∷ item z ∷ (items zs ++ (flat_rest r ++ after up)))
    walk_parted =
        ap (λ (l : List (Token K)). before up ++ (l ++ after up))
          (flat-rebuild a ls (leaf cur left) (more y.key (leaf s.nb_node right) r)
            ∙ ap
                (λ (l : List (Token K)).
                  left_flat ls ++ (l ++ (sep y.key ∷ (items right ++ flat_rest r))))
                (items-append xs (y ∷ [])))
        ∙ simp append_assoc

    walk_all :
        whole (frame a ls r up) (leaf cur all)
        ≡ (before up ++ (left_flat ls ++ items xs))
          ++ (item y ∷ item z ∷ (items zs ++ (flat_rest r ++ after up)))
    walk_all =
        ap (λ (l : List (Token K)). (before up ++ left_flat ls) ++ (l ++ (flat_rest r ++ after up)))
          (items-append left right
            ∙ ap (λ (l : List (Token K)). l ++ items right) (items-append xs (y ∷ [])))
        ∙ simp append_assoc

    Sorted-parted : Sorted (whole up parted)
    Sorted-parted = subst Sorted (sym walk_parted) (
        Sorted-insert_sep (before up ++ (left_flat ls ++ items xs)) y z
          (items zs ++ (flat_rest r ++ after up)) (subst Sorted walk_all st.sorted))

    entries_parted : entries (whole up parted) ≡ entries (whole (frame a ls r up) (leaf cur all))
    entries_parted =
        let front = before up ++ (left_flat ls ++ items xs) in
        let rest = items zs ++ (flat_rest r ++ after up) in
        ap entries walk_parted
        ∙ entries-append front (item y ∷ sep y.key ∷ item z ∷ rest)
        ∙ sym (entries-append front (item y ∷ item z ∷ rest))
        ∙ sym (ap entries walk_all)

    module _ (s' : BPlusTree K) (q : SplitLeaf m cur a (length (left_keys ls)) y.key s s') where
      spared :
          (f : ℕ → ℕ)
          → f a ≡ 0
          → f cur ≡ 0
          → f s.nb_node ≡ 0
          → (x : ℕ) → 0 < f x
          → s'.pool x ≡ s.pool x
      spared f za zc zf x p =
          q.others x (ne_of_count f x a za p) (ne_of_count f x cur zc p)
            (ne_of_count f x s.nb_node zf p)

      values_after : All (IsValueAt s'.pool) left × All (IsValueAt s'.pool) right
      values_after = All-cut (IsValueAt s'.pool) left right (
          values-kept s.pool s'.pool all
            (λ x k.
              let e =
                spared (λ v. count_in v (ats_of all)) (omega (arith, at_a)) (omega (arith, at_cur))
                  (omega (arith, at_new)) x k in
              (ap (λ (v : Node K). v.is_value) e, ap (λ (v : Node K). v.val) e))
            st.tree.1)

      left_after : Rep s'.pool (some a) (leaf cur left)
      left_after = (
        record {
          value = ap (λ (v : Node K). v.is_value) q.left ∙ cell.value;
          leafy = ap (λ (v : Node K). v.is_leaf) q.left ∙ cell.leafy;
          parent = ap (λ (v : Node K). v.parent) q.left ∙ cell.parent;
          key = ap (λ (v : Node K). v.key) q.left ∙ key_left;
          child = ap (λ (v : Node K). v.child) q.left ∙ child_left;
        },
        values_after.0,
      )

      right_after : Rep s'.pool (some a) (leaf s.nb_node right)
      right_after =
          let blank = st.fresh s.nb_node (omega arith) in
          (
            record {
              value =
                  ap (λ (v : Node K). v.is_value) q.right ∙ ap (λ (v : Node K). v.is_value) blank;
              leafy = ap (λ (v : Node K). v.is_leaf) q.right ∙ ap (λ (v : Node K). v.is_leaf) blank;
              parent = ap (λ (v : Node K). v.parent) q.right;
              key = ap (λ (v : Node K). v.key) q.right ∙ key_right;
              child = ap (λ (v : Node K). v.child) q.right ∙ child_right;
            },
            values_after.1,
          )

      tree_after : Rep s'.pool (parent_of up) parted
      tree_after =
          Rep-rebuild s'.pool (parent_of up) a ls (leaf cur left)
            (more y.key (leaf s.nb_node right) r)
            (FrameCell-gain s.pool s'.pool (parent_of up) a ls cur y.key (leaf s.nb_node right) r
              st.trail.0 q.above)
            (RepLefts-same s.pool s'.pool ls a
              (spared (λ v. left_count v ls) (omega (arith, at_a)) (omega (arith, at_cur))
                (omega (arith, at_new)))
              st.trail.1)
            left_after
            (
              right_after,
              RepRest-same s.pool s'.pool r a
                  (spared (λ v. count_rest v r) (omega (arith, at_a)) (omega (arith, at_cur))
                    (omega (arith, at_new)))
                  st.trail.2,
            )

      fits_after : length all ≤ m → 2 ≤ m → FitsBelow m parted
      fits_after len two =
          let e = length-append left right in
          let l = length-keys_of left in
          let rr = length-keys_of right in
          FitsRest-rebuild m ls (leaf cur left) (more y.key (leaf s.nb_node right) r) st.above_fit.1
            (omega arith) (omega arith, st.above_fit.2)

      spare_after :
          (x : ℕ) → trail_count x up + count x parted ≤ (if ltb x s'.nb_node then 1 else 0)
      spare_after x = rw q.grown (
          omega (
            arith,
            use_next s.nb_node x _ (st.spare x),
            count-rebuild x a ls (leaf cur left) (more y.key (leaf s.nb_node right) r),
            count_in-append x (ats_of left) (ats_of right),
            ap (count_in x) (ats_of-append left right),
          ))

      fresh_after : (x : ℕ) → s'.nb_node ≤ x → s'.pool x ≡ new_node
      fresh_after x le =
          let old : s.nb_node + 1 ≤ x = omega (arith, q.grown) in
          q.others x (λ e. absurd (omega (arith, distinct.above_old)))
            (λ e. absurd (omega (arith, distinct.cur_old))) (λ e. absurd (omega arith))
          ∙ st.fresh x (omega arith)

      Stands-after : length all ≤ m → 2 ≤ m → Stands m n s' up parted
      Stands-after len two = record {
        trail =
            RepTrail-same s.pool s'.pool up a
              (spared (λ v. trail_count v up) (omega (arith, at_a)) (omega (arith, at_cur))
                (omega (arith, at_new)))
              st.trail.3;
        tree = tree_after;
        spare = spare_after;
        fresh = fresh_after;
        sorted = Sorted-parted;
        tall = omega (
          arith,
          st.tall,
          height-plug up (rebuild a ls (leaf cur all) r) parted 0 (
              height-rebuild a ls (leaf cur all) (leaf cur left) r
                (more y.key (leaf s.nb_node right) r) 0 (omega arith)),
        );
        above_fit = st.above_fit.3;
        below_fit = fits_after len two;
      }

      pub Stepped-leaf : length all ≤ m → 2 ≤ m → Stepped m n s a ls r up (leaf cur all) s'
      Stepped-leaf len two = record {
        tree = parted;
        stands = Stands-after len two;
        at = refl;
        size =
            omega
              (arith, length-rebuild a ls (leaf cur left) (more y.key (leaf s.nb_node right) r));
        parent = ap (λ (w : Node K). w.parent) q.left ∙ cell.parent;
        same = entries_parted;
        grown = q.grown;
      }

    pub run_leaf :
        s.nb_node < max_node_size
        → length all ≤ m
        → 2 ≤ m
        → Returns (λ _ s'. Stepped m n s a ls r up (leaf cur all) s') (split m cur s)
    run_leaf room len two =
        mono (λ _ s'. SplitLeaf m cur a (length (left_keys ls)) y.key s s')
          (λ _ s'. Stepped m n s a ls r up (leaf cur all) s') (split m cur s) (run room)
          (λ _ s' q. Stepped-leaf s' q len two)

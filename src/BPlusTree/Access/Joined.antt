-- ===== src/BPlusTree/Access/Joined.antt =====
-- The leaf with the new record among its own, and the invariant of the tree around it.
use fat_btree.Run.{Returns}
use fat_btree.Prelude.{
  ℕ, ◌+◌, ◌≤◌, ◌<◌, ◌≡◌, ◌≢◌, refl, sym, ap, ◌∙◌, true, List, [], ◌∷◌, ◌++◌, append_assoc, arith,
  length, length-append, All, All-cut, All-append, insert_at, insert_at_at,
}
use mathlib.Core.Path.{subst}
use fat_btree.Order.{Order}
use fat_btree.FieldTable.{FieldTable, update_field_table}
use fat_btree.BPlusTree.Store.{Node, BPlusTree, new_node, max_node_size, update}
use fat_btree.BPlusTree.Overflow.{lower_bound, overflow}
use fat_btree.BPlusTree.Overflow.Climb.{Overflowed, overflow_lem}
use fat_btree.BPlusTree.Access.Choice.{Under, Over}
use fat_btree.BPlusTree.Access.Leaf.{Located}
use fat_btree.BPlusTree.Records.{
  put, Absent, Place, put-between, entries-Under, entries-Over, Over-Absent, Sorted-insert,
  entries-items,
}
use fat_btree.BPlusTree.Tree.Leaves.{
  keys_of-append, ats_of-append, items-append, length-ats_of, length-keys_of, count_in-append,
}
use fat_btree.BPlusTree.Stands.{
  Stands, whole, height-plug, entries-append, used_lt, used_once, unused, use_next,
}
use fat_btree.BPlusTree.Tree.{
  Entry, leaf, Trail, keys_of, ats_of, items, entries, one, count, count_in, Cell, Sorted,
  IsValueAt, Token, item,
}
use fat_btree.BPlusTree.Tree.Framing.{one_self, ne_of_count, values-kept, RepTrail-same}
use fat_btree.BPlusTree.Tree.Zipper.{before, after, trail_count, parent_of, levels}
use fat_btree.BPlusTree.Access.Hang.{hung}

module _ {K : Type 0} ⦃o : Order K⦄ where
  module _ (m n : ℕ) (s : BPlusTree K) (k : K) (v : FieldTable) where
    abbrev pub new_entry : Entry K
    new_entry = record { key = k; at = s.nb_node; val = update_field_table v [] }

    module _ (c : Trail K) (cur : ℕ) (es : List (Entry K)) (loc : Located m n s k c (leaf cur es))
        (p : Place k es) where
      abbrev joined : List (Entry K)
      joined = p.xs ++ (new_entry ∷ p.ys)

      count_joined : (x : ℕ) → count_in x (ats_of joined) ≡ one x s.nb_node + count_in x (ats_of es)
      count_joined x =
          let a = ap (count_in x) (ats_of-append p.xs (new_entry ∷ p.ys)) in
          let b = ap (λ (l : List (Entry K)). count_in x (ats_of l)) p.parted in
          let d = ap (count_in x) (ats_of-append p.xs p.ys) in
          omega (
            arith,
            a,
            b,
            d,
            count_in-append x (ats_of p.xs) (s.nb_node ∷ ats_of p.ys),
            count_in-append x (ats_of p.xs) (ats_of p.ys),
          )

      pub spare_cur : cur < s.nb_node
      spare_cur =
          used_lt s.nb_node cur (trail_count cur c + count cur (leaf cur es)) (loc.stands.spare cur)
            (omega (arith, one_self cur))

      other : (x : ℕ) → x ≢ cur → x ≢ s.nb_node → (hung cur k v s).pool x ≡ s.pool x
      unfolding update
      other x ne ne2 = ground arith

      at_cur : (hung cur k v s).pool cur ≡ record (s.pool cur) {
        key = insert_at (s.pool cur).key (lower_bound (s.pool cur).key k) k;
        child = insert_at (s.pool cur).child (lower_bound (s.pool cur).key k) s.nb_node;
      }
      unfolding update
      at_cur = ground (arith, spare_cur)

      at_new :
          s.pool s.nb_node ≡ new_node
          → (((hung cur k v s).pool s.nb_node).is_value ≡ true)
            × (((hung cur k v s).pool s.nb_node).val ≡ update_field_table v [])
      unfolding update
      at_new blank = ground (arith, spare_cur)

      -- The walk before and after the new record.
      parted_walk : whole c (leaf cur es) ≡ (before c ++ items p.xs) ++ (items p.ys ++ after c)
      parted_walk =
          ap (λ (l : List (Token K)). before c ++ (l ++ after c))
            (ap items p.parted ∙ items-append p.xs p.ys)
          ∙ simp append_assoc

      joined_walk :
          whole c (leaf cur joined)
          ≡ (before c ++ items p.xs) ++ (item new_entry ∷ (items p.ys ++ after c))
      joined_walk =
          ap (λ (l : List (Token K)). before c ++ (l ++ after c))
            (items-append p.xs (new_entry ∷ p.ys))
          ∙ simp append_assoc

      module _ (absent : Absent k (entries (whole c (leaf cur es)))) where
        Absent-here : Absent k p.ys
        Absent-here =
            let a =
              All-cut (λ (e : Entry K). e.key ≢ k) (entries (before c))
                (entries (items es ++ after c))
                (subst (Absent k) (entries-append (before c) (items es ++ after c)) absent) in
            let b =
              All-cut (λ (e : Entry K). e.key ≢ k) (entries (items es)) (entries (after c))
                (subst (Absent k) (entries-append (items es) (after c)) a.1) in
            (All-cut (λ (e : Entry K). e.key ≢ k) p.xs p.ys
              (subst (Absent k) (entries-items es ∙ p.parted) b.0)).1

        Under-new : All (Under k) (before c ++ items p.xs)
        Under-new = All-append (Under k) (before c) (items p.xs) loc.under p.under

        Over-new : All (Over k) (items p.ys ++ after c)
        Over-new =
            All-append (Over k) (items p.ys) (after c) (Over-Absent k p.ys p.above Absent-here)
              loc.over

        pub joined-entries :
            entries (whole c (leaf cur joined)) ≡ put new_entry (entries (whole c (leaf cur es)))
        joined-entries =
            let l = before c ++ items p.xs in
            let r = items p.ys ++ after c in
            ap entries joined_walk
            ∙ entries-append l (item new_entry ∷ r)
            ∙ sym (
                ap (put new_entry) (ap entries parted_walk ∙ entries-append l r)
                ∙ put-between new_entry (entries l) (entries r) (entries-Under k l Under-new)
                    (entries-Over k r Over-new))

        pub joined-Sorted : Sorted (whole c (leaf cur joined))
        joined-Sorted = subst Sorted (sym joined_walk) (
            Sorted-insert new_entry (before c ++ items p.xs) (items p.ys ++ after c)
              (subst Sorted parted_walk loc.stands.sorted) Under-new Over-new)

        joined-Cell : Cell (hung cur k v s).pool (parent_of c) (leaf cur joined)
        joined-Cell =
            let cell = loc.stands.tree.0 in
            let at : lower_bound (s.pool cur).key k ≡ length (keys_of p.xs) =
              (λ i. lower_bound (cell.key i) k) ∙ p.at in
            let keys = cell.key ∙ ap keys_of p.parted ∙ keys_of-append p.xs p.ys in
            let childs = cell.child ∙ ap ats_of p.parted ∙ ats_of-append p.xs p.ys in
            record {
              value = ap (λ (x : Node K). x.is_value) at_cur ∙ cell.value;
              leafy = ap (λ (x : Node K). x.is_leaf) at_cur ∙ cell.leafy;
              parent = ap (λ (x : Node K). x.parent) at_cur ∙ cell.parent;
              key =
                  ap (λ (x : Node K). x.key) at_cur
                  ∙ (λ i. insert_at (keys i) (at i) k)
                  ∙ insert_at_at (keys_of p.xs) (keys_of p.ys) k _ refl
                  ∙ sym (keys_of-append p.xs (new_entry ∷ p.ys));
              child =
                  ap (λ (x : Node K). x.child) at_cur
                  ∙ (λ i. insert_at (childs i) (at i) s.nb_node)
                  ∙ insert_at_at (ats_of p.xs) (ats_of p.ys) s.nb_node _
                      (length-ats_of p.xs ∙ sym (length-keys_of p.xs))
                  ∙ sym (ats_of-append p.xs (new_entry ∷ p.ys));
            }

        joined_values : s.pool s.nb_node ≡ new_node → All (IsValueAt (hung cur k v s).pool) joined
        joined_values blank =
            let apart : (x : ℕ) → 0 < count_in x (ats_of es) → (hung cur k v s).pool x ≡ s.pool x =
              λ x z.
                other x
                  (ne_of_count (λ y. count_in y (ats_of es)) x cur
                    (omega (arith, one_self cur, used_once s.nb_node cur _ (loc.stands.spare cur)))
                    z)
                  (ne_of_count (λ y. count_in y (ats_of es)) x s.nb_node
                    (omega (
                      arith,
                      unused s.nb_node s.nb_node _ (loc.stands.spare s.nb_node) (omega arith),
                    ))
                    z) in
            let kept =
              values-kept s.pool (hung cur k v s).pool es
                (λ x z. (
                  ap (λ (y : Node K). y.is_value) (apart x z),
                  ap (λ (y : Node K). y.val) (apart x z),
                ))
                loc.stands.tree.1 in
            let both =
              All-cut (IsValueAt (hung cur k v s).pool) p.xs p.ys
                (subst (All (IsValueAt (hung cur k v s).pool)) p.parted kept) in
            All-append (IsValueAt (hung cur k v s).pool) p.xs (new_entry ∷ p.ys) both.0
              (at_new blank, both.1)

        pub joined-Stands : Stands m n (hung cur k v s) c (leaf cur joined)
        joined-Stands =
            let st = loc.stands in
            record {
              trail =
                  RepTrail-same s.pool (hung cur k v s).pool c cur
                    (λ x z.
                      other x
                        (ne_of_count (λ y. trail_count y c) x cur
                          (omega (arith, one_self cur, used_once s.nb_node cur _ (st.spare cur))) z)
                        (ne_of_count (λ y. trail_count y c) x s.nb_node
                          (omega (
                            arith,
                            unused s.nb_node s.nb_node _ (st.spare s.nb_node) (omega arith),
                          ))
                          z))
                    st.trail;
              tree = (joined-Cell, joined_values (st.fresh s.nb_node (omega arith)));
              spare = λ x. omega (arith, count_joined x, use_next s.nb_node x _ (st.spare x));
              fresh = λ x h.
                  other x (λ e. absurd (omega (arith, spare_cur))) (λ e. absurd (omega arith))
                  ∙ st.fresh x (omega arith);
              sorted = joined-Sorted;
              tall =
                  omega
                    (arith, st.tall, height-plug c (leaf cur es) (leaf cur joined) 0 (omega arith));
              above_fit = st.above_fit;
              below_fit = tt;
            }

        joined_size : length (keys_of joined) ≤ m
        joined_size =
            let a = ap length (keys_of-append p.xs (new_entry ∷ p.ys)) in
            let b = ap (λ (l : List (Entry K)). length (keys_of l)) p.parted in
            let d = ap length (keys_of-append p.xs p.ys) in
            omega (
              arith,
              a,
              b,
              d,
              length-append (keys_of p.xs) (k ∷ keys_of p.ys),
              length-append (keys_of p.xs) (keys_of p.ys),
              loc.fits,
            )

        pub overflow-joined :
            (fuel : ℕ)
            → 2 ≤ m
            → levels c + 2 ≤ fuel
            → s.nb_node + levels c + 3 ≤ max_node_size
            → Returns
                (λ _ s'. Overflowed m (n + 1) (hung cur k v s) c (leaf cur joined) s')
                (overflow m fuel cur (hung cur k v s))
        overflow-joined fuel two enough room =
            overflow_lem m two fuel n (hung cur k v s) c (leaf cur joined) joined-Stands joined_size
              enough (omega arith)

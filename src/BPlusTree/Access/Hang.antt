-- ===== src/BPlusTree/Access/Hang.antt =====
-- insert up to its call of overflow: the leaf has got the key and the value node.
use fat_btree.Run.{ok}
use fat_btree.Prelude.{
  ℕ, zero, suc, ◌+◌, ◌<◌, ◌≡◌, ◌≢◌, true, false, some, Bool-cases, Option-cases, inl, inr,
  get_elem?, arith, ltb, insert_at,
}
use fat_btree.Order.{Order}
use fat_btree.FieldTable.{FieldTable, update_field_table}
use fat_btree.BPlusTree.Store.{BPlusTree, root, max_node_size, update}
use fat_btree.BPlusTree.Overflow.{lower_bound, overflow}
use fat_btree.BPlusTree.Access.{insert, find_leaf}

module _ {K : Type 0} ⦃o : Order K⦄ where
  -- The state in which insert calls overflow.
  abbrev pub hung : ℕ → K → FieldTable → BPlusTree K → BPlusTree K
  hung cur k v s =
      let n = s.pool cur in
      let p = lower_bound n.key k in
      record s {
        nb_node = s.nb_node + 1;
        pool =
            update
              (update s.pool cur
                (record n { key = insert_at n.key p k; child = insert_at n.child p s.nb_node }))
              s.nb_node
              (record (s.pool s.nb_node) {
                is_leaf = false;
                is_value = true;
                parent = some cur;
                val = update_field_table v (s.pool s.nb_node).val;
              });
      }

  -- find_leaf reads the pool only.
  find_leaf-pool :
      (fuel : ℕ) (k : K) (cur a n : ℕ) (s : BPlusTree K)
      → find_leaf fuel k cur s ≡ ok a s
      → find_leaf fuel k cur (record s { nb_node = n }) ≡ ok a (record s { nb_node = n })
  unfolding find_leaf
  find_leaf-pool zero k cur a n s e = cc
  find_leaf-pool (suc fuel) k cur a n s e = elim (Bool-cases (s.pool cur).is_leaf) [
    | inl leafy ↦ ground arith
    | inr deep ↦
        elim (Option-cases (get_elem? (s.pool cur).child (lower_bound (s.pool cur).key k))) [
          | inl q ↦ ground arith
          | inr (d, q) ↦
              let below : find_leaf fuel k d s ≡ ok a s = ground arith in
              ground (arith, find_leaf-pool fuel k d a n s below)
        ]
  ]

  pub insert_run :
      (m fuel : ℕ) (k : K) (v : FieldTable) (s : BPlusTree K) (cur : ℕ)
      → s.nb_node < max_node_size
      → cur ≢ s.nb_node
      → find_leaf fuel k root s ≡ ok cur s
      → insert m fuel k v s ≡ overflow m fuel cur (hung cur k v s)
  unfolding insert update
  insert_run m fuel k v s cur room ne e =
      let t1 : ltb s.nb_node max_node_size ≡ true = ground arith in
      let t2 = find_leaf-pool fuel k root cur (s.nb_node + 1) s e in rw (t1, t2) (ground arith)

-- ===== src/RdmaTree/Insert/Whole.antt =====
-- insert of the RDMA tree against insert of the Ethernet tree, when the leaf of the key has room.
use fat_btree.Run.{ok, Returns}
use fat_btree.Prelude.{
  ℕ, zero, suc, ◌+◌, ◌-◌, ◌^◌, ◌≤◌, ◌<◌, ◌≡◌, ◌≢◌, refl, sym, ap, ◌∙◌, subst, false, List, [], ◌∷◌,
  arith, leb, ==_self, ==_different, length, length-insert_at,
}
use fat_btree.Order.{Order}
use fat_btree.FieldTable.{FieldTable, update_field_table}
use fat_btree.FieldTable.Names.{Unique, update_field_table-Unique}
use fat_btree.FixedArray.{FixedArray, to_vector}
use fat_btree.BPlusTree.Store.{Node, BPlusTree, root}
use fat_btree.BPlusTree.Store
use fat_btree.BPlusTree.Overflow.{lower_bound}
use fat_btree.BPlusTree.Overflow
use fat_btree.BPlusTree.Overflow.Climb.{Holds}
use fat_btree.BPlusTree.Access
use fat_btree.BPlusTree.Access.Hang.{hung, insert_run}
use fat_btree.BPlusTree.Access.Insert.{Inserted, insert_lem}
use fat_btree.BPlusTree.Access.Leaf.{find_leaf_lem}
use fat_btree.BPlusTree.Records.{Absent}
use fat_btree.BPlusTree.Stands.{used_lt}
use fat_btree.BPlusTree.Tree.Framing.{count-addr}
use fat_btree.BPlusTree.Tree.{Entry, Tree, leaf, top, flat, entries, keys_of, ats_of}
use fat_btree.RdmaTree.{insert}
use fat_btree.RdmaTree.Node.{RdmaTree, max_node_size}
use fat_btree.RdmaTree.Lookup.{Alike}
use fat_btree.RdmaTree.Insert.{after-Alike, insert-after}

length-ats : {K : Type 0} (es : List (Entry K)) → length (ats_of es) ≡ length (keys_of es)
length-ats [] = refl
length-ats (e ∷ es) = ap suc (length-ats es)

module _ {K : Type 0} ⦃o : Order K⦄ where
  overflow-room :
      (m fuel cur : ℕ) (s : BPlusTree K)
      → 1 ≤ fuel
      → length (s.pool cur).key < m
      → Overflow.overflow m fuel cur s ≡ ok tt s
  unfolding Overflow.overflow
  overflow-room m zero cur s h room = absurd (omega arith)
  overflow-room m (suc fuel) cur s h room =
      let e : leb m (length (s.pool cur).key) ≡ false = ground arith in rw e refl

  hung-key :
      (cur : ℕ) (k : K) (v : FieldTable) (s : BPlusTree K)
      → cur ≢ s.nb_node
      → length ((hung cur k v s).pool cur).key ≡ length (s.pool cur).key + 1
  unfolding Store.update
  hung-key cur k v s ne =
      rw (==_different cur s.nb_node ne, ==_self cur)
        (length-insert_at (s.pool cur).key (lower_bound (s.pool cur).key k) k ∙ omega arith)

module _ {K F : Type 0} ⦃o : Order K⦄ (m : ℕ) (view : List F → FieldTable)
    (P : FixedArray F → Type 0) where
  -- insert of a new key returns, and its pool then stands, parents and marks included, for the pool that
  -- insert of the Ethernet tree leaves, a whole tree with the new record among the others, with the same
  -- number of nodes and depth: if this held of the two pools before, the leaf of the key has
  -- room for one more key below M, the pool has room, the field names are different, and the key has been counted less than
  -- 2^31 - 1 times.
  pub rdma_insert_lem :
      (n fuel : ℕ) (r : RdmaTree K F) (s : BPlusTree K) (t : Tree K) (k : K) (in_val : FixedArray F)
      → Alike m view P r.pool s
      → r.nb_node ≡ s.nb_node
      → r.depth ≡ s.depth
      → Holds m n s t
      → Absent k (entries (flat t))
      → n + 1 ≤ fuel
      → s.nb_node + n + 2 ≤ max_node_size
      → ((cur : ℕ) → Access.find_leaf fuel k root s ≡ ok cur s → length (s.pool cur).key + 1 < m)
      → r.key_map k < 2 ^ 31 - 1
      → Unique (view (to_vector in_val))
      → P in_val
      → Returns
          (λ _ r'.
            (s' : BPlusTree K) × Inserted m n s t k (view (to_vector in_val)) s'
            × (Access.insert m fuel k (view (to_vector in_val)) s ≡ ok tt s')
            × Alike m view P r'.pool s'
            × (r'.nb_node ≡ s'.nb_node)
            × (r'.depth ≡ s'.depth))
          (insert m fuel k in_val r)
  rdma_insert_lem n fuel r s t k in_val same nodes levels holds absent enough room few counted
        unique sound =
      let v = view (to_vector in_val) in
      let st = holds.stands in
      let f =
        find_leaf_lem m n s k fuel top t
          (record { stands = st; fits = holds.fits; under = tt; over = tt })
          (omega (arith, st.tall)) in
      let cell = f.located.stands.tree.0 in
      let found : Access.find_leaf fuel k root s ≡ ok f.cur s =
        ap (λ (a : ℕ). Access.find_leaf fuel k a s) (sym st.trail) ∙ f.run in
      let low = few f.cur found in
      let below : f.cur < s.nb_node =
        used_lt s.nb_node f.cur _ (f.located.stands.spare f.cur)
          (omega (arith, count-addr (leaf f.cur f.records))) in
      let apart : f.cur ≢ s.nb_node = λ e. absurd (omega (arith, below, e)) in
      let paired : length (s.pool f.cur).child ≡ length (s.pool f.cur).key =
        ap length cell.child ∙ length-ats f.records ∙ sym (ap length cell.key) in
      let names : update_field_table v (s.pool s.nb_node).val ≡ v =
        ap (λ (x : Node K). update_field_table v x.val) (st.fresh s.nb_node (omega arith))
        ∙ update_field_table-Unique v unique in
      let there : Access.insert m fuel k v s ≡ ok tt (hung f.cur k v s) =
        insert_run m fuel k v s f.cur (omega arith) apart found
        ∙ overflow-room m fuel f.cur (hung f.cur k v s) (omega arith)
            (omega (arith, low, hung-key f.cur k v s apart)) in
      let done : Inserted m n s t k v (hung f.cur k v s) =
        subst (Returns (λ _ s'. Inserted m n s t k v s')) there
          (insert_lem m n fuel s t k v (omega (arith, low)) holds absent enough (omega arith)) in
      rw
        (insert-after m view P r s f.cur fuel k in_val same nodes apart low paired found
          (omega arith) counted (omega (arith, nodes)))
        (
          hung f.cur k v s,
          done,
          there,
          after-Alike m view P r s f.cur fuel k in_val same nodes apart low paired r.key_map sound
              names,
          omega (arith, nodes),
          levels,
        )

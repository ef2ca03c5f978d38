-- ===== src/BPlusTree/Access/Insert.antt =====
-- insert of lib/b_plus_tree.h on a pool that holds a tree.
use fat_btree.Run.{ok, Returns, mono}
use fat_btree.Prelude.{ℕ, ◌+◌, ◌≤◌, ◌<◌, ◌≡◌, sym, ap, ◌∙◌, List, ◌++◌, append-nil, arith}
use mathlib.Core.Path.{subst}
use fat_btree.Order.{Order}
use fat_btree.FieldTable.{FieldTable}
use fat_btree.BPlusTree.Store.{BPlusTree, root, max_node_size}
use fat_btree.BPlusTree.Overflow.{overflow}
use fat_btree.BPlusTree.Overflow.Climb.{Holds}
use fat_btree.BPlusTree.Access.{insert, find_leaf}
use fat_btree.BPlusTree.Access.Leaf.{find_leaf_lem}
use fat_btree.BPlusTree.Records.{put, Absent, place}
use fat_btree.BPlusTree.Stands.{whole}
use fat_btree.BPlusTree.Tree.{Tree, leaf, top, items, flat, entries, Token}
use fat_btree.BPlusTree.Tree.Sorting.{Sorted-cut}
use fat_btree.BPlusTree.Tree.Zipper.{before, after}
use fat_btree.BPlusTree.Access.Hang.{hung, insert_run}
use fat_btree.BPlusTree.Access.Joined.{new_entry, joined-entries, overflow-joined, spare_cur}

module _ {K : Type 0} ⦃o : Order K⦄ where
  -- What insert leaves: a whole tree again, with the new record among the others.
  pub record Inserted (m n : ℕ) (s : BPlusTree K) (t : Tree K) (k : K) (v : FieldTable)
      (s' : BPlusTree K) : Type 0 where
    pub tree : Tree K
    pub holds : Holds m (n + 1) s' tree
    pub same : entries (flat tree) ≡ put (new_entry m n s k v) (entries (flat t))
    pub grown : s'.nb_node ≤ s.nb_node + n + 2

  -- insert of a new key returns, given a level of fuel more than the tree is high and room for the
  -- nodes that it takes. It leaves a tree in which every node has fewer than m keys and every key lies
  -- on its side of the separators, whose records are the old ones with the new one in its place.
  pub insert_lem :
      (m n fuel : ℕ) (s : BPlusTree K) (t : Tree K) (k : K) (v : FieldTable)
      → 2 ≤ m
      → Holds m n s t
      → Absent k (entries (flat t))
      → n + 1 ≤ fuel
      → s.nb_node + n + 2 ≤ max_node_size
      → Returns (λ _ s'. Inserted m n s t k v s') (insert m fuel k v s)
  insert_lem m n fuel s t k v two holds absent enough room =
      let st = holds.stands in
      let f =
        find_leaf_lem m n s k fuel top t
          (record { stands = st; fits = holds.fits; under = tt; over = tt })
          (omega (arith, st.tall)) in
      let loc = f.located in
      let p =
        place k f.records
          (Sorted-cut (items f.records) (after f.trail)
            (Sorted-cut (before f.trail) (items f.records ++ after f.trail)
              loc.stands.sorted).1).0 in
      let old : whole f.trail (leaf f.cur f.records) ≡ flat t = f.same ∙ append-nil (flat t) in
      let absent' : Absent k (entries (whole f.trail (leaf f.cur f.records))) =
        subst (λ (l : List (Token K)). Absent k (entries l)) (sym old) absent in
      let run : find_leaf fuel k root s ≡ ok f.cur s =
        ap (λ (a : ℕ). find_leaf fuel k a s) (sym st.trail) ∙ f.run in
      let below : f.cur < s.nb_node = spare_cur m n s k v f.trail f.cur f.records loc p in
      rw (insert_run m fuel k v s f.cur (omega arith) (λ e. absurd (omega arith)) run) (
        mono _ (λ _ s'. Inserted m n s t k v s') (overflow m fuel f.cur (hung f.cur k v s))
          (overflow-joined m n s k v f.trail f.cur f.records loc p absent' fuel two
            (omega (arith, f.deep, st.tall)) (omega (arith, f.deep, st.tall)))
          λ _ s' w. record {
            tree = w.tree;
            holds = w.holds;
            same =
                w.same
                ∙ joined-entries m n s k v f.trail f.cur f.records loc p absent'
                ∙ ap (λ (l : List (Token K)). put (new_entry m n s k v) (entries l)) old;
            grown = omega (arith, w.grown, f.deep, st.tall);
          })

-- ===== src/BPlusTree/Access/Lookup.antt =====
-- lookup of lib/b_plus_tree.h on a pool that holds a tree.
use fat_btree.Run.{Returns, bind}
use fat_btree.Prelude.{ℕ, ◌+◌, ◌≤◌, ◌<◌, ◌≡◌, refl, ap, ◌∙◌, some, arith}
use fat_btree.Order.{Order}
use fat_btree.BPlusTree.Store.{Node, BPlusTree, inc32}
use fat_btree.BPlusTree.Access.{node_at_bias, walk_counted, lookup}
use fat_btree.BPlusTree.Access.Leaf.{Located}
use fat_btree.BPlusTree.Access.Seen.{Seen, Seen-touched, touched}
use fat_btree.BPlusTree.Records.{get}
use fat_btree.BPlusTree.Stands.{whole, height, used_lt}
use fat_btree.BPlusTree.Tree.{Entry, Tree, Trail, addr, entries}
use fat_btree.BPlusTree.Tree.Framing.{count-addr}
use fat_btree.BPlusTree.Access.Descent.{walk_lem, AtValue, walk_counted-Descent}

module _ {K : Type 0} ⦃o : Order K⦄ where
  -- lookup of a key that has a record returns the fields of that record, given a level of fuel more
  -- than the tree below the start is high, and changes counters only. The start is the root, for
  -- the bias 0, or any node on the way from the root to the key, for the node's bias.
  pub lookup_lem :
      (m n size bias fuel : ℕ) (s : BPlusTree K) (k : K) (e : Entry K) (c : Trail K) (t : Tree K)
      → Located m n s k c t
      → node_at_bias size bias ≡ some (addr t)
      → get k (entries (whole c t)) ≡ some e
      → height t + 1 ≤ fuel
      → Returns (λ fields s'. (fields ≡ e.val) × Seen s s') (lookup size fuel k bias s)
  unfolding lookup
  lookup_lem m n size bias fuel s k e c t loc at g h =
      let used : addr t < s.nb_node =
        used_lt s.nb_node (addr t) _ (loc.stands.spare (addr t)) (omega (arith, count-addr t)) in
      let begun = touched (addr t) (record s { nb_query = inc32 s.nb_query }) in
      let start : Seen s begun =
        Seen-touched s (record s { nb_query = inc32 s.nb_query }) (addr t) used
          (record { nodes = refl; levels = refl; pools = λ x. refl; fresh = λ x l. refl }) in
      rw at (
        bind (AtValue walk_counted walk_counted-Descent m n s k e)
          (λ fields s'. (fields ≡ e.val) × Seen s s') (walk_counted fuel k (addr t) begun) _
          (walk_lem walk_counted walk_counted-Descent m n s k e fuel c t begun loc start g h)
          λ a s' v. (
            ap (λ (b : ℕ). (s'.pool b).val) v.at
                ∙ ap (λ (x : Node K). x.val) (v.seen.pools e.at)
                ∙ v.value.1,
            v.seen,
          ))

-- ===== src/BPlusTree/Access/Update.antt =====
-- update of lib/b_plus_tree.h, seen in the tree and in its records.
use fat_btree.Run.{Returns, bind}
use fat_btree.Prelude.{
  ℕ, ◌+◌, ◌≤◌, ◌<◌, ◌≡◌, refl, sym, ap, ◌∙◌, none, some, List, [], ◌∷◌, append-nil, arith, ◌==◌,
  if◌then◌else◌,
}
use mathlib.Core.Path.{subst}
use fat_btree.Order.{Order}
use fat_btree.FieldTable.{FieldTable, update_field_table}
use fat_btree.BPlusTree.Store.{Node, BPlusTree, update}
use fat_btree.BPlusTree.Overflow.Climb.{Holds}
use fat_btree.BPlusTree.Stands.{whole, height, FitsBelow-of, used_lt}
use fat_btree.BPlusTree.Tree.{
  Entry, Tree, Token, Trail, item, sep, addr, flat, entries, Cross, Sorted,
}
use fat_btree.BPlusTree.Tree.Framing.{count-addr}
use fat_btree.BPlusTree.Access.{node_at_bias, update_record, walk}
use fat_btree.BPlusTree.Access.Leaf.{Located}
use fat_btree.BPlusTree.Access.Descent.{AtValue, walk_lem, walk-Descent}
use fat_btree.BPlusTree.Access.Revalue.{
  revalue, revalue_tree, revalue_walk, entries-revalue_walk, flat-revalue_tree, addr-revalue_tree,
  count-revalue_tree, height-revalue_tree, Fits-revalue_tree, Rep-revalue_tree,
}
use fat_btree.BPlusTree.Access.Seen.{Seen-self, Seen-touched, touched, Holds-Seen}
use fat_btree.BPlusTree.Records.{get}

module _ {K : Type 0} ⦃o : Order K⦄ (x : ℕ) (v : FieldTable) where
  Cross-revalue_walk :
      (y : Token K) (ts : List (Token K))
      → Cross (y ∷ []) ts
      → Cross (revalue_walk x v (y ∷ [])) (revalue_walk x v ts)
  Cross-revalue_walk (item e) [] c = tt
  Cross-revalue_walk (sep k) [] c = tt
  Cross-revalue_walk (item e) (item f ∷ ts) (c, cs) = (c, Cross-revalue_walk (item e) ts cs)
  Cross-revalue_walk (item e) (sep k ∷ ts) (c, cs) = (c, Cross-revalue_walk (item e) ts cs)
  Cross-revalue_walk (sep k) (item f ∷ ts) (c, cs) = (c, Cross-revalue_walk (sep k) ts cs)
  Cross-revalue_walk (sep k) (sep j ∷ ts) (c, cs) = (c, Cross-revalue_walk (sep k) ts cs)

  Sorted-revalue_walk : (ts : List (Token K)) → Sorted ts → Sorted (revalue_walk x v ts)
  Sorted-revalue_walk [] s = tt
  Sorted-revalue_walk (item e ∷ ts) (c, s) =
      (Cross-revalue_walk (item e) ts c, Sorted-revalue_walk ts s)
  Sorted-revalue_walk (sep k ∷ ts) (c, s) =
      (Cross-revalue_walk (sep k) ts c, Sorted-revalue_walk ts s)

  -- The write of new fields to the node at `x`, seen in the tree.
  Holds-revalue_tree :
      (m n : ℕ) (s s' : BPlusTree K) (t : Tree K)
      → x < s.nb_node
      → s'.nb_node ≡ s.nb_node
      → ((y : ℕ) → s'.pool y ≡ record (s.pool y) { val = if y == x then v else (s.pool y).val })
      → Holds m n s t
      → Holds m n s' (revalue_tree x v t)
  Holds-revalue_tree m n s s' t used same changed holds =
      let st = holds.stands in
      let fits = Fits-revalue_tree x v m t holds.fits in
      record {
        stands = record {
          trail = addr-revalue_tree x v t ∙ st.trail;
          tree = Rep-revalue_tree x v s.pool s'.pool changed t none st.tree;
          spare = λ y. rw same (omega (arith, count-revalue_tree x v y t, st.spare y));
          fresh = λ y h.
              let other : (if y == x then v else (s.pool y).val) ≡ (s.pool y).val = ground arith in
              changed y
              ∙ ap (λ (f : FieldTable). record (s.pool y) { val = f }) other
              ∙ st.fresh y (omega (arith, same));
          sorted =
              subst Sorted (sym (append-nil (flat (revalue_tree x v t)) ∙ flat-revalue_tree x v t))
                (Sorted-revalue_walk (flat t) (subst Sorted (append-nil (flat t)) st.sorted));
          tall = omega (arith, height-revalue_tree x v t, st.tall);
          above_fit = tt;
          below_fit = FitsBelow-of m (revalue_tree x v t) fits;
        };
        fits = fits;
      }

rewritten :
    {K : Type 0} (pool : ℕ → Node K) (a b : ℕ) (old new : FieldTable)
    → a ≡ b
    → old ≡ new
    → (y : ℕ)
    → update pool a (record (pool a) { val = old }) y
      ≡ record (pool y) { val = if y == b then new else (pool y).val }
unfolding update
rewritten pool a b old new at same y = ground arith

module _ {K : Type 0} ⦃o : Order K⦄ where
  -- What update leaves: the records that were there, with new fields in the one at the address of `e`.
  pub record Updated (m n : ℕ) (s : BPlusTree K) (t : Tree K) (e : Entry K) (v : FieldTable)
      (s' : BPlusTree K) : Type 0 where
    pub tree : Tree K
    pub holds : Holds m n s' tree
    pub same : entries (flat tree) ≡ revalue e.at (update_field_table v e.val) (entries (flat t))
    pub nodes : s'.nb_node ≡ s.nb_node

  -- update of a key that has a record, begun at the root or at any node on the way to it, returns. The
  -- whole tree stays well-formed and keeps its records, but for the fields of that record, which
  -- update_field_table has updated.
  pub update_record_lem :
      (m n size bias fuel : ℕ) (s : BPlusTree K) (whole_tree : Tree K) (k : K) (v : FieldTable)
      (e : Entry K) (c : Trail K) (t : Tree K)
      → Holds m n s whole_tree
      → Located m n s k c t
      → node_at_bias size bias ≡ some (addr t)
      → get k (entries (whole c t)) ≡ some e
      → height t + 1 ≤ fuel
      → Returns (λ _ s'. Updated m n s whole_tree e v s') (update_record size fuel k v bias s)
  unfolding update_record update
  update_record_lem m n size bias fuel s w k v e c t holds loc at g h =
      let used : addr t < s.nb_node =
        used_lt s.nb_node (addr t) _ (loc.stands.spare (addr t)) (omega (arith, count-addr t)) in
      rw at (
        bind (AtValue walk walk-Descent m n s k e) (λ _ s'. Updated m n s w e v s')
          (walk fuel k (addr t) (touched (addr t) s)) _
          (walk_lem walk walk-Descent m n s k e fuel c t (touched (addr t) s) loc
            (Seen-touched s s (addr t) used (Seen-self s)) g h)
          λ a s1 q.
            let held = Holds-Seen m n s s1 w q.seen holds in
            let old : (s1.pool a).val ≡ e.val =
              ap (λ (b : ℕ). (s1.pool b).val) q.at
              ∙ ap (λ (y : Node K). y.val) (q.seen.pools e.at)
              ∙ q.value.1 in
            let new = update_field_table v e.val in
            record {
              tree = revalue_tree e.at new w;
              holds =
                  Holds-revalue_tree e.at new m n s1 _ w (omega (arith, q.used, q.at, q.seen.nodes))
                    refl
                    (rewritten s1.pool a e.at (update_field_table v (s1.pool a).val) new q.at
                      (ap (update_field_table v) old))
                    held;
              same =
                  ap entries (flat-revalue_tree e.at new w)
                  ∙ entries-revalue_walk e.at new (flat w);
              nodes = q.seen.nodes;
            })

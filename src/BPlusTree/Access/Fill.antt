-- ===== src/BPlusTree/Access/Fill.antt =====
-- Many calls of insert, and a lookup after them.
use fat_btree.Run.{Cmd, ◌>>◌, pure, Returns, mono, bind}
use fat_btree.Prelude.{
  ℕ, zero, suc, ◌+◌, ◌*◌, ◌≤◌, ◌<◌, ◌≡◌, ◌≢◌, refl, sym, ap, ◌∙◌, some, List, [], ◌∷◌, append-nil,
  arith, length, get_elem?, All,
}
use mathlib.Core.Path.{subst}
use fat_btree.BPlusTree.Access.Bias.{node_at_bias-root}
use fat_btree.Order.{Order}
use fat_btree.FieldTable.{FieldTable, update_field_table}
use fat_btree.FieldTable.Names.{Unique, update_field_table-Unique}
use fat_btree.BPlusTree.Store.{BPlusTree, empty_tree, max_node_size}
use fat_btree.BPlusTree.Overflow.Climb.{Holds}
use fat_btree.BPlusTree.Access.{insert, lookup}
use fat_btree.BPlusTree.Access.Insert.{Inserted, insert_lem}
use fat_btree.BPlusTree.Access.Joined.{new_entry}
use fat_btree.BPlusTree.Access.Lookup.{lookup_lem}
use fat_btree.BPlusTree.Access.Seen.{Seen}
use fat_btree.BPlusTree.Records.{put, get, Absent}
use fat_btree.BPlusTree.Tree.{Entry, Tree, leaf, Token, top, flat, entries}
use fat_btree.BPlusTree.Records.Put.{Absent-put, get-put_same, get-put_other}

module _ {K : Type 0} ⦃o : Order K⦄ where
  -- Inserts one record after the other.
  unfoldable pub fill : ℕ → ℕ → List (K × FieldTable) → Cmd (BPlusTree K) (Unit {0})
  fill m fuel [] = pure tt
  fill m fuel ((k, v) ∷ rs) = insert m fuel k v >> fill m fuel rs

  abbrev pub New : K → List (K × FieldTable) → Type 0
  New k rs = All (λ (r : K × FieldTable). r.0 ≢ k) rs

  abbrev pub Apart : List (K × FieldTable) → Type 0
  Apart [] = Unit
  Apart ((k, v) ∷ rs) = New k rs × Apart rs

  -- The fields of each record, which get finds under its key.
  abbrev pub Kept : List (Entry K) → K × FieldTable → Type 0
  Kept es r = (e : Entry K) × (get r.0 es ≡ some e) × (e.val ≡ update_field_table r.1 [])

  Kept-put :
      (e : Entry K) (es : List (Entry K)) (rs : List (K × FieldTable))
      → New e.key rs
      → All (Kept es) rs
      → All (Kept (put e es)) rs
  Kept-put e es [] new kept = tt
  Kept-put e es (r ∷ rs) (ne, news) ((x, got, val), rest) =
      ((x, get-put_other r.0 e es (λ q. ne (sym q)) ∙ got, val), Kept-put e es rs news rest)

  New-put :
      (e : Entry K) (es : List (Entry K)) (rs : List (K × FieldTable))
      → New e.key rs
      → All (λ (r : K × FieldTable). Absent r.0 es) rs
      → All (λ (r : K × FieldTable). Absent r.0 (put e es)) rs
  New-put e es [] new a = tt
  New-put e es (r ∷ rs) (ne, news) (a, rest) =
      (Absent-put r.0 e es (λ q. ne (sym q)) a, New-put e es rs news rest)

  -- The tree after some insertions: it keeps the records of `rs`, and those of `before`.
  pub record Filled (m n : ℕ) (rs before : List (K × FieldTable)) (s : BPlusTree K) : Type 0 where
    pub tree : Tree K
    pub holds : Holds m n s tree
    pub kept : All (Kept (entries (flat tree))) rs
    pub older : All (Kept (entries (flat tree))) before

  pub empty-Holds : (m : ℕ) → 1 ≤ m → Holds {K = K} m 1 empty_tree (leaf 0 [])
  empty-Holds m pos = record {
    stands = record {
      trail = refl;
      tree = (record { value = refl; leafy = refl; parent = refl; key = refl; child = refl }, tt);
      spare = λ x. ground arith;
      fresh = λ x h. refl;
      sorted = tt;
      tall = omega arith;
      above_fit = tt;
      below_fit = tt;
    };
    fits = omega arith;
  }

  New-older :
      (k : K) (v : FieldTable) (rs before : List (K × FieldTable))
      → New k rs
      → All (λ (r : K × FieldTable). New r.0 before) rs
      → All (λ (r : K × FieldTable). New r.0 ((k, v) ∷ before)) rs
  New-older k v [] before w new = tt
  New-older k v (r ∷ rs) before (ne, w) (old, new) =
      (((λ q. ne (sym q)), old), New-older k v rs before w new)

  fill_from :
      (m n fuel : ℕ) (rs before : List (K × FieldTable)) (s : BPlusTree K) (t : Tree K)
      → 2 ≤ m
      → Holds m n s t
      → All (Kept (entries (flat t))) before
      → All (λ (r : K × FieldTable). Absent r.0 (entries (flat t))) rs
      → All (λ (r : K × FieldTable). New r.0 before) rs
      → Apart rs
      → n + length rs ≤ fuel
      → s.nb_node + length rs * (fuel + 2) ≤ max_node_size
      → Returns (λ _ s'. Filled m (n + length rs) rs before s') (fill m fuel rs s)
  unfolding fill
  fill_from m n fuel [] before s t two holds kept absent new apart enough room =
      let e : n + 0 ≡ n = omega arith in
      rw e (record { tree = t; holds = holds; kept = tt; older = kept })
  fill_from m n fuel ((k, v) ∷ rs) before s t two holds kept (a, absent) (old, new) (w, apart)
        enough room =
      bind (λ _ s1. Inserted m n s t k v s1)
        (λ _ s'. Filled m (n + suc (length rs)) ((k, v) ∷ rs) before s') (insert m fuel k v s) _
        (insert_lem m n fuel s t k v two holds a (omega arith) (omega arith))
        λ _ s1 i.
          let e = new_entry m n s k v in
          let es = entries (flat t) in
          let still =
            subst (λ (xs : List (Entry K)). All (Kept xs) ((k, v) ∷ before)) (sym i.same)
              ((e, get-put_same e es, refl), Kept-put e es before old kept) in
          let absent' =
            subst (λ (xs : List (Entry K)). All (λ (r : K × FieldTable). Absent r.0 xs) rs)
              (sym i.same) (New-put e es rs w absent) in
          let more =
            fill_from m (n + 1) fuel rs ((k, v) ∷ before) s1 i.tree two i.holds still absent'
              (New-older k v rs before w new) apart (omega arith) (omega (arith, i.grown)) in
          mono (λ _ s'. Filled m (n + 1 + length rs) rs ((k, v) ∷ before) s') _ (fill m fuel rs s1)
            more
            λ _ s' f.
              let same : n + 1 + length rs ≡ n + suc (length rs) = omega arith in
              record {
                tree = f.tree;
                holds = subst (λ (h : ℕ). Holds m h s' f.tree) same f.holds;
                kept = (f.older.0, f.kept);
                older = f.older.1;
              }

  empty-Absent : (rs : List (K × FieldTable)) → All (λ (r : K × FieldTable). Absent r.0 []) rs
  empty-Absent [] = tt
  empty-Absent (r ∷ rs) = (tt, empty-Absent rs)

  empty-New : (rs : List (K × FieldTable)) → All (λ (r : K × FieldTable). New r.0 []) rs
  empty-New [] = tt
  empty-New (r ∷ rs) = (tt, empty-New rs)

  -- Records with different keys can be inserted one after the other into an empty tree, which holds
  -- all of them in the end: its levels are at most one more than the records.
  pub fill_lem :
      (m fuel : ℕ) (rs : List (K × FieldTable))
      → 2 ≤ m
      → Apart rs
      → 1 + length rs ≤ fuel
      → 1 + length rs * (fuel + 2) ≤ max_node_size
      → Returns (λ _ s'. Filled m (1 + length rs) rs [] s') (fill m fuel rs empty_tree)
  fill_lem m fuel rs two apart enough room =
      fill_from m 1 fuel rs [] empty_tree (leaf 0 []) two (empty-Holds m (omega arith)) tt
        (empty-Absent rs) (empty-New rs) apart enough room

  Kept-here :
      (es : List (Entry K)) (rs : List (K × FieldTable)) (i : ℕ) (r : K × FieldTable)
      → get_elem? rs i ≡ some r
      → All (Kept es) rs
      → Kept es r
  Kept-here es [] i r got kept = cc
  Kept-here es (q ∷ rs) zero r got (p, ps) = let e : q ≡ r = cc in subst (Kept es) e p
  Kept-here es (q ∷ rs) (suc i) r got (p, ps) = Kept-here es rs i r got ps

  -- lookup from the root of a whole tree.
  pub lookup-Holds :
      (m n size fuel : ℕ) (s : BPlusTree K) (t : Tree K) (k : K) (e : Entry K)
      → Holds m n s t
      → 0 < size
      → get k (entries (flat t)) ≡ some e
      → n + 1 ≤ fuel
      → Returns (λ fields s'. (fields ≡ e.val) × Seen s s') (lookup size fuel k 0 s)
  lookup-Holds m n size fuel s t k e holds pos got enough =
      lookup_lem m n size 0 fuel s k e top t
        (record { stands = holds.stands; fits = holds.fits; under = tt; over = tt })
        (node_at_bias-root size pos ∙ ap some (sym holds.stands.trail))
        (ap (λ (l : List (Token K)). get k (entries l)) (append-nil (flat t)) ∙ got)
        (omega (arith, holds.stands.tall))

  -- After records with different keys were inserted one after the other into an empty tree, lookup from
  -- the root returns the fields of each of them that has no field name twice; all of the insertions end.
  -- The fuel has a level for each record and two more, and the pool of 100000000 nodes has room for
  -- fuel + 2 nodes for each record and one, which is so for up to 9998 records.
  pub lookup-fill :
      (m size fuel : ℕ) (rs : List (K × FieldTable)) (i : ℕ) (k : K) (v : FieldTable)
      → 2 ≤ m
      → 0 < size
      → Apart rs
      → 2 + length rs ≤ fuel
      → 1 + length rs * (fuel + 2) ≤ max_node_size
      → get_elem? rs i ≡ some (k, v)
      → Unique v
      → Returns (λ fields s. fields ≡ v) ((fill m fuel rs >> lookup size fuel k 0) empty_tree)
  lookup-fill m size fuel rs i k v two pos apart enough room got unique =
      bind (λ _ s. Filled m (1 + length rs) rs [] s) _ (fill m fuel rs empty_tree) _
        (fill_lem m fuel rs two apart (omega arith) room)
        λ _ s f.
          let e = Kept-here (entries (flat f.tree)) rs i (k, v) got f.kept in
          mono (λ fields s'. (fields ≡ e.0.val) × Seen s s') _ (lookup size fuel k 0 s)
            (lookup-Holds m (1 + length rs) size fuel s f.tree k e.0 f.holds pos e.1 (omega arith))
            λ fields s' q. q.0 ∙ e.2 ∙ update_field_table-Unique v unique

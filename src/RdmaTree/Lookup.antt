-- ===== src/RdmaTree/Lookup.antt =====
-- lookup of RDMA/CPU/lib/b_plus_tree.h on a pool that stands for a tree.
use fat_btree.Run.{Returns, bind, mono}
use fat_btree.Prelude.{
  ℕ, zero, suc, ◌+◌, ◌-◌, ◌^◌, ◌≤◌, ◌<◌, ◌≡◌, refl, sym, ap, ◌∙◌, subst, true, Bool-cases, inl, inr,
  Option, some, List, arith, get_elem?, ltb, ◌==◌,
}
use fat_btree.Order.{Order}
use fat_btree.FieldTable.{FieldTable}
use fat_btree.FixedArray.{FixedArray, to_vector}
use fat_btree.BPlusTree.Store.{Node, BPlusTree, inc32}
use fat_btree.BPlusTree.Overflow.{lower_bound}
use fat_btree.BPlusTree.Access.Descent.{AtValue}
use fat_btree.BPlusTree.Access.Leaf.{Located}
use fat_btree.BPlusTree.Records.{get}
use fat_btree.BPlusTree.Stands.{whole, height}
use fat_btree.BPlusTree.Tree.{Entry, Tree, Trail, addr, entries}
use fat_btree.RdmaTree.{walk, lookup, start_node}
use fat_btree.RdmaTree.Node.{RdmaNode, RdmaTree, update, touch}
use fat_btree.RdmaTree.Sim.{Same, path, path-Descent, path_lem, stops, steps, path-Head, elems-cell}

-- `r'` is `r` after some walks: it differs from it in the counters, those of the nodes included, and in
-- nothing else.
pub record Counted {K F : Type 0} (r r' : RdmaTree K F) : Type 0 where
  pub nodes : r'.nb_node ≡ r.nb_node
  pub levels : r'.depth ≡ r.depth
  pub keys : r'.key_map ≡ r.key_map
  pub pools : (a : ℕ) → r'.pool a ≡ record (r.pool a) { access_count = (r'.pool a).access_count }

Counted-self : {K F : Type 0} (r : RdmaTree K F) → Counted r r
Counted-self r = record { nodes = refl; levels = refl; keys = refl; pools = λ a. refl }

Counted-trans :
    {K F : Type 0} (r r1 r2 : RdmaTree K F) → Counted r r1 → Counted r1 r2 → Counted r r2
Counted-trans {K = K} {F = F} r r1 r2 p q = record {
  nodes = q.nodes ∙ p.nodes;
  levels = q.levels ∙ p.levels;
  keys = q.keys ∙ p.keys;
  pools = λ a.
      q.pools a
      ∙ ap (λ (n : RdmaNode K F). record n { access_count = (r2.pool a).access_count }) (p.pools a);
}

-- A node counted, and the counters of the tree set.
Counted-touched :
    {K F : Type 0} (r : RdmaTree K F) (queries accesses c n : ℕ)
    → Counted r (record r {
      nb_query = queries;
      nb_access = accesses;
      pool = update r.pool c (record (r.pool c) { access_count = n });
    })
unfolding update
Counted-touched r queries accesses c n = record {
  nodes = refl;
  levels = refl;
  keys = refl;
  pools = λ a. elim (Bool-cases (a == c)) [
    | inl p ↦
        let e : a ≡ c = ground arith in
        rw p (ap (λ (x : ℕ). record (r.pool x) { access_count = n }) (sym e))
    | inr p ↦ rw p refl
  ];
}

module _ {K F : Type 0} ⦃o : Order K⦄ (m : ℕ) (view : List F → FieldTable)
    (P : FixedArray F → Type 0) where
  -- The pools stand for each other.
  abbrev pub Alike : (ℕ → RdmaNode K F) → BPlusTree K → Type 0
  Alike pool s = (a : ℕ) → Same m view P (pool a) (s.pool a)

  -- Nodes that differ in their access counts only.
  Alike-touched :
      (pool : ℕ → RdmaNode K F) (s : BPlusTree K) (c n : ℕ)
      → Alike pool s
      → Alike (update pool c (record (pool c) { access_count = n })) s
  unfolding update
  Alike-touched pool s c n same a = elim (Bool-cases (a == c)) [
    | inl p ↦
        let e : a ≡ c = ground arith in
        rw p (
          subst (λ (x : ℕ). Same m view P (record (pool c) { access_count = n }) (s.pool x)) (sym e)
            (record {
              value = (same c).value;
              leafy = (same c).leafy;
              parent = (same c).parent;
              loaded = (same c).loaded;
              key = (same c).key;
              child = (same c).child;
              room = (same c).room;
              fields = (same c).fields;
              sound = (same c).sound;
            }))
    | inr p ↦ rw p (same a)
  ]

  -- The child that a step goes to, in the array.
  pub Same-child :
      (n : RdmaNode K F) (x : Node K) (k : K) (c : ℕ)
      → Same m view P n x
      → get_elem? x.child (lower_bound x.key k) ≡ some c
      → (lower_bound (to_vector n.key) k < n.child.size)
        × (n.child.val (lower_bound (to_vector n.key) k) ≡ c)
  Same-child n x k c same e =
      let e' : get_elem? (to_vector n.child) (lower_bound (to_vector n.key) k) ≡ some c =
        (λ i. get_elem? (same.child i) (lower_bound (same.key i) k)) ∙ e in
      let cell = elems-cell n.child.val 0 n.child.size (lower_bound (to_vector n.key) k) c e' in
      let q : 0 + lower_bound (to_vector n.key) k ≡ lower_bound (to_vector n.key) k = omega arith in
      (omega (arith, cell.0), sym (ap n.child.val q) ∙ cell.1)

  pub walk-path :
      (k : K) (fuel cur : ℕ) (r : RdmaTree K F) (s : BPlusTree K) (Q : ℕ → BPlusTree K → Type 0)
      → Alike r.pool s
      → r.nb_access + fuel < 2 ^ 31
      → Returns Q (path fuel k cur s)
      → Returns (λ a r'. Q a s × Alike r'.pool s × Counted r r') (walk m fuel k cur r)
  unfolding walk touch path
  walk-path k zero cur r s Q same small p = absurd p
  walk-path k (suc fuel) cur r s Q same small p =
      let n = r.pool cur in
      elim (path-Head fuel k cur s Q p) [
        | stops v q ↦ rw ((same cur).value ∙ v) (q, same, Counted-self r)
        | steps c v e rest ↦
            let at = Same-child n (s.pool cur) k c (same cur) e in
            let fits : ltb r.nb_access (2 ^ 31 - 1) ≡ true = ground (arith, small) in
            let inside : ltb (lower_bound (to_vector n.key) k) m ≡ true =
              ground (arith, at.0, (same cur).room) in
            let counted : ℕ = inc32 (r.pool c).access_count in
            let r1 : RdmaTree K F = record r {
              nb_access = r.nb_access + 1;
              pool = update r.pool c (record (r.pool c) { access_count = counted });
            } in
            rw ((same cur).value ∙ v, fits, inside, at.1)
              (mono _ _ (walk m fuel k c r1)
                (walk-path k fuel c r1 s Q (Alike-touched r.pool s c counted same)
                  (omega (arith, small)) rest)
                λ a r' (q, same', few). (
                  q,
                  same',
                  Counted-trans r r1 r' (Counted-touched r r.nb_query (r.nb_access + 1) c counted)
                      few,
                ))
      ]

  -- lookup of a key that has a record returns the fields of that record, for which `P` holds, and changes
  -- nothing of the tree but nb_query, nb_access and the access counts of nodes, given a level of fuel more
  -- than the tree below the start is high and counters that do not reach 2^31. The start is the root, for
  -- a null pointer, or any node on the way to the key.
  pub rdma_lookup_lem :
      (n fuel : ℕ) (cur : Option ℕ) (r : RdmaTree K F) (s : BPlusTree K) (k : K) (e : Entry K)
      (c : Trail K) (t : Tree K)
      → Alike r.pool s
      → Located m n s k c t
      → start_node cur ≡ addr t
      → get k (entries (whole c t)) ≡ some e
      → height t + 1 ≤ fuel
      → r.nb_query < 2 ^ 31 - 1
      → r.nb_access + fuel < 2 ^ 31
      → Returns
          (λ fields r'.
            (view (to_vector fields) ≡ e.val) × P fields × Alike r'.pool s × Counted r r')
          (lookup m fuel k cur r)
  unfolding lookup touch
  rdma_lookup_lem n fuel cur r s k e c t same loc at g h queries accesses =
      let counted : ℕ = inc32 (r.pool (start_node cur)).access_count in
      let r1 : RdmaTree K F = record r {
        nb_query = r.nb_query + 1;
        pool =
            update r.pool (start_node cur)
              (record (r.pool (start_node cur)) { access_count = counted });
      } in
      let fits : ltb r.nb_query (2 ^ 31 - 1) ≡ true = ground (arith, queries) in
      let found : Returns (AtValue path path-Descent m n s k e) (path fuel k (start_node cur) s) =
        subst (λ (a : ℕ). Returns (AtValue path path-Descent m n s k e) (path fuel k a s)) (sym at)
          (path_lem m n s k e fuel c t loc g h) in
      rw fits (
        bind (λ a r'. AtValue path path-Descent m n s k e a s × Alike r'.pool s × Counted r1 r')
          (λ fields r'.
            (view (to_vector fields) ≡ e.val) × P fields × Alike r'.pool s × Counted r r')
          (walk m fuel k (start_node cur) r1) _
          (walk-path k fuel (start_node cur) r1 s (AtValue path path-Descent m n s k e)
            (Alike-touched r.pool s (start_node cur) counted same) accesses found)
          λ a r' (v, same', few). (
            (same' a).fields (ap (λ (b : ℕ). (s.pool b).is_value) v.at ∙ v.value.0)
                ∙ ap (λ (b : ℕ). (s.pool b).val) v.at
                ∙ v.value.1,
            (same' a).sound,
            same',
            Counted-trans r r1 r'
                (Counted-touched r (r.nb_query + 1) r.nb_access (start_node cur) counted) few,
          ))

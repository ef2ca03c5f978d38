-- ===== src/RdmaTree/Insert.antt =====
-- insert of RDMA/CPU/lib/b_plus_tree.h into a leaf with room, on a pool that stands for a tree.
pub mod Whole
use fat_btree.Run.{Run, ok, Returns}
use fat_btree.Prelude.{
  ℕ, zero, suc, ◌+◌, ◌-◌, ◌^◌, ◌≤◌, ◌<◌, ◌≡◌, ◌≢◌, refl, sym, ap, ◌∙◌, subst, Bool, true, false,
  Bool-cases, Option-cases, inl, inr, Option, none, some, List, [], ◌∷◌, arith, get_elem?, ltb, leb,
  ◌==◌, ◌||◌, ==_self, ==_different, if◌then◌else◌, length, insert_at, length-insert_at,
}
use fat_btree.Order.{Order, ◌<?◌}
use fat_btree.FieldTable.{FieldTable, update_field_table}
use fat_btree.FixedArray.{FixedArray, to_vector, insert_one}
use fat_btree.FixedArray.Elements.{insert_one-insert_at, length-elems}
use fat_btree.BPlusTree.Store.{Node, BPlusTree, root}
use fat_btree.BPlusTree.Store
use fat_btree.BPlusTree.Overflow.{lower_bound}
use fat_btree.BPlusTree.Access
use fat_btree.BPlusTree.Access.Hang.{hung}
use fat_btree.RdmaTree.{find_leaf, count_key, insert}
use fat_btree.RdmaTree.Node.{RdmaNode, RdmaTree, update, max_node_size}
use fat_btree.RdmaTree.Overflow.{overflow}
use fat_btree.RdmaTree.Sim.{Same}
use fat_btree.RdmaTree.Lookup.{Alike, Same-child}

lower_bound-le : {K : Type 0} ⦃o : Order K⦄ (xs : List K) (k : K) → lower_bound xs k ≤ length xs
unfolding lower_bound
lower_bound-le [] k = omega arith
lower_bound-le (x ∷ xs) k = ground (arith, lower_bound-le xs k)

module _ {A : Type 0} (m : ℕ) where
  -- An insertion into an array with a cell left, against one into the list of its elements.
  pub record Placed (xs : List A) (i : ℕ) (x : A) (a : FixedArray A) : Type 0 where
    pub array : FixedArray A
    pub run : insert_one m i x a ≡ some array
    pub same : to_vector array ≡ insert_at xs i x
    pub grown : array.size ≡ suc (length xs)

  placed :
      (xs : List A) (i : ℕ) (x : A) (a : FixedArray A)
      → to_vector a ≡ xs
      → i ≤ length xs
      → length xs < m
      → Placed xs i x a
  placed xs i x a e h room =
      let size : a.size ≡ length xs = sym (length-elems a.val 0 a.size) ∙ ap length e in
      let q = insert_one-insert_at m i x a (omega (arith, size)) (omega (arith, size)) in
      let all = q.2 ∙ ap (λ (l : List A). insert_at l i x) e in
      record {
        array = q.0;
        run = q.1;
        same = all;
        grown = sym (length-elems q.0.val 0 q.0.size) ∙ ap length all ∙ length-insert_at xs i x;
      }

module _ {K F : Type 0} ⦃o : Order K⦄ (m : ℕ) (view : List F → FieldTable)
    (P : FixedArray F → Type 0) where
  find_leaf-same :
      (fuel : ℕ) (k : K) (cur a : ℕ) (r : RdmaTree K F) (s : BPlusTree K)
      → Alike m view P r.pool s
      → Access.find_leaf fuel k cur s ≡ ok a s
      → find_leaf m fuel k cur r ≡ ok a r
  unfolding find_leaf Access.find_leaf
  find_leaf-same zero k cur a r s same e = cc
  find_leaf-same (suc fuel) k cur a r s same e = elim (Bool-cases (s.pool cur).is_leaf) [
    | inl leafy ↦
        let here : cur ≡ a = ground arith in
        rw ((same cur).leafy ∙ leafy) (ap (λ (x : ℕ). ok x r) here)
    | inr deep ↦
        elim (Option-cases (get_elem? (s.pool cur).child (lower_bound (s.pool cur).key k))) [
          | inl q ↦ absurd (ground arith)
          | inr (d, q) ↦
              let below : Access.find_leaf fuel k d s ≡ ok a s = ground arith in
              let at = Same-child m view P (r.pool cur) (s.pool cur) k d (same cur) q in
              let inside : ltb (lower_bound (to_vector (r.pool cur).key) k) m ≡ true =
                ground (arith, at.0, (same cur).room) in
              rw ((same cur).leafy ∙ deep, inside, at.1) (find_leaf-same fuel k d a r s same below)
        ]
  ]

  overflow-room :
      (fuel cur : ℕ) (r : RdmaTree K F)
      → 1 ≤ fuel
      → (r.pool cur).key.size < m
      → overflow m fuel cur r ≡ ok tt r
  unfolding overflow
  overflow-room zero cur r h room = absurd (omega arith)
  overflow-room (suc fuel) cur r h room =
      let e : leb m (r.pool cur).key.size ≡ false = ground arith in rw e refl

  module _ (r : RdmaTree K F) (s : BPlusTree K) (cur fuel : ℕ) (k : K) (in_val : FixedArray F)
      (same : Alike m view P r.pool s) (nodes : r.nb_node ≡ s.nb_node) (apart : cur ≢ s.nb_node)
      (few : length (s.pool cur).key + 1 < m)
      (paired : length (s.pool cur).child ≡ length (s.pool cur).key) where
    abbrev pub v : FieldTable
    v = view (to_vector in_val)

    abbrev pub n : Node K
    n = s.pool cur

    abbrev pub p : ℕ
    p = lower_bound (to_vector (r.pool cur).key) k

    pub key-Placed : Placed m n.key p k (r.pool cur).key
    key-Placed =
        placed m n.key p k (r.pool cur).key (same cur).key
          (omega (arith, lower_bound-le (to_vector (r.pool cur).key) k, ap length (same cur).key))
          (omega arith)

    pub child-Placed : Placed m n.child p r.nb_node (r.pool cur).child
    child-Placed =
        placed m n.child p r.nb_node (r.pool cur).child (same cur).child
          (omega (arith, lower_bound-le (to_vector (r.pool cur).key) k, ap length (same cur).key))
          (omega arith)

    -- The state behind the insertion, with the counts of keys `counts`.
    abbrev pub after : (K → ℕ) → RdmaTree K F
    after counts = record r {
      key_map = counts;
      nb_node = r.nb_node + 1;
      pool =
          update
            (update
              (update r.pool r.nb_node (record (r.pool r.nb_node) {
                is_leaf = false;
                is_value = true;
                parent = some cur;
                val = in_val;
              }))
              cur (record (r.pool cur) { key = key-Placed.array }))
            cur (record (r.pool cur) { key = key-Placed.array; child = child-Placed.array });
    }

    pub after-Alike :
        (counts : K → ℕ)
        → P in_val
        → update_field_table v (s.pool s.nb_node).val ≡ v
        → Alike m view P (after counts).pool (hung cur k v s)
    unfolding update Store.update
    after-Alike counts sound names a = elim (Bool-cases (a == cur)) [
      | inl e ↦
          let c : (a == s.nb_node) ≡ false =
            ==_different a s.nb_node λ q. absurd (apart (ground (arith, q, e))) in
          let at : p ≡ lower_bound n.key k = ap (λ (l : List K). lower_bound l k) (same cur).key in
          rw (e, c)
            (record {
              value = (same cur).value;
              leafy = (same cur).leafy;
              parent = (same cur).parent;
              loaded = (same cur).loaded;
              key = key-Placed.same ∙ ap (λ (i : ℕ). insert_at n.key i k) at;
              child = child-Placed.same ∙ (λ j. insert_at n.child (at j) (nodes j));
              room = omega (arith, child-Placed.grown);
              fields = (same cur).fields;
              sound = (same cur).sound;
            })
      | inr e ↦ elim (Bool-cases (a == s.nb_node)) [
        | inl f ↦
            let b : (a == r.nb_node) ≡ true = ground (arith, f, nodes) in
            let fresh : Same m view P (r.pool r.nb_node) (s.pool s.nb_node) =
              subst (λ (x : ℕ). Same m view P (r.pool x) (s.pool s.nb_node)) (sym nodes)
                (same s.nb_node) in
            rw (e, f, b)
              (record {
                value = refl;
                leafy = refl;
                parent = refl;
                loaded = fresh.loaded;
                key = fresh.key;
                child = fresh.child;
                room = fresh.room;
                fields = λ _. sym names;
                sound = sound;
              })
        | inr f ↦
            let b : (a == r.nb_node) ≡ false = ground (arith, f, nodes) in rw (e, f, b) (same a)
      ]
    ]

    abbrev pub counted : K → ℕ
    counted x = if (x <? k) || (k <? x) then r.key_map x else r.key_map k + 1

    pub insert-after :
        Access.find_leaf fuel k root s ≡ ok cur s
        → 1 ≤ fuel
        → r.key_map k < 2 ^ 31 - 1
        → r.nb_node < max_node_size
        → insert m fuel k in_val r ≡ ok tt (after counted)
    unfolding insert count_key update
    insert-after found enough small room =
        let a : ltb (r.key_map k) (2 ^ 31 - 1) ≡ true = ground arith in
        let b : ltb r.nb_node max_node_size ≡ true = ground arith in
        let c : (cur == r.nb_node) ≡ false = ==_different cur r.nb_node λ q. apart (q ∙ nodes) in
        let d = ==_self cur in
        let leaf : find_leaf m fuel k 0 (record r { key_map = counted })
            ≡ ok cur (record r { key_map = counted }) =
          find_leaf-same fuel k 0 cur (record r { key_map = counted }) s same found in
        let still : overflow m fuel cur (after counted) ≡ ok tt (after counted) =
          overflow-room fuel cur (after counted) enough (
            let e : ((after counted).pool cur).key.size ≡ key-Placed.array.size = rw d refl in
            omega (arith, e, key-Placed.grown)) in
        rw (a, leaf, b, c, key-Placed.run, child-Placed.run, d, c) still

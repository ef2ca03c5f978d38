-- ===== src/RdmaTree/Runs.antt =====
-- The tree over numbers as keys, at concrete states.
use fat_btree.Run.{ok, Returns, fault, ◌>>◌}
use fat_btree.Prelude.{
  ℕ, ◌+◌, ◌<◌, length, subst, ◌≤◌, ◌≡◌, refl, false, none, some, List, [], ◌∷◌, arith, Str, ◌==◌,
  if◌then◌else◌,
}
use fat_btree.Order.{nat_order}
use fat_btree.FixedArray.{FixedArray, to_vector, elems, insert_one, insert_range, erase, push_back}
use fat_btree.FieldTable.{FieldTable, kv_exist}
use fat_btree.BPlusTree.Store.{BPlusTree}
use fat_btree.BPlusTree.Access
use fat_btree.BPlusTree.Access.Insert.{Inserted}
use fat_btree.RdmaTree.Insert.Whole.{rdma_insert_lem}
use fat_btree.BPlusTree.Records.{get}
use fat_btree.BPlusTree.Tree.{leaf, top}
use fat_btree.BPlusTree.Overflow.{lower_bound}
use fat_btree.RdmaTree.{lookup, insert, find_leaf, count_key}
use fat_btree.RdmaTree.Full.{overflow-full}
use fat_btree.RdmaTree.Node.{RdmaNode, RdmaTree, new_node, empty_tree, update, set_parents}
use fat_btree.RdmaTree.Overflow.{
  overflow, movable, copy_down, grow, split, split_leaf, split_inner, move_upper, link,
}
use fat_btree.RdmaTree.Lookup.{Alike, Counted, rdma_lookup_lem}
use fat_btree.RdmaTree.Sample.{one_entry, one_record, one_fixed, one-Located, one-Stands, one-Alike}

abbrev field : Str × Str
field = ((1 ∷ []), (2 ∷ []))

abbrev same : List (Str × Str) → FieldTable
same l = l

abbrev Few : FixedArray (Str × Str) → Type 0
Few a = a.size ≤ 10

rdma_lookup_example :
    Returns
      (λ fields r'.
        (to_vector fields ≡ field ∷ [])
        × (fields.size ≤ 10)
        × Alike {K = ℕ} 16 same Few r'.pool (one_record 16 same 7 field)
        × Counted (one_fixed 16 same 7 field) r')
      (lookup 16 2 7 none (one_fixed 16 same 7 field))
unfolding get
rdma_lookup_example =
    rdma_lookup_lem 16 same Few 1 2 none (one_fixed 16 same 7 field) (one_record 16 same 7 field) 7
      (one_entry 16 same 7 field) top (leaf 0 (one_entry 16 same 7 field ∷ []))
      (one-Alike 16 same 7 field Few (λ n h. omega arith) (omega arith))
      (one-Located 16 same 7 field (omega arith)) refl refl (omega arith) (omega arith)
      (omega arith)

-- A leaf with two keys below a node with two children, where arrays have two cells.
abbrev blank : RdmaNode ℕ ℕ
blank = new_node (λ _. 0) (λ _. 0)

abbrev crowded : RdmaTree ℕ ℕ
crowded = record (empty_tree (λ _. 0) (λ _. 0)) {
  nb_node = 7;
  pool = λ a.
      if a == 0
      then record blank {
        is_leaf = false;
        key = record { size = 1; val = λ _. 4 };
        child = record { size = 2; val = λ i. i + 1 };
      }
      else if a == 1
      then record blank {
        parent = some 0;
        key = record { size = 2; val = λ i. i + 3 };
        child = record { size = 2; val = λ i. i + 3 };
      }
      else blank;
}

overflow-full_example : overflow 2 3 1 crowded ≡ fault
overflow-full_example =
    overflow-full 2 1 0 (λ e. absurd (omega arith)) 2 crowded (omega arith)
      (λ e. absurd (omega arith)) refl refl refl refl (λ e. absurd (omega arith))
      (λ e. absurd (omega arith))

abbrev no_values : FixedArray ℕ
no_values = record { size = 0; val = λ _. 0 }

-- The third record of a tree with M = 2.
third_insert :
    (insert {K = ℕ} 2 4 5 no_values >> insert 2 4 7 no_values >> insert 2 4 9 no_values)
      (empty_tree (λ _. 0) (λ _. 0))
    ≡ fault
unfolding insert find_leaf count_key overflow movable copy_down grow split split_leaf split_inner
    move_upper link insert_one insert_range erase push_back elems update set_parents lower_bound
third_insert = refl

-- A second record, with the key 9.
abbrev other_field : Str × Str
other_field = ((3 ∷ []), (4 ∷ []))

abbrev other_fields : FixedArray (Str × Str)
other_fields = record { size = 1; val = λ _. other_field }

one_leaf :
    (cur : ℕ)
    → Access.find_leaf {K = ℕ} 2 9 0 (one_record 16 same 7 field)
      ≡ ok cur (one_record 16 same 7 field)
    → length ((one_record {K = ℕ} 16 same 7 field).pool cur).key + 1 < 16
unfolding Access.find_leaf
one_leaf cur e =
    let z : 0 ≡ cur = ground arith in
    subst (λ (a : ℕ). length ((one_record {K = ℕ} 16 same 7 field).pool a).key + 1 < 16) z
      (omega arith)

rdma_insert_example :
    Returns
      (λ _ r'.
        (s' : BPlusTree ℕ) × Inserted 16 1
          (one_record 16 same 7 field)
          (leaf 0 (one_entry 16 same 7 field ∷ []))
          9
          (other_field ∷ [])
          s'
        × (Access.insert 16 2 9 (other_field ∷ []) (one_record 16 same 7 field) ≡ ok tt s')
        × Alike 16 same Few r'.pool s'
        × (r'.nb_node ≡ s'.nb_node)
        × (r'.depth ≡ s'.depth))
      (insert 16 2 9 other_fields (one_fixed 16 same 7 field))
unfolding elems kv_exist
rdma_insert_example =
    rdma_insert_lem 16 same Few 1 2 (one_fixed 16 same 7 field) (one_record 16 same 7 field)
      (leaf 0 (one_entry 16 same 7 field ∷ [])) 9 other_fields
      (one-Alike 16 same 7 field Few (λ n h. omega arith) (omega arith)) refl refl
      (record { stands = one-Stands 16 same 7 field 1 (omega arith); fits = omega arith })
      ((λ e. absurd (omega arith)), tt) (omega arith) (omega arith) one_leaf (omega arith)
      (refl, tt) (omega arith)

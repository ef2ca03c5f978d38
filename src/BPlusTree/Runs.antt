-- ===== src/BPlusTree/Runs.antt =====
-- Runs of the backend's tree over numbers as keys, and the theorems at concrete states.
use fat_btree.Run.{◌>>◌, Returns}
use fat_btree.Prelude.{
  ◌*◌, ℕ, ◌≡◌, refl, true, false, some, List, [], ◌∷◌, ◌==◌, if◌then◌else◌, ◌||◌, arith,
}
use fat_btree.Order.{nat_order}
use fat_btree.FieldTable.{FieldTable, update_field_table, kv_exist, str_eq}
use fat_btree.FieldTable.Names.{Appended, update_field_table-Appended, kv_exist-update_field_table}
use fat_btree.BPlusTree.Store.{update, Node, BPlusTree, new_node, empty_tree}
use fat_btree.BPlusTree.Overflow.{lower_bound, overflow, copy_down, split}
use fat_btree.BPlusTree.Overflow.Climb.{Overflowed, overflow_lem}
use fat_btree.BPlusTree.Access.{insert, update_record, lookup, walk_counted, node_at_bias}
use fat_btree.BPlusTree.Access.Bias.{node_at_bias-address}
use fat_btree.BPlusTree.Access.Insert.{Inserted, insert_lem}
use fat_btree.BPlusTree.Access.Lookup.{lookup_lem}
use fat_btree.BPlusTree.Access.Seen.{Seen}
use fat_btree.BPlusTree.Access.Update.{Updated, update_record_lem}
use fat_btree.BPlusTree.Access.Fill.{Apart, fill, empty-Holds, lookup-fill}
use fat_btree.BPlusTree.Copy.Step.{Lowered, copy_down-Lowered}
use fat_btree.BPlusTree.Records.{get}
use fat_btree.BPlusTree.Split.Place.{Stepped}
use fat_btree.BPlusTree.Split.Step.{split_lem}
use fat_btree.BPlusTree.Stands.{Stands}
use fat_btree.BPlusTree.Tree.{Entry, leaf, end, top, frame}

abbrev field : ℕ → FieldTable
field v = ((v ∷ []), (v ∷ [])) ∷ []

abbrev records : List (ℕ × FieldTable)
records = (5, field 50) ∷ (2, field 20) ∷ (9, field 90) ∷ (7, field 70) ∷ []

records-Apart : Apart records
records-Apart = (
  ((λ e. absurd (omega arith)), ((λ e. absurd (omega arith)), ((λ e. absurd (omega arith)), tt))),
  (
    ((λ e. absurd (omega arith)), ((λ e. absurd (omega arith)), tt)),
    (((λ e. absurd (omega arith)), tt), (tt, tt)),
  ),
)

lookup-fill_example :
    Returns (λ fields s. fields ≡ field 90) ((fill 4 6 records >> lookup 8 6 9 0) empty_tree)
unfolding kv_exist
lookup-fill_example =
    lookup-fill 4 8 6 records 2 9 (field 90) (omega arith) (omega arith) records-Apart (omega arith)
      (omega arith) refl (refl, tt)

insert_example :
    Returns
      (λ _ s'. Inserted {K = ℕ} 4 1 empty_tree (leaf 0 []) 7 (field 70) s')
      (insert 4 2 7 (field 70) empty_tree)
insert_example =
    insert_lem 4 1 2 empty_tree (leaf 0 []) 7 (field 70) (omega arith) (empty-Holds 4 (omega arith))
      tt (omega arith) (omega arith)

abbrev five : Entry ℕ
five = record { key = 5; at = 1; val = field 50 }

abbrev nine : Entry ℕ
nine = record { key = 9; at = 2; val = field 90 }

abbrev value_node : ℕ → Node ℕ
value_node v = record new_node { is_leaf = false; is_value = true; val = field v }

-- A root that is a leaf with two records.
abbrev two_records : BPlusTree ℕ
two_records = record empty_tree {
  nb_node = 3;
  pool = λ a.
      if a == 0
      then record new_node { key = 5 ∷ 9 ∷ []; child = 1 ∷ 2 ∷ [] }
      else if a == 1
      then value_node 50
      else if a == 2
      then value_node 90
      else new_node;
}

two-Stands : (m : ℕ) → Stands m 1 two_records top (leaf 0 (five ∷ nine ∷ []))
two-Stands m = record {
  trail = refl;
  tree = (
    record { value = refl; leafy = refl; parent = refl; key = refl; child = refl },
    ((refl, refl), ((refl, refl), tt)),
  );
  spare = λ x. ground arith;
  fresh = λ x h. ground arith;
  sorted = (((refl, tt), tt), (tt, tt));
  tall = omega arith;
  above_fit = tt;
  below_fit = tt;
}

overflow_example :
    Returns
      (λ _ s'. Overflowed 2 2 two_records top (leaf 0 (five ∷ nine ∷ [])) s')
      (overflow 2 2 0 two_records)
overflow_example =
    overflow_lem 2 (omega arith) 2 1 two_records top (leaf 0 (five ∷ nine ∷ [])) (two-Stands 2)
      (omega arith) (omega arith) (omega arith)

copy_down_example :
    Returns (Lowered 2 1 two_records top (leaf 0 (five ∷ nine ∷ []))) (copy_down 0 two_records)
copy_down_example =
    copy_down-Lowered 2 1 two_records top (leaf 0 (five ∷ nine ∷ [])) (two-Stands 2) (omega arith)
      (omega arith)

lookup_example :
    Returns (λ fields s'. (fields ≡ field 90) × Seen two_records s') (lookup 8 2 9 0 two_records)
unfolding node_at_bias get
lookup_example =
    lookup_lem 3 1 8 0 2 two_records 9 nine top (leaf 0 (five ∷ nine ∷ []))
      (record { stands = two-Stands 3; fits = omega arith; under = tt; over = tt }) refl refl
      (omega arith)

-- The same leaf, copied below an inner root.
abbrev low_records : BPlusTree ℕ
low_records = record empty_tree {
  nb_node = 4;
  pool = λ a.
      if a == 0
      then record new_node { is_leaf = false; child = 3 ∷ [] }
      else if a == 1
      then value_node 50
      else if a == 2
      then value_node 90
      else if a == 3
      then record new_node { parent = some 0; key = 5 ∷ 9 ∷ []; child = 1 ∷ 2 ∷ [] }
      else new_node;
}

low-Stands : Stands 2 2 low_records (frame 0 [] end top) (leaf 3 (five ∷ nine ∷ []))
low-Stands = record {
  trail = (
    record { value = refl; leafy = refl; parent = refl; key = refl; child = refl },
    tt,
    tt,
    refl,
  );
  tree = (
    record { value = refl; leafy = refl; parent = refl; key = refl; child = refl },
    ((refl, refl), ((refl, refl), tt)),
  );
  spare = λ x. ground arith;
  fresh = λ x h. ground arith;
  sorted = (((refl, tt), tt), (tt, tt));
  tall = omega arith;
  above_fit = (omega arith, tt, tt, tt);
  below_fit = tt;
}

split_example :
    Returns
      (λ _ s'. Stepped 2 2 low_records 0 [] end top (leaf 3 (five ∷ nine ∷ [])) s')
      (split 2 3 low_records)
split_example =
    split_lem 2 2 low_records 0 [] end top (omega arith) (omega arith) (leaf 3 (five ∷ nine ∷ []))
      refl low-Stands

-- A field that is there keeps its value, and the new one is appended.
update_kept :
    update_field_table ((1 ∷ [], 8 ∷ []) ∷ (2 ∷ [], 9 ∷ []) ∷ []) ((1 ∷ [], 7 ∷ []) ∷ [])
    ≡ (1 ∷ [], 7 ∷ []) ∷ (2 ∷ [], 9 ∷ []) ∷ []
unfolding update_field_table kv_exist str_eq
update_kept = refl

update_field_table-Appended_example :
    Appended ((1 ∷ [], 8 ∷ []) ∷ (2 ∷ [], 9 ∷ []) ∷ []) ((1 ∷ [], 7 ∷ []) ∷ [])
update_field_table-Appended_example =
    update_field_table-Appended ((1 ∷ [], 8 ∷ []) ∷ (2 ∷ [], 9 ∷ []) ∷ []) ((1 ∷ [], 7 ∷ []) ∷ [])

kv_exist-update_field_table_example :
    kv_exist (2 ∷ []) (update_field_table ((2 ∷ [], 9 ∷ []) ∷ []) ((1 ∷ [], 7 ∷ []) ∷ []))
    ≡ kv_exist (2 ∷ []) ((1 ∷ [], 7 ∷ []) ∷ []) || kv_exist (2 ∷ []) ((2 ∷ [], 9 ∷ []) ∷ [])
kv_exist-update_field_table_example =
    kv_exist-update_field_table (2 ∷ []) ((2 ∷ [], 9 ∷ []) ∷ []) ((1 ∷ [], 7 ∷ []) ∷ [])

node_at_bias-address_example : node_at_bias 144 (7 * 144) ≡ some 7
node_at_bias-address_example = node_at_bias-address 144 7 (omega arith) (omega arith) (omega arith)

-- No record has the key 7; lookup returns the fields of the next one.
absent_key : Returns (λ fields s'. fields ≡ field 90) (lookup 8 2 7 0 two_records)
unfolding lookup walk_counted lower_bound update node_at_bias
absent_key = refl

update_example :
    Returns
      (λ _ s'. Updated 3 1 two_records (leaf 0 (five ∷ nine ∷ [])) nine (field 91) s')
      (update_record 8 2 9 (field 91) 0 two_records)
unfolding node_at_bias get
update_example =
    update_record_lem 3 1 8 0 2 two_records (leaf 0 (five ∷ nine ∷ [])) 9 (field 91) nine top
      (leaf 0 (five ∷ nine ∷ [])) (record { stands = two-Stands 3; fits = omega arith })
      (record { stands = two-Stands 3; fits = omega arith; under = tt; over = tt }) refl refl
      (omega arith)

-- ===== src/FieldTable.antt =====
-- update_field_table of Ethernet/CPU/YCSB-BPlusTree-Backend/lib/fbt_utils.h: the fields of a
-- record as pairs of a name and a value.
pub mod Names
use fat_btree.Prelude.{Bool, true, false, List, [], ◌∷◌, ◌++◌, ◌&&◌, ◌==◌, if◌then◌else◌, Str}

abbrev pub FieldTable : Type 0
FieldTable = List (Str × Str)

-- operator== of std::string
unfoldable pub str_eq : Str → Str → Bool
str_eq [] [] = true
str_eq [] (y ∷ ys) = false
str_eq (x ∷ xs) [] = false
str_eq (x ∷ xs) (y ∷ ys) = (x == y) && str_eq xs ys

-- The inner loop: whether some field has the name. `kv` is a copy of the entry, so the assignment
-- to kv.second does not reach the table.
unfoldable pub kv_exist : Str → FieldTable → Bool
unfolding str_eq
kv_exist name [] = false
kv_exist name ((k, v) ∷ table) = if str_eq k name then true else kv_exist name table

-- The outer loop over `update_field_pairs`.
unfoldable pub update_field_table : FieldTable → FieldTable → FieldTable
unfolding kv_exist
update_field_table [] table = table
update_field_table ((k, v) ∷ updates) table =
    update_field_table updates (if kv_exist k table then table else table ++ ((k, v) ∷ []))

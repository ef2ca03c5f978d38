-- ===== src/RdmaCodec/Runs.antt =====
-- Fixed-size containers through the codec.
use fat_btree.Prelude.{◌≡◌, [], ◌∷◌, ◌++◌, arith, drop}
use fat_btree.Run.{Returns}
use fat_btree.FieldTable.{FieldTable}
use fat_btree.FixedArray.{elems, to_vector}
use fat_btree.RdmaCodec.{
  FixedStr, FixedTable, inject_values, inject_fixed_values, extract_fixed_values,
}
use fat_btree.RdmaCodec.Fixed.{
  fields, inject_fixed_values-inject_values, extract_fixed_values-inject_values,
}

-- "aaa", and a table that has it twice.
abbrev aaa : FixedStr
aaa = record { size = 3; val = λ j. b'a' }

abbrev table : FixedTable
table = record { size = 1; val = λ j. (aaa, aaa) }

abbrev sent : FieldTable
sent = ((b'f' ∷ b'0' ∷ []), (b'x' ∷ [])) ∷ ((b'f' ∷ b'1' ∷ []), []) ∷ []

inject_fixed_values_example :
    inject_fixed_values table (1 ∷ []) ≡ inject_values (fields (to_vector table)) (1 ∷ [])
unfolding elems
inject_fixed_values_example =
    inject_fixed_values-inject_values table (1 ∷ []) (omega arith) (omega arith, omega arith, tt)

extract_fixed_values_example :
    Returns
      (λ _ msg.
        Returns
          (λ values rest'. (fields (to_vector values) ≡ sent) × (rest' ≡ 9 ∷ []))
          (extract_fixed_values table (drop 2 msg ++ (9 ∷ []))))
      (inject_values sent (1 ∷ 2 ∷ []))
extract_fixed_values_example =
    extract_fixed_values-inject_values table sent (1 ∷ 2 ∷ []) (9 ∷ []) (omega arith)
      (omega arith, omega arith, (omega arith, omega arith, tt)) (omega arith)

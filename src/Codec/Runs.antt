-- ===== src/Codec/Runs.antt =====
-- Runs of inject_* and extract_*, and the theorems at concrete messages.
use fat_btree.Prelude.{◌≡◌, refl, [], ◌∷◌, ◌++◌, arith, drop, replicate}
use fat_btree.Run.{ok, fault, Returns}
use fat_btree.FieldTable.{FieldTable}
use fat_btree.Codec.{
  put, inject_msg_type, inject_msg_type_pid, inject_values, extract_fbt_hdr, extract_values,
}
use fat_btree.Codec.Header.{
  fbt_bytes, inject_msg_type-inject_msg_type_pid, extract_fbt_hdr-fbt_bytes,
}
use fat_btree.Codec.RoundTrip.{inject_values-full, extract_values-inject_values}

-- field0 has the bytes of "ab", and field1 none.
abbrev fields : FieldTable
fields = ((b'f' ∷ b'0' ∷ []), (b'a' ∷ b'b' ∷ [])) ∷ ((b'f' ∷ b'1' ∷ []), []) ∷ []

abbrev wide : FieldTable
wide = ((b'f' ∷ []), replicate 1470 b'x') ∷ []

extract_values-inject_values_example :
    Returns
      (λ _ msg. extract_values (drop 2 msg ++ (7 ∷ [])) ≡ ok fields (7 ∷ []))
      (inject_values fields (1 ∷ 2 ∷ []))
extract_values-inject_values_example =
    extract_values-inject_values fields (1 ∷ 2 ∷ []) (7 ∷ []) (omega arith)

inject_values-full_example : inject_values wide [] ≡ fault
inject_values-full_example = inject_values-full wide [] (omega arith)

inject_msg_type_example : inject_msg_type 0x0528 3 [] ≡ inject_msg_type_pid 0x0528 0 []
inject_msg_type_example = inject_msg_type-inject_msg_type_pid 0x0528 3 [] (omega arith)

-- The bytes of the type, the last of the word first.
type_on_the_wire : inject_msg_type 0x0528 0 [] ≡ ok tt (0 ∷ 0 ∷ 5 ∷ 0x28 ∷ 0 ∷ [])
unfolding inject_msg_type put
type_on_the_wire = refl

extract_fbt_hdr_example :
    extract_fbt_hdr (fbt_bytes 77 0x123456789a ++ (3 ∷ [])) ≡ ok 0x123456789a (3 ∷ [])
extract_fbt_hdr_example = extract_fbt_hdr-fbt_bytes 77 0x123456789a (3 ∷ []) (omega arith)

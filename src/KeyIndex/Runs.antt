-- ===== src/KeyIndex/Runs.antt =====
-- The readers of keys at concrete keys.
use fat_btree.Prelude.{◌^◌, ◌+◌, ◌≡◌, refl, some, [], ◌∷◌, ◌++◌, arith, Str}
use fat_btree.KeyIndex.{remove_key_index_prefix, scan_key_index, get_part_id}
use fat_btree.KeyIndex.RoundTrip.{padded, remove_key_index_prefix-padded, get_part_id-padded}

-- "usertableuser"
abbrev user : Str
user = b'u' ∷ b's' ∷ b'e' ∷ b'r' ∷ b't' ∷ b'a' ∷ b'b' ∷ b'l' ∷ b'e' ∷ b'u' ∷ b's' ∷ b'e' ∷ b'r' ∷ []

remove_key_index_prefix_example :
    (remove_key_index_prefix (user ++ padded 3 42) ≡ some 42)
    × (scan_key_index (user ++ padded 3 42) ≡ some 42)
remove_key_index_prefix_example = remove_key_index_prefix-padded user 3 42 refl (omega arith)

get_part_id_example : get_part_id (user ++ padded 0 (2 ^ 63 + 5)) ≡ some 2
get_part_id_example =
    get_part_id-padded user 0 (2 ^ 63 + 5) refl (omega arith) 2 (omega arith) (omega arith)

-- ===== src/KeyIndex.antt =====
-- The number in a key: remove_key_index_prefix of Ethernet/CPU/YCSB-BPlusTree-Backend/lib/fbt_utils.h,
-- and remove_key_index_prefix and get_part_id of the Frontend's fbt_utils.h. A key is the table's name
-- and "user", 13 characters together, and a decimal number. None stands for an exception or a value
-- that is not initialised.
pub mod Digits
pub mod RoundTrip
mod Runs
use fat_btree.Prelude.{
  ℕ, zero, suc, ◌+◌, ◌-◌, ◌*◌, ◌/◌, ◌%◌, ◌^◌, Bool, true, false, ◌&&◌, ◌||◌, Option, none, some,
  List, [], ◌∷◌, ◌==◌, ltb, leb, if◌then◌else◌, length, drop, Str,
}

-- isspace and isdigit of the C locale
abbrev pub is_space : ℕ → Bool
is_space c = c == b' ' || (leb 9 c && leb c 13)

abbrev pub is_digit : ℕ → Bool
is_digit c = leb b'0' c && leb c b'9'

unfoldable pub skip_space : Str → Str
skip_space [] = []
skip_space (c ∷ s) = let rest = skip_space s in if is_space c then rest else c ∷ s

-- The number that the digits at the front of a text make behind `acc`.
unfoldable pub digits_value : ℕ → Str → ℕ
digits_value acc [] = acc
digits_value acc (c ∷ s) =
    let more = digits_value (acc * 10 + (c - b'0')) s in if is_digit c then more else acc

-- The conversion of strtoul: too large a number becomes the largest.
abbrev pub clamp64 : ℕ → ℕ
clamp64 n = if ltb n (2 ^ 64) then n else 2 ^ 64 - 1

abbrev pub starts_digit : Str → Bool
starts_digit [] = false
starts_digit (c ∷ s) = is_digit c

abbrev pub signed : Str → Option ℕ
signed s = if starts_digit s then some (clamp64 (digits_value 0 s)) else none

-- 2^64 - n, on 64 bits
abbrev pub negated : Option ℕ → Option ℕ
negated none = none
negated (some n) = some ((2 ^ 64 - n) % 2 ^ 64)

unfoldable pub read_u64 : Str → Option ℕ
read_u64 [] = none
read_u64 (c ∷ s) =
    if c == b'-' then negated (signed s) else if c == b'+' then signed s else signed (c ∷ s)

-- The Backend's: key.substr(13), and >> of a stringstream. What is no number is read as 0.
unfoldable pub remove_key_index_prefix : Str → Option ℕ
unfolding read_u64 skip_space
remove_key_index_prefix key =
    if ltb (length key) 13 then none else elim (skip_space (drop 13 key)) [
      | [] ↦ none
      | c ∷ s ↦ elim (read_u64 (c ∷ s)) [ none ↦ some 0 | some n ↦ some n ]
    ]

-- The Frontend's: sscanf(key.c_str() + 13, "%lu", &ret)
unfoldable pub scan_key_index : Str → Option ℕ
unfolding read_u64 skip_space
scan_key_index key = if ltb (length key) 13 then none else read_u64 (skip_space (drop 13 key))

-- (uint8_t)(ret >> 62)
abbrev pub part_of : Option ℕ → Option ℕ
part_of none = none
part_of (some ret) = some (ret / 2 ^ 62 % 256)

unfoldable pub get_part_id : Str → Option ℕ
unfolding scan_key_index
get_part_id key = part_of (scan_key_index key)

-- ===== src/RdmaCodec.antt =====
-- The messages of the RDMA variant: inject_* and extract_* of RDMA/CPU/driver/driver.cc. There is no
-- byte for the partition. The client calls the overloads for std::string, which have the text of the
-- Ethernet driver's; the backend calls those for the fixed-size containers of
-- RDMA/CPU/lib/fixed_size_container.h, where a read or a write past the last cell is a fault.
pub mod Fixed
mod Runs
use fat_btree.Run.{Cmd, ok, fault, and_then, ◌>>=◌, ◌>>◌, pure}
use fat_btree.Prelude.{ℕ, zero, suc, ◌+◌, ◌%◌, ◌^◌, List, [], ◌∷◌, leb, ◌==◌, if◌then◌else◌, Str}
use fat_btree.FieldTable.{FieldTable}
use fat_btree.FixedArray.{FixedArray, to_vector}
use fat_btree.Codec as Ethernet
use fat_btree.Codec.{le32, htonl, put, get_u32, get_bytes, be48}

-- KEY_LEN, FIELD_LEN, VALUE_LEN and FIELD_NUM
abbrev pub key_len : ℕ
key_len = 33

abbrev pub field_len : ℕ
field_len = 6

abbrev pub value_len : ℕ
value_len = 100

abbrev pub field_num : ℕ
field_num = 10

-- fixed_size_string and its uses; the number of cells stands beside it.
abbrev pub FixedStr : Type 0
FixedStr = FixedArray ℕ

-- VAL_TYPE
abbrev pub FixedTable : Type 0
FixedTable = FixedArray (FixedStr × FixedStr)

unfoldable pub inject_msg_type : ℕ → Cmd (List ℕ) (Unit {0})
unfolding put htonl
inject_msg_type msg_type = put (le32 (htonl (msg_type % 2 ^ 32)))

abbrev pub inject_fbt_hdr : ℕ → Cmd (List ℕ) (Unit {0})
inject_fbt_hdr = Ethernet.inject_fbt_hdr

abbrev pub inject_key_index : Str → Cmd (List ℕ) (Unit {0})
inject_key_index = Ethernet.inject_key_index

abbrev pub inject_values : FieldTable → Cmd (List ℕ) (Unit {0})
inject_values = Ethernet.inject_values

-- The length and the cells of a fixed_size_string.
unfoldable pub inject_fixed : ℕ → FixedStr → Cmd (List ℕ) (Unit {0})
unfolding put
inject_fixed max a out =
    if leb a.size max
    then and_then (put (le32 (a.size % 2 ^ 32)) out) (λ _. put (to_vector a))
    else fault

-- inject_key_index of a KEY_TYPE
unfoldable pub inject_fixed_key : FixedStr → Cmd (List ℕ) (Unit {0})
unfolding inject_fixed
inject_fixed_key key_index = inject_fixed key_len key_index

-- The loop of inject_values of a VAL_TYPE, from the cell `i` on.
unfoldable pub inject_fixed_pairs : (ℕ → FixedStr × FixedStr) → ℕ → ℕ → Cmd (List ℕ) (Unit {0})
unfolding inject_fixed
inject_fixed_pairs values i zero = pure tt
inject_fixed_pairs values i (suc n) = do
  inject_fixed field_len (values i).0
  inject_fixed value_len (values i).1
  inject_fixed_pairs values (suc i) n

unfoldable pub inject_fixed_values : FixedTable → Cmd (List ℕ) (Unit {0})
unfolding inject_fixed_pairs put
inject_fixed_values values out =
    if leb values.size field_num
    then and_then (put (le32 (values.size % 2 ^ 32)) out)
        (λ _. inject_fixed_pairs values.val 0 values.size)
    else fault

unfoldable pub extract_msg_type : Cmd (List ℕ) ℕ
unfolding htonl
extract_msg_type = do ubuf ← get_u32; pure (htonl ubuf)

abbrev pub extract_fbt_hdr : Cmd (List ℕ) ℕ
extract_fbt_hdr = Ethernet.extract_fbt_hdr

abbrev pub extract_key_index : Cmd (List ℕ) Str
extract_key_index = Ethernet.extract_key_index

abbrev pub extract_values : Cmd (List ℕ) FieldTable
extract_values = Ethernet.extract_values

-- memcpy(begin(), bs, n) over the cells
abbrev pub filled : List ℕ → (ℕ → ℕ) → ℕ → ℕ
filled [] f j = f j
filled (b ∷ bs) f zero = b
filled (b ∷ bs) f (suc j) = filled bs (λ x. f (suc x)) j

-- resize, and the bytes, into the fixed_size_string `a`.
unfoldable pub extract_fixed : ℕ → FixedStr → Cmd (List ℕ) FixedStr
unfolding get_bytes
extract_fixed max a = do
  ubuf ← get_u32
  bs ← get_bytes ubuf
  (if leb ubuf max then pure (record { size = ubuf; val = filled bs a.val }) else λ _. fault)

-- extract_key_index of a KEY_TYPE
unfoldable pub extract_fixed_key : FixedStr → Cmd (List ℕ) FixedStr
unfolding extract_fixed
extract_fixed_key key_index = extract_fixed key_len key_index

abbrev store_pair : (ℕ → FixedStr × FixedStr) → ℕ → FixedStr × FixedStr → ℕ → FixedStr × FixedStr
store_pair f i p j = if j == i then p else f j

-- The loop of extract_values of a VAL_TYPE, from the cell `i` on.
unfoldable pub extract_fixed_pairs :
    ℕ → ℕ → (ℕ → FixedStr × FixedStr) → Cmd (List ℕ) (ℕ → FixedStr × FixedStr)
unfolding extract_fixed
extract_fixed_pairs zero i values = pure values
extract_fixed_pairs (suc n) i values = do
  k ← extract_fixed field_len (values i).0
  v ← extract_fixed value_len (values i).1
  extract_fixed_pairs n (suc i) (store_pair values i (k, v))

unfoldable pub extract_fixed_values : FixedTable → Cmd (List ℕ) FixedTable
unfolding extract_fixed_pairs
extract_fixed_values values = do
  ubuf ← get_u32
  (if leb ubuf field_num
      then extract_fixed_pairs ubuf 0 values.val
        >>= (λ cells. pure (record { size = ubuf; val = cells }))
      else λ _. fault)

-- ===== src/Codec.antt =====
-- The messages between clients and backends: inject_* and extract_* of
-- Ethernet/CPU/YCSB-BPlusTree-Backend/driver/driver.cc, and inject_msg_type of the Frontend's copy,
-- which differs. A command that injects appends to the bytes that the buffer holds up to `msg_len`;
-- one that extracts takes bytes off the front of the buffer. Numbers are stored as an x86 does, with
-- the low byte first. A byte past the end of the buffer is a fault.
pub mod Header
pub mod RoundTrip
pub mod Words
mod Runs
use fat_btree.Run.{Run, Cmd, ok, fault, and_then, ◌>>=◌, ◌>>◌, pure}
use fat_btree.Prelude.{
  ℕ, zero, suc, ◌+◌, ◌*◌, ◌/◌, ◌%◌, ◌^◌, List, [], ◌∷◌, ◌++◌, leb, if◌then◌else◌, length, take, Str,
}
use fat_btree.FieldTable.{FieldTable}

-- char msg[1472]
abbrev pub capacity : ℕ
capacity = 1472

-- The bytes of an unsigned, and the unsigned of four bytes.
abbrev pub le32 : ℕ → List ℕ
le32 n = (n % 256) ∷ (n / 256 % 256) ∷ (n / 65536 % 256) ∷ (n / 16777216 % 256) ∷ []

abbrev pub of_le32 : ℕ → ℕ → ℕ → ℕ → ℕ
of_le32 a b c d = a + b * 256 + c * 65536 + d * 16777216

-- The bytes in the other order.
unfoldable pub htonl : ℕ → ℕ
htonl n = of_le32 (n / 16777216 % 256) (n / 65536 % 256) (n / 256 % 256) (n % 256)

-- memcpy(msg + msg_len, bs, n); msg_len += n
unfoldable pub put : List ℕ → Cmd (List ℕ) (Unit {0})
put bs out = if leb (length out + length bs) capacity then ok tt (out ++ bs) else fault

-- `pid` is not used.
unfoldable pub inject_msg_type : ℕ → ℕ → Cmd (List ℕ) (Unit {0})
unfolding put htonl
inject_msg_type msg_type pid = do
  let ubuf = htonl (msg_type % 2 ^ 32)
  put (le32 ubuf)
  put (take 1 (le32 ubuf))

-- The Frontend's.
unfoldable pub inject_msg_type_pid : ℕ → ℕ → Cmd (List ℕ) (Unit {0})
unfolding put htonl
inject_msg_type_pid msg_type pid = do
  let ubuf = htonl (msg_type % 2 ^ 32)
  put (le32 ubuf)
  put ((pid % 256) ∷ [])

unfoldable pub inject_fbt_hdr : ℕ → Cmd (List ℕ) (Unit {0})
unfolding put htonl
inject_fbt_hdr fbt_key = do
  put (le32 (htonl (fbt_key / 2 ^ 32 % 2 ^ 32)))
  put (le32 (htonl (fbt_key % 2 ^ 32)))
  put (0 ∷ 0 ∷ 0 ∷ 0 ∷ 0 ∷ 0 ∷ [])

unfoldable pub inject_key_index : Str → Cmd (List ℕ) (Unit {0})
unfolding put
inject_key_index key_index = do put (le32 (length key_index % 2 ^ 32)); put key_index

-- The loop of inject_values.
unfoldable pub inject_pairs : FieldTable → Cmd (List ℕ) (Unit {0})
unfolding put
inject_pairs [] = pure tt
inject_pairs ((k, v) ∷ values) = do
  put (le32 (length k % 2 ^ 32))
  put k
  put (le32 (length v % 2 ^ 32))
  put v
  inject_pairs values

unfoldable pub inject_values : FieldTable → Cmd (List ℕ) (Unit {0})
unfolding put
inject_values values = do put (le32 (length values % 2 ^ 32)); inject_pairs values

-- *(unsigned *)msg
abbrev pub get_u32 : Cmd (List ℕ) ℕ
get_u32 (a ∷ b ∷ c ∷ d ∷ rest) = ok (of_le32 a b c d) rest
get_u32 _ = fault

-- std::string(msg, n)
unfoldable pub get_bytes : ℕ → Cmd (List ℕ) (List ℕ)
get_bytes zero s = ok [] s
get_bytes (suc n) [] = fault
get_bytes (suc n) (b ∷ s) = and_then (get_bytes n s) λ bs rest. ok (b ∷ bs) rest

unfoldable pub extract_msg_type : Cmd (List ℕ) ℕ
unfolding htonl get_bytes
extract_msg_type = do ubuf ← get_u32; get_bytes 1; pure (htonl ubuf)

-- The bytes of in_idx, the last of the six first.
abbrev pub be48 : Cmd (List ℕ) ℕ
be48 (a ∷ b ∷ c ∷ d ∷ e ∷ f ∷ rest) =
    ok (f + e * 2 ^ 8 + d * 2 ^ 16 + c * 2 ^ 24 + b * 2 ^ 32 + a * 2 ^ 40) rest
be48 _ = fault

unfoldable pub extract_fbt_hdr : Cmd (List ℕ) ℕ
extract_fbt_hdr = do key_hi ← get_u32; key_lo ← get_u32; be48

unfoldable pub extract_key_index : Cmd (List ℕ) Str
unfolding get_bytes
extract_key_index = do ubuf ← get_u32; get_bytes ubuf

-- The loop of extract_values.
unfoldable pub extract_pairs : ℕ → Cmd (List ℕ) FieldTable
unfolding get_bytes
extract_pairs zero = pure []
extract_pairs (suc n) = do
  klen ← get_u32
  k ← get_bytes klen
  vlen ← get_u32
  v ← get_bytes vlen
  values ← extract_pairs n
  pure ((k, v) ∷ values)

unfoldable pub extract_values : Cmd (List ℕ) FieldTable
unfolding extract_pairs
extract_values = do ubuf ← get_u32; extract_pairs ubuf

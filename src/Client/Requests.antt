-- ===== src/Client/Requests.antt =====
-- The bytes of the requests.
use fat_btree.Prelude.{
  ℕ, ◌%◌, ◌^◌, ◌≤◌, ◌<◌, ◌≡◌, ◌∙◌, false, some, List, [], ◌∷◌, ◌++◌, arith, ◌==◌, ==_self, zero,
  suc, replicate, length, Str,
}
use fat_btree.Run.{Cmd, ok, and_then}
use fat_btree.FieldTable.{FieldTable}
use fat_btree.KeyIndex.{scan_key_index, get_part_id}
use fat_btree.Client.{key_index, read_request, update_request, insert_request, await, await_values}
use fat_btree.Codec.{capacity, put, inject_fbt_hdr, inject_key_index, inject_values}
use fat_btree.Codec.Header.{
  type_bytes, fbt_bytes, inject_msg_type_pid-put, inject_fbt_hdr-put, extract_msg_type-type_bytes,
}
use fat_btree.Codec.RoundTrip.{
  key_bytes, values_bytes, Short, put_fits, put_then, inject_key_index-put, inject_values-put,
  extract_values-values_bytes,
}

-- A header, and a body.
with_header :
    (number : ℕ) (bs out : List ℕ) (w : Cmd (List ℕ) (Unit {0}))
    → ((o : List ℕ) → length o ≤ capacity → w o ≡ put bs o)
    → and_then (inject_fbt_hdr number out) (λ _. w) ≡ put (fbt_bytes number 0 ++ bs) out
with_header number bs out w next =
    rw (inject_fbt_hdr-put number out) (put_then (fbt_bytes number 0) bs out w next)

-- A key, and fields.
keyed :
    (k : Str) (values : FieldTable) (out : List ℕ)
    → and_then (inject_key_index k out) (λ _. inject_values values)
      ≡ put (key_bytes k ++ values_bytes values) out
keyed k values out = rw (inject_key_index-put k out) (
    put_then (key_bytes k) (values_bytes values) out (inject_values values)
      (λ o h. inject_values-put values o))

-- The requests for a key with the number `number`, in the partition `part`.
module _ (table key : Str) (part number : ℕ) where
  abbrev pub read_bytes : List ℕ
  read_bytes =
      type_bytes 0x0527 (part % 256) ++ (fbt_bytes number 0 ++ key_bytes (key_index table key))

  abbrev pub update_bytes : FieldTable → List ℕ
  update_bytes values =
      type_bytes 0x0531 (part % 256)
      ++ (fbt_bytes number 0 ++ (key_bytes (key_index table key) ++ values_bytes values))

abbrev pub insert_bytes : Str → Str → ℕ → FieldTable → List ℕ
insert_bytes table key part values =
    type_bytes 0x0526 (part % 256) ++ (key_bytes (key_index table key) ++ values_bytes values)

-- A key with the number `number`, which lies in the partition `part`.
module _ (table key : Str) (part number : ℕ)
    (numbered : scan_key_index (key_index table key) ≡ some number)
    (routed : get_part_id (key_index table key) ≡ some part) where
  -- Read sends the type 0x527, the partition, the header for the switch and the key.
  pub read_request-read_bytes :
      length (read_bytes table key part number) ≤ capacity
      → read_request table key [] ≡ ok tt (read_bytes table key part number)
  unfolding read_request
  read_request-read_bytes room =
      rw (routed, inject_msg_type_pid-put 0x0527 part [], numbered)
        (put_then (type_bytes 0x0527 (part % 256))
            (fbt_bytes number 0 ++ key_bytes (key_index table key)) []
            (λ o. and_then (inject_fbt_hdr number o) (λ _. inject_key_index (key_index table key)))
            (λ o h.
              with_header number (key_bytes (key_index table key)) o
                (inject_key_index (key_index table key))
                (λ o' h'. inject_key_index-put (key_index table key) o'))
          ∙ put_fits (read_bytes table key part number) [] (omega arith))

  module _ (values : FieldTable) where
    pub update_request-update_bytes :
        length (update_bytes table key part number values) ≤ capacity
        → update_request table key values [] ≡ ok tt (update_bytes table key part number values)
    unfolding update_request
    update_request-update_bytes room =
        rw (routed, inject_msg_type_pid-put 0x0531 part [], numbered)
          (put_then (type_bytes 0x0531 (part % 256))
              (fbt_bytes number 0 ++ (key_bytes (key_index table key) ++ values_bytes values)) []
              (λ o. and_then (inject_fbt_hdr number o) (λ _ o'.
                and_then (inject_key_index (key_index table key) o') (λ _. inject_values values)))
              (λ o h.
                with_header number (key_bytes (key_index table key) ++ values_bytes values) o
                  (λ o'.
                    and_then (inject_key_index (key_index table key) o')
                      (λ _. inject_values values))
                  (λ o' h'. keyed (key_index table key) values o'))
            ∙ put_fits (update_bytes table key part number values) [] (omega arith))

    pub insert_request-insert_bytes :
        length (insert_bytes table key part values) ≤ capacity
        → insert_request table key values [] ≡ ok tt (insert_bytes table key part values)
    unfolding insert_request
    insert_request-insert_bytes room =
        rw (routed, inject_msg_type_pid-put 0x0526 part [])
          (put_then (type_bytes 0x0526 (part % 256))
              (key_bytes (key_index table key) ++ values_bytes values) []
              (λ o. and_then (inject_key_index (key_index table key) o) (λ _. inject_values values))
              (λ o h. keyed (key_index table key) values o)
            ∙ put_fits (insert_bytes table key part values) [] (omega arith))

-- The reply 0x529 ends Read with the fields that it carries, the other packets left; `junk` is what
-- the buffer holds behind it.
pub await_values-reply :
    (values : FieldTable) (junk : List ℕ) (packets : List (List ℕ))
    → Short (values_bytes values)
    → await_values ((type_bytes 0x0529 0 ++ (values_bytes values ++ junk)) ∷ packets)
      ≡ ok values packets
unfolding await_values
await_values-reply values junk packets short = rw (
  extract_msg_type-type_bytes 0x0529 0 (values_bytes values ++ junk) (omega arith),
  extract_values-values_bytes values junk short,
)

-- The reply `want` ends the loop of the other operations; packets of type 0 before it are passed over.
pub await-replies :
    (n want : ℕ) (junk : List ℕ) (packets : List (List ℕ))
    → 0 < want
    → want < 2 ^ 32
    → await want (replicate n (type_bytes 0 0 ++ junk) ++ ((type_bytes want 0 ++ junk) ∷ packets))
      ≡ ok tt packets
unfolding await
await-replies zero want junk packets pos small =
    rw (extract_msg_type-type_bytes want 0 junk small, ==_self want)
await-replies (suc n) want junk packets pos small =
    let e : (0 == want) ≡ false = ground arith in
    rw (extract_msg_type-type_bytes 0 0 junk (omega arith), e)
      (await-replies n want junk packets pos small)

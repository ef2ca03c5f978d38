-- ===== src/RdmaBackend/Long.antt =====
-- An insert request of the client with a key that KEY_TYPE has no room for, at the loop of main.
use fat_btree.Prelude.{
  ℕ, ◌≤◌, ◌<◌, ◌^◌, ◌≡◌, refl, ap, List, [], ◌++◌, append_assoc, arith, length, length-append, Str,
}
use fat_btree.Run.{fault, Returns}
use fat_btree.Order.{signed_order}
use fat_btree.Codec.{capacity}
use fat_btree.Codec.RoundTrip.{key_bytes, values_bytes, put_fits}
use fat_btree.FieldTable.{FieldTable}
use fat_btree.RdmaCodec.{key_len, FixedStr, FixedTable}
use fat_btree.RdmaCodec.Fixed.{extract_fixed_key-long}
use fat_btree.RdmaClient.{insert_request}
use fat_btree.RdmaClient.Requests.{insert_bytes, insert_request-put, extract_msg_type-word}
use fat_btree.RdmaBackend.{Tree, handle_insert, sends, serve}

handle_insert-long :
    (blank : FixedStr) (none_yet : FixedTable) (fuel dst_qid : ℕ) (k rest : List ℕ) (s : Tree)
    → key_len < length k
    → length k < 2 ^ 32
    → handle_insert blank none_yet fuel (key_bytes k ++ rest) dst_qid s ≡ fault
unfolding handle_insert
handle_insert-long blank none_yet fuel dst_qid k rest s long short =
    rw (extract_fixed_key-long blank k rest long short) refl

-- An insert request that the client makes of a key of more than 33 bytes, of which none is refused while
-- the request fits into the buffer, makes the loop of the backend's main write past the 33 cells of a
-- KEY_TYPE, whatever its tree is.
pub serve-long :
    (base size fuel recv_no : ℕ) (blank : FixedStr) (none_yet : FixedTable) (s : Tree)
    (table key : Str) (values : FieldTable) (junk : List ℕ)
    → key_len < length (table ++ key)
    → length (insert_bytes (table ++ key) values) ≤ capacity
    → Returns
        (λ _ msg. serve blank none_yet base size fuel (msg ++ junk) recv_no s ≡ fault)
        (insert_request table key values [])
unfolding serve
serve-long base size fuel recv_no blank none_yet s table key values junk long room =
    let k = table ++ key in
    let whole : (key_bytes k ++ values_bytes values) ++ junk
        ≡ key_bytes k ++ (values_bytes values ++ junk) =
      append_assoc (key_bytes k) (values_bytes values) junk in
    let fits : length k < 2 ^ 32 =
      omega (arith, length-append (key_bytes k) (values_bytes values)) in
    rw
      (
        insert_request-put table key values [],
        put_fits (insert_bytes k values) [] (omega arith),
        extract_msg_type-word 0x0526 ((key_bytes k ++ values_bytes values) ++ junk) (omega arith),
        whole,
      )
      (ap (sends blank none_yet) (
        handle_insert-long blank none_yet fuel recv_no k (values_bytes values ++ junk) s long fits))

-- ===== src/RdmaClient/Requests.antt =====
-- A request of the client, as the backend's overloads for fixed-size containers take it apart.
use fat_btree.Prelude.{
  ℕ, ◌%◌, ◌^◌, ◌≤◌, ◌<◌, ◌≡◌, refl, sym, ap, ◌∙◌, List, [], ◌++◌, append_assoc, subst, arith,
  length, Str,
}
use fat_btree.Run.{Cmd, ok, and_then, Returns, bind}
use fat_btree.FieldTable.{FieldTable}
use fat_btree.FixedArray.{to_vector}
use fat_btree.Codec.{capacity, le32, htonl, put}
use fat_btree.Codec.Header.{same_word}
use fat_btree.Codec.RoundTrip.{
  key_bytes, values_bytes, put_then, put_fits, inject_key_index-put, inject_values-put,
}
use fat_btree.Codec.Words.{htonl-lt, htonl_involutive}
use fat_btree.RdmaClient.{insert_request}
use fat_btree.RdmaCodec.{
  key_len, field_num, FixedStr, FixedTable, inject_msg_type, extract_msg_type, extract_fixed,
  extract_fixed_key, extract_fixed_values,
}
use fat_btree.RdmaCodec.Fixed.{
  fields, Fitting, extract_fixed-bytes, extract_fixed_values-values_bytes,
}

abbrev pub word : ℕ → List ℕ
word msg_type = le32 (htonl (msg_type % 2 ^ 32))

pub extract_msg_type-word :
    (msg_type : ℕ) (rest : List ℕ)
    → msg_type < 2 ^ 32
    → extract_msg_type (word msg_type ++ rest) ≡ ok msg_type rest
unfolding extract_msg_type
extract_msg_type-word msg_type rest small =
    let t : msg_type % 2 ^ 32 ≡ msg_type = omega arith in
    ap (λ (n : ℕ). ok (htonl n) rest)
      (same_word (htonl (msg_type % 2 ^ 32)) (htonl-lt (msg_type % 2 ^ 32)))
    ∙ ap (λ (n : ℕ). ok (htonl (htonl n)) rest) t
    ∙ ap (λ (n : ℕ). ok n rest) (htonl_involutive msg_type small)

abbrev pub insert_bytes : Str → FieldTable → List ℕ
insert_bytes k values = word 0x0526 ++ (key_bytes k ++ values_bytes values)

pub insert_request-put :
    (table key : Str) (values : FieldTable) (out : List ℕ)
    → insert_request table key values out ≡ put (insert_bytes (table ++ key) values) out
unfolding insert_request inject_msg_type
insert_request-put table key values out =
    put_then (word 0x0526) (key_bytes (table ++ key) ++ values_bytes values) out _ λ o h.
      rw (inject_key_index-put (table ++ key) o) (
        put_then (key_bytes (table ++ key)) (values_bytes values) o _
          (λ o' h'. inject_values-put values o'))

-- What the backend reads: the type, the key and the fields.
abbrev pub taken : FixedStr → FixedTable → Cmd (List ℕ) (ℕ × FixedStr × FixedTable)
taken a t msg = and_then (extract_msg_type msg) λ msg_type msg1.
    and_then (extract_fixed_key a msg1)
      λ key msg2. and_then (extract_fixed_values t msg2) λ values. ok (msg_type, key, values)

-- An insert request of strings that fit into the fixed-size containers, and into the buffer, arrives at
-- the backend as it was: the type, the key and the fields that its overloads extract, whatever is
-- behind the request in the buffer, are those that the client was given.
pub insert_request-taken :
    (table key : Str) (values : FieldTable) (a : FixedStr) (t : FixedTable) (junk : List ℕ)
    → length (table ++ key) ≤ key_len
    → length values ≤ field_num
    → Fitting values
    → length (insert_bytes (table ++ key) values) ≤ capacity
    → Returns
        (λ _ msg.
          Returns
            (λ r rest.
              (r.0 ≡ 0x0526)
              × (to_vector r.1 ≡ table ++ key)
              × (fields (to_vector r.2) ≡ values)
              × (rest ≡ junk))
            (taken a t (msg ++ junk)))
        (insert_request table key values [])
unfolding extract_fixed_key
insert_request-taken table key values a t junk fits few fit room =
    let k = table ++ key in
    let Q : ℕ × FixedStr × FixedTable → List ℕ → Type 0 = λ r rest.
      (r.0 ≡ 0x0526) × (to_vector r.1 ≡ k) × (fields (to_vector r.2) ≡ values) × (rest ≡ junk) in
    let whole : (key_bytes k ++ values_bytes values) ++ junk
        ≡ key_bytes k ++ (values_bytes values ++ junk) =
      append_assoc (key_bytes k) (values_bytes values) junk in
    rw
      (
        insert_request-put table key values [],
        put_fits (insert_bytes k values) [] (omega arith),
        extract_msg_type-word 0x0526 ((key_bytes k ++ values_bytes values) ++ junk) (omega arith),
      )
      (subst
        (λ (b : List ℕ). Returns Q (
          and_then (extract_fixed_key a b) λ key' msg2.
            and_then (extract_fixed_values t msg2) λ values'. ok (0x0526, key', values')))
        (sym whole)
        (bind (λ b r. (to_vector b ≡ k) × (r ≡ values_bytes values ++ junk)) Q
          (extract_fixed key_len a (key_bytes k ++ (values_bytes values ++ junk))) _
          (extract_fixed-bytes key_len a k (values_bytes values ++ junk) (omega arith) fits)
          λ b r (eb, er). rw er (
            bind (λ v r. (fields (to_vector v) ≡ values) × (r ≡ junk)) Q
              (extract_fixed_values t (values_bytes values ++ junk)) _
              (extract_fixed_values-values_bytes t values junk few fit)
              λ v r' (ev, er'). (refl, eb, ev, er'))))

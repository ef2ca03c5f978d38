-- ===== src/RdmaBackend/Query.antt =====
-- A read request of the client, served, and its reply, taken apart by the client.
use fat_btree.Prelude.{
  ℕ, ◌+◌, ◌-◌, ◌^◌, ◌≤◌, ◌<◌, ◌≡◌, refl, sym, ap, ◌∙◌, Option, some, none, List, [], ◌++◌,
  append_assoc, append-nil, subst, arith, length, Str, ◌==◌, if◌then◌else◌,
}
use fat_btree.Run.{Run, Cmd, ok, fault, out_of_fuel, and_then, Returns, bind}
use fat_btree.Order.{signed_order}
use fat_btree.Backend.{Sent}
use fat_btree.FieldTable.{FieldTable}
use fat_btree.FixedArray.{to_vector}
use fat_btree.KeyIndex.{remove_key_index_prefix}
use fat_btree.Codec.{capacity, put}
use fat_btree.Codec.Header.{fbt_bytes, inject_fbt_hdr-put, extract_fbt_hdr-fbt_bytes}
use fat_btree.Codec.RoundTrip.{
  key_bytes, values_bytes, Short, put_then, put_fits, inject_key_index-put, inject_values-put,
  extract_values-values_bytes,
}
use fat_btree.BPlusTree.Store.{BPlusTree}
use fat_btree.BPlusTree.Overflow.Climb.{Holds}
use fat_btree.BPlusTree.Records.{get}
use fat_btree.BPlusTree.Tree.{Entry, Token, top, flat, entries}
use fat_btree.BPlusTree.Tree as Shape
use fat_btree.RdmaCodec.{
  key_len, field_num, FixedStr, FixedTable, inject_msg_type, extract_msg_type, extract_fixed,
  extract_fixed_key, inject_fixed_values, inject_values, extract_values,
}
use fat_btree.RdmaCodec.Fixed.{
  fields, Sized, extract_fixed-bytes, inject_fixed_values-inject_values,
}
use fat_btree.RdmaClient.{read_request, expect, read_reply}
use fat_btree.RdmaClient.Requests.{word, extract_msg_type-word}
use fat_btree.RdmaTree.{lookup}
use fat_btree.RdmaTree.Lookup.{Alike, Counted, rdma_lookup_lem}
use fat_btree.RdmaBackend.{Tree, degree, node_of, handle_query, sends, serve}

-- Fields that the arrays have cells for.
abbrev pub InCells : FixedTable → Type 0
InCells v = (v.size ≤ field_num) × Sized (to_vector v)

abbrev pub read_bytes : Str → ℕ → List ℕ
read_bytes k number = word 0x0527 ++ (fbt_bytes number 0 ++ key_bytes k)

read_request-put :
    (table key : Str) (number : ℕ) (out : List ℕ)
    → remove_key_index_prefix (table ++ key) ≡ some number
    → read_request table key out ≡ put (read_bytes (table ++ key) number) out
unfolding read_request inject_msg_type
read_request-put table key number out num = rw num (
    put_then (word 0x0527) (fbt_bytes number 0 ++ key_bytes (table ++ key)) out _ λ o h.
      rw (inject_fbt_hdr-put number o) (
        put_then (fbt_bytes number 0) (key_bytes (table ++ key)) o _
          λ o' h'. inject_key_index-put (table ++ key) o'))

abbrev pub answer : FieldTable → List ℕ
answer v = word 0x0529 ++ values_bytes v

-- The client finds the fields in the answer.
read_reply-answer : (v : FieldTable) → Short (values_bytes v) → read_reply (answer v) ≡ ok v []
unfolding read_reply expect
read_reply-answer v short =
    let checked : Run (List ℕ) ℕ → Run (List ℕ) FieldTable = λ r.
      and_then (and_then r λ msg_type body. if msg_type == 0x0529 then ok tt body else fault)
        λ _. extract_values in
    ap checked (extract_msg_type-word 0x0529 (values_bytes v) (omega arith))
    ∙ ap extract_values (sym (append-nil (values_bytes v)))
    ∙ extract_values-values_bytes v [] short

word-sent : inject_msg_type 0x0529 [] ≡ ok tt (word 0x0529)
unfolding inject_msg_type
word-sent = put_fits (word 0x0529) [] (omega arith)

module _ (s : Tree) (x : BPlusTree Str) (same : Alike degree fields InCells s.pool x) where
  pub handle_query_fixed :
      (n base size fuel fbt_key dst_qid : ℕ) (blank : FixedStr) (none_yet : FixedTable) (k : Str)
      (e : Entry Str) (t : Shape.Tree Str) (rest : List ℕ)
      → Holds degree n x t
      → get k (entries (flat t)) ≡ some e
      → length k ≤ key_len
      → n + 1 ≤ fuel
      → s.nb_query < 2 ^ 31 - 1
      → s.nb_access + fuel < 2 ^ 31
      → 4 + length (values_bytes e.val) ≤ capacity
      → Returns
          (λ sent s'.
            (sent ≡ record { context = answer e.val; send_no = dst_qid })
            × Alike degree fields InCells s'.pool x
            × Counted s s')
          (handle_query blank none_yet base size fuel
            (fbt_bytes fbt_key 0 ++ (key_bytes k ++ rest))
            dst_qid
            s)
  unfolding handle_query extract_fixed_key node_of
  handle_query_fixed n base size fuel fbt_key dst_qid blank none_yet k e t rest holds got fits
        enough queries accesses room =
      rw (extract_fbt_hdr-fbt_bytes fbt_key 0 (key_bytes k ++ rest) (omega arith)) (
        bind (λ b r. (to_vector b ≡ k) × (r ≡ rest)) _
          (extract_fixed key_len blank (key_bytes k ++ rest)) _
          (extract_fixed-bytes key_len blank k rest (omega arith) fits)
          λ b r (eb, er).
            let got' : get k (entries (flat t ++ [])) ≡ some e =
              ap (λ (l : List (Token Str)). get k (entries l)) (append-nil (flat t)) ∙ got in
            rw eb (
              bind
                (λ found s'.
                  (fields (to_vector found) ≡ e.val)
                  × InCells found
                  × Alike degree fields InCells s'.pool x
                  × Counted s s')
                _ (lookup degree fuel k none s) _
                (rdma_lookup_lem degree fields InCells n fuel none s x k e top t same
                  (record { stands = holds.stands; fits = holds.fits; under = tt; over = tt })
                  (sym holds.stands.trail) got' (omega (arith, holds.stands.tall)) queries accesses)
                λ found s' (f, cells, same', few).
                  let typed : inject_msg_type 0x0529 [] ≡ ok tt (word 0x0529) = word-sent in
                  let filled : inject_fixed_values found (word 0x0529) ≡ ok tt (answer e.val) =
                    inject_fixed_values-inject_values found (word 0x0529) cells.0 cells.1
                    ∙ ap (λ (v : FieldTable). inject_values v (word 0x0529)) f
                    ∙ inject_values-put e.val (word 0x0529)
                    ∙ put_fits (values_bytes e.val) (word 0x0529) room in
                  rw (typed, filled) (refl, same', few)))

-- The reply that the client waits for, if the backend has sent one.
abbrev pub answered : Option Sent → Cmd Tree FieldTable
answered none s = out_of_fuel
answered (some sent) s = and_then (read_reply sent.context) λ values _. ok values s

-- Read, as the backend serves it when the switch does not change the request; the buffer that received
-- the request holds `junk` behind it.
unfoldable pub serve_read :
    ℕ → ℕ → ℕ → FixedStr → FixedTable → List ℕ → Str → Str → Cmd Tree FieldTable
serve_read base size fuel blank none_yet junk table key s =
    and_then (read_request table key [])
      λ _ msg. and_then (serve blank none_yet base size fuel (msg ++ junk) 0 s) answered

-- Read of a key that has a record, given to the loop of a backend's main, ends with the fields of that
-- record, and changes nothing of the backend's tree but nb_query, nb_access and the access counts of nodes:
-- if the pool stands for a tree that holds, the switch leaves the request as it is, so that the lookup begins
-- at the root, the key fits into its array, holds a
-- number, and the request and the reply fit into a buffer, while the counters stay below 2^31.
pub rdma_serve_read_lem :
    (s : Tree) (x : BPlusTree Str) (n base size fuel number : ℕ) (blank : FixedStr)
    (none_yet : FixedTable) (junk : List ℕ) (table key : Str) (e : Entry Str) (t : Shape.Tree Str)
    → Alike degree fields InCells s.pool x
    → Holds degree n x t
    → get (table ++ key) (entries (flat t)) ≡ some e
    → remove_key_index_prefix (table ++ key) ≡ some number
    → length (table ++ key) ≤ key_len
    → n + 1 ≤ fuel
    → s.nb_query < 2 ^ 31 - 1
    → s.nb_access + fuel < 2 ^ 31
    → length (read_bytes (table ++ key) number) ≤ capacity
    → 4 + length (values_bytes e.val) ≤ capacity
    → Returns
        (λ found s'. (found ≡ e.val) × Alike degree fields InCells s'.pool x × Counted s s')
        (serve_read base size fuel blank none_yet junk table key s)
unfolding serve_read serve
rdma_serve_read_lem s x n base size fuel number blank none_yet junk table key e t same holds got num
      fits enough queries accesses room space =
    let k = table ++ key in
    let request : read_request table key [] ≡ ok tt (read_bytes k number) =
      read_request-put table key number [] num ∙ put_fits (read_bytes k number) [] (omega arith) in
    let head : extract_msg_type (read_bytes k number ++ junk)
        ≡ ok 0x0527 ((fbt_bytes number 0 ++ key_bytes k) ++ junk) =
      extract_msg_type-word 0x0527 ((fbt_bytes number 0 ++ key_bytes k) ++ junk) (omega arith) in
    let body = append_assoc (fbt_bytes number 0) (key_bytes k) junk in
    let P : Sent → Tree → Type 0 = λ sent s'.
      (sent ≡ record { context = answer e.val; send_no = 0 })
      × Alike degree fields InCells s'.pool x
      × Counted s s' in
    let Q : Option Sent → Tree → Type 0 =
      λ reply s'. (sent : Sent) × (reply ≡ some sent) × P sent s' in
    let handled : Run Tree Sent =
      handle_query blank none_yet base size fuel ((fbt_bytes number 0 ++ key_bytes k) ++ junk) 0
        s in
    rw (request, head)
      (bind Q _ (sends blank none_yet handled) _
        (bind P Q handled _
          (subst (λ (b : List ℕ). Returns P (handle_query blank none_yet base size fuel b 0 s))
            (sym body)
            (handle_query_fixed s x same n base size fuel number 0 blank none_yet k e t junk holds
              got fits enough queries accesses space))
          λ sent s' p. (sent, refl, p))
        λ reply s' (sent, replied, (there, same', few)).
          let reply_there : read_reply sent.context ≡ ok e.val [] =
            ap (λ (r : Sent). read_reply r.context) there ∙ read_reply-answer e.val (omega arith) in
          rw (replied, reply_there) (refl, same', few))

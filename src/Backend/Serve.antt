-- ===== src/Backend/Serve.antt =====
-- The handlers on well-formed requests.
use fat_btree.Prelude.{
  ℕ, ◌+◌, ◌^◌, ◌≤◌, ◌<◌, ◌≡◌, refl, ap, ◌∙◌, some, List, [], ◌++◌, arith, ◌==◌, if◌then◌else◌,
  length, Str,
}
use fat_btree.Run.{ok, and_then, and_then_same, Returns, bind}
use fat_btree.Order.{str_order}
use fat_btree.FieldTable.{FieldTable}
use fat_btree.Backend.{Sent, Tree, degree, reply, handle_insert, handle_update, handle_query}
use fat_btree.BPlusTree.Store.{max_node_size}
use fat_btree.BPlusTree.Access.{node_at_bias, insert, update_record, lookup}
use fat_btree.BPlusTree.Access.Insert.{Inserted, insert_lem}
use fat_btree.BPlusTree.Access.Leaf.{Located}
use fat_btree.BPlusTree.Access.Lookup.{lookup_lem}
use fat_btree.BPlusTree.Access.Seen.{Seen}
use fat_btree.BPlusTree.Access.Update.{Updated, update_record_lem}
use fat_btree.BPlusTree.Overflow.Climb.{Holds}
use fat_btree.BPlusTree.Records.{get, Absent}
use fat_btree.BPlusTree.Stands.{whole, height}
use fat_btree.BPlusTree.Tree.{Entry, Trail, addr, flat, entries}
use fat_btree.BPlusTree.Tree as Shape
use fat_btree.Codec.{capacity, inject_msg_type, inject_values}
use fat_btree.Codec.Header.{
  type_bytes, fbt_bytes, inject_msg_type-put_zero, extract_fbt_hdr-fbt_bytes,
}
use fat_btree.Codec.RoundTrip.{
  key_bytes, values_bytes, Short, put_fits, inject_values-put, extract_key_index-key_bytes,
  extract_values-values_bytes,
}

-- The reply to a request that has no result.
abbrev pub done : ℕ → ℕ → Sent
done msg_type dst_qid = record { context = type_bytes msg_type 0; send_no = dst_qid }

reply-done :
    (msg_type dst_qid : ℕ) (s : Tree)
    → msg_type < 2 ^ 24
    → reply msg_type dst_qid s ≡ ok (done msg_type dst_qid) s
reply-done msg_type dst_qid s small = rw (
  inject_msg_type-put_zero msg_type 0 [] small,
  put_fits (type_bytes msg_type 0) [] (omega arith),
)

-- handle_insert of a well-formed request is insert, and the reply.
pub handle_insert-insert :
    (fuel dst_qid : ℕ) (s : Tree) (k : Str) (v : FieldTable) (rest : List ℕ)
    → Short k
    → Short (values_bytes v)
    → handle_insert fuel (key_bytes k ++ (values_bytes v ++ rest)) dst_qid s
      ≡ and_then (insert degree fuel k v s) (λ _. ok (done 0x0528 dst_qid))
unfolding handle_insert
handle_insert-insert fuel dst_qid s k v rest sk sv =
    rw
      (
        extract_key_index-key_bytes k (values_bytes v ++ rest) sk,
        extract_values-values_bytes v rest sv,
      )
      (and_then_same (insert degree fuel k v s) _ _
        λ _ s'. reply-done 0x0528 dst_qid s' (omega arith))

-- handle_insert of a request with a new key returns the reply 0x528, and inserts the record.
pub handle_insert_lem :
    (n fuel dst_qid : ℕ) (s : Tree) (t : Shape.Tree Str) (k : Str) (v : FieldTable) (rest : List ℕ)
    → Holds degree n s t
    → Absent k (entries (flat t))
    → n + 1 ≤ fuel
    → s.nb_node + n + 2 ≤ max_node_size
    → Short k
    → Short (values_bytes v)
    → Returns
        (λ sent s'. (sent ≡ done 0x0528 dst_qid) × Inserted degree n s t k v s')
        (handle_insert fuel (key_bytes k ++ (values_bytes v ++ rest)) dst_qid s)
handle_insert_lem n fuel dst_qid s t k v rest holds absent enough room sk sv =
    rw (handle_insert-insert fuel dst_qid s k v rest sk sv) (
      bind (λ _ s'. Inserted degree n s t k v s')
        (λ sent s'. (sent ≡ done 0x0528 dst_qid) × Inserted degree n s t k v s')
        (insert degree fuel k v s) _
        (insert_lem degree n fuel s t k v (omega arith) holds absent enough room)
        λ _ s' i. (refl, i))

-- handle_update of a request with a key that has a record, and the index of the root or of a node on
-- the way to the key, returns the reply 0x530, and updates that record.
pub handle_update_lem :
    (n size fuel dst_qid fbt_key idx : ℕ) (s : Tree) (w : Shape.Tree Str) (k : Str) (v : FieldTable)
    (e : Entry Str) (c : Trail Str) (t : Shape.Tree Str) (rest : List ℕ)
    → Holds degree n s w
    → Located degree n s k c t
    → idx < 2 ^ 48
    → node_at_bias size idx ≡ some (addr t)
    → get k (entries (whole c t)) ≡ some e
    → height t + 1 ≤ fuel
    → Short k
    → Short (values_bytes v)
    → Returns
        (λ sent s'. (sent ≡ done 0x0530 dst_qid) × Updated degree n s w e v s')
        (handle_update size fuel
          (fbt_bytes fbt_key idx ++ (key_bytes k ++ (values_bytes v ++ rest)))
          dst_qid
          s)
unfolding handle_update
handle_update_lem n size fuel dst_qid fbt_key idx s w k v e c t rest holds loc small at got enough
      sk sv =
    rw
      (
        extract_fbt_hdr-fbt_bytes fbt_key idx (key_bytes k ++ (values_bytes v ++ rest)) small,
        extract_key_index-key_bytes k (values_bytes v ++ rest) sk,
        extract_values-values_bytes v rest sv,
      )
      (bind (λ _ s'. Updated degree n s w e v s')
        (λ sent s'. (sent ≡ done 0x0530 dst_qid) × Updated degree n s w e v s')
        (update_record size fuel k v idx s) _
        (update_record_lem degree n size idx fuel s w k v e c t holds loc at got enough)
        λ _ s' u. rw (reply-done 0x0530 dst_qid s' (omega arith)) (refl, u))

-- The reply to a query.
abbrev pub answer : FieldTable → ℕ → Sent
answer v dst_qid = record { context = type_bytes 0x0529 0 ++ values_bytes v; send_no = dst_qid }

-- handle_query of a key that has a record returns the reply 0x529 with the fields of that record, and
-- changes counters only, if these fields have at most 1467 bytes as inject_values writes them, so that the
-- reply fits into its buffer of 1472. The request is well formed, with a key of a length that the
-- message can state and an index below 2^48, which is that of the root or of a node on the way to the key;
-- in mode 0 the root is taken instead. The fuel is a level more than the tree below that node is high.
pub handle_query_lem :
    (n size fuel mode dst_qid fbt_key idx : ℕ) (s : Tree) (k : Str) (e : Entry Str) (c : Trail Str)
    (t : Shape.Tree Str) (rest : List ℕ)
    → Located degree n s k c t
    → idx < 2 ^ 48
    → node_at_bias size (if mode == 0 then 0 else idx) ≡ some (addr t)
    → get k (entries (whole c t)) ≡ some e
    → height t + 1 ≤ fuel
    → Short k
    → 5 + length (values_bytes e.val) ≤ capacity
    → Returns
        (λ sent s'. (sent ≡ answer e.val dst_qid) × Seen s s')
        (handle_query size fuel mode (fbt_bytes fbt_key idx ++ (key_bytes k ++ rest)) dst_qid s)
unfolding handle_query
handle_query_lem n size fuel mode dst_qid fbt_key idx s k e c t rest loc small at got enough sk
      room =
    rw
      (
        extract_fbt_hdr-fbt_bytes fbt_key idx (key_bytes k ++ rest) small,
        extract_key_index-key_bytes k rest sk,
      )
      (bind (λ fields s'. (fields ≡ e.val) × Seen s s')
        (λ sent s'. (sent ≡ answer e.val dst_qid) × Seen s s')
        (lookup size fuel k (if mode == 0 then 0 else idx) s) _
        (lookup_lem degree n size (if mode == 0 then 0 else idx) fuel s k e c t loc at got enough)
        λ fields s' (same, seen).
          let typed : inject_msg_type 0x0529 0 [] ≡ ok tt (type_bytes 0x0529 0) =
            inject_msg_type-put_zero 0x0529 0 [] (omega arith)
            ∙ put_fits (type_bytes 0x0529 0) [] (omega arith) in
          let filled : inject_values fields (type_bytes 0x0529 0)
              ≡ ok tt (type_bytes 0x0529 0 ++ values_bytes e.val) =
            ap (λ (v : FieldTable). inject_values v (type_bytes 0x0529 0)) same
            ∙ inject_values-put e.val (type_bytes 0x0529 0)
            ∙ put_fits (values_bytes e.val) (type_bytes 0x0529 0) room in
          rw (typed, filled) (refl, seen))

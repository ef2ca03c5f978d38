-- ===== src/RdmaClient/Runs.antt =====
-- An insert request, taken apart.
use fat_btree.Prelude.{◌≡◌, refl, true, false, [], ◌∷◌, ◌++◌, arith, Str, ◌==◌, if◌then◌else◌}
use fat_btree.Run.{Returns, ok}
use fat_btree.FieldTable.{FieldTable}
use fat_btree.FixedArray.{elems, to_vector}
use fat_btree.Order.{signed_order}
use fat_btree.KeyIndex.Digits.{to_digits}
use fat_btree.KeyIndex.RoundTrip.{padded, remove_key_index_prefix-padded}
use fat_btree.BPlusTree.Overflow.{lower_bound}
use fat_btree.RdmaTree.Node.{new_node}
use fat_btree.RdmaTree.Sample.{one_fixed}
use fat_btree.RdmaClient.{RemoteNode, insert_request, rdma_read}
use fat_btree.RdmaDriver.{Device, Answers, Local, polled, success}
use fat_btree.RdmaClient.Remote.{Field, rdma_read-Broken}
use fat_btree.RdmaClient.Requests.{taken, insert_request-taken}
use fat_btree.RdmaCodec.{FixedStr, FixedTable}
use fat_btree.RdmaCodec.Fixed.{fields}

abbrev blank : FixedStr
blank = record { size = 0; val = λ j. 0 }

abbrev no_fields : FixedTable
no_fields = record { size = 0; val = λ j. (blank, blank) }

abbrev values : FieldTable
values = ((b'f' ∷ b'0' ∷ []), (b'x' ∷ [])) ∷ []

insert_request_example :
    Returns
      (λ _ msg.
        Returns
          (λ r rest.
            (r.0 ≡ 0x0526)
            × (to_vector r.1 ≡ (b't' ∷ []) ++ (b'k' ∷ []))
            × (fields (to_vector r.2) ≡ values)
            × (rest ≡ 9 ∷ []))
          (taken blank no_fields (msg ++ (9 ∷ []))))
      (insert_request (b't' ∷ []) (b'k' ∷ []) values [])
insert_request_example =
    insert_request-taken (b't' ∷ []) (b'k' ∷ []) values blank no_fields (9 ∷ []) (omega arith)
      (omega arith) (omega arith, omega arith, tt) (omega arith)

-- "usertableuser"
abbrev user : Str
user = b'u' ∷ b's' ∷ b'e' ∷ b'r' ∷ b't' ∷ b'a' ∷ b'b' ∷ b'l' ∷ b'e' ∷ b'u' ∷ b's' ∷ b'e' ∷ b'r' ∷ []

abbrev name : Str
name = user ++ padded 0 42

abbrev field : Field
field = (blank, blank)

-- A READ that succeeds at the second poll, and one that is not posted.
abbrev read : RemoteNode → Answers RemoteNode
read n = record {
  posted = true;
  event = true;
  notified = true;
  polls = polled [] ∷ polled (success ∷ []) ∷ [];
  memory = n;
}

abbrev not_posted : Device RemoteNode
not_posted reads wr = record (read (new_node (λ _. []) (λ _. field))) { posted = false }

-- The backend's memory, and a switch that sends each key to the root.
abbrev memory : Device RemoteNode
memory reads wr =
    read ((one_fixed 16 fields name field).pool (if wr.rkey == 0 then 0 else wr.remote_addr))

abbrev blank_local : Local RemoteNode
blank_local = record {
  remote_node = new_node (λ _. []) (λ _. field);
  reads = 0;
  read_count = 5 ∷ [];
}

-- A value node that was read for another key.
abbrev stale : Local RemoteNode
stale = record blank_local {
  remote_node = record (new_node (λ _. []) (λ _. field)) {
    is_value = true;
    val = record { size = 1; val = λ _. field };
  };
}

rdma_read-Broken_example :
    rdma_read 16 not_posted 7 2 user (padded 0 42) [] stale
    ≡ ok ([] ++ (([], []) ∷ [])) (record stale { reads = 1; read_count = 5 ∷ 1 ∷ [] })
unfolding elems lower_bound to_digits
rdma_read-Broken_example =
    rdma_read-Broken 16 not_posted 7 (λ reads wr. refl) 1 42 user (padded 0 42) [] stale
      (remove_key_index_prefix-padded user 0 42 refl (omega arith)).0 (omega arith) (omega arith)

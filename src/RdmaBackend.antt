-- ===== src/RdmaBackend.antt =====
-- The handlers of RDMA/CPU/backend/backend.cc for inserts, updates and queries, and the body of the loop of
-- main. A request names a node by its address: `base` is that of the pool and `size` is sizeof(Node). `key` and `values` are the local
-- variables as they are before a message is taken apart. The file of the insert messages and the output
-- are left out.
pub mod Long
pub mod Query
mod Runs
use fat_btree.Run.{Run, Cmd, ok, out_of_fuel, and_then, need}
use fat_btree.Prelude.{
  ℕ, ◌-◌, ◌/◌, ◌%◌, Option, none, some, List, [], ◌&&◌, ltb, leb, ◌==◌, if◌then◌else◌, Str,
}
use fat_btree.Order.{signed_order}
use fat_btree.Backend.{Sent}
use fat_btree.FixedArray.{to_vector}
use fat_btree.RdmaCodec.{
  FixedStr, FixedTable, inject_msg_type, inject_fixed_values, extract_msg_type, extract_fbt_hdr,
  extract_fixed_key, extract_fixed_values,
}
use fat_btree.RdmaTree.{insert, lookup}
use fat_btree.RdmaTree.Node.{RdmaTree, max_node_size}

abbrev pub Tree : Type 0
Tree = RdmaTree Str (FixedStr × FixedStr)

-- BPlusTree<16>
abbrev pub degree : ℕ
degree = 16

-- (Node *)fbt_idx: a null pointer, or the address of a node of the pool
unfoldable pub node_of : ℕ → ℕ → ℕ → Option (Option ℕ)
node_of base size fbt_idx =
    let a = (fbt_idx - base) / size in
    if fbt_idx == 0
    then some none
    else if leb base fbt_idx && ((fbt_idx - base) % size == 0 && ltb a max_node_size)
    then some (some a)
    else none

-- A reply that is a type alone.
unfoldable pub reply : ℕ → ℕ → Cmd Tree Sent
reply msg_type dst_qid s =
    and_then (inject_msg_type msg_type [])
      λ _ ret. ok (record { context = ret; send_no = dst_qid }) s

module _ (key : FixedStr) (values : FixedTable) where
  unfoldable pub handle_insert : ℕ → List ℕ → ℕ → Cmd Tree Sent
  handle_insert fuel msg dst_qid s = and_then (extract_fixed_key key msg) λ key_index msg1.
      and_then (extract_fixed_values values msg1) λ in_val msg2.
        and_then (insert degree fuel (to_vector key_index) in_val s) λ _. reply 0x0528 dst_qid

  -- The call of update is commented out.
  unfoldable pub handle_update : List ℕ → ℕ → Cmd Tree Sent
  handle_update msg dst_qid s = and_then (extract_fbt_hdr msg) λ fbt_idx msg1.
      and_then (extract_fixed_key key msg1) λ key_index msg2.
        and_then (extract_fixed_values values msg2) λ in_val msg3. reply 0x0530 dst_qid s

  unfoldable pub handle_query : ℕ → ℕ → ℕ → List ℕ → ℕ → Cmd Tree Sent
  handle_query base size fuel msg dst_qid s = and_then (extract_fbt_hdr msg) λ fbt_idx msg1.
      and_then (extract_fixed_key key msg1) λ key_index msg2.
        and_then (need (node_of base size fbt_idx) s) λ cur _.
          and_then (lookup degree fuel (to_vector key_index) cur s) λ found s'.
            and_then (inject_msg_type 0x0529 []) λ _ ret.
              and_then (inject_fixed_values found ret)
                λ _ ret'. ok (record { context = ret'; send_no = dst_qid }) s'

  abbrev pub sends : Run Tree Sent → Run Tree (Option Sent)
  sends r = and_then r λ sent. ok (some sent)

  -- The body of the loop of main. A request of another type is reported and dropped; for handle_load2switch
  -- there is no run.
  unfoldable pub serve : ℕ → ℕ → ℕ → List ℕ → ℕ → Cmd Tree (Option Sent)
  unfolding handle_insert handle_query handle_update
  serve base size fuel msg recv_no s = and_then (extract_msg_type msg) λ msg_type body.
      if msg_type == 0x0526
      then sends (handle_insert fuel body recv_no s)
      else if msg_type == 0x0527
      then sends (handle_query base size fuel body recv_no s)
      else if msg_type == 0x0531
      then sends (handle_update body recv_no s)
      else if msg_type == 0x0600
      then out_of_fuel
      else ok none s

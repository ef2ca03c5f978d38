-- ===== src/Backend.antt =====
-- The handlers of Ethernet/CPU/YCSB-BPlusTree-Backend/backend-1/backend.cc. backend-2, 3 and 4 differ
-- in the mask for load2switch_greedy and in an argument of driver.init. A handler takes the rest of
-- the request, runs the tree, and returns what it gives to send_pkt. `size` is sizeof(Node); `fuel` is
-- for the descents and the climb.
pub mod Serve
pub mod Dispatch
mod Runs
use fat_btree.Run.{Run, Cmd, ok, fault, and_then, ◌>>=◌, ◌>>◌, pure}
use fat_btree.Prelude.{ℕ, Option, none, some, ◌==◌, if◌then◌else◌, List, [], ◌∷◌, Str}
use fat_btree.Order.{str_order, str_lt}
use fat_btree.BPlusTree.Store.{BPlusTree}
use fat_btree.BPlusTree.Access.{insert, update_record, lookup}
use fat_btree.BPlusTree.Load.{Library, Printed, load2switch_greedy}
use fat_btree.Codec.{
  extract_msg_type, inject_msg_type, inject_values, extract_fbt_hdr, extract_key_index,
  extract_values,
}

-- send_pkt(ret, msg_len, dst_qid, 0)
pub record Sent : Type 0 where
  pub context : List ℕ
  pub send_no : ℕ

abbrev pub Tree : Type 0
Tree = BPlusTree Str

-- BPlusTree<16>
abbrev pub degree : ℕ
degree = 16

-- A reply that is a type alone.
abbrev reply : ℕ → ℕ → Cmd Tree Sent
reply msg_type dst_qid s =
    and_then (inject_msg_type msg_type 0 [])
      λ _ ret. ok (record { context = ret; send_no = dst_qid }) s

unfoldable pub handle_insert : ℕ → List ℕ → ℕ → Cmd Tree Sent
handle_insert fuel msg dst_qid s = and_then (extract_key_index msg) λ key_index msg1.
    and_then (extract_values msg1)
      λ values msg2. and_then (insert degree fuel key_index values s) λ _. reply 0x0528 dst_qid

unfoldable pub handle_update : ℕ → ℕ → List ℕ → ℕ → Cmd Tree Sent
handle_update size fuel msg dst_qid s = and_then (extract_fbt_hdr msg) λ fbt_idx msg1.
    and_then (extract_key_index msg1) λ key_index msg2.
      and_then (extract_values msg2) λ values msg3.
        and_then (update_record size fuel key_index values fbt_idx s) λ _. reply 0x0530 dst_qid

-- In mode 0 each lookup begins at the root. Mode 2 also prints the key and the index.
unfoldable pub handle_query : ℕ → ℕ → ℕ → List ℕ → ℕ → Cmd Tree Sent
handle_query size fuel mode msg dst_qid s = and_then (extract_fbt_hdr msg) λ fbt_idx msg1.
    and_then (extract_key_index msg1) λ key_index msg2.
      and_then (lookup size fuel key_index (if mode == 0 then 0 else fbt_idx) s) λ values s'.
        and_then (inject_msg_type 0x0529 0 []) λ _ ret.
          and_then (inject_values values ret)
            λ _ ret'. ok (record { context = ret'; send_no = dst_qid }) s'

-- root_load_num, max_load_num and compress_depth
abbrev pub root_load_num : ℕ
root_load_num = 150

abbrev pub max_load_num : ℕ
max_load_num = 800

abbrev pub compress_depth : ℕ
compress_depth = 2

-- node_info_txt.size()
abbrev pub nb_files : ℕ
nb_files = 4

-- The reply, and what is printed. `mask` has the number of the backend in its upper bits.
unfoldable pub handle_load2switch : Library → ℕ → ℕ → ℕ → Cmd Tree (Sent × List Printed)
handle_load2switch lib size fuel mask s =
    and_then
      (load2switch_greedy lib size degree fuel nb_files root_load_num max_load_num compress_depth
        mask s)
      λ printed s'. and_then (reply 0x601 0 s') λ sent. ok (sent, printed)

-- What a request makes the backend send and print.
pub record Answered : Type 0 where
  pub sent : Option Sent
  pub printed : List Printed

abbrev pub sends : Run Tree Sent → Run Tree Answered
sends r = and_then r λ sent. ok (record { sent = some sent; printed = [] })

-- The body of the loop of main. A request of another type is reported and dropped.
unfoldable pub serve : Library → ℕ → ℕ → ℕ → ℕ → List ℕ → ℕ → Cmd Tree Answered
unfolding handle_insert handle_query handle_update handle_load2switch
serve lib size fuel mode mask msg recv_no s = and_then (extract_msg_type msg) λ msg_type body.
    if msg_type == 0x0526
    then sends (handle_insert fuel body recv_no s)
    else if msg_type == 0x0527
    then sends (handle_query size fuel mode body recv_no s)
    else if msg_type == 0x0531
    then sends (handle_update size fuel body recv_no s)
    else if msg_type == 0x0600
    then and_then (handle_load2switch lib size fuel mask s) (λ sp s'.
      ok (record { sent = some sp.0; printed = sp.1 }) (record s' { nb_query = 0; nb_access = 0 }))
    else ok (record { sent = none; printed = [] }) s

-- The loop, over the packets that recv_pkt gives: a queue's number and the bytes.
unfoldable pub serve_all : Library → ℕ → ℕ → ℕ → ℕ → List (ℕ × List ℕ) → Cmd Tree (List Answered)
unfolding serve
serve_all lib size fuel mode mask [] s = ok [] s
serve_all lib size fuel mode mask ((recv_no, msg) ∷ packets) s =
    and_then (serve lib size fuel mode mask msg recv_no s)
      λ a s'. and_then (serve_all lib size fuel mode mask packets s') λ rest. ok (a ∷ rest)

-- ===== src/RdmaClient.antt =====
-- The requests of RDMA/CPU/db/b_plus_tree_db.cc, and what it makes of a reply: one packet is received,
-- and one with another type fails an assertion. RDMARead reads the nodes of a backend from its memory
-- into remote_node, with read_remote_node, and does not look at what that returns.
pub mod Remote
pub mod Requests
mod Runs
use fat_btree.Run.{Run, Cmd, ok, fault, out_of_fuel, and_then, ◌>>=◌, ◌>>◌, pure, need}
use fat_btree.Prelude.{
  ℕ, zero, suc, ◌+◌, Option, none, some, List, [], ◌∷◌, ◌++◌, ◌==◌, ltb, leb, length, if◌then◌else◌,
  Str,
}
use fat_btree.FieldTable.{FieldTable}
use fat_btree.KeyIndex.{remove_key_index_prefix}
use fat_btree.RdmaCodec.{
  inject_msg_type, inject_fbt_hdr, inject_key_index, inject_values, extract_msg_type,
  extract_values, key_len, FixedStr,
}
use fat_btree.RdmaCodec.Fixed.{fields}
use fat_btree.FixedArray.{to_vector}
use fat_btree.Order.{signed_order}
use fat_btree.RdmaDriver.{Device, Local, read_remote_node}
use fat_btree.BPlusTree.Overflow.{lower_bound}
use fat_btree.RdmaTree.Node.{RdmaNode}

unfoldable pub read_request : Str → Str → Cmd (List ℕ) (Unit {0})
unfolding inject_msg_type remove_key_index_prefix
read_request table key = do
  inject_msg_type 0x0527
  number ← need (remove_key_index_prefix (table ++ key))
  inject_fbt_hdr number
  inject_key_index (table ++ key)

unfoldable pub update_request : Str → Str → FieldTable → Cmd (List ℕ) (Unit {0})
unfolding inject_msg_type remove_key_index_prefix
update_request table key values = do
  inject_msg_type 0x0531
  number ← need (remove_key_index_prefix (table ++ key))
  inject_fbt_hdr number
  inject_key_index (table ++ key)
  inject_values values

unfoldable pub insert_request : Str → Str → FieldTable → Cmd (List ℕ) (Unit {0})
unfolding inject_msg_type
insert_request table key values = do
  inject_msg_type 0x0526
  inject_key_index (table ++ key)
  inject_values values

-- assert(msg_type == want)
unfoldable pub expect : ℕ → Cmd (List ℕ) (Unit {0})
unfolding extract_msg_type
expect want msg =
    and_then (extract_msg_type msg) λ msg_type body. if msg_type == want then ok tt body else fault

unfoldable pub read_reply : Cmd (List ℕ) FieldTable
unfolding expect
read_reply = do expect 0x0529; extract_values

-- KEY_TYPE(x): the elements of the key, if its array has room for them; they are compared as signed.
abbrev pub to_key_type : Str → Option Str
to_key_type x = if leb (length x) key_len then some x else none

abbrev pub RemoteNode : Type 0
RemoteNode = RdmaNode Str (FixedStr × FixedStr)

module _ (m : ℕ) (device : Device RemoteNode) (remote_stag : ℕ) where
  abbrev pub current : Cmd (Local RemoteNode) RemoteNode
  current s = ok s.remote_node s

  -- while (!remote_node.isValue), with count, which is returned
  unfoldable pub descend : ℕ → Str → ℕ → Cmd (Local RemoteNode) ℕ
  unfolding read_remote_node
  descend zero key count = λ _. out_of_fuel
  descend (suc fuel) key count = do
    remote_node ← current
    let it = lower_bound (to_vector remote_node.key) key
    let down = do
      child ← need (if ltb it m then some (remote_node.child.val it) else none)
      read_remote_node device remote_stag (some child) 0
      descend fuel key (count + 1)
    if remote_node.is_value then pure count else down

  unfoldable pub rdma_read : ℕ → Str → Str → FieldTable → Cmd (Local RemoteNode) FieldTable
  unfolding remove_key_index_prefix read_remote_node descend
  rdma_read fuel table key result = do
    k ← need (to_key_type (table ++ key))
    number ← need (remove_key_index_prefix (table ++ key))
    read_remote_node device remote_stag none number
    count ← descend fuel k 1
    remote_node ← current
    (λ s. ok tt (record s { read_count = s.read_count ++ (count ∷ []) }))
    pure (result ++ fields (to_vector remote_node.val))

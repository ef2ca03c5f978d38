-- ===== src/Client.antt =====
-- Read, Insert, Update and Load2Switch of Ethernet/CPU/YCSB-BPlusTree-Frontend/db/b_plus_tree_db.cc:
-- the request that is given to send_pkt, and the loop over the packets that recv_pkt gives back. Where
-- no packet is left a loop waits, which is `out_of_fuel`; a failed assert is a fault.
pub mod Requests
mod Runs
use fat_btree.Run.{Run, Cmd, ok, fault, out_of_fuel, and_then, ◌>>=◌, ◌>>◌, pure, need}
use fat_btree.Prelude.{ℕ, ◌==◌, if◌then◌else◌, List, [], ◌∷◌, ◌++◌, Str}
use fat_btree.FieldTable.{FieldTable}
use fat_btree.KeyIndex.{scan_key_index, get_part_id}
use fat_btree.Codec.{
  inject_msg_type_pid, inject_fbt_hdr, inject_key_index, inject_values, extract_msg_type,
  extract_values,
}

abbrev pub key_index : Str → Str → Str
key_index table key = table ++ key

unfoldable pub read_request : Str → Str → Cmd (List ℕ) (Unit {0})
read_request table key = do
  part_id ← need (get_part_id (key_index table key))
  inject_msg_type_pid 0x0527 part_id
  number ← need (scan_key_index (key_index table key))
  inject_fbt_hdr number
  inject_key_index (key_index table key)

unfoldable pub update_request : Str → Str → FieldTable → Cmd (List ℕ) (Unit {0})
update_request table key values = do
  part_id ← need (get_part_id (key_index table key))
  inject_msg_type_pid 0x0531 part_id
  number ← need (scan_key_index (key_index table key))
  inject_fbt_hdr number
  inject_key_index (key_index table key)
  inject_values values

unfoldable pub insert_request : Str → Str → FieldTable → Cmd (List ℕ) (Unit {0})
insert_request table key values = do
  part_id ← need (get_part_id (key_index table key))
  inject_msg_type_pid 0x0526 part_id
  inject_key_index (key_index table key)
  inject_values values

-- The loop of Insert, Update and Load2Switch: packets of type 0 are passed over.
unfoldable pub await : ℕ → Cmd (List (List ℕ)) (Unit {0})
await want [] = out_of_fuel
await want (msg ∷ packets) =
    let next = await want packets in
    and_then (extract_msg_type msg) λ msg_type _.
      if msg_type == want then ok tt packets else if msg_type == 0 then next else fault

-- The loop of Read, which takes the fields out of each packet, those of type 0 included.
unfoldable pub await_values : Cmd (List (List ℕ)) FieldTable
await_values [] = out_of_fuel
await_values (msg ∷ packets) =
    let next = await_values packets in
    and_then (extract_msg_type msg) λ msg_type body.
      if msg_type == 0x0529
      then and_then (extract_values body) (λ result _. ok result packets)
      else if msg_type == 0
      then and_then (extract_values body) (λ _ _. next)
      else fault

-- Load2Switch asks one backend after the other.
unfoldable pub load_request : ℕ → Cmd (List ℕ) (Unit {0})
load_request part_id = inject_msg_type_pid 0x0600 part_id

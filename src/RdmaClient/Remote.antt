-- ===== src/RdmaClient/Remote.antt =====
-- RDMARead on the memory of a backend whose pool stands for a tree.
use fat_btree.Run.{ok, out_of_fuel}
use fat_btree.Prelude.{
  ℕ, zero, suc, ◌+◌, ◌≤◌, ◌<◌, ◌≡◌, refl, ◌∙◌, Bool, Bool-cases, inl, inr, if◌then◌else◌, true,
  false, Option, none, some, [], ◌∷◌, ◌++◌, arith, leb, length, ltb, Str,
}
use fat_btree.Order.{signed_order}
use fat_btree.FieldTable.{FieldTable}
use fat_btree.KeyIndex.{remove_key_index_prefix}
use fat_btree.FixedArray.{to_vector}
use fat_btree.RdmaCodec.{FixedStr, key_len}
use fat_btree.RdmaCodec.Fixed.{fields}
use fat_btree.BPlusTree.Store.{BPlusTree}
use fat_btree.BPlusTree.Overflow.{lower_bound}
use fat_btree.BPlusTree.Tree.{Tree, addr}
use fat_btree.RdmaTree.Lookup.{Alike}
use fat_btree.RdmaClient.{RemoteNode, descend, rdma_read}
use fat_btree.RdmaDriver.{Device, Local, SendWr, Delivers, send_wr, read_remote_node}

abbrev pub Field : Type 0
Field = FixedStr × FixedStr

module _ (m : ℕ) (device : Device RemoteNode) (remote_stag : ℕ) where
  descend-stop :
      (fuel : ℕ) (k : Str) (count : ℕ) (l : Local RemoteNode)
      → l.remote_node.is_value ≡ true
      → descend m device remote_stag (suc fuel) k count l ≡ ok count l
  unfolding descend
  descend-stop fuel k count l v = ground arith

  descend-step :
      (fuel : ℕ) (k : Str) (count : ℕ) (l l1 : Local RemoteNode) (posted : Bool)
      → l.remote_node.is_value ≡ false
      → lower_bound (to_vector l.remote_node.key) k < m
      → read_remote_node device remote_stag
          (some (l.remote_node.child.val (lower_bound (to_vector l.remote_node.key) k)))
          0
          l
        ≡ ok posted l1
      → descend m device remote_stag (suc fuel) k count l
        ≡ descend m device remote_stag fuel k (count + 1) l1
  unfolding descend
  descend-step fuel k count l l1 posted v h read =
      let inside : ltb (lower_bound (to_vector l.remote_node.key) k) m ≡ true = ground arith in
      simp (v, inside, read)

module _ (m : ℕ) (device : Device RemoteNode) (remote_stag : ℕ) (pool : ℕ → RemoteNode)
    (s : BPlusTree Str) (same : Alike m fields (λ _. Unit) pool s) where
  -- A READ of a child of a node succeeds, with what the pool has there.
  abbrev pub Reachable : Type 0
  Reachable =
      (reads a i : ℕ)
      → i < (pool a).child.size
      → Delivers (device reads (send_wr device remote_stag (some ((pool a).child.val i)) 0))
          (pool ((pool a).child.val i))

  -- What is so after the loop that begins at `count`, given a level more than the tree is high.
  abbrev Ended :
      ℕ → ℕ → Local RemoteNode → (ℕ → BPlusTree Str → Type 0) → ℕ → Local RemoteNode → Type 0
  Ended fuel count l Q last l' =
      (a : ℕ) × Q a s
      × (l'.remote_node ≡ pool a)
      × (last + 1 ≤ count + fuel)
      × (l'.read_count ≡ l.read_count)

-- No READ is posted from then on.
abbrev pub Broken : Device RemoteNode → Type 0
Broken device = (reads : ℕ) (wr : SendWr) → (device reads wr).posted ≡ false

module _ (m : ℕ) (device : Device RemoteNode) (remote_stag : ℕ) (broken : Broken device) where
  not_read :
      (addr : Option ℕ) (fbt_key : ℕ) (l : Local RemoteNode)
      → read_remote_node device remote_stag addr fbt_key l
        ≡ ok false (record l { reads = l.reads + 1 })
  unfolding read_remote_node
  not_read addr fbt_key l = rw (broken l.reads (send_wr device remote_stag addr fbt_key)) refl

  descend-Broken :
      (k : Str) (fuel count : ℕ) (l : Local RemoteNode)
      → l.remote_node.is_value ≡ false
      → lower_bound (to_vector l.remote_node.key) k < m
      → descend m device remote_stag fuel k count l ≡ out_of_fuel
  unfolding descend
  descend-Broken k zero count l v h = refl
  descend-Broken k (suc fuel) count l v h =
      descend-step m device remote_stag fuel k count l (record l { reads = l.reads + 1 }) false v h
        (not_read (some (l.remote_node.child.val (lower_bound (to_vector l.remote_node.key) k))) 0
          l)
      ∙ descend-Broken k fuel (count + 1) (record l { reads = l.reads + 1 }) v h

  -- When ibv_post_send fails for each READ, RDMARead of a key that fits and holds a number goes by the node
  -- that was read before, whose children the position of the key is among: it returns the fields of
  -- that node, whatever the key, if it is a value node, and else no fuel is enough.
  pub rdma_read-Broken :
      (fuel number : ℕ) (table key : Str) (result : FieldTable) (l : Local RemoteNode)
      → remove_key_index_prefix (table ++ key) ≡ some number
      → length (table ++ key) ≤ key_len
      → lower_bound (to_vector l.remote_node.key) (table ++ key) < m
      → rdma_read m device remote_stag (suc fuel) table key result l ≡ (
          if l.remote_node.is_value
          then ok
              (result ++ fields (to_vector l.remote_node.val))
              (record l { reads = l.reads + 1; read_count = l.read_count ++ (1 ∷ []) })
          else out_of_fuel)
  unfolding rdma_read
  rdma_read-Broken fuel number table key result l num fits h =
      let k = table ++ key in
      let room : leb (length k) key_len ≡ true = ground arith in
      let l1 : Local RemoteNode = record l { reads = l.reads + 1 } in
      let stale : read_remote_node device remote_stag none number l ≡ ok false l1 =
        not_read none number l in
      elim (Bool-cases l.remote_node.is_value) [
        | inl v ↦ rw (room, num, stale, descend-stop m device remote_stag fuel k 1 l1 v, v) refl
        | inr v ↦ rw (room, num, stale, descend-Broken k (suc fuel) 1 l1 v h, v) refl
      ]

-- ===== src/BPlusTree/Access.antt =====
-- insert, update and lookup of Ethernet/CPU/YCSB-BPlusTree-Backend/lib/b_plus_tree.h. The descents
-- take fuel. `size` is sizeof(Node), which the compiler chooses.
pub mod Bias
pub mod Choice
pub mod Descent
pub mod Fill
pub mod Hang
pub mod InLeaf
pub mod Insert
pub mod Joined
pub mod Leaf
pub mod Lookup
pub mod Revalue
pub mod Seen
pub mod Update
use fat_btree.Run.{Cmd, out_of_fuel, ok, fault, and_then, ◌>>=◌, ◌>>◌, pure}
use fat_btree.Prelude.{
  ℕ, zero, suc, ◌*◌, ◌/◌, ◌%◌, ◌^◌, Bool, true, false, Option, none, some, ◌&&◌, ltb, ◌==◌,
  if◌then◌else◌, insert_at,
}
use fat_btree.Order.{Order}
use fat_btree.FieldTable.{FieldTable, update_field_table}
use fat_btree.BPlusTree.Store.{
  Node, BPlusTree, root, max_node_size, inc32, update, load, take_node, child_at, modify, deref,
}
use fat_btree.BPlusTree.Overflow.{lower_bound, overflow}

-- (Node *)((uint64_t)root + (bias & 0xFFFFFFFF)), if that is the address of a node of the pool
unfoldable pub node_at_bias : ℕ → ℕ → Option ℕ
node_at_bias size bias =
    let offset = bias % 2 ^ 32 in
    if (offset % size == 0) && ltb (offset / size) max_node_size then some (offset / size) else none

module _ {K : Type 0} ⦃o : Order K⦄ where
  touch : ℕ → Cmd (BPlusTree K) (Unit {0})
  touch cur = modify cur λ n. record n { access_count = inc32 n.access_count }

  -- while (!cur->isLeaf), as `insert` walks
  unfoldable pub find_leaf : ℕ → K → ℕ → Cmd (BPlusTree K) ℕ
  find_leaf zero in_key cur = λ _. out_of_fuel
  find_leaf (suc fuel) in_key cur = do
    n ← load cur
    let down = do c ← child_at n (lower_bound n.key in_key); find_leaf fuel in_key c
    if n.is_leaf then pure cur else down

  -- while (!cur->isValue), as `update` walks
  unfoldable pub walk : ℕ → K → ℕ → Cmd (BPlusTree K) ℕ
  unfolding touch
  walk zero in_key cur = λ _. out_of_fuel
  walk (suc fuel) in_key cur = do
    n ← load cur
    let down = do c ← child_at n (lower_bound n.key in_key); touch c; walk fuel in_key c
    if n.is_value then pure cur else down

  count_access : Cmd (BPlusTree K) (Unit {0})
  count_access s = ok tt (record s { nb_access = inc32 s.nb_access })

  count_query : Cmd (BPlusTree K) (Unit {0})
  count_query s = ok tt (record s { nb_query = inc32 s.nb_query })

  -- while (!cur->isValue), as `lookup` walks
  unfoldable pub walk_counted : ℕ → K → ℕ → Cmd (BPlusTree K) ℕ
  unfolding touch count_access
  walk_counted zero in_key cur = λ _. out_of_fuel
  walk_counted (suc fuel) in_key cur = do
    n ← load cur
    let down = do
      count_access
      c ← child_at n (lower_bound n.key in_key)
      touch c
      walk_counted fuel in_key c
    if n.is_value then pure cur else down

  unfoldable pub insert : ℕ → ℕ → K → FieldTable → Cmd (BPlusTree K) (Unit {0})
  insert m fuel in_key in_val = do
    value_node ← take_node
    cur ← find_leaf fuel in_key root
    n ← load cur
    let p = lower_bound n.key in_key
    modify cur
        λ n'. record n' { key = insert_at n'.key p in_key; child = insert_at n'.child p value_node }
    modify value_node λ v. record v {
      is_leaf = false;
      is_value = true;
      parent = some cur;
      val = update_field_table in_val v.val;
    }
    overflow m fuel cur

  unfoldable pub update_record : ℕ → ℕ → K → FieldTable → ℕ → Cmd (BPlusTree K) (Unit {0})
  unfolding touch
  update_record size fuel in_key in_val bias = do
    cur ← deref (node_at_bias size bias)
    touch cur
    found ← walk fuel in_key cur
    modify found λ n. record n { val = update_field_table in_val n.val }

  unfoldable pub lookup : ℕ → ℕ → K → ℕ → Cmd (BPlusTree K) FieldTable
  unfolding touch count_query
  lookup size fuel in_key bias = do
    cur ← deref (node_at_bias size bias)
    count_query
    touch cur
    found ← walk_counted fuel in_key cur
    n ← load found
    pure n.val

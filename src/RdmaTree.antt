-- ===== src/RdmaTree.antt =====
-- The B+ tree of RDMA/CPU/lib/b_plus_tree.h, whose nodes hold their keys, children and fields in
-- fixed-size arrays, so that a client can read a node as it lies in memory. `m` is M, the capacity of
-- the arrays of a node and the number of keys at which it is split; a Node * is an index of the pool.
pub mod Full
pub mod Insert
pub mod Lookup
pub mod Node
pub mod Overflow
mod Runs
pub mod Sample
pub mod Sim
use fat_btree.Run.{Cmd, ok, fault, out_of_fuel, and_then, ◌>>=◌, ◌>>◌, pure, need}
use fat_btree.Prelude.{
  ℕ, zero, suc, ◌+◌, ◌-◌, ◌^◌, Bool, true, false, Option, none, some, ◌||◌, ltb, if◌then◌else◌,
}
use fat_btree.Order.{Order, ◌<?◌}
use fat_btree.FixedArray.{FixedArray, to_vector, insert_one}
use fat_btree.BPlusTree.Overflow.{lower_bound}
use fat_btree.RdmaTree.Node.{
  RdmaNode, RdmaTree, load, modify, take_node, child_at, touch, count_int,
}
use fat_btree.RdmaTree.Overflow.{overflow}

-- if (cur == NULL) cur = root
abbrev pub start_node : Option ℕ → ℕ
start_node none = 0
start_node (some cur) = cur

module _ {K F : Type 0} ⦃o : Order K⦄ (m : ℕ) where
  -- while (!cur->isLeaf), as `insert` walks
  unfoldable pub find_leaf : ℕ → K → ℕ → Cmd (RdmaTree K F) ℕ
  find_leaf zero in_key cur = λ _. out_of_fuel
  find_leaf (suc fuel) in_key cur = do
    n ← load cur
    let down = do c ← child_at m n (lower_bound (to_vector n.key) in_key); find_leaf fuel in_key c
    if n.is_leaf then pure cur else down

  -- key_map[in_key] += 1
  unfoldable pub count_key : K → Cmd (RdmaTree K F) (Unit {0})
  count_key k s =
      and_then (count_int (s.key_map k) s) λ n s'.
        ok tt (record s' { key_map = λ x. if (x <? k) || (k <? x) then s'.key_map x else n })

  unfoldable pub insert : ℕ → K → FixedArray F → Cmd (RdmaTree K F) (Unit {0})
  unfolding count_key find_leaf overflow
  insert fuel in_key in_val = do
    count_key in_key
    cur ← find_leaf fuel in_key 0
    node_v ← take_node
    modify node_v
        λ v. record v { is_leaf = false; is_value = true; parent = some cur; val = in_val }
    n ← load cur
    let p = lower_bound (to_vector n.key) in_key
    key ← need (insert_one m p in_key n.key)
    modify cur λ n'. record n' { key = key }
    child ← need (insert_one m p node_v n.child)
    modify cur λ n'. record n' { child = child }
    overflow m fuel cur

  -- while (!cur->isValue), as `lookup` walks
  unfoldable pub walk : ℕ → K → ℕ → Cmd (RdmaTree K F) ℕ
  unfolding touch
  walk zero in_key cur = λ _. out_of_fuel
  walk (suc fuel) in_key cur = do
    n ← load cur
    let down = do
      nb_access ← (λ s. count_int s.nb_access s)
      (λ s. ok tt (record s { nb_access = nb_access }))
      c ← child_at m n (lower_bound (to_vector n.key) in_key)
      touch c
      walk fuel in_key c
    if n.is_value then pure cur else down

  unfoldable pub lookup : ℕ → K → Option ℕ → Cmd (RdmaTree K F) (FixedArray F)
  unfolding walk touch
  lookup fuel in_key cur = do
    nb_query ← (λ s. count_int s.nb_query s)
    (λ s. ok tt (record s { nb_query = nb_query }))
    touch (start_node cur)
    found ← walk fuel in_key (start_node cur)
    n ← load found
    pure n.val

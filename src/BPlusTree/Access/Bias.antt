-- ===== src/BPlusTree/Access/Bias.antt =====
-- The bias in a request: the address of a node, as its distance from the root in bytes.
use fat_btree.Prelude.{ℕ, ◌*◌, ◌%◌, ◌^◌, ◌<◌, ◌≡◌, some, lt→ltb}
use native.Mathlib.Nat.{zero-mod, zero-div, mod-eq_of_lt, mul-mod_left, mul-div_cancel}
use fat_btree.BPlusTree.Store.{root, max_node_size}
use fat_btree.BPlusTree.Access.{node_at_bias}

-- The address of a node of the pool comes back from the node's bias, when that is below 2^32.
pub node_at_bias-address :
    (size a : ℕ)
    → 0 < size
    → a < max_node_size
    → a * size < 2 ^ 32
    → node_at_bias size (a * size) ≡ some a
unfolding node_at_bias
node_at_bias-address size a pos room small =
    rw (mod-eq_of_lt small, mul-mod_left a size, mul-div_cancel a pos, lt→ltb a max_node_size room)

pub node_at_bias-root : (size : ℕ) → 0 < size → node_at_bias size 0 ≡ some root
unfolding node_at_bias
node_at_bias-root size pos =
    let e : 0 % 2 ^ 32 ≡ 0 = zero-mod (2 ^ 32) in rw (e, zero-mod size, zero-div size)

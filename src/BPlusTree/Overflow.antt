-- ===== src/BPlusTree/Overflow.antt =====
-- overflow of Ethernet/CPU/YCSB-BPlusTree-Backend/lib/b_plus_tree.h, in its three parts: the copy
-- of a node that may not move (the root, or one loaded to the switch), the split, and the climb to
-- the parent. `m` is the template argument M. The climb takes fuel.
pub mod Climb
use fat_btree.Run.{Cmd, out_of_fuel, ok, fault, and_then, ◌>>=◌, ◌>>◌, pure}
use fat_btree.Prelude.{
  ℕ, zero, suc, ◌+◌, ◌/◌, Bool, true, false, ◌||◌, Option, none, some, List, [], ◌∷◌, ◌++◌, leb,
  ◌==◌, if◌then◌else◌, length, get_elem?, take, drop, insert_at, last?,
}
use fat_btree.Order.{Order, ◌<?◌}
use fat_btree.BPlusTree.Store.{
  Node, BPlusTree, root, inc32, update, load, take_node, modify, set_parents, adopt, deref,
}

-- std::lower_bound: the position of the first key that is not below `k`, the length if there is none.
unfoldable pub lower_bound : {K : Type 0} ⦃o : Order K⦄ → List K → K → ℕ
lower_bound [] k = 0
lower_bound (x ∷ xs) k = if x <? k then suc (lower_bound xs k) else 0

module _ {K : Type 0} where
  grow : ℕ → Cmd (BPlusTree K) (Unit {0})
  grow cur s = ok tt (record s { depth = if cur == root then inc32 s.depth else s.depth })

  -- The keys and children of `cur` move to a new node below it, which is returned.
  unfoldable pub copy_down : ℕ → Cmd (BPlusTree K) ℕ
  unfolding grow update
  copy_down cur = do
    grow cur
    copy ← take_node
    n ← load cur
    modify copy λ c. record c {
      is_leaf = n.is_leaf;
      parent = some cur;
      key = n.key;
      child = n.child;
      is_loaded = false;
    }
    adopt n.child copy
    modify cur λ n'. record n' { is_leaf = false; key = []; child = copy ∷ [] }
    pure copy

  -- The node that is split: a root or loaded node is replaced by its copy.
  movable : ℕ → Node K → Cmd (BPlusTree K) ℕ
  movable cur n = if (cur == root) || n.is_loaded then copy_down cur else pure cur

module _ {K : Type 0} ⦃o : Order K⦄ (m : ℕ) where
  -- `key` and `fresh` become the separator and the right neighbour of the split node in `p`; the
  -- place is where `probe` would go.
  link : ℕ → K → K → ℕ → Cmd (BPlusTree K) (Unit {0})
  unfolding update lower_bound
  link p probe key fresh = modify p λ n. record n {
    key = insert_at n.key (lower_bound n.key probe) key;
    child = insert_at n.child (lower_bound n.key probe + 1) fresh;
  }

  split_leaf : ℕ → ℕ → Cmd (BPlusTree K) (Unit {0})
  unfolding update link
  split_leaf cur fresh = do
    n ← load cur
    modify fresh
        λ r. record r { key = drop (m / 2) n.key ++ r.key; child = drop (m / 2) n.child ++ r.child }
    modify cur λ n'. record n' { key = take (m / 2) n'.key; child = take (m / 2) n'.child }
    p ← deref n.parent
    r ← load fresh
    probe ← deref (get_elem? r.key 0)
    left ← load cur
    back ← deref (last? left.key)
    link p probe back fresh

  split_inner : ℕ → ℕ → Cmd (BPlusTree K) (Unit {0})
  unfolding update link
  split_inner cur fresh = do
    n ← load cur
    new_key ← deref (get_elem? n.key (m / 2))
    modify fresh λ r. record r {
      key = drop (m / 2 + 1) n.key ++ r.key;
      child = drop (m / 2 + 1) n.child ++ r.child;
    }
    modify cur λ n'. record n' { key = take (m / 2) n'.key; child = take (m / 2 + 1) n'.child }
    r ← load fresh
    adopt r.child fresh
    p ← deref n.parent
    link p new_key new_key fresh

  unfoldable pub split : ℕ → Cmd (BPlusTree K) (Unit {0})
  unfolding update split_leaf split_inner
  split cur = do
    fresh ← take_node
    n ← load cur
    modify fresh λ r. record r { parent = n.parent; is_leaf = n.is_leaf }
    if n.is_leaf then split_leaf cur fresh else split_inner cur fresh

  unfoldable pub overflow : ℕ → ℕ → Cmd (BPlusTree K) (Unit {0})
  unfolding movable
  overflow zero cur = λ _. out_of_fuel
  overflow (suc fuel) cur = do
    n ← load cur
    let climb = do
      cur' ← movable cur n
      split cur'
      n' ← load cur'
      p ← deref n'.parent
      overflow fuel p
    if leb m (length n.key) then climb else pure tt

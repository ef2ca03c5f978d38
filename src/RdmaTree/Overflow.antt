-- ===== src/RdmaTree/Overflow.antt =====
-- overflow of RDMA/CPU/lib/b_plus_tree.h, in its three parts: the copy of a node that may not move, the
-- split, and the climb to the parent. An insertion past the capacity of an array is a fault.
use fat_btree.Run.{Cmd, ok, out_of_fuel, ◌>>=◌, ◌>>◌, pure, need}
use fat_btree.Prelude.{ℕ, zero, suc, ◌+◌, ◌-◌, ◌/◌, false, some, ◌||◌, leb, ◌==◌, if◌then◌else◌}
use fat_btree.Order.{Order}
use fat_btree.FixedArray.{to_vector, clear, push_back, insert_one, insert_range, erase}
use fat_btree.BPlusTree.Store.{inc32}
use fat_btree.BPlusTree.Overflow.{lower_bound}
use fat_btree.RdmaTree.Node.{RdmaNode, RdmaTree, load, modify, take_node, adopt}

module _ {K F : Type 0} (m : ℕ) where
  unfoldable pub grow : ℕ → Cmd (RdmaTree K F) (Unit {0})
  grow cur s = ok tt (record s { depth = if cur == 0 then inc32 s.depth else s.depth })

  unfoldable pub copy_down : ℕ → Cmd (RdmaTree K F) ℕ
  unfolding grow
  copy_down cur = do
    grow cur
    copy_node ← take_node
    n ← load cur
    modify copy_node λ c. record c {
      is_leaf = n.is_leaf;
      parent = some cur;
      key = n.key;
      val = n.val;
      child = n.child;
      is_loaded = false;
    }
    adopt (to_vector n.child) copy_node
    c ← load cur
    child ← need (push_back m copy_node (clear c.child))
    modify cur
        λ n'. record n' { is_leaf = false; key = clear n'.key; val = clear n'.val; child = child }
    pure copy_node

  unfoldable pub movable : ℕ → RdmaNode K F → Cmd (RdmaTree K F) ℕ
  unfolding copy_down
  movable cur n = if (cur == 0) || n.is_loaded then copy_down cur else pure cur

module _ {K F : Type 0} ⦃o : Order K⦄ (m : ℕ) where
  -- The separator and the right neighbour of a split node become a key and a child of its parent.
  unfoldable pub link : ℕ → K → K → ℕ → Cmd (RdmaTree K F) (Unit {0})
  link p probe key new_node = do
    n ← load p
    let i = lower_bound (to_vector n.key) probe
    keys ← need (insert_one m i key n.key)
    modify p λ n'. record n' { key = keys }
    childs ← need (insert_one m (i + 1) new_node n.child)
    modify p λ n'. record n' { child = childs }

  -- The keys and children of `cur` from a position on move to the new node; the keys from `cut` on go.
  unfoldable pub move_upper : ℕ → ℕ → ℕ → ℕ → ℕ → Cmd (RdmaTree K F) (Unit {0})
  move_upper cur new_node first cut child_cut = do
    n ← load cur
    r ← load new_node
    keys ← need (insert_range m 0 n.key.val first n.key.size r.key)
    modify new_node λ r'. record r' { key = keys }
    left ← need (erase m cut n.key.size n.key)
    modify cur λ n'. record n' { key = left }
    childs ← need (insert_range m 0 n.child.val child_cut n.child.size r.child)
    modify new_node λ r'. record r' { child = childs }
    left_childs ← need (erase m child_cut n.child.size n.child)
    modify cur λ n'. record n' { child = left_childs }

  unfoldable pub split_leaf : ℕ → ℕ → Cmd (RdmaTree K F) (Unit {0})
  unfolding move_upper link
  split_leaf cur new_node = do
    move_upper cur new_node (m / 2) (m / 2) (m / 2)
    n ← load cur
    p ← need n.parent
    r ← load new_node
    link p (r.key.val 0) (n.key.val (n.key.size - 1)) new_node

  unfoldable pub split_inner : ℕ → ℕ → Cmd (RdmaTree K F) (Unit {0})
  unfolding move_upper link
  split_inner cur new_node = do
    n ← load cur
    let new_key = n.key.val (m / 2)
    move_upper cur new_node (m / 2 + 1) (m / 2) (m / 2 + 1)
    r ← load new_node
    adopt (to_vector r.child) new_node
    n' ← load cur
    p ← need n'.parent
    link p new_key new_key new_node

  unfoldable pub split : ℕ → Cmd (RdmaTree K F) (Unit {0})
  unfolding split_leaf split_inner
  split cur = do
    new_node ← take_node
    n ← load cur
    modify new_node λ r. record r { parent = n.parent; is_leaf = n.is_leaf }
    if n.is_leaf then split_leaf cur new_node else split_inner cur new_node

  unfoldable pub overflow : ℕ → ℕ → Cmd (RdmaTree K F) (Unit {0})
  unfolding movable split
  overflow zero cur = λ _. out_of_fuel
  overflow (suc fuel) cur = do
    n ← load cur
    let climb = do
      cur' ← movable m cur n
      split cur'
      n' ← load cur'
      p ← need n'.parent
      overflow fuel p
    if leb m n.key.size then climb else pure tt

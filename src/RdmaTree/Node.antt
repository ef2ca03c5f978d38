-- ===== src/RdmaTree/Node.antt =====
-- class Node and the fields of class BPlusTree of RDMA/CPU/lib/b_plus_tree.h. The counters of queries
-- and accesses are of type int: an increment past its largest value is undefined behaviour.
use fat_btree.Run.{Cmd, ok, fault}
use fat_btree.Prelude.{
  ℕ, ◌+◌, ◌-◌, ◌^◌, Bool, true, false, Option, none, some, List, [], ◌∷◌, ltb, ◌==◌, if◌then◌else◌,
}
use fat_btree.FixedArray.{FixedArray}
use fat_btree.BPlusTree.Store.{inc32}

-- `F` is the type of a field, a pair of fixed-size strings.
pub record RdmaNode (K F : Type 0) : Type 0 where
  pub is_leaf : Bool
  pub is_value : Bool
  pub parent : Option ℕ
  pub key : FixedArray K
  pub child : FixedArray ℕ
  pub val : FixedArray F
  pub access_count : ℕ
  pub is_loaded : Bool

pub record RdmaTree (K F : Type 0) : Type 0 where
  pub nb_query : ℕ
  pub nb_access : ℕ
  pub pool : ℕ → RdmaNode K F
  pub nb_node : ℕ
  pub depth : ℕ
  pub key_map : K → ℕ

-- A node and a tree as constructed: the arrays are empty, their cells are not initialised.
module _ {K F : Type 0} (keys : ℕ → K) (fields : ℕ → F) where
  abbrev pub new_node : RdmaNode K F
  new_node = record {
    is_leaf = true;
    is_value = false;
    parent = none;
    key = record { size = 0; val = keys };
    child = record { size = 0; val = λ _. 0 };
    val = record { size = 0; val = fields };
    access_count = 0;
    is_loaded = false;
  }

  abbrev pub empty_tree : RdmaTree K F
  empty_tree = record {
    nb_query = 0;
    nb_access = 0;
    pool = λ _. new_node;
    nb_node = 1;
    depth = 1;
    key_map = λ _. 0;
  }

abbrev pub max_node_size : ℕ
max_node_size = 20000000

module _ {K F : Type 0} where
  abbrev pub load : ℕ → Cmd (RdmaTree K F) (RdmaNode K F)
  load a s = ok (s.pool a) s

  unfoldable pub update : (ℕ → RdmaNode K F) → ℕ → RdmaNode K F → ℕ → RdmaNode K F
  update pool a n b = if b == a then n else pool b

  abbrev pub modify : ℕ → (RdmaNode K F → RdmaNode K F) → Cmd (RdmaTree K F) (Unit {0})
  modify a f s = ok tt (record s { pool = update s.pool a (f (s.pool a)) })

  -- &pool[nb_node++]
  abbrev pub take_node : Cmd (RdmaTree K F) ℕ
  take_node s =
      if ltb s.nb_node max_node_size
      then ok s.nb_node (record s { nb_node = s.nb_node + 1 })
      else fault

  -- cur->child[i]: operator[] looks at the capacity of the array only in so far as it is memory.
  abbrev pub child_at : ℕ → RdmaNode K F → ℕ → Cmd (RdmaTree K F) ℕ
  child_at m n i s = if ltb i m then ok (n.child.val i) s else fault

  -- n + 1 on an int
  abbrev pub count_int : ℕ → Cmd (RdmaTree K F) ℕ
  count_int n s = if ltb n (2 ^ 31 - 1) then ok (n + 1) s else fault

  -- ++cur->access_count
  unfoldable pub touch : ℕ → Cmd (RdmaTree K F) (Unit {0})
  touch cur = modify cur λ n. record n { access_count = inc32 n.access_count }

  -- for (auto ch : childs) ch->parent = p
  unfoldable pub set_parents : List ℕ → ℕ → (ℕ → RdmaNode K F) → ℕ → RdmaNode K F
  unfolding update
  set_parents [] p pool = pool
  set_parents (c ∷ cs) p pool =
      set_parents cs p (update pool c (record (pool c) { parent = some p }))

  abbrev pub adopt : List ℕ → ℕ → Cmd (RdmaTree K F) (Unit {0})
  adopt cs p s = ok tt (record s { pool = set_parents cs p s.pool })

-- ===== src/BPlusTree/Store.antt =====
-- class Node and the fields of class BPlusTree of
-- Ethernet/CPU/YCSB-BPlusTree-Backend/lib/b_plus_tree.h. Nodes live in an array, `pool`; a Node *
-- is its index there, so the root is 0. The array is a function, and an index past
-- MAX_NODE_SIZE is a fault where a node is taken.
use fat_btree.Run.{ok, fault, Cmd}
use fat_btree.Prelude.{
  ℕ, ◌+◌, ◌%◌, ◌^◌, Bool, true, false, Option, none, some, List, [], ◌∷◌, ltb, ◌==◌, if◌then◌else◌,
  get_elem?,
}
use fat_btree.FieldTable.{FieldTable}

pub record Node (K : Type 0) : Type 0 where
  pub is_leaf : Bool
  pub is_value : Bool
  pub parent : Option ℕ
  pub key : List K
  pub val : FieldTable
  pub child : List ℕ
  pub access_count : ℕ
  pub is_loaded : Bool

-- The default member initialisers.
abbrev pub new_node : {K : Type 0} → Node K
new_node = record {
  is_leaf = true;
  is_value = false;
  parent = none;
  key = [];
  val = [];
  child = [];
  access_count = 0;
  is_loaded = false;
}

pub record BPlusTree (K : Type 0) : Type 0 where
  pub nb_query : ℕ
  pub nb_access : ℕ
  pub pool : ℕ → Node K
  pub nb_node : ℕ
  pub depth : ℕ

abbrev pub empty_tree : {K : Type 0} → BPlusTree K
empty_tree = record { nb_query = 0; nb_access = 0; pool = λ a. new_node; nb_node = 1; depth = 1 }

abbrev pub root : ℕ
root = 0

abbrev pub max_node_size : ℕ
max_node_size = 100000000

-- ++x on a uint32_t
abbrev pub inc32 : ℕ → ℕ
inc32 n = (n + 1) % 2 ^ 32

module _ {K : Type 0} where
  -- The pool after the node at `a` has become `n`.
  unfoldable pub update : (ℕ → Node K) → ℕ → Node K → ℕ → Node K
  update pool a n b = if b == a then n else pool b

  abbrev pub write : ℕ → Node K → Cmd (BPlusTree K) (Unit {0})
  write a n s = ok tt (record s { pool = update s.pool a n })

  abbrev pub load : ℕ → Cmd (BPlusTree K) (Node K)
  load a s = ok (s.pool a) s

  -- &pool[nb_node++]
  abbrev pub take_node : Cmd (BPlusTree K) ℕ
  take_node s =
      if ltb s.nb_node max_node_size
      then ok s.nb_node (record s { nb_node = s.nb_node + 1 })
      else fault

  -- cur->child[i]
  abbrev pub child_at : Node K → ℕ → Cmd (BPlusTree K) ℕ
  child_at n i s = elim (get_elem? n.child i) [ none ↦ fault | some c ↦ ok c s ]

  abbrev pub modify : ℕ → (Node K → Node K) → Cmd (BPlusTree K) (Unit {0})
  modify a f s = ok tt (record s { pool = update s.pool a (f (s.pool a)) })

  -- for (auto ch : childs) ch->parent = p
  unfoldable pub set_parents : List ℕ → ℕ → (ℕ → Node K) → ℕ → Node K
  unfolding update
  set_parents [] p pool = pool
  set_parents (c ∷ cs) p pool =
      set_parents cs p (update pool c (record (pool c) { parent = some p }))

  abbrev pub adopt : List ℕ → ℕ → Cmd (BPlusTree K) (Unit {0})
  adopt cs p s = ok tt (record s { pool = set_parents cs p s.pool })

  -- *p of a pointer that may be null, and v[i] or v.back() of an index that may be out of range
  abbrev pub deref : {A : Type 0} → Option A → Cmd (BPlusTree K) A
  deref none s = fault
  deref (some a) s = ok a s

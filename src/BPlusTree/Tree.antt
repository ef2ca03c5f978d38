-- ===== src/BPlusTree/Tree.antt =====
-- Trees that the nodes of a pool stand for. A leaf holds its records in order, with the address of
-- each value node; an inner node holds a first child and the separators with the other children.
pub mod Framing
pub mod Leaves
pub mod Parts
pub mod Position
pub mod Sorting
pub mod Zipper
use fat_btree.Prelude.{
  ℕ, ◌+◌, ◌<◌, ◌≡◌, Bool, true, false, ◌||◌, Option, none, some, List, [], ◌∷◌, ◌++◌, map, ◌==◌,
  if◌then◌else◌, length, All,
}
use fat_btree.Order.{Order, ◌<?◌}
use fat_btree.FieldTable.{FieldTable}
use fat_btree.BPlusTree.Store.{Node}

pub record Entry (K : Type 0) : Type 0 where
  pub key : K
  pub at : ℕ
  pub val : FieldTable

mutual
  pub data Tree (K : Type 0) : Type 0 where
    leaf : ℕ → List (Entry K) → Tree K
    inner : ℕ → Tree K → Rest K → Tree K

  pub data Rest (K : Type 0) : Type 0 where
    end : Rest K
    more : K → Tree K → Rest K → Rest K

-- What an in-order walk meets: the records and the separators.
pub data Token (K : Type 0) : Type 0 where
  item : Entry K → Token K
  sep : K → Token K

abbrev pub one : ℕ → ℕ → ℕ
one x a = if x == a then 1 else 0

abbrev pub count_in : ℕ → List ℕ → ℕ
count_in x [] = 0
count_in x (a ∷ bs) = one x a + count_in x bs

module _ {K : Type 0} where
  abbrev pub addr : Tree K → ℕ
  addr (leaf a es) = a
  addr (inner a t r) = a

  abbrev pub is_leaf_tree : Tree K → Bool
  is_leaf_tree (leaf a es) = true
  is_leaf_tree (inner a t r) = false

  abbrev pub seps : Rest K → List K
  seps end = []
  seps (more k t r) = k ∷ seps r

  abbrev pub addrs : Rest K → List ℕ
  addrs end = []
  addrs (more k t r) = addr t ∷ addrs r

  abbrev pub keys_of : List (Entry K) → List K
  keys_of [] = []
  keys_of (e ∷ es) = e.key ∷ keys_of es

  abbrev pub ats_of : List (Entry K) → List ℕ
  ats_of [] = []
  ats_of (e ∷ es) = e.at ∷ ats_of es

  abbrev pub node_keys : Tree K → List K
  node_keys (leaf a es) = keys_of es
  node_keys (inner a t r) = seps r

  abbrev pub node_childs : Tree K → List ℕ
  node_childs (leaf a es) = ats_of es
  node_childs (inner a t r) = addr t ∷ addrs r

  abbrev pub items : List (Entry K) → List (Token K)
  items [] = []
  items (e ∷ es) = item e ∷ items es

  abbrev mutual
    pub flat : Tree K → List (Token K)
    flat (leaf a es) = items es
    flat (inner a t r) = flat t ++ flat_rest r

    pub flat_rest : Rest K → List (Token K)
    flat_rest end = []
    flat_rest (more k t r) = sep k ∷ (flat t ++ flat_rest r)

  -- The records of a walk.
  abbrev pub entries : List (Token K) → List (Entry K)
  entries [] = []
  entries (item e ∷ ts) = e ∷ entries ts
  entries (sep k ∷ ts) = entries ts

  -- How often an address occurs in a tree, the value nodes' included.
  abbrev mutual
    pub count : ℕ → Tree K → ℕ
    count x (leaf a es) = one x a + count_in x (ats_of es)
    count x (inner a t r) = one x a + count x t + count_rest x r

    pub count_rest : ℕ → Rest K → ℕ
    count_rest x end = 0
    count_rest x (more k t r) = count x t + count_rest x r

  -- The node at the root of `t`, under the parent `p`.
  pub record Cell (h : ℕ → Node K) (p : Option ℕ) (t : Tree K) : Type 0 where
    pub value : (h (addr t)).is_value ≡ false
    pub leafy : (h (addr t)).is_leaf ≡ is_leaf_tree t
    pub parent : (h (addr t)).parent ≡ p
    pub key : (h (addr t)).key ≡ node_keys t
    pub child : (h (addr t)).child ≡ node_childs t

  abbrev pub IsValueAt : (ℕ → Node K) → Entry K → Type 0
  IsValueAt h e = ((h e.at).is_value ≡ true) × ((h e.at).val ≡ e.val)

  -- The pool holds the tree. The parent pointers of value nodes go stale and do not count.
  abbrev mutual
    pub Rep : (ℕ → Node K) → Option ℕ → Tree K → Type 0
    Rep h p (leaf a es) = Cell h p (leaf a es) × All (IsValueAt h) es
    Rep h p (inner a t r) = Cell h p (inner a t r) × Rep h (some a) t × RepRest h a r

    pub RepRest : (ℕ → Node K) → ℕ → Rest K → Type 0
    RepRest h a end = Unit
    RepRest h a (more k t r) = Rep h (some a) t × RepRest h a r

  abbrev mutual
    pub Fits : ℕ → Tree K → Type 0
    Fits m (leaf a es) = length (keys_of es) < m
    Fits m (inner a t r) = (length (seps r) < m) × Fits m t × FitsRest m r

    pub FitsRest : ℕ → Rest K → Type 0
    FitsRest m end = Unit
    FitsRest m (more k t r) = Fits m t × FitsRest m r

-- The order of a walk: a record lies above all that comes before it, and at or below the separators
-- that come after it.
module _ {K : Type 0} ⦃o : Order K⦄ where
  abbrev pub Before : Token K → Token K → Type 0
  Before (item e) (item e') = (e.key <? e'.key) ≡ true
  Before (sep k) (item e') = (k <? e'.key) ≡ true
  Before (item e) (sep k') = (k' <? e.key) ≡ false
  Before (sep k) (sep k') = (k <? k') ≡ true

  abbrev pub AllBefore : List (Token K) → Token K → Type 0
  AllBefore [] y = Unit
  AllBefore (x ∷ xs) y = Before x y × AllBefore xs y

  abbrev pub Cross : List (Token K) → List (Token K) → Type 0
  Cross xs [] = Unit
  Cross xs (y ∷ ys) = AllBefore xs y × Cross xs ys

  abbrev pub Sorted : List (Token K) → Type 0
  Sorted [] = Unit
  Sorted (x ∷ xs) = Cross (x ∷ []) xs × Sorted xs

-- A path from the root to a node: at each level the node's address, the children before the path
-- with the separators behind them, nearest last, and the separators and children after it.
pub data Trail (K : Type 0) : Type 0 where
  top : Trail K
  frame : ℕ → List (Tree K × K) → Rest K → Trail K → Trail K

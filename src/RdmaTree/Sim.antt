-- ===== src/RdmaTree/Sim.antt =====
-- A pool of nodes with fixed-size arrays that stands for a pool of nodes with vectors, and the walk from
-- a node on the way to a record, which ends at its value node in both.
use fat_btree.Run.{Cmd, out_of_fuel, fault, Returns, ◌>>=◌, pure}
use fat_btree.Prelude.{
  ℕ, zero, suc, ◌+◌, ◌≤◌, ◌<◌, ◌≡◌, refl, ap, ◌∙◌, subst, true, false, Bool-cases, Option-cases,
  inl, inr, none, some, List, arith, get_elem?, if◌then◌else◌,
}
use fat_btree.Order.{Order}
use fat_btree.FieldTable.{FieldTable}
use fat_btree.FixedArray.{FixedArray, elems, to_vector}
use fat_btree.BPlusTree.Store.{Node, BPlusTree, load, child_at}
use fat_btree.BPlusTree.Overflow.{lower_bound}
use fat_btree.BPlusTree.Access.Descent.{Descent, AtValue, walk_lem}
use fat_btree.BPlusTree.Access.Leaf.{Located}
use fat_btree.BPlusTree.Access.Seen.{Seen}
use fat_btree.BPlusTree.Records.{get}
use fat_btree.BPlusTree.Stands.{whole, height}
use fat_btree.BPlusTree.Tree.{Entry, Tree, Trail, addr, entries}
use fat_btree.RdmaTree.Node.{RdmaNode}

pub elems-cell :
    {A : Type 0} (f : ℕ → A) (i n j : ℕ) (a : A)
    → get_elem? (elems f i n) j ≡ some a
    → (j < n) × (f (i + j) ≡ a)
unfolding elems
elems-cell f i zero j a e = absurd (ground arith)
elems-cell f i (suc n) zero a e =
    let q : i + 0 ≡ i = omega arith in (omega arith, ap f q ∙ ground (arith, e))
elems-cell f i (suc n) (suc j) a e =
    let r = elems-cell f (suc i) n j a e in
    let q : i + suc j ≡ suc i + j = omega arith in (omega (arith, r.0), ap f q ∙ r.1)

-- The walk by itself.
unfoldable pub path : {K : Type 0} ⦃o : Order K⦄ → ℕ → K → ℕ → Cmd (BPlusTree K) ℕ
path zero k cur = λ _. out_of_fuel
path (suc fuel) k cur = do
  n ← load cur
  let down = do c ← child_at n (lower_bound n.key k); path fuel k c
  if n.is_value then pure cur else down

-- `P` is what else is known of the fields of the nodes.
module _ {K F : Type 0} (m : ℕ) (view : List F → FieldTable) (P : FixedArray F → Type 0) where
  pub record Same (n : RdmaNode K F) (x : Node K) : Type 0 where
    pub value : n.is_value ≡ x.is_value
    pub leafy : n.is_leaf ≡ x.is_leaf
    pub parent : n.parent ≡ x.parent
    pub loaded : n.is_loaded ≡ x.is_loaded
    pub key : to_vector n.key ≡ x.key
    pub child : to_vector n.child ≡ x.child
    pub room : n.child.size ≤ m
    pub fields : x.is_value ≡ true → view (to_vector n.val) ≡ x.val
    pub sound : P n.val

module _ {K : Type 0} ⦃o : Order K⦄ where
  Seen-self : (s : BPlusTree K) → Seen s s
  Seen-self s = record { nodes = refl; levels = refl; pools = λ x. refl; fresh = λ x h. refl }

  path-step :
      (fuel : ℕ) (k : K) (cur c : ℕ) (s : BPlusTree K)
      → (s.pool cur).is_value ≡ false
      → get_elem? (s.pool cur).child (lower_bound (s.pool cur).key k) ≡ some c
      → path (suc fuel) k cur s ≡ path fuel k c s
  unfolding path
  path-step fuel k cur c s e f = ground arith

  pub path-Descent : Descent {K = K} path
  unfolding path
  path-Descent = record {
    next = λ c s. s;
    next_seen = λ s s' c used seen. seen;
    stop = λ fuel k cur s e. rw e;
    step = path-step;
  }

  path-stuck :
      (fuel : ℕ) (k : K) (cur : ℕ) (s : BPlusTree K)
      → (s.pool cur).is_value ≡ false
      → get_elem? (s.pool cur).child (lower_bound (s.pool cur).key k) ≡ none
      → path (suc fuel) k cur s ≡ fault
  unfolding path
  path-stuck fuel k cur s v e = ground arith

  pub path_lem :
      (m n : ℕ) (s : BPlusTree K) (k : K) (e : Entry K) (fuel : ℕ) (c : Trail K) (t : Tree K)
      → Located m n s k c t
      → get k (entries (whole c t)) ≡ some e
      → height t + 1 ≤ fuel
      → Returns (AtValue path path-Descent m n s k e) (path fuel k (addr t) s)
  path_lem m n s k e fuel c t loc g h =
      walk_lem path path-Descent m n s k e fuel c t s loc (Seen-self s) g h

  -- The first node of a walk: a value node, or the child that the next step goes to.
  pub data Head (fuel : ℕ) (k : K) (cur : ℕ) (s : BPlusTree K) (P : ℕ → BPlusTree K → Type 0)
      : Type 0 where
    stops : (s.pool cur).is_value ≡ true → P cur s → Head fuel k cur s P
    steps :
        (c : ℕ)
        → (s.pool cur).is_value ≡ false
        → get_elem? (s.pool cur).child (lower_bound (s.pool cur).key k) ≡ some c
        → Returns P (path fuel k c s)
        → Head fuel k cur s P

  pub path-Head :
      (fuel : ℕ) (k : K) (cur : ℕ) (s : BPlusTree K) (P : ℕ → BPlusTree K → Type 0)
      → Returns P (path (suc fuel) k cur s)
      → Head fuel k cur s P
  path-Head fuel k cur s P r =
      let child = get_elem? (s.pool cur).child (lower_bound (s.pool cur).key k) in
      elim (Bool-cases (s.pool cur).is_value) [
        | inl v ↦ stops v (subst (Returns P) (path-Descent.stop fuel k cur s v) r)
        | inr v ↦ elim (Option-cases child) [
          | inl q ↦ absurd (subst (Returns P) (path-stuck fuel k cur s v q) r)
          | inr (c, q) ↦ steps c v q (subst (Returns P) (path-step fuel k cur c s v q) r)
        ]
      ]

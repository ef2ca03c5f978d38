-- ===== src/BPlusTree/Split.antt =====
-- What a split writes: the split node, its new right neighbour and their parent.
pub mod Inner
pub mod Leaf
pub mod Place
pub mod Step
use fat_btree.Run.{Run, ok, fault, out_of_fuel, and_then, Returns}
use fat_btree.Prelude.{
  ℕ, zero, suc, ◌+◌, ◌/◌, ◌<◌, ◌≡◌, ◌≢◌, refl, ap, Bool, true, false, Option, none, some, List, [],
  ◌∷◌, ◌++◌, append-nil, arith, ltb, ◌==◌, ==_self, if◌then◌else◌, length, get_elem?, take, drop,
  insert_at, last?,
}
use fat_btree.Order.{Order}
use fat_btree.BPlusTree.Store.{Node, BPlusTree, new_node, max_node_size, update, set_parents}
use fat_btree.BPlusTree.Overflow.{lower_bound, split}
use fat_btree.BPlusTree.Tree.{count_in}
use fat_btree.BPlusTree.Tree.Parts.{set_parents-out, set_parents-in}

pub ne_eq : (a b : ℕ) → a ≢ b → (a == b) ≡ false
ne_eq a b ne = ground arith

module _ {K : Type 0} ⦃o : Order K⦄ where
  -- `xs` stay in `cur`, `ys` go to the new node, and `p` gains the separator `k` at place `i`.
  pub record SplitLeaf (m cur p i : ℕ) (k : K) (s s' : BPlusTree K) : Type 0 where
    pub grown : s'.nb_node ≡ s.nb_node + 1
    pub above : s'.pool p ≡ record (s.pool p) {
      key = insert_at (s.pool p).key i k;
      child = insert_at (s.pool p).child (i + 1) s.nb_node;
    }
    pub left : s'.pool cur ≡ record (s.pool cur) {
      key = take (m / 2) (s.pool cur).key;
      child = take (m / 2) (s.pool cur).child;
    }
    pub right : s'.pool s.nb_node ≡ record (s.pool s.nb_node) {
      parent = some p;
      key = drop (m / 2) (s.pool cur).key;
      child = drop (m / 2) (s.pool cur).child;
    }
    pub others : (x : ℕ) → x ≢ p → x ≢ cur → x ≢ s.nb_node → s'.pool x ≡ s.pool x

  pub split-leaf :
      (m cur p i : ℕ) (k k2 : K) (s : BPlusTree K)
      → s.nb_node < max_node_size
      → s.pool s.nb_node ≡ new_node
      → cur ≢ s.nb_node
      → p ≢ s.nb_node
      → p ≢ cur
      → (s.pool cur).is_leaf ≡ true
      → (s.pool cur).parent ≡ some p
      → last? (take (m / 2) (s.pool cur).key) ≡ some k
      → get_elem? (drop (m / 2) (s.pool cur).key) 0 ≡ some k2
      → lower_bound (s.pool p).key k2 ≡ i
      → Returns (λ _ s'. SplitLeaf m cur p i k s s') (split m cur s)
  unfolding split
  split-leaf m cur p i k k2 s room blank cf pf pc leafy parent last first place =
      let t1 : ltb s.nb_node max_node_size ≡ true = ground arith in
      ground (
        arith,
        append-nil (drop (m / 2) (s.pool cur).key),
        append-nil (drop (m / 2) (s.pool cur).child),
      )

  -- `cs` are the children that move to the new node.
  pub record SplitInner (m cur p i : ℕ) (k : K) (cs : List ℕ) (s s' : BPlusTree K) : Type 0 where
    pub grown : s'.nb_node ≡ s.nb_node + 1
    pub above : s'.pool p ≡ record (s.pool p) {
      key = insert_at (s.pool p).key i k;
      child = insert_at (s.pool p).child (i + 1) s.nb_node;
    }
    pub left : s'.pool cur ≡ record (s.pool cur) {
      key = take (m / 2) (s.pool cur).key;
      child = take (m / 2 + 1) (s.pool cur).child;
    }
    pub right : s'.pool s.nb_node ≡ record (s.pool s.nb_node) {
      is_leaf = false;
      parent = some p;
      key = drop (m / 2 + 1) (s.pool cur).key;
      child = cs;
    }
    pub others :
        (x : ℕ)
        → x ≢ p
        → x ≢ cur
        → x ≢ s.nb_node
        → (0 < count_in x cs → s'.pool x ≡ record (s.pool x) { parent = some s.nb_node })
          × (count_in x cs ≡ 0 → s'.pool x ≡ s.pool x)

  -- The pool when the children are about to be told of their new parent.
  abbrev half_split : ℕ → ℕ → ℕ → List ℕ → BPlusTree K → ℕ → Node K
  half_split m cur p cs s =
      let right : Node K = record (s.pool s.nb_node) { is_leaf = false; parent = some p } in
      let left : Node K = record (s.pool cur) {
        key = take (m / 2) (s.pool cur).key;
        child = take (m / 2 + 1) (s.pool cur).child;
      } in
      update
        (update (update s.pool s.nb_node right) s.nb_node
          (record right { key = drop (m / 2 + 1) (s.pool cur).key; child = cs }))
        cur left

  split_inner_run :
      (m cur p i : ℕ) (k : K) (cs : List ℕ) (s : BPlusTree K)
      → s.nb_node < max_node_size
      → s.pool s.nb_node ≡ new_node
      → cur ≢ s.nb_node
      → p ≢ s.nb_node
      → p ≢ cur
      → (s.pool cur).is_leaf ≡ false
      → (s.pool cur).parent ≡ some p
      → get_elem? (s.pool cur).key (m / 2) ≡ some k
      → drop (m / 2 + 1) (s.pool cur).child ≡ cs
      → lower_bound (s.pool p).key k ≡ i
      → count_in p cs ≡ 0
      → count_in cur cs ≡ 0
      → count_in s.nb_node cs ≡ 0
      → split m cur s
        ≡ ok tt (record s {
          nb_node = s.nb_node + 1;
          pool = update (set_parents cs s.nb_node (half_split m cur p cs s)) p (record (s.pool p) {
            key = insert_at (s.pool p).key i k;
            child = insert_at (s.pool p).child (i + 1) s.nb_node;
          });
        })
  unfolding split
  split_inner_run m cur p i k cs s room blank cf pf pc leafy parent got moved place po co fo =
      let t1 : ltb s.nb_node max_node_size ≡ true = ground arith in
      let out = set_parents-out cs s.nb_node (half_split m cur p cs s) in
      ground (
        arith,
        append-nil (drop (m / 2 + 1) (s.pool cur).key),
        append-nil cs,
        out p po,
        out cur co,
        out s.nb_node fo,
      )

  pub split-inner :
      (m cur p i : ℕ) (k : K) (cs : List ℕ) (s : BPlusTree K)
      → s.nb_node < max_node_size
      → s.pool s.nb_node ≡ new_node
      → cur ≢ s.nb_node
      → p ≢ s.nb_node
      → p ≢ cur
      → (s.pool cur).is_leaf ≡ false
      → (s.pool cur).parent ≡ some p
      → get_elem? (s.pool cur).key (m / 2) ≡ some k
      → drop (m / 2 + 1) (s.pool cur).child ≡ cs
      → lower_bound (s.pool p).key k ≡ i
      → count_in p cs ≡ 0
      → count_in cur cs ≡ 0
      → count_in s.nb_node cs ≡ 0
      → Returns (λ _ s'. SplitInner m cur p i k cs s s') (split m cur s)
  unfolding update
  split-inner m cur p i k cs s room blank cf pf pc leafy parent got moved place po co fo =
      let out = set_parents-out cs s.nb_node (half_split m cur p cs s) in
      let inside = set_parents-in cs s.nb_node (half_split m cur p cs s) in
      rw
        (split_inner_run m cur p i k cs s room blank cf pf pc leafy parent got moved place po co fo)
        (record {
          grown = refl;
          above = ground arith;
          left = ground (arith, out cur co);
          right = ground (arith, out s.nb_node fo);
          others = λ x a b c. (λ z. ground (arith, inside x z), λ z. ground (arith, out x z));
        })

-- ===== src/BPlusTree/Split/Place.antt =====
-- The parent of a split node: the place of the new separator, and the node with it.
use fat_btree.Prelude.{
  ℕ, suc, ◌+◌, ◌<◌, ◌≡◌, ◌≢◌, refl, sym, ap, ◌∙◌, Option, some, List, [], ◌∷◌, ◌++◌, arith, length,
  insert_at, insert_at_at, insert_after,
}
use fat_btree.Order.{Order}
use fat_btree.BPlusTree.Store.{Node, BPlusTree}
use fat_btree.BPlusTree.Overflow.{lower_bound}
use mathlib.Core.Path.{subst}
use fat_btree.BPlusTree.Tree.{
  Tree, Rest, more, Token, entries, node_keys, Trail, frame, addr, seps, addrs, flat, flat_rest,
  count, Sorted,
}
use fat_btree.BPlusTree.Tree.Framing.{one_self, count-addr, ne_of_count}
use fat_btree.BPlusTree.Tree.Position.{token_key, lower_bound-inside}
use fat_btree.BPlusTree.Tree.Zipper.{
  Lefts, left_keys, left_addrs, left_flat, before, after, FrameCell,
}
use fat_btree.BPlusTree.Stands.{Stands, whole, token_inside, used_lt, used_once}

module _ {K : Type 0} where
  length-left_addrs : (ls : Lefts K) → length (left_addrs ls) ≡ length (left_keys ls)
  length-left_addrs [] = refl
  length-left_addrs ((u, k) ∷ ls) = ap suc (length-left_addrs ls)

  -- The node above gains the separator `k` and the child `t` behind the child at `f`.
  pub FrameCell-gain :
      (h h' : ℕ → Node K) (p : Option ℕ) (a : ℕ) (ls : Lefts K) (f : ℕ) (k : K) (t : Tree K)
      (r : Rest K)
      → FrameCell h p a ls f r
      → h' a ≡ record (h a) {
        key = insert_at (h a).key (length (left_keys ls)) k;
        child = insert_at (h a).child (length (left_keys ls) + 1) (addr t);
      }
      → FrameCell h' p a ls f (more k t r)
  FrameCell-gain h h' p a ls f k t r c e =
      let i = length (left_keys ls) in
      record {
        value = ap (λ (n : Node K). n.is_value) e ∙ c.value;
        leafy = ap (λ (n : Node K). n.is_leaf) e ∙ c.leafy;
        parent = ap (λ (n : Node K). n.parent) e ∙ c.parent;
        key =
            ap (λ (n : Node K). n.key) e
            ∙ ap (λ (l : List K). insert_at l i k) c.key
            ∙ insert_at_at (left_keys ls) (seps r) k i refl;
        child =
            ap (λ (n : Node K). n.child) e
            ∙ ap (λ (l : List ℕ). insert_at l (i + 1) (addr t)) c.child
            ∙ insert_after (left_addrs ls) (addrs r) f (addr t) i (length-left_addrs ls);
      }

module _ {K : Type 0} ⦃o : Order K⦄ where
  -- The three nodes that a split writes are different ones.
  pub record Distinct (s : BPlusTree K) (a cur : ℕ) : Type 0 where
    pub cur_old : cur < s.nb_node
    pub above_old : a < s.nb_node
    pub differ : a ≢ cur

  module _ (m n : ℕ) (s : BPlusTree K) (a : ℕ) (ls : Lefts K) (r : Rest K) (up : Trail K)
      (t : Tree K) (st : Stands m n s (frame a ls r up) t) where
    pub frame-Distinct : Distinct s a (addr t)
    frame-Distinct = record {
      cur_old = used_lt s.nb_node (addr t) _ (st.spare (addr t)) (omega (arith, count-addr t));
      above_old = used_lt s.nb_node a _ (st.spare a) (omega (arith, one_self a));
      differ = λ e.
          ne_of_count (λ y. count y t) (addr t) a
            (omega (arith, one_self a, used_once s.nb_node a _ (st.spare a))) (count-addr t)
            (sym e);
    }

    pub place-inside :
        (xs : List (Token K)) (y : Token K) (ys : List (Token K))
        → flat t ≡ xs ++ (y ∷ ys)
        → lower_bound (s.pool a).key (token_key y) ≡ length (left_keys ls)
    place-inside xs y ys e =
        let c = st.trail.0 in
        let sorted =
          subst
            (λ (l : List (Token K)).
              Sorted (before (frame a ls r up) ++ (l ++ (flat_rest r ++ after up))))
            e st.sorted in
        let i = token_inside (before up) (left_flat ls) xs y ys (flat_rest r) (after up) sorted in
        ap (λ (l : List K). lower_bound l (token_key y)) c.key ∙ lower_bound-inside ls r y i.0 i.1

  -- What a split leaves: the parent with one more child stands in place of the node.
  pub record Stepped (m n : ℕ) (s : BPlusTree K) (a : ℕ) (ls : Lefts K) (r : Rest K) (up : Trail K)
      (t : Tree K) (s' : BPlusTree K) : Type 0 where
    pub tree : Tree K
    pub stands : Stands m n s' up tree
    pub at : addr tree ≡ a
    pub size : length (node_keys tree) ≡ length (left_keys ls) + length (seps r) + 1
    pub parent : (s'.pool (addr t)).parent ≡ some a
    pub same : entries (whole up tree) ≡ entries (whole (frame a ls r up) t)
    pub grown : s'.nb_node ≡ s.nb_node + 1

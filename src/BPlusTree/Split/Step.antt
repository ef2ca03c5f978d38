-- ===== src/BPlusTree/Split/Step.antt =====
-- A split of any full node, and the invariant of the tree.
use fat_btree.Run.{Returns}
use fat_btree.Prelude.{
  ℕ, ◌-◌, ◌/◌, ◌≤◌, ◌<◌, ◌≡◌, sym, ap, ◌∙◌, List, [], ◌∷◌, ◌++◌, append_assoc, arith, length,
  length-append, cut,
}
use mathlib.Core.Path.{subst}
use fat_btree.Order.{Order}
use fat_btree.BPlusTree.Store.{BPlusTree, max_node_size}
use fat_btree.BPlusTree.Overflow.{split}
use fat_btree.BPlusTree.Tree.{Entry, Tree, leaf, inner, Rest, Trail, frame, addr, seps, node_keys}
use fat_btree.BPlusTree.Tree.Parts.{rest_cut}
use fat_btree.BPlusTree.Tree.Zipper.{Lefts}
use fat_btree.BPlusTree.Stands.{Stands}
use fat_btree.BPlusTree.Split.Inner.{run_inner}
use fat_btree.BPlusTree.Split.Leaf.{run_leaf}
use fat_btree.BPlusTree.Tree.Leaves.{length-keys_of}
use fat_btree.BPlusTree.Split.Place.{Stepped}

module _ {K : Type 0} ⦃o : Order K⦄ (m n : ℕ) (s : BPlusTree K) (a : ℕ) (ls : Lefts K) (r : Rest K)
    (up : Trail K) (room : s.nb_node < max_node_size) (two : 2 ≤ m) where
  abbrev Splits : Tree K → Type 0
  Splits t =
      Stands m n s (frame a ls r up) t
      → Returns (λ _ s'. Stepped m n s a ls r up t s') (split m (addr t) s)

  split_cut_leaf :
      (cur : ℕ) (xs : List (Entry K)) (y : Entry K) (ys : List (Entry K))
      → length xs ≡ m / 2 - 1
      → length (xs ++ (y ∷ ys)) ≡ m
      → Splits (leaf cur (xs ++ (y ∷ ys)))
  split_cut_leaf cur xs y [] half full = absurd (omega (arith, length-append xs (y ∷ [])))
  split_cut_leaf cur xs y (z ∷ zs) half full =
      let e = append_assoc xs (y ∷ []) (z ∷ zs) in
      subst (λ (l : List (Entry K)). Splits (leaf cur l)) e
        λ st.
          run_leaf m n s a ls r up cur xs y z zs st (length-append xs (y ∷ []) ∙ omega arith) room
            (omega (arith, ap length e)) two

  split_step : (t : Tree K) → length (node_keys t) ≡ m → Splits t
  split_step (leaf cur es) full =
      let len = length-keys_of es in
      let c = cut es (m / 2 - 1) (omega arith) in
      subst (λ (l : List (Entry K)). Splits (leaf cur l)) (sym c.whole)
        (split_cut_leaf cur c.front c.middle c.back c.place (omega (arith, ap length c.whole)))
  split_step (inner cur u rest) full =
      let c = rest_cut rest (m / 2) (omega arith) in
      subst (λ (l : Rest K). Splits (inner cur u l)) (sym c.whole)
        λ st.
          run_inner m n s a ls r up cur u c.front c.new_key c.middle c.back st c.place room
            (omega (arith, ap (λ (l : Rest K). length (seps l)) c.whole)) two

  -- The split of a node of exactly m keys, m at least 2, returns: the node and its new right
  -- neighbour stand side by side under the parent, which has gained one key, the records are the
  -- same, and one node of the pool has been taken.
  pub split_lem :
      (t : Tree K)
      → length (node_keys t) ≡ m
      → Stands m n s (frame a ls r up) t
      → Returns (λ _ s'. Stepped m n s a ls r up t s') (split m (addr t) s)
  split_lem = split_step

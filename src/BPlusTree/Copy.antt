-- ===== src/BPlusTree/Copy.antt =====
-- What copy_down writes: the copied node, its copy, and the parents of the children.
pub mod Lowered
pub mod Step
use fat_btree.Run.{ok, Returns}
use fat_btree.Prelude.{
  ℕ, ◌+◌, ◌<◌, ◌≡◌, ◌≢◌, refl, Bool, true, false, Option, none, some, List, [], ◌∷◌, arith, ltb,
  ◌==◌, if◌then◌else◌,
}
use fat_btree.BPlusTree.Store.{
  Node, BPlusTree, root, inc32, new_node, max_node_size, update, set_parents,
}
use fat_btree.BPlusTree.Overflow.{copy_down}
use fat_btree.BPlusTree.Tree.{count_in}
use fat_btree.BPlusTree.Tree.Parts.{set_parents-out, set_parents-in, set_parents-kept}

module _ {K : Type 0} where
  pub record Copied (cur : ℕ) (s : BPlusTree K) (copy : ℕ) (s' : BPlusTree K) : Type 0 where
    pub address : copy ≡ s.nb_node
    pub grown : s'.nb_node ≡ s.nb_node + 1
    pub below : s'.pool s.nb_node ≡ record (s.pool s.nb_node) {
      is_leaf = (s.pool cur).is_leaf;
      parent = some cur;
      key = (s.pool cur).key;
      child = (s.pool cur).child;
      is_loaded = false;
    }
    pub above :
        s'.pool cur ≡ record (s.pool cur) { is_leaf = false; key = []; child = s.nb_node ∷ [] }
    pub others :
        (x : ℕ)
        → x ≢ cur
        → x ≢ s.nb_node
        → (0 < count_in x (s.pool cur).child
            → s'.pool x ≡ record (s.pool x) { parent = some s.nb_node })
          × (count_in x (s.pool cur).child ≡ 0 → s'.pool x ≡ s.pool x)

  abbrev half_copied : ℕ → BPlusTree K → ℕ → Node K
  half_copied cur s = update s.pool s.nb_node (record (s.pool s.nb_node) {
    is_leaf = (s.pool cur).is_leaf;
    parent = some cur;
    key = (s.pool cur).key;
    child = (s.pool cur).child;
    is_loaded = false;
  })

  copy_down_run :
      (cur : ℕ) (s : BPlusTree K)
      → s.nb_node < max_node_size
      → cur ≢ s.nb_node
      → count_in cur (s.pool cur).child ≡ 0
      → copy_down cur s
        ≡ ok s.nb_node (record s {
          nb_node = s.nb_node + 1;
          depth = if cur == root then inc32 s.depth else s.depth;
          pool =
              update
                (set_parents (s.pool cur).child s.nb_node (half_copied cur s))
                cur
                (record (s.pool cur) { is_leaf = false; key = []; child = s.nb_node ∷ [] });
        })
  unfolding copy_down
  copy_down_run cur s room ne co =
      let t1 : ltb s.nb_node max_node_size ≡ true = ground arith in
      ground (arith, set_parents-out (s.pool cur).child s.nb_node (half_copied cur s) cur co)

  pub copy_down_lem :
      (cur : ℕ) (s : BPlusTree K)
      → s.nb_node < max_node_size
      → cur ≢ s.nb_node
      → count_in cur (s.pool cur).child ≡ 0
      → count_in s.nb_node (s.pool cur).child ≡ 0
      → Returns (Copied cur s) (copy_down cur s)
  unfolding update
  copy_down_lem cur s room ne co fo =
      let out = set_parents-out (s.pool cur).child s.nb_node (half_copied cur s) in
      let inside = set_parents-in (s.pool cur).child s.nb_node (half_copied cur s) in
      rw (copy_down_run cur s room ne co) (record {
        address = refl;
        grown = refl;
        below = ground (arith, out s.nb_node fo);
        above = ground arith;
        others = λ x a b. (λ z. ground (arith, inside x z), λ z. ground (arith, out x z));
      })

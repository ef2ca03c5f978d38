-- ===== src/BPlusTree/Load/Layers.antt =====
-- The layers of load2switch_greedy, each with the most used children of the one before, as they are printed.
use fat_btree.Prelude.{ℕ, ◌<◌, List, All, Str}
use fat_btree.Order.{str_order}
use fat_btree.BPlusTree.Load.{Library}
use fat_btree.BPlusTree.Load.Published.{Numbered, Published}
use fat_btree.BPlusTree.Store.{BPlusTree}
use fat_btree.BPlusTree.Tree.{Tree}

-- std::sort has the elements that it is given.
abbrev pub Sorts : Library → Type 1
Sorts lib =
    (counts : ℕ → ℕ) (xs : List ℕ) (Q : ℕ → Type 0) → All Q xs → All Q (lib.sort_access counts xs)

-- The children of nodes that have been taken have been taken, and their keys have numbers.
pub record Keyed (s : BPlusTree Str) : Type 0 where
  pub closed : (a : ℕ) → a < s.nb_node → All (λ c. c < s.nb_node) (s.pool a).child
  pub keys : (a : ℕ) → a < s.nb_node → All Numbered (s.pool a).key

module _ (lib : Library) (sorts : Sorts lib) (s : BPlusTree Str) (keyed : Keyed s) where
  abbrev Used : ℕ → Type 0
  Used a = a < s.nb_node

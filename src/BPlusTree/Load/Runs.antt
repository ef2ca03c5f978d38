-- ===== src/BPlusTree/Load/Runs.antt =====
-- A root with one record is printed.
use fat_btree.Prelude.{true, false, [], ◌∷◌, ◌==◌, if◌then◌else◌, Str}
use fat_btree.Order.{str_order}
use fat_btree.FieldTable.{FieldTable}
use fat_btree.BPlusTree.Load.{Library}
use fat_btree.BPlusTree.Load.Published.{Published}
use fat_btree.BPlusTree.Store.{BPlusTree, new_node, empty_tree}
use fat_btree.BPlusTree.Tree.{Entry}

-- "usertableuser7"
abbrev key : Str
key =
    b'u' ∷ b's' ∷ b'e' ∷ b'r' ∷ b't' ∷ b'a' ∷ b'b' ∷ b'l' ∷ b'e' ∷ b'u' ∷ b's' ∷ b'e' ∷ b'r' ∷ b'7'
    ∷ []

abbrev fields : FieldTable
fields = ((b'f' ∷ []), (b'x' ∷ [])) ∷ []

abbrev entry : Entry Str
entry = record { key = key; at = 1; val = fields }

abbrev one_record : BPlusTree Str
one_record = record empty_tree {
  nb_node = 2;
  pool = λ a.
      if a == 0
      then record new_node { key = key ∷ []; child = 1 ∷ [] }
      else if a == 1
      then record new_node { is_leaf = false; is_value = true; val = fields }
      else new_node;
}

-- A library for the runs: the first of the queue, and no sorting.
abbrev plain : Library
plain = record {
  pop = λ step counts x xs. (([], x), xs);
  sort_access = λ counts xs. xs;
  sort_pairs = λ xs. xs;
}

-- ===== src/Session/Runs.antt =====
-- Insert and Read of a record of one field, on an empty tree, and Update of that record.
use fat_btree.Prelude.{◌≡◌, refl, some, true, false, [], ◌∷◌, arith, ◌==◌, if◌then◌else◌, Str}
use fat_btree.Run.{and_then, Returns}
use fat_btree.Order.{str_order, str_lt}
use fat_btree.FieldTable.{FieldTable, kv_exist}
use fat_btree.Backend.{degree, Tree}
use fat_btree.BPlusTree.Access.Fill.{empty-Holds}
use fat_btree.BPlusTree.Access.Update.{Updated}
use fat_btree.BPlusTree.Overflow.Climb.{Holds}
use fat_btree.BPlusTree.Records.{get}
use fat_btree.BPlusTree.Load.{Library}
use fat_btree.BPlusTree.Store.{new_node, empty_tree}
use fat_btree.BPlusTree.Tree.{Entry, leaf}
use fat_btree.Client.{key_index}
use fat_btree.KeyIndex.{digits_value, scan_key_index, get_part_id}
use fat_btree.Session.{
  serve_insert, serve_update, serve_read, serve_update_lem, insert_then_read_lem,
}

abbrev table : Str
table = b'u' ∷ b's' ∷ b'e' ∷ b'r' ∷ b't' ∷ b'a' ∷ b'b' ∷ b'l' ∷ b'e' ∷ []

abbrev key : Str
key = b'u' ∷ b's' ∷ b'e' ∷ b'r' ∷ b'4' ∷ b'2' ∷ []

abbrev fields : FieldTable
fields = ((b'f' ∷ b'0' ∷ []), (b'a' ∷ [])) ∷ []

-- A library for the runs: the first of the queue, and no sorting.
abbrev plain : Library
plain = record {
  pop = λ step counts x xs. (([], x), xs);
  sort_access = λ counts xs. xs;
  sort_pairs = λ xs. xs;
}

numbered : scan_key_index (key_index table key) ≡ some 42
unfolding scan_key_index digits_value
numbered = refl

routed : get_part_id (key_index table key) ≡ some 0
unfolding get_part_id digits_value
routed = refl

insert_then_read_example :
    Returns
      (λ found _. found ≡ fields)
      (and_then
        (serve_insert plain 8 6 1 0 (9 ∷ []) table key fields empty_tree)
        λ _ s'. serve_read plain 8 6 1 0 (9 ∷ []) table key s')
unfolding kv_exist
insert_then_read_example =
    insert_then_read_lem plain 0 table key 0 42 numbered routed 1 8 6 1 (9 ∷ []) empty_tree
      (leaf 0 []) fields (empty-Holds degree (omega arith)) tt (refl, tt) (omega arith)
      (omega arith) (omega arith) (omega arith) (omega arith) (omega arith)

abbrev entry : Entry Str
entry = record { key = key_index table key; at = 1; val = fields }

abbrev one_record : Tree
one_record = record empty_tree {
  nb_node = 2;
  pool = λ a.
      if a == 0
      then record new_node { key = key_index table key ∷ []; child = 1 ∷ [] }
      else if a == 1
      then record new_node { is_leaf = false; is_value = true; val = fields }
      else new_node;
}

one-Holds : Holds degree 1 one_record (leaf 0 (entry ∷ []))
one-Holds = record {
  stands = record {
    trail = refl;
    tree = (
      record { value = refl; leafy = refl; parent = refl; key = refl; child = refl },
      ((refl, refl), tt),
    );
    spare = λ x. ground arith;
    fresh = λ x h. ground arith;
    sorted = (tt, tt);
    tall = omega arith;
    above_fit = tt;
    below_fit = tt;
  };
  fits = omega arith;
}

serve_update_example :
    Returns
      (λ _ s'. Updated degree 1 one_record (leaf 0 (entry ∷ [])) entry fields s')
      (serve_update plain 8 6 1 0 (9 ∷ []) table key fields one_record)
unfolding get str_lt
serve_update_example =
    serve_update_lem plain 0 table key 0 42 numbered routed 1 8 6 1 (9 ∷ []) one_record
      (leaf 0 (entry ∷ [])) entry fields one-Holds refl (omega arith) (omega arith) (omega arith)

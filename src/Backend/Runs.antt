-- ===== src/Backend/Runs.antt =====
-- The handlers at a tree of two records, and the loop of main at an empty one.
use fat_btree.Prelude.{
  ℕ, ◌≡◌, refl, ap, true, false, List, [], ◌∷◌, ◌++◌, arith, ◌==◌, if◌then◌else◌, Str,
}
use fat_btree.Run.{Returns}
use fat_btree.Order.{str_order, str_lt}
use fat_btree.FieldTable.{FieldTable}
use fat_btree.Backend.{Tree, degree, handle_update, handle_query, serve_all}
use fat_btree.Backend.Serve.{done, answer, handle_update_lem, handle_query_lem}
use fat_btree.Backend.Dispatch.{packets, answers, serve_all_lem}
use fat_btree.BPlusTree.Access.Fill.{Filled}
use fat_btree.BPlusTree.Load.{Library}
use fat_btree.BPlusTree.Access.{node_at_bias}
use fat_btree.BPlusTree.Access.Seen.{Seen}
use fat_btree.BPlusTree.Access.Update.{Updated}
use fat_btree.BPlusTree.Records.{get}
use fat_btree.BPlusTree.Stands.{Stands}
use fat_btree.BPlusTree.Store.{Node, new_node, empty_tree}
use fat_btree.BPlusTree.Tree.{Entry, leaf, top}
use fat_btree.Codec.Header.{fbt_bytes}
use fat_btree.Codec.RoundTrip.{key_bytes, values_bytes}

abbrev field : ℕ → FieldTable
field v = ((b'f' ∷ []), (v ∷ [])) ∷ []

abbrev key_a : Str
key_a = b'a' ∷ []

abbrev key_b : Str
key_b = b'b' ∷ []

abbrev entry_a : Entry Str
entry_a = record { key = key_a; at = 1; val = field 50 }

abbrev entry_b : Entry Str
entry_b = record { key = key_b; at = 2; val = field 90 }

abbrev value_node : ℕ → Node Str
value_node v = record new_node { is_leaf = false; is_value = true; val = field v }

-- A root that is a leaf with two records.
abbrev two_records : Tree
two_records = record empty_tree {
  nb_node = 3;
  pool = λ a.
      if a == 0
      then record new_node { key = key_a ∷ key_b ∷ []; child = 1 ∷ 2 ∷ [] }
      else if a == 1
      then value_node 50
      else if a == 2
      then value_node 90
      else new_node;
}

two-Stands : Stands degree 1 two_records top (leaf 0 (entry_a ∷ entry_b ∷ []))
unfolding str_lt
two-Stands = record {
  trail = refl;
  tree = (
    record { value = refl; leafy = refl; parent = refl; key = refl; child = refl },
    ((refl, refl), ((refl, refl), tt)),
  );
  spare = λ x. ground arith;
  fresh = λ x h. ground arith;
  sorted = (((refl, tt), tt), (tt, tt));
  tall = omega arith;
  above_fit = tt;
  below_fit = tt;
}

handle_query_example :
    Returns
      (λ sent s'. (sent ≡ answer (field 90) 5) × Seen two_records s')
      (handle_query 8 2 1 (fbt_bytes 0 0 ++ (key_bytes key_b ++ (3 ∷ []))) 5 two_records)
unfolding node_at_bias get str_lt
handle_query_example =
    handle_query_lem 1 8 2 1 5 0 0 two_records key_b entry_b top (leaf 0 (entry_a ∷ entry_b ∷ []))
      (3 ∷ []) (record { stands = two-Stands; fits = omega arith; under = tt; over = tt })
      (omega arith) refl refl (omega arith) (omega arith) (omega arith)

handle_update_example :
    Returns
      (λ sent s'.
        (sent ≡ done 0x0530 5)
        × Updated degree 1 two_records (leaf 0 (entry_a ∷ entry_b ∷ [])) entry_b (field 7) s')
      (handle_update 8 2
        (fbt_bytes 0 0 ++ (key_bytes key_b ++ (values_bytes (field 7) ++ [])))
        5
        two_records)
unfolding node_at_bias get str_lt
handle_update_example =
    handle_update_lem 1 8 2 5 0 0 two_records (leaf 0 (entry_a ∷ entry_b ∷ [])) key_b (field 7)
      entry_b top (leaf 0 (entry_a ∷ entry_b ∷ [])) []
      (record { stands = two-Stands; fits = omega arith })
      (record { stands = two-Stands; fits = omega arith; under = tt; over = tt }) (omega arith) refl
      refl (omega arith) (omega arith) (omega arith)

-- A library for the runs: the first of the queue, and no sorting.
abbrev plain : Library
plain = record {
  pop = λ step counts x xs. (([], x), xs);
  sort_access = λ counts xs. xs;
  sort_pairs = λ xs. xs;
}

abbrev records : List (Str × FieldTable)
records = (key_b, field 1) ∷ (key_a, field 2) ∷ []

abbrev first_byte : Str → ℕ
first_byte [] = 0
first_byte (c ∷ s) = c

b_not_a : key_a ≡ key_b → ⊥
b_not_a e = let h : b'a' ≡ b'b' = ap first_byte e in absurd (omega (arith, h))

serve_all_example :
    Returns
      (λ as' s'.
        (as' ≡ answers plain 8 6 1 0 (λ k. 3) (λ k. 0) [] records) × Filled degree 3 records [] s')
      (serve_all plain 8 6 1 0 (packets plain 8 6 1 0 (λ k. 3) (λ k. 0) [] records) empty_tree)
serve_all_example =
    serve_all_lem plain 8 6 1 0 (λ k. 3) (λ k. 0) [] records
      ((omega arith, omega arith), ((omega arith, omega arith), tt))
      (((λ e. absurd (b_not_a e)), tt), (tt, tt)) (omega arith) (omega arith)

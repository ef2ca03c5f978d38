-- ===== src/FixedArray/Runs.antt =====
-- Runs of fixed_size_array over numbers, and the theorems at concrete arrays.
use fat_btree.Prelude.{
  ℕ, ◌+◌, ◌-◌, ◌≡◌, refl, some, [], ◌∷◌, ◌++◌, arith, insert_at, take, drop, Bool, true, false, not,
  ◌==◌, ◌↔◌,
}
use fat_btree.Order.{nat_order}
use fat_btree.FixedArray.{
  FixedArray, elems, to_vector, insert_one, insert_range, erase, less, equal, unequal,
}
use fat_btree.FixedArray.Equal.{equal-to_vector}
use fat_btree.FixedArray.Less.{lex, less-lex}
use fat_btree.FixedArray.Elements.{insert_one-insert_at, insert_range-append, erase-drop}

abbrev three : FixedArray ℕ
three = record { size = 3; val = λ i. i }

insert_one-insert_at_example :
    (b : FixedArray ℕ) × (insert_one 4 1 7 three ≡ some b)
    × (to_vector b ≡ insert_at (to_vector three) 1 7)
insert_one-insert_at_example = insert_one-insert_at 4 1 7 three (omega arith) (omega arith)

erase-drop_example :
    (b : FixedArray ℕ) × (erase 4 1 2 three ≡ some b)
    × (to_vector b ≡ take 1 (to_vector three) ++ drop 2 (to_vector three))
erase-drop_example = erase-drop 4 1 2 three (omega arith) (omega arith) (omega arith)

three_elements : to_vector three ≡ 0 ∷ 1 ∷ 2 ∷ []
unfolding elems
three_elements = refl

less-lex_example :
    less three (record three { size = 2 })
    ≡ lex (to_vector three) (to_vector (record three { size = 2 }))
less-lex_example = less-lex three (record three { size = 2 })

insert_range-append_example :
    (b : FixedArray ℕ) × (insert_range 6 1 (λ i. i + 10) 2 4 three ≡ some b)
    × (to_vector b
        ≡ take 1 (to_vector three) ++ (elems (λ i. i + 10) 2 (4 - 2) ++ drop 1 (to_vector three)))
insert_range-append_example =
    insert_range-append 6 1 2 4 (λ i. i + 10) three (omega arith) (omega arith) (omega arith)

abbrev differ : ℕ → ℕ → Bool
differ x y = not (x == y)

differ_law : (x y : ℕ) → (differ x y ≡ false) ↔ (x ≡ y)
differ_law x y = ground arith

equal-to_vector_example :
    ((equal differ three (record three { size = 2 }) ≡ true)
      ↔ (to_vector three ≡ to_vector (record three { size = 2 })))
    × (unequal differ three (record three { size = 2 })
        ≡ not (equal differ three (record three { size = 2 })))
equal-to_vector_example = equal-to_vector differ differ_law three (record three { size = 2 })

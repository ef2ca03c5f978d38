-- ===== src/BPlusTree/Tree/Leaves.antt =====
-- The lists that a leaf's records make, joined.
use fat_btree.Prelude.{ℕ, suc, ◌+◌, ◌≡◌, refl, ap, List, [], ◌∷◌, ◌++◌, arith, length}
use fat_btree.BPlusTree.Tree.{Entry, Token, item, keys_of, ats_of, items, count_in}

module _ {K : Type 0} where
  pub keys_of-append : (xs ys : List (Entry K)) → keys_of (xs ++ ys) ≡ keys_of xs ++ keys_of ys
  keys_of-append [] ys = refl
  keys_of-append (x ∷ xs) ys = ap (λ (l : List K). x.key ∷ l) (keys_of-append xs ys)

  pub ats_of-append : (xs ys : List (Entry K)) → ats_of (xs ++ ys) ≡ ats_of xs ++ ats_of ys
  ats_of-append [] ys = refl
  ats_of-append (x ∷ xs) ys = ap (λ (l : List ℕ). x.at ∷ l) (ats_of-append xs ys)

  pub items-append : (xs ys : List (Entry K)) → items (xs ++ ys) ≡ items xs ++ items ys
  items-append [] ys = refl
  items-append (x ∷ xs) ys = ap (λ (l : List (Token K)). item x ∷ l) (items-append xs ys)

  pub length-keys_of : (xs : List (Entry K)) → length (keys_of xs) ≡ length xs
  length-keys_of [] = refl
  length-keys_of (x ∷ xs) = ap suc (length-keys_of xs)

  pub length-ats_of : (xs : List (Entry K)) → length (ats_of xs) ≡ length xs
  length-ats_of [] = refl
  length-ats_of (x ∷ xs) = ap suc (length-ats_of xs)

pub count_in-append :
    (x : ℕ) (as' bs : List ℕ) → count_in x (as' ++ bs) ≡ count_in x as' + count_in x bs
count_in-append x [] bs = omega arith
count_in-append x (a ∷ as') bs = omega (arith, count_in-append x as' bs)

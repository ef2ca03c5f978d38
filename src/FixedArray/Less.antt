-- ===== src/FixedArray/Less.antt =====
-- operator< of fixed_size_array and the order of the lists of elements.
use fat_btree.Prelude.{
  ℕ, zero, suc, ◌+◌, ◌-◌, ◌≡◌, refl, sym, ◌∙◌, Bool, true, false, Bool-cases, inl, inr, List, [],
  ◌∷◌, arith, ltb, if◌then◌else◌,
}
use fat_btree.Order.{Order, ◌<?◌}
use fat_btree.FixedArray.{FixedArray, elems, to_vector, less, less_loop}

module _ {A : Type 0} ⦃o : Order A⦄ where
  -- The lexicographic order of lists.
  unfoldable pub lex : List A → List A → Bool
  lex xs [] = false
  lex [] (y ∷ ys) = true
  lex (x ∷ xs) (y ∷ ys) =
      let later = lex xs ys in if x <? y then true else if y <? x then false else later

  less_loop-lex :
      (f g : ℕ → A) (i n x y : ℕ) (rest : Bool)
      → lex (elems f (i + n) x) (elems g (i + n) y) ≡ rest
      → lex (elems f i (n + x)) (elems g i (n + y)) ≡ less_loop f g i n rest
  unfolding less_loop elems lex
  less_loop-lex f g i zero x y rest h =
      let a : 0 + x ≡ x = omega arith in
      let b : 0 + y ≡ y = omega arith in
      let c : i + 0 ≡ i = omega arith in
      (λ q. lex (elems f (sym c q) (a q)) (elems g (sym c q) (b q))) ∙ h
  less_loop-lex f g i (suc n) x y rest h =
      let a : suc n + x ≡ suc (n + x) = omega arith in
      let b : suc n + y ≡ suc (n + y) = omega arith in
      let c : suc i + n ≡ i + suc n = omega arith in
      let later =
        less_loop-lex f g (suc i) n x y rest ((λ q. lex (elems f (c q) x) (elems g (c q) y)) ∙ h) in
      rw (a, b, later)

  lex-nil : (xs : List A) → lex xs [] ≡ false
  unfolding lex
  lex-nil [] = refl
  lex-nil (x ∷ xs) = refl

  nil-lex : (g : ℕ → A) (i y : ℕ) → lex [] (elems g i y) ≡ ltb 0 y
  unfolding lex elems
  nil-lex g i zero = refl
  nil-lex g i (suc y) = ground arith

  -- operator< is the lexicographic order of the elements: the first that differ decide, and a proper
  -- prefix is less.
  pub less-lex : (a b : FixedArray A) → less a b ≡ lex (to_vector a) (to_vector b)
  unfolding less elems
  less-lex a b = elim (Bool-cases (ltb b.size a.size)) [
    | inl p ↦
        let x = a.size - b.size in
        let sa : b.size + x ≡ a.size = ground arith in
        let sb : b.size + 0 ≡ b.size = omega arith in
        let last : false ≡ ltb a.size b.size = ground arith in
        rw p (
          sym (
            (λ q. lex (elems a.val 0 (sym sa q)) (elems b.val 0 (sym sb q)))
            ∙ less_loop-lex a.val b.val 0 b.size x 0 (ltb a.size b.size)
                (lex-nil (elems a.val (0 + b.size) x) ∙ last)))
    | inr p ↦
        let y = b.size - a.size in
        let sa : a.size + 0 ≡ a.size = omega arith in
        let sb : a.size + y ≡ b.size = ground arith in
        let last : ltb 0 y ≡ ltb a.size b.size = ground arith in
        rw p (
          sym (
            (λ q. lex (elems a.val 0 (sym sa q)) (elems b.val 0 (sym sb q)))
            ∙ less_loop-lex a.val b.val 0 a.size 0 y (ltb a.size b.size)
                (nil-lex b.val (0 + a.size) y ∙ last)))
  ]

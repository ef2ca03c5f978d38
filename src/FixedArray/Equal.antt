-- ===== src/FixedArray/Equal.antt =====
-- operator== and operator!= of fixed_size_array and equality of the lists of elements.
use fat_btree.Prelude.{
  ℕ, zero, suc, ◌≡◌, refl, sym, ap, ◌∙◌, ◌↔◌, Bool, true, false, not, Bool-cases, inl, inr, List,
  [], ◌∷◌, arith, ◌==◌, length,
}
use fat_btree.FixedArray.{FixedArray, elems, to_vector, equal, equal_loop, unequal, unequal_loop}
use fat_btree.FixedArray.Elements.{length-elems}

abbrev head_or : {A : Type 0} → A → List A → A
head_or a [] = a
head_or a (x ∷ xs) = x

abbrev tail : {A : Type 0} → List A → List A
tail [] = []
tail (x ∷ xs) = xs

module _ {A : Type 0} (ne : A → A → Bool) (law : (x y : A) → (ne x y ≡ false) ↔ (x ≡ y)) where
  equal_loop→elems :
      (f g : ℕ → A) (i n : ℕ) → equal_loop ne f g i n ≡ true → elems f i n ≡ elems g i n
  unfolding equal_loop elems
  equal_loop→elems f g i zero e = refl
  equal_loop→elems f g i (suc n) e = elim (Bool-cases (ne (f i) (g i))) [
    | inl p ↦ absurd (ground arith)
    | inr p ↦
        let later : equal_loop ne f g (suc i) n ≡ true = ground arith in
        let here = (law (f i) (g i)).0 p in
        let rest = equal_loop→elems f g (suc i) n later in λ q. here q ∷ rest q
  ]

  elems→equal_loop :
      (f g : ℕ → A) (i n : ℕ) → elems f i n ≡ elems g i n → equal_loop ne f g i n ≡ true
  unfolding equal_loop elems
  elems→equal_loop f g i zero e = refl
  elems→equal_loop f g i (suc n) e =
      let here : ne (f i) (g i) ≡ false = (law (f i) (g i)).1 (ap (head_or (f i)) e) in
      rw here (elems→equal_loop f g (suc i) n (ap tail e))

  unequal_loop-equal_loop :
      (f g : ℕ → A) (i n : ℕ) → unequal_loop ne f g i n ≡ not (equal_loop ne f g i n)
  unfolding equal_loop unequal_loop
  unequal_loop-equal_loop f g i zero = refl
  unequal_loop-equal_loop f g i (suc n) = elim (Bool-cases (ne (f i) (g i))) [
    | inl p ↦ rw p refl
    | inr p ↦ rw p (unequal_loop-equal_loop f g (suc i) n)
  ]

  same_size : (a b : FixedArray A) → to_vector a ≡ to_vector b → a.size ≡ b.size
  same_size a b e = sym (length-elems a.val 0 a.size) ∙ ap length e ∙ length-elems b.val 0 b.size

  -- operator== holds exactly if the lists of elements are equal, cells past the size aside, and
  -- operator!= is its negation, if operator!= of the elements is inequality.
  pub equal-to_vector :
      (a b : FixedArray A)
      → ((equal ne a b ≡ true) ↔ (to_vector a ≡ to_vector b))
        × (unequal ne a b ≡ not (equal ne a b))
  unfolding equal unequal
  equal-to_vector a b = elim (Bool-cases (a.size == b.size)) [
    | inl p ↦
        let s : a.size ≡ b.size = ground arith in
        let to : elems b.val 0 a.size ≡ to_vector b = ap (elems b.val 0) s in
        rw p (
          (
            (λ e. equal_loop→elems a.val b.val 0 a.size e ∙ to),
            (λ e. elems→equal_loop a.val b.val 0 a.size (e ∙ sym to)),
          ),
          unequal_loop-equal_loop a.val b.val 0 a.size,
        )
    | inr p ↦
        rw p (((λ e. absurd (ground arith)), (λ e. absurd (ground (arith, same_size a b e)))), refl)
  ]

-- ===== src/FixedArray/Elements.antt =====
-- What the operations of fixed_size_array do to the list of its elements.
use fat_btree.Prelude.{
  ℕ, zero, suc, ◌+◌, ◌-◌, ◌≤◌, ◌<◌, ◌≡◌, refl, sym, ap, ◌∙◌, some, List, ◌∷◌, ◌++◌, arith, length,
  insert_at, insert_at_at, take, drop, take_at, drop_at,
}
use fat_btree.FixedArray.{
  FixedArray, elems, to_vector, insert_range, insert_one, erase, store, memmove,
}

module _ {A : Type 0} where
  -- The same cells, `d` further up in the second function.
  elems-shift :
      (f g : ℕ → A) (i j n : ℕ)
      → ((x : ℕ) → x < n → f (i + x) ≡ g (j + x))
      → elems f i n ≡ elems g j n
  unfolding elems
  elems-shift f g i j zero same = refl
  elems-shift f g i j (suc n) same =
      let here : f i ≡ g j = ap f (omega arith) ∙ same 0 (omega arith) ∙ ap g (omega arith) in
      let rest =
        elems-shift f g (suc i) (suc j) n
          λ x h. ap f (omega arith) ∙ same (suc x) (omega arith) ∙ ap g (omega arith) in
      λ q. here q ∷ rest q

  elems-append : (f : ℕ → A) (i m n : ℕ) → elems f i (m + n) ≡ elems f i m ++ elems f (i + m) n
  unfolding elems
  elems-append f i zero n =
      let a : 0 + n ≡ n = omega arith in let b : i + 0 ≡ i = omega arith in rw (a, b)
  elems-append f i (suc m) n =
      let a : suc m + n ≡ suc (m + n) = omega arith in
      let b : i + suc m ≡ suc i + m = omega arith in
      rw (a, b) (ap (λ (l : List A). f i ∷ l) (elems-append f (suc i) m n))

  pub length-elems : (f : ℕ → A) (i n : ℕ) → length (elems f i n) ≡ n
  unfolding elems
  length-elems f i zero = refl
  length-elems f i (suc n) = ap suc (length-elems f (suc i) n)

  -- insert at a position in the array, with a cell left, is insert of std::vector on the elements.
  pub insert_one-insert_at :
      (max pos : ℕ) (v : A) (a : FixedArray A)
      → pos ≤ a.size
      → a.size < max
      → (b : FixedArray A) × (insert_one max pos v a ≡ some b)
        × (to_vector b ≡ insert_at (to_vector a) pos v)
  unfolding insert_one elems
  insert_one-insert_at max pos v a h room =
      let f = store (memmove a.val (pos + 1) a.val pos (a.size - pos)) pos v in
      let e : a.size + 1 ≡ pos + suc (a.size - pos) = omega arith in
      let z : a.size ≡ pos + (a.size - pos) = omega arith in
      let left = elems-shift f a.val 0 0 pos λ x l. ground arith in
      let here : f (0 + pos) ≡ v = ground arith in
      let right = elems-shift f a.val (suc (0 + pos)) (0 + pos) (a.size - pos) λ x l.
        let at : pos + (suc (0 + pos) + x - (pos + 1)) ≡ 0 + pos + x = omega arith in
        ground (arith, ap a.val at) in
      let old : to_vector a ≡ elems a.val 0 pos ++ elems a.val (0 + pos) (a.size - pos) =
        ap (elems a.val 0) z ∙ elems-append a.val 0 pos (a.size - pos) in
      let new : elems f 0 (a.size + 1)
          ≡ elems a.val 0 pos ++ (v ∷ elems a.val (0 + pos) (a.size - pos)) =
        ap (elems f 0) e
        ∙ elems-append f 0 pos (suc (a.size - pos))
        ∙ (λ q. left q ++ (here q ∷ right q)) in
      (
        record { size = a.size + 1; val = f },
        ground arith,
        new
            ∙ sym (
                ap (λ (l : List A). insert_at l pos v) old
                ∙ insert_at_at (elems a.val 0 pos) (elems a.val (0 + pos) (a.size - pos)) v pos
                    (length-elems a.val 0 pos)),
      )

  -- erase of a part of the array keeps the elements before and after the part.
  pub erase-drop :
      (max first last : ℕ) (a : FixedArray A)
      → first ≤ last
      → last ≤ a.size
      → a.size ≤ max
      → (b : FixedArray A) × (erase max first last a ≡ some b)
        × (to_vector b ≡ take first (to_vector a) ++ drop last (to_vector a))
  unfolding erase
  erase-drop max first last a h l room =
      let f = memmove a.val first a.val last (a.size - last) in
      let z : a.size - (last - first) ≡ first + (a.size - last) = omega arith in
      let z1 : a.size ≡ first + (a.size - first) = omega arith in
      let z2 : a.size ≡ last + (a.size - last) = omega arith in
      let left = elems-shift f a.val 0 0 first λ x q. ground arith in
      let right = elems-shift f a.val (0 + first) (0 + last) (a.size - last) λ x q.
        let at : last + (0 + first + x - first) ≡ 0 + last + x = omega arith in
        ground (arith, ap a.val at) in
      let front : take first (to_vector a) ≡ elems a.val 0 first =
        ap (λ (n : ℕ). take first (elems a.val 0 n)) z1
        ∙ ap (take first) (elems-append a.val 0 first (a.size - first))
        ∙ take_at (elems a.val 0 first) _ first (length-elems a.val 0 first) in
      let back : drop last (to_vector a) ≡ elems a.val (0 + last) (a.size - last) =
        ap (λ (n : ℕ). drop last (elems a.val 0 n)) z2
        ∙ ap (drop last) (elems-append a.val 0 last (a.size - last))
        ∙ drop_at (elems a.val 0 last) _ last (length-elems a.val 0 last) in
      (
        record { size = a.size - (last - first); val = f },
        ground arith,
        ap (elems f 0) z
            ∙ elems-append f 0 first (a.size - last)
            ∙ (λ q. left q ++ right q)
            ∙ sym (λ q. front q ++ back q),
      )

  -- insert of the cells first to last of another array, with room for them, puts those between the
  -- elements before the position and those from it on.
  pub insert_range-append :
      (max pos first last : ℕ) (other : ℕ → A) (a : FixedArray A)
      → pos ≤ a.size
      → first ≤ last
      → a.size + (last - first) ≤ max
      → (b : FixedArray A) × (insert_range max pos other first last a ≡ some b)
        × (to_vector b
            ≡ take pos (to_vector a)
              ++ (elems other first (last - first) ++ drop pos (to_vector a)))
  unfolding insert_range
  insert_range-append max pos first last other a h l room =
      let n = last - first in
      let f = memmove (memmove a.val (pos + n) a.val pos (a.size - pos)) pos other first n in
      let z : a.size + n ≡ pos + (n + (a.size - pos)) = omega arith in
      let z1 : a.size ≡ pos + (a.size - pos) = omega arith in
      let left = elems-shift f a.val 0 0 pos λ x q. ground arith in
      let middle = elems-shift f other (0 + pos) first n λ x q.
        let at : first + (0 + pos + x - pos) ≡ first + x = omega arith in
        ground (arith, ap other at) in
      let right = elems-shift f a.val (0 + pos + n) (0 + pos) (a.size - pos) λ x q.
        let at : pos + (0 + pos + n + x - (pos + n)) ≡ 0 + pos + x = omega arith in
        ground (arith, ap a.val at) in
      let old = ap (elems a.val 0) z1 ∙ elems-append a.val 0 pos (a.size - pos) in
      let front =
        ap (take pos) old ∙ take_at (elems a.val 0 pos) _ pos (length-elems a.val 0 pos) in
      let back = ap (drop pos) old ∙ drop_at (elems a.val 0 pos) _ pos (length-elems a.val 0 pos) in
      (
        record { size = a.size + n; val = f },
        ground arith,
        ap (elems f 0) z
            ∙ elems-append f 0 pos (n + (a.size - pos))
            ∙ ap (λ (r : List A). elems f 0 pos ++ r) (elems-append f (0 + pos) n (a.size - pos))
            ∙ (λ q. left q ++ (middle q ++ right q))
            ∙ sym (λ q. front q ++ (elems other first n ++ back q)),
      )

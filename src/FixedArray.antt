-- ===== src/FixedArray.antt =====
-- fixed_size_array of RDMA/CPU/lib/fixed_size_container.h: a size and an array of `max` cells. The
-- cells are a function, a move or a write past the last cell is undefined behaviour, and then the
-- operation gives none.
pub mod Elements
pub mod Equal
pub mod Less
mod Runs
use fat_btree.Order.{Order, ◌<?◌}
use fat_btree.Prelude.{
  ℕ, zero, suc, ◌+◌, ◌-◌, Bool, true, false, Option, none, some, List, [], ◌∷◌, ◌&&◌, ltb, leb,
  ◌==◌, if◌then◌else◌,
}

pub record FixedArray (A : Type 0) : Type 0 where
  pub size : ℕ
  pub val : ℕ → A

module _ {A : Type 0} where
  -- vector<TYPE>(_val + i, _val + i + n)
  unfoldable pub elems : (ℕ → A) → ℕ → ℕ → List A
  elems f i zero = []
  elems f i (suc n) = f i ∷ elems f (suc i) n

  abbrev pub to_vector : FixedArray A → List A
  to_vector a = elems a.val 0 a.size

  abbrev pub clear : FixedArray A → FixedArray A
  clear a = record a { size = 0 }

  abbrev store : (ℕ → A) → ℕ → A → ℕ → A
  store f i v j = if j == i then v else f j

  -- memmove(to, from + start, n)
  abbrev memmove : (ℕ → A) → ℕ → (ℕ → A) → ℕ → ℕ → ℕ → A
  memmove f to from start n j = if leb to j && ltb j (to + n) then from (start + (j - to)) else f j

  -- The loop of operator<: the first cells that differ decide, and `rest` if none do.
  less_loop : ⦃o : Order A⦄ → (ℕ → A) → (ℕ → A) → ℕ → ℕ → Bool → Bool
  less_loop f g i zero rest = rest
  less_loop f g i (suc n) rest =
      let later = less_loop f g (suc i) n rest in
      if f i <? g i then true else if g i <? f i then false else later

  -- operator<
  unfoldable pub less : ⦃o : Order A⦄ → FixedArray A → FixedArray A → Bool
  unfolding less_loop
  less a b =
      let n = if ltb b.size a.size then b.size else a.size in
      less_loop a.val b.val 0 n (ltb a.size b.size)

  -- operator== and operator!=, with operator!= of the elements, and their loops.
  unfoldable pub equal_loop : (A → A → Bool) → (ℕ → A) → (ℕ → A) → ℕ → ℕ → Bool
  equal_loop ne f g i zero = true
  equal_loop ne f g i (suc n) =
      let later = equal_loop ne f g (suc i) n in if ne (f i) (g i) then false else later

  unfoldable pub equal : (A → A → Bool) → FixedArray A → FixedArray A → Bool
  unfolding equal_loop
  equal ne a b = if a.size == b.size then equal_loop ne a.val b.val 0 a.size else false

  unfoldable pub unequal_loop : (A → A → Bool) → (ℕ → A) → (ℕ → A) → ℕ → ℕ → Bool
  unequal_loop ne f g i zero = false
  unequal_loop ne f g i (suc n) =
      let later = unequal_loop ne f g (suc i) n in if ne (f i) (g i) then true else later

  unfoldable pub unequal : (A → A → Bool) → FixedArray A → FixedArray A → Bool
  unfolding unequal_loop
  unequal ne a b = if a.size == b.size then unequal_loop ne a.val b.val 0 a.size else true

  module _ (max : ℕ) where
    unfoldable pub push_back : A → FixedArray A → Option (FixedArray A)
    push_back v a =
        if ltb a.size max
        then some (record { size = a.size + 1; val = store a.val a.size v })
        else none

    unfoldable pub insert_one : ℕ → A → FixedArray A → Option (FixedArray A)
    insert_one pos v a =
        if leb pos a.size && ltb a.size max
        then some (record {
          size = a.size + 1;
          val = store (memmove a.val (pos + 1) a.val pos (a.size - pos)) pos v;
        })
        else none

    -- The cells `first` to `last` of `other`, which is another array.
    unfoldable pub insert_range : ℕ → (ℕ → A) → ℕ → ℕ → FixedArray A → Option (FixedArray A)
    insert_range pos other first last a =
        if leb pos a.size && (leb first last && leb (a.size + (last - first)) max)
        then some (record {
          size = a.size + (last - first);
          val =
              memmove (memmove a.val (pos + (last - first)) a.val pos (a.size - pos)) pos other
                first (last - first);
        })
        else none

    unfoldable pub erase : ℕ → ℕ → FixedArray A → Option (FixedArray A)
    erase first last a =
        if leb first last && (leb last a.size && leb a.size max)
        then some (record {
          size = a.size - (last - first);
          val = memmove a.val first a.val last (a.size - last);
        })
        else none

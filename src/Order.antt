-- ===== src/Order.antt =====
-- The order of keys that the trees are generic in: operator< of KEY_TYPE with the laws of a strict
-- total order. The instances are numbers, std::string, which compares bytes lexicographically, and
-- fixed_size_string, which compares elements of type char; these are signed, so that the bytes from 128
-- on come before the others. A file uses one of the two orders on strings.
use fat_btree.Prelude.{
  ℕ, ◌+◌, ◌-◌, ◌≡◌, refl, Bool, true, false, [], ◌∷◌, arith, ltb, ◌==◌, if◌then◌else◌, Str,
}

pub record Order (K : Type 0) : Type 0 where
  pub lt : K → K → Bool
  pub lt_irrefl : (a : K) → lt a a ≡ false
  pub lt_trans : (a b c : K) → lt a b ≡ true → lt b c ≡ true → lt a c ≡ true
  pub lt_tri : (a b : K) → lt a b ≡ false → lt b a ≡ false → a ≡ b

infix 50 ◌<?◌
abbrev pub ◌<?◌ : {K : Type 0} ⦃o : Order K⦄ → K → K → Bool
◌<?◌ ⦃o⦄ = o.lt

pub ltb_irrefl : (a : ℕ) → ltb a a ≡ false
ltb_irrefl a = ground arith

pub ltb_trans : (a b c : ℕ) → ltb a b ≡ true → ltb b c ≡ true → ltb a c ≡ true
ltb_trans a b c p q = ground arith

pub ltb_tri : (a b : ℕ) → ltb a b ≡ false → ltb b a ≡ false → a ≡ b
ltb_tri a b p q = ground arith

instance abbrev pub nat_order : Order ℕ
nat_order = record { lt = ltb; lt_irrefl = ltb_irrefl; lt_trans = ltb_trans; lt_tri = ltb_tri }

unfoldable pub str_lt : Str → Str → Bool
str_lt xs [] = false
str_lt [] (y ∷ ys) = true
str_lt (x ∷ xs) (y ∷ ys) = if x == y then str_lt xs ys else ltb x y

pub str_lt_irrefl : (a : Str) → str_lt a a ≡ false
unfolding str_lt
str_lt_irrefl [] = refl
str_lt_irrefl (x ∷ xs) = ground (arith, str_lt_irrefl xs)

pub str_lt_trans : (a b c : Str) → str_lt a b ≡ true → str_lt b c ≡ true → str_lt a c ≡ true
unfolding str_lt
str_lt_trans a b [] p q = cc
str_lt_trans [] [] (z ∷ zs) p q = refl
str_lt_trans [] (y ∷ ys) (z ∷ zs) p q = refl
str_lt_trans (x ∷ xs) [] (z ∷ zs) p q = cc
str_lt_trans (x ∷ xs) (y ∷ ys) (z ∷ zs) p q = ground (arith, str_lt_trans xs ys zs)

pub str_lt_tri : (a b : Str) → str_lt a b ≡ false → str_lt b a ≡ false → a ≡ b
unfolding str_lt
str_lt_tri [] [] p q = refl
str_lt_tri [] (y ∷ ys) p q = cc
str_lt_tri (x ∷ xs) [] p q = cc
str_lt_tri (x ∷ xs) (y ∷ ys) p q = ground (arith, str_lt_tri xs ys)

instance abbrev pub str_order : Order Str
str_order = record {
  lt = str_lt;
  lt_irrefl = str_lt_irrefl;
  lt_trans = str_lt_trans;
  lt_tri = str_lt_tri;
}

-- A byte as a signed char, 128 added.
unfoldable pub signed : ℕ → ℕ
signed b = if ltb b 128 then b + 128 else if ltb b 256 then b - 128 else b

signed-inj : (a b : ℕ) → signed a ≡ signed b → a ≡ b
unfolding signed
signed-inj a b e = ground arith

-- operator< of fixed_size_array<char>, on the elements.
unfoldable pub signed_lt : Str → Str → Bool
unfolding signed
signed_lt xs [] = false
signed_lt [] (y ∷ ys) = true
signed_lt (x ∷ xs) (y ∷ ys) = if x == y then signed_lt xs ys else ltb (signed x) (signed y)

pub signed_lt_irrefl : (a : Str) → signed_lt a a ≡ false
unfolding signed_lt
signed_lt_irrefl [] = refl
signed_lt_irrefl (x ∷ xs) = ground (arith, signed_lt_irrefl xs)

pub signed_lt_trans :
    (a b c : Str) → signed_lt a b ≡ true → signed_lt b c ≡ true → signed_lt a c ≡ true
unfolding signed_lt
signed_lt_trans a b [] p q = cc
signed_lt_trans [] [] (z ∷ zs) p q = refl
signed_lt_trans [] (y ∷ ys) (z ∷ zs) p q = refl
signed_lt_trans (x ∷ xs) [] (z ∷ zs) p q = cc
signed_lt_trans (x ∷ xs) (y ∷ ys) (z ∷ zs) p q = ground (arith, signed_lt_trans xs ys zs)

pub signed_lt_tri : (a b : Str) → signed_lt a b ≡ false → signed_lt b a ≡ false → a ≡ b
unfolding signed_lt
signed_lt_tri [] [] p q = refl
signed_lt_tri [] (y ∷ ys) p q = cc
signed_lt_tri (x ∷ xs) [] p q = cc
signed_lt_tri (x ∷ xs) (y ∷ ys) p q =
    ground (arith, signed_lt_tri xs ys, signed-inj x y, signed-inj y x)

instance abbrev pub signed_order : Order Str
signed_order = record {
  lt = signed_lt;
  lt_irrefl = signed_lt_irrefl;
  lt_trans = signed_lt_trans;
  lt_tri = signed_lt_tri;
}

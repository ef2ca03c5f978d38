-- ===== src/KeyIndex/Digits.antt =====
-- Decimal numerals, as std::to_string writes them, and their values.
use fat_btree.Prelude.{
  ℕ, zero, suc, ◌+◌, ◌-◌, ◌*◌, ◌/◌, ◌%◌, ◌<◌, ◌≡◌, refl, ◌∙◌, true, Bool-cases, inl, inr, [], ◌∷◌,
  ◌++◌, arith, ltb, if◌then◌else◌, All, All-append, Str,
}
use fat_btree.KeyIndex.{is_digit, digits_value}

-- std::to_string, on fuel above the number.
unfoldable pub to_digits : ℕ → ℕ → Str
to_digits zero n = []
to_digits (suc fuel) n =
    let front = to_digits fuel (n / 10) in
    if ltb n 10 then (b'0' + n) ∷ [] else front ++ ((b'0' + n % 10) ∷ [])

abbrev pub to_string : ℕ → Str
to_string n = to_digits (n + 1) n

abbrev pub IsDigits : Str → Type 0
IsDigits s = All (λ (c : ℕ). is_digit c ≡ true) s

pub digits_value-append :
    (s t : Str) (acc : ℕ)
    → IsDigits s
    → digits_value acc (s ++ t) ≡ digits_value (digits_value acc s) t
unfolding digits_value
digits_value-append [] t acc d = refl
digits_value-append (c ∷ s) t acc (d, ds) =
    rw d (digits_value-append s t (acc * 10 + (c - b'0')) ds)

pub to_digits-IsDigits : (fuel n : ℕ) → IsDigits (to_digits fuel n)
unfolding to_digits
to_digits-IsDigits zero n = tt
to_digits-IsDigits (suc fuel) n = elim (Bool-cases (ltb n 10)) [
  | inl p ↦ rw p (ground arith)
  | inr p ↦ rw p (
      All-append (λ (c : ℕ). is_digit c ≡ true) (to_digits fuel (n / 10)) _
        (to_digits-IsDigits fuel (n / 10)) (ground arith))
]

pub digits_value-to_digits : (fuel n : ℕ) → n < fuel → digits_value 0 (to_digits fuel n) ≡ n
unfolding to_digits digits_value
digits_value-to_digits zero n h = absurd (omega arith)
digits_value-to_digits (suc fuel) n h = elim (Bool-cases (ltb n 10)) [
  | inl p ↦ rw p (ground arith)
  | inr p ↦
      let front = digits_value-to_digits fuel (n / 10) (ground arith) in
      rw p (
        digits_value-append (to_digits fuel (n / 10)) ((b'0' + n % 10) ∷ []) 0
          (to_digits-IsDigits fuel (n / 10))
        ∙ rw front (ground arith))
]

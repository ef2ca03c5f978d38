-- ===== src/KeyIndex/RoundTrip.antt =====
-- The number that a key was built from, read back.
use fat_btree.Prelude.{
  ℕ, zero, suc, ◌+◌, ◌*◌, ◌/◌, ◌%◌, ◌^◌, ◌≤◌, ◌<◌, ◌≡◌, refl, sym, ap, ◌∙◌, true, false, Bool-cases,
  inl, inr, some, [], ◌∷◌, ◌++◌, arith, ltb, length, length-append, drop_at, replicate, Str,
}
use fat_btree.KeyIndex.{
  is_digit, skip_space, digits_value, clamp64, read_u64, remove_key_index_prefix, scan_key_index,
  get_part_id, part_of,
}
use fat_btree.KeyIndex.Digits.{
  to_digits, to_string, IsDigits, digits_value-append, digits_value-to_digits,
}

skip_space-digits : (c : ℕ) (s : Str) → is_digit c ≡ true → skip_space (c ∷ s) ≡ c ∷ s
unfolding skip_space
skip_space-digits c s d = ground arith

read_u64-digits :
    (c : ℕ) (s : Str)
    → is_digit c ≡ true
    → read_u64 (c ∷ s) ≡ some (clamp64 (digits_value 0 (c ∷ s)))
unfolding read_u64
read_u64-digits c s d = ground arith

-- A numeral at the end of a key, behind the 13 characters.
module _ (prefix : Str) (c : ℕ) (s : Str) (long : length prefix ≡ 13) (d : is_digit c ≡ true) where
  long_enough : ltb (length (prefix ++ (c ∷ s))) 13 ≡ false
  long_enough = ground (arith, length-append prefix (c ∷ s))

  pub scan_key_index-numeral :
      scan_key_index (prefix ++ (c ∷ s)) ≡ some (clamp64 (digits_value 0 (c ∷ s)))
  unfolding scan_key_index
  scan_key_index-numeral =
      rw (long_enough, drop_at prefix (c ∷ s) 13 long, skip_space-digits c s d)
        (read_u64-digits c s d)

  pub remove_key_index_prefix-numeral :
      remove_key_index_prefix (prefix ++ (c ∷ s)) ≡ some (clamp64 (digits_value 0 (c ∷ s)))
  unfolding remove_key_index_prefix
  remove_key_index_prefix-numeral =
      rw (
        long_enough,
        drop_at prefix (c ∷ s) 13 long,
        skip_space-digits c s d,
        read_u64-digits c s d,
      )

replicate-IsDigits : (n : ℕ) → IsDigits (replicate n b'0')
replicate-IsDigits zero = tt
replicate-IsDigits (suc n) = (refl, replicate-IsDigits n)

digits_value-zeros : (n : ℕ) → digits_value 0 (replicate n b'0') ≡ 0
unfolding digits_value
digits_value-zeros zero = refl
digits_value-zeros (suc n) = digits_value-zeros n

-- A numeral with zeros in front.
abbrev pub padded : ℕ → ℕ → Str
padded zeros n = replicate zeros b'0' ++ to_string n

digits_value-padded : (zeros n : ℕ) → digits_value 0 (padded zeros n) ≡ n
digits_value-padded zeros n =
    digits_value-append (replicate zeros b'0') (to_string n) 0 (replicate-IsDigits zeros)
    ∙ ap (λ (v : ℕ). digits_value v (to_string n)) (digits_value-zeros zeros)
    ∙ digits_value-to_digits (n + 1) n (omega arith)

record Numeral (t : Str) : Type 0 where
  head : ℕ
  tail : Str
  whole : t ≡ head ∷ tail
  digit : is_digit head ≡ true

to_digits-Numeral : (fuel n : ℕ) → n < fuel → Numeral (to_digits fuel n)
unfolding to_digits
to_digits-Numeral zero n h = absurd (omega arith)
to_digits-Numeral (suc fuel) n h = elim (Bool-cases (ltb n 10)) [
  | inl p ↦ record { head = b'0' + n; tail = []; whole = rw p; digit = ground arith }
  | inr p ↦
      let f = to_digits-Numeral fuel (n / 10) (ground arith) in
      record {
        head = f.head;
        tail = f.tail ++ ((b'0' + n % 10) ∷ []);
        whole = rw p (ap (λ (t : Str). t ++ ((b'0' + n % 10) ∷ [])) f.whole);
        digit = f.digit;
      }
]

padded-Numeral : (zeros n : ℕ) → Numeral (padded zeros n)
padded-Numeral zero n = to_digits-Numeral (n + 1) n (omega arith)
padded-Numeral (suc zeros) n = record {
  head = b'0';
  tail = padded zeros n;
  whole = refl;
  digit = refl;
}

module _ (prefix : Str) (zeros n : ℕ) (long : length prefix ≡ 13) (small : n < 2 ^ 64) where
  value : (p : Numeral (padded zeros n)) → clamp64 (digits_value 0 (p.head ∷ p.tail)) ≡ n
  value p =
      let e : digits_value 0 (p.head ∷ p.tail) ≡ n =
        ap (digits_value 0) (sym p.whole) ∙ digits_value-padded zeros n in
      ground arith

  -- Both of the programs' readers give back the number that a key was built from, whatever the padding.
  pub remove_key_index_prefix-padded :
      (remove_key_index_prefix (prefix ++ padded zeros n) ≡ some n)
      × (scan_key_index (prefix ++ padded zeros n) ≡ some n)
  remove_key_index_prefix-padded =
      let p = padded-Numeral zeros n in
      let e = ap (λ (t : Str). prefix ++ t) p.whole in
      (
        ap remove_key_index_prefix e
            ∙ remove_key_index_prefix-numeral prefix p.head p.tail long p.digit
            ∙ ap some (value p),
        ap scan_key_index e
            ∙ scan_key_index-numeral prefix p.head p.tail long p.digit
            ∙ ap some (value p),
      )

  -- The partition of a key is the quarter of the 64-bit numbers that its number lies in.
  pub get_part_id-padded :
      (q : ℕ)
      → q * 2 ^ 62 ≤ n
      → n < (q + 1) * 2 ^ 62
      → get_part_id (prefix ++ padded zeros n) ≡ some q
  unfolding get_part_id
  get_part_id-padded q low high =
      ap part_of remove_key_index_prefix-padded.1 ∙ ap some (omega arith)

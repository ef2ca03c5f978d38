-- ===== src/Run.antt =====
-- Runs of stateful code: a command takes a state and ends with a result and a state, with undefined
-- behaviour of the C++, or with its fuel used up.

use fat_btree.Prelude.{◌≡◌, refl, Option, none, some}

-- A fault is an index out of range, a null pointer, a buffer that is too short.
pub data Run {ℓ κ} (S : Type ℓ) (A : Type κ) : Type (ℓ ⊔ κ) where
  ok : A → S → Run S A
  fault : Run S A
  out_of_fuel : Run S A

abbrev pub Cmd : Type 0 → Type 0 → Type 0
Cmd S A = S → Run S A

module _ {S T A B : Type 0} where
  -- The second part may have a state of its own.
  abbrev pub and_then : Run S A → (A → S → Run T B) → Run T B
  and_then (ok a s) k = k a s
  and_then fault k = fault
  and_then out_of_fuel k = out_of_fuel

module _ {S A B : Type 0} where
  infixl 5 ◌>>=◌ ◌>>◌
  abbrev pub ◌>>=◌ : Cmd S A → (A → Cmd S B) → Cmd S B
  m >>= k = λ s. and_then (m s) k

  abbrev pub ◌>>◌ : Cmd S A → Cmd S B → Cmd S B
  m >> n = m >>= λ _. n

abbrev pub pure : {S A : Type 0} → A → Cmd S A
pure = ok

-- Total correctness: the run ends with a result for which `P` holds.
abbrev pub Returns : {S A : Type 0} → (A → S → Type 0) → Run S A → Type 0
Returns P (ok a s) = P a s
Returns P fault = ⊥
Returns P out_of_fuel = ⊥

module _ {S A : Type 0} where
  pub mono :
      (P Q : A → S → Type 0) (r : Run S A)
      → Returns P r
      → ((a : A) (s : S) → P a s → Q a s)
      → Returns Q r
  mono P Q (ok a s) p weaken = weaken a s p
  mono P Q fault p weaken = p
  mono P Q out_of_fuel p weaken = p

  pub both :
      (P Q : A → S → Type 0) (r : Run S A)
      → Returns P r
      → Returns Q r
      → Returns (λ a s. P a s × Q a s) r
  both P Q (ok a s) p q = (p, q)
  both P Q fault p q = p
  both P Q out_of_fuel p q = p

  pub bind :
      {T B : Type 0} (P : A → S → Type 0) (Q : B → T → Type 0) (r : Run S A) (k : A → S → Run T B)
      → Returns P r
      → ((a : A) (s : S) → P a s → Returns Q (k a s))
      → Returns Q (and_then r k)
  bind P Q (ok a s) k p next = next a s p
  bind P Q fault k p next = p
  bind P Q out_of_fuel k p next = p

module _ {S T A B : Type 0} where
  pub and_then_same :
      (r : Run S A) (k l : A → S → Run T B)
      → ((a : A) (s : S) → k a s ≡ l a s)
      → and_then r k ≡ and_then r l
  and_then_same (ok a s) k l same = same a s
  and_then_same fault k l same = refl
  and_then_same out_of_fuel k l same = refl

  pub and_then_assoc :
      {U C : Type 0} (r : Run S A) (k : A → S → Run T B) (l : B → T → Run U C)
      → and_then (and_then r k) l ≡ and_then r (λ a s. and_then (k a s) l)
  and_then_assoc (ok a s) k l = refl
  and_then_assoc fault k l = refl
  and_then_assoc out_of_fuel k l = refl

-- A value that may not be there.
abbrev pub need : {S A : Type 0} → Option A → Cmd S A
need none s = fault
need (some a) s = ok a s

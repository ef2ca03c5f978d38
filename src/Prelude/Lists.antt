-- ===== src/Prelude/Lists.antt =====
-- Lists measured and indexed by native numbers, under the library's names, and the edits of
-- std::vector that the program makes.
use Prim.Native.Nat.{ℕ, zero, suc, ◌+◌, ◌-◌, ◌≤◌, ◌<◌}
use mathlib.Core.Path.{◌≡◌, refl, sym, ap, ◌∙◌}
use mathlib.Core.List.{List, [], ◌∷◌, ◌++◌, append_assoc}
use mathlib.Core.Option.{Option, none, some}
use native.Mathlib.Omega.{arith}

module _ {ℓ} {A : Type ℓ} where
  abbrev pub length : List A → ℕ
  length [] = 0
  length (x ∷ xs) = suc (length xs)

  abbrev pub get_elem? : List A → ℕ → Option A
  get_elem? [] i = none
  get_elem? (x ∷ xs) zero = some x
  get_elem? (x ∷ xs) (suc i) = get_elem? xs i

  -- A write out of bounds changes nothing.
  abbrev pub set : List A → ℕ → A → List A
  set [] i v = []
  set (x ∷ xs) zero v = v ∷ xs
  set (x ∷ xs) (suc i) v = x ∷ set xs i v

  abbrev pub take : ℕ → List A → List A
  take zero xs = []
  take (suc n) [] = []
  take (suc n) (x ∷ xs) = x ∷ take n xs

  abbrev pub drop : ℕ → List A → List A
  drop zero xs = xs
  drop (suc n) [] = []
  drop (suc n) (x ∷ xs) = drop n xs

  abbrev pub replicate : ℕ → A → List A
  replicate zero a = []
  replicate (suc n) a = a ∷ replicate n a

  -- v.insert(v.begin() + i, a)
  abbrev pub insert_at : List A → ℕ → A → List A
  insert_at xs zero a = a ∷ xs
  insert_at [] (suc i) a = a ∷ []
  insert_at (x ∷ xs) (suc i) a = x ∷ insert_at xs i a

  abbrev pub last? : List A → Option A
  last? [] = none
  last? (x ∷ []) = some x
  last? (x ∷ y ∷ xs) = last? (y ∷ xs)

  abbrev pub All {κ} : (A → Type κ) → List A → Type κ
  All P [] = Unit {κ}
  All P (x ∷ xs) = P x × All P xs

module _ {ℓ} {A : Type ℓ} where
  pub length-append : (xs ys : List A) → length (xs ++ ys) ≡ length xs + length ys
  length-append [] ys = omega arith
  length-append (x ∷ xs) ys = omega (arith, length-append xs ys)

  pub take-append-drop : (n : ℕ) (xs : List A) → take n xs ++ drop n xs ≡ xs
  take-append-drop zero xs = refl
  take-append-drop (suc n) [] = refl
  take-append-drop (suc n) (x ∷ xs) = rw (take-append-drop n xs)

  pub length-take : (n : ℕ) (xs : List A) → n ≤ length xs → length (take n xs) ≡ n
  length-take zero xs h = refl
  length-take (suc n) [] h = absurd (omega arith)
  length-take (suc n) (x ∷ xs) h = ap suc (length-take n xs (omega arith))

  pub length-drop : (n : ℕ) (xs : List A) → length (drop n xs) ≡ length xs - n
  length-drop zero xs = omega arith
  length-drop (suc n) [] = omega arith
  length-drop (suc n) (x ∷ xs) = omega (arith, length-drop n xs)

  pub length-insert_at : (xs : List A) (i : ℕ) (a : A) → length (insert_at xs i a) ≡ suc (length xs)
  length-insert_at xs zero a = refl
  length-insert_at [] (suc i) a = refl
  length-insert_at (x ∷ xs) (suc i) a = ap suc (length-insert_at xs i a)

  pub take-append : (xs ys : List A) → take (length xs) (xs ++ ys) ≡ xs
  take-append [] ys = refl
  take-append (x ∷ xs) ys = ap (λ (l : List A). x ∷ l) (take-append xs ys)

  pub drop-append : (xs ys : List A) → drop (length xs) (xs ++ ys) ≡ ys
  drop-append [] ys = refl
  drop-append (x ∷ xs) ys = drop-append xs ys

  pub get_elem?-append_left :
      (xs ys : List A) (i : ℕ) → i < length xs → get_elem? (xs ++ ys) i ≡ get_elem? xs i
  get_elem?-append_left [] ys i h = absurd (omega arith)
  get_elem?-append_left (x ∷ xs) ys zero h = refl
  get_elem?-append_left (x ∷ xs) ys (suc i) h = get_elem?-append_left xs ys i (omega arith)

  pub get_elem?-append_right :
      (xs ys : List A) (i : ℕ) → get_elem? (xs ++ ys) (length xs + i) ≡ get_elem? ys i
  get_elem?-append_right [] ys i = let e : 0 + i ≡ i = omega arith in rw e
  get_elem?-append_right (x ∷ xs) ys i =
      let e : suc (length xs) + i ≡ suc (length xs + i) = omega arith in
      rw e (get_elem?-append_right xs ys i)

  pub take_at : (xs ys : List A) (i : ℕ) → length xs ≡ i → take i (xs ++ ys) ≡ xs
  take_at xs ys i e = rw (← e) (take-append xs ys)

  pub drop_at : (xs ys : List A) (i : ℕ) → length xs ≡ i → drop i (xs ++ ys) ≡ ys
  drop_at xs ys i e = rw (← e) (drop-append xs ys)

  pub get_elem?_at :
      (xs ys : List A) (y : A) (i : ℕ) → length xs ≡ i → get_elem? (xs ++ (y ∷ ys)) i ≡ some y
  get_elem?_at [] ys y zero e = refl
  get_elem?_at [] ys y (suc i) e = absurd (omega arith)
  get_elem?_at (x ∷ xs) ys y zero e = absurd (omega arith)
  get_elem?_at (x ∷ xs) ys y (suc i) e = get_elem?_at xs ys y i (omega arith)

  pub insert_at_at :
      (xs ys : List A) (y : A) (i : ℕ) → length xs ≡ i → insert_at (xs ++ ys) i y ≡ xs ++ (y ∷ ys)
  insert_at_at [] ys y zero e = refl
  insert_at_at [] ys y (suc i) e = absurd (omega arith)
  insert_at_at (x ∷ xs) ys y zero e = absurd (omega arith)
  insert_at_at (x ∷ xs) ys y (suc i) e =
      ap (λ (l : List A). x ∷ l) (insert_at_at xs ys y i (omega arith))

  pub insert_after :
      (xs ys : List A) (y z : A) (i : ℕ)
      → length xs ≡ i
      → insert_at (xs ++ (y ∷ ys)) (i + 1) z ≡ xs ++ (y ∷ z ∷ ys)
  insert_after xs ys y z i e =
      let at : length (xs ++ (y ∷ [])) ≡ i + 1 = length-append xs (y ∷ []) ∙ omega arith in
      ap (λ (l : List A). insert_at l (i + 1) z) (sym (append_assoc xs (y ∷ []) ys))
      ∙ insert_at_at (xs ++ (y ∷ [])) ys z (i + 1) at
      ∙ append_assoc xs (y ∷ []) (z ∷ ys)

  pub All-cut {κ} : (P : A → Type κ) (xs ys : List A) → All P (xs ++ ys) → All P xs × All P ys
  All-cut P [] ys p = (tt, p)
  All-cut P (x ∷ xs) ys (p, ps) = let q = All-cut P xs ys ps in ((p, q.0), q.1)

  pub All-append {κ} : (P : A → Type κ) (xs ys : List A) → All P xs → All P ys → All P (xs ++ ys)
  All-append P [] ys p q = q
  All-append P (x ∷ xs) ys (p, ps) q = (p, All-append P xs ys ps q)

  pub last?-append : (xs : List A) (y : A) → last? (xs ++ (y ∷ [])) ≡ some y
  last?-append [] y = refl
  last?-append (x ∷ []) y = refl
  last?-append (x ∷ z ∷ xs) y = last?-append (z ∷ xs) y

  -- A list cut before its element number `i`.
  pub record Cut (xs : List A) (i : ℕ) : Type ℓ where
    pub front : List A
    pub middle : A
    pub back : List A
    pub whole : xs ≡ front ++ (middle ∷ back)
    pub place : length front ≡ i

  pub cut : (xs : List A) (i : ℕ) → i < length xs → Cut xs i
  cut [] i h = absurd (omega arith)
  cut (x ∷ xs) zero h = record { front = []; middle = x; back = xs; whole = refl; place = refl }
  cut (x ∷ xs) (suc i) h =
      let c = cut xs i (omega arith) in
      record {
        front = x ∷ c.front;
        middle = c.middle;
        back = c.back;
        whole = ap (λ (l : List A). x ∷ l) c.whole;
        place = ap suc c.place;
      }

-- ===== src/MatchTable/Effect.antt =====
-- What the loop over the digits of one table does to the maps and vectors of main: the numbers stay
-- different, lines of other tables stay as they are, and each digit that has a table of its own is
-- among the prefixes of the next level.
pub mod Lines
pub mod Loop
use fat_btree.Prelude.{
  ℕ, ◌+◌, ◌≤◌, ◌<◌, ◌≡◌, ◌≢◌, refl, sym, ap, ◌∙◌, ◌⊎◌, inl, inr, Option, none, some, List, [], ◌∷◌,
  ◌++◌, arith, All, get_elem?,
}
use fat_btree.MatchTable.{
  Range, Line, State, Level, nb_digits, tmp_l, tmp_r, child, column, column_of,
}
use fat_btree.MatchTable.Find.{find}

abbrev pub Listed : ℕ → List ℕ → Type 0
Listed x [] = ⊥
Listed x (y ∷ ys) = (x ≡ y) ⊎ Listed x ys

abbrev pub Rising : List ℕ → Type 0
Rising [] = Unit
Rising (x ∷ xs) = All (λ y. x < y) xs × Rising xs

pub Listed-append : (x : ℕ) (xs ys : List ℕ) → Listed x xs → Listed x (xs ++ ys)
Listed-append x [] ys l = absurd l
Listed-append x (y ∷ xs) ys (inl e) = inl e
Listed-append x (y ∷ xs) ys (inr l) = inr (Listed-append x xs ys l)

pub Listed-last : (x : ℕ) (xs : List ℕ) → Listed x (xs ++ (x ∷ []))
Listed-last x [] = inl refl
Listed-last x (y ∷ xs) = inr (Listed-last x xs)

pub All-last : (P : ℕ → Type 0) (x : ℕ) (xs : List ℕ) → All P xs → P x → All P (xs ++ (x ∷ []))
All-last P x [] ps p = (p, tt)
All-last P x (y ∷ xs) (q, ps) p = (q, All-last P x xs ps p)

pub All-weaken : (P Q : ℕ → Type 0) (xs : List ℕ) → ((x : ℕ) → P x → Q x) → All P xs → All Q xs
All-weaken P Q [] f ps = tt
All-weaken P Q (x ∷ xs) f (p, ps) = (f x p, All-weaken P Q xs f ps)

pub All-both :
    (P Q R : ℕ → Type 0) (xs : List ℕ)
    → ((x : ℕ) → P x → Q x → R x)
    → All P xs
    → All Q xs
    → All R xs
All-both P Q R [] f ps qs = tt
All-both P Q R (x ∷ xs) f (p, ps) (q, qs) = (f x p q, All-both P Q R xs f ps qs)

pub Rising-last : (x : ℕ) (xs : List ℕ) → Rising xs → All (λ y. y < x) xs → Rising (xs ++ (x ∷ []))
Rising-last x [] r a = (tt, tt)
Rising-last x (y ∷ xs) (p, r) (h, a) = (All-last (λ z. y < z) x xs p h, Rising-last x xs r a)

-- What outlives a loop.
pub record Core : Type 0 where
  pub pfidx : ℕ → ℕ
  pub curidx : ℕ
  pub deeper : List ℕ
  pub out : List Line

abbrev pub core : State → Core
core s = record { pfidx = s.pfidx; curidx = s.curidx; deeper = s.deeper; out = s.out }

-- Numbers are given once, in order, and no table has lines before its number is given.
pub record Good (c : Core) : Type 0 where
  pub once : (x y : ℕ) → c.pfidx x ≢ 0 → c.pfidx x ≡ c.pfidx y → x ≡ y
  pub given : (x : ℕ) → c.pfidx x < c.curidx
  pub fresh : (a d : ℕ) → c.curidx ≤ a → find (some a) c.out d ≡ none

-- A prefix with a number, whose table has no lines.
abbrev pub Awaiting : Core → ℕ → Type 0
Awaiting c x = (c.pfidx x ≢ 0) × ((d : ℕ) → find (some (c.pfidx x)) c.out d ≡ none)

abbrev pub Own : Option ℕ → ℕ → Type 0
Own none x = Unit
Own (some pf) x = x ≢ pf

-- Before the digit `i` of a table `t`, since the state `a`: the prefixes of the next level are numbers
-- from `floor` on, below that of the digit, which is `first` + i.
pub record Effect (lv : Level) (t : Option ℕ) (floor first : ℕ) (a c : Core) (i : ℕ) : Type 0 where
  pub same : column lv c.pfidx ≡ t
  pub good : Good c
  pub grows :
      (t' : Option ℕ) (d : ℕ) (v : ℕ × ℕ) → find t' a.out d ≡ some v → find t' c.out d ≡ some v
  pub others : (t' : Option ℕ) (d : ℕ) → t' ≢ t → find t' a.out d ≡ none → find t' c.out d ≡ none
  pub kept : (x : ℕ) → ((d : ℕ) → d < i → x ≢ child lv d) → c.pfidx x ≡ a.pfidx x
  pub split :
      (d k : ℕ)
      → find t c.out d ≡ some (1, k)
      → (d < i) × (tmp_l lv d < tmp_r lv d) × Listed (child lv d) c.deeper
  pub longer : (x : ℕ) → Listed x a.deeper → Listed x c.deeper
  pub waiting : All (Awaiting c) c.deeper
  pub rising : Rising c.deeper
  pub below : All (λ x. x < first + i) c.deeper
  pub above : All (λ x. floor ≤ x) c.deeper

-- The range of the state begins at most at the keys of the digit `i`.
pub record At (lv : Level) (ranges : List Range) (j i : ℕ) : Type 0 where
  pub range : Range
  pub there : get_elem? ranges j ≡ some range
  pub low : i < nb_digits → range.l ≤ tmp_l lv i

pub column_lt :
    (p : Option ℕ) (lv : Level) (c : Core) (a : ℕ)
    → Good c
    → column_of lv p c.pfidx ≡ some a
    → a < c.curidx
column_lt none lv c a g e = absurd (ground arith)
column_lt (some pf) lv c a g e = let e' : c.pfidx pf ≡ a = cc in omega (arith, g.given pf)

pub column_ne :
    (p : Option ℕ) (lv : Level) (c : Core) (x : ℕ)
    → Good c
    → c.pfidx x ≢ 0
    → Own p x
    → some (c.pfidx x) ≢ column_of lv p c.pfidx
column_ne none lv c x g n own e = ground arith
column_ne (some pf) lv c x g n own e =
    let e' : c.pfidx x ≡ c.pfidx pf = cc in own (g.once x pf n e')

-- ===== src/MatchTable/Find.antt =====
-- What a match table says of a digit, and the search for a range.
use fat_btree.Prelude.{
  ℕ, zero, suc, ◌+◌, ◌≤◌, ◌<◌, ◌≡◌, ◌≢◌, refl, sym, ap, ◌∙◌, Bool, true, false, Bool-cases,
  Option-cases, ◌⊎◌, inl, inr, ◌&&◌, Option, none, some, List, [], ◌∷◌, ◌++◌, arith, ltb, leb, ◌==◌,
  ==_self, if◌then◌else◌, get_elem?, drop,
}
use fat_btree.MatchTable.{Range, Line, uint64_max, ranges_from, advance}

abbrev pub same_table : Option ℕ → Option ℕ → Bool
same_table none none = true
same_table (some a) (some b) = a == b
same_table _ _ = false

pub same_table_self : (t : Option ℕ) → same_table t t ≡ true
same_table_self none = refl
same_table_self (some a) = ==_self a

abbrev pub covers : Option ℕ → ℕ → Line → Bool
covers t d line = same_table t line.table && (leb line.l d && leb d line.r)

-- The kind and the argument of the first line of a table that has the digit.
unfoldable pub find : Option ℕ → List Line → ℕ → Option (ℕ × ℕ)
find t [] d = none
find t (x ∷ xs) d = let rest = find t xs d in if covers t d x then some (x.kind, x.arg) else rest

pub find-append_none :
    (t : Option ℕ) (xs ys : List Line) (d : ℕ)
    → find t xs d ≡ none
    → find t (xs ++ ys) d ≡ find t ys d
unfolding find
find-append_none t [] ys d e = refl
find-append_none t (x ∷ xs) ys d e = elim (Bool-cases (covers t d x)) [
  | inl p ↦ absurd (ground arith)
  | inr p ↦ let e' : find t xs d ≡ none = ground arith in rw p (find-append_none t xs ys d e')
]

pub find-append_some :
    (t : Option ℕ) (xs ys : List Line) (d : ℕ) (v : ℕ × ℕ)
    → find t xs d ≡ some v
    → find t (xs ++ ys) d ≡ some v
unfolding find
find-append_some t [] ys d v e = absurd (ground arith)
find-append_some t (x ∷ xs) ys d v e = elim (Bool-cases (covers t d x)) [
  | inl p ↦ ground arith
  | inr p ↦ let e' : find t xs d ≡ some v = ground arith in rw p (find-append_some t xs ys d v e')
]

-- A line of the table, for the digits from l to r.
module _ (t : Option ℕ) (l r kind arg : ℕ) where
  abbrev pub line : Line
  line = record { table = t; l = l; r = r; kind = kind; arg = arg }

  module _ (d : ℕ) where
    pub find-line : l ≤ d → d ≤ r → find t (line ∷ []) d ≡ some (kind, arg)
    unfolding find
    find-line low high = rw (same_table_self t) (ground arith)

    pub find-line_beyond : r < d → find t (line ∷ []) d ≡ none
    unfolding find
    find-line_beyond far = rw (same_table_self t) (ground arith)

pub find-append_cases :
    (t : Option ℕ) (xs ys : List Line) (d : ℕ) (v : ℕ × ℕ)
    → find t (xs ++ ys) d ≡ some v
    → (find t xs d ≡ some v) ⊎ ((find t xs d ≡ none) × (find t ys d ≡ some v))
find-append_cases t xs ys d v e = elim (Option-cases (find t xs d)) [
  | inl n ↦ inr (n, sym (find-append_none t xs ys d n) ∙ e)
  | inr (w, q) ↦ inl (q ∙ sym (find-append_some t xs ys d w q) ∙ e)
]

pub find-line_cases :
    (t : Option ℕ) (l r kind arg d : ℕ) (v : ℕ × ℕ)
    → find t (line t l r kind arg ∷ []) d ≡ some v
    → (kind ≡ v.0) × (l ≤ d) × (d ≤ r)
unfolding find
find-line_cases t l r kind arg d v e =
    let e' : (if leb l d && leb d r then some (kind, arg) else none) ≡ some v =
      sym (
        ap (λ (b : Bool). if b && (leb l d && leb d r) then some (kind, arg) else none)
          (same_table_self t))
      ∙ e in
    ground arith

pub find-line_other :
    (t t' : Option ℕ) (l r kind arg d : ℕ) → t' ≢ t → find t' (line t l r kind arg ∷ []) d ≡ none
unfolding find
find-line_other none none l r kind arg d ne = absurd (ne refl)
find-line_other none (some b) l r kind arg d ne = refl
find-line_other (some a) none l r kind arg d ne = refl
find-line_other (some a) (some b) l r kind arg d ne = elim (Bool-cases (b == a)) [
  | inl p ↦ let e : b ≡ a = ground arith in absurd (ne (ap some e))
  | inr p ↦ rw p refl
]

-- The last range ends at the largest key.
abbrev pub Reaches : List Range → Type 0
Reaches [] = ⊥
Reaches (x ∷ []) = x.r ≡ uint64_max
Reaches (x ∷ y ∷ ys) = Reaches (y ∷ ys)

pub ranges_from-Reaches : (prev : ℕ) (keys : List ℕ) → Reaches (ranges_from prev keys)
unfolding ranges_from
ranges_from-Reaches prev [] = refl
ranges_from-Reaches prev (k ∷ []) = refl
ranges_from-Reaches prev (k ∷ k' ∷ keys) = ranges_from-Reaches k (k' ∷ keys)

pub Reaches-drop :
    (xs : List Range) (j : ℕ) (x : Range)
    → get_elem? xs j ≡ some x
    → Reaches xs
    → Reaches (drop j xs)
Reaches-drop [] j x e re = absurd re
Reaches-drop (y ∷ ys) zero x e re = re
Reaches-drop (y ∷ []) (suc j) x e re = absurd (ground arith)
Reaches-drop (y ∷ z ∷ zs) (suc j) x e re = Reaches-drop (z ∷ zs) j x e re

pub get_elem?-drop : (xs : List Range) (j k : ℕ) → get_elem? (drop j xs) k ≡ get_elem? xs (j + k)
get_elem?-drop xs zero k = let e : 0 + k ≡ k = omega arith in rw e
get_elem?-drop [] (suc j) k = refl
get_elem?-drop (x ∷ xs) (suc j) k =
    let e : suc j + k ≡ suc (j + k) = omega arith in rw e (get_elem?-drop xs j k)

pub record Advanced (xs : List Range) (j lo : ℕ) : Type 0 where
  pub by : ℕ
  pub found : advance xs j lo ≡ some (j + by)
  pub range : Range
  pub there : get_elem? xs by ≡ some range
  pub ends : lo ≤ range.r

-- The search ends, at a range that does not end before `lo`.
pub advance_lem : (xs : List Range) (j lo : ℕ) → Reaches xs → lo ≤ uint64_max → Advanced xs j lo
unfolding advance
advance_lem [] j lo re h = absurd re
advance_lem (x ∷ []) j lo re h = record {
  by = 0;
  found = ground (arith, re);
  range = x;
  there = refl;
  ends = omega (arith, re);
}
advance_lem (x ∷ y ∷ ys) j lo re h =
    let rest = advance_lem (y ∷ ys) (j + 1) lo re h in
    elim (Bool-cases (ltb x.r lo)) [
      | inl p ↦
          let e : (j + 1) + rest.by ≡ j + suc rest.by = omega arith in
          record {
            by = suc rest.by;
            found = rw p (rest.found ∙ ap some e);
            range = rest.range;
            there = rest.there;
            ends = rest.ends;
          }
      | inr p ↦
          let e : j ≡ j + 0 = omega arith in
          record { by = 0; found = rw p (ap some e); range = x; there = refl; ends = ground arith }
    ]

-- Each range begins at most one key behind the one before it.
abbrev pub Linked : List Range → Type 0
Linked [] = Unit
Linked (x ∷ []) = Unit
Linked (x ∷ y ∷ ys) = (y.l ≤ x.r + 1) × Linked (y ∷ ys)

pub ranges_from-Linked : (prev : ℕ) (keys : List ℕ) → Linked (ranges_from prev keys)
unfolding ranges_from
ranges_from-Linked prev [] = tt
ranges_from-Linked prev (k ∷ []) = (omega arith, tt)
ranges_from-Linked prev (k ∷ k' ∷ keys) = (omega arith, ranges_from-Linked k (k' ∷ keys))

pub Linked-drop : (xs : List Range) (j : ℕ) → Linked xs → Linked (drop j xs)
Linked-drop xs zero li = li
Linked-drop [] (suc j) li = tt
Linked-drop (x ∷ []) (suc zero) li = tt
Linked-drop (x ∷ []) (suc (suc j)) li = tt
Linked-drop (x ∷ y ∷ ys) (suc j) (l, li) = Linked-drop (y ∷ ys) j li

-- The first range that does not end before `lo` begins at most there, if an earlier one does.
pub advance_under :
    (xs : List Range) (j lo k : ℕ) (x y : Range)
    → Linked xs
    → get_elem? xs 0 ≡ some x
    → x.l ≤ lo
    → advance xs j lo ≡ some (j + k)
    → get_elem? xs k ≡ some y
    → y.l ≤ lo
unfolding advance
advance_under [] j lo k x y li first low found there = absurd (ground arith)
advance_under (z ∷ zs) j lo zero x y li first low found there =
    let e : x ≡ y = cc in ground (arith, ap (λ (r : Range). r.l) e)
advance_under (z ∷ []) j lo (suc k) x y li first low found there = absurd (ground arith)
advance_under (z ∷ w ∷ ws) j lo (suc k) x y (l, li) first low found there =
    elim (Bool-cases (ltb z.r lo)) [
      | inl p ↦
          let e : some ((j + 1) + k) ≡ some (j + suc k) = ap some (omega arith) in
          let found' : advance (w ∷ ws) (j + 1) lo ≡ some (j + suc k) = ground arith in
          let below : w.l ≤ lo = ground arith in
          advance_under (w ∷ ws) (j + 1) lo k w y li refl below (found' ∙ sym e) there
      | inr p ↦ absurd (ground arith)
    ]

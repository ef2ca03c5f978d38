-- ===== src/MatchTable/Scan.antt =====
-- The loop over the digits: each digit has a line, and the line is right.
pub mod Loop
use fat_btree.Prelude.{
  ℕ, zero, suc, ◌+◌, ◌≤◌, ◌<◌, ◌≡◌, ◌≢◌, refl, sym, ap, ◌∙◌, Bool-cases, ◌⊎◌, inl, inr, ◌&&◌,
  Option, none, some, List, [], ◌∷◌, ◌++◌, append-nil, subst, arith, ltb, leb, ◌==◌, ==_self,
  if◌then◌else◌, get_elem?, drop,
}
use fat_btree.Run.{Returns, mono, bind}
use fat_btree.MatchTable.{
  Range, Line, State, Level, uint64_max, nb_digits, tmp_l, tmp_r, child, column, flushed, flush,
  seek, extend, extended, filed, point, place, step, digits, scan,
}
use fat_btree.MatchTable.Find.{
  find, find-append_none, find-append_some, line, find-line, find-line_beyond, Reaches,
  Reaches-drop, get_elem?-drop, advance_lem,
}

module _ (lv : Level) (ranges : List Range) (t : Option ℕ) where
  -- The keys of a digit lie in the range with the index `j`.
  pub record Inside (j d : ℕ) : Type 0 where
    pub range : Range
    pub there : get_elem? ranges j ≡ some range
    pub low : range.l ≤ tmp_l lv d
    pub high : tmp_r lv d ≤ range.r

  -- The line sends the digit to a range that has all of its keys, or to the table of its prefix.
  pub record Hit (s : State) (d : ℕ) : Type 0 where
    pub j : ℕ
    pub found : find t s.out d ≡ some (0, j)
    pub inside : Inside j d

  abbrev pub Down : State → ℕ → Type 0
  Down s d = find t s.out d ≡ some (1, s.pfidx (child lv d))

  abbrev pub Right : State → ℕ → Type 0
  Right s d = Hit s d ⊎ Down s d

  abbrev pub start : Option (ℕ × ℕ) → ℕ → ℕ
  start none i = i
  start (some lr) i = lr.0

  abbrev pub Open : Option (ℕ × ℕ) → ℕ → ℕ → Type 0
  Open none j i = Unit
  Open (some lr) j i = (lr.0 < i) × (lr.1 + 1 ≡ i) × ((d : ℕ) → lr.0 ≤ d → d < i → Inside j d)

  -- Before the digit `i`: the digits before the open run have their lines, and no other has.
  pub record Scanned (s : State) (i : ℕ) : Type 0 where
    pub same : column lv s.pfidx ≡ t
    pub at : (x : Range) × (get_elem? ranges s.j ≡ some x)
    pub pending : Open s.run s.j i
    pub before : (d : ℕ) → d < start s.run i → Right s d
    pub beyond : (d : ℕ) → start s.run i ≤ d → find t s.out d ≡ none

  -- More lines, of which earlier digits take no notice.
  pub Right-more :
      (s s' : State) (d : ℕ) (xs : List Line)
      → s'.out ≡ s.out ++ xs
      → s'.pfidx (child lv d) ≡ s.pfidx (child lv d)
      → Right s d
      → Right s' d
  Right-more s s' d xs more same (inl h) = inl (record {
    j = h.j;
    found =
        ap (λ (l : List Line). find t l d) more ∙ find-append_some t s.out xs d (0, h.j) h.found;
    inside = h.inside;
  })
  Right-more s s' d xs more same (inr h) = inr (
      ap (λ (l : List Line). find t l d) more
      ∙ find-append_some t s.out xs d (1, s.pfidx (child lv d)) h
      ∙ ap (λ (a : ℕ). some (1, a)) (sym same))

  pub flushed-run : (q : Option (ℕ × ℕ)) (s : State) → s.run ≡ q → (flushed lv q s).run ≡ none
  flushed-run none s e = e
  flushed-run (some (l, r)) s e = refl

  -- The lines of the open run.
  Scanned-closed :
      (s : State) (i l r : ℕ)
      → s.run ≡ some (l, r)
      → Scanned s i
      → Scanned (record s { out = s.out ++ (line t l r 0 s.j ∷ []); run = none }) i
  Scanned-closed s i l r e sc =
      let s' : State = record s { out = s.out ++ (line t l r 0 s.j ∷ []); run = none } in
      let o : Open (some (l, r)) s.j i =
        subst (λ (q : Option (ℕ × ℕ)). Open q s.j i) e sc.pending in
      let st : start s.run i ≡ l = ap (λ (q : Option (ℕ × ℕ)). start q i) e in
      record {
        same = sc.same;
        at = sc.at;
        pending = tt;
        before = λ d h. elim (Bool-cases (ltb d l)) [
          | inl p ↦
              Right-more s s' d (line t l r 0 s.j ∷ []) refl refl (sc.before d (ground (arith, st)))
          | inr p ↦ inl (record {
            j = s.j;
            found =
                find-append_none t s.out (line t l r 0 s.j ∷ []) d
                  (sc.beyond d (ground (arith, st)))
                ∙ find-line t l r 0 s.j d (ground arith) (ground (arith, o.1));
            inside = o.2 d (ground arith) h;
          })
        ];
        beyond = λ d h.
            find-append_none t s.out (line t l r 0 s.j ∷ []) d
              (sc.beyond d (omega (arith, st, o.0)))
            ∙ find-line_beyond t l r 0 s.j d (omega (arith, o.1));
      }

  pub Scanned-flushed :
      (q : Option (ℕ × ℕ)) (s : State) (i : ℕ)
      → s.run ≡ q
      → Scanned s i
      → Scanned (flushed lv q s) i
  Scanned-flushed none s i e sc = sc
  Scanned-flushed (some (l, r)) s i e sc =
      subst
        (λ (c : Option ℕ).
          Scanned
            (record s {
              out = s.out ++ (record { table = c; l = l; r = r; kind = 0; arg = s.j } ∷ []);
              run = none;
            })
            i)
        (sym sc.same) (Scanned-closed s i l r e sc)

  -- Another range.
  Scanned-at :
      (s : State) (i j : ℕ) (x : Range)
      → get_elem? ranges j ≡ some x
      → s.run ≡ none
      → Scanned s i
      → Scanned (record s { j = j }) i
  Scanned-at s i j x e none_open sc = record {
    same = sc.same;
    at = (x, e);
    pending = subst (λ (q : Option (ℕ × ℕ)). Open q j i) (sym none_open) tt;
    before =
        λ d h. Right-more s (record s { j = j }) d [] (sym (append-nil s.out)) refl (sc.before d h);
    beyond = sc.beyond;
  }

  pub seek_lem :
      (s : State) (i lo : ℕ)
      → Reaches ranges
      → lo ≤ uint64_max
      → Scanned s i
      → Returns (λ _ s'. Scanned s' i) (seek lv ranges lo s)
  unfolding seek flush
  seek_lem s i lo re small sc = elim (Bool-cases (ltb sc.at.0.r lo)) [
    | inl p ↦
        let a =
          advance_lem (drop s.j ranges) s.j lo (Reaches-drop ranges s.j sc.at.0 sc.at.1 re) small in
        rw (sc.at.1, p, a.found)
          (Scanned-at (flush lv s) i (s.j + a.by) a.range
            (sym (get_elem?-drop ranges s.j a.by) ∙ a.there) (flushed-run s.run s refl)
            (Scanned-flushed s.run s i refl sc))
    | inr p ↦ rw (sc.at.1, p) sc
  ]

  extended_lem :
      (q : Option (ℕ × ℕ)) (j i : ℕ)
      → Inside j i
      → Open q j i
      → Open (extended lv q i) j (i + 1) × (start (extended lv q i) (i + 1) ≡ start q i)
  extended_lem none j i inside o = (
    (
      omega arith,
      refl,
      λ d low high. let e : i ≡ d = omega arith in subst (λ (x : ℕ). Inside j x) e inside,
    ),
    refl,
  )
  extended_lem (some (l, r)) j i inside o = (
    (
      omega (arith, o.0),
      refl,
      λ d low high. elim (Bool-cases (ltb d i)) [
        | inl p ↦ o.2 d low (ground arith)
        | inr p ↦ let e : i ≡ d = ground arith in subst (λ (x : ℕ). Inside j x) e inside
      ],
    ),
    refl,
  )

  pub Scanned-extend :
      (s : State) (i : ℕ) → Inside s.j i → Scanned s i → Scanned (extend lv i s) (i + 1)
  unfolding extend
  Scanned-extend s i inside sc =
      let x = extended_lem s.run s.j i inside sc.pending in
      record {
        same = sc.same;
        at = sc.at;
        pending = x.0;
        before = λ d h.
            Right-more s (extend lv i s) d [] (sym (append-nil s.out)) refl
              (sc.before d (omega (arith, x.1)));
        beyond = λ d h. sc.beyond d (omega (arith, x.1));
      }

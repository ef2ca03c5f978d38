-- ===== src/MatchTable/Effect/Loop.antt =====
-- The loop over the digits, and a whole table.
use fat_btree.Prelude.{
  ℕ, zero, suc, ◌+◌, ◌≤◌, ◌<◌, ◌≡◌, refl, sym, ap, ◌∙◌, subst, Bool, false, Bool-cases, inl, inr,
  ◌&&◌, Option, none, some, List, [], ◌∷◌, ◌++◌, arith, ltb, leb, if◌then◌else◌, get_elem?, drop,
}
use fat_btree.Run.{Returns, mono, bind}
use fat_btree.MatchTable.{
  Range, State, Level, uint64_max, nb_digits, tmp_l, tmp_r, child, column, flushed, flush, seek,
  extend, filed, point, place, step, digits, scan,
}
use fat_btree.MatchTable.Find.{
  line, Reaches, Reaches-drop, get_elem?-drop, advance_lem, Linked, Linked-drop, advance_under,
}
use fat_btree.MatchTable.Effect.{Core, core, Own, Effect, At, All-weaken}
use fat_btree.MatchTable.Effect.Lines.{Effect-line, Effect-pointed, column-pointed}

-- A range that has the first key of the digit.
record Reached (lv : Level) (ranges : List Range) (j i : ℕ) : Type 0 where
  range : Range
  there : get_elem? ranges j ≡ some range
  low : range.l ≤ tmp_l lv i
  ends : tmp_l lv i ≤ range.r

module _ (lv : Level) (ranges : List Range) (t : Option ℕ) (floor first : ℕ)
    (own : (x : ℕ) → floor ≤ x → Own lv.prefix x)
    (named : (i : ℕ) → i < nb_digits → child lv i ≡ first + i)
    (rise : (i : ℕ) → i + 1 < nb_digits → tmp_l lv i ≤ tmp_l lv (i + 1))
    (deep : (i j : ℕ) (x : Range)
      → i < nb_digits
      → get_elem? ranges j ≡ some x
      → x.l ≤ tmp_l lv i
      → tmp_l lv i ≤ x.r
      → x.r < tmp_r lv i
      → (floor ≤ child lv i) × (lv.last ≡ false))
    (re : Reaches ranges) (li : Linked ranges) (a : Core) where
  abbrev Eff : State → ℕ → Type 0
  Eff s i = Effect lv t floor first a (core s) i

  Effect-flushed : (q : Option (ℕ × ℕ)) (s : State) (i : ℕ) → Eff s i → Eff (flushed lv q s) i
  Effect-flushed none s i e = e
  Effect-flushed (some (l, r)) s i e =
      subst
        (λ (c : Option ℕ).
          Eff
            (record s {
              out = s.out ++ (record { table = c; l = l; r = r; kind = 0; arg = s.j } ∷ []);
              run = none;
            })
            i)
        (sym e.same) (Effect-line lv t floor first own a (core s) i l r s.j e)

  Effect-next :
      (c : Core) (i : ℕ) → Effect lv t floor first a c i → Effect lv t floor first a c (i + 1)
  Effect-next c i e = record {
    same = e.same;
    good = e.good;
    grows = e.grows;
    others = e.others;
    kept = λ x h. e.kept x (λ d q. h d (omega arith));
    split = λ d k h. let s = e.split d k h in (omega (arith, s.0), s.1, s.2);
    longer = e.longer;
    waiting = e.waiting;
    rising = e.rising;
    below =
        All-weaken (λ x. x < first + i) (λ x. x < first + (i + 1)) c.deeper (λ x h. omega arith)
          e.below;
    above = e.above;
  }

  At-next : (j i : ℕ) → Reached lv ranges j i → At lv ranges j (i + 1)
  At-next j i r = record {
    range = r.range;
    there = r.there;
    low = λ h. omega (arith, r.low, rise i h);
  }

  seek-Effect :
      (s : State) (i : ℕ)
      → i < nb_digits
      → Eff s i
      → At lv ranges s.j i
      → Returns (λ _ s'. Eff s' i × Reached lv ranges s'.j i) (seek lv ranges (tmp_l lv i) s)
  unfolding seek flush
  seek-Effect s i digit e at =
      let x = at.range in
      elim (Bool-cases (ltb x.r (tmp_l lv i))) [
        | inl p ↦
            let small : tmp_l lv i ≤ uint64_max = omega arith in
            let adv =
              advance_lem (drop s.j ranges) s.j (tmp_l lv i) (Reaches-drop ranges s.j x at.there re)
                small in
            let same : s.j + 0 ≡ s.j = omega arith in
            let here : get_elem? (drop s.j ranges) 0 ≡ some x =
              get_elem?-drop ranges s.j 0 ∙ ap (get_elem? ranges) same ∙ at.there in
            rw (at.there, p, adv.found)
              (
                Effect-flushed s.run s i e,
                record {
                  range = adv.range;
                  there = sym (get_elem?-drop ranges s.j adv.by) ∙ adv.there;
                  low =
                      advance_under (drop s.j ranges) s.j (tmp_l lv i) adv.by x adv.range
                        (Linked-drop ranges s.j li) here (at.low digit) adv.found adv.there;
                  ends = adv.ends;
                },
              )
        | inr p ↦
            rw (at.there, p)
              (e, record { range = x; there = at.there; low = at.low digit; ends = ground arith })
      ]

  flushed-j : (q : Option (ℕ × ℕ)) (s : State) → (flushed lv q s).j ≡ s.j
  flushed-j none s = refl
  flushed-j (some (l, r)) s = refl

  point-Effect :
      (s : State) (i : ℕ)
      → i < nb_digits
      → floor ≤ child lv i
      → lv.last ≡ false
      → tmp_l lv i < tmp_r lv i
      → Eff s i
      → Eff (point lv i s) (i + 1)
  unfolding point
  point-Effect s i digit high deeper cross e =
      let shape : Bool → Option ℕ → Core = λ b c. record {
        pfidx = filed lv i s;
        curidx = s.curidx + 1;
        deeper = if b then s.deeper else s.deeper ++ (child lv i ∷ []);
        out = s.out ++ (line c i i 1 (filed lv i s (child lv i)) ∷ []);
      } in
      let col = column-pointed lv t floor first own a (core s) i e (named i digit) high in
      subst (λ (b : Bool). Effect lv t floor first a (shape b (column lv (filed lv i s))) (i + 1))
        (sym deeper)
        (subst (λ (c : Option ℕ). Effect lv t floor first a (shape false c) (i + 1)) (sym col)
          (Effect-pointed lv t floor first own a (core s) i e (named i digit) high cross))

  place-Effect :
      (s : State) (i : ℕ)
      → i < nb_digits
      → Eff s i
      → Reached lv ranges s.j i
      → Returns (λ _ s'. Eff s' (i + 1) × At lv ranges s'.j (i + 1)) (place lv ranges i s)
  unfolding place flush extend
  place-Effect s i digit e r =
      let x = r.range in
      let low = r.low in
      elim (Bool-cases (leb x.l (tmp_l lv i) && leb (tmp_r lv i) x.r)) [
        | inl p ↦ rw (r.there, p) (Effect-next (core s) i e, At-next s.j i r)
        | inr p ↦
            let ends : x.r < tmp_r lv i = ground arith in
            let d = deep i s.j x digit r.there r.low r.ends ends in
            rw (r.there, p)
              (
                point-Effect (flush lv s) i digit d.0 d.1 (omega (arith, r.ends))
                    (Effect-flushed s.run s i e),
                subst (λ (j : ℕ). At lv ranges j (i + 1)) (sym (flushed-j s.run s))
                    (At-next s.j i r),
              )
      ]

  digits-Effect :
      (n i : ℕ) (s : State)
      → i + n ≤ nb_digits
      → Eff s i
      → At lv ranges s.j i
      → Returns (λ _ s'. Eff s' (i + n)) (digits lv ranges n i s)
  unfolding digits step
  digits-Effect zero i s small e at =
      let q : i ≡ i + 0 = omega arith in subst (λ (k : ℕ). Eff s k) q e
  digits-Effect (suc n) i s small e at =
      let q : (i + 1) + n ≡ i + suc n = omega arith in
      bind (λ _ s'. Eff s' (i + 1) × At lv ranges s'.j (i + 1)) (λ _ s'. Eff s' (i + suc n))
        (step lv ranges i s) _
        (bind (λ _ s'. Eff s' i × Reached lv ranges s'.j i)
          (λ _ s'. Eff s' (i + 1) × At lv ranges s'.j (i + 1)) (seek lv ranges (tmp_l lv i) s) _
          (seek-Effect s i (omega arith) e at) λ _ s1 (e1, r). place-Effect s1 i (omega arith) e1 r)
        λ _ s2 (e2, at2).
          mono (λ _ s'. Eff s' ((i + 1) + n)) (λ _ s'. Eff s' (i + suc n))
            (digits lv ranges n (i + 1) s2) (digits-Effect n (i + 1) s2 (omega arith) e2 at2)
            λ _ s3 e3. subst (λ (k : ℕ). Eff s3 k) q e3

  -- A whole table.
  pub scan-Effect :
      (s : State)
      → Effect lv t floor first a (core s) 0
      → At lv ranges 0 0
      → Returns (λ _ s'. Effect lv t floor first a (core s') nb_digits) (scan lv ranges nb_digits s)
  unfolding scan flush
  scan-Effect s e at =
      bind (λ _ s'. Eff s' (0 + nb_digits)) (λ _ s'. Eff s' nb_digits)
        (digits lv ranges nb_digits 0 (record s { run = none; j = 0 })) _
        (digits-Effect nb_digits 0 (record s { run = none; j = 0 }) (omega arith) e at)
        λ _ s' e'. Effect-flushed s'.run s' nb_digits e'

-- ===== src/MatchTable/Effect/Lines.antt =====
-- The lines that the loop writes, one at a time.
use fat_btree.Prelude.{
  ℕ, ◌+◌, ◌≤◌, ◌<◌, ◌≡◌, ◌≢◌, refl, sym, ◌∙◌, subst, false, Bool-cases, inl, inr, Option, none,
  some, [], ◌∷◌, ◌++◌, arith, ◌==◌, ==_self, if◌then◌else◌,
}
use fat_btree.MatchTable.{Level, tmp_l, tmp_r, child, column, column_of}
use fat_btree.MatchTable.Find.{
  find, find-append_none, find-append_some, find-append_cases, line, find-line_cases,
  find-line_other,
}
use fat_btree.MatchTable.Effect.{
  Core, Good, Awaiting, Own, Effect, Listed, Listed-append, Listed-last, Rising-last, All-last,
  All-weaken, All-both, column_lt, column_ne,
}

column_filed :
    (p : Option ℕ) (lv : Level) (x c : ℕ) (f : ℕ → ℕ)
    → Own p x
    → column_of lv p (λ y. if y == x then c else f y) ≡ column_of lv p f
column_filed none lv x c f own = refl
column_filed (some pf) lv x c f own =
    let ne : (pf == x) ≡ false = elim (Bool-cases (pf == x)) [
      | inl e ↦ absurd (own (ground arith))
      | inr e ↦ e
    ] in
    rw ne refl

module _ (lv : Level) (t : Option ℕ) (floor first : ℕ) (own : (x : ℕ) → floor ≤ x → Own lv.prefix x)
    (a : Core) where
  -- The lines of other tables.
  module _ (c : Core) (i : ℕ) (e : Effect lv t floor first a c i) where
    unlike : (n : ℕ) → c.curidx ≤ n → some n ≢ t
    unlike n h q = absurd (omega (arith, column_lt lv.prefix lv c n e.good (e.same ∙ sym q)))

    unlike_waiting : (x : ℕ) → Awaiting c x → floor ≤ x → some (c.pfidx x) ≢ t
    unlike_waiting x w h q = column_ne lv.prefix lv c x e.good w.0 (own x h) (q ∙ sym e.same)

    still :
        (n l r kind arg d : ℕ)
        → some n ≢ t
        → find (some n) c.out d ≡ none
        → find (some n) (c.out ++ (line t l r kind arg ∷ [])) d ≡ none
    still n l r kind arg d ne h =
        find-append_none (some n) c.out (line t l r kind arg ∷ []) d h
        ∙ find-line_other t (some n) l r kind arg d ne

  -- A line for a run of digits.
  pub Effect-line :
      (c : Core) (i l r arg : ℕ)
      → Effect lv t floor first a c i
      → Effect lv t floor first a (record c { out = c.out ++ (line t l r 0 arg ∷ []) }) i
  Effect-line c i l r arg e = record {
    same = e.same;
    good = record {
      once = e.good.once;
      given = e.good.given;
      fresh = λ n d h. still c i e n l r 0 arg d (unlike c i e n h) (e.good.fresh n d h);
    };
    grows = λ t' d v h. find-append_some t' c.out (line t l r 0 arg ∷ []) d v (e.grows t' d v h);
    others = λ t' d ne h.
        find-append_none t' c.out (line t l r 0 arg ∷ []) d (e.others t' d ne h)
        ∙ find-line_other t t' l r 0 arg d ne;
    kept = e.kept;
    split = λ d k h. elim (find-append_cases t c.out (line t l r 0 arg ∷ []) d (1, k) h) [
      | inl q ↦ e.split d k q
      | inr q ↦ absurd (omega (arith, (find-line_cases t l r 0 arg d (1, k) q.1).0))
    ];
    longer = e.longer;
    waiting =
        All-both (Awaiting c) (λ x. floor ≤ x)
          (Awaiting (record c { out = c.out ++ (line t l r 0 arg ∷ []) })) c.deeper
          (λ x w h.
            (w.0, λ d. still c i e (c.pfidx x) l r 0 arg d (unlike_waiting c i e x w h) (w.1 d)))
          e.waiting e.above;
    rising = e.rising;
    below = e.below;
    above = e.above;
  }

  -- A line for a digit with a table of its own.
  module _ (c : Core) (i : ℕ) (e : Effect lv t floor first a c i) (named : child lv i ≡ first + i)
      (high : floor ≤ child lv i) where
    abbrev pub filed_here : ℕ → ℕ
    filed_here x = if x == child lv i then c.curidx else c.pfidx x

    abbrev pub pointed : Core
    pointed = record {
      pfidx = filed_here;
      curidx = c.curidx + 1;
      deeper = c.deeper ++ (child lv i ∷ []);
      out = c.out ++ (line t i i 1 (filed_here (child lv i)) ∷ []);
    }

    filed_self : filed_here (child lv i) ≡ c.curidx
    filed_self = rw (==_self (child lv i)) refl

    filed-other : (x : ℕ) → x ≢ child lv i → filed_here x ≡ c.pfidx x
    filed-other x ne = elim (Bool-cases (x == child lv i)) [
      | inl p ↦ absurd (ne (ground arith))
      | inr p ↦ rw p refl
    ]

    pub column-pointed : column lv filed_here ≡ t
    column-pointed =
        column_filed lv.prefix lv (child lv i) c.curidx c.pfidx (own (child lv i) high) ∙ e.same

    pointed-Good : Good pointed
    pointed-Good = record {
      once = λ x y n q. ground (arith, e.good.once x y, e.good.given x, e.good.given y);
      given = λ x. ground (arith, e.good.given x);
      fresh = λ n d h.
          still c i e n i i 1 (filed_here (child lv i)) d (unlike c i e n (omega arith))
            (e.good.fresh n d (omega arith));
    }

    kept_waiting : (x : ℕ) → Awaiting c x × (floor ≤ x) → x < first + i → Awaiting pointed x
    kept_waiting x (w, h) low =
        let same : filed_here x ≡ c.pfidx x =
          filed-other x (λ q. absurd (omega (arith, q, named))) in
        subst (λ (n : ℕ). (n ≢ 0) × ((d : ℕ) → find (some n) pointed.out d ≡ none)) (sym same)
          (
            w.0,
            λ d.
                still c i e (c.pfidx x) i i 1 (filed_here (child lv i)) d
                  (unlike_waiting c i e x w h) (w.1 d),
          )

    new_waiting : Awaiting pointed (child lv i)
    new_waiting =
        subst (λ (n : ℕ). (n ≢ 0) × ((d : ℕ) → find (some n) pointed.out d ≡ none)) (sym filed_self)
          (
            (λ q. absurd (omega (arith, q, e.good.given 0))),
            λ d.
                still c i e c.curidx i i 1 (filed_here (child lv i)) d
                  (unlike c i e c.curidx (omega arith)) (e.good.fresh c.curidx d (omega arith)),
          )

    pub Effect-pointed : tmp_l lv i < tmp_r lv i → Effect lv t floor first a pointed (i + 1)
    Effect-pointed cross = record {
      same = column-pointed;
      good = pointed-Good;
      grows = λ t' d v h.
          find-append_some t' c.out (line t i i 1 (filed_here (child lv i)) ∷ []) d v
            (e.grows t' d v h);
      others = λ t' d ne h.
          find-append_none t' c.out (line t i i 1 (filed_here (child lv i)) ∷ []) d
            (e.others t' d ne h)
          ∙ find-line_other t t' i i 1 (filed_here (child lv i)) d ne;
      kept = λ x h. filed-other x (h i (omega arith)) ∙ e.kept x (λ d q. h d (omega arith));
      split = λ d k h.
          elim (find-append_cases t c.out (line t i i 1 (filed_here (child lv i)) ∷ []) d (1, k)
            h) [
              | inl q ↦
                  let s = e.split d k q in
                  (
                    omega (arith, s.0),
                    s.1,
                    Listed-append (child lv d) c.deeper (child lv i ∷ []) s.2,
                  )
              | inr q ↦
                  let b = find-line_cases t i i 1 (filed_here (child lv i)) d (1, k) q.1 in
                  let same : i ≡ d = omega (arith, b.1, b.2) in
                  subst
                    (λ (x : ℕ).
                      (x < i + 1) × (tmp_l lv x < tmp_r lv x) × Listed (child lv x) pointed.deeper)
                    same (omega arith, cross, Listed-last (child lv i) c.deeper)
            ];
      longer = λ x l. Listed-append x c.deeper (child lv i ∷ []) (e.longer x l);
      waiting =
          All-last (Awaiting pointed) (child lv i) c.deeper
            (All-both (λ x. Awaiting c x × (floor ≤ x)) (λ x. x < first + i) (Awaiting pointed)
              c.deeper kept_waiting
              (All-both (Awaiting c) (λ x. floor ≤ x) (λ x. Awaiting c x × (floor ≤ x)) c.deeper
                (λ x w h. (w, h)) e.waiting e.above)
              e.below)
            new_waiting;
      rising = Rising-last (child lv i) c.deeper e.rising (
          All-weaken (λ x. x < first + i) (λ x. x < child lv i) c.deeper
            (λ x h. omega (arith, named)) e.below);
      below =
          All-last (λ x. x < first + (i + 1)) (child lv i) c.deeper
            (All-weaken (λ x. x < first + i) (λ x. x < first + (i + 1)) c.deeper
              (λ x h. omega arith) e.below)
            (omega (arith, named));
      above = All-last (λ x. floor ≤ x) (child lv i) c.deeper e.above high;
    }

-- ===== src/MatchTable/Stage.antt =====
-- The tables of one level: the loop over the prefixes that the level before it has pushed.
pub mod Loop
use fat_btree.Prelude.{
  ℕ, zero, suc, ◌+◌, ◌*◌, ◌^◌, ◌≤◌, ◌<◌, ◌≡◌, ◌≢◌, refl, sym, ap, ◌∙◌, subst, Bool, true, false,
  ◌⊎◌, inl, inr, Option, none, some, List, [], ◌∷◌, arith, All, get_elem?,
}
use fat_btree.Run.{Cmd, Returns, mono, bind, both, pure, ◌>>◌}
use fat_btree.MatchTable.{
  Range, Line, State, Level, rangelist, nb_digits, tmp_l, tmp_r, child, column, scan, uint64_max,
}
use fat_btree.MatchTable.Find.{find, Linked, ranges_from-Linked}
use fat_btree.MatchTable.Scan.{Hit, Right, Inside}
use fat_btree.MatchTable.Levels.{level, rangelist-Reaches, table_lem}
use fat_btree.MatchTable.Effect.{
  Core, core, Good, Awaiting, Own, Effect, At, Listed, Rising, All-weaken, All-both,
}
use fat_btree.MatchTable.Effect.Loop.{scan-Effect}

pub rangelist-Linked : (keys : List ℕ) → Linked (rangelist keys)
unfolding rangelist
rangelist-Linked keys = ranges_from-Linked uint64_max keys

-- What a table says of a digit: a range that has all of its keys, or the table of a prefix that is on
-- the list of the next level.
pub record Sent (lv : Level) (ranges : List Range) (t : Option ℕ) (c : Core) (d : ℕ) : Type 0 where
  pub down : find t c.out d ≡ some (1, c.pfidx (child lv d))
  pub listed : Listed (child lv d) c.deeper
  pub wide : tmp_l lv d < tmp_r lv d

pub record Ends (lv : Level) (ranges : List Range) (t : Option ℕ) (c : Core) (d : ℕ) : Type 0 where
  pub j : ℕ
  pub found : find t c.out d ≡ some (0, j)
  pub inside : Inside lv ranges t j d

abbrev pub Served : Level → List Range → Option ℕ → Core → Type 0
Served lv ranges t c = (d : ℕ) → d < nb_digits → Ends lv ranges t c d ⊎ Sent lv ranges t c d

-- A state with lines and prefixes added to another, where the numbers of the prefixes in `P` are the same.
pub record Later (P : ℕ → Type 0) (a c : Core) : Type 0 where
  pub grows : (t : Option ℕ) (d : ℕ) (v : ℕ × ℕ) → find t a.out d ≡ some v → find t c.out d ≡ some v
  pub kept : (x : ℕ) → P x → c.pfidx x ≡ a.pfidx x
  pub longer : (x : ℕ) → Listed x a.deeper → Listed x c.deeper

pub Listed-All : (P : ℕ → Type 0) (x : ℕ) (xs : List ℕ) → All P xs → Listed x xs → P x
Listed-All P x [] ps l = absurd l
Listed-All P x (y ∷ xs) (p, ps) (inl e) = subst P (sym e) p
Listed-All P x (y ∷ xs) (p, ps) (inr l) = Listed-All P x xs ps l

pub Served-Later :
    (P : ℕ → Type 0) (lv : Level) (ranges : List Range) (t : Option ℕ) (a c : Core)
    → Later P a c
    → ((x : ℕ) → Listed x a.deeper → P x)
    → Served lv ranges t a
    → Served lv ranges t c
Served-Later P lv ranges t a c later old served d digit = elim (served d digit) [
  | inl e ↦ inl (record { j = e.j; found = later.grows t d (0, e.j) e.found; inside = e.inside })
  | inr e ↦ inr (record {
    down =
        later.grows t d (1, a.pfidx (child lv d)) e.down
        ∙ ap (λ (k : ℕ). some (1, k)) (sym (later.kept (child lv d) (old (child lv d) e.listed)));
    listed = later.longer (child lv d) e.listed;
    wide = e.wide;
  })
]

-- The prefixes are between `lo` and `hi`, their children behind them all.
module _ (ranges : List Range) (width : ℕ) (last : Bool) (lo hi : ℕ) where
  -- Before the loop over the prefixes.
  pub record Ready (c : Core) (pfs : List ℕ) : Type 0 where
    pub good : Good c
    pub awaiting : All (Awaiting c) pfs
    pub rising : Rising pfs
    pub bounds : All (λ pf. (lo ≤ pf) × (pf ≤ hi)) pfs
    pub waiting : All (Awaiting c) c.deeper
    pub rising_deeper : Rising c.deeper
    pub below : All (λ pf. All (λ x. x < pf * 65536) c.deeper) pfs
    pub above : All (λ x. (lo * 65536 ≤ x) × (x ≤ hi * 65536 + 65535)) c.deeper

  -- Behind it.
  pub record Done (a c : Core) (pfs : List ℕ) : Type 0 where
    pub good : Good c
    pub waiting : All (Awaiting c) c.deeper
    pub rising : Rising c.deeper
    pub above : All (λ x. (lo * 65536 ≤ x) × (x ≤ hi * 65536 + 65535)) c.deeper
    pub later : Later (λ x. All (λ pf. x < pf * 65536) pfs) a c
    pub served : All (λ pf. Served (level pf width last) ranges (some (c.pfidx pf)) c) pfs

  module _ (one : 1 ≤ lo) (over : hi < lo * 65536) (small : hi * 65536 + 65535 < 2 ^ 64) where
    pub first-Effect :
        (c : Core) (pf : ℕ) (pfs : List ℕ)
        → Ready c (pf ∷ pfs)
        → Effect (level pf width last) (some (c.pfidx pf)) (lo * 65536) (pf * 65536) c c 0
    first-Effect c pf pfs r = record {
      same = refl;
      good = r.good;
      grows = λ t d v h. h;
      others = λ t d ne h. h;
      kept = λ x h. refl;
      split = λ d k h. absurd (ground (arith, h, r.awaiting.0.1 d));
      longer = λ x l. l;
      waiting = r.waiting;
      rising = r.rising_deeper;
      below =
          All-weaken (λ x. x < pf * 65536) (λ x. x < pf * 65536 + 0) c.deeper (λ x h. omega arith)
            r.below.0;
      above =
          All-weaken (λ x. (lo * 65536 ≤ x) × (x ≤ hi * 65536 + 65535)) (λ x. lo * 65536 ≤ x)
            c.deeper (λ x h. h.0) r.above;
    }

    module _ (a c : Core) (pf : ℕ) (pfs : List ℕ) (r : Ready a (pf ∷ pfs))
        (e : Effect
          (level pf width last)
          (some (a.pfidx pf))
          (lo * 65536)
          (pf * 65536)
          a
          c
          nb_digits) where
      under : (x d : ℕ) → x < pf * 65536 → d < nb_digits → x ≢ child (level pf width last) d
      under x d h digit q = absurd (omega (arith, q, r.bounds.0))

      still_waiting : (x : ℕ) → Awaiting a x × ((lo ≤ x) × (x ≤ hi)) → pf < x → Awaiting c x
      still_waiting x (w, b) h =
          let same : c.pfidx x ≡ a.pfidx x =
            e.kept x (λ d digit. under x d (omega (arith, b, r.bounds.0)) digit) in
          subst (λ (n : ℕ). (n ≢ 0) × ((d : ℕ) → find (some n) c.out d ≡ none)) (sym same)
            (
              w.0,
              λ d.
                  e.others (some (a.pfidx x)) d
                    (λ q.
                      let q' : a.pfidx x ≡ a.pfidx pf = cc in
                      absurd (omega (arith, h, r.good.once x pf w.0 q')))
                    (w.1 d),
            )

      pub next-Ready : Ready c pfs
      next-Ready = record {
        good = e.good;
        awaiting =
            All-both (λ x. Awaiting a x × ((lo ≤ x) × (x ≤ hi))) (λ x. pf < x) (Awaiting c) pfs
              still_waiting
              (All-both (Awaiting a) (λ x. (lo ≤ x) × (x ≤ hi))
                (λ x. Awaiting a x × ((lo ≤ x) × (x ≤ hi))) pfs (λ x w b. (w, b)) r.awaiting.1
                r.bounds.1)
              r.rising.0;
        rising = r.rising.1;
        bounds = r.bounds.1;
        waiting = e.waiting;
        rising_deeper = e.rising;
        below =
            All-weaken (λ x. pf < x) (λ x. All (λ y. y < x * 65536) c.deeper) pfs
              (λ x h.
                All-weaken (λ y. y < pf * 65536 + nb_digits) (λ y. y < x * 65536) c.deeper
                  (λ y h'. omega arith) e.below)
              r.rising.0;
        above =
            All-both (λ y. y < pf * 65536 + nb_digits) (λ y. lo * 65536 ≤ y)
              (λ x. (lo * 65536 ≤ x) × (x ≤ hi * 65536 + 65535)) c.deeper
              (λ y h h'. (h', omega (arith, r.bounds.0))) e.below e.above;
      }

      pub Served-first :
          ((d : ℕ)
            → d < nb_digits
            → Ends (level pf width last) ranges (some (a.pfidx pf)) c d
              ⊎ (find (some (a.pfidx pf)) c.out d
                  ≡ some (1, c.pfidx (child (level pf width last) d))))
          → Served (level pf width last) ranges (some (a.pfidx pf)) c
      Served-first right d digit = elim (right d digit) [
        | inl h ↦ inl h
        | inr h ↦
            let s = e.split d (c.pfidx (child (level pf width last) d)) h in
            inr (record { down = h; listed = s.2; wide = s.1 })
      ]

      first_number : c.pfidx pf ≡ a.pfidx pf
      first_number = e.kept pf (λ d digit. under pf d (omega (arith, r.bounds.0)) digit)

      pub next-Done :
          (z : Core)
          → Served (level pf width last) ranges (some (a.pfidx pf)) c
          → Done c z pfs
          → Done a z (pf ∷ pfs)
      next-Done z served d =
          let ready = next-Ready in
          let behind : All (λ x. pf < x * 65536) pfs =
            All-weaken (λ x. (lo ≤ x) × (x ≤ hi)) (λ x. pf < x * 65536) pfs
              (λ x b. omega (arith, b, r.bounds.0)) r.bounds.1 in
          let number : z.pfidx pf ≡ a.pfidx pf = d.later.kept pf behind ∙ first_number in
          record {
            good = d.good;
            waiting = d.waiting;
            rising = d.rising;
            above = d.above;
            later = record {
              grows = λ t x v h. d.later.grows t x v (e.grows t x v h);
              kept = λ x h. d.later.kept x h.1 ∙ e.kept x (λ i digit. under x i h.0 digit);
              longer = λ x l. d.later.longer x (e.longer x l);
            };
            served = (
              subst (λ (n : ℕ). Served (level pf width last) ranges (some n) z) (sym number)
                  (Served-Later (λ x. All (λ p. x < p * 65536) pfs) (level pf width last) ranges
                    (some (a.pfidx pf)) c z d.later
                    (λ x l.
                      All-weaken (λ p. All (λ y. y < p * 65536) c.deeper) (λ p. x < p * 65536) pfs
                        (λ p h. Listed-All (λ y. y < p * 65536) x c.deeper h l) ready.below)
                    served),
              d.served,
            );
          }

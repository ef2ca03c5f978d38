-- ===== src/MatchTable/Stage/Loop.antt =====
-- All tables of a level are made, and serve all digits of their prefixes.
use fat_btree.Prelude.{
  ℕ, ◌+◌, ◌*◌, ◌^◌, ◌≤◌, ◌<◌, ◌≡◌, refl, sym, subst, Bool, false, ◌⊎◌, inl, inr, Option, some, List,
  [], ◌∷◌, arith, get_elem?,
}
use fat_btree.Run.{Cmd, Returns, mono, bind, both, pure, ◌>>◌}
use fat_btree.MatchTable.{
  Range, State, Level, rangelist, ranges_from, nb_digits, tmp_l, tmp_r, child, scan, uint64_max,
}
use fat_btree.MatchTable.Find.{find}
use fat_btree.MatchTable.Scan.{Right}
use fat_btree.MatchTable.Levels.{level, rangelist-Reaches, table_lem}
use fat_btree.MatchTable.Effect.{Core, core, Effect, At}
use fat_btree.MatchTable.Effect.Loop.{scan-Effect}
use fat_btree.MatchTable.Stage.{
  Ends, Served, Ready, Done, first-Effect, next-Ready, next-Done, Served-first, rangelist-Linked,
}

-- The first range begins at 0, since UINT64_MAX + 1 wraps round.
rangelist-first :
    (keys : List ℕ) → (x : Range) × (get_elem? (rangelist keys) 0 ≡ some x) × (x.l ≡ 0)
unfolding rangelist ranges_from
rangelist-first [] = (record { l = 0; r = uint64_max }, refl, refl)
rangelist-first (k ∷ keys) = (record { l = 0; r = k }, refl, refl)

pub At-first : (keys : List ℕ) (lv : Level) → At lv (rangelist keys) 0 0
At-first keys lv =
    let x = rangelist-first keys in
    record { range = x.0; there = x.1; low = λ h. omega (arith, x.2) }

pub Right-Ends :
    (lv : Level) (keys : List ℕ) (t : Option ℕ) (s : State) (d : ℕ)
    → Right lv (rangelist keys) t s d
    → Ends lv (rangelist keys) t (core s) d ⊎ (find t s.out d ≡ some (1, s.pfidx (child lv d)))
Right-Ends lv keys t s d (inl h) = inl (record { j = h.j; found = h.found; inside = h.inside })
Right-Ends lv keys t s d (inr h) = inr h

module _ (keys : List ℕ) (width : ℕ) (last : Bool) (lo hi : ℕ) (one : 1 ≤ lo)
    (over : hi < lo * 65536) (small : hi * 65536 + 65535 < 2 ^ 64)
    (rise : (pf i : ℕ)
      → pf ≤ hi
      → i + 1 < nb_digits
      → tmp_l (level pf width last) i ≤ tmp_l (level pf width last) (i + 1))
    (leaf : (pf i : ℕ)
      → tmp_l (level pf width last) i < tmp_r (level pf width last) i
      → last ≡ false)
    (f : List ℕ → Cmd State (Unit {0})) (stop : f [] ≡ pure tt)
    (more : (pf : ℕ) (pfs : List ℕ)
      → f (pf ∷ pfs) ≡ (scan (level pf width last) (rangelist keys) nb_digits >> f pfs)) where
  abbrev R : Core → List ℕ → Type 0
  R = Ready (rangelist keys) width last lo hi

  abbrev D : Core → Core → List ℕ → Type 0
  D = Done (rangelist keys) width last lo hi

  abbrev Table : Core → ℕ → State → Type 0
  Table a pf s' =
      Effect (level pf width last) (some (a.pfidx pf)) (lo * 65536) (pf * 65536) a (core s')
        nb_digits
      × Served (level pf width last) (rangelist keys) (some (a.pfidx pf)) (core s')

  table :
      (s : State) (pf : ℕ) (pfs : List ℕ)
      → R (core s) (pf ∷ pfs)
      → Returns
          (λ _ s'. Table (core s) pf s')
          (scan (level pf width last) (rangelist keys) nb_digits s)
  table s pf pfs r =
      let lv = level pf width last in
      let t = some (s.pfidx pf) in
      let bounds = r.bounds.0 in
      let pos : 1 ≤ pf = omega (arith, bounds) in
      let fits : pf * 65536 + 65535 < 2 ^ 64 = omega (arith, bounds) in
      let P : Unit {0} → State → Type 0 =
        λ _ s'. Effect lv t (lo * 65536) (pf * 65536) (core s) (core s') nb_digits in
      let Q : Unit {0} → State → Type 0 =
        λ _ s'. (d : ℕ) → d < nb_digits → Right lv (rangelist keys) t s' d in
      mono (λ u s'. P u s' × Q u s') (λ _ s'. Table (core s) pf s')
        (scan lv (rangelist keys) nb_digits s)
        (both P Q (scan lv (rangelist keys) nb_digits s)
          (scan-Effect lv (rangelist keys) t (lo * 65536) (pf * 65536)
            (λ x h e. absurd (omega (arith, e, bounds))) (λ i digit. omega (arith, bounds))
            (λ i digit. rise pf i bounds.1 digit)
            (λ i j x digit there low high ends. (omega (arith, bounds), leaf pf i (omega arith)))
            (rangelist-Reaches keys) (rangelist-Linked keys) (core s) s
            (first-Effect (rangelist keys) width last lo hi one over small (core s) pf pfs r)
            (At-first keys lv))
          (table_lem pf width last pos fits keys s (r.awaiting.0.1)))
        λ _ s' (e, right). (
          e,
          Served-first (rangelist keys) width last lo hi one over small (core s) (core s') pf pfs r
              e (λ d digit. Right-Ends lv keys t s' d (right d digit)),
        )

  -- The loop over the prefixes.
  pub each :
      (pfs : List ℕ) (s : State)
      → R (core s) pfs
      → Returns (λ _ s'. D (core s) (core s') pfs) (f pfs s)
  each [] s r =
      subst (λ (g : Cmd State (Unit {0})). Returns (λ _ s'. D (core s) (core s') []) (g s))
        (sym stop)
        (record {
          good = r.good;
          waiting = r.waiting;
          rising = r.rising_deeper;
          above = r.above;
          later = record { grows = λ t d v h. h; kept = λ x h. refl; longer = λ x l. l };
          served = tt;
        })
  each (pf ∷ pfs) s r =
      subst (λ (g : Cmd State (Unit {0})). Returns (λ _ s'. D (core s) (core s') (pf ∷ pfs)) (g s))
        (sym (more pf pfs))
        (bind (λ _ s'. Table (core s) pf s') (λ _ s'. D (core s) (core s') (pf ∷ pfs))
          (scan (level pf width last) (rangelist keys) nb_digits s) _ (table s pf pfs r)
          λ _ s1 (e, served).
            mono (λ _ s'. D (core s1) (core s') pfs) (λ _ s'. D (core s) (core s') (pf ∷ pfs))
              (f pfs s1)
              (each pfs s1 (
                next-Ready (rangelist keys) width last lo hi one over small (core s) (core s1) pf
                  pfs r e))
              λ _ s2 d.
                next-Done (rangelist keys) width last lo hi one over small (core s) (core s1) pf pfs
                  r e (core s2) served d)

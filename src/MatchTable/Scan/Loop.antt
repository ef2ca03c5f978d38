-- ===== src/MatchTable/Scan/Loop.antt =====
-- The whole loop over the digits of a table, a digit at a time.
use fat_btree.Prelude.{
  ℕ, zero, suc, ◌+◌, ◌≤◌, ◌<◌, ◌≡◌, ◌≢◌, refl, sym, ap, ◌∙◌, Bool-cases, inl, inr, ◌&&◌, Option,
  none, some, List, [], ◌∷◌, subst, arith, ltb, leb, ◌==◌, ==_self, if◌then◌else◌, get_elem?,
}
use fat_btree.Run.{Returns, mono, bind}
use fat_btree.MatchTable.{
  Range, Line, State, Level, nb_digits, tmp_l, tmp_r, child, column, flush, seek, filed, point,
  place, step, digits, scan,
}
use fat_btree.MatchTable.Find.{find, find-append_none, line, find-line, find-line_beyond, Reaches}
use fat_btree.MatchTable.Scan.{
  Right, Scanned, start, Open, Right-more, flushed-run, Scanned-flushed, Scanned-extend, seek_lem,
}

first_of : (r : List Range) → Reaches r → (x : Range) × (get_elem? r 0 ≡ some x)
first_of [] re = absurd re
first_of (x ∷ xs) re = (x, refl)

module _ (lv : Level) (ranges : List Range) (t : Option ℕ) where
  -- The prefixes of a table are different, and are not the table's own.
  module _ (apart : (d i : ℕ) → d < i → i < nb_digits → child lv d ≢ child lv i)
      (kept : (i c : ℕ) (f : ℕ → ℕ)
        → i < nb_digits
        → column lv (λ x. if x == child lv i then c else f x) ≡ column lv f) where
    filed_self : (i : ℕ) (s : State) → filed lv i s (child lv i) ≡ s.curidx
    filed_self i s = rw (==_self (child lv i)) refl

    filed_other : (x i : ℕ) (s : State) → x ≢ child lv i → filed lv i s x ≡ s.pfidx x
    filed_other x i s ne = elim (Bool-cases (x == child lv i)) [
      | inl p ↦ absurd (ne (ground arith))
      | inr p ↦ rw p refl
    ]

    Scanned-point :
        (s : State) (i : ℕ)
        → i < nb_digits
        → s.run ≡ none
        → Scanned lv ranges t s i
        → Scanned lv ranges t (point lv i s) (i + 1)
    unfolding point
    Scanned-point s i small closed sc =
        let c = column lv (filed lv i s) in
        let same : c ≡ t = kept i s.curidx s.pfidx small ∙ sc.same in
        let st : start lv ranges t s.run i ≡ i =
          ap (λ (q : Option (ℕ × ℕ)). start lv ranges t q i) closed in
        let x : Line = record {
          table = c;
          l = i;
          r = i;
          kind = 1;
          arg = filed lv i s (child lv i);
        } in
        let e : x ∷ [] ≡ line t i i 1 (filed lv i s (child lv i)) ∷ [] =
          ap (λ (a : Option ℕ). line a i i 1 (filed lv i s (child lv i)) ∷ []) same in
        let none_run : start lv ranges t (point lv i s).run (i + 1) ≡ i + 1 =
          ap (λ (q : Option (ℕ × ℕ)). start lv ranges t q (i + 1)) closed in
        record {
          same = same;
          at = sc.at;
          pending = subst (λ (q : Option (ℕ × ℕ)). Open lv ranges t q s.j (i + 1)) (sym closed) tt;
          before = λ d h. elim (Bool-cases (ltb d i)) [
            | inl p ↦
                Right-more lv ranges t s (point lv i s) d (x ∷ []) refl
                  (filed_other (child lv d) i s (apart d i (ground arith) small))
                  (sc.before d (ground (arith, st)))
            | inr p ↦
                let de : i ≡ d = ground (arith, none_run) in
                subst (λ (a : ℕ). Right lv ranges t (point lv i s) a) de
                  (inr (
                    find-append_none t s.out (x ∷ []) i (sc.beyond i (omega (arith, st)))
                    ∙ ap (λ (l : List Line). find t l i) e
                    ∙ find-line t i i 1 (filed lv i s (child lv i)) i (omega arith) (omega arith)))
          ];
          beyond = λ d h.
              find-append_none t s.out (x ∷ []) d (sc.beyond d (omega (arith, st, none_run)))
              ∙ ap (λ (l : List Line). find t l d) e
              ∙ find-line_beyond t i i 1 (filed lv i s (child lv i)) d (omega (arith, none_run));
        }

    place_lem :
        (s : State) (i : ℕ)
        → i < nb_digits
        → Scanned lv ranges t s i
        → Returns (λ _ s'. Scanned lv ranges t s' (i + 1)) (place lv ranges i s)
    unfolding place flush
    place_lem s i small sc =
        let x = sc.at.0 in
        elim (Bool-cases (leb x.l (tmp_l lv i) && leb (tmp_r lv i) x.r)) [
          | inl p ↦
              rw (sc.at.1, p)
                (Scanned-extend lv ranges t s i
                  (record { range = x; there = sc.at.1; low = ground arith; high = ground arith })
                  sc)
          | inr p ↦
              rw (sc.at.1, p)
                (Scanned-point (flush lv s) i small (flushed-run lv ranges t s.run s refl)
                  (Scanned-flushed lv ranges t s.run s i refl sc))
        ]

    module _ (re : Reaches ranges) where
      digits_lem :
          (n i : ℕ) (s : State)
          → i + n ≤ nb_digits
          → Scanned lv ranges t s i
          → Returns (λ _ s'. Scanned lv ranges t s' (i + n)) (digits lv ranges n i s)
      unfolding digits step
      digits_lem zero i s small sc =
          let e : i ≡ i + 0 = omega arith in subst (λ (k : ℕ). Scanned lv ranges t s k) e sc
      digits_lem (suc n) i s small sc =
          let e : (i + 1) + n ≡ i + suc n = omega arith in
          bind (λ _ s'. Scanned lv ranges t s' (i + 1)) (λ _ s'. Scanned lv ranges t s' (i + suc n))
            (step lv ranges i s) _
            (bind (λ _ s'. Scanned lv ranges t s' i) (λ _ s'. Scanned lv ranges t s' (i + 1))
              (seek lv ranges (tmp_l lv i) s) _
              (seek_lem lv ranges t s i (tmp_l lv i) re (omega arith) sc)
              λ _ s1 sc1. place_lem s1 i (omega arith) sc1)
            λ _ s2 sc2.
              mono (λ _ s'. Scanned lv ranges t s' ((i + 1) + n))
                (λ _ s'. Scanned lv ranges t s' (i + suc n)) (digits lv ranges n (i + 1) s2)
                (digits_lem n (i + 1) s2 (omega arith) sc2)
                λ _ s3 sc3. subst (λ (k : ℕ). Scanned lv ranges t s3 k) e sc3

      -- The loop over `n` digits runs to its end, and gives each of them a line of its table, which
      -- sends the digit to a range that has all of its keys or to the table of its prefix.
      pub scan_lem :
          (n : ℕ) (s : State)
          → n ≤ nb_digits
          → column lv s.pfidx ≡ t
          → ((d : ℕ) → find t s.out d ≡ none)
          → Returns (λ _ s'. (d : ℕ) → d < n → Right lv ranges t s' d) (scan lv ranges n s)
      unfolding scan flush
      scan_lem n s small same fresh =
          bind (λ _ s'. Scanned lv ranges t s' (0 + n))
            (λ _ s'. (d : ℕ) → d < n → Right lv ranges t s' d)
            (digits lv ranges n 0 (record s { run = none; j = 0 })) _
            (digits_lem n 0 (record s { run = none; j = 0 }) (omega arith)
              (record {
                same = same;
                at = first_of ranges re;
                pending = tt;
                before = λ d h. absurd (omega arith);
                beyond = λ d h. fresh d;
              }))
            λ _ s' sc d h.
              let done = Scanned-flushed lv ranges t s'.run s' (0 + n) refl sc in
              let closed = flushed-run lv ranges t s'.run s' refl in
              done.before d
                (omega (arith, ap (λ (q : Option (ℕ × ℕ)). start lv ranges t q (0 + n)) closed))

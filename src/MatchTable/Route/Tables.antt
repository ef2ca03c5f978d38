-- ===== src/MatchTable/Route/Tables.antt =====
-- The tables of each level, made at the widths of the source.
use fat_btree.Prelude.{
  ℕ, ◌+◌, ◌-◌, ◌^◌, ◌≤◌, ◌<◌, ◌≡◌, refl, true, false, inl, inr, none, some, List, arith, All,
  get_elem?,
}
use fat_btree.Run.{Returns, mono, both}
use fat_btree.MatchTable.{
  Range, State, rangelist, nb_digits, scan, uint64_max, table_1, table_2, table_3, table_4,
}
use fat_btree.MatchTable.Find.{find}
use fat_btree.MatchTable.Scan.{Right}
use fat_btree.MatchTable.Levels.{level_1, rangelist-Reaches, table_1_lem}
use fat_btree.MatchTable.Effect.{Core, core, Effect, All-both}
use fat_btree.MatchTable.Effect.Loop.{scan-Effect}
use fat_btree.MatchTable.Stage.{Served, Ready, Done, rangelist-Linked}
use fat_btree.MatchTable.Stage.Loop.{At-first, Right-Ends, each}
use fat_btree.MatchTable.Route.{High, ranges_from-High}

-- The numbers of the prefixes of the second, third and fourth table.
abbrev pub Bounds : ℕ → ℕ → List ℕ → Type 0
Bounds lo hi pfs = All (λ x. (lo ≤ x) × (x ≤ hi)) pfs

-- The prefixes that the first table pushes.
pub Effect-Bounds : (a c : Core) → Effect level_1 none 1 0 a c nb_digits → Bounds 1 65535 c.deeper
Effect-Bounds a c e =
    All-both (λ x. x < 0 + nb_digits) (λ x. 1 ≤ x) (λ x. (1 ≤ x) × (x ≤ 65535)) c.deeper
      (λ x h h'. (h', omega arith)) e.below e.above

module _ (keys : List ℕ) (high : All High keys) where
  abbrev pub ranges : List Range
  ranges = rangelist keys

  rangelist-High : (j : ℕ) (x : Range) → get_elem? ranges j ≡ some x → 2 ^ 48 ≤ x.r + 1
  unfolding rangelist
  rangelist-High j x e = ranges_from-High uint64_max keys j x high e

  abbrev pub First : Core → State → Type 0
  First a s = Effect level_1 none 1 0 a (core s) nb_digits × Served level_1 ranges none (core s)

  pub First-table :
      (s : State)
      → Effect level_1 none 1 0 (core s) (core s) 0
      → ((d : ℕ) → find none s.out d ≡ none)
      → Returns (λ _ s'. First (core s) s') (table_1 ranges s)
  unfolding table_1
  First-table s e fresh =
      let P : Unit {0} → State → Type 0 =
        λ _ s'. Effect level_1 none 1 0 (core s) (core s') nb_digits in
      let Q : Unit {0} → State → Type 0 =
        λ _ s'. (d : ℕ) → d < nb_digits → Right level_1 ranges none s' d in
      mono (λ u s'. P u s' × Q u s') (λ _ s'. First (core s) s') (scan level_1 ranges nb_digits s)
        (both P Q (scan level_1 ranges nb_digits s)
          (scan-Effect level_1 ranges none 1 0 (λ x h. tt) (λ i digit. omega arith)
            (λ i digit. omega arith)
            (λ i j x digit there low ends cross.
              (omega (arith, low, ends, cross, rangelist-High j x there), refl))
            (rangelist-Reaches keys) (rangelist-Linked keys) (core s) s e (At-first keys level_1))
          (table_1_lem keys s fresh))
        λ _ s' (f, right). (
          f,
          λ d digit. elim (Right-Ends level_1 keys none s' d (right d digit)) [
            | inl h ↦ inl h
            | inr h ↦
                let x = f.split d (s'.pfidx d) h in
                inr (record { down = h; listed = x.2; wide = x.1 })
          ],
        )

  pub second_tables :
      (s : State) (pfs : List ℕ)
      → Ready ranges (2 ^ 32) false 1 65535 (core s) pfs
      → Returns
          (λ _ s'. Done ranges (2 ^ 32) false 1 65535 (core s) (core s') pfs)
          (table_2 ranges pfs s)
  unfolding table_2
  second_tables s pfs r =
      each keys (2 ^ 32) false 1 65535 (omega arith) (omega arith) (omega arith)
        (λ pf i h digit. omega arith) (λ pf i h. refl) (table_2 ranges) refl (λ pf rest. refl) pfs s
        r

  pub third_tables :
      (s : State) (pfs : List ℕ)
      → Ready ranges (2 ^ 16) false 65536 (2 ^ 32 - 1) (core s) pfs
      → Returns
          (λ _ s'. Done ranges (2 ^ 16) false 65536 (2 ^ 32 - 1) (core s) (core s') pfs)
          (table_3 ranges pfs s)
  unfolding table_3
  third_tables s pfs r =
      each keys (2 ^ 16) false 65536 (2 ^ 32 - 1) (omega arith) (omega arith) (omega arith)
        (λ pf i h digit. omega arith) (λ pf i h. refl) (table_3 ranges) refl (λ pf rest. refl) pfs s
        r

  pub fourth_tables :
      (s : State) (pfs : List ℕ)
      → Ready ranges 1 true (2 ^ 32) (2 ^ 48 - 1) (core s) pfs
      → Returns
          (λ _ s'. Done ranges 1 true (2 ^ 32) (2 ^ 48 - 1) (core s) (core s') pfs)
          (table_4 ranges pfs s)
  unfolding table_4
  fourth_tables s pfs r =
      each keys 1 true (2 ^ 32) (2 ^ 48 - 1) (omega arith) (omega arith) (omega arith)
        (λ pf i h digit. omega arith) (λ pf i h. absurd (omega arith)) (table_4 ranges) refl
        (λ pf rest. refl) pfs s r

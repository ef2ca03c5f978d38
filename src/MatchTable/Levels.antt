-- ===== src/MatchTable/Levels.antt =====
-- The tables of the four levels.
use fat_btree.Prelude.{
  ℕ, ◌+◌, ◌*◌, ◌^◌, ◌≤◌, ◌<◌, ◌≡◌, ◌≢◌, refl, false, Bool, none, some, List, arith, ◌==◌,
  if◌then◌else◌,
}
use fat_btree.Run.{Returns}
use fat_btree.MatchTable.{
  State, Level, rangelist, uint64_max, nb_digits, child, column, scan, table_1,
}
use fat_btree.MatchTable.Find.{find, Reaches, ranges_from-Reaches}
use fat_btree.MatchTable.Scan.{Right}
use fat_btree.MatchTable.Scan.Loop.{scan_lem}

pub rangelist-Reaches : (keys : List ℕ) → Reaches (rangelist keys)
unfolding rangelist
rangelist-Reaches keys = ranges_from-Reaches uint64_max keys

abbrev pub level_1 : Level
level_1 = record { prefix = none; width = 2 ^ 48; last = false }

-- The first table, for any keys: it is made, and each of the 65536 digits has a line, which sends it to
-- a range that has all keys of the digit, or to the table of its prefix.
pub table_1_lem :
    (keys : List ℕ) (s : State)
    → ((d : ℕ) → find none s.out d ≡ none)
    → Returns
        (λ _ s'. (d : ℕ) → d < nb_digits → Right level_1 (rangelist keys) none s' d)
        (table_1 (rangelist keys) s)
unfolding table_1
table_1_lem keys s fresh =
    scan_lem level_1 (rangelist keys) none (λ d i h small e. absurd (omega (arith, e)))
      (λ i c f small. refl) (rangelist-Reaches keys) nb_digits s (omega arith) refl fresh

-- A table of one of the next levels.
abbrev pub level : ℕ → ℕ → Bool → Level
level pf width last = record { prefix = some pf; width = width; last = last }

module _ (pf width : ℕ) (last : Bool) (pos : 1 ≤ pf) (small : pf * 65536 + 65535 < 2 ^ 64) where
  apart :
      (d i : ℕ)
      → d < i
      → i < nb_digits
      → child (level pf width last) d ≢ child (level pf width last) i
  apart d i h digit e = absurd (omega (arith, e))

  kept :
      (i c : ℕ) (f : ℕ → ℕ)
      → i < nb_digits
      → column (level pf width last) (λ x. if x == child (level pf width last) i then c else f x)
        ≡ column (level pf width last) f
  kept i c f digit = ground arith

  -- The table of a prefix other than 0 is made, and each of the 65536 digits has a line in it, with the
  -- number that the prefix had been given; it sends the digit to a range that has all of its keys, or to
  -- the table of the longer prefix.
  pub table_lem :
      (keys : List ℕ) (s : State)
      → ((d : ℕ) → find (some (s.pfidx pf)) s.out d ≡ none)
      → Returns
          (λ _ s'.
            (d : ℕ)
            → d < nb_digits
            → Right (level pf width last) (rangelist keys) (some (s.pfidx pf)) s' d)
          (scan (level pf width last) (rangelist keys) nb_digits s)
  table_lem keys s fresh =
      scan_lem (level pf width last) (rangelist keys) (some (s.pfidx pf)) apart kept
        (rangelist-Reaches keys) nb_digits s (omega arith) refl fresh

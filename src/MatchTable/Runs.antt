-- ===== src/MatchTable/Runs.antt =====
-- The tables at concrete keys.
use fat_btree.Prelude.{
  ℕ, ◌+◌, ◌*◌, ◌^◌, ◌<◌, ◌≡◌, refl, none, some, false, List, [], ◌∷◌, arith, ◌==◌, if◌then◌else◌,
}
use fat_btree.Run.{Returns}
use fat_btree.MatchTable.{
  State, uint64_max, rangelist, config_table, table_1, nb_digits, column, filed,
}
use fat_btree.MatchTable.Levels.{level_1, level, table_1_lem}
use fat_btree.MatchTable.Find.{find}
use fat_btree.MatchTable.Route.{Routed, route}
use fat_btree.MatchTable.Route.Keys.{rank, config_table_lem}
use fat_btree.MatchTable.Scan.{Right}

abbrev keys : List ℕ
keys = 2 ^ 50 ∷ 3 * 2 ^ 60 ∷ []

-- The first range begins at 0: UINT64_MAX + 1 wraps round.
ranges_of_keys :
    rangelist keys
    ≡ record { l = 0; r = 2 ^ 50 }
      ∷ record { l = 2 ^ 50 + 1; r = 3 * 2 ^ 60 }
      ∷ record { l = 3 * 2 ^ 60 + 1; r = uint64_max }
      ∷ []
unfolding rangelist
ranges_of_keys = refl

abbrev begin : State
begin = record { pfidx = λ x. 0; curidx = 3; deeper = []; out = []; run = none; j = 0 }

table_1_example :
    Returns
      (λ _ s'. (d : ℕ) → d < nb_digits → Right level_1 (rangelist keys) none s' d)
      (table_1 (rangelist keys) begin)
unfolding find
table_1_example = table_1_lem keys begin (λ d. refl)

-- The digit 4 of the first table has the number 3.
abbrev later : State
later = record begin { pfidx = λ x. if x == 4 then 3 else 0; curidx = 4 }

-- The prefix 0 and its digit 0 have the same key in pfidx: with the digit's number, the lines of the
-- prefix change their table.
zero_moves : column (level 0 (2 ^ 32) false) (filed (level 0 (2 ^ 32) false) 0 later) ≡ some 4
zero_moves = refl

config_table_example :
    Returns
      (λ _ s.
        (key : ℕ)
        → key < 2 ^ 64
        → (route s.out key ≡ some (rank keys key)) × Routed (rangelist keys) key (route s.out key))
      (config_table keys)
config_table_example =
    config_table_lem keys (omega arith, (omega arith, tt)) ((omega arith, tt), (tt, tt))
      (omega arith, (omega arith, tt))

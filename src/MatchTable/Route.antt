-- ===== src/MatchTable/Route.antt =====
-- The four tables together: the way of a key through them, 16 bits at a time, ends at a range that has
-- the key.
pub mod Keys
pub mod Tables
pub mod Ways
use fat_btree.Prelude.{
  ℕ, zero, suc, ◌+◌, ◌*◌, ◌/◌, ◌%◌, ◌^◌, ◌≤◌, ◌<◌, ◌≡◌, ◌≢◌, refl, sym, ap, ◌∙◌, subst, Bool, true,
  false, Bool-cases, ◌⊎◌, inl, inr, Option, none, some, List, [], ◌∷◌, arith, All, length,
  get_elem?,
}
use fat_btree.Run.{Cmd, Run, Returns, mono, bind, both, pure, and_then}
use fat_btree.MatchTable.{
  Range, Line, State, Level, rangelist, ranges_from, nb_digits, tmp_l, tmp_r, child, scan,
  uint64_max, table_1, table_2, table_3, table_4, take_deeper, config_table,
}
use fat_btree.MatchTable.Find.{find}
use fat_btree.MatchTable.Scan.{Right}
use fat_btree.MatchTable.Levels.{level_1, level, rangelist-Reaches, table_1_lem}
use fat_btree.MatchTable.Effect.{Core, core, Good, Awaiting, Effect, At, Listed, Rising, All-weaken}
use fat_btree.MatchTable.Effect.Loop.{scan-Effect}
use fat_btree.MatchTable.Stage.{
  Ends, Sent, Served, Later, Ready, Done, Listed-All, Served-Later, rangelist-Linked,
}
use fat_btree.MatchTable.Stage.Loop.{At-first, Right-Ends, each}

-- The range of the line that a table has for a digit, or that of the tables it goes on to.
abbrev pub onward : Option (ℕ × ℕ) → (ℕ → Option ℕ) → Option ℕ
onward none next = none
onward (some (zero, j)) next = some j
onward (some (suc k, a)) next = next a

abbrev pub ends_here : Option (ℕ × ℕ) → Option ℕ
ends_here none = none
ends_here (some (zero, j)) = some j
ends_here (some (suc k, a)) = none

-- The way of a key: its upper 16 bits are looked up in the first table, and the next 16 bits in the
-- table that this names, four times at most.
unfoldable pub route : List Line → ℕ → Option ℕ
unfolding find
route out key = onward (find none out (key / 2 ^ 48)) λ a.
    onward (find (some a) out (key / 2 ^ 32 % 65536)) λ b.
      onward (find (some b) out (key / 2 ^ 16 % 65536))
        λ c. ends_here (find (some c) out (key % 65536))

-- The keys that do not begin with 16 bits of 0.
abbrev pub High : ℕ → Type 0
High k = 2 ^ 48 ≤ k + 1

pub ranges_from-High :
    (prev : ℕ) (keys : List ℕ) (j : ℕ) (x : Range)
    → All High keys
    → get_elem? (ranges_from prev keys) j ≡ some x
    → 2 ^ 48 ≤ x.r + 1
unfolding ranges_from
ranges_from-High prev [] zero x h e = ground (arith, h, e)
ranges_from-High prev [] (suc j) x h e = absurd (ground arith)
ranges_from-High prev (k ∷ keys) zero x h e = ground (arith, h, e)
ranges_from-High prev (k ∷ keys) (suc j) x h e = ranges_from-High k keys j x h.1 e

-- A range that has the key.
pub record Routed (ranges : List Range) (key : ℕ) (o : Option ℕ) : Type 0 where
  pub j : ℕ
  pub found : o ≡ some j
  pub range : Range
  pub there : get_elem? ranges j ≡ some range
  pub low : range.l ≤ key
  pub high : key ≤ range.r

abbrev pub Grows : Core → Core → Type 0
Grows a c = (t : Option ℕ) (d : ℕ) (v : ℕ × ℕ) → find t a.out d ≡ some v → find t c.out d ≡ some v

module _ (ranges : List Range) (key : ℕ) (z : Core) where
  module _ (lv : Level) (t : Option ℕ) (c : Core) (d : ℕ) (grows : Grows c z)
      (served : Served lv ranges t c) (digit : d < nb_digits) (low : tmp_l lv d ≤ key)
      (high : key ≤ tmp_r lv d) where
    here :
        (o : Option (ℕ × ℕ) → Option ℕ)
        → ((j : ℕ) → o (some (0, j)) ≡ some j)
        → Ends lv ranges t c d
        → Routed ranges key (o (find t z.out d))
    here o same e = record {
      j = e.j;
      found = ap o (grows t d (0, e.j) e.found) ∙ same e.j;
      range = e.inside.range;
      there = e.inside.there;
      low = omega (arith, e.inside.low);
      high = omega (arith, e.inside.high);
    }

    pub hop :
        (next : ℕ → Option ℕ)
        → (Sent lv ranges t c d → Routed ranges key (next (c.pfidx (child lv d))))
        → Routed ranges key (onward (find t z.out d) next)
    hop next goes = elim (served d digit) [
      | inl e ↦ here (λ o. onward o next) (λ j. refl) e
      | inr e ↦
          subst (λ (o : Option (ℕ × ℕ)). Routed ranges key (onward o next))
            (sym (grows t d (1, c.pfidx (child lv d)) e.down)) (goes e)
    ]

    pub arrive : (Sent lv ranges t c d → ⊥) → Routed ranges key (ends_here (find t z.out d))
    arrive never = elim (served d digit) [
      | inl e ↦ here ends_here (λ j. refl) e
      | inr e ↦ absurd (never e)
    ]

-- The lists of prefixes are taken over, empty, by the next level.
abbrev pub reset : Core → Core
reset c = record c { deeper = [] }

module _ (ranges : List Range) (width : ℕ) (last : Bool) (lo hi : ℕ) where
  pub ready :
      (c : Core)
      → Good c
      → All (Awaiting c) c.deeper
      → All (λ x. (lo ≤ x) × (x ≤ hi)) c.deeper
      → Rising c.deeper
      → Ready ranges width last lo hi (reset c) c.deeper
  ready c good waiting bounds rising = record {
    good = record { once = good.once; given = good.given; fresh = good.fresh };
    awaiting = waiting;
    rising = rising;
    bounds = bounds;
    waiting = tt;
    rising_deeper = tt;
    below = All-weaken (λ x. (lo ≤ x) × (x ≤ hi)) (λ x. Unit) c.deeper (λ x h. tt) bounds;
    above = tt;
  }

  pub Served-at :
      (a c : Core) (p : ℕ) (pfs : List ℕ)
      → hi < lo * 65536
      → All (λ x. (lo ≤ x) × (x ≤ hi)) pfs
      → Done ranges width last lo hi a c pfs
      → Listed p pfs
      → Served (level p width last) ranges (some (a.pfidx p)) c
  Served-at a c p pfs over bounds done l =
      let b = Listed-All (λ x. (lo ≤ x) × (x ≤ hi)) p pfs bounds l in
      let same : c.pfidx p ≡ a.pfidx p = done.later.kept p (
        All-weaken (λ x. (lo ≤ x) × (x ≤ hi)) (λ x. p < x * 65536) pfs (λ x h. omega (arith, b))
          bounds) in
      subst (λ (n : ℕ). Served (level p width last) ranges (some n) c) same
        (Listed-All (λ x. Served (level x width last) ranges (some (c.pfidx x)) c) p pfs done.served
          l)

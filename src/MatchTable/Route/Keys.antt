-- ===== src/MatchTable/Route/Keys.antt =====
-- All four tables are made, and every key finds its way through them.
use fat_btree.Prelude.{
  ℕ, zero, suc, ◌+◌, ◌-◌, ◌^◌, ◌≤◌, ◌<◌, ◌≡◌, refl, ap, ◌∙◌, true, false, none, some, List, [], ◌∷◌,
  arith, All, length, get_elem?, ltb, if◌then◌else◌,
}
use fat_btree.Run.{Returns, mono, bind}
use fat_btree.MatchTable.{
  Range, State, rangelist, ranges_from, uint64_max, table_1, table_2, table_3, table_4,
  config_table,
}
use fat_btree.MatchTable.Find.{find}
use fat_btree.MatchTable.Levels.{level_1}
use fat_btree.MatchTable.Effect.{core, Effect, Rising}
use fat_btree.MatchTable.Stage.{Done}
use fat_btree.MatchTable.Route.{route, High, Routed, reset, ready}
use fat_btree.MatchTable.Route.Tables.{
  Effect-Bounds, First, First-table, second_tables, third_tables, fourth_tables,
}
use fat_btree.MatchTable.Route.Ways.{way_1}

length-ranges_from : (prev : ℕ) (keys : List ℕ) → 1 ≤ length (ranges_from prev keys)
unfolding ranges_from
length-ranges_from prev [] = omega arith
length-ranges_from prev (k ∷ keys) = omega arith

length-rangelist : (keys : List ℕ) → 1 ≤ length (rangelist keys)
unfolding rangelist
length-rangelist keys = length-ranges_from uint64_max keys

-- The number of the sorted keys below a key: the index of the range that ends at the first key that is
-- not.
unfoldable pub rank : List ℕ → ℕ → ℕ
rank [] key = 0
rank (k ∷ keys) key = let rest = rank keys key in if ltb k key then rest + 1 else 0

abbrev pub Fits : ℕ → Type 0
Fits k = k + 1 < 2 ^ 64

-- The ranges behind a key begin behind it.
ranges_from-above :
    (prev b : ℕ) (keys : List ℕ) (j : ℕ) (x : Range)
    → b ≤ prev
    → Fits prev
    → All (λ k. b < k) keys
    → All Fits keys
    → get_elem? (ranges_from prev keys) j ≡ some x
    → b < x.l
unfolding ranges_from
ranges_from-above prev b [] zero x le fit above fits e = ground (arith, e)
ranges_from-above prev b [] (suc j) x le fit above fits e = absurd (ground arith)
ranges_from-above prev b (k ∷ keys) zero x le fit above fits e = ground (arith, e)
ranges_from-above prev b (k ∷ keys) (suc j) x le fit (h, above) (f, fits) e =
    ranges_from-above k b keys j x (omega arith) f above fits e

ranges_from-rank :
    (prev : ℕ) (keys : List ℕ) (j : ℕ) (x : Range) (key : ℕ)
    → Rising keys
    → All Fits keys
    → get_elem? (ranges_from prev keys) j ≡ some x
    → x.l ≤ key
    → key ≤ x.r
    → j ≡ rank keys key
unfolding ranges_from rank
ranges_from-rank prev [] zero x key r f e low high = refl
ranges_from-rank prev [] (suc j) x key r f e low high = absurd (ground arith)
ranges_from-rank prev (k ∷ keys) zero x key r f e low high = ground (arith, e)
ranges_from-rank prev (k ∷ keys) (suc j) x key (above, r) (f, fits) e low high =
    let behind = ranges_from-above k k keys j x (omega arith) f above fits e in
    let rest = ranges_from-rank k keys j x key r fits e low high in ground (arith, behind, rest)

module _ (keys : List ℕ) (high : All High keys) where
  abbrev ranges : List Range
  ranges = rangelist keys

  abbrev start : State
  start = record {
    pfidx = λ x. 0;
    curidx = length ranges;
    deeper = [];
    out = [];
    run = none;
    j = 0;
  }

  start-Effect : Effect level_1 none 1 0 (core start) (core start) 0
  unfolding find
  start-Effect = record {
    same = refl;
    good = record {
      once = λ x y n q. absurd (n refl);
      given = λ x. omega (arith, length-rangelist keys);
      fresh = λ n d h. refl;
    };
    grows = λ t d v h. h;
    others = λ t d ne h. h;
    kept = λ x h. refl;
    split = λ d k h. absurd (ground arith);
    longer = λ x l. l;
    waiting = tt;
    rising = tt;
    below = tt;
    above = tt;
  }

  config_table-Routed :
      Returns
        (λ _ s. (key : ℕ) → key < 2 ^ 64 → Routed (rangelist keys) key (route s.out key))
        (config_table keys)
  unfolding config_table find
  config_table-Routed =
      let P : Unit {0} → State → Type 0 =
        λ _ s. (key : ℕ) → key < 2 ^ 64 → Routed (rangelist keys) key (route s.out key) in
      bind (λ _ s. First keys high (core start) s) P (table_1 ranges start) _
        (First-table keys high start start-Effect (λ d. refl))
        λ _ s1 (e, served).
          let c1 = core s1 in
          let b2 = Effect-Bounds (core start) c1 e in
          bind (λ _ s. Done ranges (2 ^ 32) false 1 65535 (reset c1) (core s) s1.deeper) P
            (table_2 ranges s1.deeper (record s1 { deeper = [] })) _
            (second_tables keys high (record s1 { deeper = [] }) s1.deeper
              (ready ranges (2 ^ 32) false 1 65535 c1 e.good e.waiting b2 e.rising))
            λ _ s2 d2.
              let c2 = core s2 in
              bind
                (λ _ s. Done ranges (2 ^ 16) false 65536 (2 ^ 32 - 1) (reset c2) (core s) s2.deeper)
                P (table_3 ranges s2.deeper (record s2 { deeper = [] })) _
                (third_tables keys high (record s2 { deeper = [] }) s2.deeper
                  (ready ranges (2 ^ 16) false 65536 (2 ^ 32 - 1) c2 d2.good d2.waiting d2.above
                    d2.rising))
                λ _ s3 d3.
                  let c3 = core s3 in
                  mono
                    (λ _ s. Done ranges 1 true (2 ^ 32) (2 ^ 48 - 1) (reset c3) (core s) s3.deeper)
                    P (table_4 ranges s3.deeper (record s3 { deeper = [] }))
                    (fourth_tables keys high (record s3 { deeper = [] }) s3.deeper
                      (ready ranges 1 true (2 ^ 32) (2 ^ 48 - 1) c3 d3.good d3.waiting d3.above
                        d3.rising))
                    λ _ s4 d4 key small.
                      way_1 keys c1 c2 c3 (core s4)
                        (record {
                          served = served;
                          second = b2;
                          done_2 = d2;
                          third = d2.above;
                          done_3 = d3;
                          fourth = d3.above;
                          done_4 = d4;
                        })
                        key small

  -- For rising keys below UINT64_MAX that do not begin with 16 bits of 0, the program ends without a fault,
  -- with tables by which the way of every 64-bit key, through four of them at most, ends at the index of
  -- the first of the keys that is not smaller, or at the number of the keys when all are smaller; and the
  -- range with this index has the key.
  pub config_table_lem :
      Rising keys
      → All Fits keys
      → Returns
          (λ _ s.
            (key : ℕ)
            → key < 2 ^ 64
            → (route s.out key ≡ some (rank keys key))
              × Routed (rangelist keys) key (route s.out key))
          (config_table keys)
  unfolding rangelist
  config_table_lem rising fits =
      mono (λ _ s. (key : ℕ) → key < 2 ^ 64 → Routed (rangelist keys) key (route s.out key)) _
        (config_table keys) config_table-Routed
        λ _ s routed key small.
          let r = routed key small in
          (
            r.found
                ∙ ap some (
                    ranges_from-rank uint64_max keys r.j r.range key rising fits r.there r.low
                      r.high),
            r,
          )

-- ===== src/MatchTable/Route/Ways.antt =====
-- The way of a key through the tables of the four levels.
use fat_btree.Prelude.{
  ℕ, ◌-◌, ◌/◌, ◌%◌, ◌^◌, ◌<◌, ◌≡◌, sym, subst, true, false, Option, none, some, List, arith,
}
use fat_btree.MatchTable.{Range, rangelist, child}
use fat_btree.MatchTable.Find.{find}
use fat_btree.MatchTable.Levels.{level_1, level}
use fat_btree.MatchTable.Effect.{Core, Listed}
use fat_btree.MatchTable.Stage.{Served, Done}
use fat_btree.MatchTable.Route.{
  route, onward, ends_here, Routed, Grows, hop, arrive, reset, Served-at,
}
use fat_btree.MatchTable.Route.Tables.{Bounds}

module _ (keys : List ℕ) where
  abbrev ranges : List Range
  ranges = rangelist keys

  -- What is known behind each level.
  pub record AllLevels (c1 c2 c3 c4 : Core) : Type 0 where
    pub served : Served level_1 ranges none c1
    pub second : Bounds 1 65535 c1.deeper
    pub done_2 : Done ranges (2 ^ 32) false 1 65535 (reset c1) c2 c1.deeper
    pub third : Bounds 65536 (2 ^ 32 - 1) c2.deeper
    pub done_3 : Done ranges (2 ^ 16) false 65536 (2 ^ 32 - 1) (reset c2) c3 c2.deeper
    pub fourth : Bounds (2 ^ 32) (2 ^ 48 - 1) c3.deeper
    pub done_4 : Done ranges 1 true (2 ^ 32) (2 ^ 48 - 1) (reset c3) c4 c3.deeper

  module _ (c1 c2 c3 c4 : Core) (a : AllLevels c1 c2 c3 c4) (key : ℕ) (small : key < 2 ^ 64) where
    Grows-3 : Grows c3 c4
    Grows-3 t d v h = a.done_4.later.grows t d v h

    Grows-2 : Grows c2 c4
    Grows-2 t d v h = Grows-3 t d v (a.done_3.later.grows t d v h)

    Grows-1 : Grows c1 c4
    Grows-1 t d v h = Grows-2 t d v (a.done_2.later.grows t d v h)

    way_4 :
        Listed (key / 2 ^ 16) c3.deeper
        → Routed ranges key (ends_here (find (some (c3.pfidx (key / 2 ^ 16))) c4.out (key % 65536)))
    way_4 l =
        let p = key / 2 ^ 16 in
        arrive ranges key c4 (level p 1 true) (some (c3.pfidx p)) c4 (key % 65536) (λ t d v h. h)
          (Served-at ranges 1 true (2 ^ 32) (2 ^ 48 - 1) (reset c3) c4 p c3.deeper (omega arith)
            a.fourth a.done_4 l)
          (omega arith) (omega arith) (omega arith) (λ e. absurd (omega (arith, e.wide)))

    way_3 :
        Listed (key / 2 ^ 32) c2.deeper
        → Routed ranges key (
            onward
              (find (some (c2.pfidx (key / 2 ^ 32))) c4.out (key / 2 ^ 16 % 65536))
              λ c. ends_here (find (some c) c4.out (key % 65536)))
    way_3 l =
        let p = key / 2 ^ 32 in
        let d = key / 2 ^ 16 % 65536 in
        let same : child (level p (2 ^ 16) false) d ≡ key / 2 ^ 16 = omega arith in
        let next : ℕ → Option ℕ = λ c. ends_here (find (some c) c4.out (key % 65536)) in
        hop ranges key c4 (level p (2 ^ 16) false) (some (c2.pfidx p)) c3 d Grows-3
          (Served-at ranges (2 ^ 16) false 65536 (2 ^ 32 - 1) (reset c2) c3 p c2.deeper
            (omega arith) a.third a.done_3 l)
          (omega arith) (omega arith) (omega arith) next
          λ e.
            subst (λ (x : ℕ). Routed ranges key (next (c3.pfidx x))) (sym same)
              (way_4 (subst (λ (x : ℕ). Listed x c3.deeper) same e.listed))

    way_2 :
        Listed (key / 2 ^ 48) c1.deeper
        → Routed ranges key (
            onward (find (some (c1.pfidx (key / 2 ^ 48))) c4.out (key / 2 ^ 32 % 65536)) λ b.
              onward
                (find (some b) c4.out (key / 2 ^ 16 % 65536))
                λ c. ends_here (find (some c) c4.out (key % 65536)))
    way_2 l =
        let p = key / 2 ^ 48 in
        let d = key / 2 ^ 32 % 65536 in
        let same : child (level p (2 ^ 32) false) d ≡ key / 2 ^ 32 = omega arith in
        let next : ℕ → Option ℕ = λ b.
          onward (find (some b) c4.out (key / 2 ^ 16 % 65536))
            λ c. ends_here (find (some c) c4.out (key % 65536)) in
        hop ranges key c4 (level p (2 ^ 32) false) (some (c1.pfidx p)) c2 d Grows-2
          (Served-at ranges (2 ^ 32) false 1 65535 (reset c1) c2 p c1.deeper (omega arith) a.second
            a.done_2 l)
          (omega arith) (omega arith) (omega arith) next
          λ e.
            subst (λ (x : ℕ). Routed ranges key (next (c2.pfidx x))) (sym same)
              (way_3 (subst (λ (x : ℕ). Listed x c2.deeper) same e.listed))

    pub way_1 : Routed ranges key (route c4.out key)
    unfolding route
    way_1 =
        hop ranges key c4 level_1 none c1 (key / 2 ^ 48) Grows-1 a.served (omega arith)
          (omega arith) (omega arith)
          (λ x. onward (find (some x) c4.out (key / 2 ^ 32 % 65536)) λ b.
            onward (find (some b) c4.out (key / 2 ^ 16 % 65536))
              λ c. ends_here (find (some c) c4.out (key % 65536)))
          λ e. way_2 e.listed

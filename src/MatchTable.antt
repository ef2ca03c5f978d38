-- ===== src/MatchTable.antt =====
-- RDMA/P4/FBT_RDMA/control_plane/config_table.cpp, which turns the sorted keys of a fat node into four
-- match tables: the first is for the upper 16 bits of a key, the next ones for 16 bits each. A line of
-- a table sends the digits from l to r to a range of keys (kind 0), or the digit l to a table of the
-- next level (kind 1). The source writes the loop over the digits four times, with other shifts.
pub mod Effect
pub mod Find
pub mod Levels
pub mod Scan
pub mod Route
mod Runs
pub mod Stage
use fat_btree.Run.{Run, Cmd, ok, and_then, ◌>>=◌, ◌>>◌, pure, need}
use fat_btree.Prelude.{
  ℕ, zero, suc, ◌+◌, ◌-◌, ◌*◌, ◌%◌, ◌^◌, Bool, true, false, ◌&&◌, Option, none, some, List, [], ◌∷◌,
  ◌++◌, ltb, leb, ◌==◌, if◌then◌else◌, length, get_elem?, drop,
}

-- class range
pub record Range : Type 0 where
  pub l : ℕ
  pub r : ℕ

abbrev pub uint64_max : ℕ
uint64_max = 2 ^ 64 - 1

-- The ranges that end at the keys, from the one that begins behind `prev`.
unfoldable pub ranges_from : ℕ → List ℕ → List Range
ranges_from prev [] = record { l = (prev + 1) % 2 ^ 64; r = uint64_max } ∷ []
ranges_from prev (k ∷ keys) = record { l = (prev + 1) % 2 ^ 64; r = k } ∷ ranges_from k keys

-- rangelist; keylist has UINT64_MAX in front of the keys.
unfoldable pub rangelist : List ℕ → List Range
unfolding ranges_from
rangelist keys = ranges_from uint64_max keys

-- A line of the output. The first table's lines have no table number.
pub record Line : Type 0 where
  pub table : Option ℕ
  pub l : ℕ
  pub r : ℕ
  pub kind : ℕ
  pub arg : ℕ

-- The maps and vectors of main, and the variables of a loop over the digits. `run` is l and r, which
-- are -1 together. `pfidx` gives 0 for a key that it does not have, as operator[] does.
pub record State : Type 0 where
  pub pfidx : ℕ → ℕ
  pub curidx : ℕ
  pub deeper : List ℕ
  pub out : List Line
  pub run : Option (ℕ × ℕ)
  pub j : ℕ

-- One of the four copies: the prefix, if the table has one, and the number of keys for a digit, which
-- is 2 to the shift. The last copy pushes nothing on a vector of prefixes.
pub record Level : Type 0 where
  pub prefix : Option ℕ
  pub width : ℕ
  pub last : Bool

-- The first range from the j-th on that does not end before `lo`.
unfoldable pub advance : List Range → ℕ → ℕ → Option ℕ
advance [] j lo = none
advance (x ∷ xs) j lo = let rest = advance xs (j + 1) lo in if ltb x.r lo then rest else some j

module _ (lv : Level) where
  -- tmp_l and tmp_r
  abbrev pub base : Option ℕ → ℕ
  base none = 0
  base (some pf) = pf * (65536 * lv.width)

  abbrev pub tmp_l : ℕ → ℕ
  tmp_l i = (base lv.prefix + i * lv.width) % 2 ^ 64

  abbrev pub tmp_r : ℕ → ℕ
  tmp_r i = (tmp_l i + (lv.width - 1)) % 2 ^ 64

  -- i, or (pf << 16) + i
  abbrev pub child_of : Option ℕ → ℕ → ℕ
  child_of none i = i
  child_of (some pf) i = (pf * 65536 + i) % 2 ^ 64

  abbrev pub child : ℕ → ℕ
  child = child_of lv.prefix

  -- What a line begins with: pfidx[pf].
  abbrev pub column_of : Option ℕ → (ℕ → ℕ) → Option ℕ
  column_of none pfidx = none
  column_of (some pf) pfidx = some (pfidx pf)

  abbrev pub column : (ℕ → ℕ) → Option ℕ
  column = column_of lv.prefix

  -- if (l != -1 && r != -1) { cout << ...; l = -1; r = -1; }
  abbrev pub flushed : Option (ℕ × ℕ) → State → State
  flushed none s = s
  flushed (some (l, r)) s = record s {
    out = s.out ++ (record { table = column s.pfidx; l = l; r = r; kind = 0; arg = s.j } ∷ []);
    run = none;
  }

  unfoldable pub flush : State → State
  flush s = flushed s.run s

  unfoldable pub seek : List Range → ℕ → Cmd State (Unit {0})
  unfolding flush advance
  seek ranges lo s = and_then (need (get_elem? ranges s.j) s) λ x s1.
      if ltb x.r lo
      then and_then (need (advance (drop s1.j ranges) s1.j lo) s1)
          (λ j s2. ok tt (record (flush s2) { j = j }))
      else ok tt s1

  -- The digit belongs to the range.
  abbrev pub extended : Option (ℕ × ℕ) → ℕ → Option (ℕ × ℕ)
  extended none i = some (i, i)
  extended (some (l, r)) i = some (l, i)

  unfoldable pub extend : ℕ → State → State
  extend i s = record s { run = extended s.run i }

  -- The digit has a table of its own.
  abbrev pub filed : ℕ → State → ℕ → ℕ
  filed i s x = if x == child i then s.curidx else s.pfidx x

  unfoldable pub point : ℕ → State → State
  point i s = record s {
    pfidx = filed i s;
    curidx = s.curidx + 1;
    deeper = if lv.last then s.deeper else s.deeper ++ (child i ∷ []);
    out =
        s.out
        ++ (record { table = column (filed i s); l = i; r = i; kind = 1; arg = filed i s (child i) }
            ∷ []);
  }

  -- The body of the loop behind the search for the range.
  unfoldable pub place : List Range → ℕ → Cmd State (Unit {0})
  unfolding flush extend point
  place ranges i s = and_then (need (get_elem? ranges s.j) s) λ x s1.
      if leb x.l (tmp_l i) && leb (tmp_r i) x.r
      then ok tt (extend i s1)
      else ok tt (point i (flush s1))

  unfoldable pub step : List Range → ℕ → Cmd State (Unit {0})
  unfolding seek place
  step ranges i = do seek ranges (tmp_l i); place ranges i

  -- The loop, from the digit `i` on.
  unfoldable pub digits : List Range → ℕ → ℕ → Cmd State (Unit {0})
  unfolding step
  digits ranges zero i = pure tt
  digits ranges (suc n) i = do step ranges i; digits ranges n (i + 1)

  -- int l = -1, r = -1, j = 0; the loop, and the last line.
  unfoldable pub scan : List Range → ℕ → Cmd State (Unit {0})
  unfolding digits flush
  scan ranges n s =
      and_then (digits ranges n 0 (record s { run = none; j = 0 })) λ _ s'. ok tt (flush s')

-- UINT16_MAX and the digits below it
abbrev pub nb_digits : ℕ
nb_digits = 65536

unfoldable pub table_1 : List Range → Cmd State (Unit {0})
unfolding scan
table_1 ranges = scan (record { prefix = none; width = 2 ^ 48; last = false }) ranges nb_digits

unfoldable pub table_2 : List Range → List ℕ → Cmd State (Unit {0})
unfolding scan
table_2 ranges [] = pure tt
table_2 ranges (pf ∷ pfs) = do
  scan (record { prefix = some pf; width = 2 ^ 32; last = false }) ranges nb_digits
  table_2 ranges pfs

unfoldable pub table_3 : List Range → List ℕ → Cmd State (Unit {0})
unfolding scan
table_3 ranges [] = pure tt
table_3 ranges (pf ∷ pfs) = do
  scan (record { prefix = some pf; width = 2 ^ 16; last = false }) ranges nb_digits
  table_3 ranges pfs

unfoldable pub table_4 : List Range → List ℕ → Cmd State (Unit {0})
unfolding scan
table_4 ranges [] = pure tt
table_4 ranges (pf ∷ pfs) = do
  scan (record { prefix = some pf; width = 1; last = true }) ranges nb_digits
  table_4 ranges pfs

-- table2, table3 or table4 of what has been pushed, the next of them empty.
abbrev pub take_deeper : Cmd State (List ℕ)
take_deeper s = ok s.deeper (record s { deeper = [] })

-- main, with the keys that it reads
unfoldable pub config_table : List ℕ → Run State (Unit {0})
unfolding rangelist table_1 table_2 table_3 table_4
config_table keys =
    let ranges = rangelist keys in
    let start : State = record {
      pfidx = λ x. 0;
      curidx = length ranges;
      deeper = [];
      out = [];
      run = none;
      j = 0;
    } in
    and_then (table_1 ranges start) λ _ s1. and_then (take_deeper s1) λ table2 t1.
      and_then (table_2 ranges table2 t1) λ _ s2. and_then (take_deeper s2) λ table3 t2.
        and_then (table_3 ranges table3 t2)
          λ _ s3. and_then (take_deeper s3) λ table4. table_4 ranges table4

-- ===== src/Cache/ByteRanges.antt =====
-- `ByteRanges` of src/cache/bitmap.rs: a sorted, merged list of `[start, end)` byte intervals.
pub mod Coverage
pub mod Insert
pub mod Query
pub mod Build
pub mod Bytes
use rd_rs.Prelude.{
  ℕ, zero, suc, ◌+◌, ◌-◌, ◌≤◌, ◌<◌, min, max, ◌≡◌, Bool, true, false, ◌&&◌, ◌||◌, Option, none,
  some, List, [], ◌∷◌, ◌++◌, ltb, leb, ◌==◌, if◌then◌else◌, length, get_or, take, drop,
  partition_point,
}

-- `(u64, u64)`: the first byte, and the byte after the last.
abbrev pub Interval : Type 0
Interval = ℕ × ℕ

pub record ByteRanges : Type 0 where
  pub intervals : List Interval

abbrev pub new : ByteRanges
new = record { intervals = [] }

-- An index that is out of range panics in the source; no call below makes one.
abbrev no_interval : Interval
no_interval = (0, 0)

abbrev pub sum_lengths : List Interval → ℕ
sum_lengths [] = 0
sum_lengths ((s, e) ∷ rest) = (e - s) + sum_lengths rest

unfoldable pub total_bytes : ByteRanges → ℕ
total_bytes r = sum_lengths r.intervals

-- `partition_point(|(_, e)| *e < new_start)`
abbrev pub left_bound : List Interval → ℕ → ℕ
left_bound ivs start = partition_point (λ (i : Interval). ltb i.1 start) ivs

-- The `while` loop that moves `r` from `left` to the first interval beyond `new_end`.
abbrev pub right_bound : List Interval → ℕ → ℕ → ℕ
right_bound ivs left end = left + partition_point (λ (i : Interval). leb i.0 end) (drop left ivs)

-- `splice(left..right, [interval])`
abbrev splice : List Interval → ℕ → ℕ → Interval → List Interval
splice ivs left right i = take left ivs ++ (i ∷ drop right ivs)

-- The body of `insert` past its guard.
unfoldable pub merge_at : List Interval → ℕ → ℕ → ℕ → ℕ → List Interval
merge_at ivs start end left right =
    if ltb left right
    then splice ivs left right
        (min start (get_or ivs left no_interval).0, max end (get_or ivs (right - 1) no_interval).1)
    else splice ivs left right (start, end)

unfoldable pub insert_intervals : List Interval → ℕ → ℕ → List Interval
unfolding merge_at
insert_intervals ivs start end =
    merge_at ivs start end (left_bound ivs start) (right_bound ivs (left_bound ivs start) end)

unfoldable pub insert : ByteRanges → ℕ → ℕ → ByteRanges
insert r start end =
    if leb end start then r else record { intervals = insert_intervals r.intervals start end }

-- `has_range` past its guard: the last interval that starts at or before `start` reaches `end`.
unfoldable pub reaches : List Interval → ℕ → ℕ → Bool
reaches ivs start end =
    let idx = partition_point (λ (i : Interval). leb i.0 start) ivs in
    if idx == 0 then false else leb end (get_or ivs (idx - 1) no_interval).1

unfoldable pub has_range : ByteRanges → ℕ → ℕ → Bool
unfolding reaches
has_range r start end = if leb end start then true else reaches r.intervals start end

-- The loop of `find_missing` over the intervals, with its cursor.
unfoldable pub find_gap : ℕ → ℕ → List Interval → Option Interval
find_gap cursor end [] = some (cursor, end)
find_gap cursor end ((is, ie) ∷ rest) =
    let cursor' = if ltb cursor ie then ie else cursor in
    let next = find_gap cursor' end rest in
    if ltb cursor is then some (cursor, min is end) else if leb end cursor' then none else next

unfoldable pub find_missing : ByteRanges → ℕ → ℕ → Option Interval
unfolding find_gap
find_missing r start end =
    if leb end start || has_range r start end then none else find_gap start end r.intervals

-- The loop of `from_intervals`.
unfoldable pub insert_all : ByteRanges → List Interval → ByteRanges
insert_all out [] = out
insert_all out ((s, e) ∷ rest) = insert_all (insert out s e) rest

unfoldable pub from_intervals : List Interval → ByteRanges
unfolding insert_all
from_intervals ivs = insert_all new ivs

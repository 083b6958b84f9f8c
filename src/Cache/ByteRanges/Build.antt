-- ===== src/Cache/ByteRanges/Build.antt =====
-- `ByteRanges::from_intervals`, and `total_bytes` as a number of bytes.
use rd_rs.Prelude.{
  ℕ, ◌≤◌, ◌<◌, ◌≡◌, refl, ap, ◌∙◌, Bool, ◌||◌, List, [], ◌∷◌, ◌++◌, arith, or_false, lt→not-leb,
  partition_point,
}
use mathlib.Core.List.{append-nil, append_assoc}
use rd_rs.Cache.ByteRanges.{
  Interval, ByteRanges, new, merge_at, insert_intervals, insert, insert_all, from_intervals,
}
use rd_rs.Cache.ByteRanges.Coverage.{covers_list, covers, Above, IsNormalList, IsNormal}
use rd_rs.Cache.ByteRanges.Insert.{insert-IsNormal, covers-insert, insert_intervals_left}

insert_all-IsNormal :
    (out : ByteRanges) (ivs : List Interval) → IsNormal out → IsNormal (insert_all out ivs)
unfolding insert_all
insert_all-IsNormal out [] h = h
insert_all-IsNormal out ((s, e) ∷ rest) h =
    insert_all-IsNormal (insert out s e) rest (insert-IsNormal out s e h)

or_swap : (a b c : Bool) → (a || (b || c)) ≡ (b || (a || c))
or_swap a b c = ground arith

covers-insert_all :
    (x : ℕ) (out : ByteRanges) (ivs : List Interval)
    → IsNormal out
    → covers (insert_all out ivs) x ≡ (covers_list ivs x || covers out x)
unfolding insert_all covers_list
covers-insert_all x out [] h = refl
covers-insert_all x out ((s, e) ∷ rest) h = ground (
  arith,
  covers-insert_all x (insert out s e) rest (insert-IsNormal out s e h),
  covers-insert out s e x h,
)

-- Whatever list `from_intervals` is given, unsorted, overlapping or with reversed intervals, the
-- result meets the invariant, and covers exactly the bytes that some interval of the list holds.
pub from_intervals-covers :
    (x : ℕ) (ivs : List Interval)
    → IsNormal (from_intervals ivs) × (covers (from_intervals ivs) x ≡ covers_list ivs x)
unfolding from_intervals covers
from_intervals-covers x ivs =
    (insert_all-IsNormal new ivs tt, covers-insert_all x new ivs tt ∙ or_false (covers_list ivs x))

-- Every interval ends at or before `n`.
abbrev pub Within : ℕ → List Interval → Type 0
Within n [] = Unit {0}
Within n ((s, e) ∷ rest) = (e ≤ n) × Within n rest

insert_intervals_last :
    (n s e : ℕ) (ivs : List Interval)
    → n < s
    → Within n ivs
    → insert_intervals ivs s e ≡ ivs ++ (s, e) ∷ []
unfolding insert_intervals merge_at partition_point
insert_intervals_last n s e [] p w = refl
insert_intervals_last n s e ((a, b) ∷ rest) p w =
    insert_intervals_left a b s e rest (omega arith)
    ∙ ap (◌∷◌ (a, b)) (insert_intervals_last n s e rest p w.1)

Within-last :
    (n s e : ℕ) (ivs : List Interval) → n ≤ e → Within n ivs → Within e (ivs ++ (s, e) ∷ [])
Within-last n s e [] p w = omega arith
Within-last n s e ((a, b) ∷ rest) p w = (omega arith, Within-last n s e rest p w.1)

insert_all_sorted :
    (n : ℕ) (done ivs : List Interval)
    → Within n done
    → Above n ivs
    → insert_all (record { intervals = done }) ivs ≡ record { intervals = done ++ ivs }
unfolding insert_all insert
insert_all_sorted n done [] w h = rw append-nil
insert_all_sorted n done ((s, e) ∷ rest) w h =
    rw (lt→not-leb e s h.1, insert_intervals_last n s e done h.0 w)
      (insert_all_sorted e (done ++ (s, e) ∷ []) rest (Within-last n s e done (omega arith) w) h.2
        ∙ rw append_assoc)

-- Rebuilding a set that meets the invariant from its own intervals gives the same set.
pub from_intervals-intervals : (r : ByteRanges) → IsNormal r → from_intervals r.intervals ≡ r
unfolding from_intervals insert_all insert insert_intervals merge_at partition_point
from_intervals-intervals r h = go r.intervals h
  where
    go : (ivs : List Interval) → IsNormalList ivs → from_intervals ivs ≡ record { intervals = ivs }
    go [] h = refl
    go ((s, e) ∷ rest) h =
        rw (lt→not-leb e s h.0) (insert_all_sorted e ((s, e) ∷ []) rest (omega arith) h.1)

-- ===== src/Cache/ByteRanges/Insert.antt =====
-- `ByteRanges::insert` keeps the invariant and adds exactly the bytes of the new interval.
use rd_rs.Prelude.{
  ℕ, zero, suc, ◌≤◌, ◌<◌, min, max, ◌≡◌, refl, ap, inl, inr, ◌||◌, List, [], ◌∷◌, arith, ltb, leb,
  if◌then◌else◌, drop, get_or, partition_point, Bool-cases, partition_point_pass,
  partition_point_stop, lt→ltb, ltb→lt, le→not-ltb,
}
use native.Mathlib.Nat.{suc-add, zero-add}
use native.Mathlib.Numerals.{sub-one}
use rd_rs.Cache.ByteRanges.{Interval, ByteRanges, left_bound, merge_at, insert_intervals, insert}
use rd_rs.Cache.ByteRanges.Coverage.{
  in_range, covers_list, covers, Above, IsNormalList, IsNormal, Above-IsNormalList,
}

-- The merge as one walk: `s` is settled, and every interval that starts at or before `bound` is
-- absorbed into `[s, e)`.
absorb : ℕ → ℕ → ℕ → List Interval → List Interval
absorb s e bound [] = (s, e) ∷ []
absorb s e bound ((a, b) ∷ rest) =
    if leb a bound then absorb s (max e b) bound rest else (s, e) ∷ (a, b) ∷ rest

-- The whole insertion as one walk.
insert_walk : ℕ → ℕ → List Interval → List Interval
unfolding absorb
insert_walk s e [] = (s, e) ∷ []
insert_walk s e ((a, b) ∷ rest) =
    if ltb b s
    then (a, b) ∷ insert_walk s e rest
    else if leb a e
    then absorb (min s a) (max e b) e rest
    else (s, e) ∷ (a, b) ∷ rest

merge_at_shift :
    (i : Interval) (ivs : List Interval) (s e l r : ℕ)
    → merge_at (i ∷ ivs) s e (suc l) (suc r) ≡ i ∷ merge_at ivs s e l r
unfolding merge_at
merge_at_shift i ivs s e l zero = ground arith
merge_at_shift i ivs s e l (suc r) = rw (sub-one (suc r)) (ground arith)

-- An interval that ends before the new one stays where it is.
pub insert_intervals_left :
    (a b s e : ℕ) (rest : List Interval)
    → b < s
    → insert_intervals ((a, b) ∷ rest) s e ≡ (a, b) ∷ insert_intervals rest s e
unfolding insert_intervals
insert_intervals_left a b s e rest h =
    rw (partition_point_pass (λ (i : Interval). ltb i.1 s) (a, b) rest (lt→ltb b s h), suc-add)
      (merge_at_shift (a, b) rest s e (left_bound rest s) _)

absorb_lem :
    (s e a b : ℕ) (rest : List Interval)
    → Above b rest
    → let k = partition_point (λ (i : Interval). leb i.0 e) rest in
      absorb s (max e b) e rest ≡ (s, max e (get_or ((a, b) ∷ rest) k (0, 0)).1) ∷ drop k rest
unfolding absorb partition_point
absorb_lem s e a b [] h = refl
absorb_lem s e a b ((c, d) ∷ rest) h =
    let p : max (max e b) d ≡ max e d = omega arith in
    ground (arith, p, absorb_lem s e c d rest h.2)

insert_intervals_here :
    (a b s e : ℕ) (rest : List Interval)
    → s ≤ b
    → Above b rest
    → insert_intervals ((a, b) ∷ rest) s e
      ≡ (if leb a e then absorb (min s a) (max e b) e rest else (s, e) ∷ (a, b) ∷ rest)
unfolding insert_intervals
insert_intervals_here a b s e rest h above = elim (Bool-cases (leb a e)) [
  | inl q ↦
      rw
        (
          partition_point_stop (λ (i : Interval). ltb i.1 s) (a, b) rest (le→not-ltb b s h),
          q,
          partition_point_pass (λ (i : Interval). leb i.0 e) (a, b) rest q,
          zero-add,
          sub-one,
        )
        (ground (arith, absorb_lem (min s a) e a b rest above))
  | inr q ↦
      rw
        (
          partition_point_stop (λ (i : Interval). ltb i.1 s) (a, b) rest (le→not-ltb b s h),
          q,
          partition_point_stop (λ (i : Interval). leb i.0 e) (a, b) rest q,
        )
        refl
]

-- On a sorted list the two searches and the splice are the walk.
insert_intervals-walk :
    (s e : ℕ) (ivs : List Interval)
    → IsNormalList ivs
    → insert_intervals ivs s e ≡ insert_walk s e ivs
unfolding insert_walk insert_intervals partition_point
insert_intervals-walk s e [] h = refl
insert_intervals-walk s e ((a, b) ∷ rest) h = elim (Bool-cases (ltb b s)) [
  | inl q ↦
      rw (q, insert_intervals_left a b s e rest (ltb→lt b s q))
        (ap (◌∷◌ (a, b)) (insert_intervals-walk s e rest (Above-IsNormalList b rest h.1)))
  | inr q ↦ rw q (insert_intervals_here a b s e rest (ground arith) h.1)
]

absorb-Above :
    (lo s e bound c : ℕ) (ivs : List Interval)
    → lo < s
    → s < e
    → e ≤ max bound c
    → Above c ivs
    → Above lo (absorb s e bound ivs)
unfolding absorb
absorb-Above lo s e bound c [] p q r h = omega arith
absorb-Above lo s e bound c ((a, b) ∷ rest) p q r h =
    ground (arith, absorb-Above lo s (max e b) bound b rest)

absorb-IsNormalList :
    (s e bound c : ℕ) (ivs : List Interval)
    → s < e
    → e ≤ max bound c
    → Above c ivs
    → IsNormalList (absorb s e bound ivs)
unfolding absorb
absorb-IsNormalList s e bound c [] q r h = omega arith
absorb-IsNormalList s e bound c ((a, b) ∷ rest) q r h =
    ground (arith, absorb-IsNormalList s (max e b) bound b rest)

absorb-covers :
    (s e bound c x : ℕ) (ivs : List Interval)
    → s ≤ c
    → bound ≤ e
    → Above c ivs
    → covers_list (absorb s e bound ivs) x ≡ (in_range s e x || covers_list ivs x)
unfolding absorb covers_list
absorb-covers s e bound c x [] p q h = refl
absorb-covers s e bound c x ((a, b) ∷ rest) p q h =
    ground (arith, absorb-covers s (max e b) bound b x rest)

insert_walk-Above :
    (lo s e : ℕ) (ivs : List Interval)
    → lo < s
    → s < e
    → Above lo ivs
    → Above lo (insert_walk s e ivs)
unfolding insert_walk
insert_walk-Above lo s e [] p q h = omega arith
insert_walk-Above lo s e ((a, b) ∷ rest) p q h =
    ground (arith, insert_walk-Above b s e rest, absorb-Above lo (min s a) (max e b) e b rest)

insert_walk-IsNormalList :
    (s e : ℕ) (ivs : List Interval) → s < e → IsNormalList ivs → IsNormalList (insert_walk s e ivs)
unfolding insert_walk
insert_walk-IsNormalList s e [] q h = omega arith
insert_walk-IsNormalList s e ((a, b) ∷ rest) q h =
    ground (arith, insert_walk-Above b s e rest, absorb-IsNormalList (min s a) (max e b) e b rest)

insert_walk-covers :
    (s e x : ℕ) (ivs : List Interval)
    → s < e
    → IsNormalList ivs
    → covers_list (insert_walk s e ivs) x ≡ (in_range s e x || covers_list ivs x)
unfolding insert_walk covers_list
insert_walk-covers s e x [] q h = refl
insert_walk-covers s e x ((a, b) ∷ rest) q h = ground (
  arith,
  insert_walk-covers s e x rest q (Above-IsNormalList b rest h.1),
  absorb-covers (min s a) (max e b) e b x rest,
)

-- Inserting an interval keeps the set sorted, non-overlapping, non-adjacent and free of empty
-- intervals, whatever the interval is.
pub insert-IsNormal : (r : ByteRanges) (s e : ℕ) → IsNormal r → IsNormal (insert r s e)
unfolding insert
insert-IsNormal r s e h =
    ground
      (arith, insert_intervals-walk s e r.intervals h, insert_walk-IsNormalList s e r.intervals)

-- On a set that meets the invariant, inserting `[s, e)` covers a byte exactly if the byte lies in
-- `[s, e)` or was covered before; an empty or reversed interval adds nothing.
pub covers-insert :
    (r : ByteRanges) (s e x : ℕ)
    → IsNormal r
    → covers (insert r s e) x ≡ (in_range s e x || covers r x)
unfolding covers insert
covers-insert r s e x h =
    ground (arith, insert_intervals-walk s e r.intervals h, insert_walk-covers s e x r.intervals)

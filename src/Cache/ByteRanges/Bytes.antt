-- ===== src/Cache/ByteRanges/Bytes.antt =====
-- `ByteRanges::total_bytes` is the number of bytes covered, and fits the word that holds it.
use rd_rs.Prelude.{
  ℕ, zero, suc, ◌+◌, ◌-◌, ◌≤◌, min, ◌≡◌, refl, sym, Bool, false, ◌&&◌, ◌||◌, List, [], ◌∷◌, arith,
  if◌then◌else◌,
}
use rd_rs.Cache.ByteRanges.{Interval, ByteRanges, sum_lengths, total_bytes}
use rd_rs.Cache.ByteRanges.Coverage.{
  in_range, covers_list, covers, IsNormalList, IsNormal, Above-IsNormalList, covers_list-below,
}
use rd_rs.Cache.ByteRanges.Build.{Within}

-- How many numbers below the bound pass the test.
pub count_below : (ℕ → Bool) → ℕ → ℕ
count_below f zero = 0
count_below f (suc n) = (if f n then 1 else 0) + count_below f n

count_below-in_range : (s e n : ℕ) → count_below (in_range s e) n ≡ min n e - s
unfolding count_below
count_below-in_range s e zero = omega arith
count_below-in_range s e (suc n) = ground (arith, count_below-in_range s e n)

count_below-or :
    (f g : ℕ → Bool) (n : ℕ)
    → ((x : ℕ) → (f x && g x) ≡ false)
    → count_below (λ x. f x || g x) n ≡ count_below f n + count_below g n
unfolding count_below
count_below-or f g zero h = omega arith
count_below-or f g (suc n) h = ground (arith, count_below-or f g n h, h n)

count_below-none : (f : ℕ → Bool) (n : ℕ) → ((x : ℕ) → f x ≡ false) → count_below f n ≡ 0
unfolding count_below
count_below-none f zero h = refl
count_below-none f (suc n) h = ground (arith, count_below-none f n h, h n)

pub count_below-le : (f : ℕ → Bool) (n : ℕ) → count_below f n ≤ n
unfolding count_below
count_below-le f zero = omega arith
count_below-le f (suc n) = ground (arith, count_below-le f n)

sum_lengths-count_below :
    (n : ℕ) (ivs : List Interval)
    → IsNormalList ivs
    → Within n ivs
    → sum_lengths ivs ≡ count_below (covers_list ivs) n
unfolding covers_list
sum_lengths-count_below n [] h w = sym (count_below-none (covers_list []) n (λ x. refl))
sum_lengths-count_below n ((s, e) ∷ rest) h w = omega (
  arith,
  sum_lengths-count_below n rest (Above-IsNormalList e rest h.1) w.1,
  count_below-in_range s e n,
  count_below-or (in_range s e) (covers_list rest) n
      (λ x. ground (arith, covers_list-below e x rest h.1)),
)

-- On a set that meets the invariant and ends at or before `n`, `total_bytes` is the number of
-- covered bytes below `n`, so it is at most `n`: the sum does not leave the word of the ends.
pub total_bytes-count_below :
    (n : ℕ) (r : ByteRanges)
    → IsNormal r
    → Within n r.intervals
    → (total_bytes r ≡ count_below (covers r) n) × (total_bytes r ≤ n)
unfolding total_bytes covers
total_bytes-count_below n r h w =
    let e = sum_lengths-count_below n r.intervals h w in
    (e, omega (arith, e, count_below-le (covers_list r.intervals) n))

-- ===== src/Cache/ByteRanges/Coverage.antt =====
-- What a `ByteRanges` stands for: the set of bytes that it covers, and its stated invariant
-- (sorted by start, non-overlapping, non-adjacent, no interval empty).
use rd_rs.Prelude.{ℕ, ◌≤◌, ◌<◌, ◌≡◌, refl, Bool, false, ◌&&◌, ◌||◌, List, [], ◌∷◌, arith, ltb, leb}
use rd_rs.Cache.ByteRanges.{Interval, ByteRanges}

-- `[s, e)` holds the byte `x`.
abbrev pub in_range : ℕ → ℕ → ℕ → Bool
in_range s e x = leb s x && ltb x e

unfoldable pub covers_list : List Interval → ℕ → Bool
covers_list [] x = false
covers_list ((s, e) ∷ rest) x = in_range s e x || covers_list rest x

unfoldable pub covers : ByteRanges → ℕ → Bool
unfolding covers_list
covers r x = covers_list r.intervals x

-- Every interval starts beyond `lo`, and ends before the next one starts, with a gap.
abbrev pub Above : ℕ → List Interval → Type 0
Above lo [] = Unit {0}
Above lo ((s, e) ∷ rest) = (lo < s) × (s < e) × Above e rest

abbrev pub IsNormalList : List Interval → Type 0
IsNormalList [] = Unit {0}
IsNormalList ((s, e) ∷ rest) = (s < e) × Above e rest

-- The invariant that the source states on `intervals`.
abbrev pub IsNormal : ByteRanges → Type 0
IsNormal r = IsNormalList r.intervals

pub Above-mono : (m n : ℕ) (ivs : List Interval) → m ≤ n → Above n ivs → Above m ivs
Above-mono m n [] h a = tt
Above-mono m n ((s, e) ∷ rest) h a = (omega arith, a.1, a.2)

pub Above-IsNormalList : (n : ℕ) (ivs : List Interval) → Above n ivs → IsNormalList ivs
Above-IsNormalList n [] a = tt
Above-IsNormalList n ((s, e) ∷ rest) a = (a.1, a.2)

-- Nothing up to the bound is covered.
pub covers_list-below :
    (n x : ℕ) (ivs : List Interval) → Above n ivs → x ≤ n → covers_list ivs x ≡ false
unfolding covers_list
covers_list-below n x [] a h = refl
covers_list-below n x ((s, e) ∷ rest) a h = ground (arith, covers_list-below e x rest a.2)

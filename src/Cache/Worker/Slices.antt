-- ===== src/Cache/Worker/Slices.antt =====
-- The slices that a download pass fetches are the bytes that are missing, and no others.
use rd_rs.Prelude.{
  ℕ, zero, suc, ◌-◌, ◌<◌, ◌≡◌, inl, inr, ◌&&◌, not, arith, ltb, Bool-cases, Option-cases,
}
use rd_rs.Cache.ByteRanges.{ByteRanges, find_missing}
use rd_rs.Cache.ByteRanges.Coverage.{in_range, covers_list, covers, IsNormal}
use rd_rs.Cache.ByteRanges.Query.{find_missing-GapSpec}
use rd_rs.Cache.Worker.{missing_slices, slices_to_fetch}
use rd_rs.Cache.Worker.Chunks.{AllNonempty}

missing_slices-covers :
    (fuel x pos target : ℕ) (r : ByteRanges)
    → target - pos < fuel
    → IsNormal r
    → covers_list (missing_slices fuel r pos target) x ≡ (in_range pos target x && not (covers r x))
unfolding missing_slices covers_list
missing_slices-covers zero x pos target r h n = elim h [ ]
missing_slices-covers (suc fuel) x pos target r h n = elim (Bool-cases (ltb pos target)) [
  | inr done ↦ ground arith
  | inl more ↦ elim (Option-cases (find_missing r pos target)) [
    | inl e ↦ ground (arith, find_missing-GapSpec r pos target x n)
    | inr ((a, b), e) ↦
        let g = rw e at (find_missing-GapSpec r pos target x n) in
        ground (arith, g, missing_slices-covers fuel x b target r (omega (arith, g)) n)
  ]
]

-- On a set that meets the invariant, the slices that a pass over `[start, target)` fetches hold
-- exactly the bytes of `[start, target)` that are not covered.
pub slices_to_fetch-covers :
    (r : ByteRanges) (start target x : ℕ)
    → IsNormal r
    → covers_list (slices_to_fetch r start target) x ≡ (in_range start target x && not (covers r x))
unfolding slices_to_fetch
slices_to_fetch-covers r start target x n =
    missing_slices-covers (suc (target - start)) x start target r (omega arith) n

missing_slices-AllNonempty :
    (fuel pos target : ℕ) (r : ByteRanges)
    → IsNormal r
    → AllNonempty (missing_slices fuel r pos target)
unfolding missing_slices
missing_slices-AllNonempty zero pos target r n = tt
missing_slices-AllNonempty (suc fuel) pos target r n = elim (Bool-cases (ltb pos target)) [
  | inr done ↦ rw (missing_slices, done) tt
  | inl more ↦ elim (Option-cases (find_missing r pos target)) [
    | inl e ↦ rw (missing_slices, more, e) tt
    | inr ((a, b), e) ↦
        let g = rw e at (find_missing-GapSpec r pos target 0 n) in
        rw (missing_slices, more, e) (g.1, missing_slices-AllNonempty fuel b target r n)
  ]
]

-- No slice that a pass fetches is empty.
pub slices_to_fetch-AllNonempty :
    (r : ByteRanges) (start target : ℕ) → IsNormal r → AllNonempty (slices_to_fetch r start target)
unfolding slices_to_fetch
slices_to_fetch-AllNonempty r start target n =
    missing_slices-AllNonempty (suc (target - start)) start target r n

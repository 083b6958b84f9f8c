-- ===== src/Cache/RangeDb/Blob.antt =====
-- The blob of intervals decodes to what was encoded, and only a whole number of intervals decodes.
use rd_rs.Prelude.{
  ℕ, zero, suc, ◌*◌, ◌/◌, ◌%◌, ◌^◌, ◌<◌, ◌≡◌, ◌↔◌, refl, ap, some, List, [], ◌∷◌, arith, length,
  drop,
}
use native.Mathlib.Nat.{pow-suc}
use rd_rs.Cache.ByteRanges.{Interval}
use rd_rs.Cache.RangeDb.{
  to_le_bytes, from_le_bytes, encode_ranges_blob, decode_chunks, decode_ranges_blob,
}

length-to_le_bytes : (k n : ℕ) → length (to_le_bytes k n) ≡ k
unfolding to_le_bytes
length-to_le_bytes zero n = refl
length-to_le_bytes (suc k) n = ap suc (length-to_le_bytes k (n / 256))

from_le_bytes-to_le_bytes : (k n : ℕ) → n < 256 ^ k → from_le_bytes (to_le_bytes k n) ≡ n
unfolding to_le_bytes from_le_bytes
from_le_bytes-to_le_bytes zero n h = omega arith
from_le_bytes-to_le_bytes (suc k) n h =
    omega
      (arith, from_le_bytes-to_le_bytes k (n / 256) (let p = rw pow-suc at h in omega (arith, p)))

-- Every end of an interval fits a `u64`.
abbrev pub AllU64 : List Interval → Type 0
AllU64 [] = Unit {0}
AllU64 ((s, e) ∷ rest) = (s < 2 ^ 64) × (e < 2 ^ 64) × AllU64 rest

length-encode_ranges_blob :
    (ivs : List Interval) → length (encode_ranges_blob ivs) ≡ 16 * length ivs
unfolding encode_ranges_blob
length-encode_ranges_blob [] = refl
length-encode_ranges_blob ((s, e) ∷ rest) = omega (arith, length-encode_ranges_blob rest)

decode_chunks-encode :
    (ivs : List Interval) → AllU64 ivs → decode_chunks (length ivs) (encode_ranges_blob ivs) ≡ ivs
unfolding decode_chunks encode_ranges_blob to_le_bytes from_le_bytes
decode_chunks-encode [] h = refl
decode_chunks-encode ((s, e) ∷ rest) h =
    let start = from_le_bytes-to_le_bytes 8 s h.0 in
    let end = from_le_bytes-to_le_bytes 8 e h.1 in
    λ i. (start i, end i) ∷ decode_chunks-encode rest h.2 i

-- Decoding the blob of a list of `u64` intervals gives back the list.
pub decode_ranges_blob-encode_ranges_blob :
    (ivs : List Interval) → AllU64 ivs → decode_ranges_blob (encode_ranges_blob ivs) ≡ some ivs
unfolding decode_ranges_blob
decode_ranges_blob-encode_ranges_blob ivs h =
    let n : length (encode_ranges_blob ivs) / 16 ≡ length ivs =
      omega (arith, length-encode_ranges_blob ivs) in
    let whole : length (encode_ranges_blob ivs) % 16 ≡ 0 =
      omega (arith, length-encode_ranges_blob ivs) in
    rw (whole, n) (ap some (decode_chunks-encode ivs h))

length-decode_chunks : (n : ℕ) (blob : List ℕ) → length (decode_chunks n blob) ≡ n
unfolding decode_chunks
length-decode_chunks zero blob = refl
length-decode_chunks (suc n) blob = ap suc (length-decode_chunks n (drop 16 blob))

-- A blob decodes exactly if its length is a multiple of 16, and then to one interval for each 16
-- bytes.
pub decode_ranges_blob_iff :
    (blob : List ℕ) (n : ℕ)
    → (length blob ≡ 16 * n)
      ↔ ((ivs : List Interval) × (decode_ranges_blob blob ≡ some ivs) × (length ivs ≡ n))
unfolding decode_ranges_blob
decode_ranges_blob_iff blob n = (
  (λ e. (
    decode_chunks (length blob / 16) blob,
    ground arith,
    omega (arith, length-decode_chunks (length blob / 16) blob),
  )),
  (λ (ivs, e, l). ground (arith, length-decode_chunks (length blob / 16) blob)),
)

-- ===== src/Tests/Ranges.antt =====
-- The theorems on byte ranges, on their rows in the database, and on the queue of a download pass.
use rd_rs.Prelude.{ℕ, ◌*◌, ◌≤◌, ◌≡◌, not, ◌&&◌, ◌||◌, some, List, [], ◌∷◌, arith}
use rd_rs.Prelude.Int.{pos}
use rd_rs.Cache.ByteRanges.{Interval, ByteRanges, insert, total_bytes}
use rd_rs.Cache.ByteRanges.Coverage.{in_range, covers_list, covers, IsNormal}
use rd_rs.Cache.ByteRanges.Insert.{insert-IsNormal, covers-insert}
use rd_rs.Cache.ByteRanges.Bytes.{count_below, total_bytes-count_below}
use rd_rs.Cache.RangeDb.{Table, encode_ranges_blob, decode_ranges_blob, upsert}
use rd_rs.Cache.RangeDb.Blob.{decode_ranges_blob-encode_ranges_blob}
use rd_rs.Cache.Worker.{Pool, slices_to_fetch, take_chunk}
use rd_rs.Cache.Worker.Slices.{slices_to_fetch-covers}
use rd_rs.Cache.Worker.Chunks.{IsPool, Taken, take_chunk-Taken}

abbrev two_ranges : ByteRanges
two_ranges = record { intervals = (2, 5) ∷ (9, 12) ∷ [] }

two_ranges-IsNormal : IsNormal two_ranges
two_ranges-IsNormal = (omega arith, (omega arith, omega arith, tt))

insert-IsNormal_example : IsNormal (insert two_ranges 5 9)
insert-IsNormal_example = insert-IsNormal two_ranges 5 9 two_ranges-IsNormal

covers-insert_example : covers (insert two_ranges 4 8) 7 ≡ (in_range 4 8 7 || covers two_ranges 7)
covers-insert_example = covers-insert two_ranges 4 8 7 two_ranges-IsNormal

abbrev unsorted : List Interval
unsorted = (9, 12) ∷ (2, 5) ∷ (4, 3) ∷ []

total_bytes-count_below_example :
    (total_bytes two_ranges ≡ count_below (covers two_ranges) 12) × (total_bytes two_ranges ≤ 12)
total_bytes-count_below_example =
    total_bytes-count_below 12 two_ranges two_ranges-IsNormal (omega arith, (omega arith, tt))

decode_ranges_blob-encode_ranges_blob_example :
    decode_ranges_blob (encode_ranges_blob two_ranges.intervals) ≡ some two_ranges.intervals
decode_ranges_blob-encode_ranges_blob_example =
    decode_ranges_blob-encode_ranges_blob two_ranges.intervals
      (omega arith, omega arith, (omega arith, omega arith, tt))

abbrev blob_of_20 : List ℕ
blob_of_20 = 1 ∷ 0 ∷ 0 ∷ 0 ∷ 0 ∷ 0 ∷ 0 ∷ 0 ∷ 2 ∷ 0 ∷ 0 ∷ 0 ∷ 0 ∷ 0 ∷ 0 ∷ 0 ∷ 9 ∷ 9 ∷ 9 ∷ 9 ∷ []

abbrev one_row : Table
one_row = upsert "a/1" 40 (pos 7) two_ranges []

slices_to_fetch-covers_example :
    covers_list (slices_to_fetch two_ranges 0 11) 6 ≡ (in_range 0 11 6 && not (covers two_ranges 6))
slices_to_fetch-covers_example = slices_to_fetch-covers two_ranges 0 11 6 two_ranges-IsNormal

abbrev some_pool : Pool
some_pool = record { queue = (0, 10) ∷ (20, 21) ∷ []; multiplier = 2 }

some_pool-IsPool : IsPool some_pool
some_pool-IsPool = record {
  slices = (omega arith, (omega arith, tt));
  at_least_one = omega arith;
  at_most_16 = omega arith;
}

take_chunk-Taken_example :
    Taken (3 * 2) 7 some_pool.queue (take_chunk 3 some_pool).0 (take_chunk 3 some_pool).1.queue
    × IsPool (take_chunk 3 some_pool).1
take_chunk-Taken_example = take_chunk-Taken 3 7 some_pool (omega arith) some_pool-IsPool

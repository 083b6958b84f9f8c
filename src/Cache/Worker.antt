-- ===== src/Cache/Worker.antt =====
-- `run_downloader` of src/cache/worker.rs: the slices that a download pass has to fetch, and the
-- queue of slices from which the chunk workers take their chunks.
pub mod Slices
pub mod Chunks
pub mod Pass
use rd_rs.Prelude.{
  ℕ, zero, suc, ◌+◌, ◌-◌, ◌*◌, ◌%◌, ◌^◌, min, true, false, Option, none, some, List, [], ◌∷◌, ltb,
  leb, if◌then◌else◌,
}
use rd_rs.Cache.ByteRanges.{Interval, ByteRanges, find_missing}

-- `(end + read_ahead).min(item.file_size)`
abbrev pub target_end : ℕ → ℕ → ℕ → ℕ
target_end end read_ahead file_size = min ((end + read_ahead) % 2 ^ 64) file_size

-- The loop `while pos < target_end` that fills `missing_slices`; the fuel is its rounds.
unfoldable pub missing_slices : ℕ → ByteRanges → ℕ → ℕ → List Interval
missing_slices zero r pos target = []
missing_slices (suc fuel) r pos target = elim (ltb pos target) [
  | false ↦ []
  | true ↦ elim (find_missing r pos target) [
    | none ↦ []
    | some (miss_start, miss_end) ↦ (miss_start, miss_end) ∷ missing_slices fuel r miss_end target
  ]
]

-- Every round but the last ends at a later position: this fuel is enough.
unfoldable pub slices_to_fetch : ByteRanges → ℕ → ℕ → List Interval
unfolding missing_slices
slices_to_fetch r start target = missing_slices (suc (target - start)) r start target

-- `u64::saturating_mul`
abbrev pub saturating_mul : ℕ → ℕ → ℕ
saturating_mul a b = min (a * b) (2 ^ 64 - 1)

-- What the workers of one pass share: the queue and the adaptive multiplier.
pub record Pool : Type 0 where
  pub queue : List Interval
  pub multiplier : ℕ

-- `chunk_end` of the chunk that is cut from the slice at the front.
abbrev pub chunk_end_of : ℕ → ℕ → Interval → ℕ
chunk_end_of base_chunk multiplier (slice_start, slice_end) =
    slice_start + min (saturating_mul base_chunk multiplier) (slice_end - slice_start)

-- Pop a slice, cut a chunk from it and put the rest back in front.
unfoldable pub cut_front : ℕ → ℕ → List Interval → Option Interval × List Interval
cut_front base_chunk multiplier [] = (none, [])
cut_front base_chunk multiplier ((slice_start, slice_end) ∷ rest) =
    let chunk_end = chunk_end_of base_chunk multiplier (slice_start, slice_end) in
    (
      some (slice_start, chunk_end),
      (if ltb chunk_end slice_end then (chunk_end, slice_end) ∷ rest else rest),
    )

-- The block under the queue's lock.
unfoldable pub take_chunk : ℕ → Pool → Option Interval × Pool
unfolding cut_front
take_chunk base_chunk p =
    let cut = cut_front base_chunk p.multiplier p.queue in (cut.0, record p { queue = cut.1 })

-- After a stall or an error: the multiplier is reset, and a chunk that is larger than the base
-- chunk is cut down, its tail going back to the front of the queue.
unfoldable pub shrink_chunk : ℕ → Interval → Pool → Interval × Pool
shrink_chunk base_chunk (chunk_start, chunk_end) p =
    if ltb base_chunk (chunk_end - chunk_start)
    then (
      (chunk_start, chunk_start + base_chunk),
      record { queue = (chunk_start + base_chunk, chunk_end) ∷ p.queue; multiplier = 1 },
    )
    else ((chunk_start, chunk_end), record p { multiplier = 1 })

-- `fetch_update(|m| Some((m * 2).min(16)))`
unfoldable pub grow_multiplier : Pool → Pool
grow_multiplier p = record p { multiplier = min (p.multiplier * 2) 16 }

-- ===== src/Cache/Worker/Pass.antt =====
-- One run of `run_downloader` of src/cache/worker.rs: the workers share the queue and the
-- multiplier, and each takes a chunk, fetches it with up to `MAX_DOWNLOAD_RETRIES` tries, and
-- writes what arrives into the item. A step is one such action of one worker, so the steps of
-- several workers come in any order. `remote` is the remote file: the body of an answer with a
-- Content-Range starts with the byte that was asked for, that of another answer with byte 0.
pub mod Integrity
pub mod Account
pub mod Soundness
pub mod Fetched
use rd_rs.Prelude.{
  ℕ, zero, suc, ◌+◌, ◌<◌, ◌≤◌, ◌^◌, ◌≡◌, Bool, true, false, not, ◌||◌, Option, none, some, List, [],
  ◌∷◌, ◌++◌, ltb, leb, if◌then◌else◌,
}
use rd_rs.Prelude.Slice.{slice}
use rd_rs.Cache.RangeDb.{Table}
use rd_rs.Cache.Item.{Item, Written, all_bytes, failed_after, write_range}
use rd_rs.Cache.Worker.{
  Pool, target_end, slices_to_fetch, take_chunk, shrink_chunk, grow_multiplier,
}

abbrev pub max_download_retries : ℕ
max_download_retries = 3

-- The body of an answer: the place in the remote file of its next byte, and `current_pos`, where
-- that byte is to be written.
pub record Stream : Type 0 where
  pub body : ℕ
  pub current_pos : ℕ

-- `[chunk_start, chunk_end)`, `retries`, and the body that is being read, if there is one.
pub record Chunk : Type 0 where
  pub chunk_start : ℕ
  pub chunk_end : ℕ
  pub retries : ℕ
  pub stream : Option Stream

-- How the server answers to a range request, other than with an error.
pub data Answered : Type 0 where
  with_content_range ok_without_content_range : Answered

-- The check for a stale node, by the chunk's start.
abbrev pub accepts : Answered → ℕ → Bool
accepts with_content_range chunk_start = true
accepts ok_without_content_range chunk_start = not (ltb 0 chunk_start)

abbrev pub body_of : Answered → ℕ → ℕ
body_of with_content_range chunk_start = chunk_start
body_of ok_without_content_range chunk_start = 0

-- `let mut current_pos = chunk_start`
abbrev pub stream_of : Answered → ℕ → Stream
stream_of a chunk_start = record { body = body_of a chunk_start; current_pos = chunk_start }

abbrev pub advanced : ℕ → Stream → Stream
advanced n b = record { body = b.body + n; current_pos = b.current_pos + n }

-- `lost` tells of the past: a worker has ended a chunk of which not all bytes had arrived.
pub record Pass : Type 0 where
  pub pool : Pool
  pub in_flight : List Chunk
  pub item : Item
  pub table : Table
  pub lost : Bool

abbrev pub begin_pass : Item → Table → ℕ → ℕ → ℕ → Pass
begin_pass item table start end read_ahead = record {
  pool = record {
    queue = slices_to_fetch item.ranges start (target_end end read_ahead item.file_size);
    multiplier = 1;
  };
  in_flight = [];
  item = item;
  table = table;
  lost = false;
}

abbrev pub taken_chunk : ℕ → ℕ → Chunk
taken_chunk s e = record { chunk_start = s; chunk_end = e; retries = 0; stream = none }

-- A new try after a stall or an error, of a chunk that may be cut down to the base chunk.
abbrev pub shrunk : ℕ → Chunk → Pool → Chunk × Pool
shrunk base_chunk c pool =
    let ((s, e), pool') = shrink_chunk base_chunk (c.chunk_start, c.chunk_end) pool in
    (record { chunk_start = s; chunk_end = e; retries = c.retries + 1; stream = none }, pool')

-- `n` bytes of the body arrive and are written to the item, the write ending as `w` says.
abbrev pub received : (ℕ → ℕ) → ℕ → Written → ℕ → Bool → Stream → Pass → Pass
received remote n w now stored b p =
    let (good, item, table) =
      write_range b.current_pos (slice remote b.body n) w now stored (p.item, p.table) in
    record p { item = item; table = table }

-- Chunk `c'` is put between `xs` and `ys`.
abbrev pub with_chunk : List Chunk → Chunk → List Chunk → Pass → Pass
with_chunk xs c ys p = record p { in_flight = xs ++ (c ∷ ys) }

abbrev pub with_shrunk : List Chunk → Chunk × Pool → List Chunk → Pass → Pass
with_shrunk xs (c, pool) ys p = record p { pool = pool; in_flight = xs ++ (c ∷ ys) }

-- The chunk that a step is about stands between `xs` and `ys`.
pub data Step (remote : ℕ → ℕ) (base_chunk : ℕ) : Pass → Pass → Type 0 where
  -- A worker without a chunk takes one.
  takes :
      (p : Pass) (s e : ℕ) (pool : Pool)
      → take_chunk base_chunk p.pool ≡ (some (s, e), pool)
      → Step remote base_chunk p
          (record p { pool = pool; in_flight = taken_chunk s e ∷ p.in_flight })
  -- An answer that is taken: its body is read from now on.
  opens :
      (p : Pass) (xs ys : List Chunk) (c : Chunk) (a : Answered)
      → p.in_flight ≡ xs ++ (c ∷ ys)
      → c.stream ≡ none
      → accepts a c.chunk_start ≡ true
      → Step remote base_chunk p
          (with_chunk xs (record c { stream = some (stream_of a c.chunk_start) }) ys p)
  -- The body goes on.
  receives :
      (p : Pass) (xs ys : List Chunk) (c : Chunk) (b : Stream) (n now : ℕ) (stored : Bool)
      → p.in_flight ≡ xs ++ (c ∷ ys)
      → c.stream ≡ some b
      → b.current_pos + n < 2 ^ 64
      → Step remote base_chunk p (
          with_chunk xs
            (record c { stream = some (advanced n b) })
            ys
            (received remote n all_bytes now stored b p))
  -- The write of a part of the body fails, which is then an error like another.
  breaks :
      (p : Pass) (xs ys : List Chunk) (c : Chunk) (b : Stream) (n k now : ℕ) (stored : Bool)
      → p.in_flight ≡ xs ++ (c ∷ ys)
      → c.stream ≡ some b
      → b.current_pos + n < 2 ^ 64
      → Step remote base_chunk p (received remote n (failed_after k) now stored b p)
  -- A stall, a failed request or a broken body, with tries left.
  shrinks :
      (p : Pass) (xs ys : List Chunk) (c : Chunk)
      → p.in_flight ≡ xs ++ (c ∷ ys)
      → c.retries + 1 < max_download_retries
      → Step remote base_chunk p (with_shrunk xs (shrunk base_chunk c p.pool) ys p)
  -- An answer that is not taken, with tries left.
  retries :
      (p : Pass) (xs ys : List Chunk) (c : Chunk) (a : Answered)
      → p.in_flight ≡ xs ++ (c ∷ ys)
      → c.stream ≡ none
      → accepts a c.chunk_start ≡ false
      → c.retries + 1 < max_download_retries
      → Step remote base_chunk p (with_chunk xs (record c { retries = c.retries + 1 }) ys p)
  -- A refreshed link starts the tries anew.
  heals :
      (p : Pass) (xs ys : List Chunk) (c : Chunk)
      → p.in_flight ≡ xs ++ (c ∷ ys)
      → c.stream ≡ none
      → Step remote base_chunk p (with_chunk xs (record c { retries = 0 }) ys p)
  -- The body ends, which the worker takes for success, wherever it ends.
  finishes :
      (p : Pass) (xs ys : List Chunk) (c : Chunk) (b : Stream)
      → p.in_flight ≡ xs ++ (c ∷ ys)
      → c.stream ≡ some b
      → Step remote base_chunk p (record p {
        pool = grow_multiplier p.pool;
        in_flight = xs ++ ys;
        lost = p.lost || ltb b.current_pos c.chunk_end;
      })
  -- No tries are left: the worker answers the error, which ends the pass.
  gives_up :
      (p : Pass) (xs ys : List Chunk) (c : Chunk)
      → p.in_flight ≡ xs ++ (c ∷ ys)
      → max_download_retries ≤ c.retries + 1
      → Step remote base_chunk p (record p { in_flight = xs ++ ys; lost = true })
  -- The session is cancelled under the worker.
  cancels :
      (p : Pass) (xs ys : List Chunk) (c : Chunk)
      → p.in_flight ≡ xs ++ (c ∷ ys)
      → Step remote base_chunk p (record p { in_flight = xs ++ ys; lost = true })

-- The passes that steps lead to from `p`.
pub data Steps (remote : ℕ → ℕ) (base_chunk : ℕ) (p : Pass) : Pass → Type 0 where
  none_yet : Steps remote base_chunk p p
  one_more :
      (q r : Pass)
      → Steps remote base_chunk p q
      → Step remote base_chunk q r
      → Steps remote base_chunk p r

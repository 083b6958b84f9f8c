-- ===== src/Cache/Worker/Chunks.antt =====
-- Cutting chunks from the queue loses no byte and fetches none twice.
use rd_rs.Prelude.{
  ℕ, ◌+◌, ◌-◌, ◌*◌, ◌≤◌, ◌<◌, min, ◌≡◌, refl, ◌||◌, Option, none, some, List, [], ◌∷◌, arith,
}
use rd_rs.Cache.ByteRanges.{Interval, sum_lengths}
use rd_rs.Cache.ByteRanges.Coverage.{in_range, covers_list}
use rd_rs.Cache.Worker.{Pool, saturating_mul, cut_front, take_chunk, shrink_chunk, grow_multiplier}

-- No slice of the queue is empty.
abbrev pub AllNonempty : List Interval → Type 0
AllNonempty [] = Unit {0}
AllNonempty ((s, e) ∷ rest) = (s < e) × AllNonempty rest

-- The multiplier starts at 1 and is at most 16, and no slice is empty.
pub record IsPool (p : Pool) : Type 0 where
  pub slices : AllNonempty p.queue
  pub at_least_one : 1 ≤ p.multiplier
  pub at_most_16 : p.multiplier ≤ 16

saturating_mul-pos : (a b : ℕ) → 0 < a → 0 < b → 0 < saturating_mul a b
saturating_mul-pos a b p q = grind arith

-- What a worker gets from a queue `q` whose rest is then `r`: nothing, if the queue is empty;
-- otherwise a chunk that is not empty and not longer than `limit`, no slice of the rest being
-- empty, and the bytes of `q` being those of the chunk and of the rest, each once.
abbrev pub Taken : ℕ → ℕ → List Interval → Option Interval → List Interval → Type 0
Taken limit x q none r = (q ≡ []) × (r ≡ [])
Taken limit x q (some (s, e)) r =
    (s < e)
    × (e - s ≤ limit)
    × AllNonempty r
    × (sum_lengths q ≡ (e - s) + sum_lengths r)
    × (covers_list q x ≡ (in_range s e x || covers_list r x))

Taken-AllNonempty :
    (limit x : ℕ) (q : List Interval) (c : Option Interval) (r : List Interval)
    → Taken limit x q c r
    → AllNonempty r
Taken-AllNonempty limit x q none r t = rw t.1 tt
Taken-AllNonempty limit x q (some c) r t = t.2

cut_front-Taken :
    (base m x : ℕ) (q : List Interval)
    → 0 < base
    → 0 < m
    → AllNonempty q
    → let cut = cut_front base m q in Taken (base * m) x q cut.0 cut.1
unfolding cut_front covers_list
cut_front-Taken base m x [] h k w = (refl, refl)
cut_front-Taken base m x ((s, t) ∷ rest) h k w =
    let pos = saturating_mul-pos base m h k in
    let le : saturating_mul base m ≤ base * m = omega arith in
    (
      omega (arith, pos),
      omega (arith, le),
      ground (arith, pos),
      ground (arith, pos),
      ground (arith, pos),
    )

-- With a base chunk of at least one byte, on a well-formed pool, taking a chunk either finds the
-- queue empty and leaves it so, or gives a non-empty chunk no longer than the base chunk times the
-- multiplier, the bytes of the queue being those of the chunk and of the new queue, each once. The
-- pool stays well formed.
pub take_chunk-Taken :
    (base x : ℕ) (p : Pool)
    → 0 < base
    → IsPool p
    → let (c, p') = take_chunk base p in
      Taken (base * p.multiplier) x p.queue c p'.queue × IsPool p'
unfolding take_chunk
take_chunk-Taken base x p h w =
    let t = cut_front-Taken base p.multiplier x p.queue h w.at_least_one w.slices in
    (
      t,
      record {
        slices = Taken-AllNonempty _ x p.queue (cut_front base p.multiplier p.queue).0 _ t;
        at_least_one = w.at_least_one;
        at_most_16 = w.at_most_16;
      },
    )

-- Shrinking a chunk after a failure keeps the pool well formed and the chunk's start, leaves a
-- chunk that is not empty and no longer than the base chunk or than it was, and splits the bytes
-- of the old chunk and queue among the new ones, each once.
pub shrink_chunk-splits :
    (base x s e : ℕ) (p : Pool)
    → 0 < base
    → s < e
    → IsPool p
    → let ((s', e'), p') = shrink_chunk base (s, e) p in
      (s' ≡ s)
      × (s' < e')
      × (e' - s' ≤ min base (e - s))
      × IsPool p'
      × ((e - s) + sum_lengths p.queue ≡ (e' - s') + sum_lengths p'.queue)
      × ((in_range s e x || covers_list p.queue x) ≡ (in_range s' e' x || covers_list p'.queue x))
unfolding shrink_chunk covers_list
shrink_chunk-splits base x s e p h k w =
    (ground arith, ground arith, ground arith, ground arith, ground arith, ground arith)

-- Growing the multiplier keeps the pool well formed, and never lowers it.
pub grow_multiplier-IsPool :
    (p : Pool)
    → IsPool p
    → IsPool (grow_multiplier p) × (p.multiplier ≤ (grow_multiplier p).multiplier)
unfolding grow_multiplier
grow_multiplier-IsPool p w = ground arith

-- With a base chunk of 0 bytes, as `chunk_size = "0"` gives, every chunk that is taken is empty and
-- the queue stays as it was, so the loop of the workers makes no progress.
pub take_chunk_stuck :
    (s e : ℕ) (rest : List Interval) (p : Pool)
    → s < e
    → p.queue ≡ (s, e) ∷ rest
    → take_chunk 0 p ≡ (some (s, s), p)
unfolding take_chunk cut_front
take_chunk_stuck s e rest p h q = rw (q, take_chunk, cut_front) (ground arith)

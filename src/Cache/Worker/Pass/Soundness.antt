-- ===== src/Cache/Worker/Pass/Soundness.antt =====
-- Every step of a pass accounts for the bytes that were accounted for.
use rd_rs.Prelude.{
  ℕ, ◌+◌, ◌*◌, ◌≤◌, ◌<◌, ◌^◌, ◌≡◌, refl, ◌⊎◌, inl, inr, Bool, true, ◌||◌, Option, none, some, ap,
  List, ◌∷◌, ◌++◌, arith, ltb, Bool-cases,
}
use mathlib.Core.Path.{subst}
use rd_rs.Cache.ByteRanges.{Interval}
use rd_rs.Cache.ByteRanges.Coverage.{in_range, covers_list, covers}
use rd_rs.Cache.RangeDb.{Table}
use rd_rs.Cache.Item.{Item, all_bytes, failed_after}
use rd_rs.Cache.Item.Integrity.{IsGenuine, write_range-IsGenuine}
use rd_rs.Cache.Worker.{Pool, take_chunk, grow_multiplier}
use rd_rs.Cache.Worker.Chunks.{
  IsPool, Taken, take_chunk-Taken, shrink_chunk-splits, grow_multiplier-IsPool,
}
use rd_rs.Cache.Worker.Pass.{
  Stream, Chunk, Pass, Answered, with_content_range, ok_without_content_range, accepts, stream_of,
  advanced, opens, taken_chunk, shrunk, received, with_chunk, with_shrunk, Step, takes, receives,
  breaks, shrinks, retries, heals, finishes, gives_up, cancels,
}
use rd_rs.Cache.Worker.Pass.Integrity.{covers-write_range, covers-write_range_failed}
use rd_rs.Cache.Worker.Pass.Account.{
  next_of, next_byte, next_byte_from, IsAligned, pending, pending-append, IsPlaced, AllPlaced,
  AllPlaced-middle, AllPlaced-without, AllPlaced-with, accounted, IsSound,
}

queue-grow_multiplier : (p : Pool) → (grow_multiplier p).queue ≡ p.queue
unfolding grow_multiplier
queue-grow_multiplier p = refl

module _ (remote : ℕ → ℕ) (base_chunk start target : ℕ) (base_pos : 0 < base_chunk) where
  takes-IsSound :
      (p : Pass) (s e : ℕ) (pool : Pool)
      → take_chunk base_chunk p.pool ≡ (some (s, e), pool)
      → IsSound remote start target p
      → IsSound remote start target
          (record p { pool = pool; in_flight = taken_chunk s e ∷ p.in_flight })
  unfolding pending AllPlaced
  takes-IsSound p s e pool h w =
      let chunk = taken_after 0 in
      record {
        genuine = w.genuine;
        pool = chunk.1;
        placed = (record { nonempty = chunk.0.0; aligned = tt }, w.placed);
        account = λ x. ground (arith, (taken_after x).0.4, w.account x);
      }
    where
      taken_after :
          (x : ℕ)
          → Taken (base_chunk * p.pool.multiplier) x p.pool.queue (some (s, e)) pool.queue
            × IsPool pool
      taken_after x =
          subst
            (λ (r : Option Interval × Pool).
              Taken (base_chunk * p.pool.multiplier) x p.pool.queue r.0 r.1.queue × IsPool r.1)
            h (take_chunk-Taken base_chunk x p.pool base_pos w.pool)

  lost-IsSound :
      (p : Pass) (q : Pool) (xs ys : List Chunk) (c : Chunk) (b : Bool)
      → p.in_flight ≡ xs ++ (c ∷ ys)
      → IsPool q
      → q.queue ≡ p.pool.queue
      → (b ≡ true) ⊎ ((b ≡ p.lost) × (c.chunk_end ≤ next_byte c))
      → IsSound remote start target p
      → IsSound remote start target (record p { pool = q; in_flight = xs ++ ys; lost = b })
  unfolding pending
  lost-IsSound p q xs ys c b at good same why w = record {
    genuine = w.genuine;
    pool = good;
    placed = AllPlaced-without xs ys c (subst AllPlaced at w.placed);
    account = λ x.
        let before =
          subst (λ cs. accounted start target (record p { in_flight = cs }) x ≡ true) at
            (w.account x) in
        rw same (ground (arith, before, why, pending-append xs (c ∷ ys) x, pending-append xs ys x));
  }

  -- A chunk is replaced, and with it the pool and the item, no byte of them being forgotten.
  replaced-IsSound :
      (p : Pass) (i : Item) (t : Table) (q : Pool) (xs ys : List Chunk) (c c' : Chunk)
      → p.in_flight ≡ xs ++ (c ∷ ys)
      → IsGenuine remote i
      → IsPool q
      → IsPlaced c'
      → ((x : ℕ)
          → (covers p.item.ranges x
              || (covers_list p.pool.queue x || in_range (next_byte c) c.chunk_end x))
            ≡ true
          → (covers i.ranges x || (covers_list q.queue x || in_range (next_byte c') c'.chunk_end x))
            ≡ true)
      → IsSound remote start target p
      → IsSound remote start target
          (record p { pool = q; in_flight = xs ++ (c' ∷ ys); item = i; table = t })
  unfolding pending
  replaced-IsSound p i t q xs ys c c' at genuine good placed keeps w = record {
    genuine = genuine;
    pool = good;
    placed = AllPlaced-with xs ys c c' (subst AllPlaced at w.placed) placed;
    account = λ x.
        let before =
          subst (λ cs. accounted start target (record p { in_flight = cs }) x ≡ true) at
            (w.account x) in
        ground
          (arith, before, keeps x, pending-append xs (c ∷ ys) x, pending-append xs (c' ∷ ys) x);
  }

  IsPlaced-at :
      (p : Pass) (xs ys : List Chunk) (c : Chunk)
      → p.in_flight ≡ xs ++ (c ∷ ys)
      → IsSound remote start target p
      → IsPlaced c
  IsPlaced-at p xs ys c at w = AllPlaced-middle xs ys c (subst AllPlaced at w.placed)

  -- A body is stream_of where its first byte is the chunk's first, or else it is not taken.
  stream_of-IsAligned :
      (a : Answered) (s : ℕ) → accepts a s ≡ true → IsAligned s (some (stream_of a s))
  stream_of-IsAligned with_content_range s h = (omega arith, refl)
  stream_of-IsAligned ok_without_content_range s h = (omega arith, ground (arith, h))

  opens-IsSound :
      (p : Pass) (xs ys : List Chunk) (c : Chunk) (a : Answered)
      → p.in_flight ≡ xs ++ (c ∷ ys)
      → c.stream ≡ none
      → accepts a c.chunk_start ≡ true
      → IsSound remote start target p
      → IsSound remote start target
          (with_chunk xs (record c { stream = some (stream_of a c.chunk_start) }) ys p)
  opens-IsSound p xs ys c a at idle taken w =
      let placed = IsPlaced-at p xs ys c at w in
      replaced-IsSound p p.item p.table p.pool xs ys c _ at w.genuine w.pool
        (record { nonempty = placed.nonempty; aligned = stream_of-IsAligned a c.chunk_start taken })
        (λ x h. ground (arith, h, next_byte_from c.chunk_start c.stream placed.aligned)) w

  IsAligned-at :
      (c : Chunk) (b : Stream) → c.stream ≡ some b → IsPlaced c → IsAligned c.chunk_start (some b)
  IsAligned-at c b e placed = subst (IsAligned c.chunk_start) e placed.aligned

  receives-IsSound :
      (p : Pass) (xs ys : List Chunk) (c : Chunk) (b : Stream) (n now : ℕ) (stored : Bool)
      → p.in_flight ≡ xs ++ (c ∷ ys)
      → c.stream ≡ some b
      → b.current_pos + n < 2 ^ 64
      → IsSound remote start target p
      → IsSound remote start target (
          with_chunk xs
            (record c { stream = some (advanced n b) })
            ys
            (received remote n all_bytes now stored b p))
  receives-IsSound p xs ys c b n now stored at reading small w =
      let placed = IsPlaced-at p xs ys c at w in
      let aligned = IsAligned-at c b reading placed in
      let next : next_byte c ≡ b.current_pos = ap (next_of c.chunk_start) reading in
      replaced-IsSound p _ _ p.pool xs ys c _ at
        (rw aligned.1 (
          write_range-IsGenuine remote b.current_pos n all_bytes now stored p.item p.table small
            w.genuine))
        w.pool
        (record {
          nonempty = placed.nonempty;
          aligned = (omega (arith, aligned.0), omega (arith, aligned.1));
        })
        (λ x h. rw aligned.1 (
          ground (
            arith,
            h,
            next,
            covers-write_range remote b.current_pos n now x stored p.item p.table small
                w.genuine.normal,
          )))
        w

  breaks-IsSound :
      (p : Pass) (xs ys : List Chunk) (c : Chunk) (b : Stream) (n k now : ℕ) (stored : Bool)
      → p.in_flight ≡ xs ++ (c ∷ ys)
      → c.stream ≡ some b
      → b.current_pos + n < 2 ^ 64
      → IsSound remote start target p
      → IsSound remote start target (received remote n (failed_after k) now stored b p)
  breaks-IsSound p xs ys c b n k now stored at reading small w =
      let aligned = IsAligned-at c b reading (IsPlaced-at p xs ys c at w) in
      rw aligned.1 (record {
        genuine =
            write_range-IsGenuine remote b.current_pos n (failed_after k) now stored p.item p.table
              small w.genuine;
        pool = w.pool;
        placed = w.placed;
        account = λ x.
            rw (covers-write_range_failed remote b.current_pos n k now stored p.item p.table)
              (w.account x);
      })

  shrinks-IsSound :
      (p : Pass) (xs ys : List Chunk) (c : Chunk)
      → p.in_flight ≡ xs ++ (c ∷ ys)
      → IsSound remote start target p
      → IsSound remote start target (with_shrunk xs (shrunk base_chunk c p.pool) ys p)
  shrinks-IsSound p xs ys c at w =
      let placed = IsPlaced-at p xs ys c at w in
      let from = next_byte_from c.chunk_start c.stream placed.aligned in
      let split = λ (x : ℕ).
        shrink_chunk-splits base_chunk x c.chunk_start c.chunk_end p.pool base_pos placed.nonempty
          w.pool in
      replaced-IsSound p p.item p.table _ xs ys c _ at w.genuine (split 0).3
        (record { nonempty = (split 0).1; aligned = tt })
        (λ x h. ground (arith, h, from, (split x).0, (split x).5)) w

  -- The next try has no body yet.
  restarts-IsSound :
      (p : Pass) (xs ys : List Chunk) (c : Chunk) (tries : ℕ)
      → p.in_flight ≡ xs ++ (c ∷ ys)
      → IsSound remote start target p
      → IsSound remote start target (with_chunk xs (record c { retries = tries }) ys p)
  restarts-IsSound p xs ys c tries at w =
      let placed = IsPlaced-at p xs ys c at w in
      replaced-IsSound p p.item p.table p.pool xs ys c _ at w.genuine w.pool
        (record { nonempty = placed.nonempty; aligned = placed.aligned }) (λ x h. h) w

  pub Step-IsSound :
      (p q : Pass)
      → Step remote base_chunk p q
      → IsSound remote start target p
      → IsSound remote start target q
  Step-IsSound _ _ (takes p s e pool h) w = takes-IsSound p s e pool h w
  Step-IsSound _ _ (opens p xs ys c a at idle taken) w = opens-IsSound p xs ys c a at idle taken w
  Step-IsSound _ _ (receives p xs ys c b n now stored at reading small) w =
      receives-IsSound p xs ys c b n now stored at reading small w
  Step-IsSound _ _ (breaks p xs ys c b n k now stored at reading small) w =
      breaks-IsSound p xs ys c b n k now stored at reading small w
  Step-IsSound _ _ (shrinks p xs ys c at left) w = shrinks-IsSound p xs ys c at w
  Step-IsSound _ _ (retries p xs ys c a at idle stale left) w =
      restarts-IsSound p xs ys c (c.retries + 1) at w
  Step-IsSound _ _ (heals p xs ys c at idle) w = restarts-IsSound p xs ys c 0 at w
  Step-IsSound _ _ (finishes p xs ys c b at reading) w =
      let next : next_byte c ≡ b.current_pos = ap (next_of c.chunk_start) reading in
      lost-IsSound p (grow_multiplier p.pool) xs ys c (p.lost || ltb b.current_pos c.chunk_end) at
        (grow_multiplier-IsPool p.pool w.pool).0 (queue-grow_multiplier p.pool)
        (elim (Bool-cases (p.lost || ltb b.current_pos c.chunk_end)) [
          | inl e ↦ inl e
          | inr e ↦ inr (ground (arith, e), ground (arith, e, next))
        ])
        w
  Step-IsSound _ _ (gives_up p xs ys c at out) w =
      lost-IsSound p p.pool xs ys c true at w.pool refl (inl refl) w
  Step-IsSound _ _ (cancels p xs ys c at) w =
      lost-IsSound p p.pool xs ys c true at w.pool refl (inl refl) w

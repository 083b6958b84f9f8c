-- ===== src/Tests/Passes.antt =====
-- The theorems on a whole pass of the chunk workers.
use rd_rs.Prelude.{ℕ, ◌+◌, ◌≡◌, refl, ap, true, false, some, [], ◌∷◌, arith, partition_point}
use rd_rs.Cache.ByteRanges.{ByteRanges, new, find_missing, find_gap, has_range}
use rd_rs.Cache.ByteRanges.Coverage.{covers, covers_list}
use rd_rs.Cache.Item.{Item, all_bytes, fresh}
use rd_rs.Cache.Item.Integrity.{Holds, IsGenuine}
use rd_rs.Cache.Worker.{slices_to_fetch, missing_slices, take_chunk, cut_front, grow_multiplier}
use rd_rs.Cache.Worker.Chunks.{IsPool}
use rd_rs.Cache.Worker.Pass.{
  Chunk, Pass, begin_pass, taken_chunk, received, with_chunk, takes, opens, with_content_range,
  receives, finishes, Steps, none_yet, one_more,
}
use rd_rs.Cache.Worker.Pass.Fetched.{pass-IsGenuine, pass-covers}

abbrev doubles : ℕ → ℕ
doubles x = x + x

abbrev empty_item : Item
empty_item = fresh "a/1" 4 0 (0 ∷ 0 ∷ 0 ∷ 0 ∷ []) new

no_byte : (x : ℕ) → covers empty_item.ranges x ≡ true → Holds doubles empty_item.disk x
unfolding covers covers_list
no_byte x h = absurd (ground arith)

empty_item-IsGenuine : IsGenuine doubles empty_item
empty_item-IsGenuine = record { normal = tt; bytes = no_byte }

abbrev begun : Pass
begun = begin_pass empty_item [] 1 2 8

abbrev after_take : Pass
after_take = record begun {
  pool = record { queue = []; multiplier = 1 };
  in_flight = taken_chunk 1 4 ∷ [];
}

-- Its body has come to the byte `x`.
abbrev chunk_at : ℕ → Chunk
chunk_at x = record (taken_chunk 1 4) { stream = some (record { body = x; current_pos = x }) }

abbrev after_headers : Pass
after_headers = with_chunk [] (chunk_at 1) [] after_take

abbrev after_body : Pass
after_body =
    with_chunk [] (chunk_at (1 + 3)) []
      (received doubles 3 all_bytes 0 true (record { body = 1; current_pos = 1 }) after_headers)

abbrev after_end : Pass
after_end = record after_body {
  pool = grow_multiplier after_body.pool;
  in_flight = [];
  lost = false;
}

queue_of_begun : begun.pool.queue ≡ (1, 4) ∷ []
unfolding slices_to_fetch missing_slices find_missing find_gap has_range
    rd_rs.Cache.ByteRanges.reaches partition_point
queue_of_begun = refl

takes_all : take_chunk 8 begun.pool ≡ (some (1, 4), after_take.pool)
unfolding take_chunk cut_front
takes_all = ap (λ q. take_chunk 8 (record { queue = q; multiplier = 1 })) queue_of_begun

whole_pass : Steps doubles 8 begun after_end
whole_pass =
    one_more after_body after_end
      (one_more after_headers after_body
        (one_more after_take after_headers
          (one_more begun after_take none_yet (takes begun 1 4 after_take.pool takes_all))
          (opens after_take [] [] (taken_chunk 1 4) with_content_range refl refl refl))
        (receives after_headers [] [] (chunk_at 1) _ 3 0 true refl refl (omega arith)))
      (finishes after_body [] [] (chunk_at (1 + 3)) _ refl refl)

pass-IsGenuine_example : IsGenuine doubles after_end.item × IsPool after_end.pool
pass-IsGenuine_example =
    pass-IsGenuine doubles 8 empty_item [] 1 2 8 after_end (omega arith) empty_item-IsGenuine
      whole_pass

empty_queue : after_end.pool.queue ≡ []
unfolding grow_multiplier
empty_queue = refl

pass-covers_example : (covers after_end.item.ranges 3 ≡ true) × Holds doubles after_end.item.disk 3
pass-covers_example =
    pass-covers doubles 8 empty_item [] 1 2 8 3 after_end (omega arith) empty_item-IsGenuine
      whole_pass empty_queue refl refl (omega arith) (omega arith)

-- ===== src/Repair/Capacity/Waiting.antt =====
-- The wait for a slot ends within 11 queries, and succeeds just when one of them sees a free slot.
use rd_rs.Prelude.{ℕ, zero, suc, ◌+◌, ◌≡◌, Bool, false, not, ◌&&◌, ◌||◌, some, arith}
use rd_rs.Repair.Capacity.{has_free_slot, World, wait_from, wait_for_repair_capacity}

-- Whether one of so many retries from `retry` on sees a free slot, no shutdown being seen before.
pub sees_slot : World → ℕ → ℕ → Bool
sees_slot w zero retry = false
sees_slot w (suc n) retry =
    not (w.cancelled_at_start retry)
    && (has_free_slot (w.active_count retry)
        || (not (w.cancelled_in_sleep retry) && sees_slot w n (retry + 1)))

wait_from-sees_slot :
    (w : World) (n retry : ℕ)
    → retry + n ≡ 10
    → wait_from w (suc n) retry ≡ some (sees_slot w (suc n) retry)
unfolding wait_from sees_slot
wait_from-sees_slot w zero retry h = ground arith
wait_from-sees_slot w (suc n) retry h =
    ground (arith, wait_from-sees_slot w n (retry + 1) (omega arith))

-- The wait for a repair slot ends after 11 queries at most. It succeeds just when one of them sees
-- a free slot and no shutdown is seen before it.
pub wait_for_repair_capacity-sees_slot :
    (w : World) → wait_for_repair_capacity w ≡ some (sees_slot w 11 0)
unfolding wait_for_repair_capacity
wait_for_repair_capacity-sees_slot w = wait_from-sees_slot w 10 0 (omega arith)

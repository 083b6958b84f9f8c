-- ===== src/Repair/Capacity.antt =====
-- `wait_for_repair_capacity` of src/repair/capacity.rs. What the API answers to the query of a
-- retry, and whether a shutdown is seen at a retry's start or in its sleep, are arguments.
pub mod Waiting
use rd_rs.Prelude.{
  ℕ, zero, suc, ◌+◌, ◌-◌, ◌*◌, ◌^◌, min, max, Bool, true, false, ◌&&◌, Option, none, some, ltb, leb,
  if◌then◌else◌,
}

abbrev pub max_retries : ℕ
max_retries = 10

abbrev pub base_delay_secs : ℕ
base_delay_secs = 60

abbrev pub max_delay_secs : ℕ
max_delay_secs = 600

-- An error, or how many torrents download and how many may.
pub data ActiveCount : Type 0 where
  failed_count : ActiveCount
  counted : (downloading_count max_number_of_torrents : ℕ) → ActiveCount

abbrev pub has_free_slot : ActiveCount → Bool
has_free_slot failed_count = false
has_free_slot (counted downloading most) = ltb downloading (max most 1 - 1)

-- `1u64 << pow` and `saturating_mul`, on the number of the retry.
unfoldable pub delay_secs : ℕ → ℕ
delay_secs retry =
    min (max (min (2 ^ min retry 31 * 30) (2 ^ 64 - 1)) base_delay_secs) max_delay_secs

pub record World : Type 0 where
  pub active_count : ℕ → ActiveCount
  pub cancelled_at_start : ℕ → Bool
  pub cancelled_in_sleep : ℕ → Bool

-- The loop on fuel, from a retry on; `none` is out of fuel. An error at the last retry and full
-- slots at the last retry both answer `false`.
unfoldable pub wait_from : World → ℕ → ℕ → Option Bool
wait_from w zero retry = none
wait_from w (suc fuel) retry =
    let rest = wait_from w fuel (retry + 1) in
    if w.cancelled_at_start retry
    then some false
    else if has_free_slot (w.active_count retry)
    then some true
    else if leb max_retries retry
    then some false
    else if w.cancelled_in_sleep retry
    then some false
    else rest

unfoldable pub wait_for_repair_capacity : World → Option Bool
unfolding wait_from
wait_for_repair_capacity w = wait_from w 11 0

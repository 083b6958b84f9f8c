-- ===== src/Prelude/Int.antt =====
-- Signed 64-bit integers as integers, and the source's casts between them and `u64`.
use Prim.Native.Nat.{ℕ, ◌-◌, ◌^◌, ◌<◌}
use mathlib.Core.Path.{◌≡◌}
use native.Mathlib.Omega.{arith}
use mathlib.Core.Bool.{Bool, false}
use rd_rs.Prelude.Tests.{ltb, ◌==◌, if◌then◌else◌}

-- `negsuc n` is -(n + 1).
pub data ℤ : Type 0 where
  pos : ℕ → ℤ
  negsuc : ℕ → ℤ

-- `n as i64` of a `u64`: the same 64 bits, read in two's complement.
abbrev pub as_i64 : ℕ → ℤ
as_i64 n = if ltb n (2 ^ 63) then pos n else negsuc (2 ^ 64 - n - 1)

-- `z.max(0) as u64` of an `i64`.
abbrev pub max_0_as_u64 : ℤ → ℕ
max_0_as_u64 (pos n) = n
max_0_as_u64 (negsuc n) = 0

pub max_0_as_u64-as_i64 : (n : ℕ) → n < 2 ^ 63 → max_0_as_u64 (as_i64 n) ≡ n
max_0_as_u64-as_i64 n h = ground arith

infix 50 ◌=ℤ◌
abbrev pub ◌=ℤ◌ : ℤ → ℤ → Bool
pos a =ℤ pos b = a == b
pos a =ℤ negsuc b = false
negsuc a =ℤ pos b = false
negsuc a =ℤ negsuc b = a == b

-- `z > 0`
abbrev pub is_positive : ℤ → Bool
is_positive (pos n) = ltb 0 n
is_positive (negsuc n) = false

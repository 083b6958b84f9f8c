-- ===== src/Prelude/Slice.antt =====
-- A file given by its bytes, and the list of its bytes over a range.
use Prim.Native.Nat.{ℕ, zero, suc, ◌+◌, ◌-◌, ◌<◌, min}
use mathlib.Core.Path.{◌≡◌, refl, ap, ◌∙◌}
use mathlib.Core.List.{List, [], ◌∷◌}
use native.Mathlib.Omega.{arith}
use rd_rs.Prelude.Lists.{length, get_or, take, drop}

-- The bytes `[offset, offset + n)` of a file that is given by its bytes.
abbrev pub slice : (ℕ → ℕ) → ℕ → ℕ → List ℕ
slice f offset zero = []
slice f offset (suc n) = f offset ∷ slice f (suc offset) n

pub length-slice : (f : ℕ → ℕ) (offset n : ℕ) → length (slice f offset n) ≡ n
length-slice f offset zero = refl
length-slice f offset (suc n) = ap suc (length-slice f (suc offset) n)

pub get_or-slice :
    (f : ℕ → ℕ) (offset n x : ℕ) → x < n → get_or (slice f offset n) x 0 ≡ f (offset + x)
get_or-slice f offset zero x h = elim h [ ]
get_or-slice f offset (suc n) zero h = ap f (omega arith)
get_or-slice f offset (suc n) (suc x) h =
    get_or-slice f (suc offset) n x (omega arith) ∙ ap f (omega arith)

pub take-slice : (f : ℕ → ℕ) (k offset n : ℕ) → take k (slice f offset n) ≡ slice f offset (min k n)
take-slice f zero offset n = rw (let e : min 0 n ≡ 0 = omega arith in e)
take-slice f (suc k) offset zero = rw (let e : min (suc k) 0 ≡ 0 = omega arith in e)
take-slice f (suc k) offset (suc n) =
    rw (let e : min (suc k) (suc n) ≡ suc (min k n) = omega arith in e)
      (ap (◌∷◌ (f offset)) (take-slice f k (suc offset) n))

pub drop-slice :
    (f : ℕ → ℕ) (k offset n : ℕ) → drop k (slice f offset n) ≡ slice f (offset + k) (n - k)
drop-slice f zero offset n =
    rw (let e : offset + 0 ≡ offset = omega arith in e, let e : n - 0 ≡ n = omega arith in e)
drop-slice f (suc k) offset zero = rw (let e : 0 - suc k ≡ 0 = omega arith in e)
drop-slice f (suc k) offset (suc n) =
    rw
      (
        let e : offset + suc k ≡ suc offset + k = omega arith in e,
        let e : suc n - suc k ≡ n - k = omega arith in e,
      )
      (drop-slice f k (suc offset) n)

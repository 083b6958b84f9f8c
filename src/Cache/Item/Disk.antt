-- ===== src/Cache/Item/Disk.antt =====
-- The bytes that the file operations of a cache item leave at each position.
use rd_rs.Prelude.{
  ℕ, zero, suc, ◌+◌, ◌-◌, ◌≤◌, ◌<◌, max, ◌≡◌, refl, ap, ◌∙◌, ◌&&◌, some, List, [], ◌∷◌, arith, ltb,
  leb, if◌then◌else◌, length, take, drop, get_or, get_or-past, get_or-drop, length-drop,
}
use rd_rs.Prelude.Slice.{slice}
use rd_rs.Cache.Item.{write_at, read_exact}

pub get_or-write_at :
    (offset : ℕ) (written bytes : List ℕ) (x : ℕ)
    → get_or (write_at offset written bytes) x 0 ≡ (
        if leb offset x && ltb x (offset + length written)
        then get_or written (x - offset) 0
        else get_or bytes x 0)
unfolding write_at
get_or-write_at zero written [] x = ground (arith, get_or-past written x 0)
get_or-write_at zero [] (b ∷ bytes) x = ground arith
get_or-write_at zero (w ∷ written) (b ∷ bytes) zero = ground arith
get_or-write_at zero (w ∷ written) (b ∷ bytes) (suc x) =
    ground (arith, get_or-write_at zero written bytes x)
get_or-write_at (suc offset) written [] zero = ground arith
get_or-write_at (suc offset) written [] (suc x) =
    ground (arith, get_or-write_at offset written [] x)
get_or-write_at (suc offset) written (b ∷ bytes) zero = ground arith
get_or-write_at (suc offset) written (b ∷ bytes) (suc x) =
    ground (arith, get_or-write_at offset written bytes x)

pub length-write_at :
    (offset : ℕ) (written bytes : List ℕ)
    → length (write_at offset written bytes) ≡ max (offset + length written) (length bytes)
unfolding write_at
length-write_at zero written [] = omega arith
length-write_at zero [] (b ∷ bytes) = omega arith
length-write_at zero (w ∷ written) (b ∷ bytes) = omega (arith, length-write_at zero written bytes)
length-write_at (suc offset) written [] = omega (arith, length-write_at offset written [])
length-write_at (suc offset) written (b ∷ bytes) =
    omega (arith, length-write_at offset written bytes)

-- The first `n` bytes agree with the part of the file at `base`.
Agrees : (ℕ → ℕ) → ℕ → ℕ → List ℕ → Type 0
Agrees f base n bytes = (x : ℕ) → x < n → (x < length bytes) × (get_or bytes x 0 ≡ f (base + x))

take-eq-slice :
    (f : ℕ → ℕ) (base n : ℕ) (bytes : List ℕ)
    → Agrees f base n bytes
    → take n bytes ≡ slice f base n
unfolding Agrees
take-eq-slice f base zero bytes h = refl
take-eq-slice f base (suc n) [] h = absurd (omega (arith, h 0 (omega arith)))
take-eq-slice f base (suc n) (b ∷ bytes) h =
    let head : b ≡ f base = (h 0 (omega arith)).1 ∙ ap f (omega arith) in
    let tail = take-eq-slice f (suc base) n bytes (λ x p.
      (omega (arith, h (suc x) (omega arith)), (h (suc x) (omega arith)).1 ∙ ap f (omega arith))) in
    λ i. head i ∷ tail i

-- Bytes that agree with the file over a range are read as that part of the file.
pub read_exact-slice :
    (f : ℕ → ℕ) (offset n : ℕ) (bytes : List ℕ)
    → ((x : ℕ) → offset ≤ x → x < offset + n → (x < length bytes) × (get_or bytes x 0 ≡ f x))
    → read_exact offset n bytes ≡ some (slice f offset n)
unfolding read_exact Agrees
read_exact-slice f offset zero bytes h = refl
read_exact-slice f offset (suc n) bytes h =
    let all = take-eq-slice f offset (suc n) (drop offset bytes) (λ x p. (
      omega (arith, h (offset + x) (omega arith) (omega arith), length-drop offset bytes),
      get_or-drop offset bytes x 0 ∙ (h (offset + x) (omega arith) (omega arith)).1,
    )) in
    ground (arith, all, h (offset + n))

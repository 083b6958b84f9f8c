-- ===== src/Rd/TokenPool/Bearer.antt =====
-- `download_bearer` picks the first token from the rotation index on that is not exhausted.
use rd_rs.Prelude.{
  ℕ, zero, suc, ◌+◌, ◌-◌, ◌%◌, ◌<◌, ◌≡◌, ◌⊎◌, inl, inr, refl, sym, ap, ◌∙◌, Bool, true, false,
  Option, none, some, List, String, arith, ltb, ◌==◌, if◌then◌else◌, length, get_elem?, Bool-cases,
}
use native.Mathlib.Nat.{mod-lt, mod-eq_of_lt}
use rd_rs.Rd.TokenPool.{TokenPool, len, start_of, is_slot_exhausted, scan, settle, download_bearer}

-- There is a token, and each has its flag.
pub record IsPool (p : TokenPool) : Type 0 where
  pub inhabited : 0 < len p
  pub flags : length p.exhausted ≡ len p

-- The flag of the slot that is `k` steps on from `start`.
abbrev pub used_at : List Bool → ℕ → ℕ → ℕ → Bool
used_at e n start k = is_slot_exhausted e ((start + k) % n)

-- `f` holds of the `rounds` numbers from `step` on.
AllFrom : (ℕ → Bool) → ℕ → ℕ → Type 0
AllFrom f step rounds = (k : ℕ) → k < rounds → f (step + k) ≡ true

AllFrom-next :
    (f : ℕ → Bool) (step rounds : ℕ)
    → f step ≡ true
    → AllFrom f (step + 1) rounds
    → AllFrom f step (suc rounds)
unfolding AllFrom
AllFrom-next f step rounds h all zero lt = ap f (let e : step + 0 ≡ step = omega arith in e) ∙ h
AllFrom-next f step rounds h all (suc k) lt =
    ap f (let e : step + suc k ≡ step + 1 + k = omega arith in e) ∙ all k (omega arith)

-- The outcome of the loop over `rounds` steps: the slot of the first step that is not exhausted,
-- or every slot is.
FirstFree : List Bool → ℕ → ℕ → ℕ → ℕ → Option ℕ → Type 0
FirstFree e n start step rounds none = AllFrom (used_at e n start) step rounds
FirstFree e n start step rounds (some i) =
    (k : ℕ) × (k < rounds)
    × (i ≡ (start + (step + k)) % n)
    × (is_slot_exhausted e i ≡ false)
    × AllFrom (used_at e n start) step k

FirstFree-next :
    (e : List Bool) (n start step rounds : ℕ) (o : Option ℕ)
    → used_at e n start step ≡ true
    → FirstFree e n start (step + 1) rounds o
    → FirstFree e n start step (suc rounds) o
unfolding FirstFree
FirstFree-next e n start step rounds none h r = AllFrom-next (used_at e n start) step rounds h r
FirstFree-next e n start step rounds (some i) h (k, lt, at, free, before) = (
  suc k,
  omega arith,
  at ∙ ap (λ j. (start + j) % n) (let q : step + 1 + k ≡ step + suc k = omega arith in q),
  free,
  AllFrom-next (used_at e n start) step k h before,
)

scan-FirstFree :
    (e : List Bool) (n start step rounds : ℕ)
    → FirstFree e n start step rounds (scan e n start step rounds)
unfolding scan FirstFree AllFrom
scan-FirstFree e n start step zero = λ k h. elim h [ ]
scan-FirstFree e n start step (suc rounds) = elim (Bool-cases (used_at e n start step)) [
  | inl used ↦
      rw used
        (FirstFree-next e n start step rounds _ used (scan-FirstFree e n start (step + 1) rounds))
  | inr free ↦ rw free (
    0,
    omega arith,
    ap (λ j. (start + j) % n) (let q : step ≡ step + 0 = omega arith in q),
    free,
    λ k h. elim h [ ],
  )
]

-- Slot `i` of `n` is met within `n` steps from `start`.
steps_to : (n start i : ℕ) → start < n → i < n → (k : ℕ) × (k < n) × ((start + k) % n ≡ i)
steps_to n start i p q = elim (Bool-cases (ltb i start)) [
  | inr after ↦
      (i - start, omega arith, let e : start + (i - start) ≡ i = ground arith in rw e (grind arith))
  | inl before ↦ (
    i + n - start,
    ground arith,
    let e : start + (i + n - start) ≡ i + n = ground arith in rw e (grind arith),
  )
]

all_used :
    (e : List Bool) (n start i : ℕ)
    → start < n
    → AllFrom (used_at e n start) 0 n
    → i < n
    → is_slot_exhausted e i ≡ true
unfolding AllFrom
all_used e n start i p all q =
    let (k, lt, at) = steps_to n start i p q in
    ap (is_slot_exhausted e) (sym at)
    ∙ ap (used_at e n start) (let q : k ≡ 0 + k = omega arith in q)
    ∙ all k lt

-- The bearer is the token of a free slot, the first from the rotation index on, and the rotation
-- index is then at that slot; or every slot is exhausted, the bearer is the token at the rotation
-- index, and nothing changes.
unfoldable pub Chosen : TokenPool → Option String × TokenPool → Type 0
Chosen p (t, p') =
    ((i : ℕ) × (k : ℕ) × (i < len p)
      × (i ≡ (start_of p + k) % len p)
      × (is_slot_exhausted p.exhausted i ≡ false)
      × ((j : ℕ) → j < k → used_at p.exhausted (len p) (start_of p) j ≡ true)
      × (t ≡ get_elem? p.tokens i)
      × (start_of p' ≡ i)
      × (p'.tokens ≡ p.tokens)
      × (p'.exhausted ≡ p.exhausted))
    ⊎ (((i : ℕ) → i < len p → is_slot_exhausted p.exhausted i ≡ true)
        × (t ≡ get_elem? p.tokens (start_of p))
        × (p' ≡ p))

start_of_settle :
    (p : TokenPool) (i : ℕ)
    → i < len p
    → start_of (if i == start_of p then p else record p { current = i }) ≡ i
start_of_settle p i lt = elim (Bool-cases (i == start_of p)) [
  | inl same ↦ rw same (ground arith)
  | inr other ↦ rw other (mod-eq_of_lt lt)
]

pub kept_settle :
    (p : TokenPool) (b : Bool) (i : ℕ)
    → ((if b then p else record p { current = i }).tokens ≡ p.tokens)
      × ((if b then p else record p { current = i }).exhausted ≡ p.exhausted)
kept_settle p true i = (refl, refl)
kept_settle p false i = (refl, refl)

settle-Chosen :
    (p : TokenPool) (o : Option ℕ)
    → IsPool p
    → FirstFree p.exhausted (len p) (start_of p) 0 (len p) o
    → Chosen p (settle p o)
unfolding FirstFree Chosen AllFrom
settle-Chosen p none w all = inr (
  (λ i h. all_used p.exhausted (len p) (start_of p) i (mod-lt p.current w.inhabited) all h),
  refl,
  refl,
)
settle-Chosen p (some i) w (k, lt, at, free, before) =
    let in_pool : i < len p = rw at (mod-lt (start_of p + (0 + k)) w.inhabited) in
    let kept = kept_settle p (i == start_of p) i in
    inl (
      i,
      k,
      in_pool,
      at ∙ ap (λ j. (start_of p + j) % len p) (let e : 0 + k ≡ k = omega arith in e),
      free,
      (λ j h.
          ap (used_at p.exhausted (len p) (start_of p)) (let e : j ≡ 0 + j = omega arith in e)
          ∙ before j h),
      refl,
      start_of_settle p i in_pool,
      kept.0,
      kept.1,
    )

-- Of a pool with a token and a flag for each, the bearer is the token of the first slot, from the
-- rotation index on, that is not exhausted, and the rotation index moves to that slot while tokens
-- and flags stay; when every slot is exhausted, the bearer is the token at the rotation index and
-- the pool stays as it is.
pub download_bearer-Chosen : (p : TokenPool) → IsPool p → Chosen p (download_bearer p)
unfolding download_bearer
download_bearer-Chosen p w =
    settle-Chosen p _ w (scan-FirstFree p.exhausted (len p) (start_of p) 0 (len p))

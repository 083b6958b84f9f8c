-- ===== src/Rd/TokenPool/Exhaustion.antt =====
-- Marking tokens as exhausted, and clearing the marks.
use rd_rs.Prelude.{
  inl, inr, ℕ, zero, suc, ◌+◌, ◌<◌, ◌≡◌, ◌≢◌, refl, sym, ap, ◌∙◌, Bool, true, false, Option, none,
  some, List, [], ◌∷◌, map, String, arith, if◌then◌else◌, length, get_elem?, get_or, set,
  Bool-cases,
}
use mathlib.Core.Path.{subst}
use mathlib.Core.Option.{some-injective}
use rd_rs.Prelude.Map.{contains, ◌=?◌, string_keys}
use rd_rs.Rd.TokenPool.{
  TokenPool, is_slot_exhausted, eligible_from, eligible_tokens_in_order, slot_from, slot_of,
  exhausted_at, is_exhausted, exhaust_at, mark_exhausted, clear_all_exhausted, any_from,
  any_non_exhausted,
}
use rd_rs.Rd.TokenPool.Bearer.{IsPool}

module _ {ℓ} {A : Type ℓ} where
  pub get_or-set_self :
      (xs : List A) (i : ℕ) (v d : A) → i < length xs → get_or (set xs i v) i d ≡ v
  get_or-set_self [] i v d h = elim h [ ]
  get_or-set_self (x ∷ xs) zero v d h = refl
  get_or-set_self (x ∷ xs) (suc i) v d h = get_or-set_self xs i v d (omega arith)

  pub get_or-set_ne :
      (xs : List A) (i j : ℕ) (v d : A) → i ≢ j → get_or (set xs i v) j d ≡ get_or xs j d
  get_or-set_ne [] i j v d h = refl
  get_or-set_ne (x ∷ xs) zero zero v d h = absurd (h refl)
  get_or-set_ne (x ∷ xs) zero (suc j) v d h = refl
  get_or-set_ne (x ∷ xs) (suc i) zero v d h = refl
  get_or-set_ne (x ∷ xs) (suc i) (suc j) v d h = get_or-set_ne xs i j v d (λ e. h (ap suc e))

-- The slot found, counted from `i`, holds the token; where none is found, no slot does.
unfoldable pub HoldsAt : String → ℕ → List String → Option ℕ → Type 0
HoldsAt token i ts none = (m : ℕ) → get_elem? ts m ≢ some token
HoldsAt token i ts (some k) =
    (m : ℕ) × (k ≡ i + m) × (m < length ts) × (get_elem? ts m ≡ some token)

missing_next :
    (token t : String) (ts : List String)
    → (t =? token) ≡ false
    → ((m : ℕ) → get_elem? ts m ≢ some token)
    → (m : ℕ) → get_elem? (t ∷ ts) m ≢ some token
missing_next token t ts ne h zero = λ e.
    let same : t ≡ token = some-injective t token e in ground (arith, (string_keys).beq_iff t token)
missing_next token t ts ne h (suc m) = h m

HoldsAt-next :
    (token t : String) (i : ℕ) (ts : List String) (o : Option ℕ)
    → (t =? token) ≡ false
    → HoldsAt token (suc i) ts o
    → HoldsAt token i (t ∷ ts) o
unfolding HoldsAt
HoldsAt-next token t i ts none ne h = missing_next token t ts ne h
HoldsAt-next token t i ts (some k) ne (m, at, lt, holds) = (suc m, omega arith, omega arith, holds)

pub slot_from-HoldsAt :
    (token : String) (i : ℕ) (ts : List String) → HoldsAt token i ts (slot_from token i ts)
unfolding slot_from HoldsAt
slot_from-HoldsAt token i [] = λ m. ground arith
slot_from-HoldsAt token i (t ∷ ts) = elim (Bool-cases (t =? token)) [
  | inl same ↦
      rw same (0, omega arith, omega arith, ap some (((string_keys).beq_iff t token).0 same))
  | inr other ↦ rw other (HoldsAt-next token t i ts _ other (slot_from-HoldsAt token (suc i) ts))
]

-- Two tokens found in one slot are one token.
HoldsAt-injective :
    (s t : String) (i k : ℕ) (ts : List String)
    → HoldsAt s i ts (some k)
    → HoldsAt t i ts (some k)
    → s ≡ t
unfolding HoldsAt
HoldsAt-injective s t i k ts (m, at, lt, holds) (n, at', lt', holds') =
    let e : m ≡ n = omega arith in some-injective s t (sym holds ∙ ap (get_elem? ts) e ∙ holds')

abbrev found : Option ℕ → Bool
found none = false
found (some k) = true

contains-slot_from :
    (token : String) (i : ℕ) (ts : List String) → contains ts token ≡ found (slot_from token i ts)
unfolding slot_from contains
contains-slot_from token i [] = refl
contains-slot_from token i (t ∷ ts) = elim (Bool-cases (t =? token)) [
  | inl same ↦ rw same refl
  | inr other ↦ rw other (contains-slot_from token (suc i) ts)
]

flag_of_own_mark :
    (p : TokenPool) (t : String) (o : Option ℕ)
    → IsPool p
    → HoldsAt t 0 p.tokens o
    → exhausted_at (exhaust_at p o) o ≡ found o
unfolding HoldsAt
flag_of_own_mark p t none w h = refl
flag_of_own_mark p t (some k) w (m, at, lt, holds) =
    get_or-set_self p.exhausted k true false (omega (arith, w.flags))

flag_of_other_mark :
    (p : TokenPool) (t s : String) (o q : Option ℕ)
    → s ≢ t
    → HoldsAt t 0 p.tokens o
    → HoldsAt s 0 p.tokens q
    → exhausted_at (exhaust_at p o) q ≡ exhausted_at p q
flag_of_other_mark p t s none q ne ho hq = refl
flag_of_other_mark p t s (some k) none ne ho hq = refl
flag_of_other_mark p t s (some k) (some j) ne ho hq = get_or-set_ne p.exhausted k j true false (λ e.
    ne (
      HoldsAt-injective s t 0 k p.tokens (subst (λ i. HoldsAt s 0 p.tokens (some i)) (sym e) hq)
        ho))

pub tokens-mark : (p : TokenPool) (o : Option ℕ) → (exhaust_at p o).tokens ≡ p.tokens
tokens-mark p none = refl
tokens-mark p (some k) = refl

-- In a well-formed pool, marking a token makes it exhausted if the pool holds it, and changes
-- whether any other token is exhausted in no case.
pub is_exhausted-mark_exhausted :
    (p : TokenPool) (t s : String)
    → IsPool p
    → is_exhausted (mark_exhausted t p) s
      ≡ (if s =? t then contains p.tokens t else is_exhausted p s)
unfolding is_exhausted mark_exhausted
is_exhausted-mark_exhausted p t s w = rw (tokens-mark p (slot_of p t)) (elim (Bool-cases (s =? t)) [
  | inl same ↦
      let e : s ≡ t = ((string_keys).beq_iff s t).0 same in
      rw same (
        ap (λ u. exhausted_at (exhaust_at p (slot_of p t)) (slot_of p u)) e
        ∙ flag_of_own_mark p t (slot_of p t) w (slot_from-HoldsAt t 0 p.tokens)
        ∙ sym (contains-slot_from t 0 p.tokens))
  | inr other ↦ rw other (
      flag_of_other_mark p t s (slot_of p t) (slot_of p s)
        (ground (arith, (string_keys).beq_iff s t)) (slot_from-HoldsAt t 0 p.tokens)
        (slot_from-HoldsAt s 0 p.tokens))
])

get_or-map-false : (e : List Bool) (i : ℕ) → get_or (map (λ x. false) e) i false ≡ false
get_or-map-false [] i = refl
get_or-map-false (x ∷ e) zero = refl
get_or-map-false (x ∷ e) (suc i) = get_or-map-false e i

pub length-map-false : (e : List Bool) → length (map (λ x. false) e) ≡ length e
length-map-false [] = refl
length-map-false (x ∷ e) = ap suc (length-map-false e)

abbrev pub nonempty : List String → Bool
nonempty [] = false
nonempty (t ∷ ts) = true

any_from-eligible_from :
    (e : List Bool) (i : ℕ) (ts : List String) → any_from e i ts ≡ nonempty (eligible_from e i ts)
unfolding any_from eligible_from
any_from-eligible_from e i [] = refl
any_from-eligible_from e i (t ∷ ts) = elim (Bool-cases (is_slot_exhausted e i)) [
  | inl used ↦ rw used (any_from-eligible_from e (suc i) ts)
  | inr free ↦ rw free refl
]

eligible_from_clear :
    (e : List Bool) (i : ℕ) (ts : List String) → eligible_from (map (λ x. false) e) i ts ≡ ts
unfolding eligible_from
eligible_from_clear e i [] = refl
eligible_from_clear e i (t ∷ ts) =
    rw (get_or-map-false e i) (ap (λ r. t ∷ r) (eligible_from_clear e (suc i) ts))

-- The pool answers that a slot is free just when the list of eligible tokens is not empty, and
-- after clearing every token is eligible, in the pool's order.
pub eligible-any_non_exhausted :
    (p : TokenPool)
    → (any_non_exhausted p ≡ nonempty (eligible_tokens_in_order p))
      × (eligible_tokens_in_order (clear_all_exhausted p) ≡ p.tokens)
unfolding any_non_exhausted eligible_tokens_in_order clear_all_exhausted
eligible-any_non_exhausted p =
    (any_from-eligible_from p.exhausted 0 p.tokens, eligible_from_clear p.exhausted 0 p.tokens)

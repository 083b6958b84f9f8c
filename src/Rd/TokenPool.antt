-- ===== src/Rd/TokenPool.antt =====
-- `TokenPool` of src/rd/token_pool.rs. The atomics are read and written by one call at a time; a
-- call that would panic on an empty pool answers `none`.
pub mod Bearer
pub mod Exhaustion
pub mod Reach
pub mod Rotation
use rd_rs.Prelude.{
  ℕ, zero, suc, ◌+◌, ◌%◌, ◌^◌, Bool, true, false, not, ◌||◌, Option, none, some, List, [], ◌∷◌, map,
  String, ltb, leb, ◌==◌, if◌then◌else◌, length, get_elem?, get_or, set, replicate,
}
use rd_rs.Prelude.Map.{◌=?◌, string_keys}

pub record TokenPool : Type 0 where
  pub tokens : List String
  pub exhausted : List Bool
  pub current : ℕ

-- `none` is the panic of the assertion that there is at least one token.
unfoldable pub new : List String → Option TokenPool
new [] = none
new (t ∷ ts) =
    some (record { tokens = t ∷ ts; exhausted = replicate (length (t ∷ ts)) false; current = 0 })

abbrev pub len : TokenPool → ℕ
len p = length p.tokens

-- The rotation index, brought into the pool.
abbrev pub start_of : TokenPool → ℕ
start_of p = p.current % len p

unfoldable pub current_token : TokenPool → Option String
current_token p = get_elem? p.tokens (start_of p)

abbrev pub is_slot_exhausted : List Bool → ℕ → Bool
is_slot_exhausted e i = get_or e i false

-- The loop of `download_bearer` over the `rounds` steps that are left, the next being `step`: the
-- first slot from `start` on that is not exhausted.
unfoldable pub scan : List Bool → ℕ → ℕ → ℕ → ℕ → Option ℕ
scan e n start step zero = none
scan e n start step (suc rounds) =
    let idx = (start + step) % n in
    let rest = scan e n start (step + 1) rounds in
    if not (is_slot_exhausted e idx) then some idx else rest

-- What is done with the outcome of the loop.
abbrev pub settle : TokenPool → Option ℕ → Option String × TokenPool
settle p none = (get_elem? p.tokens (start_of p), p)
settle p (some idx) =
    (get_elem? p.tokens idx, (if idx == start_of p then p else record p { current = idx }))

unfoldable pub download_bearer : TokenPool → Option String × TokenPool
unfolding scan
download_bearer p = settle p (scan p.exhausted (len p) (start_of p) 0 (len p))

-- The tokens whose slot, from slot `i` on, is not exhausted.
unfoldable pub eligible_from : List Bool → ℕ → List String → List String
eligible_from e i [] = []
eligible_from e i (t ∷ ts) =
    let rest = eligible_from e (suc i) ts in if not (is_slot_exhausted e i) then t ∷ rest else rest

unfoldable pub eligible_tokens_in_order : TokenPool → List String
unfolding eligible_from
eligible_tokens_in_order p = eligible_from p.exhausted 0 p.tokens

-- The first slot that holds the token.
unfoldable pub slot_from : String → ℕ → List String → Option ℕ
slot_from token i [] = none
slot_from token i (t ∷ ts) = if t =? token then some i else slot_from token (suc i) ts

abbrev pub slot_of : TokenPool → String → Option ℕ
slot_of p token = slot_from token 0 p.tokens

abbrev pub exhausted_at : TokenPool → Option ℕ → Bool
exhausted_at p none = false
exhausted_at p (some i) = is_slot_exhausted p.exhausted i

unfoldable pub is_exhausted : TokenPool → String → Bool
unfolding slot_from
is_exhausted p token = exhausted_at p (slot_of p token)

abbrev pub exhaust_at : TokenPool → Option ℕ → TokenPool
exhaust_at p none = p
exhaust_at p (some i) = record p { exhausted = set p.exhausted i true }

unfoldable pub mark_exhausted : String → TokenPool → TokenPool
unfolding slot_from
mark_exhausted token p = exhaust_at p (slot_of p token)

unfoldable pub clear_all_exhausted : TokenPool → TokenPool
clear_all_exhausted p = record p { exhausted = map (λ x. false) p.exhausted }

unfoldable pub any_from : List Bool → ℕ → List String → Bool
any_from e i [] = false
any_from e i (t ∷ ts) = not (is_slot_exhausted e i) || any_from e (suc i) ts

unfoldable pub any_non_exhausted : TokenPool → Bool
unfolding any_from
any_non_exhausted p = any_from p.exhausted 0 p.tokens

-- `fetch_add` wraps around.
unfoldable pub rotate : TokenPool → Bool × TokenPool
rotate p =
    if leb (len p) 1 then (false, p) else (true, record p { current = (p.current + 1) % 2 ^ 64 })

unfoldable pub update_tokens : List String → TokenPool → Option TokenPool
update_tokens [] p = none
update_tokens (t ∷ ts) p =
    some (record { tokens = t ∷ ts; exhausted = replicate (length (t ∷ ts)) false; current = 0 })

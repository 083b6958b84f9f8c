-- ===== src/Rd/Unrestrict/Rounds.antt =====
-- The loop of `unrestrict_link` ends.
use rd_rs.Prelude.{
  ℕ, zero, suc, ◌+◌, ◌≤◌, ◌<◌, ◌≡◌, refl, inl, inr, Bool, true, false, Option, none, some, List, [],
  ◌∷◌, String, arith, length, get_elem?, get_or, set, Bool-cases,
}
use rd_rs.Rd.Client.Errors.{RdError, is_bandwidth_limited}
use rd_rs.Rd.TokenPool.{
  TokenPool, is_slot_exhausted, eligible_from, eligible_tokens_in_order, slot_of, exhaust_at,
  mark_exhausted,
}
use rd_rs.Rd.TokenPool.Bearer.{IsPool}
use rd_rs.Rd.TokenPool.Exhaustion.{
  HoldsAt, slot_from-HoldsAt, get_or-set_self, get_or-set_ne, tokens-mark,
}
use rd_rs.Rd.TokenPool.Reach.{mark-IsPool}
use rd_rs.Rd.TokenPool.Rotation.{Distinct}
use rd_rs.Torrent.Types.{Download}
use rd_rs.Repair.Account.{Answer, answered, failed}
use rd_rs.Rd.Unrestrict.{
  Server, Client, first_of, requested, from_cache, with_token, unrestrict_from, unrestrict_link,
}

-- The first eligible token stands in a slot that is free.
first_free :
    (e : List Bool) (i : ℕ) (ts : List String) (t : String)
    → first_of (eligible_from e i ts) ≡ some t
    → (j : ℕ) × (get_elem? ts j ≡ some t) × (j < length ts) × (is_slot_exhausted e (i + j) ≡ false)
unfolding eligible_from
first_free e i [] t h = cc
first_free e i (u ∷ ts) t h = elim (Bool-cases (is_slot_exhausted e i)) [
  | inl used ↦
      let (j, at, lt, free) = first_free e (suc i) ts t (rw used at h) in
      (suc j, at, omega arith, rw (let s : i + suc j ≡ suc i + j = omega arith in s) free)
  | inr free ↦ (0, rw free at h, omega arith, rw (let s : i + 0 ≡ i = omega arith in s) free)
]

eligible_from-earlier :
    (e : List Bool) (i k : ℕ) (ts : List String)
    → k < i
    → eligible_from (set e k true) i ts ≡ eligible_from e i ts
unfolding eligible_from
eligible_from-earlier e i k [] h = refl
eligible_from-earlier e i k (t ∷ ts) h =
    rw
      (
        get_or-set_ne e k i true false (λ s. omega arith),
        eligible_from-earlier e (suc i) k ts (omega arith),
      )
      refl

eligible_from-set :
    (e : List Bool) (i j k : ℕ) (ts : List String)
    → k ≡ i + j
    → j < length ts
    → k < length e
    → is_slot_exhausted e k ≡ false
    → length (eligible_from (set e k true) i ts) + 1 ≡ length (eligible_from e i ts)
unfolding eligible_from
eligible_from-set e i j k [] at lt within free = absurd (omega arith)
eligible_from-set e i zero k (t ∷ ts) at lt within free =
    let same : k ≡ i = omega arith in
    let own : get_or (set e k true) i false ≡ true =
      rw (← same) (get_or-set_self e k true false within) in
    let was : get_or e i false ≡ false = rw (← same) free in
    rw (own, was, eligible_from-earlier e (suc i) k ts (omega arith)) (omega arith)
eligible_from-set e i (suc j) k (t ∷ ts) at lt within free =
    let same = get_or-set_ne e k i true false (λ s. omega arith) in
    let rest = eligible_from-set e (suc i) j k ts (omega arith) (omega arith) within free in
    rw same (elim (Bool-cases (is_slot_exhausted e i)) [
      | inl used ↦ rw used rest
      | inr other ↦ rw other (omega (arith, rest))
    ])

fewer_at :
    (p : TokenPool) (t : String) (o : Option ℕ) (j : ℕ)
    → IsPool p
    → Distinct p.tokens
    → HoldsAt t 0 p.tokens o
    → get_elem? p.tokens j ≡ some t
    → j < length p.tokens
    → is_slot_exhausted p.exhausted j ≡ false
    → length (eligible_tokens_in_order (exhaust_at p o)) + 1 ≡ length (eligible_tokens_in_order p)
unfolding HoldsAt Distinct eligible_tokens_in_order
fewer_at p t none j w d holds at lt free = absurd (holds j at)
fewer_at p t (some k) j w d (m, from, lt', holds) at lt free =
    let same : k ≡ j = omega (arith, from, d t m j holds at) in
    eligible_from-set p.exhausted 0 j k p.tokens (omega (arith, same)) lt
      (omega (arith, same, w.flags)) (rw same free)

-- To mark the first eligible token leaves one eligible token less, where tokens are distinct.
fewer :
    (p : TokenPool) (t : String)
    → IsPool p
    → Distinct p.tokens
    → first_of (eligible_tokens_in_order p) ≡ some t
    → length (eligible_tokens_in_order (mark_exhausted t p)) + 1
      ≡ length (eligible_tokens_in_order p)
unfolding mark_exhausted eligible_tokens_in_order
fewer p t w d h =
    let (j, at, lt, free) = first_free p.exhausted 0 p.tokens t h in
    fewer_at p t (slot_of p t) j w d (slot_from-HoldsAt t 0 p.tokens) at lt
      (rw (let z : 0 + j ≡ j = omega arith in z) at free)

mark_exhausted-IsPool : (t : String) (p : TokenPool) → IsPool p → IsPool (mark_exhausted t p)
unfolding mark_exhausted
mark_exhausted-IsPool t p w = mark-IsPool p (slot_of p t) w

tokens-mark_exhausted : (t : String) (p : TokenPool) → (mark_exhausted t p).tokens ≡ p.tokens
unfolding mark_exhausted
tokens-mark_exhausted t p = tokens-mark p (slot_of p t)

eligible_from-bounded :
    (e : List Bool) (i : ℕ) (ts : List String) → length (eligible_from e i ts) ≤ length ts
unfolding eligible_from
eligible_from-bounded e i [] = omega arith
eligible_from-bounded e i (t ∷ ts) =
    let rest = eligible_from-bounded e (suc i) ts in
    elim (Bool-cases (is_slot_exhausted e i)) [
      | inl used ↦ rw used (omega (arith, rest))
      | inr free ↦ rw free (omega (arith, rest))
    ]

abbrev pub is_returned : Option (Answer Download × Client) → Bool
is_returned none = false
is_returned (some r) = true

abbrev is_given : Option (Answer Download) → Bool
is_given none = false
is_given (some a) = true

module _ (s : Server) (link : String) where
  abbrev Rest : Type 0
  Rest = RdError → Client → Option (Answer Download × Client)

  -- Each request for the link returns.
  abbrev pub AllReturn : Type 0
  AllReturn = (n : ℕ) (token : String) → is_given (s.answer n token link) ≡ true

  -- The loop goes on, if at all, with the token marked.
  is_returned-requested :
      (token : String) (a : Option (Answer Download)) (rest : Rest) (c : Client)
      → is_given a ≡ true
      → ((e : RdError) (c1 : Client)
          → c1.pool ≡ mark_exhausted token c.pool
          → is_returned (rest e c1) ≡ true)
      → is_returned (requested s token link a rest c) ≡ true
  is_returned-requested token none rest c r h = cc
  is_returned-requested token (some (answered dl)) rest c r h = refl
  is_returned-requested token (some (failed e)) rest c r h =
      elim (Bool-cases (is_bandwidth_limited e)) [
        | inl limited ↦ rw limited (h e _ refl)
        | inr other ↦ rw other refl
      ]

  is_returned-from_cache :
      (token : String) (o : Option Download) (rest : Rest) (c : Client)
      → AllReturn
      → ((e : RdError) (c1 : Client)
          → c1.pool ≡ mark_exhausted token c.pool
          → is_returned (rest e c1) ≡ true)
      → is_returned (from_cache s token link o rest c) ≡ true
  is_returned-from_cache token (some dl) rest c r h = refl
  is_returned-from_cache token none rest c r h =
      is_returned-requested token (s.answer c.requests token link) rest _ (r c.requests token) h

  is_returned-with_token :
      (o : Option String) (last : Option RdError) (rest : Rest) (c : Client)
      → AllReturn
      → ((token : String)
          → o ≡ some token
          → (e : RdError) (c1 : Client) → c1.pool ≡ mark_exhausted token c.pool
          → is_returned (rest e c1) ≡ true)
      → is_returned (with_token s link o last rest c) ≡ true
  is_returned-with_token none last rest c r h = refl
  is_returned-with_token (some token) last rest c r h =
      is_returned-from_cache token _ rest c r (h token refl)

  is_returned-unrestrict_from :
      (fuel : ℕ) (last : Option RdError) (c : Client)
      → AllReturn
      → IsPool c.pool
      → Distinct c.pool.tokens
      → length (eligible_tokens_in_order c.pool) < fuel
      → is_returned (unrestrict_from fuel s link last c) ≡ true
  unfolding unrestrict_from
  is_returned-unrestrict_from zero last c r w d h = absurd (omega arith)
  is_returned-unrestrict_from (suc fuel) last c r w d h =
      is_returned-with_token (first_of (eligible_tokens_in_order c.pool)) last _ c r
        (λ token first e c1 marked.
          is_returned-unrestrict_from fuel (some e) c1 r
            (rw marked (mark_exhausted-IsPool token c.pool w))
            (rw (marked, tokens-mark_exhausted token c.pool) d)
            (rw marked (omega (arith, h, fewer c.pool token w d first))))

-- The loop over the tokens ends in a pool whose tokens are distinct, if each request for the link
-- returns, whatever it returns: each bandwidth limit leaves one eligible token less, so a round more
-- than there are tokens is enough.
pub unrestrict_link-is_returned :
    (s : Server) (link : String) (c : Client)
    → AllReturn s link
    → IsPool c.pool
    → Distinct c.pool.tokens
    → is_returned (unrestrict_link s link c) ≡ true
unfolding unrestrict_link eligible_tokens_in_order
unrestrict_link-is_returned s link c r w d =
    is_returned-unrestrict_from s link (length c.pool.tokens + 1) none c r w d
      (omega (arith, eligible_from-bounded c.pool.exhausted 0 c.pool.tokens))

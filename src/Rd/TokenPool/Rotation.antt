-- ===== src/Rd/TokenPool/Rotation.antt =====
-- After a token is marked, another one is picked.
use rd_rs.Prelude.{
  ℕ, suc, ◌+◌, ◌<◌, ◌≡◌, ◌≢◌, inl, inr, refl, sym, ap, ◌∙◌, Bool, true, false, Option, none, some,
  List, [], ◌∷◌, String, arith, length, get_elem?,
}
use rd_rs.Rd.TokenPool.{
  TokenPool, is_slot_exhausted, download_bearer, slot_of, exhaust_at, mark_exhausted, any_from,
  any_non_exhausted,
}
use rd_rs.Rd.TokenPool.Bearer.{IsPool, Chosen, download_bearer-Chosen}
use rd_rs.Rd.TokenPool.Exhaustion.{HoldsAt, slot_from-HoldsAt, get_or-set_self}
use rd_rs.Rd.TokenPool.Reach.{mark-IsPool}

-- No token stands in two slots.
unfoldable pub Distinct : List String → Type 0
Distinct ts = (t : String) (i j : ℕ) → get_elem? ts i ≡ some t → get_elem? ts j ≡ some t → i ≡ j

any_from_used :
    (e : List Bool) (i : ℕ) (ts : List String)
    → ((m : ℕ) → m < length ts → is_slot_exhausted e (i + m) ≡ true)
    → any_from e i ts ≡ false
unfolding any_from
any_from_used e i [] all = refl
any_from_used e i (t ∷ ts) all =
    let here : is_slot_exhausted e i ≡ true =
      ap (is_slot_exhausted e) (let q : i ≡ i + 0 = omega arith in q) ∙ all 0 (omega arith) in
    rw here (
      any_from_used e (suc i) ts (λ m h.
        ap (is_slot_exhausted e) (let q : suc i + m ≡ i + suc m = omega arith in q)
        ∙ all (suc m) (omega arith)))

-- A slot that holds the token is not free once the token's slot is marked.
marked_not_free :
    (p : TokenPool) (t : String) (o : Option ℕ) (i : ℕ)
    → IsPool p
    → Distinct p.tokens
    → HoldsAt t 0 p.tokens o
    → get_elem? p.tokens i ≡ some t
    → is_slot_exhausted (exhaust_at p o).exhausted i ≢ false
unfolding HoldsAt Distinct
marked_not_free p t none i w distinct h holds = absurd (h i holds)
marked_not_free p t (some k) i w distinct (m, at, lt, holds_m) holds =
    let same : i ≡ k = distinct t i m holds holds_m ∙ (let q : m ≡ k = omega arith in q) in
    let used = get_or-set_self p.exhausted k true false (omega (arith, w.flags)) in
    rw same (λ free. ground (arith, used, free))

tokens-mark_exhausted : (p : TokenPool) (o : Option ℕ) → (exhaust_at p o).tokens ≡ p.tokens
tokens-mark_exhausted p none = refl
tokens-mark_exhausted p (some k) = refl

next_differs :
    (p : TokenPool) (t : String) (o : Option ℕ) (r : Option String × TokenPool)
    → IsPool p
    → Distinct p.tokens
    → HoldsAt t 0 p.tokens o
    → any_from (exhaust_at p o).exhausted 0 (exhaust_at p o).tokens ≡ true
    → Chosen (exhaust_at p o) r
    → r.0 ≢ some t
unfolding Chosen
next_differs p t o r w distinct held left
      (inl (i, k, lt, at, free, before, is_token, moved, kept, flags)) =
    λ e.
      let holds = ap (λ ts. get_elem? ts i) (sym (tokens-mark_exhausted p o)) ∙ sym is_token ∙ e in
      marked_not_free p t o i w distinct held holds free
next_differs p t o r w distinct held left (inr (all, is_token, same)) =
    let q = exhaust_at p o in
    let none_left = any_from_used q.exhausted 0 q.tokens (λ m h.
      ap (is_slot_exhausted q.exhausted) (let z : 0 + m ≡ m = omega arith in z) ∙ all m h) in
    absurd (ground (arith, none_left, left))

-- In a well-formed pool of distinct tokens, where marking a token as exhausted leaves a slot that
-- is not exhausted, the bearer that is picked next is another token.
pub mark_exhausted-download_bearer :
    (p : TokenPool) (t : String)
    → IsPool p
    → Distinct p.tokens
    → any_non_exhausted (mark_exhausted t p) ≡ true
    → (download_bearer (mark_exhausted t p)).0 ≢ some t
unfolding mark_exhausted any_non_exhausted
mark_exhausted-download_bearer p t w distinct left =
    next_differs p t (slot_of p t) _ w distinct (slot_from-HoldsAt t 0 p.tokens) left
      (download_bearer-Chosen _ (mark-IsPool p (slot_of p t) w))

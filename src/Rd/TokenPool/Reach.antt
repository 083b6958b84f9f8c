-- ===== src/Rd/TokenPool/Reach.antt =====
-- The pools that calls lead to are well formed.
use rd_rs.Prelude.{
  inl, inr, ℕ, ◌≡◌, ◌∙◌, true, false, ◌==◌, leb, Option, none, some, List, [], ◌∷◌, String, arith,
  length, replicate, length-set, length-replicate, Bool-cases,
}
use mathlib.Core.Path.{subst}
use mathlib.Core.Option.{some-injective}
use rd_rs.Prelude.Map.{string_keys}
use rd_rs.Rd.TokenPool.{
  TokenPool, new, len, start_of, settle, scan, download_bearer, slot_of, exhaust_at, mark_exhausted,
  clear_all_exhausted, rotate, update_tokens,
}
use rd_rs.Rd.TokenPool.Bearer.{IsPool}
use rd_rs.Rd.TokenPool.Exhaustion.{length-map-false}

-- The pools that calls lead to.
pub data Reached : TokenPool → Type 0 where
  started : (ts : List String) (p : TokenPool) → new ts ≡ some p → Reached p
  picked : (p : TokenPool) → Reached p → Reached (download_bearer p).1
  marked : (t : String) (p : TokenPool) → Reached p → Reached (mark_exhausted t p)
  cleared : (p : TokenPool) → Reached p → Reached (clear_all_exhausted p)
  rotated : (p : TokenPool) → Reached p → Reached (rotate p).1
  replaced :
      (ts : List String) (p p' : TokenPool) → Reached p → update_tokens ts p ≡ some p' → Reached p'

pub mark-IsPool : (p : TokenPool) (o : Option ℕ) → IsPool p → IsPool (exhaust_at p o)
mark-IsPool p none w = w
mark-IsPool p (some k) w = record {
  inhabited = w.inhabited;
  flags = length-set p.exhausted k true ∙ w.flags;
}

settle-IsPool : (p : TokenPool) (o : Option ℕ) → IsPool p → IsPool (settle p o).1
settle-IsPool p none w = w
settle-IsPool p (some i) w = elim (Bool-cases (i == start_of p)) [
  | inl same ↦ rw same w
  | inr other ↦ rw other (record { inhabited = w.inhabited; flags = w.flags })
]

fresh-IsPool :
    (t : String) (ts : List String)
    → IsPool
        (record { tokens = t ∷ ts; exhausted = replicate (length (t ∷ ts)) false; current = 0 })
fresh-IsPool t ts = record {
  inhabited = omega arith;
  flags = length-replicate (length (t ∷ ts)) false;
}

new-IsPool : (ts : List String) (p : TokenPool) → new ts ≡ some p → IsPool p
unfolding new
new-IsPool [] p h = ground arith
new-IsPool (t ∷ ts) p h = subst IsPool (some-injective _ p h) (fresh-IsPool t ts)

update-IsPool : (ts : List String) (p p' : TokenPool) → update_tokens ts p ≡ some p' → IsPool p'
unfolding update_tokens
update-IsPool [] p p' h = ground arith
update-IsPool (t ∷ ts) p p' h = subst IsPool (some-injective _ p' h) (fresh-IsPool t ts)

pub download_bearer-IsPool : (p : TokenPool) → IsPool p → IsPool (download_bearer p).1
unfolding download_bearer
download_bearer-IsPool p w = settle-IsPool p (scan p.exhausted (len p) (start_of p) 0 (len p)) w

-- Every pool that `new` and then any calls lead to has a token, and a flag for each of its tokens.
pub reached-IsPool : (p : TokenPool) → Reached p → IsPool p
unfolding mark_exhausted clear_all_exhausted rotate
reached-IsPool _ (started ts p h) = new-IsPool ts p h
reached-IsPool _ (picked p r) = download_bearer-IsPool p (reached-IsPool p r)
reached-IsPool _ (marked t p r) = mark-IsPool p (slot_of p t) (reached-IsPool p r)
reached-IsPool _ (cleared p r) =
    let w = reached-IsPool p r in
    record { inhabited = w.inhabited; flags = length-map-false p.exhausted ∙ w.flags }
reached-IsPool _ (rotated p r) =
    let w = reached-IsPool p r in
    elim (Bool-cases (leb (len p) 1)) [
      | inl small ↦ rw small w
      | inr big ↦ rw big (record { inhabited = w.inhabited; flags = w.flags })
    ]
reached-IsPool _ (replaced ts p p' r h) = update-IsPool ts p p' h

-- ===== src/Rd/Unrestrict/Cached.antt =====
-- What `unrestrict_link` answers is in the cache.
use rd_rs.Prelude.{
  ℕ, zero, suc, ◌+◌, ◌-◌, ◌*◌, ◌≡◌, refl, inl, inr, true, Option, none, some, List, String, arith,
  ltb, length, Bool-cases,
}
use rd_rs.Prelude.Map.{=?_refl, string_keys}
use rd_rs.Rd.Client.Errors.{RdError, is_bandwidth_limited}
use rd_rs.Rd.TokenPool.{eligible_tokens_in_order}
use rd_rs.Torrent.Types.{Download}
use rd_rs.Repair.Account.{Answer, answered, failed}
use rd_rs.Rd.Unrestrict.{
  Server, Client, Row, find_row, first_of, fresh_download, with_base_url, stored_row, requested,
  from_cache, with_token, unrestrict_from, unrestrict_link,
}

-- A download that was answered is the one of the row, young enough, of the first eligible token.
abbrev IsCached : Server → String → Option (Answer Download × Client) → Type 0
IsCached s link none = Unit {0}
IsCached s link (some (failed e, c)) = Unit {0}
IsCached s link (some (answered dl, c)) =
    (token : String) × (first_of (eligible_tokens_in_order c.pool) ≡ some token)
    × (fresh_download (s.now c.requests) (find_row token link c.rows) ≡ some dl)

find_row-stored_row :
    (token link : String) (dl : Download) (now : ℕ) (rows : List Row)
    → fresh_download now (find_row token link (stored_row token link dl now rows)) ≡ some dl
unfolding find_row
find_row-stored_row token link dl now rows =
    let young : ltb (now - now) (4 * 3600) ≡ true = ground arith in
    rw (=?_refl token, =?_refl link, young) refl

module _ (s : Server) (link : String) where
  abbrev Rest : Type 0
  Rest = RdError → Client → Option (Answer Download × Client)

  IsCached-requested :
      (token : String) (a : Option (Answer Download)) (rest : Rest) (c : Client)
      → first_of (eligible_tokens_in_order c.pool) ≡ some token
      → ((e : RdError) (c1 : Client) → IsCached s link (rest e c1))
      → IsCached s link (requested s token link a rest c)
  IsCached-requested token none rest c first h = tt
  IsCached-requested token (some (answered dl)) rest c first h = (
    token,
    first,
    find_row-stored_row token link (with_base_url token dl) (s.now c.requests) c.rows,
  )
  IsCached-requested token (some (failed e)) rest c first h =
      elim (Bool-cases (is_bandwidth_limited e)) [
        | inl limited ↦ rw limited (h e _)
        | inr other ↦ rw other tt
      ]

  IsCached-from_cache :
      (token : String) (o : Option Download) (rest : Rest) (c : Client)
      → fresh_download (s.now c.requests) (find_row token link c.rows) ≡ o
      → first_of (eligible_tokens_in_order c.pool) ≡ some token
      → ((e : RdError) (c1 : Client) → IsCached s link (rest e c1))
      → IsCached s link (from_cache s token link o rest c)
  IsCached-from_cache token (some dl) rest c fresh first h = (token, first, fresh)
  IsCached-from_cache token none rest c fresh first h =
      IsCached-requested token (s.answer c.requests token link) rest _ first h

  IsCached-with_token :
      (o : Option String) (last : Option RdError) (rest : Rest) (c : Client)
      → first_of (eligible_tokens_in_order c.pool) ≡ o
      → ((e : RdError) (c1 : Client) → IsCached s link (rest e c1))
      → IsCached s link (with_token s link o last rest c)
  IsCached-with_token none last rest c first h = tt
  IsCached-with_token (some token) last rest c first h =
      IsCached-from_cache token _ rest c refl first h

  IsCached-unrestrict_from :
      (fuel : ℕ) (last : Option RdError) (c : Client)
      → IsCached s link (unrestrict_from fuel s link last c)
  unfolding unrestrict_from
  IsCached-unrestrict_from zero last c = tt
  IsCached-unrestrict_from (suc fuel) last c =
      IsCached-with_token (first_of (eligible_tokens_in_order c.pool)) last _ c refl
        (λ e c1. IsCached-unrestrict_from fuel (some e) c1)

  again_cached :
      (dl : Download) (c : Client)
      → IsCached s link (some (answered dl, c))
      → unrestrict_link s link c ≡ some (answered dl, c)
  unfolding unrestrict_link unrestrict_from
  again_cached dl c (token, first, fresh) =
      rw
        (
          let e : length c.pool.tokens + 1 ≡ suc (length c.pool.tokens) = omega arith in e,
          first,
          fresh,
        )
        refl

-- When a link was unrestricted, the same call made again at once answers the same download, from
-- the cache: no request is made, and neither the cache nor the pool of tokens changes.
pub unrestrict_link-again :
    (s : Server) (link : String) (c c1 : Client) (dl : Download)
    → unrestrict_link s link c ≡ some (answered dl, c1)
    → unrestrict_link s link c1 ≡ some (answered dl, c1)
unfolding unrestrict_link
unrestrict_link-again s link c c1 dl e =
    again_cached s link dl c1
      (rw e at (IsCached-unrestrict_from s link (length c.pool.tokens + 1) none c))

-- ===== src/Rd/Unrestrict.antt =====
-- `unrestrict_link` of src/rd/api/methods2.rs with the unrestrict cache of src/rd/api/mod.rs. What
-- the client's `execute_with_fixed_bearer` returns for a request, if it returns, and the clock are
-- the parameter `Server`, by the number of the request; no other task uses the pool or the cache in
-- between.
pub mod Cached
pub mod Rounds
use Prim.Native.Char.{code}
use Prim.Native.String.{◌++◌ as append}
use text.Mathlib.Text.{starts_with}
use rd_rs.Prelude.{
  ℕ, zero, suc, ◌+◌, ◌-◌, ◌*◌, Bool, true, false, ◌&&◌, Option, none, some, List, [], ◌∷◌, String,
  ltb, ◌==◌, if◌then◌else◌, length,
}
use rd_rs.Prelude.Map.{◌=?◌, string_keys}
use rd_rs.Rd.Client.Errors.{RdError, api, traffic_exhausted, is_bandwidth_limited}
use rd_rs.Rd.TokenPool.{TokenPool, eligible_tokens_in_order, mark_exhausted}
use rd_rs.Torrent.Types.{Download}
use rd_rs.Repair.Account.{Answer, answered, failed}

abbrev pub unrestrict_cache_ttl : ℕ
unrestrict_cache_ttl = 4 * 3600

pub record Row : Type 0 where
  pub token : String
  pub link : String
  pub download : Download
  pub cached_at : ℕ

abbrev pub has_key : String → String → Row → Bool
has_key token link row = (row.token =? token) && (row.link =? link)

unfoldable pub find_row : String → String → List Row → Option Row
find_row token link [] = none
find_row token link (row ∷ rows) =
    if has_key token link row then some row else find_row token link rows

unfoldable pub clear_unrestrict_cache : String → String → List Row → List Row
clear_unrestrict_cache token link [] = []
clear_unrestrict_cache token link (row ∷ rows) =
    let rest = clear_unrestrict_cache token link rows in
    if has_key token link row then rest else row ∷ rest

unfoldable pub clear_unrestrict_cache_for_source_link : String → List Row → List Row
clear_unrestrict_cache_for_source_link link [] = []
clear_unrestrict_cache_for_source_link link (row ∷ rows) =
    let rest = clear_unrestrict_cache_for_source_link link rows in
    if row.link =? link then rest else row ∷ rest

-- The number of rows that went, and the others.
unfoldable pub sweep_unrestrict_cache_expired : ℕ → ℕ → List Row → ℕ × List Row
sweep_unrestrict_cache_expired now max_age [] = (0, [])
sweep_unrestrict_cache_expired now max_age (row ∷ rows) =
    let (n, rest) = sweep_unrestrict_cache_expired now max_age rows in
    if ltb (now - row.cached_at) max_age then (n, row ∷ rest) else (n + 1, rest)

abbrev pub prefixed : String → Option String → Option String
prefixed s none = none
prefixed s (some t) = some (append s t)

-- The part before the first slash.
unfoldable pub until_slash : String → Option String
until_slash String.[] = none
until_slash (String.◌∷◌ c s) =
    let rest = prefixed (String.◌∷◌ c "") (until_slash s) in
    if code c == b'/' then some "" else rest

abbrev pub after_three : String → String
after_three (String.◌∷◌ a (String.◌∷◌ b (String.◌∷◌ c s))) = s
after_three s = ""

-- `find("/d/")`, and the part before the slash that follows the code.
unfoldable pub base_from : String → Option String
unfolding until_slash
base_from String.[] = none
base_from (String.◌∷◌ c s) =
    let rest = prefixed (String.◌∷◌ c "") (base_from s) in
    if starts_with (String.◌∷◌ c s) "/d/"
    then prefixed "/d/" (until_slash (after_three (String.◌∷◌ c s)))
    else rest

abbrev pub or_whole : String → Option String → String
or_whole url none = url
or_whole url (some base) = base

unfoldable pub extract_base_download_url : String → String
unfolding base_from
extract_base_download_url url = or_whole url (base_from url)

pub record Server : Type 0 where
  pub answer : ℕ → (token link : String) → Option (Answer Download)
  pub now : ℕ → ℕ

pub record Client : Type 0 where
  pub pool : TokenPool
  pub rows : List Row
  pub requests : ℕ

abbrev pub first_of : List String → Option String
first_of [] = none
first_of (t ∷ ts) = some t

abbrev pub or_exhausted : Option RdError → RdError
or_exhausted none = api (traffic_exhausted "all RD tokens are bandwidth-exhausted for unrestrict")
or_exhausted (some e) = e

-- The download of a row that is young enough.
abbrev pub fresh_download : ℕ → Option Row → Option Download
fresh_download now none = none
fresh_download now (some row) =
    if ltb (now - row.cached_at) unrestrict_cache_ttl then some row.download else none

-- `generated_at` is left out.
abbrev pub with_base_url : String → Download → Download
with_base_url token dl = record dl {
  download = extract_base_download_url dl.download;
  token = token;
}

abbrev pub stored_row : String → String → Download → ℕ → List Row → List Row
stored_row token link dl now rows =
    record { token = token; link = link; download = dl; cached_at = now }
    ∷ clear_unrestrict_cache token link rows

-- A request with a token; `none` is one that does not return. A bandwidth limit marks the token and
-- goes on with `rest`.
abbrev pub requested :
    Server
    → String
    → String
    → Option (Answer Download)
    → (RdError → Client → Option (Answer Download × Client))
    → Client
    → Option (Answer Download × Client)
requested s token link none rest c = none
requested s token link (some (failed e)) rest c =
    if is_bandwidth_limited e
    then rest e (record c { pool = mark_exhausted token c.pool })
    else some (failed e, c)
requested s token link (some (answered dl)) rest c = some (
  answered (with_base_url token dl),
  record c { rows = stored_row token link (with_base_url token dl) (s.now c.requests) c.rows },
)

abbrev pub from_cache :
    Server
    → String
    → String
    → Option Download
    → (RdError → Client → Option (Answer Download × Client))
    → Client
    → Option (Answer Download × Client)
from_cache s token link (some dl) rest c = some (answered dl, c)
from_cache s token link none rest c =
    requested s token link (s.answer c.requests token link) rest
      (record c { requests = c.requests + 1 })

abbrev pub with_token :
    Server
    → String
    → Option String
    → Option RdError
    → (RdError → Client → Option (Answer Download × Client))
    → Client
    → Option (Answer Download × Client)
with_token s link none last rest c = some (failed (or_exhausted last), c)
with_token s link (some token) last rest c =
    from_cache s token link (fresh_download (s.now c.requests) (find_row token link c.rows)) rest c

-- The loop on fuel, `last` being the bandwidth limit that was met last; `none` is
-- out of fuel, or a request that does not return.
unfoldable pub unrestrict_from :
    ℕ → Server → String → Option RdError → Client → Option (Answer Download × Client)
unfolding eligible_tokens_in_order mark_exhausted find_row clear_unrestrict_cache
    extract_base_download_url
unrestrict_from zero s link last c = none
unrestrict_from (suc fuel) s link last c =
    with_token s link (first_of (eligible_tokens_in_order c.pool)) last
      (λ e. unrestrict_from fuel s link (some e)) c

-- A round for each token, and one that finds none.
unfoldable pub unrestrict_link : Server → String → Client → Option (Answer Download × Client)
unfolding unrestrict_from
unrestrict_link s link c = unrestrict_from (length c.pool.tokens + 1) s link none c

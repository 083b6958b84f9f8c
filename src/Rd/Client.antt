-- ===== src/Rd/Client.antt =====
-- `RdClient::execute_impl` of src/rd/client/exec.rs and `backoff` of src/rd/client/rate_limit.rs.
-- What the HTTP library answers is the parameter `Server`: the reply to a request by its number,
-- whether the original URL is used, and its bearer. Waiting changes nothing here.
pub mod Errors
pub mod Replies
pub mod Turns
pub mod Retries
pub mod Endless
use rd_rs.Prelude.{
  ℕ, zero, suc, ◌+◌, ◌*◌, ◌%◌, ◌^◌, min, Bool, true, false, not, ◌||◌, ◌&&◌, Option, none, some,
  String, ltb, leb, ◌==◌, if◌then◌else◌,
}
use rd_rs.Prelude.Int.{ℤ, pos}
use rd_rs.Rd.TokenPool.{TokenPool, len, download_bearer, mark_exhausted, any_non_exhausted}
use rd_rs.Rd.Client.Errors.{
  ApiError, internal, other_api, DownloadError, RdError, api, download, network, cancelled,
  max_retries_exceeded, from_code, should_retry, is_api_limited, from_header, is_bandwidth_limited,
}

-- The seconds before the jitter, in `u64`.
unfoldable pub backoff_secs : ℕ → ℕ → ℕ
backoff_secs attempt base_secs = min (base_secs * 2 ^ min attempt 6 % 2 ^ 64) 60

-- The body of an answer: not announced as JSON, lost on the way, not of the error's form, or an
-- API error.
pub data Body : Type 0 where
  not_json : Body
  lost : Body
  unparsable : Body
  api_error : (code : ℤ) (message : String) → Body

-- A failure that counts as a network error, a cancelled one, any other, or an answer.
pub data Reply : Type 0 where
  network_failure : Reply
  context_cancelled : Reply
  other_failure : Reply
  answer : (status : ℕ) (x_error : String) (body : Body) → Reply

pub record Server : Type 0 where
  pub reply : ℕ → Bool → String → Reply
  pub credential : ℕ → String
  pub http_message : ℕ → String

pub record Config : Type 0 where
  pub max_retries : ℕ
  pub is_download_client : Bool
  pub fixed_bearer : Option String

-- The local variables of the loop, the pool, and how many requests were sent.
pub record Exec : Type 0 where
  pub attempt : ℕ
  pub token_attempts : ℕ
  pub use_fallback : Bool
  pub pool : Option TokenPool
  pub sent : ℕ

pub data Outcome : Type 0 where
  ok : (status : ℕ) → Outcome
  failed : RdError → Outcome
  panicked : Outcome

-- A turn of the loop returns or continues.
pub data Turn : Type 0 where
  finished : Outcome → Exec → Turn
  again : Exec → Turn

abbrev pub is_success : ℕ → Bool
is_success status = leb 200 status && leb status 299

abbrev pub is_server_error : ℕ → Bool
is_server_error status = leb 500 status && leb status 599

-- The common end of the branches that wait and try again, up to `max_retries` times.
unfoldable pub retry_or_give_up : Config → Exec → Turn
retry_or_give_up cfg e =
    if leb cfg.max_retries e.attempt
    then finished (failed max_retries_exceeded) e
    else again (record e { attempt = (e.attempt + 1) % 2 ^ 32 })

unfoldable pub on_network_failure : Config → Exec → Turn
on_network_failure cfg e =
    if not e.use_fallback && ((e.attempt == 0) && cfg.is_download_client)
    then again (record e { use_fallback = true })
    else retry_or_give_up cfg e

-- A bandwidth limit marks the bearer in the pool, and another bearer is tried if one is left.
unfoldable pub on_limit : ℕ → String → RdError → Exec → Option TokenPool → Turn
on_limit max_token_attempts token err e none = finished (failed err) e
on_limit max_token_attempts token err e (some p) =
    let p' = mark_exhausted token p in
    let marked = record e { pool = some p'; token_attempts = e.token_attempts + 1 } in
    if ltb (e.token_attempts + 1) max_token_attempts && any_non_exhausted p'
    then again (record marked { attempt = 0 })
    else finished (failed err) marked

unfoldable pub on_download_error : ℕ → String → RdError → Exec → Turn
unfolding on_limit
on_download_error max_token_attempts token err e =
    if is_bandwidth_limited err
    then on_limit max_token_attempts token err e e.pool
    else finished (failed err) e

unfoldable pub on_api_error : ApiError → Exec → Turn
on_api_error err e =
    if is_api_limited err
    then finished (failed (api err)) e
    else if should_retry err
    then again (record e { attempt = (e.attempt + 1) % 2 ^ 32 })
    else finished (failed (api err)) e

unfoldable pub on_status : Config → Server → ℕ → Exec → Turn
unfolding retry_or_give_up
on_status cfg sv status e =
    if is_server_error status || (status == 429)
    then retry_or_give_up cfg e
    else finished (failed (api (other_api (pos status) (sv.http_message status)))) e

unfoldable pub on_body : Config → Server → ℕ → Body → Exec → Turn
unfolding on_status on_api_error
on_body cfg sv status not_json e = on_status cfg sv status e
on_body cfg sv status lost e = finished (failed network) e
on_body cfg sv status unparsable e = on_status cfg sv status e
on_body cfg sv status (api_error code message) e = on_api_error (from_code code message) e

abbrev pub is_none : Option String → Bool
is_none none = true
is_none (some t) = false

unfoldable pub on_reply : Config → Server → ℕ → String → Reply → Exec → Turn
unfolding on_network_failure on_download_error on_body
on_reply cfg sv max_token_attempts token network_failure e = on_network_failure cfg e
on_reply cfg sv max_token_attempts token context_cancelled e = finished (failed cancelled) e
on_reply cfg sv max_token_attempts token other_failure e = finished (failed network) e
on_reply cfg sv max_token_attempts token (answer status x_error body) e =
    if cfg.is_download_client && (is_none cfg.fixed_bearer && not (is_success status))
    then on_download_error max_token_attempts token (download (from_header x_error status)) e
    else if is_success status
    then finished (ok status) e
    else on_body cfg sv status body e

-- The bearer of a request: the fixed one, else the pool's choice, else the credentials' token.
unfoldable pub choose_bearer :
    Option String → String → Option TokenPool → Option String × Option TokenPool
choose_bearer (some b) credential pool = (some b, pool)
choose_bearer none credential none = (some credential, none)
choose_bearer none credential (some p) = let picked = download_bearer p in (picked.0, some picked.1)

unfoldable pub send : Config → Server → ℕ → Option String → Exec → Turn
unfolding on_reply
send cfg sv max_token_attempts none e = finished panicked e
send cfg sv max_token_attempts (some token) e =
    on_reply cfg sv max_token_attempts token (sv.reply e.sent e.use_fallback token)
      (record e { sent = e.sent + 1 })

unfoldable pub turn : Config → Server → ℕ → Exec → Turn
unfolding choose_bearer send
turn cfg sv max_token_attempts e =
    let chosen = choose_bearer cfg.fixed_bearer (sv.credential e.sent) e.pool in
    send cfg sv max_token_attempts chosen.0 (record e { pool = chosen.1 })

-- The loop on fuel; `none` is out of fuel.
unfoldable pub loop : Config → Server → ℕ → ℕ → Exec → Option (Outcome × Exec)
unfolding turn
loop cfg sv max_token_attempts zero e = none
loop cfg sv max_token_attempts (suc fuel) e = elim (turn cfg sv max_token_attempts e) [
  | finished o e' ↦ some (o, e')
  | again e' ↦ loop cfg sv max_token_attempts fuel e'
]

abbrev pub pool_len : Option TokenPool → ℕ
pool_len none = 1
pool_len (some p) = len p

abbrev pub begin : Option TokenPool → Exec
begin pool = record { attempt = 0; token_attempts = 0; use_fallback = false; pool = pool; sent = 0 }

unfoldable pub execute_impl : ℕ → Config → Server → Option TokenPool → Option (Outcome × Exec)
unfolding loop
execute_impl fuel cfg sv pool = loop cfg sv (pool_len pool) fuel (begin pool)

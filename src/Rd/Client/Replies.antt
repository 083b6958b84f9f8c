-- ===== src/Rd/Client/Replies.antt =====
-- What each branch of a turn makes of the turns that are left.
use rd_rs.Prelude.{
  ℕ, suc, ◌+◌, ◌-◌, ◌*◌, ◌%◌, ◌^◌, ◌<◌, ◌≡◌, ◌≢◌, inl, inr, Bool, true, false, not, ◌||◌, ◌&&◌,
  Option, none, some, String, arith, ltb, leb, ◌==◌, Bool-cases,
}
use rd_rs.Rd.TokenPool.{TokenPool, slot_of, mark_exhausted, any_non_exhausted}
use rd_rs.Rd.TokenPool.Bearer.{IsPool}
use rd_rs.Rd.TokenPool.Reach.{mark-IsPool}
use rd_rs.Rd.Client.{
  Body, not_json, lost, unparsable, api_error, Reply, network_failure, context_cancelled,
  other_failure, answer, Server, Config, Exec, failed, panicked, Turn, finished, again, is_success,
  is_server_error, retry_or_give_up, on_network_failure, on_limit, on_download_error, on_api_error,
  on_status, on_body, on_reply, is_none,
}
use rd_rs.Rd.Client.Errors.{
  ApiError, RdError, download, from_code, should_retry, is_api_limited, from_header,
  is_bandwidth_limited,
}

-- The pool, when there is one, has a token, and a flag for each.
unfoldable pub PoolOk : Option TokenPool → Type 0
PoolOk none = Unit {0}
PoolOk (some p) = IsPool p

-- The answer asks for another try of the request by an error in its body.
abbrev pub retries_api : ApiError → Bool
retries_api err = should_retry err && not (is_api_limited err)

abbrev pub asks_retry : Reply → Bool
asks_retry network_failure = false
asks_retry context_cancelled = false
asks_retry other_failure = false
asks_retry (answer status x_error not_json) = false
asks_retry (answer status x_error lost) = false
asks_retry (answer status x_error unparsable) = false
asks_retry (answer status x_error (api_error code message)) = retries_api (from_code code message)

abbrev pub fallback_left : Bool → ℕ
fallback_left true = 0
fallback_left false = 1

abbrev pub turns_left : ℕ → ℕ → ℕ → ℕ → Bool → ℕ
turns_left max_retries limit attempt token_attempts fallback =
    fallback_left fallback + (max_retries - attempt) + (limit - token_attempts) * (max_retries + 1)

abbrev pub rank : Config → ℕ → Exec → ℕ
rank cfg limit e = turns_left cfg.max_retries limit e.attempt e.token_attempts e.use_fallback

turns_left_attempt :
    (mr l a t : ℕ) (fb : Bool)
    → mr < 2 ^ 32
    → a < mr
    → turns_left mr l ((a + 1) % 2 ^ 32) t fb < turns_left mr l a t fb
turns_left_attempt mr l a t fb small left = ground arith

turns_left_token :
    (mr l a t : ℕ) (fb : Bool) → t + 1 < l → turns_left mr l 0 (t + 1) fb < turns_left mr l a t fb
turns_left_token mr l a t fb more =
    let e : l - t ≡ suc (l - (t + 1)) = omega arith in
    let m : suc (l - (t + 1)) * (mr + 1) ≡ mr + 1 + (l - (t + 1)) * (mr + 1) = grind arith in
    rw e (rw m (ground arith))

turns_left_fallback :
    (mr l a t : ℕ) (fb : Bool) → fb ≡ false → turns_left mr l a t true < turns_left mr l a t fb
turns_left_fallback mr l a t fb h = rw h (omega arith)

-- A turn that continues has fewer turns left, and the pool stays well formed; none panics.
unfoldable pub Progress : Config → ℕ → ℕ → Turn → Type 0
Progress cfg limit r (finished o e) = (o ≢ panicked) × PoolOk e.pool
Progress cfg limit r (again e) = (rank cfg limit e < r) × PoolOk e.pool

failed-ne-panicked : (err : RdError) → failed err ≢ panicked
failed-ne-panicked err = ground arith

retry_or_give_up-Progress :
    (cfg : Config) (limit : ℕ) (e : Exec)
    → cfg.max_retries < 2 ^ 32
    → PoolOk e.pool
    → Progress cfg limit (rank cfg limit e) (retry_or_give_up cfg e)
unfolding retry_or_give_up Progress
retry_or_give_up-Progress cfg limit e small ok_pool =
    elim (Bool-cases (leb cfg.max_retries e.attempt)) [
      | inl out ↦ rw out (failed-ne-panicked _, ok_pool)
      | inr left ↦ rw left (
        turns_left_attempt cfg.max_retries limit e.attempt e.token_attempts e.use_fallback small
            (ground arith),
        ok_pool,
      )
    ]

on_network_failure-Progress :
    (cfg : Config) (limit : ℕ) (e : Exec)
    → cfg.max_retries < 2 ^ 32
    → PoolOk e.pool
    → Progress cfg limit (rank cfg limit e) (on_network_failure cfg e)
unfolding on_network_failure Progress
on_network_failure-Progress cfg limit e small ok_pool =
    elim (Bool-cases (not e.use_fallback && ((e.attempt == 0) && cfg.is_download_client))) [
      | inl falls ↦ rw falls (
        turns_left_fallback cfg.max_retries limit e.attempt e.token_attempts e.use_fallback
            (ground arith),
        ok_pool,
      )
      | inr stays ↦ rw stays (retry_or_give_up-Progress cfg limit e small ok_pool)
    ]

on_limit-Progress :
    (cfg : Config) (limit : ℕ) (token : String) (err : RdError) (e : Exec) (pool : Option TokenPool)
    → PoolOk e.pool
    → PoolOk pool
    → Progress cfg limit (rank cfg limit e) (on_limit limit token err e pool)
unfolding on_limit Progress mark_exhausted PoolOk
on_limit-Progress cfg limit token err e none ok_pool w = (failed-ne-panicked _, ok_pool)
on_limit-Progress cfg limit token err e (some p) ok_pool w =
    let marked = mark-IsPool p (slot_of p token) w in
    elim (Bool-cases
      (ltb (e.token_attempts + 1) limit && any_non_exhausted (mark_exhausted token p))) [
        | inl more ↦ rw more (
          turns_left_token cfg.max_retries limit e.attempt e.token_attempts e.use_fallback
              (ground arith),
          marked,
        )
        | inr last ↦ rw last (failed-ne-panicked _, marked)
      ]

on_download_error-Progress :
    (cfg : Config) (limit : ℕ) (token : String) (err : RdError) (e : Exec)
    → PoolOk e.pool
    → Progress cfg limit (rank cfg limit e) (on_download_error limit token err e)
unfolding on_download_error Progress
on_download_error-Progress cfg limit token err e ok_pool =
    elim (Bool-cases (is_bandwidth_limited err)) [
      | inl is_limit ↦ rw is_limit (on_limit-Progress cfg limit token err e e.pool ok_pool ok_pool)
      | inr isnt ↦ rw isnt (failed-ne-panicked _, ok_pool)
    ]

on_api_error-Progress :
    (cfg : Config) (limit : ℕ) (err : ApiError) (e : Exec)
    → PoolOk e.pool
    → retries_api err ≡ false
    → Progress cfg limit (rank cfg limit e) (on_api_error err e)
unfolding on_api_error Progress
on_api_error-Progress cfg limit err e ok_pool h = elim (Bool-cases (is_api_limited err)) [
  | inl is_limit ↦ rw is_limit (failed-ne-panicked _, ok_pool)
  | inr isnt ↦
      let stays : should_retry err ≡ false = ground arith in
      rw isnt (rw stays (failed-ne-panicked _, ok_pool))
]

on_status-Progress :
    (cfg : Config) (sv : Server) (limit status : ℕ) (e : Exec)
    → cfg.max_retries < 2 ^ 32
    → PoolOk e.pool
    → Progress cfg limit (rank cfg limit e) (on_status cfg sv status e)
unfolding on_status Progress
on_status-Progress cfg sv limit status e small ok_pool =
    elim (Bool-cases (is_server_error status || (status == 429))) [
      | inl server ↦ rw server (retry_or_give_up-Progress cfg limit e small ok_pool)
      | inr other ↦ rw other (failed-ne-panicked _, ok_pool)
    ]

on_body-Progress :
    (cfg : Config) (sv : Server) (limit status : ℕ) (x_error : String) (body : Body) (e : Exec)
    → cfg.max_retries < 2 ^ 32
    → PoolOk e.pool
    → asks_retry (answer status x_error body) ≡ false
    → Progress cfg limit (rank cfg limit e) (on_body cfg sv status body e)
unfolding on_body Progress
on_body-Progress cfg sv limit status x not_json e small ok_pool h =
    on_status-Progress cfg sv limit status e small ok_pool
on_body-Progress cfg sv limit status x lost e small ok_pool h = (failed-ne-panicked _, ok_pool)
on_body-Progress cfg sv limit status x unparsable e small ok_pool h =
    on_status-Progress cfg sv limit status e small ok_pool
on_body-Progress cfg sv limit status x (api_error code message) e small ok_pool h =
    on_api_error-Progress cfg limit (from_code code message) e ok_pool h

pub on_reply-Progress :
    (cfg : Config) (sv : Server) (limit : ℕ) (token : String) (r : Reply) (e : Exec)
    → cfg.max_retries < 2 ^ 32
    → PoolOk e.pool
    → asks_retry r ≡ false
    → Progress cfg limit (rank cfg limit e) (on_reply cfg sv limit token r e)
unfolding on_reply Progress
on_reply-Progress cfg sv limit token network_failure e small ok_pool h =
    on_network_failure-Progress cfg limit e small ok_pool
on_reply-Progress cfg sv limit token context_cancelled e small ok_pool h =
    (failed-ne-panicked _, ok_pool)
on_reply-Progress cfg sv limit token other_failure e small ok_pool h =
    (failed-ne-panicked _, ok_pool)
on_reply-Progress cfg sv limit token (answer status x body) e small ok_pool h =
    elim (Bool-cases
      (cfg.is_download_client && (is_none cfg.fixed_bearer && not (is_success status)))) [
        | inl cdn ↦
            rw cdn (
              on_download_error-Progress cfg limit token (download (from_header x status)) e
                ok_pool)
        | inr rest ↦ rw rest (elim (Bool-cases (is_success status)) [
          | inl good ↦ rw good (ground arith, ok_pool)
          | inr bad ↦ rw bad (on_body-Progress cfg sv limit status x body e small ok_pool h)
        ])
      ]

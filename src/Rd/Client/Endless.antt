-- ===== src/Rd/Client/Endless.antt =====
-- A server that keeps asking for another try keeps the loop of `execute_impl` going.
use rd_rs.Prelude.{
  ℕ, zero, suc, ◌+◌, ◌%◌, ◌^◌, ◌≡◌, refl, ap, ◌∙◌, Bool, false, Option, none, some, String,
}
use rd_rs.Prelude.Int.{pos}
use rd_rs.Rd.Client.{
  api_error, answer, Server, Config, Exec, Turn, finished, again, on_api_error, on_body, on_reply,
  choose_bearer, send, turn, loop, execute_impl,
}
use rd_rs.Rd.Client.Errors.{from_code}

-- Every answer is the API's rate limit, in a JSON body.
unfoldable pub AlwaysLimited : Server → Type 0
AlwaysLimited sv =
    (i : ℕ) (fallback : Bool) (token : String)
    → sv.reply i fallback token ≡ answer 429 "" (api_error (pos 34) "too_many_requests")

reply_endless :
    (cfg : Config) (sv : Server) (limit : ℕ) (token : String) (e : Exec)
    → cfg.is_download_client ≡ false
    → on_reply cfg sv limit token (answer 429 "" (api_error (pos 34) "too_many_requests")) e
      ≡ again (record e { attempt = (e.attempt + 1) % 2 ^ 32 })
unfolding on_reply on_body on_api_error from_code
reply_endless cfg sv limit token e api = rw api refl

turn_endless :
    (cfg : Config) (sv : Server) (limit a t n : ℕ) (fb : Bool)
    → cfg.is_download_client ≡ false
    → cfg.fixed_bearer ≡ none
    → AlwaysLimited sv
    → turn cfg sv limit
        (record { attempt = a; token_attempts = t; use_fallback = fb; pool = none; sent = n })
      ≡ again (record {
        attempt = (a + 1) % 2 ^ 32;
        token_attempts = t;
        use_fallback = fb;
        pool = none;
        sent = n + 1;
      })
unfolding turn choose_bearer send AlwaysLimited
turn_endless cfg sv limit a t n fb api plain always =
    ap (λ b. send_chosen b) plain
    ∙ ap (λ r. on_reply cfg sv limit (sv.credential n) r sent_one) (always n fb (sv.credential n))
    ∙ reply_endless cfg sv limit (sv.credential n) sent_one api
  where
    start : Exec
    start = record { attempt = a; token_attempts = t; use_fallback = fb; pool = none; sent = n }

    sent_one : Exec
    sent_one = record start { sent = n + 1 }

    send_chosen : Option String → Turn
    send_chosen b =
        let chosen = choose_bearer b (sv.credential n) none in
        send cfg sv limit chosen.0 (record start { pool = chosen.1 })

loop_again :
    (cfg : Config) (sv : Server) (limit fuel : ℕ) (e e' : Exec)
    → turn cfg sv limit e ≡ again e'
    → loop cfg sv limit (suc fuel) e ≡ loop cfg sv limit fuel e'
unfolding loop
loop_again cfg sv limit fuel e e' h =
    ap (λ (t : Turn). elim t [ finished o x ↦ some (o, x) | again x ↦ loop cfg sv limit fuel x ]) h

loop_endless :
    (cfg : Config) (sv : Server) (limit fuel a t n : ℕ) (fb : Bool)
    → cfg.is_download_client ≡ false
    → cfg.fixed_bearer ≡ none
    → AlwaysLimited sv
    → loop cfg sv limit fuel
        (record { attempt = a; token_attempts = t; use_fallback = fb; pool = none; sent = n })
      ≡ none
unfolding loop
loop_endless cfg sv limit zero a t n fb api plain always = refl
loop_endless cfg sv limit (suc fuel) a t n fb api plain always =
    loop_again cfg sv limit fuel _ _ (turn_endless cfg sv limit a t n fb api plain always)
    ∙ loop_endless cfg sv limit fuel ((a + 1) % 2 ^ 32) t (n + 1) fb api plain always

-- An API client without a fixed bearer, whose every answer is the API's rate limit in a JSON body,
-- never returns, whatever `max_retries` is.
pub execute_impl_endless :
    (cfg : Config) (sv : Server) (fuel : ℕ)
    → cfg.is_download_client ≡ false
    → cfg.fixed_bearer ≡ none
    → AlwaysLimited sv
    → execute_impl fuel cfg sv none ≡ none
unfolding execute_impl
execute_impl_endless cfg sv fuel api plain always =
    loop_endless cfg sv 1 fuel 0 0 0 false api plain always

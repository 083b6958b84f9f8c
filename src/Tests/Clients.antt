-- ===== src/Tests/Clients.antt =====
-- The theorems on the token pool, the configured tokens and the retry loop of the client.
use rd_rs.Prelude.{
  ℕ, zero, suc, ◌≡◌, ◌≢◌, refl, true, false, some, none, List, [], ◌∷◌, String, arith,
}
use rd_rs.Prelude.Int.{pos}
use rd_rs.Prelude.Map.{contains, string_keys}
use rd_rs.Config.{Config, all_download_tokens}
use rd_rs.Config.Tokens.{all_download_tokens-Distinct}
use rd_rs.Rd.TokenPool.{TokenPool, download_bearer, mark_exhausted, any_non_exhausted, new}
use rd_rs.Rd.TokenPool.Bearer.{IsPool, Chosen, download_bearer-Chosen}
use rd_rs.Rd.TokenPool.Reach.{started, reached-IsPool}
use rd_rs.Rd.TokenPool.Rotation.{Distinct, mark_exhausted-download_bearer}
use rd_rs.Rd.Client.{
  Reply, network_failure, answer, api_error, not_json, Server, Outcome, Exec, execute_impl,
  pool_len,
}
use rd_rs.Rd.Client.Replies.{PoolOk, asks_retry}
use rd_rs.Rd.Client.Turns.{NeverAsksRetry}
use rd_rs.Rd.Client.Retries.{Returns, execute_impl-Returns}
use rd_rs.Rd.Client.Endless.{AlwaysLimited, execute_impl_endless}

abbrev first_token : String
first_token = "one"

abbrev second_token : String
second_token = "two"

abbrev pub two_tokens : List String
two_tokens = "one" ∷ "two" ∷ []

abbrev pub fresh_pool : TokenPool
fresh_pool = record { tokens = two_tokens; exhausted = false ∷ false ∷ []; current = 0 }

fresh_pool_is_new : new two_tokens ≡ some fresh_pool
unfolding new
fresh_pool_is_new = refl

pub fresh_pool-IsPool : IsPool fresh_pool
fresh_pool-IsPool = reached-IsPool fresh_pool (started two_tokens fresh_pool fresh_pool_is_new)

pub two_tokens-Distinct : Distinct two_tokens
unfolding all_download_tokens contains rd_rs.Config.push_missing
two_tokens-Distinct =
    all_download_tokens-Distinct (record { token = "one"; download_tokens = two_tokens })

download_bearer-Chosen_example : Chosen fresh_pool (download_bearer fresh_pool)
download_bearer-Chosen_example = download_bearer-Chosen fresh_pool fresh_pool-IsPool

one_is_left : any_non_exhausted (mark_exhausted "one" fresh_pool) ≡ true
unfolding any_non_exhausted mark_exhausted
one_is_left = refl

mark_exhausted-download_bearer_example :
    (download_bearer (mark_exhausted "one" fresh_pool)).0 ≢ some "one"
mark_exhausted-download_bearer_example =
    mark_exhausted-download_bearer fresh_pool "one" fresh_pool-IsPool two_tokens-Distinct
      one_is_left

abbrev extra_tokens : Config
extra_tokens = record { token = "one"; download_tokens = "two" ∷ "one" ∷ [] }

-- A network failure, then the bandwidth limit on the first token, then an answer.
abbrev some_reply : ℕ → Reply
some_reply zero = network_failure
some_reply (suc zero) = answer 503 "bytes_limit_reached" not_json
some_reply (suc (suc n)) = answer 206 "" not_json

abbrev some_server : Server
some_server = record {
  reply = λ i fallback token. some_reply i;
  credential = λ i. "one";
  http_message = λ status. "HTTP";
}

some_reply-asks_retry : (i : ℕ) → asks_retry (some_reply i) ≡ false
some_reply-asks_retry zero = refl
some_reply-asks_retry (suc zero) = refl
some_reply-asks_retry (suc (suc n)) = refl

some_server-NeverAsksRetry : NeverAsksRetry some_server
unfolding NeverAsksRetry
some_server-NeverAsksRetry = λ i fallback token. some_reply-asks_retry i

abbrev cdn_client : rd_rs.Rd.Client.Config
cdn_client = record { max_retries = 3; is_download_client = true; fixed_bearer = none }

fresh_pool-PoolOk : PoolOk (some fresh_pool)
unfolding PoolOk
fresh_pool-PoolOk = fresh_pool-IsPool

execute_impl-Returns_example : Returns (execute_impl 20 cdn_client some_server (some fresh_pool))
execute_impl-Returns_example =
    execute_impl-Returns cdn_client some_server (some fresh_pool) 20 (omega arith) fresh_pool-PoolOk
      some_server-NeverAsksRetry (omega arith)

abbrev limiting_server : Server
limiting_server = record {
  reply = λ i fallback token. answer 429 "" (api_error (pos 34) "too_many_requests");
  credential = λ i. "one";
  http_message = λ status. "HTTP";
}

limiting_server-AlwaysLimited : AlwaysLimited limiting_server
unfolding AlwaysLimited
limiting_server-AlwaysLimited = λ i fallback token. refl

abbrev api_client : rd_rs.Rd.Client.Config
api_client = record { max_retries = 3; is_download_client = false; fixed_bearer = none }

execute_impl_endless_example : execute_impl 1000 api_client limiting_server none ≡ none
execute_impl_endless_example =
    execute_impl_endless api_client limiting_server 1000 refl refl limiting_server-AlwaysLimited

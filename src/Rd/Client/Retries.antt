-- ===== src/Rd/Client/Retries.antt =====
-- How long the loop of `execute_impl` goes on.
use rd_rs.Prelude.{ℕ, zero, suc, ◌+◌, ◌*◌, ◌^◌, ◌≤◌, ◌<◌, ◌≢◌, Option, none, some, arith}
use rd_rs.Rd.TokenPool.{TokenPool}
use rd_rs.Rd.Client.{
  Server, Config, Exec, Outcome, panicked, Turn, finished, again, turn, loop, pool_len, begin,
  execute_impl,
}
use rd_rs.Rd.Client.Replies.{PoolOk, rank, Progress}
use rd_rs.Rd.Client.Turns.{NeverAsksRetry, turn-Progress}

-- The loop returns, and not by a panic.
pub Returns : Option (Outcome × Exec) → Type 0
Returns none = ⊥
Returns (some (o, e)) = (o ≢ panicked) × PoolOk e.pool

after_turn :
    (cfg : Config) (sv : Server) (limit fuel r : ℕ) (t : Turn)
    → ((e : Exec) → rank cfg limit e < r → PoolOk e.pool → Returns (loop cfg sv limit fuel e))
    → Progress cfg limit r t
    → Returns (elim t [ finished o e ↦ some (o, e) | again e ↦ loop cfg sv limit fuel e ])
unfolding Returns Progress
after_turn cfg sv limit fuel r (finished o e) next p = p
after_turn cfg sv limit fuel r (again e) next (less, w) = next e less w

loop-Returns :
    (cfg : Config) (sv : Server) (limit fuel : ℕ) (e : Exec)
    → cfg.max_retries < 2 ^ 32
    → PoolOk e.pool
    → NeverAsksRetry sv
    → rank cfg limit e < fuel
    → Returns (loop cfg sv limit fuel e)
unfolding loop
loop-Returns cfg sv limit zero e small w never lt = absurd (omega arith)
loop-Returns cfg sv limit (suc fuel) e small w never lt =
    after_turn cfg sv limit fuel (rank cfg limit e) (turn cfg sv limit e)
      (λ e' less w'. loop-Returns cfg sv limit fuel e' small w' never (omega (arith, less, lt)))
      (turn-Progress cfg sv limit e small w never)

-- Where `max_retries` fits a `u32`, the pool, if there is one, is well formed, and the server never
-- asks for another try by an API error in a JSON body: `execute_impl` returns, without a panic and
-- with a well-formed pool, within 2 + `max_retries` + t * (`max_retries` + 1) turns of its loop,
-- for a pool of t tokens (t = 1 without a pool).
pub execute_impl-Returns :
    (cfg : Config) (sv : Server) (pool : Option TokenPool) (fuel : ℕ)
    → cfg.max_retries < 2 ^ 32
    → PoolOk pool
    → NeverAsksRetry sv
    → 2 + cfg.max_retries + pool_len pool * (cfg.max_retries + 1) ≤ fuel
    → Returns (execute_impl fuel cfg sv pool)
unfolding execute_impl
execute_impl-Returns cfg sv pool fuel small w never enough =
    loop-Returns cfg sv (pool_len pool) fuel (begin pool) small w never (ground arith)

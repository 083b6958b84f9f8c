-- ===== src/Rd/Client/Turns.antt =====
-- What one turn of the loop of `execute_impl` makes of the turns that are left.
use rd_rs.Prelude.{
  ℕ, ◌+◌, ◌^◌, ◌<◌, ◌≡◌, inl, inr, refl, ◌∙◌, Bool, false, Option, none, some, String, get_elem?-lt,
}
use native.Mathlib.Nat.{mod-lt}
use rd_rs.Rd.TokenPool.{TokenPool, start_of, download_bearer}
use rd_rs.Rd.TokenPool.Bearer.{IsPool, Chosen, download_bearer-Chosen}
use rd_rs.Rd.TokenPool.Reach.{download_bearer-IsPool}
use rd_rs.Rd.Client.{Server, Config, Exec, choose_bearer, send, turn}
use rd_rs.Rd.Client.Replies.{PoolOk, asks_retry, rank, Progress, on_reply-Progress}

Chosen-some :
    (p : TokenPool) (r : Option String × TokenPool)
    → IsPool p
    → Chosen p r
    → (t : String) × (r.0 ≡ some t)
unfolding Chosen
Chosen-some p (t, p') w (inl (i, k, lt, at, free, before, is_token, moved, kept, flags)) =
    let (x, e) = get_elem?-lt p.tokens i lt in (x, is_token ∙ e)
Chosen-some p (t, p') w (inr (all, is_token, same)) =
    let (x, e) = get_elem?-lt p.tokens (start_of p) (mod-lt p.current w.inhabited) in
    (x, is_token ∙ e)

-- There is a bearer, and the pool that picked it stays well formed.
choose_bearer-some :
    (fixed : Option String) (credential : String) (pool : Option TokenPool)
    → PoolOk pool
    → (t : String) × ((choose_bearer fixed credential pool).0 ≡ some t)
      × PoolOk (choose_bearer fixed credential pool).1
unfolding choose_bearer PoolOk
choose_bearer-some (some b) credential none w = (b, refl, tt)
choose_bearer-some (some b) credential (some p) w = (b, refl, w)
choose_bearer-some none credential none w = (credential, refl, tt)
choose_bearer-some none credential (some p) w =
    let (t, e) = Chosen-some p (download_bearer p) w (download_bearer-Chosen p w) in
    (t, e, download_bearer-IsPool p w)

-- No answer asks for another try by an API error.
unfoldable pub NeverAsksRetry : Server → Type 0
NeverAsksRetry sv =
    (i : ℕ) (fallback : Bool) (token : String) → asks_retry (sv.reply i fallback token) ≡ false

pub turn-Progress :
    (cfg : Config) (sv : Server) (limit : ℕ) (e : Exec)
    → cfg.max_retries < 2 ^ 32
    → PoolOk e.pool
    → NeverAsksRetry sv
    → Progress cfg limit (rank cfg limit e) (turn cfg sv limit e)
unfolding turn send NeverAsksRetry
turn-Progress cfg sv limit e small w never =
    let (token, is_token, w') =
      choose_bearer-some cfg.fixed_bearer (sv.credential e.sent) e.pool w in
    let pool' = (choose_bearer cfg.fixed_bearer (sv.credential e.sent) e.pool).1 in
    rw is_token (
      on_reply-Progress cfg sv limit token (sv.reply e.sent e.use_fallback token)
        (record e { pool = pool'; sent = e.sent + 1 }) small w' (never e.sent e.use_fallback token))

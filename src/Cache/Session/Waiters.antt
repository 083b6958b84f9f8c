-- ===== src/Cache/Session/Waiters.antt =====
-- A session runs while somebody waits for it, and is cancelled when the last one goes.
use rd_rs.Prelude.{
  ℕ, ◌+◌, ◌^◌, ◌<◌, ◌≡◌, refl, ◌⊎◌, inl, inr, Bool, true, false, [], arith, ◌==◌, if◌then◌else◌,
  Bool-cases, ==_iff,
}
use rd_rs.Cache.Session.{
  DownloadSession, set_abort_handle, cancel, join, leave, Past, created, joined, went, handed,
  stopped,
}

-- The count is the number of guards alive; the session is cancelled just when it was stopped, and
-- has aborted no task before.
pub record Counted (n : ℕ) (stopped_before : Bool) (s : DownloadSession) : Type 0 where
  pub waiters : s.waiters ≡ n
  pub small : n < 2 ^ 64
  pub cancelled : s.cancelled ≡ stopped_before
  pub aborted : (stopped_before ≡ true) ⊎ (s.aborted ≡ [])

leave-Counted :
    (n : ℕ) (b : Bool) (s : DownloadSession)
    → Counted (n + 1) b s
    → Counted n (if n == 0 then true else b) (leave s)
unfolding leave cancel
leave-Counted n b s c = elim (Bool-cases (s.waiters == 1)) [
  | inl last ↦
      let none_left : (n == 0) ≡ true = ground (arith, c.waiters) in
      rw (last, none_left)
        (record {
          waiters = omega (arith, c.waiters, (==_iff s.waiters 1).0 last);
          small = omega (arith, c.small);
          cancelled = refl;
          aborted = inl refl;
        })
  | inr more ↦
      let some_left : (n == 0) ≡ false = ground (arith, c.waiters) in
      rw (more, some_left)
        (record {
          waiters = omega (arith, c.waiters, c.small);
          small = omega (arith, c.small);
          cancelled = c.cancelled;
          aborted = c.aborted;
        })
]

-- In every past of a session, its count is the number of guards that are alive; it is cancelled
-- just when `cancel` was called or the last guard had gone once, and before that no task was
-- aborted. Fewer than 2^64 guards are alive at a time.
pub past-Counted : (n : ℕ) (b : Bool) (s : DownloadSession) → Past n b s → Counted n b s
unfolding join set_abort_handle cancel
past-Counted _ _ _ (created anchor fetch_until) = record {
  waiters = refl;
  small = omega arith;
  cancelled = refl;
  aborted = inr refl;
}
past-Counted _ _ _ (joined n b s less p) =
    let c = past-Counted n b s p in
    record {
      waiters = omega (arith, c.waiters);
      small = less;
      cancelled = c.cancelled;
      aborted = c.aborted;
    }
past-Counted _ _ _ (went n b s p) = leave-Counted n b s (past-Counted (n + 1) b s p)
past-Counted _ _ _ (handed n b s h p) =
    let c = past-Counted n b s p in
    record { waiters = c.waiters; small = c.small; cancelled = c.cancelled; aborted = c.aborted }
past-Counted _ _ _ (stopped n b s p) =
    let c = past-Counted n b s p in
    record { waiters = c.waiters; small = c.small; cancelled = refl; aborted = inl refl }

-- ===== src/Cache/Session.antt =====
-- `DownloadSession` and `WaiterGuard` of src/cache/download_session.rs. A task's abort handle is a
-- number, and `aborted` lists the handles that were aborted, the latest first.
pub mod Waiters
use rd_rs.Prelude.{
  ℕ, zero, suc, ◌+◌, ◌-◌, ◌%◌, ◌^◌, ◌<◌, ◌≡◌, Bool, true, false, ◌&&◌, Option, none, some, List, [],
  ◌∷◌, leb, ltb, ◌==◌, if◌then◌else◌,
}

pub record DownloadSession : Type 0 where
  pub anchor : ℕ
  pub fetch_until : ℕ
  pub waiters : ℕ
  pub abort : Option ℕ
  pub cancelled : Bool
  pub aborted : List ℕ

abbrev pub new_session : ℕ → ℕ → DownloadSession
new_session anchor fetch_until = record {
  anchor = anchor;
  fetch_until = fetch_until;
  waiters = 0;
  abort = none;
  cancelled = false;
  aborted = [];
}

unfoldable pub covers_fuse_offset : DownloadSession → ℕ → Bool
covers_fuse_offset s offset = leb s.anchor offset && ltb offset s.fetch_until

unfoldable pub set_abort_handle : ℕ → DownloadSession → DownloadSession
set_abort_handle h s = record s { abort = some h }

abbrev pub take_handle : Option ℕ → List ℕ → List ℕ
take_handle none aborted = aborted
take_handle (some h) aborted = h ∷ aborted

unfoldable pub cancel : DownloadSession → DownloadSession
cancel s = record s { cancelled = true; abort = none; aborted = take_handle s.abort s.aborted }

-- `WaiterGuard::new`
unfoldable pub join : DownloadSession → DownloadSession
join s = record s { waiters = (s.waiters + 1) % 2 ^ 64 }

-- `WaiterGuard::drop`: the last one cancels the session.
unfoldable pub leave : DownloadSession → DownloadSession
unfolding cancel
leave s =
    let left = record s { waiters = (s.waiters + (2 ^ 64 - 1)) % 2 ^ 64 } in
    if s.waiters == 1 then cancel left else left

-- A session's past: how many guards are alive, and whether it was stopped, by `cancel` or by the
-- last guard that went.
pub data Past : ℕ → Bool → DownloadSession → Type 0 where
  created : (anchor fetch_until : ℕ) → Past 0 false (new_session anchor fetch_until)
  joined :
      (n : ℕ) (b : Bool) (s : DownloadSession)
      → n + 1 < 2 ^ 64
      → Past n b s
      → Past (n + 1) b (join s)
  went :
      (n : ℕ) (b : Bool) (s : DownloadSession)
      → Past (n + 1) b s
      → Past n (if n == 0 then true else b) (leave s)
  handed :
      (n : ℕ) (b : Bool) (s : DownloadSession) (h : ℕ)
      → Past n b s
      → Past n b (set_abort_handle h s)
  stopped : (n : ℕ) (b : Bool) (s : DownloadSession) → Past n b s → Past n true (cancel s)

-- ===== src/Repair/Ephemeral.antt =====
-- src/repair/ephemeral_torrent.rs: the polling of a new magnet, and the guard that deletes it
-- unless it is dismissed. The task that a drop starts, with its second try, is one call of the log.
use rd_rs.Prelude.{
  ℕ, zero, suc, Bool, true, false, not, ◌&&◌, Option, none, some, List, [], ◌∷◌, String, ◌==◌,
  if◌then◌else◌,
}
use rd_rs.Rd.Client.Errors.{RdError}
use rd_rs.Torrent.Types.{TorrentInfo}
use rd_rs.Repair.Account.{
  Account, Answer, answered, failed, Log, deleted, spawned_delete, get_torrent_info,
}

pub record InfoReadyOutcome : Type 0 where
  pub is_ready : Bool
  pub restrict_cached_not_ready : Bool

abbrev pub ready : InfoReadyOutcome
ready = record { is_ready = true; restrict_cached_not_ready = false }

abbrev pub not_ready_keep : InfoReadyOutcome
not_ready_keep = record { is_ready = false; restrict_cached_not_ready = false }

abbrev pub restrict_cached_exhausted : InfoReadyOutcome
restrict_cached_exhausted = record { is_ready = false; restrict_cached_not_ready = true }

abbrev pub is_empty : List String → Bool
is_empty [] = true
is_empty (link ∷ links) = false

abbrev pub looks_ready : TorrentInfo → Bool
looks_ready info = (info.progress == 100) && not (is_empty info.links)

abbrev pub poll_again :
    Answer TorrentInfo → Answer InfoReadyOutcome × Log → Log → Answer InfoReadyOutcome × Log
poll_again (failed e) rest l = (failed e, l)
poll_again (answered info) rest l = if looks_ready info then (answered ready, l) else rest

-- The attempts that are left; the waits between them change nothing here.
unfoldable pub poll : Account → String → Bool → ℕ → Log → Answer InfoReadyOutcome × Log
poll rd id restrict_cached zero l =
    (answered (if restrict_cached then restrict_cached_exhausted else not_ready_keep), l)
poll rd id restrict_cached (suc attempts) l =
    let (a, l1) = get_torrent_info rd id l in
    let rest = poll rd id restrict_cached attempts l1 in poll_again a rest l1

unfoldable pub info_ready : Account → String → Bool → Log → Answer InfoReadyOutcome × Log
unfolding poll
info_ready rd id restrict_cached l = poll rd id restrict_cached 3 l

-- `EphemeralRdTorrent` is the id that it holds.
abbrev pub Guard : Type 0
Guard = Option String

-- On an error the id is left in place.
abbrev pub left_in : String → Option RdError → Guard
left_in id none = none
left_in id (some e) = some id

abbrev pub delete_ephemeral : Account → Guard → Log → Option RdError × Guard × Log
delete_ephemeral rd none l = (none, none, l)
delete_ephemeral rd (some id) l =
    let r = rd.delete_torrent l id in (r, left_in id r, deleted id r ∷ l)

-- `Drop`, within the runtime.
abbrev pub drop_guard : Guard → Log → Log
drop_guard none l = l
drop_guard (some id) l = spawned_delete id ∷ l

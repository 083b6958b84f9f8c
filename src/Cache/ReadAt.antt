-- ===== src/Cache/ReadAt.antt =====
-- `read_at` of src/cache/item_read_at.rs. What a read sees of the item while it waits, which of its
-- waits end, and which workers are at work, is a list of rounds of its loop; a list that ends means
-- that the read still waits. The new sessions are those of `Session`; the workers' own steps are in
-- `Worker.Pass`.
pub mod Answers
pub mod Sessions
use rd_rs.Prelude.{
  ℕ, zero, suc, length, ◌++◌, ◌&&◌, ◌+◌, ◌-◌, ◌%◌, ◌^◌, min, Bool, true, false, not, ◌||◌, Option,
  none, some, List, [], ◌∷◌, ◌++◌, leb, if◌then◌else◌,
}
use rd_rs.Cache.ByteRanges.{has_range}
use rd_rs.Cache.Item.{Item, read_from_file}
use rd_rs.Cache.Session.{
  DownloadSession, new_session, covers_fuse_offset, set_abort_handle, join, leave, cancel,
}

pub data ReadResult : Type 0 where
  bytes : List ℕ → ReadResult
  io_error cancelled download_failed : ReadResult

-- A round of the loop: whether the read was cancelled before its wait, the item then, whether the
-- wait was woken, the handle of the worker that is spawned if it was not, the item after it,
-- whether the read's own worker has finished, or the session it joined is still registered, the
-- item where the loop answers, the one from which the file is read then, and whether the read is
-- cancelled by then.
pub record Round : Type 0 where
  pub is_cancelled : Bool
  pub before : Item
  pub woken : Bool
  pub task : ℕ
  pub after : Item
  pub is_finished : Bool
  pub still_registered : Bool
  pub at_end : Item
  pub to_read : Item
  pub cancelled_at_end : Bool

abbrev pub end_of : ℕ → ℕ → ℕ → ℕ
end_of offset size file_size = min ((offset + size) % 2 ^ 64) file_size

abbrev pub of_read : Option (List ℕ) → ReadResult
of_read none = io_error
of_read (some bs) = bytes bs

-- `item.read_from_file(offset, (end - offset) as u32)`
unfoldable pub read_part : Bool → ℕ → ℕ → Item → ReadResult
unfolding read_from_file
read_part readable offset end i =
    of_read (read_from_file readable offset ((end - offset) % 2 ^ 32) i)

-- The answer when the loop has ended with this result.
unfoldable pub answer : Bool → ℕ → ℕ → Round → Bool → ReadResult
unfolding read_part
answer readable offset end r true = read_part readable offset end r.to_read
answer readable offset end r false = if r.cancelled_at_end then cancelled else download_failed

-- The sessions at work, the place among them of the one that the read waits for, and whether its
-- worker was spawned by the read.
pub record Held : Type 0 where
  pub is_own : Bool
  pub place : ℕ
  pub sessions : List DownloadSession

unfoldable pub change_at :
    (DownloadSession → DownloadSession) → ℕ → List DownloadSession → List DownloadSession
change_at f i [] = []
change_at f zero (s ∷ sessions) = f s ∷ sessions
change_at f (suc i) (s ∷ sessions) = s ∷ change_at f i sessions

-- `spawn_worker`; `task` is the handle of the task.
abbrev pub spawned : ℕ → ℕ → ℕ → DownloadSession
spawned task offset fetch_until = set_abort_handle task (new_session offset fetch_until)

-- The first session that covers the offset is joined, or a new one is added.
unfoldable pub start_session : ℕ → ℕ → ℕ → List DownloadSession → Held
unfolding covers_fuse_offset join set_abort_handle
start_session task offset fetch_until [] = record {
  is_own = true;
  place = 0;
  sessions = join (spawned task offset fetch_until) ∷ [];
}
start_session task offset fetch_until (s ∷ workers) =
    let rest = start_session task offset fetch_until workers in
    if covers_fuse_offset s offset
    then record { is_own = false; place = 0; sessions = join s ∷ workers }
    else record { is_own = rest.is_own; place = suc rest.place; sessions = s ∷ rest.sessions }

-- The guard of the read goes.
abbrev pub let_go : Held → List DownloadSession
let_go h = change_at leave h.place h.sessions

-- The kicker: the session is cancelled, and the read waits for a new one with a worker of its own.
unfoldable pub kick : ℕ → ℕ → ℕ → Held → Held
unfolding change_at cancel leave join set_abort_handle
kick task offset fetch_until h =
    let stalled = change_at cancel h.place h.sessions in
    let started = stalled ++ (join (spawned task offset fetch_until) ∷ []) in
    record { is_own = true; place = length h.sessions; sessions = change_at leave h.place started }

-- A wait for another's worker that nothing wakes for five seconds.
unfoldable pub after_timeout : ℕ → ℕ → Round → Held → Held
unfolding kick
after_timeout offset fetch_until r h =
    if not h.is_own && not r.woken then kick r.task offset fetch_until h else h

unfoldable pub wait_loop :
    Bool → ℕ → ℕ → ℕ → Held → List Round → Option (ReadResult × List DownloadSession)
unfolding answer after_timeout change_at leave
wait_loop readable offset end fetch_until h [] = none
wait_loop readable offset end fetch_until h (r ∷ rounds) =
    let h1 = after_timeout offset fetch_until r h in
    let rest = wait_loop readable offset end fetch_until h1 rounds in
    if r.is_cancelled
    then some (cancelled, let_go h)
    else if has_range r.before.ranges offset end
    then some (answer readable offset end r true, let_go h)
    else if has_range r.after.ranges offset end
    then some (answer readable offset end r true, let_go h1)
    else if (if h1.is_own then r.is_finished else not r.still_registered)
    then some (answer readable offset end r (has_range r.at_end.ranges offset end), let_go h1)
    else rest

abbrev pub fetch_until_of : ℕ → ℕ → ℕ → ℕ
fetch_until_of end read_ahead file_size = min ((end + read_ahead) % 2 ^ 64) file_size

-- A read reads from the file at most once; `readable` tells whether it can then. `task` is the
-- handle of the worker that it may spawn at the start.
unfoldable pub read_at :
    Bool
    → ℕ
    → ℕ
    → ℕ
    → ℕ
    → Item
    → List DownloadSession
    → List Round
    → Option (ReadResult × List DownloadSession)
unfolding read_part wait_loop start_session
read_at readable task offset size read_ahead i workers rounds =
    let end = end_of offset size i.file_size in
    let fetch_until = fetch_until_of end read_ahead i.file_size in
    let started = start_session task offset fetch_until workers in
    if leb i.file_size offset
    then some (bytes [], workers)
    else if has_range i.ranges offset end
    then some (read_part readable offset end i, workers)
    else wait_loop readable offset end fetch_until started rounds

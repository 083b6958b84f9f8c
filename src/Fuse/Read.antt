-- ===== src/Fuse/Read.antt =====
-- `read` of src/fuse/read.rs on a torrent's file: which reply it gives, the window of the file
-- handle, and what it does to the registry. The wait for a repair, the bytes that `read_at` gives
-- and the leadership among reads that fail together are the parameter `Mount`; the caches of links
-- and of files that a bad link clears are left out, and so is the rate of log lines.
pub mod Broken
pub mod Bytes
pub mod Fatal
use rd_rs.Prelude.{
  ℕ, zero, suc, ◌+◌, ◌-◌, ◌%◌, ◌^◌, min, Bool, true, false, not, ◌||◌, ◌&&◌, Option, none, some,
  List, [], ◌∷◌, String, ltb, ◌==◌, if◌then◌else◌, length, get_elem?, take,
}
use rd_rs.Prelude.Int.{ℤ, pos, negsuc, ◌=ℤ◌}
use rd_rs.Prelude.Map.{◌=?◌, lookup, string_keys}
use rd_rs.Rd.Client.Errors.{RdError, api, should_retry}
use rd_rs.Torrent.Types.{
  File, TorrentInfo, Download, TorrentState, broken, ManagedTorrent, selected_of,
}
use rd_rs.Torrent.Manager.{World, Manager, states_or_empty, update_torrent_state, mark_file_broken}
use rd_rs.Db.{Json}
use rd_rs.Cache.ReadAt.{ReadResult, bytes, io_error, cancelled, download_failed}
use rd_rs.Repair.Account.{Account, Answer, answered, failed, Log, unrestrict_link}
use rd_rs.Repair.Preflight.{is_broken}
use rd_rs.Repair.Queue.{enqueue_repair}
use rd_rs.Repair.Engine.{Progress, ensure_torrent_info}
use rd_rs.Fuse.ReadBuffer.{VfsReadBuffer, PrepareRead, hit, miss, prepare_read, after_fetch}

-- `fetch` is `read_at` of the file's cache item, `opened` whether the item can be had, `repaired`
-- the wait for a repair: whether it ends with the torrent ok, and what it leaves. `extension` is
-- that of a path, in lower case.
pub record Mount : Type 0 where
  pub world : World
  pub json : Json
  pub account : Account
  pub opened : Log → Bool
  pub fetch : Log → ℕ → ℕ → ReadResult
  pub is_leader : Progress → Bool
  pub repaired : Progress → Bool × Progress
  pub extension : String → Option String
  pub wait_secs : ℕ
  pub buffer_size : ℕ

pub data Reply : Type 0 where
  data_of : List ℕ → Reply
  enoent eio eintr : Reply

-- A turn of the loop `'read_retry`: a reply, or another turn.
pub data Turn : Type 0 where
  replied : Reply → Turn
  again : Turn

-- `waited` is `repair_waited`; `window` that of the file handle, where there is one.
pub record ReadState : Type 0 where
  pub progress : Progress
  pub window : Option VfsReadBuffer
  pub waited : Bool

-- `n as u64` of an `i64`.
abbrev pub as_u64 : ℤ → ℕ
as_u64 (pos n) = n
as_u64 (negsuc n) = 2 ^ 64 - (n + 1)

-- What the read asks of the cache, and how it replies from it.
pub data FetchPlan : Type 0 where
  direct : FetchPlan
  buffered : (n : ℕ) → FetchPlan

abbrev pub is_fatal : RdError → Bool
is_fatal (api e) = not (should_retry e)
is_fatal e = false

abbrev pub same_text : Option String → Option String → Bool
same_text none none = true
same_text none (some s) = false
same_text (some s) none = false
same_text (some s) (some t) = s =? t

-- Both the size and the extension differ from the file's.
unfoldable pub is_corrupted : (String → Option String) → File → Download → Bool
is_corrupted extension f dl =
    not (dl.filesize =ℤ pos 0)
    && (not (as_u64 dl.filesize == as_u64 f.bytes)
        && not (same_text (extension dl.download) (extension f.path)))

-- The leader of a fatal read marks the torrent and the file, and queues the torrent.
unfoldable pub mark_fatal : Mount → String → String → Manager → Manager
unfolding update_torrent_state mark_file_broken enqueue_repair
mark_fatal s key path m =
    let m1 = (update_torrent_state s.world s.json key broken none m).1 in
    let m2 = (mark_file_broken s.world s.json key path m1).1 in
    record m2 { repair_queue = enqueue_repair key m2.repair_queue }

abbrev pub after_wait : Bool × Progress → ReadState → Turn × ReadState
after_wait (true, p) st = (again, record st { progress = p })
after_wait (false, p) st = (replied enoent, record st { progress = p })

-- A read that has not waited for a repair yet does, and is marked as one that has.
unfoldable pub wait_once : Mount → ReadState → Turn × ReadState
wait_once s st =
    if not st.waited && ltb 0 s.wait_secs
    then after_wait (s.repaired st.progress) (record st { waited = true })
    else (replied enoent, st)

unfoldable pub bad_link : Mount → String → String → ReadState → Turn × ReadState
unfolding mark_fatal wait_once
bad_link s key path st =
    let (m, l) = st.progress in
    let marked = if s.is_leader (m, l) then (mark_fatal s key path m, l) else (m, l) in
    wait_once s (record st { progress = marked })

-- The file is marked as broken: the torrent is queued only by a read that waits.
unfoldable pub broken_file : Mount → String → ReadState → Turn × ReadState
unfolding enqueue_repair
broken_file s key st =
    let (m, l) = st.progress in
    let queued : Manager = record m { repair_queue = enqueue_repair key m.repair_queue } in
    if not st.waited && ltb 0 s.wait_secs
    then after_wait (s.repaired (queued, l)) (record st { progress = (queued, l); waited = true })
    else (replied enoent, st)

abbrev pub served : FetchPlan → ℕ → List ℕ → ReadState → Turn × ReadState
served direct offset filled st = (replied (data_of filled), st)
served (buffered n) offset filled st = (
  replied (data_of (take (min n (length filled)) filled)),
  record st { window = some (after_fetch offset filled n) },
)

-- What `read_at` answers; `rest` is the next attempt.
abbrev pub fetched : FetchPlan → ℕ → ReadResult → Turn × ReadState → ReadState → Turn × ReadState
fetched plan offset (bytes filled) rest st = served plan offset filled st
fetched plan offset cancelled rest st = (replied eintr, st)
fetched plan offset download_failed rest st = rest
fetched plan offset io_error rest st = (replied eio, st)

abbrev pub attempt :
    Mount
    → String
    → File
    → FetchPlan
    → ℕ
    → ℕ
    → Answer Download
    → Turn × ReadState
    → ReadState
    → Turn × ReadState
attempt s key f plan offset n (failed e) rest st =
    if is_fatal e then bad_link s key f.path st else rest
attempt s key f plan offset n (answered dl) rest st =
    if is_corrupted s.extension f dl
    then bad_link s key f.path st
    else fetched plan offset (s.fetch st.progress.1 offset n) rest st

-- The attempts that are left, of four; the waits between them change nothing here.
unfoldable pub attempts :
    Mount → String → File → FetchPlan → ℕ → ℕ → String → ℕ → ReadState → Turn × ReadState
unfolding bad_link is_corrupted after_fetch
attempts s key f plan offset n link zero st = (replied eio, st)
attempts s key f plan offset n link (suc left) st =
    let (m, l) = st.progress in
    let (d, l1) = unrestrict_link s.account link l in
    let st1 : ReadState = record st { progress = (m, l1) } in
    let rest = attempts s key f plan offset n link left st1 in
    attempt s key f plan offset n d rest st1

-- A miss that is empty is answered at once.
unfoldable pub from_window :
    Mount → String → File → String → PrepareRead × VfsReadBuffer → ReadState → Turn × ReadState
unfolding attempts
from_window s key f link (hit out, b) st = (replied (data_of out), record st { window = some b })
from_window s key f link (miss o n k, b) st =
    let st1 : ReadState = record st { window = some b } in
    let fetch = attempts s key f (buffered k) o n link 4 st1 in
    if n == 0 then (replied (data_of []), st1) else fetch

unfoldable pub fetch_plan :
    Mount → String → File → ℕ → ℕ → String → Option VfsReadBuffer → ReadState → Turn × ReadState
unfolding from_window prepare_read
fetch_plan s key f offset size link none st = attempts s key f direct offset size link 4 st
fetch_plan s key f offset size link (some b) st =
    from_window s key f link (prepare_read offset size (as_u64 f.bytes) s.buffer_size b) st

unfoldable pub with_link :
    Mount → String → File → ℕ → ℕ → Option String → ReadState → Turn × ReadState
unfolding fetch_plan
with_link s key f offset size none st = (replied enoent, st)
with_link s key f offset size (some link) st =
    let planned = fetch_plan s key f offset size link st.window st in
    if s.opened st.progress.1 then planned else (replied eio, st)

unfoldable pub with_file :
    Mount
    → String
    → ManagedTorrent
    → TorrentInfo
    → ℕ
    → ℕ
    → ℕ
    → Option File
    → ReadState
    → Turn × ReadState
unfolding with_link broken_file
with_file s key mt info file_idx offset size none st = (replied enoent, st)
with_file s key mt info file_idx offset size (some f) st =
    let link = get_elem? info.links (min file_idx (length info.links - 1)) in
    let served = with_link s key f offset size link st in
    let unserved = broken_file s key st in
    if as_u64 f.bytes == 0
    then (replied (data_of []), st)
    else if is_broken (lookup f.path (states_or_empty mt.file_states))
    then unserved
    else served

unfoldable pub with_details :
    Mount → String → ManagedTorrent → ℕ → ℕ → ℕ → Option TorrentInfo → ReadState → Turn × ReadState
unfolding with_file selected_of
with_details s key mt file_idx offset size none st = (replied enoent, st)
with_details s key mt file_idx offset size (some info) st =
    with_file s key mt info file_idx offset size (get_elem? (selected_of info.files) file_idx) st

unfoldable pub with_found :
    Mount → String → ℕ → ℕ → ℕ → Option ManagedTorrent → ReadState → Turn × ReadState
unfolding with_details
with_found s key file_idx offset size none st = (replied enoent, st)
with_found s key file_idx offset size (some mt) st =
    with_details s key mt file_idx offset size mt.info st

unfoldable pub read_turn : Mount → String → ℕ → ℕ → ℕ → ReadState → Turn × ReadState
unfolding with_found ensure_torrent_info
read_turn s key file_idx offset size st =
    let (o, p) = ensure_torrent_info s.account key st.progress in
    with_found s key file_idx offset size o (record st { progress = p })

abbrev pub next_turn :
    Turn → (ReadState → Option (Reply × ReadState)) → ReadState → Option (Reply × ReadState)
next_turn (replied r) rest st = some (r, st)
next_turn again rest st = rest st

-- The loop `'read_retry` on fuel; `none` is out of fuel.
unfoldable pub read_from : ℕ → Mount → String → ℕ → ℕ → ℕ → ReadState → Option (Reply × ReadState)
unfolding read_turn
read_from zero s key file_idx offset size st = none
read_from (suc fuel) s key file_idx offset size st =
    let (t, st1) = read_turn s key file_idx offset size st in
    next_turn t (read_from fuel s key file_idx offset size) st1

unfoldable pub read : Mount → String → ℕ → ℕ → ℕ → ReadState → Option (Reply × ReadState)
unfolding read_from
read s key file_idx offset size st =
    read_from 2 s key file_idx offset size (record st { waited = false })

-- ===== src/Repair/Engine.antt =====
-- The repair of one torrent and a session of the repair engine: src/repair/engine/, with
-- `ensure_torrent_info` of src/torrent/mod.rs. No other task changes the registry in between. What
-- cuts a cascade off, the ids of jobs, the capacity and the shutdown are arguments.
pub mod Registry
pub mod Ends
pub mod OneTorrent
use rd_rs.Prelude.{
  ℕ, zero, suc, ◌+◌, ◌-◌, ◌*◌, max, Bool, true, false, not, ◌||◌, ◌&&◌, Option, none, some, List,
  [], ◌∷◌, ◌++◌, String, ltb, leb, if◌then◌else◌,
}
use rd_rs.Prelude.Map.{◌=?◌, lookup, insert, string_keys}
use rd_rs.Torrent.Types.{
  TorrentInfo, TorrentState, ok, broken, under_repair, ManagedTorrent, is_state,
}
use rd_rs.Torrent.Diff.{sort}
use rd_rs.Db.{
  Json, RepairJobStatus, pending, running, done, failed_job, RepairJobRow, Jobs,
  insert_repair_job_on_conn, update_repair_job_on_conn,
}
use rd_rs.Torrent.Manager.{
  World, Manager, persist_torrent_snapshot, replace_rd_ids_after_repair, update_torrent_state,
}
use rd_rs.Repair.Account.{Account, Answer, answered, failed, Log, get_torrent_info}
use rd_rs.Repair.Capacity as Capacity
use rd_rs.Repair.Capacity.{wait_for_repair_capacity}
use rd_rs.Repair.Reasons.{
  CascadeOutcome, success, unrepairable, unrepairable_msg, defer_bandwidth, reason_text,
}
use rd_rs.Repair.Detect.{
  is_some, periodic_repair_eligible, passive_head_probe_slot_count, check_head_unreachable,
}
use rd_rs.Repair.PassiveHead.{HeadCheck, Heads, append_passive_head_candidates}
use rd_rs.Repair.Strategies.{RepairConfig, execute_cascade}
use rd_rs.Repair.Preflight.{PreflightOutcome, proceed, verified_ok, defer_preflight, run_preflight}

pub record Surroundings : Type 0 where
  pub world : World
  pub json : Json
  pub account : Account
  pub capacity : ℕ → Capacity.World
  pub job_id : ℕ → String
  -- The log of a cascade that its timeout cuts off.
  pub cut_off : Log → Option Log

-- The registry and the calls of the account.
abbrev pub Progress : Type 0
Progress = Manager × Log

abbrev pub with_info : TorrentInfo → ManagedTorrent → ManagedTorrent
with_info info mt = record mt { info = some info }

unfoldable pub info_loaded :
    String → ManagedTorrent → Answer TorrentInfo → Manager → Option ManagedTorrent × Manager
info_loaded key mt (failed e) m = (some mt, m)
info_loaded key mt (answered info) m =
    (some (with_info info mt), record m { torrents = insert key (with_info info mt) m.torrents })

unfoldable pub load_info :
    Account → String → ManagedTorrent → List String → Progress → Option ManagedTorrent × Progress
unfolding info_loaded
load_info rd key mt [] p = (none, p)
load_info rd key mt (rd_id ∷ ids) (m, l) =
    let (a, l1) = get_torrent_info rd rd_id l in
    let (o, m1) = info_loaded key mt a m in (o, (m1, l1))

unfoldable pub ensure_loaded :
    Account
    → String
    → ManagedTorrent
    → Option TorrentInfo
    → Progress
    → Option ManagedTorrent × Progress
unfolding load_info
ensure_loaded rd key mt (some info) p = (some mt, p)
ensure_loaded rd key mt none p = load_info rd key mt mt.rd_ids p

unfoldable pub ensure_found :
    Account → String → Option ManagedTorrent → Progress → Option ManagedTorrent × Progress
unfolding ensure_loaded
ensure_found rd key none p = (none, p)
ensure_found rd key (some mt) p = ensure_loaded rd key mt mt.info p

unfoldable pub ensure_torrent_info : Account → String → Progress → Option ManagedTorrent × Progress
unfolding ensure_found
ensure_torrent_info rd key p = ensure_found rd key (lookup key p.0.torrents) p

-- A write of the table of jobs, which changes nothing where the database fails.
unfoldable pub write_jobs : World → (Jobs → Jobs) → Manager → Manager
write_jobs w f m = record m {
  jobs = (if w.db_works m.calls then f m.jobs else m.jobs);
  calls = m.calls + 1;
}

abbrev pub new_job : String → ℕ → RepairJobRow
new_job key now = record {
  torrent_key = key;
  strategy = "cascade";
  status = running;
  started_at = some now;
  completed_at = none;
}

abbrev pub ended : RepairJobStatus → ℕ → RepairJobRow → RepairJobRow
ended status now job = record job { status = status; completed_at = some now }

-- The job of a repair, and the torrent's state, at its end.
unfoldable pub finish :
    Surroundings
    → String
    → String
    → RepairJobRow
    → RepairJobStatus
    → TorrentState
    → Option String
    → Manager
    → Manager
unfolding write_jobs update_torrent_state update_repair_job_on_conn
finish s key id job status state reason m =
    let m1 =
      write_jobs s.world (update_repair_job_on_conn id (ended status (s.world.now m.calls) job))
        m in
    (update_torrent_state s.world s.json key state reason m1).1

-- New ids are stored between the two.
unfoldable pub finish_success :
    Surroundings → String → String → RepairJobRow → Option (List String) → Manager → Manager
unfolding finish replace_rd_ids_after_repair
finish_success s key id job none m = finish s key id job done ok none m
finish_success s key id job (some ids) m =
    let m1 =
      write_jobs s.world (update_repair_job_on_conn id (ended done (s.world.now m.calls) job)) m in
    let m2 = (replace_rd_ids_after_repair s.world s.json key ids m1).1 in
    (update_torrent_state s.world s.json key ok none m2).1

unfoldable pub conclude :
    Surroundings → String → String → RepairJobRow → CascadeOutcome → Manager → Manager
unfolding finish_success
conclude s key id job (success ids) m = finish_success s key id job ids m
conclude s key id job (unrepairable r) m =
    finish s key id job failed_job broken (some (reason_text r)) m
conclude s key id job (unrepairable_msg msg) m = finish s key id job failed_job broken (some msg) m
conclude s key id job defer_bandwidth m = finish s key id job failed_job broken none m

-- The cascade under its timeout.
unfoldable pub cascade_in_time :
    Surroundings
    → String
    → String
    → RepairJobRow
    → CascadeOutcome × Log
    → Option Log
    → Manager
    → Progress
unfolding conclude
cascade_in_time s key id job (o, l) none m = (conclude s key id job o m, l)
cascade_in_time s key id job r (some cut) m = (finish s key id job failed_job broken none m, cut)

-- `persist_torrent_snapshot`, a failure of which is only logged.
unfoldable pub after_preflight :
    Surroundings
    → RepairConfig
    → String
    → String
    → RepairJobRow
    → PreflightOutcome
    → Progress
    → Progress
unfolding cascade_in_time persist_torrent_snapshot
after_preflight s cfg key id job defer_preflight (m, l) =
    (finish s key id job failed_job broken none m, l)
after_preflight s cfg key id job (verified_ok mt) (m, l) =
    let m1 = (persist_torrent_snapshot s.world s.json mt m).1 in
    (finish s key id job done ok none m1, l)
after_preflight s cfg key id job (proceed mt) (m, l) =
    let m1 = (persist_torrent_snapshot s.world s.json mt m).1 in
    cascade_in_time s key id job (execute_cascade s.account mt cfg l) (s.cut_off l) m1

unfoldable pub with_torrent :
    Surroundings
    → RepairConfig
    → String
    → String
    → RepairJobRow
    → Option ManagedTorrent
    → Progress
    → Progress
unfolding after_preflight
with_torrent s cfg key id job none p = p
with_torrent s cfg key id job (some mt) (m, l) =
    let (o, l1) = run_preflight s.account mt l in after_preflight s cfg key id job o (m, l1)

-- A failure to store the state ends the repair at once.
unfoldable pub marked :
    Surroundings → RepairConfig → String → String → RepairJobRow → Bool × Manager → Log → Progress
unfolding with_torrent ensure_torrent_info
marked s cfg key id job (false, m) l = (m, l)
marked s cfg key id job (true, m) l =
    let (o, p) = ensure_torrent_info s.account key (m, l) in with_torrent s cfg key id job o p

unfoldable pub start_repair : Surroundings → RepairConfig → String → Progress → Progress
unfolding marked write_jobs insert_repair_job_on_conn update_torrent_state
start_repair s cfg key (m, l) =
    let id = s.job_id m.calls in
    let job = new_job key (s.world.now m.calls) in
    let m1 = write_jobs s.world (insert_repair_job_on_conn id job) m in
    marked s cfg key id job (update_torrent_state s.world s.json key under_repair none m1) l

-- `now - ts > timeout_mins.max(1) * 60`
abbrev pub is_stuck : ℕ → ℕ → TorrentState → Option ℕ → Bool
is_stuck timeout_mins now ok t = false
is_stuck timeout_mins now broken t = false
is_stuck timeout_mins now under_repair none = false
is_stuck timeout_mins now under_repair (some t) = ltb (t + max timeout_mins 1 * 60) now

abbrev pub has_capacity : Option Bool → Bool
has_capacity none = false
has_capacity (some b) = b

unfoldable pub repair_known :
    Surroundings → RepairConfig → ℕ → String → Option ManagedTorrent → Progress → Progress
unfolding start_repair wait_for_repair_capacity
repair_known s cfg timeout_mins key none p = p
repair_known s cfg timeout_mins key (some mt) (m, l) =
    if is_some mt.unrepairable_reason
    then (m, l)
    else if is_stuck timeout_mins (s.world.now m.calls) mt.state mt.under_repair_started_at
    then ((update_torrent_state s.world s.json key broken none m).1, l)
    else if not (has_capacity (wait_for_repair_capacity (s.capacity m.calls)))
    then (m, l)
    else start_repair s cfg key (m, l)

unfoldable pub repair_one_torrent : Surroundings → RepairConfig → ℕ → String → Progress → Progress
unfolding repair_known ensure_torrent_info
repair_one_torrent s cfg timeout_mins key p =
    let (o, p1) = ensure_torrent_info s.account key p in repair_known s cfg timeout_mins key o p1

-- The keys of a periodic scan, in the order of the registry.
unfoldable pub periodic_keys : (String → String) → List (String × ManagedTorrent) → List String
unfolding periodic_repair_eligible
periodic_keys to_lowercase [] = []
periodic_keys to_lowercase ((k, mt) ∷ torrents) =
    let rest = periodic_keys to_lowercase torrents in
    if is_some mt.unrepairable_reason
    then rest
    else if periodic_repair_eligible to_lowercase mt
    then mt.access_key ∷ rest
    else rest

-- `dedup`: of equal neighbours the first stays.
unfoldable pub dedup_from : String → List String → List String
dedup_from k [] = k ∷ []
dedup_from k (j ∷ keys) =
    let same = dedup_from k keys in
    let other = k ∷ dedup_from j keys in if k =? j then same else other

unfoldable pub dedup : List String → List String
unfolding dedup_from
dedup [] = []
dedup (k ∷ keys) = dedup_from k keys

-- The keys of a session: the drained queue, and in a periodic session the scan and `head_keys`, the
-- keys of the passive check.
unfoldable pub session_keys : (String → String) → Bool → List String → Manager → List String
unfolding periodic_keys dedup sort
session_keys to_lowercase periodic head_keys m = dedup (
    sort (
      m.repair_queue
      ++ (if periodic then periodic_keys to_lowercase m.torrents ++ head_keys else [])))

-- The loop over the keys; a shutdown, seen before a key, ends it.
unfoldable pub repair_each :
    Surroundings → RepairConfig → ℕ → (ℕ → Bool) → List String → Progress → Progress
unfolding repair_one_torrent
repair_each s cfg timeout_mins is_cancelled [] p = p
repair_each s cfg timeout_mins is_cancelled (key ∷ keys) p =
    let rest =
      repair_each s cfg timeout_mins is_cancelled keys
        (repair_one_torrent s cfg timeout_mins key p) in
    if is_cancelled p.0.calls then p else rest

-- The passive check of a periodic session; `last` is when each key was checked last.
abbrev pub heads_of :
    Account → HeadCheck → Bool → List (String × ManagedTorrent) → List (String × ℕ) → Log → Heads
heads_of rd check true torrents last l = append_passive_head_candidates rd check torrents last l
heads_of rd check false torrents last l = record { keys = []; last = last; log = l }

unfoldable pub run_session_impl :
    Surroundings
    → RepairConfig
    → HeadCheck
    → ℕ
    → (ℕ → Bool)
    → Bool
    → Bool
    → List (String × ℕ)
    → Progress
    → Progress × List (String × ℕ)
unfolding session_keys repair_each append_passive_head_candidates
run_session_impl s cfg check timeout_mins is_cancelled enabled periodic last (m, l) =
    let heads = heads_of s.account check periodic m.torrents last l in
    let keys = session_keys s.account.to_lowercase periodic heads.keys m in
    let repaired =
      repair_each s cfg timeout_mins is_cancelled keys
        (record m { repair_queue = [] }, heads.log) in
    if enabled then (repaired, heads.last) else ((m, l), last)

-- `throttle_wait_duration`, in seconds, by the time of the last cycle.
unfoldable pub throttle_wait : ℕ → ℕ → Option ℕ → ℕ
throttle_wait every_mins now none = 0
throttle_wait every_mins now (some last) =
    let interval = max every_mins 1 * 60 in
    if ltb (now - last) interval then interval - (now - last) else 0

-- ===== src/Repair/Engine/Ends.antt =====
-- Every repair that starts comes to an end: the torrent leaves `under_repair`, and its job ends.
use rd_rs.Prelude.{
  ℕ, ◌+◌, ◌≡◌, refl, Bool, true, false, not, ◌||◌, Option, none, some, List, [], ◌∷◌, String,
  if◌then◌else◌,
}
use rd_rs.Prelude.Map.{lookup, insert, lookup-insert_self, string_keys}
use rd_rs.Torrent.Types.{
  TorrentInfo, TorrentState, ok, broken, under_repair, ManagedTorrent, is_state,
}
use rd_rs.Db.{IsJson, RepairJobStatus, done, failed_job, RepairJobRow, insert_repair_job_on_conn}
use rd_rs.Torrent.Manager.{Manager, in_state, persist_torrent_snapshot, update_torrent_state}
use rd_rs.Torrent.Manager.Persisted.{update-succeeds}
use rd_rs.Repair.Account.{Account, Answer, answered, failed, Log, asked_info}
use rd_rs.Repair.Reasons.{CascadeOutcome, success, unrepairable, unrepairable_msg, defer_bandwidth}
use rd_rs.Repair.Strategies.{RepairConfig, execute_cascade}
use rd_rs.Repair.Preflight.{PreflightOutcome, proceed, verified_ok, defer_preflight, run_preflight}
use rd_rs.Repair.Engine.{
  Surroundings, Progress, with_info, info_loaded, load_info, ensure_loaded, ensure_found,
  ensure_torrent_info, write_jobs, new_job, finish, finish_success, conclude, cascade_in_time,
  after_preflight, with_torrent, marked, start_repair,
}
use rd_rs.Repair.Engine.Registry.{
  is_there, is_settled, has_ended, job_there, job_ended, is_there-persist, jobs-persist,
  is_there-replace, jobs-replace, lookup-update, jobs-update, is_settled-update, job_ended-write,
}

-- The torrent and the job of a repair that goes on.
abbrev Goes : String → String → Manager → Type 0
Goes key id m = (is_there (lookup key m.torrents) ≡ true) × (job_there (lookup id m.jobs) ≡ true)

abbrev pub HasEnded : String → String → Manager → Type 0
HasEnded key id m =
    (is_settled (lookup key m.torrents) ≡ true) × (job_ended (lookup id m.jobs) ≡ true)

module _ (s : Surroundings) (works : (n : ℕ) → s.world.db_works n ≡ true) (key id : String)
    (job : RepairJobRow) where
  HasEnded-finish :
      (status : RepairJobStatus) (state : TorrentState) (reason : Option String) (m : Manager)
      → has_ended status ≡ true
      → not (is_state state under_repair) ≡ true
      → Goes key id m
      → HasEnded key id (finish s key id job status state reason m)
  unfolding finish write_jobs
  HasEnded-finish status state reason m e settled h = (
    is_settled-update s.world s.json key state reason _ h.0 settled,
    rw (jobs-update s.world s.json key state reason _) (
        job_ended-write s.world s.json id status (s.world.now m.calls) job m (works m.calls) h.1 e),
  )

  HasEnded-finish_success :
      (ids : Option (List String)) (m : Manager)
      → Goes key id m
      → HasEnded key id (finish_success s key id job ids m)
  unfolding finish_success write_jobs
  HasEnded-finish_success none m h = HasEnded-finish done ok none m refl refl h
  HasEnded-finish_success (some ids) m h = (
    is_settled-update s.world s.json key ok none _ (is_there-replace s.world s.json key ids _ h.0)
        refl,
    rw (jobs-update s.world s.json key ok none _, jobs-replace s.world s.json key ids _)
        (job_ended-write s.world s.json id done (s.world.now m.calls) job m (works m.calls) h.1
          refl),
  )

  HasEnded-conclude :
      (o : CascadeOutcome) (m : Manager)
      → Goes key id m
      → HasEnded key id (conclude s key id job o m)
  unfolding conclude
  HasEnded-conclude (success ids) m h = HasEnded-finish_success ids m h
  HasEnded-conclude (unrepairable r) m h = HasEnded-finish failed_job broken _ m refl refl h
  HasEnded-conclude (unrepairable_msg msg) m h = HasEnded-finish failed_job broken _ m refl refl h
  HasEnded-conclude defer_bandwidth m h = HasEnded-finish failed_job broken none m refl refl h

  HasEnded-cascade :
      (r : CascadeOutcome × Log) (cut : Option Log) (m : Manager)
      → Goes key id m
      → HasEnded key id (cascade_in_time s key id job r cut m).0
  unfolding cascade_in_time
  HasEnded-cascade (o, l) none m h = HasEnded-conclude o m h
  HasEnded-cascade r (some cut) m h = HasEnded-finish failed_job broken none m refl refl h

  Goes-persist :
      (mt : ManagedTorrent) (m : Manager)
      → Goes key id m
      → Goes key id (persist_torrent_snapshot s.world s.json mt m).1
  Goes-persist mt m h =
      (is_there-persist s.world s.json key mt m h.0, rw (jobs-persist s.world s.json mt m) h.1)

  module _ (cfg : RepairConfig) where
    HasEnded-after_preflight :
        (o : PreflightOutcome) (p : Progress)
        → Goes key id p.0
        → HasEnded key id (after_preflight s cfg key id job o p).0
    unfolding after_preflight
    HasEnded-after_preflight defer_preflight (m, l) h =
        HasEnded-finish failed_job broken none m refl refl h
    HasEnded-after_preflight (verified_ok mt) (m, l) h =
        HasEnded-finish done ok none _ refl refl (Goes-persist mt m h)
    HasEnded-after_preflight (proceed mt) (m, l) h =
        HasEnded-cascade (execute_cascade s.account mt cfg l) (s.cut_off l) _ (Goes-persist mt m h)

    HasEnded-with_torrent :
        (o : Option ManagedTorrent) (p : Progress)
        → is_there o ≡ true
        → Goes key id p.0
        → HasEnded key id (with_torrent s cfg key id job o p).0
    unfolding with_torrent
    HasEnded-with_torrent none p e h = cc
    HasEnded-with_torrent (some mt) (m, l) e h =
        let r = run_preflight s.account mt l in HasEnded-after_preflight r.0 (m, r.1) h

-- What `ensure_torrent_info` needs: the details, or an id to ask for them.
abbrev pub has_ids : List String → Bool
has_ids [] = false
has_ids (id ∷ ids) = true

abbrev pub has_info : Option TorrentInfo → Bool
has_info none = false
has_info (some info) = true

abbrev pub has_source : ManagedTorrent → Bool
has_source mt = has_info mt.info || has_ids mt.rd_ids

-- It finds a torrent, keeps it in the registry, and leaves the jobs alone.
abbrev Finds : String → Manager → Option ManagedTorrent × Progress → Type 0
Finds key m (o, p) =
    (is_there o ≡ true) × (is_there (lookup key p.0.torrents) ≡ true) × (p.0.jobs ≡ m.jobs)

Finds-info_loaded :
    (key : String) (mt : ManagedTorrent) (a : Answer TorrentInfo) (m : Manager) (l : Log)
    → lookup key m.torrents ≡ some mt
    → let r = info_loaded key mt a m in Finds key m (r.0, (r.1, l))
unfolding info_loaded
Finds-info_loaded key mt (failed e) m l h = (refl, rw h refl, refl)
Finds-info_loaded key mt (answered info) m l h =
    (refl, rw (lookup-insert_self key (with_info info mt) m.torrents) refl, refl)

Finds-load_info :
    (rd : Account) (key : String) (mt : ManagedTorrent) (ids : List String) (m : Manager) (l : Log)
    → has_ids ids ≡ true
    → lookup key m.torrents ≡ some mt
    → Finds key m (load_info rd key mt ids (m, l))
unfolding load_info
Finds-load_info rd key mt [] m l e h = cc
Finds-load_info rd key mt (id ∷ ids) m l e h =
    let a = rd.get_torrent_info l id in Finds-info_loaded key mt a m (asked_info id a ∷ l) h

Finds-ensure_loaded :
    (rd : Account) (key : String) (mt : ManagedTorrent) (o : Option TorrentInfo) (m : Manager)
    (l : Log)
    → (has_info o || has_ids mt.rd_ids) ≡ true
    → lookup key m.torrents ≡ some mt
    → Finds key m (ensure_loaded rd key mt o (m, l))
unfolding ensure_loaded
Finds-ensure_loaded rd key mt (some info) m l src h = (refl, rw h refl, refl)
Finds-ensure_loaded rd key mt none m l src h = Finds-load_info rd key mt mt.rd_ids m l src h

Finds-ensure :
    (rd : Account) (key : String) (mt : ManagedTorrent) (m : Manager) (l : Log)
    → has_source mt ≡ true
    → lookup key m.torrents ≡ some mt
    → Finds key m (ensure_torrent_info rd key (m, l))
unfolding ensure_torrent_info ensure_found
Finds-ensure rd key mt m l src h = rw h (Finds-ensure_loaded rd key mt mt.info m l src h)

HasEnded-marked :
    (s : Surroundings) (cfg : RepairConfig) (key id : String) (job : RepairJobRow)
    (mt : ManagedTorrent) (r : Bool × Manager) (l : Log)
    → ((n : ℕ) → s.world.db_works n ≡ true)
    → r.0 ≡ true
    → has_source mt ≡ true
    → lookup key r.1.torrents ≡ some mt
    → job_there (lookup id r.1.jobs) ≡ true
    → HasEnded key id (marked s cfg key id job r l).0
unfolding marked
HasEnded-marked s cfg key id job mt (false, m) l works good src h j = cc
HasEnded-marked s cfg key id job mt (true, m) l works good src h j =
    let found = Finds-ensure s.account key mt m l src h in
    let e = ensure_torrent_info s.account key (m, l) in
    HasEnded-with_torrent s works key id job cfg e.0 e.1 found.0 (found.1, rw (found.2) j)

-- A repair that starts comes to an end: where the database works, whatever the account answers and
-- whenever the cascade is cut off, the torrent is there and no longer under repair, and the job
-- that was opened has ended. The torrent has its details, or an id to ask for them.
pub start_repair-HasEnded :
    (s : Surroundings) (cfg : RepairConfig) (key : String) (mt : ManagedTorrent) (m : Manager)
    (l : Log)
    → IsJson s.json
    → ((n : ℕ) → s.world.db_works n ≡ true)
    → has_source mt ≡ true
    → lookup key m.torrents ≡ some mt
    → HasEnded key (s.job_id m.calls) (start_repair s cfg key (m, l)).0
unfolding start_repair write_jobs insert_repair_job_on_conn
start_repair-HasEnded s cfg key mt m l laws works src h =
    let id = s.job_id m.calls in
    let now = s.world.now m.calls in
    let job = new_job key now in
    let m1 : Manager = record m {
      jobs = (if s.world.db_works m.calls then insert id job m.jobs else m.jobs);
      calls = m.calls + 1;
    } in
    HasEnded-marked s cfg key id job (in_state under_repair none (s.world.now (m.calls + 1)) mt)
      (update_torrent_state s.world s.json key under_repair none m1) l works
      (update-succeeds s.world s.json key under_repair none mt m1 laws (works (m.calls + 1)) h) src
      (lookup-update s.world s.json key under_repair none mt m1 h)
      (rw (jobs-update s.world s.json key under_repair none m1, works m.calls)
        (rw (lookup-insert_self id job m.jobs) refl))

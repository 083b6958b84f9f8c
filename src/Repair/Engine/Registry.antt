-- ===== src/Repair/Engine/Registry.antt =====
-- What the steps of a repair do to the registry's torrent of a key and to the table of jobs.
use rd_rs.Prelude.{
  ℕ, ◌≡◌, refl, ◌∙◌, inl, inr, Bool, true, false, not, Option, none, some, List, String, Bool-cases,
  Option-cases,
}
use rd_rs.Prelude.Map.{◌=?◌, lookup, insert, lookup-insert, lookup-insert_self, string_keys}
use rd_rs.Torrent.Types.{TorrentState, under_repair, ManagedTorrent, is_state}
use rd_rs.Db.{
  Json, RepairJobStatus, pending, running, done, failed_job, RepairJobRow, Jobs, update_job,
  update_repair_job_on_conn,
}
use rd_rs.Torrent.Manager.{
  World, Manager, store, persist_torrent_snapshot, replaced, replace_existing,
  replace_rd_ids_after_repair, in_state, library_paths_for, update_existing, update_torrent_state,
}
use rd_rs.Torrent.Manager.Fields.{torrents-stored, jobs-stored, torrents-triggered, jobs-triggered}
use rd_rs.Repair.Engine.{write_jobs, ended}

abbrev pub is_there : Option ManagedTorrent → Bool
is_there none = false
is_there (some mt) = true

-- The torrent is there and no repair of it goes on.
abbrev pub is_settled : Option ManagedTorrent → Bool
is_settled none = false
is_settled (some mt) = not (is_state mt.state under_repair)

abbrev pub has_ended : RepairJobStatus → Bool
has_ended pending = false
has_ended running = false
has_ended done = true
has_ended failed_job = true

abbrev pub job_there : Option RepairJobRow → Bool
job_there none = false
job_there (some job) = true

abbrev pub job_ended : Option RepairJobRow → Bool
job_ended none = false
job_ended (some job) = has_ended job.status

module _ (w : World) (json : Json) where
  pub torrents-store :
      (key : String) (mt : ManagedTorrent) (m : Manager)
      → (store w json key mt m).1.torrents ≡ insert key mt m.torrents
  unfolding store
  torrents-store key mt m = torrents-stored _ _ _

  jobs-store :
      (key : String) (mt : ManagedTorrent) (m : Manager) → (store w json key mt m).1.jobs ≡ m.jobs
  unfolding store
  jobs-store key mt m = jobs-stored _ _ _

  is_there-insert :
      (key k : String) (v : ManagedTorrent) (m : List (String × ManagedTorrent))
      → is_there (lookup key m) ≡ true
      → is_there (lookup key (insert k v m)) ≡ true
  is_there-insert key k v m h = elim (Bool-cases (k =? key)) [
    | inl same ↦ rw (lookup-insert k key v m, same) refl
    | inr differs ↦ rw (lookup-insert k key v m, differs) h
  ]

  pub is_there-persist :
      (key : String) (mt : ManagedTorrent) (m : Manager)
      → is_there (lookup key m.torrents) ≡ true
      → is_there (lookup key (persist_torrent_snapshot w json mt m).1.torrents) ≡ true
  unfolding persist_torrent_snapshot
  is_there-persist key mt m h =
      rw (torrents-store mt.access_key mt m) (is_there-insert key mt.access_key mt m.torrents h)

  pub jobs-persist :
      (mt : ManagedTorrent) (m : Manager) → (persist_torrent_snapshot w json mt m).1.jobs ≡ m.jobs
  unfolding persist_torrent_snapshot
  jobs-persist mt m = jobs-store mt.access_key mt m

  is_there-replace_existing :
      (key : String) (ids : List String) (o : Option ManagedTorrent) (m : Manager)
      → is_there (lookup key m.torrents) ≡ true
      → is_there (lookup key (replace_existing w json ids o m).1.torrents) ≡ true
  unfolding replace_existing
  is_there-replace_existing key ids none m h = h
  is_there-replace_existing key ids (some mt) m h = is_there-persist key (replaced ids mt) m h

  jobs-replace_existing :
      (ids : List String) (o : Option ManagedTorrent) (m : Manager)
      → (replace_existing w json ids o m).1.jobs ≡ m.jobs
  unfolding replace_existing
  jobs-replace_existing ids none m = refl
  jobs-replace_existing ids (some mt) m = jobs-persist (replaced ids mt) m

  pub is_there-replace :
      (key : String) (ids : List String) (m : Manager)
      → is_there (lookup key m.torrents) ≡ true
      → is_there (lookup key (replace_rd_ids_after_repair w json key ids m).1.torrents) ≡ true
  unfolding replace_rd_ids_after_repair
  is_there-replace key ids m h = is_there-replace_existing key ids (lookup key m.torrents) m h

  pub jobs-replace :
      (key : String) (ids : List String) (m : Manager)
      → (replace_rd_ids_after_repair w json key ids m).1.jobs ≡ m.jobs
  unfolding replace_rd_ids_after_repair
  jobs-replace key ids m = jobs-replace_existing ids (lookup key m.torrents) m

  lookup-update_existing :
      (key : String) (s : TorrentState) (reason : Option String) (mt : ManagedTorrent) (m : Manager)
      → lookup key (update_existing w json key s reason (some mt) m).1.torrents
        ≡ some (in_state s reason (w.now m.calls) mt)
  unfolding update_existing
  lookup-update_existing key s reason mt m =
      let updated = in_state s reason (w.now m.calls) mt in
      rw
        (
          torrents-triggered (library_paths_for updated) (store w json key updated m),
          torrents-store key updated m,
        )
        (lookup-insert_self key updated m.torrents)

  -- A torrent that is there is in the new state afterwards, whatever the database does.
  pub lookup-update :
      (key : String) (s : TorrentState) (reason : Option String) (mt : ManagedTorrent) (m : Manager)
      → lookup key m.torrents ≡ some mt
      → lookup key (update_torrent_state w json key s reason m).1.torrents
        ≡ some (in_state s reason (w.now m.calls) mt)
  unfolding update_torrent_state
  lookup-update key s reason mt m h = rw h (lookup-update_existing key s reason mt m)

  jobs-update_existing :
      (key : String) (s : TorrentState) (reason : Option String) (o : Option ManagedTorrent)
      (m : Manager)
      → (update_existing w json key s reason o m).1.jobs ≡ m.jobs
  unfolding update_existing
  jobs-update_existing key s reason none m = refl
  jobs-update_existing key s reason (some mt) m =
      let updated = in_state s reason (w.now m.calls) mt in
      jobs-triggered (library_paths_for updated) (store w json key updated m)
      ∙ jobs-store key updated m

  pub jobs-update :
      (key : String) (s : TorrentState) (reason : Option String) (m : Manager)
      → (update_torrent_state w json key s reason m).1.jobs ≡ m.jobs
  unfolding update_torrent_state
  jobs-update key s reason m = jobs-update_existing key s reason (lookup key m.torrents) m

  pub is_settled-update :
      (key : String) (s : TorrentState) (reason : Option String) (m : Manager)
      → is_there (lookup key m.torrents) ≡ true
      → not (is_state s under_repair) ≡ true
      → is_settled (lookup key (update_torrent_state w json key s reason m).1.torrents) ≡ true
  is_settled-update key s reason m h e = elim (Option-cases (lookup key m.torrents)) [
    | inl missing ↦ absurd (cc (rw missing at h))
    | inr (mt, found) ↦ rw (lookup-update key s reason mt m found) e
  ]

  job_ended-update :
      (id : String) (job : RepairJobRow) (o : Option RepairJobRow) (jobs : Jobs)
      → job_there o ≡ true
      → has_ended job.status ≡ true
      → job_ended (lookup id (update_job id job o jobs)) ≡ true
  job_ended-update id job none jobs h e = cc
  job_ended-update id job (some old) jobs h e = rw (lookup-insert_self id _ jobs) e

  -- With a database that works, the job of a repair is ended.
  pub job_ended-write :
      (id : String) (status : RepairJobStatus) (now : ℕ) (job : RepairJobRow) (m : Manager)
      → w.db_works m.calls ≡ true
      → job_there (lookup id m.jobs) ≡ true
      → has_ended status ≡ true
      → job_ended
          (lookup id (write_jobs w (update_repair_job_on_conn id (ended status now job)) m).jobs)
        ≡ true
  unfolding write_jobs update_repair_job_on_conn
  job_ended-write id status now job m works h e =
      rw works (job_ended-update id (ended status now job) (lookup id m.jobs) m.jobs h e)

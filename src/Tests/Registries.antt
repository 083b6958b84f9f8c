-- ===== src/Tests/Registries.antt =====
-- The theorems on the registry of torrents, its table, its refresh and the repair engine.
use rd_rs.Prelude.{◌*◌, zero, ◌+◌, ◌≡◌, refl, ◌≢◌, true, false, ◌||◌, none, some, [], ◌∷◌, String}
use rd_rs.Prelude.Map.{lookup, insert, contains, string_keys}
use rd_rs.Torrent.Types.{TorrentInfo, ok, under_repair, ManagedTorrent}
use rd_rs.Db.{upsert_torrents_batch_conn}
use rd_rs.Torrent.Manager.{
  World, Manager, load_from_db, persist_torrent_snapshot, update_torrent_state,
}
use rd_rs.Torrent.Manager.Persisted.{NoRepeat, PersistedAt}
use rd_rs.Torrent.Manager.Operations.{persist, update, run, IsPersisted, run-IsPersisted}
use rd_rs.Torrent.Manager.Reload.{Runs, here, next, map_restored, lookup-load_from_db}
use rd_rs.Torrent.Refresh.{without_errored, skips, run_once}
use rd_rs.Torrent.Refresh.Registry.{is_found, found-run_once}
use rd_rs.Torrent.Diff.Keys.{any_key}
use rd_rs.Repair.Account.{Account}
use rd_rs.Repair.Capacity as Capacity
use rd_rs.Repair.Engine.{Surroundings, ensure_torrent_info, start_repair, repair_one_torrent}
use rd_rs.Repair.Engine.Ends.{HasEnded, start_repair-HasEnded}
use rd_rs.Repair.Engine.OneTorrent.{Leaves, repair_one_torrent-Leaves}
use rd_rs.Prelude.Texts.{ends_with, has_part}
use rd_rs.Repair.Detect.{verify_failed_like_bandwidth}
use rd_rs.Repair.PassiveHead.{HeadCheck, append_passive_head_candidates}
use rd_rs.Repair.PassiveHead.Candidates.{IsOfWell, append_passive_head_candidates-candidates}
use rd_rs.Tests.JsonTexts.{texts_json, texts_json-IsJson}
use rd_rs.Tests.Cascades.{broken_film, config, account, two_files}
use rd_rs.Tests.Repairs.{all_done}

-- A database that fails at no call, and a clock that ticks at each.
abbrev pub world : World
world = record { now = λ n. 1000 + n; db_works = λ n. true }

-- A database that fails at the first call.
abbrev failing_world : World
failing_world = record { now = λ n. 1000 + n; db_works = λ n. elim n [ zero ↦ false | _ ↦ true ] }

abbrev pub empty_manager : Manager
empty_manager = record {
  torrents = [];
  table = [];
  jobs = [];
  hooks = [];
  repair_queue = "ab/film" ∷ [];
  calls = 0;
}

empty_manager-IsPersisted : IsPersisted texts_json empty_manager
unfolding lookup PersistedAt NoRepeat
empty_manager-IsPersisted = record { keyed = λ key mt h. cc; synced = λ key. tt; once = tt }

run-IsPersisted_example :
    ((key : String) (mt : ManagedTorrent)
      → lookup key (run failing_world texts_json (persist broken_film) empty_manager).1.torrents
        ≡ some mt
      → mt.access_key ≡ key)
    × ((key : String)
        → key ≢ "ab/film"
        → PersistedAt texts_json key
            (run failing_world texts_json (persist broken_film) empty_manager).1)
    × ((run failing_world texts_json (persist broken_film) empty_manager).0 ≡ true
        → PersistedAt texts_json "ab/film"
            (run failing_world texts_json (persist broken_film) empty_manager).1)
    × NoRepeat (run failing_world texts_json (persist broken_film) empty_manager).1.table
run-IsPersisted_example =
    run-IsPersisted failing_world texts_json (persist broken_film) empty_manager texts_json-IsJson
      empty_manager-IsPersisted

abbrev one_torrent : Manager
one_torrent = (run world texts_json (persist broken_film) empty_manager).1

abbrev one_repaired : Manager
one_repaired = (run world texts_json (update "ab/film" ok none) one_torrent).1

-- The torrent is stored, and then its state changes.
two_steps : Runs world texts_json empty_manager one_repaired
unfolding persist_torrent_snapshot update_torrent_state lookup insert upsert_torrents_batch_conn
    texts_json
two_steps =
    next {m1 = one_torrent} (update "ab/film" ok none)
      (next {m1 = empty_manager} (persist broken_film) here refl) refl

lookup-load_from_db_example :
    lookup "ab/film" (load_from_db texts_json 7 one_repaired.table)
    ≡ map_restored 7 (lookup "ab/film" one_repaired.torrents)
lookup-load_from_db_example =
    lookup-load_from_db 7 "ab/film" texts_json-IsJson empty_manager-IsPersisted two_steps

abbrev repairing : Manager
repairing = record empty_manager {
  torrents = ("ab/film", record broken_film { state = under_repair }) ∷ [];
}

found-run_once_example :
    is_found (lookup "ab/film" (run_once world texts_json (all_done ∷ []) repairing).1.torrents) ≡ (
      any_key "ab/film" (without_errored (all_done ∷ []))
      || skips (lookup "ab/film" repairing.torrents))
found-run_once_example = found-run_once world texts_json (all_done ∷ []) repairing "ab/film"

abbrev surroundings : Surroundings
surroundings = record {
  world = world;
  json = texts_json;
  account = account;
  capacity = λ n. record {
    active_count = λ retry. Capacity.counted 0 10;
    cancelled_at_start = λ retry. false;
    cancelled_in_sleep = λ retry. false;
  };
  job_id = λ n. "job";
  cut_off = λ l. none;
}

abbrev known_film : Manager
known_film = record empty_manager { torrents = ("ab/film", broken_film) ∷ [] }

start_repair-HasEnded_example :
    HasEnded "ab/film" "job" (start_repair surroundings config "ab/film" (known_film, [])).0
unfolding lookup
start_repair-HasEnded_example =
    start_repair-HasEnded surroundings config "ab/film" broken_film known_film [] texts_json-IsJson
      (λ n. refl) refl refl

repair_one_torrent-Leaves_example :
    let (found, loaded) = ensure_torrent_info account "ab/film" (repairing, []) in
    Leaves surroundings 60 "ab/film" found loaded
      (repair_one_torrent surroundings config 60 "ab/film" (repairing, []))
repair_one_torrent-Leaves_example =
    repair_one_torrent-Leaves surroundings config 60 "ab/film" repairing [] texts_json-IsJson
      (λ n. refl)

-- Both links of the torrent are there, and none can be verified.
abbrev linked : TorrentInfo
linked = record two_files { links = "l1" ∷ "l2" ∷ [] }

abbrev unreachable : Account
unreachable = record account { verify_link = λ l url. some "gone" }

abbrev well_manager : Manager
well_manager = record empty_manager {
  torrents =
      ("ab/film", record broken_film { state = ok; file_states = none; info = some linked }) ∷ [];
}

abbrev check : HeadCheck
check = record {
  head_check_enabled = true;
  head_check_min_interval_mins = 60;
  head_unreachable_threshold = 1;
  clock = λ l. 5000;
}

append_passive_head_candidates-candidates_example :
    IsOfWell (λ s. s) 5000 (60 * 60) [] "ab/film" well_manager.torrents
unfolding append_passive_head_candidates contains ends_with lookup verify_failed_like_bandwidth
    has_part
append_passive_head_candidates-candidates_example =
    append_passive_head_candidates-candidates unreachable check well_manager.torrents [] []
      "ab/film" refl

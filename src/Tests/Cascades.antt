-- ===== src/Tests/Cascades.antt =====
-- The theorems on the calls that a repair makes of the account.
use rd_rs.Prelude.{◌≡◌, refl, true, false, none, some, [], ◌∷◌, String, get_elem?, if◌then◌else◌}
use rd_rs.Prelude.Int.{pos}
use rd_rs.Repair.Detect.{path_looks_playable}
use rd_rs.Repair.Ephemeral.{info_ready}
use rd_rs.Prelude.Texts.{ends_with}
use rd_rs.Prelude.Map.{insert, ◌=?◌, lookup, contains, string_keys}
use rd_rs.Rd.Client.Errors.{api, traffic_exhausted}
use rd_rs.Torrent.Types.{File, TorrentInfo, Download, broken, ManagedTorrent, selected_of, files_of}
use rd_rs.Repair.Account.{Account, answered, failed, Log}
use rd_rs.Repair.Strategies.{RepairConfig, execute_cascade}
use rd_rs.Repair.Strategies.Magnets.{Settled, Settled-start, has_added, is_removed}
use rd_rs.Repair.Strategies.Cleanup.{kept_by, execute_cascade-Settled}
use rd_rs.Repair.Strategies.Limits.{any_limited, is_defer}
use rd_rs.Repair.Strategies.Deferral.{execute_cascade-defers}
use rd_rs.Repair.Strategies.Losses.{was_asked, execute_cascade_loses}
use rd_rs.Repair.Preflight.{
  PreflightOutcome, verified_ok, Slots, run_preflight, is_broken, any_broken_playable,
  assign_orphan_links,
}
use rd_rs.Torrent.Manager.{states_or_empty}
use rd_rs.Repair.Preflight.Orphans.{assign_orphan_links-keeps}
use rd_rs.Repair.Preflight.Verdict.{just_verified, run_preflight-verified_ok}

abbrev pub film : File
film = record { id = pos 1; path = "/film.mkv"; bytes = pos 700; selected = pos 1 }

abbrev pub extra : File
extra = record { id = pos 2; path = "/extra.mkv"; bytes = pos 70; selected = pos 1 }

abbrev pub two_files : TorrentInfo
two_files = record { progress = 100; links = "l1" ∷ "" ∷ []; files = film ∷ extra ∷ [] }

abbrev pub broken_film : ManagedTorrent
broken_film = record {
  access_key = "ab/film";
  rd_ids = "1" ∷ [];
  torrent = record {
    id = "1";
    name = "film";
    hash = "ab";
    progress = 100;
    status = "downloaded";
    links = "l1" ∷ "" ∷ [];
    added = 0;
  };
  info = some two_files;
  state = broken;
  unrepairable_reason = none;
  last_repaired_at = none;
  file_states = some (("/film.mkv", "broken") ∷ []);
  under_repair_started_at = none;
}

abbrev pub config : RepairConfig
config = record { restrict_to_cached = false; batch_file_group_size = 2 }

abbrev film_download : Download
film_download = record {
  filename = "film.mkv";
  filesize = pos 700;
  link = "l1";
  download = "u1";
  token = "";
}

-- An account that names each magnet by the number of calls before, takes every selection, and has
-- every torrent ready.
abbrev counted_id : Log → String
counted_id [] = "new0"
counted_id (c ∷ []) = "new1"
counted_id (c ∷ d ∷ l) = "new2"

abbrev pub account : Account
account = record {
  delete_torrent = λ l id. none;
  add_magnet = λ l hash. answered (counted_id l);
  select_torrent_files = λ l id files. none;
  get_torrent_info = λ l id.
      answered (record { progress = 100; links = "n1" ∷ "n2" ∷ []; files = film ∷ extra ∷ [] });
  unrestrict_link = λ l link. answered film_download;
  verify_link = λ l url. none;
  display = λ e. "error";
  to_lowercase = λ s. s;
}

execute_cascade-Settled_example :
    let r = execute_cascade account broken_film config [] in Settled (kept_by (some r.0)) r.1
execute_cascade-Settled_example =
    execute_cascade-Settled account broken_film config [] Settled-start

-- The account whose traffic is used up.
abbrev exhausted_account : Account
exhausted_account = record account {
  add_magnet = λ l hash. failed (api (traffic_exhausted "traffic exhausted"));
}

execute_cascade-defers_example :
    let r = execute_cascade exhausted_account broken_film config [] in
    is_defer r.0 ≡ any_limited r.1
unfolding any_limited
execute_cascade-defers_example = execute_cascade-defers exhausted_account broken_film config [] refl

-- An account that never has the first magnet ready, so that strategy 2 is the one that succeeds.
abbrev slow_account : Account
slow_account = record account {
  get_torrent_info = λ l id.
      answered
        (record { progress = if id =? "new1" then 50 else 100; links = "n1" ∷ []; files = [] });
}

execute_cascade_loses_example :
    (contains broken_film.rd_ids "1" ≡ true
      → was_asked "1" (execute_cascade slow_account broken_film config []).1 ≡ true)
    × (has_added "1" (execute_cascade slow_account broken_film config []).1 ≡ true
        → is_removed "1" (execute_cascade slow_account broken_film config []).1 ≡ true)
unfolding execute_cascade path_looks_playable ends_with info_ready
execute_cascade_loses_example = execute_cascade_loses slow_account broken_film config "1" refl

assign_orphan_links-keeps_example :
    let s : Slots = record { links = "" ∷ "l1" ∷ []; states = ("/film.mkv", "broken") ∷ [] } in
    let r = assign_orphan_links account (film ∷ extra ∷ []) s [] in
    (get_elem? r.1.links 1 ≡ some "l1") × (is_broken (lookup "/extra.mkv" r.1.states) ≡ false)
unfolding lookup
assign_orphan_links-keeps_example =
    assign_orphan_links-keeps account (film ∷ extra ∷ [])
      (record { links = "" ∷ "l1" ∷ []; states = ("/film.mkv", "broken") ∷ [] }) [] 1 extra "l1"
      refl refl refl refl

-- The torrent that the preflight hands on.
abbrev handed_on : PreflightOutcome → ManagedTorrent
handed_on (verified_ok mt) = mt
handed_on o = broken_film

abbrev preflight_run : PreflightOutcome × Log
unfolding run_preflight
preflight_run = run_preflight account broken_film []

run_preflight-verified_ok_example :
    let fixed = handed_on preflight_run.0 in
    (any_broken_playable account.to_lowercase
        (selected_of (files_of fixed.info))
        (states_or_empty fixed.file_states)
      ≡ false)
    × (just_verified preflight_run.1 ≡ true)
unfolding run_preflight preflight_run path_looks_playable ends_with lookup insert
run_preflight-verified_ok_example =
    run_preflight-verified_ok account broken_film (handed_on preflight_run.0) [] preflight_run.1
      refl

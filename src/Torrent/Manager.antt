-- ===== src/Torrent/Manager.antt =====
-- `TorrentManager` of src/torrent/mod.rs and src/torrent/state_ops.rs: the registry of torrents with
-- its table in the database, the paths sent to the hook worker and the repair queue. The clock and
-- the failures of the database are the parameter `World`, by the number of the call. The watch
-- channels of waiting readers are left out.
pub mod Fields
pub mod Persisted
pub mod Operations
pub mod Reload
use Prim.Native.String.{◌++◌ as append}
use rd_rs.Prelude.{
  ℕ, ◌+◌, Bool, true, false, ◌&&◌, Option, none, some, List, [], ◌∷◌, String, if◌then◌else◌,
}
use rd_rs.Prelude.Map.{insert, lookup, string_keys}
use rd_rs.Torrent.Types.{
  Torrent, TorrentInfo, TorrentState, ok, broken, under_repair, FileStates, ManagedTorrent,
  is_state,
}
use rd_rs.Db.{
  Json, TorrentRow, Torrents, Jobs, read_back, and_then, upsert_torrents_batch_conn,
  get_all_torrents_conn,
}

pub record World : Type 0 where
  pub now : ℕ → ℕ
  pub db_works : ℕ → Bool

pub record Manager : Type 0 where
  pub torrents : List (String × ManagedTorrent)
  pub table : Torrents
  pub jobs : Jobs
  pub hooks : List (List String)
  pub repair_queue : List String
  pub calls : ℕ

abbrev pub written : Json → Option FileStates → Option String
written json none = none
written json (some m) = json.write_states m

unfoldable pub torrent_to_row : Json → ℕ → ManagedTorrent → TorrentRow
torrent_to_row json now mt = record {
  access_key = mt.access_key;
  rd_ids = mt.rd_ids;
  hash = mt.torrent.hash;
  name = mt.torrent.name;
  state = mt.state;
  unrepairable_reason = mt.unrepairable_reason;
  file_states = written json mt.file_states;
  last_seen_at = some now;
  last_repaired_at = mt.last_repaired_at;
  under_repair_started_at = mt.under_repair_started_at;
}

-- The database call that each operation ends with: whether it succeeded, and the state.
abbrev pub stored : Bool → Option Torrents → Manager → Bool × Manager
stored true (some t) m = (true, record m { table = t })
stored true none m = (false, m)
stored false t m = (false, m)

unfoldable pub store : World → Json → String → ManagedTorrent → Manager → Bool × Manager
unfolding torrent_to_row
store w json key mt m =
    stored (w.db_works m.calls)
      (upsert_torrents_batch_conn json (torrent_to_row json (w.now m.calls) mt ∷ []) m.table)
      (record m { torrents = insert key mt m.torrents; calls = m.calls + 1 })

unfoldable pub persist_torrent_snapshot : World → Json → ManagedTorrent → Manager → Bool × Manager
unfolding store
persist_torrent_snapshot w json mt m = store w json mt.access_key mt m

abbrev pub with_first_id : List String → Torrent → Torrent
with_first_id [] t = t
with_first_id (id ∷ ids) t = record t { id = id }

abbrev pub replaced : List String → ManagedTorrent → ManagedTorrent
replaced rd_ids mt = record mt {
  rd_ids = rd_ids;
  info = none;
  file_states = none;
  torrent = with_first_id rd_ids mt.torrent;
}

unfoldable pub replace_existing :
    World → Json → List String → Option ManagedTorrent → Manager → Bool × Manager
unfolding persist_torrent_snapshot
replace_existing w json rd_ids none m = (true, m)
replace_existing w json rd_ids (some mt) m = persist_torrent_snapshot w json (replaced rd_ids mt) m

unfoldable pub replace_rd_ids_after_repair :
    World → Json → String → List String → Manager → Bool × Manager
unfolding replace_existing
replace_rd_ids_after_repair w json key rd_ids m =
    replace_existing w json rd_ids (lookup key m.torrents) m

abbrev pub states_or_empty : Option FileStates → FileStates
states_or_empty none = []
states_or_empty (some fs) = fs

abbrev pub with_broken_file : String → ManagedTorrent → ManagedTorrent
with_broken_file path mt = record mt {
  file_states = some (insert path "broken" (states_or_empty mt.file_states));
}

unfoldable pub mark_existing :
    World → Json → String → String → Option ManagedTorrent → Manager → Bool × Manager
unfolding store
mark_existing w json key path none m = (true, m)
mark_existing w json key path (some mt) m = store w json key (with_broken_file path mt) m

unfoldable pub mark_file_broken : World → Json → String → String → Manager → Bool × Manager
unfolding mark_existing
mark_file_broken w json key path m = mark_existing w json key path (lookup key m.torrents) m

abbrev pub repaired_at : TorrentState → ℕ → Option ℕ → Option ℕ
repaired_at ok now last = some now
repaired_at broken now last = last
repaired_at under_repair now last = last

abbrev pub started_at : TorrentState → ℕ → TorrentState → Option ℕ → Option ℕ
started_at under_repair now old started = if is_state old under_repair then started else some now
started_at ok now old started = none
started_at broken now old started = none

abbrev pub in_state : TorrentState → Option String → ℕ → ManagedTorrent → ManagedTorrent
in_state new_state reason now mt = record mt {
  state = new_state;
  unrepairable_reason = reason;
  last_repaired_at = repaired_at new_state now mt.last_repaired_at;
  under_repair_started_at = started_at new_state now mt.state mt.under_repair_started_at;
}

abbrev pub library_paths_for : ManagedTorrent → List String
library_paths_for mt = append "__all__/" mt.access_key ∷ []

-- `trigger_library_update`, once the row is stored.
abbrev pub triggered : List String → Bool × Manager → Bool × Manager
triggered [] r = r
triggered (p ∷ ps) (true, m) = (true, record m { hooks = (p ∷ ps) ∷ m.hooks })
triggered (p ∷ ps) (false, m) = (false, m)

unfoldable pub update_existing :
    World
    → Json
    → String
    → TorrentState
    → Option String
    → Option ManagedTorrent
    → Manager
    → Bool × Manager
unfolding store
update_existing w json key new_state reason none m = (true, m)
update_existing w json key new_state reason (some mt) m =
    let updated = in_state new_state reason (w.now m.calls) mt in
    triggered (library_paths_for updated) (store w json key updated m)

unfoldable pub update_torrent_state :
    World → Json → String → TorrentState → Option String → Manager → Bool × Manager
unfolding update_existing
update_torrent_state w json key new_state reason m =
    update_existing w json key new_state reason (lookup key m.torrents) m

abbrev pub first_or : List String → String → String
first_or [] default = default
first_or (id ∷ ids) default = id

abbrev pub loaded : Json → ℕ → TorrentRow → ManagedTorrent
loaded json now row = record {
  access_key = row.access_key;
  rd_ids = row.rd_ids;
  torrent = record {
    id = first_or row.rd_ids row.access_key;
    name = row.name;
    hash = row.hash;
    progress = 100;
    status = "downloaded";
    links = [];
    added = now;
  };
  info = none;
  state = row.state;
  unrepairable_reason = row.unrepairable_reason;
  last_repaired_at = row.last_repaired_at;
  file_states = read_back json.read_states row.file_states;
  under_repair_started_at = row.under_repair_started_at;
}

unfoldable pub load_rows :
    Json → ℕ → List TorrentRow → List (String × ManagedTorrent) → List (String × ManagedTorrent)
load_rows json now [] torrents = torrents
load_rows json now (row ∷ rows) torrents =
    load_rows json now rows (insert row.access_key (loaded json now row) torrents)

-- `load_from_db`, on the empty registry of `new`; one reading of the clock stands for all.
unfoldable pub load_from_db : Json → ℕ → Torrents → List (String × ManagedTorrent)
unfolding load_rows get_all_torrents_conn
load_from_db json now t = load_rows json now (get_all_torrents_conn json t) []

-- ===== src/Torrent/Refresh.antt =====
-- How a refresh changes the registry: `run_once` of src/torrent/refresh/mod.rs from the account's
-- list on, and src/torrent/refresh/coordination.rs. The deletions of errored and stalled torrents
-- on the account change nothing here and are left out; so are the watch channels.
pub mod Registry
use Prim.Native.String.{◌++◌ as append}
use rd_rs.Prelude.{
  ℕ, ◌+◌, Bool, true, false, not, ◌||◌, ◌&&◌, Option, none, some, List, [], ◌∷◌, ◌++◌, String, ◌==◌,
  if◌then◌else◌, length,
}
use rd_rs.Prelude.Map.{◌=?◌, contains, lookup, insert, remove, string_keys}
use rd_rs.Torrent.Types.{
  Torrent, TorrentInfo, TorrentState, ok, under_repair, ManagedTorrent, is_state, key_of,
}
use rd_rs.Torrent.Diff.{Merged, any_missing, DiffResult, diff}
use rd_rs.Db.{Json, TorrentRow, Torrents, upsert_torrents_batch_conn}
use rd_rs.Torrent.Manager.{World, Manager, torrent_to_row, stored, triggered}

abbrev pub is_errored : String → Bool
is_errored status =
    (status =? "error")
    || ((status =? "magnet_error") || ((status =? "virus") || (status =? "dead")))

unfoldable pub without_errored : List Torrent → List Torrent
without_errored [] = []
without_errored (t ∷ ts) =
    let rest = without_errored ts in if is_errored t.status then rest else t ∷ rest

abbrev pub new_torrent : Merged → ManagedTorrent
new_torrent (t, ids) = record {
  access_key = key_of t.hash t.name;
  rd_ids = ids;
  torrent = t;
  info = none;
  state = ok;
  unrepairable_reason = none;
  last_repaired_at = none;
  file_states = none;
  under_repair_started_at = none;
}

abbrev pub rd_ids_changed : List String → List String → Bool
rd_ids_changed old ids =
    not (length old == length ids) || (any_missing ids old || any_missing old ids)

abbrev pub changed_torrent : Merged → ManagedTorrent → ManagedTorrent
changed_torrent (t, ids) existing = record existing {
  access_key = key_of t.hash t.name;
  rd_ids = ids;
  torrent = t;
  info = (if rd_ids_changed existing.rd_ids ids then none else existing.info);
}

-- The registry, the rows to be written and the paths that changed.
pub record Refresh : Type 0 where
  pub torrents : List (String × ManagedTorrent)
  pub to_upsert : List ManagedTorrent
  pub changed_paths : List String

abbrev pub path_of : String → String
path_of key = append "__all__/" key

abbrev pub put : String → ManagedTorrent → Refresh → Refresh
put key mt r = record {
  torrents = insert key mt r.torrents;
  to_upsert = r.to_upsert ++ (mt ∷ []);
  changed_paths = r.changed_paths ++ (path_of key ∷ []);
}

unfoldable pub apply_added : List Merged → Refresh → Refresh
apply_added [] r = r
apply_added ((t, ids) ∷ added) r =
    apply_added added (put (key_of t.hash t.name) (new_torrent (t, ids)) r)

abbrev pub change_one : String → Merged → Option ManagedTorrent → Refresh → Refresh
change_one key f none r = r
change_one key f (some existing) r = put key (changed_torrent f existing) r

unfoldable pub apply_changed : List Merged → Refresh → Refresh
apply_changed [] r = r
apply_changed ((t, ids) ∷ changed) r =
    let key = key_of t.hash t.name in
    apply_changed changed (change_one key (t, ids) (lookup key r.torrents) r)

-- `skip_local_remove_for_state`
abbrev pub skips : Option ManagedTorrent → Bool
skips none = false
skips (some mt) = is_state mt.state under_repair

abbrev pub drop_key : String → Refresh → Refresh
drop_key key r = record r {
  torrents = remove key r.torrents;
  changed_paths = r.changed_paths ++ (path_of key ∷ []);
}

abbrev pub drop_unless : Bool → String → Refresh → Refresh
drop_unless true key r = r
drop_unless false key r = drop_key key r

unfoldable pub apply_removed : List String → Refresh → Refresh
apply_removed [] r = r
apply_removed (key ∷ keys) r =
    apply_removed keys (drop_unless (skips (lookup key r.torrents)) key r)

unfoldable pub apply_diff : DiffResult → List (String × ManagedTorrent) → Refresh
unfolding apply_added apply_changed apply_removed
apply_diff d torrents = apply_removed d.removed_keys (
    apply_changed d.changed
      (apply_added d.added (record { torrents = torrents; to_upsert = []; changed_paths = [] })))

abbrev pub rows_of : Json → ℕ → List ManagedTorrent → List TorrentRow
rows_of json now [] = []
rows_of json now (mt ∷ mts) = torrent_to_row json now mt ∷ rows_of json now mts

abbrev pub is_nil {ℓ} : {A : Type ℓ} → List A → Bool
is_nil [] = true
is_nil (x ∷ xs) = false

abbrev pub is_empty_diff : DiffResult → Bool
is_empty_diff d = is_nil d.added && (is_nil d.removed_keys && is_nil d.changed)

-- No row is written where there is none.
abbrev pub sync_rows : World → Json → List TorrentRow → Manager → Bool × Manager
sync_rows w json [] m = (true, m)
sync_rows w json (row ∷ rows) m =
    stored (w.db_works m.calls) (upsert_torrents_batch_conn json (row ∷ rows) m.table) m

unfoldable pub run_once : World → Json → List Torrent → Manager → Bool × Manager
unfolding without_errored diff apply_diff
run_once w json fresh_all m =
    let d = diff m.torrents (without_errored fresh_all) in
    let r = apply_diff d m.torrents in
    let m1 : Manager = record m { torrents = r.torrents; calls = m.calls + 1 } in
    let synced =
      triggered r.changed_paths (sync_rows w json (rows_of json (w.now m.calls) r.to_upsert) m1) in
    if is_empty_diff d then (true, m) else synced

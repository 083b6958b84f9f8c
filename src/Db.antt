-- ===== src/Db.antt =====
-- The tables `torrents` and `repair_jobs` of src/db/: rows written and read as the SQL of
-- src/db/sql.rs and src/db/conn.rs does, a table being a map from the primary key. What serde makes
-- of lists and maps of texts is the parameter `Json`. A transaction that fails changes nothing.
use rd_rs.Prelude.{ℕ, Option, none, some, List, [], ◌∷◌, String, ◌≡◌}
use rd_rs.Prelude.Map.{insert, lookup, string_keys}
use rd_rs.Torrent.Types.{TorrentState, ok, FileStates, state_text, state_from}

pub record Json : Type 0 where
  pub write_states : FileStates → Option String
  pub read_states : String → Option FileStates
  pub write_ids : List String → Option String
  pub read_ids : String → Option (List String)

abbrev pub read_back : {A : Type 0} → (String → Option A) → Option String → Option A
read_back read none = none
read_back read (some s) = read s

-- What is written as JSON is read back as it was.
pub record IsJson (json : Json) : Type 0 where
  pub states_back : (m : FileStates) → read_back json.read_states (json.write_states m) ≡ some m
  pub ids_back : (ids : List String) → read_back json.read_ids (json.write_ids ids) ≡ some ids

pub record TorrentRow : Type 0 where
  pub access_key : String
  pub rd_ids : List String
  pub hash : String
  pub name : String
  pub state : TorrentState
  pub unrepairable_reason : Option String
  pub file_states : Option String
  pub last_seen_at : Option ℕ
  pub last_repaired_at : Option ℕ
  pub under_repair_started_at : Option ℕ

-- The columns beside the primary key.
pub record TorrentColumns : Type 0 where
  pub rd_ids : String
  pub hash : String
  pub name : String
  pub state : String
  pub unrepairable : Option String
  pub file_states : Option String
  pub last_seen_at : Option ℕ
  pub last_repaired_at : Option ℕ
  pub under_repair_started_at : Option ℕ

abbrev pub Torrents : Type 0
Torrents = List (String × TorrentColumns)

abbrev pub columns_of : TorrentRow → String → TorrentColumns
columns_of row rd_ids_json = record {
  rd_ids = rd_ids_json;
  hash = row.hash;
  name = row.name;
  state = state_text row.state;
  unrepairable = row.unrepairable_reason;
  file_states = row.file_states;
  last_seen_at = row.last_seen_at;
  last_repaired_at = row.last_repaired_at;
  under_repair_started_at = row.under_repair_started_at;
}

abbrev pub upsert_one : TorrentRow → Option String → Torrents → Option Torrents
upsert_one row none t = none
upsert_one row (some rd_ids_json) t = some (insert row.access_key (columns_of row rd_ids_json) t)

abbrev pub and_then : {A B : Type 0} → Option A → (A → Option B) → Option B
and_then none f = none
and_then (some a) f = f a

unfoldable pub upsert_torrents_batch_conn : Json → List TorrentRow → Torrents → Option Torrents
upsert_torrents_batch_conn json [] t = some t
upsert_torrents_batch_conn json (row ∷ rows) t =
    and_then (upsert_one row (json.write_ids row.rd_ids) t) (upsert_torrents_batch_conn json rows)

abbrev pub or_ok : Option TorrentState → TorrentState
or_ok none = ok
or_ok (some s) = s

abbrev pub or_no_ids : Option (List String) → List String
or_no_ids none = []
or_no_ids (some ids) = ids

abbrev pub row_to_torrent : Json → String → TorrentColumns → TorrentRow
row_to_torrent json key c = record {
  access_key = key;
  rd_ids = or_no_ids (json.read_ids c.rd_ids);
  hash = c.hash;
  name = c.name;
  state = or_ok (state_from c.state);
  unrepairable_reason = c.unrepairable;
  file_states = c.file_states;
  last_seen_at = c.last_seen_at;
  last_repaired_at = c.last_repaired_at;
  under_repair_started_at = c.under_repair_started_at;
}

unfoldable pub get_all_torrents_conn : Json → Torrents → List TorrentRow
get_all_torrents_conn json [] = []
get_all_torrents_conn json ((key, c) ∷ t) = row_to_torrent json key c ∷ get_all_torrents_conn json t

pub data RepairJobStatus : Type 0 where
  pending running done failed_job : RepairJobStatus

pub record RepairJobRow : Type 0 where
  pub torrent_key : String
  pub strategy : String
  pub status : RepairJobStatus
  pub started_at : Option ℕ
  pub completed_at : Option ℕ

abbrev pub Jobs : Type 0
Jobs = List (String × RepairJobRow)

unfoldable pub insert_repair_job_on_conn : String → RepairJobRow → Jobs → Jobs
insert_repair_job_on_conn id job jobs = insert id job jobs

-- `WHERE id = ?4`: no row is added.
abbrev pub update_job : String → RepairJobRow → Option RepairJobRow → Jobs → Jobs
update_job id job none jobs = jobs
update_job id job (some old) jobs =
    insert id
      (record old { strategy = job.strategy; status = job.status; completed_at = job.completed_at })
      jobs

unfoldable pub update_repair_job_on_conn : String → RepairJobRow → Jobs → Jobs
update_repair_job_on_conn id job jobs = update_job id job (lookup id jobs) jobs

-- ===== src/Repair/Account.antt =====
-- The calls that the repair makes of the Real-Debrid account. What the account answers is the
-- parameter `Account`, a function of all calls made before; so theorems hold for whatever it
-- answers, and at whatever time. A run adds its calls, with their answers, to a log.
use rd_rs.Prelude.{Option, List, [], ◌∷◌, String}
use rd_rs.Prelude.Map.{string_keys}
use rd_rs.Rd.Client.Errors.{RdError}
use rd_rs.Torrent.Types.{TorrentInfo, Download}

pub data Answer (A : Type 0) : Type 0 where
  answered : A → Answer A
  failed : RdError → Answer A

-- `asked_to_delete` is the deletion of an id that the torrent had before, `deleted` that of a
-- magnet of the repair, and `spawned_delete` the task that a dropped guard starts.
pub data Call : Type 0 where
  asked_to_delete : (id : String) → Option RdError → Call
  added : (hash : String) → Answer String → Call
  selected : (id files : String) → Option RdError → Call
  asked_info : (id : String) → Answer TorrentInfo → Call
  deleted : (id : String) → Option RdError → Call
  spawned_delete : (id : String) → Call
  unrestricted : (link : String) → Answer Download → Call
  verified : (url : String) → Option String → Call

-- The newest call first.
abbrev pub Log : Type 0
Log = List Call

-- `display` is the text of an error, `to_lowercase` that of Unicode.
pub record Account : Type 0 where
  pub delete_torrent : Log → String → Option RdError
  pub add_magnet : Log → String → Answer String
  pub select_torrent_files : Log → String → String → Option RdError
  pub get_torrent_info : Log → String → Answer TorrentInfo
  pub unrestrict_link : Log → String → Answer Download
  pub verify_link : Log → String → Option String
  pub display : RdError → String
  pub to_lowercase : String → String

-- The deletions that a repair starts with; their errors are ignored.
unfoldable pub delete_all : Account → List String → Log → Log
delete_all rd [] l = l
delete_all rd (id ∷ ids) l = delete_all rd ids (asked_to_delete id (rd.delete_torrent l id) ∷ l)

abbrev pub add_magnet : Account → String → Log → Answer String × Log
add_magnet rd hash l = let a = rd.add_magnet l hash in (a, added hash a ∷ l)

abbrev pub select_torrent_files : Account → String → String → Log → Option RdError × Log
select_torrent_files rd id files l =
    let a = rd.select_torrent_files l id files in (a, selected id files a ∷ l)

abbrev pub get_torrent_info : Account → String → Log → Answer TorrentInfo × Log
get_torrent_info rd id l = let a = rd.get_torrent_info l id in (a, asked_info id a ∷ l)

abbrev pub unrestrict_link : Account → String → Log → Answer Download × Log
unrestrict_link rd link l = let a = rd.unrestrict_link l link in (a, unrestricted link a ∷ l)

abbrev pub verify_link : Account → String → Log → Option String × Log
verify_link rd url l = let a = rd.verify_link l url in (a, verified url a ∷ l)

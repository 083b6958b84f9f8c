-- ===== src/Torrent/Types.antt =====
-- The types of src/rd/types.rs and src/torrent/mod.rs that the registry and the repair share, and
-- `TorrentState` of src/db/types.rs. Times are seconds since 1970.
use Prim.Native.String.{◌++◌ as append}
use rd_rs.Prelude.{ℕ, Bool, true, false, Option, none, some, List, [], ◌∷◌, String, if◌then◌else◌}
use rd_rs.Prelude.Int.{ℤ, pos, ◌=ℤ◌}
use rd_rs.Prelude.Map.{◌=?◌, string_keys}

pub record Torrent : Type 0 where
  pub id : String
  pub name : String
  pub hash : String
  pub progress : ℕ
  pub status : String
  pub links : List String
  pub added : ℕ

pub record File : Type 0 where
  pub id : ℤ
  pub path : String
  pub bytes : ℤ
  pub selected : ℤ

abbrev pub is_selected : File → Bool
is_selected f = f.selected =ℤ pos 1

-- The fields of `TorrentInfo` that are read; the others are copied along.
pub record TorrentInfo : Type 0 where
  pub progress : ℕ
  pub links : List String
  pub files : List File

-- The fields of `Download` that are read.
pub record Download : Type 0 where
  pub filename : String
  pub filesize : ℤ
  pub link : String
  pub download : String
  pub token : String

pub data TorrentState : Type 0 where
  ok broken under_repair : TorrentState

-- A `HashMap<String, String>`.
abbrev pub FileStates : Type 0
FileStates = List (String × String)

pub record ManagedTorrent : Type 0 where
  pub access_key : String
  pub rd_ids : List String
  pub torrent : Torrent
  pub info : Option TorrentInfo
  pub state : TorrentState
  pub unrepairable_reason : Option String
  pub last_repaired_at : Option ℕ
  pub file_states : Option FileStates
  pub under_repair_started_at : Option ℕ

unfoldable pub selected_of : List File → List File
selected_of [] = []
selected_of (f ∷ fs) = let rest = selected_of fs in if is_selected f then f ∷ rest else rest

abbrev pub files_of : Option TorrentInfo → List File
files_of none = []
files_of (some info) = info.files

-- `ManagedTorrent::selected_files`.
unfoldable pub selected_files : ManagedTorrent → List File
unfolding selected_of
selected_files mt = selected_of (files_of mt.info)

-- `access_key` of src/torrent/mod.rs.
abbrev pub key_of : String → String → String
key_of hash name = append hash (append "/" name)

-- `Display` of `TorrentState`.
abbrev pub state_text : TorrentState → String
state_text ok = "ok"
state_text broken = "broken"
state_text under_repair = "under_repair"

-- `FromStr` of `TorrentState`.
unfoldable pub state_from : String → Option TorrentState
state_from s =
    if s =? "ok"
    then some ok
    else if s =? "broken"
    then some broken
    else if s =? "under_repair"
    then some under_repair
    else none

-- `==` of `TorrentState`.
abbrev pub is_state : TorrentState → TorrentState → Bool
is_state ok ok = true
is_state broken broken = true
is_state under_repair under_repair = true
is_state ok broken = false
is_state ok under_repair = false
is_state broken ok = false
is_state broken under_repair = false
is_state under_repair ok = false
is_state under_repair broken = false

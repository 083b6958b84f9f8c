-- ===== src/Tests/Reads.antt =====
-- The theorems on reads of mounted files.
use rd_rs.Prelude.{◌+◌, ◌-◌, min, ◌≡◌, refl, inr, true, false, none, some, [], ◌∷◌, arith}
use rd_rs.Prelude.Int.{pos}
use rd_rs.Prelude.Slice.{slice}
use rd_rs.Prelude.Map.{contains, lookup, string_keys}
use rd_rs.Torrent.Types.{File, TorrentInfo, ok, broken, ManagedTorrent, selected_of}
use rd_rs.Repair.Engine.{ensure_torrent_info}
use rd_rs.Torrent.Manager.{Manager, in_state, with_broken_file}
use rd_rs.Cache.ReadAt.{bytes}
use rd_rs.Fuse.ReadBuffer.{VfsReadBuffer}
use rd_rs.Fuse.Read.{Mount, ReadState, wait_once, mark_fatal, read_turn, read}
use rd_rs.Fuse.Read.Bytes.{IsWindowed, IsExact, AreGenuine, read_turn-IsExact}
use rd_rs.Fuse.Read.Broken.{is_answered, read-is_answered}
use rd_rs.Fuse.Read.Fatal.{read_turn-fatal}
use rd_rs.Rd.Client.Errors.{RdError, api, other_api}
use rd_rs.Repair.Account.{failed, unrestrict_link}
use rd_rs.Tests.Cascades.{broken_film, account}
use rd_rs.Tests.Items.{content}
use rd_rs.Tests.JsonTexts.{texts_json}
use rd_rs.Tests.Registries.{world, empty_manager}

abbrev clip : File
clip = record { id = pos 1; path = "/clip.mkv"; bytes = pos 4; selected = pos 1 }

abbrev clip_details : TorrentInfo
clip_details = record { progress = 100; links = "l1" ∷ []; files = clip ∷ [] }

abbrev clip_torrent : ManagedTorrent
clip_torrent = record broken_film { info = some clip_details; state = ok; file_states = none }

-- A mount whose cache has the file of four bytes, where reads do not wait for repairs.
abbrev mount : Mount
mount = record {
  world = world;
  json = texts_json;
  account = account;
  opened = λ l. true;
  fetch = λ l o n. bytes (slice content o (min (o + n) 4 - o));
  is_leader = λ p. true;
  repaired = λ p. (false, p);
  extension = λ path. none;
  wait_secs = 0;
  buffer_size = 65536;
}

abbrev clip_manager : Manager
clip_manager = record empty_manager { torrents = ("ab/film", clip_torrent) ∷ [] }

abbrev two_bytes : VfsReadBuffer
two_bytes = record { buf_start = 0; contents = slice content 0 2 }

abbrev reading : ReadState
reading = record { progress = (clip_manager, []); window = some two_bytes; waited = false }

mount-AreGenuine : AreGenuine mount content 4
unfolding AreGenuine
mount-AreGenuine = λ l o n bs e. cc

two_bytes-IsWindowed : IsWindowed content 4 reading.window
unfolding IsWindowed
two_bytes-IsWindowed = record { bytes = refl; within = inr (omega arith) }

read_turn-IsExact_example :
    IsExact content 4 0 (min 3 (4 - 0)) (read_turn mount "ab/film" 0 0 3 reading)
unfolding lookup selected_of ensure_torrent_info
read_turn-IsExact_example =
    read_turn-IsExact mount content "ab/film" clip_torrent clip_details clip 0 0 3 reading refl refl
      refl (omega arith) (omega arith) mount-AreGenuine two_bytes-IsWindowed

read-is_answered_example : is_answered (read mount "ab/film" 0 0 3 reading) ≡ true
read-is_answered_example = read-is_answered mount "ab/film" 0 0 3 reading

-- The account gives no link of this torrent, the error being that the file is gone.
abbrev gone : RdError
gone = api (other_api (pos 24) "")

abbrev dead_mount : Mount
dead_mount = record mount {
  account = record account { unrestrict_link = λ l link. failed gone };
  wait_secs = 28;
}

abbrev without_window : ReadState
without_window = record reading { window = none }

read_turn-fatal_example :
    let marked = mark_fatal dead_mount "ab/film" "/clip.mkv" clip_manager in
    let later : ReadState = record { progress = (marked, []); window = none; waited = true } in
    (read_turn dead_mount "ab/film" 0 0 3 without_window
      ≡ wait_once dead_mount (record without_window {
        progress = (marked, (unrestrict_link dead_mount.account "l1" []).1);
      }))
    × (lookup "ab/film" marked.torrents
        ≡ some (
            with_broken_file "/clip.mkv"
              (in_state broken none (world.now clip_manager.calls) clip_torrent)))
    × (contains marked.repair_queue "ab/film" ≡ true)
    × (read_turn dead_mount "ab/film" 0 1 2 later ≡ wait_once dead_mount later)
unfolding lookup selected_of
read_turn-fatal_example =
    read_turn-fatal dead_mount "ab/film" clip_torrent clip_details clip 0 0 3 without_window "l1"
      gone 1 2 [] none true refl refl refl refl refl refl refl refl refl refl refl

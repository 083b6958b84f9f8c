-- ===== src/Fuse/Read/Fatal.antt =====
-- What a read that fails for good leaves behind: the marks, and the repair it waits for.
use rd_rs.Prelude.{
  ℕ, suc, ◌-◌, min, length, List, ◌≡◌, refl, ap, ◌∙◌, Bool, true, false, Option, none, some, String,
  ◌==◌, get_elem?, or_true,
}
use rd_rs.Prelude.Map.{=?_refl, contains, lookup, insert, lookup-insert_self, string_keys}
use rd_rs.Rd.Client.Errors.{RdError}
use rd_rs.Torrent.Types.{File, TorrentInfo, broken, FileStates, ManagedTorrent, selected_of}
use rd_rs.Torrent.Manager.{
  Manager, states_or_empty, with_broken_file, mark_existing, mark_file_broken, in_state,
  update_torrent_state,
}
use rd_rs.Repair.Account.{failed, Log, unrestrict_link}
use rd_rs.Repair.Preflight.{is_broken}
use rd_rs.Repair.Queue.Order.{contains-enqueue_repair}
use rd_rs.Repair.Queue.{enqueue_repair}
use rd_rs.Repair.Engine.{ensure_loaded, ensure_found, ensure_torrent_info}
use rd_rs.Repair.Engine.Registry.{lookup-update, torrents-store}
use rd_rs.Fuse.ReadBuffer.{VfsReadBuffer}
use rd_rs.Fuse.Read.{
  Mount, Turn, ReadState, as_u64, FetchPlan, direct, is_fatal, mark_fatal, wait_once, bad_link,
  broken_file, attempt, attempts, fetch_plan, with_link, with_file, with_details, with_found,
  read_turn,
}

lookup-mark_file_broken :
    (s : Mount) (key path : String) (mt : ManagedTorrent) (m : Manager)
    → lookup key m.torrents ≡ some mt
    → lookup key (mark_file_broken s.world s.json key path m).1.torrents
      ≡ some (with_broken_file path mt)
unfolding mark_file_broken mark_existing
lookup-mark_file_broken s key path mt m h =
    rw (h, torrents-store s.world s.json key (with_broken_file path mt) m)
      (lookup-insert_self key (with_broken_file path mt) m.torrents)

lookup-mark_fatal :
    (s : Mount) (key path : String) (mt : ManagedTorrent) (m : Manager)
    → lookup key m.torrents ≡ some mt
    → lookup key (mark_fatal s key path m).torrents
      ≡ some (with_broken_file path (in_state broken none (s.world.now m.calls) mt))
unfolding mark_fatal
lookup-mark_fatal s key path mt m h =
    let m1 = (update_torrent_state s.world s.json key broken none m).1 in
    lookup-mark_file_broken s key path (in_state broken none (s.world.now m.calls) mt) m1
      (lookup-update s.world s.json key broken none mt m h)

contains-mark_fatal :
    (s : Mount) (key path : String) (m : Manager)
    → contains (mark_fatal s key path m).repair_queue key ≡ true
unfolding mark_fatal
contains-mark_fatal s key path m =
    let q =
      (mark_file_broken s.world s.json key path
        (update_torrent_state s.world s.json key broken none m).1).1.repair_queue in
    contains-enqueue_repair key key q ∙ rw (=?_refl key) (or_true (contains q key))

is_broken-insert :
    (path : String) (states : FileStates)
    → is_broken (lookup path (insert path "broken" states)) ≡ true
is_broken-insert path states = rw (lookup-insert_self path "broken" states) refl

enqueue_repair-contains :
    (key : String) (q : List String) → contains q key ≡ true → enqueue_repair key q ≡ q
unfolding enqueue_repair
enqueue_repair-contains key q h = rw h refl

-- A file that is marked as broken, of a torrent that is queued already: the read only waits.
broken_file-queued :
    (s : Mount) (key : String) (st : ReadState)
    → contains st.progress.0.repair_queue key ≡ true
    → broken_file s key st ≡ wait_once s st
unfolding broken_file wait_once
broken_file-queued s key st h = rw (enqueue_repair-contains key st.progress.0.repair_queue h) refl

attempt-fatal :
    (s : Mount) (key : String) (f : File) (plan : FetchPlan) (o n : ℕ) (rest : Turn × ReadState)
    (st : ReadState) (e : RdError)
    → is_fatal e ≡ true
    → s.is_leader st.progress ≡ true
    → attempt s key f plan o n (failed e) rest st
      ≡ wait_once s
          (record st { progress = (mark_fatal s key f.path st.progress.0, st.progress.1) })
unfolding bad_link
attempt-fatal s key f plan o n rest st e fatal leads = rw (fatal, leads) refl

attempts-fatal :
    (s : Mount) (key : String) (f : File) (plan : FetchPlan) (o n : ℕ) (link : String) (left : ℕ)
    (st : ReadState) (e : RdError)
    → let d = unrestrict_link s.account link st.progress.1 in
      d.0 ≡ failed e
      → is_fatal e ≡ true
      → s.is_leader (st.progress.0, d.1) ≡ true
      → attempts s key f plan o n link (suc left) st
        ≡ wait_once s (record st { progress = (mark_fatal s key f.path st.progress.0, d.1) })
unfolding attempts
attempts-fatal s key f plan o n link left st e fails fatal leads =
    let d = unrestrict_link s.account link st.progress.1 in
    let st1 : ReadState = record st { progress = (st.progress.0, d.1) } in
    let rest = attempts s key f plan o n link left st1 in
    ap (λ a. attempt s key f plan o n a rest st1) fails
    ∙ attempt-fatal s key f plan o n rest st1 e fatal leads

module _ (s : Mount) (key : String) (mt : ManagedTorrent) (info : TorrentInfo) (f : File)
    (file_idx offset size : ℕ) (st : ReadState)
    (found : lookup key st.progress.0.torrents ≡ some mt) (details : mt.info ≡ some info)
    (there : get_elem? (selected_of info.files) file_idx ≡ some f)
    (filled : (as_u64 f.bytes == 0) ≡ false) where
  read_turn-marked :
      is_broken (lookup f.path (states_or_empty mt.file_states)) ≡ true
      → contains st.progress.0.repair_queue key ≡ true
      → read_turn s key file_idx offset size st ≡ wait_once s st
  unfolding read_turn ensure_torrent_info ensure_found ensure_loaded with_found with_details
      with_file
  read_turn-marked bad queued =
      rw (found, details, there, filled, bad) (broken_file-queued s key st queued)

  read_turn-unmarked :
      (link : String)
      → is_broken (lookup f.path (states_or_empty mt.file_states)) ≡ false
      → get_elem? info.links (min file_idx (length info.links - 1)) ≡ some link
      → s.opened st.progress.1 ≡ true
      → st.window ≡ none
      → read_turn s key file_idx offset size st ≡ attempts s key f direct offset size link 4 st
  unfolding read_turn ensure_torrent_info ensure_found ensure_loaded with_found with_details
      with_file with_link fetch_plan
  read_turn-unmarked link fine linked opens handle =
      rw (found, details, there, filled, fine, linked, opens, handle) refl

-- A turn of a read without a window, of a file that is there, is not empty and is not marked as
-- broken, of a torrent that has its details, where the item can be had, the first unrestrict fails
-- with an error that is not to be tried again, and this read is the leader: it marks the torrent
-- and the file as broken and queues the torrent, whether or not the database takes the marks, and
-- waits for the repair unless it has waited already or reads do not wait. Any turn of a read of
-- the file that finds the registry as it is then, whatever the log, its window, its range and
-- whether it has waited, asks the account for nothing and does the same: it waits for the repair,
-- or replies that the file is not there.
pub read_turn-fatal :
    (s : Mount) (key : String) (mt : ManagedTorrent) (info : TorrentInfo) (f : File)
    (file_idx offset size : ℕ) (st : ReadState) (link : String) (e : RdError) (offset' size' : ℕ)
    (l' : Log) (window' : Option VfsReadBuffer) (waited' : Bool)
    → lookup key st.progress.0.torrents ≡ some mt
    → mt.info ≡ some info
    → get_elem? (selected_of info.files) file_idx ≡ some f
    → (as_u64 f.bytes == 0) ≡ false
    → is_broken (lookup f.path (states_or_empty mt.file_states)) ≡ false
    → get_elem? info.links (min file_idx (length info.links - 1)) ≡ some link
    → s.opened st.progress.1 ≡ true
    → st.window ≡ none
    → (unrestrict_link s.account link st.progress.1).0 ≡ failed e
    → is_fatal e ≡ true
    → s.is_leader (st.progress.0, (unrestrict_link s.account link st.progress.1).1) ≡ true
    → let marked = mark_fatal s key f.path st.progress.0 in
      let l = (unrestrict_link s.account link st.progress.1).1 in
      let later : ReadState = record {
        progress = (marked, l');
        window = window';
        waited = waited';
      } in
      (read_turn s key file_idx offset size st ≡ wait_once s (record st { progress = (marked, l) }))
      × (lookup key marked.torrents
          ≡ some
              (with_broken_file f.path (in_state broken none (s.world.now st.progress.0.calls) mt)))
      × (contains marked.repair_queue key ≡ true)
      × (read_turn s key file_idx offset' size' later ≡ wait_once s later)
read_turn-fatal s key mt info f file_idx offset size st link e offset' size' l' window' waited'
      found details there filled fine linked opens handle fails fatal leads =
    let marks = lookup-mark_fatal s key f.path mt st.progress.0 found in
    let queued = contains-mark_fatal s key f.path st.progress.0 in
    (
      read_turn-unmarked s key mt info f file_idx offset size st found details there filled link
            fine linked opens handle
          ∙ attempts-fatal s key f direct offset size link 3 st e fails fatal leads,
      marks,
      queued,
      read_turn-marked s key _ info f file_idx offset' size' _ marks details there filled
          (is_broken-insert f.path (states_or_empty mt.file_states)) queued,
    )

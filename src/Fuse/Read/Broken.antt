-- ===== src/Fuse/Read/Broken.antt =====
-- `read` ends.
use rd_rs.Prelude.{
  ℕ, zero, suc, ◌≡◌, refl, inl, inr, Bool, true, false, not, ◌&&◌, arith, ltb, Option, none, some,
  String, ◌==◌, get_elem?, Bool-cases,
}
use rd_rs.Prelude.Map.{lookup, string_keys}
use rd_rs.Torrent.Types.{File, TorrentInfo, Download, ManagedTorrent, selected_of}
use rd_rs.Torrent.Manager.{states_or_empty}
use rd_rs.Cache.ReadAt.{ReadResult, bytes, io_error, cancelled, download_failed}
use rd_rs.Repair.Account.{Answer, answered, failed, unrestrict_link}
use rd_rs.Repair.Preflight.{is_broken}
use rd_rs.Repair.Engine.{ensure_torrent_info, Progress}
use rd_rs.Fuse.ReadBuffer.{VfsReadBuffer, PrepareRead, hit, miss, prepare_read}
use rd_rs.Fuse.Read.{
  Mount, Reply, Turn, replied, again, ReadState, as_u64, FetchPlan, direct, buffered, after_wait,
  is_fatal, is_corrupted, wait_once, bad_link, broken_file, fetched, attempt, attempts, from_window,
  fetch_plan, with_link, with_file, with_details, with_found, read_turn, next_turn, read_from, read,
}

not_waited : (a b w : Bool) → a ≡ w → (not a && b) ≡ true → w ≡ false
not_waited true b w e h = absurd (ground (arith, h))
not_waited false b w e h = rw (← e) refl

-- A turn ends the read, unless the read had not waited yet and has now.
abbrev Ends : Bool → Turn × ReadState → Type 0
Ends waited (replied r, st) = Unit {0}
Ends waited (again, st) = (waited ≡ false) × (st.waited ≡ true)

-- Those turns that start from a state with this flag.
module _ (s : Mount) (key : String) (waited : Bool) where
  Ends-after_wait :
      (r : Bool × Progress) (st : ReadState)
      → waited ≡ false
      → st.waited ≡ true
      → Ends waited (after_wait r st)
  Ends-after_wait (true, p) st e w = (e, w)
  Ends-after_wait (false, p) st e w = tt

  Ends-wait_once : (st : ReadState) → st.waited ≡ waited → Ends waited (wait_once s st)
  unfolding wait_once
  Ends-wait_once st e = elim (Bool-cases (not st.waited && ltb 0 s.wait_secs)) [
    | inl waits ↦
        rw waits
          (Ends-after_wait _ _ (not_waited st.waited (ltb 0 s.wait_secs) waited e waits) refl)
    | inr stays ↦ rw stays tt
  ]

  Ends-bad_link :
      (path : String) (st : ReadState) → st.waited ≡ waited → Ends waited (bad_link s key path st)
  unfolding bad_link
  Ends-bad_link path st e = Ends-wait_once _ e

  Ends-broken_file : (st : ReadState) → st.waited ≡ waited → Ends waited (broken_file s key st)
  unfolding broken_file
  Ends-broken_file st e = elim (Bool-cases (not st.waited && ltb 0 s.wait_secs)) [
    | inl waits ↦
        rw waits
          (Ends-after_wait _ _ (not_waited st.waited (ltb 0 s.wait_secs) waited e waits) refl)
    | inr stays ↦ rw stays tt
  ]

  Ends-fetched :
      (plan : FetchPlan) (o : ℕ) (a : ReadResult) (rest : Turn × ReadState) (st : ReadState)
      → Ends waited rest
      → Ends waited (fetched plan o a rest st)
  Ends-fetched direct o (bytes bs) rest st h = tt
  Ends-fetched (buffered k) o (bytes bs) rest st h = tt
  Ends-fetched plan o io_error rest st h = tt
  Ends-fetched plan o cancelled rest st h = tt
  Ends-fetched plan o download_failed rest st h = h

  module _ (f : File) where
    Ends-attempt :
        (plan : FetchPlan) (o n : ℕ) (d : Answer Download) (rest : Turn × ReadState)
        (st : ReadState)
        → st.waited ≡ waited
        → Ends waited rest
        → Ends waited (attempt s key f plan o n d rest st)
    Ends-attempt plan o n (failed e) rest st w h = elim (Bool-cases (is_fatal e)) [
      | inl fatal ↦ rw fatal (Ends-bad_link f.path st w)
      | inr passes ↦ rw passes h
    ]
    Ends-attempt plan o n (answered dl) rest st w h =
        elim (Bool-cases (is_corrupted s.extension f dl)) [
          | inl bad ↦ rw bad (Ends-bad_link f.path st w)
          | inr good ↦ rw good (Ends-fetched plan o (s.fetch st.progress.1 o n) rest st h)
        ]

    Ends-attempts :
        (plan : FetchPlan) (o n : ℕ) (link : String) (left : ℕ) (st : ReadState)
        → st.waited ≡ waited
        → Ends waited (attempts s key f plan o n link left st)
    unfolding attempts
    Ends-attempts plan o n link zero st w = tt
    Ends-attempts plan o n link (suc left) st w =
        let d = unrestrict_link s.account link st.progress.1 in
        let st1 : ReadState = record st { progress = (st.progress.0, d.1) } in
        Ends-attempt plan o n d.0 (attempts s key f plan o n link left st1) st1 w
          (Ends-attempts plan o n link left st1 w)

    Ends-from_window :
        (link : String) (r : PrepareRead) (b : VfsReadBuffer) (st : ReadState)
        → st.waited ≡ waited
        → Ends waited (from_window s key f link (r, b) st)
    unfolding from_window
    Ends-from_window link (hit out) b st w = tt
    Ends-from_window link (miss o n k) b st w = elim (Bool-cases (n == 0)) [
      | inl empty ↦ rw empty tt
      | inr more ↦ rw more (Ends-attempts (buffered k) o n link 4 _ w)
    ]

    Ends-fetch_plan :
        (offset size : ℕ) (link : String) (b : Option VfsReadBuffer) (st : ReadState)
        → st.waited ≡ waited
        → Ends waited (fetch_plan s key f offset size link b st)
    unfolding fetch_plan
    Ends-fetch_plan offset size link none st w = Ends-attempts direct offset size link 4 st w
    Ends-fetch_plan offset size link (some b) st w =
        let r = prepare_read offset size (as_u64 f.bytes) s.buffer_size b in
        Ends-from_window link r.0 r.1 st w

    Ends-with_link :
        (offset size : ℕ) (o : Option String) (st : ReadState)
        → st.waited ≡ waited
        → Ends waited (with_link s key f offset size o st)
    unfolding with_link
    Ends-with_link offset size none st w = tt
    Ends-with_link offset size (some link) st w = elim (Bool-cases (s.opened st.progress.1)) [
      | inl there ↦ rw there (Ends-fetch_plan offset size link st.window st w)
      | inr closed ↦ rw closed tt
    ]

  Ends-with_file :
      (mt : ManagedTorrent) (info : TorrentInfo) (file_idx offset size : ℕ) (o : Option File)
      (st : ReadState)
      → st.waited ≡ waited
      → Ends waited (with_file s key mt info file_idx offset size o st)
  unfolding with_file
  Ends-with_file mt info file_idx offset size none st w = tt
  Ends-with_file mt info file_idx offset size (some f) st w =
      elim (Bool-cases (as_u64 f.bytes == 0)) [
        | inl empty ↦ rw empty tt
        | inr filled ↦
            elim (Bool-cases (is_broken (lookup f.path (states_or_empty mt.file_states)))) [
              | inl bad ↦ rw (filled, bad) (Ends-broken_file st w)
              | inr fine ↦ rw (filled, fine) (Ends-with_link f offset size _ st w)
            ]
      ]

  Ends-with_details :
      (mt : ManagedTorrent) (file_idx offset size : ℕ) (o : Option TorrentInfo) (st : ReadState)
      → st.waited ≡ waited
      → Ends waited (with_details s key mt file_idx offset size o st)
  unfolding with_details
  Ends-with_details mt file_idx offset size none st w = tt
  Ends-with_details mt file_idx offset size (some info) st w =
      Ends-with_file mt info file_idx offset size (get_elem? (selected_of info.files) file_idx) st w

  Ends-with_found :
      (file_idx offset size : ℕ) (o : Option ManagedTorrent) (st : ReadState)
      → st.waited ≡ waited
      → Ends waited (with_found s key file_idx offset size o st)
  unfolding with_found
  Ends-with_found file_idx offset size none st w = tt
  Ends-with_found file_idx offset size (some mt) st w =
      Ends-with_details mt file_idx offset size mt.info st w

abbrev pub is_answered : Option (Reply × ReadState) → Bool
is_answered none = false
is_answered (some r) = true

is_answered-next_turn :
    (waited : Bool) (r : Turn × ReadState) (rest : ReadState → Option (Reply × ReadState))
    → Ends waited r
    → (waited ≡ false → (st : ReadState) → st.waited ≡ true → is_answered (rest st) ≡ true)
    → is_answered (next_turn r.0 rest r.1) ≡ true
is_answered-next_turn waited (replied a, st) rest h k = refl
is_answered-next_turn waited (again, st) rest h k = k h.0 st h.1

module _ (s : Mount) (key : String) (file_idx offset size : ℕ) where
  Ends-read_turn : (st : ReadState) → Ends st.waited (read_turn s key file_idx offset size st)
  unfolding read_turn
  Ends-read_turn st =
      let e = ensure_torrent_info s.account key st.progress in
      Ends-with_found s key st.waited file_idx offset size e.0 (record st { progress = e.1 }) refl

  is_answered-read_from :
      (st : ReadState)
      → st.waited ≡ true
      → is_answered (read_from 1 s key file_idx offset size st) ≡ true
  unfolding read_from
  is_answered-read_from st w =
      is_answered-next_turn st.waited (read_turn s key file_idx offset size st) _
        (Ends-read_turn st) (λ e. absurd (ground (arith, w, e)))

  -- A read ends with a reply after two turns at most, whatever the account and the cache answer,
  -- if they answer, and however the wait for a repair ends: a turn starts the read again only
  -- where it has waited for a repair and the read had not before.
  pub read-is_answered : (st : ReadState) → is_answered (read s key file_idx offset size st) ≡ true
  unfolding read read_from
  read-is_answered st =
      let start : ReadState = record st { waited = false } in
      is_answered-next_turn false (read_turn s key file_idx offset size start) _
        (Ends-read_turn start) (λ e. is_answered-read_from)

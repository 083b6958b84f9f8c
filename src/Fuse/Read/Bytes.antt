-- ===== src/Fuse/Read/Bytes.antt =====
-- The bytes that a turn of `read` replies with.
use rd_rs.Prelude.{
  ℕ, zero, suc, ◌+◌, ◌-◌, ◌^◌, ◌≤◌, ◌<◌, min, ◌≡◌, refl, ◌∙◌, inl, inr, Bool, true, false, not,
  ◌&&◌, Option, none, some, List, String, arith, ltb, ◌==◌, get_elem?, Bool-cases,
}
use mathlib.Core.Option.{some-injective}
use rd_rs.Prelude.Slice.{slice}
use rd_rs.Prelude.Map.{lookup, string_keys}
use rd_rs.Torrent.Types.{File, TorrentInfo, Download, ManagedTorrent, selected_of}
use rd_rs.Torrent.Manager.{states_or_empty}
use rd_rs.Cache.ReadAt.{ReadResult, bytes, io_error, cancelled, download_failed}
use rd_rs.Repair.Account.{Answer, answered, failed, Log, unrestrict_link}
use rd_rs.Repair.Preflight.{is_broken}
use rd_rs.Repair.Engine.{Progress, ensure_torrent_info}
use rd_rs.Fuse.ReadBuffer.{VfsReadBuffer, cleared, PrepareRead, hit, miss, prepare_read}
use rd_rs.Fuse.ReadBuffer.Window.{IsWindow, Prepared, prepare_read-Prepared, keep_rest-slice}
use rd_rs.Fuse.Read.{
  Mount, data_of, enoent, eio, eintr, Turn, replied, again, ReadState, as_u64, FetchPlan, direct,
  buffered, is_fatal, is_corrupted, after_wait, wait_once, bad_link, broken_file, served, fetched,
  attempt, attempts, from_window, fetch_plan, with_link, with_file, with_details, with_found,
  read_turn,
}

-- The window, where there is one, holds a part of the file.
unfoldable pub IsWindowed : (ℕ → ℕ) → ℕ → Option VfsReadBuffer → Type 0
IsWindowed remote file_size none = Unit {0}
IsWindowed remote file_size (some b) = IsWindow remote file_size b

-- Data of a reply are these bytes of the file, and the window stays a part of it.
abbrev pub IsExact : (ℕ → ℕ) → ℕ → ℕ → ℕ → Turn × ReadState → Type 0
IsExact remote file_size offset need (replied (data_of bs), st) =
    (bs ≡ slice remote offset need) × IsWindowed remote file_size st.window
IsExact remote file_size offset need (replied enoent, st) = IsWindowed remote file_size st.window
IsExact remote file_size offset need (replied eio, st) = IsWindowed remote file_size st.window
IsExact remote file_size offset need (replied eintr, st) = IsWindowed remote file_size st.window
IsExact remote file_size offset need (again, st) = IsWindowed remote file_size st.window

-- What a read of the cache gives, if it gives bytes.
unfoldable pub AreGenuine : Mount → (ℕ → ℕ) → ℕ → Type 0
AreGenuine s remote file_size =
    (l : Log) (o n : ℕ) (bs : List ℕ)
    → s.fetch l o n ≡ bytes bs
    → bs ≡ slice remote o (min (o + n) file_size - o)

module _ (s : Mount) (remote : ℕ → ℕ) (file_size offset need : ℕ)
    (genuine : AreGenuine s remote file_size) where
  abbrev Exact : Turn × ReadState → Type 0
  Exact = IsExact remote file_size offset need

  abbrev Windowed : ReadState → Type 0
  Windowed st = IsWindowed remote file_size st.window

  -- The part of the file that the plan asks for is what the reply wants.
  abbrev Fits : FetchPlan → ℕ → ℕ → Type 0
  Fits direct o n = (o ≡ offset) × (min (o + n) file_size - o ≡ need)
  Fits (buffered k) o n =
      (o ≡ offset) × (k ≡ need) × (need ≤ n) × (o + n ≤ file_size) × (n < 2 ^ 32)

  Exact-after_wait : (r : Bool × Progress) (st : ReadState) → Windowed st → Exact (after_wait r st)
  Exact-after_wait (true, p) st w = w
  Exact-after_wait (false, p) st w = w

  Exact-wait_once : (st : ReadState) → Windowed st → Exact (wait_once s st)
  unfolding wait_once
  Exact-wait_once st w = elim (Bool-cases (not st.waited && ltb 0 s.wait_secs)) [
    | inl waits ↦ rw waits (Exact-after_wait (s.repaired st.progress) _ w)
    | inr stays ↦ rw stays w
  ]

  Exact-bad_link :
      (key path : String) (st : ReadState) → Windowed st → Exact (bad_link s key path st)
  unfolding bad_link
  Exact-bad_link key path st w = Exact-wait_once _ w

  Exact-broken_file : (key : String) (st : ReadState) → Windowed st → Exact (broken_file s key st)
  unfolding broken_file
  Exact-broken_file key st w = elim (Bool-cases (not st.waited && ltb 0 s.wait_secs)) [
    | inl waits ↦ rw waits (Exact-after_wait _ _ w)
    | inr stays ↦ rw stays w
  ]

  Exact-served :
      (plan : FetchPlan) (o n : ℕ) (bs : List ℕ) (st : ReadState)
      → Fits plan o n
      → bs ≡ slice remote o (min (o + n) file_size - o)
      → Windowed st
      → Exact (served plan o bs st)
  unfolding IsWindowed
  Exact-served direct o n bs st h e w = (e ∙ rw (h.1, h.0) refl, w)
  Exact-served (buffered k) o n bs st h e w =
      let whole : min (o + n) file_size - o ≡ n = omega (arith, h.3) in
      let all : bs ≡ slice remote offset n = e ∙ rw (whole, h.0) refl in
      let kept = keep_rest-slice remote offset need n file_size cleared h.2 h.4 (rw h.0 at h.3) in
      rw (all, h.0, h.1) (some-injective _ _ kept.0, kept.1)

  Exact-fetched :
      (plan : FetchPlan) (o n : ℕ) (a : ReadResult) (rest : Turn × ReadState) (st : ReadState)
      → Fits plan o n
      → ((bs : List ℕ) → a ≡ bytes bs → bs ≡ slice remote o (min (o + n) file_size - o))
      → Exact rest
      → Windowed st
      → Exact (fetched plan o a rest st)
  Exact-fetched plan o n (bytes bs) rest st h right r w =
      Exact-served plan o n bs st h (right bs refl) w
  Exact-fetched plan o n io_error rest st h right r w = w
  Exact-fetched plan o n cancelled rest st h right r w = w
  Exact-fetched plan o n download_failed rest st h right r w = r

  module _ (key : String) (f : File) (plan : FetchPlan) (o n : ℕ) (fits : Fits plan o n)
      (link : String) where
    Exact-attempt :
        (d : Answer Download) (rest : Turn × ReadState) (st : ReadState)
        → Exact rest
        → Windowed st
        → Exact (attempt s key f plan o n d rest st)
    unfolding AreGenuine
    Exact-attempt (failed e) rest st r w = elim (Bool-cases (is_fatal e)) [
      | inl fatal ↦ rw fatal (Exact-bad_link key f.path st w)
      | inr passes ↦ rw passes r
    ]
    Exact-attempt (answered dl) rest st r w = elim (Bool-cases (is_corrupted s.extension f dl)) [
      | inl bad ↦ rw bad (Exact-bad_link key f.path st w)
      | inr good ↦ rw good (Exact-fetched plan o n _ rest st fits (genuine st.progress.1 o n) r w)
    ]

    Exact-attempts :
        (left : ℕ) (st : ReadState) → Windowed st → Exact (attempts s key f plan o n link left st)
    unfolding attempts
    Exact-attempts zero st w = w
    Exact-attempts (suc left) st w =
        let d = unrestrict_link s.account link st.progress.1 in
        let st1 : ReadState = record st { progress = (st.progress.0, d.1) } in
        Exact-attempt d.0 (attempts s key f plan o n link left st1) st1 (Exact-attempts left st1 w)
          w

  module _ (key : String) (f : File) (size : ℕ) (small : size < 2 ^ 32)
      (sized : as_u64 f.bytes ≡ file_size) (bounded : file_size < 2 ^ 64)
      (wants : min size (file_size - offset) ≡ need) where
    Exact-from_window :
        (link : String) (r : PrepareRead) (b : VfsReadBuffer) (st : ReadState)
        → Prepared remote file_size offset need (r, b)
        → Exact (from_window s key f link (r, b) st)
    unfolding from_window IsWindowed
    Exact-from_window link (hit out) b st h = h
    Exact-from_window link (miss o n k) b st h =
        rw (let e : (n == 0) ≡ false = ground (arith, h.4) in e) (
          Exact-attempts key f (buffered k) o n (h.0, h.1, h.2, omega (arith, h.0, h.3), h.5) link 4
            _ h.6)

    Exact-fetch_plan :
        (link : String) (w : Option VfsReadBuffer) (st : ReadState)
        → w ≡ st.window
        → Windowed st
        → Exact (fetch_plan s key f offset size link w st)
    unfolding fetch_plan IsWindowed
    Exact-fetch_plan link none st e w =
        Exact-attempts key f direct offset size (refl, omega (arith, wants)) link 4 st w
    Exact-fetch_plan link (some b) st e w =
        let window : IsWindow remote file_size b = rw (← e) at w in
        let r = prepare_read offset size file_size s.buffer_size b in
        rw sized (
          Exact-from_window link r.0 r.1 st (
            rw wants at (
              prepare_read-Prepared remote offset size file_size s.buffer_size b small bounded
                window)))

    Exact-with_link :
        (o : Option String) (st : ReadState)
        → Windowed st
        → Exact (with_link s key f offset size o st)
    unfolding with_link
    Exact-with_link none st w = w
    Exact-with_link (some link) st w = elim (Bool-cases (s.opened st.progress.1)) [
      | inl there ↦ rw there (Exact-fetch_plan link st.window st refl w)
      | inr closed ↦ rw closed w
    ]

    Exact-with_file :
        (mt : ManagedTorrent) (info : TorrentInfo) (file_idx : ℕ) (st : ReadState)
        → Windowed st
        → Exact (with_file s key mt info file_idx offset size (some f) st)
    unfolding with_file
    Exact-with_file mt info file_idx st w = elim (Bool-cases (as_u64 f.bytes == 0)) [
      | inl empty ↦
          let none_left : need ≡ 0 = ground (arith, sized, wants, empty) in
          rw (empty, none_left) (refl, w)
      | inr filled ↦
          elim (Bool-cases (is_broken (lookup f.path (states_or_empty mt.file_states)))) [
            | inl broken ↦ rw (filled, broken) (Exact-broken_file key st w)
            | inr fine ↦ rw (filled, fine) (Exact-with_link _ st w)
          ]
    ]

-- A turn of `read`, where the torrent is found with its details, the file is a selected one of it,
-- its size and the size of the read fit their types, the window of the handle holds a part of the
-- remote file, and reads of the cache give none but the remote bytes: if the turn replies with
-- data, these are the bytes from the offset on, as many as asked for or as are left in the file;
-- and the window holds a part of the file afterwards, whatever the turn does.
pub read_turn-IsExact :
    (s : Mount) (remote : ℕ → ℕ) (key : String) (mt : ManagedTorrent) (info : TorrentInfo)
    (f : File) (file_idx : ℕ) (offset size : ℕ) (st : ReadState)
    → (ensure_torrent_info s.account key st.progress).0 ≡ some mt
    → mt.info ≡ some info
    → get_elem? (selected_of info.files) file_idx ≡ some f
    → as_u64 f.bytes < 2 ^ 64
    → size < 2 ^ 32
    → AreGenuine s remote (as_u64 f.bytes)
    → IsWindowed remote (as_u64 f.bytes) st.window
    → IsExact remote
        (as_u64 f.bytes)
        offset
        (min size (as_u64 f.bytes - offset))
        (read_turn s key file_idx offset size st)
unfolding read_turn with_found with_details
read_turn-IsExact s remote key mt info f file_idx offset size st found details there sized small
      genuine w =
    rw (found, details, there)
      (Exact-with_file s remote (as_u64 f.bytes) offset (min size (as_u64 f.bytes - offset)) genuine
        key f size small refl sized refl mt info file_idx _ w)

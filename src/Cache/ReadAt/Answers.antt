-- ===== src/Cache/ReadAt/Answers.antt =====
-- What a read answers.
use rd_rs.Prelude.{
  ℕ, ◌+◌, ◌-◌, ◌%◌, ◌^◌, ◌≤◌, ◌<◌, min, ◌≡◌, refl, inl, inr, Bool, true, false, not, ◌||◌, ◌&&◌,
  Option, none, some, List, [], ◌∷◌, arith, leb, leb→le, Bool-cases, if◌then◌else◌,
}
use rd_rs.Prelude.Slice.{slice}
use rd_rs.Cache.ByteRanges.{has_range}
use rd_rs.Cache.Item.{Item}
use rd_rs.Cache.Item.Integrity.{IsGenuine, read_from_file-slice}
use rd_rs.Cache.Session.{DownloadSession}
use rd_rs.Cache.ReadAt.{end_of}
use rd_rs.Cache.ReadAt.{
  ReadResult, bytes, io_error, cancelled, download_failed, Round, Held, after_timeout, read_part,
  answer, wait_loop, read_at,
}

-- The item to read from is genuine, has the size of the file, and counts the range as present if
-- the round saw it so.
pub record IsFaithful (remote : ℕ → ℕ) (file_size offset end : ℕ) (r : Round) : Type 0 where
  pub genuine : IsGenuine remote r.to_read
  pub size : r.to_read.file_size ≡ file_size
  pub since_before :
      has_range r.before.ranges offset end ≡ true → has_range r.to_read.ranges offset end ≡ true
  pub since_after :
      has_range r.after.ranges offset end ≡ true → has_range r.to_read.ranges offset end ≡ true
  pub since_end :
      has_range r.at_end.ranges offset end ≡ true → has_range r.to_read.ranges offset end ≡ true

unfoldable pub AllFaithful : (ℕ → ℕ) → ℕ → ℕ → ℕ → List Round → Type 0
AllFaithful remote file_size offset end [] = Unit {0}
AllFaithful remote file_size offset end (r ∷ rounds) =
    IsFaithful remote file_size offset end r × AllFaithful remote file_size offset end rounds

-- An answer that is right: the bytes of the remote file; or no bytes at all for a read that was
-- cancelled, or whose download failed, or that could not read the file on the disk.
abbrev pub IsRight : Bool → (ℕ → ℕ) → ℕ → ℕ → Option (ReadResult × List DownloadSession) → Type 0
IsRight readable remote offset end none = Unit {0}
IsRight readable remote offset end (some ((bytes bs), s)) = bs ≡ slice remote offset (end - offset)
IsRight readable remote offset end (some (io_error, s)) = readable ≡ false
IsRight readable remote offset end (some (cancelled, s)) = Unit {0}
IsRight readable remote offset end (some (download_failed, s)) = Unit {0}

module _ (readable : Bool) (remote : ℕ → ℕ) (file_size offset end : ℕ) (from : offset ≤ end)
    (upto : end ≤ file_size) (narrow : end - offset < 2 ^ 32) where
  IsRight-read_part :
      (s : List DownloadSession) (i : Item)
      → IsGenuine remote i
      → i.file_size ≡ file_size
      → has_range i.ranges offset end ≡ true
      → IsRight readable remote offset end (some (read_part readable offset end i, s))
  unfolding read_part
  IsRight-read_part s i g size h =
      let n = end - offset in
      let sum : offset + n ≡ end = omega (arith, from) in
      let fits : (end - offset) % 2 ^ 32 ≡ n = omega (arith, narrow) in
      let given =
        read_from_file-slice readable remote offset n i g (rw sum h)
          (omega (arith, size, upto, from)) in
      elim (Bool-cases readable) [
        | inl can ↦ rw (fits, given, can) refl
        | inr cannot ↦ rw (fits, given, cannot) refl
      ]

  IsRight-answer :
      (s : List DownloadSession) (r : Round) (seen : Bool)
      → IsFaithful remote file_size offset end r
      → (seen ≡ true → has_range r.to_read.ranges offset end ≡ true)
      → IsRight readable remote offset end (some (answer readable offset end r seen, s))
  unfolding answer
  IsRight-answer s r true f h = IsRight-read_part s r.to_read f.genuine f.size (h refl)
  IsRight-answer s r false f h = elim (Bool-cases r.cancelled_at_end) [
    | inl gone ↦ rw gone tt
    | inr still ↦ rw still tt
  ]

  IsRight-wait_loop :
      (fetch_until : ℕ) (h : Held) (rounds : List Round)
      → AllFaithful remote file_size offset end rounds
      → IsRight readable remote offset end (wait_loop readable offset end fetch_until h rounds)
  unfolding wait_loop AllFaithful
  IsRight-wait_loop fetch_until h [] f = tt
  IsRight-wait_loop fetch_until h (r ∷ rounds) f = elim (Bool-cases r.is_cancelled) [
    | inl gone ↦ rw gone tt
    | inr still ↦ elim (Bool-cases (has_range r.before.ranges offset end)) [
      | inl seen ↦ rw (still, seen) (IsRight-answer _ r true f.0 (λ e. f.0.since_before seen))
      | inr missing ↦ elim (Bool-cases (has_range r.after.ranges offset end)) [
        | inl seen ↦
            rw (still, missing, seen) (IsRight-answer _ r true f.0 (λ e. f.0.since_after seen))
        | inr waits ↦
            elim (Bool-cases (
              if (after_timeout offset fetch_until r h).is_own
              then r.is_finished
              else not r.still_registered)) [
                | inl over ↦
                    rw (still, missing, waits, over)
                      (IsRight-answer _ r (has_range r.at_end.ranges offset end) f.0 f.0.since_end)
                | inr goes_on ↦
                    rw (still, missing, waits, goes_on)
                      (IsRight-wait_loop fetch_until (after_timeout offset fetch_until r h) rounds
                        f.1)
              ]
      ]
    ]
  ]

-- The worker has finished and its session is gone.
abbrev pub any_over : List Round → Bool
any_over [] = false
any_over (r ∷ rounds) = (r.is_finished && not r.still_registered) || any_over rounds

abbrev pub is_given : Option (ReadResult × List DownloadSession) → Bool
is_given none = false
is_given (some a) = true

-- A loop that goes on has a worker at work, of its own or of the session that it joined.
goes_on_over :
    (owns finished registered : Bool)
    → (if owns then finished else not registered) ≡ false
    → (finished && not registered) ≡ false
goes_on_over true finished registered h = rw h refl
goes_on_over false finished registered h = ground (arith, h)

is_given-wait_loop :
    (readable : Bool) (offset end fetch_until : ℕ) (h : Held) (rounds : List Round)
    → any_over rounds ≡ true
    → is_given (wait_loop readable offset end fetch_until h rounds) ≡ true
unfolding wait_loop
is_given-wait_loop readable offset end fetch_until h [] e = absurd (ground (arith, e))
is_given-wait_loop readable offset end fetch_until h (r ∷ rounds) e =
    elim (Bool-cases r.is_cancelled) [
      | inl gone ↦ rw gone refl
      | inr still ↦ elim (Bool-cases (has_range r.before.ranges offset end)) [
        | inl seen ↦ rw (still, seen) refl
        | inr missing ↦ elim (Bool-cases (has_range r.after.ranges offset end)) [
          | inl seen ↦ rw (still, missing, seen) refl
          | inr waits ↦
              elim (Bool-cases (
                if (after_timeout offset fetch_until r h).is_own
                then r.is_finished
                else not r.still_registered)) [
                  | inl over ↦ rw (still, missing, waits, over) refl
                  | inr goes_on ↦
                      let here =
                        goes_on_over (after_timeout offset fetch_until r h).is_own r.is_finished
                          r.still_registered goes_on in
                      rw (still, missing, waits, goes_on)
                        (is_given-wait_loop readable offset end fetch_until
                          (after_timeout offset fetch_until r h) rounds (rw here at e))
                ]
        ]
      ]
    ]

is_given-read_at :
    (readable : Bool) (task offset size read_ahead : ℕ) (i : Item) (workers : List DownloadSession)
    (rounds : List Round)
    → any_over rounds ≡ true
    → is_given (read_at readable task offset size read_ahead i workers rounds) ≡ true
unfolding read_at
is_given-read_at readable task offset size read_ahead i workers rounds h =
    let end = end_of offset size i.file_size in
    elim (Bool-cases (leb i.file_size offset)) [
      | inl past ↦ rw past refl
      | inr inside ↦ elim (Bool-cases (has_range i.ranges offset end)) [
        | inl here ↦ rw (inside, here) refl
        | inr missing ↦ rw (inside, missing) (is_given-wait_loop readable offset end _ _ rounds h)
      ]
    ]

IsRight-read_at :
    (readable : Bool) (remote : ℕ → ℕ) (task offset size read_ahead : ℕ) (i : Item)
    (workers : List DownloadSession) (rounds : List Round)
    → IsGenuine remote i
    → offset + size < 2 ^ 64
    → size < 2 ^ 32
    → AllFaithful remote i.file_size offset (min (offset + size) i.file_size) rounds
    → IsRight readable remote offset
        (min (offset + size) i.file_size)
        (read_at readable task offset size read_ahead i workers rounds)
unfolding read_at
IsRight-read_at readable remote task offset size read_ahead i workers rounds g fits narrow f =
    let end = min (offset + size) i.file_size in
    let whole : (offset + size) % 2 ^ 64 ≡ offset + size = omega (arith, fits) in
    elim (Bool-cases (leb i.file_size offset)) [
      | inl over ↦
          let past = leb→le i.file_size offset over in
          let nothing : end - offset ≡ 0 = omega (arith, past) in rw (whole, over, nothing) refl
      | inr under ↦
          let inside : offset < i.file_size = ground (arith, under) in
          let from : offset ≤ end = omega (arith, inside) in
          let upto : end ≤ i.file_size = omega arith in
          let short : end - offset < 2 ^ 32 = omega (arith, narrow) in
          elim (Bool-cases (has_range i.ranges offset end)) [
            | inl here ↦
                rw (whole, under, here)
                  (IsRight-read_part readable remote i.file_size offset end from upto short _ i g
                    refl here)
            | inr missing ↦
                rw (whole, under, missing)
                  (IsRight-wait_loop readable remote i.file_size offset end from upto short _ _
                    rounds f)
          ]
    ]

-- A read whose end fits in 64 bits and whose size fits in 32, of a genuine item and through rounds
-- that are faithful to it, answers by the round in which its worker has finished and is
-- registered no more, if there is one; and its answer, then or before, is the bytes of the remote
-- file from its offset to the file's end or its own, or that it was cancelled, or that the
-- download failed, or an I/O error, this only if the file on the disk cannot be read.
pub read_at-IsRight :
    (readable : Bool) (remote : ℕ → ℕ) (task offset size read_ahead : ℕ) (i : Item)
    (workers : List DownloadSession) (rounds : List Round)
    → IsGenuine remote i
    → offset + size < 2 ^ 64
    → size < 2 ^ 32
    → AllFaithful remote i.file_size offset (min (offset + size) i.file_size) rounds
    → let answered = read_at readable task offset size read_ahead i workers rounds in
      IsRight readable remote offset (min (offset + size) i.file_size) answered
      × (any_over rounds ≡ true → is_given answered ≡ true)
read_at-IsRight readable remote task offset size read_ahead i workers rounds g fits narrow f = (
  IsRight-read_at readable remote task offset size read_ahead i workers rounds g fits narrow f,
  is_given-read_at readable task offset size read_ahead i workers rounds,
)

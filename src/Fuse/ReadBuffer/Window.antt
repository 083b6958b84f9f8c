-- ===== src/Fuse/ReadBuffer/Window.antt =====
-- The window only ever holds the file's bytes at its position, so buffered reads are exact.
use rd_rs.Prelude.{
  ℕ, ◌+◌, ◌-◌, ◌%◌, ◌^◌, ◌≤◌, ◌<◌, min, ◌≡◌, refl, sym, ap, ◌∙◌, false, not, ◌&&◌, ◌⊎◌, inl, inr,
  Option, some, List, [], ◌∷◌, arith, leb, ◌==◌, if◌then◌else◌, length, take, drop, Bool-cases,
  ==_iff,
}
use rd_rs.Prelude.Slice.{slice, length-slice, take-slice, drop-slice}
use rd_rs.Fuse.ReadBuffer.{
  VfsReadBuffer, cleared, need_len, compute_fill_len, PrepareRead, hit, miss, prepare_read,
  after_fetch, buffered_read, is_empty, serve, at_offset, keep_rest, reply_of,
}

-- The window holds the part of the file at `buf_start`, within the file's size.
pub record IsWindow (f : ℕ → ℕ) (file_size : ℕ) (b : VfsReadBuffer) : Type 0 where
  pub bytes : b.contents ≡ slice f b.buf_start (length b.contents)
  pub within : (b.contents ≡ []) ⊎ (b.buf_start + length b.contents ≤ file_size)

-- What is asked for is the part of `[offset, offset + size)` within the file, for a `u32` size and
-- a file size that fits a `u64`.
pub need_len_lem :
    (offset size file_size : ℕ)
    → size < 2 ^ 32
    → file_size < 2 ^ 64
    → need_len offset size file_size ≡ min size (file_size - offset)
unfolding need_len
need_len_lem offset size file_size p q = omega arith

cleared-IsWindow : (f : ℕ → ℕ) (file_size : ℕ) → IsWindow f file_size cleared
cleared-IsWindow f file_size = record { bytes = refl; within = inl refl }

-- A fetch is bounded by the file's end, and at least what is asked for, unless nothing is.
pub compute_fill_len_bounds :
    (offset need file_size buffer_size : ℕ)
    → need ≤ file_size - offset
    → need < 2 ^ 32
    → (need ≤ compute_fill_len offset need file_size buffer_size)
      × (compute_fill_len offset need file_size buffer_size ≤ file_size - offset)
      × (compute_fill_len offset need file_size buffer_size < 2 ^ 32)
unfolding compute_fill_len
compute_fill_len_bounds offset need file_size buffer_size p q = ground arith

-- A part of the file within its size is a window.
slice-IsWindow :
    (f : ℕ → ℕ) (file_size start n : ℕ) (c : List ℕ)
    → c ≡ slice f start n
    → start + n ≤ file_size
    → IsWindow f file_size (record { buf_start = start; contents = c })
slice-IsWindow f file_size start n c e h =
    let l : length c ≡ n = ap length e ∙ length-slice f start n in
    record { bytes = e ∙ ap (slice f start) (sym l); within = inr (omega (arith, l)) }

-- What `prepare_read` may answer for the need of a read at `offset`.
abbrev pub Prepared : (ℕ → ℕ) → ℕ → ℕ → ℕ → PrepareRead × VfsReadBuffer → Type 0
Prepared f file_size offset need (hit out, b) = (out ≡ slice f offset need) × IsWindow f file_size b
Prepared f file_size offset need (miss o n k, b) =
    (o ≡ offset)
    × (k ≡ need)
    × (need ≤ n)
    × (offset + n ≤ file_size)
    × (0 < n)
    × (n < 2 ^ 32)
    × IsWindow f file_size b

nonempty : (c : List ℕ) → (c ≡ []) ⊎ (is_empty c ≡ false)
nonempty [] = inl refl
nonempty (x ∷ xs) = inr refl

IsWindow-or_cleared :
    {f : ℕ → ℕ} {file_size : ℕ} (b : VfsReadBuffer)
    → IsWindow f file_size b
    → IsWindow f file_size (if is_empty b.contents then b else cleared)
IsWindow-or_cleared {f} {file_size} b w = ground (arith, cleared-IsWindow f file_size)

serve-Prepared :
    (f : ℕ → ℕ) (need offset file_size buffer_size : ℕ) (b : VfsReadBuffer)
    → IsWindow f file_size b
    → (b.contents ≡ []) ⊎ (b.buf_start ≡ offset)
    → 0 < need
    → need ≤ file_size - offset
    → need < 2 ^ 32
    → Prepared f file_size offset need (serve need offset file_size buffer_size b)
serve-Prepared f need offset file_size buffer_size b w at pos le small =
    elim (Bool-cases (not (is_empty b.contents) && leb need (length b.contents))) [
      | inl q ↦
          let n = length b.contents in
          let start : b.buf_start ≡ offset = ground arith in
          let enough : need ≤ n = ground arith in
          let fits : b.buf_start + n ≤ file_size = ground arith in
          rw q (
            ap (take need) w.bytes
                ∙ take-slice f need b.buf_start n
                ∙ rw (start, let e : min need n ≡ need = omega arith in e),
            slice-IsWindow f file_size (b.buf_start + need) (n - need) (drop need b.contents)
                (ap (drop need) w.bytes ∙ drop-slice f need b.buf_start n) (omega arith),
          )
      | inr q ↦
          let bounds = compute_fill_len_bounds offset need file_size buffer_size le small in
          rw q (
            refl,
            refl,
            bounds.0,
            omega (arith, bounds),
            omega (arith, bounds),
            bounds.2,
            IsWindow-or_cleared b w,
          )
    ]

at_offset-IsWindow :
    {f : ℕ → ℕ} {file_size : ℕ} (offset : ℕ) (b : VfsReadBuffer)
    → IsWindow f file_size b
    → IsWindow f file_size (at_offset offset b)
unfolding at_offset
at_offset-IsWindow {f} {file_size} offset b w = ground (arith, cleared-IsWindow f file_size)

at_offset_lem :
    (offset : ℕ) (b : VfsReadBuffer)
    → ((at_offset offset b).contents ≡ []) ⊎ ((at_offset offset b).buf_start ≡ offset)
unfolding at_offset
at_offset_lem offset b = ground (arith, nonempty b.contents)

pub prepare_read-Prepared :
    (f : ℕ → ℕ) (offset size file_size buffer_size : ℕ) (b : VfsReadBuffer)
    → size < 2 ^ 32
    → file_size < 2 ^ 64
    → IsWindow f file_size b
    → Prepared f file_size offset
        (min size (file_size - offset))
        (prepare_read offset size file_size buffer_size b)
unfolding prepare_read
prepare_read-Prepared f offset size file_size buffer_size b p q w =
    rw (need_len_lem offset size file_size p q)
      (elim (Bool-cases (min size (file_size - offset) == 0)) [
        | inl none_needed ↦
            rw (none_needed, (==_iff (min size (file_size - offset)) 0).0 none_needed) (refl, w)
        | inr some_needed ↦ rw some_needed (
            serve-Prepared f (min size (file_size - offset)) offset file_size buffer_size
              (at_offset offset b) (at_offset-IsWindow offset b w) (at_offset_lem offset b)
              (ground arith) (omega arith) (omega arith))
      ])

pub keep_rest-slice :
    (f : ℕ → ℕ) (offset need n file_size : ℕ) (b : VfsReadBuffer)
    → need ≤ n
    → n < 2 ^ 32
    → offset + n ≤ file_size
    → let (reply, b') = keep_rest offset need b (some (slice f offset n)) in
      (reply ≡ some (slice f offset need)) × IsWindow f file_size b'
unfolding after_fetch
keep_rest-slice f offset need n file_size b p q r =
    rw
      (
        length-slice f offset n,
        take-slice f (min need n) offset n,
        let e : min (min need n) n ≡ need = omega arith in e,
        let e : min need (n % 2 ^ 32) ≡ need = omega arith in e,
      )
      (
        refl,
        slice-IsWindow f file_size (offset + need) (n - need) _ (drop-slice f need offset n)
            (omega arith),
      )

reply_of-slice :
    (f : ℕ → ℕ) (fetch : ℕ → ℕ → Option (List ℕ)) (offset need file_size : ℕ) (r : PrepareRead)
    (b : VfsReadBuffer)
    → ((o n : ℕ) → o + n ≤ file_size → fetch o n ≡ some (slice f o n))
    → Prepared f file_size offset need (r, b)
    → let (reply, b') = reply_of fetch (r, b) in
      (reply ≡ some (slice f offset need)) × IsWindow f file_size b'
reply_of-slice f fetch offset need file_size (hit out) b fetched h = (ap some h.0, h.1)
reply_of-slice f fetch offset need file_size (miss o n k) b fetched h =
    rw (h.0, h.1, let e : (n == 0) ≡ false = ground arith in e, fetched offset n h.3)
      (keep_rest-slice f offset need n file_size b h.2 h.5 h.3)

-- A buffered read of a file whose size fits a `u64`, from a window of that file, where `read_at`
-- succeeds and gives the bytes asked for: the reply is exactly the bytes of
-- `[offset, offset + size)` that the file has, whatever the window held, and the window is again a
-- part of the file.
pub buffered_read-slice :
    (f : ℕ → ℕ) (fetch : ℕ → ℕ → Option (List ℕ)) (offset size file_size buffer_size : ℕ)
    (b : VfsReadBuffer)
    → size < 2 ^ 32
    → file_size < 2 ^ 64
    → IsWindow f file_size b
    → ((o n : ℕ) → o + n ≤ file_size → fetch o n ≡ some (slice f o n))
    → let (reply, b') = buffered_read fetch offset size file_size buffer_size b in
      (reply ≡ some (slice f offset (min size (file_size - offset)))) × IsWindow f file_size b'
unfolding buffered_read
buffered_read-slice f fetch offset size file_size buffer_size b p q w fetched =
    reply_of-slice f fetch offset (min size (file_size - offset)) file_size _ _ fetched
      (prepare_read-Prepared f offset size file_size buffer_size b p q w)

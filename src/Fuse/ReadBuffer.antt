-- ===== src/Fuse/ReadBuffer.antt =====
-- `VfsReadBuffer` of src/fuse/vfs_read_buffer.rs: the read-ahead window of one file handle, and
-- the part of `read` (src/fuse/read.rs) that replies from it.
pub mod Window
use rd_rs.Prelude.{
  ℕ, zero, suc, ◌+◌, ◌-◌, ◌*◌, ◌%◌, ◌^◌, min, max, Bool, true, false, not, ◌&&◌, Option, none, some,
  List, [], ◌∷◌, ltb, leb, ◌==◌, if◌then◌else◌, length, take, drop,
}

abbrev pub min_buffer_size : ℕ
min_buffer_size = 64 * 1024

abbrev pub max_buffer_size : ℕ
max_buffer_size = 512 * 1024 * 1024

abbrev pub u32_max : ℕ
u32_max = 2 ^ 32 - 1

abbrev pub u64_max : ℕ
u64_max = 2 ^ 64 - 1

unfoldable pub clamp_buffer_size : ℕ → ℕ
clamp_buffer_size configured = min (max configured min_buffer_size) max_buffer_size

-- `data` is the file's bytes from `buf_start` on.
pub record VfsReadBuffer : Type 0 where
  pub buf_start : ℕ
  pub contents : List ℕ

abbrev pub cleared : VfsReadBuffer
cleared = record { buf_start = 0; contents = [] }

-- `offset.saturating_add(size).min(file_size).saturating_sub(offset).min(u32::MAX)`
unfoldable pub need_len : ℕ → ℕ → ℕ → ℕ
need_len offset size file_size = min (min (min (offset + size) u64_max) file_size - offset) u32_max

unfoldable pub compute_fill_len : ℕ → ℕ → ℕ → ℕ → ℕ
compute_fill_len offset need file_size buffer_size =
    let remaining = file_size - offset in
    if remaining == 0 then 0 else min (min remaining (max buffer_size need)) u32_max

pub data PrepareRead : Type 0 where
  hit : List ℕ → PrepareRead
  miss : ℕ → ℕ → ℕ → PrepareRead

abbrev pub is_empty : List ℕ → Bool
is_empty [] = true
is_empty (b ∷ bs) = false

-- A window at another offset is dropped.
unfoldable pub at_offset : ℕ → VfsReadBuffer → VfsReadBuffer
at_offset offset b = if not (is_empty b.contents) && not (offset == b.buf_start) then cleared else b

-- `prepare_read` once the window is not at another offset.
abbrev pub serve : ℕ → ℕ → ℕ → ℕ → VfsReadBuffer → PrepareRead × VfsReadBuffer
serve need offset file_size buffer_size b =
    if not (is_empty b.contents) && leb need (length b.contents)
    then (
      hit (take need b.contents),
      record { buf_start = b.buf_start + need; contents = drop need b.contents },
    )
    else (
      miss offset (compute_fill_len offset need file_size buffer_size) need,
      (if is_empty b.contents then b else cleared),
    )

unfoldable pub prepare_read : ℕ → ℕ → ℕ → ℕ → VfsReadBuffer → PrepareRead × VfsReadBuffer
unfolding need_len compute_fill_len
prepare_read offset size file_size buffer_size b =
    let need = need_len offset size file_size in
    if need == 0 then (hit [], b) else serve need offset file_size buffer_size (at_offset offset b)

-- `take.min(filled.len() as u32)`, the length being cut to 32 bits.
unfoldable pub after_fetch : ℕ → List ℕ → ℕ → VfsReadBuffer
after_fetch fill_offset filled n =
    let kept = min n (length filled % 2 ^ 32) in
    record { buf_start = fill_offset + kept; contents = drop kept filled }

-- One buffered `read`: a hit replies from the window; a miss replies with the first bytes of what
-- `read_at` fetches, and keeps the rest. `fetch` stands for `read_at`; `none` is its error.
abbrev pub keep_rest : ℕ → ℕ → VfsReadBuffer → Option (List ℕ) → Option (List ℕ) × VfsReadBuffer
keep_rest fill_offset n b none = (none, b)
keep_rest fill_offset n b (some filled) =
    (some (take (min n (length filled)) filled), after_fetch fill_offset filled n)

abbrev pub reply_of :
    (ℕ → ℕ → Option (List ℕ)) → PrepareRead × VfsReadBuffer → Option (List ℕ) × VfsReadBuffer
reply_of fetch (hit out, b) = (some out, b)
reply_of fetch (miss fill_offset fill_len n, b) =
    if fill_len == 0 then (some [], b) else keep_rest fill_offset n b (fetch fill_offset fill_len)

unfoldable pub buffered_read :
    (ℕ → ℕ → Option (List ℕ)) → ℕ → ℕ → ℕ → ℕ → VfsReadBuffer → Option (List ℕ) × VfsReadBuffer
unfolding prepare_read after_fetch
buffered_read fetch offset size file_size buffer_size b =
    reply_of fetch (prepare_read offset size file_size buffer_size b)

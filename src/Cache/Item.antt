-- ===== src/Cache/Item.antt =====
-- `CacheItem` of src/cache/item.rs: one sparse file, the ranges of it that are on disk, its open
-- handles, and the debounced copy of the ranges in `cache_ranges.db`. The clock, and whether the
-- file system or the database fails, are arguments.
pub mod Disk
pub mod Integrity
pub mod Persist
use rd_rs.Prelude.{
  ℕ, zero, suc, ◌+◌, ◌-◌, ◌%◌, ◌^◌, min, Bool, true, false, not, ◌&&◌, ◌||◌, Option, none, some,
  List, [], ◌∷◌, ◌++◌, String, ltb, leb, ◌==◌, if◌then◌else◌, length, take, drop, replicate,
}
use rd_rs.Prelude.Int.{as_i64}
use rd_rs.Cache.ByteRanges.{ByteRanges, new, insert, has_range}
use rd_rs.Cache.RangeDb.{RangeRow, Got, decode_error, ok, Table, get, upsert, delete_keys}

-- `File::set_len`: cut, or extend by zero bytes.
unfoldable pub set_len : ℕ → List ℕ → List ℕ
set_len n bytes = take n bytes ++ replicate (n - length bytes) 0

-- `seek` and `write_all`: what lies between is kept, a gap past the end reads as zero bytes.
unfoldable pub write_at : ℕ → List ℕ → List ℕ → List ℕ
write_at zero written [] = written
write_at zero [] (b ∷ bytes) = b ∷ bytes
write_at zero (w ∷ written) (b ∷ bytes) = w ∷ write_at zero written bytes
write_at (suc offset) written [] = 0 ∷ write_at offset written []
write_at (suc offset) written (b ∷ bytes) = b ∷ write_at offset written bytes

-- `seek` and `read_exact` of so many bytes: an error if the file ends before.
unfoldable pub read_exact : ℕ → ℕ → List ℕ → Option (List ℕ)
read_exact offset n bytes =
    if n == 0 || leb (offset + n) (length bytes) then some (take n (drop offset bytes)) else none

pub record Item : Type 0 where
  pub disk : List ℕ
  pub file_size : ℕ
  pub ranges : ByteRanges
  pub opens : ℕ
  pub atime : ℕ
  pub downloaded_bytes : ℕ
  pub cache_key : String
  pub persist_dirty : Bool
  pub last_persist_unix : ℕ

abbrev pub flush_debounce : ℕ
flush_debounce = 2

abbrev pub fresh : String → ℕ → ℕ → List ℕ → ByteRanges → Item
fresh key size now disk ranges = record {
  disk = disk;
  file_size = size;
  ranges = ranges;
  opens = 0;
  atime = now;
  downloaded_bytes = 0;
  cache_key = key;
  persist_dirty = false;
  last_persist_unix = now;
}

-- The part of `open_or_create_with_db` that follows the query of the database. `purged` tells
-- whether the deletion of stale rows succeeded.
abbrev pub restore : String → ℕ → ℕ → Bool → List ℕ → Table → Got → Option (Item × Table)
restore key size now purged disk t decode_error = none
restore key size now purged disk t (ok none) = some (fresh key size now disk new, t)
restore key size now purged disk t (ok (some row)) =
    if row.file_size == size
    then some (fresh key size now disk row.ranges, t)
    else some
        (fresh key size now (set_len size disk) new, if purged then delete_keys (key ∷ []) t else t)

-- `bytes` is the file found on disk, and empty if there is none. `none` is an error.
unfoldable pub open_or_create_with_db :
    String → ℕ → ℕ → Bool → List ℕ → Table → Option (Item × Table)
unfolding set_len
open_or_create_with_db key size now purged bytes t =
    let disk = if length bytes == size then bytes else set_len size bytes in
    restore key size now purged disk t (get key t)

-- `CacheItem::open`
unfoldable pub open_item : ℕ → Item → Item
open_item now i = record i { opens = (i.opens + 1) % 2 ^ 32; atime = now }

-- `stored` tells whether the upsert succeeds.
unfoldable pub flush_ranges : Bool → ℕ → Bool → Item × Table → Item × Table
flush_ranges force now stored (i, t) =
    if not i.persist_dirty
    then (i, t)
    else if not force && ltb (now - i.last_persist_unix) flush_debounce
    then (i, t)
    else if stored
    then (
      record i { last_persist_unix = now; persist_dirty = false },
      upsert i.cache_key i.file_size (as_i64 now) i.ranges t,
    )
    else (i, t)

-- The last handle that goes flushes the ranges.
unfoldable pub release : ℕ → Bool → Item × Table → Item × Table
unfolding flush_ranges
release now stored (i, t) =
    let i' = record i { opens = i.opens - 1 } in
    if i.opens == 1 then flush_ranges true now stored (i', t) else (i', t)

abbrev pub is_open : Item → Bool
is_open i = ltb 0 i.opens

-- `readable` tells whether the file can be opened, the offset found and the bytes there read.
unfoldable pub read_from_file : Bool → ℕ → ℕ → Item → Option (List ℕ)
unfolding read_exact
read_from_file readable offset size i =
    if readable then read_exact offset (min size (i.file_size - offset)) i.disk else none

-- How a write to the file ends: all bytes written, or an error after some of them (none, if the
-- file cannot be opened).
pub data Written : Type 0 where
  all_bytes : Written
  failed_after : ℕ → Written

-- The state after the bytes are in the file: the range counts as present, and as not yet persisted.
unfoldable pub record_write : ℕ → List ℕ → Item → Item
unfolding write_at
record_write offset bytes i = record i {
  disk = write_at offset bytes i.disk;
  ranges = insert i.ranges offset ((offset + length bytes) % 2 ^ 64);
  persist_dirty = true;
  downloaded_bytes = (i.downloaded_bytes + length bytes) % 2 ^ 64;
}

-- `Ok` is `true`.
unfoldable pub write_range : ℕ → List ℕ → Written → ℕ → Bool → Item × Table → Bool × Item × Table
write_range offset [] w now stored (i, t) = (true, i, t)
write_range offset (b ∷ bs) (failed_after n) now stored (i, t) =
    (false, record i { disk = write_at offset (take n (b ∷ bs)) i.disk }, t)
write_range offset (b ∷ bs) all_bytes now stored (i, t) =
    let (i', t') = flush_ranges false now stored (record_write offset (b ∷ bs) i, t) in
    (true, i', t')

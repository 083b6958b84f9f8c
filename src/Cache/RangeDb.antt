-- ===== src/Cache/RangeDb.antt =====
-- `RangeDb` of src/cache/range_db.rs: the table `cache_ranges`, whose rows hold the intervals of a
-- cache file as a packed little-endian blob. The SQL statements are modelled by what they do to
-- the table; that SQLite runs them is assumed, and its failures are left to the callers.
pub mod Blob
pub mod Table
use text.Mathlib.Text.{◌==◌ as str_eq}
use rd_rs.Prelude.{
  ℕ, zero, suc, ◌+◌, ◌*◌, ◌/◌, ◌%◌, Bool, true, false, Option, none, some, List, [], ◌∷◌, ◌++◌,
  String, ◌==◌, if◌then◌else◌, length, take, drop,
}
use rd_rs.Prelude.Int.{ℤ, as_i64, max_0_as_u64}
use rd_rs.Cache.ByteRanges.{Interval, ByteRanges, from_intervals}

-- `to_le_bytes` of an integer of `k` bytes, and `from_le_bytes`.
unfoldable pub to_le_bytes : ℕ → ℕ → List ℕ
to_le_bytes zero n = []
to_le_bytes (suc k) n = n % 256 ∷ to_le_bytes k (n / 256)

unfoldable pub from_le_bytes : List ℕ → ℕ
from_le_bytes [] = 0
from_le_bytes (b ∷ rest) = b + 256 * from_le_bytes rest

unfoldable pub encode_ranges_blob : List Interval → List ℕ
unfolding to_le_bytes
encode_ranges_blob [] = []
encode_ranges_blob ((start, end) ∷ rest) =
    to_le_bytes 8 start ++ (to_le_bytes 8 end ++ encode_ranges_blob rest)

-- The loop over `chunks_exact(16)`, for so many chunks.
unfoldable pub decode_chunks : ℕ → List ℕ → List Interval
unfolding from_le_bytes
decode_chunks zero blob = []
decode_chunks (suc n) blob =
    let chunk = take 16 blob in
    (from_le_bytes (take 8 chunk), from_le_bytes (drop 8 chunk)) ∷ decode_chunks n (drop 16 blob)

-- `none` is the error for a length that is not a multiple of 16.
unfoldable pub decode_ranges_blob : List ℕ → Option (List Interval)
unfolding decode_chunks
decode_ranges_blob blob =
    if length blob % 16 == 0 then some (decode_chunks (length blob / 16) blob) else none

abbrev pub schema_version : ℕ
schema_version = 2

-- A row of `cache_ranges`, less its key.
pub record Columns : Type 0 where
  pub file_size : ℤ
  pub updated_at : ℤ
  pub ranges_blob : List ℕ
  pub version : ℕ

-- `cache_key TEXT PRIMARY KEY`: at most one row for a key.
abbrev pub Table : Type 0
Table = List (String × Columns)

unfoldable pub select : String → Table → Option Columns
select key [] = none
select key ((k, c) ∷ rows) = if str_eq k key then some c else select key rows

-- `INSERT … ON CONFLICT(cache_key) DO UPDATE SET …`
unfoldable pub insert_or_update : String → Columns → Table → Table
insert_or_update key c [] = (key, c) ∷ []
insert_or_update key c ((k, d) ∷ rows) =
    if str_eq k key then (k, c) ∷ rows else (k, d) ∷ insert_or_update key c rows

unfoldable pub is_in : String → List String → Bool
is_in key [] = false
is_in key (k ∷ keys) = if str_eq k key then true else is_in key keys

-- `DELETE … WHERE cache_key IN (…)`; of no keys at all, the source returns before it.
unfoldable pub delete_keys : List String → Table → Table
delete_keys keys [] = []
delete_keys keys ((k, c) ∷ rows) =
    if is_in k keys then delete_keys keys rows else (k, c) ∷ delete_keys keys rows

pub record RangeRow : Type 0 where
  pub file_size : ℕ
  pub updated_at : ℤ
  pub ranges : ByteRanges

-- The outcome of `get`: an error, or perhaps a row.
pub data Got : Type 0 where
  decode_error : Got
  ok : Option RangeRow → Got

abbrev to_row : Columns → Option (List Interval) → Got
to_row c none = decode_error
to_row c (some parsed) = ok (
    some (record {
      file_size = max_0_as_u64 c.file_size;
      updated_at = c.updated_at;
      ranges = from_intervals parsed;
    }))

-- `get` past its query.
abbrev read_columns : Option Columns → Got
read_columns none = ok none
read_columns (some c) =
    if c.version == schema_version then to_row c (decode_ranges_blob c.ranges_blob) else ok none

unfoldable pub get : String → Table → Got
unfolding decode_ranges_blob select
get key t = read_columns (select key t)

unfoldable pub upsert : String → ℕ → ℤ → ByteRanges → Table → Table
unfolding encode_ranges_blob insert_or_update
upsert key file_size updated_at ranges = insert_or_update key (record {
  file_size = as_i64 file_size;
  updated_at = updated_at;
  ranges_blob = encode_ranges_blob ranges.intervals;
  version = schema_version;
})

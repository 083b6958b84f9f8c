-- ===== src/Cache/RangeDb/Table.antt =====
-- What `RangeDb::get` finds after `upsert` and `delete_keys`.
use text.Mathlib.Text.{◌==◌ as str_eq}
use text.Mathlib.TextEquality.{eq_iff}
use text.Mathlib.TextPositions.{eq_refl}
use rd_rs.Prelude.{
  ℕ, ◌^◌, ◌<◌, ◌≡◌, ◌≢◌, refl, none, some, List, [], ◌∷◌, String, arith, if◌then◌else◌,
}
use rd_rs.Prelude.Int.{ℤ, max_0_as_u64-as_i64}
use rd_rs.Cache.ByteRanges.{ByteRanges}
use rd_rs.Cache.ByteRanges.Coverage.{IsNormal}
use rd_rs.Cache.ByteRanges.Build.{from_intervals-intervals}
use rd_rs.Cache.RangeDb.Blob.{AllU64, decode_ranges_blob-encode_ranges_blob}
use rd_rs.Cache.RangeDb.{
  Columns, Table, Got, select, insert_or_update, is_in, delete_keys, get, upsert,
}

select-insert_or_update :
    (key k : String) (c : Columns) (t : Table)
    → select k (insert_or_update key c t) ≡ (if str_eq key k then some c else select k t)
unfolding select insert_or_update
select-insert_or_update key k c [] = refl
select-insert_or_update key k c ((j, d) ∷ rows) =
    ground (arith, eq_iff key k, eq_iff j key, eq_iff j k, select-insert_or_update key k c rows)

select-delete_keys :
    (k : String) (keys : List String) (t : Table)
    → select k (delete_keys keys t) ≡ (if is_in k keys then none else select k t)
unfolding select delete_keys
select-delete_keys k keys [] = ground arith
select-delete_keys k keys ((j, c) ∷ rows) =
    ground (arith, eq_iff j k, select-delete_keys k keys rows)

-- After an upsert of a set that meets the invariant, with a file size below 2^63 and ends that fit
-- a `u64`, `get` of that key answers the very same size, time and set.
pub get-upsert_self :
    (key : String) (size : ℕ) (at : ℤ) (r : ByteRanges) (t : Table)
    → size < 2 ^ 63
    → IsNormal r
    → AllU64 r.intervals
    → get key (upsert key size at r t)
      ≡ Got.ok (some (record { file_size = size; updated_at = at; ranges = r }))
unfolding get upsert
get-upsert_self key size at r t p n u = rw (
  select-insert_or_update key key,
  eq_refl key,
  decode_ranges_blob-encode_ranges_blob r.intervals u,
  from_intervals-intervals r n,
  max_0_as_u64-as_i64 size p,
)

-- An upsert changes what `get` answers for no other key.
pub get-upsert_ne :
    (key k : String) (size : ℕ) (at : ℤ) (r : ByteRanges) (t : Table)
    → key ≢ k
    → get k (upsert key size at r t) ≡ get k t
unfolding get upsert
get-upsert_ne key k size at r t ne =
    rw (select-insert_or_update key k) (ground (arith, eq_iff key k))

-- After a deletion, `get` finds nothing for the deleted keys, and what it found before for others.
pub get-delete_keys :
    (k : String) (keys : List String) (t : Table)
    → get k (delete_keys keys t) ≡ (if is_in k keys then Got.ok none else get k t)
unfolding get
get-delete_keys k keys t = rw (select-delete_keys k keys t) (ground arith)

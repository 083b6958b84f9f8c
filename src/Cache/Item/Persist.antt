-- ===== src/Cache/Item/Persist.antt =====
-- Reopening a cache item from the rows that it left in `cache_ranges.db`.
use rd_rs.Prelude.{
  ℕ, zero, suc, ◌-◌, ◌^◌, ◌<◌, ◌≡◌, ◌≢◌, refl, Bool, true, some, List, [], ◌∷◌, arith, ◌==◌,
  if◌then◌else◌, length, get_or, replicate, ==_refl, take, length-append, length-take,
  length-replicate,
}
use rd_rs.Prelude.Int.{as_i64}
use rd_rs.Cache.ByteRanges.{new}
use rd_rs.Cache.ByteRanges.Coverage.{IsNormal}
use rd_rs.Cache.RangeDb.{Table, upsert, delete_keys}
use rd_rs.Cache.RangeDb.Blob.{AllU64}
use rd_rs.Cache.RangeDb.Table.{get-upsert_self}
use rd_rs.Cache.Item.{Item, fresh, set_len, open_or_create_with_db, flush_ranges}

-- What an item must be for its ranges to survive in the database.
pub record IsStorable (i : Item) : Type 0 where
  pub normal : IsNormal i.ranges
  pub ends : AllU64 i.ranges.intervals
  pub size : i.file_size < 2 ^ 63
  pub dirty : i.persist_dirty ≡ true

abbrev pub flushed : ℕ → Item → Table → Table
flushed now i t = upsert i.cache_key i.file_size (as_i64 now) i.ranges t

pub flush_ranges-flushed :
    (now : ℕ) (i : Item) (t : Table)
    → i.persist_dirty ≡ true
    → (flush_ranges true now true (i, t)).1 ≡ flushed now i t
unfolding flush_ranges
flush_ranges-flushed now i t d = ground arith

open-flushed :
    (now later : ℕ) (purged : Bool) (bytes : List ℕ) (i : Item) (t : Table)
    → IsStorable i
    → open_or_create_with_db i.cache_key i.file_size later purged bytes (flushed now i t)
      ≡ some (
        fresh i.cache_key i.file_size later
            (if length bytes == i.file_size then bytes else set_len i.file_size bytes)
            i.ranges,
        flushed now i t,
      )
unfolding open_or_create_with_db
open-flushed now later purged bytes i t s = rw (
  get-upsert_self i.cache_key i.file_size (as_i64 now) i.ranges t s.size s.normal s.ends,
  ==_refl i.file_size,
)

-- A flush of dirty ranges that the database takes, followed by a reopening of the same key at the
-- same size over a disk file of that size, gives back the same bytes and the same ranges, with no
-- open handle and nothing left to persist.
pub open-flush_ranges :
    (now later : ℕ) (purged : Bool) (i : Item) (t : Table)
    → IsStorable i
    → length i.disk ≡ i.file_size
    → let t' = (flush_ranges true now true (i, t)).1 in
      open_or_create_with_db i.cache_key i.file_size later purged i.disk t'
      ≡ some (fresh i.cache_key i.file_size later i.disk i.ranges, t')
open-flush_ranges now later purged i t s l = rw (
  flush_ranges-flushed now i t s.dirty,
  open-flushed now later purged i.disk i t s,
  l,
  ==_refl i.file_size,
)

get_or-replicate : (n x : ℕ) → get_or {A = ℕ} (replicate n 0) x 0 ≡ 0
get_or-replicate zero x = refl
get_or-replicate (suc n) zero = refl
get_or-replicate (suc n) (suc x) = get_or-replicate n x

set_len-nil : (n : ℕ) → set_len n [] ≡ replicate n 0
unfolding set_len
set_len-nil zero = refl
set_len-nil (suc n) = rw (let e : suc n - 0 ≡ suc n = omega arith in e)

length-set_len : (n : ℕ) (bytes : List ℕ) → length (set_len n bytes) ≡ n
unfolding set_len
length-set_len n bytes = omega (
  arith,
  length-append (take n bytes) (replicate (n - length bytes) 0),
  length-take n bytes,
  length-replicate {A = ℕ} (n - length bytes) 0,
)

-- Reopening at another size than the row's starts with no ranges over a file of the new size; the
-- row of the key is gone, if its deletion succeeded.
pub open-other_size :
    (now later size : ℕ) (purged : Bool) (bytes : List ℕ) (i : Item) (t : Table)
    → IsStorable i
    → size ≢ i.file_size
    → let t' = (flush_ranges true now true (i, t)).1 in
      (j : Item) × (open_or_create_with_db i.cache_key size later purged bytes t'
        ≡ some (j, if purged then delete_keys (i.cache_key ∷ []) t' else t'))
      × (j.ranges ≡ new)
      × (length j.disk ≡ size)
unfolding open_or_create_with_db
open-other_size now later size purged bytes i t s ne =
    let disk = if length bytes == size then bytes else set_len size bytes in
    (
      fresh i.cache_key size later (set_len size disk) new,
      rw
          (
            flush_ranges-flushed now i t s.dirty,
            get-upsert_self i.cache_key i.file_size (as_i64 now) i.ranges t s.size s.normal s.ends,
          )
          (ground arith),
      refl,
      length-set_len size disk,
    )

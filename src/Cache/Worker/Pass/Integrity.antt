-- ===== src/Cache/Worker/Pass/Integrity.antt =====
-- What arrives in a pass is the remote file's, and counts as present once it is written.
use rd_rs.Prelude.{ℕ, zero, suc, ◌+◌, ◌%◌, ◌<◌, ◌^◌, ◌≡◌, refl, Bool, false, ◌||◌, arith}
use rd_rs.Prelude.Slice.{slice, length-slice}
use rd_rs.Cache.ByteRanges.Coverage.{in_range, covers, IsNormal}
use rd_rs.Cache.ByteRanges.Insert.{covers-insert}
use rd_rs.Cache.RangeDb.{Table}
use rd_rs.Cache.Item.{Item, all_bytes, failed_after, record_write, write_range}
use rd_rs.Cache.Item.Integrity.{flush_ranges-parts}

covers-record_write :
    (remote : ℕ → ℕ) (offset n x : ℕ) (i : Item)
    → offset + n < 2 ^ 64
    → IsNormal i.ranges
    → covers (record_write offset (slice remote offset n) i).ranges x
      ≡ (in_range offset (offset + n) x || covers i.ranges x)
unfolding record_write
covers-record_write remote offset n x i h normal =
    rw (length-slice remote offset n, let e : (offset + n) % 2 ^ 64 ≡ offset + n = omega arith in e)
      (covers-insert i.ranges offset (offset + n) x normal)

-- A write that fails counts nothing as present; one that succeeds counts its bytes.
pub covers-write_range :
    (remote : ℕ → ℕ) (offset n now x : ℕ) (stored : Bool) (i : Item) (t : Table)
    → offset + n < 2 ^ 64
    → IsNormal i.ranges
    → covers (write_range offset (slice remote offset n) all_bytes now stored (i, t)).1.ranges x
      ≡ (in_range offset (offset + n) x || covers i.ranges x)
unfolding write_range
covers-write_range remote offset zero now x stored i t h normal = ground arith
covers-write_range remote offset (suc n) now x stored i t h normal =
    let written = record_write offset (slice remote offset (suc n)) i in
    rw ((flush_ranges-parts false now stored written t).1)
      (covers-record_write remote offset (suc n) x i h normal)

pub covers-write_range_failed :
    (remote : ℕ → ℕ) (offset n k now : ℕ) (stored : Bool) (i : Item) (t : Table)
    → (write_range offset (slice remote offset n) (failed_after k) now stored (i, t)).1.ranges
      ≡ i.ranges
unfolding write_range
covers-write_range_failed remote offset zero k now stored i t = refl
covers-write_range_failed remote offset (suc n) k now stored i t = refl

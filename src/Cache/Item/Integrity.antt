-- ===== src/Cache/Item/Integrity.antt =====
-- What a cache item serves is what it was given: the bytes of the remote file.
use rd_rs.Prelude.{
  ℕ, zero, suc, ◌+◌, ◌-◌, ◌%◌, ◌^◌, ◌≤◌, ◌<◌, min, ◌≡◌, refl, ap, ◌∙◌, ◌⊎◌, inr, Bool, true, false,
  some, List, arith, length, get_or, none, if◌then◌else◌,
}
use rd_rs.Prelude.Slice.{slice, length-slice, get_or-slice, take-slice}
use rd_rs.Cache.ByteRanges.{ByteRanges, insert, has_range}
use rd_rs.Cache.ByteRanges.Coverage.{in_range, covers, IsNormal}
use rd_rs.Cache.ByteRanges.Insert.{insert-IsNormal, covers-insert}
use rd_rs.Cache.ByteRanges.Query.{has_range_iff}
use rd_rs.Cache.RangeDb.{Table}
use rd_rs.Cache.Item.{
  Item, flush_ranges, read_from_file, Written, all_bytes, failed_after, record_write, write_range,
  write_at,
}
use rd_rs.Cache.Item.Disk.{get_or-write_at, length-write_at, read_exact-slice}

-- The byte `x` of the disk file is there, and is the byte of the remote file.
abbrev pub Holds : (ℕ → ℕ) → List ℕ → ℕ → Type 0
Holds remote disk x = (x < length disk) × (get_or disk x 0 ≡ remote x)

-- The ranges meet their invariant, and every byte that they cover is the remote file's.
pub record Genuine (remote : ℕ → ℕ) (disk : List ℕ) (ranges : ByteRanges) : Type 0 where
  pub normal : IsNormal ranges
  pub bytes : (x : ℕ) → covers ranges x ≡ true → Holds remote disk x

abbrev pub IsGenuine : (ℕ → ℕ) → Item → Type 0
IsGenuine remote i = Genuine remote i.disk i.ranges

slice_at :
    (f : ℕ → ℕ) (offset n x : ℕ)
    → offset ≤ x
    → x < offset + n
    → get_or (slice f offset n) (x - offset) 0 ≡ f x
slice_at f offset n x p q =
    get_or-slice f offset n (x - offset) (omega arith)
    ∙ ap f (let e : offset + (x - offset) ≡ x = omega arith in e)

-- Writing remote bytes at their place makes them hold, and keeps what held.
write_at-Holds :
    (remote : ℕ → ℕ) (offset n : ℕ) (disk : List ℕ) (x : ℕ)
    → (in_range offset (offset + n) x ≡ true) ⊎ Holds remote disk x
    → Holds remote (write_at offset (slice remote offset n) disk) x
write_at-Holds remote offset n disk x h = ground (
  arith,
  length-write_at offset (slice remote offset n) disk,
  get_or-write_at offset (slice remote offset n) disk x,
  length-slice remote offset n,
  slice_at remote offset n x,
)

pub flush_ranges-parts :
    (force : Bool) (now : ℕ) (stored : Bool) (i : Item) (t : Table)
    → ((flush_ranges force now stored (i, t)).0.disk ≡ i.disk)
      × ((flush_ranges force now stored (i, t)).0.ranges ≡ i.ranges)
unfolding flush_ranges
flush_ranges-parts force now stored i t = ground arith

pub flush_ranges-IsGenuine :
    (remote : ℕ → ℕ) (force : Bool) (now : ℕ) (stored : Bool) (i : Item) (t : Table)
    → IsGenuine remote i
    → IsGenuine remote (flush_ranges force now stored (i, t)).0
flush_ranges-IsGenuine remote force now stored i t g =
    let p = flush_ranges-parts force now stored i t in rw (p.0, p.1) g

insert-Genuine :
    (remote : ℕ → ℕ) (offset n : ℕ) (disk : List ℕ) (ranges : ByteRanges)
    → Genuine remote disk ranges
    → Genuine remote
        (write_at offset (slice remote offset n) disk)
        (insert ranges offset (offset + n))
insert-Genuine remote offset n disk ranges g = record {
  normal = insert-IsNormal ranges offset (offset + n) g.normal;
  bytes = λ x c.
      write_at-Holds remote offset n disk x
        (ground (arith, covers-insert ranges offset (offset + n) x g.normal, g.bytes x));
}

record_write-IsGenuine :
    (remote : ℕ → ℕ) (offset n : ℕ) (i : Item)
    → offset + n < 2 ^ 64
    → IsGenuine remote i
    → IsGenuine remote (record_write offset (slice remote offset n) i)
unfolding record_write
record_write-IsGenuine remote offset n i h g =
    rw (length-slice remote offset n, let e : (offset + n) % 2 ^ 64 ≡ offset + n = omega arith in e)
      (insert-Genuine remote offset n i.disk i.ranges g)

keep-Genuine :
    (remote : ℕ → ℕ) (offset n : ℕ) (disk : List ℕ) (ranges : ByteRanges)
    → Genuine remote disk ranges
    → Genuine remote (write_at offset (slice remote offset n) disk) ranges
keep-Genuine remote offset n disk ranges g = record {
  normal = g.normal;
  bytes = λ x c. write_at-Holds remote offset n disk x (inr (g.bytes x c));
}

-- Writing bytes of the remote file at their place keeps every covered byte genuine, whether the
-- write succeeds or fails part of the way, and whether or not the ranges are then persisted. The data must end
-- below 2^64.
pub write_range-IsGenuine :
    (remote : ℕ → ℕ) (offset n : ℕ) (w : Written) (now : ℕ) (stored : Bool) (i : Item) (t : Table)
    → offset + n < 2 ^ 64
    → IsGenuine remote i
    → IsGenuine remote (write_range offset (slice remote offset n) w now stored (i, t)).1
unfolding write_range
write_range-IsGenuine remote offset zero w now stored i t h g = g
write_range-IsGenuine remote offset (suc n) (failed_after k) now stored i t h g =
    rw (take-slice remote k offset (suc n))
      (keep-Genuine remote offset (min k (suc n)) i.disk i.ranges g)
write_range-IsGenuine remote offset (suc n) all_bytes now stored i t h g =
    flush_ranges-IsGenuine remote false now stored _ t
      (record_write-IsGenuine remote offset (suc n) i h g)

-- If `has_range` says that `[offset, offset + n)` is cached and the range lies within the file's
-- size, reading it from an item whose covered bytes are genuine gives exactly those bytes of the
-- remote file where the file on the disk can be read, and fails where it cannot.
pub read_from_file-slice :
    (readable : Bool) (remote : ℕ → ℕ) (offset n : ℕ) (i : Item)
    → IsGenuine remote i
    → has_range i.ranges offset (offset + n) ≡ true
    → offset + n ≤ i.file_size
    → read_from_file readable offset n i ≡ (if readable then some (slice remote offset n) else none)
unfolding read_from_file
read_from_file-slice false remote offset n i g h le = refl
read_from_file-slice true remote offset n i g h le =
    let all = (has_range_iff i.ranges offset (offset + n) g.normal).0 h in
    rw (let e : min n (i.file_size - offset) ≡ n = omega arith in e)
      (read_exact-slice remote offset n i.disk (λ x p q. g.bytes x (all x p q)))

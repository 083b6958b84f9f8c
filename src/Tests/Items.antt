-- ===== src/Tests/Items.antt =====
-- The theorems on cache items.
use rd_rs.Prelude.{
  ℕ, zero, suc, get_or, ◌+◌, ◌-◌, ◌*◌, ◌≤◌, ◌<◌, ◌^◌, min, ◌≡◌, ◌≢◌, refl, Bool, true, false, some,
  none, Option, List, [], ◌∷◌, String, arith, length, replicate, if◌then◌else◌,
}
use rd_rs.Prelude.Slice.{slice}
use rd_rs.Cache.ByteRanges.{has_range}
use rd_rs.Cache.ByteRanges.Coverage.{covers, covers_list}
use rd_rs.Cache.RangeDb.{Table}
use rd_rs.Cache.Item.{
  Item, fresh, open_or_create_with_db, flush_ranges, read_from_file, failed_after, write_range,
}
use rd_rs.Cache.Item.Integrity.{IsGenuine, write_range-IsGenuine, read_from_file-slice}
use rd_rs.Cache.ReadAt.{Round, read_at}
use rd_rs.Cache.ReadAt.Answers.{AllFaithful, IsRight, any_over, is_given, read_at-IsRight}
use rd_rs.Cache.ReadAt.Sessions.{AllCounted, HasRestored, read_at-HasRestored}
use rd_rs.Cache.Session.{DownloadSession, new_session, join}
use rd_rs.Cache.Item.Persist.{IsStorable, open-flush_ranges}

abbrev pub content : ℕ → ℕ
content x = x + 1

abbrev stored_item : Item
stored_item = record {
  disk = 1 ∷ 2 ∷ 3 ∷ 0 ∷ [];
  file_size = 4;
  ranges = record { intervals = (0, 3) ∷ [] };
  opens = 1;
  atime = 0;
  downloaded_bytes = 3;
  cache_key = "a/1";
  persist_dirty = true;
  last_persist_unix = 0;
}

stored_byte :
    (x : ℕ)
    → covers stored_item.ranges x ≡ true
    → (x < length stored_item.disk) × (get_or stored_item.disk x 0 ≡ content x)
unfolding covers covers_list
stored_byte zero h = (omega arith, refl)
stored_byte (suc zero) h = (omega arith, refl)
stored_byte (suc (suc zero)) h = (omega arith, refl)
stored_byte (suc (suc (suc x))) h = absurd (ground arith)

stored_item-IsGenuine : IsGenuine content stored_item
stored_item-IsGenuine = record { normal = (omega arith, tt); bytes = stored_byte }

write_range-IsGenuine_example :
    IsGenuine content
      (write_range 2 (slice content 2 2) (failed_after 1) 9 true (stored_item, [])).1
write_range-IsGenuine_example =
    write_range-IsGenuine content 2 2 (failed_after 1) 9 true stored_item [] (omega arith)
      stored_item-IsGenuine

stored_item-has_range : has_range stored_item.ranges 1 (1 + 2) ≡ true
unfolding has_range rd_rs.Prelude.partition_point
stored_item-has_range = refl

read_from_file-slice_example : read_from_file true 1 2 stored_item ≡ some (slice content 1 2)
read_from_file-slice_example =
    read_from_file-slice true content 1 2 stored_item stored_item-IsGenuine stored_item-has_range
      (omega arith)

stored_item-IsStorable : IsStorable stored_item
stored_item-IsStorable = record {
  normal = (omega arith, tt);
  ends = (omega arith, omega arith, tt);
  size = omega arith;
  dirty = refl;
}

abbrev flushed_table : Table
flushed_table = (flush_ranges true 9 true (stored_item, [])).1

open-flush_ranges_example :
    open_or_create_with_db "a/1" 4 20 true stored_item.disk flushed_table
    ≡ some (fresh "a/1" 4 20 stored_item.disk stored_item.ranges, flushed_table)
open-flush_ranges_example = open-flush_ranges 9 20 true stored_item [] stored_item-IsStorable refl

-- An item with nothing in its file yet.
abbrev missing_item : Item
missing_item = record stored_item { disk = 0 ∷ 0 ∷ 0 ∷ 0 ∷ []; ranges = record { intervals = [] } }

missing_item-IsGenuine : IsGenuine content missing_item
unfolding covers covers_list
missing_item-IsGenuine = record { normal = tt; bytes = λ x h. absurd (ground arith) }

-- The read waits, its bytes come in the wait, and its worker ends.
abbrev filling_round : Round
filling_round = record {
  is_cancelled = false;
  before = missing_item;
  woken = true;
  task = 8;
  after = stored_item;
  is_finished = true;
  still_registered = false;
  at_end = stored_item;
  to_read = stored_item;
  cancelled_at_end = false;
}

filling_round-AllFaithful : AllFaithful content 4 1 3 (filling_round ∷ [])
unfolding AllFaithful
filling_round-AllFaithful = (
  record {
    genuine = stored_item-IsGenuine;
    size = refl;
    since_before = λ h. stored_item-has_range;
    since_after = λ h. stored_item-has_range;
    since_end = λ h. stored_item-has_range;
  },
  tt,
)

read_at-IsRight_example :
    IsRight true content 1 3 (read_at true 7 1 2 8 missing_item [] (filling_round ∷ []))
    × (any_over (filling_round ∷ []) ≡ true
        → is_given (read_at true 7 1 2 8 missing_item [] (filling_round ∷ [])) ≡ true)
read_at-IsRight_example =
    read_at-IsRight true content 7 1 2 8 missing_item [] (filling_round ∷ []) missing_item-IsGenuine
      (omega arith) (omega arith) filling_round-AllFaithful

-- A session that another read waits for, whose worker brings nothing for five seconds.
abbrev stalled : List DownloadSession
stalled = join (new_session 0 4) ∷ []

abbrev kicking_round : Round
kicking_round = record filling_round { woken = false }

stalled-AllCounted : AllCounted stalled
unfolding AllCounted join
stalled-AllCounted = (omega arith, tt)

read_at-HasRestored_example :
    HasRestored stalled (read_at true 7 1 2 8 missing_item stalled (kicking_round ∷ []))
read_at-HasRestored_example =
    read_at-HasRestored true 7 1 2 8 missing_item stalled (kicking_round ∷ []) stalled-AllCounted

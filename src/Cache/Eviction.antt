-- ===== src/Cache/Eviction.antt =====
-- src/cache/eviction.rs and `stale_keys` of src/cache/range_db.rs: idle items leave the map, stale
-- rows go with their files, and the least recently used disk files go when the cache is too large.
-- Whether a file can be removed is an argument, and so are the threshold, a share of the configured
-- size, and the files that the walk over the directory meets.
pub mod Idle
pub mod Stale
pub mod Lru
use rd_rs.Prelude.{
  ℕ, zero, suc, ◌+◌, ◌-◌, ◌*◌, Bool, true, false, not, ◌&&◌, ◌||◌, Option, none, some, List, [],
  ◌∷◌, String, ltb, leb, ◌==◌, if◌then◌else◌, take,
}
use rd_rs.Prelude.Int.{ℤ, pos, negsuc, as_i64}
use rd_rs.Prelude.Map.{◌=?◌, string_keys}
use rd_rs.Cache.RangeDb.{Columns, Table, delete_keys}
use rd_rs.Cache.Item.{Item, is_open, flush_ranges}

abbrev pub item_idle_timeout_secs : ℕ
item_idle_timeout_secs = 60

abbrev pub ttl_stale_keys_query_limit : ℕ
ttl_stale_keys_query_limit = 10_000

abbrev pub disk_orphan_min_age_secs : ℕ
disk_orphan_min_age_secs = 5 * 60

-- The items of the map by their keys.
abbrev pub Items : Type 0
Items = List (String × Item)

abbrev pub has_key : Items → String → Bool
has_key [] key = false
has_key ((k, i) ∷ items) key = if k =? key then true else has_key items key

abbrev pub is_idle : ℕ → Item → Bool
is_idle now i = not (is_open i) && leb item_idle_timeout_secs (now - i.atime)

-- The first part of `evict`: the idle items leave the map, each flushing its ranges.
unfoldable pub evict_idle : ℕ → Bool → Items → Table → Items × Table
evict_idle now stored [] t = ([], t)
evict_idle now stored ((k, i) ∷ items) t =
    let rest =
      evict_idle now stored items
        (if is_idle now i then (flush_ranges true now stored (i, t)).1 else t) in
    if is_idle now i then rest else ((k, i) ∷ rest.0, rest.1)

-- `a < b` on `i64`.
abbrev pub lt_i64 : ℤ → ℤ → Bool
lt_i64 (pos a) (pos b) = ltb a b
lt_i64 (pos a) (negsuc b) = false
lt_i64 (negsuc a) (pos b) = true
lt_i64 (negsuc a) (negsuc b) = ltb b a

-- The rows older than the cutoff, the oldest first; rows of the same time stand as in the table.
unfoldable pub insert_by_time : String → ℤ → List (String × ℤ) → List (String × ℤ)
insert_by_time key at [] = (key, at) ∷ []
insert_by_time key at ((k, b) ∷ rows) =
    if lt_i64 b at then (k, b) ∷ insert_by_time key at rows else (key, at) ∷ (k, b) ∷ rows

unfoldable pub stale_rows : ℤ → Table → List (String × ℤ)
unfolding insert_by_time
stale_rows older_than [] = []
stale_rows older_than ((k, c) ∷ t) =
    let rest = stale_rows older_than t in
    if lt_i64 c.updated_at older_than then insert_by_time k c.updated_at rest else rest

abbrev pub keys_of : List (String × ℤ) → List String
keys_of [] = []
keys_of ((k, at) ∷ rows) = k ∷ keys_of rows

unfoldable pub stale_keys : ℤ → ℕ → Table → List String
unfolding stale_rows
stale_keys older_than limit t = take limit (keys_of (stale_rows older_than t))

-- How `remove_file` ends: the file is gone, there was none, or another error.
pub data Removal : Type 0 where
  removed not_found refused : Removal

abbrev pub is_gone : Removal → Bool
is_gone removed = true
is_gone not_found = true
is_gone refused = false

-- The stale keys that are in no item, and whose file is gone.
unfoldable pub keys_to_delete : (String → Removal) → Items → List String → List String
keys_to_delete remove_file items [] = []
keys_to_delete remove_file items (k ∷ keys) =
    let rest = keys_to_delete remove_file items keys in
    if not (has_key items k) && is_gone (remove_file k) then k ∷ rest else rest

-- `age` is the parsed `cache_max_age`, 0 for none.
unfoldable pub ttl_cleanup : (String → Removal) → ℕ → ℕ → Items → Table → Table
unfolding keys_to_delete stale_keys
ttl_cleanup remove_file age now items t =
    if age == 0
    then t
    else delete_keys
        (keys_to_delete remove_file items
          (stale_keys (as_i64 (now - age)) ttl_stale_keys_query_limit t))
        t

-- A cache file on disk: its key, the second of the last access, and the bytes of its blocks.
pub record DiskFile : Type 0 where
  pub key : String
  pub atime : ℕ
  pub size : ℕ

abbrev pub total_size : List DiskFile → ℕ
total_size [] = 0
total_size (f ∷ files) = f.size + total_size files

-- `sort_by_key` by the time of access, which keeps the order of equals.
unfoldable pub insert_by_atime : DiskFile → List DiskFile → List DiskFile
insert_by_atime f [] = f ∷ []
insert_by_atime f (g ∷ files) =
    if ltb g.atime f.atime then g ∷ insert_by_atime f files else f ∷ g ∷ files

unfoldable pub sort_by_atime : List DiskFile → List DiskFile
unfolding insert_by_atime
sort_by_atime [] = []
sort_by_atime (f ∷ files) = insert_by_atime f (sort_by_atime files)

-- Whether the loop removes a file, when there is still a need: it is in no item, its last access
-- is old enough, and it can be removed.
abbrev pub can_go : (String → Bool) → Items → ℕ → DiskFile → Bool
can_go can_remove items now f =
    not (has_key items f.key)
    && (not (ltb (now - f.atime) disk_orphan_min_age_secs) && can_remove f.key)

-- The removal loop, with what it has freed: the files that it removes, and what is freed at its
-- end.
unfoldable pub remove_oldest : (DiskFile → Bool) → ℕ → ℕ → ℕ → List DiskFile → List DiskFile × ℕ
remove_oldest goes threshold total freed [] = ([], freed)
remove_oldest goes threshold total freed (f ∷ files) =
    let rest =
      remove_oldest goes threshold total (if goes f then freed + f.size else freed) files in
    if leb (total - freed) threshold
    then ([], freed)
    else if goes f
    then (f ∷ rest.0, rest.1)
    else rest

unfoldable pub evict_disk_lru : (String → Bool) → Items → ℕ → ℕ → List DiskFile → List DiskFile × ℕ
unfolding remove_oldest sort_by_atime
evict_disk_lru can_remove items threshold now files =
    if leb (total_size files) threshold
    then ([], 0)
    else remove_oldest (can_go can_remove items now) threshold (total_size files) 0
        (sort_by_atime files)

-- `check_free_space` with a limit: whether downloads are paused afterwards.
abbrev pub check_free_space : ℕ → ℕ → Bool → Bool
check_free_space min_free free_bytes paused =
    if min_free == 0 then paused else ltb free_bytes min_free

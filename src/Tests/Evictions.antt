-- ===== src/Tests/Evictions.antt =====
-- The theorems on sessions, on the map of cache items and on what leaves the cache.
use rd_rs.Prelude.{
  ◌+◌, ◌<◌, ◌≤◌, ◌≡◌, ◌^◌, ◌⊎◌, refl, true, false, some, List, [], ◌∷◌, String, arith, ◌==◌,
  if◌then◌else◌,
}
use rd_rs.Prelude.Map.{lookup, string_keys}
use mathlib.Core.Path.{subst}
use mathlib.Core.Option.{some-injective}
use mathlib.Core.List.{Perm}
use rd_rs.Cache.RangeDb.{Table, get}
use rd_rs.Cache.Item.{Item, fresh}
use rd_rs.Cache.Item.Persist.{IsStorable}
use rd_rs.Cache.Session.{new_session, join, leave, Past, created, joined, went}
use rd_rs.Cache.Session.Waiters.{Counted, past-Counted}
use rd_rs.Cache.Eviction.{
  Items, evict_idle, DiskFile, total_size, can_go, sort_by_atime, evict_disk_lru,
}
use rd_rs.Cache.Eviction.Idle.{WellKeyed, busy, row_of, evict_idle-persists}
use rd_rs.Cache.Eviction.Lru.{eligible, OldestFirst, Evicted, evict_disk_lru-Evicted}
use rd_rs.Cache.Store.{build_key, opened, get_or_create}
use rd_rs.Cache.Store.Handles.{Kept, get_or_create-Kept}

waited_for : Past (0 + 1) false (join (new_session 4 9))
waited_for = joined 0 false (new_session 4 9) (omega arith) (created 4 9)

past-Counted_example : Counted 0 (if 0 == 0 then true else false) (leave (join (new_session 4 9)))
past-Counted_example =
    past-Counted 0 _ (leave (join (new_session 4 9)))
      (went 0 false (join (new_session 4 9)) waited_for)

abbrev idle_item : Item
idle_item = record (fresh "a/1" 4 0 (1 ∷ 2 ∷ 3 ∷ 0 ∷ []) (record { intervals = (0, 3) ∷ [] })) {
  persist_dirty = true;
}

abbrev one_item : Items
one_item = ("a/1", idle_item) ∷ []

one_item-WellKeyed : WellKeyed one_item
unfolding WellKeyed
one_item-WellKeyed = (refl, refl, tt)

idle_item-IsStorable : IsStorable idle_item
idle_item-IsStorable = record {
  normal = (omega arith, tt);
  ends = (omega arith, omega arith, tt);
  size = omega arith;
  dirty = refl;
}

one_item-lookup : lookup "a/1" one_item ≡ some idle_item
unfolding lookup
one_item-lookup = refl

evict_idle-persists_example :
    ((evict_idle 90 true one_item []).0 ≡ busy 90 one_item)
    × (get "a/1" (evict_idle 90 true one_item []).1 ≡ row_of 90 idle_item)
evict_idle-persists_example =
    evict_idle-persists "a/1" 90 one_item idle_item [] one_item-WellKeyed one_item-lookup refl
      idle_item-IsStorable

abbrev old_rows : Table
old_rows = (evict_idle 90 true one_item []).1

abbrev three_files : List DiskFile
three_files =
    record { key = "a/1"; atime = 30; size = 5 }
    ∷ record { key = "b/1"; atime = 10; size = 5 }
    ∷ record { key = "c/1"; atime = 20; size = 5 }
    ∷ []

evict_disk_lru-Evicted_example :
    let candidates = eligible (can_go (λ k. true) one_item 900) (sort_by_atime three_files) in
    Perm (sort_by_atime three_files) three_files
    × OldestFirst 0 candidates
    × ((total_size three_files ≤ 9)
          × (evict_disk_lru (λ k. true) one_item 9 900 three_files ≡ ([], 0))
        ⊎ Evicted 9
            (total_size three_files)
            0
            candidates
            (evict_disk_lru (λ k. true) one_item 9 900 three_files))
evict_disk_lru-Evicted_example = evict_disk_lru-Evicted (λ k. true) one_item 9 900 three_files

few_handles : (i : Item) → lookup (build_key "a" "1") one_item ≡ some i → i.opens + 1 < 2 ^ 32
unfolding lookup
few_handles i h = subst (λ j. j.opens + 1 < 2 ^ 32) (some-injective idle_item i h) (omega arith)

get_again :
    get_or_create "a" "1" 4 95 true [] one_item []
    ≡ some (opened (build_key "a" "1") 95 one_item (idle_item, []))
unfolding get_or_create lookup
get_again = refl

get_or_create-Kept_example :
    Kept (build_key "a" "1") 200 true (opened (build_key "a" "1") 95 one_item (idle_item, []))
get_or_create-Kept_example =
    get_or_create-Kept "a" "1" 4 95 200 true true [] one_item []
      (opened (build_key "a" "1") 95 one_item (idle_item, [])) few_handles get_again

abbrev other_key : String
other_key = "b/1"

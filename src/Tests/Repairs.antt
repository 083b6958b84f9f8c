-- ===== src/Tests/Repairs.antt =====
-- The theorems on the refresh of torrents and on their repair.
use rd_rs.Prelude.{ℕ, zero, suc, ◌≡◌, refl, false, some, List, [], ◌∷◌, String}
use rd_rs.Prelude.Map.{contains, lookup, string_keys}
use rd_rs.Torrent.Types.{Torrent}
use rd_rs.Torrent.Diff.{fresh_map}
use rd_rs.Torrent.Diff.Merge.{has_id, most_progress, ids_of, progress_of, fresh_map-has_id}
use rd_rs.Repair.Capacity.{ActiveCount, failed_count, counted, World, wait_for_repair_capacity}
use rd_rs.Repair.Capacity.Waiting.{sees_slot, wait_for_repair_capacity-sees_slot}
use rd_rs.Repair.Queue.Order.{Once}

abbrev pub half_done : Torrent
half_done = record {
  id = "1";
  name = "film";
  hash = "ab";
  progress = 50;
  status = "downloading";
  links = [];
  added = 0;
}

abbrev pub all_done : Torrent
all_done = record {
  id = "2";
  name = "film";
  hash = "ab";
  progress = 100;
  status = "downloaded";
  links = [];
  added = 0;
}

abbrev fresh_torrents : List Torrent
fresh_torrents = half_done ∷ all_done ∷ []

fresh_map-has_id_example :
    (ids_of (lookup "ab/film" (fresh_map [] fresh_torrents)) "1"
      ≡ has_id "ab/film" "1" fresh_torrents)
    × (progress_of (lookup "ab/film" (fresh_map [] fresh_torrents))
        ≡ most_progress "ab/film" fresh_torrents)
fresh_map-has_id_example = fresh_map-has_id fresh_torrents "ab/film" "1"

-- The first query fails, the second sees full slots, the third a free one.
abbrev some_counts : ℕ → ActiveCount
some_counts zero = failed_count
some_counts (suc zero) = counted 24 25
some_counts (suc (suc n)) = counted 3 25

abbrev calm_world : World
calm_world = record {
  active_count = some_counts;
  cancelled_at_start = λ retry. false;
  cancelled_in_sleep = λ retry. false;
}

wait_for_repair_capacity-sees_slot_example :
    wait_for_repair_capacity calm_world ≡ some (sees_slot calm_world 11 0)
wait_for_repair_capacity-sees_slot_example = wait_for_repair_capacity-sees_slot calm_world

abbrev waiting_keys : List String
waiting_keys = "ab/film" ∷ "cd/song" ∷ []

waiting_keys-Once : Once waiting_keys
unfolding Once contains
waiting_keys-Once = (refl, (refl, tt))

abbrev three_keys : List String
three_keys = "ef/clip" ∷ "ab/film" ∷ []

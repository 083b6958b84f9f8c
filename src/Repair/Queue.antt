-- ===== src/Repair/Queue.antt =====
-- The priority queue of torrents to repair: `enqueue_repair` of src/torrent/mod.rs and
-- src/torrent/repair_enqueue.rs, on the queue of access keys. Which torrents are eligible for a
-- periodic repair is an argument.
pub mod Order
use rd_rs.Prelude.{
  ℕ, Bool, true, false, not, ◌||◌, ◌&&◌, Option, none, some, List, [], ◌∷◌, ◌++◌, String,
  if◌then◌else◌,
}
use rd_rs.Prelude.Map.{◌=?◌, contains, string_keys}

unfoldable pub enqueue_repair : String → List String → List String
enqueue_repair key q = if contains q key then q else q ++ (key ∷ [])

-- The loop of `enqueue_repair_all` over the keys.
unfoldable pub enqueue_repair_all : Bool → (String → Bool) → List String → List String → List String
unfolding enqueue_repair
enqueue_repair_all all eligible [] q = q
enqueue_repair_all all eligible (key ∷ keys) q =
    enqueue_repair_all all eligible keys
      (if not all && not (eligible key) then q else enqueue_repair key q)

-- `remove(position(…))`: the first place of the key.
unfoldable pub remove_first : String → List String → List String
remove_first key [] = []
remove_first key (k ∷ q) = if k =? key then q else k ∷ remove_first key q

unfoldable pub enqueue_repair_front : String → List String → List String
unfolding remove_first
enqueue_repair_front key q = key ∷ remove_first key q

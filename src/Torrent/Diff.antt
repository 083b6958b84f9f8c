-- ===== src/Torrent/Diff.antt =====
-- `diff` of src/torrent/refresh/diff.rs. A `HashMap` is an association list and a `HashSet` a list
-- without repetition, so results stand in the order of the fresh list, where the source leaves the
-- order open.
pub mod Merge
pub mod Keys
use Prim.Native.Nat.{Ordering}
use Prim.Native.String.{compare}
use rd_rs.Prelude.{
  ℕ, ◌+◌, ◌-◌, Bool, true, false, not, ◌||◌, ◌&&◌, Option, none, some, List, [], ◌∷◌, ◌++◌, String,
  ltb, ◌==◌, if◌then◌else◌, length,
}
use rd_rs.Prelude.Map.{◌=?◌, contains, lookup, insert, string_keys}
use rd_rs.Torrent.Types.{Torrent, ManagedTorrent, key_of}

abbrev pub access_key : Torrent → String
access_key t = key_of t.hash t.name

-- A torrent with the ids of all that share its key.
abbrev pub Merged : Type 0
Merged = Torrent × List String

-- `HashSet::insert`
unfoldable pub insert_id : String → List String → List String
insert_id id ids = if contains ids id then ids else ids ++ (id ∷ [])

-- `and_modify` and `or_insert_with`: the torrent with the most progress stands for the key, the
-- first one among equals.
abbrev pub merge_one : Torrent → Option Merged → Merged
merge_one t none = (t, t.id ∷ [])
merge_one t (some (existing, ids)) =
    ((if ltb existing.progress t.progress then t else existing), insert_id t.id ids)

unfoldable pub add_fresh : Torrent → List (String × Merged) → List (String × Merged)
unfolding insert_id
add_fresh t m = insert (access_key t) (merge_one t (lookup (access_key t) m)) m

unfoldable pub fresh_map : List (String × Merged) → List Torrent → List (String × Merged)
unfolding add_fresh
fresh_map m [] = m
fresh_map m (t ∷ fresh) = fresh_map (add_fresh t m) fresh

-- `sort` of texts.
abbrev pub before : String → String → Bool
before a b = elim (compare a b) [ Ordering.lt ↦ true | _ ↦ false ]

unfoldable pub insert_text : String → List String → List String
insert_text x [] = x ∷ []
insert_text x (y ∷ ys) = if before y x then y ∷ insert_text x ys else x ∷ y ∷ ys

unfoldable pub sort : List String → List String
unfolding insert_text
sort [] = []
sort (x ∷ xs) = insert_text x (sort xs)

abbrev pub has {κ} : {V : Type κ} → String → List (String × V) → Bool
has key [] = false
has key ((k, v) ∷ m) = if k =? key then true else has key m

unfoldable pub added_of : List (String × ManagedTorrent) → List (String × Merged) → List Merged
unfolding sort
added_of current [] = []
added_of current ((k, (t, ids)) ∷ m) =
    let rest = added_of current m in if has k current then rest else (t, sort ids) ∷ rest

unfoldable pub removed_of : List (String × ManagedTorrent) → List (String × Merged) → List String
removed_of [] m = []
removed_of ((k, c) ∷ current) m =
    let rest = removed_of current m in if has k m then rest else k ∷ rest

abbrev pub any_missing : List String → List String → Bool
any_missing [] fresh_ids = false
any_missing (id ∷ ids) fresh_ids = not (contains fresh_ids id) || any_missing ids fresh_ids

abbrev pub is_changed : ManagedTorrent → Merged → Bool
is_changed c (t, ids) =
    not (t.status =? c.torrent.status)
    || (not (t.progress == c.torrent.progress)
        || (not (length c.rd_ids == length ids) || any_missing c.rd_ids ids))

abbrev pub changed_one : Option ManagedTorrent → Merged → List Merged → List Merged
changed_one none (t, ids) rest = rest
changed_one (some c) (t, ids) rest = if is_changed c (t, ids) then (t, sort ids) ∷ rest else rest

unfoldable pub changed_of : List (String × ManagedTorrent) → List (String × Merged) → List Merged
unfolding sort
changed_of current [] = []
changed_of current ((k, f) ∷ m) = changed_one (lookup k current) f (changed_of current m)

pub record DiffResult : Type 0 where
  pub added : List Merged
  pub removed_keys : List String
  pub changed : List Merged
  pub duplicates : ℕ

unfoldable pub diff : List (String × ManagedTorrent) → List Torrent → DiffResult
unfolding added_of removed_of changed_of fresh_map
diff current fresh =
    let m = fresh_map [] fresh in
    record {
      added = added_of current m;
      removed_keys = removed_of current m;
      changed = changed_of current m;
      duplicates = length fresh - length m;
    }

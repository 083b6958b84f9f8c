-- ===== src/Torrent/Diff/Merge.antt =====
-- Torrents that share a key are merged: the one with the most progress stands for all their ids.
use rd_rs.Prelude.{
  ℕ, max, ◌≡◌, sym, ap, ◌∙◌, inl, inr, Bool, false, ◌||◌, ◌&&◌, Option, none, some, List, [], ◌∷◌,
  String, arith, if◌then◌else◌, Bool-cases, or_false,
}
use rd_rs.Prelude.Map.{◌=?◌, contains, contains-push, lookup, lookup-insert, string_keys}
use rd_rs.Torrent.Types.{Torrent}
use rd_rs.Torrent.Diff.{Merged, access_key, insert_id, merge_one, add_fresh, fresh_map}

-- Some torrent of the list has the key and the id.
pub has_id : String → String → List Torrent → Bool
has_id key id [] = false
has_id key id (t ∷ fresh) = ((access_key t =? key) && (t.id =? id)) || has_id key id fresh

-- The most progress among the torrents of the key.
pub most_progress : String → List Torrent → ℕ
most_progress key [] = 0
most_progress key (t ∷ fresh) =
    max (if access_key t =? key then t.progress else 0) (most_progress key fresh)

abbrev pub ids_of : Option Merged → String → Bool
ids_of none id = false
ids_of (some (t, ids)) id = contains ids id

abbrev pub progress_of : Option Merged → ℕ
progress_of none = 0
progress_of (some (t, ids)) = t.progress

contains-insert_id :
    (id x : String) (ids : List String)
    → contains (insert_id id ids) x ≡ (contains ids x || (id =? x))
unfolding insert_id
contains-insert_id id x ids = contains-push ids id x

merge_one-parts :
    (t : Torrent) (o : Option Merged) (id : String)
    → (ids_of (some (merge_one t o)) id ≡ (ids_of o id || (t.id =? id)))
      × (progress_of (some (merge_one t o)) ≡ max (progress_of o) t.progress)
unfolding contains
merge_one-parts t none id = (ground arith, omega arith)
merge_one-parts t (some (e, ids)) id = (contains-insert_id t.id id ids, ground arith)

add_fresh-merges :
    (t : Torrent) (m : List (String × Merged)) (key id : String)
    → (ids_of (lookup key (add_fresh t m)) id
        ≡ (ids_of (lookup key m) id || ((access_key t =? key) && (t.id =? id))))
      × (progress_of (lookup key (add_fresh t m))
          ≡ max (progress_of (lookup key m)) (if access_key t =? key then t.progress else 0))
unfolding add_fresh
add_fresh-merges t m key id = elim (Bool-cases (access_key t =? key)) [
  | inr differs ↦
      rw (lookup-insert (access_key t) key (merge_one t (lookup (access_key t) m)) m, differs)
        (sym (or_false (ids_of (lookup key m) id)), omega arith)
  | inl same ↦
      let parts = merge_one-parts t (lookup (access_key t) m) id in
      let at_key = ap (λ k. lookup k m) (((string_keys).beq_iff (access_key t) key).0 same) in
      rw (lookup-insert (access_key t) key (merge_one t (lookup (access_key t) m)) m, same)
        (rw⁻¹ at_key parts)
]

fresh_map-merges :
    (m : List (String × Merged)) (fresh : List Torrent) (key id : String)
    → (ids_of (lookup key (fresh_map m fresh)) id
        ≡ (ids_of (lookup key m) id || has_id key id fresh))
      × (progress_of (lookup key (fresh_map m fresh))
          ≡ max (progress_of (lookup key m)) (most_progress key fresh))
unfolding fresh_map has_id most_progress
fresh_map-merges m [] key id = (sym (or_false (ids_of (lookup key m) id)), omega arith)
fresh_map-merges m (t ∷ fresh) key id =
    let rest = fresh_map-merges (add_fresh t m) fresh key id in
    let here = add_fresh-merges t m key id in
    (rest.0 ∙ ground (arith, here.0), rest.1 ∙ ground (arith, here.1))

-- The ids that a refresh merges under a key are those of all the fresh torrents of the key, and the
-- torrent that stands for it has the most progress among them.
pub fresh_map-has_id :
    (fresh : List Torrent) (key id : String)
    → (ids_of (lookup key (fresh_map [] fresh)) id ≡ has_id key id fresh)
      × (progress_of (lookup key (fresh_map [] fresh)) ≡ most_progress key fresh)
unfolding lookup
fresh_map-has_id fresh key id = let p = fresh_map-merges [] fresh key id in (p.0, p.1 ∙ omega arith)

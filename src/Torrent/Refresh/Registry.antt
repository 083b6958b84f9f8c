-- ===== src/Torrent/Refresh/Registry.antt =====
-- Which torrents the registry has after a refresh.
use rd_rs.Prelude.{
  ◌+◌, ◌≡◌, refl, sym, ap, ◌∙◌, inl, inr, Bool, true, false, not, ◌||◌, ◌&&◌, Option, none, some,
  List, [], ◌∷◌, String, arith, Bool-cases, if◌then◌else◌, or_false, or_true,
}
use rd_rs.Prelude.Map.{◌=?◌, contains, lookup, insert, lookup-insert, lookup-remove, string_keys}
use rd_rs.Torrent.Types.{Torrent, ManagedTorrent, key_of}
use rd_rs.Torrent.Diff.{Merged, has, DiffResult, diff}
use rd_rs.Torrent.Diff.Keys.{any_key, any_merged, diff-any_key}
use rd_rs.Db.{Json, TorrentRow, upsert_torrents_batch_conn}
use rd_rs.Torrent.Manager.{World, Manager}
use rd_rs.Torrent.Manager.Fields.{torrents-stored, torrents-triggered}
use rd_rs.Torrent.Refresh.{
  is_nil, is_empty_diff, rows_of, sync_rows, without_errored, run_once, drop_unless, Refresh,
  new_torrent, changed_torrent, put, apply_added, change_one, apply_changed, skips, apply_removed,
  apply_diff,
}

abbrev pub is_found : Option ManagedTorrent → Bool
is_found none = false
is_found (some mt) = true

has_iff : (key : String) (m : List (String × ManagedTorrent)) → has key m ≡ is_found (lookup key m)
unfolding lookup
has_iff key [] = refl
has_iff key ((k, mt) ∷ m) = ground (arith, has_iff key m)

-- An insertion under `k`, as a change of the two things that a refresh asks of a key.
found-insert :
    (key k : String) (mt : ManagedTorrent) (m : List (String × ManagedTorrent))
    → is_found (lookup key (insert k mt m)) ≡ (is_found (lookup key m) || (k =? key))
found-insert key k mt m = elim (Bool-cases (k =? key)) [
  | inl same ↦ rw (lookup-insert k key mt m, same) (sym (or_true (is_found (lookup key m))))
  | inr differs ↦ rw (lookup-insert k key mt m, differs) (sym (or_false (is_found (lookup key m))))
]

found-apply_added :
    (key : String) (added : List Merged) (r : Refresh)
    → is_found (lookup key (apply_added added r).torrents)
      ≡ (is_found (lookup key r.torrents) || any_merged key added)
unfolding apply_added any_merged
found-apply_added key [] r = sym (or_false (is_found (lookup key r.torrents)))
found-apply_added key ((t, ids) ∷ added) r =
    let k = key_of t.hash t.name in
    found-apply_added key added (put k (new_torrent (t, ids)) r)
    ∙ ground (arith, found-insert key k (new_torrent (t, ids)) r.torrents)

lookup-apply_added :
    (key : String) (added : List Merged) (r : Refresh)
    → any_merged key added ≡ false
    → lookup key (apply_added added r).torrents ≡ lookup key r.torrents
unfolding apply_added any_merged
lookup-apply_added key [] r h = refl
lookup-apply_added key ((t, ids) ∷ added) r h =
    let k = key_of t.hash t.name in
    let mt = new_torrent (t, ids) in
    elim (Bool-cases (k =? key)) [
      | inl same ↦ absurd (cc (rw same at h))
      | inr differs ↦
          lookup-apply_added key added (put k mt r) (rw differs at h)
          ∙ lookup-insert k key mt r.torrents
          ∙ rw differs refl
    ]

-- A changed torrent keeps its state.
change_one_keeps :
    (key k : String) (f : Merged) (o : Option ManagedTorrent) (r : Refresh)
    → lookup k r.torrents ≡ o
    → (is_found (lookup key (change_one k f o r).torrents) ≡ is_found (lookup key r.torrents))
      × (skips (lookup key (change_one k f o r).torrents) ≡ skips (lookup key r.torrents))
change_one_keeps key k f none r e = (refl, refl)
change_one_keeps key k f (some mt) r e = elim (Bool-cases (k =? key)) [
  | inl same ↦
      let here : lookup key r.torrents ≡ some mt =
        ap (λ j. lookup j r.torrents) (sym (((string_keys).beq_iff k key).0 same)) ∙ e in
      rw (lookup-insert k key (changed_torrent f mt) r.torrents, same, here) (refl, refl)
  | inr differs ↦ rw (lookup-insert k key (changed_torrent f mt) r.torrents, differs) (refl, refl)
]

apply_changed_keeps :
    (key : String) (changed : List Merged) (r : Refresh)
    → (is_found (lookup key (apply_changed changed r).torrents) ≡ is_found (lookup key r.torrents))
      × (skips (lookup key (apply_changed changed r).torrents) ≡ skips (lookup key r.torrents))
unfolding apply_changed
apply_changed_keeps key [] r = (refl, refl)
apply_changed_keeps key ((t, ids) ∷ changed) r =
    let k = key_of t.hash t.name in
    let o = lookup k r.torrents in
    let one = change_one_keeps key k (t, ids) o r refl in
    let rest = apply_changed_keeps key changed (change_one k (t, ids) o r) in
    (rest.0 ∙ one.0, rest.1 ∙ one.1)

-- What stays of a key's torrent when the key `k` is taken from the registry, or skipped.
drop_unless_keeps :
    (key k : String) (held in_rest : Bool) (r : Refresh)
    → skips (lookup k r.torrents) ≡ held
    → let after = lookup key (drop_unless held k r).torrents in
      let before = lookup key r.torrents in
      (is_found after && not (in_rest && not (skips after)))
      ≡ (is_found before && not ((if k =? key then true else in_rest) && not (skips before)))
drop_unless_keeps key k true in_rest r e = elim (Bool-cases (k =? key)) [
  | inl same ↦
      let at_key = ap (λ j. skips (lookup j r.torrents)) (((string_keys).beq_iff k key).0 same) in
      ground (arith, same, at_key, e)
  | inr differs ↦ rw differs refl
]
drop_unless_keeps key k false in_rest r e = elim (Bool-cases (k =? key)) [
  | inl same ↦
      let at_key = ap (λ j. skips (lookup j r.torrents)) (((string_keys).beq_iff k key).0 same) in
      rw (lookup-remove k key r.torrents, same) (ground (arith, at_key, e))
  | inr differs ↦ rw (lookup-remove k key r.torrents, differs) refl
]

found-apply_removed :
    (key : String) (keys : List String) (r : Refresh)
    → is_found (lookup key (apply_removed keys r).torrents) ≡ (
        is_found (lookup key r.torrents)
        && not (contains keys key && not (skips (lookup key r.torrents))))
unfolding apply_removed contains
found-apply_removed key [] r = ground arith
found-apply_removed key (k ∷ keys) r =
    let held = skips (lookup k r.torrents) in
    found-apply_removed key keys (drop_unless held k r)
    ∙ drop_unless_keeps key k held (contains keys key) r refl

skips_found : (o : Option ManagedTorrent) → skips o ≡ true → is_found o ≡ true
skips_found none h = cc
skips_found (some mt) h = refl

found-apply_diff :
    (current : List (String × ManagedTorrent)) (fresh : List Torrent) (key : String)
    → is_found (lookup key (apply_diff (diff current fresh) current).torrents)
      ≡ (any_key key fresh || skips (lookup key current))
unfolding apply_diff
found-apply_diff current fresh key =
    let d = diff current fresh in
    let r0 : Refresh = record { torrents = current; to_upsert = []; changed_paths = [] } in
    let r1 = apply_added d.added r0 in
    let r2 = apply_changed d.changed r1 in
    let (in_added, in_removed, in_changed) = diff-any_key current fresh key in
    let found = has_iff key current in
    let kept = apply_changed_keeps key d.changed r1 in
    found-apply_removed key d.removed_keys r2 ∙ elim (Bool-cases (any_key key fresh)) [
      | inl listed ↦
          let found1 = found-apply_added key d.added r0 in
          ground (arith, in_added, in_removed, found, kept.0, listed, found1)
      | inr gone ↦
          let same = lookup-apply_added key d.added r0 (in_added ∙ rw gone refl) in
          let found1 = ap is_found same in
          let skips1 = ap skips same in
          ground (
            arith,
            in_removed,
            found,
            kept.0,
            kept.1,
            gone,
            found1,
            skips1,
            skips_found (lookup key current),
          )
    ]

apply_nothing :
    (d : DiffResult) (added changed : List Merged) (removed : List String) (r : Refresh)
    → (is_nil added && (is_nil removed && is_nil changed)) ≡ true
    → apply_removed removed (apply_changed changed (apply_added added r)) ≡ r
unfolding apply_added apply_changed apply_removed
apply_nothing d [] [] [] r h = refl
apply_nothing d [] (f ∷ fs) [] r h = cc
apply_nothing d [] fs (k ∷ keys) r h = cc
apply_nothing d (f ∷ fs) gs keys r h = cc

apply_diff_nothing :
    (d : DiffResult) (current : List (String × ManagedTorrent))
    → is_empty_diff d ≡ true
    → (apply_diff d current).torrents ≡ current
unfolding apply_diff
apply_diff_nothing d current h =
    ap (λ (r : Refresh). r.torrents)
      (apply_nothing d d.added d.changed d.removed_keys
        (record { torrents = current; to_upsert = []; changed_paths = [] }) h)

torrents-sync_rows :
    (w : World) (json : Json) (rows : List TorrentRow) (m : Manager)
    → (sync_rows w json rows m).1.torrents ≡ m.torrents
torrents-sync_rows w json [] m = refl
torrents-sync_rows w json (row ∷ rows) m =
    torrents-stored (w.db_works m.calls) (upsert_torrents_batch_conn json (row ∷ rows) m.table) m

torrents-run_once :
    (w : World) (json : Json) (fresh_all : List Torrent) (m : Manager)
    → (run_once w json fresh_all m).1.torrents
      ≡ (apply_diff (diff m.torrents (without_errored fresh_all)) m.torrents).torrents
unfolding run_once
torrents-run_once w json fresh_all m =
    let d = diff m.torrents (without_errored fresh_all) in
    let r = apply_diff d m.torrents in
    let m1 : Manager = record m { torrents = r.torrents; calls = m.calls + 1 } in
    let rows = rows_of json (w.now m.calls) r.to_upsert in
    elim (Bool-cases (is_empty_diff d)) [
      | inl nothing ↦ rw nothing (sym (apply_diff_nothing d m.torrents nothing))
      | inr some_change ↦ rw some_change (
          torrents-triggered r.changed_paths (sync_rows w json rows m1)
          ∙ torrents-sync_rows w json rows m1)
    ]

-- After a refresh, whether or not the database takes its rows, the registry has a torrent for a key
-- just when a torrent of the account's list that is not errored has that key, or the registry had
-- one that is under repair: nothing else stays, and nothing that is being repaired is lost.
pub found-run_once :
    (w : World) (json : Json) (fresh_all : List Torrent) (m : Manager) (key : String)
    → is_found (lookup key (run_once w json fresh_all m).1.torrents)
      ≡ (any_key key (without_errored fresh_all) || skips (lookup key m.torrents))
found-run_once w json fresh_all m key =
    ap (λ (t : List (String × ManagedTorrent)). is_found (lookup key t))
      (torrents-run_once w json fresh_all m)
    ∙ found-apply_diff m.torrents (without_errored fresh_all) key

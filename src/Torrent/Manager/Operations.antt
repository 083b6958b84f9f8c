-- ===== src/Torrent/Manager/Operations.antt =====
-- The operations on the registry, and what each leaves of the agreement with the table.
use mathlib.Core.Path.{subst}
use rd_rs.Prelude.{
  ◌≡◌, refl, sym, inl, inr, ◌≢◌, ◌⊎◌, ◌∙◌, Bool, true, Option, none, some, List, String, Bool-cases,
}
use rd_rs.Prelude.Map.{◌=?◌, lookup, string_keys}
use rd_rs.Torrent.Types.{TorrentState, ManagedTorrent}
use rd_rs.Db.{Json, IsJson}
use rd_rs.Torrent.Manager.{
  World, Manager, store, persist_torrent_snapshot, replaced, replace_existing,
  replace_rd_ids_after_repair, with_broken_file, mark_existing, mark_file_broken, in_state,
  library_paths_for, update_existing, update_torrent_state,
}
use rd_rs.Torrent.Manager.Persisted.{
  NoRepeat, PersistedAt-other, PersistedAt, Persists, Persists-store, Persists-none,
  Persists-triggered,
}

pub data Operation : Type 0 where
  persist : ManagedTorrent → Operation
  replace : (key : String) (rd_ids : List String) → Operation
  mark_broken : (key path : String) → Operation
  update : (key : String) → TorrentState → Option String → Operation

abbrev pub run : World → Json → Operation → Manager → Bool × Manager
run w json (persist mt) m = persist_torrent_snapshot w json mt m
run w json (replace key rd_ids) m = replace_rd_ids_after_repair w json key rd_ids m
run w json (mark_broken key path) m = mark_file_broken w json key path m
run w json (update key state reason) m = update_torrent_state w json key state reason m

abbrev pub target : Operation → String
target (persist mt) = mt.access_key
target (replace key rd_ids) = key
target (mark_broken key path) = key
target (update key state reason) = key

-- Each torrent stands under its own key, and the table agrees at every key.
pub record IsPersisted (json : Json) (m : Manager) : Type 0 where
  pub keyed :
      (key : String) (mt : ManagedTorrent) → lookup key m.torrents ≡ some mt → mt.access_key ≡ key
  pub synced : (key : String) → PersistedAt json key m
  pub once : NoRepeat m.table

abbrev Named : String → Option ManagedTorrent → Type 0
Named key o = (mt : ManagedTorrent) → o ≡ some mt → mt.access_key ≡ key

module _ (w : World) (json : Json) (laws : IsJson json) (m : Manager) where
  Persists-replace :
      (key : String) (rd_ids : List String) (o : Option ManagedTorrent)
      → lookup key m.torrents ≡ o
      → Named key o
      → PersistedAt json key m
      → Persists json key m (replace_existing w json rd_ids o m)
  unfolding replace_existing persist_torrent_snapshot
  Persists-replace key rd_ids none e own h =
      Persists-none json key m (λ mt found. absurd (cc (e, found))) h
  Persists-replace key rd_ids (some mt) e own h =
      subst (λ (k : String). Persists json k m (store w json mt.access_key (replaced rd_ids mt) m))
        (own mt refl) (Persists-store json laws w mt.access_key (replaced rd_ids mt) m refl)

  Persists-mark :
      (key path : String) (o : Option ManagedTorrent)
      → lookup key m.torrents ≡ o
      → Named key o
      → PersistedAt json key m
      → Persists json key m (mark_existing w json key path o m)
  unfolding mark_existing
  Persists-mark key path none e own h =
      Persists-none json key m (λ mt found. absurd (cc (e, found))) h
  Persists-mark key path (some mt) e own h =
      Persists-store json laws w key (with_broken_file path mt) m (own mt refl)

  Persists-update :
      (key : String) (s : TorrentState) (reason : Option String) (o : Option ManagedTorrent)
      → lookup key m.torrents ≡ o
      → Named key o
      → PersistedAt json key m
      → Persists json key m (update_existing w json key s reason o m)
  unfolding update_existing
  Persists-update key s reason none e own h =
      Persists-none json key m (λ mt found. absurd (cc (e, found))) h
  Persists-update key s reason (some mt) e own h =
      let updated = in_state s reason (w.now m.calls) mt in
      Persists-triggered json key (library_paths_for updated) m (store w json key updated m)
        (Persists-store json laws w key updated m (own mt refl))

  pub Persists-run :
      (op : Operation) → IsPersisted json m → Persists json (target op) m (run w json op m)
  unfolding persist_torrent_snapshot replace_rd_ids_after_repair mark_file_broken
      update_torrent_state
  Persists-run (persist mt) h = Persists-store json laws w mt.access_key mt m refl
  Persists-run (replace key rd_ids) h =
      let o = lookup key m.torrents in
      Persists-replace key rd_ids o refl (λ mt found. h.keyed key mt found) (h.synced key)
  Persists-run (mark_broken key path) h =
      let o = lookup key m.torrents in
      Persists-mark key path o refl (λ mt found. h.keyed key mt found) (h.synced key)
  Persists-run (update key s reason) h =
      let o = lookup key m.torrents in
      Persists-update key s reason o refl (λ mt found. h.keyed key mt found) (h.synced key)

pub String-cases : (a b : String) → (a ≡ b) ⊎ (a ≢ b)
String-cases a b = elim (Bool-cases (a =? b)) [
  | inl same ↦ inl (((string_keys).beq_iff a b).0 same)
  | inr differs ↦ inr (λ e. absurd (cc (((string_keys).beq_iff a b).1 e, differs)))
]

-- Whatever operation runs on a registry that agrees with its table, and whether the database fails
-- or not: each torrent still stands under its own key, the table agrees at every key but that of
-- the operation, and at that key too if the operation answers success, and the table has no key
-- twice.
pub run-IsPersisted :
    (w : World) (json : Json) (op : Operation) (m : Manager)
    → IsJson json
    → IsPersisted json m
    → ((key : String) (mt : ManagedTorrent)
        → lookup key (run w json op m).1.torrents ≡ some mt
        → mt.access_key ≡ key)
      × ((key : String) → key ≢ target op → PersistedAt json key (run w json op m).1)
      × ((run w json op m).0 ≡ true → PersistedAt json (target op) (run w json op m).1)
      × NoRepeat (run w json op m).1.table
run-IsPersisted w json op m laws h =
    let p = Persists-run w json laws m op h in
    (
      λ key mt found. keyed_after p key mt found,
      λ key other.
          PersistedAt-other json (target op) key m (run w json op m) p other (h.synced key),
      p.own,
      p.rows h.once,
    )
  where
    keyed_after :
        Persists json (target op) m (run w json op m)
        → (key : String) (mt : ManagedTorrent) → lookup key (run w json op m).1.torrents ≡ some mt
        → mt.access_key ≡ key
    keyed_after p key mt found = elim (String-cases key (target op)) [
      | inl same ↦ p.named mt (rw (← same) found) ∙ sym same
      | inr other ↦ h.keyed key mt (sym (p.torrents key other) ∙ found)
    ]

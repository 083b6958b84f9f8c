-- ===== src/Torrent/Manager/Persisted.antt =====
-- The registry and its table in the database agree.
use mathlib.Core.Path.{subst}
use mathlib.Core.Option.{some-injective}
use rd_rs.Prelude.{
  ℕ, ◌+◌, ◌≡◌, refl, sym, ap, ◌∙◌, inl, inr, ◌≢◌, Bool, true, false, Option, none, some, List, [],
  ◌∷◌, String, Bool-cases,
}
use rd_rs.Prelude.Map.{◌=?◌, =?_ne, lookup, insert, lookup-insert, lookup-insert_self, string_keys}
use rd_rs.Torrent.Types.{
  TorrentState, ok, broken, under_repair, ManagedTorrent, state_text, state_from, FileStates,
}
use rd_rs.Db.{
  Json, IsJson, TorrentRow, TorrentColumns, Torrents, read_back, columns_of, upsert_one, and_then,
  upsert_torrents_batch_conn,
}
use rd_rs.Torrent.Manager.{
  World, Manager, written, torrent_to_row, stored, store, in_state, triggered, library_paths_for,
  update_existing, update_torrent_state,
}

-- The columns say of a torrent all that is to be durable.
pub record IsRowOf (json : Json) (mt : ManagedTorrent) (c : TorrentColumns) : Type 0 where
  pub ids : json.read_ids c.rd_ids ≡ some mt.rd_ids
  pub hash : c.hash ≡ mt.torrent.hash
  pub name : c.name ≡ mt.torrent.name
  pub state : state_from c.state ≡ some mt.state
  pub reason : c.unrepairable ≡ mt.unrepairable_reason
  pub states : read_back json.read_states c.file_states ≡ mt.file_states
  pub repaired : c.last_repaired_at ≡ mt.last_repaired_at
  pub started : c.under_repair_started_at ≡ mt.under_repair_started_at

abbrev pub Matches : Json → Option ManagedTorrent → Option TorrentColumns → Type 0
Matches json none none = Unit {0}
Matches json none (some c) = ⊥
Matches json (some mt) none = ⊥
Matches json (some mt) (some c) = IsRowOf json mt c

-- The table has a row for the key just when the registry has a torrent, and it is that torrent's.
unfoldable pub PersistedAt : Json → String → Manager → Type 0
PersistedAt json key m = Matches json (lookup key m.torrents) (lookup key m.table)

state_from-state_text : (s : TorrentState) → state_from (state_text s) ≡ some s
unfolding state_from
state_from-state_text ok = refl
state_from-state_text broken = refl
state_from-state_text under_repair = refl

states_back :
    (json : Json) (fs : Option FileStates)
    → IsJson json
    → read_back json.read_states (written json fs) ≡ fs
states_back json none laws = refl
states_back json (some m) laws = laws.states_back m

IsRowOf-columns_of :
    (json : Json) (now : ℕ) (mt : ManagedTorrent) (ids : String)
    → IsJson json
    → json.write_ids mt.rd_ids ≡ some ids
    → IsRowOf json mt (columns_of (torrent_to_row json now mt) ids)
unfolding torrent_to_row
IsRowOf-columns_of json now mt ids laws e = record {
  ids = rw e at (laws.ids_back mt.rd_ids);
  hash = refl;
  name = refl;
  state = state_from-state_text mt.state;
  reason = refl;
  states = states_back json mt.file_states laws;
  repaired = refl;
  started = refl;
}

-- The primary key.
unfoldable pub NoRepeat : Torrents → Type 0
NoRepeat [] = Unit {0}
NoRepeat ((key, c) ∷ t) = (lookup key t ≡ none) × NoRepeat t

NoRepeat-insert :
    (key : String) (c : TorrentColumns) (t : Torrents) → NoRepeat t → NoRepeat (insert key c t)
unfolding NoRepeat insert lookup
NoRepeat-insert key c [] h = (refl, tt)
NoRepeat-insert key c ((j, d) ∷ t) h = elim (Bool-cases (j =? key)) [
  | inl same ↦ rw same h
  | inr differs ↦
      let other =
        =?_ne key j (λ e. absurd (cc (((string_keys).beq_iff j key).1 (sym e), differs))) in
      rw differs (lookup-insert key j c t ∙ rw other (h.0), NoRepeat-insert key c t h.1)
]

-- What an operation on one torrent leaves: the others as they were, and this one persisted if the
-- operation succeeded.
pub record Persists (json : Json) (key : String) (m : Manager) (r : Bool × Manager) : Type 0 where
  pub own : r.0 ≡ true → PersistedAt json key r.1
  pub named : (mt : ManagedTorrent) → lookup key r.1.torrents ≡ some mt → mt.access_key ≡ key
  pub rows : NoRepeat m.table → NoRepeat r.1.table
  pub torrents : (j : String) → j ≢ key → lookup j r.1.torrents ≡ lookup j m.torrents
  pub table : (j : String) → j ≢ key → lookup j r.1.table ≡ lookup j m.table

lookup-insert_other {κ} :
    {V : Type κ} (key j : String) (v : V) (m : List (String × V))
    → j ≢ key
    → lookup j (insert key v m) ≡ lookup j m
lookup-insert_other key j v m h = lookup-insert key j v m ∙ rw (=?_ne key j (λ e. h (sym e))) refl

named_self :
    (mt : ManagedTorrent) (m : List (String × ManagedTorrent)) (found : ManagedTorrent)
    → lookup mt.access_key (insert mt.access_key mt m) ≡ some found
    → found.access_key ≡ mt.access_key
named_self mt m found h =
    let same = some-injective mt found (sym (lookup-insert_self mt.access_key mt m) ∙ h) in
    ap (λ (t : ManagedTorrent). t.access_key) (sym same)

module _ (json : Json) (laws : IsJson json) where
  Persists-stored :
      (mt : ManagedTorrent) (works : Bool) (ids : Option String) (now n : ℕ) (m : Manager)
      → json.write_ids mt.rd_ids ≡ ids
      → Persists json mt.access_key m (
          stored works
            (and_then (upsert_one (torrent_to_row json now mt) ids m.table) some)
            (record m { torrents = insert mt.access_key mt m.torrents; calls = n }))
  unfolding PersistedAt torrent_to_row
  Persists-stored mt works none now n m e = absurd (cc (rw e at (laws.ids_back mt.rd_ids)))
  Persists-stored mt false (some ids) now n m e = record {
    own = λ done. absurd (cc done);
    named = named_self mt m.torrents;
    rows = λ once. once;
    torrents = λ j other. lookup-insert_other mt.access_key j mt m.torrents other;
    table = λ j other. refl;
  }
  Persists-stored mt true (some ids) now n m e =
      let key = mt.access_key in
      let c = columns_of (torrent_to_row json now mt) ids in
      record {
        own = λ done.
            rw (lookup-insert_self key mt m.torrents, lookup-insert_self key c m.table)
              (IsRowOf-columns_of json now mt ids laws e);
        named = named_self mt m.torrents;
        rows = λ once. NoRepeat-insert key c m.table once;
        torrents = λ j other. lookup-insert_other key j mt m.torrents other;
        table = λ j other. lookup-insert_other key j c m.table other;
      }

  pub Persists-store :
      (w : World) (key : String) (mt : ManagedTorrent) (m : Manager)
      → mt.access_key ≡ key
      → Persists json key m (store w json key mt m)
  unfolding store upsert_torrents_batch_conn
  Persists-store w key mt m own =
      subst
        (λ (k : String). Persists json k m (
          stored (w.db_works m.calls)
            (and_then
              (upsert_one (torrent_to_row json (w.now m.calls) mt) (json.write_ids mt.rd_ids)
                m.table)
              some)
            (record m { torrents = insert k mt m.torrents; calls = m.calls + 1 })))
        own
        (Persists-stored mt (w.db_works m.calls) (json.write_ids mt.rd_ids) (w.now m.calls)
          (m.calls + 1) m refl)

pub Persists-none :
    (json : Json) (key : String) (m : Manager)
    → ((mt : ManagedTorrent) → lookup key m.torrents ≡ some mt → mt.access_key ≡ key)
    → PersistedAt json key m
    → Persists json key m (true, m)
Persists-none json key m named h = record {
  own = λ done. h;
  named = named;
  rows = λ once. once;
  torrents = λ j other. refl;
  table = λ j other. refl;
}

-- The hook worker's channel is no part of the agreement.
pub Persists-triggered :
    (json : Json) (key : String) (ps : List String) (m : Manager) (r : Bool × Manager)
    → Persists json key m r
    → Persists json key m (triggered ps r)
unfolding PersistedAt
Persists-triggered json key [] m r h = h
Persists-triggered json key (p ∷ ps) m (true, m1) h = record {
  own = h.own;
  named = h.named;
  rows = h.rows;
  torrents = h.torrents;
  table = h.table;
}
Persists-triggered json key (p ∷ ps) m (false, m1) h = h

-- Another key is persisted as it was.
pub PersistedAt-other :
    (json : Json) (key j : String) (m : Manager) (r : Bool × Manager)
    → Persists json key m r
    → j ≢ key
    → PersistedAt json j m
    → PersistedAt json j r.1
unfolding PersistedAt
PersistedAt-other json key j m r h other p = rw (h.torrents j other, h.table j other) p

pub PersistedAt-row :
    (json : Json) (key : String) (m : Manager)
    → PersistedAt json key m
    → Matches json (lookup key m.torrents) (lookup key m.table)
unfolding PersistedAt
PersistedAt-row json key m h = h

pub NoRepeat-head :
    (key : String) (c : TorrentColumns) (t : Torrents)
    → NoRepeat ((key, c) ∷ t)
    → lookup key t ≡ none
unfolding NoRepeat
NoRepeat-head key c t h = h.0

pub NoRepeat-tail :
    (key : String) (c : TorrentColumns) (t : Torrents) → NoRepeat ((key, c) ∷ t) → NoRepeat t
unfolding NoRepeat
NoRepeat-tail key c t h = h.1

store-succeeds :
    (works : Bool) (ids : Option String) (row : TorrentRow) (t : Torrents) (m : Manager)
    (expected : List String) (json : Json)
    → works ≡ true
    → read_back json.read_ids ids ≡ some expected
    → (stored works (and_then (upsert_one row ids t) some) m).0 ≡ true
store-succeeds false ids row t m expected json w e = cc
store-succeeds true none row t m expected json w e = cc
store-succeeds true (some s) row t m expected json w e = refl

triggered-succeeds :
    (ps : List String) (r : Bool × Manager) → r.0 ≡ true → (triggered ps r).0 ≡ true
triggered-succeeds [] r h = h
triggered-succeeds (p ∷ ps) (true, m) h = refl
triggered-succeeds (p ∷ ps) (false, m) h = h

-- A change of state succeeds while the database works.
pub update-succeeds :
    (w : World) (json : Json) (key : String) (s : TorrentState) (reason : Option String)
    (mt : ManagedTorrent) (m : Manager)
    → IsJson json
    → w.db_works m.calls ≡ true
    → lookup key m.torrents ≡ some mt
    → (update_torrent_state w json key s reason m).0 ≡ true
unfolding update_torrent_state update_existing store upsert_torrents_batch_conn torrent_to_row
update-succeeds w json key s reason mt m laws works h =
    let updated = in_state s reason (w.now m.calls) mt in
    rw h (
      triggered-succeeds (library_paths_for updated) _ (
        store-succeeds (w.db_works m.calls) (json.write_ids mt.rd_ids)
          (torrent_to_row json (w.now m.calls) updated) m.table _ mt.rd_ids json works
          (laws.ids_back mt.rd_ids)))

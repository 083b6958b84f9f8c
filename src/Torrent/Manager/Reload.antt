-- ===== src/Torrent/Manager/Reload.antt =====
-- A restart after any operations gives the registry back, as far as it is durable.
use rd_rs.Prelude.{
  ℕ, ◌≡◌, refl, sym, ap, ◌∙◌, inl, inr, Bool, true, Option, none, some, List, [], ◌∷◌, String,
  arith, Bool-cases,
}
use rd_rs.Prelude.Map.{◌=?◌, lookup, insert, lookup-insert, string_keys}
use rd_rs.Torrent.Types.{ManagedTorrent}
use rd_rs.Db.{Json, IsJson, Torrents, TorrentColumns, row_to_torrent, get_all_torrents_conn}
use rd_rs.Torrent.Manager.{World, Manager, first_or, loaded, load_rows, load_from_db}
use rd_rs.Torrent.Manager.Persisted.{
  IsRowOf, Matches, PersistedAt-row, NoRepeat, NoRepeat-head, NoRepeat-tail,
}
use rd_rs.Torrent.Manager.Operations.{
  Operation, run, target, IsPersisted, run-IsPersisted, String-cases,
}

-- A sequence of operations that all answer success.
pub data Runs (w : World) (json : Json) (m : Manager) : Manager → Type 0 where
  here : Runs w json m m
  next :
      {m1 m2 : Manager} (op : Operation)
      → Runs w json m m1
      → run w json op m1 ≡ (true, m2)
      → Runs w json m m2

IsPersisted-success :
    (w : World) (json : Json) (op : Operation) (m : Manager)
    → IsJson json
    → IsPersisted json m
    → (run w json op m).0 ≡ true
    → IsPersisted json (run w json op m).1
IsPersisted-success w json op m laws h done =
    let (keyed, others, own, once) = run-IsPersisted w json op m laws h in
    record {
      keyed = keyed;
      synced = λ key. elim (String-cases key (target op)) [
        | inl same ↦ rw same (own done)
        | inr other ↦ others key other
      ];
      once = once;
    }

Runs-IsPersisted :
    {w : World} {json : Json} {m m1 : Manager}
    → IsJson json
    → IsPersisted json m
    → Runs w json m m1
    → IsPersisted json m1
Runs-IsPersisted laws h here = h
Runs-IsPersisted {w} {json} laws h (next {m1} {m2} op before e) =
    let h1 = Runs-IsPersisted laws h before in
    rw e at (IsPersisted-success w json op m1 laws h1 (ap (λ (r : Bool × Manager). r.0) e))

abbrev loaded_or :
    Json → ℕ → String → Option TorrentColumns → Option ManagedTorrent → Option ManagedTorrent
loaded_or json now key none acc = acc
loaded_or json now key (some c) acc = some (loaded json now (row_to_torrent json key c))

lookup-load_rows :
    (json : Json) (now : ℕ) (key : String) (t : Torrents) (acc : List (String × ManagedTorrent))
    → NoRepeat t
    → lookup key (load_rows json now (get_all_torrents_conn json t) acc)
      ≡ loaded_or json now key (lookup key t) (lookup key acc)
unfolding load_rows get_all_torrents_conn lookup
lookup-load_rows json now key [] acc once = refl
lookup-load_rows json now key ((k, c) ∷ t) acc once =
    let mt = loaded json now (row_to_torrent json k c) in
    let rest = lookup-load_rows json now key t (insert k mt acc) (NoRepeat-tail k c t once) in
    elim (Bool-cases (k =? key)) [
      | inl same ↦
          let is_key : k ≡ key = ((string_keys).beq_iff k key).0 same in
          let gone : lookup key t ≡ none =
            ap (λ x. lookup x t) (sym is_key) ∙ NoRepeat-head k c t once in
          rest
          ∙ rw (gone, lookup-insert k key mt acc, same)
              (ap (λ x. some (loaded json now (row_to_torrent json x c))) is_key)
      | inr differs ↦ rest ∙ rw (differs, lookup-insert k key mt acc) (rw differs refl)
    ]

-- What of a torrent outlives a restart: all but the details, the list entry being made up.
abbrev pub restored : ℕ → ManagedTorrent → ManagedTorrent
restored now mt = record mt {
  torrent = record {
    id = first_or mt.rd_ids mt.access_key;
    name = mt.torrent.name;
    hash = mt.torrent.hash;
    progress = 100;
    status = "downloaded";
    links = [];
    added = now;
  };
  info = none;
}

abbrev pub map_restored : ℕ → Option ManagedTorrent → Option ManagedTorrent
map_restored now none = none
map_restored now (some mt) = some (restored now mt)

loaded_row :
    (json : Json) (now : ℕ) (key : String) (mt : ManagedTorrent) (c : TorrentColumns)
    → IsRowOf json mt c
    → mt.access_key ≡ key
    → loaded json now (row_to_torrent json key c) ≡ restored now mt
loaded_row json now key mt c h own = ground (arith, h.ids, h.state)

loaded_or-restored :
    (json : Json) (now : ℕ) (key : String) (o : Option ManagedTorrent) (c : Option TorrentColumns)
    → Matches json o c
    → ((mt : ManagedTorrent) → o ≡ some mt → mt.access_key ≡ key)
    → loaded_or json now key c none ≡ map_restored now o
loaded_or-restored json now key none none h own = refl
loaded_or-restored json now key none (some c) h own = absurd h
loaded_or-restored json now key (some mt) none h own = absurd h
loaded_or-restored json now key (some mt) (some c) h own =
    ap some (loaded_row json now key mt c h (own mt refl))

-- The registry refines a durable map: after any operations that all answer success, starting where
-- registry and table agree, a restart reads back from the table for every key the torrent that the
-- registry has, or none where it has none, with its ids, hash, name, state, reason, file states
-- and repair times; only the details are gone, and the entry of the account's list is made up.
pub lookup-load_from_db :
    {w : World} {json : Json} {m m1 : Manager} (now : ℕ) (key : String)
    → IsJson json
    → IsPersisted json m
    → Runs w json m m1
    → lookup key (load_from_db json now m1.table) ≡ map_restored now (lookup key m1.torrents)
unfolding load_from_db lookup
lookup-load_from_db {w} {json} {m} {m1} now key laws h runs =
    let h1 = Runs-IsPersisted laws h runs in
    lookup-load_rows json now key m1.table [] h1.once
    ∙ loaded_or-restored json now key (lookup key m1.torrents) (lookup key m1.table)
        (PersistedAt-row json key m1 (h1.synced key)) (h1.keyed key)

-- ===== src/Repair/Engine/OneTorrent.antt =====
-- The repair of one torrent ends it or passes it over.
use rd_rs.Prelude.{
  ℕ, ◌≡◌, refl, inl, inr, ◌⊎◌, Bool, true, not, ◌||◌, ◌&&◌, Option, none, some, List, [], ◌∷◌,
  String, arith, Bool-cases, or_true,
}
use rd_rs.Prelude.Map.{lookup, lookup-insert_self, string_keys}
use rd_rs.Torrent.Types.{TorrentInfo, broken, ManagedTorrent}
use rd_rs.Db.{IsJson}
use rd_rs.Torrent.Manager.{Manager}
use rd_rs.Repair.Account.{Account, Answer, answered, failed, Log, asked_info}
use rd_rs.Repair.Capacity.{wait_for_repair_capacity}
use rd_rs.Repair.Detect.{is_some}
use rd_rs.Repair.Strategies.{RepairConfig}
use rd_rs.Repair.Engine.{
  Surroundings, Progress, with_info, info_loaded, load_info, ensure_loaded, ensure_found,
  ensure_torrent_info, is_stuck, has_capacity, repair_known, repair_one_torrent,
}
use rd_rs.Repair.Engine.Registry.{is_settled, is_settled-update}
use rd_rs.Repair.Engine.Ends.{has_ids, has_info, has_source, start_repair-HasEnded}

-- What `ensure_torrent_info` found stands in the registry.
abbrev Stands : String → Option ManagedTorrent × Progress → Type 0
Stands key (none, p) = Unit {0}
Stands key (some mt, p) = (lookup key p.0.torrents ≡ some mt) × (has_source mt ≡ true)

Stands-info_loaded :
    (key : String) (mt : ManagedTorrent) (a : Answer TorrentInfo) (m : Manager) (l : Log)
    → has_source mt ≡ true
    → lookup key m.torrents ≡ some mt
    → let r = info_loaded key mt a m in Stands key (r.0, (r.1, l))
unfolding info_loaded
Stands-info_loaded key mt (failed e) m l src h = (h, src)
Stands-info_loaded key mt (answered info) m l src h =
    (lookup-insert_self key (with_info info mt) m.torrents, refl)

Stands-load_info :
    (rd : Account) (key : String) (mt : ManagedTorrent) (ids : List String) (m : Manager) (l : Log)
    → (has_ids ids ≡ true → has_source mt ≡ true)
    → lookup key m.torrents ≡ some mt
    → Stands key (load_info rd key mt ids (m, l))
unfolding load_info
Stands-load_info rd key mt [] m l src h = tt
Stands-load_info rd key mt (id ∷ ids) m l src h =
    let a = rd.get_torrent_info l id in
    Stands-info_loaded key mt a m (asked_info id a ∷ l) (src refl) h

Stands-ensure_loaded :
    (rd : Account) (key : String) (mt : ManagedTorrent) (o : Option TorrentInfo) (m : Manager)
    (l : Log)
    → mt.info ≡ o
    → lookup key m.torrents ≡ some mt
    → Stands key (ensure_loaded rd key mt o (m, l))
unfolding ensure_loaded
Stands-ensure_loaded rd key mt (some info) m l e h = (h, ground (arith, e))
Stands-ensure_loaded rd key mt none m l e h =
    Stands-load_info rd key mt mt.rd_ids m l (λ ids. rw ids (or_true (has_info mt.info))) h

Stands-ensure_found :
    (rd : Account) (key : String) (o : Option ManagedTorrent) (m : Manager) (l : Log)
    → lookup key m.torrents ≡ o
    → Stands key (ensure_found rd key o (m, l))
unfolding ensure_found
Stands-ensure_found rd key none m l h = tt
Stands-ensure_found rd key (some mt) m l h = Stands-ensure_loaded rd key mt mt.info m l refl h

-- A torrent that a repair may pass over: one that is not known, that was given up, or that does
-- not hang in a repair while there is no capacity for another one.
abbrev pub may_pass : Surroundings → ℕ → Option ManagedTorrent → Manager → Bool
may_pass s timeout_mins none m = true
may_pass s timeout_mins (some mt) m =
    let hangs = is_stuck timeout_mins (s.world.now m.calls) mt.state mt.under_repair_started_at in
    is_some mt.unrepairable_reason
    || (not hangs && not (has_capacity (wait_for_repair_capacity (s.capacity m.calls))))

-- The repair left everything as it found it, as it may for this torrent, or the torrent is no
-- longer under repair.
abbrev pub Leaves : Surroundings → ℕ → String → Option ManagedTorrent → Progress → Progress → Type 0
Leaves s timeout_mins key o p r =
    ((r ≡ p) × (may_pass s timeout_mins o p.0 ≡ true))
    ⊎ (is_settled (lookup key r.0.torrents) ≡ true)

Leaves-repair_known :
    (s : Surroundings) (cfg : RepairConfig) (timeout_mins : ℕ) (key : String)
    (o : Option ManagedTorrent) (p : Progress)
    → IsJson s.json
    → ((n : ℕ) → s.world.db_works n ≡ true)
    → Stands key (o, p)
    → Leaves s timeout_mins key o p (repair_known s cfg timeout_mins key o p)
unfolding repair_known
Leaves-repair_known s cfg timeout_mins key none p laws works h = inl (refl, refl)
Leaves-repair_known s cfg timeout_mins key (some mt) (m, l) laws works h =
    let now = s.world.now m.calls in
    let stuck = is_stuck timeout_mins now mt.state mt.under_repair_started_at in
    let free = has_capacity (wait_for_repair_capacity (s.capacity m.calls)) in
    elim (Bool-cases (is_some mt.unrepairable_reason)) [
      | inl given_up ↦ rw given_up (inl (refl, refl))
      | inr open_case ↦ elim (Bool-cases stuck) [
        | inl hangs ↦
            rw (open_case, hangs)
              (inr (is_settled-update s.world s.json key broken none m (rw (h.0) refl) refl))
        | inr moves ↦ elim (Bool-cases free) [
          | inl slot ↦
              rw (open_case, moves, slot)
                (inr (start_repair-HasEnded s cfg key mt m l laws works h.1 h.0).0)
          | inr full ↦ rw (open_case, moves, full) (inl (refl, refl))
        ]
      ]
    ]

-- The repair of one torrent, where the database works: the torrent is there afterwards and not
-- under repair; or the call does nothing but load its details, and then it is not known, or was
-- given up before, or there is no capacity for a repair and it does not hang in one. So, where the
-- database works, a repair that hangs is reset, unless its torrent was given up, and no call leaves
-- a torrent under repair that it put there.
pub repair_one_torrent-Leaves :
    (s : Surroundings) (cfg : RepairConfig) (timeout_mins : ℕ) (key : String) (m : Manager)
    (l : Log)
    → IsJson s.json
    → ((n : ℕ) → s.world.db_works n ≡ true)
    → let (found, loaded) = ensure_torrent_info s.account key (m, l) in
      Leaves s timeout_mins key found loaded (repair_one_torrent s cfg timeout_mins key (m, l))
unfolding repair_one_torrent ensure_torrent_info
repair_one_torrent-Leaves s cfg timeout_mins key m l laws works =
    let o = lookup key m.torrents in
    let e = ensure_found s.account key o (m, l) in
    Leaves-repair_known s cfg timeout_mins key e.0 e.1 laws works
      (Stands-ensure_found s.account key o m l refl)

-- ===== src/Repair/Strategies/Cleanup.antt =====
-- What becomes of the magnets that a repair adds: none is left but those that a success keeps.
use rd_rs.Prelude.{
  ℕ, ◌≡◌, refl, inl, inr, Bool, Option, none, some, List, [], ◌∷◌, String, Bool-cases, length, ◌==◌,
  ltb, leb,
}
use rd_rs.Prelude.Map.{◌=?◌, string_keys}
use rd_rs.Rd.Client.Errors.{RdError, is_bandwidth_limited}
use rd_rs.Torrent.Types.{File, TorrentInfo, ManagedTorrent, selected_files}
use rd_rs.Repair.Account.{Account, answered, failed, Log, delete_all}
use rd_rs.Repair.Reasons.{
  from_rd_error_message, CascadeOutcome, success, unrepairable, unrepairable_msg, defer_bandwidth,
}
use rd_rs.Repair.Strategies.{
  map_rd, named_reason, uncached_outcome, ends, Tried, not_added, not_selected, polled, try_magnet,
  give_up_uncached, reinserted, limited_or, next_turn, all_counted, limited_end, LoopTurn, returns,
  goes_on, turn_of, LoopEnd, stopped, through, counted, try_each, archived, finish_failure, batches,
  id_texts, files_to_select, batch_size_of, no_playable, Ended, try_strategy_1_reinsert,
  individual_files, archive_all, batch_download, or_else, from_strategy_4, from_strategy_3,
  from_strategy_2, RepairConfig, without_info, four_strategies, with_info, cascade_of,
  execute_cascade,
}
use rd_rs.Repair.Detect.{has_non_playable_selected, duplicate_selected_file_ids}
use rd_rs.Repair.Strategies.Magnets.{
  held, Settled, Settled-drop, Settled-deleted, Settled-delete_all, Settled-try_magnet,
}

-- The magnets that an outcome keeps.
abbrev pub kept_by : Option CascadeOutcome → List String
kept_by none = []
kept_by (some (success none)) = []
kept_by (some (success (some ids))) = ids
kept_by (some (unrepairable r)) = []
kept_by (some (unrepairable_msg m)) = []
kept_by (some defer_bandwidth) = []

-- The magnets of a run that has ended, or has come so far.
abbrev pub IsTidy : Ended → Type 0
IsTidy r = Settled (kept_by r.0) r.1

named_reason-keeps : (r : Option String) → kept_by (some (named_reason r)) ≡ []
named_reason-keeps none = refl
named_reason-keeps (some r) = refl

map_rd-keeps : (rd : Account) (e : RdError) → kept_by (some (map_rd rd e)) ≡ []
unfolding map_rd
map_rd-keeps rd e = elim (Bool-cases (is_bandwidth_limited e)) [
  | inl limited ↦ rw limited
  | inr other ↦ rw other (named_reason-keeps (from_rd_error_message rd.to_lowercase (rd.display e)))
]

uncached-keeps : (rd : Account) (r : Option RdError) → kept_by (some (uncached_outcome rd r)) ≡ []
uncached-keeps rd none = refl
uncached-keeps rd (some e) = elim (Bool-cases (is_bandwidth_limited e)) [
  | inl limited ↦ rw limited
  | inr other ↦ rw other (map_rd-keeps rd e)
]

IsTidy-give_up :
    (rd : Account) (id : String) (l : Log)
    → Settled (id ∷ []) l
    → IsTidy (ends (give_up_uncached rd id l))
unfolding give_up_uncached
IsTidy-give_up rd id l h =
    rw (uncached-keeps rd (rd.delete_torrent l id))
      (Settled-deleted id (rd.delete_torrent l id) l h)

IsTidy-error :
    (rd : Account) (e : RdError) (l : Log) → Settled [] l → IsTidy (some (map_rd rd e), l)
IsTidy-error rd e l h = rw (map_rd-keeps rd e) h

IsTidy-reinserted :
    (rd : Account) (t : Tried) (l : Log) → Settled (held t) l → IsTidy (reinserted rd t l)
unfolding reinserted
IsTidy-reinserted rd (not_added e) l h = IsTidy-error rd e l h
IsTidy-reinserted rd (not_selected id e) l h = IsTidy-error rd e _ (Settled-drop id l h)
IsTidy-reinserted rd (polled id (failed e)) l h = IsTidy-error rd e _ (Settled-drop id l h)
IsTidy-reinserted rd (polled id (answered out)) l h = elim (Bool-cases out.is_ready) [
  | inl done ↦ rw done h
  | inr waits ↦ elim (Bool-cases out.restrict_cached_not_ready) [
    | inl uncached ↦ rw (waits, uncached) (IsTidy-give_up rd id l h)
    | inr more ↦ rw (waits, more) (Settled-drop id l h)
  ]
]

-- A turn of a loop leaves no magnet, whether it returns or goes on.
abbrev turn_end : LoopTurn → Option CascadeOutcome
turn_end (returns o) = some o
turn_end (goes_on good) = none

abbrev IsTidyTurn : LoopTurn × Log → Type 0
IsTidyTurn (t, l) = (kept_by (turn_end t) ≡ []) × Settled [] l

IsTidyTurn-limited_or : (e : RdError) (l : Log) → Settled [] l → IsTidyTurn (limited_or e, l)
IsTidyTurn-limited_or e l h = elim (Bool-cases (is_bandwidth_limited e)) [
  | inl limited ↦ rw limited (refl, h)
  | inr other ↦ rw other (refl, h)
]

IsTidyTurn-turn_of :
    (rd : Account) (t : Tried) (l : Log) → Settled (held t) l → IsTidyTurn (turn_of rd t l)
unfolding turn_of give_up_uncached
IsTidyTurn-turn_of rd (not_added e) l h = IsTidyTurn-limited_or e l h
IsTidyTurn-turn_of rd (not_selected id e) l h = IsTidyTurn-limited_or e _ (Settled-drop id l h)
IsTidyTurn-turn_of rd (polled id (failed e)) l h = IsTidyTurn-limited_or e _ (Settled-drop id l h)
IsTidyTurn-turn_of rd (polled id (answered out)) l h = elim (Bool-cases out.is_ready) [
  | inl done ↦ rw done (refl, Settled-drop id l h)
  | inr waits ↦ elim (Bool-cases out.restrict_cached_not_ready) [
    | inl uncached ↦
        rw (waits, uncached)
          (
            uncached-keeps rd (rd.delete_torrent l id),
            Settled-deleted id (rd.delete_torrent l id) l h,
          )
    | inr more ↦ rw (waits, more) (refl, Settled-drop id l h)
  ]
]

abbrev loop_end : LoopEnd → Option CascadeOutcome
loop_end (stopped o) = some o
loop_end (through n) = none

abbrev IsTidyLoop : LoopEnd × Log → Type 0
IsTidyLoop (e, l) = (kept_by (loop_end e) ≡ []) × Settled [] l

IsTidyLoop-next_turn :
    (t : LoopTurn) (rest : Bool → LoopEnd × Log) (l : Log)
    → IsTidyTurn (t, l)
    → ((good : Bool) → IsTidyLoop (rest good))
    → IsTidyLoop (next_turn t rest l)
IsTidyLoop-next_turn (returns o) rest l h r = h
IsTidyLoop-next_turn (goes_on good) rest l h r = r good

IsTidyLoop-try_each :
    (rd : Account) (hash : String) (restrict : Bool) (parts : List String) (n : ℕ) (l : Log)
    → Settled [] l
    → IsTidyLoop (try_each rd hash restrict parts n l)
unfolding try_each
IsTidyLoop-try_each rd hash restrict [] n l h = (refl, h)
IsTidyLoop-try_each rd hash restrict (files ∷ rest) n l h =
    let tried = try_magnet rd hash files restrict l in
    let turned = turn_of rd tried.0 tried.1 in
    let tidy =
      IsTidyTurn-turn_of rd tried.0 tried.1 (Settled-try_magnet rd hash files restrict l h) in
    IsTidyLoop-next_turn turned.0 _ turned.1 tidy
      (λ good. IsTidyLoop-try_each rd hash restrict rest (counted good n) turned.1 tidy.1)

IsTidy-all_counted :
    (parts : List String) (r : LoopEnd × Log) → IsTidyLoop r → IsTidy (all_counted parts r)
IsTidy-all_counted parts (stopped o, l) h = rw (h.0) (h.1)
IsTidy-all_counted parts (through n, l) h = elim (Bool-cases (n == length parts)) [
  | inl all ↦ rw all h.1
  | inr some_failed ↦ rw some_failed h.1
]

IsTidy-limited_end : (e : RdError) (l : Log) → Settled [] l → IsTidy (limited_end e, l)
IsTidy-limited_end e l h = elim (Bool-cases (is_bandwidth_limited e)) [
  | inl limited ↦ rw limited h
  | inr other ↦ rw other h
]

IsTidy-archived :
    (rd : Account) (t : Tried) (l : Log) → Settled (held t) l → IsTidy (archived rd t l)
unfolding archived
IsTidy-archived rd (not_added e) l h = IsTidy-limited_end e l h
IsTidy-archived rd (not_selected id e) l h = IsTidy-limited_end e _ (Settled-drop id l h)
IsTidy-archived rd (polled id (failed e)) l h = IsTidy-limited_end e _ (Settled-drop id l h)
IsTidy-archived rd (polled id (answered out)) l h = elim (Bool-cases out.is_ready) [
  | inl done ↦ rw done h
  | inr waits ↦ elim (Bool-cases out.restrict_cached_not_ready) [
    | inl uncached ↦ rw (waits, uncached) (IsTidy-give_up rd id l h)
    | inr more ↦ rw (waits, more) (Settled-drop id l h)
  ]
]

IsTidy-archive_all :
    (rd : Account) (info : TorrentInfo) (hash : String) (restrict : Bool) (l : Log)
    → Settled [] l
    → IsTidy (archive_all rd info hash restrict l)
unfolding archive_all
IsTidy-archive_all rd info hash restrict l h =
    elim (Bool-cases (has_non_playable_selected rd.to_lowercase info)) [
      | inl extras ↦
          let t = try_magnet rd hash "all" restrict l in
          rw extras (IsTidy-archived rd t.0 t.1 (Settled-try_magnet rd hash "all" restrict l h))
      | inr playable ↦ rw playable h
    ]

IsTidy-batch_download :
    (rd : Account) (hash : String) (restrict : Bool) (n : ℕ) (fs : List File) (l : Log)
    → Settled [] l
    → IsTidy (batch_download rd hash restrict n fs l)
unfolding batch_download
IsTidy-batch_download rd hash restrict n fs l h = elim (Bool-cases (ltb 1 (length fs))) [
  | inl several ↦
      let parts = batches n fs in
      rw several (
        IsTidy-all_counted parts (try_each rd hash restrict parts 0 l)
          (IsTidyLoop-try_each rd hash restrict parts 0 l h))
  | inr lone ↦ rw lone h
]

IsTidy-individual_files :
    (rd : Account) (hash : String) (restrict : Bool) (fs : List File) (l : Log)
    → Settled [] l
    → IsTidy (individual_files rd hash restrict fs l)
unfolding individual_files
IsTidy-individual_files rd hash restrict fs l h =
    IsTidy-all_counted (id_texts fs) (try_each rd hash restrict (id_texts fs) 0 l)
      (IsTidyLoop-try_each rd hash restrict (id_texts fs) 0 l h)

IsTidy-strategy_1 :
    (rd : Account) (mt : ManagedTorrent) (files : String) (restrict : Bool) (l : Log)
    → Settled [] l
    → IsTidy (try_strategy_1_reinsert rd mt files restrict l)
unfolding try_strategy_1_reinsert
IsTidy-strategy_1 rd mt files restrict l h =
    let l0 = delete_all rd mt.rd_ids l in
    let t = try_magnet rd mt.torrent.hash files restrict l0 in
    IsTidy-reinserted rd t.0 t.1 (
      Settled-try_magnet rd mt.torrent.hash files restrict l0 (Settled-delete_all rd mt.rd_ids l h))

IsTidy-or_else :
    (r : Ended) (next : Log → CascadeOutcome × Log)
    → IsTidy r
    → ((l : Log) → Settled [] l → IsTidy (ends (next l)))
    → IsTidy (ends (or_else r next))
IsTidy-or_else (some o, l) next h k = h
IsTidy-or_else (none, l) next h k = k l h

IsTidy-finish_failure :
    (mt : ManagedTorrent) (l : Log) → Settled [] l → IsTidy (some (finish_failure mt), l)
unfolding finish_failure
IsTidy-finish_failure mt l h = elim (Bool-cases (leb (length (selected_files mt)) 1)) [
  | inl lone ↦ rw lone h
  | inr several ↦ rw several h
]

module _ (rd : Account) (mt : ManagedTorrent) (cfg : RepairConfig) where
  IsTidy-from_4 : (l : Log) → Settled [] l → IsTidy (ends (from_strategy_4 rd mt cfg l))
  unfolding from_strategy_4
  IsTidy-from_4 l h =
      let fs = selected_files mt in
      let r = batch_download rd mt.torrent.hash cfg.restrict_to_cached (batch_size_of cfg) fs l in
      IsTidy-or_else r (λ l1. (finish_failure mt, l1))
        (IsTidy-batch_download rd mt.torrent.hash cfg.restrict_to_cached (batch_size_of cfg) fs l h)
        (IsTidy-finish_failure mt)

  IsTidy-from_3 :
      (info : TorrentInfo) (l : Log)
      → Settled [] l
      → IsTidy (ends (from_strategy_3 rd mt cfg info l))
  unfolding from_strategy_3
  IsTidy-from_3 info l h =
      IsTidy-or_else (archive_all rd info mt.torrent.hash cfg.restrict_to_cached l)
        (from_strategy_4 rd mt cfg)
        (IsTidy-archive_all rd info mt.torrent.hash cfg.restrict_to_cached l h) IsTidy-from_4

  IsTidy-from_2 :
      (info : TorrentInfo) (l : Log)
      → Settled [] l
      → IsTidy (ends (from_strategy_2 rd mt cfg info l))
  unfolding from_strategy_2
  IsTidy-from_2 info l h =
      let fs = selected_files mt in
      IsTidy-or_else (individual_files rd mt.torrent.hash cfg.restrict_to_cached fs l)
        (from_strategy_3 rd mt cfg info)
        (IsTidy-individual_files rd mt.torrent.hash cfg.restrict_to_cached fs l h)
        (IsTidy-from_3 info)

  IsTidy-four_strategies :
      (info : TorrentInfo) (l : Log)
      → Settled [] l
      → IsTidy (ends (four_strategies rd mt cfg info l))
  unfolding four_strategies
  IsTidy-four_strategies info l h =
      let files = files_to_select (selected_files mt) in
      IsTidy-or_else (try_strategy_1_reinsert rd mt files cfg.restrict_to_cached l)
        (from_strategy_2 rd mt cfg info) (IsTidy-strategy_1 rd mt files cfg.restrict_to_cached l h)
        (IsTidy-from_2 info)

IsTidy-without_info :
    (rd : Account) (mt : ManagedTorrent) (restrict : Bool) (l : Log)
    → Settled [] l
    → IsTidy (ends (without_info rd mt restrict l))
unfolding without_info
IsTidy-without_info rd mt restrict l h = elim (Bool-cases (mt.torrent.hash =? "")) [
  | inl empty ↦ rw empty h
  | inr known ↦ rw known (
      IsTidy-or_else (try_strategy_1_reinsert rd mt "all" restrict l)
        (λ l1. (finish_failure mt, l1)) (IsTidy-strategy_1 rd mt "all" restrict l h)
        (IsTidy-finish_failure mt))
]

IsTidy-with_info :
    (rd : Account) (mt : ManagedTorrent) (cfg : RepairConfig) (info : TorrentInfo) (l : Log)
    → Settled [] l
    → IsTidy (ends (with_info rd mt cfg info l))
unfolding with_info
IsTidy-with_info rd mt cfg info l h = elim (Bool-cases (duplicate_selected_file_ids info)) [
  | inl twice ↦ rw twice h
  | inr once ↦ elim (Bool-cases (no_playable rd.to_lowercase (selected_files mt))) [
    | inl nothing ↦ rw (once, nothing) h
    | inr playable ↦ rw (once, playable) (IsTidy-four_strategies rd mt cfg info l h)
  ]
]

IsTidy-cascade_of :
    (rd : Account) (mt : ManagedTorrent) (cfg : RepairConfig) (info : Option TorrentInfo) (l : Log)
    → Settled [] l
    → IsTidy (ends (cascade_of rd mt cfg info l))
unfolding cascade_of
IsTidy-cascade_of rd mt cfg none l h = IsTidy-without_info rd mt cfg.restrict_to_cached l h
IsTidy-cascade_of rd mt cfg (some info) l h = IsTidy-with_info rd mt cfg info l h

-- Whatever the account answers, when the cascade has ended, each magnet that it added is one that
-- its success keeps, or was deleted, or has a task started that tries to delete it; if that held
-- before.
pub execute_cascade-Settled :
    (rd : Account) (mt : ManagedTorrent) (cfg : RepairConfig) (l : Log)
    → Settled [] l
    → let r = execute_cascade rd mt cfg l in Settled (kept_by (some r.0)) r.1
unfolding execute_cascade
execute_cascade-Settled rd mt cfg l h = IsTidy-cascade_of rd mt cfg mt.info l h

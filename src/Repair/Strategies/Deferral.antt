-- ===== src/Repair/Strategies/Deferral.antt =====
-- When the cascade defers a repair because of a bandwidth limit.
use rd_rs.Prelude.{
  ℕ, ◌≡◌, sym, ◌∙◌, inl, inr, Bool, false, Option, none, some, List, [], ◌∷◌, String, arith,
  Bool-cases, ltb, leb, ◌==◌, length,
}
use rd_rs.Prelude.Map.{◌=?◌, string_keys}
use rd_rs.Rd.Client.Errors.{RdError, is_bandwidth_limited}
use rd_rs.Torrent.Types.{File, TorrentInfo, ManagedTorrent, selected_files}
use rd_rs.Repair.Account.{Account, answered, failed, Log, delete_all}
use rd_rs.Repair.Reasons.{CascadeOutcome}
use rd_rs.Repair.Detect.{has_non_playable_selected, duplicate_selected_file_ids}
use rd_rs.Repair.Strategies.{
  ends, Tried, not_added, not_selected, polled, try_magnet, limited_or, next_turn, all_counted,
  LoopTurn, returns, goes_on, turn_of, LoopEnd, stopped, through, counted, try_each, finish_failure,
  batches, id_texts, files_to_select, batch_size_of, no_playable, Ended, try_strategy_1_reinsert,
  individual_files, archive_all, batch_download, or_else, from_strategy_4, from_strategy_3,
  from_strategy_2, RepairConfig, without_info, four_strategies, with_info, cascade_of,
  execute_cascade,
}
use rd_rs.Repair.Strategies.Limits.{
  any_limited, is_defer, defers, Agrees, TriedAgrees, Agrees-give_up, Agrees-drop,
  Agrees-reinserted, Agrees-archived, TriedAgrees-try_magnet, any_limited-delete_all,
}

abbrev turn_end : LoopTurn → Option CascadeOutcome
turn_end (returns o) = some o
turn_end (goes_on good) = none

abbrev TurnAgrees : LoopTurn × Log → Type 0
TurnAgrees (t, l) = Agrees (turn_end t, l)

defers-limited_or : (e : RdError) → defers (turn_end (limited_or e)) ≡ is_bandwidth_limited e
defers-limited_or e = ground arith

TurnAgrees-turn_of :
    (rd : Account) (t : Tried) (l : Log) → TriedAgrees (t, l) → TurnAgrees (turn_of rd t l)
unfolding turn_of
TurnAgrees-turn_of rd (not_added e) l h = defers-limited_or e ∙ h
TurnAgrees-turn_of rd (not_selected id e) l h =
    Agrees-drop id (turn_end (limited_or e)) l (defers-limited_or e ∙ h)
TurnAgrees-turn_of rd (polled id (failed e)) l h =
    Agrees-drop id (turn_end (limited_or e)) l (defers-limited_or e ∙ h)
TurnAgrees-turn_of rd (polled id (answered out)) l h = elim (Bool-cases out.is_ready) [
  | inl done ↦ rw done (Agrees-drop id none l h)
  | inr waits ↦ elim (Bool-cases out.restrict_cached_not_ready) [
    | inl uncached ↦ rw (waits, uncached) (Agrees-give_up rd id l (sym h))
    | inr more ↦ rw (waits, more) (Agrees-drop id none l h)
  ]
]

abbrev loop_end : LoopEnd → Option CascadeOutcome
loop_end (stopped o) = some o
loop_end (through n) = none

abbrev LoopAgrees : LoopEnd × Log → Type 0
LoopAgrees (e, l) = Agrees (loop_end e, l)

LoopAgrees-next_turn :
    (t : LoopTurn) (rest : Bool → LoopEnd × Log) (l : Log)
    → TurnAgrees (t, l)
    → ((good : Bool) → any_limited l ≡ false → LoopAgrees (rest good))
    → LoopAgrees (next_turn t rest l)
LoopAgrees-next_turn (returns o) rest l h k = h
LoopAgrees-next_turn (goes_on good) rest l h k = k good (sym h)

LoopAgrees-try_each :
    (rd : Account) (hash : String) (restrict : Bool) (parts : List String) (n : ℕ) (l : Log)
    → any_limited l ≡ false
    → LoopAgrees (try_each rd hash restrict parts n l)
unfolding try_each
LoopAgrees-try_each rd hash restrict [] n l h = sym h
LoopAgrees-try_each rd hash restrict (files ∷ rest) n l h =
    let tried = try_magnet rd hash files restrict l in
    let turned = turn_of rd tried.0 tried.1 in
    LoopAgrees-next_turn turned.0 (λ good. try_each rd hash restrict rest (counted good n) turned.1)
      turned.1
      (TurnAgrees-turn_of rd tried.0 tried.1 (TriedAgrees-try_magnet rd hash files restrict l h))
      (λ good. LoopAgrees-try_each rd hash restrict rest (counted good n) turned.1)

Agrees-all_counted :
    (parts : List String) (r : LoopEnd × Log) → LoopAgrees r → Agrees (all_counted parts r)
Agrees-all_counted parts (stopped o, l) h = h
Agrees-all_counted parts (through n, l) h = elim (Bool-cases (n == length parts)) [
  | inl all ↦ rw all h
  | inr some_failed ↦ rw some_failed h
]

Agrees-individual_files :
    (rd : Account) (hash : String) (restrict : Bool) (fs : List File) (l : Log)
    → any_limited l ≡ false
    → Agrees (individual_files rd hash restrict fs l)
unfolding individual_files
Agrees-individual_files rd hash restrict fs l h =
    Agrees-all_counted (id_texts fs) (try_each rd hash restrict (id_texts fs) 0 l)
      (LoopAgrees-try_each rd hash restrict (id_texts fs) 0 l h)

Agrees-archive_all :
    (rd : Account) (info : TorrentInfo) (hash : String) (restrict : Bool) (l : Log)
    → any_limited l ≡ false
    → Agrees (archive_all rd info hash restrict l)
unfolding archive_all
Agrees-archive_all rd info hash restrict l h =
    elim (Bool-cases (has_non_playable_selected rd.to_lowercase info)) [
      | inl extras ↦
          let t = try_magnet rd hash "all" restrict l in
          rw extras (Agrees-archived rd t.0 t.1 (TriedAgrees-try_magnet rd hash "all" restrict l h))
      | inr playable ↦ rw playable (sym h)
    ]

Agrees-batch_download :
    (rd : Account) (hash : String) (restrict : Bool) (n : ℕ) (fs : List File) (l : Log)
    → any_limited l ≡ false
    → Agrees (batch_download rd hash restrict n fs l)
unfolding batch_download
Agrees-batch_download rd hash restrict n fs l h = elim (Bool-cases (ltb 1 (length fs))) [
  | inl several ↦
      let parts = batches n fs in
      rw several (
        Agrees-all_counted parts (try_each rd hash restrict parts 0 l)
          (LoopAgrees-try_each rd hash restrict parts 0 l h))
  | inr lone ↦ rw lone (sym h)
]

Agrees-strategy_1 :
    (rd : Account) (mt : ManagedTorrent) (files : String) (restrict : Bool) (l : Log)
    → any_limited l ≡ false
    → Agrees (try_strategy_1_reinsert rd mt files restrict l)
unfolding try_strategy_1_reinsert
Agrees-strategy_1 rd mt files restrict l h =
    let l0 = delete_all rd mt.rd_ids l in
    let t = try_magnet rd mt.torrent.hash files restrict l0 in
    Agrees-reinserted rd t.0 t.1 (
      TriedAgrees-try_magnet rd mt.torrent.hash files restrict l0
        (any_limited-delete_all rd mt.rd_ids l ∙ h))

Agrees-or_else :
    (r : Ended) (next : Log → CascadeOutcome × Log)
    → Agrees r
    → ((l : Log) → any_limited l ≡ false → Agrees (ends (next l)))
    → Agrees (ends (or_else r next))
Agrees-or_else (some o, l) next h k = h
Agrees-or_else (none, l) next h k = k l (sym h)

Agrees-finish_failure :
    (mt : ManagedTorrent) (l : Log) → any_limited l ≡ false → Agrees (some (finish_failure mt), l)
unfolding finish_failure
Agrees-finish_failure mt l h = elim (Bool-cases (leb (length (selected_files mt)) 1)) [
  | inl lone ↦ rw lone (sym h)
  | inr several ↦ rw several (sym h)
]

module _ (rd : Account) (mt : ManagedTorrent) (cfg : RepairConfig) where
  Agrees-from_4 : (l : Log) → any_limited l ≡ false → Agrees (ends (from_strategy_4 rd mt cfg l))
  unfolding from_strategy_4
  Agrees-from_4 l h =
      let fs = selected_files mt in
      let r = batch_download rd mt.torrent.hash cfg.restrict_to_cached (batch_size_of cfg) fs l in
      Agrees-or_else r (λ l1. (finish_failure mt, l1))
        (Agrees-batch_download rd mt.torrent.hash cfg.restrict_to_cached (batch_size_of cfg) fs l h)
        (Agrees-finish_failure mt)

  Agrees-from_3 :
      (info : TorrentInfo) (l : Log)
      → any_limited l ≡ false
      → Agrees (ends (from_strategy_3 rd mt cfg info l))
  unfolding from_strategy_3
  Agrees-from_3 info l h =
      Agrees-or_else (archive_all rd info mt.torrent.hash cfg.restrict_to_cached l)
        (from_strategy_4 rd mt cfg)
        (Agrees-archive_all rd info mt.torrent.hash cfg.restrict_to_cached l h) Agrees-from_4

  Agrees-from_2 :
      (info : TorrentInfo) (l : Log)
      → any_limited l ≡ false
      → Agrees (ends (from_strategy_2 rd mt cfg info l))
  unfolding from_strategy_2
  Agrees-from_2 info l h =
      let fs = selected_files mt in
      Agrees-or_else (individual_files rd mt.torrent.hash cfg.restrict_to_cached fs l)
        (from_strategy_3 rd mt cfg info)
        (Agrees-individual_files rd mt.torrent.hash cfg.restrict_to_cached fs l h)
        (Agrees-from_3 info)

  Agrees-four_strategies :
      (info : TorrentInfo) (l : Log)
      → any_limited l ≡ false
      → Agrees (ends (four_strategies rd mt cfg info l))
  unfolding four_strategies
  Agrees-four_strategies info l h =
      let files = files_to_select (selected_files mt) in
      Agrees-or_else (try_strategy_1_reinsert rd mt files cfg.restrict_to_cached l)
        (from_strategy_2 rd mt cfg info) (Agrees-strategy_1 rd mt files cfg.restrict_to_cached l h)
        (Agrees-from_2 info)

Agrees-without_info :
    (rd : Account) (mt : ManagedTorrent) (restrict : Bool) (l : Log)
    → any_limited l ≡ false
    → Agrees (ends (without_info rd mt restrict l))
unfolding without_info
Agrees-without_info rd mt restrict l h = elim (Bool-cases (mt.torrent.hash =? "")) [
  | inl empty ↦ rw empty (sym h)
  | inr known ↦ rw known (
      Agrees-or_else (try_strategy_1_reinsert rd mt "all" restrict l)
        (λ l1. (finish_failure mt, l1)) (Agrees-strategy_1 rd mt "all" restrict l h)
        (Agrees-finish_failure mt))
]

Agrees-with_info :
    (rd : Account) (mt : ManagedTorrent) (cfg : RepairConfig) (info : TorrentInfo) (l : Log)
    → any_limited l ≡ false
    → Agrees (ends (with_info rd mt cfg info l))
unfolding with_info
Agrees-with_info rd mt cfg info l h = elim (Bool-cases (duplicate_selected_file_ids info)) [
  | inl twice ↦ rw twice (sym h)
  | inr once ↦ elim (Bool-cases (no_playable rd.to_lowercase (selected_files mt))) [
    | inl nothing ↦ rw (once, nothing) (sym h)
    | inr playable ↦ rw (once, playable) (Agrees-four_strategies rd mt cfg info l h)
  ]
]

Agrees-cascade_of :
    (rd : Account) (mt : ManagedTorrent) (cfg : RepairConfig) (info : Option TorrentInfo) (l : Log)
    → any_limited l ≡ false
    → Agrees (ends (cascade_of rd mt cfg info l))
unfolding cascade_of
Agrees-cascade_of rd mt cfg none l h = Agrees-without_info rd mt cfg.restrict_to_cached l h
Agrees-cascade_of rd mt cfg (some info) l h = Agrees-with_info rd mt cfg info l h

-- Whatever the account answers, the cascade defers just when a call that it made met a bandwidth
-- limit, the deletions of the torrent's old ids and those by a dropped guard aside; if no call
-- had met one before.
pub execute_cascade-defers :
    (rd : Account) (mt : ManagedTorrent) (cfg : RepairConfig) (l : Log)
    → any_limited l ≡ false
    → let r = execute_cascade rd mt cfg l in is_defer r.0 ≡ any_limited r.1
unfolding execute_cascade
execute_cascade-defers rd mt cfg l h = Agrees-cascade_of rd mt cfg mt.info l h

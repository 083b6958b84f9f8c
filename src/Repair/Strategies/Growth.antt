-- ===== src/Repair/Strategies/Growth.antt =====
-- A repair only adds to the log: what holds of a log and is kept by every call, holds after a run.
use rd_rs.Prelude.{
  ℕ, zero, suc, inl, inr, Bool, Option, none, some, List, [], ◌∷◌, String, Bool-cases, ltb, length,
}
use rd_rs.Prelude.Map.{string_keys}
use rd_rs.Rd.Client.Errors.{RdError}
use rd_rs.Torrent.Types.{File, TorrentInfo, ManagedTorrent, selected_files}
use rd_rs.Repair.Account.{
  Account, Answer, answered, failed, Call, asked_to_delete, added, selected, asked_info, deleted,
  spawned_delete, Log, delete_all,
}
use rd_rs.Repair.Ephemeral.{
  InfoReadyOutcome, looks_ready, poll_again, poll, info_ready, left_in, drop_guard,
}
use rd_rs.Repair.Reasons.{CascadeOutcome}
use rd_rs.Repair.Detect.{has_non_playable_selected}
use rd_rs.Repair.Strategies.{
  Tried, not_added, not_selected, polled, after_select, after_add, try_magnet, give_up_uncached,
  reinserted, next_turn, all_counted, LoopTurn, returns, goes_on, turn_of, LoopEnd, stopped,
  through, counted, try_each, archived, finish_failure, batches, id_texts, batch_size_of, Ended,
  individual_files, archive_all, batch_download, or_else, from_strategy_4, from_strategy_3,
  from_strategy_2, RepairConfig,
}

module _ (P : Log → Type 0) (step : (c : Call) (l : Log) → P l → P (c ∷ l)) where
  pub kept-delete_all : (rd : Account) (ids : List String) (l : Log) → P l → P (delete_all rd ids l)
  unfolding delete_all
  kept-delete_all rd [] l h = h
  kept-delete_all rd (id ∷ ids) l h =
      let c = asked_to_delete id (rd.delete_torrent l id) in
      kept-delete_all rd ids (c ∷ l) (step c l h)

  kept-poll_again :
      (a : Answer TorrentInfo) (rest : Answer InfoReadyOutcome × Log) (l : Log)
      → P l
      → P rest.1
      → P (poll_again a rest l).1
  kept-poll_again (failed e) rest l h k = h
  kept-poll_again (answered info) rest l h k = elim (Bool-cases (looks_ready info)) [
    | inl done ↦ rw done h
    | inr more ↦ rw more k
  ]

  kept-poll :
      (rd : Account) (id : String) (restrict : Bool) (attempts : ℕ) (l : Log)
      → P l
      → P (poll rd id restrict attempts l).1
  unfolding poll
  kept-poll rd id restrict zero l h = h
  kept-poll rd id restrict (suc attempts) l h =
      let a = rd.get_torrent_info l id in
      let h1 = step (asked_info id a) l h in
      kept-poll_again a (poll rd id restrict attempts (asked_info id a ∷ l)) (asked_info id a ∷ l)
        h1 (kept-poll rd id restrict attempts (asked_info id a ∷ l) h1)

  kept-after_select :
      (rd : Account) (id : String) (restrict : Bool) (r : Option RdError) (l : Log)
      → P l
      → P (after_select rd id restrict r l).1
  unfolding after_select info_ready
  kept-after_select rd id restrict (some e) l h = h
  kept-after_select rd id restrict none l h = kept-poll rd id restrict 3 l h

  kept-after_add :
      (rd : Account) (files : String) (restrict : Bool) (a : Answer String) (l : Log)
      → P l
      → P (after_add rd files restrict a l).1
  unfolding after_add
  kept-after_add rd files restrict (failed e) l h = h
  kept-after_add rd files restrict (answered id) l h =
      let r = rd.select_torrent_files l id files in
      kept-after_select rd id restrict r (selected id files r ∷ l) (step (selected id files r) l h)

  pub kept-try_magnet :
      (rd : Account) (hash files : String) (restrict : Bool) (l : Log)
      → P l
      → P (try_magnet rd hash files restrict l).1
  unfolding try_magnet
  kept-try_magnet rd hash files restrict l h =
      let a = rd.add_magnet l hash in
      kept-after_add rd files restrict a (added hash a ∷ l) (step (added hash a) l h)

  kept-left_in :
      (id : String) (r : Option RdError) (l : Log)
      → P l
      → P (drop_guard (left_in id r) (deleted id r ∷ l))
  kept-left_in id none l h = step (deleted id none) l h
  kept-left_in id (some e) l h =
      step (spawned_delete id) (deleted id (some e) ∷ l) (step (deleted id (some e)) l h)

  pub kept-give_up : (rd : Account) (id : String) (l : Log) → P l → P (give_up_uncached rd id l).1
  unfolding give_up_uncached
  kept-give_up rd id l h = kept-left_in id (rd.delete_torrent l id) l h

  pub kept-reinserted : (rd : Account) (t : Tried) (l : Log) → P l → P (reinserted rd t l).1
  unfolding reinserted
  kept-reinserted rd (not_added e) l h = h
  kept-reinserted rd (not_selected id e) l h = step (spawned_delete id) l h
  kept-reinserted rd (polled id (failed e)) l h = step (spawned_delete id) l h
  kept-reinserted rd (polled id (answered out)) l h = elim (Bool-cases out.is_ready) [
    | inl done ↦ rw done h
    | inr waits ↦ elim (Bool-cases out.restrict_cached_not_ready) [
      | inl uncached ↦ rw (waits, uncached) (kept-give_up rd id l h)
      | inr more ↦ rw (waits, more) (step (spawned_delete id) l h)
    ]
  ]

  pub kept-archived : (rd : Account) (t : Tried) (l : Log) → P l → P (archived rd t l).1
  unfolding archived
  kept-archived rd (not_added e) l h = h
  kept-archived rd (not_selected id e) l h = step (spawned_delete id) l h
  kept-archived rd (polled id (failed e)) l h = step (spawned_delete id) l h
  kept-archived rd (polled id (answered out)) l h = elim (Bool-cases out.is_ready) [
    | inl done ↦ rw done h
    | inr waits ↦ elim (Bool-cases out.restrict_cached_not_ready) [
      | inl uncached ↦ rw (waits, uncached) (kept-give_up rd id l h)
      | inr more ↦ rw (waits, more) (step (spawned_delete id) l h)
    ]
  ]

  kept-turn_of : (rd : Account) (t : Tried) (l : Log) → P l → P (turn_of rd t l).1
  unfolding turn_of
  kept-turn_of rd (not_added e) l h = h
  kept-turn_of rd (not_selected id e) l h = step (spawned_delete id) l h
  kept-turn_of rd (polled id (failed e)) l h = step (spawned_delete id) l h
  kept-turn_of rd (polled id (answered out)) l h = elim (Bool-cases out.is_ready) [
    | inl done ↦ rw done (step (spawned_delete id) l h)
    | inr waits ↦ elim (Bool-cases out.restrict_cached_not_ready) [
      | inl uncached ↦ rw (waits, uncached) (kept-give_up rd id l h)
      | inr more ↦ rw (waits, more) (step (spawned_delete id) l h)
    ]
  ]

  kept-next_turn :
      (t : LoopTurn) (rest : Bool → LoopEnd × Log) (l : Log)
      → P l
      → ((good : Bool) → P (rest good).1)
      → P (next_turn t rest l).1
  kept-next_turn (returns o) rest l h k = h
  kept-next_turn (goes_on good) rest l h k = k good

  kept-try_each :
      (rd : Account) (hash : String) (restrict : Bool) (parts : List String) (n : ℕ) (l : Log)
      → P l
      → P (try_each rd hash restrict parts n l).1
  unfolding try_each
  kept-try_each rd hash restrict [] n l h = h
  kept-try_each rd hash restrict (files ∷ rest) n l h =
      let tried = try_magnet rd hash files restrict l in
      let turned = turn_of rd tried.0 tried.1 in
      let h2 = kept-turn_of rd tried.0 tried.1 (kept-try_magnet rd hash files restrict l h) in
      kept-next_turn turned.0 (λ good. try_each rd hash restrict rest (counted good n) turned.1)
        turned.1 h2 (λ good. kept-try_each rd hash restrict rest (counted good n) turned.1 h2)

  kept-all_counted : (parts : List String) (r : LoopEnd × Log) → P r.1 → P (all_counted parts r).1
  kept-all_counted parts (stopped o, l) h = h
  kept-all_counted parts (through n, l) h = h

  kept-individual_files :
      (rd : Account) (hash : String) (restrict : Bool) (fs : List File) (l : Log)
      → P l
      → P (individual_files rd hash restrict fs l).1
  unfolding individual_files
  kept-individual_files rd hash restrict fs l h =
      kept-all_counted (id_texts fs) (try_each rd hash restrict (id_texts fs) 0 l)
        (kept-try_each rd hash restrict (id_texts fs) 0 l h)

  kept-archive_all :
      (rd : Account) (info : TorrentInfo) (hash : String) (restrict : Bool) (l : Log)
      → P l
      → P (archive_all rd info hash restrict l).1
  unfolding archive_all
  kept-archive_all rd info hash restrict l h =
      elim (Bool-cases (has_non_playable_selected rd.to_lowercase info)) [
        | inl extras ↦
            let t = try_magnet rd hash "all" restrict l in
            rw extras (kept-archived rd t.0 t.1 (kept-try_magnet rd hash "all" restrict l h))
        | inr playable ↦ rw playable h
      ]

  kept-batch_download :
      (rd : Account) (hash : String) (restrict : Bool) (n : ℕ) (fs : List File) (l : Log)
      → P l
      → P (batch_download rd hash restrict n fs l).1
  unfolding batch_download
  kept-batch_download rd hash restrict n fs l h = elim (Bool-cases (ltb 1 (length fs))) [
    | inl several ↦
        let parts = batches n fs in
        rw several (
          kept-all_counted parts (try_each rd hash restrict parts 0 l)
            (kept-try_each rd hash restrict parts 0 l h))
    | inr lone ↦ rw lone h
  ]

  pub kept-or_else :
      (r : Ended) (next : Log → CascadeOutcome × Log)
      → P r.1
      → ((l : Log) → P l → P (next l).1)
      → P (or_else r next).1
  kept-or_else (some o, l) next h k = h
  kept-or_else (none, l) next h k = k l h

  module _ (rd : Account) (mt : ManagedTorrent) (cfg : RepairConfig) where
    kept-from_4 : (l : Log) → P l → P (from_strategy_4 rd mt cfg l).1
    unfolding from_strategy_4
    kept-from_4 l h =
        let fs = selected_files mt in
        let r = batch_download rd mt.torrent.hash cfg.restrict_to_cached (batch_size_of cfg) fs l in
        kept-or_else r (λ l1. (finish_failure mt, l1))
          (kept-batch_download rd mt.torrent.hash cfg.restrict_to_cached (batch_size_of cfg) fs l h)
          (λ l1 h1. h1)

    kept-from_3 : (info : TorrentInfo) (l : Log) → P l → P (from_strategy_3 rd mt cfg info l).1
    unfolding from_strategy_3
    kept-from_3 info l h =
        kept-or_else (archive_all rd info mt.torrent.hash cfg.restrict_to_cached l)
          (from_strategy_4 rd mt cfg)
          (kept-archive_all rd info mt.torrent.hash cfg.restrict_to_cached l h) kept-from_4

    pub kept-from_2 : (info : TorrentInfo) (l : Log) → P l → P (from_strategy_2 rd mt cfg info l).1
    unfolding from_strategy_2
    kept-from_2 info l h =
        let fs = selected_files mt in
        kept-or_else (individual_files rd mt.torrent.hash cfg.restrict_to_cached fs l)
          (from_strategy_3 rd mt cfg info)
          (kept-individual_files rd mt.torrent.hash cfg.restrict_to_cached fs l h)
          (kept-from_3 info)

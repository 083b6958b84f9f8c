-- ===== src/Repair/Strategies/Losses.antt =====
-- A cascade that reports success without new ids leaves nothing of the torrent on the account.
use rd_rs.Prelude.{
  ◌≡◌, inl, inr, Bool, true, false, ◌||◌, Option, none, some, List, [], ◌∷◌, String, Bool-cases,
  or_true,
}
use rd_rs.Prelude.Map.{◌=?◌, contains, string_keys}
use rd_rs.Rd.Client.Errors.{RdError}
use rd_rs.Torrent.Types.{TorrentInfo, ManagedTorrent, selected_files}
use rd_rs.Repair.Account.{
  Account, Call, asked_to_delete, added, selected, asked_info, deleted, spawned_delete,
  unrestricted, verified, Log, delete_all,
}
use rd_rs.Repair.Reasons.{CascadeOutcome, success}
use rd_rs.Repair.Detect.{duplicate_selected_file_ids}
use rd_rs.Repair.Strategies.{
  try_magnet, finish_failure, files_to_select, no_playable, try_strategy_1_reinsert,
  from_strategy_2, RepairConfig, without_info, four_strategies, with_info, cascade_of,
  execute_cascade,
}
use rd_rs.Repair.Strategies.Magnets.{Settled, Settled-nil, Settled-start, has_added, is_removed}
use rd_rs.Repair.Strategies.Cleanup.{kept_by, execute_cascade-Settled}
use rd_rs.Repair.Strategies.Growth.{
  kept-delete_all, kept-try_magnet, kept-reinserted, kept-or_else, kept-from_2,
}

abbrev pub asks : Call → String → Bool
asks (asked_to_delete id r) j = id =? j
asks (added hash r) j = false
asks (selected id files r) j = false
asks (asked_info id r) j = false
asks (deleted id r) j = false
asks (spawned_delete id) j = false
asks (unrestricted link r) j = false
asks (verified url r) j = false

-- The account was asked to delete the id that the torrent had.
pub was_asked : String → Log → Bool
was_asked j [] = false
was_asked j (c ∷ l) = asks c j || was_asked j l

abbrev Asked : String → Log → Type 0
Asked j l = was_asked j l ≡ true

Asked-step : (j : String) (c : Call) (l : Log) → Asked j l → Asked j (c ∷ l)
unfolding was_asked
Asked-step j c l h = rw h (or_true (asks c j))

Asked-now :
    (id j : String) (r : Option RdError) (l : Log)
    → (id =? j) ≡ true
    → Asked j (asked_to_delete id r ∷ l)
unfolding was_asked
Asked-now id j r l same = rw same

Asked-delete_all :
    (rd : Account) (j : String) (ids : List String) (l : Log)
    → contains ids j ≡ true
    → Asked j (delete_all rd ids l)
unfolding contains delete_all
Asked-delete_all rd j [] l h = cc
Asked-delete_all rd j (id ∷ ids) l h =
    let r = rd.delete_torrent l id in
    elim (Bool-cases (id =? j)) [
      | inl same ↦
          kept-delete_all (Asked j) (Asked-step j) rd ids (asked_to_delete id r ∷ l)
            (Asked-now id j r l same)
      | inr other ↦ Asked-delete_all rd j ids (asked_to_delete id r ∷ l) (rw other at h)
    ]

Asked-strategy_1 :
    (rd : Account) (mt : ManagedTorrent) (files : String) (restrict : Bool) (l : Log) (j : String)
    → contains mt.rd_ids j ≡ true
    → Asked j (try_strategy_1_reinsert rd mt files restrict l).1
unfolding try_strategy_1_reinsert
Asked-strategy_1 rd mt files restrict l j h =
    let l0 = delete_all rd mt.rd_ids l in
    let t = try_magnet rd mt.torrent.hash files restrict l0 in
    kept-reinserted (Asked j) (Asked-step j) rd t.0 t.1 (
      kept-try_magnet (Asked j) (Asked-step j) rd mt.torrent.hash files restrict l0
        (Asked-delete_all rd j mt.rd_ids l h))

module _ (rd : Account) (mt : ManagedTorrent) (j : String) (own : contains mt.rd_ids j ≡ true) where
  -- A success without new ids has gone through strategy 1.
  abbrev Loses : CascadeOutcome × Log → Type 0
  Loses (o, l) = o ≡ success none → Asked j l

  Loses-four_strategies :
      (cfg : RepairConfig) (info : TorrentInfo) (l : Log) → Loses (four_strategies rd mt cfg info l)
  unfolding four_strategies
  Loses-four_strategies cfg info l e =
      let files = files_to_select (selected_files mt) in
      kept-or_else (Asked j) (Asked-step j)
        (try_strategy_1_reinsert rd mt files cfg.restrict_to_cached l)
        (from_strategy_2 rd mt cfg info)
        (Asked-strategy_1 rd mt files cfg.restrict_to_cached l j own)
        (kept-from_2 (Asked j) (Asked-step j) rd mt cfg info)

  Loses-with_info :
      (cfg : RepairConfig) (info : TorrentInfo) (l : Log) → Loses (with_info rd mt cfg info l)
  unfolding with_info
  Loses-with_info cfg info l = elim (Bool-cases (duplicate_selected_file_ids info)) [
    | inl twice ↦ rw twice (λ e. absurd (cc e))
    | inr once ↦ elim (Bool-cases (no_playable rd.to_lowercase (selected_files mt))) [
      | inl nothing ↦ rw (once, nothing) (λ e. absurd (cc e))
      | inr playable ↦ rw (once, playable) (Loses-four_strategies cfg info l)
    ]
  ]

  Loses-without_info : (restrict : Bool) (l : Log) → Loses (without_info rd mt restrict l)
  unfolding without_info
  Loses-without_info restrict l = elim (Bool-cases (mt.torrent.hash =? "")) [
    | inl empty ↦ rw empty (λ e. absurd (cc e))
    | inr known ↦ rw known λ e.
        kept-or_else (Asked j) (Asked-step j) (try_strategy_1_reinsert rd mt "all" restrict l)
          (λ l1. (finish_failure mt, l1)) (Asked-strategy_1 rd mt "all" restrict l j own)
          (λ l1 h1. h1)
  ]

  Loses-cascade_of :
      (cfg : RepairConfig) (info : Option TorrentInfo) (l : Log)
      → Loses (cascade_of rd mt cfg info l)
  unfolding cascade_of
  Loses-cascade_of cfg none l = Loses-without_info cfg.restrict_to_cached l
  Loses-cascade_of cfg (some info) l = Loses-with_info cfg info l

Settled-none :
    (o : CascadeOutcome) (l : Log) → o ≡ success none → Settled (kept_by (some o)) l → Settled [] l
Settled-none o l e h = rw e at h

-- When a cascade succeeds without new ids (strategies 2 and 4), the account was asked before to
-- delete each of the torrent's own ids, whatever it answered, and every magnet that the cascade
-- added was deleted or has a task started that tries to delete it.
pub execute_cascade_loses :
    (rd : Account) (mt : ManagedTorrent) (cfg : RepairConfig) (id : String)
    → (execute_cascade rd mt cfg []).0 ≡ success none
    → (contains mt.rd_ids id ≡ true → was_asked id (execute_cascade rd mt cfg []).1 ≡ true)
      × (has_added id (execute_cascade rd mt cfg []).1 ≡ true
          → is_removed id (execute_cascade rd mt cfg []).1 ≡ true)
unfolding execute_cascade
execute_cascade_loses rd mt cfg id e =
    let r = cascade_of rd mt cfg mt.info [] in
    let tidy = Settled-none r.0 r.1 e (execute_cascade-Settled rd mt cfg [] Settled-start) in
    (λ own. Loses-cascade_of rd mt id own cfg mt.info [] e, Settled-nil r.1 tidy id)

-- ===== src/Repair/Strategies.antt =====
-- The cascade of repair strategies: src/repair/strategies.rs. The guard of a magnet is dropped
-- where its block ends; the log has that deletion there, though the task may run later.
pub mod Magnets
pub mod Cleanup
pub mod Limits
pub mod Deferral
pub mod Growth
pub mod Losses
use Prim.Native.Nat.{min, max}
use rd_rs.Prelude.{
  ℕ, zero, suc, ◌+◌, Bool, true, false, not, ◌&&◌, Option, none, some, List, [], ◌∷◌, map, String,
  length, take, drop, leb, ltb, ◌==◌, if◌then◌else◌,
}
use rd_rs.Prelude.Map.{◌=?◌, string_keys}
use rd_rs.Prelude.Texts.{join, to_string}
use rd_rs.Rd.Client.Errors.{RdError, is_bandwidth_limited}
use rd_rs.Torrent.Types.{File, TorrentInfo, ManagedTorrent, selected_files}
use rd_rs.Repair.Account.{
  Account, Answer, answered, failed, Log, delete_all, add_magnet, select_torrent_files,
}
use rd_rs.Repair.Ephemeral.{InfoReadyOutcome, info_ready, Guard, delete_ephemeral, drop_guard}
use rd_rs.Repair.Reasons.{
  CascadeOutcome, success, unrepairable, unrepairable_msg, defer_bandwidth, lone_broken,
  no_repairable_files, duplicate_file_ids, invalid_file_ids, not_cached, missing_torrent_detail,
  from_rd_error_message,
}
use rd_rs.Repair.Detect.{
  path_looks_playable, duplicate_selected_file_ids, has_non_playable_selected,
}

unfoldable pub finish_failure : ManagedTorrent → CascadeOutcome
unfolding selected_files
finish_failure mt =
    if leb (length (selected_files mt)) 1
    then unrepairable lone_broken
    else unrepairable invalid_file_ids

abbrev pub named_reason : Option String → CascadeOutcome
named_reason none = unrepairable invalid_file_ids
named_reason (some r) = unrepairable_msg r

unfoldable pub map_rd : Account → RdError → CascadeOutcome
map_rd rd e =
    if is_bandwidth_limited e
    then defer_bandwidth
    else named_reason (from_rd_error_message rd.to_lowercase (rd.display e))

-- How far a magnet came: not added, not selected, or polled.
pub data Tried : Type 0 where
  not_added : RdError → Tried
  not_selected : (id : String) → RdError → Tried
  polled : (id : String) → Answer InfoReadyOutcome → Tried

unfoldable pub after_select : Account → String → Bool → Option RdError → Log → Tried × Log
after_select rd id restrict_cached (some e) l = (not_selected id e, l)
after_select rd id restrict_cached none l =
    let (out, l1) = info_ready rd id restrict_cached l in (polled id out, l1)

unfoldable pub after_add : Account → String → Bool → Answer String → Log → Tried × Log
unfolding after_select
after_add rd files restrict_cached (failed e) l = (not_added e, l)
after_add rd files restrict_cached (answered id) l =
    let (r, l1) = select_torrent_files rd id files l in after_select rd id restrict_cached r l1

-- The calls that every strategy makes of a magnet: add, select, poll.
unfoldable pub try_magnet : Account → String → String → Bool → Log → Tried × Log
unfolding after_add
try_magnet rd hash files restrict_cached l =
    let (a, l1) = add_magnet rd hash l in after_add rd files restrict_cached a l1

abbrev pub uncached_outcome : Account → Option RdError → CascadeOutcome
uncached_outcome rd none = unrepairable not_cached
uncached_outcome rd (some e) = if is_bandwidth_limited e then defer_bandwidth else map_rd rd e

-- The deletion of a magnet that is not cached, where only cached torrents may be used.
unfoldable pub give_up_uncached : Account → String → Log → CascadeOutcome × Log
unfolding map_rd
give_up_uncached rd id l =
    let (r, guard, l1) = delete_ephemeral rd (some id) l in
    (uncached_outcome rd r, drop_guard guard l1)

-- A terminal outcome, or none.
abbrev pub Ended : Type 0
Ended = Option CascadeOutcome × Log

abbrev pub ends : CascadeOutcome × Log → Ended
ends (o, l) = (some o, l)

unfoldable pub reinserted : Account → Tried → Log → Ended
unfolding map_rd give_up_uncached
reinserted rd (not_added e) l = (some (map_rd rd e), l)
reinserted rd (not_selected id e) l = (some (map_rd rd e), drop_guard (some id) l)
reinserted rd (polled id (failed e)) l = (some (map_rd rd e), drop_guard (some id) l)
reinserted rd (polled id (answered out)) l =
    if out.is_ready
    then (some (success (some (id ∷ []))), l)
    else if out.restrict_cached_not_ready
    then ends (give_up_uncached rd id l)
    else (none, drop_guard (some id) l)

unfoldable pub try_strategy_1_reinsert : Account → ManagedTorrent → String → Bool → Log → Ended
unfolding try_magnet reinserted delete_all
try_strategy_1_reinsert rd mt files restrict_cached l =
    let (t, l1) = try_magnet rd mt.torrent.hash files restrict_cached (delete_all rd mt.rd_ids l) in
    reinserted rd t l1

-- A turn of a loop over files or batches: the cascade ends, or the turn counts or not.
pub data LoopTurn : Type 0 where
  returns : CascadeOutcome → LoopTurn
  goes_on : Bool → LoopTurn

abbrev pub returned : CascadeOutcome × Log → LoopTurn × Log
returned (o, l) = (returns o, l)

-- A bandwidth limit ends the cascade, and any other error only the turn.
abbrev pub limited_or : RdError → LoopTurn
limited_or e = if is_bandwidth_limited e then returns defer_bandwidth else goes_on false

-- The end of a turn of strategies 2 and 4: the magnet's guard is dropped, ready or not.
unfoldable pub turn_of : Account → Tried → Log → LoopTurn × Log
unfolding give_up_uncached
turn_of rd (not_added e) l = (limited_or e, l)
turn_of rd (not_selected id e) l = (limited_or e, drop_guard (some id) l)
turn_of rd (polled id (failed e)) l = (limited_or e, drop_guard (some id) l)
turn_of rd (polled id (answered out)) l =
    if out.is_ready
    then (goes_on true, drop_guard (some id) l)
    else if out.restrict_cached_not_ready
    then returned (give_up_uncached rd id l)
    else (goes_on false, drop_guard (some id) l)

-- What a loop leaves: an outcome, or how many of its turns counted.
pub data LoopEnd : Type 0 where
  stopped : CascadeOutcome → LoopEnd
  through : ℕ → LoopEnd

abbrev pub counted : Bool → ℕ → ℕ
counted true n = n + 1
counted false n = n

abbrev pub next_turn : LoopTurn → (Bool → LoopEnd × Log) → Log → LoopEnd × Log
next_turn (returns o) rest l = (stopped o, l)
next_turn (goes_on good) rest l = rest good

-- The loop of strategies 2 and 4 over what is to be selected.
unfoldable pub try_each : Account → String → Bool → List String → ℕ → Log → LoopEnd × Log
unfolding try_magnet turn_of
try_each rd hash restrict_cached [] n l = (through n, l)
try_each rd hash restrict_cached (files ∷ rest) n l =
    let (t, l1) = try_magnet rd hash files restrict_cached l in
    let (turn, l2) = turn_of rd t l1 in
    next_turn turn (λ good. try_each rd hash restrict_cached rest (counted good n) l2) l2

-- `all_fixed`, and `batches_ok == n_chunks`: each turn counted.
abbrev pub all_counted : List String → LoopEnd × Log → Ended
all_counted parts (stopped o, l) = (some o, l)
all_counted parts (through n, l) = (if n == length parts then some (success none) else none, l)

abbrev pub id_texts : List File → List String
id_texts [] = []
id_texts (f ∷ fs) = to_string f.id ∷ id_texts fs

unfoldable pub individual_files : Account → String → Bool → List File → Log → Ended
unfolding try_each
individual_files rd hash restrict_cached fs l =
    all_counted (id_texts fs) (try_each rd hash restrict_cached (id_texts fs) 0 l)

abbrev pub limited_end : RdError → Option CascadeOutcome
limited_end e = if is_bandwidth_limited e then some defer_bandwidth else none

unfoldable pub archived : Account → Tried → Log → Ended
unfolding give_up_uncached
archived rd (not_added e) l = (limited_end e, l)
archived rd (not_selected id e) l = (limited_end e, drop_guard (some id) l)
archived rd (polled id (failed e)) l = (limited_end e, drop_guard (some id) l)
archived rd (polled id (answered out)) l =
    if out.is_ready
    then (some (success (some (id ∷ []))), l)
    else if out.restrict_cached_not_ready
    then ends (give_up_uncached rd id l)
    else (none, drop_guard (some id) l)

unfoldable pub archive_all : Account → TorrentInfo → String → Bool → Log → Ended
unfolding try_magnet archived has_non_playable_selected
archive_all rd info hash restrict_cached l =
    let (t, l1) = try_magnet rd hash "all" restrict_cached l in
    let tried = archived rd t l1 in
    if has_non_playable_selected rd.to_lowercase info then tried else (none, l)

-- `chunks(n)` with a round for each chunk; there are no more of them than elements.
unfoldable pub chunks_of {ℓ} : {A : Type ℓ} → ℕ → ℕ → List A → List (List A)
chunks_of zero n xs = []
chunks_of (suc rounds) n [] = []
chunks_of (suc rounds) n (x ∷ xs) = take n (x ∷ xs) ∷ chunks_of rounds n (drop n (x ∷ xs))

-- The file ids of each batch, joined.
unfoldable pub batches : ℕ → List File → List String
unfolding chunks_of
batches batch_size fs = map (join ",") (chunks_of (length fs) batch_size (id_texts fs))

unfoldable pub batch_download : Account → String → Bool → ℕ → List File → Log → Ended
unfolding try_each batches
batch_download rd hash restrict_cached batch_size fs l =
    let parts = batches batch_size fs in
    let tried = all_counted parts (try_each rd hash restrict_cached parts 0 l) in
    if ltb 1 (length fs) then tried else (none, l)

-- A strategy that ends the cascade, or the next one.
abbrev pub or_else : Ended → (Log → CascadeOutcome × Log) → CascadeOutcome × Log
or_else (some o, l) next = (o, l)
or_else (none, l) next = next l

unfoldable pub no_playable : (String → String) → List File → Bool
no_playable to_lowercase [] = true
no_playable to_lowercase (f ∷ fs) =
    not (path_looks_playable to_lowercase f.path) && no_playable to_lowercase fs

pub record RepairConfig : Type 0 where
  pub restrict_to_cached : Bool
  pub batch_file_group_size : ℕ

-- `clamp(1, 32)`
abbrev pub batch_size_of : RepairConfig → ℕ
batch_size_of cfg = min (max cfg.batch_file_group_size 1) 32

-- The ids that strategy 1 selects.
unfoldable pub files_to_select : List File → String
files_to_select fs = let ids = join "," (id_texts fs) in if ids =? "" then "all" else ids

unfoldable pub without_info : Account → ManagedTorrent → Bool → Log → CascadeOutcome × Log
unfolding try_strategy_1_reinsert finish_failure
without_info rd mt restrict_cached l =
    let tried =
      or_else (try_strategy_1_reinsert rd mt "all" restrict_cached l)
        (λ l1. (finish_failure mt, l1)) in
    if mt.torrent.hash =? "" then (unrepairable_msg missing_torrent_detail, l) else tried

unfoldable pub from_strategy_4 :
    Account → ManagedTorrent → RepairConfig → Log → CascadeOutcome × Log
unfolding batch_download finish_failure selected_files
from_strategy_4 rd mt cfg l =
    or_else
      (batch_download rd mt.torrent.hash cfg.restrict_to_cached (batch_size_of cfg)
        (selected_files mt) l)
      (λ l1. (finish_failure mt, l1))

unfoldable pub from_strategy_3 :
    Account → ManagedTorrent → RepairConfig → TorrentInfo → Log → CascadeOutcome × Log
unfolding archive_all from_strategy_4
from_strategy_3 rd mt cfg info l =
    or_else (archive_all rd info mt.torrent.hash cfg.restrict_to_cached l)
      (from_strategy_4 rd mt cfg)

unfoldable pub from_strategy_2 :
    Account → ManagedTorrent → RepairConfig → TorrentInfo → Log → CascadeOutcome × Log
unfolding individual_files from_strategy_3 selected_files
from_strategy_2 rd mt cfg info l =
    or_else (individual_files rd mt.torrent.hash cfg.restrict_to_cached (selected_files mt) l)
      (from_strategy_3 rd mt cfg info)

unfoldable pub four_strategies :
    Account → ManagedTorrent → RepairConfig → TorrentInfo → Log → CascadeOutcome × Log
unfolding try_strategy_1_reinsert files_to_select from_strategy_2 selected_files
four_strategies rd mt cfg info l =
    or_else
      (try_strategy_1_reinsert rd mt (files_to_select (selected_files mt)) cfg.restrict_to_cached l)
      (from_strategy_2 rd mt cfg info)

unfoldable pub with_info :
    Account → ManagedTorrent → RepairConfig → TorrentInfo → Log → CascadeOutcome × Log
unfolding four_strategies selected_files duplicate_selected_file_ids no_playable
with_info rd mt cfg info l =
    let tried = four_strategies rd mt cfg info l in
    if duplicate_selected_file_ids info
    then (unrepairable duplicate_file_ids, l)
    else if no_playable rd.to_lowercase (selected_files mt)
    then (unrepairable no_repairable_files, l)
    else tried

unfoldable pub cascade_of :
    Account → ManagedTorrent → RepairConfig → Option TorrentInfo → Log → CascadeOutcome × Log
unfolding with_info without_info
cascade_of rd mt cfg none l = without_info rd mt cfg.restrict_to_cached l
cascade_of rd mt cfg (some info) l = with_info rd mt cfg info l

-- An empty selection has no playable file either: both tests of the source answer the same.
unfoldable pub execute_cascade :
    Account → ManagedTorrent → RepairConfig → Log → CascadeOutcome × Log
unfolding cascade_of
execute_cascade rd mt cfg l = cascade_of rd mt cfg mt.info l

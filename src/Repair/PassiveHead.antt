-- ===== src/Repair/PassiveHead.antt =====
-- `append_passive_head_candidates` of src/repair/engine/passive_head.rs: torrents that are well are
-- checked from time to time, and those with enough unreachable links are to be repaired. The clock
-- is a function of the calls made before.
pub mod Candidates
use rd_rs.Prelude.{
  ℕ, ◌+◌, ◌-◌, ◌*◌, max, ◌≡◌, refl, inl, inr, Bool, true, false, not, ◌||◌, ◌&&◌, Option, none,
  some, List, [], ◌∷◌, ◌++◌, String, ltb, leb, if◌then◌else◌, arith, Bool-cases,
}
use rd_rs.Prelude.Map.{◌=?◌, lookup, insert, contains, string_keys}
use rd_rs.Torrent.Types.{TorrentInfo, TorrentState, ok, ManagedTorrent, is_state}
use rd_rs.Repair.Account.{Account, Answer, answered, failed, Log}
use rd_rs.Repair.Detect.{
  is_some, periodic_repair_eligible, passive_head_probe_slot_count, check_head_unreachable,
}

pub record HeadCheck : Type 0 where
  pub head_check_enabled : Bool
  pub head_check_min_interval_mins : ℕ
  pub head_unreachable_threshold : ℕ
  pub clock : Log → ℕ

-- The keys of the candidates that were found, when each key was checked last, and the calls.
pub record Heads : Type 0 where
  pub keys : List String
  pub last : List (String × ℕ)
  pub log : Log

abbrev pub is_recent : ℕ → ℕ → Option ℕ → Bool
is_recent now interval none = false
is_recent now interval (some t) = ltb (now - t) interval

abbrev pub has_slots : (String → String) → Option TorrentInfo → Bool
has_slots to_lowercase none = false
has_slots to_lowercase (some info) = ltb 0 (passive_head_probe_slot_count to_lowercase info)

unfoldable pub is_candidate : (String → String) → ℕ → ℕ → List (String × ℕ) → ManagedTorrent → Bool
unfolding periodic_repair_eligible passive_head_probe_slot_count
is_candidate to_lowercase now interval last mt =
    not (is_some mt.unrepairable_reason)
    && (not (periodic_repair_eligible to_lowercase mt)
        && (is_state mt.state ok
            && (has_slots to_lowercase mt.info
                && not (is_recent now interval (lookup mt.access_key last)))))

unfoldable pub head_candidates :
    (String → String) → ℕ → ℕ → List (String × ℕ) → List (String × ManagedTorrent) → List String
unfolding is_candidate
head_candidates to_lowercase now interval last [] = []
head_candidates to_lowercase now interval last ((k, mt) ∷ torrents) =
    let rest = head_candidates to_lowercase now interval last torrents in
    if is_candidate to_lowercase now interval last mt then mt.access_key ∷ rest else rest

-- Every check is remembered, whether or not it could be made.
abbrev pub after_check : ℕ → String → ℕ → Answer ℕ → Heads → Heads
after_check threshold key now (failed e) h = record h { last = insert key now h.last }
after_check threshold key now (answered n) h = record h {
  last = insert key now h.last;
  keys = (if leb threshold n then h.keys ++ (key ∷ []) else h.keys);
}

unfoldable pub check_info : Account → HeadCheck → String → Option TorrentInfo → Heads → Heads
unfolding check_head_unreachable
check_info rd cfg key none h = h
check_info rd cfg key (some info) h =
    let (n, l) = check_head_unreachable rd info h.log in
    after_check (max cfg.head_unreachable_threshold 1) key (cfg.clock l) n (record h { log = l })

unfoldable pub check_found : Account → HeadCheck → String → Option ManagedTorrent → Heads → Heads
unfolding check_info
check_found rd cfg key none h = h
check_found rd cfg key (some mt) h = check_info rd cfg key mt.info h

unfoldable pub check_each :
    Account → HeadCheck → List (String × ManagedTorrent) → List String → Heads → Heads
unfolding check_found
check_each rd cfg torrents [] h = h
check_each rd cfg torrents (key ∷ keys) h =
    check_each rd cfg torrents keys (check_found rd cfg key (lookup key torrents) h)

unfoldable pub append_passive_head_candidates :
    Account → HeadCheck → List (String × ManagedTorrent) → List (String × ℕ) → Log → Heads
unfolding check_each head_candidates
append_passive_head_candidates rd cfg torrents last l =
    let none_yet : Heads = record { keys = []; last = last; log = l } in
    let interval = max cfg.head_check_min_interval_mins 1 * 60 in
    let candidates = head_candidates rd.to_lowercase (cfg.clock l) interval last torrents in
    let checked = check_each rd cfg torrents candidates none_yet in
    if cfg.head_check_enabled then checked else none_yet

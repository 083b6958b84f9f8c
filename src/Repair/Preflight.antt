-- ===== src/Repair/Preflight.antt =====
-- The steps before the cascade: src/repair/preflight.rs. Links that belong to no selected file are
-- assigned, the links of the selected files are probed, and one verified link is enough to end
-- the repair when no playable file is broken.
pub mod Orphans
pub mod Verdict
use rd_rs.Prelude.{
  ℕ, zero, suc, ◌+◌, Bool, true, false, not, ◌||◌, ◌&&◌, Option, none, some, List, [], ◌∷◌, String,
  ◌==◌, if◌then◌else◌, length, drop, get_elem?, set,
}
use rd_rs.Prelude.Int.{ℤ, ◌=ℤ◌, is_positive}
use rd_rs.Prelude.Map.{◌=?◌, lookup, insert, string_keys}
use rd_rs.Prelude.Texts.{ends_with, file_name}
use rd_rs.Rd.Client.Errors.{RdError, is_bandwidth_limited}
use rd_rs.Torrent.Types.{
  File, TorrentInfo, Download, FileStates, ManagedTorrent, is_selected, selected_of,
}
use rd_rs.Torrent.Manager.{states_or_empty}
use rd_rs.Repair.Account.{Account, Answer, answered, failed, Log, unrestrict_link}
use rd_rs.Repair.Detect.{path_looks_playable, is_nonempty, filled, verified_link, link_works}

pub data PreflightOutcome : Type 0 where
  proceed : ManagedTorrent → PreflightOutcome
  verified_ok : ManagedTorrent → PreflightOutcome
  defer_preflight : PreflightOutcome

abbrev pub lowered : (String → String) → Option String → String
lowered to_lowercase none = ""
lowered to_lowercase (some s) = to_lowercase s

unfoldable pub filename_lower : (String → String) → String → String
unfolding file_name
filename_lower to_lowercase path = lowered to_lowercase (file_name path)

unfoldable pub download_matches_file : (String → String) → File → Download → Bool
unfolding filename_lower
download_matches_file to_lowercase file dl =
    let fp = filename_lower to_lowercase file.path in
    let dn = to_lowercase dl.filename in
    if is_positive file.bytes && (is_positive dl.filesize && not (file.bytes =ℤ dl.filesize))
    then false
    else is_nonempty fp && (is_nonempty dn && (ends_with fp dn || (ends_with dn fp || (fp =? dn))))

abbrev pub nonempty_of : List String → List String
nonempty_of [] = []
nonempty_of (l ∷ links) = if is_nonempty l then l ∷ nonempty_of links else nonempty_of links

unfoldable pub orphan_rd_links : List String → List File → List String
orphan_rd_links links selected = drop (length selected) links

unfoldable pub selected_rar_count : (String → String) → List File → ℕ
selected_rar_count to_lowercase [] = 0
selected_rar_count to_lowercase (f ∷ fs) =
    let n = selected_rar_count to_lowercase fs in
    if ends_with (to_lowercase f.path) ".rar" then n + 1 else n

unfoldable pub all_ok : List File → FileStates → FileStates
all_ok [] states = states
all_ok (f ∷ fs) states = all_ok fs (insert f.path "ok" states)

unfoldable pub apply_lone_selected_rar_ok_policy :
    (String → String) → List File → FileStates → String → FileStates
unfolding selected_rar_count all_ok
apply_lone_selected_rar_ok_policy to_lowercase selected states path =
    if not (selected_rar_count to_lowercase selected == 1)
    then states
    else if not (ends_with (to_lowercase path) ".rar")
    then states
    else all_ok selected states

unfoldable pub ensure_link_slot : List String → ℕ → List String
ensure_link_slot [] zero = "" ∷ []
ensure_link_slot [] (suc i) = "" ∷ ensure_link_slot [] i
ensure_link_slot (l ∷ links) zero = l ∷ links
ensure_link_slot (l ∷ links) (suc i) = l ∷ ensure_link_slot links i

-- The links of a torrent and the states of its files, as they change.
pub record Slots : Type 0 where
  pub links : List String
  pub states : FileStates

abbrev pub is_broken : Option String → Bool
is_broken none = false
is_broken (some s) = s =? "broken"

abbrev pub is_slot_empty : Option String → Bool
is_slot_empty none = true
is_slot_empty (some s) = s =? ""

unfoldable pub assigned : (String → String) → List File → String → File → ℕ → Slots → Slots
unfolding apply_lone_selected_rar_ok_policy ensure_link_slot
assigned to_lowercase selected link f sel_i s = record {
  links = set (ensure_link_slot s.links sel_i) sel_i link;
  states =
      apply_lone_selected_rar_ok_policy to_lowercase selected (insert f.path "ok" s.states) f.path;
}

-- The loop over the selected files `fs`, from the place `sel_i` on: the first that wants a link and
-- matches the download gets it.
unfoldable pub assign_from :
    (String → String) → List File → String → Download → List File → ℕ → Slots → Slots
unfolding assigned download_matches_file
assign_from to_lowercase selected link dl [] sel_i s = s
assign_from to_lowercase selected link dl (f ∷ fs) sel_i s =
    let rest = assign_from to_lowercase selected link dl fs (sel_i + 1) s in
    let here = assigned to_lowercase selected link f sel_i s in
    if not (is_broken (lookup f.path s.states)) && not (is_slot_empty (get_elem? s.links sel_i))
    then rest
    else if download_matches_file to_lowercase f dl
    then here
    else rest

-- An orphan: a bandwidth limit ends the loop, and another failure only its turn.
unfoldable pub verified_orphan :
    Account → List File → String → Download → Answer Bool → Slots → Answer Slots
unfolding assign_from
verified_orphan rd selected link dl (failed e) s = failed e
verified_orphan rd selected link dl (answered false) s = answered s
verified_orphan rd selected link dl (answered true) s =
    answered (assign_from rd.to_lowercase selected link dl selected 0 s)

unfoldable pub assign_orphan :
    Account → List File → String → Answer Download → Slots → Log → Answer Slots × Log
unfolding verified_orphan
assign_orphan rd selected link (failed e) s l =
    (if is_bandwidth_limited e then failed e else answered s, l)
assign_orphan rd selected link (answered dl) s l =
    let (v, l1) = verified_link rd dl.download l in (verified_orphan rd selected link dl v s, l1)

-- A failed step keeps what was assigned before it.
abbrev pub go_on :
    Slots
    → (Slots → Option RdError × Slots × Log)
    → Answer Slots
    → Log
    → Option RdError × Slots × Log
go_on s rest (failed e) l = (some e, s, l)
go_on s rest (answered s1) l = rest s1

unfoldable pub assign_all :
    Account → List File → List String → Slots → Log → Option RdError × Slots × Log
unfolding assign_orphan
assign_all rd selected [] s l = (none, s, l)
assign_all rd selected (link ∷ links) s l =
    let (d, l1) = unrestrict_link rd link l in
    let (a, l2) = assign_orphan rd selected link d s l1 in
    go_on s (λ s1. assign_all rd selected links s1 l2) a l2

unfoldable pub assign_orphan_links :
    Account → List File → Slots → Log → Option RdError × Slots × Log
unfolding assign_all orphan_rd_links
assign_orphan_links rd selected s l =
    assign_all rd selected (nonempty_of (orphan_rd_links s.links selected)) s l

abbrev pub state_word : Bool → String
state_word true = "ok"
state_word false = "broken"

abbrev pub probed : File → Slots → Answer Bool → Answer Slots
probed f s (failed e) = failed e
probed f s (answered works) =
    answered (record s { states = insert f.path (state_word works) s.states })

unfoldable pub probe_slot : Account → File → Option String → Slots → Log → Answer Slots × Log
unfolding link_works
probe_slot rd f none s l = (answered s, l)
probe_slot rd f (some link) s l = let (a, l1) = link_works rd link l in (probed f s a, l1)

unfoldable pub probe_from : Account → List File → ℕ → Slots → Log → Option RdError × Slots × Log
unfolding probe_slot
probe_from rd [] sel_i s l = (none, s, l)
probe_from rd (f ∷ fs) sel_i s l =
    let (a, l1) = probe_slot rd f (filled (get_elem? s.links sel_i)) s l in
    go_on s (λ s1. probe_from rd fs (sel_i + 1) s1 l1) a l1

unfoldable pub probe_selected_links :
    Account → List File → Slots → Log → Option RdError × Slots × Log
unfolding probe_from
probe_selected_links rd selected s l = probe_from rd selected 0 s l

-- `broken_playable_paths` is not empty.
unfoldable pub any_broken_playable : (String → String) → List File → FileStates → Bool
any_broken_playable to_lowercase [] states = false
any_broken_playable to_lowercase (f ∷ fs) states =
    (path_looks_playable to_lowercase f.path && is_broken (lookup f.path states))
    || any_broken_playable to_lowercase fs states

unfoldable pub any_playable : (String → String) → List File → Bool
any_playable to_lowercase [] = false
any_playable to_lowercase (f ∷ fs) =
    path_looks_playable to_lowercase f.path || any_playable to_lowercase fs

-- `entry(…).or_insert_with(…)`
abbrev pub insert_missing : String → Option String → FileStates → FileStates
insert_missing path none states = insert path "ok" states
insert_missing path (some s) states = states

unfoldable pub playable_ok : (String → String) → List File → FileStates → FileStates
playable_ok to_lowercase [] states = states
playable_ok to_lowercase (f ∷ fs) states = playable_ok to_lowercase fs (
    if path_looks_playable to_lowercase f.path
    then insert_missing f.path (lookup f.path states) states
    else states)

-- The first selected file with a link decides: all is well, not, or the check failed.
abbrev pub verdict :
    (String → String) → List File → File → FileStates → Answer Bool → Answer (Option FileStates)
verdict to_lowercase selected f states (failed e) = failed e
verdict to_lowercase selected f states (answered false) = answered none
verdict to_lowercase selected f states (answered true) =
    answered (some (playable_ok to_lowercase selected (insert f.path "ok" states)))

abbrev pub checked : Account → Answer Download → Log → Answer Bool × Log
checked rd (failed e) l = (failed e, l)
checked rd (answered dl) l = verified_link rd dl.download l

-- `unrestrict_link(…).await?`: here every error is handed on.
unfoldable pub check_link : Account → String → Log → Answer Bool × Log
check_link rd link l = let (d, l1) = unrestrict_link rd link l in checked rd d l1

abbrev pub verify_slot :
    Account
    → List File
    → FileStates
    → File
    → Option String
    → Answer (Option FileStates) × Log
    → Log
    → Answer (Option FileStates) × Log
verify_slot rd selected states f none rest l = rest
verify_slot rd selected states f (some link) rest l =
    let (a, l1) = check_link rd link l in (verdict rd.to_lowercase selected f states a, l1)

unfoldable pub verify_from :
    Account
    → List File
    → List String
    → FileStates
    → List File
    → ℕ
    → Log
    → Answer (Option FileStates) × Log
unfolding check_link playable_ok
verify_from rd selected links states [] sel_i l = (answered none, l)
verify_from rd selected links states (f ∷ fs) sel_i l =
    let rest = verify_from rd selected links states fs (sel_i + 1) l in
    verify_slot rd selected states f (filled (get_elem? links sel_i)) rest l

unfoldable pub verify_one_link_and_clear :
    Account → List File → Slots → Log → Answer (Option FileStates) × Log
unfolding verify_from any_playable any_broken_playable
verify_one_link_and_clear rd selected s l =
    let checked = verify_from rd selected s.links s.states selected 0 l in
    if not (any_playable rd.to_lowercase selected)
    then (answered none, l)
    else if any_broken_playable rd.to_lowercase selected s.states
    then (answered none, l)
    else checked

-- What an error of a step does: a bandwidth limit defers the repair, and another is passed over.
abbrev pub is_limited : Option RdError → Bool
is_limited none = false
is_limited (some e) = is_bandwidth_limited e

abbrev pub with_slots : TorrentInfo → Slots → ManagedTorrent → ManagedTorrent
with_slots info s mt = record mt {
  info = some (record info { links = s.links });
  file_states = some s.states;
}

abbrev pub settle : ManagedTorrent → Answer (Option FileStates) → PreflightOutcome
settle mt (failed e) = if is_bandwidth_limited e then defer_preflight else proceed mt
settle mt (answered none) = proceed mt
settle mt (answered (some states)) = verified_ok (record mt { file_states = some states })

unfoldable pub verified_step :
    Account → TorrentInfo → ManagedTorrent → Option RdError × Slots × Log → PreflightOutcome × Log
unfolding verify_one_link_and_clear selected_of
verified_step rd info mt (e, s, l) =
    let (a, l1) = verify_one_link_and_clear rd (selected_of info.files) s l in
    if is_limited e then (defer_preflight, l) else (settle (with_slots info s mt) a, l1)

unfoldable pub probed_step :
    Account → TorrentInfo → ManagedTorrent → Option RdError × Slots × Log → PreflightOutcome × Log
unfolding probe_selected_links verified_step selected_of
probed_step rd info mt (e, s, l) =
    let next = verified_step rd info mt (probe_selected_links rd (selected_of info.files) s l) in
    if is_limited e then (defer_preflight, l) else next

unfoldable pub preflight_of :
    Account → ManagedTorrent → Option TorrentInfo → Log → PreflightOutcome × Log
unfolding assign_orphan_links probed_step selected_of
preflight_of rd mt none l = (proceed mt, l)
preflight_of rd mt (some info) l =
    let s : Slots = record { links = info.links; states = states_or_empty mt.file_states } in
    probed_step rd info mt (assign_orphan_links rd (selected_of info.files) s l)

unfoldable pub run_preflight : Account → ManagedTorrent → Log → PreflightOutcome × Log
unfolding preflight_of
run_preflight rd mt l = preflight_of rd mt mt.info l

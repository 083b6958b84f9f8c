-- ===== src/Repair/Detect.antt =====
-- Which torrents need a repair: src/repair/detect.rs, but for the stall rule, which computes with
-- floating-point numbers.
use rd_rs.Prelude.{
  ℕ, ◌+◌, Bool, true, false, not, ◌||◌, ◌&&◌, Option, none, some, List, [], ◌∷◌, String, ltb,
  if◌then◌else◌, get_elem?,
}
use rd_rs.Prelude.Int.{ℤ, ◌=ℤ◌}
use rd_rs.Prelude.Map.{◌=?◌, string_keys}
use rd_rs.Prelude.Texts.{ends_with, has_part}
use rd_rs.Rd.Client.Errors.{api, traffic_exhausted, is_bandwidth_limited}
use rd_rs.Torrent.Types.{
  Download, File, TorrentInfo, FileStates, ManagedTorrent, is_selected, selected_of, is_state, ok,
  broken, under_repair,
}
use rd_rs.Repair.Account.{Account, Answer, answered, failed, Log, unrestrict_link, verify_link}

abbrev pub ends_with_any : String → List String → Bool
ends_with_any p [] = false
ends_with_any p (s ∷ suffixes) = ends_with p s || ends_with_any p suffixes

abbrev pub playable_suffixes : List String
playable_suffixes =
    ".mkv" ∷ ".mp4" ∷ ".avi" ∷ ".webm" ∷ ".m4v" ∷ ".mpg" ∷ ".mpeg" ∷ ".mp3" ∷ ".flac" ∷ ".m4b"
    ∷ ".aac" ∷ ".opus" ∷ ".wav" ∷ []

unfoldable pub path_looks_playable : (String → String) → String → Bool
path_looks_playable to_lowercase path = ends_with_any (to_lowercase path) playable_suffixes

unfoldable pub verify_failed_like_bandwidth : (String → String) → String → Bool
verify_failed_like_bandwidth to_lowercase e =
    let m = to_lowercase e in
    has_part m "traffic" || (has_part m "bandwidth" || has_part m "fair usage")

abbrev pub is_nonempty : String → Bool
is_nonempty s = not (s =? "")

-- `links.get(i).filter(|s| !s.is_empty())`
abbrev pub filled : Option String → Option String
filled none = none
filled (some link) = if is_nonempty link then some link else none

abbrev pub has_link : Option String → Bool
has_link none = false
has_link (some link) = is_nonempty link

-- The loop of `unassigned_selected_link_count`, from the place `sel_i` among the selected files on.
unfoldable pub unassigned_from : List String → List File → ℕ → ℕ
unassigned_from links [] sel_i = 0
unassigned_from links (f ∷ fs) sel_i =
    let skip = unassigned_from links fs sel_i in
    let rest = unassigned_from links fs (sel_i + 1) in
    if not (is_selected f)
    then skip
    else if has_link (get_elem? links sel_i)
    then rest
    else rest + 1

unfoldable pub unassigned_selected_link_count : TorrentInfo → ℕ
unfolding unassigned_from
unassigned_selected_link_count info = unassigned_from info.links info.files 0

abbrev pub any_broken : (String → String) → FileStates → Bool
any_broken to_lowercase [] = false
any_broken to_lowercase ((p, s) ∷ fs) =
    ((s =? "broken") && path_looks_playable to_lowercase p) || any_broken to_lowercase fs

abbrev pub is_unassigned : Option TorrentInfo → Bool
is_unassigned none = false
is_unassigned (some info) = ltb 0 (unassigned_selected_link_count info)

abbrev pub is_file_broken : (String → String) → Option FileStates → Bool
is_file_broken to_lowercase none = false
is_file_broken to_lowercase (some fs) = any_broken to_lowercase fs

abbrev pub is_some : Option String → Bool
is_some none = false
is_some (some s) = true

unfoldable pub periodic_repair_eligible : (String → String) → ManagedTorrent → Bool
unfolding path_looks_playable unassigned_selected_link_count
periodic_repair_eligible to_lowercase mt =
    if is_some mt.unrepairable_reason
    then false
    else is_state mt.state broken
      || (is_state mt.state under_repair
          || (is_state mt.state ok
              && (is_unassigned mt.info || is_file_broken to_lowercase mt.file_states)))

abbrev pub is_probed : (String → String) → List String → File → ℕ → Bool
is_probed to_lowercase links f sel_i =
    path_looks_playable to_lowercase f.path && has_link (get_elem? links sel_i)

-- The loop over the selected files.
unfoldable pub probe_slots_from : (String → String) → List String → List File → ℕ → ℕ
probe_slots_from to_lowercase links [] sel_i = 0
probe_slots_from to_lowercase links (f ∷ fs) sel_i =
    let n = probe_slots_from to_lowercase links fs (sel_i + 1) in
    if is_probed to_lowercase links f sel_i then n + 1 else n

unfoldable pub passive_head_probe_slot_count : (String → String) → TorrentInfo → ℕ
unfolding probe_slots_from path_looks_playable selected_of
passive_head_probe_slot_count to_lowercase info =
    probe_slots_from to_lowercase info.links (selected_of info.files) 0

abbrev pub verify_result : (String → String) → Option String → Answer Bool
verify_result to_lowercase none = answered true
verify_result to_lowercase (some e) =
    if verify_failed_like_bandwidth to_lowercase e
    then failed (api (traffic_exhausted e))
    else answered false

-- One link: `failed` ends the check, `answered false` counts the slot.
abbrev pub verified_link : Account → String → Log → Answer Bool × Log
verified_link rd url l = let (r, l1) = verify_link rd url l in (verify_result rd.to_lowercase r, l1)

unfoldable pub after_unrestrict : Account → Answer Download → Log → Answer Bool × Log
after_unrestrict rd (answered dl) l = verified_link rd dl.download l
after_unrestrict rd (failed e) l = (if is_bandwidth_limited e then failed e else answered false, l)

unfoldable pub link_works : Account → String → Log → Answer Bool × Log
unfolding after_unrestrict
link_works rd link l = let (a, l1) = unrestrict_link rd link l in after_unrestrict rd a l1

abbrev pub count_unreachable : Bool → ℕ → ℕ
count_unreachable true n = n
count_unreachable false n = n + 1

abbrev pub probe_filled :
    (String → Answer ℕ × Log) → Answer ℕ × Log → Option String → Answer ℕ × Log
probe_filled probe skip none = skip
probe_filled probe skip (some link) = probe link

abbrev pub next_slot : (Bool → Answer ℕ × Log) → Answer Bool → Log → Answer ℕ × Log
next_slot rest (failed e) l = (failed e, l)
next_slot rest (answered works) l = rest works

unfoldable pub check_from : Account → List String → List File → ℕ → ℕ → Log → Answer ℕ × Log
unfolding link_works
check_from rd links [] sel_i unreachable l = (answered unreachable, l)
check_from rd links (f ∷ fs) sel_i unreachable l =
    let skip = check_from rd links fs (sel_i + 1) unreachable l in
    let probe = λ (link : String).
      let (a, l1) = link_works rd link l in
      next_slot
        (λ works. check_from rd links fs (sel_i + 1) (count_unreachable works unreachable) l1) a
        l1 in
    if path_looks_playable rd.to_lowercase f.path
    then probe_filled probe skip (filled (get_elem? links sel_i))
    else skip

unfoldable pub check_head_unreachable : Account → TorrentInfo → Log → Answer ℕ × Log
unfolding check_from selected_of
check_head_unreachable rd info l = check_from rd info.links (selected_of info.files) 0 0 l

abbrev pub has_id : ℤ → List ℤ → Bool
has_id id [] = false
has_id id (x ∷ seen) = (x =ℤ id) || has_id id seen

unfoldable pub duplicate_among : List ℤ → List File → Bool
duplicate_among seen [] = false
duplicate_among seen (f ∷ fs) = if has_id f.id seen then true else duplicate_among (f.id ∷ seen) fs

unfoldable pub duplicate_selected_file_ids : TorrentInfo → Bool
unfolding duplicate_among selected_of
duplicate_selected_file_ids info = duplicate_among [] (selected_of info.files)

unfoldable pub any_non_playable : (String → String) → List File → Bool
any_non_playable to_lowercase [] = false
any_non_playable to_lowercase (f ∷ fs) =
    not (path_looks_playable to_lowercase f.path) || any_non_playable to_lowercase fs

unfoldable pub has_non_playable_selected : (String → String) → TorrentInfo → Bool
unfolding any_non_playable selected_of
has_non_playable_selected to_lowercase info = any_non_playable to_lowercase (selected_of info.files)

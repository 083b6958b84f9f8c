-- ===== src/Repair/Preflight/Verdict.antt =====
-- When the preflight ends a repair as verified.
use rd_rs.Prelude.{
  ℕ, ◌+◌, ◌≡◌, refl, inl, inr, Bool, true, false, Option, none, some, List, [], ◌∷◌, String, arith,
  Bool-cases, get_elem?,
}
use rd_rs.Prelude.Map.{lookup, insert, string_keys}
use rd_rs.Rd.Client.Errors.{RdError, is_bandwidth_limited}
use rd_rs.Torrent.Types.{
  File, TorrentInfo, Download, FileStates, ManagedTorrent, selected_of, files_of,
}
use rd_rs.Torrent.Manager.{states_or_empty}
use rd_rs.Repair.Account.{
  Account, Answer, answered, failed, asked_to_delete, added, selected, asked_info, deleted,
  spawned_delete, unrestricted, verified, Log,
}
use rd_rs.Repair.Detect.{
  path_looks_playable, filled, verify_result, verified_link, verify_failed_like_bandwidth,
}
use rd_rs.Repair.Preflight.{
  PreflightOutcome, proceed, verified_ok, defer_preflight, Slots, any_broken_playable, any_playable,
  insert_missing, playable_ok, verdict, checked, check_link, verify_slot, verify_from,
  verify_one_link_and_clear, is_limited, with_slots, settle, verified_step, probed_step,
  probe_selected_links, assign_orphan_links, preflight_of, run_preflight,
}
use rd_rs.Repair.Preflight.Orphans.{is_broken-insert_ok}

-- The last call verified a link.
abbrev pub just_verified : Log → Bool
just_verified [] = false
just_verified (asked_to_delete id r ∷ l) = false
just_verified (added hash r ∷ l) = false
just_verified (selected id files r ∷ l) = false
just_verified (asked_info id r ∷ l) = false
just_verified (deleted id r ∷ l) = false
just_verified (spawned_delete id ∷ l) = false
just_verified (unrestricted link r ∷ l) = false
just_verified (verified url none ∷ l) = true
just_verified (verified url (some e) ∷ l) = false

any_broken-insert_ok :
    (lower : String → String) (fs : List File) (q : String) (states : FileStates)
    → any_broken_playable lower fs states ≡ false
    → any_broken_playable lower fs (insert q "ok" states) ≡ false
unfolding any_broken_playable
any_broken-insert_ok lower [] q states h = refl
any_broken-insert_ok lower (f ∷ fs) q states h =
    ground (arith, is_broken-insert_ok f.path q states, any_broken-insert_ok lower fs q states)

any_broken-insert_missing :
    (lower : String → String) (fs : List File) (q : String) (o : Option String)
    (states : FileStates)
    → any_broken_playable lower fs states ≡ false
    → any_broken_playable lower fs (insert_missing q o states) ≡ false
any_broken-insert_missing lower fs q none states h = any_broken-insert_ok lower fs q states h
any_broken-insert_missing lower fs q (some s) states h = h

any_broken-playable_ok :
    (lower : String → String) (fs gs : List File) (states : FileStates)
    → any_broken_playable lower fs states ≡ false
    → any_broken_playable lower fs (playable_ok lower gs states) ≡ false
unfolding playable_ok
any_broken-playable_ok lower fs [] states h = h
any_broken-playable_ok lower fs (g ∷ gs) states h =
    elim (Bool-cases (path_looks_playable lower g.path)) [
      | inl playable ↦ rw playable (
          any_broken-playable_ok lower fs gs (insert_missing g.path (lookup g.path states) states)
            (any_broken-insert_missing lower fs g.path (lookup g.path states) states h))
      | inr other ↦ rw other (any_broken-playable_ok lower fs gs states h)
    ]

-- A verdict that all is well comes with a verified link and no broken playable file.
abbrev IsWell : (String → String) → List File → Answer (Option FileStates) × Log → Type 0
IsWell lower fs (failed e, l) = Unit {0}
IsWell lower fs (answered none, l) = Unit {0}
IsWell lower fs (answered (some states), l) =
    (any_broken_playable lower fs states ≡ false) × (just_verified l ≡ true)

abbrev IsTrue : Answer Bool × Log → Type 0
IsTrue (failed e, l) = Unit {0}
IsTrue (answered false, l) = Unit {0}
IsTrue (answered true, l) = just_verified l ≡ true

IsTrue-result :
    (lower : String → String) (url : String) (r : Option String) (l : Log)
    → IsTrue (verify_result lower r, verified url r ∷ l)
IsTrue-result lower url none l = refl
IsTrue-result lower url (some e) l = elim (Bool-cases (verify_failed_like_bandwidth lower e)) [
  | inl limited ↦ rw limited tt
  | inr other ↦ rw other tt
]

IsTrue-verified_link : (rd : Account) (url : String) (l : Log) → IsTrue (verified_link rd url l)
IsTrue-verified_link rd url l = IsTrue-result rd.to_lowercase url (rd.verify_link l url) l

IsTrue-checked : (rd : Account) (d : Answer Download) (l : Log) → IsTrue (checked rd d l)
IsTrue-checked rd (failed e) l = tt
IsTrue-checked rd (answered dl) l = IsTrue-verified_link rd dl.download l

IsWell-verdict :
    (lower : String → String) (fs : List File) (f : File) (states : FileStates) (a : Answer Bool)
    (l : Log)
    → any_broken_playable lower fs states ≡ false
    → IsTrue (a, l)
    → IsWell lower fs (verdict lower fs f states a, l)
IsWell-verdict lower fs f states (failed e) l h t = tt
IsWell-verdict lower fs f states (answered false) l h t = tt
IsWell-verdict lower fs f states (answered true) l h t = (
  any_broken-playable_ok lower fs fs (insert f.path "ok" states)
      (any_broken-insert_ok lower fs f.path states h),
  t,
)

IsWell-verify_slot :
    (rd : Account) (fs : List File) (states : FileStates) (f : File) (o : Option String)
    (rest : Answer (Option FileStates) × Log) (l : Log)
    → any_broken_playable rd.to_lowercase fs states ≡ false
    → IsWell rd.to_lowercase fs rest
    → IsWell rd.to_lowercase fs (verify_slot rd fs states f o rest l)
unfolding check_link
IsWell-verify_slot rd fs states f none rest l h r = r
IsWell-verify_slot rd fs states f (some link) rest l h r =
    let d = rd.unrestrict_link l link in
    let c = checked rd d (unrestricted link d ∷ l) in
    IsWell-verdict rd.to_lowercase fs f states c.0 c.1 h
      (IsTrue-checked rd d (unrestricted link d ∷ l))

IsWell-verify_from :
    (rd : Account) (fs : List File) (links : List String) (states : FileStates) (gs : List File)
    (sel_i : ℕ) (l : Log)
    → any_broken_playable rd.to_lowercase fs states ≡ false
    → IsWell rd.to_lowercase fs (verify_from rd fs links states gs sel_i l)
unfolding verify_from
IsWell-verify_from rd fs links states [] sel_i l h = tt
IsWell-verify_from rd fs links states (g ∷ gs) sel_i l h =
    IsWell-verify_slot rd fs states g (filled (get_elem? links sel_i))
      (verify_from rd fs links states gs (sel_i + 1) l) l h
      (IsWell-verify_from rd fs links states gs (sel_i + 1) l h)

IsWell-verify_one :
    (rd : Account) (fs : List File) (s : Slots) (l : Log)
    → IsWell rd.to_lowercase fs (verify_one_link_and_clear rd fs s l)
unfolding verify_one_link_and_clear
IsWell-verify_one rd fs s l = elim (Bool-cases (any_playable rd.to_lowercase fs)) [
  | inl playable ↦ elim (Bool-cases (any_broken_playable rd.to_lowercase fs s.states)) [
    | inl broken ↦ rw (playable, broken) tt
    | inr fine ↦ rw (playable, fine) (IsWell-verify_from rd fs s.links s.states fs 0 l fine)
  ]
  | inr nothing ↦ rw nothing tt
]

-- An outcome of verification, with the log, is as it should be.
abbrev IsSound : (String → String) → PreflightOutcome × Log → Type 0
IsSound lower (proceed mt, l) = Unit {0}
IsSound lower (defer_preflight, l) = Unit {0}
IsSound lower (verified_ok mt, l) =
    (any_broken_playable lower (selected_of (files_of mt.info)) (states_or_empty mt.file_states)
      ≡ false)
    × (just_verified l ≡ true)

IsSound-settle :
    (lower : String → String) (info : TorrentInfo) (s : Slots) (mt : ManagedTorrent)
    (a : Answer (Option FileStates)) (l : Log)
    → IsWell lower (selected_of info.files) (a, l)
    → IsSound lower (settle (with_slots info s mt) a, l)
IsSound-settle lower info s mt (failed e) l h = elim (Bool-cases (is_bandwidth_limited e)) [
  | inl limited ↦ rw limited tt
  | inr other ↦ rw other tt
]
IsSound-settle lower info s mt (answered none) l h = tt
IsSound-settle lower info s mt (answered (some states)) l h = h

IsSound-verified_step :
    (rd : Account) (info : TorrentInfo) (mt : ManagedTorrent) (r : Option RdError × Slots × Log)
    → IsSound rd.to_lowercase (verified_step rd info mt r)
unfolding verified_step
IsSound-verified_step rd info mt (e, s, l) =
    let fs = selected_of info.files in
    let v = verify_one_link_and_clear rd fs s l in
    elim (Bool-cases (is_limited e)) [
      | inl limited ↦ rw limited tt
      | inr fine ↦
          rw fine (IsSound-settle rd.to_lowercase info s mt v.0 v.1 (IsWell-verify_one rd fs s l))
    ]

IsSound-probed_step :
    (rd : Account) (info : TorrentInfo) (mt : ManagedTorrent) (r : Option RdError × Slots × Log)
    → IsSound rd.to_lowercase (probed_step rd info mt r)
unfolding probed_step
IsSound-probed_step rd info mt (e, s, l) = elim (Bool-cases (is_limited e)) [
  | inl limited ↦ rw limited tt
  | inr fine ↦
      rw fine
        (IsSound-verified_step rd info mt (probe_selected_links rd (selected_of info.files) s l))
]

IsSound-preflight_of :
    (rd : Account) (mt : ManagedTorrent) (o : Option TorrentInfo) (l : Log)
    → IsSound rd.to_lowercase (preflight_of rd mt o l)
unfolding preflight_of
IsSound-preflight_of rd mt none l = tt
IsSound-preflight_of rd mt (some info) l = IsSound-probed_step rd info mt (
    assign_orphan_links rd (selected_of info.files)
      (record { links = info.links; states = states_or_empty mt.file_states }) l)

-- A repair that the preflight ends as verified: no selected playable file of the torrent that it
-- hands on is marked as broken, and the last call that it made verified a link of the account.
pub run_preflight-verified_ok :
    (rd : Account) (mt fixed : ManagedTorrent) (l l1 : Log)
    → run_preflight rd mt l ≡ (verified_ok fixed, l1)
    → (any_broken_playable rd.to_lowercase
          (selected_of (files_of fixed.info))
          (states_or_empty fixed.file_states)
        ≡ false)
      × (just_verified l1 ≡ true)
unfolding run_preflight
run_preflight-verified_ok rd mt fixed l l1 e = rw e at (IsSound-preflight_of rd mt mt.info l)

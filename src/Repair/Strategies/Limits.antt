-- ===== src/Repair/Strategies/Limits.antt =====
-- The calls that meet a bandwidth limit, and how the calls of one magnet answer it.
use rd_rs.Prelude.{
  ℕ, zero, suc, ◌≡◌, refl, sym, ◌∙◌, inl, inr, Bool, true, false, ◌||◌, Option, none, some, List,
  [], ◌∷◌, String, arith, Bool-cases,
}
use rd_rs.Prelude.Map.{string_keys}
use rd_rs.Rd.Client.Errors.{RdError, is_bandwidth_limited}
use rd_rs.Torrent.Types.{TorrentInfo}
use rd_rs.Repair.Account.{
  Account, Answer, answered, failed, Call, asked_to_delete, added, selected, asked_info, deleted,
  spawned_delete, unrestricted, verified, Log, delete_all,
}
use rd_rs.Repair.Ephemeral.{
  InfoReadyOutcome, looks_ready, poll_again, poll, info_ready, left_in, drop_guard,
}
use rd_rs.Repair.Reasons.{
  from_rd_error_message, CascadeOutcome, success, unrepairable, unrepairable_msg, defer_bandwidth,
}
use rd_rs.Repair.Strategies.{
  map_rd, named_reason, uncached_outcome, ends, Tried, not_added, not_selected, polled,
  after_select, after_add, try_magnet, give_up_uncached, reinserted, limited_end, archived, Ended,
}

abbrev pub limits : {A : Type 0} → Answer A → Bool
limits (answered a) = false
limits (failed e) = is_bandwidth_limited e

abbrev pub limits_error : Option RdError → Bool
limits_error none = false
limits_error (some e) = is_bandwidth_limited e

-- A call of the cascade proper that met a bandwidth limit; not so the deletions of the torrent's
-- old ids, whose errors are ignored, nor those that run on their own.
abbrev pub is_limited_call : Call → Bool
is_limited_call (asked_to_delete id r) = false
is_limited_call (added hash r) = limits r
is_limited_call (selected id files r) = limits_error r
is_limited_call (asked_info id r) = limits r
is_limited_call (deleted id r) = limits_error r
is_limited_call (spawned_delete id) = false
is_limited_call (unrestricted link r) = false
is_limited_call (verified url r) = false

unfoldable pub any_limited : Log → Bool
any_limited [] = false
any_limited (c ∷ l) = is_limited_call c || any_limited l

abbrev pub is_defer : CascadeOutcome → Bool
is_defer (success ids) = false
is_defer (unrepairable r) = false
is_defer (unrepairable_msg m) = false
is_defer defer_bandwidth = true

abbrev pub defers : Option CascadeOutcome → Bool
defers none = false
defers (some o) = is_defer o

-- A result defers just when a call of the log met a limit.
abbrev pub Agrees : Ended → Type 0
Agrees (o, l) = defers o ≡ any_limited l

-- The newest call decides, if no other met a limit.
any_limited-newest :
    (c : Call) (l : Log) → any_limited l ≡ false → any_limited (c ∷ l) ≡ is_limited_call c
unfolding any_limited
any_limited-newest c l h = elim (Bool-cases (is_limited_call c)) [
  | inl limited ↦ rw limited
  | inr fine ↦ rw (fine, h)
]

any_limited-dropped : (id : String) (l : Log) → any_limited (spawned_delete id ∷ l) ≡ any_limited l
unfolding any_limited
any_limited-dropped id l = refl

pub any_limited-delete_all :
    (rd : Account) (ids : List String) (l : Log) → any_limited (delete_all rd ids l) ≡ any_limited l
unfolding delete_all any_limited
any_limited-delete_all rd [] l = refl
any_limited-delete_all rd (id ∷ ids) l =
    any_limited-delete_all rd ids (asked_to_delete id (rd.delete_torrent l id) ∷ l)

limits-poll_again :
    (id : String) (a : Answer TorrentInfo) (rest : Answer InfoReadyOutcome × Log) (l : Log)
    → any_limited l ≡ false
    → (any_limited (asked_info id a ∷ l) ≡ false → limits rest.0 ≡ any_limited rest.1)
    → let r = poll_again a rest (asked_info id a ∷ l) in limits r.0 ≡ any_limited r.1
limits-poll_again id (failed e) rest l h k = sym (any_limited-newest (asked_info id (failed e)) l h)
limits-poll_again id (answered info) rest l h k =
    let quiet = any_limited-newest (asked_info id (answered info)) l h in
    elim (Bool-cases (looks_ready info)) [
      | inl done ↦ rw done (sym quiet)
      | inr more ↦ rw more (k quiet)
    ]

limits-poll :
    (rd : Account) (id : String) (restrict : Bool) (attempts : ℕ) (l : Log)
    → any_limited l ≡ false
    → let r = poll rd id restrict attempts l in limits r.0 ≡ any_limited r.1
unfolding poll
limits-poll rd id restrict zero l h = sym h
limits-poll rd id restrict (suc attempts) l h =
    let a = rd.get_torrent_info l id in
    limits-poll_again id a (poll rd id restrict attempts (asked_info id a ∷ l)) l h
      (limits-poll rd id restrict attempts (asked_info id a ∷ l))

abbrev pub limits_tried : Tried → Bool
limits_tried (not_added e) = is_bandwidth_limited e
limits_tried (not_selected id e) = is_bandwidth_limited e
limits_tried (polled id out) = limits out

abbrev pub TriedAgrees : Tried × Log → Type 0
TriedAgrees (t, l) = limits_tried t ≡ any_limited l

TriedAgrees-after_select :
    (rd : Account) (id files : String) (restrict : Bool) (r : Option RdError) (l : Log)
    → any_limited l ≡ false
    → TriedAgrees (after_select rd id restrict r (selected id files r ∷ l))
unfolding after_select info_ready
TriedAgrees-after_select rd id files restrict (some e) l h =
    sym (any_limited-newest (selected id files (some e)) l h)
TriedAgrees-after_select rd id files restrict none l h =
    limits-poll rd id restrict 3 (selected id files none ∷ l)
      (any_limited-newest (selected id files none) l h)

TriedAgrees-after_add :
    (rd : Account) (hash files : String) (restrict : Bool) (a : Answer String) (l : Log)
    → any_limited l ≡ false
    → TriedAgrees (after_add rd files restrict a (added hash a ∷ l))
unfolding after_add
TriedAgrees-after_add rd hash files restrict (failed e) l h =
    sym (any_limited-newest (added hash (failed e)) l h)
TriedAgrees-after_add rd hash files restrict (answered id) l h =
    let l1 = added hash (answered id) ∷ l in
    TriedAgrees-after_select rd id files restrict (rd.select_torrent_files l1 id files) l1
      (any_limited-newest (added hash (answered id)) l h)

pub TriedAgrees-try_magnet :
    (rd : Account) (hash files : String) (restrict : Bool) (l : Log)
    → any_limited l ≡ false
    → TriedAgrees (try_magnet rd hash files restrict l)
unfolding try_magnet
TriedAgrees-try_magnet rd hash files restrict l h =
    TriedAgrees-after_add rd hash files restrict (rd.add_magnet l hash) l h

is_defer-named_reason : (r : Option String) → is_defer (named_reason r) ≡ false
is_defer-named_reason none = refl
is_defer-named_reason (some r) = refl

is_defer-map_rd : (rd : Account) (e : RdError) → is_defer (map_rd rd e) ≡ is_bandwidth_limited e
unfolding map_rd
is_defer-map_rd rd e = elim (Bool-cases (is_bandwidth_limited e)) [
  | inl limited ↦ rw limited
  | inr other ↦
      rw other (is_defer-named_reason (from_rd_error_message rd.to_lowercase (rd.display e)))
]

is_defer-uncached :
    (rd : Account) (r : Option RdError) → is_defer (uncached_outcome rd r) ≡ limits_error r
is_defer-uncached rd none = refl
is_defer-uncached rd (some e) = elim (Bool-cases (is_bandwidth_limited e)) [
  | inl limited ↦ rw limited
  | inr other ↦ rw other (is_defer-map_rd rd e ∙ other)
]

any_limited-left_in :
    (id : String) (r : Option RdError) (l : Log)
    → any_limited l ≡ false
    → any_limited (drop_guard (left_in id r) (deleted id r ∷ l)) ≡ limits_error r
any_limited-left_in id none l h = any_limited-newest (deleted id none) l h
any_limited-left_in id (some e) l h =
    any_limited-dropped id (deleted id (some e) ∷ l) ∙ any_limited-newest (deleted id (some e)) l h

pub Agrees-give_up :
    (rd : Account) (id : String) (l : Log)
    → any_limited l ≡ false
    → Agrees (ends (give_up_uncached rd id l))
unfolding give_up_uncached
Agrees-give_up rd id l h =
    let r = rd.delete_torrent l id in is_defer-uncached rd r ∙ sym (any_limited-left_in id r l h)

pub Agrees-drop :
    (id : String) (o : Option CascadeOutcome) (l : Log)
    → Agrees (o, l)
    → Agrees (o, drop_guard (some id) l)
unfolding any_limited
Agrees-drop id o l h = h

Agrees-map_rd :
    (rd : Account) (e : RdError) (l : Log)
    → is_bandwidth_limited e ≡ any_limited l
    → Agrees (some (map_rd rd e), l)
Agrees-map_rd rd e l h = is_defer-map_rd rd e ∙ h

pub Agrees-reinserted :
    (rd : Account) (t : Tried) (l : Log) → TriedAgrees (t, l) → Agrees (reinserted rd t l)
unfolding reinserted
Agrees-reinserted rd (not_added e) l h = Agrees-map_rd rd e l h
Agrees-reinserted rd (not_selected id e) l h =
    Agrees-drop id (some (map_rd rd e)) l (Agrees-map_rd rd e l h)
Agrees-reinserted rd (polled id (failed e)) l h =
    Agrees-drop id (some (map_rd rd e)) l (Agrees-map_rd rd e l h)
Agrees-reinserted rd (polled id (answered out)) l h = elim (Bool-cases out.is_ready) [
  | inl done ↦ rw done h
  | inr waits ↦ elim (Bool-cases out.restrict_cached_not_ready) [
    | inl uncached ↦ rw (waits, uncached) (Agrees-give_up rd id l (sym h))
    | inr more ↦ rw (waits, more) (Agrees-drop id none l h)
  ]
]

defers-limited_end : (e : RdError) → defers (limited_end e) ≡ is_bandwidth_limited e
defers-limited_end e = ground arith

pub Agrees-archived :
    (rd : Account) (t : Tried) (l : Log) → TriedAgrees (t, l) → Agrees (archived rd t l)
unfolding archived
Agrees-archived rd (not_added e) l h = defers-limited_end e ∙ h
Agrees-archived rd (not_selected id e) l h =
    Agrees-drop id (limited_end e) l (defers-limited_end e ∙ h)
Agrees-archived rd (polled id (failed e)) l h =
    Agrees-drop id (limited_end e) l (defers-limited_end e ∙ h)
Agrees-archived rd (polled id (answered out)) l h = elim (Bool-cases out.is_ready) [
  | inl done ↦ rw done h
  | inr waits ↦ elim (Bool-cases out.restrict_cached_not_ready) [
    | inl uncached ↦ rw (waits, uncached) (Agrees-give_up rd id l (sym h))
    | inr more ↦ rw (waits, more) (Agrees-drop id none l h)
  ]
]

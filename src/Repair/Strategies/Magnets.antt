-- ===== src/Repair/Strategies/Magnets.antt =====
-- The magnets that a repair adds, and which of them are kept or removed, through the calls of one
-- magnet.
use rd_rs.Prelude.{
  ℕ, zero, suc, ◌≡◌, refl, inl, inr, Bool, true, false, ◌||◌, Option, none, some, List, [], ◌∷◌,
  String, arith, Bool-cases,
}
use rd_rs.Prelude.Map.{◌=?◌, contains, string_keys}
use rd_rs.Rd.Client.Errors.{RdError}
use rd_rs.Torrent.Types.{TorrentInfo}
use rd_rs.Repair.Account.{
  Account, Answer, answered, failed, Call, asked_to_delete, added, selected, asked_info, deleted,
  spawned_delete, unrestricted, verified, Log, delete_all,
}
use rd_rs.Repair.Ephemeral.{
  InfoReadyOutcome, looks_ready, poll_again, poll, info_ready, left_in, drop_guard,
}
use rd_rs.Repair.Strategies.{
  Tried, not_added, not_selected, polled, after_select, after_add, try_magnet, give_up_uncached,
}

abbrev pub adds : Call → String → Bool
adds (added hash (answered id)) j = id =? j
adds (added hash (failed e)) j = false
adds (asked_to_delete id r) j = false
adds (selected id files r) j = false
adds (asked_info id r) j = false
adds (deleted id r) j = false
adds (spawned_delete id) j = false
adds (unrestricted link r) j = false
adds (verified url r) j = false

abbrev pub removes : Call → String → Bool
removes (added hash r) j = false
removes (asked_to_delete id r) j = false
removes (selected id files r) j = false
removes (asked_info id r) j = false
removes (deleted id none) j = id =? j
removes (deleted id (some e)) j = false
removes (spawned_delete id) j = id =? j
removes (unrestricted link r) j = false
removes (verified url r) j = false

-- The account gave the id to a magnet of the run.
pub has_added : String → Log → Bool
has_added j [] = false
has_added j (c ∷ l) = adds c j || has_added j l

-- The id was deleted, or a task was started that deletes it.
pub is_removed : String → Log → Bool
is_removed j [] = false
is_removed j (c ∷ l) = removes c j || is_removed j l

-- Every magnet that was added is among the kept ones or removed.
pub Settled : List String → Log → Type 0
Settled kept l =
    (id : String) → has_added id l ≡ true → (contains kept id || is_removed id l) ≡ true

pub Settled-nil :
    (l : Log) → Settled [] l → (id : String) → has_added id l ≡ true → is_removed id l ≡ true
unfolding Settled contains
Settled-nil l h id new = h id new

pub Settled-start : Settled [] []
unfolding Settled has_added
Settled-start id h = cc

-- A call that adds no magnet.
pub Settled-quiet :
    (kept : List String) (c : Call) (l : Log)
    → ((j : String) → adds c j ≡ false)
    → Settled kept l
    → Settled kept (c ∷ l)
unfolding Settled has_added is_removed
Settled-quiet kept c l quiet h j e = ground (arith, quiet j, h j)

-- The guard of a magnet is dropped, or its deletion succeeds.
pub Settled-drop :
    (id : String) (l : Log) → Settled (id ∷ []) l → Settled [] (spawned_delete id ∷ l)
unfolding Settled has_added is_removed contains
Settled-drop id l h j e = ground (arith, h j)

pub Settled-delete :
    (id : String) (l : Log) → Settled (id ∷ []) l → Settled [] (deleted id none ∷ l)
unfolding Settled has_added is_removed contains
Settled-delete id l h j e = ground (arith, h j)

pub Settled-add :
    (hash id : String) (l : Log) → Settled [] l → Settled (id ∷ []) (added hash (answered id) ∷ l)
unfolding Settled has_added is_removed contains
Settled-add hash id l h j e = ground (arith, h j)

pub Settled-delete_all :
    (rd : Account) (ids : List String) (l : Log) → Settled [] l → Settled [] (delete_all rd ids l)
unfolding delete_all
Settled-delete_all rd [] l h = h
Settled-delete_all rd (id ∷ ids) l h =
    Settled-delete_all rd ids (asked_to_delete id (rd.delete_torrent l id) ∷ l)
      (Settled-quiet [] (asked_to_delete id (rd.delete_torrent l id)) l (λ j. refl) h)

pub Settled-poll_again :
    (kept : List String) (id : String) (a : Answer TorrentInfo)
    (rest : Answer InfoReadyOutcome × Log) (l : Log)
    → Settled kept l
    → Settled kept rest.1
    → Settled kept (poll_again a rest l).1
Settled-poll_again kept id (failed e) rest l h r = h
Settled-poll_again kept id (answered info) rest l h r = elim (Bool-cases (looks_ready info)) [
  | inl done ↦ rw done h
  | inr more ↦ rw more r
]

pub Settled-poll :
    (rd : Account) (id : String) (restrict : Bool) (attempts : ℕ) (kept : List String) (l : Log)
    → Settled kept l
    → Settled kept (poll rd id restrict attempts l).1
unfolding poll
Settled-poll rd id restrict zero kept l h = h
Settled-poll rd id restrict (suc attempts) kept l h =
    let a = rd.get_torrent_info l id in
    let h1 = Settled-quiet kept (asked_info id a) l (λ j. refl) h in
    Settled-poll_again kept id a _ (asked_info id a ∷ l) h1
      (Settled-poll rd id restrict attempts kept (asked_info id a ∷ l) h1)

-- The id that the guard of a magnet holds.
abbrev pub held : Tried → List String
held (not_added e) = []
held (not_selected id e) = id ∷ []
held (polled id out) = id ∷ []

pub Settled-after_select :
    (rd : Account) (id : String) (restrict : Bool) (r : Option RdError) (l : Log)
    → Settled (id ∷ []) l
    → let t = after_select rd id restrict r l in Settled (held t.0) t.1
unfolding after_select info_ready
Settled-after_select rd id restrict (some e) l h = h
Settled-after_select rd id restrict none l h = Settled-poll rd id restrict 3 (id ∷ []) l h

pub Settled-after_add :
    (rd : Account) (hash files : String) (restrict : Bool) (a : Answer String) (l : Log)
    → Settled [] l
    → let t = after_add rd files restrict a (added hash a ∷ l) in Settled (held t.0) t.1
unfolding after_add
Settled-after_add rd hash files restrict (failed e) l h =
    Settled-quiet [] (added hash (failed e)) l (λ j. refl) h
Settled-after_add rd hash files restrict (answered id) l h =
    let l1 = added hash (answered id) ∷ l in
    let r = rd.select_torrent_files l1 id files in
    Settled-after_select rd id restrict r (selected id files r ∷ l1)
      (Settled-quiet (id ∷ []) (selected id files r) l1 (λ j. refl) (Settled-add hash id l h))

pub Settled-try_magnet :
    (rd : Account) (hash files : String) (restrict : Bool) (l : Log)
    → Settled [] l
    → let t = try_magnet rd hash files restrict l in Settled (held t.0) t.1
unfolding try_magnet
Settled-try_magnet rd hash files restrict l h =
    Settled-after_add rd hash files restrict (rd.add_magnet l hash) l h

pub Settled-deleted :
    (id : String) (r : Option RdError) (l : Log)
    → Settled (id ∷ []) l
    → Settled [] (drop_guard (left_in id r) (deleted id r ∷ l))
Settled-deleted id none l h = Settled-delete id l h
Settled-deleted id (some e) l h =
    Settled-drop id (deleted id (some e) ∷ l)
      (Settled-quiet (id ∷ []) (deleted id (some e)) l (λ j. refl) h)

pub Settled-give_up :
    (rd : Account) (id : String) (l : Log)
    → Settled (id ∷ []) l
    → Settled [] (give_up_uncached rd id l).1
unfolding give_up_uncached
Settled-give_up rd id l h = Settled-deleted id (rd.delete_torrent l id) l h

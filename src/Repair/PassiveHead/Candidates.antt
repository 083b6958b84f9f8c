-- ===== src/Repair/PassiveHead/Candidates.antt =====
-- The passive check adds the keys of torrents that are well.
use mathlib.Core.Option.{some-injective}
use rd_rs.Prelude.{
  ℕ, suc, ◌-◌, ◌≤◌, false, get_elem?, ◌*◌, max, ◌≡◌, refl, inl, inr, true, ◌||◌, Option, none, some,
  List, [], ◌∷◌, ◌++◌, String, leb, arith, Bool-cases,
}
use rd_rs.Prelude.Map.{◌=?◌, lookup, contains, contains-append, string_keys}
use rd_rs.Torrent.Types.{
  TorrentInfo, TorrentState, ok, broken, under_repair, ManagedTorrent, is_state,
}
use rd_rs.Repair.Account.{Account, Answer, answered, failed, Log}
use rd_rs.Repair.Detect.{is_some, periodic_repair_eligible, check_head_unreachable}
use rd_rs.Repair.PassiveHead.{
  is_recent, has_slots, is_candidate, HeadCheck, Heads, head_candidates, after_check, check_info,
  check_found, check_each, append_passive_head_candidates,
}

-- A key that a check leaves was there or is the one that was checked.
IsAdded : Heads → Heads → String → Type 0
IsAdded h h1 key =
    (k : String) → contains h1.keys k ≡ true → (contains h.keys k || (key =? k)) ≡ true

IsAdded-same : (h h1 : Heads) (key : String) → h1.keys ≡ h.keys → IsAdded h h1 key
unfolding IsAdded
IsAdded-same h h1 key same k there =
    let before : contains h.keys k ≡ true = rw (← same) there in rw before refl

IsAdded-after_check :
    (threshold : ℕ) (key : String) (now : ℕ) (a : Answer ℕ) (h : Heads)
    → IsAdded h (after_check threshold key now a h) key
unfolding IsAdded contains
IsAdded-after_check threshold key now (failed e) h k there = rw there refl
IsAdded-after_check threshold key now (answered n) h k there = elim (Bool-cases (leb threshold n)) [
  | inl many ↦
      let after : contains (h.keys ++ (key ∷ [])) k ≡ true = rw many at there in
      ground (arith, contains-append h.keys (key ∷ []) k, after)
  | inr few ↦ let before : contains h.keys k ≡ true = rw few at there in rw before refl
]

IsAdded-check_info :
    (rd : Account) (cfg : HeadCheck) (key : String) (o : Option TorrentInfo) (h : Heads)
    → IsAdded h (check_info rd cfg key o h) key
unfolding check_info IsAdded
IsAdded-check_info rd cfg key none h = IsAdded-same h h key refl
IsAdded-check_info rd cfg key (some info) h =
    let checked = check_head_unreachable rd info h.log in
    IsAdded-after_check (max cfg.head_unreachable_threshold 1) key (cfg.clock checked.1) checked.0
      (record h { log = checked.1 })

IsAdded-check_found :
    (rd : Account) (cfg : HeadCheck) (key : String) (o : Option ManagedTorrent) (h : Heads)
    → IsAdded h (check_found rd cfg key o h) key
unfolding check_found
IsAdded-check_found rd cfg key none h = IsAdded-same h h key refl
IsAdded-check_found rd cfg key (some mt) h = IsAdded-check_info rd cfg key mt.info h

contains-check_each :
    (rd : Account) (cfg : HeadCheck) (torrents : List (String × ManagedTorrent))
    (keys : List String) (h : Heads) (k : String)
    → contains (check_each rd cfg torrents keys h).keys k ≡ true
    → (contains h.keys k || contains keys k) ≡ true
unfolding check_each contains IsAdded
contains-check_each rd cfg torrents [] h k there = rw there refl
contains-check_each rd cfg torrents (key ∷ keys) h k there =
    let found = lookup key torrents in
    let h1 = check_found rd cfg key found h in
    let rest = contains-check_each rd cfg torrents keys h1 k there in
    let step = IsAdded-check_found rd cfg key found h k in ground (arith, rest, step)

-- A torrent that the passive check looks at, by what it is and when it was checked last.
pub record IsWell (to_lowercase : String → String) (now interval : ℕ) (last : List (String × ℕ))
    (k : String) (mt : ManagedTorrent) : Type 0 where
  pub own_key : mt.access_key ≡ k
  pub is_ok : mt.state ≡ ok
  pub not_given_up : mt.unrepairable_reason ≡ none
  pub not_due : periodic_repair_eligible to_lowercase mt ≡ false
  pub can_probe : has_slots to_lowercase mt.info ≡ true
  pub long_ago : (t : ℕ) → lookup k last ≡ some t → interval ≤ now - t

is_state_ok : (st : TorrentState) → is_state st ok ≡ true → st ≡ ok
is_state_ok ok h = refl
is_state_ok broken h = cc
is_state_ok under_repair h = cc

is_some-none : (o : Option String) → is_some o ≡ false → o ≡ none
is_some-none none h = refl
is_some-none (some r) h = cc

not_recent :
    (now interval : ℕ) (o : Option ℕ) (t : ℕ)
    → is_recent now interval o ≡ false
    → o ≡ some t
    → interval ≤ now - t
not_recent now interval none t h e = cc
not_recent now interval (some u) t h e =
    let same = some-injective u t e in rw (← same) (ground (arith, h))

module _ (to_lowercase : String → String) (now interval : ℕ) (last : List (String × ℕ))
    (k : String) where
  is_candidate-IsWell :
      (mt : ManagedTorrent)
      → is_candidate to_lowercase now interval last mt ≡ true
      → mt.access_key ≡ k
      → IsWell to_lowercase now interval last k mt
  unfolding is_candidate
  is_candidate-IsWell mt c e = record {
    own_key = e;
    is_ok = is_state_ok mt.state (ground (arith, c));
    not_given_up = is_some-none mt.unrepairable_reason (ground (arith, c));
    not_due = ground (arith, c);
    can_probe = ground (arith, c);
    long_ago =
        λ t h. not_recent now interval (lookup mt.access_key last) t (ground (arith, c)) (rw e h);
  }

  -- The key is that of an entry that is well.
  abbrev pub IsOfWell : List (String × ManagedTorrent) → Type 0
  IsOfWell torrents =
      (i : ℕ) × (key : String) × (mt : ManagedTorrent) × (get_elem? torrents i ≡ some (key, mt))
      × IsWell to_lowercase now interval last k mt

  IsOfWell-later :
      (entry : String × ManagedTorrent) (torrents : List (String × ManagedTorrent))
      → IsOfWell torrents
      → IsOfWell (entry ∷ torrents)
  IsOfWell-later entry torrents (i, key, mt, at, well) = (suc i, key, mt, at, well)

  head_candidates-IsWell :
      (torrents : List (String × ManagedTorrent))
      → contains (head_candidates to_lowercase now interval last torrents) k ≡ true
      → IsOfWell torrents
  unfolding head_candidates contains
  head_candidates-IsWell [] h = cc
  head_candidates-IsWell ((key, mt) ∷ torrents) h =
      let later : contains (head_candidates to_lowercase now interval last torrents) k ≡ true
          → IsOfWell ((key, mt) ∷ torrents) =
        λ there. IsOfWell-later (key, mt) torrents (head_candidates-IsWell torrents there) in
      elim (Bool-cases (is_candidate to_lowercase now interval last mt)) [
        | inl here ↦ elim (Bool-cases (mt.access_key =? k)) [
          | inl same ↦ (
            0,
            key,
            mt,
            refl,
            is_candidate-IsWell mt here ((string_keys.beq_iff mt.access_key k).0 same),
          )
          | inr other ↦ later (rw (here, other) at h)
        ]
        | inr passed ↦ later (rw passed at h)
      ]

-- A key that the passive check of the links adds is the own key of an entry of the registry that
-- is ok, was not given up, is not due for a periodic repair, has a link to probe, and was never
-- checked before or so long ago that the least interval, of a minute at least, is over.
pub append_passive_head_candidates-candidates :
    (rd : Account) (cfg : HeadCheck) (torrents : List (String × ManagedTorrent))
    (last : List (String × ℕ)) (l : Log) (k : String)
    → contains (append_passive_head_candidates rd cfg torrents last l).keys k ≡ true
    → let interval = max cfg.head_check_min_interval_mins 1 * 60 in
      IsOfWell rd.to_lowercase (cfg.clock l) interval last k torrents
unfolding append_passive_head_candidates contains
append_passive_head_candidates-candidates rd cfg torrents last l k there =
    let none_yet : Heads = record { keys = []; last = last; log = l } in
    let interval = max cfg.head_check_min_interval_mins 1 * 60 in
    let candidates = head_candidates rd.to_lowercase (cfg.clock l) interval last torrents in
    elim (Bool-cases cfg.head_check_enabled) [
      | inl on ↦
          head_candidates-IsWell rd.to_lowercase (cfg.clock l) interval last k torrents
            (contains-check_each rd cfg torrents candidates none_yet k (rw on at there))
      | inr off ↦ absurd (ground (arith, off, there))
    ]

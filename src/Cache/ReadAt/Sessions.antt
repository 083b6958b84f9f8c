-- ===== src/Cache/ReadAt/Sessions.antt =====
-- A read leaves the sessions as it found them, but for the one that it has started.
use rd_rs.Prelude.{
  ℕ, zero, suc, ◌+◌, ◌-◌, ◌%◌, ◌^◌, ◌<◌, ◌≡◌, refl, ap, sym, ◌∙◌, ◌⊎◌, inl, inr, Bool, true, not,
  ◌&&◌, Option, none, some, List, [], ◌∷◌, ◌++◌, arith, length, length-append, leb, ◌==◌,
  Bool-cases, if◌then◌else◌,
}
use rd_rs.Cache.ByteRanges.{has_range}
use rd_rs.Cache.Item.{Item}
use rd_rs.Cache.Session.{DownloadSession, set_abort_handle, covers_fuse_offset, join, leave, cancel}
use rd_rs.Cache.ReadAt.{end_of}
use rd_rs.Cache.ReadAt.{
  ReadResult, Round, Held, change_at, spawned, start_session, let_go, kick, after_timeout,
  wait_loop, read_at,
}

-- How many reads wait for each session.
unfoldable pub waiters_of : List DownloadSession → List ℕ
waiters_of [] = []
waiters_of (s ∷ sessions) = s.waiters ∷ waiters_of sessions

unfoldable pub AllCounted : List DownloadSession → Type 0
AllCounted [] = Unit {0}
AllCounted (s ∷ sessions) = (s.waiters < 2 ^ 64) × AllCounted sessions

waiters-leave : (s : DownloadSession) → (leave s).waiters ≡ (s.waiters + (2 ^ 64 - 1)) % 2 ^ 64
unfolding leave cancel
waiters-leave s = elim (Bool-cases (s.waiters == 1)) [
  | inl last ↦ rw last refl
  | inr more ↦ rw more refl
]

waiters-join : (s : DownloadSession) → s.waiters < 2 ^ 64 → (leave (join s)).waiters ≡ s.waiters
unfolding join
waiters-join s small = waiters-leave (join s) ∙ omega (arith, small)

waiters-cancel : (s : DownloadSession) → (leave (cancel s)).waiters ≡ (leave s).waiters
unfolding cancel
waiters-cancel s = waiters-leave (cancel s) ∙ sym (waiters-leave s)

waiters_of-cancel :
    (i : ℕ) (xs : List DownloadSession)
    → waiters_of (change_at leave i (change_at cancel i xs)) ≡ waiters_of (change_at leave i xs)
unfolding waiters_of change_at
waiters_of-cancel i [] = refl
waiters_of-cancel zero (s ∷ xs) = ap (λ w. w ∷ waiters_of xs) (waiters-cancel s)
waiters_of-cancel (suc i) (s ∷ xs) = ap (λ ws. s.waiters ∷ ws) (waiters_of-cancel i xs)

waiters_of-append :
    (xs ys : List DownloadSession) → waiters_of (xs ++ ys) ≡ waiters_of xs ++ waiters_of ys
unfolding waiters_of
waiters_of-append [] ys = refl
waiters_of-append (s ∷ xs) ys = ap (λ ws. s.waiters ∷ ws) (waiters_of-append xs ys)

module _ (f : DownloadSession → DownloadSession) where
  length-change_at : (i : ℕ) (xs : List DownloadSession) → length (change_at f i xs) ≡ length xs
  unfolding change_at
  length-change_at i [] = refl
  length-change_at zero (s ∷ xs) = refl
  length-change_at (suc i) (s ∷ xs) = ap suc (length-change_at i xs)

  change_at-append :
      (i : ℕ) (xs ys : List DownloadSession)
      → i < length xs
      → change_at f i (xs ++ ys) ≡ change_at f i xs ++ ys
  unfolding change_at
  change_at-append i [] ys h = absurd (omega arith)
  change_at-append zero (s ∷ xs) ys h = refl
  change_at-append (suc i) (s ∷ xs) ys h =
      ap (λ zs. s ∷ zs) (change_at-append i xs ys (omega (arith, h)))

  change_at-last :
      (xs : List DownloadSession) (s : DownloadSession)
      → change_at f (length xs) (xs ++ (s ∷ [])) ≡ xs ++ (f s ∷ [])
  unfolding change_at
  change_at-last [] s = refl
  change_at-last (x ∷ xs) s = ap (λ zs. x ∷ zs) (change_at-last xs s)

-- Without the read's guard the counts are those of before; and with a worker of its own there is
-- one more session, for which nobody waits.
abbrev pub AreRestored : List ℕ → List ℕ → Bool → Type 0
AreRestored ws after is_own = (after ≡ ws) ⊎ ((after ≡ ws ++ (0 ∷ [])) × (is_own ≡ true))

record IsHolding (ws : List ℕ) (h : Held) : Type 0 where
  within : h.place < length h.sessions
  restored : AreRestored ws (waiters_of (let_go h)) h.is_own

AreRestored-more :
    (w : ℕ) (ws after : List ℕ) (is_own : Bool)
    → AreRestored ws after is_own
    → AreRestored (w ∷ ws) (w ∷ after) is_own
AreRestored-more w ws after is_own (inl same) = inl (ap (λ vs. w ∷ vs) same)
AreRestored-more w ws after is_own (inr (more, own)) = inr (ap (λ vs. w ∷ vs) more, own)

-- A read that may kick has not started a session.
same_counts :
    (ws after : List ℕ) (is_own woken : Bool)
    → AreRestored ws after is_own
    → (not is_own && not woken) ≡ true
    → after ≡ ws
same_counts ws after is_own woken (inl same) k = same
same_counts ws after is_own woken (inr (more, own)) k = absurd (ground (arith, own, k))

module _ (offset fetch_until : ℕ) where
  start_session-IsHolding :
      (task : ℕ) (workers : List DownloadSession)
      → AllCounted workers
      → IsHolding (waiters_of workers) (start_session task offset fetch_until workers)
  unfolding start_session waiters_of change_at AllCounted set_abort_handle
  start_session-IsHolding task [] c = record {
    within = omega arith;
    restored = inr (ap (λ w. w ∷ []) (waiters-join _ (omega arith)), refl);
  }
  start_session-IsHolding task (s ∷ workers) c = elim (Bool-cases (covers_fuse_offset s offset)) [
    | inl covered ↦ rw covered (record {
      within = omega arith;
      restored = inl (ap (λ w. w ∷ waiters_of workers) (waiters-join s c.0));
    })
    | inr other ↦
        let rest = start_session-IsHolding task workers c.1 in
        rw other (record {
          within = omega (arith, rest.within);
          restored = AreRestored-more s.waiters _ _ _ rest.restored;
        })
  ]

  waiters_of-kick :
      (task : ℕ) (h : Held)
      → h.place < length h.sessions
      → waiters_of (let_go (kick task offset fetch_until h)) ≡ waiters_of (let_go h) ++ (0 ∷ [])
  unfolding kick waiters_of set_abort_handle
  waiters_of-kick task h within =
      let stalled = change_at cancel h.place h.sessions in
      let size : length (change_at leave h.place stalled) ≡ length h.sessions =
        length-change_at leave h.place stalled ∙ length-change_at cancel h.place h.sessions in
      let inside : h.place < length stalled =
        rw (length-change_at cancel h.place h.sessions) within in
      rw
        (
          change_at-append leave h.place stalled _ inside,
          ← size,
          change_at-last leave (change_at leave h.place stalled),
          waiters_of-append (change_at leave h.place stalled),
          waiters_of-cancel h.place h.sessions,
        )
        (ap (λ w. waiters_of (let_go h) ++ (w ∷ []))
          (waiters-join (spawned task offset fetch_until) (omega arith)))

  kick-within :
      (task : ℕ) (h : Held)
      → (kick task offset fetch_until h).place < length (kick task offset fetch_until h).sessions
  unfolding kick
  kick-within task h =
      let stalled = change_at cancel h.place h.sessions in
      rw (length-change_at leave h.place (stalled ++ _), length-append stalled _)
        (omega (arith, length-change_at cancel h.place h.sessions))

  after_timeout-IsHolding :
      (ws : List ℕ) (r : Round) (h : Held)
      → IsHolding ws h
      → IsHolding ws (after_timeout offset fetch_until r h)
  unfolding after_timeout
  after_timeout-IsHolding ws r h holds = elim (Bool-cases (not h.is_own && not r.woken)) [
    | inr stays ↦ rw stays holds
    | inl kicks ↦ rw kicks (record {
      within = kick-within r.task h;
      restored = inr (
        waiters_of-kick r.task h holds.within
            ∙ ap (λ vs. vs ++ (0 ∷ [])) (same_counts ws _ h.is_own r.woken holds.restored kicks),
        refl,
      );
    })
  ]

-- The counts after the read are those of before, but for one more session that nobody waits for.
abbrev pub AsBefore : List DownloadSession → List DownloadSession → Type 0
AsBefore workers after =
    (waiters_of after ≡ waiters_of workers) ⊎ (waiters_of after ≡ waiters_of workers ++ (0 ∷ []))

abbrev pub HasRestored : List DownloadSession → Option (ReadResult × List DownloadSession) → Type 0
HasRestored workers none = Unit {0}
HasRestored workers (some (a, after)) = AsBefore workers after

let_go-AsBefore :
    (workers : List DownloadSession) (h : Held)
    → IsHolding (waiters_of workers) h
    → AsBefore workers (let_go h)
let_go-AsBefore workers h holds = grind (arith, holds.restored)

HasRestored-wait_loop :
    (readable : Bool) (offset end fetch_until : ℕ) (workers : List DownloadSession) (h : Held)
    (rounds : List Round)
    → IsHolding (waiters_of workers) h
    → HasRestored workers (wait_loop readable offset end fetch_until h rounds)
unfolding wait_loop
HasRestored-wait_loop readable offset end fetch_until workers h [] holds = tt
HasRestored-wait_loop readable offset end fetch_until workers h (r ∷ rounds) holds =
    let h1 = after_timeout offset fetch_until r h in
    let holds1 = after_timeout-IsHolding offset fetch_until (waiters_of workers) r h holds in
    elim (Bool-cases r.is_cancelled) [
      | inl gone ↦ rw gone (let_go-AsBefore workers h holds)
      | inr still ↦ elim (Bool-cases (has_range r.before.ranges offset end)) [
        | inl seen ↦ rw (still, seen) (let_go-AsBefore workers h holds)
        | inr missing ↦ elim (Bool-cases (has_range r.after.ranges offset end)) [
          | inl seen ↦ rw (still, missing, seen) (let_go-AsBefore workers h1 holds1)
          | inr waits ↦
              elim (Bool-cases (if h1.is_own then r.is_finished else not r.still_registered)) [
                | inl over ↦ rw (still, missing, waits, over) (let_go-AsBefore workers h1 holds1)
                | inr goes_on ↦
                    rw (still, missing, waits, goes_on)
                      (HasRestored-wait_loop readable offset end fetch_until workers h1 rounds
                        holds1)
              ]
        ]
      ]
    ]

-- A read that answers, in whatever way, has given up its hold on the sessions, also on one that the
-- kicker left: each session that was at work has as many waiters as before, and the read has started
-- one more session at most, which nobody waits for. No other read comes or goes in between, and
-- fewer than 2^64 reads wait for a session.
pub read_at-HasRestored :
    (readable : Bool) (task offset size read_ahead : ℕ) (i : Item) (workers : List DownloadSession)
    (rounds : List Round)
    → AllCounted workers
    → HasRestored workers (read_at readable task offset size read_ahead i workers rounds)
unfolding read_at
read_at-HasRestored readable task offset size read_ahead i workers rounds counted =
    let end = end_of offset size i.file_size in
    elim (Bool-cases (leb i.file_size offset)) [
      | inl past ↦ rw past (inl refl)
      | inr inside ↦ elim (Bool-cases (has_range i.ranges offset end)) [
        | inl here ↦ rw (inside, here) (inl refl)
        | inr missing ↦
            rw (inside, missing)
              (HasRestored-wait_loop readable offset end _ workers _ rounds
                (start_session-IsHolding offset _ task workers counted))
      ]
    ]

-- ===== src/Cache/ByteRanges/Query.antt =====
-- `ByteRanges::has_range` and `find_missing` answer for the set of covered bytes.
use rd_rs.Prelude.{
  ℕ, ◌≤◌, ◌<◌, ◌≡◌, ◌↔◌, inl, inr, refl, Bool, true, false, ◌&&◌, ◌||◌, Option, none, some, List,
  [], ◌∷◌, arith, ltb, leb, if◌then◌else◌, partition_point, Bool-cases, partition_point_pass,
  or_true, not,
}
use native.Mathlib.Numerals.{sub-one}
use rd_rs.Cache.ByteRanges.{Interval, ByteRanges, reaches, has_range, find_gap, find_missing}
use rd_rs.Cache.ByteRanges.Coverage.{
  in_range, covers_list, covers, Above, IsNormalList, IsNormal, Above-IsNormalList,
  covers_list-below,
}

-- The test of `has_range` as a walk: one interval holds all of `[s, e)`.
some_holds : ℕ → ℕ → List Interval → Bool
some_holds s e [] = false
some_holds s e ((a, b) ∷ rest) = (leb a s && leb e b) || some_holds s e rest

some_holds-Above :
    (n s e : ℕ) (ivs : List Interval) → s ≤ n → Above n ivs → some_holds s e ivs ≡ false
unfolding some_holds
some_holds-Above n s e [] p h = refl
some_holds-Above n s e ((a, b) ∷ rest) p h = ground (arith, some_holds-Above b s e rest)

-- With two intervals that start at or before `s`, the first one plays no part.
reaches_skip :
    (i j : Interval) (s e : ℕ) (rest : List Interval)
    → leb i.0 s ≡ true
    → leb j.0 s ≡ true
    → reaches (i ∷ j ∷ rest) s e ≡ reaches (j ∷ rest) s e
unfolding reaches
reaches_skip i j s e rest p q =
    let P = λ (k : Interval). leb k.0 s in
    rw (partition_point_pass P i (j ∷ rest) p, partition_point_pass P j rest q, sub-one, sub-one)
      (ground arith)

reaches-some_holds :
    (s e : ℕ) (ivs : List Interval)
    → s < e
    → IsNormalList ivs
    → reaches ivs s e ≡ some_holds s e ivs
unfolding reaches some_holds partition_point
reaches-some_holds s e [] q h = refl
reaches-some_holds s e ((a, b) ∷ []) q h = ground arith
reaches-some_holds s e ((a, b) ∷ (c, d) ∷ rest) q h = ground (
  arith,
  reaches_skip (a, b) (c, d) s e rest,
  reaches-some_holds s e ((c, d) ∷ rest) q (Above-IsNormalList b ((c, d) ∷ rest) h.1),
  some_holds-Above b s e ((c, d) ∷ rest),
  some_holds-Above d s e rest,
)

-- Every byte of `[s, e)` is covered.
abbrev pub CoversAll : (ℕ → Bool) → ℕ → ℕ → Type 0
CoversAll f s e = (x : ℕ) → s ≤ x → x < e → f x ≡ true

some_holds_sound :
    (s e x : ℕ) (ivs : List Interval)
    → some_holds s e ivs ≡ true
    → s ≤ x
    → x < e
    → covers_list ivs x ≡ true
unfolding some_holds covers_list
some_holds_sound s e x [] h p q = cc
some_holds_sound s e x ((a, b) ∷ rest) h p q = ground (arith, some_holds_sound s e x rest)

some_holds_complete :
    (s e : ℕ) (ivs : List Interval)
    → s < e
    → IsNormalList ivs
    → CoversAll (covers_list ivs) s e
    → some_holds s e ivs ≡ true
unfolding some_holds covers_list
some_holds_complete s e [] q h all = all s (omega arith) q
some_holds_complete s e ((a, b) ∷ rest) q h all = elim (Bool-cases (leb b s)) [
  | inl past ↦
      let ih =
        some_holds_complete s e rest q (Above-IsNormalList b rest h.1)
          (λ x p r. ground (arith, all x p r)) in
      rw ih (or_true _)
  | inr here ↦ ground (
    arith,
    all s (omega arith) q,
    all b,
    covers_list-below b s rest h.1,
    covers_list-below b b rest h.1,
  )
]

-- On a set that meets the invariant, `has_range` holds exactly if every byte of `[s, e)` is
-- covered.
pub has_range_iff :
    (r : ByteRanges) (s e : ℕ) → IsNormal r → (has_range r s e ≡ true) ↔ CoversAll (covers r) s e
unfolding has_range covers
has_range_iff r s e h = (
  (λ t x p q.
      ground (arith, reaches-some_holds s e r.intervals, some_holds_sound s e x r.intervals)),
  (λ all. elim (Bool-cases (leb e s)) [
    | inl empty ↦ rw empty
    | inr more ↦
        let p : s < e = ground arith in
        rw (more, reaches-some_holds s e r.intervals p h)
          (some_holds_complete s e r.intervals p h all)
  ]),
)

-- What an answer of `find_missing` on `[s, e)` says of a byte `x`, for the covered bytes `f`.
abbrev pub GapSpec : (ℕ → Bool) → ℕ → ℕ → ℕ → Option Interval → Type 0
GapSpec f s e x none = (in_range s e x && not (f x)) ≡ false
GapSpec f s e x (some (a, b)) =
    (s ≤ a)
    × (a < b)
    × (b ≤ e)
    × ((in_range s a x && not (f x)) ≡ false)
    × ((in_range a b x && f x) ≡ false)

-- An interval that starts at or before the cursor moves the cursor to its end.
GapSpec-step :
    (f : ℕ → Bool) (a b s e x : ℕ) (o : Option Interval)
    → a ≤ s
    → GapSpec f (if ltb s b then b else s) e x o
    → GapSpec (λ y. in_range a b y || f y) s e x o
GapSpec-step f a b s e x none p g = ground arith
GapSpec-step f a b s e x (some (c, d)) p g = (ground arith, g.1, g.2, ground arith, ground arith)

find_gap-GapSpec :
    (s e x : ℕ) (ivs : List Interval)
    → s < e
    → IsNormalList ivs
    → GapSpec (covers_list ivs) s e x (find_gap s e ivs)
unfolding find_gap covers_list
find_gap-GapSpec s e x [] q h = ground arith
find_gap-GapSpec s e x ((a, b) ∷ rest) q h = elim (Bool-cases (ltb s a)) [
  | inl gap ↦ rw gap (ground (arith, covers_list-below b x rest h.1))
  | inr no_gap ↦ rw no_gap (elim (Bool-cases (leb e (if ltb s b then b else s))) [
    | inl stop ↦ rw stop (ground arith)
    | inr go ↦ rw go (
        GapSpec-step (covers_list rest) a b s e x _ (ground arith) (
          find_gap-GapSpec (if ltb s b then b else s) e x rest (ground arith)
            (Above-IsNormalList b rest h.1)))
  ])
]

-- On a set that meets the invariant: if `find_missing` on `[s, e)` answers none, no byte of
-- `[s, e)` is missing; if it answers `[a, b)`, that is a non-empty part of `[s, e)` of which no
-- byte is covered, and no byte of `[s, a)` is missing.
pub find_missing-GapSpec :
    (r : ByteRanges) (s e x : ℕ) → IsNormal r → GapSpec (covers r) s e x (find_missing r s e)
unfolding find_missing covers
find_missing-GapSpec r s e x h = elim (Bool-cases (leb e s)) [
  | inl empty ↦ rw empty (ground arith)
  | inr more ↦ elim (Bool-cases (has_range r s e)) [
    | inl full ↦ rw (more, full) (ground (arith, (has_range_iff r s e h).0 full x))
    | inr gaps ↦ rw (more, gaps) (find_gap-GapSpec s e x r.intervals (ground arith) h)
  ]
]

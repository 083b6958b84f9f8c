-- ===== src/Repair/Preflight/Orphans.antt =====
-- The assignment of orphan links leaves the links alone that work.
use mathlib.Core.Option.{some-injective}
use rd_rs.Prelude.{
  ℕ, zero, suc, ◌+◌, ◌≡◌, refl, sym, ap, ◌∙◌, inl, inr, ◌≢◌, Bool, true, false, not, ◌&&◌, Option,
  some, List, [], ◌∷◌, String, arith, Bool-cases, ◌==◌, get_elem?, set,
}
use rd_rs.Prelude.Map.{◌=?◌, lookup, insert, lookup-insert, string_keys}
use rd_rs.Prelude.Texts.{ends_with}
use rd_rs.Rd.Client.Errors.{RdError, is_bandwidth_limited}
use rd_rs.Torrent.Types.{File, Download, FileStates}
use rd_rs.Repair.Account.{Account, Answer, answered, failed, Log, unrestricted}
use rd_rs.Repair.Detect.{verified_link}
use rd_rs.Repair.Preflight.{
  Slots, is_broken, is_slot_empty, all_ok, selected_rar_count, apply_lone_selected_rar_ok_policy,
  ensure_link_slot, assigned, download_matches_file, assign_from, verified_orphan, assign_orphan,
  go_on, assign_all, nonempty_of, orphan_rd_links, assign_orphan_links,
}

get_elem?-ensure_link_slot :
    (links : List String) (i j : ℕ) (x : String)
    → get_elem? links i ≡ some x
    → get_elem? (ensure_link_slot links j) i ≡ some x
unfolding ensure_link_slot
get_elem?-ensure_link_slot [] i j x h = cc
get_elem?-ensure_link_slot (l ∷ links) i zero x h = h
get_elem?-ensure_link_slot (l ∷ links) zero (suc j) x h = h
get_elem?-ensure_link_slot (l ∷ links) (suc i) (suc j) x h =
    get_elem?-ensure_link_slot links i j x h

get_elem?-set_other :
    (links : List String) (i j : ℕ) (v : String)
    → i ≢ j
    → get_elem? (set links j v) i ≡ get_elem? links i
get_elem?-set_other [] i j v h = refl
get_elem?-set_other (l ∷ links) zero zero v h = absurd (h refl)
get_elem?-set_other (l ∷ links) zero (suc j) v h = refl
get_elem?-set_other (l ∷ links) (suc i) zero v h = refl
get_elem?-set_other (l ∷ links) (suc i) (suc j) v h =
    get_elem?-set_other links i j v (λ e. h (ap suc e))

-- A file that is not broken is not broken after another, or itself, was marked as fine.
pub is_broken-insert_ok :
    (p q : String) (states : FileStates)
    → is_broken (lookup p states) ≡ false
    → is_broken (lookup p (insert q "ok" states)) ≡ false
is_broken-insert_ok p q states h = elim (Bool-cases (q =? p)) [
  | inl same ↦ rw (lookup-insert q p "ok" states, same) refl
  | inr differs ↦ rw (lookup-insert q p "ok" states, differs) h
]

is_broken-all_ok :
    (p : String) (fs : List File) (states : FileStates)
    → is_broken (lookup p states) ≡ false
    → is_broken (lookup p (all_ok fs states)) ≡ false
unfolding all_ok
is_broken-all_ok p [] states h = h
is_broken-all_ok p (f ∷ fs) states h =
    is_broken-all_ok p fs (insert f.path "ok" states) (is_broken-insert_ok p f.path states h)

is_broken-policy :
    (lower : String → String) (p : String) (selected : List File) (states : FileStates)
    (path : String)
    → is_broken (lookup p states) ≡ false
    → is_broken (lookup p (apply_lone_selected_rar_ok_policy lower selected states path)) ≡ false
unfolding apply_lone_selected_rar_ok_policy
is_broken-policy lower p selected states path h =
    elim (Bool-cases (selected_rar_count lower selected == 1)) [
      | inl lone ↦ elim (Bool-cases (ends_with (lower path) ".rar")) [
        | inl rar ↦ rw (lone, rar) (is_broken-all_ok p selected states h)
        | inr other ↦ rw (lone, other) h
      ]
      | inr many ↦ rw many h
    ]

-- Slot `i` holds the link `x`, and the file of path `p`, that it is for, is not broken.
pub Holds : ℕ → String → String → Slots → Type 0
Holds i p x s = (get_elem? s.links i ≡ some x) × (is_broken (lookup p s.states) ≡ false)

-- The file at place `i`, counted from `sel_i` on, has the path `p`.
pub IsAt : ℕ → String → List File → ℕ → Type 0
IsAt i p fs sel_i = (k : ℕ) (g : File) → get_elem? fs k ≡ some g → sel_i + k ≡ i → g.path ≡ p

IsAt-tail :
    (i : ℕ) (p : String) (f : File) (fs : List File) (sel_i : ℕ)
    → IsAt i p (f ∷ fs) sel_i
    → IsAt i p fs (sel_i + 1)
unfolding IsAt
IsAt-tail i p f fs sel_i at k g e sum = at (suc k) g e (omega (arith, sum))

IsAt-start : (i : ℕ) (f : File) (fs : List File) → get_elem? fs i ≡ some f → IsAt i f.path fs 0
unfolding IsAt
IsAt-start i f fs e k g found sum =
    let here = rw (let z : k ≡ i = omega (arith, sum) in z) at found in
    ap (λ (h : File). h.path) (some-injective g f (sym here ∙ e))

module _ (lower : String → String) (i : ℕ) (p x : String) (full : (x =? "") ≡ false) where
  Holds-assigned :
      (selected : List File) (link : String) (f : File) (sel_i : ℕ) (s : Slots)
      → i ≢ sel_i
      → Holds i p x s
      → Holds i p x (assigned lower selected link f sel_i s)
  unfolding Holds assigned
  Holds-assigned selected link f sel_i s other h = (
    get_elem?-set_other (ensure_link_slot s.links sel_i) i sel_i link other
        ∙ get_elem?-ensure_link_slot s.links i sel_i x h.0,
    is_broken-policy lower p selected (insert f.path "ok" s.states) f.path
        (is_broken-insert_ok p f.path s.states h.1),
  )

  -- The slot itself wants no link.
  is_passed :
      (f : File) (fs : List File) (sel_i : ℕ) (s : Slots)
      → IsAt i p (f ∷ fs) sel_i
      → Holds i p x s
      → i ≡ sel_i
      → (not (is_broken (lookup f.path s.states)) && not (is_slot_empty (get_elem? s.links sel_i)))
        ≡ true
  unfolding Holds IsAt
  is_passed f fs sel_i s at h e =
      let named = at 0 f refl (omega (arith, e)) in rw (named, ← e, h.0, h.1, full) refl

  Holds-assign_from :
      (selected : List File) (link : String) (dl : Download) (fs : List File) (sel_i : ℕ)
      (s : Slots)
      → IsAt i p fs sel_i
      → Holds i p x s
      → Holds i p x (assign_from lower selected link dl fs sel_i s)
  unfolding assign_from
  Holds-assign_from selected link dl [] sel_i s at h = h
  Holds-assign_from selected link dl (f ∷ fs) sel_i s at h =
      let rest =
        Holds-assign_from selected link dl fs (sel_i + 1) s (IsAt-tail i p f fs sel_i at) h in
      elim (Bool-cases (
        not (is_broken (lookup f.path s.states))
        && not (is_slot_empty (get_elem? s.links sel_i)))) [
          | inl passed ↦ rw passed rest
          | inr wants ↦ elim (Bool-cases (download_matches_file lower f dl)) [
            | inl matches ↦
                rw (wants, matches)
                  (Holds-assigned selected link f sel_i s
                    (λ e. absurd (cc (is_passed f fs sel_i s at h e, wants))) h)
            | inr differs ↦ rw (wants, differs) rest
          ]
        ]

module _ (rd : Account) (selected : List File) (i : ℕ) (p x : String) (full : (x =? "") ≡ false)
    (at : IsAt i p selected 0) where
  abbrev HoldsAnswer : Answer Slots → Type 0
  HoldsAnswer (failed e) = Unit {0}
  HoldsAnswer (answered s) = Holds i p x s

  HoldsAnswer-verified :
      (link : String) (dl : Download) (v : Answer Bool) (s : Slots)
      → Holds i p x s
      → HoldsAnswer (verified_orphan rd selected link dl v s)
  unfolding verified_orphan
  HoldsAnswer-verified link dl (failed e) s h = tt
  HoldsAnswer-verified link dl (answered false) s h = h
  HoldsAnswer-verified link dl (answered true) s h =
      Holds-assign_from rd.to_lowercase i p x full selected link dl selected 0 s at h

  HoldsAnswer-orphan :
      (link : String) (d : Answer Download) (s : Slots) (l : Log)
      → Holds i p x s
      → HoldsAnswer (assign_orphan rd selected link d s l).0
  unfolding assign_orphan
  HoldsAnswer-orphan link (failed e) s l h = elim (Bool-cases (is_bandwidth_limited e)) [
    | inl limited ↦ rw limited tt
    | inr other ↦ rw other h
  ]
  HoldsAnswer-orphan link (answered dl) s l h =
      HoldsAnswer-verified link dl (verified_link rd dl.download l).0 s h

  Holds-go_on :
      (a : Answer Slots) (s : Slots) (rest : Slots → Option RdError × Slots × Log) (l : Log)
      → Holds i p x s
      → HoldsAnswer a
      → ((s1 : Slots) → Holds i p x s1 → Holds i p x (rest s1).1)
      → Holds i p x (go_on s rest a l).1
  Holds-go_on (failed e) s rest l h k r = h
  Holds-go_on (answered s1) s rest l h k r = r s1 k

  Holds-assign_all :
      (links : List String) (s : Slots) (l : Log)
      → Holds i p x s
      → Holds i p x (assign_all rd selected links s l).1
  unfolding assign_all
  Holds-assign_all [] s l h = h
  Holds-assign_all (link ∷ links) s l h =
      let d = rd.unrestrict_link l link in
      let a = assign_orphan rd selected link d s (unrestricted link d ∷ l) in
      Holds-go_on a.0 s (λ s1. assign_all rd selected links s1 a.1) a.1 h
        (HoldsAnswer-orphan link d s (unrestricted link d ∷ l) h)
        (λ s1 h1. Holds-assign_all links s1 a.1 h1)

-- The assignment of orphan links never takes a place that is in use: where the selected file at
-- place `i` has a link that is not empty and is not marked as broken, it keeps that link, and is
-- not marked as broken, whatever links the account has to give and wherever the assignment stops.
pub assign_orphan_links-keeps :
    (rd : Account) (selected : List File) (s : Slots) (l : Log) (i : ℕ) (f : File) (x : String)
    → get_elem? selected i ≡ some f
    → get_elem? s.links i ≡ some x
    → (x =? "") ≡ false
    → is_broken (lookup f.path s.states) ≡ false
    → let r = assign_orphan_links rd selected s l in
      (get_elem? r.1.links i ≡ some x) × (is_broken (lookup f.path r.1.states) ≡ false)
unfolding assign_orphan_links Holds
assign_orphan_links-keeps rd selected s l i f x found link full fine =
    Holds-assign_all rd selected i f.path x full (IsAt-start i f selected found)
      (nonempty_of (orphan_rd_links s.links selected)) s l (link, fine)

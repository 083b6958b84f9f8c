-- ===== src/Torrent/Diff/Keys.antt =====
-- Which keys a diff adds, removes and may change.
use rd_rs.Prelude.{
  ◌≡◌, refl, sym, ap, ◌∙◌, inl, inr, Bool, true, false, not, ◌||◌, ◌&&◌, Option, none, some, List,
  [], ◌∷◌, String, arith, ltb, Bool-cases, Option-cases, or_false,
}
use mathlib.Core.Option.{some-injective}
use rd_rs.Prelude.Map.{◌=?◌, contains, lookup, insert, string_keys}
use rd_rs.Torrent.Types.{Torrent, ManagedTorrent}
use rd_rs.Torrent.Diff.{
  Merged, access_key, merge_one, add_fresh, fresh_map, has, added_of, removed_of, changed_of, diff,
}

-- Some torrent of the list has the key.
pub any_key : String → List Torrent → Bool
any_key key [] = false
any_key key (t ∷ fresh) = (access_key t =? key) || any_key key fresh

unfoldable pub any_merged : String → List Merged → Bool
any_merged key [] = false
any_merged key ((t, ids) ∷ ms) = (access_key t =? key) || any_merged key ms

-- Each merged torrent stands under its own key.
Keyed : List (String × Merged) → Type 0
Keyed [] = Unit {0}
Keyed ((k, (t, ids)) ∷ m) = (access_key t ≡ k) × Keyed m

Keyed-lookup :
    (key : String) (m : List (String × Merged)) (v : Merged)
    → Keyed m
    → lookup key m ≡ some v
    → access_key v.0 ≡ key
unfolding Keyed lookup
Keyed-lookup key [] v w h = absurd (ground arith)
Keyed-lookup key ((k, (t, ids)) ∷ m) v w h = elim (Bool-cases (k =? key)) [
  | inl same ↦
      let is_v : (t, ids) ≡ v = some-injective _ v (ground (arith, same, h)) in
      ap (λ (u : Merged). access_key u.0) (sym is_v) ∙ w.0 ∙ ((string_keys).beq_iff k key).0 same
  | inr differs ↦ Keyed-lookup key m v w.1 (ground (arith, differs, h))
]

Keyed-insert :
    (key : String) (v : Merged) (m : List (String × Merged))
    → access_key v.0 ≡ key
    → Keyed m
    → Keyed (insert key v m)
unfolding Keyed insert
Keyed-insert key v [] h w = (h, tt)
Keyed-insert key v ((k, (t, ids)) ∷ m) h w = elim (Bool-cases (k =? key)) [
  | inl same ↦ rw same (h ∙ sym (((string_keys).beq_iff k key).0 same), w.1)
  | inr differs ↦ rw differs (w.0, Keyed-insert key v m h w.1)
]

access_key-merge_one :
    (t : Torrent) (o : Option Merged)
    → ((v : Merged) → o ≡ some v → access_key v.0 ≡ access_key t)
    → access_key (merge_one t o).0 ≡ access_key t
access_key-merge_one t none h = refl
access_key-merge_one t (some (e, ids)) h = elim (Bool-cases (ltb e.progress t.progress)) [
  | inl more ↦ rw more refl
  | inr less ↦ rw less (h (e, ids) refl)
]

Keyed-add_fresh : (t : Torrent) (m : List (String × Merged)) → Keyed m → Keyed (add_fresh t m)
unfolding add_fresh
Keyed-add_fresh t m w =
    Keyed-insert (access_key t) (merge_one t (lookup (access_key t) m)) m
      (access_key-merge_one t (lookup (access_key t) m)
        (λ v e. Keyed-lookup (access_key t) m v w e))
      w

Keyed-fresh_map :
    (m : List (String × Merged)) (fresh : List Torrent) → Keyed m → Keyed (fresh_map m fresh)
unfolding fresh_map
Keyed-fresh_map m [] w = w
Keyed-fresh_map m (t ∷ fresh) w = Keyed-fresh_map (add_fresh t m) fresh (Keyed-add_fresh t m w)

has-insert :
    (key k : String) (v : Merged) (m : List (String × Merged))
    → has key (insert k v m) ≡ ((k =? key) || has key m)
unfolding insert
has-insert key k v [] = ground arith
has-insert key k v ((j, u) ∷ m) = ground (
  arith,
  has-insert key k v m,
  (string_keys).beq_iff j k,
  (string_keys).beq_iff j key,
  (string_keys).beq_iff k key,
)

has-fresh_map :
    (key : String) (m : List (String × Merged)) (fresh : List Torrent)
    → has key (fresh_map m fresh) ≡ (has key m || any_key key fresh)
unfolding fresh_map add_fresh any_key
has-fresh_map key m [] = sym (or_false (has key m))
has-fresh_map key m (t ∷ fresh) =
    has-fresh_map key (add_fresh t m) fresh
    ∙ ground (arith, has-insert key (access_key t) (merge_one t (lookup (access_key t) m)) m)

any_merged-added_of :
    (key : String) (current : List (String × ManagedTorrent)) (m : List (String × Merged))
    → Keyed m
    → any_merged key (added_of current m) ≡ (has key m && not (has key current))
unfolding added_of any_merged Keyed
any_merged-added_of key current [] w = refl
any_merged-added_of key current ((k, (t, ids)) ∷ m) w =
    let rest = any_merged-added_of key current m w.1 in
    let own = ap (λ j. j =? key) w.0 in
    elim (Bool-cases (k =? key)) [
      | inl same ↦
          let at_key = ap (λ j. has j current) (((string_keys).beq_iff k key).0 same) in
          ground (arith, rest, own, same, at_key)
      | inr differs ↦ ground (arith, rest, own, differs)
    ]

contains-removed_of :
    (key : String) (current : List (String × ManagedTorrent)) (m : List (String × Merged))
    → contains (removed_of current m) key ≡ (has key current && not (has key m))
unfolding removed_of contains
contains-removed_of key [] m = refl
contains-removed_of key ((k, c) ∷ current) m =
    let rest = contains-removed_of key current m in
    elim (Bool-cases (k =? key)) [
      | inl same ↦
          let at_key = ap (λ j. has j m) (((string_keys).beq_iff k key).0 same) in
          ground (arith, rest, same, at_key)
      | inr differs ↦ ground (arith, rest, differs)
    ]

has-lookup :
    (key : String) (current : List (String × ManagedTorrent)) (c : ManagedTorrent)
    → lookup key current ≡ some c
    → has key current ≡ true
unfolding lookup
has-lookup key [] c h = ground arith
has-lookup key ((k, d) ∷ current) c h = ground (arith, h, has-lookup key current c)

any_merged-changed_of :
    (key : String) (current : List (String × ManagedTorrent)) (m : List (String × Merged))
    → Keyed m
    → (any_merged key (changed_of current m) && not (has key m && has key current)) ≡ false
unfolding changed_of any_merged Keyed
any_merged-changed_of key current [] w = refl
any_merged-changed_of key current ((k, (t, ids)) ∷ m) w =
    let rest = any_merged-changed_of key current m w.1 in
    elim (Option-cases (lookup k current)) [
      | inl new ↦ rw new (ground (arith, rest))
      | inr (c, old) ↦
          let there = has-lookup k current c old in
          let own = ap (λ j. j =? key) w.0 in
          elim (Bool-cases (k =? key)) [
            | inl same ↦
                let at_key = ap (λ j. has j current) (((string_keys).beq_iff k key).0 same) in
                rw old (ground (arith, rest, there, own, same, at_key))
            | inr differs ↦ rw old (ground (arith, rest, own, differs))
          ]
    ]

-- For every key: a refresh adds it just when a fresh torrent has it and the registry does not,
-- removes it just when the registry has it and no fresh torrent does, and takes it for changed
-- only when both have it.
pub diff-any_key :
    (current : List (String × ManagedTorrent)) (fresh : List Torrent) (key : String)
    → let d = diff current fresh in
      (any_merged key d.added ≡ (any_key key fresh && not (has key current)))
      × (contains d.removed_keys key ≡ (has key current && not (any_key key fresh)))
      × ((any_merged key d.changed && not (any_key key fresh && has key current)) ≡ false)
unfolding diff Keyed
diff-any_key current fresh key =
    let m = fresh_map [] fresh in
    let keyed : Keyed m = Keyed-fresh_map [] fresh tt in
    let in_fresh : has key m ≡ any_key key fresh = has-fresh_map key [] fresh in
    (
      any_merged-added_of key current m keyed ∙ ap (λ b. b && not (has key current)) in_fresh,
      contains-removed_of key current m ∙ ap (λ b. has key current && not b) in_fresh,
      rw⁻¹ in_fresh (any_merged-changed_of key current m keyed),
    )

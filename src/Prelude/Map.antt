-- ===== src/Prelude/Map.antt =====
-- Keys with a decidable equality, and maps as association lists, the newest binding of a key alone
-- being read. They stand for `HashMap`, `DashMap` and the tables of a database.
use Prim.Native.Nat.{ℕ}
use Prim.Native.String.{String}
use mathlib.Core.Path.{◌≡◌, refl, sym, ap, ◌∙◌}
use mathlib.Core.Logic.{◌↔◌, ◌≢◌, inl, inr}
use mathlib.Core.Bool.{Bool, true, false, ◌||◌}
use mathlib.Core.Option.{Option, none, some}
use mathlib.Core.List.{List, [], ◌∷◌, ◌++◌}
use native.Mathlib.Omega.{arith}
use text.Mathlib.Text.{◌==◌ as str_eq}
use text.Mathlib.TextEquality.{eq_iff}
use rd_rs.Prelude.Tests.{◌==◌ as nat_eq, ==_iff, if◌then◌else◌, Bool-cases, or_false}

pub record Eq {ℓ} (A : Type ℓ) : Type ℓ where
  pub beq : A → A → Bool
  pub beq_iff : (a b : A) → (beq a b ≡ true) ↔ (a ≡ b)

instance abbrev pub nat_keys : Eq ℕ
nat_keys = record { beq = nat_eq; beq_iff = ==_iff }

instance abbrev pub string_keys : Eq String
string_keys = record { beq = str_eq; beq_iff = eq_iff }

infix 50 ◌=?◌
abbrev pub ◌=?◌ {ℓ} : {A : Type ℓ} ⦃e : Eq A⦄ → A → A → Bool
◌=?◌ ⦃e⦄ = e.beq

pub =?_refl {ℓ} : {A : Type ℓ} ⦃e : Eq A⦄ (a : A) → (a =? a) ≡ true
=?_refl ⦃e⦄ a = (e.beq_iff a a).1 refl

pub =?_ne {ℓ} : {A : Type ℓ} ⦃e : Eq A⦄ (a b : A) → a ≢ b → (a =? b) ≡ false
=?_ne ⦃e⦄ a b h = ground (arith, e.beq_iff a b)

module _ {ℓ} {A : Type ℓ} ⦃e : Eq A⦄ where
  unfoldable pub contains : List A → A → Bool
  contains [] a = false
  contains (x ∷ xs) a = if x =? a then true else contains xs a

module _ {ℓ} {A : Type ℓ} ⦃e : Eq A⦄ where
  pub contains-append :
      (xs ys : List A) (a : A) → contains (xs ++ ys) a ≡ (contains xs a || contains ys a)
  unfolding contains
  contains-append [] ys a = refl
  contains-append (x ∷ xs) ys a = ground (arith, contains-append xs ys a)

  -- What is in a list once an entry that is not in it is put at its end.
  pub contains-push :
      (xs : List A) (a b : A)
      → contains (if contains xs a then xs else xs ++ (a ∷ [])) b ≡ (contains xs b || (a =? b))
  unfolding contains
  contains-push xs a b = elim (Bool-cases (contains xs a)) [
    | inl there ↦ elim (Bool-cases (a =? b)) [
      | inl same ↦
          let at_b = ap (contains xs) ((e.beq_iff a b).0 same) in
          rw there (ground (arith, at_b, there))
      | inr differs ↦ rw (there, differs) (sym (or_false (contains xs b)))
    ]
    | inr missing ↦ elim (Bool-cases (a =? b)) [
      | inl same ↦ rw (missing, same) (contains-append xs (a ∷ []) b ∙ rw same refl)
      | inr differs ↦ rw (missing, differs) (contains-append xs (a ∷ []) b ∙ rw differs refl)
    ]
  ]

module _ {ℓ κ} {K : Type ℓ} ⦃e : Eq K⦄ {V : Type κ} where
  unfoldable pub lookup : K → List (K × V) → Option V
  lookup k [] = none
  lookup k ((j, v) ∷ m) = if j =? k then some v else lookup k m

  -- The place of a key that is there already is kept.
  unfoldable pub insert : K → V → List (K × V) → List (K × V)
  insert k v [] = (k, v) ∷ []
  insert k v ((j, w) ∷ m) = if j =? k then (j, v) ∷ m else (j, w) ∷ insert k v m

  unfoldable pub remove : K → List (K × V) → List (K × V)
  remove k [] = []
  remove k ((j, v) ∷ m) = if j =? k then remove k m else (j, v) ∷ remove k m

  pub lookup-insert :
      (k i : K) (v : V) (m : List (K × V))
      → lookup i (insert k v m) ≡ (if k =? i then some v else lookup i m)
  unfolding lookup insert
  lookup-insert k i v [] = refl
  lookup-insert k i v ((j, w) ∷ m) =
      ground (arith, e.beq_iff k i, e.beq_iff j k, e.beq_iff j i, lookup-insert k i v m)

  pub lookup-insert_self : (k : K) (v : V) (m : List (K × V)) → lookup k (insert k v m) ≡ some v
  lookup-insert_self k v m = rw (lookup-insert k k v m, =?_refl k)

  pub lookup-remove :
      (k i : K) (m : List (K × V)) → lookup i (remove k m) ≡ (if k =? i then none else lookup i m)
  unfolding lookup remove
  lookup-remove k i [] = ground arith
  lookup-remove k i ((j, v) ∷ m) =
      ground (arith, e.beq_iff k i, e.beq_iff j k, e.beq_iff j i, lookup-remove k i m)

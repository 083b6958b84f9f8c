-- ===== src/Config/Tokens.antt =====
-- The download tokens as a token pool takes them.
use rd_rs.Prelude.{
  ℕ, zero, suc, ◌≡◌, ◌≢◌, ◌⊎◌, inl, inr, refl, sym, ap, ◌∙◌, false, some, List, [], ◌∷◌, ◌++◌,
  String, arith, length, get_elem?, Bool-cases,
}
use mathlib.Core.Option.{some-injective}
use rd_rs.Prelude.Map.{contains, string_keys}
use rd_rs.Config.{Config, push_missing, all_download_tokens}
use rd_rs.Rd.TokenPool.Rotation.{Distinct}

absent : (ts : List String) (t : String) → contains ts t ≡ false → (i : ℕ) → get_elem? ts i ≢ some t
unfolding contains
absent [] t h i = ground arith
absent (x ∷ ts) t h zero =
    λ e. let same : x ≡ t = some-injective x t e in ground (arith, (string_keys).beq_iff x t)
absent (x ∷ ts) t h (suc i) = absent ts t (ground arith) i

-- An entry of a list with `x` at its end is an entry of the list, or `x` at its end.
entry_of_push :
    (ts : List String) (x t : String) (i : ℕ)
    → get_elem? (ts ++ (x ∷ [])) i ≡ some t
    → (get_elem? ts i ≡ some t) ⊎ ((i ≡ length ts) × (x ≡ t))
entry_of_push [] x t zero h = inr (refl, some-injective x t h)
entry_of_push [] x t (suc i) h = absurd (ground arith)
entry_of_push (y ∷ ts) x t zero h = inl h
entry_of_push (y ∷ ts) x t (suc i) h = elim (entry_of_push ts x t i h) [
  | inl e ↦ inl e
  | inr (e, s) ↦ inr (ap suc e, s)
]

Distinct-push :
    (ts : List String) (x : String)
    → Distinct ts
    → contains ts x ≡ false
    → Distinct (ts ++ (x ∷ []))
unfolding Distinct
Distinct-push ts x distinct fresh t i j hi hj = elim (entry_of_push ts x t i hi) [
  | inl a ↦ elim (entry_of_push ts x t j hj) [
    | inl b ↦ distinct t i j a b
    | inr (e, s) ↦ absurd (absent ts x fresh i (a ∙ ap some (sym s)))
  ]
  | inr (e, s) ↦ elim (entry_of_push ts x t j hj) [
    | inl b ↦ absurd (absent ts x fresh j (b ∙ ap some (sym s)))
    | inr (f, u) ↦ e ∙ sym f
  ]
]

push_missing-Distinct :
    (tokens ts : List String) → Distinct tokens → Distinct (push_missing tokens ts)
unfolding push_missing
push_missing-Distinct tokens [] distinct = distinct
push_missing-Distinct tokens (t ∷ ts) distinct = elim (Bool-cases (contains tokens t)) [
  | inl there ↦ rw there (push_missing-Distinct tokens ts distinct)
  | inr missing ↦
      rw missing
        (push_missing-Distinct (tokens ++ (t ∷ [])) ts (Distinct-push tokens t distinct missing))
]

-- The download tokens of a configuration are distinct.
pub all_download_tokens-Distinct : (config : Config) → Distinct (all_download_tokens config)
unfolding all_download_tokens Distinct
all_download_tokens-Distinct config =
    push_missing-Distinct (config.token ∷ []) config.download_tokens one
  where
    one : Distinct (config.token ∷ [])
    one t zero zero h k = refl
    one t zero (suc j) h k = absurd (ground arith)
    one t (suc i) zero h k = absurd (ground arith)
    one t (suc i) (suc j) h k = absurd (ground arith)

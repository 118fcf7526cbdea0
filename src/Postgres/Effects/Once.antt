-- ===== src/Postgres/Effects/Once.antt =====
-- A token is good for one effect: the first call creates it, and every other call is deduplicated.
use anchor_runtime.Base.{
  ℕ, ◌+◌, ◌≤◌, ◌⊎◌, subst, none, List, [], ◌∷◌, ◌++◌, String, ◌≡◌, refl, ap, sym, Bool-cases, ◌∙◌,
  arith, ◌==◌, eq_iff, length, keep, if◌then◌else◌, Option-cases, inl, inr,
}
use anchor_runtime.Value.{Dict, is_json_dict}
use anchor_runtime.Model.{Uuid}
use anchor_runtime.Postgres.Tables.{EffectRow, Db}
use anchor_runtime.Postgres.Effects.{find_effect, new_effect, insert_effect, record_side_effect}

-- A recording leaves the tables alone, or adds the effect of a token that has none yet.
pub record_side_effect_cases :
    (token run : Uuid) (kind : String) (payload : Dict) (db : Db)
    → ((record_side_effect token run kind payload db).1 ≡ db)
      ⊎ ((find_effect token db.effects ≡ none)
          × ((record_side_effect token run kind payload db).1
              ≡ record db { effects = db.effects ++ new_effect token run kind payload db ∷ [] }))
unfolding record_side_effect insert_effect
record_side_effect_cases token run kind payload db = elim (Bool-cases (is_json_dict payload)) [
  | inr bad ↦ inl (rw (bad, record_side_effect) refl)
  | inl json ↦ elim (Option-cases (find_effect token db.effects)) [
    | inr (e, old) ↦ inl (rw (json, old, insert_effect, record_side_effect) refl)
    | inl new ↦ inr (new, rw (json, new, insert_effect, record_side_effect) refl)
  ]
]

-- The number of effects under a token.
abbrev pub effects_under : Uuid → List EffectRow → ℕ
effects_under token es = length (keep (λ e. e.token == token) es)

absent-effects_under :
    (token : Uuid) (es : List EffectRow) → find_effect token es ≡ none → effects_under token es ≡ 0
unfolding find_effect
absent-effects_under token [] h = refl
absent-effects_under token (x ∷ es) h = ground (arith, absent-effects_under token es)

effects_under-append :
    (token : Uuid) (es : List EffectRow) (e : EffectRow)
    → effects_under token (es ++ e ∷ [])
      ≡ effects_under token es + (if e.token == token then 1 else 0)
effects_under-append token [] e = ground arith
effects_under-append token (x ∷ es) e = ground (arith, effects_under-append token es e)

-- PRIMARY KEY (token)
abbrev pub IsOnce : Db → Type 0
IsOnce db = (token : Uuid) → effects_under token db.effects ≤ 1

under_bound :
    (token t : Uuid) (n : ℕ) → n ≤ 1 → (token ≡ t → n ≡ 0) → n + (if token == t then 1 else 0) ≤ 1
under_bound token t n h z = elim (Bool-cases (token == t)) [
  | inl same ↦ rw same (omega (arith, z ((eq_iff token t).0 same)))
  | inr differs ↦ rw differs (omega arith)
]

-- If every token has at most one effect, it is so after any further recording.
pub record_side_effect-IsOnce :
    (token run : Uuid) (kind : String) (payload : Dict) (db : Db)
    → IsOnce db
    → IsOnce (record_side_effect token run kind payload db).1
record_side_effect-IsOnce token run kind payload db once t =
    elim (record_side_effect_cases token run kind payload db) [
      | inl same ↦ subst (λ d. effects_under t d.effects ≤ 1) (sym same) (once t)
      | inr (new, more) ↦
          subst (λ d. effects_under t d.effects ≤ 1) (sym more)
            (rw (effects_under-append t db.effects (new_effect token run kind payload db)) (
              under_bound token t (effects_under t db.effects) (once t) (λ same.
                ap (λ k. effects_under k db.effects) (sym same)
                ∙ absent-effects_under token db.effects new)))
    ]

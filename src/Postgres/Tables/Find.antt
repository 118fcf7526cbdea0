-- ===== src/Postgres/Tables/Find.antt =====
-- Looking a run up after an UPDATE or an INSERT.
use anchor_runtime.Base.{
  String, false, Option, none, some, List, [], ◌∷◌, ◌++◌, ◌≡◌, refl, arith, ◌==◌, eq_iff,
  if◌then◌else◌, Bool-cases, inl, inr,
}
use anchor_runtime.Model.{Uuid}
use anchor_runtime.Postgres.Tables.{RunRow, find_run, find_key, update_run}

abbrev pub apply_some : {A B : Type 0} → (A → B) → Option A → Option B
apply_some f none = none
apply_some f (some a) = some (f a)

-- An UPDATE that keeps the key shows in a lookup of its own key alone.
pub find_run-update :
    (id j : Uuid) (f : RunRow → RunRow) (rs : List RunRow)
    → ((r : RunRow) → (f r).run_id ≡ r.run_id)
    → find_run j (update_run id f rs)
      ≡ (if id == j then apply_some f (find_run j rs) else find_run j rs)
unfolding find_run update_run
find_run-update id j f [] keeps = ground arith
find_run-update id j f (x ∷ rs) keeps = elim (Bool-cases (x.run_id == id)) [
  | inl hit ↦
      simp (hit, keeps x)
        (ground (
          arith,
          eq_iff x.run_id id,
          eq_iff x.run_id j,
          eq_iff id j,
          find_run-update id j f rs keeps,
        ))
  | inr miss ↦ simp miss (
      ground (
        arith,
        eq_iff x.run_id id,
        eq_iff x.run_id j,
        eq_iff id j,
        find_run-update id j f rs keeps,
      ))
]

pub find_run-append :
    (j : Uuid) (rs : List RunRow) (r : RunRow)
    → find_run j rs ≡ none
    → find_run j (rs ++ r ∷ []) ≡ (if r.run_id == j then some r else none)
unfolding find_run
find_run-append j [] r h = refl
find_run-append j (x ∷ rs) r h = ground (arith, find_run-append j rs r)

pub find_run-append_ne :
    (j : Uuid) (rs : List RunRow) (r : RunRow)
    → (r.run_id == j) ≡ false
    → find_run j (rs ++ r ∷ []) ≡ find_run j rs
unfolding find_run
find_run-append_ne j [] r h = ground arith
find_run-append_ne j (x ∷ rs) r h = ground (arith, find_run-append_ne j rs r)

-- What a lookup finds has the key.
pub find_run_key :
    (j : Uuid) (rs : List RunRow) (r : RunRow) → find_run j rs ≡ some r → r.run_id ≡ j
unfolding find_run
find_run_key j [] r h = cc
find_run_key j (x ∷ rs) r h = ground (arith, eq_iff x.run_id j, find_run_key j rs r)

-- What an UPDATE of one run does to a row.
abbrev pub touch : Uuid → (RunRow → RunRow) → RunRow → RunRow
touch id f r = if r.run_id == id then f r else r

pub find_key-update :
    (k : String) (id : Uuid) (f : RunRow → RunRow) (rs : List RunRow)
    → ((r : RunRow) → (f r).idempotency_key ≡ r.idempotency_key)
    → find_key k (update_run id f rs) ≡ apply_some (touch id f) (find_key k rs)
unfolding find_key update_run
find_key-update k id f [] keeps = refl
find_key-update k id f (x ∷ rs) keeps = elim (Bool-cases (x.run_id == id)) [
  | inl hit ↦ simp (hit, keeps x) (ground (arith, find_key-update k id f rs keeps))
  | inr miss ↦ simp miss (ground (arith, find_key-update k id f rs keeps))
]

pub find_key-append :
    (k : String) (rs : List RunRow) (r : RunRow)
    → find_key k (rs ++ r ∷ []) ≡ (elim (find_key k rs) [
      | some x ↦ some x
      | none ↦ if r.idempotency_key == k then some r else none
    ])
unfolding find_key
find_key-append k [] r = refl
find_key-append k (x ∷ rs) r = ground (arith, find_key-append k rs r)

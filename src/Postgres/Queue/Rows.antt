-- ===== src/Postgres/Queue/Rows.antt =====
-- Queue rows by run: the primary key, and lookups after an UPDATE.
use anchor_runtime.Base.{
  ◌≤◌, ap, false, ◌==◌, leb, Bool, true, none, some, List, [], ◌∷◌, ◌≡◌, ◌∙◌, ◌⊎◌, refl, arith,
  eq_iff, eq_refl, keep, if◌then◌else◌, Bool-cases, Option-cases, inl, inr,
}
use anchor_runtime.Model.{Uuid}
use anchor_runtime.Postgres.Tables.{QueueRow, update, find_queued}
use anchor_runtime.Postgres.Tables.Find.{apply_some}
use anchor_runtime.Postgres.Queue.{first_visible}

-- PRIMARY KEY (run_id)
abbrev pub IsKeyed : List QueueRow → Type 0
IsKeyed [] = Unit
IsKeyed (q ∷ qs) = (find_queued q.run_id qs ≡ none) × IsKeyed qs

abbrev pub change : (QueueRow → Bool) → (QueueRow → QueueRow) → QueueRow → QueueRow
change p f q = if p q then f q else q

pub find_queued-update :
    (j : Uuid) (p : QueueRow → Bool) (f : QueueRow → QueueRow) (qs : List QueueRow)
    → ((q : QueueRow) → (f q).run_id ≡ q.run_id)
    → find_queued j (update p f qs) ≡ apply_some (change p f) (find_queued j qs)
unfolding find_queued update
find_queued-update j p f [] keeps = refl
find_queued-update j p f (x ∷ qs) keeps = elim (Bool-cases (p x)) [
  | inl hit ↦ simp (hit, keeps x) (ground (arith, find_queued-update j p f qs keeps))
  | inr miss ↦ simp miss (ground (arith, find_queued-update j p f qs keeps))
]

pub find_queued_key :
    (j : Uuid) (qs : List QueueRow) (q : QueueRow) → find_queued j qs ≡ some q → q.run_id ≡ j
unfolding find_queued
find_queued_key j [] q h = cc
find_queued_key j (x ∷ qs) q h = ground (arith, eq_iff x.run_id j, find_queued_key j qs q)

pick_cases :
    (x : QueueRow) (ys : List QueueRow) (q : QueueRow)
    → first_visible (x ∷ ys) ≡ some q
    → (q ≡ x) ⊎ (first_visible ys ≡ some q)
unfolding first_visible
pick_cases x ys q h = elim (Option-cases (first_visible ys)) [
  | inl empty ↦ ground arith
  | inr (r, e) ↦ ground arith
]

-- The row that ORDER BY … LIMIT 1 picks satisfies the test, and is the row of its run.
pub first_visible_found :
    (p : QueueRow → Bool) (qs : List QueueRow) (q : QueueRow)
    → IsKeyed qs
    → first_visible (keep p qs) ≡ some q
    → (find_queued q.run_id qs ≡ some q) × (p q ≡ true)
unfolding find_queued
first_visible_found p [] q k h = absurd (none_first h)
  where
    none_first : first_visible [] ≡ some q → ⊥
    none_first e = unfold first_visible in cc e
first_visible_found p (x ∷ qs) q k h = elim (Bool-cases (p x)) [
  | inl hit ↦ elim (pick_cases x (keep p qs) q (rw hit at h)) [
    | inl e ↦ found_head hit e
    | inr e ↦ found_tail (first_visible_found p qs q k.1 e)
  ]
  | inr miss ↦ found_tail (first_visible_found p qs q k.1 (rw miss at h))
]
  where
    found_tail :
        (find_queued q.run_id qs ≡ some q) × (p q ≡ true)
        → (find_queued q.run_id (x ∷ qs) ≡ some q) × (p q ≡ true)
    found_tail (e, t) = ground (arith, eq_iff x.run_id q.run_id, k.0)

    found_head : p x ≡ true → q ≡ x → (find_queued q.run_id (x ∷ qs) ≡ some q) × (p q ≡ true)
    found_head t e = ground (arith, eq_refl x.run_id)

-- What is picked from a longer table was visible no later than the new row, and than the old pick.
pick_min :
    (x : QueueRow) (ys : List QueueRow)
    → (q : QueueRow) × (first_visible (x ∷ ys) ≡ some q)
      × (q.visible_at ≤ x.visible_at)
      × ((s : QueueRow) → first_visible ys ≡ some s → q.visible_at ≤ s.visible_at)
unfolding first_visible
pick_min x ys = elim (Option-cases (first_visible ys)) [
  | inl empty ↦ (x, rw empty, omega arith, λ s e. absurd (cc e))
  | inr (r, e) ↦ elim (Bool-cases (leb x.visible_at r.visible_at)) [
    | inl older ↦ (x, rw (e, older), omega arith, λ s e'. ground arith)
    | inr newer ↦ (r, rw (e, newer), ground arith, λ s e'. ground arith)
  ]
]

-- Where a row passes the test, one is picked that was visible no later.
pub first_visible_min :
    (p : QueueRow → Bool) (j : Uuid) (qs : List QueueRow) (r : QueueRow)
    → find_queued j qs ≡ some r
    → p r ≡ true
    → (q : QueueRow) × (first_visible (keep p qs) ≡ some q) × (q.visible_at ≤ r.visible_at)
unfolding find_queued
first_visible_min p j [] r h t = absurd (cc h)
first_visible_min p j (x ∷ qs) r h t = elim (Bool-cases (x.run_id == j)) [
  | inl same ↦
      let (q, e, le, rest) = pick_min x (keep p qs) in
      let at_head : x ≡ r = ground arith in (q, rw (ap p at_head ∙ t) e, ground arith)
  | inr differs ↦
      let (q, e, le) = first_visible_min p j qs r (rw differs at h) t in
      elim (Bool-cases (p x)) [
        | inl hit ↦
            let (s, e', le', rest) = pick_min x (keep p qs) in
            (s, rw hit e', omega (arith, rest q e))
        | inr miss ↦ (q, rw miss e, le)
      ]
]

keyed_apart :
    (p : QueueRow → Bool) (f : QueueRow → QueueRow) (x : QueueRow) (qs : List QueueRow)
    → ((q : QueueRow) → (f q).run_id ≡ q.run_id)
    → find_queued x.run_id qs ≡ none
    → (b : Bool) → find_queued (if b then f x else x).run_id (update p f qs) ≡ none
keyed_apart p f x qs keeps h true =
    ap (λ k. find_queued k (update p f qs)) (keeps x)
    ∙ (find_queued-update x.run_id p f qs keeps ∙ ap (apply_some (change p f)) h)
keyed_apart p f x qs keeps h false =
    find_queued-update x.run_id p f qs keeps ∙ ap (apply_some (change p f)) h

pub IsKeyed-update :
    (p : QueueRow → Bool) (f : QueueRow → QueueRow) (qs : List QueueRow)
    → ((q : QueueRow) → (f q).run_id ≡ q.run_id)
    → IsKeyed qs
    → IsKeyed (update p f qs)
unfolding update
IsKeyed-update p f [] keeps k = tt
IsKeyed-update p f (x ∷ qs) keeps k =
    (keyed_apart p f x qs keeps k.0 (p x), IsKeyed-update p f qs keeps k.1)

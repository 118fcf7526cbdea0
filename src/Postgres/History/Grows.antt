-- ===== src/Postgres/History/Grows.antt =====
-- What no call of the store takes back: events and effects are only added, runs stay what they are,
-- and their counters and cancel flags only go up.
use anchor_runtime.Base.{◌≤◌, true, some, List, [], ◌++◌, ◌≡◌, refl, sym, ap, ◌∙◌, arith}
use mathlib.Core.List.{append-nil, append_assoc}
use anchor_runtime.Model.{Uuid}
use anchor_runtime.Postgres.Tables.{RunRow, EventRow, EffectRow, Db, find_run}

-- The later row is of the same submission, and its counters and its cancel flag have not gone down.
pub record Succeeds (r s : RunRow) : Type 0 where
  pub workflow : s.workflow ≡ r.workflow
  pub input : s.input ≡ r.input
  pub key : s.idempotency_key ≡ r.idempotency_key
  pub budget : s.budget ≡ r.budget
  pub created : s.created_at ≡ r.created_at
  pub event_seq : r.event_seq ≤ s.event_seq
  pub attempt : r.attempt ≤ s.attempt
  pub cancel : r.cancel_requested ≡ true → s.cancel_requested ≡ true

-- The later tables have all events and effects of the earlier ones, in their order, before the new
-- ones; and each run is still there.
pub record Grows (a b : Db) : Type 0 where
  pub events : (more : List EventRow) × (b.events ≡ a.events ++ more)
  pub effects : (more : List EffectRow) × (b.effects ≡ a.effects ++ more)
  pub runs :
      (id : Uuid) (r : RunRow)
      → find_run id a.runs ≡ some r
      → (s : RunRow) × (find_run id b.runs ≡ some s) × Succeeds r s

pub kept :
    (r s : RunRow)
    → s.workflow ≡ r.workflow
    → s.input ≡ r.input
    → s.idempotency_key ≡ r.idempotency_key
    → s.budget ≡ r.budget
    → s.created_at ≡ r.created_at
    → r.event_seq ≤ s.event_seq
    → r.attempt ≤ s.attempt
    → (r.cancel_requested ≡ true → s.cancel_requested ≡ true)
    → Succeeds r s
kept r s same_workflow same_input same_key same_budget same_time seqs attempts flag = record {
  workflow = same_workflow;
  input = same_input;
  key = same_key;
  budget = same_budget;
  created = same_time;
  event_seq = seqs;
  attempt = attempts;
  cancel = flag;
}

pub Succeeds-refl : (r : RunRow) → Succeeds r r
Succeeds-refl r = kept r r refl refl refl refl refl (omega arith) (omega arith) (λ h. h)

Succeeds-trans : (r s t : RunRow) → Succeeds r s → Succeeds s t → Succeeds r t
Succeeds-trans r s t h k = record {
  workflow = k.workflow ∙ h.workflow;
  input = k.input ∙ h.input;
  key = k.key ∙ h.key;
  budget = k.budget ∙ h.budget;
  created = k.created ∙ h.created;
  event_seq = omega (arith, h.event_seq, k.event_seq);
  attempt = omega (arith, h.attempt, k.attempt);
  cancel = λ c. k.cancel (h.cancel c);
}

-- A call that leaves these three tables alone.
pub unchanged :
    (a b : Db) → b.runs ≡ a.runs → b.events ≡ a.events → b.effects ≡ a.effects → Grows a b
unchanged a b runs events effects = record {
  events = ([], events ∙ sym (append-nil a.events));
  effects = ([], effects ∙ sym (append-nil a.effects));
  runs = λ id r h. (r, rw runs h, Succeeds-refl r);
}

pub Grows-refl : (a : Db) → Grows a a
Grows-refl a = unchanged a a refl refl refl

pub Grows-trans : (a b c : Db) → Grows a b → Grows b c → Grows a c
Grows-trans a b c g h =
    let (more, e) = g.events in
    let (more', e') = h.events in
    let (new, f) = g.effects in
    let (new', f') = h.effects in
    record {
      events = (more ++ more', e' ∙ ap (λ l. l ++ more') e ∙ append_assoc a.events more more');
      effects = (new ++ new', f' ∙ ap (λ l. l ++ new') f ∙ append_assoc a.effects new new');
      runs = λ id r found.
          let (s, found', k) = g.runs id r found in
          let (t, found'', l) = h.runs id s found' in (t, found'', Succeeds-trans r s t k l);
    }

-- ===== src/Dynamo/Events/Numbers.antt =====
-- Which numbers the events get, and where they are put.
use anchor_runtime.Base.{
  ℕ, ◌+◌, ◌*◌, ◌/◌, String, Bool, true, false, ◌&&◌, Option, none, some, [], ◌≡◌, ◌≢◌, ◌⊎◌, refl,
  sym, ap, ◌∙◌, arith, lookup, insert, lookup-insert, or_else, ◌==◌, eq_iff, eq_refl, if◌then◌else◌,
  Bool-cases, inl, inr,
}
use package.text.Mathlib.Text.{starts_with}
use anchor_runtime.Value.{Dict, obj, is_json_dict}
use anchor_runtime.Model.{Uuid}
use anchor_runtime.Exec.{ok}
use anchor_runtime.Exec.Laws.{bind-ok}
use anchor_runtime.Dynamo.Attr.{Attr, number, text, million, enc}
use anchor_runtime.Dynamo.Service.{Item, Service, IsLawful}
use anchor_runtime.Dynamo.Keys.{run_pk, event_sk, other_prefix}
use anchor_runtime.Dynamo.Events.{
  as_int, event_item, claim_number, mirrored, mirror_number, put_event, append_event,
}

-- The counter of a run.
abbrev pub HasCount : (S : Service) → Uuid → ℕ → S.State → Type 0
HasCount S id n s =
    (c : Item) × (S.get s (run_pk id) "COUNTER" ≡ some c)
    × (lookup "seq" c ≡ some (number (n * million)))

whole : (n : ℕ) → (n * million + million) / million ≡ n + 1
whole n = omega arith

same_key :
    {A : Type 0} {a b : Bool} (new old : A)
    → a ≡ true
    → b ≡ true
    → (if a && b then new else old) ≡ new
same_key new old h k = ground arith

pub not_equal_sym : (a b : String) → (a == b) ≡ false → (b == a) ≡ false
not_equal_sym a b h = ground (arith, eq_iff a b, eq_iff b a)

event_sk-other :
    (seq : ℕ) (k : String) → starts_with k "EVENT#" ≡ false → (event_sk seq == k) ≡ false
unfolding event_sk
event_sk-other seq k h = other_prefix "EVENT#" _ k h

-- A write under another key does not show.
pub untouched :
    {A : Type 0} (new old : A) (p k q j : String)
    → (q ≢ p) ⊎ ((k == j) ≡ false)
    → (if p == q && k == j then new else old) ≡ old
untouched new old p k q j (inl ne) = elim (Bool-cases (p == q)) [
  | inl same ↦ absurd (ne (sym ((eq_iff p q).0 same)))
  | inr differs ↦ rw differs refl
]
untouched new old p k q j (inr ne) = ground arith

module _ (S : Service) (lawful : IsLawful S) (id : Uuid) (n : ℕ) where
  abbrev counted : Item → Item
  counted c = insert "seq" (number (n * million + million)) c

  claim_number-exact :
      (s : S.State) (c : Item)
      → S.get s (run_pk id) "COUNTER" ≡ some c
      → lookup "seq" c ≡ some (number (n * million))
      → claim_number S id s ≡ (ok (n + 1), S.put (run_pk id) "COUNTER" (counted c) s)
  unfolding claim_number
  claim_number-exact s c found seq =
      rw (found, seq, lookup-insert "seq" "seq" (number (n * million + million)) c, whole n) refl

  claim_number-count :
      (s : S.State)
      → HasCount S id n s
      → ((claim_number S id s).0 ≡ ok (n + 1))
        × HasCount S id (n + 1) (claim_number S id s).1
        × ((p k : String)
            → (p ≢ run_pk id) ⊎ (("COUNTER" == k) ≡ false)
            → S.get (claim_number S id s).1 p k ≡ S.get s p k)
  claim_number-count s (c, found, seq) =
      let done = claim_number-exact s c found seq in
      (
        ap (λ r. r.0) done,
        rw done (
          counted c,
          lawful.get-put (run_pk id) "COUNTER" (run_pk id) "COUNTER" (counted c) s
              ∙ rw (eq_refl (run_pk id)) refl,
          lookup-insert "seq" "seq" (number (n * million + million)) c
              ∙ ap (λ (k : ℕ). some (number k)) (omega arith),
        ),
        λ p k other. rw done (
            lawful.get-put (run_pk id) "COUNTER" p k (counted c) s
            ∙ untouched _ _ (run_pk id) "COUNTER" p k other),
      )

abbrev key_attr : Option String → Option Attr
key_attr none = none
key_attr (some k) = some (text k)

-- The attributes of an item say which event it is.
pub record Describes (seq : ℕ) (type : String) (key : Option String) (payload : Dict) (i : Item)
    : Type 0 where
  pub seq_is : as_int (lookup "seq" i) ≡ some seq
  pub type_is : lookup "type" i ≡ some (text type)
  pub key_is : lookup "step_key" i ≡ key_attr key
  pub payload_is : lookup "payload" i ≡ some (enc (obj payload))

event_item-Describes :
    (seq : ℕ) (type : String) (key : Option String) (payload : Dict) (now : String)
    → Describes seq type key payload (event_item seq type key payload now)
unfolding lookup insert
event_item-Describes seq type none payload now = record {
  seq_is = ap some (omega arith);
  type_is = refl;
  key_is = refl;
  payload_is = refl;
}
event_item-Describes seq type (some k) payload now = record {
  seq_is = ap some (omega arith);
  type_is = refl;
  key_is = refl;
  payload_is = refl;
}

module _ (S : Service) (lawful : IsLawful S) (id : Uuid) (type : String) (key : Option String)
    (payload : Dict) where
  -- The rest of an append, after the update of the counter.
  abbrev pub finish : ℕ → S.State → S.State
  finish seq s =
      let meta = mirrored S seq (S.now s) (or_else (S.get s (run_pk id) "META") []) in
      let t = S.put (run_pk id) "META" meta s in
      S.put (run_pk id) (event_sk seq) (event_item seq type key payload (S.now t)) t

  abbrev IsElsewhere : ℕ → String → String → Type 0
  IsElsewhere seq p k = (p ≢ run_pk id) ⊎ ((("META" == k) ≡ false) × ((event_sk seq == k) ≡ false))

  finish_elsewhere :
      (seq : ℕ) (s : S.State) (p k : String)
      → IsElsewhere seq p k
      → S.get (finish seq s) p k ≡ S.get s p k
  finish_elsewhere seq s p k (inl ne) =
      lawful.get-put (run_pk id) (event_sk seq) p k _ _
      ∙ untouched _ _ (run_pk id) (event_sk seq) p k (inl ne)
      ∙ lawful.get-put (run_pk id) "META" p k _ s
      ∙ untouched _ _ (run_pk id) "META" p k (inl ne)
  finish_elsewhere seq s p k (inr (meta, event)) =
      lawful.get-put (run_pk id) (event_sk seq) p k _ _
      ∙ untouched _ _ (run_pk id) (event_sk seq) p k (inr event)
      ∙ lawful.get-put (run_pk id) "META" p k _ s
      ∙ untouched _ _ (run_pk id) "META" p k (inr meta)

  append-exact :
      (n : ℕ) (s : S.State)
      → is_json_dict payload ≡ true
      → HasCount S id n s
      → append_event S id type key payload s ≡ (ok (n + 1), finish (n + 1) (claim_number S id s).1)
  unfolding append_event mirror_number put_event
  append-exact n s json (c, found, seq) =
      bind-ok (claim_number S id) _ (claim_number-exact S lawful id n s c found seq)
      ∙ rw (claim_number-exact S lawful id n s c found seq, json) refl

  -- The item of the event is stored under the key of its number, the counter has counted it, and no
  -- other run is touched.
  abbrev pub IsAppended : ℕ → S.State → S.State → Type 0
  IsAppended seq s t =
      ((i : Item) × (S.get t (run_pk id) (event_sk seq) ≡ some i)
        × Describes seq type key payload i)
      × HasCount S id seq t
      × ((p k : String) → p ≢ run_pk id → S.get t p k ≡ S.get s p k)

  -- The state after the copy of the number.
  abbrev copied : ℕ → S.State → S.State
  copied seq s =
      S.put (run_pk id) "META" (mirrored S seq (S.now s) (or_else (S.get s (run_pk id) "META") []))
        s

  finish_event :
      (seq : ℕ) (s : S.State)
      → S.get (finish seq s) (run_pk id) (event_sk seq)
        ≡ some (event_item seq type key payload (S.now (copied seq s)))
  finish_event seq s =
      lawful.get-put (run_pk id) (event_sk seq) (run_pk id) (event_sk seq)
        (event_item seq type key payload (S.now (copied seq s))) (copied seq s)
      ∙ same_key _ _ (eq_refl (run_pk id)) (eq_refl (event_sk seq))

  finish-IsAppended :
      (seq : ℕ) (s t : S.State)
      → HasCount S id seq t
      → ((p k : String) → p ≢ run_pk id → S.get t p k ≡ S.get s p k)
      → IsAppended seq s (finish seq t)
  finish-IsAppended seq s t (c, found, count) same = (
    (_, finish_event seq t, event_item-Describes seq type key payload _),
    (
      c,
      finish_elsewhere seq t (run_pk id) "COUNTER" (inr (refl, event_sk-other seq "COUNTER" refl))
          ∙ found,
      count,
    ),
    λ p k ne. finish_elsewhere seq t p k (inl ne) ∙ same p k ne,
  )

  -- An append of a JSON payload to a run whose counter stands at `n` returns `n + 1`, stores under
  -- the key of that number an item with the number, the type, the step key and the payload of the
  -- event, leaves the counter at `n + 1` and touches no other run.
  pub append_next :
      (n : ℕ) (s : S.State)
      → is_json_dict payload ≡ true
      → HasCount S id n s
      → ((append_event S id type key payload s).0 ≡ ok (n + 1))
        × IsAppended (n + 1) s (append_event S id type key payload s).1
  append_next n s json h =
      let (r, count, same) = claim_number-count S lawful id n s h in
      rw (append-exact n s json h) (
        refl,
        finish-IsAppended (n + 1) s (claim_number S id s).1 count (λ p k ne. same p k (inl ne)),
      )

  -- A process that dies between the update of the counter and the write of the event leaves a gap:
  -- the next append gets the number after the lost one, and stores nothing under the lost one.
  crash_leaves_gap :
      (n : ℕ) (s : S.State)
      → is_json_dict payload ≡ true
      → HasCount S id n s
      → (event_sk (n + 1 + 1) == event_sk (n + 1)) ≡ false
      → let t = (append_event S id type key payload (claim_number S id s).1).1 in
        ((append_event S id type key payload (claim_number S id s).1).0 ≡ ok (n + 1 + 1))
        × (S.get t (run_pk id) (event_sk (n + 1)) ≡ S.get s (run_pk id) (event_sk (n + 1)))
  crash_leaves_gap n s json h apart =
      let (r, count, same) = claim_number-count S lawful id n s h in
      let lost = event_sk (n + 1) in
      let counter = not_equal_sym lost "COUNTER" (event_sk-other (n + 1) "COUNTER" refl) in
      rw (append-exact (n + 1) (claim_number S id s).1 json count) (
        refl,
        finish_elsewhere (n + 1 + 1) (claim_number S id (claim_number S id s).1).1 (run_pk id) lost
              (inr (not_equal_sym lost "META" (event_sk-other (n + 1) "META" refl), apart))
            ∙ (claim_number-count S lawful id (n + 1) (claim_number S id s).1 count).2 (run_pk id)
                lost (inr counter)
            ∙ same (run_pk id) lost (inr counter),
      )

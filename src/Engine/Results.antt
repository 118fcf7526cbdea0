-- ===== src/Engine/Results.antt =====
-- What becomes of the result of a workflow: reported, stored, and reported again.
use anchor_runtime.Base.{
  true, false, none, some, [], ◌∷◌, ◌++◌, ◌≡◌, ◌⊎◌, refl, arith, eq_refl, Bool-cases, inl, inr,
}
use anchor_runtime.Value.{Value, is_json, is_json_dict}
use anchor_runtime.EventType.{run_completed}
use anchor_runtime.Model.{Event, usage_to_dict, RunStatus, completed}
use anchor_runtime.Exec.{Reply, raised}
use anchor_runtime.Postgres.Tables.{RunRow, find_run, update_run, not_serialisable}
use anchor_runtime.Postgres.Events.{events_of}
use anchor_runtime.Postgres.Events.Gapless.{append-succeeds}
use anchor_runtime.Budget.{snapshot}
use anchor_runtime.Postgres.Events.Append.{log-append}
use anchor_runtime.Postgres.Runs.{set_status, save_usage, with_usage}
use anchor_runtime.Machine.{Machine, call}
use anchor_runtime.Context.Guards.{Runtime, append}
use anchor_runtime.Engine.{Outcome, completed_payload, complete}
use anchor_runtime.Engine.Settled.{
  IsSettled, Returns, and_then, append_settled, set_status_settled, save_usage_settled, row_of,
  noted, noted-IsSettled, update-IsSettled,
}

module _ (rt : Runtime) (s : RunStatus) where
  pub completed-json : (m : Machine) → is_json_dict (completed_payload rt m) ≡ true
  unfolding is_json is_json_dict snapshot usage_to_dict
  completed-json m = refl

  json_result :
      (result : Value) (m : Machine)
      → is_json result ≡ true
      → IsSettled rt.run_id s m
      → Returns
          (λ o. (o.status ≡ completed) × (o.result ≡ result))
          rt.run_id
          completed
          (complete rt result m)
  unfolding complete
  json_result result m json h =
      and_then (append rt run_completed none (completed_payload rt m)) _ m
        (append_settled rt s run_completed none (completed_payload rt m) m (completed-json m) h)
        (λ _ n _ k.
          and_then (call (save_usage rt.run_id n.ctx.usage)) _ n
            (save_usage_settled rt s n.ctx.usage n k)
            (λ _ p _ l.
              and_then (call (set_status rt.run_id completed result none)) _ p
                (set_status_settled rt s completed result none p (ground (arith, json)) l)
                (λ _ q _ j. record {
                  value = _;
                  after = q;
                  returned = refl;
                  good = (refl, refl);
                  settled = j;
                })))

  -- The run completed according to its log, but not according to its row.
  abbrev pub half_done : RunRow → Machine → Machine
  half_done r m =
      let n = noted rt s run_completed none (completed_payload rt m) m r in
      record n {
        db = record n.db { runs = update_run rt.run_id (with_usage m.ctx.usage n.db) n.db.runs };
      }

  refused_result :
      (result : Value) (m : Machine) (r : RunRow)
      → is_json result ≡ false
      → find_run rt.run_id m.db.runs ≡ some r
      → IsSettled rt.run_id s m
      → complete rt result m ≡ (raised not_serialisable, half_done r m)
  unfolding complete append call save_usage set_status
  refused_result result m r bad found h =
      rw
        (
          h.quiet,
          append-succeeds rt.run_id run_completed none (completed_payload rt m) m.db r
              (completed-json m) h.gapless found,
          bad,
        )
        refl

  half_done-IsSettled :
      (m : Machine) (r : RunRow)
      → find_run rt.run_id m.db.runs ≡ some r
      → IsSettled rt.run_id s m
      → IsSettled rt.run_id s (half_done r m)
  half_done-IsSettled m r found h =
      update-IsSettled rt s (with_usage m.ctx.usage) s _ (λ r. refl) (λ r. refl) (λ r h. h)
        (noted-IsSettled rt s run_completed none (completed_payload rt m) m r found h)

  -- `RunCompleted` is logged, and then the engine raises: the status of the run is as before.
  abbrev pub Refuses : Machine → Reply Outcome × Machine → Type 0
  Refuses m p =
      (n : Machine) × (e : Event) × (p ≡ (raised not_serialisable, n))
      × IsSettled rt.run_id s n
      × (events_of rt.run_id n.db.events ≡ events_of rt.run_id m.db.events ++ e ∷ [])
      × (e.type ≡ "RunCompleted")

  -- A workflow that returns, on a run that is there and with nobody interfering. If its result is
  -- JSON, the engine returns an outcome with this result and the status completed, the row of the
  -- run shows completed, and the log stays gapless. If not, the log gets the event `RunCompleted`,
  -- but the engine raises the error of the encoder, and the row keeps the status that it had.
  pub result_recorded :
      (result : Value) (m : Machine)
      → IsSettled rt.run_id s m
      → ((is_json result ≡ true)
          × Returns
              (λ o. (o.status ≡ completed) × (o.result ≡ result))
              rt.run_id
              completed
              (complete rt result m))
        ⊎ ((is_json result ≡ false) × Refuses m (complete rt result m))
  result_recorded result m h = elim (Bool-cases (is_json result)) [
    | inl json ↦ inl (json, json_result result m json h)
    | inr bad ↦
        let (r, found) = row_of (find_run rt.run_id m.db.runs) h.shown in
        inr (
          bad,
          (
            half_done r m,
            _,
            refused_result result m r bad found h,
            half_done-IsSettled m r found h,
            log-append rt.run_id m.db.events _ (eq_refl rt.run_id),
            refl,
          ),
        )
  ]

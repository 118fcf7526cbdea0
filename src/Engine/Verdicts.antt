-- ===== src/Engine/Verdicts.antt =====
-- What the engine reports when the workflow ends, and what the run's row then shows.
use anchor_runtime.Base.{String, true, none, some, ◌≡◌, refl}
use anchor_runtime.Value.{is_json, is_json_dict, null, int, str, Dict, end, field}
use anchor_runtime.EventType
use anchor_runtime.EventType.{run_failed, run_cancelled, run_needs_review, run_completed}
use anchor_runtime.Model.{RunStatus, running, failed, cancelled, needs_review}
use anchor_runtime.Errors.{
  Exn, workflow_not_found, tool_not_found, step_failed, budget_exceeded, cancellation_requested,
  ambiguous_step, lease_lost, other, exn_name, exn_str, exn_repr, Amount, whole, fraction, amount,
}
use anchor_runtime.Exec.{◌>>◌}
use anchor_runtime.Postgres.Runs.{set_status, save_usage}
use anchor_runtime.Machine.{Machine, call}
use anchor_runtime.Context.Guards.{Runtime, append}
use anchor_runtime.Engine.{
  outcome, error_dict, exceeded_payload, fail_other, text_of, on_exception, fail,
}
use anchor_runtime.Engine.Settled.{
  IsSettled, Returns, and_then, append_settled, set_status_settled, save_usage_settled,
  outcome_settled,
}

module _ (rt : Runtime) (s : RunStatus) where
  finish_failed :
      (error : Dict) (m : Machine)
      → is_json_dict error ≡ true
      → IsSettled rt.run_id s m
      → Returns
          (λ o. o.status ≡ failed)
          rt.run_id
          failed
          ((call (set_status rt.run_id failed null (some error))
              >> outcome rt failed null (some error))
            m)
  unfolding is_json
  finish_failed error m json h =
      and_then (call (set_status rt.run_id failed null (some error)))
        (λ _. outcome rt failed null (some error)) m
        (set_status_settled rt s failed null (some error) m json h)
        (λ _ n _ k. outcome_settled rt failed failed null (some error) n k)

  fail_settled :
      (type_name message : String) (extra : Dict) (m : Machine)
      → is_json_dict (error_dict rt type_name message extra) ≡ true
      → IsSettled rt.run_id s m
      → Returns (λ o. o.status ≡ failed) rt.run_id failed (fail rt type_name message extra m)
  unfolding fail
  fail_settled type_name message extra m json h =
      let error = error_dict rt type_name message extra in
      and_then (append rt run_failed none error) _ m
        (append_settled rt s run_failed none error m json h)
        (λ _ n _ k.
          and_then (call (save_usage rt.run_id n.ctx.usage)) _ n
            (save_usage_settled rt s n.ctx.usage n k) (λ _ p _ l. finish_failed error p json l))

  other_settled :
      (e : Exn) (m : Machine)
      → IsSettled rt.run_id s m
      → Returns (λ o. o.status ≡ failed) rt.run_id failed (fail_other rt e m)
  unfolding is_json_dict
  other_settled e m h =
      fail_settled (exn_name e) (text_of rt e)
        (field "traceback" (str (rt.host.traceback (exn_repr rt.host e))) end) m refl h

  amount-json : (a : Amount) → is_json (amount a) ≡ true
  unfolding amount is_json
  amount-json (whole n) = refl
  amount-json (fraction n) = refl

  exceeded-json :
      (dimension : String) (limit observed : Amount)
      → is_json_dict (exceeded_payload rt dimension limit observed) ≡ true
  unfolding is_json_dict
  exceeded-json dimension limit observed = rw (amount-json limit, amount-json observed) refl

  -- The status that each exception of the workflow ends in.
  abbrev pub verdict : Exn → RunStatus
  verdict (cancellation_requested reason) = cancelled
  verdict (ambiguous_step key token) = needs_review
  verdict (lease_lost message) = running
  verdict _ = failed

  -- The status of the row afterwards: a worker that lost its lease leaves what it found.
  abbrev pub left : Exn → RunStatus
  left (lease_lost message) = s
  left e = verdict e

  -- An exception of the workflow, on a run that is there and with nobody interfering: the engine
  -- returns an outcome (no second exception), its status is the verdict on that exception, and the
  -- row of the run shows the same status, except that a lost lease leaves the row's status alone.
  -- The log stays gapless.
  pub exception_recorded :
      (e : Exn) (m : Machine)
      → IsSettled rt.run_id s m
      → Returns (λ o. o.status ≡ verdict e) rt.run_id (left e) (on_exception rt e m)
  unfolding on_exception is_json is_json_dict amount
  exception_recorded (cancellation_requested reason) m h =
      and_then (append rt run_cancelled none (field "reason" (str reason) end)) _ m
        (append_settled rt s run_cancelled none (field "reason" (str reason) end) m refl h)
        (λ _ n _ k.
          and_then (call (set_status rt.run_id cancelled null none)) _ n
            (set_status_settled rt s cancelled null none n refl k)
            (λ _ p _ l. outcome_settled rt cancelled cancelled null none p l))
  exception_recorded (budget_exceeded dimension limit observed) m h =
      and_then (append rt EventType.budget_exceeded none _) _ m
        (append_settled rt s EventType.budget_exceeded none _ m
          (exceeded-json dimension limit observed) h)
        (λ _ n _ k.
          fail_settled "BudgetExceededError"
            (exn_str rt.host (budget_exceeded dimension limit observed))
            (field "dimension" (str dimension) end) n refl k)
  exception_recorded (ambiguous_step key token) m h =
      and_then (append rt run_needs_review (some key) _) _ m
        (append_settled rt s run_needs_review (some key) _ m refl h)
        (λ _ n _ k.
          and_then (call (set_status rt.run_id needs_review null _)) _ n
            (set_status_settled rt s needs_review null _ n refl k)
            (λ _ p _ l. outcome_settled rt needs_review needs_review null none p l))
  exception_recorded (lease_lost message) m h = outcome_settled rt s running null _ m h
  exception_recorded (step_failed key attempts cause) m h =
      fail_settled "StepFailedError" (exn_str rt.host (step_failed key attempts cause))
        (field "step_key" (str key) (field "attempts" (int attempts) end)) m refl h
  exception_recorded (workflow_not_found message) m h =
      other_settled (workflow_not_found message) m h
  exception_recorded (tool_not_found message) m h = other_settled (tool_not_found message) m h
  exception_recorded (other name message) m h = other_settled (other name message) m h

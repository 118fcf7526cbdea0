-- ===== src/EventType.antt =====
-- src/anchor/events.py: the vocabulary of the log, and the idempotency token of a step.
use anchor_runtime.Base.{String, ◌<>◌}
use anchor_runtime.Model.{Uuid}
use anchor_runtime.Errors.{Host}

abbrev pub run_started : String
run_started = "RunStarted"

abbrev pub run_resumed : String
run_resumed = "RunResumed"

abbrev pub step_started : String
step_started = "StepStarted"

abbrev pub step_completed : String
step_completed = "StepCompleted"

abbrev pub step_retried : String
step_retried = "StepRetried"

abbrev pub step_failed : String
step_failed = "StepFailed"

abbrev pub model_called : String
model_called = "ModelCalled"

abbrev pub tool_invoked : String
tool_invoked = "ToolInvoked"

abbrev pub budget_exceeded : String
budget_exceeded = "BudgetExceeded"

abbrev pub cancel_requested : String
cancel_requested = "CancelRequested"

abbrev pub run_completed : String
run_completed = "RunCompleted"

abbrev pub run_failed : String
run_failed = "RunFailed"

abbrev pub run_cancelled : String
run_cancelled = "RunCancelled"

abbrev pub run_needs_review : String
run_needs_review = "RunNeedsReview"

abbrev token_namespace : Uuid
token_namespace = "6f1b7a4e-3c25-4a8f-9f6f-2f0d1c9b8a77"

-- A function of the run and the step alone, so each attempt hands out the same token.
unfoldable pub step_token : Host → Uuid → String → Uuid
step_token host run_id step_key = host.uuid5 token_namespace (run_id <> ":" <> step_key)

-- ===== src/Lib.antt =====
-- anchor: durable execution of agent workflows. A run is a row of a store with an append-only log of
-- events. A worker claims it from a queue by a lease, an engine makes one attempt at it, and in an
-- attempt each step of the workflow is written to the log, so that a later attempt replays the
-- finished steps in place of running them again.
--
-- The parts, the file of each and the source it follows:
-- - Model, Errors, EventType, Config: the records, exceptions, event names and settings
--   (src/anchor/models.py, errors.py, events.py, config.py), which are read from an environment. An
--   exception is a value of Errors.Exn.
-- - Value: what JSON columns and results hold. Base: shared lists, maps and decimal numerals.
-- - Budget: BudgetTracker (src/anchor/budget.py).
-- - Registry, Provider: tools and workflows by name, responses of a model (src/anchor/registry.py,
--   src/anchor/providers/base.py).
-- - Postgres: the store (src/anchor/store/postgres.py, with the keys and defaults of
--   schema/001_init.sql). The tables are lists of rows in Postgres.Tables, and each method is an
--   action on them: Postgres.Events (the log), Postgres.Runs (rows of runs, submission and
--   cancellation), Postgres.Queue (claim, heartbeat, release, dequeue), Postgres.Effects,
--   Postgres.Setup. In Postgres.History any sequence of their calls; in Postgres.Queue.Served the
--   polls of several workers.
-- - Dynamo: the other store (src/anchor/store/dynamo.py). The table and the queue of the services are
--   the parameter Dynamo.Service, with a law for a put; each method is a sequence of their calls, and
--   its reads, which the source does not ask to be consistent, are of the current items:
--   Dynamo.Attr (_enc, _dec), Dynamo.Keys, Dynamo.Events, Dynamo.RunItems, Dynamo.Runs, Dynamo.Queue,
--   Dynamo.Effects, Dynamo.Listing.
-- - Exec, Machine: how a coroutine ends (a value, an exception, the death of the process), and what
--   it acts on. Every call of the store takes one entry of a schedule, which may kill the process or
--   let others change the database first.
-- - Callable: _invoke. Context: RunContext (src/anchor/context.py), in Context.Replay (the state
--   rebuilt from the log), Context.Guards (the checks at a step boundary), Context.Steps (the life of
--   one step) and Context.Calls (step, call_tool, model and the keys of gather).
-- - Machine.Preserves, Context.Preserves: what the methods of RunContext do to any invariant of the
--   machine that their calls of the store preserve. Machine.Keeps, Context.Keeps, Engine.Keeps and
--   Worker.Keeps are about the side effects, and Context.Durable about the recorded results: there a
--   workflow of steps is a Program, and a resumed attempt at it is compared with the one before.
-- - Engine: execute (src/anchor/engine.py). Worker: run_once and the heartbeat task
--   (src/anchor/worker.py), and in Worker.Loop run_forever as a step relation.
--   Api: the handlers (src/anchor/api.py). Cli: submit, tail and demo (src/anchor/cli.py).
-- - Provider.Echo, Provider.Anthropic: the scripted provider and the one that asks the API
--   (src/anchor/providers/echo.py, anthropic.py); Provider.Choice: build_provider and build_store
--   (src/anchor/providers/__init__.py, src/anchor/store/__init__.py). Refund: the example agent
--   (src/anchor/examples/refund_agent.py), its tools in Refund.Tools, their
--   registration in Refund.Specs and the workflow in Refund.Agent.
-- - Tests: the model on concrete inputs.
--
-- Conventions. Times are microseconds and amounts of money micro-dollars, both natural numbers; the
-- wall clock is the database's. A body of a step, a verifier, a workflow and a provider are any
-- actions on the machine. uuid5, repr, the printing of floats and times, and tracebacks are
-- parameters (Errors.Host). The loop over the attempts of a step recurs on the number of rounds left,
-- which is the bound of the range in the source, so it needs no other fuel. The heartbeat task runs
-- until it is cancelled; its model takes the number of rounds until then.
-- A parameter that is to become jsonb is encoded before the statement is sent, so append_event,
-- set_status and record_side_effect raise for a payload, result or error that is not JSON and write
-- nothing; Value.opaque stands for such a value. Tuples, dicts with keys other than strings and
-- negative floats are not values of the model, so the JSON of a result decodes to that result. The
-- cost of a call of the model is rounded down to whole micro-dollars.
--
-- Not modelled: set-up and emptying of the Dynamo store, the start of the web application, the parsing
-- of the command line, the installation of signal handlers, the concurrent run of the branches of
-- gather, an exception of the heartbeat task that process meets when it awaits the task at the end,
-- the encoding of the input of a submission under a key that is known, and the scripts for chaos and
-- load tests. Logging and connection handling have no effect on the state here.
pub mod Base
pub mod Value
pub mod Model
pub mod Errors
pub mod EventType
pub mod Budget
pub mod Exec
pub mod Postgres
pub mod Config
pub mod Machine
pub mod Provider
pub mod Callable
pub mod Refund
pub mod Registry
pub mod Context
pub mod Engine
pub mod Worker
pub mod Api
pub mod Cli
pub mod Dynamo
pub mod Tests

-- ===== src/Tests/Cloud.antt =====
-- The DynamoDB store on a table in memory.
use anchor_runtime.Base.{ℕ, ◌*◌, true, false, none, some, [], ◌∷◌, ◌≡◌, refl, arith, lookup}
use anchor_runtime.Value.{
  Value, Dict, is_json_dict, int, float, str, obj, arr, nil, cons, end, field,
}
use anchor_runtime.Model.{Budget}
use anchor_runtime.Exec.{ok}
use anchor_runtime.Dynamo.Attr.{number, text, million, enc, dec}
use anchor_runtime.Dynamo.Attr.RoundTrip.{normal, IsSmall, read_back}
use anchor_runtime.Dynamo.Service.{Item}
use anchor_runtime.Dynamo.Events.{append_event}
use anchor_runtime.Dynamo.Events.Numbers.{HasCount, IsAppended, append_next}
use anchor_runtime.Dynamo.Runs.{submit_run}
use anchor_runtime.Dynamo.RunItems.{Client}
use anchor_runtime.Dynamo.Runs.Submit.{reserved_key_is_stuck}
use anchor_runtime.Dynamo.Listing.{list_runs}
use anchor_runtime.Tests.Fixtures.{no_limits}
use anchor_runtime.Tests.Memory.{Memory, memory, memory-IsLawful, empty}

abbrev exactly : ℕ → ℕ
exactly n = n

abbrev sample : Value
sample = obj (
    field "id" (int 3) (field "cost" (float 1500000) (field "tags" (arr (cons (str "a") nil)) end)))

read_back_example : dec exactly (enc sample) ≡ normal sample
unfolding IsSmall
read_back_example =
    read_back exactly (λ n h. refl) sample (omega arith, (omega arith, ((tt, tt), tt)))

abbrev limits : Budget
limits = record no_limits { max_tokens = some 100; max_wall_seconds = some 2000000 }

abbrev counter : Item
counter = ("seq", number (4 * million)) ∷ []

-- A run with four events, and a message for it.
abbrev started : Memory
started = record empty {
  rows = record { pk = "RUN#r1"; sk = "COUNTER"; item = counter } ∷ [];
  messages = ("r1", true) ∷ [];
}

counts : HasCount memory "r1" 4 started
unfolding lookup
counts = (counter, refl, refl)

abbrev noted : Dict
noted = field "text" (str "hello") end

append_next_example :
    ((append_event memory "r1" "Note" none noted started).0 ≡ ok 5)
    × IsAppended memory memory-IsLawful "r1" "Note" none noted 5 started
        (append_event memory "r1" "Note" none noted started).1
unfolding is_json_dict
append_next_example =
    append_next memory memory-IsLawful "r1" "Note" none noted 4 started refl counts

abbrev client : Client
client = record { nearest = exactly; parse_time = λ s. some 0 }

-- The process died after it had reserved the key.
abbrev reserved : Memory
reserved = record empty {
  rows = record { pk = "IDEM#k1"; sk = "KEY"; item = ("run_id", text "r1") ∷ [] } ∷ [];
}

reserved_key_is_stuck_example :
    submit_run memory client true "r2" "refund" end "k1" no_limits reserved
    ≡ (ok (none, false), reserved)
unfolding lookup
reserved_key_is_stuck_example =
    reserved_key_is_stuck memory client true "r2" "refund" end "k1" no_limits reserved
      (("run_id", text "r1") ∷ []) "r1" refl refl refl

-- A page of the scan that holds no item of a run: the run is not listed.
list_runs_short : list_runs memory client 1 none started ≡ (ok [], started)
unfolding list_runs
list_runs_short = refl

-- ===== src/Dynamo/Listing.antt =====
-- The methods of `DynamoDBStore` that look at all items. A scan stops after `Limit` items and filters
-- them afterwards; of a scan without a limit this is the first page.
use anchor_runtime.Base.{
  ℕ, ◌+◌, String, Bool, true, ◌&&◌, Option, none, some, List, [], ◌∷◌, keep, take, leb, lookup,
  or_else, ◌==◌, if◌then◌else◌,
}
use anchor_runtime.Model.{RunRecord}
use anchor_runtime.Errors.{other}
use anchor_runtime.Exec.{gets, pure, or_raise, ◌>>=◌}
use anchor_runtime.Dynamo.Service.{Item, Service, Aws}
use anchor_runtime.Dynamo.Events.{as_text}
use anchor_runtime.Dynamo.RunItems.{Client, from_item}

abbrev ItemAt : Type 0
ItemAt = (String × String) × Item

abbrev has_status : Option String → Item → Bool
has_status none item = true
has_status (some s) item =
    if s == "" then true else or_else (as_text (lookup "status" item)) "" == s

-- The filter `sk = :meta`, with the status if one is given.
abbrev is_run : Option String → ItemAt → Bool
is_run status f = f.0.1 == "META" && has_status status f.1

abbrev min : ℕ → ℕ → ℕ
min a b = if leb a b then a else b

abbrev parse_all : Client → List ItemAt → Option (List RunRecord)
parse_all client [] = some []
parse_all client (f ∷ found) = elim (from_item client f.1) [
  | none ↦ none
  | some run ↦ elim (parse_all client found) [ none ↦ none | some runs ↦ some (run ∷ runs) ]
]

abbrev insert_by_age : RunRecord → List RunRecord → List RunRecord
insert_by_age r [] = r ∷ []
insert_by_age r (s ∷ runs) =
    if leb s.created_at r.created_at then r ∷ s ∷ runs else s ∷ insert_by_age r runs

abbrev newest_first : List RunRecord → List RunRecord
newest_first [] = []
newest_first (r ∷ runs) = insert_by_age r (newest_first runs)

abbrev count_in : String → List (String × ℕ) → List (String × ℕ)
count_in s [] = (s, 1) ∷ []
count_in s ((t, n) ∷ counts) = if t == s then (t, n + 1) ∷ counts else (t, n) ∷ count_in s counts

abbrev add_counts : List ItemAt → List (String × ℕ) → List (String × ℕ)
add_counts [] counts = counts
add_counts (f ∷ found) counts =
    add_counts found (count_in (or_else (as_text (lookup "status" f.1)) "UNKNOWN") counts)

-- What `queue_depth` returns.
pub record Depth : Type 0 where
  pub claimable : ℕ
  pub leased : ℕ
  pub total : ℕ

module _ (S : Service) where
  unfoldable pub list_runs : Client → ℕ → Option String → Aws S (List RunRecord)
  list_runs client limit status = do
    found ← gets (λ s. keep (is_run status) (take (min limit 200) (S.scan s)))
    runs ← or_raise (parse_all client found) (other "KeyError" "an attribute of a run item")
    pure (take limit (newest_first runs))

  unfoldable pub status_counts : Aws S (List (String × ℕ))
  status_counts = gets (λ s. add_counts (keep (is_run none) (S.scan s)) [])

  -- The counts of messages, which the service only approximates.
  unfoldable pub queue_depth : Aws S Depth
  queue_depth = gets (λ s. record {
    claimable = (S.depth s).0;
    leased = (S.depth s).1;
    total = (S.depth s).0 + (S.depth s).1;
  })

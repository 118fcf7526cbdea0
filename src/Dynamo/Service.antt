-- ===== src/Dynamo/Service.antt =====
-- What the store assumes of the client library and of the two services behind it: items under a
-- partition key and a sort key, each call on one item atomic, and a queue whose messages become
-- invisible for a while when they are received.
use anchor_runtime.Base.{
  ℕ, String, Bool, true, false, ◌&&◌, Option, none, some, List, [], Assoc, ◌≡◌, ◌==◌, map, or_else,
  is_some, if◌then◌else◌,
}
use anchor_runtime.Dynamo.Attr.{Attr}
use anchor_runtime.Errors.{Exn, other}
use anchor_runtime.Exec.{ok, raised, Exec}

-- The attributes of an item beside its keys.
abbrev pub Item : Type 0
Item = Assoc Attr

-- `get` is the item that the table holds. The `get_item` and `query` calls of the source ask for no
-- consistent read and for one page, so they may show less: the methods that read in this way are
-- modelled with the current item and a first page.
--
-- `now` is the clock as `isoformat` prints it. `receive` gives the run and the receipt handle of one
-- visible message; the calls that take a handle return false where the client raises `ClientError`.
pub record Service : Type 1 where
  pub State : Type 0
  pub now : State → String
  pub get : State → String → String → Option Item
  pub put : String → String → Item → State → State
  pub delete : String → String → State → State
  pub query : State → String → String → List (String × Item)
  pub scan : State → List ((String × String) × Item)
  pub send : String → State → State
  pub receive : ℕ → State → Option (String × String) × State
  pub change_visibility : String → ℕ → State → Bool × State
  pub delete_message : String → State → Bool × State
  pub depth : State → ℕ × ℕ

abbrev pub sort_keys : List (String × Item) → List String
sort_keys found = map (λ f. f.0) found

-- What a put does to the item that the table holds. It is on this item that a conditional put and an
-- update act; nothing is assumed of what a query finds.
pub record IsLawful (S : Service) : Type 0 where
  pub get-put :
      (p k q j : String) (i : Item) (s : S.State)
      → S.get (S.put p k i s) q j ≡ (if p == q && k == j then some i else S.get s q j)

module _ (S : Service) where
  abbrev pub Aws : Type 0 → Type 0
  Aws A = Exec S.State A

  -- What the client library raises for a value of a type that it cannot send.
  abbrev pub unsupported_type : Exn
  unsupported_type = other "TypeError" "Unsupported type"

  -- A call whose parameters hold such a value is not sent.
  abbrev pub sent_if : {A : Type 0} → Bool → Aws A → Aws A
  sent_if b call s = if b then call s else (raised unsupported_type, s)

  abbrev pub client_error : String → Exn
  client_error code = other "ClientError" code

  -- `put_item` with `attribute_not_exists(pk)`: false where the condition fails.
  abbrev pub put_new : String → String → Item → Aws Bool
  put_new p k item s = if is_some (S.get s p k) then (ok false, s) else (ok true, S.put p k item s)

  abbrev pub stored : String → String → Option Item → Aws Item
  stored p k none s = (raised (client_error "ValidationException"), s)
  stored p k (some new) s = (ok new, S.put p k new s)

  -- `update_item`: an absent item counts as one without attributes, and is created. `change` is none
  -- where the expression reads an attribute that is absent.
  abbrev pub update_item : String → String → (Item → Option Item) → Aws Item
  update_item p k change s = stored p k (change (or_else (S.get s p k) [])) s

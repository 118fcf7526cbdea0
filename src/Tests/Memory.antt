-- ===== src/Tests/Memory.antt =====
-- A table and a queue in memory, which meet what the store assumes of the services.
use anchor_runtime.Base.{
  String, Bool, true, false, ◌&&◌, Option, none, some, List, [], ◌∷◌, ◌++◌, refl, map, ◌==◌,
  if◌then◌else◌, length,
}
use text.Mathlib.Text.{starts_with}
use anchor_runtime.Dynamo.Service.{Item, Service, IsLawful}

pub record Row : Type 0 where
  pub pk : String
  pub sk : String
  pub item : Item

-- A message is the identifier of its run, and whether it is visible; the handle is the identifier.
pub record Memory : Type 0 where
  pub clock : String
  pub rows : List Row
  pub messages : List (String × Bool)

abbrev is_at : String → String → Row → Bool
is_at p k r = r.pk == p && r.sk == k

abbrev get_row : List Row → String → String → Option Item
get_row [] p k = none
get_row (r ∷ rs) p k = if is_at p k r then some r.item else get_row rs p k

abbrev delete_row : String → String → List Row → List Row
delete_row p k [] = []
delete_row p k (r ∷ rs) = if is_at p k r then delete_row p k rs else r ∷ delete_row p k rs

abbrev query_rows : List Row → String → String → List (String × Item)
query_rows [] p prefix = []
query_rows (r ∷ rs) p prefix =
    if r.pk == p && starts_with r.sk prefix
    then (r.sk, r.item) ∷ query_rows rs p prefix
    else query_rows rs p prefix

abbrev receive_first : List (String × Bool) → Option (String × String) × List (String × Bool)
receive_first [] = (none, [])
receive_first ((m, true) ∷ ms) = (some (m, m), (m, false) ∷ ms)
receive_first ((m, false) ∷ ms) = let (r, rest) = receive_first ms in (r, (m, false) ∷ rest)

abbrev pub memory : Service
memory = record {
  State = Memory;
  now = λ s. s.clock;
  get = λ s p k. get_row s.rows p k;
  put = λ p k i s. record s { rows = record { pk = p; sk = k; item = i } ∷ s.rows };
  delete = λ p k s. record s { rows = delete_row p k s.rows };
  query = λ s p prefix. query_rows s.rows p prefix;
  scan = λ s. map (λ r. ((r.pk, r.sk), r.item)) s.rows;
  send = λ m s. record s { messages = s.messages ++ (m, true) ∷ [] };
  receive = λ t s. let (r, ms) = receive_first s.messages in (r, record s { messages = ms });
  change_visibility = λ h t s. (true, s);
  delete_message = λ h s. (true, s);
  depth = λ s. (length s.messages, 0);
}

abbrev pub empty : Memory
empty = record { clock = "2026-01-01"; rows = []; messages = [] }

pub memory-IsLawful : IsLawful memory
memory-IsLawful = record { get-put = λ p k q j i s. refl }

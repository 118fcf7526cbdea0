-- ===== src/Postgres/Effects.antt =====
-- The methods of `PostgresStore` on the table `side_effects`, the stand-in for a downstream system.
pub mod Once
use anchor_runtime.Base.{
  ℕ, String, Bool, true, false, ◌&&◌, Option, none, some, List, [], ◌∷◌, ◌++◌, length, ◌==◌, keep,
  if◌then◌else◌,
}
use anchor_runtime.Value.{is_json_dict, str, obj, Dict, end, field}
use anchor_runtime.Model.{Uuid, Time}
use anchor_runtime.Exec.{ok, raised, gets}
use anchor_runtime.Postgres.Tables.{EffectRow, Db, Sql, find?, not_serialisable}

unfoldable pub find_effect : Uuid → List EffectRow → Option EffectRow
unfolding find?
find_effect token = find? (λ e. e.token == token)

abbrev pub new_effect : Uuid → Uuid → String → Dict → Db → EffectRow
new_effect token run_id kind payload db = record {
  token = token;
  run_id = run_id;
  kind = kind;
  payload = payload;
  created_at = db.now;
}

-- INSERT … ON CONFLICT (token) DO NOTHING: true if this call created the effect.
unfoldable pub insert_effect : Uuid → Uuid → String → Dict → Sql Bool
insert_effect token run_id kind payload db = elim (find_effect token db.effects) [
  | some e ↦ (ok false, db)
  | none ↦
      (ok true, record db { effects = db.effects ++ new_effect token run_id kind payload db ∷ [] })
]

-- The client encodes the payload before it sends the statement.
unfoldable pub record_side_effect : Uuid → Uuid → String → Dict → Sql Bool
unfolding insert_effect is_json_dict
record_side_effect token run_id kind payload db =
    if is_json_dict payload
    then insert_effect token run_id kind payload db
    else (raised not_serialisable, db)

abbrev pub effect_dict : (Time → String) → EffectRow → Dict
effect_dict iso e = field "token" (str e.token) (
    field "run_id" (str e.run_id) (
      field "kind" (str e.kind)
        (field "payload" (obj e.payload) (field "created_at" (str (iso e.created_at)) end))))

abbrev describe : (Time → String) → Option EffectRow → Option Dict
describe iso none = none
describe iso (some e) = some (effect_dict iso e)

-- `iso` is `isoformat` of a time.
unfoldable pub find_side_effect : (Time → String) → Uuid → Sql (Option Dict)
find_side_effect iso token = gets (λ db. describe iso (find_effect token db.effects))

unfoldable pub count_side_effects : Uuid → String → Sql ℕ
count_side_effects run_id kind =
    gets (λ db. length (keep (λ e. e.run_id == run_id && e.kind == kind) db.effects))

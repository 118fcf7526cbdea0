-- ===== src/Postgres/Setup.antt =====
-- The methods of `PostgresStore` that set up and empty the tables.
use anchor_runtime.Base.{String, ◌<>◌, List, [], ◌∷◌}
use anchor_runtime.Errors.{other}
use anchor_runtime.Exec.{pure, raise, modify, ◌>>◌}
use anchor_runtime.Postgres.Tables.{Sql}

abbrev execute_all : List (Sql Unit) → Sql Unit
execute_all [] = pure tt
execute_all (script ∷ rest) = do script; execute_all rest

-- `migrate`: the scripts are the sorted files of the directory, which is given by its name.
unfoldable pub migrate : String → List (Sql Unit) → Sql Unit
migrate directory [] = raise (other "FileNotFoundError" ("no migrations found in " <> directory))
migrate directory (script ∷ rest) = execute_all (script ∷ rest)

-- `truncate_all`
unfoldable pub truncate_all : Sql Unit
truncate_all = modify (λ db. record db { effects = []; events = []; queue = []; runs = [] })

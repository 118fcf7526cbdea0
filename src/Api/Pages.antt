-- ===== src/Api/Pages.antt =====
-- The health and the metrics page of src/anchor/api.py.
use Prim.Native.String.{compare}
use text.Mathlib.Text.{is_le}
use anchor_runtime.Base.{ℕ, String, ◌<>◌, show, List, [], ◌∷◌, ◌++◌, map, if◌then◌else◌}
use anchor_runtime.Value.{int, str, obj, arr, Items, nil, cons, Dict, end, field}
use anchor_runtime.Errors.{Host, exn_str}
use anchor_runtime.Exec.{Reply, ok, raised, crashed, pure, ◌>>=◌}
use anchor_runtime.Registry.{Registry, workflow_names, tool_names}
use anchor_runtime.Postgres.Queue.{Depth, queue_depth}
use anchor_runtime.Postgres.Runs.{status_counts}
use anchor_runtime.Machine.{M, call, with_reply}
use anchor_runtime.Api.{Answer, answer, refused}

abbrev pub depth_dict : Depth → Dict
depth_dict d =
    field "claimable" (int d.claimable)
      (field "leased" (int d.leased) (field "total" (int d.total) end))

abbrev names_value : List String → Items
names_value [] = nil
names_value (n ∷ ns) = cons (str n) (names_value ns)

module _ (host : Host) (registry : Registry) where
  abbrev pub health_answer : Reply Depth → M Answer
  health_answer (ok depth) = pure (
      answer 200 (
        field "status" (str "ok") (
          field "queue" (obj (depth_dict depth)) (
            field "workflows" (arr (names_value (workflow_names registry)))
              (field "tools" (arr (names_value (tool_names registry))) end)))))
  health_answer (raised e) = pure (refused 503 ("database unavailable: " <> exn_str host e))
  health_answer crashed = λ m. (crashed, m)

  unfoldable pub healthz : M Answer
  healthz = with_reply (call queue_depth) health_answer

abbrev insert_pair : String × ℕ → List (String × ℕ) → List (String × ℕ)
insert_pair p [] = p ∷ []
insert_pair p (q ∷ qs) = if is_le (compare p.0 q.0) then p ∷ q ∷ qs else q ∷ insert_pair p qs

-- `sorted(counts.items())`, whose keys differ.
abbrev pub sorted_counts : List (String × ℕ) → List (String × ℕ)
sorted_counts [] = []
sorted_counts (p ∷ ps) = insert_pair p (sorted_counts ps)

abbrev gauge : String → String → String × ℕ → String
gauge name label (value, n) = name <> "{" <> label <> "=\"" <> value <> "\"} " <> show n

abbrev pub depth_counts : Depth → List (String × ℕ)
depth_counts d = ("claimable", d.claimable) ∷ ("leased", d.leased) ∷ ("total", d.total) ∷ []

-- Each line ends with a newline.
abbrev unlines : List String → String
unlines [] = ""
unlines (l ∷ ls) = l <> "\n" <> unlines ls

abbrev pub metrics_text : List (String × ℕ) → Depth → String
metrics_text counts depth = unlines (
    "# HELP anchor_runs_total Runs by terminal or current status."
      ∷ "# TYPE anchor_runs_total gauge"
      ∷ map (gauge "anchor_runs_total" "status") (sorted_counts counts)
    ++ "# HELP anchor_queue_depth Queued runs by lease state."
      ∷ "# TYPE anchor_queue_depth gauge"
      ∷ map (gauge "anchor_queue_depth" "state") (sorted_counts (depth_counts depth)))

unfoldable pub metrics : M String
metrics = do counts ← call status_counts; depth ← call queue_depth; pure (metrics_text counts depth)

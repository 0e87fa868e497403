-- ===== src/Tasks/Listing.antt =====
-- `build_tasks_json` of src/app/tasks.cpp: the list of the tasks as one text.
use droidcli.Common.{
  ℕ, suc, none, some, ◌∷◌, ◌++◌, ◌≡◌, refl, ◌∙◌, ap, Bytes, codes, comma_separated, map,
}
use droidcli.Json.Brackets.{depth, plain, depth-comma_separated, depth-render_object}
use droidcli.Tasks.{Task, Queue}
use droidcli.Tasks.Wire.{build_task_json, build_tasks_json}
use droidcli.Tasks.Printing.{task_fields, task_fields-IsField, build_task_json-render}

depth-task :
    (d : ℕ) (t : Task) (rest : Bytes)
    → depth plain d (build_task_json t ++ rest) ≡ depth plain d rest
depth-task d t rest =
    ap (λ s. depth plain d (s ++ rest)) (build_task_json-render t)
    ∙ depth-render_object d (task_fields t) rest (task_fields-IsField t)

depth-tasks :
    (d : ℕ) (q : Queue) (rest : Bytes)
    → depth plain (suc d) (comma_separated (map build_task_json q) ++ rest)
      ≡ depth plain (suc d) rest
depth-tasks d q rest = depth-comma_separated (suc d) build_task_json (depth-task (suc d)) q rest

opening :
    (q : Queue)
    → depth plain 0 (build_tasks_json q)
      ≡ depth plain 1 (comma_separated (map build_task_json q) ++ codes "]}")
unfolding build_tasks_json depth
opening q = refl

opening_behind_brace :
    (q : Queue)
    → depth plain 0 (b'{' ∷ build_tasks_json q)
      ≡ depth plain 2 (comma_separated (map build_task_json q) ++ codes "]}")
unfolding build_tasks_json depth
opening_behind_brace q = refl

closing : (depth plain 1 (codes "]}") ≡ none) × (depth plain 2 (codes "]}") ≡ some 0)
unfolding depth
closing = (refl, refl)

-- The list of the tasks is never a JSON text: it closes a brace that it has not opened, whatever the
-- tasks are. With an opening brace in front it would close what it opens.
pub build_tasks_json_unbalanced :
    (q : Queue)
    → (depth plain 0 (build_tasks_json q) ≡ none)
      × (depth plain 0 (b'{' ∷ build_tasks_json q) ≡ some 0)
build_tasks_json_unbalanced q = (
  opening q ∙ depth-tasks 0 q (codes "]}") ∙ closing.0,
  opening_behind_brace q ∙ depth-tasks 1 q (codes "]}") ∙ closing.1,
)

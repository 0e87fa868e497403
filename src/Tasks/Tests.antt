-- ===== src/Tasks/Tests.antt =====
-- The queue of src/app/tasks.cpp on small inputs, and the theorems at concrete queues.
use droidcli.Common.{
  ◌-◌, same_iff, true, false, not, none, some, [], ◌∷◌, ◌≡◌, ◌≢◌, ◌⊎◌, inl, refl, arith, codes,
  same, length, pos, ltb_ℤ, ◌+ℤ◌,
}
use droidcli.Json.{extract_json_string_field, extract_json_int_field, found}
use droidcli.Json.Object.{render_object}
use droidcli.Json.Brackets.{depth, plain}
use droidcli.Tasks.{
  Task, Queue, new_task, pending, running, done, failed, max_history_entries, is_finished, enqueue,
  claim_next, complete, fail, find, cancel, cancelled_at, trim_history, is_claimable, completed,
  failed_run, stored,
}
use droidcli.Tasks.Wire.{build_task_json, build_tasks_json, parse_task_request_from_json, accepted}
use droidcli.Tasks.History.{without_oldest, trim_history-without_oldest}
use droidcli.Tasks.Claims.{
  NoClaim, FirstClaim, claim_next-first, due_tasks, first_claimed, rest_of, claim_next-due_tasks,
}
use droidcli.Tasks.Recurrence.{rescheduled, recurring_reschedules, one_shot_ends}
use droidcli.Tasks.Cancel.{Cancelling, cancel_cases, cancelled_run_comes_back}
use droidcli.Tasks.Invariant.{IsValid, enqueues, claims, Reach, start, next, Reach-IsValid}
use droidcli.Tasks.Printing.{IsTask, read_build_task}
use droidcli.Tasks.Requests.{
  request_fields, requested, parse_task_request_lem, overflowing_delay_is_due,
}
use droidcli.Tasks.Listing.{build_tasks_json_unbalanced}

abbrev hourly : Task
hourly = record new_task {
  id = codes "task-1";
  command = codes "run";
  status = running;
  recurrence_ms = pos 3600000;
}

abbrev once : Task
once = record new_task { id = codes "task-2"; command = codes "launch"; status = pending }

abbrev two : Queue
two = hourly ∷ once ∷ []

claim_second :
    (claim_next (pos 10) two).1
    ≡ some (record once { status = running; updated_at_ms = pos 10; run_count = pos 1 })
unfolding claim_next
claim_second = refl

find_first : find (codes "task-1") two ≡ some hourly
unfolding find
find_first = refl

find_second : find (codes "task-2") two ≡ some once
unfolding find
find_second = refl

running_unfinished : is_finished hourly ≡ false
unfolding is_finished
running_unfinished = refl

pending_unfinished : is_finished once ≡ false
unfolding is_finished
pending_unfinished = refl

claim_next-due_tasks_example :
    ((claim_next (pos 10) two).1 ≡ first_claimed (pos 10) (due_tasks (pos 10) two))
    × (due_tasks (pos 10) (claim_next (pos 10) two).0 ≡ rest_of (due_tasks (pos 10) two))
claim_next-due_tasks_example = claim_next-due_tasks (pos 10) two

claim_next-first_example : NoClaim (pos 10) two ⊎ FirstClaim (pos 10) two
claim_next-first_example = claim_next-first (pos 10) two

trim_history_example : trim_history two ≡ without_oldest (length two - max_history_entries) two
trim_history_example = trim_history-without_oldest two

reached : Reach (new_task ∷ []) (claim_next (pos 6) (enqueue (pos 5) 1 new_task []).0).0
reached = next (next start (enqueues (pos 5) 1 new_task)) (claims (pos 6))

Reach-IsValid_example : IsValid (claim_next (pos 6) (enqueue (pos 5) 1 new_task []).0).0
Reach-IsValid_example = Reach-IsValid reached (inl refl, tt)

reschedules_example :
    (find (codes "task-1") (complete (pos 10) (codes "task-1") (codes "{}") two).0
      ≡ some (rescheduled (pos 10) (record hourly { result_json = codes "{}" })))
    × (find (codes "task-1") (fail (pos 10) (codes "task-1") (codes "{}") two).0
        ≡ some (rescheduled (pos 10) (record hourly { error_message = codes "{}" })))
    × (is_claimable (pos 20) (rescheduled (pos 10) hourly)
        ≡ not (ltb_ℤ (pos 20) (pos 10 +ℤ pos 3600000)))
reschedules_example =
    recurring_reschedules (pos 10) (pos 20) (codes "task-1") (codes "{}") two hourly find_first refl
      (unfold ◌+ℤ◌ in omega arith)

one_shot_example :
    (find (codes "task-2") (complete (pos 10) (codes "task-2") (codes "x") two).0
      ≡ some (record once { result_json = codes "x"; status = done; updated_at_ms = pos 10 }))
    × (find (codes "task-2") (fail (pos 10) (codes "task-2") (codes "x") two).0
        ≡ some (record once { error_message = codes "x"; status = failed; updated_at_ms = pos 10 }))
    × (is_claimable (pos 20) (completed (pos 10) (codes "x") once) ≡ false)
    × (is_claimable (pos 20) (failed_run (pos 10) (codes "x") once) ≡ false)
one_shot_example =
    one_shot_ends (pos 10) (pos 20) (codes "task-2") (codes "x") two once find_second refl
      (omega arith)

cancel_example : Cancelling (pos 10) (codes "task-1") two
cancel_example = cancel_cases (pos 10) (codes "task-1") two (omega arith)

comes_back_example :
    (find (codes "task-1") (cancel (pos 10) (codes "task-1") two).0
      ≡ some (cancelled_at (pos 10) hourly))
    × (find
          (codes "task-1")
          (complete
            (pos 20)
            (codes "task-1")
            (codes "{}")
            (cancel (pos 10) (codes "task-1") two).0).0
        ≡ some (rescheduled (pos 20) (record hourly { result_json = codes "{}" })))
    × (is_claimable (pos 3600020) (rescheduled (pos 20) hourly) ≡ true)
comes_back_example =
    cancelled_run_comes_back (pos 10) (pos 20) (pos 3600020) (codes "task-1") (codes "{}") two
      hourly find_first running_unfinished refl (omega arith) (unfold ◌+ℤ◌ in omega arith)
      (unfold ◌+ℤ◌ in refl)

other_id : codes "task-2" ≢ codes "task-1"
unfolding same
other_id = ground (arith, same_iff (codes "task-2") (codes "task-1"))

parse_example :
    parse_task_request_from_json (pos 1000) (
      render_object
        (request_fields [] (codes "run") (codes "{\"command\":\"ls\"}") (pos 500) (pos 0)))
    ≡ accepted
        (requested (pos 1000) [] (codes "run") (codes "{\"command\":\"ls\"}") (pos 500) (pos 0))
parse_example =
    parse_task_request_lem (pos 1000) [] (codes "run") (codes "{\"command\":\"ls\"}") (pos 500)
      (pos 0) (omega arith) (omega arith)

overflow_example :
    (t : Task) × ((parse_task_request_from_json
          (pos 1700000000000)
          (render_object (request_fields [] (codes "run") [] (pos 9223372036854775807) (pos 0)))
        ≡ accepted t)
      × (ltb_ℤ t.scheduled_for_ms (pos 0) ≡ true)
      × (is_claimable (pos 1700000000001) (stored (pos 1700000000000) 1 t) ≡ true))
overflow_example =
    overflowing_delay_is_due 1700000000000 9223372036854775807 1700000000001 [] (codes "run") []
      (pos 0) (pos 1700000000000) 1 refl (omega arith) (omega arith) (omega arith) (omega arith)
      (omega arith)

hourly-IsTask : IsTask hourly
hourly-IsTask = omega arith

read_status_example :
    (extract_json_string_field (build_task_json hourly) (codes "id") 0 ≡ codes "task-1")
    × (extract_json_string_field (build_task_json hourly) (codes "connector_id") 0 ≡ [])
    × (extract_json_string_field (build_task_json hourly) (codes "command") 0 ≡ codes "run")
    × (extract_json_string_field (build_task_json hourly) (codes "payload_json") 0 ≡ [])
    × (extract_json_string_field (build_task_json hourly) (codes "status") 0 ≡ running)
    × (extract_json_int_field (build_task_json hourly) (codes "created_at_ms") 0 ≡ found (pos 0))
    × (extract_json_int_field (build_task_json hourly) (codes "updated_at_ms") 0 ≡ found (pos 0))
    × (extract_json_int_field (build_task_json hourly) (codes "scheduled_for_ms") 0 ≡ found (pos 0))
    × (extract_json_int_field (build_task_json hourly) (codes "recurrence_ms") 0
        ≡ found (pos 3600000))
    × (extract_json_int_field (build_task_json hourly) (codes "run_count") 0 ≡ found (pos 0))
    × (extract_json_string_field (build_task_json hourly) (codes "error_message") 0 ≡ [])
    × (extract_json_string_field (build_task_json hourly) (codes "result_json") 0 ≡ [])
read_status_example = read_build_task hourly hourly-IsTask

unbalanced_example :
    (depth plain 0 (build_tasks_json two) ≡ none)
    × (depth plain 0 (b'{' ∷ build_tasks_json two) ≡ some 0)
unbalanced_example = build_tasks_json_unbalanced two

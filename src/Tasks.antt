-- ===== src/Tasks.antt =====
-- src/app/tasks.hpp and src/app/tasks.cpp: the task queue. An operation takes the wall clock that it
-- reads and returns the new queue with its result.
pub mod Wire
pub mod Invariant
pub mod Lookup
pub mod Claims
pub mod Recurrence
pub mod Cancel
pub mod Every
pub mod Others
pub mod Listing
mod Tests
pub mod History
pub mod Requests
pub mod Printing
use mathlib.Core.Option
use droidcli.Common.{
  ℕ, zero, suc, ◌+◌, Bool, true, false, not, ◌&&◌, ◌||◌, Option, none, some, List, [], ◌∷◌, ◌++◌,
  Bytes, codes, same, is_empty, length, ltb, if◌then◌else◌, ℤ, pos, ◌+ℤ◌, ltb_ℤ, add64, map,
}
use droidcli.Json.Decimal.{print_int, decimal}

pub record Task : Type 0 where
  pub id : Bytes
  pub connector_id : Bytes
  pub command : Bytes
  pub payload_json : Bytes
  pub status : Bytes
  pub created_at_ms : ℤ
  pub updated_at_ms : ℤ
  pub scheduled_for_ms : ℤ
  pub recurrence_ms : ℤ
  pub run_count : ℤ
  pub error_message : Bytes
  pub result_json : Bytes

abbrev pub pending : Bytes
pending = codes "pending"

abbrev pub running : Bytes
running = codes "running"

abbrev pub done : Bytes
done = codes "done"

abbrev pub failed : Bytes
failed = codes "failed"

abbrev pub cancelled : Bytes
cancelled = codes "cancelled"

-- `Task {}`
abbrev pub new_task : Task
new_task = record {
  id = [];
  connector_id = [];
  command = [];
  payload_json = [];
  status = [];
  created_at_ms = pos 0;
  updated_at_ms = pos 0;
  scheduled_for_ms = pos 0;
  recurrence_ms = pos 0;
  run_count = pos 0;
  error_message = [];
  result_json = [];
}

abbrev pub Queue : Type 0
Queue = List Task

abbrev pub max_history_entries : ℕ
max_history_entries = 256

-- The test of `trim_history` and of `cancel`.
unfoldable pub is_finished : Task → Bool
unfolding same
is_finished t = same t.status done || same t.status failed || same t.status cancelled

-- The inner loop of `trim_history`: erase the first finished task, if there is one.
unfoldable pub erase_first : Queue → Option Queue
unfolding is_finished
erase_first [] = none
erase_first (t ∷ q) = if is_finished t then some q else Option.map (λ r. t ∷ r) (erase_first q)

-- The outer loop, on fuel: each round erases a task.
unfoldable pub trim : ℕ → Queue → Queue
unfolding erase_first
trim zero q = q
trim (suc f) q = elim (ltb max_history_entries (length q)) [
  | false ↦ q
  | true ↦ elim (erase_first q) [ none ↦ q | some r ↦ trim f r ]
]

unfoldable pub trim_history : Queue → Queue
unfolding trim
trim_history q = trim (length q) q

-- `task-<ms>-<sequence>`, with the counter of `generate_task_id`
unfoldable pub generate_task_id : ℤ → ℕ → Bytes
unfolding print_int
generate_task_id now sequence = codes "task-" ++ (print_int now ++ (codes "-" ++ decimal sequence))

-- The task that `enqueue` stores. `sequence` is the value that the counter would take next.
unfoldable pub stored : ℤ → ℕ → Task → Task
unfolding generate_task_id
stored now sequence t = record t {
  id = if is_empty t.id then generate_task_id now sequence else t.id;
  status = if is_empty t.status then pending else t.status;
  created_at_ms = now;
  updated_at_ms = now;
}

unfoldable pub enqueue : ℤ → ℕ → Task → Queue → Queue × Bytes
unfolding stored trim_history
enqueue now sequence t q = let s = stored now sequence t in (trim_history (q ++ (s ∷ [])), s.id)

-- `claim_next` takes a pending task whose deadline has passed.
unfoldable pub is_claimable : ℤ → Task → Bool
unfolding same
is_claimable now t = same t.status pending && not (ltb_ℤ now t.scheduled_for_ms)

unfoldable pub claimed : ℤ → Task → Task
unfolding add64
claimed now t = record t {
  status = running;
  updated_at_ms = now;
  run_count = add64 t.run_count (pos 1);
}

unfoldable pub claim_next : ℤ → Queue → Queue × Option Task
unfolding is_claimable claimed
claim_next now [] = ([], none)
claim_next now (t ∷ q) =
    let (rest, result) = claim_next now q in
    if is_claimable now t then (claimed now t ∷ q, some (claimed now t)) else (t ∷ rest, result)

-- Change the first task with that id; `none` where there is none.
unfoldable pub update_first : (Task → Task) → Bytes → Queue → Option Queue
unfolding same
update_first f task_id [] = none
update_first f task_id (t ∷ q) =
    if same t.id task_id then some (f t ∷ q) else Option.map (λ r. t ∷ r) (update_first f task_id q)

-- The end of a run: back to pending if the task recurs, else the terminal status.
unfoldable pub after_run : ℤ → Bytes → Task → Task
unfolding add64
after_run now terminal t =
    if ltb_ℤ (pos 0) t.recurrence_ms
    then record t {
      status = pending;
      updated_at_ms = now;
      scheduled_for_ms = add64 now t.recurrence_ms;
    }
    else record t { status = terminal; updated_at_ms = now }

unfoldable pub completed : ℤ → Bytes → Task → Task
unfolding after_run
completed now result_json t = after_run now done (record t { result_json = result_json })

unfoldable pub failed_run : ℤ → Bytes → Task → Task
unfolding after_run
failed_run now error t = after_run now failed (record t { error_message = error })

abbrev pub trimmed : Queue → Option Queue → Queue × Bool
trimmed q none = (q, false)
trimmed q (some r) = (trim_history r, true)

unfoldable pub complete : ℤ → Bytes → Bytes → Queue → Queue × Bool
unfolding update_first completed trim_history
complete now task_id result_json q = trimmed q (update_first (completed now result_json) task_id q)

unfoldable pub fail : ℤ → Bytes → Bytes → Queue → Queue × Bool
unfolding update_first failed_run trim_history
fail now task_id error q = trimmed q (update_first (failed_run now error) task_id q)

unfoldable pub find : Bytes → Queue → Option Task
unfolding same
find task_id [] = none
find task_id (t ∷ q) = if same t.id task_id then some t else find task_id q

unfoldable pub cancelled_at : ℤ → Task → Task
cancelled_at now t = record t { status = cancelled; updated_at_ms = now }

-- The loop of `cancel` stops at the first task with that id.
abbrev pub cancel_found : ℤ → Bytes → Queue → Option Task → Queue × Bool
cancel_found now task_id q none = (q, false)
cancel_found now task_id q (some t) =
    if is_finished t then (q, false) else trimmed q (update_first (cancelled_at now) task_id q)

unfoldable pub cancel : ℤ → Bytes → Queue → Queue × Bool
unfolding find update_first cancelled_at is_finished trim_history
cancel now task_id q = cancel_found now task_id q (find task_id q)

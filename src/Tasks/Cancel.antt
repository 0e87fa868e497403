-- ===== src/Tasks/Cancel.antt =====
-- `cancel` of src/app/tasks.cpp, and a run that ends after its task was cancelled.
use droidcli.Common.{
  ◌≤◌, true, false, not, none, some, ◌≡◌, inl, inr, refl, ◌∙◌, ap, Bytes, length, if◌then◌else◌,
  Bool-cases, Option-cases, ℤ, ltb_ℤ, ◌+ℤ◌, InInt64,
}
use droidcli.Tasks.{
  Task, Queue, max_history_entries, is_finished, is_claimable, update_first, trimmed, complete,
  find, cancelled_at, cancel_found, cancel,
}
use droidcli.Tasks.Recurrence.{Recurs, rescheduled, find-trimmed_under, recurring_reschedules}

-- How `cancel` can end.
pub data Cancelling (now : ℤ) (id : Bytes) (q : Queue) : Type 0 where
  unknown : find id q ≡ none → cancel now id q ≡ (q, false) → Cancelling now id q
  too_late :
      (t : Task)
      → find id q ≡ some t
      → is_finished t ≡ true
      → cancel now id q ≡ (q, false)
      → Cancelling now id q
  stopped :
      (t : Task)
      → find id q ≡ some t
      → is_finished t ≡ false
      → (cancel now id q).1 ≡ true
      → find id (cancel now id q).0 ≡ some (cancelled_at now t)
      → length (cancel now id q).0 ≡ length q
      → Cancelling now id q

cancel_unknown :
    (now : ℤ) (id : Bytes) (q : Queue) → find id q ≡ none → cancel now id q ≡ (q, false)
unfolding cancel
cancel_unknown now id q e = ap (cancel_found now id q) e

cancel_finished :
    (now : ℤ) (id : Bytes) (q : Queue) (t : Task)
    → find id q ≡ some t
    → is_finished t ≡ true
    → cancel now id q ≡ (q, false)
unfolding cancel
cancel_finished now id q t e f =
    ap (cancel_found now id q) e
    ∙ ap (λ b. if b then (q, false) else trimmed q (update_first (cancelled_at now) id q)) f

cancel_unfinished :
    (now : ℤ) (id : Bytes) (q : Queue) (t : Task)
    → find id q ≡ some t
    → is_finished t ≡ false
    → cancel now id q ≡ trimmed q (update_first (cancelled_at now) id q)
unfolding cancel
cancel_unfinished now id q t e f =
    ap (cancel_found now id q) e
    ∙ ap (λ b. if b then (q, false) else trimmed q (update_first (cancelled_at now) id q)) f

pub id-cancelled_at : (now : ℤ) (t : Task) → (cancelled_at now t).id ≡ t.id
unfolding cancelled_at
id-cancelled_at now t = refl

-- What `cancel` does on a queue that is not over its limit, on every branch: it refuses an unknown id
-- and a finished task, and leaves the queue as it is; any other task is cancelled, and is found so.
pub cancel_cases :
    (now : ℤ) (id : Bytes) (q : Queue) → length q ≤ max_history_entries → Cancelling now id q
cancel_cases now id q room = elim (Option-cases (find id q)) [
  | inl e ↦ unknown e (cancel_unknown now id q e)
  | inr (t, e) ↦ elim (Bool-cases (is_finished t)) [
    | inl f ↦ too_late t e f (cancel_finished now id q t e f)
    | inr f ↦
        let c = cancel_unfinished now id q t e f in
        let w = find-trimmed_under (cancelled_at now) id t q (id-cancelled_at now) e room in
        stopped t e f (ap (λ r. r.1) c ∙ w.0) (ap (λ r. find id r.0) c ∙ w.1)
          (ap (λ r. length r.0) c ∙ w.2)
  ]
]

-- A recurring task that is cancelled before its run has ended comes back: `cancel` marks it, and when
-- the run ends `complete` makes it pending again, to be claimed one interval later. (The queue is
-- not over its limit, and the deadline is an `int64_t`.)
pub cancelled_run_comes_back :
    (cancel_time now later : ℤ) (id text : Bytes) (q : Queue) (t : Task)
    → find id q ≡ some t
    → is_finished t ≡ false
    → Recurs t
    → length q ≤ max_history_entries
    → InInt64 (now +ℤ t.recurrence_ms)
    → ltb_ℤ later (now +ℤ t.recurrence_ms) ≡ false
    → (find id (cancel cancel_time id q).0 ≡ some (cancelled_at cancel_time t))
      × (find id (complete now id text (cancel cancel_time id q).0).0
          ≡ some (rescheduled now (record t { result_json = text })))
      × (is_claimable later (rescheduled now t) ≡ true)
unfolding cancelled_at
cancelled_run_comes_back cancel_time now later id text q t e f h room fits due =
    let c = cancel_unfinished cancel_time id q t e f in
    let w =
      find-trimmed_under (cancelled_at cancel_time) id t q (id-cancelled_at cancel_time) e room in
    let found = ap (λ r. find id r.0) c ∙ w.1 in
    let again =
      recurring_reschedules now later id text _ (cancelled_at cancel_time t) found h fits in
    (found, again.0, again.2 ∙ ap not due)

-- ===== src/Tasks/Recurrence.antt =====
-- `complete`, `fail` and `cancel` of src/app/tasks.cpp: the end of a run, recurring or not, and what
-- becomes of a task that is cancelled while it runs.
use droidcli.Common.{
  ◌≤◌, true, false, not, some, ◌≡◌, refl, ◌∙◌, ap, arith, Bytes, same, length, ℤ, pos, ltb_ℤ, ◌+ℤ◌,
  InInt64, add64, wrap64_lem,
}
use droidcli.Tasks.{
  Task, Queue, pending, done, failed, max_history_entries, is_finished, is_claimable, update_first,
  after_run, completed, failed_run, trimmed, complete, fail, find,
}
use droidcli.Tasks.Lookup.{update_first_some, find-trim_history, trim_history_under}

abbrev pub Recurs : Task → Type 0
Recurs t = ltb_ℤ (pos 0) t.recurrence_ms ≡ true

-- A recurring task after a run that ended at `now`.
abbrev pub rescheduled : ℤ → Task → Task
rescheduled now t = record t {
  status = pending;
  updated_at_ms = now;
  scheduled_for_ms = add64 now t.recurrence_ms;
}

completed_recurring :
    (now : ℤ) (result : Bytes) (t : Task)
    → Recurs t
    → completed now result t ≡ rescheduled now (record t { result_json = result })
unfolding completed after_run
completed_recurring now result t h = rw h

failed_recurring :
    (now : ℤ) (error : Bytes) (t : Task)
    → Recurs t
    → failed_run now error t ≡ rescheduled now (record t { error_message = error })
unfolding failed_run after_run
failed_recurring now error t h = rw h

pub id-completed : (now : ℤ) (result : Bytes) (t : Task) → (completed now result t).id ≡ t.id
unfolding completed after_run
id-completed now result t = ground arith

pub id-failed_run : (now : ℤ) (error : Bytes) (t : Task) → (failed_run now error t).id ≡ t.id
unfolding failed_run after_run
id-failed_run now error t = ground arith

rescheduled-unfinished : (now : ℤ) (t : Task) → is_finished (rescheduled now t) ≡ false
unfolding is_finished
rescheduled-unfinished now t = refl

-- A changed task that is not finished is found after the trimming too.
find-trimmed :
    (f : Task → Task) (id : Bytes) (t : Task) (q : Queue)
    → ((s : Task) → (f s).id ≡ s.id)
    → find id q ≡ some t
    → is_finished (f t) ≡ false
    → ((trimmed q (update_first f id q)).1 ≡ true)
      × (find id (trimmed q (update_first f id q)).0 ≡ some (f t))
find-trimmed f id t q keeps e u =
    let (r, w) = update_first_some f id t q keeps e in
    rw w.result (refl, find-trim_history id (f t) r u w.there)

find-complete :
    (now : ℤ) (id text : Bytes) (q : Queue) (t : Task)
    → find id q ≡ some t
    → is_finished (completed now text t) ≡ false
    → ((complete now id text q).1 ≡ true)
      × (find id (complete now id text q).0 ≡ some (completed now text t))
unfolding complete
find-complete now id text q t e u =
    find-trimmed (completed now text) id t q (id-completed now text) e u

find-fail :
    (now : ℤ) (id text : Bytes) (q : Queue) (t : Task)
    → find id q ≡ some t
    → is_finished (failed_run now text t) ≡ false
    → ((fail now id text q).1 ≡ true)
      × (find id (fail now id text q).0 ≡ some (failed_run now text t))
unfolding fail
find-fail now id text q t e u =
    find-trimmed (failed_run now text) id t q (id-failed_run now text) e u

pub due_again :
    (now later : ℤ) (t : Task)
    → InInt64 (now +ℤ t.recurrence_ms)
    → is_claimable later (rescheduled now t) ≡ not (ltb_ℤ later (now +ℤ t.recurrence_ms))
unfolding is_claimable add64
due_again now later t h = ap (λ d. not (ltb_ℤ later d)) (wrap64_lem _ h)

-- Where nothing is trimmed, the changed task is found whatever its status.
pub find-trimmed_under :
    (f : Task → Task) (id : Bytes) (t : Task) (q : Queue)
    → ((s : Task) → (f s).id ≡ s.id)
    → find id q ≡ some t
    → length q ≤ max_history_entries
    → ((trimmed q (update_first f id q)).1 ≡ true)
      × (find id (trimmed q (update_first f id q)).0 ≡ some (f t))
      × (length (trimmed q (update_first f id q)).0 ≡ length q)
find-trimmed_under f id t q keeps e room =
    let (r, w) = update_first_some f id t q keeps e in
    let same_queue = trim_history_under r (omega (arith, w.size)) in
    rw (w.result, same_queue) (refl, w.there, w.size)

completed_once :
    (now : ℤ) (text : Bytes) (t : Task)
    → ltb_ℤ (pos 0) t.recurrence_ms ≡ false
    → completed now text t ≡ record t { result_json = text; status = done; updated_at_ms = now }
unfolding completed after_run
completed_once now text t h = rw h

failed_once :
    (now : ℤ) (text : Bytes) (t : Task)
    → ltb_ℤ (pos 0) t.recurrence_ms ≡ false
    → failed_run now text t
      ≡ record t { error_message = text; status = failed; updated_at_ms = now }
unfolding failed_run after_run
failed_once now text t h = rw h

pub not_pending :
    (later : ℤ) (t : Task) → same t.status pending ≡ false → is_claimable later t ≡ false
unfolding is_claimable
not_pending later t e = rw e

-- The end of a run of a recurring task, successful or not: the task is pending again, with the
-- result or the error recorded, and one interval after the end of the run it can be claimed again,
-- but not before, where the deadline is an `int64_t`.
pub recurring_reschedules :
    (now later : ℤ) (id text : Bytes) (q : Queue) (t : Task)
    → find id q ≡ some t
    → Recurs t
    → InInt64 (now +ℤ t.recurrence_ms)
    → (find id (complete now id text q).0
        ≡ some (rescheduled now (record t { result_json = text })))
      × (find id (fail now id text q).0
          ≡ some (rescheduled now (record t { error_message = text })))
      × (is_claimable later (rescheduled now t) ≡ not (ltb_ℤ later (now +ℤ t.recurrence_ms)))
recurring_reschedules now later id text q t e h fits =
    let c = completed_recurring now text t h in
    let f = failed_recurring now text t h in
    (
      (find-complete now id text q t e
            (rw c (rescheduled-unfinished now (record t { result_json = text })))).1
          ∙ ap some c,
      (find-fail now id text q t e
            (rw f (rescheduled-unfinished now (record t { error_message = text })))).1
          ∙ ap some f,
      due_again now later t fits,
    )

pub find-complete_under :
    (now : ℤ) (id text : Bytes) (q : Queue) (t : Task)
    → find id q ≡ some t
    → length q ≤ max_history_entries
    → find id (complete now id text q).0 ≡ some (completed now text t)
unfolding complete
find-complete_under now id text q t e room =
    (find-trimmed_under (completed now text) id t q (id-completed now text) e room).1

find-fail_under :
    (now : ℤ) (id text : Bytes) (q : Queue) (t : Task)
    → find id q ≡ some t
    → length q ≤ max_history_entries
    → find id (fail now id text q).0 ≡ some (failed_run now text t)
unfolding fail
find-fail_under now id text q t e room =
    (find-trimmed_under (failed_run now text) id t q (id-failed_run now text) e room).1

-- A one-shot task ends: where the queue is not over its limit, it is found done or failed, with the
-- result or the error, and it can never be claimed again.
pub one_shot_ends :
    (now later : ℤ) (id text : Bytes) (q : Queue) (t : Task)
    → find id q ≡ some t
    → ltb_ℤ (pos 0) t.recurrence_ms ≡ false
    → length q ≤ max_history_entries
    → (find id (complete now id text q).0
        ≡ some (record t { result_json = text; status = done; updated_at_ms = now }))
      × (find id (fail now id text q).0
          ≡ some (record t { error_message = text; status = failed; updated_at_ms = now }))
      × (is_claimable later (completed now text t) ≡ false)
      × (is_claimable later (failed_run now text t) ≡ false)
one_shot_ends now later id text q t e h room =
    let c = completed_once now text t h in
    let f = failed_once now text t h in
    (
      find-complete_under now id text q t e room ∙ ap some c,
      find-fail_under now id text q t e room ∙ ap some f,
      rw c (
          not_pending later (record t { result_json = text; status = done; updated_at_ms = now })
            (unfold same in refl)),
      rw f (
          not_pending later
            (record t { error_message = text; status = failed; updated_at_ms = now })
            (unfold same in refl)),
    )

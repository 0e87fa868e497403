-- ===== src/Tasks/Others.antt =====
-- The operations on one task leave the others alone.
use droidcli.Common.{
  false, Option, none, some, ◌≡◌, ◌≢◌, inl, inr, ◌∙◌, Bytes, Bool-cases, Option-cases, ℤ,
}
use droidcli.Tasks.{
  Task, Queue, is_finished, update_first, completed, failed_run, trimmed, complete, fail, find,
  cancelled_at, cancel_found, cancel,
}
use droidcli.Tasks.Lookup.{update_first_some, update_first-none, find-trim_history}
use droidcli.Tasks.Recurrence.{id-completed, id-failed_run}
use droidcli.Tasks.Cancel.{id-cancelled_at}

module _ (id j : Bytes) (q : Queue) (t : Task) (other : j ≢ id) (e : find j q ≡ some t)
    (u : is_finished t ≡ false) where
  trimmed_keeps :
      (f : Task → Task)
      → ((s : Task) → (f s).id ≡ s.id)
      → find j (trimmed q (update_first f id q)).0 ≡ some t
  trimmed_keeps f keeps = elim (Option-cases (find id q)) [
    | inl none_there ↦ rw (update_first-none f id q none_there) e
    | inr (s, found) ↦
        let (r, w) = update_first_some f id s q keeps found in
        rw w.result (find-trim_history j t r u (w.others j other ∙ e))
  ]

  cancel_found_keeps : (now : ℤ) (o : Option Task) → find j (cancel_found now id q o).0 ≡ some t
  cancel_found_keeps now none = e
  cancel_found_keeps now (some s) = elim (Bool-cases (is_finished s)) [
    | inl f ↦ rw f e
    | inr f ↦ rw f (trimmed_keeps (cancelled_at now) (id-cancelled_at now))
  ]

-- A task that is not finished is found as it was after `complete`, `fail` and `cancel` of any other id.
pub others_kept :
    (now : ℤ) (id j text : Bytes) (q : Queue) (t : Task)
    → j ≢ id
    → find j q ≡ some t
    → is_finished t ≡ false
    → (find j (complete now id text q).0 ≡ some t)
      × (find j (fail now id text q).0 ≡ some t)
      × (find j (cancel now id q).0 ≡ some t)
others_kept now id j text q t other e u = (
  unfold complete in trimmed_keeps id j q t other e u (completed now text) (id-completed now text),
  unfold fail in trimmed_keeps id j q t other e u (failed_run now text) (id-failed_run now text),
  unfold cancel in cancel_found_keeps id j q t other e u now (find id q),
)

-- ===== src/Tasks/Invariant.antt =====
-- The task queue under every sequence of its operations.
use droidcli.Common.{
  ℕ, Bool, true, false, ◌||◌, Option, none, some, List, [], ◌∷◌, ◌++◌, ◌≡◌, ◌⊎◌, inl, inr, refl,
  arith, Bytes, same, is_empty, All, All-append, if◌then◌else◌, Bool-cases, ℤ,
}
use droidcli.Tasks.{
  Task, Queue, pending, running, done, failed, cancelled, is_finished, stored, enqueue, claimed,
  claim_next, update_first, completed, failed_run, trimmed, after_run, complete, fail, find,
  cancelled_at, cancel_found, cancel,
}
use droidcli.Tasks.History.{IsTrimmed, trim_history_keeps}
use droidcli.Tasks.Claims.{length-claim_next}
use droidcli.Tasks.Every.{trim_history-All, trimmed-All, claim_next-All}

-- The statuses that src/app/tasks.hpp names.
unfoldable pub known_status : Bytes → Bool
unfolding same
known_status s =
    same s pending || same s running || same s done || same s failed || same s cancelled

abbrev pub Known : Task → Type 0
Known t = known_status t.status ≡ true

-- `enqueue` takes the status of its task as it is, unless that is empty.
abbrev pub IsOffered : Task → Type 0
IsOffered t = (t.status ≡ []) ⊎ Known t

-- An operation of the queue, at a time that the clock shows, with the tasks that it is given: `enqueue`
-- takes any task whatever.
pub data Step : List Task → Queue → Queue → Type 0 where
  enqueues :
      {q : Queue} (now : ℤ) (sequence : ℕ) (t : Task) → Step (t ∷ []) q (enqueue now sequence t q).0
  claims : {q : Queue} (now : ℤ) → Step [] q (claim_next now q).0
  completes : {q : Queue} (now : ℤ) (id result : Bytes) → Step [] q (complete now id result q).0
  fails : {q : Queue} (now : ℤ) (id error : Bytes) → Step [] q (fail now id error q).0
  cancels : {q : Queue} (now : ℤ) (id : Bytes) → Step [] q (cancel now id q).0

-- Any number of operations, from an empty queue, with all the tasks that were enqueued.
pub data Reach : List Task → Queue → Type 0 where
  start : Reach [] []
  next :
      {given offered : List Task} {q r : Queue}
      → Reach given q
      → Step offered q r
      → Reach (offered ++ given) r

-- The statuses are known ones, and the history is within its limit unless only tasks that are not
-- finished are left.
pub record IsValid (q : Queue) : Type 0 where
  pub known : All Known q
  pub room : IsTrimmed q

trimmed-IsTrimmed : (q : Queue) (o : Option Queue) → IsTrimmed q → IsTrimmed (trimmed q o).0
trimmed-IsTrimmed q none h = h
trimmed-IsTrimmed q (some r) h = (trim_history_keeps r).1

claim_next-IsTrimmed : (now : ℤ) (q : Queue) → IsTrimmed q → IsTrimmed (claim_next now q).0
claim_next-IsTrimmed now q (inl h) = inl (omega (arith, h, length-claim_next now q))
claim_next-IsTrimmed now q (inr h) = inr (
    claim_next-All (λ t. is_finished t ≡ false) now (λ t _. unfold is_finished claimed in refl) q h)

claimed-Known : (now : ℤ) (t : Task) → Known t → Known (claimed now t)
unfolding claimed known_status
claimed-Known now t h = refl

completed-Known : (now : ℤ) (result : Bytes) (t : Task) → Known t → Known (completed now result t)
unfolding completed after_run known_status
completed-Known now result t h = ground arith

failed_run-Known : (now : ℤ) (error : Bytes) (t : Task) → Known t → Known (failed_run now error t)
unfolding failed_run after_run known_status
failed_run-Known now error t h = ground arith

cancelled_at-Known : (now : ℤ) (t : Task) → Known t → Known (cancelled_at now t)
unfolding cancelled_at known_status
cancelled_at-Known now t h = refl

status_stored-Known :
    (s : Bytes)
    → (s ≡ []) ⊎ (known_status s ≡ true)
    → known_status (if is_empty s then pending else s) ≡ true
status_stored-Known [] h = unfold known_status in refl
status_stored-Known (c ∷ s) (inl h) = cc
status_stored-Known (c ∷ s) (inr h) = h

stored-Known : (now : ℤ) (n : ℕ) (t : Task) → IsOffered t → Known (stored now n t)
unfolding stored
stored-Known now n t h = status_stored-Known t.status h

cancel_found-IsValid :
    (now : ℤ) (id : Bytes) (q : Queue) (o : Option Task)
    → IsValid q
    → IsValid (cancel_found now id q o).0
cancel_found-IsValid now id q none h = h
cancel_found-IsValid now id q (some t) h = elim (Bool-cases (is_finished t)) [
  | inl e ↦ rw e h
  | inr e ↦ rw e (record {
    known = trimmed-All Known (cancelled_at now) (cancelled_at-Known now) id q h.known;
    room = trimmed-IsTrimmed q (update_first (cancelled_at now) id q) h.room;
  })
]

All-parts : (P : Task → Type 0) (s t : List Task) → All P (s ++ t) → All P s × All P t
All-parts P [] t h = (tt, h)
All-parts P (x ∷ s) t (h, hs) = let p = All-parts P s t hs in ((h, p.0), p.1)

-- Every operation keeps the queue valid.
Step-IsValid :
    {offered : List Task} {q r : Queue}
    → Step offered q r
    → All IsOffered offered
    → IsValid q
    → IsValid r
Step-IsValid (enqueues {q = q} now n t) (k, _) h =
    unfold enqueue in
    record {
      known =
          trim_history-All Known (q ++ (stored now n t ∷ []))
            (All-append Known q _ h.known (stored-Known now n t k, tt));
      room = (trim_history_keeps (q ++ (stored now n t ∷ []))).1;
    }
Step-IsValid (claims {q = q} now) k h = record {
  known = claim_next-All Known now (claimed-Known now) q h.known;
  room = claim_next-IsTrimmed now q h.room;
}
Step-IsValid (completes {q = q} now id text) k h =
    unfold complete in
    record {
      known = trimmed-All Known (completed now text) (completed-Known now text) id q h.known;
      room = trimmed-IsTrimmed q (update_first (completed now text) id q) h.room;
    }
Step-IsValid (fails {q = q} now id text) k h =
    unfold fail in
    record {
      known = trimmed-All Known (failed_run now text) (failed_run-Known now text) id q h.known;
      room = trimmed-IsTrimmed q (update_first (failed_run now text) id q) h.room;
    }
Step-IsValid (cancels {q = q} now id) k h =
    unfold cancel in cancel_found-IsValid now id q (find id q) h

-- After any sequence of operations from an empty queue, in which every task that was enqueued had no
-- status or one of the five that the header names, all statuses are those that the header names, and the
-- queue holds at most 256 tasks unless none of them is finished.
pub Reach-IsValid :
    {given : List Task} {q : Queue} → Reach given q → All IsOffered given → IsValid q
Reach-IsValid start h = record { known = tt; room = inl (omega arith) }
Reach-IsValid (next {given = given} {offered = offered} r s) h =
    let p = All-parts IsOffered offered given h in Step-IsValid s p.0 (Reach-IsValid r p.1)

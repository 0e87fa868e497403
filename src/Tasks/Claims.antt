-- ===== src/Tasks/Claims.antt =====
-- `claim_next` of src/app/tasks.cpp: which task is claimed, and what happens to it.
use droidcli.Common.{
  true, false, Option, none, some, [], ◌∷◌, ◌++◌, ◌≡◌, ◌⊎◌, inl, inr, refl, ◌∙◌, ap, arith, All,
  length, if◌then◌else◌, Bool-cases, ℤ,
}
use droidcli.Tasks.{Task, Queue, is_claimable, claimed, claim_next}

-- A queue split at the first task that may be claimed.
pub record FirstClaim (now : ℤ) (q : Queue) : Type 0 where
  pub before : Queue
  pub task : Task
  pub behind : Queue
  pub split : q ≡ before ++ (task ∷ behind)
  pub passed : All (λ t. is_claimable now t ≡ false) before
  pub due : is_claimable now task ≡ true
  pub result : claim_next now q ≡ (before ++ (claimed now task ∷ behind), some (claimed now task))

abbrev pub NoClaim : ℤ → Queue → Type 0
NoClaim now q = All (λ t. is_claimable now t ≡ false) q × (claim_next now q ≡ (q, none))

pub claim_here :
    (now : ℤ) (t : Task) (q : Queue)
    → is_claimable now t ≡ true
    → claim_next now (t ∷ q) ≡ (claimed now t ∷ q, some (claimed now t))
unfolding claim_next
claim_here now t q e = rw e

pub claim_later :
    (now : ℤ) (t : Task) (q : Queue)
    → is_claimable now t ≡ false
    → claim_next now (t ∷ q) ≡ (t ∷ (claim_next now q).0, (claim_next now q).1)
unfolding claim_next
claim_later now t q e = rw e

-- A claim takes the first task of the queue that is pending and due, and changes nothing else; it
-- takes none, and leaves the queue as it is, exactly where no task is pending and due.
pub claim_next-first : (now : ℤ) (q : Queue) → NoClaim now q ⊎ FirstClaim now q
claim_next-first now [] = inl (tt, unfold claim_next in refl)
claim_next-first now (t ∷ q) = elim (Bool-cases (is_claimable now t)) [
  | inl e ↦ inr (record {
    before = [];
    task = t;
    behind = q;
    split = refl;
    passed = tt;
    due = e;
    result = claim_here now t q e;
  })
  | inr e ↦ elim (claim_next-first now q) [
    | inl (h, p) ↦
        inl ((e, h), claim_later now t q e ∙ ap {B = Queue × Option Task} (λ r. (t ∷ r.0, r.1)) p)
    | inr c ↦ inr (record {
      before = t ∷ c.before;
      task = c.task;
      behind = c.behind;
      split = ap (λ r. t ∷ r) c.split;
      passed = (e, c.passed);
      due = c.due;
      result = claim_later now t q e ∙ ap {B = Queue × Option Task} (λ r. (t ∷ r.0, r.1)) c.result;
    })
  ]
]

-- A claimed task is running, so no later claim can take it again.
pub claimed-not-claimable : (now later : ℤ) (t : Task) → is_claimable later (claimed now t) ≡ false
unfolding is_claimable claimed
claimed-not-claimable now later t = refl

pub length-claim_next : (now : ℤ) (q : Queue) → length (claim_next now q).0 ≡ length q
unfolding claim_next
length-claim_next now [] = refl
length-claim_next now (t ∷ q) = ground (arith, length-claim_next now q)

-- The tasks that may be claimed now, in order.
unfoldable pub due_tasks : ℤ → Queue → Queue
due_tasks now [] = []
due_tasks now (t ∷ q) = let rest = due_tasks now q in if is_claimable now t then t ∷ rest else rest

abbrev pub first_claimed : ℤ → Queue → Option Task
first_claimed now [] = none
first_claimed now (t ∷ q) = some (claimed now t)

abbrev pub rest_of : Queue → Queue
rest_of [] = []
rest_of (t ∷ q) = q

due_here :
    (now : ℤ) (t : Task) (q : Queue)
    → is_claimable now t ≡ true
    → (some (claimed now t) ≡ first_claimed now (due_tasks now (t ∷ q)))
      × (due_tasks now (claimed now t ∷ q) ≡ rest_of (due_tasks now (t ∷ q)))
unfolding due_tasks
due_here now t q e = rw (e, claimed-not-claimable now now t) (refl, refl)

due_later :
    (now : ℤ) (t : Task) (q : Queue) (r : Queue × Option Task)
    → is_claimable now t ≡ false
    → (r.1 ≡ first_claimed now (due_tasks now q)) × (due_tasks now r.0 ≡ rest_of (due_tasks now q))
    → (r.1 ≡ first_claimed now (due_tasks now (t ∷ q)))
      × (due_tasks now (t ∷ r.0) ≡ rest_of (due_tasks now (t ∷ q)))
unfolding due_tasks
due_later now t q r e h = rw e h

-- Seen through the tasks that are due, claiming is taking from the front of a first-in, first-out
-- queue: it hands out the first of them, and the rest are due as before.
pub claim_next-due_tasks :
    (now : ℤ) (q : Queue)
    → ((claim_next now q).1 ≡ first_claimed now (due_tasks now q))
      × (due_tasks now (claim_next now q).0 ≡ rest_of (due_tasks now q))
claim_next-due_tasks now [] = unfold claim_next due_tasks in (refl, refl)
claim_next-due_tasks now (t ∷ q) = elim (Bool-cases (is_claimable now t)) [
  | inl e ↦ rw (claim_here now t q e) (due_here now t q e)
  | inr e ↦
      rw (claim_later now t q e)
        (due_later now t q (claim_next now q) e (claim_next-due_tasks now q))
]

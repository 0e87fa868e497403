-- ===== src/Host/Ticks.antt =====
-- cli/host.cpp: the task queue under the ticks of the host and the requests of its clients.
use mathlib.Core.Option
use droidcli.Common.{
  ℕ, Bool, true, false, Option, none, some, List, [], ◌∷◌, ◌≡◌, refl, subst, codes, Bytes, ℤ, inl,
  arith, All,
}
use droidcli.Tasks.{Task, new_task, Queue, claim_next, cancel, find}
use droidcli.Json.{
  extract_json_string_field, extract_json_int_field, IntField, missing, found, out_of_range,
}
use droidcli.Tasks.Wire.{
  Request, parse_task_request_from_json, task_request, with_delay, with_recurrence,
}
use droidcli.Tasks.Invariant.{Step, Reach, IsOffered, IsValid, Reach-IsValid}
use droidcli.Connectors.{ConnectorRegistry}
use droidcli.Host.{
  Outside, run_task, recorded, Outcome, tick_claimed, tick_tasks, enqueued, enqueue_task,
  cancel_reply, cancel_task_json,
}

recorded-Reach :
    (later : ℤ) (id : Bytes) (o : Outcome) {given : List Task} (q : Queue)
    → Reach given q
    → Reach given (recorded later id o q)
recorded-Reach later id (Outcome.succeeded result) q h =
    Reach.next h (Step.completes later id result)
recorded-Reach later id (Outcome.errored error) q h = Reach.next h (Step.fails later id error)

tick_claimed-Reach :
    (later : ℤ) (outside : Outside) (connectors : ConnectorRegistry) (o : Option Task)
    {given : List Task} (q : Queue)
    → Reach given q
    → Reach given (tick_claimed later outside connectors (q, o))
tick_claimed-Reach later outside connectors none q h = h
tick_claimed-Reach later outside connectors (some t) q h =
    recorded-Reach later t.id (run_task outside connectors t) q h

pub tick_tasks-Reach :
    (now later : ℤ) (outside : Outside) (connectors : ConnectorRegistry) {given : List Task}
    (q : Queue)
    → Reach given q
    → Reach given (tick_tasks now later outside connectors q)
unfolding tick_tasks
tick_tasks-Reach now later outside connectors q h =
    tick_claimed-Reach later outside connectors (claim_next now q).1 (claim_next now q).0
      (Reach.next h (Step.claims now))

-- What the host does to its queue: a tick, a request to enqueue that is answered, and one to cancel.
pub data HostStep (connectors : ConnectorRegistry) : Queue → Queue → Type 0 where
  ticks :
      {q : Queue} (now later : ℤ) (outside : Outside)
      → HostStep connectors q (tick_tasks now later outside connectors q)
  enqueues :
      {q r : Queue} (parsed_at now : ℤ) (sequence : ℕ) (body reply : Bytes)
      → enqueue_task parsed_at now sequence body q ≡ some (r, reply)
      → HostStep connectors q r
  cancels : {q : Queue} (now : ℤ) (id : Bytes) → HostStep connectors q (cancel_task_json now id q).0

pub data HostReach : Queue → Type 0 where
  start : HostReach []
  next :
      {q r : Queue} (connectors : ConnectorRegistry)
      → HostReach q
      → HostStep connectors q r
      → HostReach r

-- The status of a task that is accepted, if one is.
abbrev request_status : Request → Bytes
request_status (Request.accepted t) = t.status
request_status _ = []

with_recurrence-status :
    (r : IntField) (q : Request) → request_status q ≡ [] → request_status (with_recurrence r q) ≡ []
unfolding with_recurrence
with_recurrence-status missing (Request.accepted t) h = h
with_recurrence-status (found n) (Request.accepted t) h = ground arith
with_recurrence-status out_of_range (Request.accepted t) h = refl
with_recurrence-status missing (Request.rejected e) h = refl
with_recurrence-status (found n) (Request.rejected e) h = refl
with_recurrence-status out_of_range (Request.rejected e) h = refl
with_recurrence-status missing Request.thrown h = refl
with_recurrence-status (found n) Request.thrown h = refl
with_recurrence-status out_of_range Request.thrown h = refl

with_delay-status :
    (now : ℤ) (d : IntField) (t : Task) → t.status ≡ [] → request_status (with_delay now d t) ≡ []
unfolding with_delay
with_delay-status now missing t h = h
with_delay-status now (found n) t h = ground arith
with_delay-status now out_of_range t h = refl

task_request-status :
    (now : ℤ) (command connector_id payload_json : Bytes) (delay recurrence : IntField)
    → request_status (task_request now command connector_id payload_json delay recurrence) ≡ []
unfolding task_request
task_request-status now [] connector_id payload_json delay recurrence = refl
task_request-status now (c ∷ command) connector_id payload_json delay recurrence =
    let t = record new_task {
      command = c ∷ command;
      connector_id = connector_id;
      payload_json = payload_json;
    } in
    with_recurrence-status recurrence (with_delay now delay t) (with_delay-status now delay t refl)

parsed-status :
    (now : ℤ) (json : Bytes) → request_status (parse_task_request_from_json now json) ≡ []
unfolding parse_task_request_from_json
parsed-status now json =
    task_request-status now (extract_json_string_field json (codes "command") 0)
      (extract_json_string_field json (codes "connector_id") 0)
      (extract_json_string_field json (codes "payload_json") 0)
      (extract_json_int_field json (codes "delay_ms") 0)
      (extract_json_int_field json (codes "recurrence_ms") 0)

-- The queue can be reached by operations of the queue, with tasks enqueued whose statuses are empty or
-- known.
abbrev IsReached : Queue → Type 0
IsReached q = (given : List Task) × (Reach given q × All IsOffered given)

enqueued-IsReached :
    (now : ℤ) (sequence : ℕ) (request : Request) (q r : Queue) (reply : Bytes)
    → request_status request ≡ []
    → enqueued now sequence request q ≡ some (r, reply)
    → IsReached q
    → IsReached r
enqueued-IsReached now n (Request.rejected e) q r reply s h g =
    subst (λ p. IsReached p.0) (Option.some-injective _ _ h) g
enqueued-IsReached now n Request.thrown q r reply s h g = absurd (Option.none-ne-some (r, reply) h)
enqueued-IsReached now n (Request.accepted t) q r reply s h (given, (g, k)) =
    subst (λ p. IsReached p.0) (Option.some-injective _ _ h)
      (t ∷ given, (Reach.next g (Step.enqueues now n t), (inl s, k)))

cancel_reply-Reach :
    (now : ℤ) (id : Bytes) (o : Option Task) {given : List Task} (q : Queue)
    → Reach given q
    → Reach given (cancel_reply o (cancel now id q) q).0
cancel_reply-Reach now id none q h = h
cancel_reply-Reach now id (some t) {given} q h =
    go (cancel now id q) (Reach.next h (Step.cancels now id))
  where
    go : (p : Queue × Bool) → Reach given p.0 → Reach given (cancel_reply (some t) p q).0
    go (r, true) g = g
    go (r, false) g = g

step-IsReached :
    (connectors : ConnectorRegistry) (q r : Queue)
    → HostStep connectors q r
    → IsReached q
    → IsReached r
step-IsReached connectors q r (ticks now later outside) (given, (h, k)) =
    (given, (tick_tasks-Reach now later outside connectors q h, k))
step-IsReached connectors q r (enqueues parsed_at now n body reply e) h =
    enqueued-IsReached now n (parse_task_request_from_json parsed_at body) q r reply
      (parsed-status parsed_at body) (unfold enqueue_task in e) h
step-IsReached connectors q r (cancels now id) (given, (h, k)) =
    (given, (unfold cancel_task_json in cancel_reply-Reach now id (find id q) q h, k))

host-IsReached : (q : Queue) → HostReach q → IsReached q
host-IsReached q start = ([], (Reach.start, tt))
host-IsReached q (next {q = p} connectors h s) =
    step-IsReached connectors p q s (host-IsReached p h)

-- Whatever ticks the host runs and whatever requests to enqueue and to cancel it answers, its queue, empty
-- at first, holds known statuses only, and at most 256 tasks unless none of them is finished.
pub HostReach-IsValid : (q : Queue) → HostReach q → IsValid q
HostReach-IsValid q h = let r = host-IsReached q h in Reach-IsValid r.1.0 r.1.1

-- ===== src/Tasks/Requests.antt =====
-- `parse_task_request_from_json` of src/app/tasks.cpp on the objects that clients write, and the deadline
-- that it computes.
use droidcli.Common.{
  ℕ, ◌+◌, ◌-◌, ◌≤◌, ◌<◌, true, some, List, [], ◌∷◌, ◌≡◌, refl, ◌∙◌, arith, Bytes, codes, All, same,
  is_empty, if◌then◌else◌, ℤ, pos, negsuc, ltb_ℤ, false, InInt64, add64,
}
use droidcli.Json.{found, extract_json_string_field, extract_json_int_field}
use droidcli.Json.Skip.{IsName, named}
use droidcli.Json.Object.{Field, text, number, render_object, lookup_field, IsField}
use droidcli.Json.RoundTrip.{string_of, extract_string-render_object}
use droidcli.Json.Number.{extract_int-render_object}
use droidcli.Json.Decimal.{print_int, print_int-all}
use droidcli.Tasks.{Task, new_task, is_claimable, stored}
use droidcli.Tasks.Wire.{accepted, rejected, task_request, parse_task_request_from_json}

-- A request with every field that the parser reads.
abbrev pub request_fields : Bytes → Bytes → Bytes → ℤ → ℤ → List Field
request_fields connector_id command payload delay recurrence =
    text (codes "connector_id") connector_id
    ∷ text (codes "command") command
    ∷ text (codes "payload_json") payload
    ∷ number (codes "delay_ms") (print_int delay)
    ∷ number (codes "recurrence_ms") (print_int recurrence)
    ∷ []

request_fields-IsField : (k c p : Bytes) (d r : ℤ) → All IsField (request_fields k c p d r)
request_fields-IsField k c p d r =
    (refl, (refl, (refl, ((refl, print_int-all d), ((refl, print_int-all r), tt)))))

module _ (k c p : Bytes) (d r : ℤ) (dr : InInt64 d) (rr : InInt64 r) where
  abbrev request : Bytes
  request = render_object (request_fields k c p d r)

  string_field :
      (n v : Bytes)
      → IsName n
      → string_of (lookup_field n (request_fields k c p d r)) ≡ v
      → extract_json_string_field request n 0 ≡ v
  string_field n v h e =
      extract_string-render_object n (request_fields k c p d r) h (request_fields-IsField k c p d r)
      ∙ e

  int_field :
      (n : Bytes) (z : ℤ)
      → IsName n
      → InInt64 z
      → lookup_field n (request_fields k c p d r) ≡ some (number n (print_int z))
      → extract_json_int_field request n 0 ≡ found z
  int_field n z = λ h g.
      extract_int-render_object n n z (request_fields k c p d r) h
        (request_fields-IsField k c p d r) g

-- The task that such a request asks for.
abbrev pub requested : ℤ → Bytes → Bytes → Bytes → ℤ → ℤ → Task
requested now connector_id command payload delay recurrence = record new_task {
  connector_id = connector_id;
  command = command;
  payload_json = payload;
  scheduled_for_ms = if ltb_ℤ (pos 0) delay then add64 now delay else pos 0;
  recurrence_ms = if ltb_ℤ (pos 0) recurrence then recurrence else pos 0;
}

task_request_lem :
    (now : ℤ) (k c p : Bytes) (d r : ℤ)
    → task_request now c k p (found d) (found r) ≡ (
        if is_empty c
        then rejected (codes "Task requires a command.")
        else accepted (requested now k c p d r))
unfolding task_request
task_request_lem now k c p d r = ground arith

-- A request object is read back whole: with a command it gives the task with the request's texts, the
-- deadline of a positive delay and the interval of a positive recurrence; without one it is rejected.
-- (The two numbers are `int64_t`.)
pub parse_task_request_lem :
    (now : ℤ) (connector_id command payload : Bytes) (delay recurrence : ℤ)
    → InInt64 delay
    → InInt64 recurrence
    → parse_task_request_from_json now
        (render_object (request_fields connector_id command payload delay recurrence))
      ≡ (if is_empty command
          then rejected (codes "Task requires a command.")
          else accepted (requested now connector_id command payload delay recurrence))
unfolding parse_task_request_from_json lookup_field same
parse_task_request_lem now k c p d r dr rr =
    (λ i.
      task_request now (string_field k c p d r dr rr (codes "command") c (named _ (cc) refl) refl i)
        (string_field k c p d r dr rr (codes "connector_id") k (named _ (cc) refl) refl i)
        (string_field k c p d r dr rr (codes "payload_json") p (named _ (cc) refl) refl i)
        (int_field k c p d r dr rr (codes "delay_ms") d (named _ (cc) refl) dr refl i)
        (int_field k c p d r dr rr (codes "recurrence_ms") r (named _ (cc) refl) rr refl i))
    ∙ task_request_lem now k c p d r

add64_wraps :
    (a b : ℕ)
    → a < 9223372036854775808
    → b < 9223372036854775808
    → 9223372036854775808 ≤ a + b
    → add64 (pos a) (pos b) ≡ negsuc (18446744073709551616 - (a + b) - 1)
unfolding add64
add64_wraps a b ha hb h = ground arith

requested_overflow :
    (now delay later : ℕ) (connector_id command payload : Bytes) (recurrence enqueued_at : ℤ)
    (sequence : ℕ)
    → now < 9223372036854775808
    → 0 < delay
    → delay < 9223372036854775808
    → 9223372036854775808 ≤ now + delay
    → is_claimable (pos later) (
        stored enqueued_at sequence
          (requested (pos now) connector_id command payload (pos delay) recurrence))
      ≡ true
unfolding is_claimable stored
requested_overflow now delay later k c p r at n hn hd hm h =
    rw (add64_wraps now delay hn hm h) (ground arith)

requested_past :
    (now delay : ℕ) (connector_id command payload : Bytes) (recurrence : ℤ)
    → now < 9223372036854775808
    → 0 < delay
    → delay < 9223372036854775808
    → 9223372036854775808 ≤ now + delay
    → ltb_ℤ
        (requested (pos now) connector_id command payload (pos delay) recurrence).scheduled_for_ms
        (pos 0)
      ≡ true
requested_past now delay k c p r hn hd hm h = rw (add64_wraps now delay hn hm h) (ground arith)

-- A request with a command, whose delay and recurrence are `int64_t`, is accepted by the parser although
-- the sum of the clock and the delay is no `int64_t`; the deadline of the task that it gives is
-- negative, and once the task is enqueued it can be claimed at any time from 0 on, instead of in the
-- far future. (An overflow of the signed sum is taken to wrap.)
pub overflowing_delay_is_due :
    (now delay later : ℕ) (connector_id command payload : Bytes) (recurrence enqueued_at : ℤ)
    (sequence : ℕ)
    → is_empty command ≡ false
    → InInt64 recurrence
    → now < 9223372036854775808
    → 0 < delay
    → delay < 9223372036854775808
    → 9223372036854775808 ≤ now + delay
    → (t : Task) × ((parse_task_request_from_json
            (pos now)
            (render_object (request_fields connector_id command payload (pos delay) recurrence))
          ≡ accepted t)
        × (ltb_ℤ t.scheduled_for_ms (pos 0) ≡ true)
        × (is_claimable (pos later) (stored enqueued_at sequence t) ≡ true))
overflowing_delay_is_due now delay later k c p r at n e rr hn hd hm h = (
  requested (pos now) k c p (pos delay) r,
  (
    parse_task_request_lem (pos now) k c p (pos delay) r (omega arith) rr ∙ rw e refl,
    requested_past now delay k c p r hn hd hm h,
    requested_overflow now delay later k c p r at n hn hd hm h,
  ),
)

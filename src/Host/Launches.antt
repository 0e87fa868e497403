-- ===== src/Host/Launches.antt =====
-- cli/host.cpp: the launch and stop commands of tasks, whose replies the tick reads.
use droidcli.Common.{
  ℕ, Bool, false, Option, none, some, List, [], ◌∷◌, ◌++◌, ◌≡◌, refl, ◌∙◌, ap, arith, Bytes, codes,
  same, strip, after, contains, is_some, is_empty, Bool-cases, ◌⊎◌, inl, inr, ℤ,
}
use droidcli.Json.{needle, escape_json_string}
use droidcli.Json.Object.{
  Field, text, flag, render_object, concat-pieces, render_field, behind, after-render_object,
}
use droidcli.Json.Skip.{named}
use droidcli.Tasks.{Task, Queue, claim_next, fail}
use droidcli.Connectors.{Connector, ConnectorRegistry, find_connector, launched_process}
use droidcli.Host.{
  Outside, flag_and_error, launch_connector, launch_found, stop_connector, run_task, Outcome,
  tick_tasks, tick_claimed, recorded,
}

-- A longer text is found only where a shorter one is.
strip-longer : (n t s : Bytes) → strip n s ≡ none → strip (n ++ t) s ≡ none
unfolding strip
strip-longer [] t s h = cc
strip-longer (c ∷ n) t [] h = refl
strip-longer (c ∷ n) t (d ∷ s) h = ground (arith, strip-longer n t s)

strip_of_after : (n : Bytes) (s : Bytes) → after n s ≡ none → strip n s ≡ none
unfolding after
strip_of_after n [] h = h
strip_of_after n (c ∷ s) h = ground arith

after_tail : (n : Bytes) (c : ℕ) (s : Bytes) → after n (c ∷ s) ≡ none → after n s ≡ none
unfolding after
after_tail n c s h = ground arith

after-longer : (n t s : Bytes) → after n s ≡ none → after (n ++ t) s ≡ none
unfolding after
after-longer n t [] h = strip-longer n t [] h
after-longer n t (c ∷ s) h = ground (
  arith,
  strip-longer n t (c ∷ s) (strip_of_after n (c ∷ s) h),
  after-longer n t s (after_tail n c s h),
)

flag_and_error-render :
    (k : Bytes) (b : Bool) (e : Bytes)
    → flag_and_error k b e ≡ render_object (flag k b ∷ text (codes "error") e ∷ [])
unfolding flag_and_error render_field
flag_and_error-render k b e = concat-pieces (flag k b ∷ text (codes "error") e ∷ [])

abbrev reply_fields : Bool → Bytes → List Field
reply_fields b e = flag (codes "ok") b ∷ text (codes "error") e ∷ []

no_success_field :
    (b : Bool) (e : Bytes)
    → after (needle (codes "success")) (render_object (reply_fields b e)) ≡ none
no_success_field b e =
    after-render_object (codes "success") (reply_fields b e) (named _ (cc) refl) (refl, (refl, tt))
    ∙ unfold behind same in refl

no_success :
    (b : Bool) (e : Bytes)
    → contains (codes "\"success\":true") (flag_and_error (codes "ok") b e) ≡ false
unfolding contains
no_success b e =
    ap (λ s. is_some (after (codes "\"success\":true") s)) (flag_and_error-render (codes "ok") b e)
    ∙ ap is_some (
        after-longer (needle (codes "success")) (codes "true") (render_object (reply_fields b e))
          (no_success_field b e))

-- The reply of `launch_connector` never has `"success":true`.
launch-no_success :
    (outside : Outside) (connectors : ConnectorRegistry) (id : Bytes)
    → contains (codes "\"success\":true") (launch_connector outside connectors id) ≡ false
unfolding launch_connector
launch-no_success outside connectors id = go (find_connector id connectors)
  where
    go :
        (o : Option Connector)
        → contains (codes "\"success\":true") (launch_found outside o) ≡ false
    go none = unfold contains flag_and_error escape_json_string after in refl
    go (some c) = elim (Bool-cases (same c.kind launched_process)) [
      | inl e ↦ rw e (no_success (outside.launch c).0 (outside.launch c).1)
      | inr e ↦ rw e (unfold contains flag_and_error escape_json_string after in refl)
    ]

stop-no_success :
    (outside : Outside) (id : Bytes)
    → contains (codes "\"success\":true") (stop_connector outside id) ≡ false
unfolding stop_connector
stop-no_success outside id = no_success (outside.stop id).0 (outside.stop id).1

-- The reply of a command that names a connector's process, and the error that the tick then records.
abbrev pub IsLaunch : Task → Type 0
IsLaunch t = (t.command ≡ codes "launch") × (is_empty t.connector_id ≡ false)

abbrev pub IsStop : Task → Type 0
IsStop t = (t.command ≡ codes "stop") × (is_empty t.connector_id ≡ false)

run_task-launch :
    (outside : Outside) (connectors : ConnectorRegistry) (t : Task)
    → IsLaunch t
    → run_task outside connectors t ≡ Outcome.errored (codes "launch_connector failed")
unfolding run_task same
run_task-launch outside connectors t (c, i) =
    rw (c, i, launch-no_success outside connectors t.connector_id)

run_task-stop :
    (outside : Outside) (connectors : ConnectorRegistry) (t : Task)
    → IsStop t
    → run_task outside connectors t ≡ Outcome.errored (codes "stop_connector failed")
unfolding run_task same
run_task-stop outside connectors t (c, i) = rw (c, i, stop-no_success outside t.connector_id)

tick_claims :
    (now later : ℤ) (outside : Outside) (connectors : ConnectorRegistry) (q : Queue) (t : Task)
    → (claim_next now q).1 ≡ some t
    → tick_tasks now later outside connectors q
      ≡ recorded later t.id (run_task outside connectors t) (claim_next now q).0
unfolding tick_tasks
tick_claims now later outside connectors q t e =
    ap (λ o. tick_claimed later outside connectors ((claim_next now q).0, o)) e

-- A tick that claims a "launch" or "stop" task of a connector records it as failed, whatever the registry
-- holds and even when the process was started or stopped.
pub launched_task_fails :
    (now later : ℤ) (outside : Outside) (connectors : ConnectorRegistry) (q : Queue) (t : Task)
    → (claim_next now q).1 ≡ some t
    → IsLaunch t ⊎ IsStop t
    → (error : Bytes) × (tick_tasks now later outside connectors q
        ≡ (fail later t.id error (claim_next now q).0).0)
launched_task_fails now later outside connectors q t e (inl h) = (
  codes "launch_connector failed",
  tick_claims now later outside connectors q t e
      ∙ ap (λ o. recorded later t.id o (claim_next now q).0)
          (run_task-launch outside connectors t h),
)
launched_task_fails now later outside connectors q t e (inr h) = (
  codes "stop_connector failed",
  tick_claims now later outside connectors q t e
      ∙ ap (λ o. recorded later t.id o (claim_next now q).0) (run_task-stop outside connectors t h),
)

-- ===== src/Agent/Gates.antt =====
-- The gate of the agent, step by step: what holds of each step holds of the whole.
use droidcli.Common.{
  ℕ, Bool, true, false, not, none, some, List, [], ◌∷◌, ◌++◌, ◌≡◌, refl, ap, ◌∙◌, if◌then◌else◌,
  arith, Bytes, codes, same,
}
use droidcli.Ai.{ToolCall, ChatRole, tool}
use droidcli.Agent.{
  AgentState, AgentConfig, World, ResolvedLaunchTarget, Action, pure, observe,
  PendingToolActionRecord, PendingAgentToolCall, ◌>>=◌, ◌>>◌, message_recorded,
  record_agent_message, tool_call_requires_approval,
}
use droidcli.Agent.Templates.{field}
use droidcli.Agent.Arguments.{
  Precheck, precheck_passed, precheck_failed, precheck_and_resolve_gated_call, precheck_command,
  precheck_launch, with_arguments,
}
use droidcli.Agent.Gate.{
  executed, checked_call, Gate, gated_by, execute_decision_or_pause, run_tool, with_pending,
  action_record, result_recorded, checked_in, classified_call,
}
use droidcli.Agent.Turn.{select_session}
use droidcli.Agent.Graded.{
  Graded, IsGraded, Within, Within-bind, Within-weaken, Within-pure, Within-modify, Within-outside,
  PostWithin,
}

-- What each step does: `p` is the grade of a request, `e` that of a tool that runs.
pub record StepLaws {W : Type 0} (R : Graded W) (p e : ℕ) (world : World W) : Type 0 where
  pub request : PostWithin R p world.post_json
  pub run :
      (name arguments_json : Bytes) (s : AgentState) (w : W)
      → R e (s, w) (s, (world.execute_agent_tool name arguments_json w).1)
  pub says :
      (session_id : Bytes) (role : ChatRole) (content : Bytes) (s : AgentState) (w : W)
      → R 0 (s, w) (message_recorded session_id role content s, w)
  pub drops : (s : AgentState) (w : W) → R 0 (s, w) (with_pending none s, w)
  pub waits :
      (pending : PendingAgentToolCall)
      → tool_call_requires_approval pending.decided_call.name ≡ true
      → (s : AgentState) (w : W) → R 0 (s, w) (with_pending (some pending) s, w)
  pub selects :
      (clear : Bool) (requested_session_id new_session_id : Bytes) (s : AgentState) (w : W)
      → R 0 (s, w) (select_session clear requested_session_id new_session_id s, w)

-- A check does not rename the call.
data KeepsName (name : Bytes) : Precheck → Type 0 where
  failing : (r : Bytes) → KeepsName name (precheck_failed r)
  passing : (c : ToolCall) → c.name ≡ name → KeepsName name (precheck_passed c)

KeepsName-if :
    (name : Bytes) (b : Bool) (q r : Precheck)
    → KeepsName name q
    → KeepsName name r
    → KeepsName name (if b then q else r)
KeepsName-if name true q r h k = h
KeepsName-if name false q r h k = k

precheck_command-KeepsName :
    (desktop_path : Bytes) (call : ToolCall)
    → KeepsName call.name (precheck_command desktop_path call)
unfolding precheck_command
precheck_command-KeepsName desktop_path call =
    let n = call.name in
    KeepsName-if n _ _ _ (failing _)
      (KeepsName-if n _ _ _ (passing call refl) (passing (with_arguments call _) refl))

precheck_launch-KeepsName :
    (resolved : ResolvedLaunchTarget) (call : ToolCall)
    → KeepsName call.name (precheck_launch resolved call)
unfolding precheck_launch
precheck_launch-KeepsName resolved call =
    let n = call.name in
    KeepsName-if n _ _ _ (passing call refl) (
      KeepsName-if n (not resolved.resolved) _ _ (failing _) (passing (with_arguments call _) refl))

precheck-KeepsName :
    (resolve : Bytes → Bytes → ResolvedLaunchTarget) (desktop_path : Bytes) (call : ToolCall)
    → KeepsName call.name (precheck_and_resolve_gated_call resolve desktop_path call)
unfolding precheck_and_resolve_gated_call
precheck-KeepsName resolve desktop_path call =
    let n = call.name in
    KeepsName-if n _ _ _ (precheck_command-KeepsName desktop_path call) (
      KeepsName-if n (not (same n (codes "open_application"))) _ _ (passing call refl) (
        precheck_launch-KeepsName
          (resolve (field call.arguments_json (codes "path_or_name"))
            (field call.arguments_json (codes "args")))
          call))

module _ {W : Type 0} (R : Graded W) (g : IsGraded R) (p e : ℕ) (config : AgentConfig)
    (world : World W) (h : StepLaws R p e world) where
  abbrev gate : Gate W
  gate = execute_decision_or_pause config world

  pub then_said :
      {A : Type 0} (n : ℕ) (session_id : Bytes) (role : ChatRole) (content : Bytes) (m : Action W A)
      → Within R g n m
      → Within R g n (record_agent_message session_id role content >> m)
  then_said n session_id role content m q =
      Within-bind R g 0 n n (record_agent_message session_id role content) (λ u. m) (omega arith)
        (Within-modify R g (message_recorded session_id role content)
          (h.says session_id role content))
        (λ u. q)

  pub said :
      {A : Type 0} (session_id : Bytes) (role : ChatRole) (content : Bytes) (x : A)
      → Within R g 0 (record_agent_message session_id role content >> pure x)
  said session_id role content x =
      then_said 0 session_id role content (pure x) (Within-pure R g 0 x)

  pub run_tool-Within :
      (name arguments_json : Bytes)
      → Within R g e (run_tool (world.execute_agent_tool name arguments_json))
  run_tool-Within name arguments_json =
      Within-outside R g e
        (λ w. let (result, v) = world.execute_agent_tool name arguments_json w in (some result, v))
        (h.run name arguments_json)

  checked_call-Within :
      (session_id : Bytes) (call : ToolCall) (actions : List PendingToolActionRecord)
      (thinking : Bytes) (q : Precheck)
      → tool_call_requires_approval call.name ≡ true
      → KeepsName call.name q
      → Within R g 0 (checked_call config world session_id call actions thinking q)
  unfolding checked_call
  checked_call-Within session_id call actions thinking _ a (failing r) =
      said session_id tool r (executed r (actions ++ action_record call r ∷ []))
  checked_call-Within session_id call actions thinking _ a (passing c k) = record {
    bound =
        h.waits (record { session_id = session_id; decided_call = c; actions = actions })
          (ap tool_call_requires_approval k ∙ a);
  }

  gated_by-Within :
      (b : Bool) (session_id : Bytes) (call : ToolCall) (actions : List PendingToolActionRecord)
      (thinking : Bytes)
      → tool_call_requires_approval call.name ≡ b
      → Within R g e (gated_by config world b session_id call actions thinking)
  unfolding gated_by
  gated_by-Within true session_id call actions thinking a =
      Within-weaken R g 0 e
        (observe (checked_in config world call)
          >>= checked_call config world session_id call actions thinking)
        (omega arith)
        (record {
          bound = λ s w.
              (checked_call-Within session_id call actions thinking (checked_in config world call w)
                  a
                  (precheck-KeepsName
                    (λ name args. world.resolve_open_application_target name args w)
                    config.desktop_path call)).bound
                s w;
        })
  gated_by-Within false session_id call actions thinking a =
      Within-bind R g e 0 e (run_tool (world.execute_agent_tool call.name call.arguments_json))
        (result_recorded session_id call actions) (omega arith)
        (run_tool-Within call.name call.arguments_json)
        (λ r. said session_id tool r (executed r (actions ++ action_record call r ∷ [])))

  pub gate-Within :
      (session_id name arguments_json : Bytes) (actions : List PendingToolActionRecord)
      (thinking : Bytes)
      → Within R g e (gate session_id name arguments_json actions thinking)
  unfolding execute_decision_or_pause
  gate-Within session_id name arguments_json actions thinking =
      gated_by-Within (tool_call_requires_approval name) session_id
        (classified_call name arguments_json) actions thinking refl

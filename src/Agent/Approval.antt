-- ===== src/Agent/Approval.antt =====
-- What a turn of the agent runs without the user's approval.
use mathlib.Core.Path.{fun_ext}
use droidcli.Common.{
  Bool, true, false, Option, none, some, List, [], ◌∷◌, ◌++◌, ◌≡◌, refl, ap, Bytes, not, ◌&&◌,
  is_empty, same,
}
use droidcli.Ai.{ToolCall, tool}
use droidcli.Agent.{
  AgentState, AgentConfig, World, PendingToolActionRecord, PendingAgentToolCall, ◌>>=◌, ◌>>◌,
  choose, pure, modify, observe, record_agent_message, tool_call_requires_approval,
}
use droidcli.Agent.Arguments.{Precheck, precheck_passed, precheck_failed}
use droidcli.Agent.Gate.{
  Gate, classified_call, checked_in, checked_call, gated_by, execute_decision_or_pause, run_tool,
  result_recorded, with_pending, action_record,
}
use droidcli.Agent.Turn.{
  turn_from, agent_turn, is_approved, decided_result, none_waits, decide, agent_tool_decision,
  finish_turn_after_execution,
}

-- How tools run.
abbrev pub Tools : Type 0 → Type 0
Tools W = Bytes → Bytes → W → Bytes × W

abbrev pub with_tools : {W : Type 0} → World W → Tools W → World W
with_tools world run = record world { execute_agent_tool = run }

-- The same tools, but for those that want the user's approval.
abbrev pub SameUngated : {W : Type 0} → Tools W → Tools W → Type 0
SameUngated run other =
    (name arguments_json : Bytes)
    → tool_call_requires_approval name ≡ false
    → run name arguments_json ≡ other name arguments_json

module _ {W : Type 0} (config : AgentConfig) (world : World W) (run other : Tools W) where
  abbrev gate_of : Tools W → Gate W
  gate_of tools = execute_decision_or_pause config (with_tools world tools)

  checked_same :
      (session_id : Bytes) (call : ToolCall) (actions : List PendingToolActionRecord)
      (thinking : Bytes) (p : Precheck)
      → checked_call config (with_tools world run) session_id call actions thinking p
        ≡ checked_call config (with_tools world other) session_id call actions thinking p
  unfolding checked_call
  checked_same session_id call actions thinking (precheck_failed r) = refl
  checked_same session_id call actions thinking (precheck_passed c) = refl

  gated_same :
      (b : Bool) (session_id : Bytes) (call : ToolCall) (actions : List PendingToolActionRecord)
      (thinking : Bytes)
      → (b ≡ false → run call.name call.arguments_json ≡ other call.name call.arguments_json)
      → gated_by config (with_tools world run) b session_id call actions thinking
        ≡ gated_by config (with_tools world other) b session_id call actions thinking
  unfolding gated_by
  gated_same true session_id call actions thinking h =
      ap (λ check. observe (checked_in config world call) >>= check)
        (fun_ext (checked_same session_id call actions thinking))
  gated_same false session_id call actions thinking h =
      ap (λ tool. run_tool tool >>= result_recorded session_id call actions) (h refl)

  gate_same : SameUngated run other → gate_of run ≡ gate_of other
  unfolding execute_decision_or_pause
  gate_same h = λ i session_id name arguments_json actions thinking.
      gated_same (tool_call_requires_approval name) session_id (classified_call name arguments_json)
        actions thinking (h name arguments_json) i

  -- Two ways of running tools that differ at most on the tools that want the user's approval give the same
  -- turn: no such tool runs in it, whatever the model answers.
  pub turn-SameUngated :
      SameUngated run other
      → (new_session_id timestamp body : Bytes) (s : AgentState) (w : W)
      → agent_turn config (with_tools world run) new_session_id timestamp body (s, w)
        ≡ agent_turn config (with_tools world other) new_session_id timestamp body (s, w)
  unfolding agent_turn
  turn-SameUngated h new_session_id timestamp body s w =
      ap (λ gate. turn_from config world.post_json gate new_session_id timestamp body (s, w))
        (gate_same h)

  result_same :
      (pending : PendingAgentToolCall) (approved : Bool) (reason : Bytes)
      → (approved ≡ true
          → run pending.decided_call.name pending.decided_call.arguments_json
            ≡ other pending.decided_call.name pending.decided_call.arguments_json)
      → decided_result config (with_tools world run) pending approved reason
        ≡ decided_result config (with_tools world other) pending approved reason
  result_same pending true reason h = ap run_tool (h refl)
  result_same pending false reason h = refl

  decide_same :
      SameUngated run other
      → (approved : Bool) (reason requested_session_id : Bytes) (o : Option PendingAgentToolCall)
      → (approved ≡ true
          → (pending : PendingAgentToolCall) → o ≡ some pending
          → run pending.decided_call.name pending.decided_call.arguments_json
            ≡ other pending.decided_call.name pending.decided_call.arguments_json)
      → decide config (with_tools world run) approved reason requested_session_id o
        ≡ decide config (with_tools world other) approved reason requested_session_id o
  decide_same h approved reason requested_session_id none g = refl
  decide_same h approved reason requested_session_id (some pending) g = λ i.
      choose
        (not (is_empty requested_session_id) && not (same requested_session_id pending.session_id))
        (pure none_waits)
        (modify (with_pending none)
          >> (result_same pending approved reason (λ a. g a pending refl) i >>= λ result.
              record_agent_message pending.session_id tool result
              >> finish_turn_after_execution config world.post_json (gate_same h i)
                  pending.session_id pending.decided_call.name pending.decided_call.arguments_json
                  result (pending.actions ++ action_record pending.decided_call result ∷ [])
                  approved []))

  -- A decision depends, beyond the tools that need no approval, on nothing but the waiting call, with the
  -- arguments it waits with, and on that only if the user approved: a declined call does not run.
  pub decision-SameUngated :
      SameUngated run other
      → (body : Bytes) (s : AgentState) (w : W)
      → (is_approved body ≡ true
          → (pending : PendingAgentToolCall) → s.pending_tool_call ≡ some pending
          → run pending.decided_call.name pending.decided_call.arguments_json
            ≡ other pending.decided_call.name pending.decided_call.arguments_json)
      → agent_tool_decision config (with_tools world run) body (s, w)
        ≡ agent_tool_decision config (with_tools world other) body (s, w)
  unfolding agent_tool_decision
  decision-SameUngated h body s w g =
      ap (λ act. act (s, w)) (decide_same h (is_approved body) _ _ s.pending_tool_call g)

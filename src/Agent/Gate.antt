-- ===== src/Agent/Gate.antt =====
-- cli/host.cpp: `execute_decision_or_pause`, the one place where a turn runs a tool.
use droidcli.Common.{Bool, true, false, Option, some, List, [], ◌∷◌, ◌++◌, Bytes, codes}
use droidcli.Ai.{tool, ToolCall}
use droidcli.Agent.{
  PendingToolActionRecord, PendingAgentToolCall, AgentState, AgentConfig, World, Action, pure,
  ◌>>=◌, ◌>>◌, modify, outside, observe, record_agent_message, tool_call_requires_approval,
}
use droidcli.Agent.Arguments.{
  Precheck, precheck_passed, precheck_failed, precheck_and_resolve_gated_call,
  display_arguments_with_full_paths,
}
use droidcli.Agent.Replies.{build_pending_tool_call_response}

-- What `execute_decision_or_pause` gives: the result and the actions so far, or the reply that asks for
-- approval.
pub data Gated : Type 0 where
  executed : Bytes → List PendingToolActionRecord → Gated
  paused : Bytes → Gated

-- `execute_decision_or_pause` of a session, a tool, its arguments, the actions so far and the thinking text
abbrev pub Gate : Type 0 → Type 0
Gate W = Bytes → Bytes → Bytes → List PendingToolActionRecord → Bytes → Action W Gated

abbrev pub action_record : ToolCall → Bytes → PendingToolActionRecord
action_record call result = record {
  tool = call.name;
  arguments_json = call.arguments_json;
  result_json = result;
}

abbrev pub result_recorded :
    {W : Type 0} → Bytes → ToolCall → List PendingToolActionRecord → Bytes → Action W Gated
result_recorded session_id call actions result =
    record_agent_message session_id tool result
    >> pure (executed result (actions ++ action_record call result ∷ []))

abbrev pub with_pending : Option PendingAgentToolCall → AgentState → AgentState
with_pending pending s = record s { pending_tool_call = pending }

abbrev pub classified_call : Bytes → Bytes → ToolCall
classified_call tool_name arguments_json = record {
  id = codes "classified-0";
  name = tool_name;
  arguments_json = arguments_json;
}

abbrev pub run_tool : {W : Type 0} → (W → Bytes × W) → Action W Bytes
run_tool run = outside (λ w. let (result, v) = run w in (some result, v))

module _ {W : Type 0} (config : AgentConfig) (world : World W) where
  abbrev pub shown_in : W → Bytes → Bytes → Bytes
  shown_in w = display_arguments_with_full_paths (λ path. world.absolute path w) config.desktop_path

  unfoldable pub checked_call :
      Bytes → ToolCall → List PendingToolActionRecord → Bytes → Precheck → Action W Gated
  unfolding display_arguments_with_full_paths build_pending_tool_call_response
  checked_call session_id call actions thinking_text (precheck_failed failure_json) =
      result_recorded session_id call actions failure_json
  checked_call session_id call actions thinking_text (precheck_passed resolved_call) =
      modify (
        with_pending (
          some
            (record { session_id = session_id; decided_call = resolved_call; actions = actions })))
      >> (observe (λ w.
            build_pending_tool_call_response (shown_in w) session_id resolved_call actions
              thinking_text)
          >>= λ response. pure (paused response))

  abbrev pub checked_in : ToolCall → W → Precheck
  checked_in call w =
      precheck_and_resolve_gated_call
        (λ name args. world.resolve_open_application_target name args w) config.desktop_path call

  -- With approval, the call is checked; without, it runs at once.
  unfoldable pub gated_by :
      Bool → Bytes → ToolCall → List PendingToolActionRecord → Bytes → Action W Gated
  unfolding precheck_and_resolve_gated_call checked_call
  gated_by true session_id call actions thinking_text =
      observe (checked_in call) >>= checked_call session_id call actions thinking_text
  gated_by false session_id call actions thinking_text =
      run_tool (world.execute_agent_tool call.name call.arguments_json)
      >>= result_recorded session_id call actions

  unfoldable pub execute_decision_or_pause : Gate W
  unfolding tool_call_requires_approval gated_by
  execute_decision_or_pause session_id tool_name arguments_json actions thinking_text =
      gated_by (tool_call_requires_approval tool_name) session_id
        (classified_call tool_name arguments_json) actions thinking_text

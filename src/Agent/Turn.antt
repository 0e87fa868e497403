-- ===== src/Agent/Turn.antt =====
-- cli/host.cpp: one turn of the agent, and the decision on a call that waits for one. The logs are left out.
use droidcli.Common.{
  Bool, true, false, not, ◌&&◌, Option, none, some, List, [], ◌∷◌, ◌++◌, Bytes, codes, concat, map,
  same, is_empty, if◌then◌else◌, pos,
}
use droidcli.Json.{extract_json_string_field, extract_json_bool_field}
use droidcli.Json.Decimal.{print_int}
use droidcli.Ai.{system, user, assistant, tool, ChatMessage, chat_role_from_string}
use droidcli.Host.{flag_and_error}
use droidcli.Agent.{
  PendingToolActionRecord, PendingAgentToolCall, AgentState, AgentConfig, World, Transport, Action,
  pure, ◌>>=◌, ◌>>◌, choose, get_state, modify, outside, record_agent_message, load_session,
  is_retriable_tool,
}
use droidcli.Agent.Templates.{field, or_false, ok_field}
use droidcli.Agent.Provider.{
  TurnDecision, llm_tool, plain_reply, transport_failed, classify_via_llm, phrase_result,
}
use droidcli.Agent.Replies.{build_final_agent_response, retry_failure, failed_turn}
use droidcli.Agent.Gate.{
  Gated, executed, paused, Gate, with_pending, action_record, run_tool, execute_decision_or_pause,
}

-- The session that a turn is for: a new one, a stored one that is loaded, or the current one.
unfoldable pub select_session : Bool → Bytes → Bytes → AgentState → AgentState
unfolding same load_session chat_role_from_string
select_session clear requested_session_id new_session_id s =
    if clear
    then record s { agent_transcript = []; current_session_id = new_session_id }
    else if not (is_empty requested_session_id)
        && not (same requested_session_id s.current_session_id)
    then record s {
      agent_transcript =
          map (λ r. record { role = chat_role_from_string r.role; content = r.content })
            (load_session requested_session_id s.memory_store);
      current_session_id = requested_session_id;
    }
    else s

abbrev pub waits_in : Bytes → Option PendingAgentToolCall → Bool
waits_in session_id none = false
waits_in session_id (some pending) = same pending.session_id session_id

abbrev pub abandoned : Bytes
abandoned =
    codes
      "(A previously pending tool call in this session was abandoned - the user sent a new message instead of approving or declining it. If it's still relevant, call the tool again.)"

abbrev pub no_messages : List ChatMessage → Bool
no_messages [] = true
no_messages (m ∷ ms) = false

-- The rest of a turn, whose calls of `execute_decision_or_pause` go to `gate`.
module _ {W : Type 0} (config : AgentConfig) (post_json : Option (Transport W))
    (gate : Gate W) where
  abbrev pub classify : Action W TurnDecision
  classify = get_state >>= λ s. outside (classify_via_llm config post_json s.agent_transcript)

  -- The text that the user sees is recorded and answered.
  abbrev pub reply_recorded : Bytes → List PendingToolActionRecord → Bytes → Bytes → Action W Bytes
  reply_recorded session_id actions thinking_text assistant_text =
      record_agent_message session_id assistant assistant_text
      >> pure (build_final_agent_response session_id assistant_text actions thinking_text)

  unfoldable pub phrase_and_answer :
      Bytes → Bytes → Bytes → Bytes → List PendingToolActionRecord → Bytes → Action W Bytes
  unfolding phrase_result build_final_agent_response
  phrase_and_answer session_id tool_name arguments_json result_json actions thinking_text =
      outside (phrase_result config post_json tool_name arguments_json result_json)
      >>= reply_recorded session_id actions thinking_text

  abbrev pub after_retry : Bytes → Bytes → Bytes → Bytes → Gated → Action W Bytes
  after_retry session_id tool_name arguments_json thinking_text (paused response) = pure response
  after_retry session_id tool_name arguments_json thinking_text (executed result actions) =
      phrase_and_answer session_id tool_name arguments_json result actions thinking_text

  unfoldable pub retried :
      Bytes
      → Bytes
      → Bytes
      → Bytes
      → List PendingToolActionRecord
      → Bytes
      → TurnDecision
      → Action W Bytes
  unfolding phrase_and_answer
  retried session_id tool_name arguments_json result_json actions thinking_text
        (llm_tool name arguments thinking) =
      gate session_id name arguments actions thinking
      >>= after_retry session_id name arguments thinking_text
  retried session_id tool_name arguments_json result_json actions thinking_text
        (plain_reply text thinking) =
      phrase_and_answer session_id tool_name arguments_json result_json actions thinking_text
  retried session_id tool_name arguments_json result_json actions thinking_text
        (transport_failed reason) =
      phrase_and_answer session_id tool_name arguments_json result_json actions thinking_text

  unfoldable pub finish_turn_after_execution :
      Bytes → Bytes → Bytes → Bytes → List PendingToolActionRecord → Bool → Bytes → Action W Bytes
  unfolding extract_json_bool_field is_retriable_tool retry_failure classify_via_llm retried
      phrase_and_answer
  finish_turn_after_execution session_id tool_name arguments_json result_json actions allow_retry
        thinking_text =
      choose (allow_retry && (not (ok_field result_json) && is_retriable_tool tool_name))
        (record_agent_message session_id system (retry_failure tool_name result_json)
          >> (classify
              >>= retried session_id tool_name arguments_json result_json actions thinking_text))
        (phrase_and_answer session_id tool_name arguments_json result_json actions thinking_text)

  abbrev pub after_gate : Bytes → Bytes → Bytes → Bytes → Gated → Action W Bytes
  after_gate session_id tool_name arguments_json thinking_text (paused response) = pure response
  after_gate session_id tool_name arguments_json thinking_text (executed result actions) =
      finish_turn_after_execution session_id tool_name arguments_json result actions true
        thinking_text

  unfoldable pub follow_decision : Bytes → TurnDecision → Action W Bytes
  unfolding failed_turn build_final_agent_response finish_turn_after_execution
  follow_decision session_id (transport_failed reason) = pure (failed_turn session_id reason)
  follow_decision session_id (plain_reply text thinking_text) =
      reply_recorded session_id [] thinking_text text
  follow_decision session_id (llm_tool name arguments_json thinking_text) =
      gate session_id name arguments_json [] thinking_text
      >>= after_gate session_id name arguments_json thinking_text

  unfoldable pub abandon_pending : Bytes → Action W (Unit {0})
  unfolding same
  abandon_pending session_id = get_state >>= λ s.
      choose (waits_in session_id s.pending_tool_call)
        (modify (with_pending none) >> record_agent_message session_id system abandoned) (pure tt)

  unfoldable pub seeded_prompt : Bytes → Bytes
  unfolding print_int
  seeded_prompt timestamp = concat (
      config.system_prompt
      ∷ codes " Right now this index has "
      ∷ print_int (pos config.installed_apps)
      ∷ codes
          " installed applications in it. As of the start of this session, the date and time was "
      ∷ timestamp
      ∷ codes
          " - call get_system_info if you need the actual current date/time later in a long session, since this won't update on its own."
      ∷ [])

  unfoldable pub seed_system_prompt : Bytes → Bytes → Action W (Unit {0})
  unfolding seeded_prompt
  seed_system_prompt session_id timestamp = get_state >>= λ s.
      choose (no_messages s.agent_transcript && not (is_empty config.system_prompt))
        (record_agent_message session_id system (seeded_prompt timestamp)) (pure tt)

  unfoldable pub open_turn : Bytes → Bytes → Bytes → Action W Bytes
  unfolding abandon_pending flag_and_error seed_system_prompt classify_via_llm follow_decision
  open_turn session_id user_message timestamp =
      abandon_pending session_id
      >> choose config.enable_ai
          (seed_system_prompt session_id timestamp
            >> (record_agent_message session_id user user_message
                >> (classify >>= follow_decision session_id)))
          (pure (flag_and_error (codes "ok") false (codes "AI is disabled (--no-ai)")))

  abbrev pub in_session : Bytes → Bytes → AgentState → Action W Bytes
  in_session user_message timestamp s =
      choose (is_empty user_message)
        (pure (flag_and_error (codes "ok") false (codes "missing message")))
        (open_turn s.current_session_id user_message timestamp)

  unfoldable pub turn_from : Bytes → Bytes → Bytes → Action W Bytes
  unfolding extract_json_string_field extract_json_bool_field select_session flag_and_error
      open_turn
  turn_from new_session_id timestamp body =
      modify (
        select_session (or_false (extract_json_bool_field body (codes "clear") 0))
          (field body (codes "session_id")) new_session_id)
      >> (get_state >>= in_session (field body (codes "message")) timestamp)

-- A call that the user did not approve.
unfoldable pub declined_result : Bytes → Bytes
unfolding flag_and_error
declined_result reason = flag_and_error (codes "ok") false (
    if is_empty reason
    then codes "user declined this action"
    else codes "user declined: " ++ reason)

abbrev pub is_approved : Bytes → Bool
is_approved body = or_false (extract_json_bool_field body (codes "approved") 0)

abbrev pub none_waits : Bytes
none_waits = flag_and_error (codes "ok") false (codes "no tool call is awaiting a decision")

module _ {W : Type 0} (config : AgentConfig) (world : World W) where
  unfoldable pub agent_turn : Bytes → Bytes → Bytes → Action W Bytes
  unfolding execute_decision_or_pause turn_from
  agent_turn = turn_from config world.post_json (execute_decision_or_pause config world)

  -- The tail of the decision: the result is recorded, and the turn goes on.
  abbrev pub decision_resolved : PendingAgentToolCall → Bool → Bytes → Action W Bytes
  decision_resolved pending approved result =
      record_agent_message pending.session_id tool result
      >> finish_turn_after_execution config world.post_json (execute_decision_or_pause config world)
          pending.session_id pending.decided_call.name pending.decided_call.arguments_json result
          (pending.actions ++ action_record pending.decided_call result ∷ []) approved []

  abbrev pub decided_result : PendingAgentToolCall → Bool → Bytes → Action W Bytes
  decided_result pending true reason =
      run_tool
        (world.execute_agent_tool pending.decided_call.name pending.decided_call.arguments_json)
  decided_result pending false reason = pure (declined_result reason)

  abbrev pub decide : Bool → Bytes → Bytes → Option PendingAgentToolCall → Action W Bytes
  decide approved reason requested_session_id none = pure none_waits
  decide approved reason requested_session_id (some pending) =
      choose
        (not (is_empty requested_session_id) && not (same requested_session_id pending.session_id))
        (pure none_waits)
        (modify (with_pending none)
          >> (decided_result pending approved reason >>= decision_resolved pending approved))

  unfoldable pub agent_tool_decision : Bytes → Action W Bytes
  unfolding extract_json_string_field extract_json_bool_field same flag_and_error declined_result
      execute_decision_or_pause finish_turn_after_execution
  agent_tool_decision body = get_state >>= λ s.
      decide (is_approved body) (field body (codes "reason")) (field body (codes "session_id"))
        s.pending_tool_call

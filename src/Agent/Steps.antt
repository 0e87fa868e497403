-- ===== src/Agent/Steps.antt =====
-- One turn of the agent, and one decision, step by step.
use droidcli.Common.{
  ℕ, ◌+◌, ◌*◌, Bool, true, false, not, ◌&&◌, Option, none, some, [], ◌∷◌, ◌++◌, arith, Bytes,
  is_empty, codes, same,
}
use droidcli.Ai.{system, user, tool}
use droidcli.Agent.{
  AgentState, AgentConfig, World, Action, pure, get_state, modify, PendingAgentToolCall, ◌>>=◌,
  ◌>>◌, message_recorded, record_agent_message, choose,
}
use droidcli.Agent.Templates.{field, or_false}
use droidcli.Agent.Gate.{Gate, execute_decision_or_pause, with_pending, action_record}
use droidcli.Agent.Turn.{
  classify, waits_in, no_messages, abandoned, seeded_prompt, in_session, select_session,
  finish_turn_after_execution, follow_decision, abandon_pending, seed_system_prompt, open_turn,
  turn_from, agent_turn, is_approved, decision_resolved, declined_result, none_waits,
  decided_result, decide, agent_tool_decision,
}
use droidcli.Agent.Graded.{
  Graded, IsGraded, Within, Within-bind, Within-choose, Within-pure, Within-modify,
  Within-get_state,
}
use droidcli.Json.{extract_json_bool_field}
use droidcli.Host.{flag_and_error}
use droidcli.Agent.Gates.{StepLaws, then_said, run_tool-Within}
use droidcli.Agent.Phrasing.{classify-Within, finish-Within, follow-Within}

module _ {W : Type 0} (R : Graded W) (g : IsGraded R) (p e : ℕ) (config : AgentConfig)
    (world : World W) (h : StepLaws R p e world) where
  abbrev gate : Gate W
  gate = execute_decision_or_pause config world

  abandon-Within :
      (session_id : Bytes) → Within R g 0 (abandon_pending config world.post_json gate session_id)
  unfolding abandon_pending
  abandon-Within session_id =
      Within-bind R g 0 0 0 get_state
        (λ s.
          choose (waits_in session_id s.pending_tool_call)
            (modify (with_pending none) >> record_agent_message session_id system abandoned)
            (pure tt))
        (omega arith) (Within-get_state R g)
        (λ s.
          Within-choose R g 0 (waits_in session_id s.pending_tool_call)
            (modify (with_pending none) >> record_agent_message session_id system abandoned)
            (pure tt)
            (Within-bind R g 0 0 0 (modify (with_pending none))
              (λ u. record_agent_message session_id system abandoned) (omega arith)
              (Within-modify R g (with_pending none) h.drops)
              (λ u.
                Within-modify R g (message_recorded session_id system abandoned)
                  (h.says session_id system abandoned)))
            (Within-pure R g 0 tt))

  seed-Within :
      (session_id timestamp : Bytes)
      → Within R g 0 (seed_system_prompt config world.post_json gate session_id timestamp)
  unfolding seed_system_prompt
  seed-Within session_id timestamp =
      Within-bind R g 0 0 0 get_state
        (λ s.
          choose (no_messages s.agent_transcript && not (is_empty config.system_prompt))
            (record_agent_message session_id system
              (seeded_prompt config world.post_json gate timestamp))
            (pure tt))
        (omega arith) (Within-get_state R g)
        (λ s.
          Within-choose R g 0
            (no_messages s.agent_transcript && not (is_empty config.system_prompt))
            (record_agent_message session_id system
              (seeded_prompt config world.post_json gate timestamp))
            (pure tt)
            (Within-modify R g
              (message_recorded session_id system
                (seeded_prompt config world.post_json gate timestamp))
              (h.says session_id system (seeded_prompt config world.post_json gate timestamp)))
            (Within-pure R g 0 tt))

  open_turn-Within :
      (session_id message timestamp : Bytes)
      → Within R g
          (7 * p + 2 * e)
          (open_turn config world.post_json gate session_id message timestamp)
  unfolding open_turn
  open_turn-Within session_id message timestamp =
      let rest : Action W Bytes =
        classify config world.post_json gate
        >>= follow_decision config world.post_json gate session_id in
      let heard : Action W Bytes = record_agent_message session_id user message >> rest in
      let seeded : Action W Bytes =
        seed_system_prompt config world.post_json gate session_id timestamp >> heard in
      let off : Action W Bytes =
        pure (flag_and_error (codes "ok") false (codes "AI is disabled (--no-ai)")) in
      Within-bind R g 0 (7 * p + 2 * e) (7 * p + 2 * e)
        (abandon_pending config world.post_json gate session_id)
        (λ u. choose config.enable_ai seeded off) (omega arith) (abandon-Within session_id)
        (λ u.
          Within-choose R g (7 * p + 2 * e) config.enable_ai seeded off
            (Within-bind R g 0 (7 * p + 2 * e) (7 * p + 2 * e)
              (seed_system_prompt config world.post_json gate session_id timestamp) (λ v. heard)
              (omega arith) (seed-Within session_id timestamp)
              (λ v. then_said R g p e config world h (7 * p + 2 * e) session_id user message rest (
                Within-bind R g (3 * p) (4 * p + 2 * e) (7 * p + 2 * e)
                  (classify config world.post_json gate)
                  (follow_decision config world.post_json gate session_id) (omega arith)
                  (classify-Within R g p e config world h)
                  (follow-Within R g p e config world h session_id))))
            (Within-pure R g (7 * p + 2 * e)
              (flag_and_error (codes "ok") false (codes "AI is disabled (--no-ai)"))))

  pub turn-Within :
      (new_session_id timestamp body : Bytes)
      → Within R g (7 * p + 2 * e) (agent_turn config world new_session_id timestamp body)
  unfolding agent_turn turn_from
  turn-Within new_session_id timestamp body =
      let message = field body (codes "message") in
      let reject : Action W Bytes =
        pure (flag_and_error (codes "ok") false (codes "missing message")) in
      let opened : AgentState → Action W Bytes =
        λ s. open_turn config world.post_json gate s.current_session_id message timestamp in
      let select : AgentState → AgentState =
        select_session (or_false (extract_json_bool_field body (codes "clear") 0))
          (field body (codes "session_id")) new_session_id in
      Within-bind R g 0 (7 * p + 2 * e) (7 * p + 2 * e) (modify select)
        (λ u. get_state >>= in_session config world.post_json gate message timestamp) (omega arith)
        (Within-modify R g select (h.selects _ _ _))
        (λ u.
          Within-bind R g 0 (7 * p + 2 * e) (7 * p + 2 * e) get_state
            (in_session config world.post_json gate message timestamp) (omega arith)
            (Within-get_state R g)
            (λ s.
              Within-choose R g (7 * p + 2 * e) (is_empty message) reject (opened s)
                (Within-pure R g (7 * p + 2 * e) _)
                (open_turn-Within s.current_session_id message timestamp)))

  resolved-Within :
      (pending : PendingAgentToolCall) (approved : Bool) (result : Bytes)
      → Within R g (4 * p + e) (decision_resolved config world pending approved result)
  resolved-Within pending approved result =
      let actions = pending.actions ++ action_record pending.decided_call result ∷ [] in
      then_said R g p e config world h (4 * p + e) pending.session_id tool result
        (finish_turn_after_execution config world.post_json gate pending.session_id
          pending.decided_call.name pending.decided_call.arguments_json result actions approved [])
        (finish-Within R g p e config world h pending.session_id pending.decided_call.name
          pending.decided_call.arguments_json result actions approved [])

  decided_result-Within :
      (pending : PendingAgentToolCall) (approved : Bool) (reason : Bytes)
      → Within R g e (decided_result config world pending approved reason)
  decided_result-Within pending true reason =
      run_tool-Within R g p e config world h pending.decided_call.name
        pending.decided_call.arguments_json
  decided_result-Within pending false reason = Within-pure R g e (declined_result reason)

  decide-Within :
      (approved : Bool) (reason requested : Bytes) (o : Option PendingAgentToolCall)
      → Within R g (4 * p + 2 * e) (decide config world approved reason requested o)
  decide-Within approved reason requested none = Within-pure R g (4 * p + 2 * e) none_waits
  decide-Within approved reason requested (some pending) =
      let go : Action W Bytes =
        decided_result config world pending approved reason
        >>= decision_resolved config world pending approved in
      Within-choose R g (4 * p + 2 * e)
        (not (is_empty requested) && not (same requested pending.session_id)) (pure none_waits)
        (modify (with_pending none) >> go) (Within-pure R g (4 * p + 2 * e) none_waits)
        (Within-bind R g 0 (4 * p + 2 * e) (4 * p + 2 * e) (modify (with_pending none)) (λ u. go)
          (omega arith) (Within-modify R g (with_pending none) h.drops)
          (λ u.
            Within-bind R g e (4 * p + e) (4 * p + 2 * e)
              (decided_result config world pending approved reason)
              (decision_resolved config world pending approved) (omega arith)
              (decided_result-Within pending approved reason) (resolved-Within pending approved)))

  pub decision-Within :
      (body : Bytes) → Within R g (4 * p + 2 * e) (agent_tool_decision config world body)
  unfolding agent_tool_decision
  decision-Within body =
      let reason = field body (codes "reason") in
      let requested = field body (codes "session_id") in
      Within-bind R g 0 (4 * p + 2 * e) (4 * p + 2 * e) get_state
        (λ s. decide config world (is_approved body) reason requested s.pending_tool_call)
        (omega arith) (Within-get_state R g)
        (λ s. decide-Within (is_approved body) reason requested s.pending_tool_call)

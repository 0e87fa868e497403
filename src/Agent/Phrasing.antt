-- ===== src/Agent/Phrasing.antt =====
-- What follows a decision of the model, step by step.
use droidcli.Common.{ℕ, ◌+◌, ◌*◌, Bool, true, not, ◌&&◌, List, [], arith, Bytes}
use droidcli.Ai.{system, assistant}
use droidcli.Agent.{
  AgentConfig, World, get_state, outside, PendingToolActionRecord, ◌>>=◌, ◌>>◌,
  record_agent_message, is_retriable_tool,
}
use droidcli.Agent.Templates.{ok_field}
use droidcli.Agent.Provider.{
  TurnDecision, llm_tool, plain_reply, transport_failed, classify_via_llm, phrase_result,
}
use droidcli.Agent.Gate.{Gated, executed, paused, Gate, execute_decision_or_pause}
use droidcli.Agent.Turn.{
  classify, reply_recorded, after_retry, after_gate, phrase_and_answer, retried,
  finish_turn_after_execution, follow_decision,
}
use droidcli.Agent.Graded.{
  Graded, IsGraded, Within, Within-bind, Within-weaken, Within-choose, Within-pure,
  Within-get_state, Within-outside, classify_via_llm_within, phrase_result_within,
}
use droidcli.Agent.Replies.{build_final_agent_response, retry_failure, failed_turn}
use droidcli.Agent.Gates.{StepLaws, said, then_said, gate-Within}

module _ {W : Type 0} (R : Graded W) (g : IsGraded R) (p e : ℕ) (config : AgentConfig)
    (world : World W) (h : StepLaws R p e world) where
  abbrev gate : Gate W
  gate = execute_decision_or_pause config world

  pub classify-Within : Within R g (3 * p) (classify config world.post_json gate)
  classify-Within =
      Within-bind R g 0 (3 * p) (3 * p) get_state
        (λ s. outside (classify_via_llm config world.post_json s.agent_transcript)) (omega arith)
        (Within-get_state R g)
        (λ s. Within-outside R g (3 * p) _ (λ t.
          classify_via_llm_within R g p t config world.post_json s.agent_transcript h.request))

  phrase_and_answer-Within :
      (session_id name arguments_json result : Bytes) (actions : List PendingToolActionRecord)
      (thinking : Bytes)
      → Within R g p (
          phrase_and_answer config world.post_json gate session_id name arguments_json result
            actions thinking)
  unfolding phrase_and_answer
  phrase_and_answer-Within session_id name arguments_json result actions thinking =
      Within-bind R g p 0 p
        (outside (phrase_result config world.post_json name arguments_json result))
        (reply_recorded config world.post_json gate session_id actions thinking) (omega arith)
        (Within-outside R g p _ (λ t.
          phrase_result_within R g p t config world.post_json name arguments_json result h.request))
        (λ text.
          said R g p e config world h session_id assistant text
            (build_final_agent_response session_id text actions thinking))

  after_retry-Within :
      (session_id name arguments_json thinking : Bytes) (o : Gated)
      → Within R g p
          (after_retry config world.post_json gate session_id name arguments_json thinking o)
  after_retry-Within session_id name arguments_json thinking (paused r) = Within-pure R g p r
  after_retry-Within session_id name arguments_json thinking (executed r actions) =
      phrase_and_answer-Within session_id name arguments_json r actions thinking

  retried-Within :
      (session_id name arguments_json result : Bytes) (actions : List PendingToolActionRecord)
      (thinking : Bytes) (d : TurnDecision)
      → Within R g (e + p) (
          retried config world.post_json gate session_id name arguments_json result actions thinking
            d)
  unfolding retried
  retried-Within session_id name arguments_json result actions thinking (llm_tool n a t) =
      Within-bind R g e p (e + p) (gate session_id n a actions t)
        (after_retry config world.post_json gate session_id n a thinking) (omega arith)
        (gate-Within R g p e config world h session_id n a actions t)
        (after_retry-Within session_id n a thinking)
  retried-Within session_id name arguments_json result actions thinking (plain_reply x t) =
      Within-weaken R g p (e + p) _ (omega arith)
        (phrase_and_answer-Within session_id name arguments_json result actions thinking)
  retried-Within session_id name arguments_json result actions thinking (transport_failed r) =
      Within-weaken R g p (e + p) _ (omega arith)
        (phrase_and_answer-Within session_id name arguments_json result actions thinking)

  pub finish-Within :
      (session_id name arguments_json result : Bytes) (actions : List PendingToolActionRecord)
      (allow_retry : Bool) (thinking : Bytes)
      → Within R g (4 * p + e) (
          finish_turn_after_execution config world.post_json gate session_id name arguments_json
            result actions allow_retry thinking)
  unfolding finish_turn_after_execution
  finish-Within session_id name arguments_json result actions allow_retry thinking =
      Within-choose R g (4 * p + e)
        (allow_retry && (not (ok_field result) && is_retriable_tool name))
        (record_agent_message session_id system (retry_failure name result)
          >> (classify config world.post_json gate
              >>= retried config world.post_json gate session_id name arguments_json result actions
                  thinking))
        (phrase_and_answer config world.post_json gate session_id name arguments_json result actions
          thinking)
        (then_said R g p e config world h (4 * p + e) session_id system (retry_failure name result)
          (classify config world.post_json gate
            >>= retried config world.post_json gate session_id name arguments_json result actions
                thinking)
          (Within-bind R g (3 * p) (e + p) (4 * p + e) (classify config world.post_json gate)
            (retried config world.post_json gate session_id name arguments_json result actions
              thinking)
            (omega arith) classify-Within
            (retried-Within session_id name arguments_json result actions thinking)))
        (Within-weaken R g p (4 * p + e) _ (omega arith)
          (phrase_and_answer-Within session_id name arguments_json result actions thinking))

  after_gate-Within :
      (session_id name arguments_json thinking : Bytes) (o : Gated)
      → Within R g
          (4 * p + e)
          (after_gate config world.post_json gate session_id name arguments_json thinking o)
  after_gate-Within session_id name arguments_json thinking (paused r) =
      Within-pure R g (4 * p + e) r
  after_gate-Within session_id name arguments_json thinking (executed r actions) =
      finish-Within session_id name arguments_json r actions true thinking

  pub follow-Within :
      (session_id : Bytes) (d : TurnDecision)
      → Within R g (4 * p + 2 * e) (follow_decision config world.post_json gate session_id d)
  unfolding follow_decision
  follow-Within session_id (transport_failed r) =
      Within-pure R g (4 * p + 2 * e) (failed_turn session_id r)
  follow-Within session_id (plain_reply x t) = Within-weaken R g 0 (4 * p + 2 * e) _ (omega arith) (
      said R g p e config world h session_id assistant x
        (build_final_agent_response session_id x [] t))
  follow-Within session_id (llm_tool n a t) =
      Within-bind R g e (4 * p + e) (4 * p + 2 * e) (gate session_id n a [] t)
        (after_gate config world.post_json gate session_id n a t) (omega arith)
        (gate-Within R g p e config world h session_id n a [] t)
        (after_gate-Within session_id n a t)

-- ===== src/Agent/Budget.antt =====
-- How much a turn of the agent, and a decision, ask of the world at most.
use droidcli.Common.{ℕ, ◌+◌, ◌*◌, ◌≤◌, arith, Bytes, Option, none, some}
use droidcli.Agent.{AgentState, AgentConfig, World, Transport}
use droidcli.Agent.Graded.{IsGraded, PostWithin}
use droidcli.Agent.Gates.{StepLaws}
use droidcli.Agent.Steps.{turn-Within, decision-Within}
use droidcli.Agent.Turn.{agent_turn, agent_tool_decision}

-- What a request costs at most.
abbrev pub RequestPrice : {W : Type 0} → (W → ℕ) → ℕ → Option (Transport W) → Type 0
RequestPrice cost p none = Unit {0}
RequestPrice {W = W} cost p (some post) =
    (url body : Bytes) (w : W) → cost (post url body w).1 ≤ cost w + p

-- What each request and each run of a tool costs at most.
pub record Prices {W : Type 0} (cost : W → ℕ) (p e : ℕ) (world : World W) : Type 0 where
  pub request : RequestPrice cost p world.post_json
  pub run :
      (name arguments_json : Bytes) (w : W)
      → cost (world.execute_agent_tool name arguments_json w).1 ≤ cost w + e

module _ {W : Type 0} (cost : W → ℕ) where
  -- The cost has risen by at most `n`.
  record Costs (n : ℕ) (x y : AgentState × W) : Type 0 where
    most : cost y.1 ≤ cost x.1 + n

  Costs-IsGraded : IsGraded Costs
  Costs-IsGraded = record {
    stay = λ n x. record { most = omega arith };
    chain = λ a b n x y z l h g. record { most = omega (arith, l, h.most, g.most) };
  }

  Costs-request : (p : ℕ) (o : Option (Transport W)) → RequestPrice cost p o → PostWithin Costs p o
  Costs-request p none h = tt
  Costs-request p (some post) h = λ s url body w. record { most = h url body w }

  Costs-StepLaws : (p e : ℕ) (world : World W) → Prices cost p e world → StepLaws Costs p e world
  Costs-StepLaws p e world h = record {
    request = Costs-request p world.post_json h.request;
    run = λ name arguments_json s w. record { most = h.run name arguments_json w };
    says = λ session_id role content s w. record { most = omega arith };
    drops = λ s w. record { most = omega arith };
    waits = λ pending a s w. record { most = omega arith };
    selects = λ clear requested_session_id new_session_id s w. record { most = omega arith };
  }

  -- If a request costs at most `p` and a run of a tool at most `e`, a turn costs at most 7 requests and 2 runs,
  -- and a decision on a waiting call at most 4 requests and 2 runs, whatever the model and the tools answer.
  pub agent_budget :
      (p e : ℕ) (config : AgentConfig) (world : World W)
      → Prices cost p e world
      → (new_session_id timestamp body : Bytes) (s : AgentState) (w : W)
      → (cost (agent_turn config world new_session_id timestamp body (s, w)).1.1
          ≤ cost w + (7 * p + 2 * e))
        × (cost (agent_tool_decision config world body (s, w)).1.1 ≤ cost w + (4 * p + 2 * e))
  agent_budget p e config world h new_session_id timestamp body s w =
      let laws = Costs-StepLaws p e world h in
      (
        ((turn-Within Costs Costs-IsGraded p e config world laws new_session_id timestamp
              body).bound
            s w).most,
        ((decision-Within Costs Costs-IsGraded p e config world laws body).bound s w).most,
      )

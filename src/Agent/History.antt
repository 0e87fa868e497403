-- ===== src/Agent/History.antt =====
-- What no turn of the agent takes away: the history in the store, and the gate before a waiting call.
use droidcli.Common.{
  ℕ, Bool, true, false, not, ◌&&◌, Option, none, some, List, [], ◌++◌, append_assoc, append-nil,
  ◌≡◌, refl, sym, ap, ◌∙◌, Bytes, is_empty, same, Bool-cases, inl, inr,
}
use droidcli.Agent.{
  AgentState, AgentConfig, World, Transport, MemoryRecord, PendingAgentToolCall, append_memory,
  message_recorded, tool_call_requires_approval,
}
use droidcli.Ai.{ChatRole}
use droidcli.Agent.Graded.{IsGraded, PostWithin}
use droidcli.Agent.Gates.{StepLaws}
use droidcli.Agent.Steps.{turn-Within, decision-Within}
use droidcli.Agent.Turn.{agent_turn, agent_tool_decision, select_session}

-- A call that waits is one that wants the user's approval.
abbrev pub WaitsGated : Option PendingAgentToolCall → Type 0
WaitsGated none = Unit {0}
WaitsGated (some pending) = tool_call_requires_approval pending.decided_call.name ≡ true

-- The later state's store has the earlier one's rows, in their order and in front; and if only a gated
-- call could wait before, so it is after.
pub record Keeps (s t : AgentState) : Type 0 where
  pub rows : List MemoryRecord
  pub history : t.memory_store ≡ s.memory_store ++ rows
  pub gated : WaitsGated s.pending_tool_call → WaitsGated t.pending_tool_call

Keeps-refl : (s : AgentState) → Keeps s s
Keeps-refl s = record { rows = []; history = sym (append-nil s.memory_store); gated = λ g. g }

Keeps-trans : (s t u : AgentState) → Keeps s t → Keeps t u → Keeps s u
Keeps-trans s t u h k = record {
  rows = h.rows ++ k.rows;
  history = k.history ∙ ap (λ m. m ++ k.rows) h.history ∙ append_assoc s.memory_store h.rows k.rows;
  gated = λ g. k.gated (h.gated g);
}

Keeps-recorded :
    (session_id : Bytes) (role : ChatRole) (content : Bytes) (s : AgentState)
    → Keeps s (message_recorded session_id role content s)
unfolding message_recorded append_memory
Keeps-recorded session_id role content s = record { rows = _; history = refl; gated = λ g. g }

Keeps-select_session :
    (clear : Bool) (requested_session_id new_session_id : Bytes) (s : AgentState)
    → Keeps s (select_session clear requested_session_id new_session_id s)
unfolding select_session
Keeps-select_session true requested_session_id new_session_id s = record {
  rows = [];
  history = sym (append-nil s.memory_store);
  gated = λ g. g;
}
Keeps-select_session false requested_session_id new_session_id s =
    elim (Bool-cases (
      not (is_empty requested_session_id)
      && not (same requested_session_id s.current_session_id))) [
        | inl e ↦
            rw e (record { rows = []; history = sym (append-nil s.memory_store); gated = λ g. g })
        | inr e ↦ rw e (Keeps-refl s)
      ]

module _ {W : Type 0} where
  record Kept (n : ℕ) (x y : AgentState × W) : Type 0 where
    keeps : Keeps x.0 y.0

  Kept-IsGraded : IsGraded Kept
  Kept-IsGraded = record {
    stay = λ n x. record { keeps = Keeps-refl x.0 };
    chain = λ a b n x y z l h g. record { keeps = Keeps-trans x.0 y.0 z.0 h.keeps g.keeps };
  }

  Kept-request : (o : Option (Transport W)) → PostWithin Kept 0 o
  Kept-request none = tt
  Kept-request (some post) = λ s url body w. record { keeps = Keeps-refl s }

  Kept-StepLaws : (world : World W) → StepLaws Kept 0 0 world
  Kept-StepLaws world = record {
    request = Kept-request world.post_json;
    run = λ name arguments_json s w. record { keeps = Keeps-refl s };
    says =
        λ session_id role content s w. record { keeps = Keeps-recorded session_id role content s };
    drops = λ s w. record {
      keeps = record { rows = []; history = sym (append-nil s.memory_store); gated = λ g. tt };
    };
    waits = λ pending a s w. record {
      keeps = record { rows = []; history = sym (append-nil s.memory_store); gated = λ g. a };
    };
    selects = λ clear requested_session_id new_session_id s w. record {
      keeps = Keeps-select_session clear requested_session_id new_session_id s;
    };
  }

  -- A turn and a decision leave every row of the memory store where it is and add theirs behind, on every
  -- path and also where an exception leaves them; and if the call that waited before (if any) is of a tool that
  -- wants approval, so is the one that waits after.
  pub agent-Keeps :
      (config : AgentConfig) (world : World W) (new_session_id timestamp body : Bytes)
      (s : AgentState) (w : W)
      → Keeps s (agent_turn config world new_session_id timestamp body (s, w)).1.0
        × Keeps s (agent_tool_decision config world body (s, w)).1.0
  agent-Keeps config world new_session_id timestamp body s w =
      let laws = Kept-StepLaws world in
      (
        ((turn-Within Kept Kept-IsGraded 0 0 config world laws new_session_id timestamp body).bound
            s w).keeps,
        ((decision-Within Kept Kept-IsGraded 0 0 config world laws body).bound s w).keeps,
      )

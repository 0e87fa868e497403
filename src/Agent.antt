-- ===== src/Agent.antt =====
-- cli/host.cpp: the agent's turn, "classify, execute, phrase", with src/classify, src/ai/model_provider.cpp
-- and cli/memory_store.cpp: the state of the agent, and the actions that a turn is made of.
pub mod Templates
pub mod Arguments
pub mod Provider
pub mod Replies
pub mod Gate
pub mod Turn
pub mod Approval
pub mod Graded
pub mod Gates
pub mod Phrasing
pub mod Steps
pub mod Budget
pub mod History
pub mod Rewrites
mod Tests
use droidcli.Common.{
  ℕ, ◌+◌, ◌-◌, Bool, true, false, not, ◌&&◌, ◌||◌, Option, none, some, List, [], ◌∷◌, ◌++◌, Bytes,
  codes, same, is_empty, length, ltb, any, if◌then◌else◌, map, ℤ,
}
use droidcli.Ai.{
  ChatRole, ChatMessage, ToolCall, ToolDefinition, OpenAiCompatConfig, chat_role_to_string,
  chat_role_from_string,
}

pub record PendingToolActionRecord : Type 0 where
  pub tool : Bytes
  pub arguments_json : Bytes
  pub result_json : Bytes

-- `PendingAgentToolCall` that is active; an inactive one is `none`.
pub record PendingAgentToolCall : Type 0 where
  pub session_id : Bytes
  pub decided_call : ToolCall
  pub actions : List PendingToolActionRecord

-- A row of the table `memory_entries`.
pub record MemoryRecord : Type 0 where
  pub session_id : Bytes
  pub hop_index : ℕ
  pub role : Bytes
  pub content : Bytes

pub record AgentState : Type 0 where
  pub agent_transcript : List ChatMessage
  pub current_session_id : Bytes
  pub pending_tool_call : Option PendingAgentToolCall
  pub memory_store : List MemoryRecord

-- `INSERT`, on a store that is open
unfoldable pub append_memory : MemoryRecord → List MemoryRecord → List MemoryRecord
append_memory r rows = rows ++ r ∷ []

unfoldable pub rows_of : Bytes → List MemoryRecord → List MemoryRecord
unfolding same
rows_of session_id [] = []
rows_of session_id (r ∷ rows) =
    let rest = rows_of session_id rows in if same r.session_id session_id then r ∷ rest else rest

-- `ORDER BY hop_index ASC`: a row behind those whose index is not greater.
unfoldable pub insert_row : MemoryRecord → List MemoryRecord → List MemoryRecord
insert_row r [] = r ∷ []
insert_row r (s ∷ rows) =
    let rest = insert_row r rows in if ltb s.hop_index r.hop_index then s ∷ rest else r ∷ s ∷ rows

unfoldable pub sort_rows : List MemoryRecord → List MemoryRecord
unfolding insert_row
sort_rows [] = []
sort_rows (r ∷ rows) = insert_row r (sort_rows rows)

unfoldable pub load_session : Bytes → List MemoryRecord → List MemoryRecord
unfolding rows_of sort_rows
load_session session_id rows = sort_rows (rows_of session_id rows)

unfoldable pub tool_call_requires_approval : Bytes → Bool
unfolding same
tool_call_requires_approval tool_name =
    any (λ name. same tool_name name)
      (codes "run_command"
        ∷ codes "run_ffmpeg"
        ∷ codes "write_file"
        ∷ codes "open_application"
        ∷ codes "launch_connector"
        ∷ codes "stop_connector"
        ∷ codes "enqueue_task"
        ∷ codes "cancel_task"
        ∷ codes "copy_file"
        ∷ codes "move_path"
        ∷ codes "delete_file"
        ∷ codes "create_directory"
        ∷ codes "write_clipboard"
        ∷ [])

unfoldable pub is_retriable_tool : Bytes → Bool
unfolding same
is_retriable_tool tool_name =
    any (λ name. same tool_name name)
      (codes "run_command"
        ∷ codes "run_ffmpeg"
        ∷ codes "read_file"
        ∷ codes "write_file"
        ∷ codes "copy_file"
        ∷ codes "move_path"
        ∷ codes "delete_file"
        ∷ codes "create_directory"
        ∷ codes "open_application"
        ∷ [])

-- What the configuration and the start of the host fix.
pub record AgentConfig : Type 0 where
  pub enable_ai : Bool
  pub system_prompt : Bytes
  pub ollama_url : Bytes
  pub ollama_model : Bytes
  pub ollama_num_ctx : ℤ
  pub tools : List ToolDefinition
  pub desktop_path : Bytes
  pub installed_apps : ℕ

pub record ResolvedLaunchTarget : Type 0 where
  pub resolved : Bool
  pub target : Bytes
  pub effective_args : Bytes
  pub display_name : Bytes
  pub error_message : Bytes

-- `post_json` of the transport: success, status code and body
abbrev pub Transport : Type 0 → Type 0
Transport W = Bytes → Bytes → W → (Bool × (ℤ × Bytes)) × W

-- What surrounds the agent: how a tool runs, what the transport answers to a URL and a body (if it is
-- bound), and what the file system says of launch targets and paths, on a state that tools and requests
-- may change.
pub record World (W : Type 0) : Type 0 where
  pub execute_agent_tool : Bytes → Bytes → W → Bytes × W
  pub post_json : Option (Transport W)
  pub resolve_open_application_target : Bytes → Bytes → W → ResolvedLaunchTarget
  pub absolute : Bytes → W → Option Bytes

-- An action on the agent's state and the world; `none` where an exception leaves it.
abbrev pub Action : Type 0 → Type 0 → Type 0
Action W A = AgentState × W → Option A × (AgentState × W)

module _ {W A : Type 0} where
  abbrev pub pure : A → Action W A
  pure a s = (some a, s)

abbrev pub continued :
    {W A B : Type 0} → (A → Action W B) → Option A → AgentState × W → Option B × (AgentState × W)
continued k none t = (none, t)
continued k (some a) t = k a t

infixl 5 ◌>>=◌ ◌>>◌
abbrev pub ◌>>=◌ : {W A B : Type 0} → Action W A → (A → Action W B) → Action W B
◌>>=◌ m k s = let (r, t) = m s in continued k r t

abbrev pub ◌>>◌ : {W A B : Type 0} → Action W A → Action W B → Action W B
m >> k = m >>= λ _. k

-- One of two actions.
abbrev pub choose : {W A : Type 0} → Bool → Action W A → Action W A → Action W A
choose true m k = m
choose false m k = k

module _ {W : Type 0} where
  abbrev pub get_state : Action W AgentState
  get_state (s, w) = (some s, (s, w))

  abbrev pub modify : (AgentState → AgentState) → Action W (Unit {0})
  modify f (s, w) = (some tt, (f s, w))

  -- What the world does, on its own state.
  abbrev pub outside : {A : Type 0} → (W → Option A × W) → Action W A
  outside f (s, w) = let (r, v) = f w in (r, (s, v))

  -- What it says of the world, which stays as it is.
  abbrev pub observe : {A : Type 0} → (W → A) → Action W A
  observe f = outside (λ w. (some (f w), w))

unfoldable pub message_recorded : Bytes → ChatRole → Bytes → AgentState → AgentState
unfolding append_memory chat_role_to_string
message_recorded session_id role content s =
    let transcript = s.agent_transcript ++ record { role = role; content = content } ∷ [] in
    record s {
      agent_transcript = transcript;
      memory_store =
          append_memory
            (record {
              session_id = session_id;
              hop_index = length transcript - 1;
              role = chat_role_to_string role;
              content = content;
            })
            s.memory_store;
    }

abbrev pub record_agent_message : {W : Type 0} → Bytes → ChatRole → Bytes → Action W (Unit {0})
record_agent_message session_id role content = modify (message_recorded session_id role content)

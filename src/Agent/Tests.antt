-- ===== src/Agent/Tests.antt =====
-- Turns, decisions and rewritten arguments of an agent with a small world: its state counts.
use mathlib.Core.Path.{fun_ext}
use droidcli.Common.{
  ℕ, ◌+◌, ◌≤◌, arith, Bool, true, false, some, none, [], ◌≡◌, refl, sym, ◌∙◌, Bytes, codes, pos,
}
use droidcli.Agent.{
  AgentState, AgentConfig, World, Transport, PendingAgentToolCall, message_recorded,
  tool_call_requires_approval,
}
use droidcli.Agent.Arguments.{replace_json_string_field_value}
use droidcli.Json.{extract_json_string_field, extract_json_bool_field, find_value}
use droidcli.Agent.Gate.{classified_call}
use droidcli.Agent.Turn.{agent_turn, is_approved, agent_tool_decision}
use droidcli.Agent.Approval.{Tools, with_tools, SameUngated, turn-SameUngated, decision-SameUngated}
use droidcli.Agent.Budget.{Prices, agent_budget}
use droidcli.Agent.History.{Keeps, agent-Keeps}
use droidcli.Agent.Rewrites.{rewritten_field_reads}

abbrev config : AgentConfig
config = record {
  enable_ai = true;
  system_prompt = [];
  ollama_url = codes "http://h";
  ollama_model = codes "m";
  ollama_num_ctx = pos 0;
  tools = [];
  desktop_path = codes "/home/a/Desktop";
  installed_apps = 3;
}

-- A model that wants to create a directory.
abbrev wants_directory : Transport ℕ
wants_directory url body w = (
  (
    true,
    (
      pos 200,
      codes
          "{\"choices\":[{\"message\":{\"role\":\"assistant\",\"content\":\"\",\"tool_calls\":[{\"id\":\"c\",\"type\":\"function\",\"function\":{\"name\":\"create_directory\",\"arguments\":\"{}\"}}]}}]}",
    ),
  ),
  w + 1,
)

abbrev world : World ℕ
world = record {
  execute_agent_tool = λ name arguments_json w. (codes "{\"ok\":true}", w + 1);
  post_json = some wants_directory;
  resolve_open_application_target = λ name args w. record {
    resolved = true;
    target = name;
    effective_args = args;
    display_name = [];
    error_message = [];
  };
  absolute = λ path w. some path;
}

abbrev unless_gated : Bool → ℕ → Bytes × ℕ
unless_gated true w = (codes "{}", 0)
unless_gated false w = (codes "{\"ok\":true}", w + 1)

-- Tools that refuse whatever wants approval.
abbrev wary : Tools ℕ
wary name arguments_json w = unless_gated (tool_call_requires_approval name) w

ungated : (b : Bool) → b ≡ false → (w : ℕ) → (codes "{\"ok\":true}", w + 1) ≡ unless_gated b w
ungated true e w = cc
ungated false e w = refl

wary-SameUngated : SameUngated world.execute_agent_tool wary
wary-SameUngated name arguments_json e = fun_ext (ungated (tool_call_requires_approval name) e)

abbrev idle : AgentState
idle = record {
  agent_transcript = [];
  current_session_id = codes "s";
  pending_tool_call = none;
  memory_store = [];
}

abbrev waiting_call : PendingAgentToolCall
waiting_call = record {
  session_id = codes "s";
  decided_call = classified_call (codes "create_directory") (codes "{}");
  actions = [];
}

abbrev waiting : AgentState
waiting = record idle { pending_tool_call = some waiting_call }

abbrev request : Bytes
request = codes "{\"message\":\"make it\"}"

abbrev refusal : Bytes
refusal = codes "{\"approved\":false}"

-- The model's tool call waits: nothing has run, and the call is the one that was decided.
paused_turn :
    (agent_turn config world (codes "n") (codes "t") request (idle, 0)).1.0.pending_tool_call
    ≡ some waiting_call
unfolding agent_turn message_recorded
paused_turn = refl

turn-SameUngated_example :
    agent_turn config
      (with_tools world world.execute_agent_tool)
      (codes "n")
      (codes "t")
      request
      (idle, 0)
    ≡ agent_turn config (with_tools world wary) (codes "n") (codes "t") request (idle, 0)
turn-SameUngated_example =
    turn-SameUngated config world world.execute_agent_tool wary wary-SameUngated (codes "n")
      (codes "t") request idle 0

not_approved : is_approved refusal ≡ false
unfolding extract_json_bool_field
not_approved = refl

never : {A : Type 0} → false ≡ true → A
never e = cc

decision-SameUngated_example :
    agent_tool_decision config (with_tools world world.execute_agent_tool) refusal (waiting, 0)
    ≡ agent_tool_decision config (with_tools world wary) refusal (waiting, 0)
decision-SameUngated_example =
    decision-SameUngated config world world.execute_agent_tool wary wary-SameUngated refusal waiting
      0 (λ a. never (sym not_approved ∙ a))

abbrev counted : ℕ → ℕ
counted w = w

counted-Prices : Prices counted 1 1 world
counted-Prices = record {
  request = λ url body w. omega arith;
  run = λ name arguments_json w. omega arith;
}

agent_budget_example :
    ((agent_turn config world (codes "n") (codes "t") request (idle, 0)).1.1 ≤ 9)
    × ((agent_tool_decision config world request (idle, 0)).1.1 ≤ 6)
agent_budget_example =
    agent_budget counted 1 1 config world counted-Prices (codes "n") (codes "t") request idle 0

agent-Keeps_example :
    Keeps waiting (agent_turn config world (codes "n") (codes "t") request (waiting, 0)).1.0
    × Keeps waiting (agent_tool_decision config world request (waiting, 0)).1.0
agent-Keeps_example = agent-Keeps config world (codes "n") (codes "t") request waiting 0

abbrev invented : Bytes
invented = codes "{\"command\":\"ls\",\"work_dir\": \"/path/to/Desktop\"}"

invented_found : find_value invented (codes "work_dir") 0 ≡ some (codes "\"/path/to/Desktop\"}")
unfolding find_value
invented_found = refl

rewritten_field_reads_example :
    extract_json_string_field
      (replace_json_string_field_value invented (codes "work_dir") (codes "C:\\a"))
      (codes "work_dir")
      0
    ≡ codes "C:\\a"
rewritten_field_reads_example =
    rewritten_field_reads invented (codes "work_dir") (codes "C:\\a") (codes "/path/to/Desktop\"}")
      invented_found

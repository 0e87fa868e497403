-- ===== src/Agent/Replies.antt =====
-- cli/host.cpp: the replies that end a turn, and those that a tool call waits on.
use droidcli.Common.{
  Bool, true, false, List, [], ◌∷◌, ◌++◌, Bytes, codes, concat, comma_separated, map, same,
  is_empty, if◌then◌else◌,
}
use droidcli.Json.{json_string_field, json_bool_field, extract_json_string_field}
use droidcli.Guards.{looks_like_destructive_command}
use droidcli.Ai.{ToolCall}
use droidcli.Agent.{PendingToolActionRecord}
use droidcli.Agent.Templates.{field, nonempty_or}

unfoldable pub action_json : (Bytes → Bytes → Bytes) → PendingToolActionRecord → Bytes
unfolding json_string_field
action_json shown action = concat (
    codes "{"
    ∷ json_string_field (codes "tool") action.tool
    ∷ codes ","
    ∷ json_string_field (codes "arguments_json") (shown action.tool action.arguments_json)
    ∷ codes ","
    ∷ json_string_field (codes "result_json") action.result_json
    ∷ codes "}"
    ∷ [])

unfoldable pub thinking_field : Bytes → Bytes
unfolding json_string_field
thinking_field thinking_text =
    if is_empty thinking_text
    then []
    else json_string_field (codes "thinking") thinking_text ++ codes ","

unfoldable pub build_final_agent_response :
    Bytes → Bytes → List PendingToolActionRecord → Bytes → Bytes
unfolding json_bool_field json_string_field thinking_field action_json comma_separated
build_final_agent_response session_id assistant_text actions thinking_text = concat (
    codes "{"
    ∷ json_bool_field (codes "ok") true
    ∷ codes ","
    ∷ thinking_field thinking_text
    ∷ json_string_field (codes "assistant") assistant_text
    ∷ codes ","
    ∷ json_string_field (codes "session_id") session_id
    ∷ codes ",\"actions\":["
    ∷ comma_separated (map (action_json (λ name arguments_json. arguments_json)) actions)
    ∷ codes "]}"
    ∷ [])

unfoldable pub looks_destructive : ToolCall → Bool
unfolding same looks_like_destructive_command extract_json_string_field
looks_destructive call =
    if same call.name (codes "run_command")
    then looks_like_destructive_command (field call.arguments_json (codes "command"))
    else if same call.name (codes "run_ffmpeg")
    then looks_like_destructive_command (field call.arguments_json (codes "args"))
    else false

-- `shown` is `display_arguments_with_full_paths`.
unfoldable pub build_pending_tool_call_response :
    (Bytes → Bytes → Bytes) → Bytes → ToolCall → List PendingToolActionRecord → Bytes → Bytes
unfolding json_bool_field json_string_field thinking_field looks_destructive action_json
    comma_separated
build_pending_tool_call_response shown session_id call actions_so_far thinking_text = concat (
    codes "{"
    ∷ json_bool_field (codes "ok") true
    ∷ codes ","
    ∷ thinking_field thinking_text
    ∷ json_string_field (codes "session_id") session_id
    ∷ codes ",\"pending_tool_call\":{"
    ∷ json_string_field (codes "tool") call.name
    ∷ codes ","
    ∷ json_string_field (codes "arguments_json") (shown call.name call.arguments_json)
    ∷ codes ","
    ∷ json_bool_field (codes "looks_destructive") (looks_destructive call)
    ∷ codes "},\"actions\":["
    ∷ comma_separated (map (action_json shown) actions_so_far)
    ∷ codes "]}"
    ∷ [])

unfoldable pub retry_failure : Bytes → Bytes → Bytes
unfolding extract_json_string_field
retry_failure tool_name result_json = concat (
    codes "("
    ∷ tool_name
    ∷ codes " failed: "
    ∷ nonempty_or (field result_json (codes "error")) (codes "unknown error")
    ∷ codes
        ". This is your one automatic retry - if you can fix the input, call the right tool now with a corrected argument; otherwise just explain what went wrong.)"
    ∷ [])

unfoldable pub failed_turn : Bytes → Bytes → Bytes
unfolding json_bool_field json_string_field
failed_turn session_id reason = concat (
    codes "{"
    ∷ json_bool_field (codes "ok") false
    ∷ codes ","
    ∷ json_string_field (codes "error") reason
    ∷ codes ","
    ∷ json_string_field (codes "session_id") session_id
    ∷ codes "}"
    ∷ [])

-- ===== src/Agent/Arguments.antt =====
-- cli/host.cpp: how the arguments of a gated tool are rewritten before the user sees them, and how they are
-- shown.
use droidcli.Common.{
  Bool, true, false, not, ◌||◌, Option, none, some, [], ◌∷◌, ◌++◌, Bytes, codes, concat, same,
  is_empty, any, ◌==◌, if◌then◌else◌,
}
use droidcli.Json.{
  quote, backslash, needle, skip_blanks, escape_json_string, json_string_field, json_bool_field,
  extract_json_string_field,
}
use droidcli.Wire.{cut_at}
use droidcli.Guards.{looks_like_placeholder_path, default_bare_filename_to_desktop}
use droidcli.Guards.Desktop.{substitute_bare_desktop_token}
use droidcli.Guards.Invented.{looks_like_invented_desktop_path}
use droidcli.Ai.{ToolCall}
use droidcli.Agent.{ResolvedLaunchTarget}
use droidcli.Agent.Templates.{field}

unfoldable pub blanks : Bytes → Bytes
blanks [] = []
blanks (c ∷ s) = elim (c == b' ' || c == 9) [ true ↦ c ∷ blanks s | false ↦ [] ]

-- What follows a quoted value, from inside it; the flag says that a backslash was just read.
unfoldable pub after_value : Bytes → Bool → Bytes
after_value [] escaped = []
after_value (c ∷ s) true = after_value s false
after_value (c ∷ s) false = elim (c == backslash) [
  | true ↦ after_value s true
  | false ↦ elim (c == quote) [ true ↦ s | false ↦ after_value s false ]
]

-- The text with a new value, from what stands before the field, behind its name, and behind the blanks.
unfoldable pub with_value : Bytes → Bytes → Bytes → Bytes → Bytes → Bytes → Bytes
unfolding blanks after_value escape_json_string
with_value json field_name new_value before rest [] = json
with_value json field_name new_value before rest (c ∷ s) =
    if c == quote
    then before
      ++ (needle field_name
          ++ (blanks rest
              ++ (quote ∷ (escape_json_string new_value ++ (quote ∷ after_value s false)))))
    else json

abbrev pub value_replaced : Bytes → Bytes → Bytes → Option (Bytes × Bytes) → Bytes
value_replaced json field_name new_value none = json
value_replaced json field_name new_value (some (before, rest)) =
    with_value json field_name new_value before rest (skip_blanks rest)

unfoldable pub replace_json_string_field_value : Bytes → Bytes → Bytes → Bytes
unfolding cut_at skip_blanks with_value
replace_json_string_field_value json field_name new_value =
    value_replaced json field_name new_value (cut_at (needle field_name) json)

unfoldable pub looks_like_path : Bytes → Bool
looks_like_path value = any (λ c. c == b'\\') value || any (λ c. c == b'/') value

unfoldable pub resolve_work_dir_or_desktop : Bytes → Bytes → Bytes
unfolding substitute_bare_desktop_token looks_like_placeholder_path looks_like_invented_desktop_path
resolve_work_dir_or_desktop desktop_path requested_work_dir =
    let substituted = substitute_bare_desktop_token requested_work_dir desktop_path in
    if is_empty requested_work_dir
    then desktop_path
    else if looks_like_placeholder_path substituted
        || looks_like_invented_desktop_path substituted desktop_path
    then desktop_path
    else substituted

-- The call, perhaps rewritten, or the result of its failure.
pub data Precheck : Type 0 where
  precheck_passed : ToolCall → Precheck
  precheck_failed : Bytes → Precheck

abbrev pub with_arguments : ToolCall → Bytes → ToolCall
with_arguments call arguments_json = record call { arguments_json = arguments_json }

unfoldable pub placeholder_failure : Bytes → Bytes
unfolding json_bool_field json_string_field
placeholder_failure desktop_path = concat (
    codes "{"
    ∷ json_bool_field (codes "ok") false
    ∷ codes ","
    ∷ json_bool_field (codes "launched") false
    ∷ codes ",\"exit_code\":0,"
    ∷ json_string_field (codes "stdout") []
    ∷ codes ","
    ∷ json_string_field (codes "stderr") []
    ∷ codes ","
    ∷ json_string_field (codes "error") (
        concat (
          codes
            "this references a placeholder path (e.g. \"path/to/...\") instead of a real one - the real Desktop path is "
          ∷ desktop_path
          ∷ codes
              ", use that exact path (or a bare relative filename, which already defaults to the Desktop) instead of a placeholder"
          ∷ []))
    ∷ codes "}"
    ∷ [])

-- `run_command` and `run_ffmpeg`
unfoldable pub precheck_command : Bytes → ToolCall → Precheck
unfolding same extract_json_string_field looks_like_placeholder_path placeholder_failure
    resolve_work_dir_or_desktop replace_json_string_field_value
precheck_command desktop_path call =
    let command_field_name =
      if same call.name (codes "run_ffmpeg") then codes "args" else codes "command" in
    let requested_work_dir = field call.arguments_json (codes "work_dir") in
    let resolved_work_dir = resolve_work_dir_or_desktop desktop_path requested_work_dir in
    if looks_like_placeholder_path (field call.arguments_json command_field_name)
    then precheck_failed (placeholder_failure desktop_path)
    else if same resolved_work_dir requested_work_dir || is_empty requested_work_dir
    then precheck_passed call
    else precheck_passed (
        with_arguments call (
          replace_json_string_field_value call.arguments_json (codes "work_dir") resolved_work_dir))

unfoldable pub launch_failure : Bytes → Bytes
unfolding json_bool_field json_string_field
launch_failure reason = concat (
    codes "{"
    ∷ json_bool_field (codes "ok") false
    ∷ codes ","
    ∷ json_bool_field (codes "launched") false
    ∷ codes ",\"pid\":0,"
    ∷ json_string_field (codes "resolved_path") []
    ∷ codes ","
    ∷ json_string_field (codes "resolution_source") []
    ∷ codes ","
    ∷ json_string_field (codes "error") reason
    ∷ codes "}"
    ∷ [])

unfoldable pub launch_arguments : ResolvedLaunchTarget → Bytes → Bytes
unfolding json_string_field
launch_arguments resolved work_dir = concat (
    codes "{"
    ∷ json_string_field (codes "path_or_name") resolved.target
    ∷ codes ","
    ∷ json_string_field (codes "args") resolved.effective_args
    ∷ codes ","
    ∷ json_string_field (codes "work_dir") work_dir
    ∷ (if is_empty resolved.display_name
        then []
        else codes "," ++ json_string_field (codes "resolved_display_name") resolved.display_name)
    ∷ codes "}"
    ∷ [])

-- `open_application`, on the target that its name resolves to
unfoldable pub precheck_launch : ResolvedLaunchTarget → ToolCall → Precheck
unfolding extract_json_string_field launch_failure launch_arguments
precheck_launch resolved call =
    if is_empty (field call.arguments_json (codes "path_or_name"))
    then precheck_passed call
    else if not resolved.resolved
    then precheck_failed (launch_failure resolved.error_message)
    else precheck_passed (
        with_arguments call
          (launch_arguments resolved (field call.arguments_json (codes "work_dir"))))

unfoldable pub precheck_and_resolve_gated_call :
    (Bytes → Bytes → ResolvedLaunchTarget) → Bytes → ToolCall → Precheck
unfolding same extract_json_string_field precheck_command precheck_launch
precheck_and_resolve_gated_call resolve desktop_path call =
    if same call.name (codes "run_command") || same call.name (codes "run_ffmpeg")
    then precheck_command desktop_path call
    else if not (same call.name (codes "open_application"))
    then precheck_passed call
    else precheck_launch
        (resolve (field call.arguments_json (codes "path_or_name"))
          (field call.arguments_json (codes "args")))
        call

-- The text with the full path, if there is one.
abbrev pub shown_path : Bytes → Bytes → Option Bytes → Bytes
shown_path json field_name none = json
shown_path json field_name (some full_path) =
    if is_empty full_path then json else replace_json_string_field_value json field_name full_path

-- `resolve_field`; `absolute` gives nothing where `std::filesystem::absolute` reports an error.
unfoldable pub resolve_field : (Bytes → Option Bytes) → Bytes → Bytes → Bytes → Bytes
unfolding extract_json_string_field looks_like_placeholder_path default_bare_filename_to_desktop
    substitute_bare_desktop_token looks_like_invented_desktop_path replace_json_string_field_value
resolve_field absolute desktop_path json field_name =
    let raw_path = field json field_name in
    let resolved =
      default_bare_filename_to_desktop (substitute_bare_desktop_token raw_path desktop_path)
        desktop_path in
    if is_empty raw_path || looks_like_placeholder_path raw_path
    then json
    else if looks_like_invented_desktop_path resolved desktop_path
    then json
    else shown_path json field_name (absolute resolved)

unfoldable pub display_arguments_with_full_paths :
    (Bytes → Option Bytes) → Bytes → Bytes → Bytes → Bytes
unfolding same resolve_field extract_json_string_field looks_like_path
    replace_json_string_field_value
display_arguments_with_full_paths absolute desktop_path tool_name arguments_json =
    let raw_value = field arguments_json (codes "path_or_name") in
    if same tool_name (codes "write_file")
      || (same tool_name (codes "delete_file") || same tool_name (codes "create_directory"))
    then resolve_field absolute desktop_path arguments_json (codes "path")
    else if same tool_name (codes "copy_file") || same tool_name (codes "move_path")
    then resolve_field absolute desktop_path
        (resolve_field absolute desktop_path arguments_json (codes "source_path"))
        (codes "destination_path")
    else if same tool_name (codes "open_application")
    then (if is_empty raw_value || not (looks_like_path raw_value)
        then arguments_json
        else shown_path arguments_json (codes "path_or_name") (absolute raw_value))
    else arguments_json

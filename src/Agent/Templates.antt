-- ===== src/Agent/Templates.antt =====
-- src/classify/response_templates.cpp: the replies that need no model.
use droidcli.Common.{
  Bool, false, ◌||◌, Option, none, some, [], ◌∷◌, ◌++◌, Bytes, codes, concat, same, is_empty,
  if◌then◌else◌, ℤ, pos,
}
use droidcli.Json.{
  extract_json_string_field, extract_json_bool_field, extract_json_int_field, IntField, missing,
  found, out_of_range,
}
use droidcli.Json.Decimal.{print_int}

abbrev pub field : Bytes → Bytes → Bytes
field json name = extract_json_string_field json name 0

abbrev pub or_false : Option Bool → Bool
or_false none = false
or_false (some b) = b

abbrev pub ok_field : Bytes → Bool
ok_field json = or_false (extract_json_bool_field json (codes "ok") 0)

abbrev pub nonempty_or : Bytes → Bytes → Bytes
nonempty_or a b = if is_empty a then b else a

unfoldable pub requested_path_or_name : Bytes → Bytes
unfolding extract_json_string_field
requested_path_or_name arguments_json =
    nonempty_or (field arguments_json (codes "path_or_name")) (field arguments_json (codes "path"))

unfoldable pub reply_for_open_application : Bytes → Bytes → Bytes
unfolding extract_json_string_field extract_json_bool_field requested_path_or_name
reply_for_open_application arguments_json result_json =
    if ok_field result_json
    then concat (
        codes "Opened "
        ∷ nonempty_or (field result_json (codes "resolved_display_name")) (
            nonempty_or (field result_json (codes "resolved_path"))
              (requested_path_or_name arguments_json))
        ∷ codes "."
        ∷ [])
    else codes "Couldn't open it: " ++ field result_json (codes "error")

unfoldable pub reply_for_file_mutation : Bytes → Bytes → Bytes → Bytes → Bytes
unfolding extract_json_string_field extract_json_bool_field requested_path_or_name
reply_for_file_mutation verb_done verb_failed arguments_json result_json =
    if ok_field result_json
    then concat (
        verb_done
        ∷ codes " "
        ∷ nonempty_or (field result_json (codes "resolved_path"))
            (requested_path_or_name arguments_json)
        ∷ codes "."
        ∷ [])
    else concat (verb_failed ∷ codes ": " ∷ field result_json (codes "error") ∷ [])

unfoldable pub reply_for_write_clipboard : Bytes → Bytes
unfolding extract_json_string_field extract_json_bool_field
reply_for_write_clipboard result_json =
    if ok_field result_json
    then codes "Copied to the clipboard."
    else codes "Couldn't write to the clipboard: " ++ field result_json (codes "error")

-- `none` where `std::stoll` throws.
abbrev pub exit_code_of : IntField → Option ℤ
exit_code_of missing = some (pos 0)
exit_code_of (found n) = some n
exit_code_of out_of_range = none

abbrev pub shell_reply : Bytes → Bytes → Option ℤ → Option Bytes
shell_reply tool_name result_json none = none
shell_reply tool_name result_json (some exit_code) =
    if ok_field result_json
    then some (
        (if same tool_name (codes "run_ffmpeg")
          then codes "ffmpeg finished"
          else codes "The command finished")
        ++ codes " successfully.")
    else if is_empty (field result_json (codes "error"))
    then some (concat (codes "That failed (exit code " ∷ print_int exit_code ∷ codes ")." ∷ []))
    else some (codes "That failed: " ++ field result_json (codes "error"))

unfoldable pub reply_for_shell_command : Bytes → Bytes → Option Bytes
unfolding extract_json_string_field extract_json_bool_field extract_json_int_field same print_int
reply_for_shell_command tool_name result_json =
    shell_reply tool_name result_json
      (exit_code_of (extract_json_int_field result_json (codes "exit_code") 0))

-- The empty text where no template fits, `none` where an exception leaves it.
unfoldable pub try_template_reply : Bytes → Bytes → Bytes → Option Bytes
unfolding same reply_for_open_application reply_for_file_mutation reply_for_write_clipboard
    reply_for_shell_command
try_template_reply tool_name arguments_json result_json =
    if same tool_name (codes "open_application")
    then some (reply_for_open_application arguments_json result_json)
    else if same tool_name (codes "write_file")
    then some (
        reply_for_file_mutation (codes "Wrote") (codes "Couldn't write the file") arguments_json
          result_json)
    else if same tool_name (codes "copy_file")
    then some (
        reply_for_file_mutation (codes "Copied to") (codes "Couldn't copy the file") arguments_json
          result_json)
    else if same tool_name (codes "move_path")
    then some (
        reply_for_file_mutation (codes "Moved to") (codes "Couldn't move it") arguments_json
          result_json)
    else if same tool_name (codes "delete_file")
    then some (
        reply_for_file_mutation (codes "Deleted") (codes "Couldn't delete it") arguments_json
          result_json)
    else if same tool_name (codes "create_directory")
    then some (
        reply_for_file_mutation (codes "Created") (codes "Couldn't create the directory")
          arguments_json result_json)
    else if same tool_name (codes "write_clipboard")
    then some (reply_for_write_clipboard result_json)
    else if same tool_name (codes "run_command") || same tool_name (codes "run_ffmpeg")
    then reply_for_shell_command tool_name result_json
    else some []

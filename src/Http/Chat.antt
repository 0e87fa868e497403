-- ===== src/Http/Chat.antt =====
-- src/net/handlers.cpp: the chat handler.
use droidcli.Common.{
  Bool, true, false, Option, none, some, [], ◌∷◌, Bytes, codes, concat, is_empty, if◌then◌else◌,
}
use droidcli.Json.{
  json_string_field, json_bool_field, extract_json_string_field, extract_json_bool_field,
}
use droidcli.Ai.Runtime.{
  LanguageRuntime, PostJson, clear_transcript, set_system_prompt, submit_user_message,
  complete_turn, snapshot,
}
use droidcli.Http.{
  HttpStatus, ok, bad_request, internal_error, HttpRequest, HttpResponse, respond, HandlerContext,
}

-- `{"ok":false,"error":...}`
abbrev pub error_body : Bytes → Bytes
error_body reason = concat (
    codes "{"
    ∷ json_bool_field (codes "ok") false
    ∷ codes ","
    ∷ json_string_field (codes "error") reason
    ∷ codes "}"
    ∷ [])

abbrev pub or_else : Bytes → Bytes → Bytes
or_else a b = if is_empty a then b else a

unfoldable pub extract_prompt_field : Bytes → Bytes
unfolding extract_json_string_field
extract_prompt_field body = or_else (extract_json_string_field body (codes "prompt") 0) (
    or_else (extract_json_string_field body (codes "text") 0)
      (extract_json_string_field body (codes "message") 0))

-- What a chat request leaves: its response with whether a turn was completed, or `none` where an
-- exception leaves the handler, and the conversation.
abbrev pub ChatOutcome : Type 0
ChatOutcome = Option (HttpResponse × Bool) × LanguageRuntime

abbrev pub refuse_chat : HttpStatus → LanguageRuntime → ChatOutcome
refuse_chat status r = (some (respond status (error_body (snapshot r).status_text), false), r)

unfoldable pub chat_body : LanguageRuntime → Bytes
unfolding json_bool_field json_string_field snapshot
chat_body r =
    let s = snapshot r in
    concat (
      codes "{"
      ∷ json_bool_field (codes "ok") true
      ∷ codes ","
      ∷ json_string_field (codes "assistant") s.last_assistant_message
      ∷ codes ","
      ∷ json_string_field (codes "representation") s.representation_text
      ∷ codes ","
      ∷ json_string_field (codes "model") s.model
      ∷ codes ","
      ∷ json_string_field (codes "status") s.status_text
      ∷ codes "}"
      ∷ [])

-- The end of the handler, on what `complete_turn` gives.
abbrev pub turn_answer : LanguageRuntime → Option (Bool × LanguageRuntime) → ChatOutcome
turn_answer r none = (none, r)
turn_answer r (some (false, s)) = refuse_chat internal_error s
turn_answer r (some (true, s)) = (some (respond ok (chat_body s), true), s)

abbrev pub submitted : Option PostJson → Bool × LanguageRuntime → ChatOutcome
submitted transport (false, r) = refuse_chat bad_request r
submitted transport (true, r) = turn_answer r (complete_turn transport r)

abbrev pub clears : Option Bool → Bool
clears none = false
clears (some b) = b

unfoldable pub prepare : Bytes → LanguageRuntime → LanguageRuntime
unfolding clear_transcript set_system_prompt extract_json_string_field extract_json_bool_field
prepare body r =
    let s =
      if clears (extract_json_bool_field body (codes "clear") 0) then clear_transcript r else r in
    let prompt = extract_json_string_field body (codes "system") 0 in
    if is_empty prompt then s else set_system_prompt prompt s

-- With a conversation and a transport.
unfoldable pub chat : Bytes → Option PostJson → LanguageRuntime → ChatOutcome
unfolding extract_prompt_field prepare submit_user_message complete_turn chat_body json_bool_field
    json_string_field snapshot
chat body transport r =
    let prompt = extract_prompt_field body in
    if is_empty prompt
    then (
      some (
        respond bad_request (error_body (codes "Missing prompt. Send JSON: {\"prompt\":\"...\"}")),
        false,
      ),
      r,
    )
    else submitted transport (submit_user_message prompt (prepare body r))

abbrev pub unavailable : HttpResponse
unavailable =
    respond internal_error (error_body (codes "Language AI runtime is not available on this host."))

abbrev pub Handled : Type 0
Handled = Option (HttpResponse × Bool) × HandlerContext

abbrev pub chat_at :
    Bytes → Option LanguageRuntime → Option (Option PostJson) → HandlerContext → Handled
chat_at body (some r) (some transport) context =
    let (answer, s) = chat body transport r in (answer, record context { language_ai = some s })
chat_at body _ _ context = (some (unavailable, false), context)

unfoldable pub handle_ai_chat : HttpRequest → HandlerContext → Handled
unfolding chat json_bool_field json_string_field
handle_ai_chat request context =
    chat_at request.body context.language_ai context.language_ai_transport context

-- ===== src/Ai/OpenAi.antt =====
-- src/ai/openai_compat_client.cpp: the request builder.
use mathlib.Core.List.{reverse}
use droidcli.Common.{
  true, false, not, Option, none, some, List, [], ◌∷◌, ◌++◌, Bytes, codes, concat, comma_separated,
  map, is_empty, ◌==◌, if◌then◌else◌,
}
use droidcli.Json.{json_string_field, json_bool_field}
use droidcli.Json.Decimal.{print_int}
use droidcli.Ai.{
  ChatMessage, ToolDefinition, OpenAiCompatConfig, OutboundRequest, chat_role_to_string,
}

-- `while (!value.empty() && value.back() == '/') value.pop_back()`, on the reversed text
unfoldable pub skip_slashes : Bytes → Bytes
skip_slashes [] = []
skip_slashes (c ∷ s) = elim (c == b'/') [ true ↦ skip_slashes s | false ↦ c ∷ s ]

unfoldable pub trim_trailing_slash : Bytes → Bytes
unfolding skip_slashes
trim_trailing_slash value = reverse (skip_slashes (reverse value))

unfoldable pub tool_json : ToolDefinition → Bytes
unfolding json_string_field
tool_json t = concat (
    codes "{\"type\":\"function\",\"function\":{"
    ∷ json_string_field (codes "name") t.name
    ∷ codes ","
    ∷ json_string_field (codes "description") t.description
    ∷ codes ","
    ∷ codes "\"parameters\":"
    ∷ (if is_empty t.parameters_json_schema then codes "{}" else t.parameters_json_schema)
    ∷ codes "}}"
    ∷ [])

unfoldable pub serialize_tools : List ToolDefinition → Bytes
unfolding tool_json comma_separated
serialize_tools tools = concat (codes "[" ∷ comma_separated (map tool_json tools) ∷ codes "]" ∷ [])

unfoldable pub message_json : ChatMessage → Bytes
unfolding json_string_field chat_role_to_string
message_json m = concat (
    codes "{"
    ∷ json_string_field (codes "role") (chat_role_to_string m.role)
    ∷ codes ","
    ∷ json_string_field (codes "content") m.content
    ∷ codes "}"
    ∷ [])

unfoldable pub serialize_chat_messages : List ChatMessage → Bytes
unfolding message_json comma_separated
serialize_chat_messages messages =
    concat (codes "[" ∷ comma_separated (map message_json messages) ∷ codes "]" ∷ [])

unfoldable pub build_openai_chat_url : OpenAiCompatConfig → Bytes
unfolding trim_trailing_slash
build_openai_chat_url config =
    if is_empty config.base_url
    then []
    else trim_trailing_slash config.base_url ++ codes "/v1/chat/completions"

abbrev pub temperature_field : Option Bytes → Bytes
temperature_field none = []
temperature_field (some t) = codes ",\"temperature\":" ++ t

unfoldable pub request_body : OpenAiCompatConfig → List ChatMessage → List ToolDefinition → Bytes
unfolding json_string_field json_bool_field serialize_chat_messages serialize_tools print_int
request_body config messages tools = concat (
    codes "{"
    ∷ json_string_field (codes "model") config.model
    ∷ codes ","
    ∷ codes "\"messages\":"
    ∷ serialize_chat_messages messages
    ∷ codes ","
    ∷ json_bool_field (codes "stream") config.stream
    ∷ temperature_field config.temperature
    ∷ codes ",\"options\":{\"num_ctx\":"
    ∷ print_int config.num_ctx
    ∷ codes "}"
    ∷ (if is_empty tools then [] else codes ",\"tools\":" ++ serialize_tools tools)
    ∷ codes "}"
    ∷ [])

-- A request that is not valid carries its reason.
abbrev pub invalid : Bytes → Bytes → OutboundRequest
invalid url reason = record { valid = false; url = url; body = []; error_message = reason }

unfoldable pub build_openai_chat_request :
    OpenAiCompatConfig → List ChatMessage → List ToolDefinition → OutboundRequest
unfolding build_openai_chat_url request_body
build_openai_chat_request config messages tools =
    let url = build_openai_chat_url config in
    if not config.enabled
    then invalid [] (codes "The LLM provider is disabled.")
    else if is_empty config.model
    then invalid [] (codes "Model name is empty.")
    else if is_empty messages
    then invalid [] (codes "Chat transcript is empty.")
    else if is_empty url
    then invalid url (codes "Provider base URL is empty.")
    else record {
      valid = true;
      url = url;
      body = request_body config messages tools;
      error_message = [];
    }

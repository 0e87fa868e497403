-- ===== src/Agent/Provider.antt =====
-- src/ai/model_provider.cpp, src/classify/turn_decision.hpp, and the two calls of the model in cli/host.cpp:
-- one that decides the turn, and one that puts a result into words.
use mathlib.Core.Option
use droidcli.Common.{
  ℕ, zero, suc, Bool, true, false, not, ◌&&◌, ◌||◌, Option, none, some, List, [], ◌∷◌, ◌++◌, Bytes,
  codes, concat, is_empty, if◌then◌else◌, ℤ, pos,
}
use droidcli.Json.{extract_json_string_field, extract_json_bool_field}
use droidcli.Ai.{
  user, ChatMessage, ToolDefinition, ToolCall, OpenAiCompatConfig, OutboundRequest, ChatResponse,
}
use droidcli.Ai.OpenAi.{build_openai_chat_request}
use droidcli.Ai.Response.{parse_openai_chat_response}
use droidcli.Ai.Runtime.{default_config}
use droidcli.Agent.{AgentConfig, Transport}
use droidcli.Agent.Templates.{field, ok_field, nonempty_or, try_template_reply}

-- The fields of `TurnDecision` that its kind sets, with the thinking text where a caller reads it.
pub data TurnDecision : Type 0 where
  llm_tool : Bytes → Bytes → Bytes → TurnDecision
  plain_reply : Bytes → Bytes → TurnDecision
  transport_failed : Bytes → TurnDecision

unfoldable pub make_model_provider : AgentConfig → OpenAiCompatConfig
make_model_provider config = record default_config {
  base_url = config.ollama_url;
  model = config.ollama_model;
  enabled = true;
  num_ctx = config.ollama_num_ctx;
}

unfoldable pub build_request :
    OpenAiCompatConfig → List ChatMessage → List ToolDefinition → OutboundRequest
unfolding build_openai_chat_request
build_request config transcript tools = build_openai_chat_request config transcript tools

unfoldable pub parse_response : ℤ → Bytes → Bool → Option ChatResponse
unfolding parse_openai_chat_response
parse_response status_code response_body transport_ok =
    parse_openai_chat_response status_code response_body transport_ok

abbrev pub parsed : {W : Type 0} → (Bool × (ℤ × Bytes)) × W → Option ChatResponse × W
parsed ((transport_ok, (status_code, response_body)), w) =
    (parse_response status_code response_body transport_ok, w)

-- One request; an unbound transport fails.
unfoldable pub ask :
    {W : Type 0} → Option (Transport W) → OutboundRequest → W → Option ChatResponse × W
unfolding parse_response
ask none request w = parsed ((false, (pos 0, [])), w)
ask (some post_json) request w = parsed (post_json request.url request.body w)

abbrev pub no_calls : List ToolCall → Bool
no_calls [] = true
no_calls (c ∷ cs) = false

abbrev pub is_success : ChatResponse → Bool
is_success response = response.transport_ok && response.http_success

-- Neither text nor a tool call.
abbrev pub is_empty_answer : Option ChatResponse → Bool
is_empty_answer none = false
is_empty_answer (some response) =
    is_success response && (is_empty response.assistant_message && no_calls response.tool_calls)

abbrev pub unless_blank :
    {W : Type 0}
    → Bool
    → (W → Option ChatResponse × W)
    → Option ChatResponse × W
    → Option ChatResponse × W
unless_blank true again (response, w) = again w
unless_blank false again (response, w) = (response, w)

-- The loop over the attempts, with the number of retries that are left.
unfoldable pub attempts :
    {W : Type 0} → ℕ → Option (Transport W) → OutboundRequest → W → Option ChatResponse × W
unfolding ask
attempts zero post_json request w = ask post_json request w
attempts (suc retries) post_json request w =
    let answer = ask post_json request w in
    unless_blank (is_empty_answer answer.0) (attempts retries post_json request) answer

abbrev pub max_empty_retries : ℕ
max_empty_retries = 2

abbrev pub first_call : ChatResponse → List ToolCall → TurnDecision
first_call response (call ∷ calls) = llm_tool call.name call.arguments_json response.thinking_text
first_call response [] =
    plain_reply
      (nonempty_or response.assistant_message
        (codes "(no reply text - the model returned an empty response, try rephrasing)"))
      response.thinking_text

unfoldable pub decision_of : ChatResponse → TurnDecision
decision_of response =
    if not (is_success response)
    then transport_failed (nonempty_or response.error_message (codes "provider request failed"))
    else first_call response response.tool_calls

abbrev pub decided : {W : Type 0} → Option ChatResponse × W → Option TurnDecision × W
decided (response, w) = (Option.map decision_of response, w)

unfoldable pub classify_via_llm :
    {W : Type 0}
    → AgentConfig
    → Option (Transport W)
    → List ChatMessage
    → W
    → Option TurnDecision × W
unfolding make_model_provider build_request attempts decision_of
classify_via_llm config post_json transcript w =
    let request = build_request (make_model_provider config) transcript config.tools in
    if not request.valid
    then (some (transport_failed request.error_message), w)
    else decided (attempts max_empty_retries post_json request w)

unfoldable pub generic_result_sentence : Bytes → Bytes
unfolding extract_json_string_field extract_json_bool_field
generic_result_sentence result_json =
    if ok_field result_json
    then codes "Done."
    else if is_empty (field result_json (codes "error"))
    then codes "That didn't work."
    else codes "That didn't work: " ++ field result_json (codes "error")

unfoldable pub phrasing_prompt : Bytes → Bytes → Bytes
phrasing_prompt tool_name result_json = concat (
    codes "The \""
    ∷ tool_name
    ∷ codes "\" action just ran with this exact result (ground truth, already happened): "
    ∷ result_json
    ∷ codes
        ". In one or two short sentences, tell the user what happened. State only what this JSON says - do not claim anything else, do not describe additional actions, do not apologize at length."
    ∷ [])

abbrev pub phrased : {W : Type 0} → Bytes → Option ChatResponse × W → Option Bytes × W
phrased result_json (none, w) = (none, w)
phrased result_json (some response, w) = (
  some (
      if not (is_success response) || is_empty response.assistant_message
      then generic_result_sentence result_json
      else response.assistant_message),
  w,
)

unfoldable pub phrase_via_llm :
    {W : Type 0} → AgentConfig → Option (Transport W) → Bytes → Bytes → W → Option Bytes × W
unfolding make_model_provider build_request ask generic_result_sentence phrasing_prompt
phrase_via_llm config post_json tool_name result_json w =
    let prompt : ChatMessage = record {
      role = user;
      content = phrasing_prompt tool_name result_json;
    } in
    let request = build_request (make_model_provider config) (prompt ∷ []) [] in
    if not request.valid
    then (some (generic_result_sentence result_json), w)
    else phrased result_json (ask post_json request w)

-- A template's reply, or the model's where no template fits.
abbrev pub templated : {W : Type 0} → Option Bytes → (W → Option Bytes × W) → W → Option Bytes × W
templated none otherwise w = (none, w)
templated (some []) otherwise w = otherwise w
templated (some (c ∷ text)) otherwise w = (some (c ∷ text), w)

unfoldable pub phrase_result :
    {W : Type 0} → AgentConfig → Option (Transport W) → Bytes → Bytes → Bytes → W → Option Bytes × W
unfolding try_template_reply phrase_via_llm
phrase_result config post_json tool_name arguments_json result_json =
    templated (try_template_reply tool_name arguments_json result_json)
      (phrase_via_llm config post_json tool_name result_json)

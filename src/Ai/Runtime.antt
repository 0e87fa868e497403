-- ===== src/Ai/Runtime.antt =====
-- src/ai/language_runtime.cpp: the conversation with a provider as a state, and its operations.
use droidcli.Common.{
  ℕ, Bool, true, false, not, ◌&&◌, ◌||◌, Option, none, some, List, [], ◌∷◌, ◌++◌, Bytes, codes,
  concat, is_empty, length, if◌then◌else◌, ℤ, pos,
}
use droidcli.Ai.{
  ChatRole, system, user, assistant, ChatMessage, OpenAiCompatConfig, OutboundRequest, ChatResponse,
  chat_role_to_string,
}
use droidcli.Ai.OpenAi.{build_openai_chat_request, invalid}
use droidcli.Ai.Response.{parse_openai_chat_response}

pub record LanguageRuntime : Type 0 where
  pub ollama_config : OpenAiCompatConfig
  pub transcript : List ChatMessage
  pub last_user_message : Bytes
  pub last_assistant_message : Bytes
  pub status_text : Bytes
  pub runtime_enabled : Bool
  pub awaiting_response : Bool

unfoldable pub set_ollama_config : OpenAiCompatConfig → LanguageRuntime → LanguageRuntime
set_ollama_config config r = record r { ollama_config = config }

unfoldable pub clear_transcript : LanguageRuntime → LanguageRuntime
clear_transcript r = record r {
  transcript = [];
  last_user_message = [];
  last_assistant_message = [];
  awaiting_response = false;
  status_text = codes "Language AI transcript cleared.";
}

abbrev pub is_system : ChatMessage → Bool
is_system m = elim m.role [ system ↦ true | _ ↦ false ]

abbrev pub message : ChatRole → Bytes → ChatMessage
message role content = record { role = role; content = content }

unfoldable pub upsert_system_message : Bytes → List ChatMessage → List ChatMessage
upsert_system_message prompt [] = message system prompt ∷ []
upsert_system_message prompt (m ∷ ms) =
    if is_system m then record m { content = prompt } ∷ ms else message system prompt ∷ m ∷ ms

unfoldable pub drop_system_message : List ChatMessage → List ChatMessage
drop_system_message [] = []
drop_system_message (m ∷ ms) = if is_system m then ms else m ∷ ms

unfoldable pub set_system_prompt : Bytes → LanguageRuntime → LanguageRuntime
unfolding upsert_system_message drop_system_message
set_system_prompt prompt r =
    if is_empty prompt
    then record r { transcript = drop_system_message r.transcript }
    else record r { transcript = upsert_system_message prompt r.transcript }

-- `false`, with a reason in the status line
abbrev pub refuse : Bytes → LanguageRuntime → Bool × LanguageRuntime
refuse reason r = (false, record r { status_text = reason })

unfoldable pub submit_user_message : Bytes → LanguageRuntime → Bool × LanguageRuntime
submit_user_message text r =
    if not r.runtime_enabled
    then refuse (codes "Language AI runtime is disabled.") r
    else if not r.ollama_config.enabled
    then refuse (codes "Ollama integration is disabled.") r
    else if is_empty text
    then refuse (codes "User message is empty.") r
    else if r.awaiting_response
    then refuse (codes "Waiting for the previous Ollama response.") r
    else (
      true,
      record r {
        transcript = r.transcript ++ message user text ∷ [];
        last_user_message = text;
        awaiting_response = true;
        status_text = codes "User message queued for Ollama.";
      },
    )

unfoldable pub build_pending_chat_request : LanguageRuntime → OutboundRequest
unfolding build_openai_chat_request
build_pending_chat_request r =
    if not r.runtime_enabled
    then invalid [] (codes "Language AI runtime is disabled.")
    else if not r.awaiting_response
    then invalid [] (codes "No pending user message.")
    else build_openai_chat_request r.ollama_config r.transcript []

abbrev pub reason_or : Bytes → Bytes → Bytes
reason_or given otherwise = if is_empty given then otherwise else given

unfoldable pub apply_chat_response : ChatResponse → LanguageRuntime → Bool × LanguageRuntime
apply_chat_response response r =
    if not r.awaiting_response
    then refuse (codes "No pending Ollama request.") r
    else if not response.transport_ok || not response.http_success
    then refuse (reason_or response.error_message (codes "Ollama request failed.")) r
    else if is_empty response.assistant_message
    then refuse
        (reason_or response.error_message (codes "Ollama returned an empty assistant message.")) r
    else (
      true,
      record r {
        transcript = r.transcript ++ message assistant response.assistant_message ∷ [];
        last_assistant_message = response.assistant_message;
        awaiting_response = false;
        status_text = codes "Ollama response applied.";
      },
    )

-- `transport.post_json` on a URL and a body: whether the exchange succeeded, the status code and the
-- response's body. It is not bound where the callback is empty.
abbrev pub PostJson : Type 0
PostJson = Bytes → Bytes → Bool × (ℤ × Bytes)

abbrev pub applied : Option ChatResponse → LanguageRuntime → Option (Bool × LanguageRuntime)
applied none r = none
applied (some response) r = some (apply_chat_response response r)

unfoldable pub post_turn :
    PostJson → OutboundRequest → LanguageRuntime → Option (Bool × LanguageRuntime)
unfolding apply_chat_response parse_openai_chat_response
post_turn post request r =
    let reply = post request.url request.body in
    applied (parse_openai_chat_response reply.1.0 reply.1.1 reply.0) r

-- `none` where the parser's `std::stoll` throws: the state is then what it was.
unfoldable pub complete_turn : Option PostJson → LanguageRuntime → Option (Bool × LanguageRuntime)
unfolding build_pending_chat_request post_turn
complete_turn transport r =
    let request = build_pending_chat_request r in
    if not request.valid then some (refuse request.error_message r) else elim transport [
      | none ↦ some (refuse (codes "Language AI transport is not bound.") r)
      | some post ↦ post_turn post request r
    ]

unfoldable pub representation_text : LanguageRuntime → Bytes
representation_text r =
    if not (is_empty r.last_assistant_message)
    then r.last_assistant_message
    else if not (is_empty r.last_user_message)
    then r.last_user_message
    else r.status_text

abbrev pub transcript_line : ChatMessage → Bytes
transcript_line m = concat (chat_role_to_string m.role ∷ codes ": " ∷ m.content ∷ [])

unfoldable pub format_transcript : List ChatMessage → Bytes
unfolding chat_role_to_string
format_transcript [] = []
format_transcript (m ∷ []) = transcript_line m
format_transcript (m ∷ n ∷ ms) = transcript_line m ++ (10 ∷ format_transcript (n ∷ ms))

pub record LanguageSnapshot : Type 0 where
  pub runtime_enabled : Bool
  pub connected : Bool
  pub awaiting_response : Bool
  pub model : Bytes
  pub status_text : Bytes
  pub last_user_message : Bytes
  pub last_assistant_message : Bytes
  pub representation_text : Bytes
  pub transcript_length : ℕ

unfoldable pub snapshot : LanguageRuntime → LanguageSnapshot
unfolding representation_text
snapshot r = record {
  runtime_enabled = r.runtime_enabled;
  connected = r.ollama_config.enabled && not (is_empty r.ollama_config.base_url);
  awaiting_response = r.awaiting_response;
  model = r.ollama_config.model;
  status_text = r.status_text;
  last_user_message = r.last_user_message;
  last_assistant_message = r.last_assistant_message;
  representation_text = representation_text r;
  transcript_length = length r.transcript;
}

unfoldable pub set_runtime_enabled : Bool → LanguageRuntime → LanguageRuntime
set_runtime_enabled enabled r = record r { runtime_enabled = enabled }

abbrev pub default_config : OpenAiCompatConfig
default_config = record {
  base_url = codes "http://127.0.0.1:11434";
  model = codes "llama3.2";
  enabled = true;
  stream = false;
  temperature = none;
  num_ctx = pos 32768;
}

-- `LanguageRuntime {}`
abbrev pub new_runtime : LanguageRuntime
new_runtime = record {
  ollama_config = default_config;
  transcript = [];
  last_user_message = [];
  last_assistant_message = [];
  status_text = codes "Language AI runtime idle.";
  runtime_enabled = true;
  awaiting_response = false;
}

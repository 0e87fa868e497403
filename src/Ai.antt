-- ===== src/Ai.antt =====
-- src/ai: the types of src/ai/types.hpp, the request builder and response parser of
-- src/ai/openai_compat_client.cpp (OpenAi) and the conversation of src/ai/language_runtime.cpp (Runtime).
pub mod OpenAi
pub mod Response
pub mod Fuel
pub mod Runtime
pub mod Turns
pub mod Exchange
pub mod Reply
pub mod Truncation
mod Tests
use droidcli.Common.{Bool, Option, List, Bytes, codes, ℤ, if◌then◌else◌, same}

pub data ChatRole : Type 0 where
  system : ChatRole
  user : ChatRole
  assistant : ChatRole
  tool : ChatRole

pub record ChatMessage : Type 0 where
  pub role : ChatRole
  pub content : Bytes

pub record ToolDefinition : Type 0 where
  pub name : Bytes
  pub description : Bytes
  pub parameters_json_schema : Bytes

pub record ToolCall : Type 0 where
  pub id : Bytes
  pub name : Bytes
  pub arguments_json : Bytes

-- `temperature` is the text that `std::to_string` gives, if the number is not negative: the program
-- uses the number for nothing else.
pub record OpenAiCompatConfig : Type 0 where
  pub base_url : Bytes
  pub model : Bytes
  pub enabled : Bool
  pub stream : Bool
  pub temperature : Option Bytes
  pub num_ctx : ℤ

pub record OutboundRequest : Type 0 where
  pub valid : Bool
  pub url : Bytes
  pub body : Bytes
  pub error_message : Bytes

pub record ChatResponse : Type 0 where
  pub transport_ok : Bool
  pub http_success : Bool
  pub status_code : ℤ
  pub done : Bool
  pub model : Bytes
  pub assistant_message : Bytes
  pub thinking_text : Bytes
  pub tool_calls : List ToolCall
  pub error_message : Bytes
  pub prompt_tokens : ℤ
  pub completion_tokens : ℤ
  pub done_reason : Bytes

unfoldable pub chat_role_to_string : ChatRole → Bytes
chat_role_to_string system = codes "system"
chat_role_to_string user = codes "user"
chat_role_to_string assistant = codes "assistant"
chat_role_to_string tool = codes "tool"

unfoldable pub chat_role_from_string : Bytes → ChatRole
unfolding same
chat_role_from_string role =
    if same role (codes "system")
    then system
    else if same role (codes "assistant")
    then assistant
    else if same role (codes "tool")
    then tool
    else user

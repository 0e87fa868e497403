-- ===== src/Http.antt =====
-- src/net/types.hpp, src/net/handlers.cpp, src/net/router.cpp and src/notify/parse.cpp: the routes that
-- need no host, on the conversation that the context points to.
pub mod Chat
pub mod Routes
pub mod Wedge
pub mod Dispatch
mod Tests
use mathlib.Core.List.{reverse}
use droidcli.Common.{
  ℕ, Bool, true, false, not, ◌&&◌, ◌||◌, Option, none, some, List, [], ◌∷◌, Bytes, codes, same,
  is_empty, ◌==◌, if◌then◌else◌,
}
use droidcli.Json.{extract_json_string_field}
use droidcli.Ai.Runtime.{LanguageRuntime, PostJson}

pub data HttpMethod : Type 0 where
  get : HttpMethod
  post : HttpMethod
  unknown : HttpMethod

pub data HttpStatus : Type 0 where
  ok : HttpStatus
  bad_request : HttpStatus
  unauthorized : HttpStatus
  not_found : HttpStatus
  internal_error : HttpStatus

pub record HttpHeader : Type 0 where
  pub name : Bytes
  pub value : Bytes

pub record HttpRequest : Type 0 where
  pub method : HttpMethod
  pub path : Bytes
  pub query_string : Bytes
  pub body : Bytes
  pub headers : List HttpHeader

pub record HttpResponse : Type 0 where
  pub status : HttpStatus
  pub content_type : Bytes
  pub body : Bytes

-- `HttpResponse {}` with a status and a body
abbrev pub respond : HttpStatus → Bytes → HttpResponse
respond status body = record {
  status = status;
  content_type = codes "application/json";
  body = body;
}

pub record NotifyMessage : Type 0 where
  pub raw_body : Bytes
  pub text : Bytes
  pub parsed_from_json : Bool

-- The parts of a text between two of `sep`.
unfoldable pub split_on : ℕ → Bytes → List Bytes
split_on sep [] = [] ∷ []
split_on sep (c ∷ s) = elim (c == sep) [
  | true ↦ [] ∷ split_on sep s
  | false ↦ elim (split_on sep s) [ [] ↦ (c ∷ []) ∷ [] | part ∷ parts ↦ (c ∷ part) ∷ parts ]
]

-- The name of a pair, and its value, if it has one.
unfoldable pub split_pair : Bytes → Bytes × Option Bytes
split_pair [] = ([], none)
split_pair (c ∷ s) = elim (c == b'=') [
  | true ↦ ([], some s)
  | false ↦ let r = split_pair s in (c ∷ r.0, r.1)
]

abbrev pub value_or_empty : Option Bytes → Bytes
value_or_empty none = []
value_or_empty (some v) = v

-- The value of the first pair of that name.
unfoldable pub param_of : Bytes → List Bytes → Bytes
unfolding split_pair same
param_of key [] = []
param_of key (pair ∷ pairs) =
    let (name, value) = split_pair pair in
    if same name key then value_or_empty value else param_of key pairs

unfoldable pub query_param : Bytes → Bytes → Bytes
unfolding split_on param_of
query_param query_string key = param_of key (split_on b'&' query_string)

abbrev pub is_blank : ℕ → Bool
is_blank c = c == b' ' || c == 9 || c == 13 || c == 10

unfoldable pub skip_blank : Bytes → Bytes
skip_blank [] = []
skip_blank (c ∷ s) = elim (is_blank c) [ true ↦ skip_blank s | false ↦ c ∷ s ]

unfoldable pub trim_ascii : Bytes → Bytes
unfolding skip_blank
trim_ascii input = reverse (skip_blank (reverse (skip_blank input)))

abbrev pub begins_object : Bytes → Bool
begins_object [] = false
begins_object (c ∷ s) = c == b'{'

-- `extract_json_string_field(trimmed, "message")`, by a copy of the scanner that is
-- `net::extract_json_string_field` line by line, from the text's beginning.
abbrev pub message_field : Bytes → Bytes
message_field json = extract_json_string_field json (codes "message") 0

-- `result.message`; `result.success` is always set.
unfoldable pub parse_notify_body : Bytes → NotifyMessage
unfolding trim_ascii extract_json_string_field
parse_notify_body body =
    let trimmed = trim_ascii body in
    let field = message_field trimmed in
    if is_empty trimmed
    then record { raw_body = body; text = codes "(no message)"; parsed_from_json = false }
    else if begins_object trimmed && not (is_empty field)
    then record { raw_body = body; text = field; parsed_from_json = true }
    else record { raw_body = body; text = trimmed; parsed_from_json = false }

-- The pointers of the context, of whose session the handlers read two texts; the transport pointed to may
-- hold an empty callback.
pub record HandlerContext : Type 0 where
  pub map_name : Bytes
  pub build_label : Bytes
  pub language_ai : Option LanguageRuntime
  pub language_ai_transport : Option (Option PostJson)

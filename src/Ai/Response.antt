-- ===== src/Ai/Response.antt =====
-- src/ai/openai_compat_client.cpp: the parser of a provider's response.
use droidcli.Common.{
  ℕ, zero, suc, ◌-◌, Bool, true, false, not, ◌&&◌, ◌||◌, Option, none, some, List, [], ◌∷◌, Bytes,
  codes, after, is_empty, length, ◌==◌, if◌then◌else◌, ℤ, pos, ltb_ℤ,
}
use droidcli.Json.{
  extract_json_string_field, extract_json_int_field, IntField, missing, found, out_of_range, needle,
}
use droidcli.Ai.{ToolCall, ChatResponse}

-- The file's own copy of the scanner, which is `net::extract_json_string_field` line by line.
abbrev pub string_field : Bytes → Bytes → ℕ → Bytes
string_field json name search_from = extract_json_string_field json name search_from

-- One object of an array, from its opening brace on: the bytes up to the brace that closes it, by
-- counting braces, and what is left. The count does not know strings.
unfoldable pub take_object : ℕ → Bytes → Bytes × Bytes
take_object d [] = ([], [])
take_object d (c ∷ s) = elim (c == b'{') [
  | true ↦ let r = take_object (suc d) s in (c ∷ r.0, r.1)
  | false ↦ elim (c == b'}') [
    | true ↦ elim (d == 1) [
      | true ↦ (c ∷ [], s)
      | false ↦ let r = take_object (d - 1) s in (c ∷ r.0, r.1)
    ]
    | false ↦ let r = take_object d s in (c ∷ r.0, r.1)
  ]
]

abbrev pub is_separator : ℕ → Bool
is_separator c = c == b' ' || c == 9 || c == 10 || c == 13 || c == b','

unfoldable pub skip_separators : Bytes → Bytes
skip_separators [] = []
skip_separators (c ∷ s) = elim (is_separator c) [ true ↦ skip_separators s | false ↦ c ∷ s ]

-- The loop over the elements, on fuel: each round but the last takes an object of one byte or more.
unfoldable pub objects : ℕ → Bytes → List Bytes
objects zero s = []
objects (suc f) s = elim (skip_separators s) [
  | [] ↦ []
  | c ∷ r ↦ elim (c == b'{') [
    | false ↦ []
    | true ↦ let o = take_object 0 (c ∷ r) in o.0 ∷ objects f o.1
  ]
]

unfoldable pub extract_json_object_array_at : Bytes → List Bytes
unfolding objects skip_separators take_object
extract_json_object_array_at [] = []
extract_json_object_array_at (c ∷ s) = if c == b'[' then objects (suc (length s)) s else []

-- `find('[', find(key))`: the text from the first bracket at or behind the key.
unfoldable pub bracket_from : Bytes → Bytes
bracket_from [] = []
bracket_from (c ∷ s) = elim (c == b'[') [ true ↦ c ∷ s | false ↦ bracket_from s ]

-- The objects of the array behind the first key of that name.
unfoldable pub array_field : Bytes → Bytes → List Bytes
unfolding after bracket_from extract_json_object_array_at
array_field json name = elim (after (needle name) json) [
  | none ↦ []
  | some s ↦ extract_json_object_array_at (bracket_from s)
]

abbrev pub first_nonempty : Bytes → Bytes → Bytes
first_nonempty a b = if is_empty a then b else a

unfoldable pub extract_reasoning_field : Bytes → Bytes
unfolding extract_json_string_field
extract_reasoning_field message =
    first_nonempty (string_field message (codes "reasoning_content") 0)
      (string_field message (codes "reasoning") 0)

-- Where `key` begins in the text, or 0.
unfoldable pub position_or_zero : Bytes → Bytes → ℕ
unfolding after
position_or_zero key json = elim (after key json) [
  | none ↦ 0
  | some rest ↦ length json - length rest - length key
]

unfoldable pub tool_call : Bytes → ToolCall
unfolding extract_json_string_field position_or_zero
tool_call call_object =
    let from = position_or_zero (needle (codes "function")) call_object in
    record {
      id = string_field call_object (codes "id") 0;
      name = string_field call_object (codes "name") from;
      arguments_json = string_field call_object (codes "arguments") from;
    }

-- The calls that have a name.
unfoldable pub tool_calls_of : List Bytes → List ToolCall
unfolding tool_call
tool_calls_of [] = []
tool_calls_of (o ∷ os) =
    let rest = tool_calls_of os in if is_empty (tool_call o).name then rest else tool_call o ∷ rest

abbrev pub empty_response : ChatResponse
empty_response = record {
  transport_ok = false;
  http_success = false;
  status_code = pos 0;
  done = false;
  model = [];
  assistant_message = [];
  thinking_text = [];
  tool_calls = [];
  error_message = [];
  prompt_tokens = pos 0;
  completion_tokens = pos 0;
  done_reason = [];
}

-- What is read of the first choice.
unfoldable pub with_choice : List Bytes → ChatResponse → ChatResponse
unfolding extract_json_string_field extract_reasoning_field array_field tool_calls_of
with_choice [] r = r
with_choice (first ∷ _) r = record r {
  assistant_message = string_field first (codes "content") 0;
  done_reason = string_field first (codes "finish_reason") 0;
  thinking_text = extract_reasoning_field first;
  tool_calls = tool_calls_of (array_field first (codes "tool_calls"));
}

-- `none` where `std::stoll` throws.
abbrev pub tokens : IntField → Option ℤ
tokens missing = some (pos 0)
tokens (found n) = some n
tokens out_of_range = none

abbrev pub with_tokens : Option ℤ → Option ℤ → ChatResponse → Option ChatResponse
with_tokens (some p) (some c) r = some (record r { prompt_tokens = p; completion_tokens = c })
with_tokens _ _ r = none

abbrev pub no_text : ChatResponse → Bytes
no_text r =
    if is_empty r.assistant_message && is_empty r.tool_calls
    then codes "The LLM provider's response contained no assistant text or tool calls."
    else r.error_message

-- The body of a successful response.
unfoldable pub parse_body : ℤ → Bytes → Option ChatResponse
unfolding extract_json_string_field extract_json_int_field array_field with_choice
parse_body status_code body =
    let r = with_choice (array_field body (codes "choices")) (record empty_response {
      transport_ok = true;
      status_code = status_code;
      http_success = true;
      model = string_field body (codes "model") 0;
      done = true;
    }) in
    with_tokens (tokens (extract_json_int_field body (codes "prompt_tokens") 0))
      (tokens (extract_json_int_field body (codes "completion_tokens") 0))
      (record r { error_message = no_text r })

abbrev pub http_success_code : ℤ → Bool
http_success_code s = not (ltb_ℤ s (pos 200)) && ltb_ℤ s (pos 300)

unfoldable pub parse_openai_chat_response : ℤ → Bytes → Bool → Option ChatResponse
unfolding parse_body
parse_openai_chat_response status_code body transport_ok =
    let parsed = parse_body status_code body in
    if not transport_ok
    then some (record empty_response {
      status_code = status_code;
      error_message = codes "Network failure while calling the LLM provider.";
    })
    else if not (http_success_code status_code)
    then some (record empty_response {
      transport_ok = true;
      status_code = status_code;
      error_message =
          first_nonempty body (codes "The LLM provider returned a non-success HTTP status.");
    })
    else parsed

-- ===== src/Http/Tests.antt =====
-- The handlers on small requests.
use droidcli.Common.{true, false, Option, none, some, [], ◌∷◌, ◌≡◌, refl, Bytes, codes, pos, All}
use droidcli.Json.{extract_json_bool_field}
use droidcli.Ai.Runtime.{PostJson, new_runtime}
use droidcli.Http.{get, post, HttpRequest, HandlerContext, query_param, parse_notify_body}
use droidcli.Http.Chat.{handle_ai_chat}
use droidcli.Http.Wedge.{broke, is_refusal, no_clear, serve, failed_chat_refuses}
use droidcli.Http.Dispatch.{is_chat}

abbrev hi : Bytes
hi = codes "{\"prompt\":\"hi\"}"

-- The provider is down at the first request, and up at the second.
abbrev down : Option PostJson
down = some (λ url body. (false, (pos 0, [])))

abbrev up : Option PostJson
up =
    some
      (λ url body. (true, (pos 200, codes "{\"choices\":[{\"message\":{\"content\":\"hello\"}}]}")))

abbrev hi_request : HttpRequest
hi_request = record {
  method = post;
  path = codes "/ai/chat";
  query_string = [];
  body = hi;
  headers = [];
}

abbrev chat_context : HandlerContext
chat_context = record {
  map_name = codes "unknown";
  build_label = codes "unknown";
  language_ai = some new_runtime;
  language_ai_transport = some down;
}

first_fails : broke (handle_ai_chat hi_request chat_context).0 ≡ true
unfolding handle_ai_chat
first_fails = refl

hi_keeps : no_clear (hi_request, up) ≡ true
unfolding extract_json_bool_field
hi_keeps = refl

failed_chat_example :
    All
      (λ a. is_refusal a ≡ true)
      (serve ((hi_request, up) ∷ (hi_request, up) ∷ []) (handle_ai_chat hi_request chat_context).1)
failed_chat_example =
    failed_chat_refuses hi_request ((hi_request, up) ∷ (hi_request, up) ∷ []) chat_context
      new_runtime down refl refl first_fails (hi_keeps, (hi_keeps, tt))

abbrev echo_request : HttpRequest
echo_request = record {
  method = get;
  path = codes "/echo/";
  query_string = codes "a=b&msg=say";
  body = [];
  headers = [];
}

abbrev bare_context : HandlerContext
bare_context = record {
  map_name = codes "unknown";
  build_label = codes "unknown";
  language_ai = some new_runtime;
  language_ai_transport = none;
}

echo_asked : query_param echo_request.query_string (codes "msg") ≡ codes "say"
unfolding query_param
echo_asked = refl

notified_text : (parse_notify_body (codes " {\"message\":\"m\"} ")).text ≡ codes "m"
unfolding parse_notify_body
notified_text = refl

echo_no_chat : is_chat echo_request ≡ false
echo_no_chat = refl

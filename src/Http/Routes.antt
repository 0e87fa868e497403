-- ===== src/Http/Routes.antt =====
-- src/net/handlers.cpp and src/net/router.cpp: the other handlers and the dispatch on method and path.
use mathlib.Core.List.{reverse}
use droidcli.Common.{
  Bool, true, false, not, ◌&&◌, ◌||◌, Option, none, some, [], ◌∷◌, Bytes, codes, concat, same,
  is_empty, ◌==◌, if◌then◌else◌,
}
use droidcli.Json.{json_string_field, json_bool_field}
use droidcli.Http.{
  HttpMethod, get, post, ok, HttpRequest, HttpResponse, respond, NotifyMessage, HandlerContext,
  query_param, parse_notify_body,
}
use droidcli.Http.Chat.{handle_ai_chat, Handled}

unfoldable pub handle_health : HandlerContext → HttpResponse
unfolding json_string_field
handle_health context = respond ok (
    concat (
      codes "{"
      ∷ json_string_field (codes "status") (codes "ok")
      ∷ codes ","
      ∷ json_string_field (codes "map") context.map_name
      ∷ codes ","
      ∷ json_string_field (codes "build") context.build_label
      ∷ codes "}"
      ∷ []))

unfoldable pub handle_echo : HttpRequest → HttpResponse
unfolding json_string_field query_param
handle_echo request =
    let msg = query_param request.query_string (codes "msg") in
    let echo_text = if is_empty msg && not (is_empty request.body) then request.body else msg in
    respond ok (concat (codes "{" ∷ json_string_field (codes "echo") echo_text ∷ codes "}" ∷ []))

unfoldable pub handle_notify : HttpRequest → HttpResponse × NotifyMessage
unfolding json_bool_field parse_notify_body
handle_notify request = (
  respond ok (concat (codes "{" ∷ json_bool_field (codes "ok") true ∷ codes "}" ∷ [])),
  parse_notify_body request.body,
)

-- On the reversed path: the slashes at its end, but never its last byte.
unfoldable pub drop_slashes : Bytes → Bytes
drop_slashes [] = []
drop_slashes (c ∷ []) = c ∷ []
drop_slashes (c ∷ d ∷ s) = elim (c == b'/') [ true ↦ drop_slashes (d ∷ s) | false ↦ c ∷ d ∷ s ]

unfoldable pub normalize_path : Bytes → Bytes
unfolding drop_slashes
normalize_path path = reverse (drop_slashes (reverse path))

-- What a dispatch ends with.
pub data Dispatched : Type 0 where
  answered : HttpResponse → Option NotifyMessage → Dispatched
  unhandled : Dispatched
  thrown : Dispatched

abbrev pub chat_dispatched : Handled → Dispatched × HandlerContext
chat_dispatched (none, context) = (thrown, context)
chat_dispatched (some (response, _), context) = (answered response none, context)

abbrev pub notified : HttpResponse × NotifyMessage → Dispatched
notified (response, message) = answered response (some message)

abbrev pub is_get : HttpMethod → Bool
is_get m = elim m [ get ↦ true | _ ↦ false ]

abbrev pub is_post : HttpMethod → Bool
is_post m = elim m [ post ↦ true | _ ↦ false ]

unfoldable pub dispatch : HttpRequest → HandlerContext → Dispatched × HandlerContext
unfolding normalize_path same handle_health handle_echo handle_notify handle_ai_chat
dispatch request context =
    let path = normalize_path request.path in
    if is_get request.method && same path (codes "/health")
    then (answered (handle_health context) none, context)
    else if (is_get request.method || is_post request.method) && same path (codes "/echo")
    then (answered (handle_echo request) none, context)
    else if is_post request.method && same path (codes "/notify")
    then (notified (handle_notify request), context)
    else if is_post request.method && same path (codes "/ai/chat")
    then chat_dispatched (handle_ai_chat request context)
    else (unhandled, context)

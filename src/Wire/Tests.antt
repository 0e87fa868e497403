-- ===== src/Wire/Tests.antt =====
-- The client and the server on a small call.
use droidcli.Common.{
  ℕ, true, false, none, some, List, [], ◌∷◌, ◌++◌, ◌≡◌, refl, ap, arith, Bytes, codes, concat, map,
  is_some, strip, ◌&&◌, ◌≤◌, same, length, pos, inl,
}
use droidcli.Json.Decimal.{decimal}
use droidcli.Wire.Heads.{in_line-InLine}
use droidcli.Json.{escape_json_string}
use droidcli.Guards.{to_lower_ascii}
use droidcli.Ai.Runtime.{new_runtime}
use droidcli.Http.{HttpRequest, HttpResponse, post, respond, ok, unauthorized}
use droidcli.Http.Chat.{handle_ai_chat}
use droidcli.Http.Routes.{chat_dispatched}
use droidcli.Wire.{cut_at}
use droidcli.Wire.Server.{
  read_request, write_response, status_number, CustomRouteFn, ServerState, answer_request, routed,
  unauthorized_body,
}
use droidcli.Wire.Client.{parse_http_url, request_text, sync_http_post_json}
use droidcli.Wire.Chunks.{NonEmpty}
use droidcli.Wire.Remote.{Chunking, IsCall, sent_request, server_network, remote_call}
use droidcli.Wire.Requests.{IsTarget}
use droidcli.Wire.Auth.{no_token_refused, slash_needs_no_token}

-- Every byte arrives alone.
abbrev singles : Bytes → List Bytes
singles = map (λ c. c ∷ [])

singles_whole : (t : Bytes) → concat (singles t) ≡ t
singles_whole [] = refl
singles_whole (c ∷ t) = ap (λ s. c ∷ s) (singles_whole t)

singles-NonEmpty : (t : Bytes) → NonEmpty (singles t)
singles-NonEmpty [] = tt
singles-NonEmpty (c ∷ t) = (refl, singles-NonEmpty t)

abbrev by_bytes : Chunking
by_bytes = record { cut = singles; whole = singles_whole; nonempty = singles-NonEmpty }

abbrev no_routes : CustomRouteFn ℕ
no_routes request h = (none, h)

abbrev idle_server : ServerState ℕ
idle_server = record {
  context = record {
    map_name = [];
    build_label = [];
    language_ai = some new_runtime;
    language_ai_transport = none;
  };
  host = 0;
  notified = [];
}

abbrev echo_url : Bytes
echo_url = codes "http://localhost:30080/echo"

url_parts : parse_http_url echo_url ≡ record {
  host = codes "localhost";
  path = codes "/echo";
  port = pos 30080;
  is_https = false;
  valid = true;
}
unfolding parse_http_url
url_parts = refl

abbrev echo_answer : HttpResponse
echo_answer = respond ok (codes "{\"echo\":\"hi\"}")

abbrev echo_post : HttpRequest
echo_post = record {
  method = post;
  path = codes "/echo";
  query_string = [];
  body = codes "hi";
  headers = [];
}

echo_answered : (answer_request (codes "t") no_routes echo_post idle_server).0 ≡ some echo_answer
unfolding answer_request escape_json_string
echo_answered = refl

echo_read :
    read_request (singles (codes "POST /echo?a=b HTTP/1.1\r\nContent-Length: 2\r\n\r\nhi"))
    ≡ some (record echo_post {
      query_string = codes "a=b";
      headers = record { name = codes "Content-Length"; value = codes "2" } ∷ [];
    })
unfolding read_request
echo_read = refl

echo_short : length (write_response echo_answer) ≤ 1048576
unfolding write_response decimal
echo_short = omega arith

api_path : is_some (strip (codes "/api/") (codes "/api/tasks")) ≡ true
unfolding strip
api_path = refl

wrong_token :
    (same (to_lower_ascii (codes "Authorization")) (codes "authorization")
      && same (codes "Bearer x") (codes "Bearer " ++ codes "t"))
    ≡ false
unfolding to_lower_ascii same
wrong_token = refl

-- The sent request is not quite `echo_post`: it has the client's headers.
sent_answered :
    (answer_request
      (codes "t")
      no_routes
      (sent_request (parse_http_url echo_url) (codes "hi") [])
      idle_server).0
    ≡ some echo_answer
unfolding answer_request escape_json_string parse_http_url
sent_answered = refl

echo-IsTarget : IsTarget (codes "/echo")
unfolding cut_at
echo-IsTarget = record {
  nonempty = refl;
  chars = (refl, (refl, (refl, (refl, (refl, tt)))));
  no_query = refl;
}

echo-IsCall : IsCall (parse_http_url echo_url) (codes "hi") []
unfolding parse_http_url request_text decimal cut_at
echo-IsCall = record {
  valid = refl;
  plain = refl;
  target = echo-IsTarget;
  host = in_line-InLine (codes "localhost") refl;
  headers = tt;
  short = omega arith;
}

remote_call_example :
    sync_http_post_json
      (server_network (codes "t") no_routes by_bytes by_bytes idle_server)
      echo_url
      (codes "hi")
      []
    ≡ some (pos 200, codes "{\"echo\":\"hi\"}")
unfolding status_number
remote_call_example =
    remote_call (codes "t") no_routes by_bytes by_bytes idle_server echo_url (codes "hi") []
      echo_answer echo-IsCall sent_answered (in_line-InLine (codes "application/json") refl)
      echo_short

abbrev task_request : HttpRequest
task_request = record {
  method = post;
  path = codes "/api/tasks";
  query_string = [];
  body = [];
  headers = record { name = codes "Authorization"; value = codes "Bearer x" } ∷ [];
}

no_token_example :
    answer_request (codes "t") no_routes task_request idle_server
    ≡ (some (respond unauthorized unauthorized_body), idle_server)
no_token_example =
    no_token_refused (codes "t") no_routes task_request idle_server (inl api_path) (wrong_token, tt)

abbrev slash_request : HttpRequest
slash_request = record {
  method = post;
  path = codes "/ai/chat/";
  query_string = [];
  body = codes "{\"prompt\":\"hi\"}";
  headers = [];
}

slash_example :
    answer_request (codes "t") no_routes slash_request idle_server
    ≡ routed no_routes slash_request idle_server
        (chat_dispatched (handle_ai_chat slash_request idle_server.context))
slash_example = slash_needs_no_token (codes "t") no_routes slash_request idle_server refl refl

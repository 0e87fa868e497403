-- ===== src/Wire/Server.antt =====
-- tools/mini_http_server.cpp: reading a request, answering it, and writing the response.
use mathlib.Core.List.{reverse}
use droidcli.Common.{
  ℕ, Bool, true, false, not, ◌&&◌, ◌||◌, Option, none, some, List, [], ◌∷◌, ◌++◌, Bytes, codes,
  same, strip, is_some, is_empty, length, take, drop, ◌==◌, if◌then◌else◌, ℤ, pos, pos_part, ltb_ℤ,
}
use droidcli.Json.Decimal.{decimal}
use droidcli.Guards.{to_lower_ascii}
use droidcli.Http.{
  HttpMethod, get, post, unknown, HttpStatus, ok, bad_request, unauthorized, not_found,
  internal_error, HttpHeader, HttpRequest, HttpResponse, respond, HandlerContext,
}
use droidcli.Http.Routes.{dispatch, Dispatched}
use droidcli.Wire.{
  cut_at, head_lines, message_text, is_space, skip_space, atoi, receive_head, receive_body,
}

abbrev pub is_padding : ℕ → Bool
is_padding c = c == b' ' || c == 9 || c == 13

unfoldable pub skip_padding : Bytes → Bytes
skip_padding [] = []
skip_padding (c ∷ s) = elim (is_padding c) [ true ↦ skip_padding s | false ↦ c ∷ s ]

unfoldable pub trim_padding : Bytes → Bytes
unfolding skip_padding
trim_padding value = reverse (skip_padding (reverse (skip_padding value)))

-- `stream >> word`: the next word, and the text behind it.
unfoldable pub word : Bytes → Bytes × Bytes
word [] = ([], [])
word (c ∷ s) = elim (is_space c) [ true ↦ ([], c ∷ s) | false ↦ let r = word s in (c ∷ r.0, r.1) ]

unfoldable pub next_word : Bytes → Bytes × Bytes
unfolding word skip_space
next_word s = word (skip_space s)

unfoldable pub method_of : Bytes → HttpMethod
unfolding to_lower_ascii same
method_of name =
    if same (to_lower_ascii name) (codes "get")
    then get
    else if same (to_lower_ascii name) (codes "post")
    then post
    else unknown

-- The request of a method and a target, split at its first question mark.
abbrev pub request_of : Bytes → Bytes → Option (Bytes × Bytes) → HttpRequest
request_of method target none = record {
  method = method_of method;
  path = target;
  query_string = [];
  body = [];
  headers = [];
}
request_of method target (some (path, query)) = record {
  method = method_of method;
  path = path;
  query_string = query;
  body = [];
  headers = [];
}

unfoldable pub parse_request_line : Bytes → Option HttpRequest
unfolding next_word method_of cut_at
parse_request_line line =
    let (method, rest) = next_word line in
    let (target, _) = next_word rest in
    if is_empty method || is_empty target
    then none
    else some (request_of method target (cut_at (codes "?") target))

-- The header of a line, if it has a colon.
abbrev pub header_of : Option (Bytes × Bytes) → List HttpHeader
header_of none = []
header_of (some (name, value)) =
    record { name = trim_padding name; value = trim_padding value } ∷ []

unfoldable pub header_fields : List Bytes → List HttpHeader
unfolding cut_at trim_padding
header_fields [] = []
header_fields (l ∷ ls) = header_of (cut_at (codes ":") l) ++ header_fields ls

-- The length that the last `Content-Length` line announces, else the one given.
unfoldable pub announced_length : ℤ → List Bytes → ℤ
unfolding to_lower_ascii strip trim_padding atoi
announced_length n [] = n
announced_length n (l ∷ ls) =
    announced_length
      (if is_some (strip (codes "content-length:") (to_lower_ascii l))
        then atoi (trim_padding (drop 15 l))
        else n)
      ls

abbrev pub cut_body : ℤ → Bytes → Bytes
cut_body n body = if ltb_ℤ (pos 0) n then take (pos_part n) body else body

-- The request of a head's first line, with its other lines and the body that arrives.
abbrev pub with_body : List Bytes → Bytes → List Bytes → Option HttpRequest → Option HttpRequest
with_body ls prefix chunks none = none
with_body ls prefix chunks (some request) =
    let n = announced_length (pos 0) ls in
    some (record request {
      headers = header_fields ls;
      body = cut_body n (receive_body n prefix chunks);
    })

unfoldable pub read_head : List Bytes → Bytes → List Bytes → Option HttpRequest
unfolding parse_request_line header_fields announced_length receive_body
read_head [] prefix chunks = none
read_head (l ∷ ls) prefix chunks = with_body ls prefix chunks (parse_request_line l)

abbrev pub read_received : Option (Bytes × (Bytes × List Bytes)) → Option HttpRequest
read_received none = none
read_received (some (head, (prefix, chunks))) = read_head (head_lines head) prefix chunks

unfoldable pub read_request : List Bytes → Option HttpRequest
unfolding receive_head read_head head_lines
read_request chunks = read_received (receive_head 65536 [] chunks)

unfoldable pub status_number : HttpStatus → ℕ
status_number ok = 200
status_number bad_request = 400
status_number unauthorized = 401
status_number not_found = 404
status_number internal_error = 500

abbrev pub response_lines : HttpResponse → List Bytes
response_lines response =
    (codes "HTTP/1.1 " ++ (decimal (status_number response.status) ++ codes " OK"))
    ∷ (codes "Content-Type: " ++ response.content_type)
    ∷ (codes "Content-Length: " ++ decimal (length response.body))
    ∷ codes "Connection: close"
    ∷ []

unfoldable pub write_response : HttpResponse → Bytes
unfolding status_number message_text
write_response response = message_text (response_lines response) response.body

-- The value of the first header of that name, in lower case.
unfoldable pub find_header_value : List HttpHeader → Bytes → Bytes
unfolding to_lower_ascii same
find_header_value [] lower_name = []
find_header_value (h ∷ hs) lower_name =
    if same (to_lower_ascii h.name) lower_name then h.value else find_header_value hs lower_name

unfoldable pub request_requires_auth : Bytes → Bool
unfolding strip same
request_requires_auth path = is_some (strip (codes "/api/") path) || same path (codes "/ai/chat")

-- Whether a header is `Bearer` and the token.
abbrev pub bears : Bytes → Option Bytes → Bool
bears api_token none = false
bears api_token (some t) = same t api_token

unfoldable pub is_authorized : HttpRequest → Bytes → Bool
unfolding find_header_value strip same
is_authorized request api_token =
    if is_empty api_token
    then false
    else bears api_token
        (strip (codes "Bearer ") (find_header_value request.headers (codes "authorization")))

abbrev pub unauthorized_body : Bytes
unauthorized_body =
    codes
      "{\"error\":\"unauthorized\",\"message\":\"missing or invalid Authorization: Bearer <token> header\"}"

-- The routes of the host, `custom_dispatch`, work on the host's state: a response, where they handle the
-- request, and the state that they leave.
abbrev pub CustomRouteFn {ℓ} : Type ℓ → Type ℓ
CustomRouteFn Host = HttpRequest → Host → Option HttpResponse × Host

-- The state behind the server: the conversation of its context, the host, and the notifications that
-- `on_notify` was given.
pub record ServerState (Host : Type 0) : Type 0 where
  pub context : HandlerContext
  pub host : Host
  pub notified : List Bytes

module _ {Host : Type 0} where
  abbrev pub custom_answer :
      Option HttpResponse × Host → ServerState Host → Option HttpResponse × ServerState Host
  custom_answer (some response, h) s = (some response, record s { host = h })
  custom_answer (none, h) s =
      (some (respond not_found (codes "{\"error\":\"not_found\"}")), record s { host = h })

  -- The end of `poll_once`, on what the router gives. `none` where a handler throws.
  abbrev pub routed :
      CustomRouteFn Host
      → HttpRequest
      → ServerState Host
      → Dispatched × HandlerContext
      → Option HttpResponse × ServerState Host
  routed custom request s (Dispatched.answered response none, c) =
      (some response, record s { context = c })
  routed custom request s (Dispatched.answered response (some m), c) =
      (some response, record s { context = c; notified = s.notified ++ m.text ∷ [] })
  routed custom request s (Dispatched.thrown, c) = (none, record s { context = c })
  routed custom request s (Dispatched.unhandled, c) =
      custom_answer (custom request s.host) (record s { context = c })

  -- What `poll_once` does with a request that was read.
  unfoldable pub answer_request :
      Bytes
      → CustomRouteFn Host
      → HttpRequest
      → ServerState Host
      → Option HttpResponse × ServerState Host
  unfolding request_requires_auth is_authorized dispatch
  answer_request api_token custom request s =
      if request_requires_auth request.path && not (is_authorized request api_token)
      then (some (respond unauthorized unauthorized_body), s)
      else routed custom request s (dispatch request s.context)

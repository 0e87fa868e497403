-- ===== src/Wire/Remote.antt =====
-- A call from the client of tools/sync_http_client.cpp to the server of tools/mini_http_server.cpp.
use droidcli.Common.{
  ◌≤◌, true, false, Option, none, some, List, [], ◌≡◌, refl, ◌∙◌, ap, arith, Bytes, codes, concat,
  length, All, pos,
}
use droidcli.Http.{HttpRequest, HttpResponse, post}
use droidcli.Wire.Server.{
  read_request, write_response, status_number, header_fields, CustomRouteFn, ServerState,
  answer_request,
}
use droidcli.Wire.Client.{
  ParsedHttpUrl, parse_http_url, request_text, header_lines, Network, read_http_response,
  sync_http_request, sync_http_post_json,
}
use droidcli.Wire.Chunks.{NonEmpty}
use droidcli.Wire.Heads.{InLine}
use droidcli.Wire.Requests.{IsTarget, IsExtra}
use droidcli.Wire.Arrives.{request_arrives}
use droidcli.Wire.Responses.{response_arrives}

-- A way in which a connection cuts what is sent.
pub record Chunking : Type 0 where
  pub cut : Bytes → List Bytes
  pub whole : (t : Bytes) → concat (cut t) ≡ t
  pub nonempty : (t : Bytes) → NonEmpty (cut t)

-- The request that arrives of a call.
abbrev pub sent_request : ParsedHttpUrl → Bytes → List Bytes → HttpRequest
sent_request parsed body extra = record {
  method = post;
  path = parsed.path;
  query_string = [];
  body = body;
  headers = header_fields (header_lines (codes "POST") parsed.host body extra);
}

-- A URL and headers that a call can carry.
pub record IsCall (parsed : ParsedHttpUrl) (body : Bytes) (extra : List Bytes) : Type 0 where
  pub valid : parsed.valid ≡ true
  pub plain : parsed.is_https ≡ false
  pub target : IsTarget parsed.path
  pub host : All InLine parsed.host
  pub headers : All IsExtra extra
  pub short : length (request_text (codes "POST") parsed body extra) ≤ 65536

module _ {Host : Type 0} (api_token : Bytes) (custom : CustomRouteFn Host)
    (there back : Chunking) where
  -- What the server sends back before it closes: nothing, where it could not read or answer.
  abbrev pub reply : Option HttpResponse → List Bytes
  reply none = []
  reply (some response) = back.cut (write_response response)

  abbrev pub served : ServerState Host → Option HttpRequest → List Bytes
  served s none = []
  served s (some request) = reply (answer_request api_token custom request s).0

  -- The network in which every connection leads to this server; it has no https.
  abbrev pub server_network : ServerState Host → Network
  server_network s = record {
    connect = λ host port text. some (served s (read_request (there.cut text)));
    secure = λ method parsed body extra. none;
  }

  connected :
      (s : ServerState Host) (url body : Bytes) (extra : List Bytes)
      → IsCall (parse_http_url url) body extra
      → sync_http_post_json (server_network s) url body extra
        ≡ read_http_response (
            served s (
              read_request
                (there.cut (request_text (codes "POST") (parse_http_url url) body extra))))
  unfolding sync_http_post_json sync_http_request
  connected s url body extra h = rw (h.valid, h.plain) refl

  -- A POST call gives the client the status code and the body of the response with which the server
  -- answers the request, whatever the chunks in which the request and the response arrive. (The URL is
  -- plain http; its path is not empty and has no query and no white space, its host and the content type of
  -- the response have no line breaks, every extra header is a line of its own that is not empty and
  -- announces no content length, and the messages are within the limits of the two readers.)
  pub remote_call :
      (s : ServerState Host) (url body : Bytes) (extra : List Bytes) (response : HttpResponse)
      → IsCall (parse_http_url url) body extra
      → (answer_request api_token custom (sent_request (parse_http_url url) body extra) s).0
        ≡ some response
      → All InLine response.content_type
      → length (write_response response) ≤ 1048576
      → sync_http_post_json (server_network s) url body extra
        ≡ some (pos (status_number response.status), response.body)
  remote_call s url body extra response h a t b =
      let parsed = parse_http_url url in
      let text = request_text (codes "POST") parsed body extra in
      connected s url body extra h
      ∙ ap (λ q. read_http_response (served s q))
          (request_arrives parsed body extra (there.cut text) h.target h.host h.headers
            (there.nonempty text) (there.whole text)
            (omega (arith, h.short, ap length (there.whole text))))
      ∙ ap (λ q. read_http_response (reply q)) a
      ∙ response_arrives response (back.cut (write_response response)) t
          (back.nonempty (write_response response)) (back.whole (write_response response))
          (omega (arith, b, ap length (back.whole (write_response response))))

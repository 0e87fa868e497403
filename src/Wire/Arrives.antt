-- ===== src/Wire/Arrives.antt =====
-- A request of tools/sync_http_client.cpp at the server of tools/mini_http_server.cpp.
use droidcli.Common.{
  ℕ, ◌≤◌, none, some, List, [], ◌∷◌, ◌≡◌, refl, ◌∙◌, ap, arith, Bytes, codes, concat, length, take,
  All, pos,
}
use droidcli.Http.{HttpRequest, post}
use droidcli.Wire.{blank_line, cut_at, message_text, receive_head, receive_body}
use droidcli.Wire.Server.{
  request_of, method_of, parse_request_line, header_fields, announced_length, cut_body, with_body,
  read_head, read_received, read_request,
}
use droidcli.Wire.Client.{ParsedHttpUrl, request_text, request_line, header_lines}
use droidcli.Wire.Chunks.{NonEmpty}
use droidcli.Wire.Arrival.{Arrived, receive_head-Arrived, receive_body_lem}
use droidcli.Wire.Heads.{InLine, IsLine, joined, cut-message_text, head_lines-joined}
use droidcli.Wire.Requests.{IsTarget, IsExtra, parse_post_line, request-IsLine, request-announced}

pub take_all : (b : Bytes) → take (length b) b ≡ b
take_all [] = refl
take_all (c ∷ b) = ap (λ t. c ∷ t) (take_all b)

cut_body-all : (b : Bytes) → cut_body (pos (length b)) b ≡ b
cut_body-all [] = refl
cut_body-all (c ∷ b) = ground (arith, take_all (c ∷ b))

-- Both loops on a message of known lines.
pub message-Arrived :
    (limit : ℕ) (l : Bytes) (ls : List Bytes) (body : Bytes) (chunks : List Bytes)
    → All IsLine (l ∷ ls)
    → NonEmpty chunks
    → concat chunks ≡ message_text (l ∷ ls) body
    → length (concat chunks) ≤ limit
    → Arrived (joined (l ∷ ls)) body (receive_head limit [] chunks)
message-Arrived limit l ls body chunks g n e b =
    receive_head-Arrived limit [] chunks (joined (l ∷ ls)) body n b
      (ap (cut_at blank_line) e ∙ cut-message_text l ls body g)

read_known :
    (l : Bytes) (ls : List Bytes) (prefix : Bytes) (chunks : List Bytes)
    → read_head (l ∷ ls) prefix chunks ≡ with_body ls prefix chunks (parse_request_line l)
unfolding read_head
read_known l ls prefix chunks = refl

-- What the server reads of a message of known lines.
read-message :
    (l : Bytes) (ls : List Bytes) (body : Bytes) (chunks : List Bytes) (request : HttpRequest)
    → All IsLine (l ∷ ls)
    → NonEmpty chunks
    → concat chunks ≡ message_text (l ∷ ls) body
    → length (concat chunks) ≤ 65536
    → parse_request_line l ≡ some request
    → announced_length (pos 0) ls ≡ pos (length body)
    → read_request chunks ≡ some (record request { headers = header_fields ls; body = body })
unfolding read_request
read-message l ls body chunks request g n e b p a =
    let arrived = message-Arrived 65536 l ls body chunks g n e b in
    ap read_received arrived.received
    ∙ ap (λ h. read_head h arrived.prefix arrived.chunks) (head_lines-joined (l ∷ ls) g)
    ∙ read_known l ls arrived.prefix arrived.chunks
    ∙ ap (with_body ls arrived.prefix arrived.chunks) p
    ∙ ap
        (λ k. some (record request {
          headers = header_fields ls;
          body = cut_body k (receive_body k arrived.prefix arrived.chunks);
        }))
        a
    ∙ ap
        (λ t.
          some
            (record request { headers = header_fields ls; body = cut_body (pos (length body)) t }))
        (receive_body_lem arrived.prefix arrived.chunks body arrived.nonempty arrived.all_of_it)
    ∙ ap (λ t. some (record request { headers = header_fields ls; body = t })) (cut_body-all body)

post_text :
    (parsed : ParsedHttpUrl) (body : Bytes) (extra : List Bytes)
    → request_text (codes "POST") parsed body extra
      ≡ message_text
          (request_line (codes "POST") parsed.path
            ∷ header_lines (codes "POST") parsed.host body extra)
          body
unfolding request_text
post_text parsed body extra = refl

post-method_of : method_of (codes "POST") ≡ post
unfolding method_of
post-method_of = refl

-- A POST request arrives as it was sent, in whatever chunks its bytes come: the server reads the method,
-- the path, the whole body and the headers. The message is 65,536 bytes long at most, its path has no
-- blank and no query, and no other header announces a length.
pub request_arrives :
    (parsed : ParsedHttpUrl) (body : Bytes) (extra chunks : List Bytes)
    → IsTarget parsed.path
    → All InLine parsed.host
    → All IsExtra extra
    → NonEmpty chunks
    → concat chunks ≡ request_text (codes "POST") parsed body extra
    → length (concat chunks) ≤ 65536
    → read_request chunks
      ≡ some (record {
        method = post;
        path = parsed.path;
        query_string = [];
        body = body;
        headers = header_fields (header_lines (codes "POST") parsed.host body extra);
      })
request_arrives parsed body extra chunks t h x n e b =
    let ls = header_lines (codes "POST") parsed.host body extra in
    read-message (request_line (codes "POST") parsed.path) ls body chunks
      (request_of (codes "POST") parsed.path none)
      (request-IsLine parsed.path parsed.host body extra t h x) n (e ∙ post_text parsed body extra)
      b (parse_post_line parsed.path t) (request-announced parsed.host body extra x)
    ∙ ap
        (λ m. some (record {
          method = m;
          path = parsed.path;
          query_string = [];
          body = body;
          headers = header_fields ls;
        }))
        post-method_of

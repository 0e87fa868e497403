-- ===== src/Wire/Responses.antt =====
-- A response of tools/mini_http_server.cpp at the client of tools/sync_http_client.cpp.
use droidcli.Common.{
  ◌≤◌, some, List, [], ◌∷◌, ◌++◌, ◌≡◌, refl, ◌∙◌, ap, ap₂, arith, Bytes, codes, concat, length,
  strip, All, All-append, ℤ, pos, negsuc,
}
use droidcli.Guards.{to_lower_ascii}
use droidcli.Json.Decimal.{decimal, all-decimal}
use droidcli.Http.{
  HttpStatus, ok, bad_request, unauthorized, not_found, internal_error, HttpResponse,
}
use droidcli.Wire.{cut_at, head_lines, message_text, receive_head, receive_body, atoi}
use droidcli.Wire.Server.{write_response, response_lines, status_number}
use droidcli.Wire.Client.{
  response_length, status_of, cut_response, read_received, read_http_response,
}
use droidcli.Wire.Chunks.{NonEmpty}
use droidcli.Wire.Arrival.{Arrived, receive_body_lem}
use droidcli.Wire.Heads.{InLine, IsLine, in_line-InLine, written-IsLine, joined, head_lines-joined}
use droidcli.Wire.Numbers.{atoi-blank_decimal, digits-InLine}
use droidcli.Wire.Arrives.{message-Arrived, take_all}

abbrev status_line : HttpStatus → Bytes
status_line s = codes "HTTP/1.1 " ++ (decimal (status_number s) ++ codes " OK")

-- The code is the number behind the first blank of the head.
status_of-line :
    (s : HttpStatus) (rest : Bytes)
    → status_of (cut_at (codes " ") (status_line s ++ (13 ∷ 10 ∷ rest))) ≡ pos (status_number s)
unfolding cut_at atoi status_number decimal
status_of-line ok rest = refl
status_of-line bad_request rest = refl
status_of-line unauthorized rest = refl
status_of-line not_found rest = refl
status_of-line internal_error rest = refl

status-IsLine : (s : HttpStatus) → IsLine (status_line s)
unfolding status_number
status-IsLine s =
    written-IsLine (codes "HTTP/1.1 ") (decimal (status_number s) ++ codes " OK") refl refl (
      All-append InLine (decimal (status_number s)) (codes " OK")
        (digits-InLine (decimal (status_number s)) (all-decimal (status_number s)))
        (in_line-InLine (codes " OK") refl))

response-IsLine :
    (response : HttpResponse)
    → All InLine response.content_type
    → All IsLine (response_lines response)
response-IsLine response h = (
  status-IsLine response.status,
  (
    written-IsLine (codes "Content-Type: ") response.content_type refl refl h,
    (
      written-IsLine (codes "Content-Length: ") (decimal (length response.body)) refl refl
          (digits-InLine (decimal (length response.body)) (all-decimal (length response.body))),
      (written-IsLine (codes "Connection: close") [] refl refl tt, tt),
    ),
  ),
)

response_length-lines :
    (response : HttpResponse)
    → response_length (negsuc 0) (response_lines response) ≡ pos (length response.body)
unfolding response_length
response_length-lines response =
    unfold to_lower_ascii strip in atoi-blank_decimal (length response.body)

cut_response-all : (b : Bytes) → cut_response (pos (length b)) b ≡ b
cut_response-all [] = refl
cut_response-all (c ∷ b) = ground (arith, take_all (c ∷ b))

joined_status :
    (response : HttpResponse)
    → (rest : Bytes) × (joined (response_lines response)
        ≡ status_line response.status ++ (13 ∷ 10 ∷ rest))
unfolding joined
joined_status response = (_, refl)

written_text :
    (response : HttpResponse)
    → write_response response ≡ message_text (response_lines response) response.body
unfolding write_response
written_text response = refl

response-Arrived :
    (response : HttpResponse) (chunks : List Bytes)
    → All InLine response.content_type
    → NonEmpty chunks
    → concat chunks ≡ write_response response
    → length (concat chunks) ≤ 1048576
    → Arrived (joined (response_lines response)) response.body (receive_head 1048576 [] chunks)
response-Arrived response chunks h n e b =
    message-Arrived 1048576 (status_line response.status) _ response.body chunks
      (response-IsLine response h) n (e ∙ written_text response) b

-- What the client makes of a head whose length is known.
read-head :
    (head prefix : Bytes) (chunks : List Bytes) (n : ℤ)
    → response_length (negsuc 0) (head_lines head) ≡ n
    → read_received (some (head, (prefix, chunks)))
      ≡ some (status_of (cut_at (codes " ") head), cut_response n (receive_body n prefix chunks))
read-head head prefix chunks n e =
    ap
      (λ k.
        some (status_of (cut_at (codes " ") head), cut_response k (receive_body k prefix chunks)))
      e

-- A response arrives as it was written, in whatever chunks its bytes come: the client reads the status
-- code and the whole body. The message is 1,048,576 bytes long at most.
pub response_arrives :
    (response : HttpResponse) (chunks : List Bytes)
    → All InLine response.content_type
    → NonEmpty chunks
    → concat chunks ≡ write_response response
    → length (concat chunks) ≤ 1048576
    → read_http_response chunks ≡ some (pos (status_number response.status), response.body)
unfolding read_http_response
response_arrives response chunks h n e b =
    let arrived = response-Arrived response chunks h n e b in
    let body = response.body in
    let head = joined (response_lines response) in
    let count =
      ap (response_length (negsuc 0))
        (head_lines-joined (response_lines response) (response-IsLine response h))
      ∙ response_length-lines response in
    let (rest, starts) = joined_status response in
    ap read_received arrived.received
    ∙ read-head head arrived.prefix arrived.chunks (pos (length body)) count
    ∙ ap₂ (λ c t. some (c, t))
        (ap (λ t. status_of (cut_at (codes " ") t)) starts ∙ status_of-line response.status rest)
        (ap (cut_response (pos (length body)))
            (receive_body_lem arrived.prefix arrived.chunks body arrived.nonempty arrived.all_of_it)
          ∙ cut_response-all body)

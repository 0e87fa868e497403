-- ===== src/Wire/Client.antt =====
-- tools/sync_http_client.cpp: the URL, the request that is sent, and the response that is read.
use droidcli.Common.{
  Bool, true, false, not, Option, none, some, List, [], ◌∷◌, ◌++◌, Bytes, codes, same, strip,
  is_some, is_empty, length, take, drop, if◌then◌else◌, ℤ, pos, negsuc, pos_part, ltb_ℤ,
}
use droidcli.Json.Decimal.{decimal}
use droidcli.Guards.{to_lower_ascii}
use droidcli.Wire.{cut_at, head_lines, message_text, atoi, receive_head, receive_body}

pub record ParsedHttpUrl : Type 0 where
  pub host : Bytes
  pub path : Bytes
  pub port : ℤ
  pub is_https : Bool
  pub valid : Bool

-- `std::max(1, n)`
abbrev pub at_least_one : ℤ → ℤ
at_least_one n = if ltb_ℤ n (pos 1) then pos 1 else n

-- A slash begins the path.
abbrev pub split_path : Bytes → Option (Bytes × Bytes) → Bytes × Bytes
split_path remainder none = (remainder, codes "/")
split_path remainder (some (before, behind)) = (before, b'/' ∷ behind)

abbrev pub split_port : ℤ → Bytes → Option (Bytes × Bytes) → Bytes × ℤ
split_port otherwise authority none = (authority, otherwise)
split_port otherwise authority (some (host, port)) = (host, at_least_one (atoi port))

unfoldable pub parse_remainder : Bool → ℤ → Bytes → ParsedHttpUrl
unfolding cut_at atoi
parse_remainder is_https default_port remainder =
    let (authority, path) = split_path remainder (cut_at (codes "/") remainder) in
    let (host, port) = split_port default_port authority (cut_at (codes ":") authority) in
    record {
      host = host;
      path = path;
      port = port;
      is_https = is_https;
      valid = not (is_empty host);
    }

abbrev pub no_url : ParsedHttpUrl
no_url = record { host = []; path = codes "/"; port = pos 80; is_https = false; valid = false }

abbrev pub parse_plain : Option Bytes → ParsedHttpUrl
parse_plain none = no_url
parse_plain (some remainder) = parse_remainder false (pos 80) remainder

abbrev pub parse_secure : Bytes → Option Bytes → ParsedHttpUrl
parse_secure url (some remainder) = parse_remainder true (pos 443) remainder
parse_secure url none = parse_plain (strip (codes "http://") url)

unfoldable pub parse_http_url : Bytes → ParsedHttpUrl
unfolding strip parse_remainder
parse_http_url url = parse_secure url (strip (codes "https://") url)

abbrev pub post_lines : Bytes → List Bytes
post_lines body =
    codes "Content-Type: application/json"
    ∷ (codes "Content-Length: " ++ decimal (length body))
    ∷ []

abbrev pub request_line : Bytes → Bytes → Bytes
request_line method path = method ++ (b' ' ∷ (path ++ codes " HTTP/1.1"))

-- The lines behind the first one.
unfoldable pub header_lines : Bytes → Bytes → Bytes → List Bytes → List Bytes
unfolding same
header_lines method host body extra_headers =
    (codes "Host: " ++ host)
    ∷ codes "Connection: close"
    ∷ ((if same method (codes "POST") then post_lines body else []) ++ extra_headers)

-- The text that is sent.
unfoldable pub request_text : Bytes → ParsedHttpUrl → Bytes → List Bytes → Bytes
unfolding same header_lines message_text
request_text method parsed body extra_headers =
    message_text
      (request_line method parsed.path ∷ header_lines method parsed.host body extra_headers)
      (if same method (codes "POST") then body else [])

-- The number behind the first space of the head, else 0.
abbrev pub status_of : Option (Bytes × Bytes) → ℤ
status_of none = pos 0
status_of (some (_, rest)) = atoi rest

unfoldable pub response_length : ℤ → List Bytes → ℤ
unfolding to_lower_ascii strip atoi
response_length n [] = n
response_length n (l ∷ ls) =
    response_length
      (if is_some (strip (codes "content-length:") (to_lower_ascii l)) then atoi (drop 15 l) else n)
      ls

abbrev pub cut_response : ℤ → Bytes → Bytes
cut_response n body = if ltb_ℤ n (pos 0) then body else take (pos_part n) body

-- The status code and the body.
abbrev pub read_received : Option (Bytes × (Bytes × List Bytes)) → Option (ℤ × Bytes)
read_received none = none
read_received (some (head, (prefix, chunks))) =
    let n = response_length (negsuc 0) (head_lines head) in
    some (status_of (cut_at (codes " ") head), cut_response n (receive_body n prefix chunks))

unfoldable pub read_http_response : List Bytes → Option (ℤ × Bytes)
unfolding receive_head response_length receive_body cut_at head_lines atoi
read_http_response chunks = read_received (receive_head 1048576 [] chunks)

-- The exchange over a connection: `connect` gives what the peer answers to a text, in chunks, or nothing
-- where no connection comes about. There is no transport for https but the platform's own, `secure`.
pub record Network : Type 0 where
  pub connect : Bytes → ℤ → Bytes → Option (List Bytes)
  pub secure : Bytes → ParsedHttpUrl → Bytes → List Bytes → Option (ℤ × Bytes)

abbrev pub read_answer : Option (List Bytes) → Option (ℤ × Bytes)
read_answer none = none
read_answer (some chunks) = read_http_response chunks

unfoldable pub sync_http_request : Network → Bytes → Bytes → Bytes → List Bytes → Option (ℤ × Bytes)
unfolding parse_http_url request_text read_http_response
sync_http_request network method url body extra_headers =
    let parsed = parse_http_url url in
    if not parsed.valid
    then none
    else if parsed.is_https
    then network.secure method parsed body extra_headers
    else read_answer
        (network.connect parsed.host parsed.port (request_text method parsed body extra_headers))

unfoldable pub sync_http_post_json : Network → Bytes → Bytes → List Bytes → Option (ℤ × Bytes)
unfolding sync_http_request
sync_http_post_json network url body extra_headers =
    sync_http_request network (codes "POST") url body extra_headers

unfoldable pub sync_http_get : Network → Bytes → Option (ℤ × Bytes)
unfolding sync_http_request
sync_http_get network url = sync_http_request network (codes "GET") url [] []

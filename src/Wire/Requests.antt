-- ===== src/Wire/Requests.antt =====
-- What the client of tools/sync_http_client.cpp sends and the server of tools/mini_http_server.cpp reads.
use droidcli.Common.{
  Bool, false, Option, none, some, List, [], ◌∷◌, ◌++◌, ◌≡◌, refl, ◌∙◌, ap, arith, Bytes, codes,
  strip, is_some, is_empty, length, if◌then◌else◌, All, All-append, ℤ, pos,
}
use droidcli.Guards.{to_lower_ascii}
use droidcli.Json.Decimal.{decimal, all-decimal}
use droidcli.Http.{HttpRequest}
use droidcli.Wire.{cut_at, is_space, skip_space, atoi}
use droidcli.Wire.Server.{
  word, next_word, request_of, parse_request_line, announced_length, trim_padding,
}
use droidcli.Wire.Client.{request_line, header_lines}
use droidcli.Wire.Heads.{InLine, IsLine, in_line-InLine, written-IsLine}
use droidcli.Wire.Numbers.{trim_padding-digits, atoi-decimal, digits-InLine}

-- A path that a request line can carry, without a query.
pub record IsTarget (path : Bytes) : Type 0 where
  pub nonempty : is_empty path ≡ false
  pub chars : All (λ c. is_space c ≡ false) path
  pub no_query : cut_at (codes "?") path ≡ none

abbrev pub announces : Bytes → Bool
announces l = is_some (strip (codes "content-length:") (to_lower_ascii l))

-- A header line that announces no length.
pub record IsExtra (l : Bytes) : Type 0 where
  pub line : IsLine l
  pub plain : announces l ≡ false

word-target :
    (p s : Bytes) → All (λ c. is_space c ≡ false) p → word (p ++ (b' ' ∷ s)) ≡ (p, b' ' ∷ s)
unfolding word
word-target [] s h = refl
word-target (c ∷ p) s (h, hs) = ground (arith, word-target p s)

skip_space-target :
    (p s : Bytes)
    → is_empty p ≡ false
    → All (λ c. is_space c ≡ false) p
    → skip_space (p ++ s) ≡ p ++ s
unfolding skip_space
skip_space-target [] s e h = cc
skip_space-target (c ∷ p) s e (h, hs) = ground arith

next_word-target :
    (p s : Bytes)
    → is_empty p ≡ false
    → All (λ c. is_space c ≡ false) p
    → next_word (b' ' ∷ (p ++ (b' ' ∷ s))) ≡ (p, b' ' ∷ s)
unfolding next_word
next_word-target p s e h =
    unfold skip_space in (ap word (skip_space-target p (b' ' ∷ s) e h) ∙ word-target p s h)

-- The request that the second word of a line gives.
abbrev of_word : Bytes × Bytes → Option HttpRequest
of_word w =
    if is_empty w.0 then none else some (request_of (codes "POST") w.0 (cut_at (codes "?") w.0))

post_line-of_word :
    (path : Bytes)
    → parse_request_line (request_line (codes "POST") path)
      ≡ of_word (next_word (b' ' ∷ (path ++ codes " HTTP/1.1")))
unfolding parse_request_line
post_line-of_word path = unfold next_word word skip_space in refl

parsed_post : Bytes → HttpRequest
parsed_post path = request_of (codes "POST") path none

pub parse_post_line :
    (path : Bytes)
    → IsTarget path
    → parse_request_line (request_line (codes "POST") path)
      ≡ some (request_of (codes "POST") path none)
parse_post_line path h =
    post_line-of_word path
    ∙ ap of_word (next_word-target path (codes "HTTP/1.1") h.nonempty h.chars)
    ∙ rw h.nonempty (ap (λ q. some (request_of (codes "POST") path q)) h.no_query)

space-InLine : (p : Bytes) → All (λ c. is_space c ≡ false) p → All InLine p
space-InLine [] h = tt
space-InLine (c ∷ p) (h, hs) = ((ground arith, ground arith), space-InLine p hs)

pub extra-IsLine : (extra : List Bytes) → All IsExtra extra → All IsLine extra
extra-IsLine [] h = tt
extra-IsLine (l ∷ ls) (h, hs) = (h.line, extra-IsLine ls hs)

-- The lines of a request are lines.
pub request-IsLine :
    (path host body : Bytes) (extra : List Bytes)
    → IsTarget path
    → All InLine host
    → All IsExtra extra
    → All IsLine (request_line (codes "POST") path ∷ header_lines (codes "POST") host body extra)
unfolding header_lines
request-IsLine path host body extra h g e = (
  written-IsLine (codes "POST ") (path ++ codes " HTTP/1.1") refl refl (
      All-append InLine path _ (space-InLine path h.chars)
        (in_line-InLine (codes " HTTP/1.1") refl)),
  (
    written-IsLine (codes "Host: ") host refl refl g,
    (
      written-IsLine (codes "Connection: close") [] refl refl tt,
      (
        written-IsLine (codes "Content-Type: application/json") [] refl refl tt,
        (
          written-IsLine (codes "Content-Length: ") (decimal (length body)) refl refl
              (digits-InLine (decimal (length body)) (all-decimal (length body))),
          extra-IsLine extra e,
        ),
      ),
    ),
  ),
)

extra-announced : (n : ℤ) (extra : List Bytes) → All IsExtra extra → announced_length n extra ≡ n
unfolding announced_length
extra-announced n [] h = refl
extra-announced n (l ∷ ls) (h, hs) = rw (h.plain) (extra-announced n ls hs)

length_line :
    (host body : Bytes) (extra : List Bytes)
    → announced_length (pos 0) (header_lines (codes "POST") host body extra)
      ≡ announced_length (atoi (trim_padding (b' ' ∷ decimal (length body)))) extra
unfolding header_lines announced_length
length_line host body extra = unfold to_lower_ascii strip in refl

-- The length that the lines announce is the body's.
pub request-announced :
    (host body : Bytes) (extra : List Bytes)
    → All IsExtra extra
    → announced_length (pos 0) (header_lines (codes "POST") host body extra) ≡ pos (length body)
unfolding header_lines
request-announced host body extra h =
    length_line host body extra
    ∙ ap (λ n. announced_length n extra)
        (ap atoi (trim_padding-digits (decimal (length body)) (all-decimal (length body)))
          ∙ atoi-decimal (length body))
    ∙ extra-announced (pos (length body)) extra h

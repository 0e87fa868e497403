-- ===== src/Wire.antt =====
-- tools/mini_http_server.cpp and tools/sync_http_client.cpp: HTTP messages on sockets. What `recv` gives
-- is the list of the chunks that arrive, after which the peer has closed; an empty chunk is a failure.
pub mod Server
pub mod Client
pub mod Chunks
pub mod Arrival
pub mod Heads
pub mod Numbers
pub mod Requests
pub mod Arrives
pub mod Responses
pub mod Remote
pub mod Auth
mod Tests
use droidcli.Common.{
  ℕ, zero, suc, ◌+◌, ◌-◌, Bool, true, false, not, ◌&&◌, ◌||◌, Option, none, some, List, [], ◌∷◌,
  ◌++◌, Bytes, codes, concat, map, strip, is_empty, is_some, length, take, ltb, leb, ◌==◌,
  if◌then◌else◌, ℤ, pos, sub_ℕ, ltb_ℤ,
}
use mathlib.Core.Option
use droidcli.Json.{leading_digits, digits_value}

-- "\r\n" and "\r\n\r\n"
abbrev pub crlf : Bytes
crlf = 13 ∷ 10 ∷ []

abbrev pub blank_line : Bytes
blank_line = 13 ∷ 10 ∷ 13 ∷ 10 ∷ []

abbrev pub cons_before : ℕ → Bytes × Bytes → Bytes × Bytes
cons_before c (s, t) = (c ∷ s, t)

-- The text before the first `separator`, and the text behind it.
unfoldable pub cut_at : Bytes → Bytes → Option (Bytes × Bytes)
unfolding strip
cut_at separator [] = Option.map (λ r. ([], r)) (strip separator [])
cut_at separator (c ∷ s) = elim (strip separator (c ∷ s)) [
  | some r ↦ some ([], r)
  | none ↦ Option.map (cons_before c) (cut_at separator s)
]

-- `std::getline` to the end of a text
unfoldable pub lines : Bytes → List Bytes
lines [] = []
lines (c ∷ s) = elim (c == 10) [
  | true ↦ [] ∷ lines s
  | false ↦ elim (lines s) [ [] ↦ (c ∷ []) ∷ [] | l ∷ ls ↦ (c ∷ l) ∷ ls ]
]

-- A line without one carriage return at its end.
unfoldable pub strip_cr : Bytes → Bytes
strip_cr [] = []
strip_cr (c ∷ []) = if c == 13 then [] else c ∷ []
strip_cr (c ∷ d ∷ s) = c ∷ strip_cr (d ∷ s)

-- The lines that the loop over a head reads.
unfoldable pub head_lines : Bytes → List Bytes
unfolding lines strip_cr
head_lines head = map strip_cr (lines head)

-- A message as both sides write it: its lines, a blank line, and its body.
unfoldable pub message_text : List Bytes → Bytes → Bytes
message_text ls body = concat (map (λ l. l ++ crlf) ls) ++ (crlf ++ body)

-- `std::isspace` in the "C" locale
abbrev pub is_space : ℕ → Bool
is_space c = c == b' ' || (leb 9 c && leb c 13)

unfoldable pub skip_space : Bytes → Bytes
skip_space [] = []
skip_space (c ∷ s) = elim (is_space c) [ true ↦ skip_space s | false ↦ c ∷ s ]

-- `std::atoi`, for a number that an `int` can hold
unfoldable pub signed_value : Bytes → ℤ
unfolding leading_digits digits_value
signed_value [] = pos 0
signed_value (c ∷ s) =
    if c == b'-'
    then sub_ℕ 0 (digits_value 0 (leading_digits s))
    else if c == b'+'
    then pos (digits_value 0 (leading_digits s))
    else pos (digits_value 0 (leading_digits (c ∷ s)))

unfoldable pub atoi : Bytes → ℤ
unfolding skip_space signed_value
atoi s = signed_value (skip_space s)

-- The loop up to the blank line: the head, what has arrived behind it, and the chunks still to come. It
-- fails when the peer closes first, or when more than `limit` bytes have arrived.
unfoldable pub receive_head : ℕ → Bytes → List Bytes → Option (Bytes × (Bytes × List Bytes))
unfolding cut_at
receive_head limit buffer [] = Option.map (λ p. (p.0, (p.1, []))) (cut_at blank_line buffer)
receive_head limit buffer (c ∷ cs) = elim (cut_at blank_line buffer) [
  | some p ↦ some (p.0, (p.1, c ∷ cs))
  | none ↦
      let rest = receive_head limit (buffer ++ c) cs in
      if is_empty c || ltb limit (length (buffer ++ c)) then none else rest
]

-- The loop over the body, until the announced length has arrived or the peer closes.
unfoldable pub receive_body : ℤ → Bytes → List Bytes → Bytes
receive_body announced body [] = body
receive_body announced body (c ∷ cs) =
    let rest = receive_body announced (body ++ c) cs in
    if ltb_ℤ (pos (length body)) announced && not (is_empty c) then rest else body

-- ===== src/Ai/Truncation.antt =====
-- src/ai/openai_compat_client.cpp: what the brace count reads of a reply whose text has braces.
use droidcli.Common.{
  ℕ, true, false, ◌||◌, Option, some, List, [], ◌∷◌, ◌++◌, ◌≡◌, ◌≢◌, refl, ◌∙◌, ap, arith, Bytes,
  codes, ◌==◌, All, ℤ,
}
use droidcli.Json.{
  quote, backslash, escape_char, escape_json_string, read_value, extract_json_int_field, IntField,
  missing, found, out_of_range, extract_json_string_field,
}
use droidcli.Json.Object.{Field}
use droidcli.Json.RoundTrip.{read_value-escape}
use droidcli.Ai.{ChatResponse}
use droidcli.Ai.Response.{
  take_object, array_field, with_choice, empty_response, tokens, with_tokens, no_text, parse_body,
  http_success_code, parse_openai_chat_response,
}
use droidcli.Ai.Reply.{
  is_brace, NoBrace, IsWithout, IsBraceless, reply, take_object-append, choices-reply,
  content-choice,
}

-- Bytes that a JSON text writes as they are, braces left out.
abbrev pub IsPlain : Bytes → Type 0
IsPlain = All (λ c. (is_brace c || c == quote || c == backslash) ≡ false)

IsPlain-NoBrace : (s : Bytes) → IsPlain s → NoBrace s
IsPlain-NoBrace [] h = tt
IsPlain-NoBrace (c ∷ s) (h, hs) = (ground arith, IsPlain-NoBrace s hs)

read_value-plain : (p s : Bytes) → IsPlain p → read_value (p ++ s) false ≡ p ++ read_value s false
unfolding read_value
read_value-plain [] s h = refl
read_value-plain (c ∷ p) s (h, hs) = ground (arith, read_value-plain p s hs)

tokens-read : (f : IntField) → f ≢ out_of_range → (z : ℤ) × (tokens f ≡ some z)
tokens-read missing h = (_, refl)
tokens-read (found n) h = (n, refl)
tokens-read out_of_range h = absurd (h refl)

-- A reply of that shape to a request that succeeded: `"choices"` is the first key of that name, as is
-- `"content"` in the choice, the fields before them have no braces, and the counts of tokens can be read.
pub record IsReply (status : ℤ) (outer inner lead : List Field) (rest : Bytes) : Type 0 where
  pub success : http_success_code status ≡ true
  pub choices : IsWithout (codes "choices") outer
  pub inner_content : IsWithout (codes "content") inner
  pub lead_content : IsWithout (codes "content") lead
  pub inner_braces : IsBraceless inner
  pub lead_braces : IsBraceless lead
  pub prompt :
      extract_json_int_field (reply outer inner lead rest) (codes "prompt_tokens") 0 ≢ out_of_range
  pub completion :
      extract_json_int_field (reply outer inner lead rest) (codes "completion_tokens") 0
      ≢ out_of_range

with_tokens-message :
    (a b : Option ℤ) (x y : ℤ) (s : ChatResponse) (m : Bytes)
    → a ≡ some x
    → b ≡ some y
    → s.assistant_message ≡ m
    → (r : ChatResponse) × ((with_tokens a b s ≡ some r) × (r.assistant_message ≡ m))
with_tokens-message a b x y s m e f h =
    (record s { prompt_tokens = x; completion_tokens = y }, (rw (e, f) refl, h))

-- A body with a first choice is parsed, unless a count of tokens is out of range, and its message is the
-- content of that choice.
parse_body-message :
    (status : ℤ) (body o : Bytes) (os : List Bytes)
    → extract_json_int_field body (codes "prompt_tokens") 0 ≢ out_of_range
    → extract_json_int_field body (codes "completion_tokens") 0 ≢ out_of_range
    → array_field body (codes "choices") ≡ o ∷ os
    → (r : ChatResponse) × ((parse_body status body ≡ some r)
        × (r.assistant_message ≡ extract_json_string_field o (codes "content") 0))
unfolding parse_body with_choice
parse_body-message status body o os p c e =
    let pr = tokens-read _ p in
    let cr = tokens-read _ c in
    let base = record empty_response {
      transport_ok = true;
      status_code = status;
      http_success = true;
      model = extract_json_string_field body (codes "model") 0;
      done = true;
    } in
    let s = with_choice (array_field body (codes "choices")) base in
    with_tokens-message _ _ pr.0 cr.0 (record s { error_message = no_text s }) _ pr.1 cr.1
      (ap (λ cs. (with_choice cs base).assistant_message) e)

parse_success :
    (status : ℤ) (body : Bytes)
    → http_success_code status ≡ true
    → parse_openai_chat_response status body true ≡ parse_body status body
unfolding parse_openai_chat_response
parse_success status body h = rw h refl

-- A reply whose first choice is cut at `taken` is parsed, and its message is what is read of that.
parsed_message :
    (status : ℤ) (outer inner lead : List Field) (rest m : Bytes)
    → IsReply status outer inner lead rest
    → read_value (take_object 2 rest).0 false ≡ m
    → (r : ChatResponse) × ((parse_openai_chat_response status (reply outer inner lead rest) true
          ≡ some r)
        × (r.assistant_message ≡ m))
parsed_message status outer inner lead rest m h e =
    let first = choices-reply outer inner lead rest h.choices h.inner_braces h.lead_braces in
    let parsed =
      parse_body-message status (reply outer inner lead rest) _ _ h.prompt h.completion first.1 in
    (
      parsed.0,
      (
        parse_success status _ h.success ∙ parsed.1.0,
        parsed.1.1
            ∙ content-choice inner lead (take_object 2 rest).0 h.inner_content h.lead_content
            ∙ e,
      ),
    )

NoBrace-append : (p q : Bytes) → NoBrace p → NoBrace q → NoBrace (p ++ q)
NoBrace-append [] q h g = g
NoBrace-append (c ∷ p) q (h, hs) g = (h, NoBrace-append p q hs g)

escape_char-NoBrace : (c : ℕ) → is_brace c ≡ false → NoBrace (escape_char c)
unfolding escape_char
escape_char-NoBrace c h = ground arith

escape-NoBrace : (p : Bytes) → NoBrace p → NoBrace (escape_json_string p)
unfolding escape_json_string
escape-NoBrace [] h = tt
escape-NoBrace (c ∷ p) (h, hs) =
    NoBrace-append (escape_char c) _ (escape_char-NoBrace c h) (escape-NoBrace p hs)

closing_quote : (rest : Bytes) → (take_object 2 (quote ∷ rest)).0 ≡ quote ∷ (take_object 2 rest).0
unfolding take_object
closing_quote rest = refl

closing_braces :
    (rest : Bytes) → read_value (take_object 2 (codes "}}" ++ rest)).0 false ≡ codes "}}"
unfolding take_object read_value
closing_braces rest = refl

-- A reply with a 2xx status, that may have any compact text, flag and number fields before `"choices":[`,
-- before the first choice's `"message":{`, and before that message's `"content":"`, none of them named
-- "choices" or "content" in these places, those in the choice without braces in their values, and whose
-- counts of tokens, where it has them, are in range: if the message has no braces and is escaped as the
-- writer escapes it, `parse_openai_chat_response` gives a response with the whole message, whatever follows
-- the closing quote.
pub message_of-escaped :
    (status : ℤ) (outer inner lead : List Field) (p rest : Bytes)
    → IsReply status outer inner lead (escape_json_string p ++ (quote ∷ rest))
    → NoBrace p
    → (r : ChatResponse) × ((parse_openai_chat_response status
            (reply outer inner lead (escape_json_string p ++ (quote ∷ rest)))
            true
          ≡ some r)
        × (r.assistant_message ≡ p))
message_of-escaped status outer inner lead p rest w h =
    parsed_message status outer inner lead (escape_json_string p ++ (quote ∷ rest)) p w (
      ap (λ o. read_value o.0 false)
        (take_object-append 2 (escape_json_string p) (quote ∷ rest) (escape-NoBrace p h))
      ∙ ap (λ o. read_value (escape_json_string p ++ o) false) (closing_quote rest)
      ∙ read_value-escape p (take_object 2 rest).0)

-- A reply with a 2xx status, that may have any compact text, flag and number fields before `"choices":[`,
-- before the first choice's `"message":{`, and before that message's `"content":"`, none of them named
-- "choices" or "content" in these places, those in the choice without braces in their values, and whose
-- counts of tokens, where it has them, are in range: if the message begins with plain text (no braces,
-- quotes and backslashes) and two closing braces, `parse_openai_chat_response` gives a response whose
-- message ends with these braces; the rest of the message is lost, whatever it is.
pub message_of-cut :
    (status : ℤ) (outer inner lead : List Field) (p rest : Bytes)
    → IsReply status outer inner lead (p ++ (codes "}}" ++ rest))
    → IsPlain p
    → (r : ChatResponse) × ((parse_openai_chat_response status
            (reply outer inner lead (p ++ (codes "}}" ++ rest)))
            true
          ≡ some r)
        × (r.assistant_message ≡ p ++ codes "}}"))
message_of-cut status outer inner lead p rest w h =
    parsed_message status outer inner lead (p ++ (codes "}}" ++ rest)) _ w (
      ap (λ o. read_value o.0 false)
        (take_object-append 2 p (codes "}}" ++ rest) (IsPlain-NoBrace p h))
      ∙ read_value-plain p (take_object 2 (codes "}}" ++ rest)).0 h
      ∙ ap (λ s. p ++ s) (closing_braces rest))

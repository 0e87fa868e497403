-- ===== src/Ai/Tests.antt =====
-- Concrete runs of the conversation and of the response parser.
use droidcli.Common.{
  true, false, some, Bytes, List, [], ◌∷◌, ◌++◌, ◌≡◌, ◌≢◌, refl, sym, ◌∙◌, codes, pos, same,
}
use droidcli.Json.{escape_json_string, extract_json_int_field, missing, out_of_range}
use droidcli.Json.Object.{Field, text, number, lookup_field, value_text}
use droidcli.Ai.{ChatResponse, user, assistant}
use droidcli.Ai.Response.{empty_response, parse_openai_chat_response}
use droidcli.Ai.Runtime.{
  LanguageRuntime, PostJson, new_runtime, submit_user_message, complete_turn, message,
}
use droidcli.Ai.Turns.{Step, Reach, IsConversation, Reach-IsConversation}
use droidcli.Ai.Exchange.{IsReady, reply_of, exchange}
use droidcli.Ai.Reply.{reply, fields_before}
use droidcli.Ai.Truncation.{IsReply, message_of-escaped, message_of-cut}

-- A provider that says "hello".
abbrev hello : PostJson
hello url body = (true, (pos 200, codes "{\"choices\":[{\"message\":{\"content\":\"hello\"}}]}"))

-- A provider that cannot be reached.
abbrev unreachable : PostJson
unreachable url body = (false, (pos 0, []))

abbrev greeting : ChatResponse
greeting = record empty_response {
  transport_ok = true;
  http_success = true;
  status_code = pos 200;
  done = true;
  assistant_message = codes "hello";
}

greeting_parsed : reply_of hello (submit_user_message (codes "hi") new_runtime).1 ≡ some greeting
unfolding parse_openai_chat_response
greeting_parsed = refl

new_runtime-IsReady : IsReady new_runtime
new_runtime-IsReady = record {
  enabled = refl;
  provider = refl;
  model = refl;
  base_url = refl;
  idle = refl;
}

exchange_example :
    ((submit_user_message (codes "hi") new_runtime).0 ≡ true)
    × ((s : LanguageRuntime) × (complete_turn
            (some hello)
            (submit_user_message (codes "hi") new_runtime).1
          ≡ some (true, s))
        × (s.transcript
            ≡ ([] ++ message user (codes "hi") ∷ []) ++ message assistant (codes "hello") ∷ [])
        × (s.awaiting_response ≡ false)
        × (s.last_assistant_message ≡ codes "hello"))
exchange_example =
    exchange hello (codes "hi") new_runtime greeting new_runtime-IsReady refl
      (record { transport = refl; success = refl; text = refl }) greeting_parsed

-- A message is submitted, and submitted once more.
abbrev asked_twice : LanguageRuntime
asked_twice =
    (submit_user_message (codes "again") (submit_user_message (codes "hi") new_runtime).1).1

asked_twice-Reach : Reach asked_twice
asked_twice-Reach =
    Reach.next (Reach.next Reach.start (Step.submits (codes "hi"))) (Step.submits (codes "again"))

Reach-IsConversation_example : IsConversation asked_twice
Reach-IsConversation_example = Reach-IsConversation asked_twice asked_twice-Reach

-- The shape that the parser's comment documents, behind an id and the model.
abbrev reply_head : List Field
reply_head = text (codes "id") (codes "c-1") ∷ text (codes "model") (codes "m") ∷ []

abbrev choice_head : List Field
choice_head = number (codes "index") (codes "0") ∷ []

abbrev message_head : List Field
message_head = text (codes "role") (codes "assistant") ∷ []

abbrev documented : Bytes → Bytes
documented rest = reply reply_head choice_head message_head rest

documented_text :
    documented (codes "hi\"}}]}")
    ≡ codes
        "{\"id\":\"c-1\",\"model\":\"m\",\"choices\":[{\"index\":0,\"message\":{\"role\":\"assistant\",\"content\":\"hi\"}}]}"
unfolding fields_before escape_json_string
documented_text = refl

abbrev escaped_rest : Bytes
escaped_rest = escape_json_string (codes "a\"") ++ (b'"' ∷ codes "}}]}")

abbrev cut_rest : Bytes
cut_rest = codes "so" ++ (codes "}}" ++ codes " is lost\"},\"finish_reason\":\"stop\"}]}")

documented-IsReply :
    (rest : Bytes)
    → extract_json_int_field (documented rest) (codes "prompt_tokens") 0 ≢ out_of_range
    → extract_json_int_field (documented rest) (codes "completion_tokens") 0 ≢ out_of_range
    → IsReply (pos 200) reply_head choice_head message_head rest
unfolding lookup_field value_text same escape_json_string
documented-IsReply rest p c = record {
  success = refl;
  choices = ((refl, (refl, tt)), refl);
  inner_content = (((refl, refl), tt), refl);
  lead_content = ((refl, tt), refl);
  inner_braces = (((refl, refl), (refl, tt)), tt);
  lead_braces = (
    (
      refl,
      (refl, (refl, (refl, (refl, (refl, (refl, (refl, (refl, (refl, (refl, (refl, tt))))))))))),
    ),
    tt,
  );
  prompt = p;
  completion = c;
}

missing≢out_of_range : missing ≢ out_of_range
missing≢out_of_range e = cc

escaped_uncounted :
    (extract_json_int_field (documented escaped_rest) (codes "prompt_tokens") 0 ≡ missing)
    × (extract_json_int_field (documented escaped_rest) (codes "completion_tokens") 0 ≡ missing)
unfolding escape_json_string extract_json_int_field fields_before
escaped_uncounted = (refl, refl)

cut_uncounted :
    (extract_json_int_field (documented cut_rest) (codes "prompt_tokens") 0 ≡ missing)
    × (extract_json_int_field (documented cut_rest) (codes "completion_tokens") 0 ≡ missing)
unfolding extract_json_int_field fields_before escape_json_string
cut_uncounted = (refl, refl)

escaped-IsReply : IsReply (pos 200) reply_head choice_head message_head escaped_rest
escaped-IsReply =
    documented-IsReply escaped_rest (λ e. missing≢out_of_range (sym escaped_uncounted.0 ∙ e))
      (λ e. missing≢out_of_range (sym escaped_uncounted.1 ∙ e))

cut-IsReply : IsReply (pos 200) reply_head choice_head message_head cut_rest
cut-IsReply =
    documented-IsReply cut_rest (λ e. missing≢out_of_range (sym cut_uncounted.0 ∙ e))
      (λ e. missing≢out_of_range (sym cut_uncounted.1 ∙ e))

message_escaped_example :
    (r : ChatResponse) × ((parse_openai_chat_response (pos 200) (documented escaped_rest) true
        ≡ some r)
      × (r.assistant_message ≡ codes "a\""))
message_escaped_example =
    message_of-escaped (pos 200) reply_head choice_head message_head (codes "a\"") (codes "}}]}")
      escaped-IsReply (refl, (refl, tt))

message_cut_example :
    (r : ChatResponse) × ((parse_openai_chat_response (pos 200) (documented cut_rest) true ≡ some r)
      × (r.assistant_message ≡ codes "so" ++ codes "}}"))
message_cut_example =
    message_of-cut (pos 200) reply_head choice_head message_head (codes "so")
      (codes " is lost\"},\"finish_reason\":\"stop\"}]}") cut-IsReply (refl, (refl, tt))

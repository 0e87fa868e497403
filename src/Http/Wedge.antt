-- ===== src/Http/Wedge.antt =====
-- src/net/handlers.cpp: a chat request after a turn that failed.
use droidcli.Common.{
  Bool, true, false, not, Option, none, some, List, [], ◌∷◌, ◌≡◌, refl, sym, ◌∙◌, ap, subst, arith,
  Bytes, codes, is_empty, Bool-cases, inl, inr, All,
}
use droidcli.Json.{extract_json_bool_field}
use droidcli.Ai.Runtime.{
  LanguageRuntime, PostJson, set_system_prompt, submit_user_message, apply_chat_response,
  complete_turn,
}
use droidcli.Ai.Turns.{Turn, complete_turn-cases}
use droidcli.Http.{bad_request, internal_error, HttpRequest, HttpResponse, HandlerContext}
use droidcli.Http.Chat.{
  extract_prompt_field, chat, chat_at, handle_ai_chat, prepare, clears, submitted, turn_answer,
}

-- Status 500, or an exception.
abbrev pub broke : Option (HttpResponse × Bool) → Bool
broke none = true
broke (some (r, _)) = elim r.status [ internal_error ↦ true | _ ↦ false ]

abbrev pub is_refusal : Option (HttpResponse × Bool) → Bool
is_refusal none = false
is_refusal (some (r, completed)) = elim r.status [ bad_request ↦ not completed | _ ↦ false ]

-- The chat requests that come one after the other, each with the transport that is bound when it comes.
unfoldable pub serve :
    List (HttpRequest × Option PostJson) → HandlerContext → List (Option (HttpResponse × Bool))
unfolding handle_ai_chat
serve [] context = []
serve ((request, transport) ∷ requests) context =
    let (answer, left) =
      handle_ai_chat request (record context { language_ai_transport = some transport }) in
    answer ∷ serve requests left

abbrev pub no_clear : HttpRequest × Option PostJson → Bool
no_clear (request, _) = not (clears (extract_json_bool_field request.body (codes "clear") 0))

failed-awaits :
    (transport : Option PostJson) (r s : LanguageRuntime)
    → Turn transport r s false
    → r.awaiting_response ≡ true
    → s.awaiting_response ≡ true
unfolding apply_chat_response
failed-awaits transport r s (Turn.refused reason e) h = sym (ap (λ p. p.1.awaiting_response) e) ∙ h
failed-awaits transport r s (Turn.applies a e) h = ground arith

submit-awaits :
    (text : Bytes) (r : LanguageRuntime)
    → (submit_user_message text r).0 ≡ true
    → (submit_user_message text r).1.awaiting_response ≡ true
unfolding submit_user_message
submit-awaits text r h = ground arith

submit-refused :
    (text : Bytes) (r : LanguageRuntime)
    → r.awaiting_response ≡ true
    → ((submit_user_message text r).0 ≡ false)
      × ((submit_user_message text r).1.awaiting_response ≡ true)
unfolding submit_user_message
submit-refused text r h = ground arith

turn_answer-awaits :
    (transport : Option PostJson) (r : LanguageRuntime) (o : Option (Bool × LanguageRuntime))
    → complete_turn transport r ≡ o
    → r.awaiting_response ≡ true
    → broke (turn_answer r o).0 ≡ true
    → (turn_answer r o).1.awaiting_response ≡ true
turn_answer-awaits transport r none e h g = h
turn_answer-awaits transport r (some (false, s)) e h g =
    failed-awaits transport r s (complete_turn-cases transport r s false e) h
turn_answer-awaits transport r (some (true, s)) e h g = cc

submitted-awaits :
    (transport : Option PostJson) (p : Bool × LanguageRuntime)
    → (p.0 ≡ true → p.1.awaiting_response ≡ true)
    → broke (submitted transport p).0 ≡ true
    → (submitted transport p).1.awaiting_response ≡ true
submitted-awaits transport (false, r) h g = cc
submitted-awaits transport (true, r) h g = turn_answer-awaits transport r _ refl (h refl) g

chat_empty :
    (body : Bytes) (transport : Option PostJson) (r : LanguageRuntime)
    → is_empty (extract_prompt_field body) ≡ true
    → (is_refusal (chat body transport r).0 ≡ true) × ((chat body transport r).1 ≡ r)
unfolding chat
chat_empty body transport r e = rw e (refl, refl)

chat_asked :
    (body : Bytes) (transport : Option PostJson) (r : LanguageRuntime)
    → is_empty (extract_prompt_field body) ≡ false
    → chat body transport r
      ≡ submitted transport (submit_user_message (extract_prompt_field body) (prepare body r))
unfolding chat
chat_asked body transport r e = rw e

refusal-unbroken : (a : Option (HttpResponse × Bool)) → is_refusal a ≡ true → broke a ≡ false
refusal-unbroken none h = cc
refusal-unbroken (some (r, completed)) h = ground arith

broken-awaits :
    (body : Bytes) (transport : Option PostJson) (r : LanguageRuntime)
    → broke (chat body transport r).0 ≡ true
    → (chat body transport r).1.awaiting_response ≡ true
broken-awaits body transport r h = elim (Bool-cases (is_empty (extract_prompt_field body))) [
  | inl e ↦ cc (h, refusal-unbroken _ (chat_empty body transport r e).0)
  | inr e ↦
      subst (λ p. broke p.0 ≡ true → p.1.awaiting_response ≡ true)
        (sym (chat_asked body transport r e))
        (submitted-awaits transport _ (submit-awaits (extract_prompt_field body) (prepare body r)))
        h
]

prepare-awaits :
    (body : Bytes) (transport : Option PostJson) (r : LanguageRuntime)
    → clears (extract_json_bool_field body (codes "clear") 0) ≡ false
    → r.awaiting_response ≡ true
    → (prepare body r).awaiting_response ≡ true
unfolding prepare set_system_prompt
prepare-awaits body transport r n h = ground arith

submitted-refusal :
    (transport : Option PostJson) (p : Bool × LanguageRuntime)
    → (p.0 ≡ false) × (p.1.awaiting_response ≡ true)
    → (is_refusal (submitted transport p).0 ≡ true)
      × ((submitted transport p).1.awaiting_response ≡ true)
submitted-refusal transport (false, r) (h, g) = (refl, g)
submitted-refusal transport (true, r) (h, g) = cc

-- While a response is awaited, a request that does not clear the transcript is refused and changes
-- nothing of that.
awaiting-refuses :
    (body : Bytes) (transport : Option PostJson) (r : LanguageRuntime)
    → clears (extract_json_bool_field body (codes "clear") 0) ≡ false
    → r.awaiting_response ≡ true
    → (is_refusal (chat body transport r).0 ≡ true)
      × ((chat body transport r).1.awaiting_response ≡ true)
awaiting-refuses body transport r n h = elim (Bool-cases (is_empty (extract_prompt_field body))) [
  | inl e ↦ (
    (chat_empty body transport r e).0,
    ap (λ s. s.awaiting_response) (chat_empty body transport r e).1 ∙ h,
  )
  | inr e ↦
      subst (λ p. (is_refusal p.0 ≡ true) × (p.1.awaiting_response ≡ true))
        (sym (chat_asked body transport r e))
        (submitted-refusal transport _ (
          submit-refused (extract_prompt_field body) (prepare body r)
            (prepare-awaits body transport r n h)))
]

handled_lem :
    (request : HttpRequest) (transport : Option PostJson) (context : HandlerContext)
    (r : LanguageRuntime)
    → context.language_ai ≡ some r
    → context.language_ai_transport ≡ some transport
    → handle_ai_chat request context ≡ chat_at request.body (some r) (some transport) context
unfolding handle_ai_chat
handled_lem request transport context r h g = rw (h, g) refl

serve-refuses :
    (requests : List (HttpRequest × Option PostJson)) (context : HandlerContext)
    (r : LanguageRuntime)
    → All (λ q. no_clear q ≡ true) requests
    → context.language_ai ≡ some r
    → r.awaiting_response ≡ true
    → All (λ a. is_refusal a ≡ true) (serve requests context)
unfolding serve
serve-refuses [] context r n e h = tt
serve-refuses ((request, transport) ∷ requests) context r (n, ns) e h =
    let s = awaiting-refuses request.body transport r (ground arith) h in
    let bound = record context { language_ai_transport = some transport } in
    subst (λ p. (is_refusal p.0 ≡ true) × All (λ a. is_refusal a ≡ true) (serve requests p.1))
      (sym (handled_lem request transport bound r e refl))
      (s.0, serve-refuses requests _ _ ns refl s.1)

-- With a conversation and a transport bound: after a chat request that `handle_ai_chat` ended with status
-- 500 or an exception, every later chat request is answered with status 400 and completes no turn,
-- whatever it asks and however the provider replies, as long as none of them asks to clear the
-- transcript.
pub failed_chat_refuses :
    (request : HttpRequest) (requests : List (HttpRequest × Option PostJson))
    (context : HandlerContext) (r : LanguageRuntime) (transport : Option PostJson)
    → context.language_ai ≡ some r
    → context.language_ai_transport ≡ some transport
    → broke (handle_ai_chat request context).0 ≡ true
    → All (λ q. no_clear q ≡ true) requests
    → All (λ a. is_refusal a ≡ true) (serve requests (handle_ai_chat request context).1)
failed_chat_refuses request requests context r transport e g h n =
    subst (λ p. broke p.0 ≡ true → All (λ a. is_refusal a ≡ true) (serve requests p.1))
      (sym (handled_lem request transport context r e g))
      (λ b. serve-refuses requests _ _ n refl (broken-awaits request.body transport r b)) h

-- ===== src/Ai/Exchange.antt =====
-- src/ai/language_runtime.cpp: one exchange with a provider.
use droidcli.Common.{
  Bool, true, false, Option, some, List, [], ◌∷◌, ◌++◌, ◌≡◌, refl, ◌∙◌, ap, arith, Bytes, is_empty,
}
use droidcli.Ai.{user, assistant, ChatMessage, ChatResponse, OpenAiCompatConfig}
use droidcli.Ai.OpenAi.{build_openai_chat_request, build_openai_chat_url, trim_trailing_slash}
use droidcli.Ai.Response.{parse_openai_chat_response}
use droidcli.Ai.Runtime.{
  LanguageRuntime, PostJson, message, submit_user_message, apply_chat_response, complete_turn,
  build_pending_chat_request, post_turn, applied,
}
use droidcli.Ai.Turns.{posted_turn}

-- Nothing of the configuration refuses a message, and no response is awaited.
pub record IsReady (r : LanguageRuntime) : Type 0 where
  pub enabled : r.runtime_enabled ≡ true
  pub provider : r.ollama_config.enabled ≡ true
  pub model : is_empty r.ollama_config.model ≡ false
  pub base_url : is_empty r.ollama_config.base_url ≡ false
  pub idle : r.awaiting_response ≡ false

-- A response that carries an answer.
pub record IsAnswer (a : ChatResponse) : Type 0 where
  pub transport : a.transport_ok ≡ true
  pub success : a.http_success ≡ true
  pub text : is_empty a.assistant_message ≡ false

ready-submits :
    (text : Bytes) (r : LanguageRuntime)
    → IsReady r
    → is_empty text ≡ false
    → submit_user_message text r ≡ (true, (submit_user_message text r).1)
unfolding submit_user_message
ready-submits text r h e = ground arith

append-nonempty : (ms : List ChatMessage) (m : ChatMessage) → is_empty (ms ++ m ∷ []) ≡ false
append-nonempty [] m = refl
append-nonempty (n ∷ ms) m = refl

append_bytes-nonempty : (s t : Bytes) → is_empty t ≡ false → is_empty (s ++ t) ≡ false
append_bytes-nonempty [] t h = h
append_bytes-nonempty (c ∷ s) t h = refl

url-nonempty :
    (c : OpenAiCompatConfig)
    → is_empty c.base_url ≡ false
    → is_empty (build_openai_chat_url c) ≡ false
unfolding build_openai_chat_url
url-nonempty c h = rw h (append_bytes-nonempty (trim_trailing_slash c.base_url) _ refl)

request-valid :
    (c : OpenAiCompatConfig) (ms : List ChatMessage)
    → c.enabled ≡ true
    → is_empty c.model ≡ false
    → is_empty ms ≡ false
    → is_empty c.base_url ≡ false
    → (build_openai_chat_request c ms []).valid ≡ true
unfolding build_openai_chat_request
request-valid c ms e m n b = rw (e, m, n, url-nonempty c b)

-- After a message that is accepted.
pub record Submitted (text : Bytes) (r s : LanguageRuntime) : Type 0 where
  pub transcript : s.transcript ≡ r.transcript ++ message user text ∷ []
  pub awaits : s.awaiting_response ≡ true
  pub enabled : s.runtime_enabled ≡ r.runtime_enabled
  pub config : s.ollama_config ≡ r.ollama_config

submit-Submitted :
    (text : Bytes) (r : LanguageRuntime)
    → IsReady r
    → is_empty text ≡ false
    → Submitted text r (submit_user_message text r).1
unfolding submit_user_message
submit-Submitted text r h e =
    rw (h.enabled, h.provider, e, h.idle)
      (record { transcript = refl; awaits = refl; enabled = refl; config = refl })

pending-valid :
    (text : Bytes) (r s : LanguageRuntime)
    → IsReady r
    → Submitted text r s
    → (build_pending_chat_request s).valid ≡ true
unfolding build_pending_chat_request
pending-valid text r s h g =
    rw (g.enabled, h.enabled, g.awaits, g.config, g.transcript)
      (request-valid r.ollama_config _ h.provider h.model (append-nonempty r.transcript _)
        h.base_url)

-- After a reply that is applied.
pub record Replied (a : ChatResponse) (r : LanguageRuntime) (p : Bool × LanguageRuntime)
    : Type 0 where
  pub succeeds : p.0 ≡ true
  pub transcript : p.1.transcript ≡ r.transcript ++ message assistant a.assistant_message ∷ []
  pub idle : p.1.awaiting_response ≡ false
  pub last : p.1.last_assistant_message ≡ a.assistant_message

answer-applies :
    (a : ChatResponse) (r : LanguageRuntime)
    → IsAnswer a
    → r.awaiting_response ≡ true
    → Replied a r (apply_chat_response a r)
unfolding apply_chat_response
answer-applies a r h w =
    rw (w, h.transport, h.success, h.text)
      (record { succeeds = refl; transcript = refl; idle = refl; last = refl })

abbrev pub reply_of : PostJson → LanguageRuntime → Option ChatResponse
reply_of post r =
    let request = build_pending_chat_request r in
    let reply = post request.url request.body in
    parse_openai_chat_response reply.1.0 reply.1.1 reply.0

post_turn-reply :
    (post : PostJson) (r : LanguageRuntime)
    → post_turn post (build_pending_chat_request r) r ≡ applied (reply_of post r) r
unfolding post_turn
post_turn-reply post r = refl

-- A message that is not empty, sent by a runtime that is ready, whose provider's reply parses to an
-- answer: the turn succeeds, the transcript grows by the message and the answer, and the runtime awaits
-- nothing.
pub exchange :
    (post : PostJson) (text : Bytes) (r : LanguageRuntime) (a : ChatResponse)
    → IsReady r
    → is_empty text ≡ false
    → IsAnswer a
    → reply_of post (submit_user_message text r).1 ≡ some a
    → ((submit_user_message text r).0 ≡ true)
      × ((s : LanguageRuntime) × (complete_turn (some post) (submit_user_message text r).1
            ≡ some (true, s))
          × (s.transcript
              ≡ (r.transcript ++ message user text ∷ [])
                ++ message assistant a.assistant_message ∷ [])
          × (s.awaiting_response ≡ false)
          × (s.last_assistant_message ≡ a.assistant_message))
exchange post text r a h e g p =
    let u = (submit_user_message text r).1 in
    let sub = submit-Submitted text r h e in
    let done = answer-applies a u g sub.awaits in
    (
      ap (λ q. q.0) (ready-submits text r h e),
      (
        (apply_chat_response a u).1,
        posted_turn post u (pending-valid text r u h sub)
            ∙ post_turn-reply post u
            ∙ ap (λ o. applied o u) p
            ∙ ap (λ b. some (b, (apply_chat_response a u).1)) done.succeeds,
        done.transcript
            ∙ ap (λ ms. ms ++ message assistant a.assistant_message ∷ []) sub.transcript,
        done.idle,
        done.last,
      ),
    )

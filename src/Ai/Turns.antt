-- ===== src/Ai/Turns.antt =====
-- The conversation of src/ai/language_runtime.cpp under every sequence of its operations.
use mathlib.Core.Option
use droidcli.Common.{
  Bool, true, false, Option, none, some, List, [], ◌∷◌, ◌++◌, ◌≡◌, refl, sym, ◌∙◌, ap, subst, arith,
  Bytes, codes, Bool-cases, Option-cases, inl, inr,
}
use droidcli.Ai.{ChatRole, user, assistant, ChatMessage, OpenAiCompatConfig, ChatResponse}
use droidcli.Ai.Runtime.{
  LanguageRuntime, PostJson, new_runtime, set_ollama_config, set_runtime_enabled, clear_transcript,
  set_system_prompt, upsert_system_message, drop_system_message, is_system, message,
  submit_user_message, apply_chat_response, complete_turn, build_pending_chat_request, post_turn,
  applied, refuse,
}

-- Who speaks next: `true` for the assistant.
abbrev pub speak : ChatRole → Bool → Option Bool
speak user false = some true
speak assistant true = some false
speak _ _ = none

-- User and assistant in turns, from the turn given.
unfoldable pub speaks_next : Bool → List ChatMessage → Option Bool
speaks_next b [] = some b
speaks_next b (m ∷ ms) = elim (speak m.role b) [ none ↦ none | some c ↦ speaks_next c ms ]

-- Behind at most one system message, user and assistant take turns, the user first, and the runtime
-- awaits a response just when the last message is the user's.
abbrev pub IsConversation : LanguageRuntime → Type 0
IsConversation r = speaks_next false (drop_system_message r.transcript) ≡ some r.awaiting_response

-- An operation of the runtime. `replies` is any response at all, `turns` a turn that returns.
pub data Step : LanguageRuntime → LanguageRuntime → Type 0 where
  configures : {r : LanguageRuntime} (c : OpenAiCompatConfig) → Step r (set_ollama_config c r)
  enables : {r : LanguageRuntime} (b : Bool) → Step r (set_runtime_enabled b r)
  clears : {r : LanguageRuntime} → Step r (clear_transcript r)
  prompts : {r : LanguageRuntime} (p : Bytes) → Step r (set_system_prompt p r)
  submits : {r : LanguageRuntime} (text : Bytes) → Step r (submit_user_message text r).1
  replies : {r : LanguageRuntime} (a : ChatResponse) → Step r (apply_chat_response a r).1
  turns :
      {r s : LanguageRuntime} (transport : Option PostJson) (b : Bool)
      → complete_turn transport r ≡ some (b, s)
      → Step r s

pub data Reach : LanguageRuntime → Type 0 where
  start : Reach new_runtime
  next : {r s : LanguageRuntime} → Reach r → Step r s → Reach s

speaks_next-append :
    (b c : Bool) (ms : List ChatMessage) (m : ChatMessage)
    → speaks_next b ms ≡ some c
    → speaks_next b (ms ++ m ∷ []) ≡ speaks_next c (m ∷ [])
unfolding speaks_next
speaks_next-append b c [] m h = ground arith
speaks_next-append b c (n ∷ ms) m h = elim (Option-cases (speak n.role b)) [
  | inl e ↦ ground arith
  | inr (d, e) ↦ ground (arith, speaks_next-append d c ms m)
]

drop_system-append :
    (ms : List ChatMessage) (m : ChatMessage)
    → is_system m ≡ false
    → drop_system_message (ms ++ m ∷ []) ≡ drop_system_message ms ++ m ∷ []
unfolding drop_system_message
drop_system-append [] m h = rw h
drop_system-append (n ∷ ms) m h = ground arith

said :
    (b : Bool) (ms : List ChatMessage) (m : ChatMessage)
    → is_system m ≡ false
    → speaks_next false (drop_system_message ms) ≡ some b
    → speaks_next false (drop_system_message (ms ++ m ∷ [])) ≡ speaks_next b (m ∷ [])
said b ms m h e =
    ap (speaks_next false) (drop_system-append ms m h) ∙ speaks_next-append false b _ m e

upserted :
    (p : Bytes) (ms : List ChatMessage)
    → drop_system_message (upsert_system_message p ms) ≡ drop_system_message ms
unfolding upsert_system_message drop_system_message
upserted p [] = refl
upserted p (m ∷ ms) = ground arith

dropped_head :
    (b : Bool) (ms : List ChatMessage) → speaks_next false ms ≡ some b → drop_system_message ms ≡ ms
unfolding speaks_next drop_system_message
dropped_head b [] h = refl
dropped_head b (m ∷ ms) h = ground arith

prompts-IsConversation :
    (p : Bytes) (r : LanguageRuntime) → IsConversation r → IsConversation (set_system_prompt p r)
unfolding set_system_prompt
prompts-IsConversation [] r h = ap (speaks_next false) (dropped_head r.awaiting_response _ h) ∙ h
prompts-IsConversation (c ∷ p) r h = ap (speaks_next false) (upserted (c ∷ p) r.transcript) ∙ h

asked :
    (text : Bytes) (r : LanguageRuntime)
    → r.awaiting_response ≡ false
    → IsConversation r
    → speaks_next false (drop_system_message (r.transcript ++ message user text ∷ [])) ≡ some true
asked text r w h =
    said false r.transcript (message user text) refl (h ∙ ap some w) ∙ unfold speaks_next in refl

answered :
    (text : Bytes) (r : LanguageRuntime)
    → r.awaiting_response ≡ true
    → IsConversation r
    → speaks_next false (drop_system_message (r.transcript ++ message assistant text ∷ []))
      ≡ some false
answered text r w h =
    said true r.transcript (message assistant text) refl (h ∙ ap some w)
    ∙ unfold speaks_next in refl

submits-IsConversation :
    (text : Bytes) (r : LanguageRuntime)
    → IsConversation r
    → IsConversation (submit_user_message text r).1
unfolding submit_user_message
submits-IsConversation text r h = ground (arith, asked text r)

replies-IsConversation :
    (a : ChatResponse) (r : LanguageRuntime)
    → IsConversation r
    → IsConversation (apply_chat_response a r).1
unfolding apply_chat_response
replies-IsConversation a r h = ground (arith, answered a.assistant_message r)

-- A turn that returns refuses, or applies a response.
pub data Turn (transport : Option PostJson) (r s : LanguageRuntime) (b : Bool) : Type 0 where
  refused : (reason : Bytes) → refuse reason r ≡ (b, s) → Turn transport r s b
  applies : (a : ChatResponse) → apply_chat_response a r ≡ (b, s) → Turn transport r s b

applied-cases :
    (transport : Option PostJson) (r s : LanguageRuntime) (b : Bool) (o : Option ChatResponse)
    → applied o r ≡ some (b, s)
    → Turn transport r s b
applied-cases transport r s b none h = absurd (Option.none-ne-some (b, s) h)
applied-cases transport r s b (some a) h = Turn.applies a (Option.some-injective _ _ h)

refused_turn :
    (transport : Option PostJson) (r : LanguageRuntime)
    → (build_pending_chat_request r).valid ≡ false
    → complete_turn transport r ≡ some (refuse (build_pending_chat_request r).error_message r)
unfolding complete_turn
refused_turn transport r e = rw e

unbound_turn :
    (r : LanguageRuntime)
    → (build_pending_chat_request r).valid ≡ true
    → complete_turn none r ≡ some (refuse (codes "Language AI transport is not bound.") r)
unfolding complete_turn
unbound_turn r e = rw e

pub posted_turn :
    (post : PostJson) (r : LanguageRuntime)
    → (build_pending_chat_request r).valid ≡ true
    → complete_turn (some post) r ≡ post_turn post (build_pending_chat_request r) r
unfolding complete_turn
posted_turn post r e = rw e

post_turn-cases :
    (post : PostJson) (r s : LanguageRuntime) (b : Bool)
    → post_turn post (build_pending_chat_request r) r ≡ some (b, s)
    → Turn (some post) r s b
unfolding post_turn
post_turn-cases post r s b h = applied-cases (some post) r s b _ h

pub complete_turn-cases :
    (transport : Option PostJson) (r s : LanguageRuntime) (b : Bool)
    → complete_turn transport r ≡ some (b, s)
    → Turn transport r s b
complete_turn-cases none r s b h = elim (Bool-cases (build_pending_chat_request r).valid) [
  | inr e ↦ Turn.refused _ (Option.some-injective _ _ (sym (refused_turn none r e) ∙ h))
  | inl e ↦ Turn.refused _ (Option.some-injective _ _ (sym (unbound_turn r e) ∙ h))
]
complete_turn-cases (some post) r s b h = elim (Bool-cases (build_pending_chat_request r).valid) [
  | inr e ↦ Turn.refused _ (Option.some-injective _ _ (sym (refused_turn (some post) r e) ∙ h))
  | inl e ↦ post_turn-cases post r s b (sym (posted_turn post r e) ∙ h)
]

turns-IsConversation :
    (transport : Option PostJson) (r s : LanguageRuntime) (b : Bool)
    → Turn transport r s b
    → IsConversation r
    → IsConversation s
turns-IsConversation transport r s b (Turn.refused reason e) h = subst (λ p. IsConversation p.1) e h
turns-IsConversation transport r s b (Turn.applies a e) h =
    subst (λ p. IsConversation p.1) e (replies-IsConversation a r h)

Step-IsConversation : (r s : LanguageRuntime) → Step r s → IsConversation r → IsConversation s
Step-IsConversation r s (configures c) h = unfold set_ollama_config in h
Step-IsConversation r s (enables b) h = unfold set_runtime_enabled in h
Step-IsConversation r s clears h = unfold clear_transcript drop_system_message speaks_next in refl
Step-IsConversation r s (prompts p) h = prompts-IsConversation p r h
Step-IsConversation r s (submits text) h = submits-IsConversation text r h
Step-IsConversation r s (replies a) h = replies-IsConversation a r h
Step-IsConversation r s (turns transport b e) h =
    turns-IsConversation transport r s b (complete_turn-cases transport r s b e) h

-- In every state that operations reach from a new runtime, user and assistant take turns behind at most
-- one system message, the user first, and the runtime awaits a response exactly when the user spoke last.
pub Reach-IsConversation : (r : LanguageRuntime) → Reach r → IsConversation r
Reach-IsConversation r start = unfold drop_system_message speaks_next in refl
Reach-IsConversation s (next {r} h step) = Step-IsConversation r s step (Reach-IsConversation r h)

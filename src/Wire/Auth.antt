-- ===== src/Wire/Auth.antt =====
-- tools/mini_http_server.cpp: which requests are answered without the token.
use mathlib.Core.Option
use droidcli.Common.{
  Bool, true, false, ◌&&◌, some, List, [], ◌∷◌, ◌++◌, ◌≡◌, refl, ◌∙◌, ap, arith, Bytes, codes, same,
  same_iff, strip, is_some, All, Bool-cases, Option-cases, ◌⊎◌, inl, inr,
}
use droidcli.Guards.{to_lower_ascii}
use droidcli.Http.{HttpHeader, HttpRequest, post, respond, unauthorized, HandlerContext}
use droidcli.Http.Chat.{handle_ai_chat}
use droidcli.Http.Routes.{dispatch, chat_dispatched, normalize_path}
use droidcli.Wire.Server.{
  find_header_value, bears, is_authorized, request_requires_auth, unauthorized_body, CustomRouteFn,
  ServerState, routed, answer_request,
}

-- No `Authorization` header, in any case, is "Bearer " and the token.
abbrev pub NoBearer : Bytes → List HttpHeader → Type 0
NoBearer api_token = All (λ h.
    (same (to_lower_ascii h.name) (codes "authorization")
      && same h.value (codes "Bearer " ++ api_token))
    ≡ false)

strip_same : (p s t : Bytes) → strip p s ≡ some t → s ≡ p ++ t
unfolding strip
strip_same [] s t h = Option.some-injective _ _ h
strip_same (c ∷ p) [] t h = cc
strip_same (c ∷ p) (d ∷ s) t h = ground (arith, strip_same p s t)

other_token :
    (api_token v t : Bytes)
    → same v (codes "Bearer " ++ api_token) ≡ false
    → strip (codes "Bearer ") v ≡ some t
    → same t api_token ≡ false
other_token api_token v t h e = elim (Bool-cases (same t api_token)) [
  | inl m ↦ cc (
    h,
    (same_iff v (codes "Bearer " ++ api_token)).1 (
        strip_same (codes "Bearer ") v t e
        ∙ ap (λ u. codes "Bearer " ++ u) ((same_iff t api_token).0 m)),
  )
  | inr m ↦ m
]

header_found :
    (api_token : Bytes) (x : HttpHeader) (hs : List HttpHeader)
    → same (to_lower_ascii x.name) (codes "authorization") ≡ true
    → bears api_token (strip (codes "Bearer ") (find_header_value (x ∷ hs) (codes "authorization")))
      ≡ bears api_token (strip (codes "Bearer ") x.value)
unfolding find_header_value
header_found api_token x hs e = rw e

header_passed :
    (api_token : Bytes) (x : HttpHeader) (hs : List HttpHeader)
    → same (to_lower_ascii x.name) (codes "authorization") ≡ false
    → bears api_token (strip (codes "Bearer ") (find_header_value (x ∷ hs) (codes "authorization")))
      ≡ bears api_token (strip (codes "Bearer ") (find_header_value hs (codes "authorization")))
unfolding find_header_value
header_passed api_token x hs e = rw e

second : {a b : Bool} → a ≡ true → (a && b) ≡ false → b ≡ false
second {a} {b} e h = ground arith

guarded :
    (path : Bytes)
    → (is_some (strip (codes "/api/") path) ≡ true) ⊎ (path ≡ codes "/ai/chat")
    → request_requires_auth path ≡ true
unfolding request_requires_auth
guarded path (inl h) = rw h
guarded path (inr h) = rw h (unfold strip same in refl)

not_bearer :
    (api_token v : Bytes)
    → same v (codes "Bearer " ++ api_token) ≡ false
    → bears api_token (strip (codes "Bearer ") v) ≡ false
not_bearer api_token v h = elim (Option-cases (strip (codes "Bearer ") v)) [
  | inl e ↦ ap (bears api_token) e
  | inr (t, e) ↦ ap (bears api_token) e ∙ other_token api_token v t h e
]

no_bearer :
    (api_token : Bytes) (hs : List HttpHeader)
    → NoBearer api_token hs
    → bears api_token (strip (codes "Bearer ") (find_header_value hs (codes "authorization")))
      ≡ false
no_bearer api_token [] h = unfold find_header_value strip in refl
no_bearer api_token (x ∷ hs) (h, g) =
    elim (Bool-cases (same (to_lower_ascii x.name) (codes "authorization"))) [
      | inl e ↦ header_found api_token x hs e ∙ not_bearer api_token x.value (second e h)
      | inr e ↦ header_passed api_token x hs e ∙ no_bearer api_token hs g
    ]

NoBearer-is_authorized :
    (request : HttpRequest) (api_token : Bytes)
    → NoBearer api_token request.headers
    → is_authorized request api_token ≡ false
unfolding is_authorized
NoBearer-is_authorized request api_token h = ground (arith, no_bearer api_token request.headers h)

slash_open : (path : Bytes) → path ≡ codes "/ai/chat/" → request_requires_auth path ≡ false
slash_open path e = ap request_requires_auth e ∙ unfold request_requires_auth strip same in refl

slash_normal : normalize_path (codes "/ai/chat/") ≡ codes "/ai/chat"
unfolding normalize_path
slash_normal = refl

chat_dispatch :
    (request : HttpRequest) (context : HandlerContext)
    → request.method ≡ post
    → normalize_path request.path ≡ codes "/ai/chat"
    → dispatch request context ≡ chat_dispatched (handle_ai_chat request context)
unfolding dispatch
chat_dispatch request context m n = rw (m, n) (unfold same in refl)

module _ {Host : Type 0} where
  -- A request for a path that begins with "/api/", or for "/ai/chat", none of whose Authorization headers
  -- is "Bearer " and the token, is answered with status 401, and neither the conversation nor the host nor
  -- the notifications change.
  pub no_token_refused :
      (api_token : Bytes) (custom : CustomRouteFn Host) (request : HttpRequest)
      (s : ServerState Host)
      → (is_some (strip (codes "/api/") request.path) ≡ true) ⊎ (request.path ≡ codes "/ai/chat")
      → NoBearer api_token request.headers
      → answer_request api_token custom request s
        ≡ (some (respond unauthorized unauthorized_body), s)
  unfolding answer_request
  no_token_refused api_token custom request s h n =
      rw (guarded request.path h, NoBearer-is_authorized request api_token n)

  -- A POST for "/ai/chat/", with a slash behind it, is handed to the chat handler as one for "/ai/chat" is,
  -- whatever its headers, and so without the token.
  pub slash_needs_no_token :
      (api_token : Bytes) (custom : CustomRouteFn Host) (request : HttpRequest)
      (s : ServerState Host)
      → request.method ≡ post
      → request.path ≡ codes "/ai/chat/"
      → answer_request api_token custom request s
        ≡ routed custom request s (chat_dispatched (handle_ai_chat request s.context))
  unfolding answer_request
  slash_needs_no_token api_token custom request s m e = rw (slash_open request.path e) (
      ap (routed custom request s)
        (chat_dispatch request s.context m (ap normalize_path e ∙ slash_normal)))

-- ===== src/Http/Dispatch.antt =====
-- src/net/router.cpp: which requests change the conversation, and what an echo carries.
use droidcli.Common.{
  Bool, true, false, not, ◌&&◌, ◌||◌, none, [], ◌∷◌, ◌≡◌, refl, ◌∙◌, ap, Bytes, codes, same,
  is_empty, if◌then◌else◌,
}
use droidcli.Json.{extract_json_string_field}
use droidcli.Json.Skip.{named}
use droidcli.Json.Object.{
  text, render_field, render_object, concat-pieces, lookup_field, key, value_text,
}
use droidcli.Json.RoundTrip.{extract_string-render_object}
use droidcli.Http.{HttpRequest, HandlerContext, query_param}
use droidcli.Http.Routes.{
  normalize_path, handle_health, handle_echo, handle_notify, dispatch, Dispatched, is_post, is_get,
  notified, thrown, answered, unhandled,
}

-- The requests that the router hands to the chat handler.
abbrev pub is_chat : HttpRequest → Bool
is_chat request = is_post request.method && same (normalize_path request.path) (codes "/ai/chat")

abbrev pub is_thrown : Dispatched → Bool
is_thrown d = elim d [ thrown ↦ true | _ ↦ false ]

-- A dispatch that throws nothing and leaves the context as it was.
pub record Leaves (context : HandlerContext) (p : Dispatched × HandlerContext) : Type 0 where
  pub quiet : is_thrown p.0 ≡ false
  pub kept : p.1 ≡ context

answers :
    (context : HandlerContext) (d : Dispatched) → is_thrown d ≡ false → Leaves context (d, context)
answers context d h = record { quiet = h; kept = refl }

if-Leaves :
    (c : Bool) (context : HandlerContext) (x y : Dispatched × HandlerContext)
    → Leaves context x
    → Leaves context y
    → Leaves context (if c then x else y)
if-Leaves true context x y h g = h
if-Leaves false context x y h g = g

-- A request for any other route than the chat's throws nothing and leaves the conversation as it was.
pub other_routes_leave :
    (request : HttpRequest) (context : HandlerContext)
    → is_chat request ≡ false
    → Leaves context (dispatch request context)
unfolding dispatch
other_routes_leave request context h =
    let path = normalize_path request.path in
    rw h (
      if-Leaves (is_get request.method && same path (codes "/health")) context _ _
        (answers context (answered (handle_health context) none) refl)
        (if-Leaves ((is_get request.method || is_post request.method) && same path (codes "/echo"))
          context _ _ (answers context (answered (handle_echo request) none) refl)
          (if-Leaves (is_post request.method && same path (codes "/notify")) context _ _
            (answers context (notified (handle_notify request)) refl)
            (answers context unhandled refl))))

-- The text that an echo is asked for.
abbrev pub echo_text : HttpRequest → Bytes
echo_text request =
    let msg = query_param request.query_string (codes "msg") in
    if is_empty msg && not (is_empty request.body) then request.body else msg

echo-render :
    (request : HttpRequest)
    → (handle_echo request).body ≡ render_object (text (codes "echo") (echo_text request) ∷ [])
unfolding handle_echo render_field value_text key
echo-render request = concat-pieces (text (codes "echo") (echo_text request) ∷ [])

-- Whatever text an echo is asked for, by its query or else by its body, the response carries just this
-- text for a reader of its JSON.
pub echo_reads_back :
    (request : HttpRequest)
    → extract_json_string_field (handle_echo request).body (codes "echo") 0 ≡ echo_text request
echo_reads_back request =
    ap (λ s. extract_json_string_field s (codes "echo") 0) (echo-render request)
    ∙ extract_string-render_object (codes "echo") (text (codes "echo") (echo_text request) ∷ [])
        (named _ (cc) refl) (refl, tt)
    ∙ unfold lookup_field same in refl

-- ===== src/Mount/Tokens.antt =====
-- No operation of the host is reached without the token.
use mathlib.Core.Option
use droidcli.Common.{
  if◌then◌else◌, ◌⊎◌, Bool, true, ◌&&◌, Option, none, some, List, [], ◌∷◌, ◌++◌, ◌≡◌, refl, sym, ap,
  ◌∙◌, arith, Bytes, codes, all, same, same_iff, strip, is_some, Bool-cases, both, inl, inr,
}
use droidcli.Http.{HttpRequest, respond, unauthorized}
use droidcli.Wire.Server.{ServerState, answer_request, unauthorized_body}
use droidcli.Wire.Auth.{NoBearer, no_token_refused}
use droidcli.Mount.{HostCall}
use droidcli.Mount.Routes.{
  Route, fixed_routes, task_routes, same_method, fixed_call, split_remainder, split_id_and_rest,
  connector_call, task_call, or_call, mounted, make_droidcli_route_dispatch,
}

abbrev under_api : Bytes → Bool
under_api path = is_some (strip (codes "/api/") path)

strip_prefix : (a b s : Bytes) → is_some (strip (a ++ b) s) ≡ true → is_some (strip a s) ≡ true
unfolding strip
strip_prefix [] b s h = refl
strip_prefix (c ∷ a) b [] h = cc
strip_prefix (c ∷ a) b (d ∷ s) h = ground (arith, strip_prefix a b s)

-- A call that was found in the table is that of a path in the table.
fixed_call-under_api :
    (rs : List Route) (request : HttpRequest) (call : HostCall)
    → all (λ r. under_api r.path) rs ≡ true
    → fixed_call rs request ≡ some call
    → under_api request.path ≡ true
unfolding fixed_call
fixed_call-under_api [] request call h e = cc
fixed_call-under_api (r ∷ rs) request call h e =
    let (here, rest) = both (under_api r.path) (all (λ q. under_api q.path) rs) h in
    elim (Bool-cases (same_method r.method request.method && same request.path r.path)) [
      | inl t ↦
          ap under_api
            ((same_iff request.path r.path).0 (both (same_method r.method request.method) _ t).1)
          ∙ here
      | inr t ↦
          fixed_call-under_api rs request call rest
            (sym (ap (λ b. if b then some (r.call request) else fixed_call rs request) t) ∙ e)
    ]

prefixed :
    (o : Option Bytes) (path prefix : Bytes) (call : HostCall)
    (f : Option (Bytes × Bytes) → Option HostCall)
    → f none ≡ none
    → strip prefix path ≡ o
    → f (split_remainder o) ≡ some call
    → is_some (strip prefix path) ≡ true
prefixed none path prefix call f n e h = absurd (Option.some-ne-none call (sym h ∙ n))
prefixed (some r) path prefix call f n e h = ap is_some e

split_call-under_api :
    (path rest : Bytes) (call : HostCall) (f : Option (Bytes × Bytes) → Option HostCall)
    → f none ≡ none
    → f (split_id_and_rest path (codes "/api/" ++ rest)) ≡ some call
    → under_api path ≡ true
unfolding split_id_and_rest
split_call-under_api path rest call f n h =
    strip_prefix (codes "/api/") rest path
      (prefixed (strip (codes "/api/" ++ rest) path) path (codes "/api/" ++ rest) call f n refl h)

or_call-cases :
    (o p : Option HostCall) (call : HostCall)
    → or_call o p ≡ some call
    → (o ≡ some call) ⊎ (p ≡ some call)
or_call-cases none p call h = inr h
or_call-cases (some c) p call h = inl h

mounted-under_api :
    (request : HttpRequest) (call : HostCall)
    → mounted request ≡ some call
    → under_api request.path ≡ true
unfolding mounted
mounted-under_api request call h = elim (or_call-cases (fixed_call fixed_routes request) _ call h) [
  | inl a ↦ fixed_call-under_api fixed_routes request call (unfold strip in refl) a
  | inr h ↦
      elim (or_call-cases
        (connector_call request (split_id_and_rest request.path (codes "/api/connectors/"))) _ call
        h) [
          | inl a ↦
              split_call-under_api request.path (codes "connectors/") call (connector_call request)
                refl a
          | inr h ↦ elim (or_call-cases (fixed_call task_routes request) _ call h) [
            | inl a ↦ fixed_call-under_api task_routes request call (unfold strip in refl) a
            | inr a ↦
                split_call-under_api request.path (codes "tasks/") call (task_call request) refl a
          ]
        ]
]

module _ {Host : Type 0} where
  -- A request that is for an operation of the host, and none of whose Authorization headers is "Bearer " and the
  -- token, is answered with status 401 and leaves the host and all else as it is: no operation runs.
  pub mount_needs_token :
      (api_token : Bytes) (perform : HostCall → Host → Bytes × Host) (request : HttpRequest)
      (call : HostCall) (s : ServerState Host)
      → mounted request ≡ some call
      → NoBearer api_token request.headers
      → answer_request api_token (make_droidcli_route_dispatch perform) request s
        ≡ (some (respond unauthorized unauthorized_body), s)
  mount_needs_token api_token perform request call s h n =
      no_token_refused api_token (make_droidcli_route_dispatch perform) request s
        (inl (mounted-under_api request call h)) n

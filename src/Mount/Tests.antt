-- ===== src/Mount/Tests.antt =====
-- Requests that the mount routes.
use droidcli.Common.{none, some, List, [], ◌∷◌, ◌≡◌, refl, Bytes, codes}
use droidcli.Http.{HttpRequest, get, post, respond, unauthorized}
use droidcli.Wire.Server.{ServerState, answer_request, unauthorized_body}
use droidcli.Mount.{
  HostCall, cancel_task_json_route, run_command_route, call_connector_route,
  build_agent_history_json_route,
}
use droidcli.Mount.Routes.{mounted, make_droidcli_route_dispatch}
use droidcli.Mount.Tokens.{mount_needs_token}
use droidcli.Ai.Runtime.{new_runtime}

abbrev run_request : HttpRequest
run_request = record {
  method = post;
  path = codes "/api/run";
  query_string = [];
  body = codes "{\"command\":\"ls\"}";
  headers = [];
}

abbrev cancel_request : HttpRequest
cancel_request = record run_request { path = codes "/api/tasks/task-1/cancel" }

abbrev call_request : HttpRequest
call_request = record run_request {
  path = codes "/api/connectors/player/call";
  body = codes "{\"path\":\"/a\"}";
}

abbrev history_request : HttpRequest
history_request = record run_request {
  method = get;
  path = codes "/api/agent/history";
  query_string = codes "a=1&session_id=s";
}

run_mounted : mounted run_request ≡ some (run_command_route run_request.body)
unfolding mounted
run_mounted = refl

cancel_mounted : mounted cancel_request ≡ some (cancel_task_json_route (codes "task-1"))
unfolding mounted
cancel_mounted = refl

call_mounted :
    mounted call_request
    ≡ some (call_connector_route (codes "player") (codes "/a") (codes "POST") [])
unfolding mounted
call_mounted = refl

history_mounted : mounted history_request ≡ some (build_agent_history_json_route (codes "s"))
unfolding mounted
history_mounted = refl

-- A host that remembers what it was asked for.
abbrev remember : HostCall → List HostCall → Bytes × List HostCall
remember call calls = (codes "{}", call ∷ calls)

abbrev quiet : ServerState (List HostCall)
quiet = record {
  context = record {
    map_name = [];
    build_label = [];
    language_ai = some new_runtime;
    language_ai_transport = none;
  };
  host = [];
  notified = [];
}

mount_needs_token_example :
    answer_request (codes "t") (make_droidcli_route_dispatch remember) run_request quiet
    ≡ (some (respond unauthorized unauthorized_body), quiet)
mount_needs_token_example =
    mount_needs_token (codes "t") remember run_request (run_command_route run_request.body) quiet
      run_mounted tt

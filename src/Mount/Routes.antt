-- ===== src/Mount/Routes.antt =====
-- cli/http_mount.cpp: which operation a request is for, and what the client is answered.
use droidcli.Common.{
  Bool, true, false, ◌&&◌, Option, none, some, List, [], ◌∷◌, ◌++◌, Bytes, codes, same, strip,
  is_empty, if◌then◌else◌,
}
use droidcli.Json.{extract_json_string_field}
use droidcli.Http.{HttpMethod, get, post, unknown, HttpRequest, HttpResponse, respond, ok, split_on}
use droidcli.Wire.{cut_at}
use droidcli.Wire.Server.{CustomRouteFn}
use droidcli.Mount.{
  HostCall, build_status_json_route, build_network_status_json_route, build_config_json_route,
  update_config_route, build_notify_log_json_route, build_app_log_json_route,
  build_ollama_status_json_route, update_ollama_config_route, ollama_setup_status_json_route,
  install_ollama_route, start_ollama_route, pull_ollama_model_route,
  build_process_status_json_route, run_command_route, run_ffmpeg_json_route, open_application_route,
  find_applications_json_route, list_open_windows_json_route, read_file_route, write_file_route,
  list_dir_route, stat_path_route, get_cwd_json_route, which_executable_json_route,
  copy_file_json_route, move_path_json_route, delete_file_json_route, create_directory_json_route,
  read_clipboard_json_route, write_clipboard_json_route, build_system_info_json_route,
  build_hardware_info_json_route, build_agent_tools_json_route, build_self_status_json_route,
  agent_turn_route, agent_tool_decision_route, record_command_fix_json_route,
  search_command_fixes_json_route, remember_location_json_route, list_known_locations_json_route,
  build_agent_history_json_route, build_agent_sessions_json_route, delete_agent_session_json_route,
  list_connectors_json_route, register_connector_route, list_tasks_json_route, enqueue_task_route,
  connector_status_json_route, launch_connector_route, stop_connector_route, call_connector_route,
  task_status_json_route, cancel_task_json_route,
}

-- The value behind the first pair that begins with the key and `=`.
unfoldable pub pair_value : Bytes → List Bytes → Bytes
unfolding strip
pair_value needle [] = []
pair_value needle (pair ∷ pairs) = elim (strip needle pair) [
  | some value ↦ value
  | none ↦ pair_value needle pairs
]

unfoldable pub mount_query_param : Bytes → Bytes → Bytes
unfolding split_on pair_value
mount_query_param query_string key = pair_value (key ++ codes "=") (split_on b'&' query_string)

pub record Route : Type 0 where
  pub method : HttpMethod
  pub path : Bytes
  pub call : HttpRequest → HostCall

abbrev pub route : HttpMethod → Bytes → (HttpRequest → HostCall) → Route
route method path call = record { method = method; path = path; call = call }

-- The routes up to those of a connector, in their order.
abbrev pub fixed_routes : List Route
fixed_routes =
    route get (codes "/api/status") (λ q. build_status_json_route)
    ∷ route get (codes "/api/network/status") (λ q. build_network_status_json_route)
    ∷ route get (codes "/api/config") (λ q. build_config_json_route)
    ∷ route post (codes "/api/config") (λ q. update_config_route q.body)
    ∷ route get (codes "/api/notify/log") (λ q. build_notify_log_json_route)
    ∷ route get (codes "/api/app/log") (λ q. build_app_log_json_route)
    ∷ route get (codes "/api/ollama/status") (λ q. build_ollama_status_json_route)
    ∷ route post (codes "/api/ollama/config") (λ q. update_ollama_config_route q.body)
    ∷ route get (codes "/api/ollama/setup-status") (λ q. ollama_setup_status_json_route)
    ∷ route post (codes "/api/ollama/install") (λ q. install_ollama_route)
    ∷ route post (codes "/api/ollama/start") (λ q. start_ollama_route)
    ∷ route post (codes "/api/ollama/pull") (λ q. pull_ollama_model_route q.body)
    ∷ route get (codes "/api/process/status") (λ q. build_process_status_json_route)
    ∷ route post (codes "/api/run") (λ q. run_command_route q.body)
    ∷ route post (codes "/api/ffmpeg/run") (λ q. run_ffmpeg_json_route q.body)
    ∷ route post (codes "/api/open") (λ q. open_application_route q.body)
    ∷ route post (codes "/api/apps/find") (λ q. find_applications_json_route q.body)
    ∷ route get (codes "/api/apps/open") (λ q. list_open_windows_json_route)
    ∷ route post (codes "/api/fs/read") (λ q. read_file_route q.body)
    ∷ route post (codes "/api/fs/write") (λ q. write_file_route q.body)
    ∷ route post (codes "/api/fs/list") (λ q. list_dir_route q.body)
    ∷ route post (codes "/api/fs/stat") (λ q. stat_path_route q.body)
    ∷ route get (codes "/api/fs/cwd") (λ q. get_cwd_json_route)
    ∷ route post (codes "/api/fs/which") (λ q. which_executable_json_route q.body)
    ∷ route post (codes "/api/fs/copy") (λ q. copy_file_json_route q.body)
    ∷ route post (codes "/api/fs/move") (λ q. move_path_json_route q.body)
    ∷ route post (codes "/api/fs/delete") (λ q. delete_file_json_route q.body)
    ∷ route post (codes "/api/fs/mkdir") (λ q. create_directory_json_route q.body)
    ∷ route get (codes "/api/clipboard") (λ q. read_clipboard_json_route)
    ∷ route post (codes "/api/clipboard") (λ q. write_clipboard_json_route q.body)
    ∷ route get (codes "/api/system") (λ q. build_system_info_json_route)
    ∷ route get (codes "/api/hardware") (λ q. build_hardware_info_json_route)
    ∷ route get (codes "/api/agent/tools") (λ q. build_agent_tools_json_route)
    ∷ route get (codes "/api/agent/self_status") (λ q. build_self_status_json_route)
    ∷ route post (codes "/api/agent/turn") (λ q. agent_turn_route q.body)
    ∷ route post (codes "/api/agent/tool_decision") (λ q. agent_tool_decision_route q.body)
    ∷ route post (codes "/api/agent/lessons") (λ q. record_command_fix_json_route q.body)
    ∷ route post (codes "/api/agent/lessons/search") (λ q. search_command_fixes_json_route q.body)
    ∷ route post (codes "/api/locations") (λ q. remember_location_json_route q.body)
    ∷ route get (codes "/api/locations") (λ q. list_known_locations_json_route)
    ∷ route get (codes "/api/agent/history") (λ q.
      build_agent_history_json_route (mount_query_param q.query_string (codes "session_id")))
    ∷ route get (codes "/api/agent/sessions") (λ q. build_agent_sessions_json_route)
    ∷ route post (codes "/api/agent/sessions/delete") (λ q. delete_agent_session_json_route q.body)
    ∷ route get (codes "/api/connectors") (λ q. list_connectors_json_route)
    ∷ route post (codes "/api/connectors") (λ q. register_connector_route q.body)
    ∷ []

abbrev pub task_routes : List Route
task_routes =
    route get (codes "/api/tasks") (λ q. list_tasks_json_route)
    ∷ route post (codes "/api/tasks") (λ q. enqueue_task_route q.body)
    ∷ []

unfoldable pub same_method : HttpMethod → HttpMethod → Bool
same_method get get = true
same_method post post = true
same_method unknown unknown = true
same_method _ _ = false

unfoldable pub fixed_call : List Route → HttpRequest → Option HostCall
unfolding same_method same
fixed_call [] request = none
fixed_call (r ∷ rs) request =
    if same_method r.method request.method && same request.path r.path
    then some (r.call request)
    else fixed_call rs request

abbrev pub id_and_rest : Bytes → Option (Bytes × Bytes) → Bytes × Bytes
id_and_rest remainder none = (remainder, [])
id_and_rest remainder (some (id, rest)) = (id, b'/' ∷ rest)

abbrev pub with_id : Bytes × Bytes → Option (Bytes × Bytes)
with_id ([], rest) = none
with_id (c ∷ id, rest) = some (c ∷ id, rest)

abbrev pub split_remainder : Option Bytes → Option (Bytes × Bytes)
split_remainder none = none
split_remainder (some remainder) = with_id (id_and_rest remainder (cut_at (codes "/") remainder))

unfoldable pub split_id_and_rest : Bytes → Bytes → Option (Bytes × Bytes)
unfolding strip cut_at
split_id_and_rest path prefix = split_remainder (strip prefix path)

abbrev pub asks_get : HttpRequest → Bool
asks_get request = same_method get request.method

abbrev pub asks_post : HttpRequest → Bool
asks_post request = same_method post request.method

abbrev pub method_or_post : Bytes → Bytes
method_or_post [] = codes "POST"
method_or_post (c ∷ method) = c ∷ method

abbrev pub requested_call : Bytes → HttpRequest → HostCall
requested_call connector_id request =
    call_connector_route connector_id (extract_json_string_field request.body (codes "path") 0)
      (method_or_post (extract_json_string_field request.body (codes "method") 0))
      (extract_json_string_field request.body (codes "payload_json") 0)

abbrev pub connector_call : HttpRequest → Option (Bytes × Bytes) → Option HostCall
connector_call request none = none
connector_call request (some (connector_id, rest)) =
    if asks_get request && same rest (codes "/status")
    then some (connector_status_json_route connector_id)
    else if asks_post request && same rest (codes "/launch")
    then some (launch_connector_route connector_id)
    else if asks_post request && same rest (codes "/stop")
    then some (stop_connector_route connector_id)
    else if asks_post request && same rest (codes "/call")
    then some (requested_call connector_id request)
    else none

abbrev pub task_call : HttpRequest → Option (Bytes × Bytes) → Option HostCall
task_call request none = none
task_call request (some (task_id, rest)) =
    if asks_get request && is_empty rest
    then some (task_status_json_route task_id)
    else if asks_post request && same rest (codes "/cancel")
    then some (cancel_task_json_route task_id)
    else none

abbrev pub or_call : Option HostCall → Option HostCall → Option HostCall
or_call none o = o
or_call (some c) o = some c

unfoldable pub mounted : HttpRequest → Option HostCall
unfolding mount_query_param fixed_call split_id_and_rest same_method same extract_json_string_field
mounted request = or_call (fixed_call fixed_routes request) (
    or_call (connector_call request (split_id_and_rest request.path (codes "/api/connectors/"))) (
      or_call (fixed_call task_routes request)
        (task_call request (split_id_and_rest request.path (codes "/api/tasks/")))))

module _ {Host : Type 0} where
  abbrev pub replied : Bytes × Host → Option HttpResponse × Host
  replied (body, host) = (some (respond ok body), host)

  abbrev pub performed :
      (HostCall → Host → Bytes × Host) → Option HostCall → Host → Option HttpResponse × Host
  performed perform none host = (none, host)
  performed perform (some call) host = replied (perform call host)

  -- The host's operations are `perform`.
  unfoldable pub make_droidcli_route_dispatch :
      (HostCall → Host → Bytes × Host) → CustomRouteFn Host
  unfolding mounted
  make_droidcli_route_dispatch perform request host = performed perform (mounted request) host

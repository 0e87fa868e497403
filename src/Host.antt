-- ===== src/Host.antt =====
-- cli/host.cpp: what the host does with its connectors and tasks, and `tick_tasks`, which runs one due
-- task. `outside` is what the network, the child processes and the shell answer; the log is left out.
pub mod Ticks
pub mod Launches
mod Tests
use droidcli.Common.{
  ℕ, suc, Bool, true, false, not, ◌&&◌, ◌||◌, Option, none, some, List, [], ◌∷◌, ◌++◌, Bytes, codes,
  concat, same, contains, is_empty, ◌==◌, if◌then◌else◌, ℤ,
}
use droidcli.Json.{json_string_field, json_bool_field}
use droidcli.Tasks.{Task, Queue, enqueue, claim_next, complete, fail, find, cancel}
use droidcli.Tasks.Wire.{Request, int_member, parse_task_request_from_json, build_task_json}
use droidcli.Connectors.{
  Connector, ConnectorRegistry, find_connector, register_connector, ParsedConnector,
  parse_connector_from_json, http_peer, launched_process,
}
use droidcli.Ai.OpenAi.{trim_trailing_slash}

pub record Outside : Type 0 where
  -- `process_manager_.launch` and `process_manager_.stop`: success and the error text
  pub launch : Connector → Bool × Bytes
  pub stop : Bytes → Bool × Bytes
  -- `tools::sync_http_get` and `tools::sync_http_post_json`: success and the response's body
  pub http_get : Bytes → Bool × Bytes
  pub http_post_json : Bytes → Bytes → Bool × Bytes
  -- the reply of `run_command`
  pub run_command : Bytes → Bytes

-- `{"<key>":false,"error":"<reason>"}`, and what else has this shape
unfoldable pub flag_and_error : Bytes → Bool → Bytes → Bytes
unfolding json_bool_field json_string_field
flag_and_error key value reason = concat (
    codes "{"
    ∷ json_bool_field key value
    ∷ codes ","
    ∷ json_string_field (codes "error") reason
    ∷ codes "}"
    ∷ [])

unfoldable pub join_url : Bytes → Bytes → Bytes
unfolding trim_trailing_slash
join_url base [] = trim_trailing_slash base
join_url base (c ∷ path) =
    if c == b'/'
    then trim_trailing_slash base ++ (c ∷ path)
    else trim_trailing_slash base ++ (b'/' ∷ c ∷ path)

-- `DroidHost::register_connector`, on what the parser returns.
abbrev pub registered : ParsedConnector → ConnectorRegistry → ConnectorRegistry × Bytes
registered (ParsedConnector.rejected e) r = (r, flag_and_error (codes "success") false e)
registered (ParsedConnector.accepted c) r = (
  register_connector c r,
  concat (
      codes "{"
      ∷ json_bool_field (codes "success") true
      ∷ codes ","
      ∷ json_string_field (codes "id") c.id
      ∷ codes "}"
      ∷ []),
)

unfoldable pub register_connector_json : Bytes → ConnectorRegistry → ConnectorRegistry × Bytes
unfolding flag_and_error parse_connector_from_json register_connector
register_connector_json body r = registered (parse_connector_from_json body) r

abbrev pub ok_and_error : Bool × Bytes → Bytes
ok_and_error (success, error) = flag_and_error (codes "ok") success error

-- `DroidHost::launch_connector`, on the connector found.
abbrev pub launch_found : Outside → Option Connector → Bytes
launch_found outside none = flag_and_error (codes "success") false (codes "unknown connector")
launch_found outside (some c) =
    if not (same c.kind launched_process)
    then flag_and_error (codes "success") false (codes "connector is not a launched_process")
    else ok_and_error (outside.launch c)

unfoldable pub launch_connector : Outside → ConnectorRegistry → Bytes → Bytes
unfolding find_connector flag_and_error
launch_connector outside connectors id = launch_found outside (find_connector id connectors)

unfoldable pub stop_connector : Outside → Bytes → Bytes
unfolding flag_and_error
stop_connector outside id = ok_and_error (outside.stop id)

-- The end of `call_connector`, on what the transport gives.
abbrev pub called : Bool × Bytes → Bytes
called (false, body) = flag_and_error (codes "ok") false (codes "connector unreachable")
called (true, body) = if is_empty body then codes "{}" else body

abbrev pub call_found : Outside → Bytes → Bytes → Bytes → Option Connector → Bytes
call_found outside path method body none =
    flag_and_error (codes "ok") false (codes "unknown connector")
call_found outside path method body (some c) =
    if not (same c.kind http_peer)
    then flag_and_error (codes "ok") false (codes "connector is not an http_peer")
    else if not c.enabled
    then flag_and_error (codes "ok") false (codes "connector is disabled")
    else if same method (codes "GET")
    then called (outside.http_get (join_url c.base_url path))
    else called (outside.http_post_json (join_url c.base_url path) body)

unfoldable pub call_connector : Outside → ConnectorRegistry → Bytes → Bytes → Bytes → Bytes → Bytes
unfolding find_connector flag_and_error join_url
call_connector outside connectors id path method body =
    call_found outside path method body (find_connector id connectors)

-- `DroidHost::enqueue_task`, on what the parser returns; `none` where it throws. The clock is read by
-- the parser and again by the queue.
abbrev pub enqueued : ℤ → ℕ → Request → Queue → Option (Queue × Bytes)
enqueued now sequence (Request.rejected e) q = some (q, flag_and_error (codes "ok") false e)
enqueued now sequence Request.thrown q = none
enqueued now sequence (Request.accepted t) q =
    let (r, id) = enqueue now sequence t q in
    some (
      r,
      concat (
          codes "{"
          ∷ json_bool_field (codes "ok") true
          ∷ codes ","
          ∷ json_string_field (codes "id") id
          ∷ codes ","
          ∷ int_member (codes "scheduled_for_ms") t.scheduled_for_ms
          ∷ codes "}"
          ∷ []),
    )

unfoldable pub enqueue_task : ℤ → ℤ → ℕ → Bytes → Queue → Option (Queue × Bytes)
unfolding flag_and_error parse_task_request_from_json enqueue int_member
enqueue_task parsed_at now sequence body q =
    enqueued now sequence (parse_task_request_from_json parsed_at body) q

abbrev pub status_found : Option Task → Bytes
status_found none = flag_and_error (codes "ok") false (codes "unknown task")
status_found (some t) = build_task_json t

unfoldable pub task_status_json : Bytes → Queue → Bytes
unfolding flag_and_error find build_task_json
task_status_json id q = status_found (find id q)

abbrev pub cancel_reply : Option Task → Queue × Bool → Queue → Queue × Bytes
cancel_reply none p q = (q, flag_and_error (codes "ok") false (codes "unknown task"))
cancel_reply (some t) (r, true) q =
    (r, concat (codes "{" ∷ json_bool_field (codes "ok") true ∷ codes "}" ∷ []))
cancel_reply (some t) (r, false) q =
    (r, flag_and_error (codes "ok") false (codes "task is already in a terminal state"))

unfoldable pub cancel_task_json : ℤ → Bytes → Queue → Queue × Bytes
unfolding flag_and_error find cancel
cancel_task_json now id q = cancel_reply (find id q) (cancel now id q) q

-- What the dispatch of a task ends with.
pub data Outcome : Type 0 where
  succeeded : Bytes → Outcome
  errored : Bytes → Outcome

abbrev pub outcome : Bool → Bytes → Bytes → Outcome
outcome success result error = if success then Outcome.succeeded result else Outcome.errored error

unfoldable pub run_task : Outside → ConnectorRegistry → Task → Outcome
unfolding launch_connector stop_connector call_connector same contains
run_task outside connectors t =
    let run_result = outside.run_command t.payload_json in
    let reply =
      call_connector outside connectors t.connector_id t.command (codes "POST") t.payload_json in
    if same t.command (codes "run")
    then outcome (contains (codes "\"launched\":true") run_result) run_result run_result
    else if same t.command (codes "launch") && not (is_empty t.connector_id)
    then outcome
        (contains (codes "\"success\":true") (launch_connector outside connectors t.connector_id))
        [] (codes "launch_connector failed")
    else if same t.command (codes "stop") && not (is_empty t.connector_id)
    then outcome (contains (codes "\"success\":true") (stop_connector outside t.connector_id)) []
        (codes "stop_connector failed")
    else if not (is_empty t.connector_id)
    then outcome (not (contains (codes "\"ok\":false") reply)) [] reply
    else Outcome.errored (codes "task has no connector_id and command is not launch/stop")

abbrev pub recorded : ℤ → Bytes → Outcome → Queue → Queue
recorded later id (Outcome.succeeded result) q = (complete later id result q).0
recorded later id (Outcome.errored error) q = (fail later id error q).0

abbrev pub tick_claimed : ℤ → Outside → ConnectorRegistry → Queue × Option Task → Queue
tick_claimed later outside connectors (q, none) = q
tick_claimed later outside connectors (q, some t) =
    recorded later t.id (run_task outside connectors t) q

-- `tick_tasks`: the claim at one time, and what became of the task recorded at a later one.
unfoldable pub tick_tasks : ℤ → ℤ → Outside → ConnectorRegistry → Queue → Queue
unfolding claim_next complete fail run_task
tick_tasks now later outside connectors q = tick_claimed later outside connectors (claim_next now q)

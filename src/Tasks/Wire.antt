-- ===== src/Tasks/Wire.antt =====
-- src/app/tasks.cpp: the requests that the queue reads and the JSON that it writes.
use droidcli.Common.{
  true, [], ◌∷◌, ◌++◌, Bytes, codes, concat, comma_separated, is_empty, if◌then◌else◌, ℤ, pos,
  ltb_ℤ, add64, map,
}
use droidcli.Json.{
  IntField, missing, found, out_of_range, json_string_field, json_bool_field,
  extract_json_string_field, extract_json_int_field,
}
use droidcli.Json.Decimal.{print_int}
use droidcli.Tasks.{Task, new_task, Queue}

-- What `parse_task_request_from_json` returns. It throws where `std::stoll` does.
pub data Request : Type 0 where
  accepted : Task → Request
  rejected : Bytes → Request
  thrown : Request

-- `delay_ms`: a positive delay becomes a deadline.
unfoldable pub with_delay : ℤ → IntField → Task → Request
unfolding add64
with_delay now missing t = accepted t
with_delay now (found d) t =
    accepted (if ltb_ℤ (pos 0) d then record t { scheduled_for_ms = add64 now d } else t)
with_delay now out_of_range t = thrown

-- `recurrence_ms`, read only if the delay was
unfoldable pub with_recurrence : IntField → Request → Request
with_recurrence missing (accepted t) = accepted t
with_recurrence (found r) (accepted t) =
    accepted (if ltb_ℤ (pos 0) r then record t { recurrence_ms = r } else t)
with_recurrence out_of_range (accepted t) = thrown
with_recurrence _ (rejected e) = rejected e
with_recurrence _ thrown = thrown

-- The task of a request, from what the scanners read.
unfoldable pub task_request : ℤ → Bytes → Bytes → Bytes → IntField → IntField → Request
unfolding with_delay with_recurrence
task_request now command connector_id payload_json delay recurrence =
    if is_empty command
    then rejected (codes "Task requires a command.")
    else with_recurrence recurrence (
        with_delay now delay (record new_task {
          command = command;
          connector_id = connector_id;
          payload_json = payload_json;
        }))

unfoldable pub parse_task_request_from_json : ℤ → Bytes → Request
unfolding task_request extract_json_string_field extract_json_int_field
parse_task_request_from_json now json =
    task_request now (extract_json_string_field json (codes "command") 0)
      (extract_json_string_field json (codes "connector_id") 0)
      (extract_json_string_field json (codes "payload_json") 0)
      (extract_json_int_field json (codes "delay_ms") 0)
      (extract_json_int_field json (codes "recurrence_ms") 0)

-- `"name":` and a number
unfoldable pub int_member : Bytes → ℤ → Bytes
unfolding print_int
int_member key n = b'"' ∷ (key ++ (b'"' ∷ b':' ∷ print_int n))

unfoldable pub build_task_json : Task → Bytes
unfolding json_string_field int_member
build_task_json t = concat (
    codes "{"
    ∷ json_string_field (codes "id") t.id
    ∷ codes ","
    ∷ json_string_field (codes "connector_id") t.connector_id
    ∷ codes ","
    ∷ json_string_field (codes "command") t.command
    ∷ codes ","
    ∷ json_string_field (codes "payload_json") t.payload_json
    ∷ codes ","
    ∷ json_string_field (codes "status") t.status
    ∷ codes ","
    ∷ int_member (codes "created_at_ms") t.created_at_ms
    ∷ codes ","
    ∷ int_member (codes "updated_at_ms") t.updated_at_ms
    ∷ codes ","
    ∷ int_member (codes "scheduled_for_ms") t.scheduled_for_ms
    ∷ codes ","
    ∷ int_member (codes "recurrence_ms") t.recurrence_ms
    ∷ codes ","
    ∷ int_member (codes "run_count") t.run_count
    ∷ codes ","
    ∷ json_string_field (codes "error_message") t.error_message
    ∷ codes ","
    ∷ json_string_field (codes "result_json") t.result_json
    ∷ codes "}"
    ∷ [])

unfoldable pub build_tasks_json : Queue → Bytes
unfolding json_bool_field build_task_json comma_separated
build_tasks_json q = concat (
    json_bool_field (codes "ok") true
    ∷ codes ",\"tasks\":["
    ∷ comma_separated (map build_task_json q)
    ∷ codes "]}"
    ∷ [])

-- ===== src/Tasks/Printing.antt =====
-- `build_task_json` of src/app/tasks.cpp against the scanners of src/net/json.cpp.
use droidcli.Common.{some, List, [], ◌∷◌, ◌≡◌, refl, ◌∙◌, ap, Bytes, codes, All, same, ℤ, InInt64}
use droidcli.Json.{found, extract_json_string_field, extract_json_int_field}
use droidcli.Json.Skip.{IsName, named}
use droidcli.Json.Object.{
  Field, text, number, key, value_text, render_field, render_object, concat-pieces, lookup_field,
  IsField,
}
use droidcli.Json.RoundTrip.{string_of, extract_string-render_object}
use droidcli.Json.Number.{extract_int-render_object}
use droidcli.Json.Decimal.{print_int, print_int-all}
use droidcli.Tasks.{Task}
use droidcli.Tasks.Wire.{build_task_json}

abbrev pub task_fields : Task → List Field
task_fields t =
    text (codes "id") t.id
    ∷ text (codes "connector_id") t.connector_id
    ∷ text (codes "command") t.command
    ∷ text (codes "payload_json") t.payload_json
    ∷ text (codes "status") t.status
    ∷ number (codes "created_at_ms") (print_int t.created_at_ms)
    ∷ number (codes "updated_at_ms") (print_int t.updated_at_ms)
    ∷ number (codes "scheduled_for_ms") (print_int t.scheduled_for_ms)
    ∷ number (codes "recurrence_ms") (print_int t.recurrence_ms)
    ∷ number (codes "run_count") (print_int t.run_count)
    ∷ text (codes "error_message") t.error_message
    ∷ text (codes "result_json") t.result_json
    ∷ []

pub task_fields-IsField : (t : Task) → All IsField (task_fields t)
task_fields-IsField t = (
  refl,
  (
    refl,
    (
      refl,
      (
        refl,
        (
          refl,
          (
            (refl, print_int-all _),
            (
              (refl, print_int-all _),
              (
                (refl, print_int-all _),
                ((refl, print_int-all _), ((refl, print_int-all _), (refl, (refl, tt)))),
              ),
            ),
          ),
        ),
      ),
    ),
  ),
)

pub build_task_json-render : (t : Task) → build_task_json t ≡ render_object (task_fields t)
unfolding build_task_json render_field value_text key
build_task_json-render t = concat-pieces (task_fields t)

-- The numbers of a task are `int64_t`.
pub record IsTask (t : Task) : Type 0 where
  pub created : InInt64 t.created_at_ms
  pub updated : InInt64 t.updated_at_ms
  pub scheduled : InInt64 t.scheduled_for_ms
  pub recurrence : InInt64 t.recurrence_ms
  pub runs : InInt64 t.run_count

module _ (t : Task) where
  string_field :
      (n : Bytes) (v : Bytes)
      → IsName n
      → string_of (lookup_field n (task_fields t)) ≡ v
      → extract_json_string_field (build_task_json t) n 0 ≡ v
  string_field n v h e =
      ap (λ s. extract_json_string_field s n 0) (build_task_json-render t)
      ∙ extract_string-render_object n (task_fields t) h (task_fields-IsField t)
      ∙ e

  int_field :
      (n : Bytes) (z : ℤ)
      → IsName n
      → InInt64 z
      → lookup_field n (task_fields t) ≡ some (number n (print_int z))
      → extract_json_int_field (build_task_json t) n 0 ≡ found z
  int_field n z h r e =
      ap (λ s. extract_json_int_field s n 0) (build_task_json-render t)
      ∙ extract_int-render_object n n z (task_fields t) h (task_fields-IsField t) r e

-- Every field of a printed task is read back as it was, whatever bytes its texts hold.
pub read_build_task :
    (t : Task)
    → IsTask t
    → (extract_json_string_field (build_task_json t) (codes "id") 0 ≡ t.id)
      × (extract_json_string_field (build_task_json t) (codes "connector_id") 0 ≡ t.connector_id)
      × (extract_json_string_field (build_task_json t) (codes "command") 0 ≡ t.command)
      × (extract_json_string_field (build_task_json t) (codes "payload_json") 0 ≡ t.payload_json)
      × (extract_json_string_field (build_task_json t) (codes "status") 0 ≡ t.status)
      × (extract_json_int_field (build_task_json t) (codes "created_at_ms") 0
          ≡ found t.created_at_ms)
      × (extract_json_int_field (build_task_json t) (codes "updated_at_ms") 0
          ≡ found t.updated_at_ms)
      × (extract_json_int_field (build_task_json t) (codes "scheduled_for_ms") 0
          ≡ found t.scheduled_for_ms)
      × (extract_json_int_field (build_task_json t) (codes "recurrence_ms") 0
          ≡ found t.recurrence_ms)
      × (extract_json_int_field (build_task_json t) (codes "run_count") 0 ≡ found t.run_count)
      × (extract_json_string_field (build_task_json t) (codes "error_message") 0 ≡ t.error_message)
      × (extract_json_string_field (build_task_json t) (codes "result_json") 0 ≡ t.result_json)
unfolding lookup_field same
read_build_task t h = (
  string_field t (codes "id") _ (named _ (cc) refl) refl,
  string_field t (codes "connector_id") _ (named _ (cc) refl) refl,
  string_field t (codes "command") _ (named _ (cc) refl) refl,
  string_field t (codes "payload_json") _ (named _ (cc) refl) refl,
  string_field t (codes "status") _ (named _ (cc) refl) refl,
  int_field t (codes "created_at_ms") _ (named _ (cc) refl) h.created refl,
  int_field t (codes "updated_at_ms") _ (named _ (cc) refl) h.updated refl,
  int_field t (codes "scheduled_for_ms") _ (named _ (cc) refl) h.scheduled refl,
  int_field t (codes "recurrence_ms") _ (named _ (cc) refl) h.recurrence refl,
  int_field t (codes "run_count") _ (named _ (cc) refl) h.runs refl,
  string_field t (codes "error_message") _ (named _ (cc) refl) refl,
  string_field t (codes "result_json") _ (named _ (cc) refl) refl,
)

-- ===== src/Host/Tests.antt =====
-- The host's queue on small inputs.
use droidcli.Common.{true, some, [], ◌∷◌, ◌≡◌, refl, Bytes, codes, pos, inl}
use droidcli.Json.{escape_json_string}
use droidcli.Tasks.{Task, new_task, pending, claim_next, fail, running}
use droidcli.Tasks.Invariant.{IsValid}
use droidcli.Connectors.{Connector, launched_process}
use droidcli.Host.{Outside, tick_tasks, enqueue_task}
use droidcli.Host.Ticks.{HostStep, HostReach, HostReach-IsValid}
use droidcli.Host.Launches.{launched_task_fails}

-- Everything outside succeeds.
abbrev willing : Outside
willing = record {
  launch = λ c. (true, []);
  stop = λ id. (true, []);
  http_get = λ url. (true, codes "{\"ok\":true}");
  http_post_json = λ url body. (true, codes "{\"ok\":true}");
  run_command = λ body. codes "{\"ok\":true,\"launched\":true}";
}

abbrev player : Connector
player = record {
  id = codes "player";
  kind = launched_process;
  base_url = [];
  launch_cmd = codes "play";
  work_dir = [];
  capabilities = [];
  enabled = true;
}

abbrev launch_task : Task
launch_task = record new_task {
  id = codes "t";
  command = codes "launch";
  connector_id = codes "player";
  status = pending;
}

abbrev launch_claimed : Task
launch_claimed = record launch_task { status = running; updated_at_ms = pos 5; run_count = pos 1 }

launch_claims : (claim_next (pos 5) (launch_task ∷ [])).1 ≡ some launch_claimed
unfolding claim_next
launch_claims = refl

launched_task_example :
    (error : Bytes) × (tick_tasks (pos 5) (pos 6) willing (player ∷ []) (launch_task ∷ [])
      ≡ (fail (pos 6) (codes "t") error (claim_next (pos 5) (launch_task ∷ [])).0).0)
launched_task_example =
    launched_task_fails (pos 5) (pos 6) willing (player ∷ []) (launch_task ∷ []) launch_claimed
      launch_claims (inl (refl, refl))

-- A run command is enqueued, and a tick runs it.
abbrev run_request : Bytes
run_request = codes "{\"command\":\"run\"}"

abbrev queued : Task
queued = record new_task {
  id = codes "task-5-1";
  command = codes "run";
  status = pending;
  created_at_ms = pos 5;
  updated_at_ms = pos 5;
}

abbrev run_reply : Bytes
run_reply = codes "{\"ok\":true,\"id\":\"task-5-1\",\"scheduled_for_ms\":0}"

run_enqueued : enqueue_task (pos 5) (pos 5) 1 run_request [] ≡ some (queued ∷ [], run_reply)
unfolding enqueue_task escape_json_string
run_enqueued = refl

run_ticked-Reach : HostReach (tick_tasks (pos 6) (pos 7) willing [] (queued ∷ []))
run_ticked-Reach =
    HostReach.next []
      (HostReach.next [] HostReach.start
        (HostStep.enqueues (pos 5) (pos 5) 1 run_request run_reply run_enqueued))
      (HostStep.ticks (pos 6) (pos 7) willing)

HostReach-IsValid_example : IsValid (tick_tasks (pos 6) (pos 7) willing [] (queued ∷ []))
HostReach-IsValid_example = HostReach-IsValid _ run_ticked-Reach

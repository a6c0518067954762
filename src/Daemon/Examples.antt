-- ===== src/Daemon/Examples.antt =====
-- The theorem on internal/agent/operations_handler.go at a small host.
use askio_agent.Base.Strings.{positive}
use askio_agent.Base.{ℕ, suc, ◌≡◌, refl, true, false, none, some, [], ◌∷◌, lookup, remove}
use askio_agent.Base.Action.{done, final, ◌>>=◌}
use askio_agent.Operations.Data.{execution_mode, is_dry_run}
use askio_agent.Operations.Runner.{execute, run_kind, run_script, roll_script_back}
use askio_agent.Envelope.{end_fields}
use askio_agent.Remediation.Machine.{
  ask, tell, new_executor, run_executor, run_root, Machine, root_mode,
}
use askio_agent.Operations.Data.{PendingAction, AgentResult, success}
use askio_agent.Daemon.{
  Server, Config, Desk, persisted_run_key, handle_pending_action, run_and_post, on_host,
  executor_for, request, store_result, lift_outcome,
}
use askio_agent.Daemon.Offline.{IsWaiting, run_and_post-IsWaiting}
use askio_agent.Daemon.Once.{handle_pending_action-cached}

-- A host that counts what it has run.
abbrev counting : Machine ℕ
counting = record {
  now = λ n. (7, n);
  overdue = λ s l n. (false, n);
  look_path = λ s n. (true, n);
  spawn = λ c args t n. (
    record {
      result = record { exit_code = positive 0; output = "ok"; duration = 1 };
      error = none;
    },
    suc n,
  );
  write_file = λ f s n. n;
  http_get = λ u t n. ((record { status_code = 200; latency_ms = 1 }, none), suc n);
  port_open = λ h p t n. ((record { is_open = true; latency_ms = 1 }, none), suc n);
  marshal = λ f. ("{}", none);
  temp_dir = "/tmp";
  clean_path = λ s. s;
  base_name = λ s. s;
  replace_keys = λ s. s;
  replace_secrets = λ s. s;
}

abbrev reachable : Server ℕ
reachable = record {
  post = λ r n. (none, n);
  can_read = λ k n. (true, n);
  can_write = λ k n. (true, n);
  can_delete = λ k n. (true, n);
}

abbrev config : Config
config = record { server_id = "server"; privilege_mode = root_mode; operations = none }

abbrev result : AgentResult
result = record {
  run_id = "r1";
  server_id = "server";
  status = success;
  step_results = [];
  output = "";
  error = "";
  started_at = 1;
  finished_at = 2;
}

abbrev action : PendingAction
action = record {
  run_id = "r1";
  action_name = "reboot";
  action_type = "script";
  timeout_seconds = 60;
  mode_name = "live";
  parameters = end_fields;
  enable_rollback = false;
  script_content = "reboot";
  rollback_script = "";
  action_plan = none;
  playbook = none;
  ansible_playbook = none;
}

abbrev desk : Desk ℕ
desk = record { cache = ("ops_result_r1", result) ∷ []; world = 0 }

-- Nothing is run, and the posted result is forgotten.
handle_pending_action-cached_example :
    ((final (handle_pending_action counting reachable config (some action) desk)).world ≡ 0)
    × ((final (handle_pending_action counting reachable config (some action) desk)).cache ≡ [])
unfolding persisted_run_key lookup remove
handle_pending_action-cached_example =
    handle_pending_action-cached counting reachable config action result desk refl refl

-- The server cannot be reached.
abbrev unreached : Server ℕ
unreached = record reachable { post = λ r n. (some "no route to host", n) }

abbrev kept : Desk ℕ
kept = final (run_and_post counting unreached config action (record { cache = []; world = 0 }))

run_and_post-kept :
    run_and_post counting unreached config action (record { cache = []; world = 0 }) ≡ done tt kept
unfolding run_and_post ◌>>=◌ on_host executor_for new_executor execute ask tell run_kind run_script
    execution_mode is_dry_run run_executor run_root roll_script_back request store_result
    lift_outcome
run_and_post-kept = refl

run_and_post-IsWaiting_example : IsWaiting action kept
run_and_post-IsWaiting_example =
    run_and_post-IsWaiting counting unreached config action
      (record { unreachable = λ r w. refl; writable = λ k w. refl })
      (record { cache = []; world = 0 }) kept run_and_post-kept

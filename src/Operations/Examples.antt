-- ===== src/Operations/Examples.antt =====
-- The theorems on internal/operations at a small host.
use askio_agent.Base.{◌⊎◌}
use askio_agent.Base.{
  ℕ, suc, ◌≡◌, refl, String, true, false, not, none, some, [], ◌∷◌, lookup, lower_is,
}
use askio_agent.Base.Action.{Outcome, done, fail, final, ◌>>=◌}
use askio_agent.Envelope.{Fields, end_fields, field, text}
use askio_agent.Remediation.Machine.{Machine, root, ask, run_executor, run_root}
use askio_agent.Operations.Data.{
  live, execution_mode, is_dry_run, is_failed, is_success, ActionPlan, PendingAction, Verdict,
  failed,
}
use askio_agent.Operations.Handlers.{
  command_run, default_registry, run_handler, refusal, run_service, run_or_show, step_run,
  report_run,
}
use askio_agent.Operations.Plan.{
  run_plan, plan_steps, plan_step, aborts, run_rollback, add_result, known_step, add_unknown,
  unknown_step,
}
use askio_agent.Base.Strings.{positive}
use askio_agent.Operations.Runner.{execute}
use askio_agent.Operations.Runner.DryRun.{execute-dry_run}
use askio_agent.Operations.Runner.Results.{
  any_failed, run_plan-success, command_run-IsPermitted, IsPermitted,
}

-- A host that counts the commands and probes it has run; every one of them succeeds.
abbrev counting : Machine ℕ
counting = record {
  now = λ n. (7, n);
  overdue = λ s l n. (false, n);
  look_path = λ s n. (true, n);
  spawn = λ c args t n. (
    record {
      result = record { exit_code = positive 0; output = "ok"; duration = 1 };
      error = none;
    },
    suc n,
  );
  write_file = λ f s n. n;
  http_get = λ u t n. ((record { status_code = 200; latency_ms = 1 }, none), suc n);
  port_open = λ h p t n. ((record { is_open = true; latency_ms = 1 }, none), suc n);
  marshal = λ f. ("{}", none);
  temp_dir = "/tmp";
  clean_path = λ s. s;
  base_name = λ s. s;
  replace_keys = λ s. s;
  replace_secrets = λ s. s;
}

abbrev plan : ActionPlan
plan = record {
  steps =
      record {
        id = "1";
        action = "service.stop";
        params = field "name" (text "nginx") end_fields;
        on_failure = "warn";
      }
      ∷ record { id = "2"; action = "none.such"; params = end_fields; on_failure = "abort" }
      ∷ [];
  rollback = [];
}

abbrev action : String → PendingAction
action mode = record {
  run_id = "r1";
  action_name = "stop";
  action_type = "plan";
  timeout_seconds = 60;
  mode_name = mode;
  parameters = end_fields;
  enable_rollback = true;
  script_content = "";
  rollback_script = "";
  action_plan = some plan;
  playbook = none;
  ansible_playbook = none;
}

-- A dry run runs nothing.
execute-dry_run_example :
    final (execute counting root "server" (default_registry none) (action "dry_run") 3) ≡ 3
unfolding execution_mode
execute-dry_run_example =
    execute-dry_run {P = λ n. n ≡ 3} counting
      (record { clock = λ n h. h; deadline = λ s l n h. h; file = λ f c n h. h }) root
      (default_registry none) "server" (action "dry_run") 3 refl refl

abbrev default_verdict : Verdict
default_verdict = record { status = failed; step_results = []; error = ""; transcript = "" }

abbrev ran : Outcome ℕ Verdict
ran = run_plan counting root (default_registry none) live true (some plan) 0

abbrev value_of : {S A : Type 0} → A → Outcome S A → A
value_of default (done a s) = a
value_of default (fail e s) = default

default_plan_result :
    run_plan counting root (default_registry none) live true (some plan) 0
    ≡ done (value_of default_verdict ran) (final ran)
unfolding run_plan ◌>>=◌ plan_steps plan_step ask lookup default_registry run_handler run_service
    run_or_show is_dry_run step_run run_executor run_root is_failed report_run aborts lower_is
    run_rollback add_result known_step add_unknown unknown_step
default_plan_result = refl

run_plan-success_example :
    is_success (value_of default_verdict ran).status
    ≡ not (any_failed (value_of default_verdict ran).step_results)
run_plan-success_example =
    run_plan-success counting root (default_registry none) live true plan
      (value_of default_verdict ran) 0 (final ran) default_plan_result

abbrev shell_params : Fields
shell_params = field "shell" (text "true") (field "cmd" (text "reboot") end_fields)

command_run-IsPermitted_example :
    ((message : String) × (run_handler counting root (command_run none) shell_params live 0
        ≡ done (refusal message) 0))
    ⊎ IsPermitted counting none shell_params
command_run-IsPermitted_example = command_run-IsPermitted counting root none shell_params live 0

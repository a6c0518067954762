-- ===== src/Operations/Runner.antt =====
-- internal/operations/runner.go: `Execute`, and the kinds of action that run one command.
pub mod DryRun
pub mod Results
use askio_agent.Base.{
  ℕ, ◌+◌, ◌-◌, ◌*◌, ◌/◌, String, Bool, true, false, not, ◌&&◌, Option, none, some, List, [], ◌∷◌,
  ◌++◌, append, is_empty, if◌then◌else◌, decimal, eqb, ◌==◌,
}
use askio_agent.Base.Strings.{trim_space, join}
use askio_agent.Base.Action.{Action, pure, is_error, match_option, ◌>>=◌, ◌>>◌}
use askio_agent.Remediation.Machine.{Machine, Executor, Ran, ask, tell, redact, run_executor}
use askio_agent.Operations.Data.{
  Mode, live, dry_run, execution_mode, is_dry_run, Status, success, failed, StepResult,
  PendingAction, AnsiblePlaybook, Verdict, AgentResult,
}
use askio_agent.Operations.Params.{substitute_params, timeout_seconds_or}
use askio_agent.Operations.Handlers.{Handler}
use askio_agent.Operations.Plan.{error_text, run_plan}
use askio_agent.Operations.Playbook.{run_action_playbook}

abbrev pub rejected : String → Verdict
rejected message = record { status = failed; step_results = []; error = message; transcript = "" }

-- A dry run's one step.
unfoldable pub shown_step : String → String → ℕ → ℕ → Verdict
shown_step name output started finished = record {
  status = success;
  step_results =
      record {
        step_id = name;
        action = name;
        status = success;
        output = output;
        error = "";
        started_at = started;
        finished_at = finished;
        changed = false;
      }
      ∷ [];
  error = "";
  transcript = "";
}

-- The verdict on one command that was run.
unfoldable pub ran_step : {World : Type 0} → Machine World → String → ℕ → ℕ → Ran → String → Verdict
unfolding error_text
ran_step m name started finished ran transcript = record {
  status = if is_error ran.error then failed else success;
  step_results =
      record {
        step_id = name;
        action = name;
        status = if is_error ran.error then failed else success;
        output = redact m ran.result.output;
        error = error_text ran.error;
        started_at = started;
        finished_at = finished;
        changed = not (is_error ran.error);
      }
      ∷ [];
  error = error_text ran.error;
  transcript = transcript;
}

-- The whole seconds until a deadline; none are left after it.
unfoldable pub seconds_until : ℕ → ℕ → ℕ
seconds_until deadline now = (deadline - now) / 1000000000

module _ {World : Type 0} (m : Machine World) (e : Executor) where
  unfoldable pub script_file : PendingAction → String → String
  script_file a ending = append m.temp_dir (append "/askio-action-" (append a.run_id ending))

  rollback_text : Ran → String
  unfolding error_text
  rollback_text ran = append "rollback_output:\n" (
      append (redact m ran.result.output) (
        append "\n" (
          if is_error ran.error
          then append "rollback_error: " (append (error_text ran.error) "\n")
          else "")))

  -- The rollback script of a script that failed.
  unfoldable pub roll_script_back : PendingAction → Ran → Action World String
  unfolding trim_space substitute_params rollback_text script_file
  roll_script_back a ran =
      if is_error ran.error && a.enable_rollback && not (is_empty (trim_space a.rollback_script))
      then (do
        let file = script_file a "-rollback.sh"
        tell (m.write_file file (substitute_params a.rollback_script a.parameters))
        back ← run_executor m e "/bin/bash" (file ∷ []) 300
        pure (rollback_text back))
      else pure ""

  unfoldable pub run_script : PendingAction → Mode → Action World Verdict
  unfolding trim_space substitute_params script_file
  run_script a mode =
      let script = substitute_params a.script_content a.parameters in
      if is_empty (trim_space a.script_content)
      then pure (rejected "script_content is required")
      else if is_dry_run mode
      then (do
        started ← ask m.now
        finished ← ask m.now
        pure (shown_step "script" (append "[DRY RUN]\n" script) started finished))
      else (do
        let file = script_file a ".sh"
        tell (m.write_file file script)
        started ← ask m.now
        now ← ask m.now
        ran ← run_executor m e "/bin/bash" (file ∷ []) (seconds_until (started + 300000000000) now)
        finished ← ask m.now
        transcript ← roll_script_back a ran
        pure (ran_step m "script" started finished ran transcript))

  -- The arguments that say where the playbook runs; an inventory is written to a file first, in a
  -- dry run too.
  unfoldable pub inventory_args : PendingAction → AnsiblePlaybook → Action World (List String)
  unfolding trim_space
  inventory_args a book =
      let inventory = trim_space book.inventory in
      if is_empty inventory then pure ("-i" ∷ "localhost," ∷ "-c" ∷ "local" ∷ []) else (do
        let file = append m.temp_dir (append "/askio-inv-" a.run_id)
        tell (m.write_file file inventory)
        pure ("-i" ∷ file ∷ []))

  unfoldable pub run_with_vars :
      PendingAction → AnsiblePlaybook → Mode → String → Action World Verdict
  unfolding script_file join timeout_seconds_or
  run_with_vars a book mode vars = do
    let file = script_file a ".yml"
    where_args ← inventory_args a book
    let args = file ∷ (where_args ++ ("--extra-vars" ∷ vars ∷ []))
    if is_dry_run mode
        then (do
          started ← ask m.now
          finished ← ask m.now
          pure (
              shown_step "ansible"
                (append "[DRY RUN] ansible-playbook " (join (args ++ ("--check" ∷ [])) " ")) started
                finished))
        else (do
          tell (m.write_file file book.content)
          started ← ask m.now
          now ← ask m.now
          let timeout = timeout_seconds_or 300000000000 a.timeout_seconds
          ran ← run_executor m e "ansible-playbook" args (seconds_until (started + timeout) now)
          finished ← ask m.now
          pure (ran_step m "ansible" started finished ran ""))

  unfoldable pub run_ansible : PendingAction → Option AnsiblePlaybook → Mode → Action World Verdict
  unfolding trim_space
  run_ansible a none mode = pure (rejected "ansible_playbook is required")
  run_ansible a (some book) mode =
      if is_empty (trim_space book.content)
      then pure (rejected "ansible_playbook.content is required")
      else match_option (m.marshal book.extra_vars).1
          (run_with_vars a book mode (m.marshal book.extra_vars).0)
          λ message. pure (rejected (append "marshal extra_vars: " message))

  unfoldable pub run_kind :
      List (String × Handler) → PendingAction → Mode → Action World (Option Verdict)
  run_kind registry a mode =
      if a.action_type == "script"
      then (do verdict ← run_script a mode; pure (some verdict))
      else if a.action_type == "plan"
      then (do
        verdict ← run_plan m e registry mode a.enable_rollback a.action_plan
        pure (some verdict))
      else if a.action_type == "playbook"
      then (do
        verdict ← run_action_playbook m e mode a.enable_rollback a.playbook
        pure (some verdict))
      else if a.action_type == "ansible"
      then (do verdict ← run_ansible a a.ansible_playbook mode; pure (some verdict))
      else pure none

  mode_text : Mode → String
  mode_text live = "live"
  mode_text dry_run = "dry_run"

  unfoldable pub heading : PendingAction → Mode → String
  unfolding mode_text
  heading a mode = append "action=" (
      append a.action_name (
        append " type=" (
          append a.action_type (
            append " mode=" (
              append (mode_text mode) (
                if is_dry_run mode then "\n[DRY RUN] no commands will be executed\n" else "\n"))))))

  -- The result of a verdict, or of an unknown kind of action.
  unfoldable pub conclude : String → PendingAction → ℕ → ℕ → Bool → ℕ → Option Verdict → AgentResult
  unfolding heading
  conclude server a limit started overdue finished none = record {
    run_id = a.run_id;
    server_id = server;
    status = failed;
    step_results = [];
    output = heading a (execution_mode a.mode_name);
    error = append "unknown action_type: " a.action_type;
    started_at = started;
    finished_at = finished;
  }
  conclude server a limit started overdue finished (some v) = record {
    run_id = a.run_id;
    server_id = server;
    status = if overdue then failed else v.status;
    step_results = v.step_results;
    output = append (heading a (execution_mode a.mode_name)) v.transcript;
    error =
        if overdue
        then append "Execution timed out after " (append (decimal (limit / 1000000000)) " seconds")
        else v.error;
    started_at = started;
    finished_at = finished;
  }

  -- In nanoseconds.
  unfoldable pub time_limit : PendingAction → ℕ
  unfolding timeout_seconds_or
  time_limit a = timeout_seconds_or 300000000000 a.timeout_seconds

  -- `Runner.Execute`.
  unfoldable pub execute :
      String → List (String × Handler) → PendingAction → Action World AgentResult
  unfolding time_limit conclude
  execute server registry a = do
    started ← ask m.now
    verdict ← run_kind registry a (execution_mode a.mode_name)
    overdue ← ask (m.overdue started (time_limit a))
    finished ← ask m.now
    pure (conclude server a (time_limit a) started overdue finished verdict)

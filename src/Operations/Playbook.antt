-- ===== src/Operations/Playbook.antt =====
-- internal/operations/runner.go, `execPlaybook`: the commands of a playbook, its verification and its
-- rollback.
use askio_agent.Operations.Params.{timeout_seconds_or}
use askio_agent.Base.{
  ℕ, suc, ◌+◌, String, Bool, true, false, not, ◌&&◌, Option, none, some, List, [], ◌∷◌, ◌++◌,
  append, is_empty, if◌then◌else◌, lower_is, decimal,
}
use askio_agent.Base.Strings.{trim_space}
use askio_agent.Base.Action.{Action, pure, is_error, ◌>>=◌, ◌>>◌}
use askio_agent.Remediation.Machine.{Machine, Executor, Ran, ask, redact}
use askio_agent.Operations.Data.{
  Mode, is_dry_run, Status, success, failed, is_failed, is_success, StepResult, PlaybookStep,
  ActionPlaybook, Verdict,
}
use askio_agent.Operations.Handlers.{step_run}
use askio_agent.Operations.Plan.{Progress, no_progress, error_text, first_error}

unfoldable pub step_name : ℕ → PlaybookStep → String
step_name index step = if is_empty step.id then append "step_" (decimal (index + 1)) else step.id

unfoldable pub step_timeout : PlaybookStep → ℕ
unfolding timeout_seconds_or
step_timeout step = timeout_seconds_or 30000000000 step.timeout_seconds

unfoldable pub shown_command : String → String → ℕ → ℕ → StepResult
shown_command name command started finished = record {
  step_id = name;
  action = "command.run";
  status = success;
  output = append "[DRY RUN] " command;
  error = "";
  started_at = started;
  finished_at = finished;
  changed = false;
}

unfoldable pub ran_command :
    {World : Type 0} → Machine World → Bool → String → ℕ → ℕ → Ran → StepResult
unfolding error_text
ran_command m changes name started finished ran = record {
  step_id = name;
  action = "command.run";
  status = if is_error ran.error then failed else success;
  output = redact m ran.result.output;
  error = error_text ran.error;
  started_at = started;
  finished_at = finished;
  changed = changes && not (is_error ran.error);
}

unfoldable pub add_command : StepResult → Progress → Progress
unfolding first_error
add_command result p = record {
  results = p.results ++ (result ∷ []);
  overall = if is_failed result.status then failed else p.overall;
  first = if is_failed result.status then first_error p.first result.error else p.first;
}

module _ {World : Type 0} (m : Machine World) (e : Executor) (mode : Mode) where
  -- A command of the shell, or in a dry run its text.
  unfoldable pub run_command : Bool → String → String → ℕ → Action World StepResult
  run_command changes name command timeout = do
    started ← ask m.now
    if is_dry_run mode
        then (do finished ← ask m.now; pure (shown_command name command started finished))
        else (do
          ran ← step_run m e "/bin/bash" ("-lc" ∷ command ∷ []) timeout
          finished ← ask m.now
          pure (ran_command m changes name started finished ran))

  unfoldable pub playbook_steps : ℕ → List PlaybookStep → Progress → Action World Progress
  playbook_steps index [] p = pure p
  playbook_steps index (step ∷ steps) p = do
    result ← run_command true (step_name index step) step.command (step_timeout step)
    if is_failed result.status && not (lower_is step.fail_action "continue")
        then pure (add_command result p)
        else playbook_steps (suc index) steps (add_command result p)

  unfoldable pub verify_playbook : String → Progress → Action World Progress
  unfolding trim_space
  verify_playbook command p =
      if is_success p.overall && not (is_empty (trim_space command))
      then (do result ← run_command false "verify" command 30000000000; pure (add_command result p))
      else pure p

  unfoldable pub rollback_commands : List PlaybookStep → Action World String
  rollback_commands [] = pure ""
  rollback_commands (step ∷ steps) =
      let line = append "- " (append step.command "\n") in
      if is_dry_run mode then (do rest ← rollback_commands steps; pure (append line rest)) else (do
        step_run m e "/bin/bash" ("-lc" ∷ step.command ∷ []) 30000000000
        rest ← rollback_commands steps
        pure (append line rest))

  is_nil : List PlaybookStep → Bool
  is_nil [] = true
  is_nil (_ ∷ _) = false

  unfoldable pub rollback_playbook : Bool → Status → List PlaybookStep → Action World String
  unfolding is_nil
  rollback_playbook enabled overall steps =
      if is_failed overall && enabled && not (is_nil steps)
      then (do lines ← rollback_commands steps; pure (append "rollback:\n" lines))
      else pure ""

  unfoldable pub run_action_playbook : Bool → Option ActionPlaybook → Action World Verdict
  run_action_playbook enabled none = pure (record {
    status = failed;
    step_results = [];
    error = "playbook is required";
    transcript = "";
  })
  run_action_playbook enabled (some book) = do
    stepped ← playbook_steps 0 book.steps no_progress
    p ← verify_playbook book.verification_command stepped
    transcript ← rollback_playbook enabled p.overall book.rollback_steps
    pure (record {
      status = p.overall;
      step_results = p.results;
      error = p.first;
      transcript = transcript;
    })

-- ===== src/Operations/Plan.antt =====
-- internal/operations/runner.go, `execPlan`: the steps of a plan, and its rollback.
use askio_agent.Base.{
  ℕ, String, Bool, true, false, not, ◌&&◌, Option, none, some, List, [], ◌∷◌, ◌++◌, append,
  is_empty, if◌then◌else◌, lower_is, lookup,
}
use askio_agent.Base.Action.{Action, pure, match_option, ◌>>=◌}
use askio_agent.Remediation.Machine.{Machine, Executor, ask}
use askio_agent.Operations.Data.{
  Mode, is_dry_run, Status, success, failed, partial, is_failed, HandlerResult, StepResult,
  PlanStep, ActionPlan, Verdict,
}
use askio_agent.Operations.Handlers.{Handler, run_handler}

-- An `error`'s text, empty for nil.
unfoldable pub error_text : Option String → String
error_text none = ""
error_text (some e) = e

-- The first error that is not empty.
unfoldable pub first_error : String → String → String
first_error earlier later = if is_empty earlier then later else earlier

-- The results so far, with the overall status and the first error.
pub record Progress : Type 0 where
  pub results : List StepResult
  pub overall : Status
  pub first : String

abbrev pub no_progress : Progress
no_progress = record { results = []; overall = success; first = "" }

unfoldable pub aborts : PlanStep → Bool
aborts step = lower_is step.on_failure "abort"

unfoldable pub warns : PlanStep → Bool
warns step = lower_is step.on_failure "warn"

-- The overall status after one more result.
unfoldable pub settle_status : PlanStep → Status → Status → Status
unfolding warns
settle_status step status overall =
    if is_failed status then (if warns step then partial else failed) else overall

unfoldable pub unknown_step : PlanStep → ℕ → ℕ → StepResult
unknown_step step started finished = record {
  step_id = step.id;
  action = step.action;
  status = failed;
  output = "";
  error = append "Unknown handler: " step.action;
  started_at = started;
  finished_at = finished;
  changed = false;
}

unfoldable pub known_step : PlanStep → ℕ → ℕ → HandlerResult → StepResult
unfolding error_text
known_step step started finished result = record {
  step_id = step.id;
  action = step.action;
  status = result.status;
  output = result.output;
  error = error_text result.error;
  started_at = started;
  finished_at = finished;
  changed = result.changed;
}

-- What an unknown handler does to the progress: it fails the plan, whatever the step says.
unfoldable pub add_unknown : StepResult → Progress → Progress
unfolding first_error
add_unknown result p = record {
  results = p.results ++ (result ∷ []);
  overall = failed;
  first = first_error p.first result.error;
}

unfoldable pub add_result : PlanStep → StepResult → Progress → Progress
unfolding settle_status first_error
add_result step result p = record {
  results = p.results ++ (result ∷ []);
  overall = settle_status step result.status p.overall;
  first = if is_failed result.status then first_error p.first result.error else p.first;
}

module _ {World : Type 0} (m : Machine World) (e : Executor) (registry : List (String × Handler))
    (mode : Mode) where
  -- One step's progress, and whether the steps end with it.
  unfoldable pub plan_step : PlanStep → Progress → Action World (Progress × Bool)
  plan_step step p = do
    started ← ask m.now
    match_option (lookup step.action registry)
        (do
          finished ← ask m.now
          pure (add_unknown (unknown_step step started finished) p, aborts step))
        λ handler. do
          result ← run_handler m e handler step.params mode
          finished ← ask m.now
          pure (
            add_result step (known_step step started finished result) p,
            is_failed result.status && aborts step,
          )

  unfoldable pub plan_steps : List PlanStep → Progress → Action World Progress
  plan_steps [] p = pure p
  plan_steps (step ∷ steps) p = do
    after ← plan_step step p
    if after.1 then pure after.0 else plan_steps steps after.0

  -- The lines that one rollback step adds to the output.
  unfoldable pub rollback_step : PlanStep → Action World String
  rollback_step step =
      if is_dry_run mode
      then pure (append "- " (append step.action "\n"))
      else match_option (lookup step.action registry)
          (pure (append "- " (append step.action "\n  rollback handler missing\n")))
          λ handler. do
            result ← run_handler m e handler step.params mode
            pure (append "- " (append step.action (append "\n" (match_error result.error))))
    where
      match_error : Option String → String
      match_error none = ""
      match_error (some message) = append "  rollback error: " (append message "\n")

  -- The rollback goes through its steps from the last to the first.
  unfoldable pub rollback_steps : List PlanStep → Action World String
  rollback_steps [] = pure ""
  rollback_steps (step ∷ steps) = do
    later ← rollback_steps steps
    lines ← rollback_step step
    pure (append later lines)

  is_nil : List PlanStep → Bool
  is_nil [] = true
  is_nil (_ ∷ _) = false

  unfoldable pub run_rollback : Bool → Status → List PlanStep → Action World String
  unfolding is_nil
  run_rollback enabled overall steps =
      if is_failed overall && enabled && not (is_nil steps)
      then (do lines ← rollback_steps steps; pure (append "rollback:\n" lines))
      else pure ""

  unfoldable pub run_plan : Bool → Option ActionPlan → Action World Verdict
  run_plan enabled none = pure (record {
    status = failed;
    step_results = [];
    error = "action_plan is required";
    transcript = "";
  })
  run_plan enabled (some plan) = do
    p ← plan_steps plan.steps no_progress
    transcript ← run_rollback enabled p.overall plan.rollback
    pure (record {
      status = p.overall;
      step_results = p.results;
      error = p.first;
      transcript = transcript;
    })

-- ===== src/Remediation/Engine.antt =====
-- internal/remediation/engine.go: a playbook is run for a monitor, and only if the monitor allows it.
pub mod Allowed
use askio_agent.Base.{
  ℕ, ◌/◌, String, Bool, true, false, not, ◌&&◌, ◌||◌, Option, none, some, List, [], ◌∷◌, append,
  is_empty, if◌then◌else◌, equal_fold, lower_is, ◌==◌, mem_string,
}
use askio_agent.Base.Strings.{Integer, contains, replace_all, trim_space}
use askio_agent.Base.Action.{Action, pure, raise, is_error, match_option, ◌>>=◌}
use askio_agent.Remediation.Machine.{
  Machine, Executor, Ran, ask, redact, run_executor, format_command,
}
use askio_agent.Remediation.Playbooks.{
  ServiceType, systemd, docker, process, other_type, Monitor, Step, Verification, Playbook,
}

unfoldable pub same_type : ServiceType → ServiceType → Bool
same_type systemd systemd = true
same_type docker docker = true
same_type process process = true
same_type (other_type s) (other_type t) = s == t
same_type _ _ = false

unfoldable pub mem_type : ServiceType → List ServiceType → Bool
unfolding same_type
mem_type t [] = false
mem_type t (u ∷ us) = same_type u t || mem_type t us

unfoldable pub mem_fold : String → List String → Bool
mem_fold name [] = false
mem_fold name (s ∷ ss) = equal_fold s name || mem_fold name ss

unfoldable pub equal_nil : List String → Bool
equal_nil [] = true
equal_nil (_ ∷ _) = false

unfoldable pub allowed_for_monitor : Monitor → Playbook → String → Bool
unfolding equal_nil
allowed_for_monitor m book trigger =
    if trigger == "auto" && not m.remediation_enabled
    then false
    else if not (equal_nil m.allowed_playbook_ids)
        && not (mem_string book.id m.allowed_playbook_ids)
    then false
    else if not (mem_type m.service_type book.service_types)
    then false
    else if not (equal_nil book.applicable_services)
    then mem_fold m.service_name book.applicable_services
    else true

unfoldable pub unit_for : Monitor → String
unit_for m =
    if not (is_empty m.systemd_unit)
    then m.systemd_unit
    else if not (is_empty m.service_name)
    then append m.service_name ".service"
    else ""

unfoldable pub container_for : Monitor → String
container_for m =
    if not (is_empty m.docker_container_id) then m.docker_container_id else m.service_name

-- The variables in the order of the map's iteration, which Go leaves open.
unfoldable pub render_text : List (String × String) → String → String
unfolding replace_all
render_text [] s = s
render_text ((k, v) ∷ vars) s = render_text vars (replace_all s (append "{" (append k "}")) v)

unfoldable pub render_all : List (String × String) → List String → List String
unfolding render_text
render_all vars [] = []
render_all vars (a ∷ args) = render_text vars a ∷ render_all vars args

unfoldable pub find_playbook : String → List Playbook → Option Playbook
find_playbook id [] = none
find_playbook id (book ∷ books) = if book.id == id then some book else find_playbook id books

pub record StepLog : Type 0 where
  pub order : ℕ
  pub command : String
  pub exit_code : Integer
  pub output : String
  pub duration_ms : ℕ

pub record VerificationLog : Type 0 where
  pub command : String
  pub output : String
  pub is_success : Bool

pub record RunLog : Type 0 where
  pub monitor_id : String
  pub playbook_id : String
  pub trigger : String
  pub is_success : Bool
  pub steps : List StepLog
  pub verification : Option VerificationLog
  pub started_at : ℕ
  pub finished_at : ℕ

module _ {World : Type 0} (m : Machine World) (e : Executor) where
  unfoldable pub log_step : Step → String → Ran → StepLog
  log_step step pretty ran = record {
    order = step.order;
    command = pretty;
    exit_code = ran.result.exit_code;
    output = redact m ran.result.output;
    duration_ms = ran.result.duration / 1000000;
  }

  -- The logs of the steps that were run, and whether all of them succeeded.
  unfoldable pub run_steps : List (String × String) → List Step → Action World (List StepLog × Bool)
  run_steps vars [] = pure ([], true)
  run_steps vars (step ∷ steps) = do
    let command = render_text vars step.command
    let args = render_all vars step.args
    ran ← run_executor m e command args step.timeout_seconds
    let entry = log_step step (format_command e command args) ran
    let failed = is_error ran.error
    if failed && not (lower_is step.fail_action "continue")
        then pure (entry ∷ [], false)
        else (do rest ← run_steps vars steps; pure (entry ∷ rest.0, not failed && rest.1))

  -- The log of the verification, if the playbook has one.
  unfoldable pub run_verification :
      List (String × String) → Option Verification → Action World (Option VerificationLog)
  run_verification vars none = pure none
  run_verification vars (some v) = do
    let command = render_text vars v.command
    let args = render_all vars v.args
    ran ← run_executor m e command args v.timeout_seconds
    let output = trim_space (redact m ran.result.output)
    pure (
        some (record {
          command = format_command e command args;
          output = output;
          is_success =
              not (is_error ran.error)
              && (is_empty v.expected_output || contains output v.expected_output);
        }))

  unfoldable pub is_verified : Option VerificationLog → Bool
  is_verified none = true
  is_verified (some log) = log.is_success

  unfoldable pub run_allowed : Monitor → Playbook → String → Action World RunLog
  run_allowed monitor book trigger = do
    started ← ask m.now
    let vars = ("unit", unit_for monitor) ∷ ("container", container_for monitor) ∷ []
    ran ← run_steps vars book.steps
    verification ← run_verification vars book.verify
    finished ← ask m.now
    pure (record {
      monitor_id = monitor.id;
      playbook_id = book.id;
      trigger = trigger;
      is_success = ran.1 && is_verified verification;
      steps = ran.0;
      verification = verification;
      started_at = started;
      finished_at = finished;
    })

  -- `Engine.Run` with the engine's playbooks.
  unfoldable pub run_playbook : List Playbook → Monitor → String → String → Action World RunLog
  run_playbook books monitor id trigger =
      match_option (find_playbook id books) (raise (append "unknown playbook: " id)) λ book.
        if allowed_for_monitor monitor book trigger
        then run_allowed monitor book trigger
        else raise "playbook not allowed"

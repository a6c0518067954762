-- ===== src/Operations/Data.antt =====
-- internal/model/model.go and internal/operations/types.go, registry.go: what the server asks for and
-- what it is told.
use askio_agent.Base.{ℕ, String, Bool, true, false, Option, List, ◌==◌, if◌then◌else◌}
use askio_agent.Envelope.{Fields}

pub data Mode : Type 0 where
  live dry_run : Mode

-- Every mode but `dry_run` is live.
unfoldable pub execution_mode : String → Mode
execution_mode s = if s == "dry_run" then dry_run else live

unfoldable pub is_dry_run : Mode → Bool
is_dry_run live = false
is_dry_run dry_run = true

pub data Status : Type 0 where
  success failed partial : Status

unfoldable pub is_failed : Status → Bool
is_failed failed = true
is_failed _ = false

unfoldable pub is_success : Status → Bool
is_success success = true
is_success _ = false

-- `error` is `none` where the source's error is nil.
pub record HandlerResult : Type 0 where
  pub status : Status
  pub output : String
  pub changed : Bool
  pub error : Option String

-- An empty `error` is no error.
pub record StepResult : Type 0 where
  pub step_id : String
  pub action : String
  pub status : Status
  pub output : String
  pub error : String
  pub started_at : ℕ
  pub finished_at : ℕ
  pub changed : Bool

pub record PlanStep : Type 0 where
  pub id : String
  pub action : String
  pub params : Fields
  pub on_failure : String

pub record ActionPlan : Type 0 where
  pub steps : List PlanStep
  pub rollback : List PlanStep

-- The timeout is the bits of a 64-bit number.
pub record PlaybookStep : Type 0 where
  pub id : String
  pub command : String
  pub timeout_seconds : ℕ
  pub fail_action : String

pub record ActionPlaybook : Type 0 where
  pub steps : List PlaybookStep
  pub verification_command : String
  pub rollback_steps : List PlaybookStep

pub record AnsiblePlaybook : Type 0 where
  pub content : String
  pub inventory : String
  pub extra_vars : Fields

-- The timeout is the bits of a 64-bit number, too.
pub record PendingAction : Type 0 where
  pub run_id : String
  pub action_name : String
  pub action_type : String
  pub timeout_seconds : ℕ
  pub mode_name : String
  pub parameters : Fields
  pub enable_rollback : Bool
  pub script_content : String
  pub rollback_script : String
  pub action_plan : Option ActionPlan
  pub playbook : Option ActionPlaybook
  pub ansible_playbook : Option AnsiblePlaybook

-- What one of the kinds of action makes of the result.
pub record Verdict : Type 0 where
  pub status : Status
  pub step_results : List StepResult
  pub error : String
  pub transcript : String

pub record AgentResult : Type 0 where
  pub run_id : String
  pub server_id : String
  pub status : Status
  pub step_results : List StepResult
  pub output : String
  pub error : String
  pub started_at : ℕ
  pub finished_at : ℕ

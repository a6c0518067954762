-- ===== src/Operations/Runner/DryRun.antt =====
-- internal/operations: what a dry run does to the host.
use askio_agent.Base.{
  ℕ, suc, not, String, Bool, ◌≡◌, Option, none, some, List, [], ◌∷◌, lookup, subst, sym,
}
use askio_agent.Base.Action.{final}
use askio_agent.Base.Action.Keeps.{
  Keeps, Keeps-pure, Keeps-bind, Keeps-then, Keeps-option, Keeps-if,
}
use askio_agent.Base.Strings.{Integer, trim_space}
use askio_agent.Operations.Params.{param}
use askio_agent.Envelope.{Fields}
use askio_agent.Remediation.Machine.{Machine, Executor, ask, tell}
use askio_agent.Operations.Data.{
  dry_run, execution_mode, is_dry_run, PlanStep, ActionPlan, PlaybookStep, ActionPlaybook,
  AnsiblePlaybook, PendingAction,
}
use askio_agent.Operations.Handlers.{
  OperationsConfig, Handler, service_op, package_op, http_check, port_check, command_run, is_shell,
  allows_shell, is_allowed_exe, resolve_exe, run_or_show, run_service, run_package, run_shell,
  run_exe, run_http_check, check_port, run_port_check, run_handler,
}
use askio_agent.Operations.Plan.{
  Progress, plan_step, plan_steps, rollback_step, rollback_steps, run_rollback, run_plan,
}
use askio_agent.Operations.Playbook.{
  run_command, playbook_steps, verify_playbook, rollback_commands, rollback_playbook,
  run_action_playbook,
}
use askio_agent.Operations.Runner.{
  run_script, inventory_args, run_with_vars, run_ansible, run_kind, execute,
}

-- Reading the clock and writing a file leave the property alone.
pub record IsQuiet {World : Type 0} (m : Machine World) (P : World → Type 0) : Type 0 where
  pub clock : (w : World) → P w → P (m.now w).1
  pub deadline : (start limit : ℕ) (w : World) → P w → P (m.overdue start limit w).1
  pub file : (name content : String) (w : World) → P w → P (m.write_file name content w)

module _ {World : Type 0} {P : World → Type 0} (m : Machine World) (q : IsQuiet m P) where
  Keeps-now : Keeps P (ask m.now)
  unfolding ask
  Keeps-now = record { at = q.clock }

  Keeps-overdue : (start limit : ℕ) → Keeps P (ask (m.overdue start limit))
  unfolding ask
  Keeps-overdue start limit = record { at = q.deadline start limit }

  Keeps-write : (name content : String) → Keeps P (tell (m.write_file name content))
  unfolding tell
  Keeps-write name content = record { at = q.file name content }

module _ {World : Type 0} {P : World → Type 0} (m : Machine World) (e : Executor) where
  Keeps-run_or_show :
      (pretty command : String) (args : List String) (timeout : ℕ) (c d : Bool)
      → Keeps P (run_or_show m e dry_run pretty command args timeout c d)
  unfolding run_or_show is_dry_run
  Keeps-run_or_show pretty command args timeout c d = Keeps-pure _

  Keeps-check_port :
      (host : String) (port : Option Integer) (timeout : ℕ)
      → Keeps P (check_port m e host port timeout dry_run)
  unfolding check_port is_dry_run
  Keeps-check_port host none timeout = Keeps-pure _
  Keeps-check_port host (some port) timeout = Keeps-pure _

  Keeps-run_shell :
      (c : Option OperationsConfig) (params : Fields) → Keeps P (run_shell m e c params dry_run)
  unfolding run_shell
  Keeps-run_shell c params =
      Keeps-if (not (allows_shell c)) _ _ (Keeps-pure _)
        (Keeps-if _ _ _ (Keeps-pure _) (Keeps-run_or_show _ _ _ _ _ _))

  Keeps-run_exe :
      (c : Option OperationsConfig) (params : Fields) → Keeps P (run_exe m e c params dry_run)
  unfolding run_exe
  Keeps-run_exe c params = Keeps-if _ _ _ (Keeps-pure _) (
      Keeps-if (not (is_allowed_exe m c (resolve_exe m (trim_space (param params "exe"))))) _ _
        (Keeps-pure _) (Keeps-run_or_show _ _ _ _ _ _))

  -- A handler in a dry run leaves the host as it is.
  Keeps-run_handler : (h : Handler) (params : Fields) → Keeps P (run_handler m e h params dry_run)
  unfolding run_handler run_service run_package run_http_check run_port_check is_dry_run
  Keeps-run_handler (service_op op) params =
      Keeps-if _ _ _ (Keeps-pure _) (Keeps-run_or_show _ _ _ _ _ _)
  Keeps-run_handler (package_op op) params =
      Keeps-if _ _ _ (Keeps-pure _) (Keeps-run_or_show _ _ _ _ _ _)
  Keeps-run_handler http_check params = Keeps-if _ _ _ (Keeps-pure _) (Keeps-pure _)
  Keeps-run_handler port_check params = Keeps-if _ _ _ (Keeps-pure _) (Keeps-check_port _ _ _)
  Keeps-run_handler (command_run c) params =
      Keeps-if (is_shell params) (run_shell m e c params dry_run) (run_exe m e c params dry_run)
        (Keeps-run_shell c params) (Keeps-run_exe c params)

module _ {World : Type 0} {P : World → Type 0} (m : Machine World) (q : IsQuiet m P) (e : Executor)
    (registry : List (String × Handler)) where
  Keeps-plan_step :
      (step : PlanStep) (p : Progress) → Keeps P (plan_step m e registry dry_run step p)
  unfolding plan_step
  Keeps-plan_step step p = Keeps-bind _ _ (Keeps-now m q) (λ started.
      Keeps-option (lookup step.action registry) _ _
        (Keeps-bind _ _ (Keeps-now m q) (λ _. Keeps-pure _))
        (λ h.
          Keeps-bind _ _ (Keeps-run_handler m e h step.params)
            (λ r. Keeps-bind _ _ (Keeps-now m q) (λ _. Keeps-pure _))))

  Keeps-plan_steps :
      (steps : List PlanStep) (p : Progress) → Keeps P (plan_steps m e registry dry_run steps p)
  unfolding plan_steps
  Keeps-plan_steps [] p = Keeps-pure _
  Keeps-plan_steps (step ∷ steps) p =
      Keeps-bind _ _ (Keeps-plan_step step p)
        (λ after. Keeps-if _ _ _ (Keeps-pure _) (Keeps-plan_steps steps after.0))

  Keeps-rollback_steps :
      (steps : List PlanStep) → Keeps P (rollback_steps m e registry dry_run steps)
  unfolding rollback_steps rollback_step is_dry_run
  Keeps-rollback_steps [] = Keeps-pure _
  Keeps-rollback_steps (step ∷ steps) =
      Keeps-bind _ _ (Keeps-rollback_steps steps)
        (λ _. Keeps-bind _ _ (Keeps-pure _) (λ _. Keeps-pure _))

  Keeps-run_plan :
      (enabled : Bool) (plan : Option ActionPlan)
      → Keeps P (run_plan m e registry dry_run enabled plan)
  unfolding run_plan run_rollback
  Keeps-run_plan enabled none = Keeps-pure _
  Keeps-run_plan enabled (some plan) = Keeps-bind _ _ (Keeps-plan_steps plan.steps _) (λ p.
      Keeps-bind _ _
        (Keeps-if _ _ _ (Keeps-bind _ _ (Keeps-rollback_steps plan.rollback) (λ _. Keeps-pure _))
          (Keeps-pure _))
        (λ _. Keeps-pure _))

  Keeps-run_command :
      (changes : Bool) (name command : String) (timeout : ℕ)
      → Keeps P (run_command m e dry_run changes name command timeout)
  unfolding run_command is_dry_run
  Keeps-run_command changes name command timeout =
      Keeps-bind _ _ (Keeps-now m q) (λ _. Keeps-bind _ _ (Keeps-now m q) (λ _. Keeps-pure _))

  Keeps-playbook_steps :
      (index : ℕ) (steps : List PlaybookStep) (p : Progress)
      → Keeps P (playbook_steps m e dry_run index steps p)
  unfolding playbook_steps
  Keeps-playbook_steps index [] p = Keeps-pure _
  Keeps-playbook_steps index (step ∷ steps) p =
      Keeps-bind _ _ (Keeps-run_command _ _ _ _)
        (λ r. Keeps-if _ _ _ (Keeps-pure _) (Keeps-playbook_steps (suc index) steps _))

  Keeps-rollback_commands :
      (steps : List PlaybookStep) → Keeps P (rollback_commands m e dry_run steps)
  unfolding rollback_commands is_dry_run
  Keeps-rollback_commands [] = Keeps-pure _
  Keeps-rollback_commands (step ∷ steps) =
      Keeps-bind _ _ (Keeps-rollback_commands steps) (λ _. Keeps-pure _)

  Keeps-run_action_playbook :
      (enabled : Bool) (book : Option ActionPlaybook)
      → Keeps P (run_action_playbook m e dry_run enabled book)
  unfolding run_action_playbook verify_playbook rollback_playbook
  Keeps-run_action_playbook enabled none = Keeps-pure _
  Keeps-run_action_playbook enabled (some book) =
      Keeps-bind _ _ (Keeps-playbook_steps _ book.steps _) (λ stepped.
        Keeps-bind _ _
          (Keeps-if _ _ _ (Keeps-bind _ _ (Keeps-run_command _ _ _ _) (λ _. Keeps-pure _))
            (Keeps-pure _))
          (λ p.
            Keeps-bind _ _
              (Keeps-if _ _ _
                (Keeps-bind _ _ (Keeps-rollback_commands book.rollback_steps) (λ _. Keeps-pure _))
                (Keeps-pure _))
              (λ _. Keeps-pure _)))

  Keeps-run_script : (a : PendingAction) → Keeps P (run_script m e a dry_run)
  unfolding run_script is_dry_run
  Keeps-run_script a =
      Keeps-if _ _ _ (Keeps-pure _)
        (Keeps-bind _ _ (Keeps-now m q) (λ _. Keeps-bind _ _ (Keeps-now m q) (λ _. Keeps-pure _)))

  Keeps-run_with_vars :
      (a : PendingAction) (book : AnsiblePlaybook) (vars : String)
      → Keeps P (run_with_vars m e a book dry_run vars)
  unfolding run_with_vars inventory_args is_dry_run
  Keeps-run_with_vars a book vars =
      Keeps-bind _ _
        (Keeps-if _ _ _ (Keeps-pure _) (Keeps-then _ _ (Keeps-write m q _ _) (Keeps-pure _)))
        (λ _.
          Keeps-bind _ _ (Keeps-now m q) (λ _. Keeps-bind _ _ (Keeps-now m q) (λ _. Keeps-pure _)))

  Keeps-run_ansible :
      (a : PendingAction) (book : Option AnsiblePlaybook) → Keeps P (run_ansible m e a book dry_run)
  unfolding run_ansible
  Keeps-run_ansible a none = Keeps-pure _
  Keeps-run_ansible a (some book) = Keeps-if _ _ _ (Keeps-pure _) (
      Keeps-option (m.marshal book.extra_vars).1 _ _ (Keeps-run_with_vars a book _)
        (λ _. Keeps-pure _))

  Keeps-run_kind : (a : PendingAction) → Keeps P (run_kind m e registry a dry_run)
  unfolding run_kind
  Keeps-run_kind a = Keeps-if _ _ _ (Keeps-bind _ _ (Keeps-run_script a) (λ _. Keeps-pure _)) (
      Keeps-if _ _ _ (Keeps-bind _ _ (Keeps-run_plan _ a.action_plan) (λ _. Keeps-pure _)) (
        Keeps-if _ _ _ (Keeps-bind _ _ (Keeps-run_action_playbook _ a.playbook) (λ _. Keeps-pure _))
          (Keeps-if _ _ _
            (Keeps-bind _ _ (Keeps-run_ansible a a.ansible_playbook) (λ _. Keeps-pure _))
            (Keeps-pure _))))

  -- Running an action in a dry run does nothing to the host but read the clock and write files: what
  -- those leave alone, the run leaves alone, whatever running a command or a probe would do.
  pub execute-dry_run :
      (server : String) (a : PendingAction) (w : World)
      → execution_mode a.mode_name ≡ dry_run
      → P w
      → P (final (execute m e server registry a w))
  unfolding execute
  execute-dry_run server a w dry h = kept.at w h
    where
      kept : Keeps P (execute m e server registry a)
      kept = Keeps-bind _ _ (Keeps-now m q) (λ _.
          Keeps-bind _ _
            (subst (λ mode. Keeps P (run_kind m e registry a mode)) (sym dry) (Keeps-run_kind a))
            (λ _.
              Keeps-bind _ _ (Keeps-overdue m q _ _)
                (λ _. Keeps-bind _ _ (Keeps-now m q) (λ _. Keeps-pure _))))

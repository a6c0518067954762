-- ===== src/Operations/Handlers.antt =====
-- internal/operations/handlers_command.go, handlers_service.go, handlers_package.go and
-- default_registry.go: the actions that a plan's steps may name.
use askio_agent.Base.{
  ℕ, String, Bool, true, false, not, ◌||◌, ◌&&◌, Option, none, some, List, [], ◌∷◌, append,
  is_empty, ◌==◌, if◌then◌else◌, lower_is, insert, decimal,
}
use askio_agent.Base.Strings.{
  trim_space, has_suffix, contains, join, Integer, positive, equal_integers, atoi,
}
use askio_agent.Base.Action.{Action, pure, is_error, ◌>>=◌}
use askio_agent.Envelope.{Fields, get_field}
use askio_agent.Remediation.Machine.{
  Machine, HttpAnswer, PortAnswer, Executor, Ran, ask, redact, run_executor, format_command,
}
use askio_agent.Operations.Data.{Mode, is_dry_run, success, failed, HandlerResult}
use askio_agent.Operations.Params.{
  param, texts_of, whole_seconds, command_timeout, integer_param, print_integer, duration_of,
}

pub record OperationsConfig : Type 0 where
  pub allow_shell : Bool
  pub allowlist : List String

pub data ServiceOp : Type 0 where
  start stop restart reload enable disable status_op : ServiceOp

pub data PackageOp : Type 0 where
  install remove upgrade : PackageOp

pub data Handler : Type 0 where
  service_op : ServiceOp → Handler
  package_op : PackageOp → Handler
  http_check : Handler
  port_check : Handler
  command_run : Option OperationsConfig → Handler

unfoldable pub service_verb : ServiceOp → String
service_verb start = "start"
service_verb stop = "stop"
service_verb restart = "restart"
service_verb reload = "reload"
service_verb enable = "enable"
service_verb disable = "disable"
service_verb status_op = "status"

unfoldable pub changes_service : ServiceOp → Bool
changes_service status_op = false
changes_service _ = true

abbrev pub refusal : String → HandlerResult
refusal message = record { status = failed; output = ""; changed = false; error = some message }

abbrev pub shown : String → HandlerResult
shown line = record {
  status = success;
  output = append "[DRY RUN] " line;
  changed = false;
  error = none;
}

-- A command's output, and what counts as a change when it succeeds and when it fails.
unfoldable pub report_run : {World : Type 0} → Machine World → Bool → Bool → Ran → HandlerResult
report_run m changed changed_on_error ran =
    if is_error ran.error
    then record {
      status = failed;
      output = redact m ran.result.output;
      changed = changed_on_error;
      error = ran.error;
    }
    else record {
      status = success;
      output = redact m ran.result.output;
      changed = changed;
      error = none;
    }

pub has_slash : String → Bool
has_slash s = contains s "/"

unfoldable pub is_listed : {World : Type 0} → Machine World → String → List String → Bool
unfolding has_slash trim_space
is_listed m exe [] = false
is_listed m exe (entry ∷ entries) =
    let others = is_listed m exe entries in
    let allowed = trim_space entry in
    if is_empty allowed
    then others
    else exe == allowed || (not (has_slash allowed) && m.base_name exe == allowed) || others

unfoldable pub is_allowed_exe :
    {World : Type 0} → Machine World → Option OperationsConfig → String → Bool
unfolding is_listed
is_allowed_exe m none exe = true
is_allowed_exe m (some c) exe = elim c.allowlist [ [] ↦ true | _ ∷ _ ↦ is_listed m exe c.allowlist ]

unfoldable pub resolve_exe : {World : Type 0} → Machine World → String → String
unfolding has_slash
resolve_exe m exe = if has_slash exe then m.clean_path exe else exe

unfoldable pub allows_shell : Option OperationsConfig → Bool
allows_shell none = false
allows_shell (some c) = c.allow_shell

unfoldable pub is_shell : Fields → Bool
unfolding trim_space param
is_shell params =
    let shell = trim_space (param params "shell") in
    lower_is shell "true" || lower_is shell "1" || lower_is shell "yes"

unfoldable pub unit_name : String → String
unfolding has_suffix
unit_name name = if has_suffix name ".service" then name else append name ".service"

unfoldable pub package_args : PackageOp → String → List String
package_args install name = "install" ∷ "-y" ∷ name ∷ []
package_args remove name = "remove" ∷ "-y" ∷ name ∷ []
package_args upgrade name =
    if is_empty name then "upgrade" ∷ "-y" ∷ [] else "install" ∷ "-y" ∷ "--only-upgrade" ∷ name ∷ []

unfoldable pub needs_name : PackageOp → Bool
needs_name upgrade = false
needs_name _ = true

abbrev broken : String → HandlerResult
broken message = record { status = failed; output = message; changed = false; error = some message }

abbrev passed : String → HandlerResult
passed line = record { status = success; output = line; changed = false; error = none }

unfoldable pub http_report : Integer → HttpAnswer × Option String → HandlerResult
http_report expect (answer, some message) = broken message
http_report expect (answer, none) =
    if equal_integers (positive answer.status_code) expect
    then passed (
        append "ok status="
          (append (decimal answer.status_code) (append " latency_ms=" (decimal answer.latency_ms))))
    else broken (
        append "unexpected status: got="
          (append (decimal answer.status_code) (append " want=" (print_integer expect))))

unfoldable pub port_report : PortAnswer × Option String → HandlerResult
port_report (answer, some message) = broken message
port_report (answer, none) =
    if answer.is_open
    then passed (append "open latency_ms=" (decimal answer.latency_ms))
    else broken "port closed"

module _ {World : Type 0} (m : Machine World) (e : Executor) where
  -- `StepExec.Run`, with the timeout in nanoseconds.
  unfoldable pub step_run : String → List String → ℕ → Action World Ran
  unfolding whole_seconds
  step_run command args timeout = run_executor m e command args (whole_seconds timeout)

  -- A command that is only shown in a dry run.
  unfoldable pub run_or_show :
      Mode → String → String → List String → ℕ → Bool → Bool → Action World HandlerResult
  run_or_show mode pretty command args timeout changed changed_on_error =
      if is_dry_run mode
      then pure (shown pretty)
      else do ran ← step_run command args timeout; pure (report_run m changed changed_on_error ran)

  unfoldable pub run_service : ServiceOp → Fields → Mode → Action World HandlerResult
  unfolding trim_space param unit_name service_verb changes_service format_command
  run_service op params mode =
      let name = trim_space (param params "name") in
      if is_empty name
      then pure (refusal "missing param: name")
      else (let args = service_verb op ∷ unit_name name ∷ "--no-pager" ∷ [] in
          run_or_show mode (format_command e "systemctl" args) "systemctl" args 30000000000
            (changes_service op) false)

  unfoldable pub run_package : PackageOp → Fields → Mode → Action World HandlerResult
  unfolding trim_space param package_args needs_name format_command
  run_package op params mode =
      let name = trim_space (param params "name") in
      if needs_name op && is_empty name
      then pure (refusal "missing param: name")
      else (let args = package_args op name in
          run_or_show mode (format_command e "apt-get" args) "apt-get" args 600000000000 true false)

  unfoldable pub run_shell : Option OperationsConfig → Fields → Mode → Action World HandlerResult
  unfolding trim_space param allows_shell command_timeout
  run_shell c params mode =
      let cmd = trim_space (param params "cmd") in
      if not (allows_shell c)
      then pure (refusal "shell mode disabled (operations.allow_shell=false)")
      else if is_empty cmd
      then pure (refusal "missing param: cmd")
      else run_or_show mode (append "/bin/bash -lc " cmd) "/bin/bash" ("-lc" ∷ cmd ∷ [])
          (command_timeout (get_field "timeout_seconds" params)) true false

  unfoldable pub run_exe : Option OperationsConfig → Fields → Mode → Action World HandlerResult
  unfolding trim_space param resolve_exe is_allowed_exe texts_of command_timeout join
  run_exe c params mode =
      let given = trim_space (param params "exe") in
      let exe = resolve_exe m given in
      let args = texts_of (get_field "args" params) in
      if is_empty given
      then pure (refusal "missing param: exe")
      else if not (is_allowed_exe m c exe)
      then pure (refusal (append "exe not allowed: " exe))
      else run_or_show mode (append exe (append " " (join args " "))) exe args
          (command_timeout (get_field "timeout_seconds" params)) true true

  unfoldable pub run_http_check : Fields → Mode → Action World HandlerResult
  unfolding trim_space param
  run_http_check params mode =
      let url = trim_space (param params "url") in
      let expect = integer_param (positive 200) (get_field "expect_status" params) in
      let timeout = duration_of (integer_param (positive 10) (get_field "timeout" params)) in
      if is_empty url
      then pure (refusal "missing param: url")
      else if is_dry_run mode
      then pure
          (shown (append "http.check " (append url (append " expect=" (print_integer expect)))))
      else (do answer ← ask (m.http_get url timeout); pure (http_report expect answer))

  unfoldable pub check_port : String → Option Integer → ℕ → Mode → Action World HandlerResult
  check_port host none timeout mode = pure (refusal "invalid port")
  check_port host (some port) timeout mode =
      if is_dry_run mode
      then pure (shown (append "port.check " (append host (append ":" (print_integer port)))))
      else (do answer ← ask (m.port_open host port timeout); pure (port_report answer))

  unfoldable pub run_port_check : Fields → Mode → Action World HandlerResult
  unfolding trim_space param atoi
  run_port_check params mode =
      let given = trim_space (param params "host") in
      let port = trim_space (param params "port") in
      if is_empty port
      then pure (refusal "missing param: port")
      else check_port (if is_empty given then "localhost" else given) (atoi port)
          (duration_of (integer_param (positive 5) (get_field "timeout" params))) mode

  -- `Handler.Execute`.
  unfoldable pub run_handler : Handler → Fields → Mode → Action World HandlerResult
  unfolding is_shell
  run_handler (service_op op) params mode = run_service op params mode
  run_handler (package_op op) params mode = run_package op params mode
  run_handler http_check params mode = run_http_check params mode
  run_handler port_check params mode = run_port_check params mode
  run_handler (command_run c) params mode =
      if is_shell params then run_shell c params mode else run_exe c params mode

-- `DefaultRegistry`.
unfoldable pub default_registry : Option OperationsConfig → List (String × Handler)
unfolding insert
default_registry c = insert "service.start" (service_op start) (
    insert "service.stop" (service_op stop) (
      insert "service.restart" (service_op restart) (
        insert "service.reload" (service_op reload) (
          insert "service.enable" (service_op enable) (
            insert "service.disable" (service_op disable) (
              insert "service.status" (service_op status_op) (
                insert "package.install" (package_op install) (
                  insert "package.remove" (package_op remove) (
                    insert "package.upgrade" (package_op upgrade) (
                      insert "http.check" http_check (
                        insert "port.check" port_check
                          (insert "command.run" (command_run c) []))))))))))))

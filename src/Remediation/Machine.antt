-- ===== src/Remediation/Machine.antt =====
-- internal/remediation/exec.go, executor.go and redact.go: running a command on the host.
use askio_agent.Base.{
  ℕ, String, Bool, not, ◌||◌, Option, List, ◌∷◌, append, decimal, is_empty, ltb, if◌then◌else◌,
  codes, lower,
}
use askio_agent.Base.Strings.{Integer, contains_codes, join}
use askio_agent.Envelope.{Fields}
use askio_agent.Base.Action.{Action, done, pure, raise, is_error, ◌>>=◌}

pub record ExecResult : Type 0 where
  pub exit_code : Integer
  pub output : String
  pub duration : ℕ

-- `remediation.ExecResult` with Go's `error`.
pub record Ran : Type 0 where
  pub result : ExecResult
  pub error : Option String

pub record HttpAnswer : Type 0 where
  pub status_code : ℕ
  pub latency_ms : ℕ

pub record PortAnswer : Type 0 where
  pub is_open : Bool
  pub latency_ms : ℕ

-- The host as the packages os, os/exec, time, net, regexp, path/filepath and
-- encoding/json show it. No law is assumed: every call
-- may answer anything.
pub record Machine (World : Type 0) : Type 0 where
  pub now : World → ℕ × World
  -- The context's deadline, a number of nanoseconds after its start, has passed.
  pub overdue : ℕ → ℕ → World → Bool × World
  pub look_path : String → World → Bool × World
  -- `cmd.Run` with a timeout in seconds.
  pub spawn : String → List String → ℕ → World → Ran × World
  pub write_file : String → String → World → World
  pub http_get : String → ℕ → World → (HttpAnswer × Option String) × World
  pub port_open : String → Integer → ℕ → World → (PortAnswer × Option String) × World
  -- `json.Marshal`, with its error.
  pub marshal : Fields → String × Option String
  pub temp_dir : String
  pub clean_path : String → String
  pub base_name : String → String
  pub replace_keys : String → String
  pub replace_secrets : String → String

-- A call of the host.
unfoldable pub ask : {World A : Type 0} → (World → A × World) → Action World A
ask f w = let (a, v) = f w in done a v

-- A call of the host that answers nothing.
unfoldable pub tell : {World : Type 0} → (World → World) → Action World (Unit {0})
tell f w = done tt (f w)

pub data PrivilegeMode : Type 0 where
  root_mode sudo_mode : PrivilegeMode
  other_mode : String → PrivilegeMode

pub data Executor : Type 0 where
  systemd_run root sudo : Executor

unfoldable pub redact : {World : Type 0} → Machine World → String → String
redact m s = if is_empty s then s else m.replace_secrets (m.replace_keys s)

module _ {World : Type 0} (m : Machine World) where
  unfoldable pub new_executor : PrivilegeMode → Action World Executor
  new_executor root_mode = pure root
  new_executor sudo_mode = do
    found ← ask (m.look_path "systemd-run")
    if found then pure systemd_run else pure sudo
  new_executor (other_mode mode) = raise (append "unknown privilege mode: " mode)

  unfoldable pub exec_simple : String → List String → ℕ → Action World Ran
  exec_simple command args seconds =
      ask (m.spawn command args (if ltb 0 seconds then seconds else 30))

  unfoldable pub run_root : String → List String → ℕ → Action World Ran
  unfolding exec_simple
  run_root command args seconds = exec_simple command args seconds

  unfoldable pub run_sudo : String → List String → ℕ → Action World Ran
  unfolding exec_simple
  run_sudo command args seconds = exec_simple "sudo" ("-n" ∷ command ∷ args) seconds

  is_transient_failure : String → Bool
  is_transient_failure output =
      contains_codes (lower output) (codes "failed to start transient service unit")
      || contains_codes (lower output) (codes "connection reset by peer")
      || contains_codes (lower output) (codes "transport endpoint is not connected")

  -- Direct execution, then sudo, when systemd-run could not create its unit.
  unfoldable pub run_directly : String → List String → ℕ → Action World Ran
  run_directly command args seconds = do
    direct ← run_root command args seconds
    if not (is_error direct.error) then pure direct else do
      elevated ← run_sudo command args seconds
      if not (is_error elevated.error)
          then pure elevated
          else if not (is_empty direct.result.output)
          then pure direct
          else pure elevated

  unfoldable pub run_systemd : String → List String → ℕ → Action World Ran
  unfolding is_transient_failure
  run_systemd command args seconds = do
    nanoseconds ← ask m.now
    result ←
        exec_simple "sudo"
          ("-n"
            ∷ "systemd-run"
            ∷ "--wait"
            ∷ "--collect"
            ∷ "--pipe"
            ∷ "--quiet"
            ∷ "--unit"
            ∷ append "askio-cmd-" (decimal nanoseconds)
            ∷ command
            ∷ args)
          seconds
    if not (is_error result.error) || not (is_transient_failure result.result.output)
        then pure result
        else run_directly command args seconds

  -- `Executor.Run`.
  unfoldable pub run_executor : Executor → String → List String → ℕ → Action World Ran
  run_executor systemd_run = run_systemd
  run_executor root = run_root
  run_executor sudo = run_sudo

-- `Executor.Format`.
unfoldable pub format_command : Executor → String → List String → String
unfolding join
format_command systemd_run command args =
    append "sudo -n systemd-run --wait --collect --pipe --quiet --unit askio-cmd-<ts> "
      (append command (append " " (join args " ")))
format_command root command args = append command (append " " (join args " "))
format_command sudo command args = append "sudo -n " (append command (append " " (join args " ")))

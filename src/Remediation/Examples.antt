-- ===== src/Remediation/Examples.antt =====
-- The theorem on internal/remediation/engine.go at a monitor without remediation.
use askio_agent.Base.Strings.{positive}
use askio_agent.Base.{ℕ, suc, String, true, false, ◌≡◌, refl, none, []}
use askio_agent.Base.Action.{fail}
use askio_agent.Remediation.Machine.{Machine, sudo}
use askio_agent.Remediation.Playbooks.{Monitor, systemd, built_in_playbooks}
use askio_agent.Remediation.Engine.{run_playbook}
use askio_agent.Remediation.Engine.Allowed.{run_playbook-refused}

-- A host that counts what it has run.
abbrev counting : Machine ℕ
counting = record {
  now = λ n. (7, n);
  overdue = λ s l n. (false, n);
  look_path = λ s n. (true, n);
  spawn = λ c args t n. (
    record {
      result = record { exit_code = positive 0; output = "ok"; duration = 1 };
      error = none;
    },
    suc n,
  );
  write_file = λ f s n. n;
  http_get = λ u t n. ((record { status_code = 200; latency_ms = 1 }, none), suc n);
  port_open = λ h p t n. ((record { is_open = true; latency_ms = 1 }, none), suc n);
  marshal = λ f. ("{}", none);
  temp_dir = "/tmp";
  clean_path = λ s. s;
  base_name = λ s. s;
  replace_keys = λ s. s;
  replace_secrets = λ s. s;
}

abbrev monitor : Monitor
monitor = record {
  id = "m1";
  service_name = "nginx";
  service_type = systemd;
  systemd_unit = "nginx.service";
  docker_container_id = "";
  remediation_enabled = false;
  allowed_playbook_ids = [];
}

run_playbook-refused_example :
    (message : String) × (run_playbook counting sudo built_in_playbooks monitor "systemd_restart"
        "auto" 0
      ≡ fail message 0)
run_playbook-refused_example =
    run_playbook-refused counting sudo built_in_playbooks monitor "systemd_restart" "auto" 0
      (λ book found. refl)

-- ===== src/Remediation/Playbooks.antt =====
-- internal/remediation/playbooks.go and the monitor of internal/model/model.go.
use askio_agent.Base.{ℕ, String, Bool, Option, some, List, [], ◌∷◌}

pub data ServiceType : Type 0 where
  systemd docker process : ServiceType
  other_type : String → ServiceType

-- The fields that a remediation reads.
pub record Monitor : Type 0 where
  pub id : String
  pub service_name : String
  pub service_type : ServiceType
  pub systemd_unit : String
  pub docker_container_id : String
  pub remediation_enabled : Bool
  pub allowed_playbook_ids : List String

pub record Step : Type 0 where
  pub order : ℕ
  pub command : String
  pub args : List String
  pub timeout_seconds : ℕ
  pub fail_action : String

pub record Verification : Type 0 where
  pub command : String
  pub args : List String
  pub expected_output : String
  pub timeout_seconds : ℕ

pub record Playbook : Type 0 where
  pub id : String
  pub service_types : List ServiceType
  pub applicable_services : List String
  pub steps : List Step
  pub verify : Option Verification

abbrev is_active_unit : String → Verification
is_active_unit unit = record {
  command = "systemctl";
  args = "is-active" ∷ unit ∷ "--no-pager" ∷ [];
  expected_output = "active";
  timeout_seconds = 10;
}

abbrev step : ℕ → String → List String → ℕ → String → Step
step order command args seconds fail_action = record {
  order = order;
  command = command;
  args = args;
  timeout_seconds = seconds;
  fail_action = fail_action;
}

abbrev pub built_in_playbooks : List Playbook
built_in_playbooks =
    record {
      id = "systemd_restart";
      service_types = systemd ∷ [];
      applicable_services = [];
      steps = step 1 "systemctl" ("restart" ∷ "{unit}" ∷ "--no-pager" ∷ []) 30 "abort" ∷ [];
      verify = some (is_active_unit "{unit}");
    }
    ∷ record {
      id = "systemd_reload";
      service_types = systemd ∷ [];
      applicable_services = [];
      steps = step 1 "systemctl" ("reload" ∷ "{unit}" ∷ "--no-pager" ∷ []) 30 "abort" ∷ [];
      verify = some (is_active_unit "{unit}");
    }
    ∷ record {
      id = "systemd_reset_failed";
      service_types = systemd ∷ [];
      applicable_services = [];
      steps =
          step 1 "systemctl" ("reset-failed" ∷ "{unit}" ∷ "--no-pager" ∷ []) 30 "continue"
          ∷ step 2 "systemctl" ("start" ∷ "{unit}" ∷ "--no-pager" ∷ []) 30 "abort"
          ∷ [];
      verify = some (is_active_unit "{unit}");
    }
    ∷ record {
      id = "nginx_test_reload";
      service_types = systemd ∷ [];
      applicable_services = "nginx" ∷ [];
      steps =
          step 1 "nginx" ("-t" ∷ []) 30 "abort"
          ∷ step 2 "systemctl" ("reload" ∷ "nginx" ∷ "--no-pager" ∷ []) 30 "abort"
          ∷ [];
      verify = some (is_active_unit "nginx");
    }
    ∷ record {
      id = "postgres_restart_verify";
      service_types = systemd ∷ [];
      applicable_services = "postgresql" ∷ "postgres" ∷ [];
      steps =
          step 1 "systemctl" ("restart" ∷ "{unit}" ∷ "--no-pager" ∷ []) 60 "abort"
          ∷ step 2 "pg_isready" [] 10 "abort"
          ∷ [];
      verify = some (record {
        command = "pg_isready";
        args = [];
        expected_output = "accepting connections";
        timeout_seconds = 10;
      });
    }
    ∷ record {
      id = "docker_restart";
      service_types = docker ∷ [];
      applicable_services = [];
      steps = step 1 "docker" ("restart" ∷ "{container}" ∷ []) 60 "abort" ∷ [];
      verify = some (record {
        command = "docker";
        args = "inspect" ∷ "--format" ∷ "{{.State.Running}}" ∷ "{container}" ∷ [];
        expected_output = "true";
        timeout_seconds = 10;
      });
    }
    ∷ []

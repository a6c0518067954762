-- ===== src/Broker/State.antt =====
-- internal/migration/broker.go: the broker's state, in memory and on disk.
use askio_agent.Base.{ℕ, String, Bool, List, [], ◌∷◌, if◌then◌else◌}

-- The phases by their constants; `unset` is the empty string of a state file that has no phase.
pub data Phase : Type 0 where
  unset activating active releasing release_authorized released : Phase

-- The counters are int64 in the source and do not reach its bound.
pub record WriterFence : Type 0 where
  pub migration_id : String
  pub run_id : String
  pub services : List String
  pub previously_active : List String
  pub is_active : Bool
  pub phase : Phase
  pub fencing_token : ℕ
  pub activated_at : String
  pub last_verified_at : String
  pub violation_count : ℕ
  pub last_violation : String
  pub watchdog_error_count : ℕ
  pub last_watchdog_error : String

pub record BrokerState : Type 0 where
  pub fences : List (String × ℕ)
  pub writer_fences : List (String × WriterFence)
  pub seen_nonces : List String
  pub seen_nonce_expiries : List (String × String)

-- `state` is what the process holds, `disk` the content of the state file, `host` everything that
-- the broker reaches through the operating system.
pub record Broker (Host : Type 0) : Type 0 where
  pub state : BrokerState
  pub disk : BrokerState
  pub host : Host

is_nil : List String → Bool
is_nil [] = Bool.true
is_nil (_ ∷ _) = Bool.false

-- A fence that a broker without phases wrote. Its list of running services may be empty or absent,
-- which are one here: the source fills in only an absent one.
upgrade : Phase → WriterFence → WriterFence
unfolding is_nil
upgrade unset fence =
    if fence.is_active
    then record fence {
      phase = active;
      previously_active =
          if is_nil fence.previously_active then fence.services else fence.previously_active;
    }
    else record fence { phase = released }
upgrade _ fence = fence

upgrade_all : List (String × WriterFence) → List (String × WriterFence)
unfolding upgrade
upgrade_all [] = []
upgrade_all ((k, fence) ∷ rest) = (k, upgrade fence.phase fence) ∷ upgrade_all rest

-- A new process: what `loadFences` makes of a readable state file.
unfoldable pub load_fences : {Host : Type 0} → Broker Host → Broker Host
unfolding upgrade_all
load_fences b = record b {
  state = record b.disk { writer_fences = upgrade_all b.disk.writer_fences };
}

-- ===== src/Broker/System.antt =====
-- What the broker reaches outside its own code: the clock, systemctl, the inhibitor markers and the
-- state file. Each call takes the host and returns an answer with the host after it; no law is
-- assumed, so every call may fail at any time.
use askio_agent.Base.{ℕ, String, Bool, List, Option, ◌≡◌, arith}
use askio_agent.Broker.State.{BrokerState, Broker}
use askio_agent.Base.Action.{Action, Outcome, done, fail, final}

-- systemctl's verb.
pub data Verb : Type 0 where
  start stop : Verb

-- A marker file as `Lstat` shows it.
pub data Marker : Type 0 where
  present missing unsafe foreign : Marker
  unreadable : String → Marker

-- How a write of the state file ends: a failure may come before the rename or after it.
pub data Write : Type 0 where
  written : Write
  unwritten : String → Write
  unsynced : String → Write

-- `Option String` is Go's `error`: `none` is `nil`.
pub record System (Host : Type 0) : Type 0 where
  pub now : Host → ℕ × Host
  pub format_time : ℕ → String
  pub parse_time : String → Option ℕ
  pub controller : Host → Option String × Host
  pub operate : Verb → String → Host → Option String × Host
  pub query_active : String → Host → Option Bool × Host
  pub verify_drop_in : String → Host → Option String × Host
  pub prepare_marker_root : Host → Option String × Host
  pub stat_marker : String → Host → Marker × Host
  pub write_marker : String → Host → Option String × Host
  pub remove_marker : String → Host → Option String × Host
  pub sync_marker_root : Host → Option String × Host
  pub validate_markers : List String → Host → Option String × Host
  pub lifecycle_lock : Host → Option String × Host
  pub write_state : BrokerState → Host → Write × Host
  pub wait_until : ℕ → Host → Option String × Host

-- A call of the system.
unfoldable pub call : {Host A : Type 0} → (Host → A × Host) → Action (Broker Host) A
call f b = let (a, h) = f b.host in done a (record b { host = h })

settle_write : {Host : Type 0} → Write → Broker Host → Outcome (Broker Host) (Unit {0})
settle_write written b = done tt (record b { disk = b.state })
settle_write (unwritten e) b = fail e b
settle_write (unsynced e) b = fail e (record b { disk = b.state })

-- The whole state is written to a temporary file, which then takes the state file's place.
unfoldable pub persist_fences : {Host : Type 0} → System Host → Action (Broker Host) (Unit {0})
unfolding settle_write
persist_fences sys b =
    let (w, h) = sys.write_state b.state b.host in settle_write w (record b { host = h })

pub state-persist_fences :
    {Host : Type 0} (sys : System Host) (b : Broker Host)
    → (final (persist_fences sys b)).state ≡ b.state
unfolding persist_fences
state-persist_fences sys b = ground arith

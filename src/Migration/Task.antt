-- ===== src/Migration/Task.antt =====
-- internal/migration/task.go: what the task runner keeps, and what it reaches outside its code.
pub mod Envelopes
pub mod Reports
pub mod Bindings
pub mod Secrets
pub mod Rounds
mod Posts
mod Sound
pub mod Consistent
pub mod Lease
pub mod Accepted
mod Examples
pub mod Delivery
use askio_agent.Base.{
  ℕ, String, Bool, List, [], Option, none, some, if◌then◌else◌, is_empty, ◌==◌, ◌&&◌, append,
}
use askio_agent.Base.Action.{Action, Outcome, done, fail, pure, raise, modify, gets, ◌>>=◌, ◌>>◌}
use askio_agent.Envelope.{Json, Fields, field, end_fields, PrimitiveRef, TaskEnvelope}
use askio_agent.Migration.Canonical.{Codec, canonical_json}

pub record SafeError : Type 0 where
  pub error_code : String
  pub safe_message : String
  pub retryable : Bool

-- A `nil` map or slice is `none`.
pub record PrimitiveResult : Type 0 where
  pub state : String
  pub outputs : Option Fields
  pub evidence_digests : Option (List String)
  pub checkpoint : Option Fields
  pub error : Option SafeError

-- The sequence number is an int64 that counts progress reports and does not reach its bound.
pub record PersistentState : Type 0 where
  pub schema_version : String
  pub accepted_digest : String
  pub active_attempt_id : String
  pub active_primitive : String
  pub current_phase : String
  pub progress_sequence : ℕ
  pub pending_route : String
  pub pending_result_body : Option Fields
  pub seen_nonces : List String
  pub seen_nonce_expiries : List (String × String)

-- The errors of a progress report that the runner tells apart.
pub data TaskError : Type 0 where
  pause_requested cancel_requested : TaskError
  other : String → TaskError

-- The local variables of one round that the reports and the heartbeat share.
pub record TaskProgress : Type 0 where
  pub last_phase : String
  pub last_completed : ℕ
  pub last_total : Option ℕ
  pub progress_error : Option TaskError

-- `state` is what the process holds, `disk` the state file (`none` when there is none), `host`
-- everything that the runner reaches outside its code.
pub record Runner (Host : Type 0) : Type 0 where
  pub state : PersistentState
  pub disk : Option PersistentState
  pub progress : TaskProgress
  pub host : Host

-- A decoded answer of the backend; a field that an answer lacks is Go's zero value.
pub record Answer : Type 0 where
  pub status : ℕ
  pub task : Option TaskEnvelope
  pub control : String
  pub cancel_requested : Bool

-- `status_error` is `*api.StatusError` with its code and its body, `broken` any other error.
pub data Reply : Type 0 where
  answered : Answer → Reply
  status_error : ℕ → String → Reply
  broken : String → Reply

-- What a primitive does, as the runner sees it: it works, it reports progress and goes on with the
-- report's error, or it returns. `heartbeat` is a tick of the lease timer that falls between.
pub data Execution (Host : Type 0) : Type 0 where
  finished : PrimitiveResult → Execution Host
  reports : String → ℕ → Option ℕ → (Option TaskError → Execution Host) → Execution Host
  heartbeat : Execution Host → Execution Host
  works : (Host → Host) → Execution Host → Execution Host

-- The clock is in nanoseconds. `none` is `nil` for an error and for the activity hook.
pub record Backend (Host : Type 0) : Type 0 where
  pub now : Host → ℕ × Host
  pub parse_time : String → Option ℕ
  pub now_text : Host → String × Host
  pub random_nonce : Host → Option String × Host
  pub post : String → Fields → Host → Reply × Host
  pub write_state : PersistentState → Host → Option String × Host
  pub supports : PrimitiveRef → Bool
  pub run_primitive : TaskEnvelope → Host → Execution Host
  pub activity : Option (Bool → Host → Host)

-- Base64 and Ed25519 with the keys of this agent and of the backend.
pub record Signatures : Type 0 where
  pub decode_base64 : String → Option String
  pub verify : String → String → Bool
  pub sign : String → String

pub record Identity : Type 0 where
  pub agent_id : String
  pub signing_key_id : String
  pub backend_key_id : String

abbrev pub route_task_claim : String
route_task_claim = "monitor-agent-migration-task-claim"

abbrev pub route_task_progress : String
route_task_progress = "monitor-agent-migration-task-progress"

abbrev pub route_task_result : String
route_task_result = "monitor-agent-migration-task-result"

abbrev pub state_schema : String
state_schema = "operations.migration.agent-state.v1"

-- `body[key] = value`.
unfoldable pub set_field : String → Json → Fields → Fields
set_field key v end_fields = field key v end_fields
set_field key v (field name old rest) =
    let written = set_field key v rest in
    if name == key then field key v rest else field name old written

unfoldable pub ask : {Host A : Type 0} → (Host → A × Host) → Action (Runner Host) A
ask f r = let (a, h) = f r.host in done a (record r { host = h })

unfoldable pub settle_save :
    {Host : Type 0} → Option String → Runner Host → Outcome (Runner Host) (Unit {0})
settle_save none r = done tt (record r { disk = some r.state })
settle_save (some e) r = fail e r

abbrev pub change :
    {Host : Type 0} → (PersistentState → PersistentState) → Action (Runner Host) (Unit {0})
change f = modify (λ r. record r { state = f r.state })

module _ {Host : Type 0} (b : Backend Host) where
  -- The state goes to a temporary file; the rename that ends it is the last step that can fail.
  unfoldable pub save_state : Action (Runner Host) (Unit {0})
  unfolding settle_save
  save_state r = let (e, h) = b.write_state r.state r.host in settle_save e (record r { host = h })

-- What `NewRunner` starts from.
unfoldable pub initial_state : PersistentState
initial_state = record {
  schema_version = state_schema;
  accepted_digest = "";
  active_attempt_id = "";
  active_primitive = "";
  current_phase = "";
  progress_sequence = 0;
  pending_route = "";
  pending_result_body = none;
  seen_nonces = [];
  seen_nonce_expiries = [];
}

unfoldable pub read_back :
    {Host : Type 0} → Option PersistentState → Action (Runner Host) (Unit {0})
read_back none = pure tt
read_back (some s) = do
  change (λ _. s)
  if s.schema_version == state_schema
      then pure tt
      else raise "unsupported migration task state schema"

-- A readable state file, or none.
unfoldable pub load_state : {Host : Type 0} → Action (Runner Host) (Unit {0})
unfolding read_back
load_state = do disk ← gets (λ r. r.disk); read_back disk

module _ {Host : Type 0} (b : Backend Host) (codec : Codec) (keys : Signatures)
    (me : Identity) where
  unfoldable pub nonce_of : Option String → Action (Runner Host) String
  nonce_of none = raise "nonce"
  nonce_of (some n) = pure n

  unfoldable pub signature_of : Option String → Action (Runner Host) String
  signature_of none = raise "canonical"
  signature_of (some text) = pure (keys.sign text)

  unfoldable pub signed_body : String → Fields → Action (Runner Host) Fields
  unfolding nonce_of signature_of
  signed_body route body = do
    drawn ← ask b.random_nonce
    nonce ← nonce_of drawn
    stamp ← ask b.now_text
    let full = set_field "request_nonce" (Json.text nonce) (
        set_field "request_timestamp" (Json.text stamp)
          (set_field "key_id" (Json.text me.signing_key_id) body))
    let material =
        field "route" (Json.text route)
          (field "agent_id" (Json.text me.agent_id) (field "body" (Json.object full) end_fields))
    signature ← signature_of (canonical_json codec (Json.object material))
    pure (set_field "request_signature" (Json.text signature) full)

  unfoldable pub post_reply : String → Outcome (Runner Host) Fields → Outcome (Runner Host) Reply
  post_reply route (done body r) =
      let (reply, h) = b.post route body r.host in done reply (record r { host = h })
  post_reply route (fail e r) = done (broken e) r

  -- An error is a value of the reply, so that callers can tell errors apart.
  unfoldable pub post_signed : String → Fields → Action (Runner Host) Reply
  unfolding signed_body post_reply
  post_signed route fields r = post_reply route (signed_body route fields r)

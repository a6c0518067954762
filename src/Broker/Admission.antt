-- ===== src/Broker/Admission.antt =====
-- internal/migration/broker.go: a task is accepted once, and only with a fencing token that is not
-- older than the last one of its domain.
pub mod Tokens
pub mod Replay
use askio_agent.Base.{
  ℕ, String, Bool, true, false, not, ◌||◌, Option, none, some, List, [], ◌∷◌, lookup, insert, ltb,
  mem_string, append, ◌==◌, if◌then◌else◌,
}
use askio_agent.Base.Action.{Action, pure, raise, gets, modify, check, ◌>>=◌, ◌>>◌}
use askio_agent.Envelope.{TaskEnvelope}
use askio_agent.Broker.State.{Broker}
use askio_agent.Broker.System.{System, call, persist_fences}

unfoldable pub broker_fence_domain : String → String
broker_fence_domain id =
    if id == "migration.host.fence-writers.v1"
      || id == "migration.host.unfence-writers.v1"
      || id == "migration.source.verify-quiescence.v1"
    then "host-writers"
    else if id == "migration.compose.preflight-target.v1"
        || id == "migration.compose.start-isolated.v1"
        || id == "migration.compose.stop.v1"
    then "compose-runtime"
    else if id == "migration.cleanup.staging.v1"
    then "staging-cleanup"
    else id

unfoldable pub fence_key : TaskEnvelope → String
unfolding broker_fence_domain
fence_key task = append task.migration_id (append ":" (broker_fence_domain task.primitive.id))

-- `!expiresAt.After(now)` for an expiry that can be read.
unfoldable pub is_past : ℕ → Option ℕ → Bool
is_past now none = false
is_past now (some expires_at) = not (ltb now expires_at)

-- The loop that forgets nonces whose tasks have expired.
unfoldable pub prune_nonces :
    (String → Option ℕ) → ℕ → List (String × String) → List (String × String)
unfolding is_past
prune_nonces parse now [] = []
prune_nonces parse now ((nonce, expiry) ∷ rest) =
    if is_past now (parse expiry)
    then prune_nonces parse now rest
    else (nonce, expiry) ∷ prune_nonces parse now rest

unfoldable pub is_some : {A : Type 0} → Option A → Bool
is_some none = false
is_some (some _) = true

-- A missing key of a `map[string]int64` reads as 0.
unfoldable pub token_of : Option ℕ → ℕ
token_of none = 0
token_of (some token) = token

unfoldable pub record_token : String → ℕ → List (String × ℕ) → List (String × ℕ)
unfolding token_of
record_token key token fences =
    if ltb (token_of (lookup key fences)) token then insert key token fences else fences

expiry_of : {S : Type 0} → ℕ → Option ℕ → Action S ℕ
expiry_of now none = raise "broker task envelope expiry is invalid"
expiry_of now (some expires_at) =
    if ltb now expires_at then pure expires_at else raise "broker task envelope expiry is invalid"

unfoldable pub accept_fence :
    {Host : Type 0} → System Host → TaskEnvelope → Action (Broker Host) (Unit {0})
unfolding fence_key prune_nonces is_some record_token expiry_of
accept_fence sys task = do
  now ← call sys.now
  nonces ← gets (λ b. b.state.seen_nonces)
  check (not (mem_string task.nonce nonces)) "broker task envelope was already consumed"
  modify (λ b. record b {
    state = record b.state {
      seen_nonce_expiries = prune_nonces sys.parse_time now b.state.seen_nonce_expiries;
    };
  })
  expiries ← gets (λ b. b.state.seen_nonce_expiries)
  check (not (is_some (lookup task.nonce expiries))) "broker task envelope was already consumed"
  expires_at ← expiry_of now (sys.parse_time task.expires_at)
  fences ← gets (λ b. b.state.fences)
  check (not (ltb task.fencing_token (token_of (lookup (fence_key task) fences))))
      "stale broker fencing token"
  modify (λ b. record b {
    state = record b.state {
      fences = record_token (fence_key task) task.fencing_token b.state.fences;
      seen_nonce_expiries =
          insert task.nonce (sys.format_time expires_at) b.state.seen_nonce_expiries;
    };
  })
  persist_fences sys

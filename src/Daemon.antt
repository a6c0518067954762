-- ===== src/Daemon.antt =====
-- internal/agent/operations_handler.go: a pending action is run once and its result posted.
pub mod Once
pub mod Offline
mod Examples
use askio_agent.Base.{
  String, Bool, true, false, not, Option, none, some, List, [], lookup, insert, remove, append,
  is_empty, ◌==◌, if◌then◌else◌, ◌&&◌,
}
use askio_agent.Base.Action.{
  Outcome, done, fail, Action, pure, raise, gets, modify, is_error, match_option, ◌>>=◌, ◌>>◌,
}
use askio_agent.Remediation.Machine.{Machine, PrivilegeMode, Executor, root, new_executor}
use askio_agent.Operations.Data.{PendingAction, AgentResult, AnsiblePlaybook}
use askio_agent.Operations.Handlers.{OperationsConfig, default_registry}
use askio_agent.Operations.Runner.{execute}

-- The server and the local store, which may fail at any call.
pub record Server (World : Type 0) : Type 0 where
  pub post : AgentResult → World → Option String × World
  pub can_read : String → World → Bool × World
  pub can_write : String → World → Bool × World
  pub can_delete : String → World → Bool × World

pub record Config : Type 0 where
  pub server_id : String
  pub privilege_mode : PrivilegeMode
  pub operations : Option OperationsConfig

-- The `ops` bucket of the store, whose values are read back as they were written, and the host.
pub record Desk (World : Type 0) : Type 0 where
  pub cache : List (String × AgentResult)
  pub world : World

unfoldable pub persisted_run_key : String → String
persisted_run_key run = append "ops_result_" run

unfoldable pub lift_outcome :
    {World A : Type 0} → List (String × AgentResult) → Outcome World A → Outcome (Desk World) A
lift_outcome cache (done a w) = done a (record { cache = cache; world = w })
lift_outcome cache (fail e w) = fail e (record { cache = cache; world = w })

-- A method of the host alone.
unfoldable pub on_host : {World A : Type 0} → Action World A → Action (Desk World) A
unfolding lift_outcome
on_host m d = lift_outcome d.cache (m d.world)

unfoldable pub request : {World A : Type 0} → (World → A × World) → Action (Desk World) A
request f d = let (a, w) = f d.world in done a (record d { world = w })

or_root : {World : Type 0} → Outcome World Executor → Outcome World Executor
or_root (done e w) = done e w
or_root (fail message w) = done root w

module _ {World : Type 0} (m : Machine World) (server : Server World) (c : Config) where
  -- `remEngExec`.
  unfoldable pub executor_for : Action World Executor
  unfolding or_root
  executor_for w = or_root (new_executor m c.privilege_mode w)

  unfoldable pub store_result : String → AgentResult → Action (Desk World) (Unit {0})
  store_result key result = do
    written ← request (server.can_write key)
    if written then modify (λ d. record d { cache = insert key result d.cache }) else pure tt

  unfoldable pub delete_result : String → Action (Desk World) (Unit {0})
  delete_result key = do
    deleted ← request (server.can_delete key)
    if deleted then modify (λ d. record d { cache = remove key d.cache }) else pure tt

  unfoldable pub read_result : String → Action (Desk World) (Option AgentResult)
  read_result key = do
    readable ← request (server.can_read key)
    cache ← gets (λ d. d.cache)
    pure (if readable then lookup key cache else none)

  unfoldable pub post_again : String → AgentResult → Action (Desk World) (Unit {0})
  post_again key cached = do
    e ← request (server.post cached)
    if is_error e then pure tt else delete_result key

  unfoldable pub run_and_post : PendingAction → Action (Desk World) (Unit {0})
  run_and_post a = do
    e ← on_host executor_for
    result ← on_host (execute m e c.server_id (default_registry c.operations) a)
    failed ← request (server.post result)
    if is_error failed then store_result (persisted_run_key a.run_id) result else pure tt

  unfoldable pub handle_pending_action : Option PendingAction → Action (Desk World) (Unit {0})
  unfolding persisted_run_key
  handle_pending_action none = pure tt
  handle_pending_action (some a) = do
    cached ← read_result (persisted_run_key a.run_id)
    match_option cached (run_and_post a) λ result. post_again (persisted_run_key a.run_id) result

-- `validatePendingAction`.
unfoldable pub validate_pending_action : Option PendingAction → Option String
validate_pending_action none = none
validate_pending_action (some a) =
    if is_empty a.run_id
    then some "pending_action.run_id is required"
    else if is_empty a.action_type
    then some "pending_action.action_type is required"
    else if a.action_type == "ansible" && is_absent a.ansible_playbook
    then some "pending_action.ansible_playbook is required for action_type=ansible"
    else none
  where
    is_absent : Option AnsiblePlaybook → Bool
    is_absent none = true
    is_absent (some _) = false

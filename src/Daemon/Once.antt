-- ===== src/Daemon/Once.antt =====
-- internal/agent/operations_handler.go: an action whose result waits to be posted is not run again.
use askio_agent.Base.{String, true, ◌≡◌, some, lookup, remove, arith, if◌then◌else◌}
use askio_agent.Base.Action.{final, is_error, ◌>>=◌}
use askio_agent.Remediation.Machine.{Machine}
use askio_agent.Operations.Data.{PendingAction, AgentResult}
use askio_agent.Daemon.{
  Server, Config, Desk, request, persisted_run_key, read_result, post_again, delete_result,
  handle_pending_action,
}

module _ {World : Type 0} (m : Machine World) (server : Server World) (c : Config)
    (a : PendingAction) (result : AgentResult) (d : Desk World) where
  abbrev key : String
  key = persisted_run_key a.run_id

  -- When a result for the run is cached and can be read, the action is not run: the host sees the
  -- read, the post of that result, and a delete if the post succeeds, and no more. The cached result
  -- goes away only when post and delete succeed.
  pub handle_pending_action-cached :
      lookup key d.cache ≡ some result
      → (server.can_read key d.world).0 ≡ true
      → let (e, posted) = server.post result (server.can_read key d.world).1 in
        let (deleted, after) = server.can_delete key posted in
        (final (handle_pending_action m server c (some a) d)).world
          ≡ (if is_error e then posted else after)
        × (final (handle_pending_action m server c (some a) d)).cache
          ≡ (if is_error e then d.cache else if deleted then remove key d.cache else d.cache)
  unfolding handle_pending_action read_result post_again delete_result request ◌>>=◌
  handle_pending_action-cached cached readable =
      rw (readable, final) (rw (cached, final) (ground arith))

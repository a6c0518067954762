-- ===== src/Broker/Release/Consistent.antt =====
-- internal/migration/broker.go, `releaseWriterFence`: a release keeps the fences consistent.
use askio_agent.Base.{
  String, List, true, false, ◌≡◌, some, lookup, remove, ◌==◌, equal_strings, ◌⊎◌,
}
use askio_agent.Base.Action.{done}
use askio_agent.Base.Action.Keeps.{Keeps}
use askio_agent.Base.Action.Ends.{Ends}
use askio_agent.Envelope.{TaskEnvelope, broker_task_run_id}
use askio_agent.Broker.State.{release_authorized, WriterFence, Broker}
use askio_agent.Broker.System.{System}
use askio_agent.Broker.Services.{intersects_services}
use askio_agent.Broker.Fence.Invariant.{Fences, Confined, IsConsistent}

-- What a crash in the middle of a release leaves: the migration's entry, of the run and over the
-- services, is authorized to be released; the other fences are consistent, and none of them that is
-- active holds one of its services.
pub record IsHalfway (run key : String) (services : List String) (fences : Fences) : Type 0 where
  pub fence : WriterFence
  pub found : lookup key fences ≡ some fence
  pub filed : fence.migration_id ≡ key
  pub of_run : (fence.run_id == run) ≡ true
  pub same : equal_strings fence.services services ≡ true
  pub off : fence.is_active ≡ false
  pub halfway : fence.phase ≡ release_authorized
  pub others : IsConsistent (remove key fences)
  pub free :
      (k : String) (g : WriterFence)
      → lookup k (remove key fences) ≡ some g
      → g.is_active ≡ true
      → intersects_services g.services fence.services ≡ false

-- The fences are consistent, but for a release of the task's own migration that is halfway.
abbrev pub IsReleasable : {Host : Type 0} → TaskEnvelope → List String → Broker Host → Type 0
IsReleasable task services b =
    IsConsistent b.state.writer_fences
    ⊎ ((run : String) × (broker_task_run_id task b ≡ done run b)
        × IsHalfway run task.migration_id services b.state.writer_fences)

module _ {Host : Type 0} (sys : System Host) (task : TaskEnvelope) (services : List String)
    (run : String) (before : Fences) (h : IsHalfway run task.migration_id services before) where
  abbrev filed_others : Fences
  filed_others = remove h.fence.migration_id before

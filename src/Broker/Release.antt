-- ===== src/Broker/Release.antt =====
-- internal/migration/broker.go: a writer fence is released on a task's request.
pub mod Confined
pub mod Consistent
pub mod Durable
pub mod Orphan
use askio_agent.Base.{
  String, true, false, not, ◌||◌, Option, none, some, List, [], equal_strings, ◌==◌, if◌then◌else◌,
}
use askio_agent.Base.Action.{
  Action, pure, raise, gets, modify, attempt, with_message, check, match_option, ◌>>=◌, ◌>>◌,
}
use askio_agent.Envelope.{TaskEnvelope, broker_task_run_id}
use askio_agent.Broker.State.{release_authorized, released, WriterFence, Broker}
use askio_agent.Broker.System.{System, persist_fences}
use askio_agent.Broker.Services.{verify_services_inactive, verify_expected_service_states}
use askio_agent.Broker.Fence.{
  FenceReport, blank_report, is_releasing, is_release_authorized, is_released, no_fence, fence_of,
  put_fence, undo_fence, now_text, complete_authorized_release,
}

module _ {Host : Type 0} (sys : System Host) where
  -- The entry is written; a failed write puts back what stood there.
  unfoldable pub write_or_undo :
      String → Option WriterFence → WriterFence → Action (Broker Host) (Unit {0})
  write_or_undo migration prior fence = do
    modify (put_fence migration fence)
    e ← attempt (persist_fences sys)
    match_option e (pure tt) λ message. do modify (undo_fence migration prior); raise message

  -- There is no record of a fence: a release is recorded only if every service already runs.
  unfoldable pub release_unrecorded :
      TaskEnvelope → String → List String → String → Action (Broker Host) FenceReport
  release_unrecorded task run services verified_at = do
    with_message "writer fence ownership or recovered service state is unproven"
        (verify_expected_service_states sys services services)
    write_or_undo task.migration_id none (record no_fence {
      migration_id = task.migration_id;
      run_id = run;
      services = services;
      previously_active = services;
      phase = released;
      fencing_token = task.fencing_token;
      last_verified_at = verified_at;
    })
    pure (record (blank_report services) {
      verified_at = verified_at;
      already_released = true;
      recovered_without_record = true;
    })

  unfoldable pub resume_release :
      TaskEnvelope → List String → String → WriterFence → Action (Broker Host) FenceReport
  resume_release task services verified_at fence = do
    done_fence ←
        complete_authorized_release sys
          (record fence { fencing_token = task.fencing_token; last_verified_at = verified_at })
    pure (record (blank_report services) {
      violation_count = done_fence.violation_count;
      verified_at = done_fence.last_verified_at;
      restarted = done_fence.previously_active;
      resumed_authorized = true;
    })

  unfoldable pub release_again :
      TaskEnvelope → List String → String → WriterFence → Action (Broker Host) FenceReport
  release_again task services verified_at fence = do
    check (is_released fence.phase) "released writer fence service state is unproven"
    with_message "released writer fence service state is unproven"
        (verify_expected_service_states sys services fence.previously_active)
    write_or_undo task.migration_id (some fence)
        (record fence { fencing_token = task.fencing_token; last_verified_at = verified_at })
    pure (record (blank_report services) {
      violation_count = fence.violation_count;
      verified_at = verified_at;
      already_released = true;
    })

  -- The authorization is on disk before the first inhibitor is removed.
  unfoldable pub release_active :
      TaskEnvelope → List String → WriterFence → Action (Broker Host) FenceReport
  release_active task services fence = do
    with_message "writer fence cannot be released while a scoped service is active"
        (verify_services_inactive sys services)
    now ← now_text sys
    let authorized = record fence {
      is_active = false;
      phase = release_authorized;
      fencing_token = task.fencing_token;
      last_verified_at = now;
    }
    write_or_undo task.migration_id (some fence) authorized
    done_fence ← complete_authorized_release sys authorized
    pure (record (blank_report services) {
      violation_count = done_fence.violation_count;
      verified_at = done_fence.last_verified_at;
      restarted = done_fence.previously_active;
    })

  unfoldable pub release_recorded :
      TaskEnvelope → String → List String → String → WriterFence → Action (Broker Host) FenceReport
  release_recorded task run services verified_at fence = do
    check
        (not (
          not (fence.run_id == run)
          || not (equal_strings fence.services services)
          || is_releasing fence.phase))
        "writer fence ownership or service scope is unproven"
    if fence.is_active
        then release_active task services fence
        else if is_release_authorized fence.phase
        then resume_release task services verified_at fence
        else release_again task services verified_at fence

  unfoldable pub release_writer_fence :
      TaskEnvelope → List String → Action (Broker Host) FenceReport
  release_writer_fence task services = do
    run ← broker_task_run_id task
    found ← gets (fence_of task.migration_id)
    verified_at ← now_text sys
    match_option found (release_unrecorded task run services verified_at)
        λ fence. release_recorded task run services verified_at fence

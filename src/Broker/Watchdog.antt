-- ===== src/Broker/Watchdog.antt =====
-- internal/migration/broker.go: the interval check of a fence, the watchdog that enforces the active
-- fences, the completion of authorized releases after a restart, and the attestation.
pub mod Consistent
use askio_agent.Base.{
  ℕ, zero, suc, String, Bool, true, false, not, ◌+◌, ◌*◌, ◌||◌, ◌&&◌, Option, none, some, List, [],
  ◌∷◌, ◌++◌, equal_strings, is_empty, ◌==◌, ltb, append, if◌then◌else◌,
}
use askio_agent.Base.Action.{
  Action, pure, raise, gets, modify, attempt, is_error, rethrow, check, match_option, ◌>>=◌, ◌>>◌,
}
use askio_agent.Envelope.{TaskEnvelope, broker_task_run_id}
use askio_agent.Broker.State.{Phase, activating, active, WriterFence, Broker}
use askio_agent.Broker.System.{System, stop, call, persist_fences}
use askio_agent.Broker.Services.{verify_services_inactive, activate_service_fence_inhibitors}
use askio_agent.Broker.Fence.{
  FenceReport, blank_report, is_releasing, is_release_authorized, fence_of, put_fence, now_text,
  complete_authorized_release,
}

unfoldable pub is_activating : Phase → Bool
is_activating activating = true
is_activating _ = false

unfoldable pub is_phase_active : Phase → Bool
is_phase_active active = true
is_phase_active _ = false

-- An observation that the services are inactive confirms a fence that was being applied.
unfoldable pub confirm_phase : String → WriterFence → WriterFence
confirm_phase now fence = record fence {
  phase = active;
  activated_at = if is_empty fence.activated_at then now else fence.activated_at;
}

unfoldable pub is_unknown : Option Bool → Bool
is_unknown none = true
is_unknown (some _) = false

unfoldable pub is_running : Option Bool → Bool
is_running none = false
is_running (some b) = b

-- One second, in the clock's nanoseconds.
abbrev pub second : ℕ
second = 1000000000

unfoldable pub active_fences : List (String × WriterFence) → List WriterFence
active_fences [] = []
active_fences ((k, fence) ∷ rest) =
    let others = active_fences rest in if fence.is_active then fence ∷ others else others

unfoldable pub pending_releases : List (String × WriterFence) → List WriterFence
pending_releases [] = []
pending_releases ((k, fence) ∷ rest) =
    let others = pending_releases rest in
    if not fence.is_active && is_release_authorized fence.phase then fence ∷ others else others

unfoldable pub protected_services : List (String × WriterFence) → List String
protected_services [] = []
protected_services ((k, fence) ∷ rest) =
    if fence.is_active || is_release_authorized fence.phase
    then fence.services ++ protected_services rest
    else protected_services rest

unfoldable pub count_violation : String → WriterFence → WriterFence
count_violation now fence = record fence {
  violation_count = fence.violation_count + 1;
  last_violation = now;
}

unfoldable pub count_watchdog_error : String → WriterFence → WriterFence
count_watchdog_error now fence = record fence {
  watchdog_error_count = fence.watchdog_error_count + 1;
  last_watchdog_error = now;
}

-- The entry of every active fence when systemctl cannot be found.
unfoldable pub mark_unavailable : String → List (String × WriterFence) → List (String × WriterFence)
unfolding count_violation count_watchdog_error
mark_unavailable now [] = []
mark_unavailable now ((k, fence) ∷ rest) =
    (k, if fence.is_active then count_watchdog_error now (count_violation now fence) else fence)
    ∷ mark_unavailable now rest

-- What a round found out about one fence: a violation, and an error of the watchdog itself.
pub record Findings : Type 0 where
  pub violated : Bool
  pub watchdog_error : Bool

-- The entry after a round that ended with an observation of the services.
unfoldable pub settle_round : String → Bool → Findings → WriterFence → WriterFence
unfolding count_violation count_watchdog_error confirm_phase
settle_round now inactive f current =
    let seen =
      if inactive
      then (let dated = record current { last_verified_at = now } in
          if is_activating current.phase || is_releasing current.phase
          then confirm_phase now dated
          else dated)
      else current in
    let counted = if f.violated || not inactive then count_violation now seen else seen in
    if f.watchdog_error || not inactive then count_watchdog_error now counted else counted

module _ {Host : Type 0} (sys : System Host) where
  -- Observations a second apart until the deadline; `fuel` bounds the rounds.
  unfoldable pub observe_until : ℕ → List String → ℕ → Action (Broker Host) (Unit {0})
  observe_until zero services deadline = raise "verification interval has no end"
  observe_until (suc fuel) services deadline = do
    verify_services_inactive sys services
    now ← call sys.now
    if not (ltb now deadline) then pure tt else do
      later ← call sys.now
      e ← call (sys.wait_until (if ltb (later + second) deadline then later + second else deadline))
      rethrow e
      observe_until fuel services deadline

  unfoldable pub verified_fence :
      Option WriterFence → String → List String → Action (Broker Host) WriterFence
  verified_fence none run services = raise "active writer fence scope is unproven"
  verified_fence (some fence) run services = do
    check
        (fence.run_id == run
          && fence.is_active
          && not (is_releasing fence.phase)
          && equal_strings fence.services services)
        "active writer fence scope is unproven"
    pure fence

  unfoldable pub verify_writer_fence :
      ℕ → TaskEnvelope → List String → ℕ → Action (Broker Host) FenceReport
  verify_writer_fence fuel task services interval = do
    run ← broker_task_run_id task
    started ← call sys.now
    observe_until fuel services (started + interval * second)
    found ← gets (fence_of task.migration_id)
    fence ← verified_fence found run services
    now ← now_text sys
    let dated = record (if is_activating fence.phase then confirm_phase now fence else fence) {
      last_verified_at = now;
    }
    modify (put_fence task.migration_id dated)
    persist_fences sys
    pure (record (blank_report services) {
      writer_fence_active = true;
      fencing_token = some dated.fencing_token;
      violation_count = dated.violation_count;
      verified_at = dated.last_verified_at;
    })

  -- Each service that runs, cannot be observed, or belongs to an interrupted release is stopped.
  unfoldable pub enforce : WriterFence → List String → Findings → Action (Broker Host) Findings
  enforce fence [] f = pure f
  enforce fence (service ∷ rest) f = do
    answer ← call (sys.query_active service)
    let seen = record f { watchdog_error = f.watchdog_error || is_unknown answer }
    if is_unknown answer || is_running answer || is_releasing fence.phase
        then (do
          e ← call (sys.operate stop service)
          enforce fence rest (record seen {
            violated = seen.violated || is_phase_active fence.phase;
            watchdog_error = seen.watchdog_error || is_error e;
          }))
        else enforce fence rest seen

  unfoldable pub settle_current :
      String → WriterFence → Findings → Option WriterFence → Action (Broker Host) Bool
  settle_current now fence f none = pure false
  settle_current now fence f (some current) =
      if current.is_active && equal_strings current.services fence.services
      then (do
        e ← attempt (verify_services_inactive sys current.services)
        modify (put_fence fence.migration_id (settle_round now (not (is_error e)) f current))
        written ← attempt (persist_fences sys)
        pure (f.watchdog_error || is_error e || is_error written))
      else pure false

  -- One fence's round; the answer tells whether it has to be reported.
  unfoldable pub reconcile_fence : WriterFence → Action (Broker Host) Bool
  reconcile_fence fence = do
    e ← attempt (activate_service_fence_inhibitors sys fence.services)
    f ← enforce fence fence.services (record { violated = false; watchdog_error = is_error e })
    now ← now_text sys
    found ← gets (fence_of fence.migration_id)
    settle_current now fence f found

  unfoldable pub reconcile_all : List WriterFence → Action (Broker Host) Bool
  reconcile_all [] = pure false
  reconcile_all (fence ∷ rest) = do
    failed ← reconcile_fence fence
    others ← reconcile_all rest
    pure (failed || others)

  unfoldable pub without_controller : String → Action (Broker Host) (Unit {0})
  without_controller message = do
    now ← now_text sys
    modify (λ b. record b {
      state = record b.state { writer_fences = mark_unavailable now b.state.writer_fences };
    })
    e ← attempt (persist_fences sys)
    match_option e (raise message) λ cause. raise (
        append "writer fence watchdog unavailable and failure state could not be persisted: " cause)

  unfoldable pub reconcile_writer_fences : Action (Broker Host) (Unit {0})
  reconcile_writer_fences = do
    fences ← gets (λ b. b.state.writer_fences)
    markers ← call (sys.validate_markers (protected_services fences))
    rethrow markers
    controller ← call sys.controller
    match_option controller
        (do
          failed ← reconcile_all (active_fences fences)
          check (not failed) "writer fence watchdog recorded a blocking reconciliation error")
        without_controller

  unfoldable pub complete_all : List WriterFence → Action (Broker Host) (Unit {0})
  complete_all [] = pure tt
  complete_all (fence ∷ rest) = do complete_authorized_release sys fence; complete_all rest

  unfoldable pub resume_authorized_releases : Action (Broker Host) (Unit {0})
  resume_authorized_releases = do
    controller ← call sys.controller
    rethrow controller
    fences ← gets (λ b. b.state.writer_fences)
    complete_all (pending_releases fences)

-- One round of `monitorWriterFences`.
unfoldable pub monitor_round : {Host : Type 0} → System Host → Action (Broker Host) (Unit {0})
monitor_round sys = do
  e ← attempt (reconcile_writer_fences sys)
  match_option e (do attempt (resume_authorized_releases sys); pure tt) λ _. pure tt

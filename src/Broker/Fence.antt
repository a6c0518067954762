-- ===== src/Broker/Fence.antt =====
-- internal/migration/broker.go: a writer fence is activated, released, and restored when a release
-- fails.
pub mod Invariant
pub mod Activation
pub mod Durable
pub mod Confined
use askio_agent.Base.{
  ℕ, String, Bool, true, false, not, ◌||◌, ◌&&◌, Option, none, some, List, [], ◌∷◌, lookup, insert,
  remove, any_entry, equal_strings, is_empty, ◌==◌, if◌then◌else◌,
}
use askio_agent.Base.Action.{
  Action, pure, raise, gets, modify, attempt, is_error, check, match_option, ◌>>=◌, ◌>>◌,
}
use askio_agent.Envelope.{TaskEnvelope, broker_task_run_id}
use askio_agent.Broker.State.{
  Phase, unset, activating, active, releasing, release_authorized, released, WriterFence, Broker,
}
use askio_agent.Broker.System.{System, call, persist_fences}
use askio_agent.Broker.Services.{
  intersects_services, previously_active_services, verify_services_inactive,
  verify_expected_service_states, stop_services, start_services, activate_service_fence_inhibitors,
  release_service_fence_inhibitors,
}

unfoldable pub is_releasing : Phase → Bool
is_releasing releasing = true
is_releasing _ = false

unfoldable pub is_release_authorized : Phase → Bool
is_release_authorized release_authorized = true
is_release_authorized _ = false

unfoldable pub is_released : Phase → Bool
is_released released = true
is_released _ = false

-- The zero value of the struct, which a map lookup gives for a missing key.
abbrev pub no_fence : WriterFence
no_fence = record {
  migration_id = "";
  run_id = "";
  services = [];
  previously_active = [];
  is_active = false;
  phase = unset;
  fencing_token = 0;
  activated_at = "";
  last_verified_at = "";
  violation_count = 0;
  last_violation = "";
  watchdog_error_count = 0;
  last_watchdog_error = "";
}

-- What the action functions return to the agent, as a map; its keys for services that were only observed
-- or expected are left out.
pub record FenceReport : Type 0 where
  pub writer_fence_active : Bool
  pub services : List String
  pub fencing_token : Option ℕ
  pub violation_count : ℕ
  pub verified_at : String
  pub previously_active : List String
  pub restarted : List String
  pub already_released : Bool
  pub recovered_without_record : Bool
  pub resumed_authorized : Bool

abbrev pub blank_report : List String → FenceReport
blank_report services = record {
  writer_fence_active = false;
  services = services;
  fencing_token = none;
  violation_count = 0;
  verified_at = "";
  previously_active = [];
  restarted = [];
  already_released = false;
  recovered_without_record = false;
  resumed_authorized = false;
}

module _ {Host : Type 0} where
  unfoldable pub fence_of : String → Broker Host → Option WriterFence
  fence_of migration b = lookup migration b.state.writer_fences

  unfoldable pub put_fence : String → WriterFence → Broker Host → Broker Host
  put_fence migration fence b = record b {
    state = record b.state { writer_fences = insert migration fence b.state.writer_fences };
  }

  unfoldable pub drop_fence : String → Broker Host → Broker Host
  drop_fence migration b = record b {
    state = record b.state { writer_fences = remove migration b.state.writer_fences };
  }

  -- What a failed write leaves in memory: the entry that stood there before.
  unfoldable pub undo_fence : String → Option WriterFence → Broker Host → Broker Host
  unfolding put_fence drop_fence
  undo_fence migration none b = drop_fence migration b
  undo_fence migration (some prior) b = put_fence migration prior b

unfoldable pub or_zero : Option WriterFence → WriterFence
or_zero none = no_fence
or_zero (some fence) = fence

-- Another migration holds one of the services.
unfoldable pub blocks : String → List String → String → WriterFence → Bool
blocks migration services key fence =
    not (key == migration) && fence.is_active && intersects_services fence.services services

-- The migration's own fence is active for another run or other services.
unfoldable pub is_foreign : String → List String → WriterFence → Bool
is_foreign run services prior =
    prior.is_active && (not (prior.run_id == run) || not (equal_strings prior.services services))

unfoldable pub activation_intent :
    TaskEnvelope → String → List String → List String → WriterFence → WriterFence
activation_intent task run services previously prior = record prior {
  migration_id = task.migration_id;
  run_id = run;
  services = services;
  previously_active = previously;
  is_active = true;
  phase = activating;
  fencing_token = task.fencing_token;
}

unfoldable pub confirmed : String → WriterFence → WriterFence
confirmed now intent = record intent {
  phase = active;
  activated_at = if is_empty intent.activated_at then now else intent.activated_at;
  last_verified_at = now;
}

-- The literal that replaces the entry when the confirmed fence cannot be written; it names every
-- field but `RunID`, which is empty thereby.
unfoldable pub unconfirmed : WriterFence → WriterFence
unconfirmed intent = record intent { run_id = ""; is_active = true; phase = activating }

module _ {Host : Type 0} (sys : System Host) where
  unfoldable pub now_text : Action (Broker Host) String
  now_text = do t ← call sys.now; pure (sys.format_time t)

  -- The services that ran before the fence: those on record, or those that run now.
  unfoldable pub recorded_services :
      Option WriterFence → List String → Action (Broker Host) (Option (List String))
  recorded_services none services = previously_active_services sys services
  recorded_services (some prior) services =
      if prior.is_active
      then pure (some prior.previously_active)
      else previously_active_services sys services

  unfoldable pub known : Option (List String) → Action (Broker Host) (List String)
  known none = raise "writer service state is not provable"
  known (some services) = pure services

  -- The intent is on disk before the first service is stopped; if it cannot be written the services
  -- are stopped all the same.
  unfoldable pub record_intent :
      Option WriterFence → String → List String → WriterFence → Action (Broker Host) (Unit {0})
  record_intent prior migration services intent = do
    modify (put_fence migration intent)
    e ← attempt (persist_fences sys)
    match_option e (pure tt)
        λ message. do modify (undo_fence migration prior); stop_services sys services; raise message

  unfoldable pub confirm_fence : String → WriterFence → Action (Broker Host) WriterFence
  confirm_fence migration intent = do
    now ← now_text
    let fence = confirmed now intent
    modify (put_fence migration fence)
    e ← attempt (persist_fences sys)
    match_option e (pure fence)
        λ message. do modify (put_fence migration (unconfirmed fence)); raise message

  -- What follows once the fence is known to be free for the run and its services.
  unfoldable pub apply_fence :
      TaskEnvelope → String → Option WriterFence → List String → Action (Broker Host) FenceReport
  apply_fence task run prior services = do
    observed ← recorded_services prior services
    previously ← known observed
    let intent = activation_intent task run services previously (or_zero prior)
    activate_service_fence_inhibitors sys services
    record_intent prior task.migration_id services intent
    stop_failed ← stop_services sys services
    check (not stop_failed) "writer fence activation is incomplete"
    verify_services_inactive sys services
    fence ← confirm_fence task.migration_id intent
    pure (record (blank_report services) {
      writer_fence_active = true;
      fencing_token = some fence.fencing_token;
      verified_at = fence.last_verified_at;
      violation_count = fence.violation_count;
      previously_active = previously;
    })

  unfoldable pub activate_writer_fence :
      TaskEnvelope → List String → Action (Broker Host) FenceReport
  activate_writer_fence task services = do
    run ← broker_task_run_id task
    prior ← gets (fence_of task.migration_id)
    fences ← gets (λ b. b.state.writer_fences)
    check (not (any_entry (blocks task.migration_id services) fences))
        "writer service is already fenced by another migration"
    check (not (is_foreign run services (or_zero prior)))
        "writer fence ownership or service scope is unproven"
    apply_fence task run prior services

  unfoldable pub restore_active_writer_fence : WriterFence → Action (Broker Host) (Unit {0})
  restore_active_writer_fence fence = do
    attempt (activate_service_fence_inhibitors sys fence.services)
    stop_services sys fence.services
    now ← now_text
    e ← attempt (verify_services_inactive sys fence.services)
    let restored = record fence { is_active = true; phase = active }
    modify (
        put_fence fence.migration_id
          (if is_error e then restored else record restored { last_verified_at = now }))
    attempt (persist_fences sys)
    pure tt

  -- Whether the restart of the services failed.
  unfoldable pub restart : WriterFence → Action (Broker Host) Bool
  restart authorized = do
    failed ← start_services sys authorized.previously_active
    if failed then pure true else do
      e ←
          attempt
            (verify_expected_service_states sys authorized.services authorized.previously_active)
      match_option e (pure false) λ _. pure true

  unfoldable pub give_back : WriterFence → String → Action (Broker Host) WriterFence
  give_back authorized message = do restore_active_writer_fence authorized; raise message

  unfoldable pub record_release : WriterFence → Action (Broker Host) WriterFence
  record_release authorized = do
    now ← now_text
    let fence = record authorized { is_active = false; phase = released; last_verified_at = now }
    modify (put_fence authorized.migration_id fence)
    e ← attempt (persist_fences sys)
    match_option e (pure fence) λ message. do
      modify (put_fence authorized.migration_id authorized)
      give_back authorized message

  unfoldable pub complete_authorized_release : WriterFence → Action (Broker Host) WriterFence
  complete_authorized_release authorized = do
    check (not authorized.is_active && is_release_authorized authorized.phase)
        "writer fence release authorization is invalid"
    e ← attempt (release_service_fence_inhibitors sys authorized.services)
    match_option e
        (do
          failed ← restart authorized
          if failed
              then give_back authorized "writer fence release failed and was rolled back"
              else record_release authorized)
        λ _. give_back authorized "writer fence inhibitor release failed and was rolled back"

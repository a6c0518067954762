-- ===== src/Broker/Examples.antt =====
-- The theorems on internal/migration/broker.go at a small host.
use askio_agent.Broker.System.{unwritten}
use askio_agent.Broker.State.{release_authorized, WriterFence}
use askio_agent.Base.Action.{fail}
use askio_agent.Base.{
  ℕ, suc, ◌≡◌, refl, String, false, none, some, List, [], ◌∷◌, lookup, mem_string, any_entry,
  insert, remove, equal_codes, equal_fold, equal_strings, lower, decimal, codes, arith, ◌≤◌,
}
use askio_agent.Base.Strings.{digits}
use askio_agent.Base.Action.{Outcome, done, fail, final, ◌>>=◌}
use askio_agent.Envelope.{TaskEnvelope, end_fields, broker_task_run_id}
use askio_agent.Broker.State.{BrokerState, Broker}
use askio_agent.Broker.System.{System, missing, written, call, persist_fences}
use askio_agent.Broker.Services.{
  remove_markers, same_bool, release_service_fence_inhibitors, start_services,
  verify_expected_service_states, previously_active_services, activate_service_fence_inhibitors,
  verify_drop_ins, place_markers, place_marker, folds_into, intersects_services, is_active,
  stop_services, verify_services_inactive,
}
use askio_agent.Broker.Admission.{accept_fence, fence_key}
use askio_agent.Broker.Admission.Tokens.{recorded, accept_fence_monotone, accept_fence_accepted}
use askio_agent.Broker.Admission.Replay.{restart, run, RefusedAsConsumed, accepted_once}
use askio_agent.Broker.Fence.{
  FenceReport, blank_report, no_fence, fence_of, unconfirmed, activate_writer_fence, is_foreign,
  or_zero, apply_fence, recorded_services, known, record_intent, activation_intent, blocks,
  confirm_fence, confirmed, drop_fence, now_text, put_fence, undo_fence, is_releasing,
  complete_authorized_release, is_release_authorized, restart as restart_services, record_release,
}
use askio_agent.Broker.Fence.Invariant.{IsConsistent}
use askio_agent.Broker.Fence.Activation.{activate_writer_fence-IsConsistent}
use askio_agent.Broker.Fence.Durable.{IsHeld, IsGivenUp, activate_writer_fence-IsHeld}
use askio_agent.Broker.Release.{resume_release, release_writer_fence, release_recorded}
use askio_agent.Broker.Watchdog.{reconcile_writer_fences}
use askio_agent.Broker.Watchdog.Consistent.{reconcile_writer_fences-IsConsistent}
use askio_agent.Broker.Release.Durable.{IsFiled, release_writer_fence-IsGivenUp}
use askio_agent.Broker.Release.Orphan.{
  FailsQuietly, activate_writer_fence-unconfirmed, release_writer_fence-unconfirmed,
}

-- A host whose only state is its clock; every call succeeds, and no service runs.
abbrev calm : System ℕ
calm = record {
  now = λ t. (t, suc t);
  format_time = decimal;
  parse_time = λ s. digits 0 (codes s);
  controller = λ t. (none, t);
  operate = λ v s t. (none, t);
  query_active = λ s t. (some false, t);
  verify_drop_in = λ s t. (none, t);
  prepare_marker_root = λ t. (none, t);
  stat_marker = λ s t. (missing, t);
  write_marker = λ s t. (none, t);
  remove_marker = λ s t. (none, t);
  sync_marker_root = λ t. (none, t);
  validate_markers = λ ss t. (none, t);
  lifecycle_lock = λ t. (none, t);
  write_state = λ s t. (written, t);
  wait_until = λ d t. (none, t);
}

abbrev task : TaskEnvelope
task = record {
  schema_version = "1";
  key_id = "key";
  algorithm = "ed25519";
  audience = "broker";
  agent_id = "agent";
  endpoint_id = "endpoint";
  migration_id = "m1";
  run_id = some "r1";
  run_step_id = some "s1";
  attempt_id = "a1";
  attempt_token = "t1";
  fencing_token = 5;
  plan_digest = none;
  subject_digest = "d";
  primitive = record { id = "migration.host.fence-writers.v1"; version = "1" };
  resource_scope = end_fields;
  inputs = end_fields;
  issued_at = "1";
  expires_at = "9";
  nonce = "n1";
  signature = "s";
}

abbrev blank_state : BrokerState
blank_state = record { fences = []; writer_fences = []; seen_nonces = []; seen_nonce_expiries = [] }

abbrev broker : Broker ℕ
broker = record { state = blank_state; disk = blank_state; host = 1 }

abbrev services : List String
services = "nginx.service" ∷ []

no_fences-IsConsistent : IsConsistent []
unfolding lookup
no_fences-IsConsistent = record { sound = λ k f e. cc; exclusive = λ k j f g apart e h p q. cc }

activate_writer_fence-IsConsistent_example :
    IsConsistent (final (activate_writer_fence calm task services broker)).state.writer_fences
activate_writer_fence-IsConsistent_example =
    activate_writer_fence-IsConsistent calm task services broker no_fences-IsConsistent

accept_fence_monotone_example :
    recorded (fence_key task) broker
    ≤ recorded (fence_key task) (final (accept_fence calm task broker))
accept_fence_monotone_example = accept_fence_monotone calm task (fence_key task) broker

accepted : accept_fence calm task broker ≡ done tt (final (accept_fence calm task broker))
unfolding accept_fence persist_fences call ◌>>=◌ digits decimal mem_string lookup
accepted = refl

accept_fence_accepted_example :
    (recorded (fence_key task) broker ≤ 5)
    × (recorded (fence_key task) (final (accept_fence calm task broker)) ≡ 5)
    × ((final (accept_fence calm task broker)).disk ≡ (final (accept_fence calm task broker)).state)
accept_fence_accepted_example =
    accept_fence_accepted calm task broker (final (accept_fence calm task broker)) accepted

accepted_once_example :
    RefusedAsConsumed calm
      (record (run calm (restart ∷ []) (final (accept_fence calm task broker))) { host = 2 })
      task
unfolding digits decimal
accepted_once_example =
    accepted_once calm task task 9 broker (final (accept_fence calm task broker)) (restart ∷ []) 2
      refl refl accepted (tt, tt) refl (ground arith)

abbrev value_of : {S A : Type 0} → A → Outcome S A → A
value_of default (done a s) = a
value_of default (fail e s) = default

abbrev fenced : Broker ℕ
fenced = final (activate_writer_fence calm task services broker)

abbrev fenced_report : FenceReport
fenced_report = value_of (blank_report []) (activate_writer_fence calm task services broker)

named : (b : Broker ℕ) → broker_task_run_id task b ≡ done "r1" b
unfolding broker_task_run_id ◌>>=◌
named b = refl

activated : activate_writer_fence calm task services broker ≡ done fenced_report fenced
unfolding activate_writer_fence ◌>>=◌ broker_task_run_id any_entry is_foreign or_zero fence_of
    lookup apply_fence recorded_services previously_active_services call known
    activate_service_fence_inhibitors verify_drop_ins place_markers place_marker record_intent
    persist_fences insert remove equal_codes equal_fold equal_strings lower activation_intent blocks
    confirm_fence confirmed drop_fence now_text put_fence unconfirmed undo_fence folds_into
    intersects_services is_active stop_services verify_services_inactive decimal
activated = refl

activate_writer_fence-IsHeld_example : IsHeld "m1" "r1" services fenced
activate_writer_fence-IsHeld_example =
    activate_writer_fence-IsHeld calm task services "r1" fenced_report broker fenced (named broker)
      activated

-- A host whose disk is full.
abbrev full_disk : System ℕ
full_disk = record calm { write_state = λ s t. (unwritten "no space", t) }

abbrev intent : WriterFence
intent = activation_intent task "r1" services [] no_fence

-- The broker after a confirmation that could not be written.
abbrev orphaned : Broker ℕ
orphaned = final (confirm_fence full_disk "m1" intent broker)

unwritten_confirmation : confirm_fence full_disk "m1" intent broker ≡ fail "no space" orphaned
unfolding confirm_fence ◌>>=◌ now_text call persist_fences put_fence
unwritten_confirmation = refl

activate_writer_fence-unconfirmed_example :
    FailsQuietly orphaned (activate_writer_fence full_disk task services orphaned)
activate_writer_fence-unconfirmed_example =
    activate_writer_fence-unconfirmed full_disk task "r1" services intent broker orphaned "no space"
      unwritten_confirmation (named orphaned) (λ p. cc)

release_writer_fence-unconfirmed_example :
    FailsQuietly orphaned (release_writer_fence full_disk task services orphaned)
release_writer_fence-unconfirmed_example =
    release_writer_fence-unconfirmed full_disk task "r1" services intent broker orphaned "no space"
      unwritten_confirmation (named orphaned) (λ p. cc)

fenced-IsConsistent : IsConsistent fenced.state.writer_fences
fenced-IsConsistent = activate_writer_fence-IsConsistent_example

-- What a crash in the middle of a release has left.
abbrev interrupted : WriterFence
interrupted = record no_fence {
  migration_id = "m1";
  run_id = "r1";
  services = services;
  phase = release_authorized;
}

abbrev crashed : Broker ℕ
crashed = record broker { state = record blank_state { writer_fences = ("m1", interrupted) ∷ [] } }

abbrev given_up : Outcome (Broker ℕ) FenceReport
given_up = release_writer_fence calm task services crashed

resumed_now :
    release_writer_fence calm task services crashed
    ≡ done (value_of (blank_report []) given_up) (final given_up)
unfolding ◌>>=◌ broker_task_run_id fence_of lookup call persist_fences insert equal_codes
    equal_strings put_fence now_text decimal release_writer_fence release_recorded is_releasing
    resume_release complete_authorized_release is_release_authorized
    release_service_fence_inhibitors restart_services start_services verify_expected_service_states
    record_release remove_markers same_bool mem_string is_active
resumed_now = refl

crashed-IsFiled : IsFiled "m1" crashed
unfolding lookup
crashed-IsFiled fence p = cc

release_writer_fence-IsGivenUp_example : IsGivenUp "m1" (final given_up)
release_writer_fence-IsGivenUp_example =
    release_writer_fence-IsGivenUp calm task services (value_of (blank_report []) given_up) crashed
      (final given_up) crashed-IsFiled resumed_now

reconcile_writer_fences-IsConsistent_example :
    IsConsistent (final (reconcile_writer_fences calm fenced)).state.writer_fences
reconcile_writer_fences-IsConsistent_example =
    reconcile_writer_fences-IsConsistent calm fenced fenced-IsConsistent

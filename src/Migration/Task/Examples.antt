-- ===== src/Migration/Task/Examples.antt =====
-- The task runner on one envelope: witnesses and runs.
use askio_agent.Base.{
  codes, ℕ, String, true, false, [], ◌∷◌, Option, none, some, ◌≡◌, ◌≢◌, refl, mem_string, lookup,
  insert, inl, arith,
}
use askio_agent.Base.Action.{done, final, Ensures, ◌>>=◌, check, pure, raise, with_message}
use askio_agent.Envelope.{get_field, field, Json, end_fields, TaskEnvelope, task_inputs}
use askio_agent.Base.Strings.{begins_with, has_suffix}
use askio_agent.Migration.Canonical.{Codec, canonical_json, digest, trim_newline}
use askio_agent.Migration.Task.{
  PrimitiveResult, pause_requested, Runner, Reply, answered, broken, Execution, finished, reports,
  heartbeat, Backend, Signatures, Identity, ask, save_state, route_task_result, state_schema,
  load_state, nonce_of, post_signed,
}
use askio_agent.Migration.Task.Envelopes.{same_text, verify_envelope, verify_signed_task_envelope}
use askio_agent.Migration.Task.Reports.{run_execution}
use askio_agent.Migration.Task.Rounds.{
  idle, failure, is_fenced_off, pending_body, accept_task, run_once,
}
use askio_agent.Migration.Task.Sound.{IsSound, Inv}
use askio_agent.Migration.Task.Consistent.{run_once-IsSound}
use askio_agent.Migration.Task.Secrets.{
  hkdf_sha256_single_block, check_secret, x25519_key, is_addressed, unseal, SealedSecret, Vault,
  resolve_binding,
}
use askio_agent.Migration.Task.Secrets.Delivered.{
  IsDelivered, resolve_binding-IsDelivered, resolve_binding-refused,
}
use askio_agent.Migration.Task.Bindings.{
  purpose_for, database_family, text_at, expected_binding_purpose,
}
use askio_agent.Migration.Task.Lease.{IsStopped, run_execution-IsStopped}
use askio_agent.Migration.Task.Delivery.{IsPosted, IsReachable, run_once-Delivered}
use askio_agent.Migration.Task.Delivery.Waiting.{
  IsUnreachable, IsUnchanged, rounds, rounds-IsUnchanged,
}
use askio_agent.Migration.Task.Accepted.{accept_task-once}
use askio_agent.Migration.Task.Accepted.Authentic.{
  IsAuthentic, verify_signed_task_envelope-IsAuthentic,
}

abbrev codec : Codec
codec = record {
  encode = λ v. some "document";
  decode = λ text. some Json.null;
  sha256_hex = λ text. text;
}

abbrev keys : Signatures
keys = record { decode_base64 = λ s. some s; verify = λ text signature. true; sign = λ text. text }

abbrev me : Identity
me = record { agent_id = "target"; signing_key_id = "key"; backend_key_id = "backend" }

abbrev task : TaskEnvelope
task = record {
  schema_version = "operations.migration.task.v1";
  key_id = "backend";
  algorithm = "ed25519-v1";
  audience = "askio-monitor";
  agent_id = "target";
  endpoint_id = "endpoint";
  migration_id = "migration";
  run_id = some "run";
  run_step_id = some "step";
  attempt_id = "attempt";
  attempt_token = "0123456789abcdef0123456789abcdef";
  fencing_token = 3;
  plan_digest = none;
  subject_digest = "sha256:document";
  primitive = record { id = "migration.files.sync.v1"; version = "1" };
  resource_scope = end_fields;
  inputs = end_fields;
  issued_at = "early";
  expires_at = "late";
  nonce = "nonce";
  signature = "signature";
}

abbrev succeeded : PrimitiveResult
succeeded = record {
  state = "succeeded";
  outputs = none;
  evidence_digests = none;
  checkpoint = none;
  error = none;
}

abbrev time_of : String → Option ℕ
time_of s = some 100

abbrev reports_twice : Execution (Unit {0})
reports_twice = reports "copying" 1 none (λ e. heartbeat (finished succeeded))

-- The clock shows 90, and every time is read as 100.
abbrev backend : Reply → Backend (Unit {0})
backend reply = record {
  now = λ h. (90, h);
  parse_time = time_of;
  now_text = λ h. ("now", h);
  random_nonce = λ h. (some "random", h);
  post = λ route body h. (reply, h);
  write_state = λ s h. (none, h);
  supports = λ p. true;
  run_primitive = λ t h. reports_twice;
  activity = none;
}

abbrev claimed : Reply
claimed =
    answered (record { status = 200; task = some task; control = ""; cancel_requested = false })

abbrev lost : Reply
lost = broken "no route"

abbrev fresh : Runner (Unit {0})
fresh = record {
  state = record {
    schema_version = state_schema;
    accepted_digest = "";
    active_attempt_id = "";
    active_primitive = "";
    current_phase = "";
    progress_sequence = 0;
    pending_route = "";
    pending_result_body = none;
    seen_nonces = [];
    seen_nonce_expiries = [];
  };
  disk = none;
  progress = record {
    last_phase = "";
    last_completed = 0;
    last_total = none;
    progress_error = none;
  };
  host = tt;
}

abbrev waiting : Runner (Unit {0})
waiting = record fresh {
  state = record fresh.state {
    active_attempt_id = "attempt";
    current_phase = "result_pending";
    pending_route = route_task_result;
    pending_result_body = some end_fields;
  };
}

abbrev halted : Runner (Unit {0})
halted = record fresh { progress = record fresh.progress { progress_error = some pause_requested } }

fresh-Inv : Inv IsSound fresh
fresh-Inv = record {
  now = inl (record { schema = refl; no_route = refl; no_body = refl });
  durable = tt;
}

run_once-IsSound_example : Inv IsSound (final (run_once (backend claimed) codec keys me fresh))
run_once-IsSound_example = run_once-IsSound (backend claimed) codec keys me fresh fresh-Inv

some_apart : {A : Type 0} (x : A) → some x ≢ none
some_apart x same = absurd cc

lost-IsUnreachable : IsUnreachable (backend lost)
unfolding failure is_fenced_off
lost-IsUnreachable = record {
  no_answer = λ route body h. some_apart "no route";
  no_fence = λ route body h. refl;
}

rounds-IsUnchanged_example :
    IsUnchanged waiting.state waiting.disk (rounds (backend lost) codec keys me 5 waiting)
unfolding pending_body
rounds-IsUnchanged_example =
    rounds-IsUnchanged (backend lost) codec keys me 5 end_fields waiting lost-IsUnreachable refl

encoded : canonical_json codec Json.null ≡ some "document"
unfolding canonical_json trim_newline
encoded = refl

claimed-IsReachable : IsReachable (backend claimed) codec
unfolding failure canonical_json trim_newline
claimed-IsReachable = record {
  answers = λ route body h. refl;
  writes = λ s h. refl;
  draws = λ h. some_apart "random";
  encodes = λ v. some_apart "document";
}

run_once-Delivered_example :
    Ensures
      (λ h t.
        (h ≡ record { handled = true; error = none })
        × IsUnchanged (idle waiting.state) (some (idle waiting.state)) t
        × IsPosted (backend claimed) codec keys me waiting.state.pending_route end_fields waiting t)
      (λ _ _. ⊥)
      (run_once (backend claimed) codec keys me waiting)
unfolding pending_body
run_once-Delivered_example =
    run_once-Delivered (backend claimed) codec keys me end_fields waiting claimed-IsReachable refl

run_execution-IsStopped_example :
    IsStopped halted.state halted.disk halted.progress pause_requested
      (final (run_execution (backend claimed) codec keys me task reports_twice halted))
run_execution-IsStopped_example =
    run_execution-IsStopped (backend claimed) codec keys me task reports_twice halted
      pause_requested refl

signed :
    verify_signed_task_envelope (backend claimed) codec keys me task fresh
    ≡ done "sha256:document" fresh
unfolding verify_signed_task_envelope ◌>>=◌ ask digest trim_newline
signed = refl

verify_signed_task_envelope-IsAuthentic_example :
    IsAuthentic (backend claimed) codec keys me task 90
verify_signed_task_envelope-IsAuthentic_example =
    verify_signed_task_envelope-IsAuthentic (backend claimed) codec keys me task fresh fresh
      "sha256:document" signed

abbrev accepted_runner : Runner (Unit {0})
accepted_runner = record fresh {
  state = record fresh.state {
    accepted_digest = "sha256:document";
    active_attempt_id = "attempt";
    active_primitive = "migration.files.sync.v1";
    current_phase = "accepted";
    seen_nonce_expiries = ("nonce", "late") ∷ [];
  };
  disk = some (record fresh.state {
    accepted_digest = "sha256:document";
    active_attempt_id = "attempt";
    active_primitive = "migration.files.sync.v1";
    current_phase = "accepted";
    seen_nonce_expiries = ("nonce", "late") ∷ [];
  });
}

abbrev restarted : Runner (Unit {0})
restarted = record fresh { disk = accepted_runner.disk }

accepted_once_more :
    accept_task (backend claimed) codec keys me task fresh ≡ done "sha256:document" accepted_runner
unfolding accept_task ◌>>=◌ verify_envelope verify_signed_task_envelope ask digest trim_newline
    mem_string lookup save_state insert
accepted_once_more = refl

loaded : load_state restarted ≡ done tt accepted_runner
unfolding load_state ◌>>=◌
loaded = refl

accept_task-once_example :
    accept_task (backend claimed) codec keys me task accepted_runner
    ≢ done "sha256:document" accepted_runner
accept_task-once_example =
    accept_task-once (backend claimed) codec keys me task fresh accepted_runner accepted_runner
      accepted_runner "sha256:document" "sha256:document" restarted 100 accepted_once_more refl
      loaded refl (λ h. ground arith)

abbrev copying_task : TaskEnvelope
copying_task = record task {
  inputs =
      field "endpoint_role" (Json.text "target")
        (field "transfer_binding_id" (Json.text "binding") end_fields);
}

abbrev sealed_secret : SealedSecret
sealed_secret = record {
  secret_schema = "operations.migration.sealed-secret.v1";
  binding_id = "binding";
  purpose = "transfer.source-address";
  attempt_id = "attempt";
  agent_id = "target";
  agent_key_id = "encryption-key";
  delivery_nonce = "random";
  expires_at = "late";
  algorithm = "x25519-hkdf-sha256-aes-256-gcm-v1";
  ephemeral_public_pem = "";
  nonce = "twelve bytes";
  ciphertext = "";
  auth_tag = "sixteen bytes ok";
}

abbrev vault : Vault
vault = record {
  has_key = true;
  encryption_key_id = "encryption-key";
  utf8 = λ text. codes text;
  parse_public_key = λ text. x25519_key "ephemeral";
  agree = λ key. some (7 ∷ []);
  hmac = λ key message. message;
  decode_base64 = λ text. some (codes text);
  gcm_open = λ key nonce sealed aad. some (1 ∷ 2 ∷ []);
  decode_secret = λ a. (sealed_secret, "sha256:document");
}

resolved :
    resolve_binding (backend claimed) codec keys me vault copying_task "binding" fresh
    ≡ done (1 ∷ 2 ∷ []) fresh
unfolding resolve_binding ◌>>=◌ ask nonce_of post_signed canonical_json check_secret same_text
    digest trim_newline is_addressed hkdf_sha256_single_block with_message expected_binding_purpose
    purpose_for text_at get_field task_inputs unseal check pure raise begins_with has_suffix
    database_family
resolved = refl

resolve_binding-IsDelivered_example :
    IsDelivered (backend claimed) codec me vault copying_task "binding" (1 ∷ 2 ∷ [])
resolve_binding-IsDelivered_example =
    resolve_binding-IsDelivered (backend claimed) codec keys me vault copying_task "binding" fresh
      fresh (1 ∷ 2 ∷ []) resolved

-- The same task at an endpoint of another role.
abbrev idle_task : TaskEnvelope
idle_task = record task {
  inputs =
      field "endpoint_role" (Json.text "observer")
        (field "transfer_binding_id" (Json.text "binding") end_fields);
}

resolve_binding-refused_example :
    Ensures
      (λ _ _. ⊥)
      (λ _ _. Unit {0})
      (resolve_binding (backend claimed) codec keys me vault idle_task "binding" fresh)
unfolding text_at get_field
resolve_binding-refused_example =
    resolve_binding-refused (backend claimed) codec keys me vault idle_task "binding" fresh refl
      refl

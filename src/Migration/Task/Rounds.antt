-- ===== src/Migration/Task/Rounds.antt =====
-- internal/migration/task.go: one round of the runner, from a pending result to a new one.
use askio_agent.Base.{
  String, Bool, true, false, ◌||◌, ◌&&◌, List, [], ◌∷◌, Option, none, some, if◌then◌else◌, is_empty,
  insert, eqb,
}
use askio_agent.Base.Strings.{contains}
use askio_agent.Base.Action.{
  Action, pure, raise, gets, attempt, modify, match_option, ◌>>=◌, ◌>>◌, Outcome, done, fail,
}
use askio_agent.Envelope.{Json, Items, item, end_items, Fields, field, end_fields, TaskEnvelope}
use askio_agent.Migration.Canonical.{Codec, digest}
use askio_agent.Migration.Task.{
  SafeError, PrimitiveResult, PersistentState, TaskError, other, Runner, Answer, Reply, answered,
  status_error, broken, Backend, Signatures, Identity, route_task_claim, route_task_result,
  set_field, change, save_state, post_signed,
}
use askio_agent.Migration.Task.Envelopes.{verify_envelope}
use askio_agent.Migration.Task.Reports.{
  controlled_result, normalize_result, result_after, report_progress, run_execution,
}

-- `(bool, error)`.
pub record Handled : Type 0 where
  pub handled : Bool
  pub error : Option String

-- The state after a result was taken, and after its attempt was fenced off.
unfoldable pub idle : PersistentState → PersistentState
idle s = record s {
  pending_route = "";
  pending_result_body = none;
  active_attempt_id = "";
  active_primitive = "";
  current_phase = "idle";
  progress_sequence = 0;
}

unfoldable pub fenced_state : PersistentState → PersistentState
fenced_state s = record s {
  pending_route = "";
  pending_result_body = none;
  active_attempt_id = "";
  active_primitive = "";
  current_phase = "fenced";
}

unfoldable pub accepted_state : String → TaskEnvelope → PersistentState → PersistentState
accepted_state d task s = record s {
  accepted_digest = d;
  active_attempt_id = task.attempt_id;
  active_primitive = task.primitive.id;
  current_phase = "accepted";
  progress_sequence = 0;
  seen_nonce_expiries = insert task.nonce task.expires_at s.seen_nonce_expiries;
}

texts : List String → Items
texts [] = end_items
texts (s ∷ rest) = item (Json.text s) (texts rest)

fields_or_null : Option Fields → Json
fields_or_null none = Json.null
fields_or_null (some fs) = Json.object fs

error_or_null : Option SafeError → Json
error_or_null none = Json.null
error_or_null (some e) = Json.object (
    field "code" (Json.text e.error_code) (
      field "safe_message" (Json.text e.safe_message)
        (field "retryable" (Json.bool e.retryable) end_fields)))

digests_or_null : Option (List String) → Json
unfolding texts
digests_or_null none = Json.null
digests_or_null (some ds) = Json.array (texts ds)

unfoldable pub result_material : TaskEnvelope → PrimitiveResult → Fields
unfolding fields_or_null error_or_null digests_or_null
result_material task result = field "attempt_id" (Json.text task.attempt_id) (
    field "fencing_token" (Json.whole task.fencing_token) (
      field "state" (Json.text result.state) (
        field "outputs" (fields_or_null result.outputs) (
          field "evidence_digests" (digests_or_null result.evidence_digests) (
            field "checkpoint" (fields_or_null result.checkpoint)
              (field "error" (error_or_null result.error) end_fields))))))

unfoldable pub result_body : TaskEnvelope → PrimitiveResult → String → Fields
unfolding set_field result_material
result_body task result d =
    set_field "result_digest" (Json.text d)
      (set_field "attempt_token" (Json.text task.attempt_token) (result_material task result))

unfoldable pub result_pending : Fields → PersistentState → PersistentState
result_pending body s = record s {
  pending_route = route_task_result;
  pending_result_body = some body;
  current_phase = "result_pending";
}

-- `statusError.StatusCode == 409 && strings.Contains(statusError.Body, ...)`.
unfoldable pub is_fenced_off : Reply → Bool
unfolding contains
is_fenced_off (status_error code text) = eqb code 409 && contains text "MIGRATION_ATTEMPT_FENCED"
is_fenced_off _ = false

unfoldable pub failure : Reply → Option String
failure (answered a) = none
failure (status_error code text) = some text
failure (broken e) = some e

unfoldable pub pending_body : PersistentState → Option Fields
pending_body s = if is_empty s.pending_route then none else s.pending_result_body

-- The last report is made unless an earlier one failed; its own loss does not change the result.
unfoldable pub finalized : String → PrimitiveResult → Option TaskError → PrimitiveResult
unfolding controlled_result
finalized d result none = result
finalized d result (some (other e)) = result
finalized d result (some control) = controlled_result control "finalizing_result" d

unfoldable pub claimed_task : Answer → Option TaskEnvelope
claimed_task a = if eqb a.status 204 then none else a.task

-- `handled || err != nil`.
unfoldable pub is_final : Handled → Bool
is_final h = h.handled || failed h.error
  where
    failed : Option String → Bool
    failed none = false
    failed (some _) = true

module _ {Host : Type 0} (b : Backend Host) (codec : Codec) (keys : Signatures)
    (me : Identity) where
  -- `return true, r.saveState()`.
  unfoldable pub save_and_return : Action (Runner Host) Handled
  save_and_return = do e ← attempt (save_state b); pure (record { handled = true; error = e })

  unfoldable pub settle_flush : Reply → Action (Runner Host) Handled
  unfolding save_and_return failure is_fenced_off
  settle_flush reply = match_option (failure reply) (change idle >> save_and_return) λ e.
      if is_fenced_off reply
      then change fenced_state >> save_and_return
      else pure (record { handled = true; error = some e })

  unfoldable pub flush_pending : Action (Runner Host) Handled
  unfolding settle_flush pending_body
  flush_pending = do
    s ← gets (λ r. r.state)
    match_option (pending_body s) (pure (record { handled = false; error = none }))
        λ body. do reply ← post_signed b codec keys me s.pending_route body; settle_flush reply

  unfoldable pub body_with :
      TaskEnvelope → PrimitiveResult → Option String → Action (Runner Host) Fields
  unfolding result_body
  body_with task result none = raise "digest"
  body_with task result (some d) = pure (result_body task result d)

  unfoldable pub settle_post : Reply → Action (Runner Host) (Unit {0})
  unfolding failure
  settle_post reply = match_option (failure reply) (change idle >> save_state b) λ e. raise e

  unfoldable pub persist_and_post_result :
      TaskEnvelope → PrimitiveResult → Action (Runner Host) (Unit {0})
  unfolding body_with settle_post
  persist_and_post_result task result = do
    body ← body_with task result (digest codec (Json.object (result_material task result)))
    change (result_pending body)
    save_state b
    reply ← post_signed b codec keys me route_task_result body
    settle_post reply

  -- `return true, r.persistAndPostResult(...)`.
  unfoldable pub post_and_return : TaskEnvelope → PrimitiveResult → Action (Runner Host) Handled
  post_and_return task result = do
    e ← attempt (persist_and_post_result task result)
    pure (record { handled = true; error = e })

  unfoldable pub start_failed : TaskEnvelope → String → TaskError → Action (Runner Host) Handled
  unfolding post_and_return controlled_result
  start_failed task d (other e) = pure (record { handled = true; error = some e })
  start_failed task d control = post_and_return task (controlled_result control "starting" d)

  unfoldable pub finalizing :
      TaskEnvelope → Option TaskError → Action (Runner Host) (Option TaskError)
  finalizing task none = report_progress b codec keys me task "finalizing_result" 1 (some 1)
  finalizing task (some e) = pure none

  unfoldable pub execute_task : TaskEnvelope → String → Action (Runner Host) Handled
  unfolding normalize_result result_after post_and_return finalized finalizing
  execute_task task d = do
    host ← gets (λ r. r.host)
    own ← run_execution b codec keys me task (b.run_primitive task host)
    p ← gets (λ r. r.progress)
    last ← finalizing task p.progress_error
    post_and_return task (finalized d (result_after p d (normalize_result own)) last)

  unfoldable pub notify : Bool → Action (Runner Host) (Unit {0})
  notify on =
      match_option b.activity (pure tt) λ hook. modify (λ r. record r { host = hook on r.host })

  -- The variables of the round, the first report, the primitive and its result.
  unfoldable pub run_task : TaskEnvelope → String → Action (Runner Host) Handled
  unfolding start_failed
  run_task task d = do
    modify (λ r. record r {
      progress = record {
        last_phase = "starting";
        last_completed = 0;
        last_total = none;
        progress_error = none;
      };
    })
    e ← report_progress b codec keys me task "starting" 0 none
    match_option e (execute_task task d) λ x. start_failed task d x

  unfoldable pub accept_task : TaskEnvelope → Action (Runner Host) String
  unfolding accepted_state
  accept_task task = do
    d ← verify_envelope b codec keys me task
    change (accepted_state d task)
    save_state b
    pure d

  -- An accepted task runs between two calls of the activity hook.
  unfoldable pub hooked_task : TaskEnvelope → String → Action (Runner Host) Handled
  unfolding notify
  hooked_task task d = do notify true; outcome ← run_task task d; notify false; pure outcome

  unfoldable pub accepted_or_not :
      TaskEnvelope → Outcome (Runner Host) String → Outcome (Runner Host) Handled
  unfolding hooked_task
  accepted_or_not task (done d r) = hooked_task task d r
  accepted_or_not task (fail e r) = done (record { handled = true; error = some e }) r

  unfoldable pub handle_claim : Reply → Action (Runner Host) Handled
  unfolding accepted_or_not claimed_task
  handle_claim (answered a) =
      match_option (claimed_task a) (pure (record { handled = false; error = none }))
        λ task. λ r. accepted_or_not task (accept_task task r)
  handle_claim (status_error code text) = pure (record { handled = false; error = some text })
  handle_claim (broken e) = pure (record { handled = false; error = some e })

  unfoldable pub run_once : Action (Runner Host) Handled
  run_once = do
    flushed ← flush_pending
    if is_final flushed
        then pure flushed
        else do reply ← post_signed b codec keys me route_task_claim end_fields; handle_claim reply

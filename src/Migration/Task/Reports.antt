-- ===== src/Migration/Task/Reports.antt =====
-- internal/migration/task.go: progress reports, the lease heartbeat, and the result they settle.
use askio_agent.Base.{
  ℕ, suc, String, Bool, List, [], Option, none, some, if◌then◌else◌, is_empty, ◌==◌,
}
use askio_agent.Base.Action.{Action, pure, gets, attempt, modify, match_option, ◌>>=◌, ◌>>◌}
use askio_agent.Envelope.{Json, Fields, field, end_fields, TaskEnvelope}
use askio_agent.Migration.Canonical.{Codec}
use askio_agent.Migration.Task.{
  PrimitiveResult, TaskError, pause_requested, cancel_requested, other, TaskProgress, Runner, Reply,
  answered, status_error, broken, Execution, finished, reports, heartbeat, works, Backend,
  Signatures, Identity, route_task_progress, change, save_state, post_signed,
}

-- `response.Control`, and the older flag that it replaces.
unfoldable pub control_error : String → Bool → Option TaskError
control_error control cancelled =
    if control == "pause"
    then some pause_requested
    else if control == "cancel_safe"
    then some cancel_requested
    else if is_empty control
    then (if cancelled then some pause_requested else none)
    else some (other "migration task control response is invalid")

unfoldable pub reply_error : Reply → Option TaskError
unfolding control_error
reply_error (answered a) = control_error a.control a.cancel_requested
reply_error (status_error code text) = some (other text)
reply_error (broken e) = some (other e)

number_or_null : Option ℕ → Json
number_or_null none = Json.null
number_or_null (some n) = Json.whole n

unfoldable pub progress_fields : TaskEnvelope → ℕ → String → ℕ → Option ℕ → Fields
unfolding number_or_null
progress_fields task sequence phase completed total =
    field "attempt_id" (Json.text task.attempt_id) (
      field "attempt_token" (Json.text task.attempt_token) (
        field "fencing_token" (Json.whole task.fencing_token) (
          field "sequence" (Json.whole sequence) (
            field "phase" (Json.text phase) (
              field "units"
                (Json.object (
                  field "completed" (Json.whole completed) (
                    field "total" (number_or_null total)
                      (field "name" (Json.text "items") end_fields))))
                (field "rate_per_second" Json.null
                  (field "estimated_seconds_remaining" Json.null end_fields)))))))

-- `controlledResult` and the result of a lost lease.
unfoldable pub stopped : String → Fields → PrimitiveResult
stopped state checkpoint = record {
  state = state;
  outputs = some end_fields;
  evidence_digests = some [];
  checkpoint = some checkpoint;
  error = none;
}

phase_checkpoint : String → String → Fields → Fields
phase_checkpoint phase digest rest =
    field "phase" (Json.text phase) (field "envelope_digest" (Json.text digest) rest)

unfoldable pub controlled_result : TaskError → String → String → PrimitiveResult
unfolding stopped phase_checkpoint
controlled_result cancel_requested phase digest =
    stopped "cancelled" (phase_checkpoint phase digest end_fields)
controlled_result _ phase digest =
    stopped "paused_at_checkpoint" (phase_checkpoint phase digest end_fields)

or_empty : Option Fields → Option Fields
or_empty none = some end_fields
or_empty (some fs) = some fs

or_no_digests : Option (List String) → Option (List String)
or_no_digests none = some []
or_no_digests (some ds) = some ds

unfoldable pub normalize_result : PrimitiveResult → PrimitiveResult
unfolding or_empty or_no_digests
normalize_result r =
    if is_empty r.state
    then record {
      state = "failed";
      outputs = or_empty r.outputs;
      evidence_digests = or_no_digests r.evidence_digests;
      checkpoint = r.checkpoint;
      error = some (record {
        error_code = "MIGRATION_PRIMITIVE_EMPTY_RESULT";
        safe_message = "The primitive returned no terminal state.";
        retryable = Bool.false;
      });
    }
    else record {
      state = r.state;
      outputs = or_empty r.outputs;
      evidence_digests = or_no_digests r.evidence_digests;
      checkpoint = r.checkpoint;
      error = r.error;
    }

-- What is posted when the heartbeat or a report failed while the primitive ran.
unfoldable pub result_after : TaskProgress → String → PrimitiveResult → PrimitiveResult
unfolding controlled_result stopped phase_checkpoint
result_after p digest own = elim p.progress_error [
  | none ↦ own
  | some (other e) ↦ stopped "paused_at_checkpoint" (
      phase_checkpoint p.last_phase digest
        (field "reason" (Json.text "lease_heartbeat_lost") end_fields))
  | some control ↦ controlled_result control p.last_phase digest
]

module _ {Host : Type 0} (b : Backend Host) (codec : Codec) (keys : Signatures) (me : Identity)
    (task : TaskEnvelope) where
  -- The error that the callback returns is its value.
  unfoldable pub progress_callback : String → ℕ → Option ℕ → Action (Runner Host) (Option TaskError)
  unfolding progress_fields reply_error
  progress_callback phase completed total = do
    change (λ s. record s { progress_sequence = suc s.progress_sequence; current_phase = phase })
    e ← attempt (save_state b)
    match_option e
        (do
          sequence ← gets (λ r. r.state.progress_sequence)
          reply ←
              post_signed b codec keys me route_task_progress
                (progress_fields task sequence phase completed total)
          pure (reply_error reply))
        λ message. pure (some (other message))

  -- An error stops all later reports.
  unfoldable pub keep_error : Option TaskError → Action (Runner Host) (Option TaskError)
  keep_error none = pure none
  keep_error (some e) = do
    modify (λ r. record r { progress = record r.progress { progress_error = some e } })
    pure (some e)

  unfoldable pub report_progress : String → ℕ → Option ℕ → Action (Runner Host) (Option TaskError)
  unfolding keep_error
  report_progress phase completed total = do
    earlier ← gets (λ r. r.progress.progress_error)
    match_option earlier
        (do
          modify (λ r. record r {
            progress = record r.progress {
              last_phase = phase;
              last_completed = completed;
              last_total = total;
            };
          })
          e ← progress_callback phase completed total
          keep_error e)
        λ e. pure (some e)

  -- One tick of the lease timer.
  unfoldable pub beat : Action (Runner Host) (Option TaskError)
  unfolding keep_error
  beat = do
    p ← gets (λ r. r.progress)
    match_option p.progress_error
        (do e ← progress_callback p.last_phase p.last_completed p.last_total; keep_error e)
        λ e. pure (some e)

  unfoldable pub run_execution : Execution Host → Action (Runner Host) PrimitiveResult
  run_execution (finished result) = pure result
  run_execution (reports phase completed total next) = do
    e ← report_progress phase completed total
    run_execution (next e)
  run_execution (heartbeat next) = do e ← beat; run_execution next
  run_execution (works f next) = do modify (λ r. record r { host = f r.host }); run_execution next

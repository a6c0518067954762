-- ===== src/Migration/Task/Lease.antt =====
-- internal/migration/task.go: after a failed report nothing more is reported.
use askio_agent.Base.{ℕ, String, Option, none, some, ◌≡◌, refl, ◌∙◌}
use askio_agent.Base.Action.{Action, final, pure, gets, match_option, ◌>>=◌}
use askio_agent.Base.Action.Keeps.{Keeps, Keeps-pure, Keeps-modify, Keeps-bind, Keeps-then}
use askio_agent.Envelope.{TaskEnvelope}
use askio_agent.Migration.Canonical.{Codec}
use askio_agent.Migration.Task.{
  PersistentState, TaskProgress, TaskError, Runner, Execution, finished, reports, heartbeat, works,
  Backend, Signatures, Identity,
}
use askio_agent.Migration.Task.Reports.{report_progress, beat, run_execution}

-- The state, the state file and the progress of the round are those given, and a report failed.
pub record IsStopped {Host : Type 0} (state : PersistentState) (disk : Option PersistentState)
    (progress : TaskProgress) (e : TaskError) (r : Runner Host) : Type 0 where
  pub same_state : r.state ≡ state
  pub same_disk : r.disk ≡ disk
  pub same_progress : r.progress ≡ progress
  pub failed : progress.progress_error ≡ some e

module _ {Host : Type 0} (b : Backend Host) (codec : Codec) (keys : Signatures) (me : Identity)
    (task : TaskEnvelope) (state : PersistentState) (disk : Option PersistentState)
    (progress : TaskProgress) (e : TaskError) where
  error-IsStopped :
      (r : Runner Host) → IsStopped state disk progress e r → r.progress.progress_error ≡ some e
  error-IsStopped r h = ap_error h.same_progress ∙ h.failed
    where
      ap_error : {p q : TaskProgress} → p ≡ q → p.progress_error ≡ q.progress_error
      ap_error same = cc

  IsStopped-option :
      (o : Option TaskError) (m : Action (Runner Host) (Option TaskError)) (r : Runner Host)
      → o ≡ some e
      → IsStopped state disk progress e r
      → IsStopped state disk progress e (final (match_option o m (λ x. pure (some x)) r))
  unfolding match_option pure
  IsStopped-option none m r p h = absurd cc
  IsStopped-option (some x) m r p h = h

  Keeps-beat-IsStopped : Keeps (IsStopped state disk progress e) (beat b codec keys me task)
  unfolding beat ◌>>=◌ gets
  Keeps-beat-IsStopped = record {
    at = λ r h. IsStopped-option r.progress.progress_error _ r (error-IsStopped r h) h;
  }

  Keeps-report-IsStopped :
      (phase : String) (completed : ℕ) (total : Option ℕ)
      → Keeps
          (IsStopped state disk progress e)
          (report_progress b codec keys me task phase completed total)
  unfolding report_progress ◌>>=◌ gets
  Keeps-report-IsStopped phase completed total = record {
    at = λ r h. IsStopped-option r.progress.progress_error _ r (error-IsStopped r h) h;
  }

  Keeps-run_execution-IsStopped :
      (x : Execution Host)
      → Keeps (IsStopped state disk progress e) (run_execution b codec keys me task x)
  unfolding run_execution
  Keeps-run_execution-IsStopped (finished result) = Keeps-pure _
  Keeps-run_execution-IsStopped (reports phase completed total next) =
      Keeps-bind _ _ (Keeps-report-IsStopped phase completed total)
        (λ x. Keeps-run_execution-IsStopped (next x))
  Keeps-run_execution-IsStopped (heartbeat next) =
      Keeps-bind _ _ Keeps-beat-IsStopped (λ x. Keeps-run_execution-IsStopped next)
  Keeps-run_execution-IsStopped (works f next) =
      Keeps-then _ _
        (Keeps-modify _ (λ r h. record {
          same_state = h.same_state;
          same_disk = h.same_disk;
          same_progress = h.same_progress;
          failed = h.failed;
        }))
        (Keeps-run_execution-IsStopped next)

module _ {Host : Type 0} (b : Backend Host) (codec : Codec) (keys : Signatures) (me : Identity)
    (task : TaskEnvelope) where
  -- Once a report or a heartbeat of the round failed, whatever the primitive still does and reports
  -- leaves the state, the state file, the last phase and the error as they are.
  pub run_execution-IsStopped :
      (x : Execution Host) (r : Runner Host) (e : TaskError)
      → r.progress.progress_error ≡ some e
      → IsStopped r.state r.disk r.progress e (final (run_execution b codec keys me task x r))
  run_execution-IsStopped x r e h =
      (Keeps-run_execution-IsStopped b codec keys me task r.state r.disk r.progress e x).at r
        (record { same_state = refl; same_disk = refl; same_progress = refl; failed = h })

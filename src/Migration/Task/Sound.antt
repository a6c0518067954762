-- ===== src/Migration/Task/Sound.antt =====
-- internal/migration/task.go: the shapes that the runner's state takes, in memory and on disk.
use askio_agent.Base.{ℕ, suc, String, Option, none, some, ◌≡◌, ◌⊎◌, inl}
use askio_agent.Base.Action.{final, modify}
use askio_agent.Base.Action.Keeps.{
  Keeps, Keeps-pure, Keeps-gets, Keeps-attempt, Keeps-modify, Keeps-bind, Keeps-then, Keeps-option,
}
use askio_agent.Envelope.{Json, Fields, get_field, TaskEnvelope}
use askio_agent.Migration.Canonical.{Codec}
use askio_agent.Migration.Task.{
  PersistentState, TaskProgress, TaskError, Runner, Execution, finished, reports, heartbeat, works,
  Backend, Signatures, Identity, route_task_result, state_schema, change, save_state, settle_save,
}
use askio_agent.Base.Action.Ends.{Runs-Keeps}
use askio_agent.Migration.Task.Posts.{IsHostless, Runs-post_signed}
use askio_agent.Migration.Task.Reports.{
  progress_callback, keep_error, report_progress, beat, run_execution,
}

-- Nothing waits to be posted.
pub record IsFree (s : PersistentState) : Type 0 where
  pub schema : s.schema_version ≡ state_schema
  pub no_route : s.pending_route ≡ ""
  pub no_body : s.pending_result_body ≡ none

-- A task runs, and nothing waits to be posted.
pub record IsBusy (task : TaskEnvelope) (s : PersistentState) : Type 0 where
  pub free : IsFree s
  pub attempt : s.active_attempt_id ≡ task.attempt_id

-- A result of the active attempt waits to be posted.
pub record IsAwaiting (s : PersistentState) : Type 0 where
  pub schema : s.schema_version ≡ state_schema
  pub body : Fields
  pub pending : s.pending_result_body ≡ some body
  pub route : s.pending_route ≡ route_task_result
  pub phase : s.current_phase ≡ "result_pending"
  pub own : get_field "attempt_id" body ≡ some (Json.text s.active_attempt_id)

abbrev pub IsSound : PersistentState → Type 0
IsSound s = IsFree s ⊎ IsAwaiting s

abbrev pub IsSoundFile : Option PersistentState → Type 0
IsSoundFile none = Unit
IsSoundFile (some s) = IsSound s

-- A property of the state in memory, with a state file that can be loaded.
pub record Inv {Host : Type 0} (P : PersistentState → Type 0) (r : Runner Host) : Type 0 where
  pub now : P r.state
  pub durable : IsSoundFile r.disk

module _ {Host : Type 0} {P : PersistentState → Type 0} where
  pub Inv-IsHostless : IsHostless {Host = Host} (Inv P)
  Inv-IsHostless = record { at = λ r h q. record { now = q.now; durable = q.durable } }

  pub Keeps-change :
      (f : PersistentState → PersistentState)
      → ((s : PersistentState) → P s → P (f s))
      → Keeps {S = Runner Host} (Inv P) (change f)
  Keeps-change f k = Keeps-modify _ (λ r h. record { now = k r.state h.now; durable = h.durable })

  settle-Inv :
      (e : Option String) (r : Runner Host)
      → ((s : PersistentState) → P s → IsSound s)
      → Inv P r
      → Inv P (final (settle_save e r))
  unfolding settle_save
  settle-Inv none r sound h = record { now = h.now; durable = sound r.state h.now }
  settle-Inv (some e) r sound h = h

  module _ (b : Backend Host) where
    pub Keeps-save_state : ((s : PersistentState) → P s → IsSound s) → Keeps (Inv P) (save_state b)
    unfolding save_state
    Keeps-save_state sound = record {
      at = λ r h.
          settle-Inv (b.write_state r.state r.host).0 _ sound
            (record { now = h.now; durable = h.durable });
    }

-- The progress of a round does not touch the state.
pub Keeps-progress :
    {Host : Type 0} {P : PersistentState → Type 0} (f : TaskProgress → TaskProgress)
    → Keeps {S = Runner Host} (Inv P) (modify (λ r. record r { progress = f r.progress }))
Keeps-progress f = Keeps-modify _ (λ r h. record { now = h.now; durable = h.durable })

module _ {Host : Type 0} (b : Backend Host) (codec : Codec) (keys : Signatures) (me : Identity)
    (task : TaskEnvelope) where
  reported-IsBusy :
      (phase : String) (s : PersistentState)
      → IsBusy task s
      → IsBusy task
          (record s { progress_sequence = suc s.progress_sequence; current_phase = phase })
  reported-IsBusy phase s h = record {
    free = record { schema = h.free.schema; no_route = h.free.no_route; no_body = h.free.no_body };
    attempt = h.attempt;
  }

  Keeps-progress_callback :
      (phase : String) (completed : ℕ) (total : Option ℕ)
      → Keeps (Inv (IsBusy task)) (progress_callback b codec keys me task phase completed total)
  unfolding progress_callback
  Keeps-progress_callback phase completed total =
      Keeps-then _ _ (Keeps-change _ (reported-IsBusy phase)) (
        Keeps-bind _ _ (Keeps-attempt _ (Keeps-save_state b (λ s h. inl h.free))) (λ e.
          Keeps-option e _ _
            (Keeps-bind _ _ (Keeps-gets _) (λ n.
              Keeps-bind _ _ (Runs-Keeps _ (Runs-post_signed Inv-IsHostless b codec keys me _ _))
                (λ reply. Keeps-pure _)))
            (λ x. Keeps-pure _)))

  Keeps-keep_error :
      (e : Option TaskError) → Keeps (Inv (IsBusy task)) (keep_error b codec keys me task e)
  unfolding keep_error
  Keeps-keep_error none = Keeps-pure _
  Keeps-keep_error (some e) = Keeps-then _ _ (Keeps-progress _) (Keeps-pure _)

  pub Keeps-report_progress :
      (phase : String) (completed : ℕ) (total : Option ℕ)
      → Keeps (Inv (IsBusy task)) (report_progress b codec keys me task phase completed total)
  unfolding report_progress
  Keeps-report_progress phase completed total = Keeps-bind _ _ (Keeps-gets _) (λ earlier.
      Keeps-option earlier _ _
        (Keeps-then _ _ (Keeps-progress _)
          (Keeps-bind _ _ (Keeps-progress_callback phase completed total) Keeps-keep_error))
        (λ e. Keeps-pure _))

  Keeps-beat : Keeps (Inv (IsBusy task)) (beat b codec keys me task)
  unfolding beat
  Keeps-beat = Keeps-bind _ _ (Keeps-gets _) (λ p.
      Keeps-option p.progress_error _ _
        (Keeps-bind _ _ (Keeps-progress_callback _ _ _) Keeps-keep_error) (λ e. Keeps-pure _))

  pub Keeps-run_execution :
      (x : Execution Host) → Keeps (Inv (IsBusy task)) (run_execution b codec keys me task x)
  unfolding run_execution
  Keeps-run_execution (finished result) = Keeps-pure _
  Keeps-run_execution (reports phase completed total next) =
      Keeps-bind _ _ (Keeps-report_progress phase completed total)
        (λ e. Keeps-run_execution (next e))
  Keeps-run_execution (heartbeat next) = Keeps-bind _ _ Keeps-beat (λ e. Keeps-run_execution next)
  Keeps-run_execution (works f next) =
      Keeps-then _ _ (Keeps-modify _ (λ r h. record { now = h.now; durable = h.durable }))
        (Keeps-run_execution next)

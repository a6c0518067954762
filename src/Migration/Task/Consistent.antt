-- ===== src/Migration/Task/Consistent.antt =====
-- internal/migration/task.go: a round of the runner, whatever fails in it, leaves a sound state.
pub mod Flushing
use askio_agent.Base.{
  String, Bool, true, false, Option, none, some, ◌≡◌, refl, ◌⊎◌, inl, inr, if◌then◌else◌,
}
use askio_agent.Base.Action.{
  Outcome, done, fail, final, Ensures, Ensures-bind, pure, raise, gets, modify, match_option, ◌>>=◌,
  ◌>>◌,
}
use askio_agent.Base.Action.Keeps.{
  Keeps, Keeps-pure, Keeps-raise, Keeps-gets, Keeps-modify, Keeps-bind, Keeps-then, Keeps-option,
  Keeps-check,
}
use askio_agent.Base.Action.Ends.{
  Runs-Keeps, Ends, Leads, Ends-attempt, Ends-after, Leads-after, Leads-pure, Leads-modify-then,
  Runs-attempt, Ends-Keeps, Ends-option, Ends-weaken,
}
use askio_agent.Envelope.{Json, Fields, end_fields, TaskEnvelope, get_field}
use askio_agent.Migration.Canonical.{Codec}
use askio_agent.Migration.Task.{
  PrimitiveResult, PersistentState, TaskError, pause_requested, cancel_requested, other, Runner,
  Reply, answered, status_error, broken, Backend, Signatures, Identity, change, save_state,
  post_signed, set_field, route_task_result, route_task_claim, state_schema,
}
use askio_agent.Migration.Task.Envelopes.{verify_envelope}
use askio_agent.Migration.Task.Posts.{
  Keeps-ask, Keeps-verify_signed_task_envelope, Runs-post_signed,
}
use askio_agent.Migration.Task.Rounds.{
  Handled, idle, fenced_state, accepted_state, result_material, result_body, result_pending,
  failure, save_and_return, settle_flush, pending_body, flush_pending, body_with, settle_post,
  persist_and_post_result, post_and_return, start_failed, finalizing, execute_task, notify,
  run_task, accept_task, hooked_task, accepted_or_not, handle_claim, is_final, run_once,
}
use askio_agent.Migration.Task.Sound.{
  IsFree, IsBusy, IsAwaiting, IsSound, Inv, Inv-IsHostless, Keeps-change, Keeps-save_state,
  Keeps-progress, Keeps-report_progress, Keeps-run_execution,
}
use askio_agent.Migration.Task.Consistent.Flushing.{
  idle-IsFree, accepted-IsBusy, result_pending-IsAwaiting, Flushed, weaken-Inv,
  flush_pending-Flushed,
}

module _ {Host : Type 0} (b : Backend Host) (codec : Codec) (keys : Signatures)
    (me : Identity) where
  IsBusy-IsSound : (task : TaskEnvelope) (r : Runner Host) → Inv (IsBusy task) r → Inv IsSound r
  IsBusy-IsSound task r h = record { now = inl h.now.free; durable = h.durable }

  Keeps-settle_post : (reply : Reply) → Keeps (Inv IsSound) (settle_post b codec keys me reply)
  unfolding settle_post
  Keeps-settle_post reply =
      Keeps-option (failure reply) _ _
        (Keeps-then _ _ (Keeps-change _ (λ s h. inl (idle-IsFree s h)))
          (Keeps-save_state b (λ s h. h)))
        (λ e. Keeps-raise e)

  module _ (task : TaskEnvelope) where
    -- From the body on: it is in memory, then on disk, then posted.
    deliver-IsSound :
        (result : PrimitiveResult) (o : Option String)
        → Ends (Inv (IsBusy task)) (Inv IsSound) (
            body_with b codec keys me task result o >>= λ body.
            change (result_pending body)
            >> (save_state b
                >> (post_signed b codec keys me route_task_result body
                    >>= settle_post b codec keys me)))
    unfolding body_with ◌>>=◌ raise pure
    deliver-IsSound result none = record { at = λ r h. IsBusy-IsSound task r h }
    deliver-IsSound result (some d) = record {
      at = λ r h.
          (Keeps-then _ _ (Keeps-save_state b (λ s p. p)) (
              Keeps-bind _ _ (Runs-Keeps _ (Runs-post_signed Inv-IsHostless b codec keys me _ _))
                Keeps-settle_post)).at
            _
            (record {
              now = inr (result_pending-IsAwaiting task result d r.state h.now);
              durable = h.durable;
            });
    }

    persist_and_post_result-IsSound :
        (result : PrimitiveResult)
        → Ends
            (Inv (IsBusy task))
            (Inv IsSound)
            (persist_and_post_result b codec keys me task result)
    unfolding persist_and_post_result
    persist_and_post_result-IsSound result = deliver-IsSound result _

    post_and_return-IsSound :
        (result : PrimitiveResult)
        → Ends (Inv (IsBusy task)) (Inv IsSound) (post_and_return b codec keys me task result)
    unfolding post_and_return
    post_and_return-IsSound result =
        Ends-Keeps _ _ (Ends-attempt _ (persist_and_post_result-IsSound result)) (λ e. Keeps-pure _)

    start_failed-IsSound :
        (d : String) (e : TaskError)
        → Ends (Inv (IsBusy task)) (Inv IsSound) (start_failed b codec keys me task d e)
    unfolding start_failed
    start_failed-IsSound d (other e) = Ends-weaken _ (IsBusy-IsSound task) (Keeps-pure _)
    start_failed-IsSound d pause_requested = post_and_return-IsSound _
    start_failed-IsSound d cancel_requested = post_and_return-IsSound _

    Keeps-finalizing :
        (e : Option TaskError) → Keeps (Inv (IsBusy task)) (finalizing b codec keys me task e)
    unfolding finalizing
    Keeps-finalizing none = Keeps-report_progress b codec keys me task _ _ _
    Keeps-finalizing (some e) = Keeps-pure _

    execute_task-IsSound :
        (d : String) → Ends (Inv (IsBusy task)) (Inv IsSound) (execute_task b codec keys me task d)
    unfolding execute_task
    execute_task-IsSound d = Ends-after _ _ (Keeps-gets _) (IsBusy-IsSound task) (λ host.
        Ends-after _ _ (Keeps-run_execution b codec keys me task _) (IsBusy-IsSound task) (λ own.
          Ends-after _ _ (Keeps-gets _) (IsBusy-IsSound task) (λ p.
            Ends-after _ _ (Keeps-finalizing _) (IsBusy-IsSound task)
              (λ last. post_and_return-IsSound _))))

    run_task-IsSound :
        (d : String) → Ends (Inv (IsBusy task)) (Inv IsSound) (run_task b codec keys me task d)
    unfolding run_task
    run_task-IsSound d = Ends-after _ _ (Keeps-progress _) (IsBusy-IsSound task) (λ u.
        Ends-after _ _ (Keeps-report_progress b codec keys me task _ _ _) (IsBusy-IsSound task)
          (λ e. Ends-option e _ _ (execute_task-IsSound d) (λ x. start_failed-IsSound d x)))

    Keeps-notify :
        {P : PersistentState → Type 0} (on : Bool) → Keeps (Inv P) (notify b codec keys me on)
    unfolding notify
    Keeps-notify on =
        Keeps-option b.activity _ _ (Keeps-pure _)
          (λ hook. Keeps-modify _ (λ r h. record { now = h.now; durable = h.durable }))

    hooked_task-IsSound :
        (d : String) → Ends (Inv (IsBusy task)) (Inv IsSound) (hooked_task b codec keys me task d)
    unfolding hooked_task
    hooked_task-IsSound d = Ends-after _ _ (Keeps-notify true) (IsBusy-IsSound task) (λ u.
        Ends-Keeps _ _ (run_task-IsSound d)
          (λ outcome. Keeps-bind _ _ (Keeps-notify false) (λ v. Keeps-pure _)))

    Keeps-verify_envelope : Keeps (Inv IsFree) (verify_envelope b codec keys me task)
    unfolding verify_envelope
    Keeps-verify_envelope =
        Keeps-bind _ _ (Keeps-verify_signed_task_envelope Inv-IsHostless b codec keys me task) (λ d.
          Keeps-then _ _ (Keeps-check _ _) (
            Keeps-bind _ _ (Keeps-gets _) (λ nonces. Keeps-then _ _ (Keeps-check _ _) (
              Keeps-bind _ _ (Keeps-ask Inv-IsHostless _) (λ now.
                Keeps-then _ _
                  (Keeps-change _ (λ s h. record {
                    schema = h.schema;
                    no_route = h.no_route;
                    no_body = h.no_body;
                  }))
                  (Keeps-bind _ _ (Keeps-gets _)
                    (λ expiries. Keeps-then _ _ (Keeps-check _ _) (Keeps-pure _))))))))

    accept_task-Leads :
        Leads (Inv IsFree) (Inv (IsBusy task)) (Inv IsSound) (accept_task b codec keys me task)
    unfolding accept_task
    accept_task-Leads = Leads-after _ _ Keeps-verify_envelope weaken-Inv (λ d.
        Leads-modify-then {T = Inv IsFree} _ _
          (λ r h. record { now = accepted-IsBusy d task r.state h.now; durable = h.durable })
          (Leads-after _ _ (Keeps-save_state b (λ s h. inl h.free)) (IsBusy-IsSound task)
            (λ u. Leads-pure d (λ r h. h))))

    accepted_or_not-IsSound :
        (o : Outcome (Runner Host) String)
        → Ensures (λ _ t. Inv (IsBusy task) t) (λ _ t. Inv IsSound t) o
        → Inv IsSound (final (accepted_or_not b codec keys me task o))
    unfolding accepted_or_not
    accepted_or_not-IsSound (done d r) h = (hooked_task-IsSound d).at r h
    accepted_or_not-IsSound (fail e r) h = h

  claimed-IsSound :
      (o : Option TaskEnvelope) (r : Runner Host)
      → Inv IsFree r
      → Inv IsSound (
          final (
            match_option o
              (pure (record { handled = false; error = none }))
              (λ task.
                λ t. accepted_or_not b codec keys me task (accept_task b codec keys me task t))
              r))
  unfolding match_option pure
  claimed-IsSound none r h = weaken-Inv r h
  claimed-IsSound (some task) r h = accepted_or_not-IsSound task _ ((accept_task-Leads task).at r h)

  handle_claim-IsSound :
      (reply : Reply) → Ends (Inv IsFree) (Inv IsSound) (handle_claim b codec keys me reply)
  unfolding handle_claim pure
  handle_claim-IsSound (answered a) = record { at = λ r h. claimed-IsSound _ r h }
  handle_claim-IsSound (status_error code text) = record { at = λ r h. weaken-Inv r h }
  handle_claim-IsSound (broken e) = record { at = λ r h. weaken-Inv r h }

  go_on-IsSound :
      (ends : Bool) (flushed : Handled) (r : Runner Host)
      → ((ends ≡ true) × Inv IsSound r) ⊎ Inv IsFree r
      → Inv IsSound (
          final (
            (if ends
                then pure flushed
                else post_signed b codec keys me route_task_claim end_fields
                  >>= handle_claim b codec keys me)
              r))
  unfolding pure
  go_on-IsSound true flushed r (inl h) = h.1
  go_on-IsSound true flushed r (inr h) = weaken-Inv r h
  go_on-IsSound false flushed r (inl h) = absurd cc
  go_on-IsSound false flushed r (inr h) =
      (Ends-after _ _ (Runs-Keeps _ (Runs-post_signed Inv-IsHostless b codec keys me _ _))
          weaken-Inv handle_claim-IsSound).at
        r h

  Flushed-IsSound :
      (o : Outcome (Runner Host) Handled)
      → Ensures Flushed (λ _ _. ⊥) o
      → Inv IsSound (
          final {S = Runner Host} {A = Handled} (elim o [
            | done h t ↦
                (if is_final h
                    then pure h
                    else post_signed b codec keys me route_task_claim end_fields
                      >>= handle_claim b codec keys me)
                  t
            | fail e t ↦ fail e t
          ]))
  Flushed-IsSound (done h t) f = go_on-IsSound (is_final h) h t f
  Flushed-IsSound (fail e t) f = absurd f

  -- From a sound state, in memory and in the state file, a round leaves a sound state in both,
  -- whichever call of it fails: either nothing waits to be posted, or the waiting body is a result of
  -- the active attempt, its route is the result route and the phase is "result_pending".
  pub run_once-IsSound :
      (r : Runner Host) → Inv IsSound r → Inv IsSound (final (run_once b codec keys me r))
  unfolding run_once ◌>>=◌
  run_once-IsSound r h = Flushed-IsSound _ (flush_pending-Flushed b codec keys me r h)

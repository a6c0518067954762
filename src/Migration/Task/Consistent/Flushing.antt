-- ===== src/Migration/Task/Consistent/Flushing.antt =====
-- internal/migration/task.go, `flushPending`: the state that it leaves.
use askio_agent.Base.{
  String, Bool, true, false, Option, none, some, ◌≡◌, refl, ◌⊎◌, inl, inr, if◌then◌else◌,
}
use askio_agent.Base.Action.{Ensures, Ensures-bind, pure, gets, modify, match_option, ◌>>=◌, ◌>>◌}
use askio_agent.Base.Action.Ends.{Runs-attempt}
use askio_agent.Envelope.{Json, Fields, TaskEnvelope, get_field}
use askio_agent.Migration.Canonical.{Codec}
use askio_agent.Migration.Task.{
  PrimitiveResult, PersistentState, Runner, Reply, answered, status_error, broken, Backend,
  Signatures, Identity, change, post_signed, set_field, route_task_result, state_schema,
}
use askio_agent.Migration.Task.Posts.{Runs-post_signed}
use askio_agent.Migration.Task.Rounds.{
  Handled, idle, fenced_state, accepted_state, result_material, result_body, result_pending,
  failure, save_and_return, settle_flush, pending_body, flush_pending, is_final,
}
use askio_agent.Migration.Task.Sound.{
  IsFree, IsBusy, IsAwaiting, IsSound, Inv, Inv-IsHostless, Keeps-save_state,
}

sound-schema : (s : PersistentState) → IsSound s → s.schema_version ≡ state_schema
sound-schema s (inl free) = free.schema
sound-schema s (inr awaiting) = awaiting.schema

pub idle-IsFree : (s : PersistentState) → IsSound s → IsFree (idle s)
unfolding idle
idle-IsFree s h = record { schema = sound-schema s h; no_route = refl; no_body = refl }

fenced-IsFree : (s : PersistentState) → IsSound s → IsFree (fenced_state s)
unfolding fenced_state
fenced-IsFree s h = record { schema = sound-schema s h; no_route = refl; no_body = refl }

pub accepted-IsBusy :
    (d : String) (task : TaskEnvelope) (s : PersistentState)
    → IsFree s
    → IsBusy task (accepted_state d task s)
unfolding accepted_state
accepted-IsBusy d task s h = record {
  free = record { schema = h.schema; no_route = h.no_route; no_body = h.no_body };
  attempt = refl;
}

own-result_body :
    (task : TaskEnvelope) (result : PrimitiveResult) (d : String)
    → get_field "attempt_id" (result_body task result d) ≡ some (Json.text task.attempt_id)
unfolding result_body set_field result_material get_field
own-result_body task result d = refl

pub result_pending-IsAwaiting :
    (task : TaskEnvelope) (result : PrimitiveResult) (d : String) (s : PersistentState)
    → IsBusy task s
    → IsAwaiting (result_pending (result_body task result d) s)
unfolding result_pending
result_pending-IsAwaiting task result d s h = record {
  schema = h.free.schema;
  body = result_body task result d;
  pending = refl;
  route = refl;
  phase = refl;
  own = rw (h.attempt, own-result_body) refl;
}

pending_body-IsFree : (s : PersistentState) → IsSound s → pending_body s ≡ none → IsFree s
unfolding pending_body
pending_body-IsFree s (inl free) e = free
pending_body-IsFree s (inr awaiting) e =
    absurd (awaited s awaiting.body awaiting.route awaiting.pending e)
  where
    awaited :
        (s : PersistentState) (body : Fields)
        → s.pending_route ≡ route_task_result
        → s.pending_result_body ≡ some body
        → pending_body s ≡ none
        → ⊥
    awaited s body p q e = absurd cc

-- What a flush leaves: the round ends in a sound state, or nothing waits.
abbrev pub Flushed : {Host : Type 0} → Handled → Runner Host → Type 0
Flushed h t = ((is_final h ≡ true) × Inv IsSound t) ⊎ Inv IsFree t

pub weaken-Inv : {Host : Type 0} (r : Runner Host) → Inv IsFree r → Inv IsSound r
weaken-Inv r h = record { now = inl h.now; durable = h.durable }

module _ {Host : Type 0} (b : Backend Host) (codec : Codec) (keys : Signatures)
    (me : Identity) where
  save_and_return-Flushed :
      (r : Runner Host)
      → Inv IsFree r
      → Ensures Flushed (λ _ _. ⊥) (save_and_return b codec keys me r)
  unfolding save_and_return pure is_final
  save_and_return-Flushed r h =
      Ensures-bind _ _ (λ _ t. Inv IsFree t) _ _ r
        ((Runs-attempt _ (Keeps-save_state b (λ s p. inl p))).at r h)
        (λ e t p. inl (refl, weaken-Inv t p))

  change-Flushed :
      (f : PersistentState → PersistentState) (r : Runner Host)
      → ((s : PersistentState) → IsSound s → IsFree (f s))
      → Inv IsSound r
      → Ensures Flushed (λ _ _. ⊥) ((change f >> save_and_return b codec keys me) r)
  unfolding ◌>>=◌ modify
  change-Flushed f r k h =
      save_and_return-Flushed _ (record { now = k r.state h.now; durable = h.durable })

  refused-Flushed :
      (is_fenced : Bool) (e : String) (r : Runner Host)
      → Inv IsSound r
      → Ensures Flushed
          (λ _ _. ⊥)
          ((if is_fenced
              then change fenced_state >> save_and_return b codec keys me
              else pure (record { handled = true; error = some e }))
            r)
  unfolding pure is_final
  refused-Flushed true e r h = change-Flushed fenced_state r fenced-IsFree h
  refused-Flushed false e r h = inl (refl, h)

  settle_flush-Flushed :
      (reply : Reply) (r : Runner Host)
      → Inv IsSound r
      → Ensures Flushed (λ _ _. ⊥) (settle_flush b codec keys me reply r)
  unfolding settle_flush match_option failure
  settle_flush-Flushed (answered a) r h = change-Flushed idle r idle-IsFree h
  settle_flush-Flushed (status_error code text) r h = refused-Flushed _ text r h
  settle_flush-Flushed (broken e) r h = refused-Flushed false e r h

  flush-Flushed :
      (o : Option Fields) (route : String) (r : Runner Host)
      → Inv IsSound r
      → (o ≡ none → IsFree r.state)
      → Ensures Flushed
          (λ _ _. ⊥)
          (match_option o
            (pure (record { handled = false; error = none }))
            (λ body. post_signed b codec keys me route body >>= settle_flush b codec keys me)
            r)
  unfolding match_option pure
  flush-Flushed none route r h k = inr (record { now = k refl; durable = h.durable })
  flush-Flushed (some body) route r h k =
      Ensures-bind _ _ (λ _ t. Inv IsSound t) _ _ r
        ((Runs-post_signed Inv-IsHostless b codec keys me route body).at r h) settle_flush-Flushed

  pub flush_pending-Flushed :
      (r : Runner Host)
      → Inv IsSound r
      → Ensures Flushed (λ _ _. ⊥) (flush_pending b codec keys me r)
  unfolding flush_pending ◌>>=◌ gets
  flush_pending-Flushed r h =
      flush-Flushed (pending_body r.state) r.state.pending_route r h
        (pending_body-IsFree r.state h.now)

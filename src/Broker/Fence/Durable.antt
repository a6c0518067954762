-- ===== src/Broker/Fence/Durable.antt =====
-- internal/migration/broker.go: what an activation or a release that returns has recorded.
use askio_agent.Base.{
  String, List, any_entry, true, false, ◌≡◌, refl, Option, none, some, lookup, lookup-insert, arith,
  eq_refl, not, sym, ap, ◌∙◌,
}
use askio_agent.Base.Action.{
  Action, gets, done, pure, check, attempt, modify, match_option, ◌>>=◌, ◌>>◌,
}
use askio_agent.Base.Action.Returns.{
  Returns, Always, Returns-bind, Returns-after, Returns-pure, Returns-raise, Returns-from, returned,
  bind-done,
}
use askio_agent.Envelope.{TaskEnvelope, broker_task_run_id}
use askio_agent.Broker.State.{active, released, WriterFence, Broker}
use askio_agent.Broker.System.{System, persist_fences}
use askio_agent.Broker.Fence.{
  FenceReport, fence_of, blocks, is_foreign, activation_intent, confirmed, or_zero, confirm_fence,
  put_fence, apply_fence, activate_writer_fence,
}

-- The state file and the memory agree, and hold this entry for the key.
pub record IsRecorded {Host : Type 0} (key : String) (fence : WriterFence) (b : Broker Host)
    : Type 0 where
  pub found : lookup key b.state.writer_fences ≡ some fence
  pub durable : b.disk ≡ b.state

-- An active fence of the run over the services, in memory and in the state file.
pub record IsHeld {Host : Type 0} (key run : String) (services : List String) (b : Broker Host)
    : Type 0 where
  pub fence : WriterFence
  pub recorded : IsRecorded key fence b
  pub on : fence.is_active ≡ true
  pub confirmed_phase : fence.phase ≡ active
  pub owner : fence.run_id ≡ run
  pub scope : fence.services ≡ services

-- After an attempt to write: the entry is in memory, and in the state file if the write succeeded.
record IsAttempted {Host : Type 0} (key : String) (fence : WriterFence) (e : Option String)
    (b : Broker Host) : Type 0 where
  found : lookup key b.state.writer_fences ≡ some fence
  durable : e ≡ none → b.disk ≡ b.state

module _ {Host : Type 0} (sys : System Host) where
  attempted :
      (b t : Broker Host) (e : Option String)
      → attempt (persist_fences sys) b ≡ done e t
      → (t.state ≡ b.state) × (e ≡ none → t.disk ≡ t.state)
  unfolding attempt persist_fences
  attempted b t e h = ground arith

  Returns-put_fence :
      {B : Type 0} {T : B → Broker Host → Type 0} (key : String) (fence : WriterFence)
      (n : Option String → Action (Broker Host) B)
      → ((e : Option String) → Returns (IsAttempted key fence e) T (n e))
      → Returns Always T (modify (put_fence key fence) >> (attempt (persist_fences sys) >>= n))
  unfolding put_fence modify
  Returns-put_fence key fence n k =
      Returns-bind {Q = λ _ b. lookup key b.state.writer_fences ≡ some fence} _ _
        (record { at = λ b h. rw (lookup-insert, eq_refl) refl })
        (λ _.
          Returns-bind {Q = IsAttempted key fence} _ _
            (Returns-from _ (λ b e t p h.
              let q = attempted b t e h in
              record { found = ap (λ s. lookup key s.writer_fences) q.0 ∙ p; durable = q.1 }))
            k)

  Returns-either :
      {B : Type 0} (key : String) (fence : WriterFence) (value : B)
      (otherwise : String → Action (Broker Host) B) (T : B → Broker Host → Type 0)
      → ((b : Broker Host) → IsRecorded key fence b → T value b)
      → ((message : String) → Returns Always T (otherwise message))
      → (e : Option String)
      → Returns (IsAttempted key fence e) T (match_option e (pure value) otherwise)
  unfolding match_option
  Returns-either key fence value otherwise T k j none =
      Returns-pure value (λ b a. k b (record { found = a.found; durable = a.durable refl }))
  Returns-either key fence value otherwise T k j (some m) = record { at = λ b a. (j m).at b tt }

  -- The entry is recorded when its write succeeds; a failed write ends in an error.
  pub Returns-written :
      {B : Type 0} (key : String) (fence : WriterFence) (value : B)
      (otherwise : String → Action (Broker Host) B) (T : B → Broker Host → Type 0)
      → ((b : Broker Host) → IsRecorded key fence b → T value b)
      → ((message : String) → Returns Always T (otherwise message))
      → Returns Always T (
          modify (put_fence key fence)
          >> (attempt (persist_fences sys) >>= λ e. match_option e (pure value) otherwise))
  Returns-written key fence value otherwise T k j =
      Returns-put_fence key fence _ (Returns-either key fence value otherwise T k j)

  Returns-confirm_fence :
      (key run : String) (services : List String) (intent : WriterFence)
      → intent.is_active ≡ true
      → intent.run_id ≡ run
      → intent.services ≡ services
      → Returns Always (λ _ b. IsHeld key run services b) (confirm_fence sys key intent)
  unfolding confirm_fence confirmed
  Returns-confirm_fence key run services intent on owner scope = Returns-after _ _ (λ now.
      Returns-written key (confirmed now intent) _ _ _
        (λ b r. record {
          fence = confirmed now intent;
          recorded = r;
          on = on;
          confirmed_phase = refl;
          owner = owner;
          scope = scope;
        })
        (λ message. Returns-after _ _ (λ _. Returns-raise _)))

  Returns-apply_fence :
      (task : TaskEnvelope) (run : String) (prior : Option WriterFence) (services : List String)
      → Returns Always
          (λ _ b. IsHeld task.migration_id run services b)
          (apply_fence sys task run prior services)
  unfolding apply_fence activation_intent
  Returns-apply_fence task run prior services = Returns-after _ _ (λ observed.
      Returns-after _ _ (λ previously. Returns-after _ _ (λ _. Returns-after _ _ (λ _.
        Returns-after _ _ (λ failed. Returns-after _ _ (λ _. Returns-after _ _ (λ _.
          Returns-bind {Q = λ _ b. IsHeld task.migration_id run services b} _ _
            (Returns-confirm_fence task.migration_id run services _ refl refl refl)
            (λ fence. Returns-pure _ (λ b h. h)))))))))

  Returns-activation :
      (task : TaskEnvelope) (services : List String) (run : String)
      → Returns Always
          (λ _ b. IsHeld task.migration_id run services b)
          (do
            prior ← gets (fence_of task.migration_id)
            fences ← gets (λ b. b.state.writer_fences)
            check
                (not (any_entry (blocks task.migration_id services) fences))
                "writer service is already fenced by another migration"
            check
                (not (is_foreign run services (or_zero prior)))
                "writer fence ownership or service scope is unproven"
            apply_fence sys task run prior services)
  Returns-activation task services run = Returns-after _ _ (λ prior. Returns-after _ _ (λ fences.
      Returns-after _ _
        (λ _. Returns-after _ _ (λ _. Returns-apply_fence task run prior services))))

  -- An activation that returns leaves the migration's fence active, for the task's run and the
  -- services, in memory and in the state file.
  pub activate_writer_fence-IsHeld :
      (task : TaskEnvelope) (services : List String) (run : String) (report : FenceReport)
      (b t : Broker Host)
      → broker_task_run_id task b ≡ done run b
      → activate_writer_fence sys task services b ≡ done report t
      → IsHeld task.migration_id run services t
  unfolding activate_writer_fence
  activate_writer_fence-IsHeld task services run report b t named returns =
      returned {P = Always} _ b report t (Returns-activation task services run) tt
        (sym (bind-done _ _ b b run named) ∙ returns)

-- The entry of a released fence, in memory and in the state file.
pub record IsGivenUp {Host : Type 0} (key : String) (b : Broker Host) : Type 0 where
  pub fence : WriterFence
  pub recorded : IsRecorded key fence b
  pub off : fence.is_active ≡ false
  pub final_phase : fence.phase ≡ released

-- ===== src/Broker/Release/Orphan.antt =====
-- internal/migration/broker.go: the entry that a failed confirmation leaves behind names no run.
use askio_agent.Base.{
  String, List, true, false, not, ◌||◌, ◌≡◌, ◌≢◌, refl, Option, none, some, arith, subst,
  lookup-insert, eq_refl, eq_iff, ◌==◌, Bool-cases, inl, inr, equal_strings, any_entry,
}
use askio_agent.Base.Action.{
  Outcome, Ensures, Ensures-bind, done, fail, pure, raise, modify, attempt, match_option, ◌>>=◌,
  ◌>>◌,
}
use askio_agent.Envelope.{TaskEnvelope, broker_task_run_id}
use askio_agent.Broker.State.{activating, WriterFence, Broker}
use askio_agent.Broker.System.{System, call, persist_fences}
use askio_agent.Broker.Fence.{
  put_fence, confirm_fence, confirmed, fence_of, unconfirmed, or_zero, is_releasing, is_foreign,
  activate_writer_fence, now_text, blocks,
}
use askio_agent.Broker.Release.{release_recorded, release_writer_fence}

-- The method fails and leaves the broker's memory and state file alone.
abbrev pub FailsQuietly : {Host A : Type 0} → Broker Host → Outcome (Broker Host) A → Type 0
FailsQuietly b o = Ensures (λ _ _. ⊥) (λ _ t. (t.state ≡ b.state) × (t.disk ≡ b.disk)) o

unnamed : (run : String) → run ≢ "" → ("" == run) ≡ false
unnamed run nonempty = ground (arith, eq_iff "" run)

-- No run owns such an entry.
unconfirmed_foreign :
    (run : String) (services : List String) (intent : WriterFence)
    → run ≢ ""
    → is_foreign run services (unconfirmed intent) ≡ true
unfolding is_foreign unconfirmed
unconfirmed_foreign run services intent nonempty = ground (arith, unnamed run nonempty)

-- The migration's entry names no run.
abbrev IsOrphaned : {Host : Type 0} → String → Broker Host → Type 0
IsOrphaned migration b = (fence : WriterFence) × (fence_of migration b ≡ some (unconfirmed fence))

module _ {Host : Type 0} (sys : System Host) (migration : String) (intent : WriterFence) where
  settled_orphan :
      (fence : WriterFence) (e : Option String) (b : Broker Host)
      → Ensures
          (λ _ _. Unit {0})
          (λ _ t. IsOrphaned migration t)
          (match_option e
            (pure fence)
            (λ message. modify (put_fence migration (unconfirmed fence)) >> raise message)
            b)
  unfolding match_option pure raise modify ◌>>=◌ put_fence fence_of
  settled_orphan fence none b = tt
  settled_orphan fence (some message) b = (fence, rw (lookup-insert, eq_refl) refl)

  told :
      (b : Broker Host) → Ensures (λ _ _. Unit {0}) (λ _ t. IsOrphaned migration t) (now_text sys b)
  unfolding now_text call pure ◌>>=◌
  told b = tt

  confirm_fence-orphans :
      (b : Broker Host)
      → Ensures
          (λ _ _. Unit {0})
          (λ _ t. IsOrphaned migration t)
          (confirm_fence sys migration intent b)
  unfolding confirm_fence modify attempt
  confirm_fence-orphans b =
      Ensures-bind _ _ (λ _ _. Unit {0}) _ _ b (told b)
        (λ now t _.
          Ensures-bind _ _ (λ _ _. Unit {0}) _ _ t tt
            (λ _ u _.
              Ensures-bind _ _ (λ _ _. Unit {0}) _ _ u (attempted (persist_fences sys u))
                (λ e v _. settled_orphan (confirmed now intent) e v)))
    where
      attempted :
          (o : Outcome (Broker Host) (Unit {0}))
          → Ensures
              (λ (_ : Option String) _. Unit {0})
              (λ _ t. IsOrphaned migration t)
              (elim o [ done a t ↦ done none t | fail e t ↦ done (some e) t ])
      attempted (done a t) = tt
      attempted (fail e t) = tt

  confirm_fence-IsOrphaned :
      (before after : Broker Host) (message : String)
      → confirm_fence sys migration intent before ≡ fail message after
      → IsOrphaned migration after
  confirm_fence-IsOrphaned before after message failed =
      subst (Ensures (λ _ _. Unit {0}) (λ _ t. IsOrphaned migration t)) failed
        (confirm_fence-orphans before)

module _ {Host : Type 0} (sys : System Host) (task : TaskEnvelope) (run : String)
    (services : List String) (intent : WriterFence) (b : Broker Host) where
  activate_writer_fence-orphaned :
      broker_task_run_id task b ≡ done run b
      → run ≢ ""
      → fence_of task.migration_id b ≡ some (unconfirmed intent)
      → FailsQuietly b (activate_writer_fence sys task services b)
  unfolding activate_writer_fence ◌>>=◌ fence_of or_zero
  activate_writer_fence-orphaned named nonempty found =
      rw (named, Ensures)
        (elim (Bool-cases (any_entry (blocks task.migration_id services) b.state.writer_fences)) [
          | inl taken ↦ rw (taken, Ensures) (refl, refl)
          | inr free ↦ rw (free, Ensures, foreign) (refl, refl)
        ])
    where
      foreign : is_foreign run services (or_zero (fence_of task.migration_id b)) ≡ true
      foreign = rw found (unconfirmed_foreign run services intent nonempty)

  release_writer_fence-orphaned :
      broker_task_run_id task b ≡ done run b
      → run ≢ ""
      → fence_of task.migration_id b ≡ some (unconfirmed intent)
      → FailsQuietly b (release_writer_fence sys task services b)
  unfolding release_writer_fence ◌>>=◌ release_recorded unconfirmed now_text call
  release_writer_fence-orphaned named nonempty found =
      rw (named, found, Ensures) (rw (refused, Ensures) (refl, refl))
    where
      refused :
          (not (
            not ("" == run)
            || not (equal_strings intent.services services)
            || is_releasing activating))
          ≡ false
      refused = rw (unnamed run nonempty) refl

module _ {Host : Type 0} (sys : System Host) (task : TaskEnvelope) (run : String)
    (services : List String) (intent : WriterFence) (before after : Broker Host)
    (message : String) where
  -- After a confirmation of the migration's fence could not be written, no task with a run, that of the
  -- fence included, can activate the fence again: the attempt fails and changes neither the broker's
  -- memory nor its state file.
  pub activate_writer_fence-unconfirmed :
      confirm_fence sys task.migration_id intent before ≡ fail message after
      → broker_task_run_id task after ≡ done run after
      → run ≢ ""
      → FailsQuietly after (activate_writer_fence sys task services after)
  activate_writer_fence-unconfirmed failed named nonempty =
      let orphan =
        confirm_fence-IsOrphaned sys task.migration_id intent before after message failed in
      activate_writer_fence-orphaned sys task run services orphan.0 after named nonempty orphan.1

  -- After a confirmation of the migration's fence could not be written, no task with a run, that of the
  -- fence included, can release the fence: the attempt fails and changes neither the broker's memory
  -- nor its state file.
  pub release_writer_fence-unconfirmed :
      confirm_fence sys task.migration_id intent before ≡ fail message after
      → broker_task_run_id task after ≡ done run after
      → run ≢ ""
      → FailsQuietly after (release_writer_fence sys task services after)
  release_writer_fence-unconfirmed failed named nonempty =
      let orphan =
        confirm_fence-IsOrphaned sys task.migration_id intent before after message failed in
      release_writer_fence-orphaned sys task run services orphan.0 after named nonempty orphan.1

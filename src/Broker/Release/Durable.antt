-- ===== src/Broker/Release/Durable.antt =====
-- internal/migration/broker.go: what a release that returns has recorded.
use askio_agent.Base.{
  String, List, true, false, ◌≡◌, refl, Option, none, some, lookup, sym, subst, ◌∙◌, arith, inl,
  inr, ap,
}
use askio_agent.Base.Action.{Action, done, match_option}
use askio_agent.Base.Action.Returns.{
  Returns, Always, Returns-bind, Returns-after, Returns-option, Returns-pure, Returns-raise,
  Returns-split, returned, Returns-check-then, Returns-gets,
}
use askio_agent.Envelope.{TaskEnvelope, broker_task_run_id, broker_task_run_id_cases}
use askio_agent.Broker.State.{Phase, released, WriterFence, Broker}
use askio_agent.Broker.System.{System}
use askio_agent.Broker.Fence.{
  FenceReport, fence_of, give_back, record_release, complete_authorized_release, is_released,
}
use askio_agent.Broker.Fence.Durable.{IsGivenUp, Returns-written}
use askio_agent.Broker.Release.{
  write_or_undo, release_unrecorded, resume_release, release_again, release_active,
  release_recorded, release_writer_fence,
}

-- The run's name is read off the task: the state stays as it is.
unchanged :
    {Host : Type 0} (task : TaskEnvelope) (b : Broker Host)
    → Returns (λ s. s ≡ b) (λ _ s. s ≡ b) (broker_task_run_id {S = Broker Host} task)
unchanged task b = record {
  at = λ s p. elim (broker_task_run_id_cases task s) [
    | inr (e, q) ↦ rw q tt
    | inl (run, q) ↦ rw q p
  ];
}

-- An entry under a migration's key names the migration.
abbrev pub IsFiled : {Host : Type 0} → String → Broker Host → Type 0
IsFiled key b =
    (fence : WriterFence) → lookup key b.state.writer_fences ≡ some fence → fence.migration_id ≡ key

module _ {Host : Type 0} (sys : System Host) where
  Returns-give_back :
      {T : WriterFence → Broker Host → Type 0} (fence : WriterFence) (message : String)
      → Returns Always T (give_back sys fence message)
  unfolding give_back
  Returns-give_back fence message = Returns-after _ _ (λ _. Returns-raise _)

  Returns-record_release :
      (fence : WriterFence)
      → Returns Always (λ _ b. IsGivenUp fence.migration_id b) (record_release sys fence)
  unfolding record_release
  Returns-record_release fence = Returns-after _ _ (λ now.
      Returns-written sys fence.migration_id _ _ _ _
        (λ b r. record { fence = _; recorded = r; off = refl; final_phase = refl })
        (λ message. Returns-after _ _ (λ _. Returns-give_back fence message)))

  Returns-complete_authorized_release :
      (fence : WriterFence)
      → Returns Always
          (λ _ b. IsGivenUp fence.migration_id b)
          (complete_authorized_release sys fence)
  unfolding complete_authorized_release
  Returns-complete_authorized_release fence = Returns-after _ _ (λ _. Returns-after _ _ (λ e.
      Returns-option e _ _
        (Returns-after _ _ (λ failed.
          Returns-split failed _ _ (λ _. Returns-give_back fence _)
            (λ _. Returns-record_release fence)))
        (λ _. Returns-give_back fence _)))

  Returns-write_or_undo :
      (key : String) (prior : Option WriterFence) (fence : WriterFence)
      → fence.is_active ≡ false
      → fence.phase ≡ released
      → Returns Always (λ _ b. IsGivenUp key b) (write_or_undo sys key prior fence)
  unfolding write_or_undo
  Returns-write_or_undo key prior fence off last =
      Returns-written sys key fence _ _ _
        (λ b r. record { fence = fence; recorded = r; off = off; final_phase = last })
        (λ message. Returns-after _ _ (λ _. Returns-raise _))

  Returns-release_unrecorded :
      (task : TaskEnvelope) (run : String) (services : List String) (at : String)
      → Returns Always
          (λ _ b. IsGivenUp task.migration_id b)
          (release_unrecorded sys task run services at)
  unfolding release_unrecorded
  Returns-release_unrecorded task run services at = Returns-after _ _ (λ _.
      Returns-bind {Q = λ _ b. IsGivenUp task.migration_id b} _ _
        (Returns-write_or_undo task.migration_id none _ refl refl) (λ _. Returns-pure _ (λ b h. h)))

  Returns-resume_release :
      (task : TaskEnvelope) (services : List String) (at : String) (fence : WriterFence)
      → Returns Always
          (λ _ b. IsGivenUp fence.migration_id b)
          (resume_release sys task services at fence)
  unfolding resume_release
  Returns-resume_release task services at fence =
      Returns-bind {Q = λ _ b. IsGivenUp fence.migration_id b} _ _
        (Returns-complete_authorized_release _) (λ _. Returns-pure _ (λ b h. h))

  Returns-release_active :
      (task : TaskEnvelope) (services : List String) (fence : WriterFence)
      → Returns Always
          (λ _ b. IsGivenUp fence.migration_id b)
          (release_active sys task services fence)
  unfolding release_active
  Returns-release_active task services fence = Returns-after _ _ (λ _. Returns-after _ _ (λ now.
      Returns-after _ _ (λ _.
        Returns-bind {Q = λ _ b. IsGivenUp fence.migration_id b} _ _
          (Returns-complete_authorized_release _) (λ _. Returns-pure _ (λ b h. h)))))

  is_released_phase : (phase : Phase) → is_released phase ≡ true → phase ≡ released
  unfolding is_released
  is_released_phase phase p = ground arith

  Returns-release_again :
      (task : TaskEnvelope) (services : List String) (at : String) (fence : WriterFence)
      → fence.is_active ≡ false
      → Returns Always
          (λ _ b. IsGivenUp task.migration_id b)
          (release_again sys task services at fence)
  unfolding release_again
  Returns-release_again task services at fence off = Returns-check-then _ _ _ (λ last.
      Returns-after _ _ (λ _.
        Returns-bind {Q = λ _ b. IsGivenUp task.migration_id b} _ _
          (Returns-write_or_undo task.migration_id (some fence) _ off
            (is_released_phase fence.phase last))
          (λ _. Returns-pure _ (λ b h. h))))

  Returns-release_recorded :
      (task : TaskEnvelope) (run : String) (services : List String) (at : String)
      (fence : WriterFence)
      → fence.migration_id ≡ task.migration_id
      → Returns Always
          (λ _ b. IsGivenUp task.migration_id b)
          (release_recorded sys task run services at fence)
  unfolding release_recorded
  Returns-release_recorded task run services at fence filed = Returns-after _ _ (λ _.
      Returns-split _ _ _ (λ on. rekey (Returns-release_active task services fence))
        (λ off.
          Returns-split _ _ _ (λ _. rekey (Returns-resume_release task services at fence))
            (λ _. Returns-release_again task services at fence off)))
    where
      rekey :
          {m : Action (Broker Host) FenceReport}
          → Returns Always (λ _ b. IsGivenUp fence.migration_id b) m
          → Returns Always (λ _ b. IsGivenUp task.migration_id b) m
      rekey {m} r = subst (λ k. Returns {A = FenceReport} Always (λ _ b. IsGivenUp k b) m) filed r

  Returns-release_found :
      (task : TaskEnvelope) (run : String) (services : List String) (at : String)
      (found : Option WriterFence)
      → ((fence : WriterFence) → found ≡ some fence → fence.migration_id ≡ task.migration_id)
      → Returns Always
          (λ _ b. IsGivenUp task.migration_id b)
          (match_option found
            (release_unrecorded sys task run services at)
            λ fence. release_recorded sys task run services at fence)
  unfolding match_option
  Returns-release_found task run services at none filed =
      Returns-release_unrecorded task run services at
  Returns-release_found task run services at (some fence) filed =
      Returns-release_recorded task run services at fence (filed fence refl)

  -- A release that returns leaves the migration's fence inactive and released, in memory and in the
  -- state file, if the entry that stood there, if any, was filed under the migration's name: whether
  -- there was none, or it was active, released, or halfway through a release.
  pub release_writer_fence-IsGivenUp :
      (task : TaskEnvelope) (services : List String) (report : FenceReport) (b t : Broker Host)
      → IsFiled task.migration_id b
      → release_writer_fence sys task services b ≡ done report t
      → IsGivenUp task.migration_id t
  unfolding release_writer_fence fence_of
  release_writer_fence-IsGivenUp task services report b t ok returns =
      returned {P = λ s. s ≡ b} _ b report t
        (Returns-bind {Q = λ _ s. s ≡ b} _ _ (unchanged task b) (λ run.
          Returns-bind {Q = λ found s. found ≡ lookup task.migration_id b.state.writer_fences} _ _
            (Returns-gets _ (λ s p. ap (λ x. lookup task.migration_id x.state.writer_fences) p))
            (λ found. record {
              at = λ s p.
                  (Returns-after {P = Always} _ _ (λ at.
                      Returns-release_found task run services at found
                        (λ fence q. ok fence (sym p ∙ q)))).at
                    s tt;
            })))
        refl returns

-- ===== src/Broker/Fence/Activation.antt =====
-- internal/migration/broker.go, `activateWriterFence`: what an activation may change.
use askio_agent.Base.{
  String, List, true, false, ◌≡◌, ◌≢◌, refl, Option, none, some, lookup, arith, inl, inr, any_entry,
  any_entry-lookup, eq_iff, Bool-cases,
}
use askio_agent.Base.Action.{final, ◌>>=◌}
use askio_agent.Base.Action.Keeps.{
  Keeps, Keeps-pure, Keeps-raise, Keeps-attempt, Keeps-check, Keeps-bind, Keeps-then, Keeps-option,
  Keeps-if,
}
use askio_agent.Envelope.{TaskEnvelope, broker_task_run_id_cases}
use askio_agent.Broker.State.{WriterFence, Broker}
use askio_agent.Broker.System.{System}
use askio_agent.Broker.Services.Keeps.{
  IgnoresHost, Keeps-call, Keeps-previously_active_services, Keeps-stop_services,
  Keeps-verify_services_inactive, Keeps-activate_service_fence_inhibitors,
}
use askio_agent.Broker.Fence.{
  activation_intent, or_zero, confirmed, unconfirmed, now_text, recorded_services, known,
  record_intent, confirm_fence, apply_fence, activate_writer_fence, blocks, is_foreign, fence_of,
}
use askio_agent.Broker.Fence.Invariant.{
  Fences, Confined, Confined-IgnoresHost, IsSound, Keeps-persist_fences, Keeps-put_fence,
  Keeps-undo_fence, IsConsistent, IsConfined-IsConsistent, IsConfined-refl,
}
use askio_agent.Broker.Services.{intersects_services}

-- An operation of the section's key, services and earlier fences.
module _ {Host : Type 0} (sys : System Host) (key : String) (services : List String)
    (before : Fences) where
  abbrev Within : Broker Host → Type 0
  Within = Confined key services before

  ignores : IgnoresHost Within
  ignores = Confined-IgnoresHost key services before

  pub Keeps-now_text : Keeps Within (now_text sys)
  unfolding now_text
  Keeps-now_text = Keeps-bind _ _ (Keeps-call ignores sys _) (λ t. Keeps-pure _)

  Keeps-recorded_services :
      (prior : Option WriterFence) (names : List String)
      → Keeps Within (recorded_services sys prior names)
  unfolding recorded_services
  Keeps-recorded_services none names = Keeps-previously_active_services ignores sys names
  Keeps-recorded_services (some prior) names =
      Keeps-if _ _ _ (Keeps-pure _) (Keeps-previously_active_services ignores sys names)

  Keeps-known : (o : Option (List String)) → Keeps Within (known sys o)
  unfolding known
  Keeps-known none = Keeps-raise _
  Keeps-known (some names) = Keeps-pure _

  Keeps-record_intent :
      (prior : Option WriterFence) (intent : WriterFence)
      → lookup key before ≡ prior
      → IsSound key intent
      → intent.services ≡ services
      → Keeps Within (record_intent sys prior key services intent)
  unfolding record_intent
  Keeps-record_intent prior intent old good over =
      Keeps-then _ _ (Keeps-put_fence key services before intent good (λ _. over)) (
        Keeps-bind _ _ (Keeps-attempt _ (Keeps-persist_fences key services before sys)) (λ e.
          Keeps-option e _ _ (Keeps-pure _) (λ message.
            Keeps-then _ _ (Keeps-undo_fence key services before prior old)
              (Keeps-bind _ _ (Keeps-stop_services ignores sys services) (λ _. Keeps-raise _)))))

  confirmed-IsSound :
      (now : String) (f : WriterFence)
      → IsSound key f
      → f.is_active ≡ true
      → IsSound key (confirmed now f)
  unfolding confirmed
  confirmed-IsSound now f good on = record { filed = good.filed; coherent = on; settled = λ e. cc }

  unconfirmed-IsSound : (f : WriterFence) → IsSound key f → IsSound key (unconfirmed f)
  unfolding unconfirmed
  unconfirmed-IsSound f good = record { filed = good.filed; coherent = refl; settled = λ e. cc }

  Keeps-confirm_fence :
      (intent : WriterFence)
      → IsSound key intent
      → intent.is_active ≡ true
      → intent.services ≡ services
      → Keeps Within (confirm_fence sys key intent)
  unfolding confirm_fence
  Keeps-confirm_fence intent good on over = Keeps-bind _ _ Keeps-now_text (λ now.
      let fine : IsSound key (confirmed now intent) = confirmed-IsSound now intent good on in
      Keeps-then _ _ (Keeps-put_fence key services before _ fine (λ _. unfold confirmed in over)) (
        Keeps-bind _ _ (Keeps-attempt _ (Keeps-persist_fences key services before sys)) (λ e.
          Keeps-option e _ _ (Keeps-pure _) (λ message.
            Keeps-then _ _
              (Keeps-put_fence key services before _
                (unconfirmed-IsSound (confirmed now intent) fine)
                (λ _. unfold confirmed unconfirmed in over))
              (Keeps-raise _)))))

  activation_intent-IsSound :
      (task : TaskEnvelope) (run : String) (previously : List String) (prior : WriterFence)
      → task.migration_id ≡ key
      → IsSound key (activation_intent task run services previously prior)
  unfolding activation_intent
  activation_intent-IsSound task run previously prior same = record {
    filed = same;
    coherent = refl;
    settled = λ e. cc;
  }

module _ {Host : Type 0} (sys : System Host) (task : TaskEnvelope) (services : List String)
    (before : Fences) where
  Keeps-apply_fence :
      (run : String) (prior : Option WriterFence)
      → lookup task.migration_id before ≡ prior
      → Keeps (Confined task.migration_id services before) (apply_fence sys task run prior services)
  unfolding apply_fence
  Keeps-apply_fence run prior old =
      Keeps-bind _ _ (Keeps-recorded_services sys key services before prior services) (λ observed.
        Keeps-bind _ _ (Keeps-known sys key services before observed) (λ previously.
          let intent = activation_intent task run services previously (or_zero prior) in
          let good =
            activation_intent-IsSound sys key services before task run previously (or_zero prior)
              refl in
          Keeps-then _ _ (Keeps-activate_service_fence_inhibitors quiet sys services) (
            Keeps-then _ _
              (Keeps-record_intent sys key services before prior intent old good
                (unfold activation_intent in refl))
              (Keeps-bind _ _ (Keeps-stop_services quiet sys services) (λ failed.
                Keeps-then _ _ (Keeps-check _ _) (
                  Keeps-then _ _ (Keeps-verify_services_inactive quiet sys services) (
                    Keeps-bind _ _
                      (Keeps-confirm_fence sys key services before intent good
                        (unfold activation_intent in refl) (unfold activation_intent in refl))
                      (λ fence. Keeps-pure _))))))))
    where
      key : String
      key = task.migration_id

      quiet : IgnoresHost {Host = Host} (Confined key services before)
      quiet = Confined-IgnoresHost key services before

module _ {Host : Type 0} (sys : System Host) (task : TaskEnvelope) (services : List String) where
  free_of_others :
      (fences : Fences)
      → any_entry (blocks task.migration_id services) fences ≡ false
      → (k : String) (g : WriterFence) → task.migration_id ≢ k
      → lookup k fences ≡ some g
      → g.is_active ≡ true
      → intersects_services g.services services ≡ false
  unfolding blocks
  free_of_others fences none_blocks k g apart found on = ground (
    arith,
    any_entry-lookup (blocks task.migration_id services) k g fences none_blocks found,
    eq_iff k task.migration_id,
  )

  -- An activation that returns or fails, at whatever point, keeps the fences consistent.
  pub activate_writer_fence-IsConsistent :
      (b : Broker Host)
      → IsConsistent b.state.writer_fences
      → IsConsistent (final (activate_writer_fence sys task services b)).state.writer_fences
  unfolding activate_writer_fence ◌>>=◌ fence_of
  activate_writer_fence-IsConsistent b ok = elim (broker_task_run_id_cases task b) [
    | inr (e, p) ↦ rw (p, final) ok
    | inl (run, p) ↦
        rw (p, final)
          (elim (Bool-cases (any_entry (blocks task.migration_id services) b.state.writer_fences)) [
            | inl taken ↦ rw (taken, final) ok
            | inr free ↦
                rw (free, final)
                  (elim (Bool-cases
                    (is_foreign run services (or_zero (fence_of task.migration_id b)))) [
                      | inl foreign ↦ rw (foreign, final) ok
                      | inr own ↦
                          rw (own, final)
                            (IsConfined-IsConsistent task.migration_id services
                              b.state.writer_fences _
                              ((Keeps-apply_fence sys task services b.state.writer_fences run _
                                  refl).at
                                b (IsConfined-refl _ _ _))
                              ok (free_of_others b.state.writer_fences free))
                    ])
          ])
  ]

-- ===== src/Broker/Services/Keeps.antt =====
-- internal/migration/broker.go and writer_fence_inhibitor.go: what the broker asks the host for
-- changes neither its memory nor its state file.
use askio_agent.Base.{String, List, [], ◌∷◌}
use askio_agent.Base.Action.Keeps.{
  Keeps, Keeps-pure, Keeps-bind, Keeps-then, Keeps-check, Keeps-rethrow, Keeps-option, keeps_rules,
}
use askio_agent.Broker.State.{Broker}
use askio_agent.Broker.System.{System, Marker, present, missing, unsafe, foreign, unreadable, call}
use askio_agent.Broker.Services.{
  is_active, previously_active_services, verify_services_inactive, verify_expected_service_states,
  stop_services, start_services, verify_drop_ins, place_marker, place_markers,
  activate_service_fence_inhibitors, remove_markers, release_service_fence_inhibitors,
}

-- The property looks at memory and state file alone.
pub record IgnoresHost {Host : Type 0} (P : Broker Host → Type 0) : Type 0 where
  pub with_host : (b : Broker Host) (h : Host) → P b → P (record b { host = h })

module _ {Host : Type 0} {P : Broker Host → Type 0} (i : IgnoresHost P) (sys : System Host) where
  pub Keeps-call : {A : Type 0} (f : Host → A × Host) → Keeps P (call f)
  unfolding call
  Keeps-call f = record { at = λ s h. i.with_host s (f s.host).1 h }

  pub Keeps-is_active : (service : String) → Keeps P (is_active sys service)
  unfolding is_active
  Keeps-is_active service = search (keeps_rules, Keeps-call)

  pub Keeps-verify_services_inactive :
      (services : List String) → Keeps P (verify_services_inactive sys services)
  unfolding verify_services_inactive
  Keeps-verify_services_inactive [] = search keeps_rules
  Keeps-verify_services_inactive (s ∷ rest) =
      Keeps-bind _ _ (Keeps-is_active s)
        (λ b. Keeps-then _ _ (Keeps-check _ _) (Keeps-verify_services_inactive rest))

  pub Keeps-verify_expected_service_states :
      (services expected : List String)
      → Keeps P (verify_expected_service_states sys services expected)
  unfolding verify_expected_service_states
  Keeps-verify_expected_service_states [] expected = search keeps_rules
  Keeps-verify_expected_service_states (s ∷ rest) expected =
      Keeps-bind _ _ (Keeps-is_active s)
        (λ b. Keeps-then _ _ (Keeps-check _ _) (Keeps-verify_expected_service_states rest expected))

  pub Keeps-previously_active_services :
      (services : List String) → Keeps P (previously_active_services sys services)
  unfolding previously_active_services
  Keeps-previously_active_services [] = search keeps_rules
  Keeps-previously_active_services (s ∷ rest) = Keeps-bind _ _ (Keeps-call _) (λ answer.
      Keeps-option answer _ _ (Keeps-pure _) (λ b.
        Keeps-bind _ _ (Keeps-previously_active_services rest)
          (λ others. Keeps-option others _ _ (Keeps-pure _) (λ active. Keeps-pure _))))

  pub Keeps-stop_services : (services : List String) → Keeps P (stop_services sys services)
  unfolding stop_services
  Keeps-stop_services [] = search keeps_rules
  Keeps-stop_services (s ∷ rest) = Keeps-bind _ _ (Keeps-call _) (λ e.
      Keeps-bind _ _ (Keeps-stop_services rest)
        (λ failed. Keeps-option e _ _ (Keeps-pure _) (λ _. Keeps-pure _)))

  pub Keeps-start_services : (services : List String) → Keeps P (start_services sys services)
  unfolding start_services
  Keeps-start_services [] = search keeps_rules
  Keeps-start_services (s ∷ rest) =
      Keeps-bind _ _ (Keeps-call _)
        (λ e. Keeps-option e _ _ (Keeps-start_services rest) (λ _. Keeps-pure _))

  Keeps-verify_drop_ins : (services : List String) → Keeps P (verify_drop_ins sys services)
  unfolding verify_drop_ins
  Keeps-verify_drop_ins [] = search keeps_rules
  Keeps-verify_drop_ins (s ∷ rest) =
      Keeps-bind _ _ (Keeps-call _)
        (λ e. Keeps-then _ _ (Keeps-rethrow e) (Keeps-verify_drop_ins rest))

  Keeps-place_marker : (service : String) (m : Marker) → Keeps P (place_marker sys service m)
  unfolding place_marker
  Keeps-place_marker service present = search keeps_rules
  Keeps-place_marker service missing = search (keeps_rules, Keeps-call)
  Keeps-place_marker service unsafe = search keeps_rules
  Keeps-place_marker service foreign = search keeps_rules
  Keeps-place_marker service (unreadable e) = search keeps_rules

  Keeps-place_markers : (services : List String) → Keeps P (place_markers sys services)
  unfolding place_markers
  Keeps-place_markers [] = search keeps_rules
  Keeps-place_markers (s ∷ rest) =
      Keeps-bind _ _ (Keeps-call _)
        (λ m. Keeps-then _ _ (Keeps-place_marker s m) (Keeps-place_markers rest))

  Keeps-remove_markers : (services : List String) → Keeps P (remove_markers sys services)
  unfolding remove_markers
  Keeps-remove_markers [] = search keeps_rules
  Keeps-remove_markers (s ∷ rest) = Keeps-bind _ _ (Keeps-call _) (λ e.
      Keeps-then _ _ (Keeps-rethrow e) (
        Keeps-bind _ _ (Keeps-call _)
          (λ gone. Keeps-then _ _ (Keeps-rethrow gone) (Keeps-remove_markers rest))))

  pub Keeps-activate_service_fence_inhibitors :
      (services : List String) → Keeps P (activate_service_fence_inhibitors sys services)
  unfolding activate_service_fence_inhibitors
  Keeps-activate_service_fence_inhibitors services =
      Keeps-then _ _ (Keeps-verify_drop_ins services) (
        Keeps-bind _ _ (Keeps-call _) (λ prepared. Keeps-then _ _ (Keeps-rethrow prepared) (
          Keeps-then _ _ (Keeps-place_markers services)
            (Keeps-bind _ _ (Keeps-call _) Keeps-rethrow))))

  pub Keeps-release_service_fence_inhibitors :
      (services : List String) → Keeps P (release_service_fence_inhibitors sys services)
  unfolding release_service_fence_inhibitors
  Keeps-release_service_fence_inhibitors services =
      Keeps-then _ _ (Keeps-remove_markers services) (Keeps-bind _ _ (Keeps-call _) Keeps-rethrow)

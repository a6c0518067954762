-- ===== src/Broker/Release/Confined.antt =====
-- internal/migration/broker.go: what a release may change. Between the authorization and the end of
-- a release the entry is neither active nor released; every way out of it settles the entry.
use askio_agent.Base.{
  String, List, [], ◌∷◌, not, ◌&&◌, true, false, ◌≡◌, refl, Option, none, some, if◌then◌else◌,
}
use askio_agent.Base.Action.{check, is_error}
use askio_agent.Base.Action.Keeps.{Keeps-pure, Keeps-raise, Keeps-attempt, Keeps-bind}
use askio_agent.Base.Action.Ends.{
  Runs, Ends, Runs-pure, Runs-attempt, Runs-bind, Runs-if, Runs-option, Ends-bind, Ends-Keeps,
  Ends-option, Ends-if, Ends-modify, Ends-modify-then, Ends-weaken,
}
use askio_agent.Broker.State.{active, release_authorized, WriterFence, Broker}
use askio_agent.Broker.System.{System, call}
use askio_agent.Broker.Services.{stop_services, start_services}
use askio_agent.Broker.Services.Keeps.{
  IgnoresHost, Keeps-verify_services_inactive, Keeps-verify_expected_service_states,
  Keeps-activate_service_fence_inhibitors, Keeps-release_service_fence_inhibitors,
}
use askio_agent.Broker.Fence.{
  now_text, put_fence, restore_active_writer_fence, restart, give_back, record_release,
  is_release_authorized, complete_authorized_release,
}
use askio_agent.Broker.Fence.Invariant.{
  Fences, Confined, Elsewhere, Elsewhere-IgnoresHost, Elsewhere-put_fence, Elsewhere-Confined,
  Keeps-persist_fences,
}

-- The host's answers never end a method early.
module _ {Host : Type 0} {P : Broker Host → Type 0} (i : IgnoresHost P) (sys : System Host) where
  Runs-call : {A : Type 0} (f : Host → A × Host) → Runs P (call f)
  unfolding call
  Runs-call f = record { at = λ s h. i.with_host s (f s.host).1 h }

  pub Runs-now_text : Runs P (now_text sys)
  unfolding now_text
  Runs-now_text = Runs-bind _ _ (Runs-call _) (λ t. Runs-pure _)

  Runs-stop_services : (services : List String) → Runs P (stop_services sys services)
  unfolding stop_services
  Runs-stop_services [] = Runs-pure _
  Runs-stop_services (s ∷ rest) = Runs-bind _ _ (Runs-call _) (λ e.
      Runs-bind _ _ (Runs-stop_services rest)
        (λ failed. Runs-option e _ _ (Runs-pure _) (λ _. Runs-pure _)))

  Runs-start_services : (services : List String) → Runs P (start_services sys services)
  unfolding start_services
  Runs-start_services [] = Runs-pure _
  Runs-start_services (s ∷ rest) =
      Runs-bind _ _ (Runs-call _)
        (λ e. Runs-option e _ _ (Runs-start_services rest) (λ _. Runs-pure _))

pub Runs-check : {S : Type 0} {P : S → Type 0} (e : String) → Runs P (check true e)
unfolding check
Runs-check e = record { at = λ s h. h }

module _ {Host : Type 0} (sys : System Host) (before : Fences) (fence : WriterFence) where
  abbrev Weak : Broker Host → Type 0
  Weak = Elsewhere fence.migration_id before

  abbrev Strong : Broker Host → Type 0
  Strong = Confined fence.migration_id fence.services before

  quiet : IgnoresHost Weak
  quiet = Elsewhere-IgnoresHost fence.migration_id before

  -- A failed release leaves an active fence.
  Ends-restore_active_writer_fence : Ends Weak Strong (restore_active_writer_fence sys fence)
  unfolding restore_active_writer_fence
  Ends-restore_active_writer_fence =
      Ends-bind _ _ (Runs-attempt _ (Keeps-activate_service_fence_inhibitors quiet sys _)) (λ _.
        Ends-bind _ _ (Runs-stop_services quiet sys _) (λ _.
          Ends-bind _ _ (Runs-now_text quiet sys) (λ now.
            Ends-bind _ _ (Runs-attempt _ (Keeps-verify_services_inactive quiet sys _)) (λ e.
              Ends-Keeps _ _ (Ends-modify _ (settled e now)) (λ _.
                Keeps-bind _ _ (Keeps-attempt _ (Keeps-persist_fences _ _ before sys))
                  (λ _. Keeps-pure _))))))
    where
      settled :
          (e : Option String) (now : String) (b : Broker Host)
          → Weak b
          → Strong (
              put_fence fence.migration_id
                (if is_error e
                  then record fence { is_active = true; phase = active }
                  else record fence { is_active = true; phase = active; last_verified_at = now })
                b)
      settled none now b c =
          Elsewhere-Confined _ before _ _
            (record { filed = refl; coherent = refl; settled = λ p. cc }) (λ _. refl) b c
      settled (some e) now b c =
          Elsewhere-Confined _ before _ _
            (record { filed = refl; coherent = refl; settled = λ p. cc }) (λ _. refl) b c

  Ends-give_back : (message : String) → Ends Weak Strong (give_back sys fence message)
  unfolding give_back
  Ends-give_back message = Ends-Keeps _ _ Ends-restore_active_writer_fence (λ _. Keeps-raise _)

  Runs-restart : Runs Weak (restart sys fence)
  unfolding restart
  Runs-restart = Runs-bind _ _ (Runs-start_services quiet sys _) (λ failed.
      Runs-if failed _ _ (Runs-pure _) (
        Runs-bind _ _ (Runs-attempt _ (Keeps-verify_expected_service_states quiet sys _ _))
          (λ e. Runs-option e _ _ (Runs-pure _) (λ _. Runs-pure _))))

  Ends-record_release : Ends Weak Strong (record_release sys fence)
  unfolding record_release
  Ends-record_release = Ends-bind _ _ (Runs-now_text quiet sys) (λ now.
      Ends-modify-then _ _
        (Elsewhere-Confined _ before _ _
          (record { filed = refl; coherent = refl; settled = λ p. cc }) (λ _. refl))
        (Ends-bind _ _ (Runs-attempt _ (Keeps-persist_fences _ _ before sys)) (λ e.
          Ends-option e _ _ (Ends-weaken _ (λ b c. c) (Keeps-pure _)) (λ message.
            Ends-modify-then _ _
              (λ b c. Elsewhere-put_fence _ before fence b (record { elsewhere = c.elsewhere }))
              (Ends-give_back message)))))

  -- However the completion of a release ends, the fence is released or active again.
  pub Ends-complete_authorized_release :
      fence.is_active ≡ false
      → fence.phase ≡ release_authorized
      → Ends Weak Strong (complete_authorized_release sys fence)
  unfolding complete_authorized_release is_release_authorized
  Ends-complete_authorized_release off authorized = Ends-bind _ _ allowed (λ _.
      Ends-bind _ _ (Runs-attempt _ (Keeps-release_service_fence_inhibitors quiet sys _)) (λ e.
        Ends-option e _ _
          (Ends-bind _ _ Runs-restart
            (λ failed. Ends-if failed _ _ (Ends-give_back _) Ends-record_release))
          (λ _. Ends-give_back _)))
    where
      allowed : Runs Weak (
          check
            (not fence.is_active && is_release_authorized fence.phase)
            "writer fence release authorization is invalid")
      allowed = rw (off, authorized) (Runs-check _)

-- ===== src/Broker/Watchdog/Consistent.antt =====
-- internal/migration/broker.go: a round of the watchdog keeps the fences consistent.
use askio_agent.Base.{
  String, List, [], ◌∷◌, Bool, true, not, ◌&&◌, ◌≡◌, refl, sym, subst, Option, none, some, lookup,
  if◌then◌else◌, equal_strings, arith, Bool-cases, inl, inr, ◌==◌, ◌∙◌, ap,
}
use askio_agent.Base.Action.{final, gets, check, ◌>>=◌}
use askio_agent.Base.Action.Keeps.{
  Keeps, Keeps-pure, Keeps-gets, Keeps-raise, Keeps-attempt, Keeps-check, Keeps-rethrow,
  Keeps-modify, Keeps-bind, Keeps-then, Keeps-option, Keeps-if,
}
use askio_agent.Base.Action.Ends.{Ends, Ends-split, Ends-weaken}
use askio_agent.Broker.State.{WriterFence, Broker}
use askio_agent.Broker.System.{System, persist_fences, state-persist_fences}
use askio_agent.Broker.Services.Keeps.{
  IgnoresHost, Keeps-call, Keeps-verify_services_inactive, Keeps-activate_service_fence_inhibitors,
}
use askio_agent.Broker.Services.{intersects_services}
use askio_agent.Broker.Fence.{fence_of, is_releasing, now_text}
use askio_agent.Broker.Fence.Invariant.{
  Fences, IsSound, IsConsistent, Confined, Confined-IgnoresHost, Keeps-put_fence,
  Keeps-persist_fences,
}
use askio_agent.Broker.Fence.Confined.{
  Same, Consistent, Same-Consistent, Ends-Confined, free_of_active,
}
use askio_agent.Broker.Watchdog.{
  Findings, settle_round, confirm_phase, count_violation, count_watchdog_error, enforce,
  settle_current, reconcile_fence, reconcile_all, mark_unavailable, without_controller,
  active_fences, reconcile_writer_fences, is_activating,
}

-- What a round leaves alone in an entry; an active entry may come to be confirmed.
record IsSettled (old new : WriterFence) : Type 0 where
  filed : new.migration_id ≡ old.migration_id
  owner : new.run_id ≡ old.run_id
  scope : new.services ≡ old.services
  on : new.is_active ≡ old.is_active

settle_round-IsSettled :
    (now : String) (inactive : Bool) (f : Findings) (c : WriterFence)
    → IsSettled c (settle_round now inactive f c)
unfolding settle_round confirm_phase count_violation count_watchdog_error
settle_round-IsSettled now inactive f c = record {
  filed = ground arith;
  owner = ground arith;
  scope = ground arith;
  on = ground arith;
}

settle_round-IsSound :
    (key now : String) (inactive : Bool) (f : Findings) (c : WriterFence)
    → IsSound key c
    → c.is_active ≡ true
    → IsSound key (settle_round now inactive f c)
unfolding settle_round confirm_phase count_violation count_watchdog_error is_activating is_releasing
settle_round-IsSound key now inactive f c good on = record {
  filed = ground (arith, good.filed);
  coherent = ground (arith, good.coherent);
  settled = ground (arith, good.settled);
}

module _ {Host : Type 0} (sys : System Host) where
  quiet : IgnoresHost {Host = Host} Consistent
  quiet = record { with_host = λ b h c. c }

  Keeps-enforce :
      (fence : WriterFence) (services : List String) (f : Findings)
      → Keeps Consistent (enforce sys fence services f)
  unfolding enforce
  Keeps-enforce fence [] f = Keeps-pure _
  Keeps-enforce fence (service ∷ rest) f = Keeps-bind _ _ (Keeps-call quiet sys _) (λ answer.
      Keeps-if _ _ _ (Keeps-bind _ _ (Keeps-call quiet sys _) (λ e. Keeps-enforce fence rest _))
        (Keeps-enforce fence rest _))

  Ends-settle_current :
      (before : Fences) (ok : IsConsistent before) (now : String) (fence : WriterFence)
      (f : Findings) (found : Option WriterFence)
      → lookup fence.migration_id before ≡ found
      → Ends (Same before) Consistent (settle_current sys now fence f found)
  unfolding settle_current
  Ends-settle_current before ok now fence f none e =
      Ends-weaken _ (Same-Consistent before ok) (Keeps-pure _)
  Ends-settle_current before ok now fence f (some current) e =
      Ends-split (current.is_active && equal_strings current.services fence.services) _ _
        (λ same.
          Ends-Confined before ok key current.services _
            (free_of_active before ok key current e (ground (arith, same)))
            (Keeps-bind _ _ (Keeps-attempt _ (Keeps-verify_services_inactive still sys _))
              (λ failed.
                Keeps-then _ _
                  (Keeps-put_fence key current.services before _
                    (settle_round-IsSound key now _ f current (ok.sound key current e)
                      (ground (arith, same)))
                    (λ p. (settle_round-IsSettled now _ f current).scope))
                  (Keeps-bind _ _
                    (Keeps-attempt _ (Keeps-persist_fences key current.services before sys))
                    (λ written. Keeps-pure _)))))
        (λ other. Ends-weaken _ (Same-Consistent before ok) (Keeps-pure _))
    where
      key : String
      key = fence.migration_id

      still : IgnoresHost {Host = Host} (Confined key current.services before)
      still = Confined-IgnoresHost key current.services before

  Keeps-settle :
      (now : String) (fence : WriterFence) (f : Findings)
      → Keeps Consistent (gets (fence_of fence.migration_id) >>= settle_current sys now fence f)
  unfolding ◌>>=◌ fence_of
  Keeps-settle now fence f = record {
    at = λ b ok. (Ends-settle_current b.state.writer_fences ok now fence f _ refl).at b refl;
  }

  Keeps-now : Keeps Consistent (now_text sys)
  unfolding now_text
  Keeps-now = Keeps-bind _ _ (Keeps-call quiet sys _) (λ t. Keeps-pure _)

  -- A round for one fence, whatever systemctl answers and whether or not its writes succeed, keeps
  -- the fences consistent.
  pub Keeps-reconcile_fence : (fence : WriterFence) → Keeps Consistent (reconcile_fence sys fence)
  unfolding reconcile_fence
  Keeps-reconcile_fence fence =
      Keeps-bind _ _
        (Keeps-attempt _ (Keeps-activate_service_fence_inhibitors quiet sys fence.services))
        (λ e.
          Keeps-bind _ _ (Keeps-enforce fence fence.services _)
            (λ f. Keeps-bind _ _ Keeps-now (λ now. Keeps-settle now fence f)))

  Keeps-reconcile_all : (fences : List WriterFence) → Keeps Consistent (reconcile_all sys fences)
  unfolding reconcile_all
  Keeps-reconcile_all [] = Keeps-pure _
  Keeps-reconcile_all (fence ∷ rest) =
      Keeps-bind _ _ (Keeps-reconcile_fence fence)
        (λ failed. Keeps-bind _ _ (Keeps-reconcile_all rest) (λ others. Keeps-pure _))

-- An entry after the watchdog has found no systemctl.
unfoldable mark_entry : String → WriterFence → WriterFence
unfolding count_violation count_watchdog_error
mark_entry now f = if f.is_active then count_watchdog_error now (count_violation now f) else f

mark_entry-IsSettled : (now : String) (f : WriterFence) → IsSettled f (mark_entry now f)
unfolding mark_entry count_violation count_watchdog_error
mark_entry-IsSettled now f = record {
  filed = ground arith;
  owner = ground arith;
  scope = ground arith;
  on = ground arith;
}

phase-mark_entry : (now : String) (f : WriterFence) → (mark_entry now f).phase ≡ f.phase
unfolding mark_entry count_violation count_watchdog_error
phase-mark_entry now f = ground arith

mark_option : String → Option WriterFence → Option WriterFence
mark_option now none = none
mark_option now (some f) = some (mark_entry now f)

lookup-mark_unavailable :
    (now key : String) (m : Fences)
    → lookup key (mark_unavailable now m) ≡ mark_option now (lookup key m)
unfolding mark_unavailable lookup mark_option mark_entry
lookup-mark_unavailable now key [] = refl
lookup-mark_unavailable now key ((k, f) ∷ m) = elim (Bool-cases (k == key)) [
  | inl same ↦ rw same refl
  | inr other ↦ rw other (lookup-mark_unavailable now key m)
]

-- A marked entry comes of one that was there.
marked :
    (now : String) (g : WriterFence) (o : Option WriterFence)
    → mark_option now o ≡ some g
    → (f : WriterFence) × (o ≡ some f) × (mark_entry now f ≡ g)
unfolding mark_option
marked now g none h = absurd cc
marked now g (some f) h = (f, refl, cc)

mark_unavailable-IsConsistent :
    (now : String) (m : Fences) → IsConsistent m → IsConsistent (mark_unavailable now m)
mark_unavailable-IsConsistent now m ok = record {
  sound = λ k g e.
      let (f, found, same) =
        marked now g (lookup k m) (sym (lookup-mark_unavailable now k m) ∙ e) in
      subst (IsSound k) same (marked_sound k f (ok.sound k f found));
  exclusive = λ k j g h apart e u p q.
      let (f, found, same) =
        marked now g (lookup k m) (sym (lookup-mark_unavailable now k m) ∙ e) in
      let (f', found', same') =
        marked now h (lookup j m) (sym (lookup-mark_unavailable now j m) ∙ u) in
      let t : IsSettled f g = subst (IsSettled f) same (mark_entry-IsSettled now f) in
      let t' : IsSettled f' h = subst (IsSettled f') same' (mark_entry-IsSettled now f') in
      ap (λ x. intersects_services x h.services) t.scope
      ∙ ap (λ x. intersects_services f.services x) t'.scope
      ∙ ok.exclusive k j f f' apart found found' (sym t.on ∙ p) (sym t'.on ∙ q);
}
  where
    marked_sound : (k : String) (f : WriterFence) → IsSound k f → IsSound k (mark_entry now f)
    marked_sound k f good = record {
      filed = (mark_entry-IsSettled now f).filed ∙ good.filed;
      coherent = rw ((mark_entry-IsSettled now f).on, phase-mark_entry now f) good.coherent;
      settled = rw (phase-mark_entry now f) good.settled;
    }

module _ {Host : Type 0} (sys : System Host) where
  Keeps-without_controller : (message : String) → Keeps Consistent (without_controller sys message)
  unfolding without_controller
  Keeps-without_controller message = Keeps-bind _ _ (Keeps-now sys) (λ now.
      Keeps-then _ _
        (Keeps-modify _ (λ b ok. mark_unavailable-IsConsistent now b.state.writer_fences ok))
        (Keeps-bind _ _ (Keeps-attempt _ written)
          (λ e. Keeps-option e _ _ (Keeps-raise _) (λ cause. Keeps-raise _))))
    where
      written : Keeps {S = Broker Host} Consistent (persist_fences sys)
      written = record { at = λ b c. rw (state-persist_fences sys b) c }

  Keeps-all :
      (fences : Fences)
      → Keeps Consistent (do
        failed ← reconcile_all sys (active_fences fences)
        check (not failed) "writer fence watchdog recorded a blocking reconciliation error")
  Keeps-all fences = Keeps-bind _ _ (Keeps-reconcile_all sys _) (λ failed. Keeps-check _ _)

  Keeps-reconciliation : Keeps Consistent (reconcile_writer_fences sys)
  unfolding reconcile_writer_fences
  Keeps-reconciliation = Keeps-bind _ _ (Keeps-gets _) (λ fences.
      Keeps-bind _ _ (Keeps-call (quiet sys) sys _) (λ markers.
        Keeps-then _ _ (Keeps-rethrow markers) (
          Keeps-bind _ _ (Keeps-call (quiet sys) sys _) (λ controller.
            Keeps-option controller _ _ (Keeps-all fences) Keeps-without_controller))))

  -- A round of the watchdog, whatever the markers, systemctl and the writes of the state file answer,
  -- keeps the fences consistent.
  pub reconcile_writer_fences-IsConsistent :
      (b : Broker Host)
      → IsConsistent b.state.writer_fences
      → IsConsistent (final (reconcile_writer_fences sys b)).state.writer_fences
  reconcile_writer_fences-IsConsistent b ok = Keeps-reconciliation.at b ok

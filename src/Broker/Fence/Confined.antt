-- ===== src/Broker/Fence/Confined.antt =====
-- internal/migration/broker.go: an operation that changes one migration's entry only.
use askio_agent.Base.{String, List, ◌≡◌, ◌≢◌, sym, subst, some, true, false, lookup}
use askio_agent.Base.Action.{Action}
use askio_agent.Base.Action.Keeps.{Keeps}
use askio_agent.Base.Action.Ends.{Ends}
use askio_agent.Broker.State.{WriterFence, Broker}
use askio_agent.Broker.Services.{intersects_services}
use askio_agent.Broker.Fence.Invariant.{
  Fences, Confined, IsConfined, IsConfined-refl, IsConfined-IsConsistent, IsConsistent,
}

-- The fences as they were.
abbrev pub Same : {Host : Type 0} → Fences → Broker Host → Type 0
Same before b = b.state.writer_fences ≡ before

abbrev pub Consistent : {Host : Type 0} → Broker Host → Type 0
Consistent b = IsConsistent b.state.writer_fences

module _ {Host : Type 0} (before : Fences) (ok : IsConsistent before) where
  pub Same-Consistent : (b : Broker Host) → Same before b → Consistent b
  Same-Consistent b p = subst IsConsistent (sym p) ok

  -- The services that the entry may come to hold are free of every other active fence.
  pub Ends-Confined :
      {A : Type 0} (key : String) (services : List String) (m : Action (Broker Host) A)
      → ((k : String) (g : WriterFence)
          → key ≢ k
          → lookup k before ≡ some g
          → g.is_active ≡ true
          → intersects_services g.services services ≡ false)
      → Keeps (Confined key services before) m
      → Ends (Same before) Consistent m
  Ends-Confined key services m free k = record {
    at = λ b p.
        IsConfined-IsConsistent key services before _
          (k.at b (
            subst (λ f. IsConfined key services before f) (sym p)
              (IsConfined-refl key services before)))
          ok free;
  }

module _ (before : Fences) (ok : IsConsistent before) where
  -- The services of an active entry are free of the others.
  pub free_of_active :
      (key : String) (fence : WriterFence)
      → lookup key before ≡ some fence
      → fence.is_active ≡ true
      → (k : String) (g : WriterFence) → key ≢ k
      → lookup k before ≡ some g
      → g.is_active ≡ true
      → intersects_services g.services fence.services ≡ false
  free_of_active key fence found on k g apart e p =
      ok.exclusive k key g fence (λ q. apart (sym q)) e found p on

-- ===== src/Broker/Fence/Invariant.antt =====
-- internal/migration/broker.go: what holds of the writer fences between two requests, and what an
-- operation on one migration's fence may change.
use askio_agent.Base.{
  String, List, Bool, true, false, ◌≡◌, ◌≢◌, ◌⊎◌, inl, inr, Option, none, some, lookup,
  lookup-insert, lookup-remove, arith, eq_iff, eq_refl, ◌==◌, refl, sym, ◌∙◌, subst, Bool-cases,
}
use askio_agent.Base.Action.{modify}
use askio_agent.Base.Action.Keeps.{Keeps, Keeps-modify}
use askio_agent.Broker.State.{
  Phase, activating, active, releasing, release_authorized, WriterFence, Broker,
}
use askio_agent.Broker.System.{System, persist_fences, state-persist_fences}
use askio_agent.Broker.Services.{intersects_services}
use askio_agent.Broker.Services.Overlap.{intersects_services_comm}
use askio_agent.Broker.Services.Keeps.{IgnoresHost}
use askio_agent.Broker.Fence.{put_fence, drop_fence, undo_fence}

-- The phases in which a fence holds its services.
abbrev pub holds : Phase → Bool
holds activating = true
holds active = true
holds releasing = true
holds _ = false

-- One migration's fence: filed under the migration's name, active just in the holding phases, and
-- with no release left half-done.
pub record IsSound (key : String) (fence : WriterFence) : Type 0 where
  pub filed : fence.migration_id ≡ key
  pub coherent : fence.is_active ≡ holds fence.phase
  pub settled : fence.phase ≢ release_authorized

abbrev pub Fences : Type 0
Fences = List (String × WriterFence)

-- Every fence is sound, and no service is held by the active fences of two migrations.
pub record IsConsistent (fences : Fences) : Type 0 where
  pub sound : (k : String) (f : WriterFence) → lookup k fences ≡ some f → IsSound k f
  pub exclusive :
      (k j : String) (f g : WriterFence)
      → k ≢ j
      → lookup k fences ≡ some f
      → lookup j fences ≡ some g
      → f.is_active ≡ true
      → g.is_active ≡ true
      → intersects_services f.services g.services ≡ false

-- Nothing but the entry of one key differs from the fences before; that entry is as before, or a
-- sound fence that, while it is active, is over the given services.
pub record IsConfined (key : String) (services : List String) (before fences : Fences)
    : Type 0 where
  pub elsewhere : (k : String) → key ≢ k → lookup k fences ≡ lookup k before
  pub entry :
      (lookup key fences ≡ lookup key before)
      ⊎ ((f : WriterFence) × (lookup key fences ≡ some f)
          × (IsSound key f)
          × (f.is_active ≡ true → f.services ≡ services))

-- Nothing but the entry of one key differs from the fences before.
pub record IsElsewhere (key : String) (before fences : Fences) : Type 0 where
  pub elsewhere : (k : String) → key ≢ k → lookup k fences ≡ lookup k before

module _ {Host : Type 0} (key : String) (before : Fences) where
  abbrev pub Elsewhere : Broker Host → Type 0
  Elsewhere b = IsElsewhere key before b.state.writer_fences

  pub Elsewhere-IgnoresHost : IgnoresHost Elsewhere
  Elsewhere-IgnoresHost = record { with_host = λ b h c. c }

  pub Elsewhere-persist_fences : (sys : System Host) → Keeps Elsewhere (persist_fences sys)
  Elsewhere-persist_fences sys = record { at = λ b c. rw (state-persist_fences sys b) c }

  pub Elsewhere-put_fence :
      (f : WriterFence) (b : Broker Host) → Elsewhere b → Elsewhere (put_fence key f b)
  unfolding put_fence
  Elsewhere-put_fence f b c = record {
    elsewhere = λ k h. rw lookup-insert (ground (arith, eq_iff key k, c.elsewhere k h));
  }

  -- A sound entry over the given services confines the change again.
  pub Elsewhere-Confined :
      (services : List String) (f : WriterFence)
      → IsSound key f
      → (f.is_active ≡ true → f.services ≡ services)
      → (b : Broker Host) → Elsewhere b
      → IsConfined key services before (put_fence key f b).state.writer_fences
  unfolding put_fence
  Elsewhere-Confined services f good same b c = record {
    elsewhere = λ k h. rw lookup-insert (ground (arith, eq_iff key k, c.elsewhere k h));
    entry = inr (f, rw (lookup-insert, eq_refl), good, same);
  }

module _ {Host : Type 0} (key : String) (services : List String) (before : Fences) where
  abbrev pub Confined : Broker Host → Type 0
  Confined b = IsConfined key services before b.state.writer_fences

  pub Confined-IgnoresHost : IgnoresHost Confined
  Confined-IgnoresHost = record { with_host = λ b h c. c }

  pub Keeps-persist_fences : (sys : System Host) → Keeps Confined (persist_fences sys)
  Keeps-persist_fences sys = record { at = λ b c. rw (state-persist_fences sys b) c }

  pub Keeps-put_fence :
      (f : WriterFence)
      → IsSound key f
      → (f.is_active ≡ true → f.services ≡ services)
      → Keeps Confined (modify (put_fence key f))
  unfolding put_fence
  Keeps-put_fence f good same = Keeps-modify _ λ b c. record {
    elsewhere = λ k h. rw lookup-insert (ground (arith, eq_iff key k, c.elsewhere k h));
    entry = inr (f, rw (lookup-insert, eq_refl), good, same);
  }

  -- What a failed write puts back stood there before.
  pub Elsewhere-undo_fence :
      (prior : Option WriterFence)
      → lookup key before ≡ prior
      → (b : Broker Host) → Elsewhere key before b
      → Confined (undo_fence key prior b)
  unfolding undo_fence put_fence drop_fence
  Elsewhere-undo_fence none old b c = record {
    elsewhere = λ k h. rw lookup-remove (ground (arith, eq_iff key k, c.elsewhere k h));
    entry = inl (rw (lookup-remove, eq_refl, old));
  }
  Elsewhere-undo_fence (some prior) old b c = record {
    elsewhere = λ k h. rw lookup-insert (ground (arith, eq_iff key k, c.elsewhere k h));
    entry = inl (rw (lookup-insert, eq_refl, old));
  }

  pub Keeps-undo_fence :
      (prior : Option WriterFence)
      → lookup key before ≡ prior
      → Keeps Confined (modify (undo_fence key prior))
  Keeps-undo_fence prior old =
      Keeps-modify _ λ b c. Elsewhere-undo_fence prior old b (record { elsewhere = c.elsewhere })

-- The fences as they stand are confined to any entry.
pub IsConfined-refl :
    (key : String) (services : List String) (before : Fences)
    → IsConfined key services before before
IsConfined-refl key services before = record { elsewhere = λ k h. refl; entry = inl refl }

module _ (key : String) (services : List String) (before fences : Fences)
    (c : IsConfined key services before fences) where
  -- An entry is one of before, or the new one.
  old_or_new :
      (k : String) (f : WriterFence)
      → lookup k fences ≡ some f
      → (lookup k before ≡ some f)
        ⊎ ((key ≡ k) × (IsSound key f) × (f.is_active ≡ true → f.services ≡ services))
  old_or_new k f e = elim (Bool-cases (key == k)) [
    | inl same ↦ at_key ((eq_iff key k).0 same) c.entry
    | inr other ↦ inl (sym (c.elsewhere k (λ same. cc ((eq_iff key k).1 same))) ∙ e)
  ]
    where
      at_key :
          key ≡ k
          → (lookup key fences ≡ lookup key before)
            ⊎ ((g : WriterFence) × (lookup key fences ≡ some g)
                × (IsSound key g)
                × (g.is_active ≡ true → g.services ≡ services))
          → (lookup k before ≡ some f)
            ⊎ ((key ≡ k) × (IsSound key f) × (f.is_active ≡ true → f.services ≡ services))
      at_key same (inl kept) = inl (rw (← same) (sym kept ∙ rw same e))
      at_key same (inr (g, found, good, over)) =
          let p : g ≡ f = cc in inr (same, subst (IsSound key) p good, rw (← p) over)

  -- A change that is confined to one entry keeps the fences consistent, if the services that the
  -- entry may come to hold are free of every other active fence.
  pub IsConfined-IsConsistent :
      IsConsistent before
      → ((k : String) (g : WriterFence)
          → key ≢ k
          → lookup k before ≡ some g
          → g.is_active ≡ true
          → intersects_services g.services services ≡ false)
      → IsConsistent fences
  IsConfined-IsConsistent ok free = record {
    sound = λ k f e. elim (old_or_new k f e) [
      | inl old ↦ ok.sound k f old
      | inr (same, good, over) ↦ subst (λ j. IsSound j f) same good
    ];
    exclusive = λ k j f g apart e h p q. elim (old_or_new k f e) [
      | inl old ↦ elim (old_or_new j g h) [
        | inl older ↦ ok.exclusive k j f g apart old older p q
        | inr (same, good, over) ↦ rw (over q) (free k f (λ t. apart (sym t ∙ same)) old p)
      ]
      | inr (same, good, over) ↦ elim (old_or_new j g h) [
        | inl older ↦
            rw (over p, intersects_services_comm) (free j g (λ t. apart (sym same ∙ t)) older q)
        | inr (also, fine, too) ↦ absurd (apart (sym same ∙ also))
      ]
    ];
  }

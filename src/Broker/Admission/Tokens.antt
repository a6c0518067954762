-- ===== src/Broker/Admission/Tokens.antt =====
-- internal/migration/broker.go, `acceptFence`: what is accepted and what is recorded.
use askio_agent.Base.{ℕ, String, List, ◌≡◌, ◌≤◌, lookup, lookup-insert, arith, eq_iff, eq_refl}
use askio_agent.Base.Action.{done, final, ◌>>=◌}
use askio_agent.Envelope.{TaskEnvelope}
use askio_agent.Broker.State.{Broker}
use askio_agent.Broker.System.{System, call, persist_fences}
use askio_agent.Broker.Admission.{accept_fence, fence_key, token_of, record_token}

-- The highest token on record for a key.
abbrev pub recorded : {Host : Type 0} → String → Broker Host → ℕ
recorded key b = token_of (lookup key b.state.fences)

recorded-record_token :
    (key k : String) (token : ℕ) (fences : List (String × ℕ))
    → token_of (lookup k fences) ≤ token_of (lookup k (record_token key token fences))
unfolding record_token token_of
recorded-record_token key k token fences =
    ground (arith, lookup-insert key k token fences, eq_iff key k)

module _ {Host : Type 0} (sys : System Host) where
  -- Accepting a task never lowers the token on record for any key, whether the task is taken or
  -- refused.
  pub accept_fence_monotone :
      (task : TaskEnvelope) (key : String) (b : Broker Host)
      → recorded key b ≤ recorded key (final (accept_fence sys task b))
  unfolding accept_fence persist_fences ◌>>=◌ call
  accept_fence_monotone task key b =
      ground (arith, recorded-record_token (fence_key task) key task.fencing_token b.state.fences)

  -- A task that is taken has the highest token of its key, which was not above it before, and the
  -- state that records this is on disk.
  pub accept_fence_accepted :
      (task : TaskEnvelope) (b t : Broker Host)
      → accept_fence sys task b ≡ done tt t
      → (recorded (fence_key task) b ≤ task.fencing_token)
        × (recorded (fence_key task) t ≡ task.fencing_token)
        × (t.disk ≡ t.state)
  unfolding accept_fence persist_fences ◌>>=◌ call
  accept_fence_accepted task b t h = ground (
    arith,
    lookup-insert (fence_key task) (fence_key task) task.fencing_token b.state.fences,
    eq_refl (fence_key task),
  )

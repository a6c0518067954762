-- ===== src/Broker/Admission/Replay.antt =====
-- internal/migration/broker.go, `acceptFence`: a consumed envelope stays consumed until it expires.
use askio_agent.Base.{
  ℕ, String, List, [], ◌∷◌, ◌≡◌, ◌<◌, Option, none, some, lookup, lookup-insert, arith, eq_iff,
  eq_refl,
}
use askio_agent.Base.Action.{Ensures, done, final, ◌>>=◌}
use askio_agent.Envelope.{TaskEnvelope}
use askio_agent.Broker.State.{Broker, load_fences}
use askio_agent.Broker.System.{System, call, persist_fences}
use askio_agent.Broker.Admission.{accept_fence, prune_nonces}

read_entry : (String → Option ℕ) → Option String → Option ℕ
read_entry parse none = none
read_entry parse (some expiry) = parse expiry

-- The time at which a nonce on record expires.
abbrev pub expiry_on_record : (String → Option ℕ) → String → List (String × String) → Option ℕ
unfolding read_entry
expiry_on_record parse nonce m = read_entry parse (lookup nonce m)

-- The loop keeps an entry that has not expired.
expiry-prune_nonces :
    (parse : String → Option ℕ) (now : ℕ) (nonce : String) (expires_at : ℕ)
    (m : List (String × String))
    → expiry_on_record parse nonce m ≡ some expires_at
    → now < expires_at
    → expiry_on_record parse nonce (prune_nonces parse now m) ≡ some expires_at
unfolding prune_nonces lookup expiry_on_record
expiry-prune_nonces parse now nonce expires_at [] found early = found
expiry-prune_nonces parse now nonce expires_at ((k, e) ∷ m) found early =
    ground (arith, eq_iff k nonce, expiry-prune_nonces parse now nonce expires_at m)

-- What happens to the broker between two requests.
pub data Event (Host : Type 0) : Type 0 where
  -- A task arrives, with the host in any condition.
  arrive : TaskEnvelope → Host → Event Host
  -- The process ends, and a new one reads the state file.
  restart : Event Host

module _ {Host : Type 0} (sys : System Host) where
  -- On record in memory and in the state file.
  pub record Retains (nonce : String) (expires_at : ℕ) (b : Broker Host) : Type 0 where
    pub held : expiry_on_record sys.parse_time nonce b.state.seen_nonce_expiries ≡ some expires_at
    pub stored : expiry_on_record sys.parse_time nonce b.disk.seen_nonce_expiries ≡ some expires_at

  unfoldable pub step : Event Host → Broker Host → Broker Host
  step (arrive task host) b = final (accept_fence sys task (record b { host = host }))
  step restart b = load_fences b

  unfoldable pub run : List (Event Host) → Broker Host → Broker Host
  unfolding step
  run [] b = b
  run (e ∷ es) b = run es (step e b)

  abbrev IsBefore : ℕ → Event Host → Type 0
  IsBefore time (arrive task host) = (sys.now host).0 < time
  IsBefore time restart = Unit {0}

  -- Every request comes before the given time.
  abbrev pub AllBefore : ℕ → List (Event Host) → Type 0
  AllBefore time [] = Unit {0}
  AllBefore time (e ∷ es) = IsBefore time e × AllBefore time es

  -- The task is refused, with nothing written and no token changed.
  abbrev pub RefusedAsConsumed : Broker Host → TaskEnvelope → Type 0
  RefusedAsConsumed b task =
      Ensures (λ _ _. ⊥)
        (λ e t.
          (e ≡ "broker task envelope was already consumed")
          × (t.disk ≡ b.disk)
          × (t.state.fences ≡ b.state.fences))
        (accept_fence sys task b)

  Retains-refused :
      (task : TaskEnvelope) (expires_at : ℕ) (b : Broker Host)
      → Retains task.nonce expires_at b
      → (sys.now b.host).0 < expires_at
      → RefusedAsConsumed b task
  unfolding accept_fence ◌>>=◌ call expiry_on_record
  Retains-refused task expires_at b kept early = ground (
    arith,
    expiry-prune_nonces sys.parse_time (sys.now b.host).0 task.nonce expires_at
        b.state.seen_nonce_expiries kept.held early,
  )

  arrive-Retains :
      (task : TaskEnvelope) (nonce : String) (expires_at : ℕ) (b : Broker Host)
      → Retains nonce expires_at b
      → (sys.now b.host).0 < expires_at
      → Retains nonce expires_at (final (accept_fence sys task b))
  unfolding accept_fence persist_fences ◌>>=◌ call expiry_on_record
  arrive-Retains task nonce expires_at b kept early = grind (
    arith,
    expiry-prune_nonces sys.parse_time (sys.now b.host).0 nonce expires_at
        b.state.seen_nonce_expiries kept.held early,
    eq_iff task.nonce nonce,
    lookup-insert {V = String} task.nonce nonce,
  )

  step-Retains :
      (e : Event Host) (nonce : String) (expires_at : ℕ) (b : Broker Host)
      → IsBefore expires_at e
      → Retains nonce expires_at b
      → Retains nonce expires_at (step e b)
  unfolding step load_fences
  step-Retains (arrive task host) nonce expires_at b early kept =
      arrive-Retains task nonce expires_at (record b { host = host })
        (record { held = kept.held; stored = kept.stored }) early
  step-Retains restart nonce expires_at b early kept = record {
    held = kept.stored;
    stored = kept.stored;
  }

  run-Retains :
      (es : List (Event Host)) (nonce : String) (expires_at : ℕ) (b : Broker Host)
      → AllBefore expires_at es
      → Retains nonce expires_at b
      → Retains nonce expires_at (run es b)
  unfolding run
  run-Retains [] nonce expires_at b early kept = kept
  run-Retains (e ∷ es) nonce expires_at b early kept =
      run-Retains es nonce expires_at (step e b) early.1
        (step-Retains e nonce expires_at b early.0 kept)

  accepted-Retains :
      (task : TaskEnvelope) (expires_at : ℕ) (b t : Broker Host)
      → sys.parse_time (sys.format_time expires_at) ≡ some expires_at
      → sys.parse_time task.expires_at ≡ some expires_at
      → accept_fence sys task b ≡ done tt t
      → Retains task.nonce expires_at t
  unfolding accept_fence persist_fences ◌>>=◌ call expiry_on_record
  accepted-Retains task expires_at b t reads expiry accepted = ground (
    arith,
    lookup-insert task.nonce task.nonce (sys.format_time expires_at)
        (prune_nonces sys.parse_time (sys.now b.host).0 b.state.seen_nonce_expiries),
    eq_refl task.nonce,
  )

  -- An envelope that was taken is refused whenever its nonce comes again before it expires, with
  -- nothing written and no token changed: whatever tasks and restarts lie between, on any host. The
  -- expiry must read back from its printed form.
  pub accepted_once :
      (task again : TaskEnvelope) (expires_at : ℕ) (b t : Broker Host) (between : List (Event Host))
      (host : Host)
      → sys.parse_time (sys.format_time expires_at) ≡ some expires_at
      → sys.parse_time task.expires_at ≡ some expires_at
      → accept_fence sys task b ≡ done tt t
      → AllBefore expires_at between
      → again.nonce ≡ task.nonce
      → (sys.now host).0 < expires_at
      → RefusedAsConsumed (record (run between t) { host = host }) again
  accepted_once task again expires_at b t between host reads expiry accepted early same now =
      let kept =
        run-Retains between task.nonce expires_at t early
          (accepted-Retains task expires_at b t reads expiry accepted) in
      Retains-refused again expires_at (record (run between t) { host = host })
        (record { held = rw same kept.held; stored = rw same kept.stored }) now

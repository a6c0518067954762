-- ===== src/Migration/Task/Accepted.antt =====
-- internal/migration/task.go: an envelope is accepted once.
pub mod Authentic
use askio_agent.Base.{
  ℕ, ◌+◌, ◌≤◌, String, true, not, ◌&&◌, List, [], ◌∷◌, Option, none, some, ◌≡◌, ◌≢◌, refl, ap,
  subst, ◌∙◌, ◌==◌, eq_iff, eq_refl, lookup, lookup-insert, arith,
}
use askio_agent.Base.Action.{Action, done, pure, raise, gets, modify, ◌>>=◌}
use askio_agent.Base.Action.Returns.{
  Returns, Always, Returns-bind, Returns-after, Returns-pure, Returns-from, Returns-check-then,
  Returns-gets, Returns-Keeps, returned,
}
use askio_agent.Envelope.{Json, TaskEnvelope}
use askio_agent.Migration.Canonical.{Codec, canonical_json, digest}
use askio_agent.Migration.Task.{
  PersistentState, Runner, Backend, Signatures, Identity, load_state, read_back, ask, save_state,
  settle_save,
}
use askio_agent.Migration.Task.Posts.{IsHostless, Keeps-verify_signed_task_envelope}
use askio_agent.Migration.Task.Envelopes.{
  byte_length, clock_skew, maximum_validity, is_current, same_text, has_expired, prune_expiries,
  has_entry, envelope_unsigned, signature_holds, canonical_of, verify_signed_task_envelope,
  verify_envelope,
}
use askio_agent.Migration.Task.Rounds.{accepted_state, accept_task}

-- The nonce is on record, with an expiry that the clock has not passed.
record Recorded {Host : Type 0} (b : Backend Host) (nonce : String) (r : Runner Host) : Type 0 where
  expiry : String
  time : ℕ
  held : lookup nonce r.state.seen_nonce_expiries ≡ some expiry
  read : b.parse_time expiry ≡ some time
  early : (h : Host) → (b.now h).0 ≤ time

lookup-prune_expiries :
    (parse : String → Option ℕ) (now time : ℕ) (nonce expiry : String) (m : List (String × String))
    → parse expiry ≡ some time
    → now ≤ time
    → lookup nonce m ≡ some expiry
    → lookup nonce (prune_expiries parse now m) ≡ some expiry
unfolding prune_expiries lookup has_expired
lookup-prune_expiries parse now time nonce expiry [] read early held = held
lookup-prune_expiries parse now time nonce expiry ((k, e) ∷ m) read early held =
    ground (arith, eq_iff k nonce, lookup-prune_expiries parse now time nonce expiry m)

module _ {Host : Type 0} (b : Backend Host) (codec : Codec) (keys : Signatures) (me : Identity)
    (task : TaskEnvelope) where
  Recorded-IsHostless : IsHostless {Host = Host} (Recorded b task.nonce)
  Recorded-IsHostless = record {
    at = λ r h q. record {
      expiry = q.expiry;
      time = q.time;
      held = q.held;
      read = q.read;
      early = q.early;
    };
  }

  -- The record as it is after the clock was read.
  record Read (now : ℕ) (r : Runner Host) : Type 0 where
    entry : Recorded b task.nonce r
    in_time : now ≤ entry.time

  pruned-Recorded :
      (now : ℕ) (r : Runner Host)
      → Read now r
      → Recorded b task.nonce (record r {
        state = record r.state {
          seen_nonce_expiries = prune_expiries b.parse_time now r.state.seen_nonce_expiries;
        };
      })
  pruned-Recorded now r q = record {
    expiry = q.entry.expiry;
    time = q.entry.time;
    held =
        lookup-prune_expiries b.parse_time now q.entry.time task.nonce q.entry.expiry
          r.state.seen_nonce_expiries q.entry.read q.in_time q.entry.held;
    read = q.entry.read;
    early = q.entry.early;
  }

  found-refused :
      (d : String) (entries : List (String × String)) (r : Runner Host)
      → Recorded b task.nonce r × (entries ≡ r.state.seen_nonce_expiries)
      → not (has_entry (lookup task.nonce entries)) ≡ true
      → ⊥
  unfolding has_entry
  found-refused d entries r q free =
      recorded (lookup task.nonce entries) (ap (lookup task.nonce) q.1 ∙ q.0.held) free
    where
      recorded : (o : Option String) → o ≡ some q.0.expiry → not (has_entry o) ≡ true → ⊥
      recorded none e f = absurd cc
      recorded (some x) e f = absurd cc

  Returns-refused :
      Returns {A = String} (Recorded b task.nonce) (λ _ _. ⊥) (verify_envelope b codec keys me task)
  unfolding verify_envelope ask modify Recorded-IsHostless
  Returns-refused =
      Returns-bind {Q = λ _ r. Recorded b task.nonce r} _ _
        (Returns-Keeps _
          (Keeps-verify_signed_task_envelope Recorded-IsHostless b codec keys me task))
        (λ d. Returns-check-then _ _ _ (λ known.
          Returns-bind {Q = λ _ r. Recorded b task.nonce r} _ _ (Returns-gets _ (λ r q. q))
            (λ nonces. Returns-check-then _ _ _ (λ new.
              Returns-bind {Q = Read} _ _
                (record {
                  at = λ r q. record {
                    entry = Recorded-IsHostless.at r _ q;
                    in_time = q.early r.host;
                  };
                })
                (λ now.
                  Returns-bind {Q = λ _ r. Recorded b task.nonce r} _ _
                    (record { at = λ r q. pruned-Recorded now r q })
                    (λ u.
                      Returns-bind
                        {Q = λ entries r.
                          Recorded b task.nonce r × (entries ≡ r.state.seen_nonce_expiries)}
                        _ _ (Returns-gets _ (λ r q. (q, refl)))
                        (λ entries. record {
                          at = λ r q.
                              (Returns-check-then {P = λ s. s ≡ r} _ _ _
                                  (λ free. absurd (found-refused d entries r q free))).at
                                r refl;
                        })))))))

  lookup-accepted :
      (d : String) (s : PersistentState)
      → lookup task.nonce (accepted_state d task s).seen_nonce_expiries ≡ some task.expires_at
  unfolding accepted_state
  lookup-accepted d s = rw (lookup-insert, eq_refl) refl

  settled-durable :
      (e : Option String) (r t : Runner Host) (expiry : Option String)
      → lookup task.nonce r.state.seen_nonce_expiries ≡ expiry
      → settle_save e r ≡ done tt t
      → (lookup task.nonce t.state.seen_nonce_expiries ≡ expiry) × (t.disk ≡ some t.state)
  unfolding settle_save
  settled-durable none r t expiry h e = ground (arith, h, e)
  settled-durable (some x) r t expiry h e = absurd cc

  loaded-read_back :
      (start u : Runner Host) (s : PersistentState) (o : Option PersistentState)
      → o ≡ some s
      → read_back o start ≡ done tt u
      → u.state ≡ s
  unfolding read_back ◌>>=◌ modify
  loaded-read_back start u s none e h = absurd cc
  loaded-read_back start u s (some x) e h = ground (arith, h, e)

  loaded-state :
      (start u : Runner Host) (s : PersistentState)
      → start.disk ≡ some s
      → load_state start ≡ done tt u
      → u.state ≡ s
  unfolding load_state gets ◌>>=◌
  loaded-state start u s e h = loaded-read_back start u s start.disk e h

  Returns-remembers :
      Returns Always
        (λ _ r.
          (lookup task.nonce r.state.seen_nonce_expiries ≡ some task.expires_at)
          × (r.disk ≡ some r.state))
        (accept_task b codec keys me task)
  unfolding accept_task modify save_state
  Returns-remembers = Returns-after _ _ (λ d.
      Returns-bind {Q = λ _ r. lookup task.nonce r.state.seen_nonce_expiries ≡ some task.expires_at}
        _ _ (record { at = λ r u. lookup-accepted d r.state })
        (λ u.
          Returns-bind
            {Q = λ _ r.
              (lookup task.nonce r.state.seen_nonce_expiries ≡ some task.expires_at)
              × (r.disk ≡ some r.state)}
            _ _ (Returns-from _ (λ r x t q e. settled-durable _ _ t (some task.expires_at) q e))
            (λ v. Returns-pure d (λ r q. q))))

  -- After an envelope was accepted the process may end at once: a new one reads the state file, and
  -- as long as the clock shows no time after the envelope's expiry it refuses the envelope.
  pub accept_task-once :
      (r t u v : Runner Host) (d w : String) (start : Runner Host) (time : ℕ)
      → accept_task b codec keys me task r ≡ done d t
      → start.disk ≡ t.disk
      → load_state start ≡ done tt u
      → b.parse_time task.expires_at ≡ some time
      → ((h : Host) → (b.now h).0 ≤ time)
      → accept_task b codec keys me task u ≢ done w v
  unfolding accept_task
  accept_task-once r t u v d w start time ran same loaded read early again =
      returned {P = Recorded b task.nonce} {Q = λ _ _. ⊥} _ u w v
        (Returns-bind {Q = λ _ _. ⊥} _ _ Returns-refused (λ x. record { at = λ s h. absurd h }))
        (record {
          expiry = task.expires_at;
          time = time;
          held =
              ap (λ s. lookup task.nonce s.seen_nonce_expiries)
                (loaded-state start u t.state (same ∙ kept.1) loaded)
              ∙ kept.0;
          read = read;
          early = early;
        })
        again
    where
      kept :
          (lookup task.nonce t.state.seen_nonce_expiries ≡ some task.expires_at)
          × (t.disk ≡ some t.state)
      kept =
          returned {P = Always}
            {Q = λ _ r.
              (lookup task.nonce r.state.seen_nonce_expiries ≡ some task.expires_at)
              × (r.disk ≡ some r.state)}
            _ r d t Returns-remembers tt ran

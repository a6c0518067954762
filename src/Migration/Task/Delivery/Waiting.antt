-- ===== src/Migration/Task/Delivery/Waiting.antt =====
-- internal/migration/task.go: a result waits while the backend cannot be reached.
use askio_agent.Base.{
  ℕ, zero, suc, String, Bool, true, false, Option, none, some, ◌≡◌, ◌≢◌, refl, if◌then◌else◌, ap,
  ◌∙◌,
}
use askio_agent.Base.Action.{
  Ensures, Ensures-bind, Action, Outcome, done, fail, final, pure, gets, match_option, ◌>>=◌,
}
use askio_agent.Envelope.{Fields}
use askio_agent.Migration.Canonical.{Codec}
use askio_agent.Migration.Task.{
  PersistentState, Runner, Reply, answered, status_error, broken, Backend, Signatures, Identity,
  post_signed,
}
use askio_agent.Migration.Task.Posts.{IsHostless, post_signed-Ensures}
use askio_agent.Migration.Task.Rounds.{
  Handled, is_fenced_off, failure, settle_flush, pending_body, flush_pending, is_final, run_once,
}

-- No post gets through, and none is answered by the fence.
pub record IsUnreachable {Host : Type 0} (b : Backend Host) : Type 0 where
  pub no_answer :
      (route : String) (body : Fields) (h : Host) → failure (b.post route body h).0 ≢ none
  pub no_fence :
      (route : String) (body : Fields) (h : Host) → is_fenced_off (b.post route body h).0 ≡ false

-- The state in memory and the state file are those given.
pub record IsUnchanged {Host : Type 0} (state : PersistentState) (disk : Option PersistentState)
    (r : Runner Host) : Type 0 where
  pub same_state : r.state ≡ state
  pub same_disk : r.disk ≡ disk

module _ {Host : Type 0} (b : Backend Host) (codec : Codec) (keys : Signatures)
    (me : Identity) where
  -- `n` rounds after one another.
  unfoldable pub rounds : ℕ → Runner Host → Runner Host
  rounds zero r = r
  rounds (suc n) r = rounds n (final (run_once b codec keys me r))

module _ {Host : Type 0} (b : Backend Host) (codec : Codec) (keys : Signatures) (me : Identity)
    (state : PersistentState) (disk : Option PersistentState) where
  IsUnchanged-IsHostless : IsHostless {Host = Host} (IsUnchanged state disk)
  IsUnchanged-IsHostless = record {
    at = λ r h q. record { same_state = q.same_state; same_disk = q.same_disk };
  }

  -- The round is over, and nothing changed.
  abbrev Waited : Handled → Runner Host → Type 0
  Waited h t = (is_final h ≡ true) × IsUnchanged state disk t

  settle_flush-Waited :
      (reply : Reply) (r : Runner Host)
      → (failure reply ≢ none) × (is_fenced_off reply ≡ false)
      → IsUnchanged state disk r
      → Ensures Waited (λ _ _. ⊥) (settle_flush b codec keys me reply r)
  unfolding settle_flush match_option failure pure is_final
  settle_flush-Waited (answered a) r lost q = absurd (lost.0 refl)
  settle_flush-Waited (status_error code text) r lost q = rw (lost.1) (refl, q)
  settle_flush-Waited (broken e) r lost q = (refl, q)

  flush-Waited :
      (route : String) (body : Fields) (r : Runner Host) (o : Option Fields)
      → IsUnreachable b
      → o ≡ some body
      → IsUnchanged state disk r
      → Ensures Waited
          (λ _ _. ⊥)
          (match_option o
            (pure (record { handled = false; error = none }))
            (λ waiting. post_signed b codec keys me route waiting >>= settle_flush b codec keys me)
            r)
  unfolding match_option is_fenced_off failure
  flush-Waited route body r none off e q = absurd cc
  flush-Waited route body r (some waiting) off e q =
      Ensures-bind _ _
        (λ reply t.
          ((failure reply ≢ none) × (is_fenced_off reply ≡ false)) × IsUnchanged state disk t)
        _ _ r
        (post_signed-Ensures IsUnchanged-IsHostless b codec keys me
          (λ reply. (failure reply ≢ none) × (is_fenced_off reply ≡ false))
          (λ x. (λ same. absurd cc, refl))
          (λ path fields h. (off.no_answer path fields h, off.no_fence path fields h)) _ _ r q)
        (λ reply t h. settle_flush-Waited reply t h.0 h.1)

  flush_pending-Waited :
      (body : Fields) (r : Runner Host)
      → IsUnreachable b
      → pending_body r.state ≡ some body
      → IsUnchanged state disk r
      → Ensures Waited (λ _ _. ⊥) (flush_pending b codec keys me r)
  unfolding flush_pending ◌>>=◌ gets
  flush_pending-Waited body r off p q =
      flush-Waited r.state.pending_route body r (pending_body r.state) off p q

  stop_round :
      (ends : Bool) (h : Handled) (m : Action (Runner Host) Handled) (t : Runner Host)
      → (ends ≡ true) × IsUnchanged state disk t
      → IsUnchanged state disk (final ((if ends then pure h else m) t))
  unfolding pure
  stop_round true h m t q = q.1
  stop_round false h m t q = absurd cc

  run_once-IsUnchanged :
      (body : Fields) (r : Runner Host)
      → IsUnreachable b
      → pending_body r.state ≡ some body
      → IsUnchanged state disk r
      → IsUnchanged state disk (final (run_once b codec keys me r))
  unfolding run_once ◌>>=◌
  run_once-IsUnchanged body r off p q = by_outcome _ _ (flush_pending-Waited body r off p q)
    where
      by_outcome :
          (m : Action (Runner Host) Handled) (o : Outcome (Runner Host) Handled)
          → Ensures Waited (λ _ _. ⊥) o
          → IsUnchanged state disk (
              final {S = Runner Host} {A = Handled}
                (elim o [ done h t ↦ (if is_final h then pure h else m) t | fail e t ↦ fail e t ]))
      by_outcome m (done h t) w = stop_round (is_final h) h m t w
      by_outcome m (fail e t) w = absurd w

module _ {Host : Type 0} (b : Backend Host) (codec : Codec) (keys : Signatures)
    (me : Identity) where
  rounds-kept :
      (n : ℕ) (state : PersistentState) (disk : Option PersistentState) (body : Fields)
      (r : Runner Host)
      → IsUnreachable b
      → pending_body state ≡ some body
      → IsUnchanged state disk r
      → IsUnchanged state disk (rounds b codec keys me n r)
  unfolding rounds
  rounds-kept zero state disk body r off p q = q
  rounds-kept (suc n) state disk body r off p q = rounds-kept n state disk body _ off p (
      run_once-IsUnchanged b codec keys me state disk body r off (ap pending_body q.same_state ∙ p)
        q)

  -- While no post gets through and none is answered by the fence, any number of rounds leaves a
  -- waiting result where it is, in memory and in the state file, and claims no other task.
  pub rounds-IsUnchanged :
      (n : ℕ) (body : Fields) (r : Runner Host)
      → IsUnreachable b
      → pending_body r.state ≡ some body
      → IsUnchanged r.state r.disk (rounds b codec keys me n r)
  rounds-IsUnchanged n body r off p =
      rounds-kept n r.state r.disk body r off p (record { same_state = refl; same_disk = refl })

-- ===== src/Migration/Task/Delivery.antt =====
-- internal/migration/task.go: a result waits until the backend takes it.
pub mod Waiting
use askio_agent.Base.{
  ℕ, zero, suc, String, Bool, true, false, Option, none, some, ◌≡◌, ◌≢◌, refl, sym, if◌then◌else◌,
  ap, ◌∙◌,
}
use askio_agent.Base.Action.{
  Ensures, Ensures-bind, Action, Outcome, done, fail, final, pure, gets, modify, attempt,
  match_option, ◌>>=◌, ◌>>◌,
}
use askio_agent.Envelope.{Json, Fields}
use askio_agent.Migration.Canonical.{Codec, canonical_json}
use askio_agent.Migration.Task.{
  PersistentState, Runner, Reply, answered, status_error, broken, Backend, Signatures, Identity,
  ask, change, nonce_of, signature_of, save_state, settle_save, signed_body, post_reply,
  post_signed,
}
use askio_agent.Migration.Task.Posts.{IsHostless, post_signed-Ensures}
use askio_agent.Migration.Task.Rounds.{
  Handled, idle, is_fenced_off, failure, save_and_return, settle_flush, pending_body, flush_pending,
  is_final, run_once,
}
use askio_agent.Migration.Task.Delivery.Waiting.{IsUnchanged}

-- Posts are answered, writes succeed, and requests can be signed.
pub record IsReachable {Host : Type 0} (b : Backend Host) (codec : Codec) : Type 0 where
  pub answers : (route : String) (body : Fields) (h : Host) → failure (b.post route body h).0 ≡ none
  pub writes : (s : PersistentState) (h : Host) → (b.write_state s h).0 ≡ none
  pub draws : (h : Host) → (b.random_nonce h).0 ≢ none
  pub encodes : (v : Json) → canonical_json codec v ≢ none

module _ {Host : Type 0} (b : Backend Host) (codec : Codec) (keys : Signatures)
    (me : Identity) where
  -- From the first state the body was signed and posted, and nothing was done to the host since.
  pub record IsSent (route : String) (body : Fields) (start t : Runner Host) : Type 0 where
    pub signed : Fields
    pub drawn : Runner Host
    pub made : signed_body b codec keys me route body start ≡ done signed drawn
    pub sent : t.host ≡ (b.post route signed drawn.host).1

  -- From the first state the body was signed and posted, and then the last state was written, once.
  pub record IsPosted (route : String) (body : Fields) (start t : Runner Host) : Type 0 where
    pub signed : Fields
    pub drawn : Runner Host
    pub made : signed_body b codec keys me route body start ≡ done signed drawn
    pub written : t.host ≡ (b.write_state t.state (b.post route signed drawn.host).1).1

module _ {Host : Type 0} (b : Backend Host) (codec : Codec) (keys : Signatures) (me : Identity)
    (state : PersistentState) (route : String) (waiting : Fields) (start : Runner Host) where
  -- The result was posted and taken, and the state file says so.
  abbrev Delivered : Handled → Runner Host → Type 0
  Delivered h t =
      (h ≡ record { handled = true; error = none })
      × IsUnchanged (idle state) (some (idle state)) t
      × IsPosted b codec keys me route waiting start t

  abbrev Sent : Runner Host → Type 0
  Sent t = IsSent b codec keys me route waiting start t

  abbrev Started : Runner Host → Type 0
  Started r = r.state ≡ state

  saved-Delivered :
      (e : Option String) (r : Runner Host)
      → e ≡ none
      → r.state ≡ idle state
      → IsPosted b codec keys me route waiting start r
      → Ensures Delivered
          (λ _ _. ⊥)
          ((attempt (settle_save e) >>= λ e. pure (record { handled = true; error = e })) r)
  unfolding ◌>>=◌ attempt settle_save pure
  saved-Delivered none r p q w = (
    refl,
    record { same_state = q; same_disk = ap some q },
    record { signed = w.signed; drawn = w.drawn; made = w.made; written = w.written },
  )
  saved-Delivered (some x) r p q w = absurd cc

  module _ (live : IsReachable b codec) where
    drawn-Started :
        (o : Option String) (r : Runner Host)
        → o ≢ none
        → Started r
        → Ensures (λ _ t. Started t) (λ _ _. ⊥) (nonce_of b codec keys me o r)
    unfolding nonce_of pure
    drawn-Started none r p q = absurd (p refl)
    drawn-Started (some n) r p q = q

    signed-Started :
        (o : Option String) (r : Runner Host)
        → o ≢ none
        → Started r
        → Ensures (λ _ t. Started t) (λ _ _. ⊥) (signature_of b codec keys me o r)
    unfolding signature_of pure
    signed-Started none r p q = absurd (p refl)
    signed-Started (some n) r p q = q

    signed_body-Started :
        (route : String) (body : Fields) (r : Runner Host)
        → Started r
        → Ensures (λ _ t. Started t) (λ _ _. ⊥) (signed_body b codec keys me route body r)
    unfolding signed_body ask pure
    signed_body-Started route body r q =
        Ensures-bind _ _ (λ o t. (o ≢ none) × Started t) _ _ r (live.draws r.host, q)
          (λ o t h.
            Ensures-bind _ _ (λ _ u. Started u) _ _ t (drawn-Started o t h.0 h.1)
              (λ n u i.
                Ensures-bind _ _ (λ _ v. Started v) _ _ u i
                  (λ stamp v j.
                    Ensures-bind _ _ (λ _ w. Started w) _ _ v
                      (signed-Started _ v (live.encodes _) j) (λ x w k. k))))

    settle_flush-Delivered :
        (o : Option String) (refused : String → Action (Runner Host) Handled) (r : Runner Host)
        → o ≡ none
        → Started r
        → Sent r
        → Ensures Delivered
            (λ _ _. ⊥)
            (match_option o (change idle >> save_and_return b codec keys me) refused r)
    unfolding match_option save_and_return save_state ◌>>=◌ modify attempt
    settle_flush-Delivered (some x) refused r p q w = absurd cc
    settle_flush-Delivered none refused r p q w =
        saved-Delivered (b.write_state (idle r.state) r.host).0 _ (live.writes _ _) (ap idle q)
          (record {
            signed = w.signed;
            drawn = w.drawn;
            made = w.made;
            written = ap (λ h. (b.write_state (idle r.state) h).1) w.sent;
          })

    posted-Delivered :
        (o : Outcome (Runner Host) Fields)
        → signed_body b codec keys me route waiting start ≡ o
        → Ensures (λ _ t. Started t) (λ _ _. ⊥) o
        → Ensures
            (λ reply t. (failure reply ≡ none) × Started t × Sent t)
            (λ _ _. ⊥)
            (post_reply b codec keys me route o)
    unfolding post_reply
    posted-Delivered (done body r) e q = (
      live.answers route body r.host,
      q,
      record { signed = body; drawn = r; made = e; sent = refl },
    )
    posted-Delivered (fail x r) e q = absurd q

    flush-Delivered :
        (o : Option Fields)
        → o ≡ some waiting
        → Started start
        → Ensures Delivered
            (λ _ _. ⊥)
            (match_option o
              (pure (record { handled = false; error = none }))
              (λ body. post_signed b codec keys me route body >>= settle_flush b codec keys me)
              start)
    unfolding match_option post_signed settle_flush
    flush-Delivered none e q = absurd cc
    flush-Delivered (some body) e q =
        Ensures-bind _ _ (λ reply t. (failure reply ≡ none) × Started t × Sent t) _ _ start
          (posted-Delivered _ (ap (λ x. signed_body b codec keys me route x start) (sym (same e)))
            (signed_body-Started route body start q))
          (λ reply t h. settle_flush-Delivered _ _ t h.0 h.1 h.2)
      where
        same : some body ≡ some waiting → body ≡ waiting
        same p = cc

    end_round :
        (ends : Bool) (h : Handled) (m : Action (Runner Host) Handled) (t : Runner Host)
        → ends ≡ true
        → Delivered h t
        → Ensures Delivered (λ _ _. ⊥) ((if ends then pure h else m) t)
    unfolding pure
    end_round true h m t e q = q
    end_round false h m t e q = absurd cc

    Delivered-is_final : (h : Handled) (t : Runner Host) → Delivered h t → is_final h ≡ true
    unfolding is_final
    Delivered-is_final h t q = ap is_final q.0

module _ {Host : Type 0} (b : Backend Host) (codec : Codec) (keys : Signatures)
    (me : Identity) where
  flush_pending-Delivered :
      (body : Fields) (r : Runner Host)
      → IsReachable b codec
      → pending_body r.state ≡ some body
      → Ensures
          (Delivered b codec keys me r.state r.state.pending_route body r)
          (λ _ _. ⊥)
          (flush_pending b codec keys me r)
  unfolding flush_pending gets ◌>>=◌
  flush_pending-Delivered body r live p =
      flush-Delivered b codec keys me r.state r.state.pending_route body r live
        (pending_body r.state) p refl

  -- When the backend answers, writes succeed and requests can be signed, one round signs a waiting
  -- result and posts it to the route on record, then writes the state, and returns without an error;
  -- the idle state is in memory and in the state file.
  pub run_once-Delivered :
      (body : Fields) (r : Runner Host)
      → IsReachable b codec
      → pending_body r.state ≡ some body
      → Ensures
          (λ h t.
            (h ≡ record { handled = true; error = none })
            × IsUnchanged (idle r.state) (some (idle r.state)) t
            × IsPosted b codec keys me r.state.pending_route body r t)
          (λ _ _. ⊥)
          (run_once b codec keys me r)
  unfolding run_once
  run_once-Delivered body r live p =
      Ensures-bind _ _ (Delivered b codec keys me r.state r.state.pending_route body r) _ _ r
        (flush_pending-Delivered body r live p)
        (λ h t q.
          end_round b codec keys me r.state r.state.pending_route body r live (is_final h) h _ t
            (Delivered-is_final b codec keys me r.state r.state.pending_route body r live h t q) q)

-- ===== src/Migration/Task/Posts.antt =====
-- internal/migration/task.go: signing and posting touch nothing but the host.
use askio_agent.Base.{String, Option, none, some}
use askio_agent.Base.Action.{Outcome, done, fail, final, Ensures}
use askio_agent.Base.Action.Keeps.{
  Keeps, Keeps-pure, Keeps-raise, Keeps-bind, Keeps-then, Keeps-check,
}
use askio_agent.Base.Action.Ends.{Runs}
use askio_agent.Envelope.{Fields, TaskEnvelope}
use askio_agent.Migration.Canonical.{Codec}
use askio_agent.Migration.Task.{
  Runner, Reply, broken, Backend, Signatures, Identity, ask, nonce_of, signature_of, signed_body,
  post_reply, post_signed,
}
use askio_agent.Migration.Task.Envelopes.{verify_signed_task_envelope, canonical_of, digest_of}

-- A property that does not look at the host.
pub record IsHostless {Host : Type 0} (Q : Runner Host → Type 0) : Type 0 where
  pub at : (r : Runner Host) (h : Host) → Q r → Q (record r { host = h })

module _ {Host : Type 0} {Q : Runner Host → Type 0} (k : IsHostless Q) where
  pub Keeps-ask : {A : Type 0} (f : Host → A × Host) → Keeps Q (ask f)
  unfolding ask
  Keeps-ask f = record { at = λ r q. k.at r _ q }

  module _ (b : Backend Host) (codec : Codec) (keys : Signatures) (me : Identity) where
    Keeps-signed_body :
        (route : String) (body : Fields) → Keeps Q (signed_body b codec keys me route body)
    unfolding signed_body nonce_of signature_of
    Keeps-signed_body route body = Keeps-bind _ _ (Keeps-ask _) (λ drawn.
        Keeps-bind _ _ (nonce drawn) (λ n.
          Keeps-bind _ _ (Keeps-ask _) (λ stamp. Keeps-bind _ _ (signature _) (λ s. Keeps-pure _))))
      where
        nonce : (o : Option String) → Keeps Q (nonce_of b codec keys me o)
        nonce none = Keeps-raise _
        nonce (some n) = Keeps-pure _

        signature : (o : Option String) → Keeps Q (signature_of b codec keys me o)
        signature none = Keeps-raise _
        signature (some n) = Keeps-pure _

    module _ (T : Reply → Type 0) (unsent : (e : String) → T (broken e))
        (sent : (route : String) (body : Fields) (h : Host) → T (b.post route body h).0) where
      posted-Ensures :
          (route : String) (o : Outcome (Runner Host) Fields)
          → Q (final o)
          → Ensures (λ reply t. T reply × Q t) (λ _ _. ⊥) (post_reply b codec keys me route o)
      unfolding post_reply
      posted-Ensures route (done body r) q = (sent route body r.host, k.at r _ q)
      posted-Ensures route (fail e r) q = (unsent e, q)

      -- A post returns a reply, and what holds of every reply holds of it.
      pub post_signed-Ensures :
          (route : String) (fields : Fields) (r : Runner Host)
          → Q r
          → Ensures
              (λ reply t. T reply × Q t)
              (λ _ _. ⊥)
              (post_signed b codec keys me route fields r)
      unfolding post_signed
      post_signed-Ensures route fields r q =
          posted-Ensures route _ ((Keeps-signed_body route fields).at r q)

    second-Ensures :
        (o : Outcome (Runner Host) Reply)
        → Ensures (λ _ t. Unit {0} × Q t) (λ _ _. ⊥) o
        → Ensures (λ _ t. Q t) (λ _ _. ⊥) o
    second-Ensures (done reply t) h = h.1
    second-Ensures (fail e t) h = h

    pub Runs-post_signed :
        (route : String) (fields : Fields) → Runs Q (post_signed b codec keys me route fields)
    Runs-post_signed route fields = record {
      at = λ r q.
          second-Ensures _
            (post_signed-Ensures (λ _. Unit {0}) (λ e. tt) (λ _ _ _. tt) route fields r q);
    }

    pub Keeps-verify_signed_task_envelope :
        (task : TaskEnvelope) → Keeps Q (verify_signed_task_envelope b codec keys me task)
    unfolding verify_signed_task_envelope canonical_of digest_of
    Keeps-verify_signed_task_envelope task = Keeps-then _ _ (Keeps-check _ _) (
        Keeps-then _ _ (Keeps-check _ _) (
          Keeps-bind _ _ (Keeps-ask _) (λ now. Keeps-then _ _ (Keeps-check _ _) (
            Keeps-then _ _ (Keeps-check _ _) (
              Keeps-then _ _ (Keeps-check _ _) (
                Keeps-bind _ _ (canonical _)
                  (λ text. Keeps-then _ _ (Keeps-check _ _) (digested _))))))))
      where
        canonical : (o : Option String) → Keeps Q (canonical_of b codec keys me o)
        canonical none = Keeps-raise _
        canonical (some text) = Keeps-pure _

        digested : (o : Option String) → Keeps Q (digest_of b codec keys me o)
        digested none = Keeps-raise _
        digested (some d) = Keeps-pure _

-- ===== src/Migration/Task/Accepted/Authentic.antt =====
-- internal/migration/task.go: what an envelope has in it that passes the check of its signature.
use askio_agent.Base.{
  ℕ, ◌+◌, ◌≤◌, String, true, ◌&&◌, Option, none, some, ◌≡◌, refl, ap, subst, ◌==◌, eq_iff, arith,
}
use askio_agent.Base.Action.{Action, done, pure, raise, ◌>>=◌}
use askio_agent.Base.Action.Returns.{
  Returns, Returns-bind, Returns-from, Returns-check-then, returned,
}
use askio_agent.Envelope.{Json, TaskEnvelope}
use askio_agent.Migration.Canonical.{Codec, canonical_json, digest}
use askio_agent.Migration.Task.{Runner, Backend, Signatures, Identity, ask}
use askio_agent.Migration.Task.Envelopes.{
  byte_length, clock_skew, maximum_validity, is_current, same_text, envelope_unsigned,
  signature_holds, canonical_of, verify_signed_task_envelope,
}

-- The envelope is from the backend, for this agent, unaltered, and valid at the time.
pub record IsAuthentic {Host : Type 0} (b : Backend Host) (codec : Codec) (keys : Signatures)
    (me : Identity) (task : TaskEnvelope) (now : ℕ) : Type 0 where
  pub issued_at : ℕ
  pub expires_at : ℕ
  pub issued : b.parse_time task.issued_at ≡ some issued_at
  pub expires : b.parse_time task.expires_at ≡ some expires_at
  pub not_expired : now ≤ expires_at
  pub not_future : issued_at ≤ now + clock_skew
  pub short_lived : expires_at ≤ issued_at + maximum_validity
  pub addressee : task.agent_id ≡ me.agent_id
  pub issuer : task.key_id ≡ me.backend_key_id
  pub token : 32 ≤ byte_length task.attempt_token
  pub subject : digest codec (Json.object task.inputs) ≡ some task.subject_digest
  pub canonical : String
  pub signature : String
  pub encoded : canonical_json codec (Json.object (envelope_unsigned task)) ≡ some canonical
  pub decoded : keys.decode_base64 task.signature ≡ some signature
  pub verified : keys.verify canonical signature ≡ true

pub current-bounds :
    (now : ℕ) (issued expires : Option ℕ)
    → is_current now issued expires ≡ true
    → (i : ℕ) × (e : ℕ) × (issued ≡ some i)
      × (expires ≡ some e)
      × (now ≤ e)
      × (i ≤ now + clock_skew)
      × (e ≤ i + maximum_validity)
unfolding is_current
current-bounds now none expires h = absurd cc
current-bounds now (some i) none h = absurd cc
current-bounds now (some i) (some e) h =
    (i, e, refl, refl, ground (arith, h), ground (arith, h), ground (arith, h))

same_text-eq : (o : Option String) (s : String) → same_text o s ≡ true → o ≡ some s
unfolding same_text
same_text-eq none s h = absurd cc
same_text-eq (some t) s h = let e : t ≡ s = ground (arith, h, eq_iff t s) in ap some e

signed-verified :
    {Host : Type 0} (b : Backend Host) (codec : Codec) (keys : Signatures) (me : Identity)
    (text : String) (o : Option String)
    → signature_holds b codec keys me (some text) o ≡ true
    → (signature : String) × (o ≡ some signature) × (keys.verify text signature ≡ true)
unfolding signature_holds
signed-verified b codec keys me text none h = absurd cc
signed-verified b codec keys me text (some s) h = (s, refl, h)

module _ {Host : Type 0} (b : Backend Host) (codec : Codec) (keys : Signatures) (me : Identity)
    (task : TaskEnvelope) where
  Returns-canonical :
      {B : Type 0} {P : Runner Host → Type 0} {T : B → Runner Host → Type 0} (o : Option String)
      (n : String → Action (Runner Host) B)
      → ((text : String) → o ≡ some text → Returns P T (n text))
      → Returns P T (canonical_of b codec keys me o >>= n)
  unfolding canonical_of ◌>>=◌ raise pure
  Returns-canonical none n k = record { at = λ s h. tt }
  Returns-canonical (some text) n k = record { at = λ s h. (k text refl).at s h }

  last-IsAuthentic :
      (now i e : ℕ) (text : String)
      → (b.parse_time task.issued_at ≡ some i)
        × (b.parse_time task.expires_at ≡ some e)
        × (now ≤ e)
        × (i ≤ now + clock_skew)
        × (e ≤ i + maximum_validity)
      → (task.key_id == me.backend_key_id && task.agent_id == me.agent_id) ≡ true
      → 32 ≤ byte_length task.attempt_token
      → same_text (digest codec (Json.object task.inputs)) task.subject_digest ≡ true
      → canonical_json codec (Json.object (envelope_unsigned task)) ≡ some text
      → signature_holds b codec keys me (some text) (keys.decode_base64 task.signature) ≡ true
      → IsAuthentic b codec keys me task now
  last-IsAuthentic now i e text times addressed long subject encoded signed =
      let v = signed-verified b codec keys me text (keys.decode_base64 task.signature) signed in
      record {
        issued_at = i;
        expires_at = e;
        issued = times.0;
        expires = times.1;
        not_expired = times.2;
        not_future = times.3;
        short_lived = times.4;
        addressee = ground (arith, addressed, eq_iff task.agent_id me.agent_id);
        issuer = ground (arith, addressed, eq_iff task.key_id me.backend_key_id);
        token = long;
        subject = same_text-eq _ _ subject;
        canonical = text;
        signature = v.0;
        encoded = encoded;
        decoded = v.1;
        verified = v.2;
      }

  Returns-IsAuthentic :
      (r : Runner Host)
      → Returns
          (λ s. s ≡ r)
          (λ _ _. IsAuthentic b codec keys me task (b.now r.host).0)
          (verify_signed_task_envelope b codec keys me task)
  unfolding verify_signed_task_envelope ask
  Returns-IsAuthentic r = Returns-check-then _ _ _ (λ contract.
      Returns-check-then _ _ _ (λ addressed.
        Returns-bind {Q = λ now _. now ≡ (b.now r.host).0} _ _
          (record { at = λ s same. ap (λ x. (b.now x.host).0) same })
          (λ now. Returns-check-then _ _ _ (λ current. Returns-check-then _ _ _ (λ filled.
            Returns-check-then _ _ _ (λ subject. Returns-canonical _ _ (λ text encoded.
              Returns-check-then _ _ _ (λ signed. Returns-from _ (λ s d t same e.
                let times = current-bounds now _ _ current in
                subst (IsAuthentic b codec keys me task) same (
                  last-IsAuthentic now times.0 times.1 text
                    (times.2, times.3, times.4, times.5, times.6) addressed (ground (arith, filled))
                    subject encoded signed))))))))))

  -- An envelope that passes the check of its signature names this agent and the backend's key, has
  -- not expired at the time that was read, was issued thirty seconds later at most, is valid for ten
  -- minutes at most, has a token of 32 bytes at least and the digest of its own inputs, and its
  -- signature is one of the backend over all its other fields.
  pub verify_signed_task_envelope-IsAuthentic :
      (r t : Runner Host) (d : String)
      → verify_signed_task_envelope b codec keys me task r ≡ done d t
      → IsAuthentic b codec keys me task (b.now r.host).0
  verify_signed_task_envelope-IsAuthentic r t d ran =
      returned {P = λ s. s ≡ r} {Q = λ _ _. IsAuthentic b codec keys me task (b.now r.host).0} _ r d
        t (Returns-IsAuthentic r) refl ran

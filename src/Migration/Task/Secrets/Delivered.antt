-- ===== src/Migration/Task/Secrets/Delivered.antt =====
-- internal/migration/task.go, `resolveBinding`: what a secret that is given to a task was.
use askio_agent.Base.{
  ℕ, ◌≤◌, ◌<◌, String, Bool, true, false, ◌||◌, ◌&&◌, List, ◌++◌, Option, none, some, is_empty, ltb,
  eqb, ◌==◌, eq_iff, ◌≡◌, refl, ap, arith,
}
use askio_agent.Base.Action.{Outcome, Ensures, done, fail}
use askio_agent.Base.Action.Returns.{
  Returns, Always, Returns-after, Returns-known, Returns-imply, Returns-pure, Returns-raise,
  Returns-split, Returns-check-then, returned,
}
use askio_agent.Envelope.{Json, Fields, TaskEnvelope}
use askio_agent.Migration.Canonical.{Codec, canonical_json, digest}
use askio_agent.Migration.Task.{
  Runner, Answer, Reply, answered, status_error, broken, Backend, Signatures, Identity, post_reply,
  post_signed,
}
use askio_agent.Migration.Task.Envelopes.{same_text}
use askio_agent.Migration.Task.Bindings.{
  expected_binding_purpose, expected_binding_purpose-none, text_at,
}
use askio_agent.Migration.Task.Secrets.{
  SealedSecret, ParsedKey, bad_key, other_key, x25519_key, Vault, route_secret_unwrap, secret_key,
  secret_object, sealed_secret_aad, is_addressed, delivered, metadata_of, parse_x25519_public_key,
  agreed, sealed_parts, bounded_plaintext, unseal, check_secret, resolve_binding,
}
use askio_agent.Migration.Transfer.Bytes.{length}

-- The backend gave this secret as the answer to a request to unwrap one, with the digest of the secret.
pub record IsAnswered {Host : Type 0} (b : Backend Host) (vault : Vault) (secret : SealedSecret)
    (claimed : String) : Type 0 where
  pub before : Host
  pub after : Host
  pub body : Fields
  pub answer : Answer
  pub posted : b.post route_secret_unwrap body before ≡ (answered answer, after)
  pub decoded : vault.decode_secret answer ≡ (secret, claimed)

-- The secret is for this attempt, agent, key and binding, and for the purpose that the task's primitive
-- and role allow.
pub record IsMeant (vault : Vault) (me : Identity) (task : TaskEnvelope) (binding : String)
    (secret : SealedSecret) : Type 0 where
  pub attempt : secret.attempt_id ≡ task.attempt_id
  pub agent : secret.agent_id ≡ me.agent_id
  pub key : secret.agent_key_id ≡ vault.encryption_key_id
  pub asked : secret.binding_id ≡ binding
  pub purpose : secret.purpose ≡ expected_binding_purpose task binding
  pub purposeful : is_empty (expected_binding_purpose task binding) ≡ false

-- The bytes are what the secret's own ciphertext and tag open to, under the key agreed with its own
-- ephemeral key for this attempt, its own nonce, and its own other fields as additional data.
pub record IsOpened (codec : Codec) (vault : Vault) (task : TaskEnvelope) (secret : SealedSecret)
    (bytes : List ℕ) : Type 0 where
  pub ephemeral : String
  pub shared : List ℕ
  pub nonce_bytes : List ℕ
  pub sealed_bytes : List ℕ
  pub tag_bytes : List ℕ
  pub aad : String
  pub parsed : vault.parse_public_key secret.ephemeral_public_pem ≡ x25519_key ephemeral
  pub agreed_on : vault.agree ephemeral ≡ some shared
  pub nonce_read : vault.decode_base64 secret.nonce ≡ some nonce_bytes
  pub sealed_read : vault.decode_base64 secret.ciphertext ≡ some sealed_bytes
  pub tag_read : vault.decode_base64 secret.auth_tag ≡ some tag_bytes
  pub described : canonical_json codec (Json.object (sealed_secret_aad secret)) ≡ some aad
  pub opened :
      vault.gcm_open
        (secret_key vault task shared)
        nonce_bytes
        (sealed_bytes ++ tag_bytes)
        (vault.utf8 aad)
      ≡ some bytes
  pub filled : 0 < length bytes
  pub bounded : length bytes ≤ 65_536

-- A secret that the backend answered with, that was meant for the task, and that holds the bytes.
pub record IsDelivered {Host : Type 0} (b : Backend Host) (codec : Codec) (me : Identity)
    (vault : Vault) (task : TaskEnvelope) (binding : String) (bytes : List ℕ) : Type 0 where
  pub secret : SealedSecret
  pub claimed : String
  pub answered_with : IsAnswered b vault secret claimed
  pub intact : same_text (digest codec (secret_object secret)) claimed ≡ true
  pub meant : IsMeant vault me task binding secret
  pub holds : IsOpened codec vault task secret bytes

module _ {Host : Type 0} (b : Backend Host) (codec : Codec) (keys : Signatures) (me : Identity)
    (vault : Vault) where
  -- The answer, if there is one, came from the backend.
  abbrev IsPosted : Reply → Type 0
  IsPosted reply =
      (a : Answer)
      → reply ≡ answered a
      → (before : Host) × (after : Host) × (body : Fields) × (b.post route_secret_unwrap body before
          ≡ (answered a, after))

  post_reply-IsPosted :
      (o : Outcome (Runner Host) Fields)
      → Ensures
          (λ reply _. IsPosted reply)
          (λ _ _. Unit {0})
          (post_reply b codec keys me route_secret_unwrap o)
  unfolding post_reply
  post_reply-IsPosted (done body r) = λ a e. (
    r.host,
    (b.post route_secret_unwrap body r.host).1,
    body,
    ap (λ reply. (reply, (b.post route_secret_unwrap body r.host).1)) e,
  )
  post_reply-IsPosted (fail e r) = λ a p. cc

  Returns-post_signed :
      (fields : Fields)
      → Returns Always
          (λ reply _. IsPosted reply)
          (post_signed b codec keys me route_secret_unwrap fields)
  unfolding post_signed
  Returns-post_signed fields = record { at = λ r u. post_reply-IsPosted _ }

  Returns-delivered :
      (reply : Reply)
      → IsPosted reply
      → Returns Always (λ v _. IsAnswered b vault v.0 v.1) (delivered b codec keys me vault reply)
  unfolding delivered
  Returns-delivered (answered a) posted =
      let p = posted a refl in
      Returns-pure _ (λ r u. record {
        before = p.0;
        after = p.1;
        body = p.2;
        answer = a;
        posted = p.3;
        decoded = refl;
      })
  Returns-delivered (status_error code text) posted = Returns-raise _
  Returns-delivered (broken e) posted = Returns-raise _

  Returns-metadata_of :
      (o : Option String) → Returns Always (λ v _. o ≡ some v) (metadata_of b codec keys me vault o)
  unfolding metadata_of
  Returns-metadata_of none = Returns-raise _
  Returns-metadata_of (some text) = Returns-pure _ (λ r u. refl)

  Returns-parse_x25519_public_key :
      (k : ParsedKey)
      → Returns Always (λ v _. k ≡ x25519_key v) (parse_x25519_public_key b codec keys me vault k)
  unfolding parse_x25519_public_key
  Returns-parse_x25519_public_key bad_key = Returns-raise _
  Returns-parse_x25519_public_key other_key = Returns-raise _
  Returns-parse_x25519_public_key (x25519_key k) = Returns-pure _ (λ r u. refl)

  Returns-agreed :
      (o : Option (List ℕ)) → Returns Always (λ v _. o ≡ some v) (agreed b codec keys me vault o)
  unfolding agreed
  Returns-agreed none = Returns-raise _
  Returns-agreed (some shared) = Returns-pure _ (λ r u. refl)

  -- The parts are those that were decoded.
  abbrev AreParts : Option (List ℕ) → Option (List ℕ) → Option (List ℕ) → List ℕ × List ℕ → Type 0
  AreParts nonce sealed tag parts =
      (c : List ℕ) × (t : List ℕ) × (nonce ≡ some parts.0)
      × (sealed ≡ some c)
      × (tag ≡ some t)
      × (parts.1 ≡ c ++ t)

  Returns-sealed_parts :
      (nonce sealed tag : Option (List ℕ))
      → Returns Always
          (λ parts _. AreParts nonce sealed tag parts)
          (sealed_parts b codec keys me vault nonce sealed tag)
  unfolding sealed_parts
  Returns-sealed_parts (some n) (some c) (some t) =
      Returns-split (eqb (length n) 12 && eqb (length t) 16) _ _
        (λ p. Returns-pure _ (λ r u. (c, t, refl, refl, refl, refl))) (λ p. Returns-raise _)
  Returns-sealed_parts none c t = Returns-raise _
  Returns-sealed_parts (some n) none t = Returns-raise _
  Returns-sealed_parts (some n) (some c) none = Returns-raise _

  Returns-bounded_plaintext :
      (o : Option (List ℕ))
      → Returns Always
          (λ bytes _. (o ≡ some bytes) × (0 < length bytes) × (length bytes ≤ 65_536))
          (bounded_plaintext b codec keys me vault o)
  unfolding bounded_plaintext
  Returns-bounded_plaintext none = Returns-raise _
  Returns-bounded_plaintext (some bytes) =
      Returns-split (eqb (length bytes) 0 || ltb 65_536 (length bytes)) _ _ (λ p. Returns-raise _)
        (λ p. Returns-pure _ (λ r u. (refl, ground (arith, p), ground (arith, p))))

  module _ (task : TaskEnvelope) (binding : String) where
    Returns-unseal :
        (s : SealedSecret)
        → Returns Always
            (λ bytes _. IsOpened codec vault task s bytes)
            (unseal b codec keys me vault task s)
    unfolding unseal
    Returns-unseal s = Returns-known _ _ (Returns-parse_x25519_public_key _) (λ ephemeral parsed.
        Returns-known _ _ (Returns-agreed _) (λ shared agreed_on.
          Returns-known _ _
            (Returns-sealed_parts (vault.decode_base64 s.nonce) (vault.decode_base64 s.ciphertext)
              (vault.decode_base64 s.auth_tag))
            (λ parts read. Returns-known _ _ (Returns-metadata_of _) (λ aad described.
              Returns-imply _
                (Returns-bounded_plaintext
                  (vault.gcm_open (secret_key vault task shared) parts.0 parts.1 (vault.utf8 aad)))
                (λ bytes q. record {
                  ephemeral = ephemeral;
                  shared = shared;
                  nonce_bytes = parts.0;
                  sealed_bytes = read.0;
                  tag_bytes = read.1;
                  aad = aad;
                  parsed = parsed;
                  agreed_on = agreed_on;
                  nonce_read = read.2;
                  sealed_read = read.3;
                  tag_read = read.4;
                  described = described;
                  opened = rw (← (read.5)) (q.0);
                  filled = q.1;
                  bounded = q.2;
                })))))

    is_addressed-IsMeant :
        (delivery : String) (s : SealedSecret)
        → is_addressed me.agent_id vault.encryption_key_id
            (expected_binding_purpose task binding)
            task
            binding
            delivery
            s
          ≡ true
        → IsMeant vault me task binding s
    unfolding is_addressed
    is_addressed-IsMeant delivery s h = record {
      attempt = ground (arith, h, eq_iff s.attempt_id task.attempt_id);
      agent = ground (arith, h, eq_iff s.agent_id me.agent_id);
      key = ground (arith, h, eq_iff s.agent_key_id vault.encryption_key_id);
      asked = ground (arith, h, eq_iff s.binding_id binding);
      purpose = ground (arith, h, eq_iff s.purpose (expected_binding_purpose task binding));
      purposeful = ground (arith, h);
    }

    Returns-check_secret :
        (delivery : String) (s : SealedSecret) (claimed : String)
        → IsAnswered b vault s claimed
        → Returns Always
            (λ bytes _. IsDelivered b codec me vault task binding bytes)
            (check_secret b codec keys me vault task binding delivery s claimed)
    unfolding check_secret
    Returns-check_secret delivery s claimed answer = Returns-check-then _ _ _ (λ given.
        Returns-check-then _ _ _ (λ same. Returns-after _ _ (λ timely.
          Returns-check-then _ _ _ (λ addressed. Returns-imply _ (Returns-unseal s) (λ bytes opened.
            record {
              secret = s;
              claimed = claimed;
              answered_with = answer;
              intact = same;
              meant = is_addressed-IsMeant delivery s addressed;
              holds = opened;
            })))))

    Returns-resolve_binding :
        Returns Always
          (λ bytes _. IsDelivered b codec me vault task binding bytes)
          (resolve_binding b codec keys me vault task binding)
    unfolding resolve_binding
    Returns-resolve_binding = Returns-check-then _ _ _ (λ able. Returns-after _ _ (λ drawn.
        Returns-after _ _ (λ delivery. Returns-known _ _ (Returns-post_signed _) (λ reply posted.
          Returns-known _ _ (Returns-delivered reply posted)
            (λ answer answer_ok. Returns-check_secret delivery answer.0 answer.1 answer_ok)))))

    -- A secret that a task is given is one with which the backend answered a request to unwrap one, and
    -- agrees with the digest in the answer; it was sealed for the task's attempt, this agent and its
    -- key, and the binding that was asked for, with the purpose that the task's primitive and role
    -- allow; and the bytes are what its own ciphertext opens to for that attempt, 1 to 65536 of them.
    pub resolve_binding-IsDelivered :
        (r t : Runner Host) (bytes : List ℕ)
        → resolve_binding b codec keys me vault task binding r ≡ done bytes t
        → IsDelivered b codec me vault task binding bytes
    resolve_binding-IsDelivered r t bytes ran =
        returned {P = Always} {Q = λ bytes _. IsDelivered b codec me vault task binding bytes} _ r
          bytes t Returns-resolve_binding tt ran

    -- A task whose endpoint role is neither source nor target gets no secret, whatever its primitive,
    -- its inputs, the binding it asks for and the backend's answers: resolving the binding fails.
    pub resolve_binding-refused :
        (r : Runner Host)
        → (text_at "endpoint_role" task.inputs == "source") ≡ false
        → (text_at "endpoint_role" task.inputs == "target") ≡ false
        → Ensures
            (λ _ _. ⊥)
            (λ _ _. Unit {0})
            (resolve_binding b codec keys me vault task binding r)
    resolve_binding-refused r s u =
        (Returns-imply {T = λ _. ⊥} _ Returns-resolve_binding (λ bytes d. absurd (
            apart _ (ap is_empty (expected_binding_purpose-none task binding s u))
              d.meant.purposeful))).at
          r tt
      where
        apart : (b : Bool) → b ≡ true → b ≡ false → ⊥
        apart b p n = absurd cc

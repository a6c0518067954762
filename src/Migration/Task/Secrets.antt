-- ===== src/Migration/Task/Secrets.antt =====
-- internal/migration/task.go, `resolveBinding`: a secret is delivered sealed, to one attempt.
pub mod Delivered
use askio_agent.Base.{
  ℕ, ◌+◌, ◌≤◌, ◌<◌, String, [], ◌∷◌, ◌++◌, Bool, true, false, not, ◌||◌, ◌&&◌, List, Option, none,
  some, if◌then◌else◌, is_empty, ltb, eqb, ◌==◌, eq_iff, ◌≡◌, refl, arith,
}
use askio_agent.Base.Action.{Action, done, pure, raise, check, with_message, ◌>>=◌, ◌>>◌}
use askio_agent.Envelope.{Json, Fields, field, end_fields, TaskEnvelope}
use askio_agent.Migration.Canonical.{Codec, canonical_json, digest}
use askio_agent.Migration.Task.{
  Runner, Answer, Reply, answered, status_error, broken, Backend, Signatures, Identity, ask,
  nonce_of, post_signed,
}
use askio_agent.Migration.Task.Envelopes.{same_text}
use askio_agent.Migration.Task.Bindings.{expected_binding_purpose}
use askio_agent.Migration.Transfer.Bytes.{length}

pub record SealedSecret : Type 0 where
  pub secret_schema : String
  pub binding_id : String
  pub purpose : String
  pub attempt_id : String
  pub agent_id : String
  pub agent_key_id : String
  pub delivery_nonce : String
  pub expires_at : String
  pub algorithm : String
  pub ephemeral_public_pem : String
  pub nonce : String
  pub ciphertext : String
  pub auth_tag : String

-- What `pem.Decode` and `x509.ParsePKIXPublicKey` make of a text.
pub data ParsedKey : Type 0 where
  bad_key : ParsedKey
  other_key : ParsedKey
  x25519_key : String → ParsedKey

-- The agent's encryption key, and the libraries that are called with it: X25519, HMAC-SHA-256, base64,
-- AES-256-GCM, JSON decoding and the bytes of a text. `aes.NewCipher` and `cipher.NewGCM` do not fail on
-- the 32 bytes that HMAC-SHA-256 returns.
pub record Vault : Type 0 where
  pub has_key : Bool
  pub encryption_key_id : String
  pub utf8 : String → List ℕ
  pub parse_public_key : String → ParsedKey
  pub agree : String → Option (List ℕ)
  pub hmac : List ℕ → List ℕ → List ℕ
  pub decode_base64 : String → Option (List ℕ)
  pub gcm_open : List ℕ → List ℕ → List ℕ → List ℕ → Option (List ℕ)
  pub decode_secret : Answer → SealedSecret × String

unfoldable pub hkdf_sha256_single_block : Vault → List ℕ → List ℕ → List ℕ → List ℕ
hkdf_sha256_single_block vault secret salt info =
    vault.hmac (vault.hmac salt secret) (info ++ (1 ∷ []))

-- The key that opens what was sealed for an attempt.
abbrev pub secret_key : Vault → TaskEnvelope → List ℕ → List ℕ
secret_key vault task shared =
    hkdf_sha256_single_block vault shared (vault.utf8 task.attempt_id)
      (vault.utf8 "askio-migration-secret-v1")

abbrev pub route_secret_unwrap : String
route_secret_unwrap = "monitor-agent-migration-secret-unwrap"

abbrev pub secret_lifetime : ℕ
secret_lifetime = 120_000_000_000

-- `sealedSecretAAD`.
unfoldable pub sealed_secret_aad : SealedSecret → Fields
sealed_secret_aad s = field "schema_version" (Json.text s.secret_schema) (
    field "binding_id" (Json.text s.binding_id) (
      field "purpose" (Json.text s.purpose) (
        field "attempt_id" (Json.text s.attempt_id) (
          field "agent_id" (Json.text s.agent_id) (
            field "agent_key_id" (Json.text s.agent_key_id) (
              field "delivery_nonce" (Json.text s.delivery_nonce)
                (field "expires_at" (Json.text s.expires_at) end_fields)))))))

-- The whole secret, as `Digest` encodes it.
unfoldable pub secret_object : SealedSecret → Json
secret_object s = Json.object (
    field "schema_version" (Json.text s.secret_schema) (
      field "binding_id" (Json.text s.binding_id) (
        field "purpose" (Json.text s.purpose) (
          field "attempt_id" (Json.text s.attempt_id) (
            field "agent_id" (Json.text s.agent_id) (
              field "agent_key_id" (Json.text s.agent_key_id) (
                field "delivery_nonce" (Json.text s.delivery_nonce)
                  (field "expires_at" (Json.text s.expires_at) (sealed s)))))))))
  where
    sealed : SealedSecret → Fields
    sealed s = field "algorithm" (Json.text s.algorithm) (
        field "ephemeral_public_key_pem" (Json.text s.ephemeral_public_pem) (
          field "nonce" (Json.text s.nonce) (
            field "ciphertext" (Json.text s.ciphertext)
              (field "auth_tag" (Json.text s.auth_tag) end_fields))))

unfoldable pub is_addressed :
    String → String → String → TaskEnvelope → String → String → SealedSecret → Bool
is_addressed agent key purpose task binding delivery s =
    not (is_empty purpose)
    && s.secret_schema == "operations.migration.sealed-secret.v1"
    && s.algorithm == "x25519-hkdf-sha256-aes-256-gcm-v1"
    && s.purpose == purpose
    && s.binding_id == binding
    && s.attempt_id == task.attempt_id
    && s.agent_id == agent
    && s.agent_key_id == key
    && s.delivery_nonce == delivery

module _ {Host : Type 0} (b : Backend Host) (codec : Codec) (keys : Signatures) (me : Identity)
    (vault : Vault) where
  unfoldable pub delivered : Reply → Action (Runner Host) (SealedSecret × String)
  delivered (answered a) = pure (vault.decode_secret a)
  delivered (status_error code text) = raise "attempt-scoped binding delivery failed"
  delivered (broken e) = raise "attempt-scoped binding delivery failed"

  unfoldable pub metadata_of : Option String → Action (Runner Host) String
  metadata_of none = raise "attempt-scoped binding metadata is invalid"
  metadata_of (some text) = pure text

  unfoldable pub parse_x25519_public_key : ParsedKey → Action (Runner Host) String
  parse_x25519_public_key bad_key = raise "sealed secret ephemeral key is invalid"
  parse_x25519_public_key other_key = raise "sealed secret ephemeral key is not X25519"
  parse_x25519_public_key (x25519_key k) = pure k

  unfoldable pub agreed : Option (List ℕ) → Action (Runner Host) (List ℕ)
  agreed none = raise "attempt-scoped binding key agreement failed"
  agreed (some shared) = pure shared

  -- The nonce, and the ciphertext followed by its tag.
  unfoldable pub sealed_parts :
      Option (List ℕ) → Option (List ℕ) → Option (List ℕ) → Action (Runner Host) (List ℕ × List ℕ)
  sealed_parts (some nonce) (some ciphertext) (some tag) =
      if eqb (length nonce) 12 && eqb (length tag) 16
      then pure (nonce, ciphertext ++ tag)
      else raise "attempt-scoped binding ciphertext is invalid"
  sealed_parts _ _ _ = raise "attempt-scoped binding ciphertext is invalid"

  -- The clock is read again only for a secret that is not past its end.
  check_expiry : Option ℕ → Action (Runner Host) (Unit {0})
  check_expiry none = raise "attempt-scoped binding is expired"
  check_expiry (some expires_at) = do
    now ← ask b.now
    check (not (ltb expires_at now)) "attempt-scoped binding is expired"
    later ← ask b.now
    check (not (ltb (later + secret_lifetime) expires_at)) "attempt-scoped binding is expired"

  unfoldable pub bounded_plaintext : Option (List ℕ) → Action (Runner Host) (List ℕ)
  bounded_plaintext none = raise "attempt-scoped binding authentication failed"
  bounded_plaintext (some bytes) =
      if eqb (length bytes) 0 || ltb 65_536 (length bytes)
      then raise "attempt-scoped binding plaintext is invalid"
      else pure bytes

  unfoldable pub unseal : TaskEnvelope → SealedSecret → Action (Runner Host) (List ℕ)
  unfolding metadata_of bounded_plaintext parse_x25519_public_key agreed sealed_parts
  unseal task s = do
    ephemeral ← parse_x25519_public_key (vault.parse_public_key s.ephemeral_public_pem)
    shared ← agreed (vault.agree ephemeral)
    parts ←
        sealed_parts (vault.decode_base64 s.nonce) (vault.decode_base64 s.ciphertext)
          (vault.decode_base64 s.auth_tag)
    aad ← metadata_of (canonical_json codec (Json.object (sealed_secret_aad s)))
    bounded_plaintext
        (vault.gcm_open (secret_key vault task shared) parts.0 parts.1 (vault.utf8 aad))

  unfoldable pub check_secret :
      TaskEnvelope → String → String → SealedSecret → String → Action (Runner Host) (List ℕ)
  unfolding check_expiry
  check_secret task binding delivery s claimed = do
    check (not (is_empty claimed)) "attempt-scoped binding digest is missing"
    check (same_text (digest codec (secret_object s)) claimed)
        "attempt-scoped binding digest mismatch"
    check_expiry (b.parse_time s.expires_at)
    check
        (is_addressed me.agent_id vault.encryption_key_id (expected_binding_purpose task binding)
          task binding delivery s)
        "attempt-scoped binding audience mismatch"
    unseal task s

  unfoldable pub resolve_binding : TaskEnvelope → String → Action (Runner Host) (List ℕ)
  unfolding delivered
  resolve_binding task binding = do
    check (not (is_empty binding) && vault.has_key) "attempt-scoped binding is unavailable"
    drawn ← ask b.random_nonce
    delivery ← with_message "attempt-scoped binding nonce failed" (nonce_of b codec keys me drawn)
    reply ← post_signed b codec keys me route_secret_unwrap (
        field "attempt_id" (Json.text task.attempt_id) (
          field "attempt_token" (Json.text task.attempt_token) (
            field "fencing_token" (Json.whole task.fencing_token) (
              field "binding_id" (Json.text binding)
                (field "delivery_nonce" (Json.text delivery) end_fields)))))
    answer ← delivered reply
    check_secret task binding delivery answer.0 answer.1

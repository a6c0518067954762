-- ===== src/Migration/Task/Envelopes.antt =====
-- internal/migration/task.go: which claimed envelopes are accepted.
use askio_agent.Base.{
  ℕ, ◌+◌, ◌-◌, String, Bool, not, ◌||◌, ◌&&◌, List, [], ◌∷◌, Option, none, some, if◌then◌else◌,
  is_empty, ◌==◌, ltb, eqb, mem_string, lookup, codes, append,
}
use askio_agent.Base.Action.{Action, pure, raise, gets, check, ◌>>=◌, ◌>>◌}
use askio_agent.Envelope.{Json, Fields, field, end_fields, PrimitiveRef, TaskEnvelope}
use askio_agent.Migration.Canonical.{Codec, canonical_json, digest}
use askio_agent.Migration.Task.{Runner, Backend, Signatures, Identity, ask, change}

-- `len` of a string: the bytes of its UTF-8 encoding.
unfoldable pub utf8_length : List ℕ → ℕ
utf8_length [] = 0
utf8_length (c ∷ cs) =
    (if ltb c 0x80 then 1 else if ltb c 0x800 then 2 else if ltb c 0x10000 then 3 else 4)
    + utf8_length cs

unfoldable pub byte_length : String → ℕ
unfolding utf8_length
byte_length s = utf8_length (codes s)

-- A `*string`.
unfoldable pub or_null : Option String → Json
or_null none = Json.null
or_null (some s) = Json.text s

primitive_object : PrimitiveRef → Json
primitive_object p =
    Json.object (field "id" (Json.text p.id) (field "version" (Json.text p.version) end_fields))

unfoldable pub envelope_unsigned : TaskEnvelope → Fields
unfolding or_null primitive_object
envelope_unsigned task = field "schema_version" (Json.text task.schema_version) (
    field "key_id" (Json.text task.key_id) (
      field "algorithm" (Json.text task.algorithm) (
        field "audience" (Json.text task.audience) (
          field "agent_id" (Json.text task.agent_id) (
            field "endpoint_id" (Json.text task.endpoint_id) (
              field "migration_id" (Json.text task.migration_id) (
                field "run_id" (or_null task.run_id)
                  (field "run_step_id" (or_null task.run_step_id) (rest task)))))))))
  where
    rest : TaskEnvelope → Fields
    rest task = field "attempt_id" (Json.text task.attempt_id) (
        field "attempt_token" (Json.text task.attempt_token) (
          field "fencing_token" (Json.whole task.fencing_token) (
            field "plan_digest" (or_null task.plan_digest) (
              field "subject_digest" (Json.text task.subject_digest) (
                field "primitive" (primitive_object task.primitive) (
                  field "resource_scope" (Json.object task.resource_scope) (
                    field "inputs" (Json.object task.inputs) (
                      field "issued_at" (Json.text task.issued_at) (
                        field "expires_at" (Json.text task.expires_at)
                          (field "nonce" (Json.text task.nonce) end_fields))))))))))

abbrev pub clock_skew : ℕ
clock_skew = 30_000_000_000

abbrev pub maximum_validity : ℕ
maximum_validity = 600_000_000_000

-- Both times can be read, the envelope has not expired, was not issued in the future, and is valid
-- for ten minutes at most.
unfoldable pub is_current : ℕ → Option ℕ → Option ℕ → Bool
is_current now (some issued_at) (some expires_at) = not (
    ltb expires_at now
    || ltb (now + clock_skew) issued_at
    || ltb maximum_validity (expires_at - issued_at))
is_current now _ _ = Bool.false

unfoldable pub same_text : Option String → String → Bool
same_text none wanted = Bool.false
same_text (some s) wanted = s == wanted

-- The nonces that have not expired; an expiry that cannot be read stays.
unfoldable pub has_expired : ℕ → Option ℕ → Bool
has_expired now none = Bool.false
has_expired now (some expires_at) = ltb expires_at now

unfoldable pub prune_expiries :
    (String → Option ℕ) → ℕ → List (String × String) → List (String × String)
unfolding has_expired
prune_expiries parse now [] = []
prune_expiries parse now ((nonce, expiry) ∷ rest) =
    let kept = prune_expiries parse now rest in
    if has_expired now (parse expiry) then kept else (nonce, expiry) ∷ kept

unfoldable pub has_entry : Option String → Bool
has_entry none = Bool.false
has_entry (some _) = Bool.true

module _ {Host : Type 0} (b : Backend Host) (codec : Codec) (keys : Signatures)
    (me : Identity) where
  unfoldable pub signature_holds : Option String → Option String → Bool
  signature_holds (some text) (some signature) = keys.verify text signature
  signature_holds _ _ = Bool.false

  unfoldable pub digest_of : Option String → Action (Runner Host) String
  digest_of none = raise "canonical"
  digest_of (some d) = pure d

  -- `canonicalErr` has its own early return, with the encoder's error.
  unfoldable pub canonical_of : Option String → Action (Runner Host) String
  canonical_of none = raise "canonical"
  canonical_of (some text) = pure text

  unfoldable pub verify_signed_task_envelope : TaskEnvelope → Action (Runner Host) String
  unfolding byte_length envelope_unsigned is_current same_text signature_holds digest_of
      canonical_of
  verify_signed_task_envelope task = do
    check
        (task.schema_version == "operations.migration.task.v1"
          && task.algorithm == "ed25519-v1"
          && task.audience == "askio-monitor")
        "unsupported task envelope contract"
    check (task.key_id == me.backend_key_id && task.agent_id == me.agent_id)
        "task envelope audience or signing key mismatch"
    now ← ask b.now
    check (is_current now (b.parse_time task.issued_at) (b.parse_time task.expires_at))
        "task envelope is expired or has an invalid validity window"
    check
        (not (
          is_empty task.endpoint_id
          || is_empty task.migration_id
          || is_empty task.primitive.id
          || is_empty task.primitive.version
          || eqb task.fencing_token 0
          || is_empty task.attempt_id
          || ltb (byte_length task.attempt_token) 32
          || is_empty task.nonce))
        "task envelope attempt fields are invalid"
    check (same_text (digest codec (Json.object task.inputs)) task.subject_digest)
        "task subject digest mismatch"
    text ← canonical_of (canonical_json codec (Json.object (envelope_unsigned task)))
    check (signature_holds (some text) (keys.decode_base64 task.signature))
        "task envelope signature is invalid"
    digest_of (
        digest codec (
          Json.object (
            field "envelope" (Json.object (envelope_unsigned task))
              (field "signature" (Json.text task.signature) end_fields))))

  unfoldable pub verify_envelope : TaskEnvelope → Action (Runner Host) String
  unfolding prune_expiries has_entry
  verify_envelope task = do
    d ← verify_signed_task_envelope task
    check (b.supports task.primitive) (
        append "unsupported primitive "
          (append task.primitive.id (append "@" task.primitive.version)))
    nonces ← gets (λ r. r.state.seen_nonces)
    check (not (mem_string task.nonce nonces)) "task envelope nonce was already accepted"
    now ← ask b.now
    change (λ s. record s {
      seen_nonce_expiries = prune_expiries b.parse_time now s.seen_nonce_expiries;
    })
    expiries ← gets (λ r. r.state.seen_nonce_expiries)
    check (not (has_entry (lookup task.nonce expiries))) "task envelope nonce was already accepted"
    pure d

-- ===== src/Migration/Tickets.antt =====
-- internal/migration/dataplane.go: the tickets that authorize a transfer, and their renewal.
pub mod Renewals
pub mod Valid
mod Examples
use askio_agent.Base.{
  ℕ, zero, suc, ◌+◌, ◌-◌, String, Bool, true, false, not, ◌||◌, ◌&&◌, List, [], ◌∷◌, Option, none,
  some, if◌then◌else◌, is_empty, ltb, leb, eqb, ◌==◌, codes, ◌≡◌,
}
use askio_agent.Base.Strings.{begins_with}
use askio_agent.Base.Action.{
  Action, Outcome, done, fail, pure, raise, gets, modify, check, ◌>>=◌, ◌>>◌,
}
use askio_agent.Envelope.{Json, Fields, field, end_fields}
use askio_agent.Migration.Canonical.{Codec, canonical_json}
use askio_agent.Migration.Task.{Signatures}
use askio_agent.Migration.Task.Envelopes.{byte_length, is_current, signature_holds}
use askio_agent.Migration.Scope.{clean_relative}
use askio_agent.Migration.Files.Manifest.{maximum_manifest_bytes}
use askio_agent.Migration.Transfer.{chunk_size}

-- The source refuses a negative number in a ticket; here there is none.
pub record DataPlaneTicket : Type 0 where
  pub schema_version : String
  pub key_id : String
  pub algorithm : String
  pub audience : String
  pub migration_id : String
  pub run_id : String
  pub attempt_id : String
  pub fencing_token : ℕ
  pub binding_id : String
  pub source_agent_id : String
  pub target_agent_id : String
  pub source_signing_key_id : String
  pub source_signing_public_pem : String
  pub target_signing_key_id : String
  pub target_signing_public_pem : String
  pub source_root_handle : String
  pub source_relative_handle : String
  pub manifest_digest : String
  pub chunk_size_bytes : ℕ
  pub maximum_bytes : ℕ
  pub issued_at : String
  pub expires_at : String
  pub nonce : String
  pub signature : String

unfoldable pub same_texts : List (String × String) → Bool
same_texts [] = true
same_texts ((s, t) ∷ rest) = s == t && same_texts rest

unfoldable pub task_texts : DataPlaneTicket → DataPlaneTicket → List (String × String)
task_texts left right =
    (left.schema_version, right.schema_version)
    ∷ (left.key_id, right.key_id)
    ∷ (left.algorithm, right.algorithm)
    ∷ (left.audience, right.audience)
    ∷ (left.migration_id, right.migration_id)
    ∷ (left.run_id, right.run_id)
    ∷ (left.attempt_id, right.attempt_id)
    ∷ []

unfoldable pub party_texts : DataPlaneTicket → DataPlaneTicket → List (String × String)
party_texts left right =
    (left.binding_id, right.binding_id)
    ∷ (left.source_agent_id, right.source_agent_id)
    ∷ (left.target_agent_id, right.target_agent_id)
    ∷ (left.source_signing_key_id, right.source_signing_key_id)
    ∷ (left.source_signing_public_pem, right.source_signing_public_pem)
    ∷ (left.target_signing_key_id, right.target_signing_key_id)
    ∷ (left.target_signing_public_pem, right.target_signing_public_pem)
    ∷ (left.source_root_handle, right.source_root_handle)
    ∷ (left.source_relative_handle, right.source_relative_handle)
    ∷ (left.manifest_digest, right.manifest_digest)
    ∷ []

unfoldable pub same_data_plane_scope : DataPlaneTicket → DataPlaneTicket → Bool
unfolding same_texts
same_data_plane_scope left right =
    same_texts (task_texts left right)
    && eqb left.fencing_token right.fencing_token
    && same_texts (party_texts left right)
    && eqb left.chunk_size_bytes right.chunk_size_bytes
    && eqb left.maximum_bytes right.maximum_bytes

-- The client of the data plane; `host` is everything that it reaches.
pub record Client (Host : Type 0) : Type 0 where
  pub ticket : DataPlaneTicket
  pub host : Host

-- The clock is in nanoseconds; `renew` is the backend's answer, `none` a client without one.
pub record Renewal (Host : Type 0) : Type 0 where
  pub now : Host → ℕ × Host
  pub parse_time : String → Option ℕ
  pub renew : Option (DataPlaneTicket → Host → Option DataPlaneTicket × Host)

abbrev pub renewal_margin : ℕ
renewal_margin = 75_000_000_000

module _ {Host : Type 0} (r : Renewal Host) where
  unfoldable pub adopt : Option DataPlaneTicket × Host → Action (Client Host) (Unit {0})
  adopt (none, h) c = fail "refresh" (record c { host = h })
  adopt (some ticket, h) c =
      if same_data_plane_scope c.ticket ticket
      then done tt (record { ticket = ticket; host = h })
      else fail "refreshed direct-transfer ticket changed immutable scope" (record c { host = h })

  unfoldable pub renew_with :
      Option (DataPlaneTicket → Host → Option DataPlaneTicket × Host)
      → Action (Client Host) (Unit {0})
  unfolding adopt
  renew_with none = raise "direct-transfer ticket expired without a refresh path"
  renew_with (some f) = λ c. adopt (f c.ticket c.host) c

  unfoldable pub unless_fresh : ℕ → Action (Client Host) (Unit {0})
  unfolding renew_with
  unless_fresh expires_at c =
      let (now, h) = r.now c.host in
      if ltb (now + renewal_margin) expires_at
      then done tt (record c { host = h })
      else renew_with r.renew (record c { host = h })

  unfoldable pub expiring : Option ℕ → Action (Client Host) (Unit {0})
  unfolding unless_fresh
  expiring none = raise "direct-transfer ticket expiry is invalid"
  expiring (some expires_at) = unless_fresh expires_at

  unfoldable pub ensure_ticket : Action (Client Host) (Unit {0})
  unfolding expiring
  ensure_ticket c = expiring (r.parse_time c.ticket.expires_at) c

-- A ticket without what a renewal may change.
unfoldable pub scope_of : DataPlaneTicket → DataPlaneTicket
scope_of t = record t { issued_at = ""; expires_at = ""; nonce = ""; signature = "" }

-- The parser of PEM and X.509, and the backend's key, are parameters.
unfoldable pub parse_ed25519_public_key : (String → Option String) → String → Option String
unfolding byte_length
parse_ed25519_public_key parse text = if ltb 4096 (byte_length text) then none else parse text

unfoldable pub ticket_unsigned : DataPlaneTicket → Fields
ticket_unsigned t = field "schema_version" (Json.text t.schema_version) (
    field "key_id" (Json.text t.key_id) (
      field "algorithm" (Json.text t.algorithm) (
        field "audience" (Json.text t.audience) (
          field "migration_id" (Json.text t.migration_id) (
            field "run_id" (Json.text t.run_id) (
              field "attempt_id" (Json.text t.attempt_id) (
                field "fencing_token" (Json.whole t.fencing_token)
                  (field "binding_id" (Json.text t.binding_id) (parties t)))))))))
  where
    parties : DataPlaneTicket → Fields
    parties t = field "source_agent_id" (Json.text t.source_agent_id) (
        field "target_agent_id" (Json.text t.target_agent_id) (
          field "source_signing_key_id" (Json.text t.source_signing_key_id) (
            field "source_signing_public_key_pem" (Json.text t.source_signing_public_pem) (
              field "target_signing_key_id" (Json.text t.target_signing_key_id) (
                field "target_signing_public_key_pem" (Json.text t.target_signing_public_pem) (
                  field "source_root_handle" (Json.text t.source_root_handle) (
                    field "source_relative_handle" (Json.text t.source_relative_handle) (
                      field "manifest_digest" (Json.text t.manifest_digest) (
                        field "chunk_size_bytes" (Json.whole t.chunk_size_bytes) (
                          field "maximum_bytes" (Json.whole t.maximum_bytes) (
                            field "issued_at" (Json.text t.issued_at) (
                              field "expires_at" (Json.text t.expires_at)
                                (field "nonce" (Json.text t.nonce) end_fields)))))))))))))

hex_digits : ℕ → List ℕ → Option (List ℕ)
hex_digits zero cs = some cs
hex_digits (suc n) [] = none
hex_digits (suc n) (c ∷ cs) =
    let rest = hex_digits n cs in
    if (leb b'a' c && leb c b'f') || (leb b'0' c && leb c b'9') then rest else none

one_of : ℕ → ℕ → List ℕ → Option (List ℕ)
one_of low high [] = none
one_of low high (c ∷ cs) = if leb low c && leb c high then some cs else none

-- `[89ab]`.
variant : List ℕ → Option (List ℕ)
variant [] = none
variant (c ∷ cs) =
    if (leb b'8' c && leb c b'9') || (leb b'a' c && leb c b'b') then some cs else none

then_read : Option (List ℕ) → (List ℕ → Option (List ℕ)) → Option (List ℕ)
then_read none f = none
then_read (some cs) f = f cs

ends_here : Option (List ℕ) → Bool
ends_here none = false
ends_here (some []) = true
ends_here (some (c ∷ cs)) = false

-- `opaqueBindingPattern`: a UUID in lower case.
unfoldable pub is_opaque_binding : String → Bool
unfolding hex_digits one_of variant then_read ends_here
is_opaque_binding s =
    let dash = one_of b'-' b'-' in
    let first = then_read (then_read (hex_digits 8 (codes s)) dash) (hex_digits 4) in
    let second = then_read (then_read (then_read first dash) (one_of b'1' b'5')) (hex_digits 3) in
    let third = then_read (then_read (then_read second dash) variant) (hex_digits 3) in
    ends_here (then_read (then_read third dash) (hex_digits 12))

-- The fields that a ticket has to have, and the bounds of its numbers.
unfoldable pub has_valid_scope : DataPlaneTicket → Bool
has_valid_scope t = not (
    is_empty t.migration_id
    || is_empty t.run_id
    || is_empty t.attempt_id
    || eqb t.fencing_token 0
    || not (is_opaque_binding t.binding_id)
    || is_empty t.source_agent_id
    || is_empty t.target_agent_id
    || t.source_agent_id == t.target_agent_id
    || is_empty t.source_signing_key_id
    || is_empty t.target_signing_key_id
    || not (eqb t.chunk_size_bytes chunk_size)
    || ltb maximum_manifest_bytes t.maximum_bytes
    || not (begins_with (codes t.manifest_digest) (codes "sha256:"))
    || ltb (byte_length t.nonce) 22
    || ltb 128 (byte_length t.nonce))

unfoldable pub is_given : Option String → Bool
is_given none = false
is_given (some _) = true

module _ (codec : Codec) (keys : Signatures) (public_key : String → Option String)
    (parse_time : String → Option ℕ) (now : ℕ) (backend_key_id : String) where
  unfoldable pub signed_by : String → Option String → Bool
  signed_by text none = false
  signed_by text (some signature) = keys.verify text signature

  unfoldable pub check_signature : DataPlaneTicket → Option String → Option String
  unfolding signed_by
  check_signature t none = some "data-plane ticket canonicalization failed"
  check_signature t (some text) =
      if signed_by text (keys.decode_base64 t.signature)
      then none
      else some "data-plane ticket signature is invalid"

  -- `none` is a ticket without an error; its times were read before anything was checked.
  unfoldable pub validate_data_plane_ticket : DataPlaneTicket → Option String
  validate_data_plane_ticket t =
      if not (
        t.schema_version == "operations.migration.data-plane-ticket.v1"
        && t.key_id == backend_key_id
        && t.algorithm == "ed25519-v1"
        && t.audience == "askio-migration-data-plane")
      then some "data-plane ticket contract is unsupported"
      else if not (is_current now (parse_time t.issued_at) (parse_time t.expires_at))
      then some "data-plane ticket validity window is invalid"
      else if not (has_valid_scope t)
      then some "data-plane ticket scope is invalid"
      else if not (is_given (clean_relative t.source_relative_handle))
      then some "data-plane source scope is invalid"
      else if not (is_given (parse_ed25519_public_key public_key t.source_signing_public_pem))
      then some "data-plane public key is invalid"
      else if not (is_given (parse_ed25519_public_key public_key t.target_signing_public_pem))
      then some "data-plane public key is invalid"
      else check_signature t (canonical_json codec (Json.object (ticket_unsigned t)))

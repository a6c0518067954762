-- ===== src/Migration/Tickets/Examples.antt =====
-- A ticket that passes, and one that a client renews.
use askio_agent.Base.{ℕ, String, Bool, true, [], ◌∷◌, Option, none, some, ◌≡◌, refl}
use askio_agent.Envelope.{Json}
use askio_agent.Migration.Canonical.{Codec, canonical_json}
use askio_agent.Migration.Task.{Signatures}
use askio_agent.Base.Strings.{begins_with}
use askio_agent.Migration.Scope.{clean_relative}
use askio_agent.Migration.Task.Envelopes.{is_current, byte_length}
use askio_agent.Migration.Transfer.{chunk_size}
use askio_agent.Migration.Tickets.{
  has_valid_scope, is_opaque_binding, is_given, parse_ed25519_public_key, check_signature,
  DataPlaneTicket, Client, Renewal, scope_of, validate_data_plane_ticket,
}
use askio_agent.Migration.Tickets.Renewals.{requests, requests-scope_of}
use askio_agent.Migration.Tickets.Valid.{IsValidTicket, validate_data_plane_ticket-IsValidTicket}

abbrev codec : Codec
codec = record {
  encode = λ v. some "document";
  decode = λ text. some Json.null;
  sha256_hex = λ text. text;
}

abbrev keys : Signatures
keys = record { decode_base64 = λ s. some s; verify = λ text signature. true; sign = λ text. text }

abbrev ticket : DataPlaneTicket
ticket = record {
  schema_version = "operations.migration.data-plane-ticket.v1";
  key_id = "backend";
  algorithm = "ed25519-v1";
  audience = "askio-migration-data-plane";
  migration_id = "migration";
  run_id = "run";
  attempt_id = "attempt";
  fencing_token = 3;
  binding_id = "01234567-89ab-4cde-8f01-23456789abcd";
  source_agent_id = "source";
  target_agent_id = "target";
  source_signing_key_id = "source-key";
  source_signing_public_pem = "source-pem";
  target_signing_key_id = "target-key";
  target_signing_public_pem = "target-pem";
  source_root_handle = "data";
  source_relative_handle = "a/b";
  manifest_digest = "sha256:0";
  chunk_size_bytes = chunk_size;
  maximum_bytes = 100;
  issued_at = "early";
  expires_at = "late";
  nonce = "0123456789012345678901";
  signature = "signature";
}

abbrev public_key : String → Option String
public_key text = some text

abbrev time_of : String → Option ℕ
time_of s = some 100

valid : validate_data_plane_ticket codec keys public_key time_of 90 "backend" ticket ≡ none
unfolding validate_data_plane_ticket is_current has_valid_scope is_opaque_binding begins_with
    byte_length is_given clean_relative parse_ed25519_public_key check_signature canonical_json
valid = refl

validate_data_plane_ticket-IsValidTicket_example :
    IsValidTicket codec keys time_of 90 "backend" ticket
validate_data_plane_ticket-IsValidTicket_example =
    validate_data_plane_ticket-IsValidTicket codec keys public_key time_of 90 "backend" ticket valid

-- The backend answers with a new nonce.
abbrev renewal : Renewal Bool
renewal = record {
  now = λ h. (90, h);
  parse_time = time_of;
  renew = some (λ t h. (some (record t { nonce = "new" }), h));
}

abbrev client : Client Bool
client = record { ticket = ticket; host = true }

requests-scope_of_example :
    scope_of (requests renewal (true ∷ true ∷ []) client).ticket ≡ scope_of ticket
requests-scope_of_example = requests-scope_of renewal (true ∷ true ∷ []) client

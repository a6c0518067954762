-- ===== src/Migration/Tickets/Valid.antt =====
-- internal/migration/dataplane.go, `validateDataPlaneTicket`: what a ticket without an error has in it.
use askio_agent.Base.{
  ℕ, ◌+◌, ◌≤◌, String, true, false, List, Option, none, some, ◌==◌, eq_iff, ◌≡◌, refl, ap, ◌∙◌,
  arith,
}
use askio_agent.Envelope.{Json}
use askio_agent.Migration.Canonical.{Codec, canonical_json}
use askio_agent.Migration.Task.{Signatures}
use askio_agent.Migration.Task.Envelopes.{is_current, clock_skew, maximum_validity}
use askio_agent.Migration.Task.Accepted.Authentic.{current-bounds}
use askio_agent.Migration.Scope.{clean_relative, joined, AllSafe, clean_relative-AllSafe}
use askio_agent.Migration.Files.Manifest.{maximum_manifest_bytes}
use askio_agent.Migration.Transfer.{chunk_size}
use askio_agent.Migration.Tickets.{
  DataPlaneTicket, is_given, signed_by, check_signature, has_valid_scope, ticket_unsigned,
  validate_data_plane_ticket,
}

-- A ticket of the backend that is in force, joins two different agents, and stays below its root.
pub record IsValidTicket (codec : Codec) (keys : Signatures) (parse_time : String → Option ℕ)
    (now : ℕ) (backend_key_id : String) (t : DataPlaneTicket) : Type 0 where
  pub issued_at : ℕ
  pub expires_at : ℕ
  pub issued : parse_time t.issued_at ≡ some issued_at
  pub expires : parse_time t.expires_at ≡ some expires_at
  pub not_expired : now ≤ expires_at
  pub not_future : issued_at ≤ now + clock_skew
  pub short_lived : expires_at ≤ issued_at + maximum_validity
  pub issuer : t.key_id ≡ backend_key_id
  pub two_agents : (t.source_agent_id == t.target_agent_id) ≡ false
  pub chunks : t.chunk_size_bytes ≡ chunk_size
  pub bounded : t.maximum_bytes ≤ maximum_manifest_bytes
  pub source : List String
  pub below_root : clean_relative t.source_relative_handle ≡ some (joined source)
  pub safe : AllSafe source
  pub canonical : String
  pub signature : String
  pub encoded : canonical_json codec (Json.object (ticket_unsigned t)) ≡ some canonical
  pub decoded : keys.decode_base64 t.signature ≡ some signature
  pub verified : keys.verify canonical signature ≡ true

-- The tests that a ticket passed.
record Passed (codec : Codec) (keys : Signatures) (public_key : String → Option String)
    (parse_time : String → Option ℕ) (now : ℕ) (backend_key_id : String) (t : DataPlaneTicket)
    : Type 0 where
  contract : (t.key_id == backend_key_id) ≡ true
  current : is_current now (parse_time t.issued_at) (parse_time t.expires_at) ≡ true
  scope : has_valid_scope t ≡ true
  path : is_given (clean_relative t.source_relative_handle) ≡ true
  checked :
      check_signature codec keys public_key parse_time now backend_key_id t
        (canonical_json codec (Json.object (ticket_unsigned t)))
      ≡ none

scope-bounds :
    (t : DataPlaneTicket)
    → has_valid_scope t ≡ true
    → ((t.source_agent_id == t.target_agent_id) ≡ false)
      × (t.chunk_size_bytes ≡ chunk_size)
      × (t.maximum_bytes ≤ maximum_manifest_bytes)
unfolding has_valid_scope
scope-bounds t h = (ground (arith, h), ground (arith, h), ground (arith, h))

given-some : (o : Option String) → is_given o ≡ true → (s : String) × (o ≡ some s)
unfolding is_given
given-some none h = absurd cc
given-some (some s) h = (s, refl)

module _ (codec : Codec) (keys : Signatures) (public_key : String → Option String)
    (parse_time : String → Option ℕ) (now : ℕ) (backend_key_id : String) (t : DataPlaneTicket) where
  passed :
      validate_data_plane_ticket codec keys public_key parse_time now backend_key_id t ≡ none
      → Passed codec keys public_key parse_time now backend_key_id t
  unfolding validate_data_plane_ticket
  passed h = record {
    contract = ground (arith, h);
    current = ground (arith, h);
    scope = ground (arith, h);
    path = ground (arith, h);
    checked = ground (arith, h);
  }

  signed-checked :
      (o s : Option String)
      → keys.decode_base64 t.signature ≡ s
      → check_signature codec keys public_key parse_time now backend_key_id t o ≡ none
      → (text : String) × (signature : String) × (o ≡ some text)
        × (s ≡ some signature)
        × (keys.verify text signature ≡ true)
  unfolding check_signature signed_by
  signed-checked none s e h = absurd cc
  signed-checked (some text) none e h = absurd (ground (arith, e, h))
  signed-checked (some text) (some signature) e h =
      (text, signature, refl, refl, ground (arith, e, h))

  -- A ticket that passes was signed by the backend over all its other fields, is in force at the time
  -- that was read for ten minutes at most, joins two different agents, has the chunk size and at most
  -- 500 GiB, and its source path stays below its root.
  pub validate_data_plane_ticket-IsValidTicket :
      validate_data_plane_ticket codec keys public_key parse_time now backend_key_id t ≡ none
      → IsValidTicket codec keys parse_time now backend_key_id t
  validate_data_plane_ticket-IsValidTicket h =
      let p = passed h in
      let c = current-bounds now _ _ p.current in
      let s = scope-bounds t p.scope in
      let g = given-some (clean_relative t.source_relative_handle) p.path in
      let d = clean_relative-AllSafe t.source_relative_handle g.0 g.1 in
      let v = signed-checked _ (keys.decode_base64 t.signature) refl p.checked in
      record {
        issued_at = c.0;
        expires_at = c.1;
        issued = c.2;
        expires = c.3;
        not_expired = c.4;
        not_future = c.5;
        short_lived = c.6;
        issuer = ground (arith, p.contract, eq_iff t.key_id backend_key_id);
        two_agents = s.0;
        chunks = s.1;
        bounded = s.2;
        source = d.0;
        below_root = g.1 ∙ ap some d.1;
        safe = d.2;
        canonical = v.0;
        signature = v.1;
        encoded = v.2;
        decoded = v.3;
        verified = v.4;
      }

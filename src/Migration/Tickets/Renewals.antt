-- ===== src/Migration/Tickets/Renewals.antt =====
-- internal/migration/dataplane.go, `ensureTicket`: a renewal changes no more than the validity.
use askio_agent.Base.{
  ℕ, ◌+◌, String, true, List, [], ◌∷◌, Option, none, some, ltb, eq_iff, ◌≡◌, refl, sym, ◌∙◌, arith,
  Bool-cases, inl, inr,
}
use askio_agent.Base.Action.{final, raise}
use askio_agent.Migration.Tickets.{
  DataPlaneTicket, same_texts, task_texts, party_texts, same_data_plane_scope, Client, Renewal,
  renewal_margin, adopt, renew_with, unless_fresh, expiring, ensure_ticket, scope_of,
}

abbrev AllEqual : List (String × String) → Type 0
AllEqual [] = Unit {0}
AllEqual ((s, t) ∷ rest) = (s ≡ t) × AllEqual rest

same_texts-AllEqual : (pairs : List (String × String)) → same_texts pairs ≡ true → AllEqual pairs
unfolding same_texts
same_texts-AllEqual [] h = tt
same_texts-AllEqual ((s, t) ∷ rest) h =
    (ground (arith, h, eq_iff s t), same_texts-AllEqual rest (ground (arith, h)))

-- Tickets that the comparison takes for the same differ in no field that it is to compare.
scope_of-same_data_plane_scope :
    (left right : DataPlaneTicket)
    → same_data_plane_scope left right ≡ true
    → scope_of left ≡ scope_of right
unfolding same_data_plane_scope scope_of task_texts party_texts
scope_of-same_data_plane_scope left right h =
    let p = same_texts-AllEqual (task_texts left right) (ground (arith, h)) in
    let q = same_texts-AllEqual (party_texts left right) (ground (arith, h)) in
    let token : left.fencing_token ≡ right.fencing_token = ground (arith, h) in
    let size : left.chunk_size_bytes ≡ right.chunk_size_bytes = ground (arith, h) in
    let most : left.maximum_bytes ≡ right.maximum_bytes = ground (arith, h) in
    λ i. record {
      schema_version = p.0 i;
      key_id = p.1.0 i;
      algorithm = p.1.1.0 i;
      audience = p.1.1.1.0 i;
      migration_id = p.1.1.1.1.0 i;
      run_id = p.1.1.1.1.1.0 i;
      attempt_id = p.1.1.1.1.1.1.0 i;
      fencing_token = token i;
      binding_id = q.0 i;
      source_agent_id = q.1.0 i;
      target_agent_id = q.1.1.0 i;
      source_signing_key_id = q.1.1.1.0 i;
      source_signing_public_pem = q.1.1.1.1.0 i;
      target_signing_key_id = q.1.1.1.1.1.0 i;
      target_signing_public_pem = q.1.1.1.1.1.1.0 i;
      source_root_handle = q.1.1.1.1.1.1.1.0 i;
      source_relative_handle = q.1.1.1.1.1.1.1.1.0 i;
      manifest_digest = q.1.1.1.1.1.1.1.1.1.0 i;
      chunk_size_bytes = size i;
      maximum_bytes = most i;
      issued_at = "";
      expires_at = "";
      nonce = "";
      signature = "";
    }

module _ {Host : Type 0} (r : Renewal Host) where
  adopted-scope_of :
      (answer : Option DataPlaneTicket × Host) (c : Client Host)
      → scope_of (final (adopt r answer c)).ticket ≡ scope_of c.ticket
  unfolding adopt
  adopted-scope_of (none, h) c = refl
  adopted-scope_of (some t, h) c = elim (Bool-cases (same_data_plane_scope c.ticket t)) [
    | inl p ↦ rw p (sym (scope_of-same_data_plane_scope c.ticket t p))
    | inr p ↦ rw p refl
  ]

  renewed-scope_of :
      (f : Option (DataPlaneTicket → Host → Option DataPlaneTicket × Host)) (c : Client Host)
      → scope_of (final (renew_with r f c)).ticket ≡ scope_of c.ticket
  unfolding renew_with raise
  renewed-scope_of none c = refl
  renewed-scope_of (some f) c = adopted-scope_of (f c.ticket c.host) c

  expiring-scope_of :
      (o : Option ℕ) (c : Client Host)
      → scope_of (final (expiring r o c)).ticket ≡ scope_of c.ticket
  unfolding expiring unless_fresh raise
  expiring-scope_of none c = refl
  expiring-scope_of (some expires_at) c =
      elim (Bool-cases (ltb ((r.now c.host).0 + renewal_margin) expires_at)) [
        | inl p ↦ rw p refl
        | inr p ↦ rw p (renewed-scope_of r.renew (record c { host = (r.now c.host).1 }))
      ]

  -- The client before each of its requests, with the host in any condition each time.
  unfoldable pub requests : List Host → Client Host → Client Host
  requests [] c = c
  requests (h ∷ rest) c = requests rest (final (ensure_ticket r (record c { host = h })))

  -- However often the ticket is renewed, and whatever the backend answers, nothing of it changes but the
  -- times of its validity, its nonce and its signature.
  pub requests-scope_of :
      (hosts : List Host) (c : Client Host) → scope_of (requests hosts c).ticket ≡ scope_of c.ticket
  unfolding requests ensure_ticket
  requests-scope_of [] c = refl
  requests-scope_of (h ∷ rest) c =
      requests-scope_of rest _
      ∙ expiring-scope_of (r.parse_time c.ticket.expires_at) (record c { host = h })

-- ===== src/Gateway/Accepted.antt =====
-- internal/gateway/auth.go: what an accepted token has in it.
use askio_agent.Base.{
  ℕ, String, true, false, ◌||◌, ◌≡◌, refl, Option, none, some, List, [], ◌∷◌, append, is_empty, sym,
  ap, ◌∙◌, arith, eq_iff, ◌==◌,
}
use askio_agent.Base.Strings.{trim_space}
use askio_agent.Gateway.{
  Crypto, parse_int64, split_dots, is_expired, check_parts, check_body, check_decoded,
  validate_host_token,
}

-- A body of three parts: the server that is asked for, an expiry that has not passed, and the HMAC of
-- both under the key.
pub record IsGenuine {Key : Type 0} (crypto : Crypto Key) (key : Key) (expected : String) (now : ℕ)
    (body : String) : Type 0 where
  pub sid : String
  pub exp : String
  pub expiry : ℕ
  pub parts : split_dots body ≡ sid ∷ exp ∷ crypto.hmac key (append sid (append "." exp)) ∷ []
  pub number : parse_int64 exp ≡ some expiry
  pub fresh : is_expired expiry now ≡ false
  pub server : (is_empty expected || sid == expected) ≡ true

module _ {Key : Type 0} (crypto : Crypto Key) (key : Key) (expected : String) (now : ℕ) where
  accepted_parts :
      (body sid exp sig : String) (n : Option ℕ)
      → split_dots body ≡ sid ∷ exp ∷ sig ∷ []
      → parse_int64 exp ≡ n
      → (is_empty expected || sid == expected) ≡ true
      → check_parts crypto key expected now sid exp sig n ≡ none
      → IsGenuine crypto key expected now body
  unfolding check_parts
  accepted_parts body sid exp sig none shape number server h = absurd cc
  accepted_parts body sid exp sig (some n) shape number server h = record {
    sid = sid;
    exp = exp;
    expiry = n;
    parts = shape ∙ ap (λ s. sid ∷ exp ∷ s ∷ []) (sym same);
    number = number;
    fresh = ground (arith, h);
    server = server;
  }
    where
      same : crypto.hmac key (append sid (append "." exp)) ≡ sig
      same = ground (arith, h, eq_iff (crypto.hmac key (append sid (append "." exp))) sig)

  accepted_body :
      (body : String) (parts : List String)
      → split_dots body ≡ parts
      → check_body crypto key expected now parts ≡ none
      → IsGenuine crypto key expected now body
  unfolding check_body
  accepted_body body [] shape h = absurd cc
  accepted_body body (a ∷ []) shape h = absurd cc
  accepted_body body (a ∷ (b ∷ [])) shape h = absurd cc
  accepted_body body (sid ∷ (exp ∷ (sig ∷ []))) shape h =
      accepted_parts body sid exp sig (parse_int64 exp) shape refl (ground (arith, h))
        (ground (arith, h))
  accepted_body body (a ∷ (b ∷ (c ∷ (d ∷ rest)))) shape h = absurd cc

  accepted_decoded :
      (o : Option String)
      → check_decoded crypto key expected now o ≡ none
      → (body : String) × (o ≡ some body) × (IsGenuine crypto key expected now body)
  unfolding check_decoded
  accepted_decoded none h = absurd cc
  accepted_decoded (some body) h = (body, refl, accepted_body body (split_dots body) refl h)

  -- A token that is accepted decodes to a server, an expiry and their HMAC under the key; the server is
  -- the expected one if any is expected, and the expiry has not passed, unless it is not positive.
  pub validate_host_token-IsGenuine :
      (token : String)
      → validate_host_token crypto key expected now token ≡ none
      → (body : String) × (crypto.decode (trim_space token) ≡ some body)
        × (IsGenuine crypto key expected now body)
  unfolding validate_host_token
  validate_host_token-IsGenuine token h =
      accepted_decoded (crypto.decode (trim_space token)) (ground (arith, h))

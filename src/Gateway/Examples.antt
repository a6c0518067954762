-- ===== src/Gateway/Examples.antt =====
-- The theorems on internal/gateway/auth.go at a stand-in for the cryptography.
use askio_agent.Base.{String, ◌≡◌, refl, none, some}
use askio_agent.Base.Strings.{trim_space}
use askio_agent.Gateway.{
  Crypto, parse_int64, split_dots, is_expired, validate_host_token, check_decoded, check_body,
  check_parts,
}
use askio_agent.Gateway.Accepted.{IsGenuine, validate_host_token-IsGenuine}

-- Texts that are not encoded, and a key that is put before the message's length.
abbrev plain : Crypto String
plain = record { decode = λ s. some s; hmac = λ key message. key }

abbrev token : String
token = "s1.9.k"

accepted : validate_host_token plain "k" "s1" 5 token ≡ none
unfolding validate_host_token check_decoded check_body check_parts split_dots parse_int64 is_expired
    trim_space
accepted = refl

validate_host_token-IsGenuine_example :
    (body : String) × (plain.decode (trim_space token) ≡ some body)
    × (IsGenuine plain "k" "s1" 5 body)
validate_host_token-IsGenuine_example =
    validate_host_token-IsGenuine plain "k" "s1" 5 token accepted

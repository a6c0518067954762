-- ===== src/Gateway.antt =====
-- internal/gateway/auth.go: the tokens by which hosts reach the gateway.
pub mod Accepted
mod Examples
use Prim.Native.Char.{Char, code}
use askio_agent.Base.{
  ℕ, ◌+◌, ◌-◌, ◌*◌, String, Bool, true, false, not, ◌&&◌, ◌||◌, Option, none, some, List, [], ◌∷◌,
  append, is_empty, ltb, leb, eqb, if◌then◌else◌, codes, ◌==◌,
}
use askio_agent.Base.Strings.{trim_space}
use askio_agent.Operations.Params.{wrap, is_positive}

-- The packages crypto/hmac, crypto/sha256 and encoding/base64: a decoder of base64url texts, and the
-- hexadecimal HMAC-SHA256 of a message under a key.
pub record Crypto (Key : Type 0) : Type 0 where
  pub decode : String → Option String
  pub hmac : Key → String → String

-- `parseInt64`, as the bits of the number; it has no bound and wraps around.
unfoldable pub parse_digits : ℕ → List ℕ → Option ℕ
unfolding wrap
parse_digits n [] = some n
parse_digits n (c ∷ cs) =
    let rest = parse_digits (wrap (n * 10 + (c - 48))) cs in
    if leb 48 c && leb c 57 then rest else none

unfoldable pub parse_int64 : String → Option ℕ
unfolding parse_digits
parse_int64 s = parse_digits 0 (codes s)

first_to : Char → List String → List String
first_to c [] = (String.◌∷◌ c "") ∷ []
first_to c (part ∷ parts) = String.◌∷◌ c part ∷ parts

-- `strings.Split(s, ".")`.
unfoldable pub split_dots : String → List String
unfolding first_to
split_dots String.[] = "" ∷ []
split_dots (String.◌∷◌ c s) =
    let rest = split_dots s in if eqb (code c) 46 then "" ∷ rest else first_to c rest

abbrev unauthorized : Option String
unauthorized = some "unauthorized"

-- `expUnix > 0 && !now.Before(time.Unix(expUnix, 0))`, with the time in nanoseconds. `time.Unix` counts
-- the seconds from the year 1 in 64 bits: a number that is too large lies before every time.
unfoldable pub is_expired : ℕ → ℕ → Bool
unfolding is_positive wrap
is_expired exp now =
    is_positive exp
    && (not (is_positive (wrap (exp + 62135596800))) || not (ltb now (exp * 1000000000)))

module _ {Key : Type 0} (crypto : Crypto Key) (key : Key) (expected : String) (now : ℕ) where
  unfoldable pub check_parts : String → String → String → Option ℕ → Option String
  unfolding is_expired
  check_parts sid exp sig none = unauthorized
  check_parts sid exp sig (some n) =
      if is_expired n now
      then some "unauthorized: token expired"
      else if not (crypto.hmac key (append sid (append "." exp)) == sig)
      then unauthorized
      else none

  unfoldable pub check_body : List String → Option String
  unfolding parse_int64
  check_body (sid ∷ exp ∷ sig ∷ []) =
      let checked = check_parts sid exp sig (parse_int64 exp) in
      if not (is_empty expected) && not (sid == expected) then unauthorized else checked
  check_body _ = unauthorized

  unfoldable pub check_decoded : Option String → Option String
  unfolding split_dots
  check_decoded none = unauthorized
  check_decoded (some body) = check_body (split_dots body)

  -- `ValidateHostToken`: none, or the error.
  unfoldable pub validate_host_token : String → Option String
  unfolding trim_space
  validate_host_token token =
      let trimmed = trim_space token in
      if is_empty trimmed then unauthorized else check_decoded (crypto.decode trimmed)

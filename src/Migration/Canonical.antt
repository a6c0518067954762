-- ===== src/Migration/Canonical.antt =====
-- internal/migration/canonical.go: canonical documents and their digests. The encoder of
-- encoding/json and SHA-256 are parameters.
use askio_agent.Base.{String, Option, none, some, append, eqb, if◌then◌else◌, Bool, ◌&&◌}
use Prim.Native.Char.{code}
use askio_agent.Envelope.{Json}

-- `encode` is what `Encoder.Encode` writes, its newline included; `decode` reads one value.
pub record Codec : Type 0 where
  pub encode : Json → Option String
  pub decode : String → Option Json
  pub sha256_hex : String → String

-- `bytes.TrimSuffix(_, "\n")`.
unfoldable pub trim_newline : String → String
trim_newline String.[] = ""
trim_newline (String.◌∷◌ c s) =
    let rest = trim_newline s in if eqb (code c) 10 && is_end s then "" else String.◌∷◌ c rest
  where
    is_end : String → Bool
    is_end String.[] = Bool.true
    is_end (String.◌∷◌ _ _) = Bool.false

module _ (codec : Codec) where
  trim_line : Option String → Option String
  trim_line none = none
  trim_line (some line) = some (trim_newline line)

  reencode : Option Json → Option String
  unfolding trim_line
  reencode none = none
  reencode (some v) = trim_line (codec.encode v)

  decode_again : Option String → Option String
  unfolding reencode
  decode_again none = none
  decode_again (some line) = reencode (codec.decode (trim_newline line))

  unfoldable pub canonical_json : Json → Option String
  unfolding decode_again
  canonical_json v = decode_again (codec.encode v)

  tagged : Option String → Option String
  tagged none = none
  tagged (some text) = some (append "sha256:" (codec.sha256_hex text))

  unfoldable pub digest : Json → Option String
  unfolding canonical_json tagged
  digest v = tagged (canonical_json v)

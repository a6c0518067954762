-- ===== src/Migration/Files/Examples.antt =====
-- Capacity and manifests on concrete values.
use askio_agent.Base.{
  ℕ, String, List, [], ◌∷◌, some, ◌≡◌, ◌≤◌, refl, leb, ltb, ◌&&◌, ◌*◌, ◌/◌, ◌+◌, arith, lookup,
  insert,
}
use Prim.Native.Nat.{◌^◌}
use askio_agent.Envelope.{Json}
use askio_agent.Migration.Canonical.{Codec, digest, trim_newline}
use askio_agent.Base.Action.{◌>>=◌}
use askio_agent.Migration.Scope.{clean_relative, joined, AllSafe, clean_relative-AllSafe}
use askio_agent.Migration.Int64.{maximum_int64}
use askio_agent.Migration.Files.Capacity.{
  reserve_bytes, smaller, larger, saturated_file_system_bytes, has_file_system_capacity,
  saturated_file_system_bytes-smaller, has_file_system_capacity-exact,
}
use askio_agent.Migration.Files.Manifest.{
  FileManifestEntry, FileManifest, FileManifestSummary, file_manifest_schema,
  maximum_manifest_bytes, validate_transferred_manifest, check_entries, check_entry,
}
use askio_agent.Migration.Files.Listed.{
  IsOrdered, file_bytes, validate_transferred_manifest-IsOrdered,
  validate_transferred_manifest-file_bytes,
}

saturated_file_system_bytes-smaller_example :
    saturated_file_system_bytes 4096 (2 ^ 60) ≡ smaller (4096 * 2 ^ 60) maximum_int64
saturated_file_system_bytes-smaller_example =
    saturated_file_system_bytes-smaller 4096 (2 ^ 60) (omega arith) (omega arith)

has_file_system_capacity-exact_example : has_file_system_capacity 300 1000 200 ≡ (
    ltb 300 (2 ^ 63)
    && (ltb 0 1000 && ltb 1000 (2 ^ 63))
    && ltb 200 (2 ^ 63)
    && leb (200 + larger (1000 * 15 / 100) reserve_bytes) 300)
has_file_system_capacity-exact_example =
    has_file_system_capacity-exact 300 1000 200 (omega arith) (omega arith) (omega arith)

abbrev codec : Codec
codec = record {
  encode = λ v. some "document";
  decode = λ text. some Json.null;
  sha256_hex = λ text. text;
}

abbrev file_digest : String
file_digest = "sha256:0123456789abcdef0123456789abcdef0123456789abcdef0123456789abcdef"

abbrev file_of : String → ℕ → FileManifestEntry
file_of relative size = record {
  relative = relative;
  kind = "file";
  size_bytes = size;
  mode = 420;
  modified_unix_nano = 0;
  sha256 = file_digest;
}

abbrev manifest_of : List FileManifestEntry → FileManifest
manifest_of entries = record { schema_version = file_manifest_schema; entries = entries }

abbrev summary_of : List FileManifestEntry → ℕ → FileManifestSummary
summary_of entries total = record {
  manifest = manifest_of entries;
  summary_digest = "sha256:document";
  file_count = 2;
  directory_count = 0;
  total_bytes = total;
}

abbrev two_files : List FileManifestEntry
two_files = file_of "a/b" 3 ∷ file_of "a/c" 4 ∷ []

validated :
    validate_transferred_manifest codec (manifest_of two_files) "sha256:document" 100
    ≡ some (summary_of two_files 7)
unfolding validate_transferred_manifest check_entries ◌>>=◌ check_entry lookup insert digest
    trim_newline
validated = refl

validate_transferred_manifest-IsOrdered_example : IsOrdered "" two_files
validate_transferred_manifest-IsOrdered_example =
    validate_transferred_manifest-IsOrdered codec (manifest_of two_files) "sha256:document" 100
      (summary_of two_files 7) validated

validate_transferred_manifest-file_bytes_example :
    (7 ≡ file_bytes two_files) × (7 ≤ maximum_manifest_bytes) × (7 ≤ 100)
validate_transferred_manifest-file_bytes_example =
    validate_transferred_manifest-file_bytes codec (manifest_of two_files) "sha256:document" 100
      (summary_of two_files 7) (omega arith) (omega arith, (omega arith, tt)) validated

-- Two files that are much larger than the limit of a hundred bytes: their total wraps to a negative
-- number, which is below every limit.
abbrev huge_files : List FileManifestEntry
huge_files = file_of "a" 1 ∷ file_of "b" maximum_int64 ∷ []

huge_accepted :
    validate_transferred_manifest codec (manifest_of huge_files) "sha256:document" 100
    ≡ some (summary_of huge_files (2 ^ 63))
unfolding validate_transferred_manifest check_entries ◌>>=◌ check_entry digest trim_newline
huge_accepted = refl

inside : clean_relative "a//b/../c" ≡ some "a/c"
unfolding clean_relative
inside = refl

clean_relative-AllSafe_example : (parts : List String) × ("a/c" ≡ joined parts) × AllSafe parts
clean_relative-AllSafe_example = clean_relative-AllSafe "a//b/../c" "a/c" inside

-- ===== src/Migration/Files/Manifest.antt =====
-- internal/migration/files.go: manifests that arrive from the source agent.
use askio_agent.Base.{
  ℕ, suc, ◌-◌, String, Bool, true, false, not, ◌||◌, ◌&&◌, List, [], ◌∷◌, Option, none, some,
  if◌then◌else◌, is_empty, ltb, leb, eqb, ◌==◌, lookup, insert, codes, ◌++◌,
}
use askio_agent.Base.Strings.{contains, strip_prefix}
use askio_agent.Base.Action.{
  Action, Outcome, done, fail, pure, raise, gets, modify, check, ◌>>=◌, ◌>>◌,
}
use askio_agent.Envelope.{Json, Items, item, end_items, Fields, field, end_fields}
use askio_agent.Migration.Canonical.{Codec, digest}
use askio_agent.Migration.Int64.{word, add64, less64, is_negative}
use askio_agent.Migration.Scope.{clean_parts, clean_relative, joined}

-- The sizes and times are int64.
pub record FileManifestEntry : Type 0 where
  pub relative : String
  pub kind : String
  pub size_bytes : ℕ
  pub mode : ℕ
  pub modified_unix_nano : ℕ
  pub sha256 : String

pub record FileManifest : Type 0 where
  pub schema_version : String
  pub entries : List FileManifestEntry

pub record FileManifestSummary : Type 0 where
  pub manifest : FileManifest
  pub summary_digest : String
  pub file_count : ℕ
  pub directory_count : ℕ
  pub total_bytes : ℕ

abbrev pub file_manifest_schema : String
file_manifest_schema = "operations.migration.file-manifest.v1"

abbrev pub maximum_manifest_entries : ℕ
maximum_manifest_entries = 250_000

abbrev pub maximum_manifest_bytes : ℕ
maximum_manifest_bytes = 536_870_912_000

int64_json : ℕ → Json
unfolding is_negative
int64_json n = if is_negative n then Json.negative (word - n) else Json.whole n

-- `omitempty`.
digest_field : String → Fields
digest_field sha256 =
    if is_empty sha256 then end_fields else field "sha256" (Json.text sha256) end_fields

entry_json : FileManifestEntry → Json
unfolding int64_json digest_field
entry_json e = Json.object (
    field "relative" (Json.text e.relative) (
      field "type" (Json.text e.kind) (
        field "size_bytes" (int64_json e.size_bytes) (
          field "mode" (Json.whole e.mode) (
            field "modified_unix_nano" (int64_json e.modified_unix_nano)
              (digest_field e.sha256))))))

entries_json : List FileManifestEntry → Items
unfolding entry_json
entries_json [] = end_items
entries_json (e ∷ rest) = item (entry_json e) (entries_json rest)

unfoldable pub manifest_json : FileManifest → Json
unfolding entries_json
manifest_json m = Json.object (
    field "schema_version" (Json.text m.schema_version)
      (field "entries" (Json.array (entries_json m.entries)) end_fields))

-- Go's order of strings, byte by byte, which is the order of their characters.
unfoldable pub less_codes : List ℕ → List ℕ → Bool
less_codes [] [] = false
less_codes [] (d ∷ ds) = true
less_codes (c ∷ cs) [] = false
less_codes (c ∷ cs) (d ∷ ds) = ltb c d || (eqb c d && less_codes cs ds)

unfoldable pub less_text : String → String → Bool
unfolding less_codes
less_text s t = less_codes (codes s) (codes t)

hex_count : List ℕ → Option ℕ
hex_count [] = some 0
hex_count (c ∷ cs) =
    let rest = hex_count cs in
    if (leb b'a' c && leb c b'f') || (leb b'0' c && leb c b'9') then next rest else none
  where
    next : Option ℕ → Option ℕ
    next none = none
    next (some n) = some (suc n)

is_hex_64 : Option String → Bool
unfolding hex_count
is_hex_64 none = false
is_hex_64 (some rest) = counts (hex_count (codes rest))
  where
    counts : Option ℕ → Bool
    counts none = false
    counts (some n) = eqb n 64

-- `^sha256:[a-f0-9]{64}$`.
unfoldable pub is_file_digest : String → Bool
unfolding is_hex_64 strip_prefix
is_file_digest s = is_hex_64 (strip_prefix "sha256:" s)

unfoldable pub count_entries : List FileManifestEntry → ℕ
count_entries [] = 0
count_entries (_ ∷ rest) = suc (count_entries rest)

-- The variables of the loop over the entries.
pub record Walk : Type 0 where
  pub previous : String
  pub path_types : List (String × String)
  pub file_count : ℕ
  pub directory_count : ℕ
  pub total_bytes : ℕ

-- The directories above a path, from the one nearest to its root.
unfoldable pub above : List String → List String → List String
above [] before = []
above (x ∷ []) before = []
above (x ∷ (y ∷ rest)) before = joined (before ++ (x ∷ [])) ∷ above (y ∷ rest) (before ++ (x ∷ []))

unfoldable pub is_file : Option String → Bool
is_file none = false
is_file (some kind) = kind == "file"

unfoldable pub any_file : List String → List (String × String) → Bool
unfolding is_file
any_file [] path_types = false
any_file (parent ∷ rest) path_types = is_file (lookup parent path_types) || any_file rest path_types

-- `cleanRelative` gives back the path itself, which is not the root.
unfoldable pub same_path : Option String → String → Bool
same_path none relative = false
same_path (some clean) relative = not (clean == ".") && clean == relative

unfoldable pub check_directory : FileManifestEntry → Action Walk (Unit {0})
check_directory e = do
  check (eqb e.size_bytes 0 && is_empty e.sha256) "direct directory manifest entry is invalid"
  modify (λ w. record w { directory_count = suc w.directory_count })

unfoldable pub check_file : ℕ → FileManifestEntry → Action Walk (Unit {0})
unfolding is_file_digest add64 less64 is_negative
check_file maximum e = do
  check (not (is_negative e.size_bytes || not (is_file_digest e.sha256)))
      "direct file manifest digest is invalid"
  modify (λ w. record w {
    file_count = suc w.file_count;
    total_bytes = add64 w.total_bytes e.size_bytes;
  })
  total ← gets (λ w. w.total_bytes)
  check (not (less64 maximum total || less64 maximum_manifest_bytes total))
      "direct file manifest exceeds the signed byte limit"

unfoldable pub check_kind : ℕ → FileManifestEntry → Action Walk (Unit {0})
unfolding check_directory check_file
check_kind maximum e =
    if e.kind == "directory"
    then check_directory e
    else if e.kind == "file"
    then check_file maximum e
    else raise "direct file manifest contains an unsupported entry type"

-- One round of the loop.
unfoldable pub check_entry : ℕ → FileManifestEntry → Action Walk (Unit {0})
unfolding less_text contains clean_relative same_path any_file above clean_parts check_kind
    is_negative
check_entry maximum e = do
  previous ← gets (λ w. w.previous)
  check
      (not (
        is_empty e.relative
        || not (less_text previous e.relative)
        || contains e.relative "\\"
        || ltb 511 e.mode
        || is_negative e.modified_unix_nano))
      "direct file manifest ordering or metadata is invalid"
  check (same_path (clean_relative e.relative) e.relative) "direct file manifest path is unsafe"
  path_types ← gets (λ w. w.path_types)
  check (not (any_file (above (clean_parts e.relative) []) path_types))
      "direct file manifest places an entry below a file"
  check_kind maximum e
  modify
      (λ w. record w { path_types = insert e.relative e.kind w.path_types; previous = e.relative })

unfoldable pub check_entries : ℕ → List FileManifestEntry → Action Walk (Unit {0})
check_entries maximum [] = pure tt
check_entries maximum (e ∷ rest) = do check_entry maximum e; check_entries maximum rest

unfoldable pub start : Walk
start = record {
  previous = "";
  path_types = [];
  file_count = 0;
  directory_count = 0;
  total_bytes = 0;
}

module _ (codec : Codec) where
  unfoldable pub same_digest : Option String → String → Bool
  same_digest none expected = false
  same_digest (some d) expected = d == expected

  unfoldable pub summarize :
      FileManifest → String → Outcome Walk (Unit {0}) → Option FileManifestSummary
  unfolding same_digest
  summarize m expected (fail e w) = none
  summarize m expected (done u w) =
      if same_digest (digest codec (manifest_json m)) expected
      then some (record {
        manifest = m;
        summary_digest = expected;
        file_count = w.file_count;
        directory_count = w.directory_count;
        total_bytes = w.total_bytes;
      })
      else none

  -- `none` is an error.
  unfoldable pub validate_transferred_manifest :
      FileManifest → String → ℕ → Option FileManifestSummary
  unfolding summarize start count_entries
  validate_transferred_manifest m expected maximum =
      if not (m.schema_version == file_manifest_schema)
        || ltb maximum_manifest_entries (count_entries m.entries)
      then none
      else summarize m expected (check_entries maximum m.entries start)

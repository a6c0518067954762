-- ===== src/Migration/Files/Listed.antt =====
-- internal/migration/files.go, `validateTransferredManifest`: what an accepted manifest lists.
pub mod Entries
use askio_agent.Base.{
  ℕ, ◌+◌, ◌≤◌, ◌<◌, String, true, false, List, [], ◌∷◌, Option, none, some, ◌≡◌, refl, sym, ap,
  subst, ◌∙◌, ◌⊎◌, inl, inr, if◌then◌else◌, ◌==◌, eq_iff, arith,
}
use Prim.Native.Nat.{◌^◌}
use askio_agent.Base.Action.{Outcome, done, fail, modify}
use askio_agent.Base.Action.Returns.{
  Returns, Returns-bind, Returns-pure, Returns-raise, Returns-split, Returns-check,
  Returns-check-then, Returns-gets, Returns-from, returned,
}
use askio_agent.Migration.Canonical.{Codec}
use askio_agent.Migration.Int64.{add64, less64}
use askio_agent.Migration.Scope.{clean_relative, joined, AllSafe, clean_relative-AllSafe}
use askio_agent.Migration.Files.Manifest.{
  FileManifestEntry, FileManifest, FileManifestSummary, maximum_manifest_bytes, Walk, less_text,
  same_path, summarize, check_directory, check_file, check_kind, check_entry, check_entries, start,
  validate_transferred_manifest,
}
use askio_agent.Migration.Files.Listed.Entries.{Counts, Listed, validated-Listed}

-- Each path comes after the one before it, and is made of components that stay below the root.
abbrev pub IsOrdered : String → List FileManifestEntry → Type 0
IsOrdered previous [] = Unit {0}
IsOrdered previous (e ∷ rest) =
    (less_text previous e.relative ≡ true)
    × ((parts : List String) × (e.relative ≡ joined parts) × AllSafe parts)
    × IsOrdered e.relative rest

Listed-IsOrdered :
    (maximum : ℕ) (entries : List FileManifestEntry) (previous : String) (before after : ℕ)
    → Listed maximum previous before entries after
    → IsOrdered previous entries
Listed-IsOrdered maximum [] previous before after h = tt
Listed-IsOrdered maximum (e ∷ rest) previous before after h = (
  h.1.ascends,
  clean_relative-AllSafe e.relative e.relative h.1.safe,
  Listed-IsOrdered maximum rest e.relative h.0 after h.2,
)

-- The entries of a manifest that is accepted come in strictly ascending order of their paths, and
-- each path is made of components none of which is empty, "." or "..".
pub validate_transferred_manifest-IsOrdered :
    (codec : Codec) (m : FileManifest) (expected : String) (maximum : ℕ) (s : FileManifestSummary)
    → validate_transferred_manifest codec m expected maximum ≡ some s
    → IsOrdered "" m.entries
validate_transferred_manifest-IsOrdered codec m expected maximum s h =
    Listed-IsOrdered maximum m.entries "" 0 s.total_bytes
      (validated-Listed codec m expected maximum s h)

-- The bytes of all files, as a plain number.
unfoldable pub file_bytes : List FileManifestEntry → ℕ
file_bytes [] = 0
file_bytes (e ∷ rest) = (if e.kind == "file" then e.size_bytes else 0) + file_bytes rest

-- No size is so large that adding it to an accepted total overflows.
abbrev pub AllModest : List FileManifestEntry → Type 0
AllModest [] = Unit {0}
AllModest (e ∷ rest) = (e.size_bytes + maximum_manifest_bytes < 2 ^ 63) × AllModest rest

counted-exact :
    (maximum : ℕ) (e : FileManifestEntry) (before after : ℕ)
    → before ≤ maximum_manifest_bytes
    → before ≤ maximum
    → maximum < 2 ^ 63
    → e.size_bytes + maximum_manifest_bytes < 2 ^ 63
    → Counts maximum e before after
    → (after ≡ before + (if e.kind == "file" then e.size_bytes else 0))
      × (after ≤ maximum_manifest_bytes)
      × (after ≤ maximum)
unfolding less64 add64
counted-exact maximum e before after low under bound modest (inl d) =
    let k : (e.kind == "file") ≡ false = rw (d.0) refl in
    rw k (omega (arith, d.1), omega (arith, d.1), omega (arith, d.1))
counted-exact maximum e before after low under bound modest (inr f) =
    let k : (e.kind == "file") ≡ true = rw (f.0) refl in
    rw k (ground (arith, f.1), ground (arith, f.1, f.2, f.3), ground (arith, f.1, f.2, f.3))

Listed-file_bytes :
    (maximum : ℕ) (entries : List FileManifestEntry) (previous : String) (before after : ℕ)
    → before ≤ maximum_manifest_bytes
    → before ≤ maximum
    → maximum < 2 ^ 63
    → AllModest entries
    → Listed maximum previous before entries after
    → (after ≡ before + file_bytes entries) × (after ≤ maximum_manifest_bytes) × (after ≤ maximum)
unfolding file_bytes
Listed-file_bytes maximum [] previous before after low under bound modest h = omega arith
Listed-file_bytes maximum (e ∷ rest) previous before after low under bound modest h =
    let c = counted-exact maximum e before h.0 low under bound modest.0 h.1.counts in
    let r = Listed-file_bytes maximum rest e.relative h.0 after c.1 c.2 bound modest.1 h.2 in
    (omega (arith, c.0, r.0), r.1, r.2)

-- When no single size comes within 500 GiB of the largest int64, an accepted manifest's total is the
-- sum of the sizes of its files, and is at most the ticket's limit and 500 GiB.
pub validate_transferred_manifest-file_bytes :
    (codec : Codec) (m : FileManifest) (expected : String) (maximum : ℕ) (s : FileManifestSummary)
    → maximum < 2 ^ 63
    → AllModest m.entries
    → validate_transferred_manifest codec m expected maximum ≡ some s
    → (s.total_bytes ≡ file_bytes m.entries)
      × (s.total_bytes ≤ maximum_manifest_bytes)
      × (s.total_bytes ≤ maximum)
validate_transferred_manifest-file_bytes codec m expected maximum s bound modest h = omega (
  arith,
  Listed-file_bytes maximum m.entries "" 0 s.total_bytes (omega arith) (omega arith) bound modest
      (validated-Listed codec m expected maximum s h),
)

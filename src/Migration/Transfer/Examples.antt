-- ===== src/Migration/Transfer/Examples.antt =====
-- The transfer of a small file, and the lookup of its entry.
use askio_agent.Migration.Transfer.Bytes.{length}
use askio_agent.Migration.Transfer.{truncate, chunk_length}
use askio_agent.Base.{
  ℕ, zero, suc, ◌<◌, String, List, [], ◌∷◌, Option, some, ◌≡◌, refl, arith, lookup, decimal, ◌≤◌,
  true,
}
use Prim.Native.Nat.{◌^◌}
use askio_agent.Migration.Files.Manifest.{FileManifestEntry, less_text}
use askio_agent.Migration.Scope.{clean_relative}
use askio_agent.Migration.Transfer.{
  served, panicked, handle_chunk, chunk_count, Partial, matches, download_file,
}
use askio_agent.Migration.Transfer.Chunks.{chunk_of, IsOffered, handle_chunk-chunk_of}
use askio_agent.Migration.Transfer.Assembly.{
  IsTrusted, region, source_of, download_file-handle_chunk,
}
use askio_agent.Migration.Transfer.Lookup.{
  find_manifest_entry, first_entry, find_manifest_entry-first_entry,
}

-- Stands in for the digest: each number in unary, closed by a mark.
unary : ℕ → String → String
unary zero rest = String.◌∷◌ "b" rest
unary (suc n) rest = String.◌∷◌ "a" (unary n rest)

unary_digest : List ℕ → String
unfolding unary
unary_digest [] = ""
unary_digest (x ∷ xs) = unary x (unary_digest xs)

abbrev content : List ℕ
content = 7 ∷ 8 ∷ 9 ∷ []

abbrev entry : FileManifestEntry
entry = record {
  relative = "a";
  kind = "file";
  size_bytes = 3;
  mode = 420;
  modified_unix_nano = 0;
  sha256 = "aaaaaaabaaaaaaaabaaaaaaaaab";
}

abbrev opened : String → Option (List ℕ)
opened path = some content

abbrev listed : List FileManifestEntry
listed = entry ∷ []

entry-IsOffered : IsOffered listed opened entry content
unfolding less_text first_entry clean_relative
entry-IsOffered = record {
  ascending = (refl, tt);
  clean = refl;
  below_root = refl;
  listed = refl;
  kind = refl;
  readable = refl;
  sized = refl;
  bounded = omega arith;
}

one_chunk : 0 < chunk_count 3
unfolding chunk_count
one_chunk = omega arith

handle_chunk-chunk_of_example :
    handle_chunk (some listed) opened "a" 0 ≡ served (chunk_of content 0)
handle_chunk-chunk_of_example =
    handle_chunk-chunk_of listed opened entry content 0 entry-IsOffered one_chunk

-- An attempt that broke off: the checkpoint has the chunk, the file only its beginning.
abbrev broken_off : Partial
broken_off = record { file = 7 ∷ 8 ∷ []; chunks = ("0", unary_digest content) ∷ [] }

broken_off-IsTrusted :
    IsTrusted content unary_digest 0
      (record { file = truncate (length content) broken_off.file; chunks = broken_off.chunks })
unfolding matches lookup unary_digest truncate decimal chunk_length chunk_count
broken_off-IsTrusted = record { at = at_chunk }
  where
    at_chunk :
        (index : ℕ)
        → 0 ≤ index
        → index < chunk_count (length content)
        → matches (lookup (decimal index) (("0", unary_digest content) ∷ [])) (
            unary_digest
              (region content unary_digest index (truncate (length content) broken_off.file)))
          ≡ true
        → region content unary_digest index (truncate (length content) broken_off.file)
          ≡ chunk_of content index
    at_chunk zero h k m = absurd cc
    at_chunk (suc index) h k m = absurd (omega arith)

digest_of_content : entry.sha256 ≡ unary_digest content
unfolding unary_digest
digest_of_content = refl

download_file-handle_chunk_example :
    download_file (source_of listed opened "a") unary_digest 3 entry broken_off ≡ some content
download_file-handle_chunk_example =
    download_file-handle_chunk listed opened entry content unary_digest broken_off entry-IsOffered
      digest_of_content broken_off-IsTrusted

find_manifest_entry-first_entry_example :
    find_manifest_entry (entry ∷ record entry { relative = "b" } ∷ []) "b"
    ≡ first_entry "b" (entry ∷ record entry { relative = "b" } ∷ [])
unfolding less_text
find_manifest_entry-first_entry_example =
    find_manifest_entry-first_entry "" "b" (entry ∷ record entry { relative = "b" } ∷ [])
      (refl, (refl, tt))

-- The product of the index and the chunk size wraps: an index far beyond the file is answered with
-- the file's first chunk, and another one makes the handler panic.
wrapped_index : handle_chunk (some listed) opened "a" (2 ^ 42) ≡ served content
unfolding handle_chunk clean_relative find_manifest_entry
wrapped_index = refl

panicking_index : handle_chunk (some listed) opened "a" (2 ^ 41) ≡ panicked
unfolding handle_chunk clean_relative find_manifest_entry
panicking_index = refl

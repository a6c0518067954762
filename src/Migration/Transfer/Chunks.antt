-- ===== src/Migration/Transfer/Chunks.antt =====
-- internal/migration/dataplane.go and files.go: what the source serves, the target puts together.
use askio_agent.Base.{
  ℕ, ◌+◌, ◌-◌, ◌*◌, ◌/◌, ◌≤◌, ◌<◌, String, true, false, List, Option, some, ◌≡◌, refl, ap, ◌∙◌,
  if◌then◌else◌, ◌==◌, ltb, eqb, arith, Bool-cases, inl, inr,
}
use askio_agent.Migration.Int64.{add64, sub64, mul64, less64, is_negative}
use askio_agent.Migration.Files.Manifest.{FileManifestEntry, maximum_manifest_bytes}
use askio_agent.Migration.Scope.{clean_relative}
use askio_agent.Migration.Transfer.Lookup.{
  first_entry, IsAscending, find_manifest_entry-first_entry,
}
use askio_agent.Migration.Transfer.{
  serve_path, answer, serve_entry, serve_file, chunk_size, served, read_at, serve_from,
  handle_chunk, chunk_count, chunk_length,
}
use askio_agent.Migration.Transfer.Bytes.{length, take, drop}

-- The chunk with this number of a file.
unfoldable pub chunk_of : List ℕ → ℕ → List ℕ
chunk_of content index =
    take (chunk_length (length content) (index * chunk_size)) (drop (index * chunk_size) content)

pub offset-exact :
    (size index : ℕ)
    → size ≤ maximum_manifest_bytes
    → index < chunk_count size
    → (mul64 index chunk_size ≡ index * chunk_size) × (index * chunk_size < size)
unfolding chunk_count add64 sub64 mul64
offset-exact size index h k = (omega arith, omega arith)

pub chunk_length-exact :
    (size offset : ℕ)
    → size ≤ maximum_manifest_bytes
    → offset < size
    → chunk_length size offset
      ≡ (if ltb (size - offset) chunk_size then size - offset else chunk_size)
unfolding chunk_length sub64 less64
chunk_length-exact size offset h k = ground arith

pub chunk_count-exact :
    (size : ℕ)
    → size ≤ maximum_manifest_bytes
    → chunk_count size ≡ (size + chunk_size - 1) / chunk_size
unfolding chunk_count add64 sub64
chunk_count-exact size h = omega arith

offset-positive :
    (size offset : ℕ)
    → size ≤ maximum_manifest_bytes
    → offset < size
    → (is_negative offset ≡ false) × (is_negative (sub64 size offset) ≡ false)
unfolding is_negative sub64
offset-positive size offset h k = (ground arith, ground arith)

serve_from-exact :
    (content : List ℕ) (offset : ℕ)
    → length content ≤ maximum_manifest_bytes
    → offset < length content
    → serve_from content (length content) offset
      ≡ served (take (chunk_length (length content) offset) (drop offset content))
unfolding serve_from chunk_length read_at answer
serve_from-exact content offset h k =
    let e = offset-positive (length content) offset h k in
    elim (Bool-cases (less64 (sub64 (length content) offset) chunk_size)) [
      | inl p ↦ rw (p, e.1, e.0) refl
      | inr p ↦ rw (p, e.0) refl
    ]

module _ (entries : List FileManifestEntry) (open_regular : String → Option (List ℕ))
    (e : FileManifestEntry) (content : List ℕ) where
  -- The source agent lists the entry as a file, among entries in order and with a clean path, and still
  -- has it, with its size.
  pub record IsOffered : Type 0 where
    pub ascending : IsAscending "" entries
    pub listed : first_entry e.relative entries ≡ some e
    pub clean : clean_relative e.relative ≡ some e.relative
    pub below_root : (e.relative == ".") ≡ false
    pub kind : e.kind ≡ "file"
    pub readable : open_regular e.relative ≡ some content
    pub sized : length content ≡ e.size_bytes
    pub bounded : e.size_bytes ≤ maximum_manifest_bytes

  index-positive :
      (size index : ℕ)
      → size ≤ maximum_manifest_bytes
      → index < chunk_count size
      → is_negative index ≡ false
  unfolding chunk_count add64 sub64 is_negative
  index-positive size index h k = ground arith

  offset-inside :
      (size index : ℕ)
      → size ≤ maximum_manifest_bytes
      → index < chunk_count size
      → less64 (mul64 index chunk_size) size ≡ true
  unfolding chunk_count add64 sub64 less64 mul64
  offset-inside size index h k = ground arith

  eqb_refl : (n : ℕ) → eqb n n ≡ true
  eqb_refl n = ground arith

  served-chunk_of :
      (index : ℕ)
      → IsOffered
      → index < chunk_count e.size_bytes
      → serve_file e index (some content) ≡ served (chunk_of content index)
  unfolding serve_file chunk_of
  served-chunk_of index o h =
      let k = offset-exact e.size_bytes index o.bounded h in
      rw (← (o.sized), eqb_refl (length content))
        (ap (serve_from content (length content)) k.0
          ∙ serve_from-exact content (index * chunk_size) (rw (o.sized) o.bounded)
              (rw (o.sized) k.1))

  listed-chunk_of :
      (index : ℕ)
      → IsOffered
      → index < chunk_count e.size_bytes
      → serve_entry open_regular e.relative index (some e) ≡ served (chunk_of content index)
  unfolding serve_entry
  listed-chunk_of index o h =
      let file : (e.kind == "file") ≡ true = rw (o.kind) refl in
      rw (file, offset-inside e.size_bytes index o.bounded h)
        (ap (serve_file e index) o.readable ∙ served-chunk_of index o h)

  path-chunk_of :
      (index : ℕ)
      → IsOffered
      → index < chunk_count e.size_bytes
      → serve_path open_regular entries index (some e.relative) ≡ served (chunk_of content index)
  unfolding serve_path
  path-chunk_of index o h = rw (o.below_root) (
      ap (serve_entry open_regular e.relative index)
        (find_manifest_entry-first_entry "" e.relative entries o.ascending ∙ o.listed)
      ∙ listed-chunk_of index o h)

  -- For each index below the number of chunks of a listed file the handler serves exactly the bytes
  -- of that chunk: the offset does not wrap, and the handler does not panic.
  pub handle_chunk-chunk_of :
      (index : ℕ)
      → IsOffered
      → index < chunk_count e.size_bytes
      → handle_chunk (some entries) open_regular e.relative index ≡ served (chunk_of content index)
  unfolding handle_chunk
  handle_chunk-chunk_of index o h =
      rw (index-positive e.size_bytes index o.bounded h)
        (ap (serve_path open_regular entries index) o.clean ∙ path-chunk_of index o h)

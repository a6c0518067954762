-- ===== src/Migration/Transfer.antt =====
-- internal/migration/dataplane.go and files.go: one file travels from the source agent to the target
-- agent in chunks. A file's content is the list of its bytes.
pub mod Bytes
mod Keys
pub mod Lookup
pub mod Chunks
pub mod Assembly
mod Examples
use askio_agent.Base.{
  ℕ, zero, suc, ◌+◌, ◌-◌, ◌*◌, ◌/◌, ◌%◌, String, Bool, true, false, not, ◌||◌, ◌&&◌, List, [], ◌∷◌,
  ◌++◌, Option, none, some, if◌then◌else◌, is_empty, ◌==◌, ltb, eqb, lookup, insert, remove,
  decimal,
}
use askio_agent.Migration.Int64.{word, add64, sub64, mul64, less64, is_negative}
use askio_agent.Migration.Files.Manifest.{FileManifestEntry}
use askio_agent.Migration.Scope.{clean_relative}
use askio_agent.Migration.Transfer.Lookup.{find_manifest_entry}
use askio_agent.Migration.Transfer.Bytes.{length, take, drop}

-- 4 MiB.
abbrev pub chunk_size : ℕ
chunk_size = 4_194_304

-- What the source agent answers: a status with no content, the bytes of a chunk, or nothing, when
-- the handler panics.
pub data ChunkReply : Type 0 where
  rejected : ℕ → ChunkReply
  served : List ℕ → ChunkReply
  panicked : ChunkReply

-- `File.ReadAt` into a buffer of the given length. A negative offset is an error.
unfoldable pub read_at : List ℕ → ℕ → ℕ → Option (List ℕ)
unfolding is_negative
read_at content offset size =
    if is_negative offset then none else some (take size (drop offset content))

unfoldable pub answer : Option (List ℕ) → ChunkReply
answer none = rejected 409
answer (some bytes) = served bytes

-- `handleChunk` from the offset on: `make` panics on a negative length.
unfoldable pub serve_from : List ℕ → ℕ → ℕ → ChunkReply
unfolding sub64 less64 is_negative read_at answer
serve_from content size offset =
    if less64 (sub64 size offset) chunk_size
    then (if is_negative (sub64 size offset)
        then panicked
        else answer (read_at content offset (sub64 size offset)))
    else answer (read_at content offset chunk_size)

unfoldable pub serve_file : FileManifestEntry → ℕ → Option (List ℕ) → ChunkReply
unfolding serve_from mul64
serve_file e index none = rejected 409
serve_file e index (some content) =
    if not (eqb (length content) e.size_bytes)
    then rejected 409
    else serve_from content e.size_bytes (mul64 index chunk_size)

unfoldable pub serve_entry :
    (String → Option (List ℕ)) → String → ℕ → Option FileManifestEntry → ChunkReply
unfolding serve_file mul64 less64
serve_entry open_regular relative index none = rejected 404
serve_entry open_regular relative index (some e) =
    if not (e.kind == "file") || not (less64 (mul64 index chunk_size) e.size_bytes)
    then rejected 404
    else serve_file e index (open_regular relative)

unfoldable pub serve_path :
    (String → Option (List ℕ)) → List FileManifestEntry → ℕ → Option String → ChunkReply
unfolding serve_entry
serve_path open_regular entries index none = rejected 400
serve_path open_regular entries index (some clean) =
    if clean == "."
    then rejected 400
    else serve_entry open_regular clean index (find_manifest_entry entries clean)

-- `handleChunk`, for an index that is an int64. The first argument is what `authorize` gives: an
-- error, or the entries of the manifest that it built. `open_regular` opens a path below the base.
unfoldable pub handle_chunk :
    Option (List FileManifestEntry) → (String → Option (List ℕ)) → String → ℕ → ChunkReply
unfolding serve_path is_negative
handle_chunk none open_regular relative index = rejected 403
handle_chunk (some entries) open_regular relative index =
    if is_negative index
    then rejected 403
    else serve_path open_regular entries index (clean_relative relative)

-- `(entry.SizeBytes + transferChunkSize - 1) / transferChunkSize`, for a size that is not negative.
unfoldable pub chunk_count : ℕ → ℕ
unfolding add64 sub64
chunk_count size = sub64 (add64 size chunk_size) 1 / chunk_size

unfoldable pub chunk_length : ℕ → ℕ → ℕ
unfolding sub64 less64
chunk_length size offset =
    if less64 (sub64 size offset) chunk_size then sub64 size offset else chunk_size

-- `WriteAt`, within a file that is long enough.
unfoldable pub write_at : List ℕ → ℕ → List ℕ → List ℕ
write_at file offset bytes = take offset file ++ (bytes ++ drop (offset + length bytes) file)

-- `Truncate`: what is missing is filled with zeros.
unfoldable pub truncate : ℕ → List ℕ → List ℕ
truncate zero file = []
truncate (suc n) [] = 0 ∷ truncate n []
truncate (suc n) (b ∷ file) = b ∷ truncate n file

-- The file that is being assembled, and the digests of its finished chunks in the checkpoint.
pub record Partial : Type 0 where
  pub file : List ℕ
  pub chunks : List (String × String)

-- What the target reaches: the source's chunks, and whether a chunk and the checkpoint after it can be
-- written.
pub record Source : Type 0 where
  pub fetch : ℕ → Option (List ℕ)
  pub saves : ℕ → Bool

unfoldable pub go_on : Option Partial → (Partial → Option Partial) → Option Partial
go_on none next = none
go_on (some q) next = next q

-- `expected != ""` and `actual == expected`.
unfoldable pub matches : Option String → String → Bool
matches none actual = false
matches (some expected) actual = not (is_empty expected) && actual == expected

module _ (source : Source) (sha256 : List ℕ → String) (size : ℕ) where
  unfoldable pub store_chunk : ℕ → ℕ → Partial → List ℕ → Option Partial
  unfolding write_at
  store_chunk index offset p bytes =
      if not (eqb (length bytes) (chunk_length size offset)) || not (source.saves index)
      then none
      else some (record {
        file = write_at p.file offset bytes;
        chunks = insert (decimal index) (sha256 bytes) p.chunks;
      })

  unfoldable pub fetched : ℕ → ℕ → Partial → Option (List ℕ) → Option Partial
  unfolding store_chunk
  fetched index offset p none = none
  fetched index offset p (some bytes) = store_chunk index offset p bytes

  -- One round of the loop over the chunks of a file; `none` is an error.
  unfoldable pub download_chunk : ℕ → Partial → Option Partial
  unfolding matches fetched mul64 chunk_length
  download_chunk index p =
      if matches (lookup (decimal index) p.chunks) (
        sha256 (
          take (chunk_length size (mul64 index chunk_size)) (drop (mul64 index chunk_size) p.file)))
      then some p
      else fetched index (mul64 index chunk_size)
          (record { file = p.file; chunks = remove (decimal index) p.chunks }) (source.fetch index)

  -- The rounds that are left, from the given index on.
  unfoldable pub download_chunks : ℕ → ℕ → Partial → Option Partial
  unfolding go_on
  download_chunks zero index p = some p
  download_chunks (suc left) index p =
      go_on (download_chunk index p) (λ q. download_chunks left (suc index) q)

  unfoldable pub verified_file : FileManifestEntry → Option Partial → Option (List ℕ)
  verified_file e none = none
  verified_file e (some p) =
      if sha256 p.file == e.sha256 && eqb (length p.file) e.size_bytes then some p.file else none

  -- A file that is not in the cache yet, from what an earlier attempt left of it.
  unfoldable pub download_file : FileManifestEntry → Partial → Option (List ℕ)
  unfolding truncate chunk_count verified_file
  download_file e p = verified_file e (
      download_chunks (chunk_count size) 0
        (record { file = truncate size p.file; chunks = p.chunks }))

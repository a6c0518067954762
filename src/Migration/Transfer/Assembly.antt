-- ===== src/Migration/Transfer/Assembly.antt =====
-- internal/migration/files.go, `downloadManifestTree`: a file is put together from its chunks.
pub mod Regions
use askio_agent.Base.{
  ℕ, zero, suc, ◌+◌, ◌*◌, ◌≤◌, ◌<◌, String, Bool, true, false, List, [], ◌∷◌, ◌++◌, Option, none,
  some, ◌≡◌, refl, sym, ap, subst, ◌∙◌, if◌then◌else◌, ◌==◌, eq_iff, eq_refl, ltb, lookup, insert,
  remove, decimal, lookup-insert, lookup-remove, arith, Bool-cases, inl, inr,
}
use askio_agent.Migration.Files.Manifest.{FileManifestEntry, maximum_manifest_bytes}
use askio_agent.Migration.Transfer.{
  chunk_size, ChunkReply, rejected, served, panicked, handle_chunk, chunk_count, chunk_length,
  write_at, truncate, Partial, Source, matches, store_chunk, fetched, download_chunk, go_on,
  download_chunks, verified_file, download_file,
}
use askio_agent.Migration.Transfer.Bytes.{
  length, take, drop, length-append, length-take, length-drop, take-all, take-add, take-append,
}
use askio_agent.Migration.Transfer.Keys.{decimal-injective}
use askio_agent.Migration.Transfer.Chunks.{
  chunk_of, offset-exact, chunk_length-exact, chunk_count-exact, IsOffered, handle_chunk-chunk_of,
}
use askio_agent.Migration.Transfer.Assembly.Regions.{
  length-write_at, take-write_at, length-truncate, reach, reach-suc, reach-count, length-chunk_of,
  content-next, drop-write_at, chunk_length-bounded,
}

module _ (content : List ℕ) (sha256 : List ℕ → String) where
  -- Where a chunk lies in a file of the content's size.
  abbrev pub region : ℕ → List ℕ → List ℕ
  region index file =
      take (chunk_length (length content) (index * chunk_size)) (drop (index * chunk_size) file)

  -- From some chunk on, a region of the file that matches the digest that the checkpoint holds for it
  -- has the bytes of the content's chunk.
  pub record IsTrusted (from : ℕ) (p : Partial) : Type 0 where
    pub at :
        (index : ℕ)
        → from ≤ index
        → index < chunk_count (length content)
        → matches (lookup (decimal index) p.chunks) (sha256 (region index p.file)) ≡ true
        → region index p.file ≡ chunk_of content index

  -- The first chunks are in place.
  record IsAssembled (index : ℕ) (p : Partial) : Type 0 where
    sized : length p.file ≡ length content
    begun : take (reach (length content) index) p.file ≡ take (reach (length content) index) content
    trusted : IsTrusted index p

  other_key : (i j : ℕ) → i < j → (decimal i == decimal j) ≡ false
  other_key i j h = elim (Bool-cases (decimal i == decimal j)) [
    | inl p ↦
        let same : i ≡ j =
          decimal-injective i j (ground (arith, p, eq_iff (decimal i) (decimal j))) in
        absurd (omega (arith, same))
    | inr p ↦ p
  ]

  later-lookup :
      (i j : ℕ) (d : String) (chunks : List (String × String))
      → i < j
      → lookup (decimal j) (insert (decimal i) d (remove (decimal i) chunks))
        ≡ lookup (decimal j) chunks
  later-lookup i j d chunks h = rw (lookup-insert, lookup-remove, other_key i j h) refl

  later-region :
      (i j : ℕ) (file bytes : List ℕ)
      → i < j
      → length bytes ≤ chunk_size
      → i * chunk_size + length bytes ≤ length file
      → region j (write_at file (i * chunk_size) bytes) ≡ region j file
  later-region i j file bytes h small fits =
      ap (take (chunk_length (length content) (j * chunk_size)))
        (drop-write_at file (i * chunk_size) (j * chunk_size) bytes fits (omega arith))

  IsTrusted-write :
      (index : ℕ) (p : Partial) (bytes : List ℕ)
      → length bytes ≤ chunk_size
      → index * chunk_size + length bytes ≤ length p.file
      → IsTrusted index p
      → IsTrusted (suc index) (record {
        file = write_at p.file (index * chunk_size) bytes;
        chunks = insert (decimal index) (sha256 bytes) (remove (decimal index) p.chunks);
      })
  IsTrusted-write index p bytes small fits t = record {
    at = λ j h k m.
        let r = later-region index j p.file bytes (omega arith) small fits in
        r
        ∙ t.at j (omega arith) k
            (rw (← r, ← later-lookup index j (sha256 bytes) p.chunks (omega arith)) m);
  }

  -- The source gives out the chunks of this content, and the checkpoint can be written.
  pub record IsServing (source : Source) : Type 0 where
    pub gives :
        (index : ℕ)
        → index < chunk_count (length content)
        → source.fetch index ≡ some (chunk_of content index)
    pub saves : (index : ℕ) → source.saves index ≡ true

  module _ (source : Source) (serving : IsServing source)
      (small : length content ≤ maximum_manifest_bytes) where
    -- Its region holds the chunk already.
    kept-IsAssembled :
        (index : ℕ) (p : Partial)
        → index < chunk_count (length content)
        → IsAssembled index p
        → take
            (chunk_length (length content) (index * chunk_size))
            (drop (index * chunk_size) p.file)
          ≡ chunk_of content index
        → IsAssembled (suc index) p
    kept-IsAssembled index p k a same =
        let r = reach-suc (length content) index small k in
        record {
          sized = a.sized;
          begun = rw (← (r.1)) (
              take-add (index * chunk_size) _ p.file
              ∙ ap (λ ys. take (index * chunk_size) p.file ++ ys) same
              ∙ ap (λ xs. xs ++ chunk_of content index)
                  (subst (λ n. take n p.file ≡ take n content) r.0 a.begun)
              ∙ content-next content index);
          trusted = record { at = λ j h. a.trusted.at j (omega arith) };
        }

    written-IsAssembled :
        (index : ℕ) (p : Partial)
        → index < chunk_count (length content)
        → IsAssembled index p
        → IsAssembled (suc index) (record {
          file = write_at p.file (index * chunk_size) (chunk_of content index);
          chunks =
              insert
                (decimal index)
                (sha256 (chunk_of content index))
                (remove (decimal index) p.chunks);
        })
    written-IsAssembled index p k a =
        let r = reach-suc (length content) index small k in
        let l = length-chunk_of content index small k in
        record {
          sized =
              length-write_at p.file (index * chunk_size) (chunk_of content index)
                (omega (arith, r.1, r.2, l, a.sized))
              ∙ a.sized;
          begun =
              rw (← (r.1), ← l)
                (take-write_at p.file (index * chunk_size) (chunk_of content index)
                    (omega (arith, r.1, r.2, a.sized))
                  ∙ ap (λ xs. xs ++ chunk_of content index)
                      (subst (λ n. take n p.file ≡ take n content) r.0 a.begun)
                  ∙ content-next content index
                  ∙ ap (λ n. take (index * chunk_size + n) content) (sym l));
          trusted =
              IsTrusted-write index p (chunk_of content index)
                (omega (arith, l, chunk_length-bounded (length content) index small k))
                (omega (arith, r.1, r.2, l, a.sized)) a.trusted;
        }

    -- One round from a state in which the chunks before it are in place.
    download_chunk-IsAssembled :
        (index : ℕ) (p : Partial)
        → index < chunk_count (length content)
        → IsAssembled index p
        → (q : Partial) × (download_chunk source sha256 (length content) index p ≡ some q)
          × IsAssembled (suc index) q
    unfolding download_chunk fetched store_chunk
    download_chunk-IsAssembled index p k a =
        let o = offset-exact (length content) index small k in
        rw (o.0) (elim (Bool-cases (kept index p)) [
          | inl m ↦
              (p, rw m refl, kept-IsAssembled index p k a (a.trusted.at index (omega arith) k m))
          | inr m ↦ (
            _,
            rw
                (
                  m,
                  serving.gives index k,
                  length-chunk_of content index small k,
                  serving.saves index,
                )
                (ground arith),
            written-IsAssembled index p k a,
          )
        ])
      where
        kept : ℕ → Partial → Bool
        kept index p = matches (lookup (decimal index) p.chunks) (
            sha256 (
              take (chunk_length (length content) (index * chunk_size))
                (drop (index * chunk_size) p.file)))

    download_chunks-IsAssembled :
        (left index : ℕ) (p : Partial)
        → index + left ≡ chunk_count (length content)
        → IsAssembled index p
        → (q : Partial) × (download_chunks source sha256 (length content) left index p ≡ some q)
          × IsAssembled (chunk_count (length content)) q
    unfolding download_chunks go_on
    download_chunks-IsAssembled zero index p e a =
        (p, refl, subst (λ n. IsAssembled n p) (omega arith) a)
    download_chunks-IsAssembled (suc left) index p e a =
        let s = download_chunk-IsAssembled index p (omega arith) a in
        let r = download_chunks-IsAssembled left (suc index) s.0 (omega arith) s.2 in
        (
          r.0,
          ap (λ o. go_on o (λ q. download_chunks source sha256 (length content) left (suc index) q))
                s.1
              ∙ r.1,
          r.2,
        )

    assembled-content :
        (q : Partial) → IsAssembled (chunk_count (length content)) q → q.file ≡ content
    assembled-content q a =
        sym (take-all (length content) q.file (omega (arith, a.sized)))
        ∙ subst (λ n. take n q.file ≡ take n content) (reach-count (length content) small) a.begun
        ∙ take-all (length content) content (omega arith)

    started-IsAssembled :
        (file : List ℕ) (chunks : List (String × String))
        → IsTrusted 0 (record { file = truncate (length content) file; chunks = chunks })
        → IsAssembled 0 (record { file = truncate (length content) file; chunks = chunks })
    started-IsAssembled file chunks t = record {
      sized = length-truncate (length content) file;
      begun = ground arith;
      trusted = t;
    }

    verified-content :
        (e : FileManifestEntry) (q : Partial)
        → e.sha256 ≡ sha256 content
        → e.size_bytes ≡ length content
        → q.file ≡ content
        → verified_file source sha256 (length content) e (some q) ≡ some content
    unfolding verified_file
    verified-content e q digest sized same =
        rw (digest, sized, same) (ground (arith, eq_refl (sha256 content)))

    -- When the source gives out the chunks of a content of 500 GiB at most, with the size and the digest
    -- that the manifest states, and the checkpoint file can be written, the download of the file ends
    -- with exactly that content, if each region of the file that an earlier attempt left, cut or filled
    -- up to its size, that matches the digest in the checkpoint has the bytes of that chunk.
    pub download_file-content :
        (e : FileManifestEntry) (p : Partial)
        → e.sha256 ≡ sha256 content
        → e.size_bytes ≡ length content
        → IsTrusted 0 (record { file = truncate (length content) p.file; chunks = p.chunks })
        → download_file source sha256 (length content) e p ≡ some content
    unfolding download_file
    download_file-content e p digest sized t =
        let d =
          download_chunks-IsAssembled (chunk_count (length content)) 0 _ (omega arith)
            (started-IsAssembled p.file p.chunks t) in
        ap (verified_file source sha256 (length content) e) d.1
        ∙ verified-content e d.0 digest sized (assembled-content d.0 d.2)

-- The bytes of an answer that has some.
unfoldable pub body_of : ChunkReply → Option (List ℕ)
body_of (rejected status) = none
body_of (served bytes) = some bytes
body_of panicked = none

-- A target whose chunks are what the source's handler answers.
unfoldable pub source_of : List FileManifestEntry → (String → Option (List ℕ)) → String → Source
unfolding body_of
source_of entries open_regular relative = record {
  fetch = λ index. body_of (handle_chunk (some entries) open_regular relative index);
  saves = λ index. true;
}

module _ (entries : List FileManifestEntry) (open_regular : String → Option (List ℕ))
    (e : FileManifestEntry) (content : List ℕ) (sha256 : List ℕ → String) where
  source-IsServing :
      IsOffered entries open_regular e content
      → IsServing content sha256 (source_of entries open_regular e.relative)
  unfolding source_of
  source-IsServing o = record {
    gives = λ index h. ap body_of (
        handle_chunk-chunk_of entries open_regular e content index o
          (subst (λ n. index < chunk_count n) o.sized h));
    saves = λ index. refl;
  }

  -- A file that the source agent lists and still has travels whole: the target's loop over the chunks,
  -- answered by the source's handler, ends with the content of the source's file. An earlier attempt may
  -- have left a file and a checkpoint, if each region of that file, cut or filled up to the size, that
  -- matches the digest in the checkpoint has the bytes of the content's chunk.
  pub download_file-handle_chunk :
      (p : Partial)
      → IsOffered entries open_regular e content
      → e.sha256 ≡ sha256 content
      → IsTrusted content sha256 0
          (record { file = truncate (length content) p.file; chunks = p.chunks })
      → download_file (source_of entries open_regular e.relative) sha256 e.size_bytes e p
        ≡ some content
  download_file-handle_chunk p o digest t =
      subst
        (λ n. download_file (source_of entries open_regular e.relative) sha256 n e p ≡ some content)
        o.sized
        (download_file-content content sha256 (source_of entries open_regular e.relative)
          (source-IsServing o) (omega (arith, o.sized, o.bounded)) e p digest (sym o.sized) t)

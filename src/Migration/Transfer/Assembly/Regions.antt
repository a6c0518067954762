-- ===== src/Migration/Transfer/Assembly/Regions.antt =====
-- The regions of a file that the target has assembled.
use askio_agent.Base.{
  ℕ, zero, suc, ◌+◌, ◌*◌, ◌-◌, ◌≤◌, ◌<◌, List, [], ◌∷◌, ◌++◌, ◌≡◌, refl, sym, ap, ◌∙◌,
  if◌then◌else◌, ltb, arith,
}
use askio_agent.Migration.Files.Manifest.{maximum_manifest_bytes}
use askio_agent.Migration.Transfer.{chunk_size, chunk_count, chunk_length, write_at, truncate}
use askio_agent.Migration.Transfer.Bytes.{
  length, take, drop, length-append, length-take, length-drop, take-add, take-append,
}
use askio_agent.Migration.Transfer.Chunks.{
  chunk_of, offset-exact, chunk_length-exact, chunk_count-exact,
}

append_assoc : {A : Type 0} (xs ys zs : List A) → (xs ++ ys) ++ zs ≡ xs ++ (ys ++ zs)
append_assoc [] ys zs = refl
append_assoc (x ∷ xs) ys zs = ap (λ l. x ∷ l) (append_assoc xs ys zs)

pub length-write_at :
    (file : List ℕ) (offset : ℕ) (bytes : List ℕ)
    → offset + length bytes ≤ length file
    → length (write_at file offset bytes) ≡ length file
unfolding write_at
length-write_at file offset bytes h = omega (
  arith,
  length-append (take offset file) (bytes ++ drop (offset + length bytes) file),
  length-append bytes (drop (offset + length bytes) file),
  length-take offset file (omega arith),
  length-drop (offset + length bytes) file,
)

pub take-write_at :
    (file : List ℕ) (offset : ℕ) (bytes : List ℕ)
    → offset ≤ length file
    → take (offset + length bytes) (write_at file offset bytes) ≡ take offset file ++ bytes
unfolding write_at
take-write_at file offset bytes h =
    let e : offset + length bytes ≡ length (take offset file ++ bytes) =
      omega (arith, length-append (take offset file) bytes, length-take offset file h) in
    ap (λ n. take n (write_at file offset bytes)) e
    ∙ ap (take (length (take offset file ++ bytes)))
        (sym (append_assoc (take offset file) bytes (drop (offset + length bytes) file)))
    ∙ take-append (take offset file ++ bytes) (drop (offset + length bytes) file)

drop-append_at :
    (n : ℕ) (xs ys : List ℕ) → length xs ≤ n → drop n (xs ++ ys) ≡ drop (n - length xs) ys
drop-append_at n [] ys h = let e : n - 0 ≡ n = omega arith in rw e refl
drop-append_at zero (x ∷ xs) ys h = absurd (omega arith)
drop-append_at (suc n) (x ∷ xs) ys h =
    let e : suc n - suc (length xs) ≡ n - length xs = omega arith in
    rw e (drop-append_at n xs ys (omega arith))

drop-drop : (n k : ℕ) (xs : List ℕ) → drop n (drop k xs) ≡ drop (k + n) xs
drop-drop n zero xs = let e : zero + n ≡ n = omega arith in rw e refl
drop-drop n (suc k) [] = let e : suc k + n ≡ suc (k + n) = omega arith in rw e (drop-nil n)
  where
    drop-nil : (n : ℕ) → drop {A = ℕ} n [] ≡ []
    drop-nil zero = refl
    drop-nil (suc n) = refl
drop-drop n (suc k) (x ∷ xs) =
    let e : suc k + n ≡ suc (k + n) = omega arith in rw e (drop-drop n k xs)

-- What is written does not reach what comes after it.
pub drop-write_at :
    (file : List ℕ) (offset later : ℕ) (bytes : List ℕ)
    → offset + length bytes ≤ length file
    → offset + length bytes ≤ later
    → drop later (write_at file offset bytes) ≡ drop later file
unfolding write_at
drop-write_at file offset later bytes fits h =
    let l = length-take offset file (omega arith) in
    drop-append_at later (take offset file) (bytes ++ drop (offset + length bytes) file)
      (omega (arith, l))
    ∙ ap (λ k. drop (later - k) (bytes ++ drop (offset + length bytes) file)) l
    ∙ drop-append_at (later - offset) bytes (drop (offset + length bytes) file) (omega arith)
    ∙ drop-drop (later - offset - length bytes) (offset + length bytes) file
    ∙ ap (λ k. drop k file) (omega arith)

pub chunk_length-bounded :
    (size index : ℕ)
    → size ≤ maximum_manifest_bytes
    → index < chunk_count size
    → chunk_length size (index * chunk_size) ≤ chunk_size
chunk_length-bounded size index h k =
    let o = offset-exact size index h k in
    ground (arith, chunk_length-exact size (index * chunk_size) h o.1)

pub length-truncate : (n : ℕ) (file : List ℕ) → length (truncate n file) ≡ n
unfolding truncate
length-truncate zero file = refl
length-truncate (suc n) [] = omega (arith, length-truncate n [])
length-truncate (suc n) (b ∷ file) = omega (arith, length-truncate n file)

-- How far the first chunks reach.
abbrev pub reach : ℕ → ℕ → ℕ
reach size index = if ltb (index * chunk_size) size then index * chunk_size else size

pub reach-suc :
    (size index : ℕ)
    → size ≤ maximum_manifest_bytes
    → index < chunk_count size
    → (reach size index ≡ index * chunk_size)
      × (index * chunk_size + chunk_length size (index * chunk_size) ≡ reach size (suc index))
      × (reach size (suc index) ≤ size)
reach-suc size index h k =
    let o = offset-exact size index h k in
    let l = chunk_length-exact size (index * chunk_size) h o.1 in
    (ground (arith, o.1), ground (arith, o.1, l), ground arith)

pub reach-count : (size : ℕ) → size ≤ maximum_manifest_bytes → reach size (chunk_count size) ≡ size
reach-count size h = rw (chunk_count-exact size h) (ground arith)

pub length-chunk_of :
    (content : List ℕ) (index : ℕ)
    → length content ≤ maximum_manifest_bytes
    → index < chunk_count (length content)
    → length (chunk_of content index) ≡ chunk_length (length content) (index * chunk_size)
unfolding chunk_of
length-chunk_of content index h k =
    let o = offset-exact (length content) index h k in
    length-take _ (drop (index * chunk_size) content) (
      ground (
        arith,
        o.1,
        chunk_length-exact (length content) (index * chunk_size) h o.1,
        length-drop (index * chunk_size) content,
      ))

pub content-next :
    (content : List ℕ) (index : ℕ)
    → take (index * chunk_size) content ++ chunk_of content index
      ≡ take (index * chunk_size + chunk_length (length content) (index * chunk_size)) content
unfolding chunk_of
content-next content index = sym (take-add (index * chunk_size) _ content)

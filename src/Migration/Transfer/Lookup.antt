-- ===== src/Migration/Transfer/Lookup.antt =====
-- internal/migration/dataplane.go, `findManifestEntry`: the binary search of `sort.Search` over the
-- manifest's entries.
use askio_agent.Base.{
  ℕ, zero, suc, ◌+◌, ◌/◌, ◌≤◌, ◌<◌, String, Bool, true, false, not, List, [], ◌∷◌, Option, none,
  some, ◌≡◌, refl, subst, if◌then◌else◌, ◌==◌, eq_iff, ltb, arith, codes, Bool-cases, inl, inr,
}
use askio_agent.Migration.Files.Manifest.{FileManifestEntry, less_codes, less_text}
use askio_agent.Migration.Transfer.Bytes.{length}

unfoldable pub entry_at : List FileManifestEntry → ℕ → Option FileManifestEntry
entry_at [] index = none
entry_at (e ∷ rest) zero = some e
entry_at (e ∷ rest) (suc index) = entry_at rest index

-- `entries[index].Relative >= relative`; the search asks for indices within the list only.
unfoldable pub not_before : String → Option FileManifestEntry → Bool
unfolding less_text
not_before relative none = true
not_before relative (some e) = not (less_text e.relative relative)

-- The loop of `sort.Search`: `i, j := 0, n; for i < j { h := (i + j) / 2 ... }`, on fuel.
unfoldable pub search_from : ℕ → (ℕ → Bool) → ℕ → ℕ → ℕ
search_from zero test low high = low
search_from (suc fuel) test low high =
    let middle = (low + high) / 2 in
    let left = search_from fuel test low middle in
    let right = search_from fuel test (middle + 1) high in
    if ltb low high then (if test middle then left else right) else low

matching : String → Option FileManifestEntry → Option FileManifestEntry
matching relative none = none
matching relative (some e) = if e.relative == relative then some e else none

-- The range halves each round, so its length is fuel enough.
unfoldable pub find_manifest_entry : List FileManifestEntry → String → Option FileManifestEntry
unfolding entry_at not_before search_from matching
find_manifest_entry entries relative = matching relative (
    entry_at entries (
      search_from (length entries) (λ i. not_before relative (entry_at entries i)) 0
        (length entries)))

-- The entry with the path, by a walk over the list.
unfoldable pub first_entry : String → List FileManifestEntry → Option FileManifestEntry
first_entry relative [] = none
first_entry relative (e ∷ rest) =
    if e.relative == relative then some e else first_entry relative rest

less_codes_trans :
    (xs ys zs : List ℕ)
    → less_codes xs ys ≡ true
    → less_codes ys zs ≡ true
    → less_codes xs zs ≡ true
unfolding less_codes
less_codes_trans [] [] zs p q = absurd cc
less_codes_trans [] (y ∷ ys) [] p q = absurd cc
less_codes_trans [] (y ∷ ys) (z ∷ zs) p q = refl
less_codes_trans (x ∷ xs) [] zs p q = absurd cc
less_codes_trans (x ∷ xs) (y ∷ ys) [] p q = absurd cc
less_codes_trans (x ∷ xs) (y ∷ ys) (z ∷ zs) p q = ground (arith, less_codes_trans xs ys zs)

less_codes_irrefl : (xs : List ℕ) → less_codes xs xs ≡ false
unfolding less_codes
less_codes_irrefl [] = refl
less_codes_irrefl (x ∷ xs) = ground (arith, less_codes_irrefl xs)

module _ (test : ℕ → Bool) (mono : (a b : ℕ) → a ≤ b → test a ≡ true → test b ≡ true) where
  -- Where the loop ends: between its bounds, after all indices that fail the test, and before all
  -- others.
  search_from-splits :
      (fuel low high i : ℕ)
      → high ≤ low + fuel
      → low ≤ high
      → (search_from fuel test low high ≤ high)
        × (low ≤ i → i < search_from fuel test low high → test i ≡ false)
        × (search_from fuel test low high ≤ i → i < high → test i ≡ true)
  unfolding search_from
  search_from-splits zero low high i f o =
      (omega arith, λ p q. absurd (omega arith), λ p q. absurd (omega arith))
  search_from-splits (suc fuel) low high i f o = ground (
    arith,
    search_from-splits fuel low ((low + high) / 2) i,
    search_from-splits fuel ((low + high) / 2 + 1) high i,
    mono i ((low + high) / 2),
    mono ((low + high) / 2) i,
  )

-- Strictly ascending paths, the first after `previous`.
abbrev pub IsAscending : String → List FileManifestEntry → Type 0
IsAscending previous [] = Unit {0}
IsAscending previous (e ∷ rest) =
    (less_text previous e.relative ≡ true) × IsAscending e.relative rest

module _ (relative : String) where
  less_trans :
      (s t : String)
      → less_text s t ≡ true
      → less_text s relative ≡ false
      → less_text t relative ≡ false
  unfolding less_text
  less_trans s t p q = ground (arith, less_codes_trans (codes s) (codes t) (codes relative))

  -- Beyond a path that is not before the wanted one none is.
  later-not_before :
      (previous : String) (rest : List FileManifestEntry) (i : ℕ)
      → IsAscending previous rest
      → less_text previous relative ≡ false
      → not_before relative (entry_at rest i) ≡ true
  unfolding entry_at not_before
  later-not_before previous [] i h q = refl
  later-not_before previous (e ∷ rest) zero h q = rw (less_trans previous e.relative h.0 q) refl
  later-not_before previous (e ∷ rest) (suc i) h q =
      later-not_before e.relative rest i h.1 (less_trans previous e.relative h.0 q)

  not_before_mono :
      (previous : String) (entries : List FileManifestEntry) (a b : ℕ)
      → IsAscending previous entries
      → a ≤ b
      → not_before relative (entry_at entries a) ≡ true
      → not_before relative (entry_at entries b) ≡ true
  unfolding entry_at not_before
  not_before_mono previous [] a b h le p = refl
  not_before_mono previous (e ∷ rest) zero zero h le p = p
  not_before_mono previous (e ∷ rest) zero (suc b) h le p =
      later-not_before e.relative rest b h.1 (ground (arith, p))
  not_before_mono previous (e ∷ rest) (suc a) zero h le p = absurd (omega arith)
  not_before_mono previous (e ∷ rest) (suc a) (suc b) h le p =
      not_before_mono e.relative rest a b h.1 (omega arith) p

  later-first_entry :
      (previous : String) (rest : List FileManifestEntry)
      → IsAscending previous rest
      → less_text previous relative ≡ false
      → first_entry relative rest ≡ none
  unfolding first_entry
  later-first_entry previous [] h q = refl
  later-first_entry previous (e ∷ rest) h q = elim (Bool-cases (e.relative == relative)) [
    | inl p ↦
        let same : e.relative ≡ relative = ground (arith, p, eq_iff e.relative relative) in
        absurd (
          apart (less_text previous relative) (subst (λ s. less_text previous s ≡ true) same h.0) q)
    | inr p ↦ rw p (later-first_entry e.relative rest h.1 (less_trans previous e.relative h.0 q))
  ]
    where
      apart : (b : Bool) → b ≡ true → b ≡ false → ⊥
      apart b p n = absurd cc

  less-apart : (s : String) → less_text s relative ≡ true → (s == relative) ≡ false
  unfolding less_text
  less-apart s p = elim (Bool-cases (s == relative)) [
    | inl e ↦
        let same : s ≡ relative = ground (arith, e, eq_iff s relative) in
        absurd (
          apart (less_codes (codes relative) (codes relative))
            (subst (λ t. less_codes (codes t) (codes relative) ≡ true) same p)
            (less_codes_irrefl (codes relative)))
    | inr e ↦ e
  ]
    where
      apart : (b : Bool) → b ≡ true → b ≡ false → ⊥
      apart b p n = absurd cc

  split-first_entry :
      (previous : String) (entries : List FileManifestEntry) (r : ℕ)
      → IsAscending previous entries
      → ((i : ℕ) → i < r → not_before relative (entry_at entries i) ≡ false)
      → ((i : ℕ) → r ≤ i → i < length entries → not_before relative (entry_at entries i) ≡ true)
      → matching relative (entry_at entries r) ≡ first_entry relative entries
  unfolding matching entry_at first_entry not_before
  split-first_entry previous [] r h below from = refl
  split-first_entry previous (e ∷ rest) zero h below from =
      let q : less_text e.relative relative ≡ false =
        ground (arith, from 0 (omega arith) (omega arith)) in
      rw (later-first_entry e.relative rest h.1 q) refl
  split-first_entry previous (e ∷ rest) (suc r) h below from =
      let p : less_text e.relative relative ≡ true = ground (arith, below 0 (omega arith)) in
      rw (less-apart e.relative p) (
        split-first_entry e.relative rest r h.1 (λ i k. below (suc i) (omega arith))
          (λ i k l. from (suc i) (omega arith) (omega arith)))

-- On entries in strictly ascending order of their paths the binary search finds exactly what a walk
-- over the entries finds: the entry with the path, or none.
pub find_manifest_entry-first_entry :
    (previous relative : String) (entries : List FileManifestEntry)
    → IsAscending previous entries
    → find_manifest_entry entries relative ≡ first_entry relative entries
unfolding find_manifest_entry
find_manifest_entry-first_entry previous relative entries h =
    split-first_entry relative previous entries _ h (λ i k. (splits i).1 (omega arith) k)
      (λ i k l. (splits i).2 k l)
  where
    splits :
        (i : ℕ)
        → (search_from
              (length entries)
              (λ i. not_before relative (entry_at entries i))
              0
              (length entries)
            ≤ length entries)
          × (0 ≤ i
              → i
                < search_from
                    (length entries)
                    (λ i. not_before relative (entry_at entries i))
                    0
                    (length entries)
              → not_before relative (entry_at entries i) ≡ false)
          × (search_from
                  (length entries)
                  (λ i. not_before relative (entry_at entries i))
                  0
                  (length entries)
                ≤ i
              → i < length entries
              → not_before relative (entry_at entries i) ≡ true)
    splits i =
        search_from-splits (λ i. not_before relative (entry_at entries i))
          (λ a b. not_before_mono relative previous entries a b h) (length entries) 0
          (length entries) i (omega arith) (omega arith)

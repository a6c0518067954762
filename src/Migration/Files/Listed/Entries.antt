-- ===== src/Migration/Files/Listed/Entries.antt =====
-- internal/migration/files.go, `validateTransferredManifest`: each round of its loop.
use askio_agent.Base.{
  ℕ, String, true, false, List, [], ◌∷◌, Option, none, some, ◌≡◌, refl, sym, ap, subst, ◌∙◌, ◌⊎◌,
  inl, inr, ◌==◌, eq_iff, arith,
}
use askio_agent.Base.Action.{Outcome, done, fail, modify}
use askio_agent.Base.Action.Returns.{
  Returns, Returns-bind, Returns-pure, Returns-raise, Returns-split, Returns-check,
  Returns-check-then, Returns-gets, Returns-from, returned,
}
use askio_agent.Migration.Canonical.{Codec}
use askio_agent.Migration.Int64.{add64, less64}
use askio_agent.Migration.Scope.{clean_relative}
use askio_agent.Migration.Files.Manifest.{
  FileManifestEntry, FileManifest, FileManifestSummary, maximum_manifest_bytes, Walk, less_text,
  same_path, summarize, check_directory, check_file, check_kind, check_entry, check_entries, start,
  validate_transferred_manifest,
}

-- A directory, or a file whose size is added to the total.
abbrev pub Counts : ℕ → FileManifestEntry → ℕ → ℕ → Type 0
Counts maximum e before after =
    ((e.kind ≡ "directory") × (after ≡ before))
    ⊎ ((e.kind ≡ "file")
        × (after ≡ add64 before e.size_bytes)
        × (less64 maximum after ≡ false)
        × (less64 maximum_manifest_bytes after ≡ false))

-- An entry after the path `previous`, with the total of bytes before it and after it.
pub record IsEntry (maximum : ℕ) (previous : String) (e : FileManifestEntry) (before after : ℕ)
    : Type 0 where
  pub ascends : less_text previous e.relative ≡ true
  pub safe : clean_relative e.relative ≡ some e.relative
  pub below_root : (e.relative == ".") ≡ false
  pub counts : Counts maximum e before after

-- All entries, one after the other.
abbrev pub Listed : ℕ → String → ℕ → List FileManifestEntry → ℕ → Type 0
Listed maximum previous before [] after = after ≡ before
Listed maximum previous before (e ∷ rest) after =
    (between : ℕ) × IsEntry maximum previous e before between
    × Listed maximum e.relative between rest after

-- The loop's variables between two rounds.
abbrev At : String → ℕ → Walk → Type 0
At previous total w = (w.previous ≡ previous) × (w.total_bytes ≡ total)

module _ (maximum : ℕ) (previous : String) (total : ℕ) (e : FileManifestEntry) where
  -- What a round knows of its entry after the check of its kind.
  abbrev Kinded : Unit {0} → Walk → Type 0
  Kinded u w = Counts maximum e total w.total_bytes

  Returns-check_directory :
      e.kind ≡ "directory" → Returns (At previous total) Kinded (check_directory e)
  unfolding check_directory modify
  Returns-check_directory kind =
      Returns-check-then _ _ _ (λ plain. record { at = λ w h. inl (kind, h.1) })

  Returns-check_file : e.kind ≡ "file" → Returns (At previous total) Kinded (check_file maximum e)
  unfolding check_file modify
  Returns-check_file kind = Returns-check-then _ _ _ (λ named.
      Returns-bind {Q = λ _ w. w.total_bytes ≡ add64 total e.size_bytes} _ _
        (record { at = λ w h. ap (λ t. add64 t e.size_bytes) h.1 })
        (λ u.
          Returns-bind {Q = λ t w. (w.total_bytes ≡ add64 total e.size_bytes) × (t ≡ w.total_bytes)}
            _ _ (Returns-gets _ (λ w h. (h, refl)))
            (λ t. Returns-check _ _ (λ w low h. inr (
              kind,
              h.0,
              subst (λ n. less64 maximum n ≡ false) h.1 (ground (arith, low)),
              subst (λ n. less64 maximum_manifest_bytes n ≡ false) h.1 (ground (arith, low)),
            )))))

  Returns-check_kind : Returns (At previous total) Kinded (check_kind maximum e)
  unfolding check_kind
  Returns-check_kind =
      Returns-split (e.kind == "directory") _ _
        (λ d. Returns-check_directory (ground (arith, d, eq_iff e.kind "directory")))
        (λ n.
          Returns-split (e.kind == "file") _ _
            (λ f. Returns-check_file (ground (arith, f, eq_iff e.kind "file")))
            (λ x. Returns-raise _))

  same_path-eq :
      (o : Option String) (r : String) → same_path o r ≡ true → (o ≡ some r) × ((r == ".") ≡ false)
  unfolding same_path
  same_path-eq none r h = absurd cc
  same_path-eq (some clean) r h =
      let e : clean ≡ r = ground (arith, h, eq_iff clean r) in
      (ap some e, subst (λ c. (c == ".") ≡ false) e (ground (arith, h)))

  Returns-check_entry :
      Returns
        (At previous total)
        (λ _ w. (w.previous ≡ e.relative) × IsEntry maximum previous e total w.total_bytes)
        (check_entry maximum e)
  unfolding check_entry modify
  Returns-check_entry =
      Returns-bind {Q = λ p w. At previous total w × (p ≡ previous)} _ _
        (Returns-gets _ (λ w h. (h, h.0)))
        (λ p.
          Returns-bind {Q = λ _ w. At previous total w × (less_text previous e.relative ≡ true)} _ _
            (Returns-check _ _ (λ w ordered h.
              (h.0, subst (λ q. less_text q e.relative ≡ true) h.1 (ground (arith, ordered)))))
            (λ u. Returns-check-then _ _ _ (λ safe.
              Returns-bind {Q = λ _ w. At previous total w × (less_text previous e.relative ≡ true)}
                _ _ (Returns-gets _ (λ w h. h))
                (λ types. Returns-check-then _ _ _ (λ apart.
                  Returns-bind
                    {Q = λ _ w.
                      Counts maximum e total w.total_bytes × (less_text previous e.relative ≡ true)}
                    _ _ (kinded types)
                    (λ v. record {
                      at = λ w h. (
                        refl,
                        record {
                          ascends = h.1;
                          safe = (same_path-eq (clean_relative e.relative) _ safe).0;
                          below_root = (same_path-eq (clean_relative e.relative) _ safe).1;
                          counts = h.0;
                        },
                      );
                    }))))))
    where
      kinded :
          (types : List (String × String))
          → Returns
              (λ w. At previous total w × (less_text previous e.relative ≡ true))
              (λ _ w. Counts maximum e total w.total_bytes × (less_text previous e.relative ≡ true))
              (check_kind maximum e)
      kinded types = Returns-from _ (λ w u t h ran.
          (returned {P = At previous total} {Q = Kinded} _ w u t Returns-check_kind h.0 ran, h.1))

Returns-check_entries :
    (maximum : ℕ) (entries : List FileManifestEntry) (previous : String) (total : ℕ)
    → Returns
        (At previous total)
        (λ _ w. Listed maximum previous total entries w.total_bytes)
        (check_entries maximum entries)
unfolding check_entries
Returns-check_entries maximum [] previous total = Returns-pure _ (λ w h. h.1)
Returns-check_entries maximum (e ∷ rest) previous total =
    Returns-bind
      {Q = λ _ w. (w.previous ≡ e.relative) × IsEntry maximum previous e total w.total_bytes} _ _
      (Returns-check_entry maximum previous total e)
      (λ u. record {
        at = λ w h.
            (Returns-from {A = Unit {0}} {P = λ v. v ≡ w}
                {Q = λ _ t. Listed maximum previous total (e ∷ rest) t.total_bytes} _
                (λ v x t same ran. (
                  w.total_bytes,
                  h.1,
                  returned {P = At e.relative w.total_bytes}
                      {Q = λ _ v. Listed maximum e.relative w.total_bytes rest v.total_bytes} _ v x
                      t (Returns-check_entries maximum rest e.relative w.total_bytes)
                      (ap (λ z. z.previous) same ∙ h.0, ap (λ z. z.total_bytes) same) ran,
                ))).at
              w refl;
      })

summarized :
    (codec : Codec) (m : FileManifest) (expected : String) (o : Outcome Walk (Unit {0}))
    (s : FileManifestSummary)
    → summarize codec m expected o ≡ some s
    → (w : Walk) × (o ≡ done tt w) × (s.total_bytes ≡ w.total_bytes)
unfolding summarize
summarized codec m expected (fail e w) s h = absurd cc
summarized codec m expected (done u w) s h = (w, refl, ground (arith, h))

check_entries-done :
    (codec : Codec) (m : FileManifest) (expected : String) (maximum : ℕ) (s : FileManifestSummary)
    → validate_transferred_manifest codec m expected maximum ≡ some s
    → summarize codec m expected (check_entries maximum m.entries start) ≡ some s
unfolding validate_transferred_manifest
check_entries-done codec m expected maximum s h = ground (arith, h)

start-At : At "" 0 start
unfolding start
start-At = (refl, refl)

pub validated-Listed :
    (codec : Codec) (m : FileManifest) (expected : String) (maximum : ℕ) (s : FileManifestSummary)
    → validate_transferred_manifest codec m expected maximum ≡ some s
    → Listed maximum "" 0 m.entries s.total_bytes
validated-Listed codec m expected maximum s h =
    let r =
      summarized codec m expected (check_entries maximum m.entries start) s
        (check_entries-done codec m expected maximum s h) in
    subst (Listed maximum "" 0 m.entries) (sym r.2) (
      returned {P = At "" 0} {Q = λ _ w. Listed maximum "" 0 m.entries w.total_bytes} _ start tt r.0
        (Returns-check_entries maximum m.entries "" 0) start-At r.1)

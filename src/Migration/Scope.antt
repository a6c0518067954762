-- ===== src/Migration/Scope.antt =====
-- internal/migration/scope.go: relative paths that stay below their root. A path is cleaned as
-- `filepath.Clean` documents it, by its components between slashes.
use askio_agent.Base.{
  ℕ, String, Bool, true, false, not, ◌||◌, ◌&&◌, List, [], ◌∷◌, Option, none, some, ◌≡◌, refl, ◌⊎◌,
  inl, inr, Bool-cases, if◌then◌else◌, is_empty, eqb, ◌==◌, eq_iff, arith, append, codes, ap, ◌∙◌,
  ◌++◌,
}
use askio_agent.Base.Strings.{join, begins_with}
use Prim.Native.Char.{code}
use Prim.Native.String.append.{nil, cons}

-- `strings.Split(_, "/")`: the first part and the others.
unfoldable pub split_slash : String → String × List String
split_slash String.[] = ("", [])
split_slash (String.◌∷◌ c s) =
    let (part, rest) = split_slash s in
    if eqb (code c) b'/' then ("", part ∷ rest) else (String.◌∷◌ c part, rest)

unfoldable pub components : String → List String
unfolding split_slash
components s = let (part, rest) = split_slash s in part ∷ rest

-- One component, on the stack of those before it: ".." takes the last one off, unless there is none
-- or it is a ".." itself.
unfoldable pub push_component : String → List String → List String
push_component part [] = if is_empty part || part == "." then [] else part ∷ []
push_component part (top ∷ below) =
    if is_empty part || part == "."
    then top ∷ below
    else if part == ".." && not (top == "..")
    then below
    else part ∷ top ∷ below

unfoldable pub push_all : List String → List String → List String
unfolding push_component
push_all [] stack = stack
push_all (part ∷ rest) stack = push_all rest (push_component part stack)

unfoldable pub flip_onto : List String → List String → List String
flip_onto [] done = done
flip_onto (x ∷ xs) done = flip_onto xs (x ∷ done)

-- The components that `filepath.Clean` leaves of a relative path.
unfoldable pub clean_parts : String → List String
unfolding components push_all flip_onto
clean_parts s = flip_onto (push_all (components s) []) []

unfoldable pub joined : List String → String
unfolding join
joined [] = "."
joined (x ∷ xs) = join (x ∷ xs) "/"

unfoldable pub has_nul : List ℕ → Bool
has_nul [] = false
has_nul (c ∷ cs) = eqb c 0 || has_nul cs

unfoldable pub is_outside : String → Bool
unfolding begins_with
is_outside clean = clean == ".." || begins_with (codes clean) (codes "../")

unfoldable pub clean_relative : String → Option String
unfolding clean_parts joined has_nul is_outside begins_with
clean_relative value =
    if is_empty value || value == "."
    then some "."
    else if begins_with (codes value) (codes "/") || has_nul (codes value)
    then none
    else if is_outside (joined (clean_parts value))
    then none
    else some (joined (clean_parts value))

unfoldable pub contains_slash : String → Bool
contains_slash String.[] = false
contains_slash (String.◌∷◌ c s) = eqb (code c) b'/' || contains_slash s

-- The component is not empty, "." or "..", and it is a single one.
unfoldable pub is_safe : String → Bool
unfolding contains_slash
is_safe part = not (is_empty part || part == "." || part == ".." || contains_slash part)

abbrev pub AllSafe : List String → Type 0
AllSafe [] = Unit {0}
AllSafe (x ∷ xs) = (is_safe x ≡ true) × AllSafe xs

abbrev AllSingle : List String → Type 0
AllSingle [] = Unit {0}
AllSingle (x ∷ xs) = (contains_slash x ≡ false) × AllSingle xs

split_slash-AllSingle : (s : String) → AllSingle ((split_slash s).0 ∷ (split_slash s).1)
unfolding split_slash contains_slash
split_slash-AllSingle String.[] = (refl, tt)
split_slash-AllSingle (String.◌∷◌ c s) = elim (Bool-cases (eqb (code c) b'/')) [
  | inl p ↦ rw p (refl, split_slash-AllSingle s)
  | inr p ↦ rw p (rw p (split_slash-AllSingle s).0, (split_slash-AllSingle s).1)
]

components-AllSingle : (s : String) → AllSingle (components s)
unfolding components
components-AllSingle s = split_slash-AllSingle s

abbrev AllUp : List String → Type 0
AllUp [] = Unit {0}
AllUp (x ∷ xs) = (x ≡ "..") × AllUp xs

-- A stack in which ".." stands at the bottom only.
abbrev IsTidy : List String → Type 0
IsTidy [] = Unit {0}
IsTidy (x ∷ xs) = ((is_safe x ≡ true) × IsTidy xs) ⊎ ((x ≡ "..") × AllUp xs)

up-IsTidy : (xs : List String) → AllUp xs → IsTidy xs
up-IsTidy [] h = tt
up-IsTidy (x ∷ xs) h = inr h

safe_or_up :
    (part : String)
    → contains_slash part ≡ false
    → (is_empty part || part == ".") ≡ false
    → (is_safe part ≡ true) ⊎ (part ≡ "..")
unfolding is_safe
safe_or_up part single p = elim (Bool-cases (part == "..")) [
  | inl q ↦ inr (ground (arith, q, eq_iff part ".."))
  | inr q ↦ inl (ground (arith, single, p, q))
]

up-unsafe : (part : String) → part ≡ ".." → is_safe part ≡ false
unfolding is_safe
up-unsafe part e = rw e refl

below-IsTidy : (top : String) (below : List String) → IsTidy (top ∷ below) → IsTidy below
below-IsTidy top below (inl h) = h.1
below-IsTidy top below (inr h) = up-IsTidy below h.1

pushed-IsTidy :
    (part top : String) (below : List String)
    → (is_safe part ≡ true) ⊎ (part ≡ "..")
    → (part == ".." && not (top == "..")) ≡ false
    → IsTidy (top ∷ below)
    → IsTidy (part ∷ top ∷ below)
pushed-IsTidy part top below (inl safe) q h = inl (safe, h)
pushed-IsTidy part top below (inr up) q (inr h) = inr (up, h)
pushed-IsTidy part top below (inr up) q (inl h) =
    absurd (apart (is_safe top) h.0 (up-unsafe top top_up))
  where
    top_up : top ≡ ".."
    top_up = ground (arith, q, eq_iff part "..", eq_iff top "..", up)

    apart : (b : Bool) → b ≡ true → b ≡ false → ⊥
    apart b p n = absurd cc

push-IsTidy :
    (part : String) (stack : List String)
    → contains_slash part ≡ false
    → IsTidy stack
    → IsTidy (push_component part stack)
unfolding push_component
push-IsTidy part [] single h = elim (Bool-cases (is_empty part || part == ".")) [
  | inl p ↦ rw p tt
  | inr p ↦
      rw p (elim (safe_or_up part single p) [ inl safe ↦ inl (safe, tt) | inr up ↦ inr (up, tt) ])
]
push-IsTidy part (top ∷ below) single h = elim (Bool-cases (is_empty part || part == ".")) [
  | inl p ↦ rw p h
  | inr p ↦ elim (Bool-cases (part == ".." && not (top == ".."))) [
    | inl q ↦ rw (p, q) (below-IsTidy top below h)
    | inr q ↦ rw (p, q) (pushed-IsTidy part top below (safe_or_up part single p) q h)
  ]
]

push_all-IsTidy :
    (parts stack : List String) → AllSingle parts → IsTidy stack → IsTidy (push_all parts stack)
unfolding push_all
push_all-IsTidy [] stack single h = h
push_all-IsTidy (part ∷ rest) stack single h =
    push_all-IsTidy rest _ single.1 (push-IsTidy part stack single.0 h)

-- A path that begins with "..".
abbrev BeginsUp : List String → Type 0
BeginsUp parts = (rest : List String) × (parts ≡ ".." ∷ rest)

flip-up : (xs done : List String) → AllUp xs → BeginsUp (flip_onto xs (".." ∷ done))
unfolding flip_onto
flip-up [] done h = (done, refl)
flip-up (x ∷ xs) done h = rw (h.0) (flip-up xs (".." ∷ done) h.1)

flip-safe_or_up :
    (xs done : List String)
    → IsTidy xs
    → AllSafe done
    → AllSafe (flip_onto xs done) ⊎ BeginsUp (flip_onto xs done)
unfolding flip_onto
flip-safe_or_up [] done h k = inl k
flip-safe_or_up (x ∷ xs) done (inl h) k = flip-safe_or_up xs (x ∷ done) h.1 (h.0, k)
flip-safe_or_up (x ∷ xs) done (inr h) k = inr (rw (h.0) (flip-up xs done h.1))

pub codes-append : (s t : String) → codes (append s t) ≡ codes s ++ codes t
codes-append String.[] t = ap codes (nil t)
codes-append (String.◌∷◌ c s) t = ap codes (cons c s t) ∙ ap (λ cs. code c ∷ cs) (codes-append s t)

begins_up :
    (rest : String) → begins_with (codes (append ".." (append "/" rest))) (codes "../") ≡ true
unfolding begins_with
begins_up rest =
    ap (λ cs. begins_with cs (codes "../"))
      (codes-append ".." (append "/" rest) ∙ ap (λ cs. codes ".." ++ cs) (codes-append "/" rest))

up-is_outside : (rest : List String) → is_outside (joined (".." ∷ rest)) ≡ true
unfolding is_outside joined join
up-is_outside [] = refl
up-is_outside (x ∷ xs) = ground (arith, begins_up (join (x ∷ xs) "/"))

inside-AllSafe :
    (parts : List String)
    → is_outside (joined parts) ≡ false
    → AllSafe parts ⊎ BeginsUp parts
    → AllSafe parts
inside-AllSafe parts h (inl safe) = safe
inside-AllSafe parts h (inr up) = absurd (apart (is_outside (joined parts)) outside h)
  where
    outside : is_outside (joined parts) ≡ true
    outside = rw (up.1) (up-is_outside up.0)

    apart : (b : Bool) → b ≡ true → b ≡ false → ⊥
    apart b p n = absurd cc

cleaned :
    (value clean : String)
    → clean_relative value ≡ some clean
    → (is_empty value || value == ".") ≡ false
    → (is_outside (joined (clean_parts value)) ≡ false) × (clean ≡ joined (clean_parts value))
unfolding clean_relative
cleaned value clean h p = (ground (arith, h, p), ground (arith, h, p))

cleaned_dot :
    (value clean : String)
    → clean_relative value ≡ some clean
    → (is_empty value || value == ".") ≡ true
    → clean ≡ joined []
unfolding clean_relative joined
cleaned_dot value clean h p = ground (arith, h, p)

clean_parts-safe_or_up :
    (value : String) → AllSafe (clean_parts value) ⊎ BeginsUp (clean_parts value)
unfolding clean_parts
clean_parts-safe_or_up value =
    flip-safe_or_up (push_all (components value) []) []
      (push_all-IsTidy (components value) [] (components-AllSingle value) tt) tt

-- A relative path that is accepted is "." or the components between its slashes are neither empty nor "."
-- nor "..": it leads to its root or below it.
pub clean_relative-AllSafe :
    (value clean : String)
    → clean_relative value ≡ some clean
    → (parts : List String) × (clean ≡ joined parts) × AllSafe parts
clean_relative-AllSafe value clean h = elim (Bool-cases (is_empty value || value == ".")) [
  | inl p ↦ ([], cleaned_dot value clean h p, tt)
  | inr p ↦
      let c = cleaned value clean h p in
      (
        clean_parts value,
        c.1,
        inside-AllSafe (clean_parts value) c.0 (clean_parts-safe_or_up value),
      )
]

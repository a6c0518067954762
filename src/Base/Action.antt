-- ===== src/Base/Action.antt =====
-- Methods that change their receiver and return `(value, error)`: what was changed before an error
-- stays changed.
pub mod Keeps
pub mod Ends
pub mod Returns
use Prim.Native.String.{String}
use mathlib.Core.Bool.{Bool, true, false}
use mathlib.Core.Option.{Option, none, some}

pub data Outcome (S A : Type 0) : Type 0 where
  done : A → S → Outcome S A
  fail : String → S → Outcome S A

abbrev pub Action : Type 0 → Type 0 → Type 0
Action S A = S → Outcome S A

module _ {S A : Type 0} where
  unfoldable pub pure : A → Action S A
  pure a s = done a s

  unfoldable pub raise : String → Action S A
  raise e s = fail e s

  unfoldable pub gets : (S → A) → Action S A
  gets f s = done (f s) s

  -- The error as a value: `none` is Go's `nil`.
  unfoldable pub attempt : Action S A → Action S (Option String)
  attempt m s = elim (m s) [ done a t ↦ done none t | fail e t ↦ done (some e) t ]

  unfoldable pub with_message : String → Action S A → Action S A
  with_message e m s = elim (m s) [ done a t ↦ done a t | fail _ t ↦ fail e t ]

  -- The state that a method leaves behind, whether it returns a value or an error.
  abbrev pub final : Outcome S A → S
  final (done a s) = s
  final (fail e s) = s

unfoldable pub modify : {S : Type 0} → (S → S) → Action S (Unit {0})
modify f s = done tt (f s)

-- `err != nil`.
abbrev pub is_error : Option String → Bool
is_error none = false
is_error (some _) = true

-- `if !ok { return errors.New(e) }`.
unfoldable pub check : {S : Type 0} → Bool → String → Action S (Unit {0})
check true e s = done tt s
check false e s = fail e s

-- `if err != nil { return err }`.
unfoldable pub rethrow : {S : Type 0} → Option String → Action S (Unit {0})
rethrow none s = done tt s
rethrow (some e) s = fail e s

-- A split on an optional value, such as an `error`.
unfoldable pub match_option :
    {S A B : Type 0} → Option A → Action S B → (A → Action S B) → Action S B
match_option none m f = m
match_option (some a) m f = f a

infixl 10 ◌>>=◌ ◌>>◌
-- Whoever opens it opens the other ways to build a method too.
unfoldable pub ◌>>=◌ : {S A B : Type 0} → Action S A → (A → Action S B) → Action S B
unfolding pure raise gets attempt with_message modify check rethrow match_option
◌>>=◌ m f s = elim (m s) [ done a t ↦ f a t | fail e t ↦ fail e t ]

abbrev pub ◌>>◌ : {S A B : Type 0} → Action S A → Action S B → Action S B
m >> n = m >>= λ _. n

-- What a method guarantees: one predicate on its value and final state, one on its error.
abbrev pub Ensures :
    {S A : Type 0} → (A → S → Type 0) → (String → S → Type 0) → Outcome S A → Type 0
Ensures P E (done a s) = P a s
Ensures P E (fail e s) = E e s

Ensures-continue :
    {S A B : Type 0} (P : B → S → Type 0) (E : String → S → Type 0) (Q : A → S → Type 0)
    (f : A → Action S B) (o : Outcome S A)
    → Ensures Q E o
    → ((a : A) (t : S) → Q a t → Ensures P E (f a t))
    → Ensures P E (elim o [ done a t ↦ f a t | fail e t ↦ fail e t ])
Ensures-continue P E Q f (done a t) h k = k a t h
Ensures-continue P E Q f (fail e t) h k = h

pub Ensures-bind :
    {S A B : Type 0} (P : B → S → Type 0) (E : String → S → Type 0) (Q : A → S → Type 0)
    (m : Action S A) (f : A → Action S B) (s : S)
    → Ensures Q E (m s)
    → ((a : A) (t : S) → Q a t → Ensures P E (f a t))
    → Ensures P E ((m >>= f) s)
unfolding ◌>>=◌
Ensures-bind P E Q m f s h k = Ensures-continue P E Q f (m s) h k

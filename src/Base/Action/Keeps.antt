-- ===== src/Base/Action/Keeps.antt =====
-- Invariants of methods that change their receiver, one rule for each way to build a method.
use mathlib.Core.Bool.{Bool, true, false}
use mathlib.Core.Option.{Option, none, some}
use Prim.Native.String.{String}
use askio_agent.Base.Tests.{if◌then◌else◌}
use askio_agent.Base.Action.{
  Outcome, done, fail, Action, pure, raise, gets, attempt, with_message, final, modify, check,
  rethrow, match_option, ◌>>=◌, ◌>>◌,
}

-- The method keeps `P`, whether it returns a value or an error.
pub record Keeps {S A : Type 0} (P : S → Type 0) (m : Action S A) : Type 0 where
  pub at : (s : S) → P s → P (final (m s))

module _ {S A : Type 0} where
  -- A method that leaves the state with the property, since it does so from every outcome.
  final-attempt :
      (P : S → Type 0) (o : Outcome S A)
      → P (final o)
      → P (
          final {S = S} {A = Option String}
            (elim o [ done a t ↦ done none t | fail e t ↦ done (some e) t ]))
  final-attempt P (done a t) h = h
  final-attempt P (fail e t) h = h

  final-with_message :
      (P : S → Type 0) (e : String) (o : Outcome S A)
      → P (final o)
      → P (final {S = S} {A = A} (elim o [ done a t ↦ done a t | fail _ t ↦ fail e t ]))
  final-with_message P e (done a t) h = h
  final-with_message P e (fail _ t) h = h

module _ {S A : Type 0} {P : S → Type 0} where
  pub Keeps-pure : (a : A) → Keeps P (pure a)
  unfolding pure
  Keeps-pure a = record { at = λ s h. h }

  pub Keeps-raise : (e : String) → Keeps P (raise {A = A} e)
  unfolding raise
  Keeps-raise e = record { at = λ s h. h }

  pub Keeps-gets : (f : S → A) → Keeps P (gets f)
  unfolding gets
  Keeps-gets f = record { at = λ s h. h }

  pub Keeps-attempt : (m : Action S A) → Keeps P m → Keeps P (attempt m)
  unfolding attempt
  Keeps-attempt m k = record { at = λ s h. final-attempt P (m s) (k.at s h) }

  pub Keeps-with_message : (e : String) (m : Action S A) → Keeps P m → Keeps P (with_message e m)
  unfolding with_message
  Keeps-with_message e m k = record { at = λ s h. final-with_message P e (m s) (k.at s h) }

  pub Keeps-if :
      (b : Bool) (m n : Action S A) → Keeps P m → Keeps P n → Keeps P (if b then m else n)
  Keeps-if true m n km kn = km
  Keeps-if false m n km kn = kn

module _ {S : Type 0} {P : S → Type 0} where
  pub Keeps-check : (b : Bool) (e : String) → Keeps P (check b e)
  unfolding check
  Keeps-check true e = record { at = λ s h. h }
  Keeps-check false e = record { at = λ s h. h }

  pub Keeps-rethrow : (e : Option String) → Keeps P (rethrow e)
  unfolding rethrow
  Keeps-rethrow none = record { at = λ s h. h }
  Keeps-rethrow (some e) = record { at = λ s h. h }

  pub Keeps-modify : (f : S → S) → ((s : S) → P s → P (f s)) → Keeps P (modify f)
  unfolding modify
  Keeps-modify f k = record { at = k }

module _ {S A B : Type 0} {P : S → Type 0} where
  final-continue :
      (f : A → Action S B)
      → ((a : A) → Keeps P (f a))
      → (o : Outcome S A) → P (final o)
      → P (final {S = S} {A = B} (elim o [ done a t ↦ f a t | fail e t ↦ fail e t ]))
  final-continue f k (done a t) h = (k a).at t h
  final-continue f k (fail e t) h = h

  pub Keeps-bind :
      (m : Action S A) (f : A → Action S B)
      → Keeps P m
      → ((a : A) → Keeps P (f a))
      → Keeps P (m >>= f)
  unfolding ◌>>=◌
  Keeps-bind m f km kf = record { at = λ s h. final-continue f kf (m s) (km.at s h) }

module _ {S A B : Type 0} {P : S → Type 0} where
  pub Keeps-option :
      (o : Option A) (m : Action S B) (f : A → Action S B)
      → Keeps P m
      → ((a : A) → Keeps P (f a))
      → Keeps P (match_option o m f)
  unfolding match_option
  Keeps-option none m f km kf = km
  Keeps-option (some a) m f km kf = kf a

module _ {S A B : Type 0} {P : S → Type 0} where
  pub Keeps-then : (m : Action S A) (n : Action S B) → Keeps P m → Keeps P n → Keeps P (m >> n)
  Keeps-then m n km kn = Keeps-bind m (λ _. n) km (λ _. kn)

pub ruleset keeps_rules = (
  Keeps-pure, Keeps-raise, Keeps-gets, Keeps-attempt, Keeps-with_message, Keeps-if, Keeps-check,
  Keeps-rethrow, Keeps-bind, Keeps-then, Keeps-option,
)

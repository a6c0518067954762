-- ===== src/Base/Action/Ends.antt =====
-- Methods that do not fail, and methods that end in a state with a property whatever lies between.
use askio_agent.Base.Tests.{if◌then◌else◌}
use mathlib.Core.Bool.{Bool, true, false}
use mathlib.Core.Option.{Option, none, some}
use askio_agent.Base.{◌≡◌, refl}
use Prim.Native.String.{String}
use askio_agent.Base.Action.{
  Outcome, done, fail, Action, pure, raise, attempt, final, modify, check, match_option, Ensures,
  ◌>>=◌, ◌>>◌,
}
use askio_agent.Base.Action.Keeps.{Keeps}

-- The method returns a value and keeps `P`.
pub record Runs {S A : Type 0} (P : S → Type 0) (m : Action S A) : Type 0 where
  pub at : (s : S) → P s → Ensures (λ _ t. P t) (λ _ _. ⊥) (m s)

-- From a state with `P` the method ends in one with `Q`, by a value or an error.
pub record Ends {S A : Type 0} (P Q : S → Type 0) (m : Action S A) : Type 0 where
  pub at : (s : S) → P s → Q (final (m s))

module _ {S A : Type 0} (P : S → Type 0) where
  attempt-Ensures :
      (m : Action S A) (o : Outcome S A)
      → P (final o)
      → Ensures {S = S} {A = Option String}
          (λ _ t. P t)
          (λ _ _. ⊥)
          (elim o [ done a t ↦ done none t | fail e t ↦ done (some e) t ])
  attempt-Ensures m (done a t) h = h
  attempt-Ensures m (fail e t) h = h

  final-Ensures : (o : Outcome S A) → Ensures (λ _ t. P t) (λ _ _. ⊥) o → P (final o)
  final-Ensures (done a t) h = h
  final-Ensures (fail e t) h = absurd h

module _ {S A B : Type 0} (Q : S → Type 0) where
  after-continue :
      (f : A → Action S B)
      → ((a : A) → Keeps Q (f a))
      → (o : Outcome S A) → Q (final o)
      → Q (final {S = S} {A = B} (elim o [ done a t ↦ f a t | fail e t ↦ fail e t ]))
  after-continue f k (done a t) h = (k a).at t h
  after-continue f k (fail e t) h = h

module _ {S A : Type 0} {P : S → Type 0} where
  pub Runs-pure : (a : A) → Runs P (pure a)
  unfolding pure
  Runs-pure a = record { at = λ s h. h }

  pub Runs-attempt : (m : Action S A) → Keeps P m → Runs P (attempt m)
  unfolding attempt
  Runs-attempt m k = record { at = λ s h. attempt-Ensures P m (m s) (k.at s h) }

  pub Runs-if : (b : Bool) (m n : Action S A) → Runs P m → Runs P n → Runs P (if b then m else n)
  Runs-if true m n rm rn = rm
  Runs-if false m n rm rn = rn

  pub Ends-attempt : {Q : S → Type 0} (m : Action S A) → Ends P Q m → Ends P Q (attempt m)
  unfolding attempt
  Ends-attempt {Q} m e = record { at = λ s h. final-tried (m s) (e.at s h) }
    where
      final-tried :
          (o : Outcome S A)
          → Q (final o)
          → Q (
              final {S = S} {A = Option String}
                (elim o [ done a t ↦ done none t | fail x t ↦ done (some x) t ]))
      final-tried (done a t) h = h
      final-tried (fail x t) h = h

  pub Runs-Keeps : (m : Action S A) → Runs P m → Keeps P m
  Runs-Keeps m r = record { at = λ s h. final-Ensures P (m s) (r.at s h) }

pub Runs-modify :
    {S : Type 0} {P : S → Type 0} (g : S → S) → ((s : S) → P s → P (g s)) → Runs P (modify g)
unfolding modify
Runs-modify g k = record { at = k }

module _ {S A B : Type 0} {P : S → Type 0} where
  Runs-continue :
      (f : A → Action S B)
      → ((a : A) → Runs P (f a))
      → (o : Outcome S A) → Ensures (λ _ t. P t) (λ _ _. ⊥) o
      → Ensures {S = S} {A = B}
          (λ _ t. P t)
          (λ _ _. ⊥)
          (elim o [ done a t ↦ f a t | fail e t ↦ fail e t ])
  Runs-continue f k (done a t) h = (k a).at t h
  Runs-continue f k (fail e t) h = h

  pub Runs-bind :
      (m : Action S A) (f : A → Action S B) → Runs P m → ((a : A) → Runs P (f a)) → Runs P (m >>= f)
  unfolding ◌>>=◌
  Runs-bind m f rm rf = record { at = λ s h. Runs-continue f rf (m s) (rm.at s h) }

  pub Runs-option :
      (o : Option A) (m : Action S B) (f : A → Action S B)
      → Runs P m
      → ((a : A) → Runs P (f a))
      → Runs P (match_option o m f)
  unfolding match_option
  Runs-option none m f rm rf = rm
  Runs-option (some a) m f rm rf = rf a

module _ {S A B : Type 0} {P Q : S → Type 0} where
  Ends-continue :
      (f : A → Action S B)
      → ((a : A) → Ends P Q (f a))
      → (o : Outcome S A) → Ensures (λ _ t. P t) (λ _ _. ⊥) o
      → Q (final {S = S} {A = B} (elim o [ done a t ↦ f a t | fail e t ↦ fail e t ]))
  Ends-continue f k (done a t) h = (k a).at t h
  Ends-continue f k (fail e t) h = absurd h

  -- What comes first does not fail, so what comes last decides.
  pub Ends-bind :
      (m : Action S A) (f : A → Action S B)
      → Runs P m
      → ((a : A) → Ends P Q (f a))
      → Ends P Q (m >>= f)
  unfolding ◌>>=◌
  Ends-bind m f rm ef = record { at = λ s h. Ends-continue f ef (m s) (rm.at s h) }

  -- What comes first brings the property about, and the rest keeps it.
  pub Ends-Keeps :
      (m : Action S A) (f : A → Action S B)
      → Ends P Q m
      → ((a : A) → Keeps Q (f a))
      → Ends P Q (m >>= f)
  unfolding ◌>>=◌
  Ends-Keeps m f em kf = record { at = λ s h. after-continue Q f kf (m s) (em.at s h) }

  pub Ends-option :
      (o : Option A) (m : Action S B) (f : A → Action S B)
      → Ends P Q m
      → ((a : A) → Ends P Q (f a))
      → Ends P Q (match_option o m f)
  unfolding match_option
  Ends-option none m f em ef = em
  Ends-option (some a) m f em ef = ef a

module _ {S A : Type 0} {P Q : S → Type 0} where
  pub Ends-if :
      (b : Bool) (m n : Action S A) → Ends P Q m → Ends P Q n → Ends P Q (if b then m else n)
  Ends-if true m n em en = em
  Ends-if false m n em en = en

  -- A method that keeps the stronger property, started where it holds already.
  pub Ends-weaken : (m : Action S A) → ((s : S) → P s → Q s) → Keeps Q m → Ends P Q m
  Ends-weaken m w k = record { at = λ s h. k.at s (w s h) }

pub Ends-modify :
    {S : Type 0} {P Q : S → Type 0} (g : S → S) → ((s : S) → P s → Q (g s)) → Ends P Q (modify g)
unfolding modify
Ends-modify g k = record { at = k }

module _ {S B : Type 0} {P R Q : S → Type 0} where
  -- A change of the state, and what follows from the state after it.
  pub Ends-modify-then :
      (g : S → S) (n : Action S B)
      → ((s : S) → P s → R (g s))
      → Ends R Q n
      → Ends P Q (modify g >> n)
  unfolding modify ◌>>=◌
  Ends-modify-then g n k en = record { at = λ s h. en.at (g s) (k s h) }

-- A method that returns in a state with `R`, or fails in one with `Q`.
pub record Leads {S A : Type 0} (P R Q : S → Type 0) (m : Action S A) : Type 0 where
  pub at : (s : S) → P s → Ensures (λ _ t. R t) (λ _ t. Q t) (m s)

module _ {S A B : Type 0} {P R Q : S → Type 0} where
  Leads-continue :
      (f : A → Action S B)
      → ((a : A) → Leads P R Q (f a))
      → (o : Outcome S A) → Ensures (λ _ t. P t) (λ _ _. ⊥) o
      → Ensures {S = S} {A = B}
          (λ _ t. R t)
          (λ _ t. Q t)
          (elim o [ done a t ↦ f a t | fail e t ↦ fail e t ])
  Leads-continue f k (done a t) h = (k a).at t h
  Leads-continue f k (fail e t) h = absurd h

  pub Leads-bind :
      (m : Action S A) (f : A → Action S B)
      → Runs P m
      → ((a : A) → Leads P R Q (f a))
      → Leads P R Q (m >>= f)
  unfolding ◌>>=◌
  Leads-bind m f rm lf = record { at = λ s h. Leads-continue f lf (m s) (rm.at s h) }

  pub Leads-option :
      (o : Option A) (m : Action S B) (f : A → Action S B)
      → Leads P R Q m
      → ((a : A) → Leads P R Q (f a))
      → Leads P R Q (match_option o m f)
  unfolding match_option
  Leads-option none m f lm lf = lm
  Leads-option (some a) m f lm lf = lf a

module _ {S A B : Type 0} {R Q : S → Type 0} where
  Ends-resume :
      (f : A → Action S B)
      → ((a : A) → Ends R Q (f a))
      → (o : Outcome S A) → Ensures (λ _ t. R t) (λ _ t. Q t) o
      → Q (final {S = S} {A = B} (elim o [ done a t ↦ f a t | fail e t ↦ fail e t ]))
  Ends-resume f k (done a t) h = (k a).at t h
  Ends-resume f k (fail e t) h = h

module _ {S A B : Type 0} {P R Q : S → Type 0} where
  pub Ends-Leads :
      (m : Action S A) (f : A → Action S B)
      → Leads P R Q m
      → ((a : A) → Ends R Q (f a))
      → Ends P Q (m >>= f)
  unfolding ◌>>=◌
  Ends-Leads m f lm ef = record { at = λ s h. Ends-resume f ef (m s) (lm.at s h) }

module _ {S A : Type 0} {P R Q : S → Type 0} where
  pub Leads-pure : (a : A) → ((s : S) → P s → R s) → Leads P R Q (pure a)
  unfolding pure
  Leads-pure a k = record { at = k }

  pub Leads-undo :
      (g : S → S) (e : String)
      → ((s : S) → P s → Q (g s))
      → Leads {A = A} P R Q (modify g >> raise e)
  unfolding modify raise ◌>>=◌
  Leads-undo g e k = record { at = k }

  pub Leads-modify-then :
      {T : S → Type 0} (g : S → S) (n : Action S A)
      → ((s : S) → T s → P (g s))
      → Leads P R Q n
      → Leads T R Q (modify g >> n)
  unfolding modify ◌>>=◌
  Leads-modify-then g n k l = record { at = λ s h. l.at (g s) (k s h) }

module _ {S A : Type 0} {P : S → Type 0} where
  pub Keeps-Ends : (m : Action S A) → Ends P P m → Keeps P m
  Keeps-Ends m e = record { at = e.at }

module _ {S A : Type 0} {P Q : S → Type 0} where
  pub Ends-check-then :
      (b : Bool) (e : String) (n : Action S A)
      → ((s : S) → P s → Q s)
      → Ends P Q n
      → Ends P Q (check b e >> n)
  unfolding check ◌>>=◌
  Ends-check-then true e n w en = record { at = en.at }
  Ends-check-then false e n w en = record { at = w }

  -- A split on a test, with what the test says in each branch.
  pub Ends-split :
      (b : Bool) (m n : Action S A)
      → (b ≡ true → Ends P Q m)
      → (b ≡ false → Ends P Q n)
      → Ends P Q (if b then m else n)
  Ends-split true m n em en = em refl
  Ends-split false m n em en = en refl

module _ {S A B : Type 0} {P Q : S → Type 0} where
  -- What comes first keeps the property, which is enough for the end if it fails.
  pub Ends-after :
      (m : Action S A) (f : A → Action S B)
      → Keeps P m
      → ((s : S) → P s → Q s)
      → ((a : A) → Ends P Q (f a))
      → Ends P Q (m >>= f)
  unfolding ◌>>=◌
  Ends-after m f km w ef = record { at = λ s h. by_outcome (m s) (km.at s h) }
    where
      by_outcome :
          (o : Outcome S A)
          → P (final o)
          → Q (final {S = S} {A = B} (elim o [ done a t ↦ f a t | fail e t ↦ fail e t ]))
      by_outcome (done a t) h = (ef a).at t h
      by_outcome (fail e t) h = w t h

module _ {S A B : Type 0} {P R Q : S → Type 0} where
  pub Leads-after :
      (m : Action S A) (f : A → Action S B)
      → Keeps P m
      → ((s : S) → P s → Q s)
      → ((a : A) → Leads P R Q (f a))
      → Leads P R Q (m >>= f)
  unfolding ◌>>=◌
  Leads-after m f km w lf = record { at = λ s h. by_outcome (m s) (km.at s h) }
    where
      by_outcome :
          (o : Outcome S A)
          → P (final o)
          → Ensures {S = S} {A = B}
              (λ _ t. R t)
              (λ _ t. Q t)
              (elim o [ done a t ↦ f a t | fail e t ↦ fail e t ])
      by_outcome (done a t) h = (lf a).at t h
      by_outcome (fail e t) h = w t h

-- ===== src/Base/Action/Returns.antt =====
-- What holds of a method's value and the state it leaves, whenever it returns.
use askio_agent.Base.{
  Bool, true, false, if◌then◌else◌, Option, none, some, String, ◌≡◌, refl, subst,
}
use askio_agent.Base.Action.Keeps.{Keeps}
use askio_agent.Base.Action.{
  final, Outcome, done, fail, Action, pure, raise, gets, check, match_option, Ensures, ◌>>=◌, ◌>>◌,
}

-- From a state with `P` the method fails, or returns a value and a state with `Q`.
pub record Returns {S A : Type 0} (P : S → Type 0) (Q : A → S → Type 0) (m : Action S A)
    : Type 0 where
  pub at : (s : S) → P s → Ensures Q (λ _ _. Unit {0}) (m s)

-- No condition on the state.
abbrev pub Always : {S : Type 0} → S → Type 0
Always s = Unit {0}

module _ {S A B : Type 0} {Q : A → S → Type 0} {T : B → S → Type 0} where
  Returns-continue :
      (f : A → Action S B)
      → ((a : A) → Returns (Q a) T (f a))
      → (o : Outcome S A) → Ensures Q (λ _ _. Unit {0}) o
      → Ensures {S = S} {A = B} T
          (λ _ _. Unit {0})
          (elim o [ done a t ↦ f a t | fail e t ↦ fail e t ])
  Returns-continue f k (done a t) h = (k a).at t h
  Returns-continue f k (fail e t) h = tt

module _ {S A B : Type 0} {P : S → Type 0} {Q : A → S → Type 0} {T : B → S → Type 0} where
  pub Returns-bind :
      (m : Action S A) (f : A → Action S B)
      → Returns P Q m
      → ((a : A) → Returns (Q a) T (f a))
      → Returns P T (m >>= f)
  unfolding ◌>>=◌
  Returns-bind m f rm rf = record { at = λ s h. Returns-continue f rf (m s) (rm.at s h) }

module _ {S A : Type 0} where
  anything : (o : Outcome S A) → Ensures {S = S} {A = A} (λ _ _. Unit {0}) (λ _ _. Unit {0}) o
  anything (done a t) = tt
  anything (fail e t) = tt

module _ {S A B : Type 0} {P : S → Type 0} {T : B → S → Type 0} where
  -- What comes last decides, whatever lies between.
  pub Returns-after :
      (m : Action S A) (f : A → Action S B)
      → ((a : A) → Returns Always T (f a))
      → Returns P T (m >>= f)
  Returns-after m f k =
      Returns-bind {Q = λ _ _. Unit {0}} m f (record { at = λ s h. anything (m s) }) k

  pub Returns-option :
      (o : Option A) (m : Action S B) (f : A → Action S B)
      → Returns P T m
      → ((a : A) → Returns P T (f a))
      → Returns P T (match_option o m f)
  unfolding match_option
  Returns-option none m f rm rf = rm
  Returns-option (some a) m f rm rf = rf a

module _ {S A : Type 0} {P : S → Type 0} {Q : A → S → Type 0} where
  pub Returns-pure : (a : A) → ((s : S) → P s → Q a s) → Returns P Q (pure a)
  unfolding pure
  Returns-pure a k = record { at = k }

  pub Returns-raise : (e : String) → Returns P Q (raise e)
  unfolding raise
  Returns-raise e = record { at = λ s h. tt }

  pub Returns-split :
      (b : Bool) (m n : Action S A)
      → (b ≡ true → Returns P Q m)
      → (b ≡ false → Returns P Q n)
      → Returns P Q (if b then m else n)
  Returns-split true m n rm rn = rm refl
  Returns-split false m n rm rn = rn refl

  -- From what is known of each value and state that it returns.
  pub Returns-from :
      (m : Action S A) → ((s : S) (a : A) (t : S) → P s → m s ≡ done a t → Q a t) → Returns P Q m
  Returns-from m k = record { at = λ s h. by_outcome (m s) (λ a t e. k s a t h e) }
    where
      by_outcome :
          (o : Outcome S A)
          → ((a : A) (t : S) → o ≡ done a t → Q a t)
          → Ensures Q (λ _ _. Unit {0}) o
      by_outcome (done a t) j = j a t refl
      by_outcome (fail e t) j = tt

  pub returned :
      (m : Action S A) (s : S) (a : A) (t : S) → Returns P Q m → P s → m s ≡ done a t → Q a t
  returned m s a t r h e = subst (Ensures Q (λ _ _. Unit {0})) e (r.at s h)

module _ {S A : Type 0} {P : S → Type 0} {Q : A → S → Type 0} where
  pub Returns-check-then :
      (b : Bool) (e : String) (n : Action S A)
      → (b ≡ true → Returns P Q n)
      → Returns P Q (check b e >> n)
  unfolding check ◌>>=◌
  Returns-check-then true e n k = record { at = λ s h. (k refl).at s h }
  Returns-check-then false e n k = record { at = λ s h. tt }

module _ {S A : Type 0} {P : S → Type 0} {Q : A → S → Type 0} where
  pub Returns-gets : (f : S → A) → ((s : S) → P s → Q (f s) s) → Returns P Q (gets f)
  unfolding gets
  Returns-gets f k = record { at = k }

module _ {S A B : Type 0} where
  -- What a method does after a first step whose outcome is known.
  pub bind-done :
      (m : Action S A) (f : A → Action S B) (s t : S) (a : A) → m s ≡ done a t → (m >>= f) s ≡ f a t
  unfolding ◌>>=◌
  bind-done m f s t a e = by_outcome (m s) e
    where
      by_outcome :
          (o : Outcome S A)
          → o ≡ done a t
          → (elim o [ done x u ↦ f x u | fail w u ↦ fail w u ]) ≡ f a t
      by_outcome o p = rw p refl

module _ {S A : Type 0} {P : S → Type 0} where
  pub Returns-Keeps : (m : Action S A) → Keeps P m → Returns P (λ _ t. P t) m
  Returns-Keeps m k = record { at = λ s h. by_outcome (m s) (k.at s h) }
    where
      by_outcome : (o : Outcome S A) → P (final o) → Ensures (λ _ t. P t) (λ _ _. Unit {0}) o
      by_outcome (done a t) h = h
      by_outcome (fail e t) h = tt

pub Returns-check :
    {S : Type 0} {P : S → Type 0} {Q : Unit {0} → S → Type 0} (b : Bool) (e : String)
    → ((s : S) → b ≡ true → P s → Q tt s)
    → Returns P Q (check b e)
unfolding check
Returns-check true e k = record { at = λ s h. k s refl h }
Returns-check false e k = record { at = λ s h. tt }

module _ {S A B : Type 0} {P : S → Type 0} {Q : A → Type 0} {T : B → S → Type 0} where
  -- What is known of the first step's value is known in what follows.
  pub Returns-known :
      (m : Action S A) (f : A → Action S B)
      → Returns P (λ a _. Q a) m
      → ((a : A) → Q a → Returns Always T (f a))
      → Returns P T (m >>= f)
  Returns-known m f rm k =
      Returns-bind {Q = λ a _. Q a} m f rm (λ a. record { at = λ s q. (k a q).at s tt })

module _ {S A : Type 0} {P : S → Type 0} {Q T : A → Type 0} where
  pub Returns-imply :
      (m : Action S A) → Returns P (λ a _. Q a) m → ((a : A) → Q a → T a) → Returns P (λ a _. T a) m
  Returns-imply m r k = record { at = λ s h. by_outcome (m s) (r.at s h) }
    where
      by_outcome :
          (o : Outcome S A)
          → Ensures (λ a _. Q a) (λ _ _. Unit {0}) o
          → Ensures (λ a _. T a) (λ _ _. Unit {0}) o
      by_outcome (done a t) q = k a q
      by_outcome (fail e t) q = tt

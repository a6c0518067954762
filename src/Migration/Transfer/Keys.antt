-- ===== src/Migration/Transfer/Keys.antt =====
-- `strconv.FormatInt` gives different texts to different numbers: a reader gets the number back.
use askio_agent.Base.{
  ℕ, zero, suc, ◌+◌, ◌-◌, ◌*◌, ◌/◌, ◌%◌, ◌<◌, List, [], ◌∷◌, ◌++◌, ◌≡◌, refl, sym, ap, ◌∙◌, codes,
  ltb, arith, digit, decimal_from, decimal, Bool-cases, inl, inr,
}
use askio_agent.Migration.Scope.{codes-append}

-- The number that decimal digits stand for, after those of `acc`.
value : ℕ → List ℕ → ℕ
value acc [] = acc
value acc (c ∷ cs) = value (acc * 10 + (c - 48)) cs

value-append : (acc : ℕ) (xs ys : List ℕ) → value acc (xs ++ ys) ≡ value (value acc xs) ys
unfolding value
value-append acc [] ys = refl
value-append acc (x ∷ xs) ys = value-append (acc * 10 + (x - 48)) xs ys

value-digit : (acc d : ℕ) → d < 10 → value acc (codes (digit d)) ≡ acc * 10 + d
unfolding value digit
value-digit acc zero h = omega arith
value-digit acc (suc zero) h = omega arith
value-digit acc (suc (suc zero)) h = omega arith
value-digit acc (suc (suc (suc zero))) h = omega arith
value-digit acc (suc (suc (suc (suc zero)))) h = omega arith
value-digit acc (suc (suc (suc (suc (suc zero))))) h = omega arith
value-digit acc (suc (suc (suc (suc (suc (suc zero)))))) h = omega arith
value-digit acc (suc (suc (suc (suc (suc (suc (suc zero))))))) h = omega arith
value-digit acc (suc (suc (suc (suc (suc (suc (suc (suc zero)))))))) h = omega arith
value-digit acc (suc (suc (suc (suc (suc (suc (suc (suc (suc n))))))))) h = omega arith

value-decimal_from : (fuel n : ℕ) → n < fuel → value 0 (codes (decimal_from fuel n)) ≡ n
unfolding decimal_from
value-decimal_from zero n h = absurd (omega arith)
value-decimal_from (suc fuel) n h = elim (Bool-cases (ltb n 10)) [
  | inl p ↦ rw p (omega (arith, value-digit 0 n (ground (arith, p))))
  | inr p ↦ rw p (
      ap (value 0) (codes-append (decimal_from fuel (n / 10)) (digit (n % 10)))
      ∙ value-append 0 (codes (decimal_from fuel (n / 10))) (codes (digit (n % 10)))
      ∙ ap (λ a. value a (codes (digit (n % 10))))
          (value-decimal_from fuel (n / 10) (ground (arith, p)))
      ∙ value-digit (n / 10) (n % 10) (omega arith)
      ∙ omega arith)
]

pub decimal-injective : (m n : ℕ) → decimal m ≡ decimal n → m ≡ n
unfolding decimal
decimal-injective m n e =
    sym (value-decimal_from (m + 1) m (omega arith))
    ∙ ap (λ s. value 0 (codes s)) e
    ∙ value-decimal_from (n + 1) n (omega arith)

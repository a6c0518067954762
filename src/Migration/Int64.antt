-- ===== src/Migration/Int64.antt =====
-- Go's int64 and uint64: a value is its bit pattern, a number below 2 ^ 64.
use askio_agent.Base.{ℕ, ◌+◌, ◌-◌, ◌*◌, ◌%◌, Bool, ltb, leb}
use Prim.Native.Nat.{◌^◌}

abbrev pub word : ℕ
word = 2 ^ 64

abbrev pub maximum_int64 : ℕ
maximum_int64 = 2 ^ 63 - 1

unfoldable pub add64 : ℕ → ℕ → ℕ
add64 a b = (a + b) % word

unfoldable pub sub64 : ℕ → ℕ → ℕ
sub64 a b = (a + word - b) % word

unfoldable pub mul64 : ℕ → ℕ → ℕ
mul64 a b = (a * b) % word

unfoldable pub is_negative : ℕ → Bool
is_negative a = leb (2 ^ 63) a

-- `a < b` of two int64, by their patterns.
unfoldable pub less64 : ℕ → ℕ → Bool
less64 a b = ltb ((a + 2 ^ 63) % word) ((b + 2 ^ 63) % word)

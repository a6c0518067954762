-- ===== src/Base/Text.antt =====
-- Go's `strings` package on ASCII text: a text is seen as the list of its character codes.
use Prim.Native.Char.{code}
use Prim.Native.Nat.{ℕ, ◌+◌, Ordering}
use Prim.Native.String.{String, compare}
use mathlib.Core.Path.{◌≡◌, refl}
use mathlib.Core.Bool.{Bool, true, false, ◌&&◌, ◌||◌}
use mathlib.Core.List.{List, [], ◌∷◌, map}
use native.Mathlib.Omega.{arith}
use text.Mathlib.Text.{◌==◌}
use text.Mathlib.TextEquality.{eq_iff}
use askio_agent.Base.Tests.{leb, eqb, if◌then◌else◌}

abbrev pub codes : String → List ℕ
codes String.[] = []
codes (String.◌∷◌ c s) = code c ∷ codes s

is_upper : ℕ → Bool
is_upper c = leb b'A' c && leb c b'Z'

unfoldable pub to_lower : ℕ → ℕ
unfolding is_upper
to_lower c = if is_upper c then c + 32 else c

unfoldable pub equal_codes : List ℕ → List ℕ → Bool
equal_codes [] [] = true
equal_codes [] (y ∷ ys) = false
equal_codes (x ∷ xs) [] = false
equal_codes (x ∷ xs) (y ∷ ys) = eqb x y && equal_codes xs ys

pub equal_codes_comm : (xs ys : List ℕ) → equal_codes xs ys ≡ equal_codes ys xs
unfolding equal_codes
equal_codes_comm [] [] = refl
equal_codes_comm [] (y ∷ ys) = refl
equal_codes_comm (x ∷ xs) [] = refl
equal_codes_comm (x ∷ xs) (y ∷ ys) = ground (arith, equal_codes_comm xs ys)

-- `strings.ToLower`, as the codes of the result.
unfoldable pub lower : String → List ℕ
unfolding to_lower
lower s = map to_lower (codes s)

-- `strings.EqualFold`.
unfoldable pub equal_fold : String → String → Bool
unfolding lower equal_codes
equal_fold s t = equal_codes (lower s) (lower t)

pub equal_fold_comm : (s t : String) → equal_fold s t ≡ equal_fold t s
unfolding equal_fold
equal_fold_comm s t = equal_codes_comm (lower s) (lower t)

-- A comparison with a constant in lower case, as in `strings.ToLower(s) == "abort"`.
unfoldable pub lower_is : String → String → Bool
unfolding lower equal_codes
lower_is s t = equal_codes (lower s) (codes t)

-- Go compares strings byte by byte.
unfoldable pub string_le : String → String → Bool
string_le s t = elim (compare s t) [ Ordering.gt ↦ false | _ ↦ true ]

insert_sorted : String → List String → List String
insert_sorted s [] = s ∷ []
insert_sorted s (t ∷ ts) = if string_le s t then s ∷ t ∷ ts else t ∷ insert_sorted s ts

-- `sort.Strings`.
unfoldable pub sort : List String → List String
unfolding insert_sorted string_le
sort [] = []
sort (s ∷ ss) = insert_sorted s (sort ss)

-- `s == ""`.
abbrev pub is_empty : String → Bool
is_empty s = s == ""

unfoldable pub equal_strings : List String → List String → Bool
equal_strings [] [] = true
equal_strings [] (y ∷ ys) = false
equal_strings (x ∷ xs) [] = false
equal_strings (x ∷ xs) (y ∷ ys) = x == y && equal_strings xs ys

pub equal_strings→eq : (xs ys : List String) → equal_strings xs ys ≡ true → xs ≡ ys
unfolding equal_strings
equal_strings→eq [] [] h = refl
equal_strings→eq [] (y ∷ ys) h = cc
equal_strings→eq (x ∷ xs) [] h = cc
equal_strings→eq (x ∷ xs) (y ∷ ys) h = ground (arith, eq_iff x y, equal_strings→eq xs ys)

pub equal_strings_self : (xs : List String) → equal_strings xs xs ≡ true
unfolding equal_strings
equal_strings_self [] = refl
equal_strings_self (x ∷ xs) = ground (arith, eq_iff x x, equal_strings_self xs)

unfoldable pub mem_string : String → List String → Bool
mem_string s [] = false
mem_string s (t ∷ ts) = t == s || mem_string s ts

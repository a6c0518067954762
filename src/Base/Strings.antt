-- ===== src/Base/Strings.antt =====
-- Go's `strings`, `fmt` and `strconv` functions that the agent's runners use, on ASCII text.
use Prim.Native.Char.{Char, code}
use Prim.Native.Nat.{ℕ, zero, suc, ◌+◌, ◌*◌, ◌-◌}
use Prim.Native.String.{String, ◌++◌ as append}
use mathlib.Core.Bool.{Bool, true, false, ◌&&◌, ◌||◌}
use mathlib.Core.Option.{Option, none, some}
use mathlib.Core.List.{List, [], ◌∷◌}
use text.Mathlib.Text.{◌==◌}
use askio_agent.Base.Tests.{eqb, leb, if◌then◌else◌}
use askio_agent.Base.Text.{codes, is_empty}

-- Space, and the tab to carriage return.
is_space : ℕ → Bool
is_space c = eqb c 32 || (leb 9 c && leb c 13)

unfoldable pub trim_left : String → String
unfolding is_space
trim_left String.[] = ""
trim_left (String.◌∷◌ c s) = if is_space (code c) then trim_left s else String.◌∷◌ c s

unfoldable pub trim_right : String → String
unfolding is_space
trim_right String.[] = ""
trim_right (String.◌∷◌ c s) =
    let rest = trim_right s in if is_empty rest && is_space (code c) then "" else String.◌∷◌ c rest

-- `strings.TrimSpace`.
unfoldable pub trim_space : String → String
unfolding trim_left trim_right
trim_space s = trim_left (trim_right s)

-- What follows a prefix, if the text has it.
unfoldable pub strip_prefix : String → String → Option String
strip_prefix String.[] s = some s
strip_prefix (String.◌∷◌ c p) String.[] = none
strip_prefix (String.◌∷◌ c p) (String.◌∷◌ d s) =
    let rest = strip_prefix p s in if eqb (code c) (code d) then rest else none

unfoldable pub begins_with : List ℕ → List ℕ → Bool
begins_with cs [] = true
begins_with [] (d ∷ ds) = false
begins_with (c ∷ cs) (d ∷ ds) = eqb c d && begins_with cs ds

unfoldable pub contains_codes : List ℕ → List ℕ → Bool
unfolding begins_with
contains_codes [] part = begins_with [] part
contains_codes (c ∷ cs) part = begins_with (c ∷ cs) part || contains_codes cs part

-- `strings.Contains`.
unfoldable pub contains : String → String → Bool
unfolding contains_codes
contains s part = contains_codes (codes s) (codes part)

-- `strings.HasSuffix`.
unfoldable pub has_suffix : String → String → Bool
has_suffix String.[] end = is_empty end
has_suffix (String.◌∷◌ c s) end = (String.◌∷◌ c s) == end || has_suffix s end

size : String → ℕ
size String.[] = zero
size (String.◌∷◌ c s) = suc (size s)

advance : Char → String → String → Option String → (String → String) → String
advance c s new none go = String.◌∷◌ c (go s)
advance c s new (some rest) go = append new (go rest)

-- Each step reads at least one character.
replace_from : ℕ → String → String → String → String
unfolding strip_prefix advance
replace_from zero old new s = s
replace_from (suc fuel) old new String.[] = ""
replace_from (suc fuel) old new (String.◌∷◌ c s) =
    advance c s new (strip_prefix old (String.◌∷◌ c s)) (replace_from fuel old new)

-- `strings.ReplaceAll` of a text that is not empty.
unfoldable pub replace_all : String → String → String → String
unfolding replace_from size
replace_all s old new = replace_from (size s) old new s

-- `strings.Join`.
unfoldable pub join : List String → String → String
join [] sep = ""
join (s ∷ []) sep = s
join (s ∷ (t ∷ rest)) sep = append s (append sep (join (t ∷ rest) sep))

-- An `int`.
pub data Integer : Type 0 where
  positive : ℕ → Integer
  minus : ℕ → Integer

unfoldable pub equal_integers : Integer → Integer → Bool
equal_integers (positive m) (positive n) = eqb m n
equal_integers (minus m) (minus n) = eqb m n
equal_integers (positive m) (minus n) = eqb m 0 && eqb n 0
equal_integers (minus m) (positive n) = eqb m 0 && eqb n 0

-- The digits read so far, or none when another character came.
unfoldable pub digits : ℕ → List ℕ → Option ℕ
digits n [] = some n
digits n (c ∷ cs) =
    let rest = digits (n * 10 + (c - 48)) cs in if leb 48 c && leb c 57 then rest else none

bounded : ℕ → (ℕ → Integer) → Option ℕ → Option Integer
bounded bound sign none = none
bounded bound sign (some n) = if leb n bound then some (sign n) else none

atoi_codes : List ℕ → Option Integer
unfolding digits bounded
atoi_codes [] = none
atoi_codes (c ∷ []) = bounded 9223372036854775807 positive (digits 0 (c ∷ []))
atoi_codes (c ∷ (d ∷ cs)) =
    if eqb c 45
    then bounded 9223372036854775808 minus (digits 0 (d ∷ cs))
    else if eqb c 43
    then bounded 9223372036854775807 positive (digits 0 (d ∷ cs))
    else bounded 9223372036854775807 positive (digits 0 (c ∷ (d ∷ cs)))

-- `strconv.Atoi`.
unfoldable pub atoi : String → Option Integer
unfolding atoi_codes
atoi s = atoi_codes (codes s)

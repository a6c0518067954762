-- ===== src/Operations/Params.antt =====
-- internal/operations: parameters as text, their substitution, and timeouts.
use askio_agent.Base.{
  ℕ, ◌-◌, ◌*◌, ◌/◌, ◌%◌, String, Bool, true, false, ◌&&◌, Option, none, some, List, [], ◌∷◌, append,
  decimal, string_le, if◌then◌else◌, codes, ltb, eqb,
}
use askio_agent.Base.Strings.{join, replace_all, digits, Integer, positive, minus, atoi}
use askio_agent.Envelope.{
  Json, null, bool, whole, negative, fraction, text, array, object, Items, end_items, item, Fields,
  end_fields, field, get_field,
}

insert_printed : String → String → List (String × String) → List (String × String)
insert_printed k v [] = (k, v) ∷ []
insert_printed k v ((j, w) ∷ rest) =
    let later = insert_printed k v rest in
    if string_le k j then (k, v) ∷ (j, w) ∷ rest else (j, w) ∷ later

print_pairs : List (String × String) → List String
print_pairs [] = []
print_pairs ((k, v) ∷ rest) = append k (append ":" v) ∷ print_pairs rest

mutual
  unfolding join print_pairs insert_printed string_le

  -- `fmt.Sprint` of a decoded value; whole numbers are below 10^21, where Go turns to exponents.
  print : Json → String
  print null = "<nil>"
  print (bool true) = "true"
  print (bool false) = "false"
  print (whole n) = decimal n
  print (negative n) = append "-" (decimal n)
  print (fraction s) = s
  print (text s) = s
  print (array items) = append "[" (append (join (print_items items) " ") "]")
  print (object fields) = append "map[" (append (join (print_pairs (print_fields fields)) " ") "]")

  print_items : Items → List String
  print_items end_items = []
  print_items (item v rest) = print v ∷ print_items rest

  -- Maps are printed in the order of their keys.
  print_fields : Fields → List (String × String)
  print_fields end_fields = []
  print_fields (field k v rest) = insert_printed k (print v) (print_fields rest)

-- `fmt.Sprint(params[key])`: a missing key reads as nil, which is printed too.
unfoldable pub sprint : Option Json → String
unfolding print
sprint none = "<nil>"
sprint (some v) = print v

unfoldable pub param : Fields → String → String
unfolding sprint get_field
param params key = sprint (get_field key params)

-- `params["args"].([]any)`, each value as text.
unfoldable pub texts_of : Option Json → List String
unfolding print_items
texts_of (some (array items)) = print_items items
texts_of _ = []

-- The parameters in the order of the map's iteration, which Go leaves open.
unfoldable pub substitute_params : String → Fields → String
unfolding replace_all print
substitute_params s end_fields = s
substitute_params s (field k v rest) =
    substitute_params (replace_all s (append "{{" (append k "}}")) (print v)) rest

-- A 64-bit number as the bits of its two's complement; it is positive below half the range.
unfoldable pub is_positive : ℕ → Bool
is_positive bits = ltb 0 bits && ltb bits 9223372036854775808

unfoldable pub wrap : ℕ → ℕ
wrap n = n % 18446744073709551616

unfoldable pub negate : ℕ → ℕ
unfolding wrap
negate n = wrap (18446744073709551616 - wrap n)

unfoldable pub int_codes : Bool → List ℕ → Option ℕ
unfolding negate wrap digits
int_codes is_minus cs = elim (digits 0 cs) [
  | none ↦ none
  | some n ↦ some (if is_minus then negate n else wrap n)
]

-- `parseInt`: the bits of the number; it has no bound and wraps around.
unfoldable pub parse_int : String → Option ℕ
unfolding int_codes
parse_int s = parse (codes s)
  where
    parse : List ℕ → Option ℕ
    parse [] = int_codes false []
    parse (c ∷ cs) = if eqb c 45 then int_codes true cs else int_codes false (c ∷ cs)

-- `time.Duration(n) * time.Second`.
unfoldable pub seconds : ℕ → ℕ
unfolding wrap
seconds bits = wrap (bits * 1000000000)

-- A timeout of so many seconds, or the standard one when the product is not positive.
unfoldable pub timeout_seconds_or : ℕ → ℕ → ℕ
unfolding is_positive seconds
timeout_seconds_or standard bits = if is_positive (seconds bits) then seconds bits else standard

-- `StepExec.Run` rounds a duration to seconds, and takes half a minute for one that is not positive.
unfoldable pub whole_seconds : ℕ → ℕ
unfolding is_positive
whole_seconds duration =
    if is_positive duration && ltb 999999999 duration then duration / 1000000000 else 30

unfoldable pub positive_timeout : Option ℕ → Option ℕ
unfolding is_positive seconds
positive_timeout none = none
positive_timeout (some bits) = if is_positive bits then some (seconds bits) else none

timeout_or : ℕ → Option ℕ → ℕ
timeout_or standard none = standard
timeout_or standard (some duration) = duration

-- `timeout_seconds` of a command: half a minute unless a positive number is given.
unfoldable pub command_timeout : Option Json → ℕ
unfolding parse_int positive_timeout timeout_or print
command_timeout none = 30000000000
command_timeout (some v) = timeout_or 30000000000 (positive_timeout (parse_int (print v)))

-- The value of an optional number, as `strconv.Atoi` reads it.
number_or : Integer → Option Integer → Integer
number_or standard none = standard
number_or standard (some n) = n

unfoldable pub integer_param : Integer → Option Json → Integer
unfolding number_or atoi print
integer_param standard none = standard
integer_param standard (some v) = number_or standard (atoi (print v))

unfoldable pub print_integer : Integer → String
print_integer (positive n) = decimal n
print_integer (minus n) = append "-" (decimal n)

-- A number of seconds as the bits of a duration.
unfoldable pub duration_of : Integer → ℕ
unfolding negate seconds
duration_of (positive n) = seconds n
duration_of (minus n) = seconds (negate n)

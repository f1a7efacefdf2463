-- ===== src/Common/Text.antt =====
-- What the services use of JavaScript's strings: the decimal text of a number, comparison with the
-- case of ASCII letters folded (`a.toLowerCase() === b.toLowerCase()`), `trim` of ASCII white space,
-- `split` at a separator, and the tests that their regular expressions make.
pub mod Folded
pub mod Trimmed
pub mod Decimal
use Prim.Native.Nat.{ℕ, zero, suc, ◌+◌, ◌-◌, ◌*◌, ◌/◌, ◌%◌}
use Prim.Native.Char.{Char, code}
use Prim.Native.String.{String, [], ◌∷◌}
use Prim.Native.String
use mathlib.Core.Bool.{Bool, true, false, ◌&&◌, ◌||◌}
use mathlib.Core.Option.{Option, none, some}
use text.Mathlib.Text.{starts_with, ◌==◌}
use jhaz_imprints.Common.Tests.{ltb, leb, eqb, if◌then◌else◌}

abbrev pub digit : ℕ → String
digit zero = "0"
digit (suc zero) = "1"
digit (suc (suc zero)) = "2"
digit (suc (suc (suc zero))) = "3"
digit (suc (suc (suc (suc zero)))) = "4"
digit (suc (suc (suc (suc (suc zero))))) = "5"
digit (suc (suc (suc (suc (suc (suc zero)))))) = "6"
digit (suc (suc (suc (suc (suc (suc (suc zero))))))) = "7"
digit (suc (suc (suc (suc (suc (suc (suc (suc zero)))))))) = "8"
digit _ = "9"

unfoldable pub digits : ℕ → ℕ → String
digits zero n = digit n
digits (suc fuel) n =
    let rest = digits fuel (n / 10) in
    if ltb n 10 then digit n else String.◌++◌ rest (digit (n % 10))

-- A number has at most as many digits as its value plus one, so the value is fuel enough.
unfoldable pub decimal : ℕ → String
unfolding digits
decimal n = digits n n

-- The code of an ASCII capital's small letter; other codes stay.
abbrev lower_code : ℕ → ℕ
lower_code n = if leb b'A' n && leb n b'Z' then n + 32 else n

unfoldable pub same_folded : String → String → Bool
same_folded [] [] = true
same_folded (c ∷ s) (d ∷ t) = eqb (lower_code (code c)) (lower_code (code d)) && same_folded s t
same_folded _ _ = false

abbrev pub is_space : ℕ → Bool
is_space n = eqb n 32 || (leb 9 n && leb n 13)

unfoldable pub trim_start : String → String
trim_start [] = []
trim_start (c ∷ s) = if is_space (code c) then trim_start s else c ∷ s

unfoldable pub trim_end : String → String
trim_end [] = []
trim_end (c ∷ s) = let rest = trim_end s in if is_space (code c) && rest == "" then "" else c ∷ rest

unfoldable pub trim : String → String
unfolding trim_start trim_end
trim s = trim_end (trim_start s)

drop_chars : ℕ → String → String
drop_chars zero s = s
drop_chars (suc n) [] = []
drop_chars (suc n) (c ∷ s) = drop_chars n s

before : String → String → String
before sep [] = []
before sep (c ∷ s) = if starts_with (c ∷ s) sep then "" else c ∷ before sep s

after : String → String → Option String
unfolding drop_chars
after sep [] = none
after sep (c ∷ s) =
    if starts_with (c ∷ s) sep then some (drop_chars (String.count sep) (c ∷ s)) else after sep s

abbrev cut_second : String → Option String → Option String
cut_second sep none = none
cut_second sep (some s) = some (before sep s)

-- `s.split(sep)[0]` and `s.split(sep)[1]`, for a separator that is not empty.
unfoldable pub first_part : String → String → String
unfolding before
first_part sep s = before sep s

unfoldable pub second_part : String → String → Option String
unfolding before after
second_part sep s = cut_second sep (after sep s)

abbrev is_hex : ℕ → Bool
is_hex n = (leb b'0' n && leb n b'9') || ((leb b'a' n && leb n b'f') || (leb b'A' n && leb n b'F'))

-- What is left behind `n` hexadecimal digits.
after_hex : ℕ → String → Option String
after_hex zero s = some s
after_hex (suc n) [] = none
after_hex (suc n) (c ∷ s) = if is_hex (code c) then after_hex n s else none

-- The characters that a regular expression's dot matches.
abbrev is_dot : ℕ → Bool
is_dot n =
    if eqb n 10
    then false
    else if eqb n 13
    then false
    else if eqb n 0x2028
    then false
    else if eqb n 0x2029
    then false
    else true

all_dots : String → Bool
all_dots [] = true
all_dots (c ∷ s) = is_dot (code c) && all_dots s

-- `(::.+)?$`
suffix_ok : String → Bool
unfolding all_dots drop_chars
suffix_ok s =
    if s == ""
    then true
    else let color = drop_chars 2 s in
      starts_with s "::" && (if color == "" then false else all_dots color)

abbrev ends : Option String → Bool
ends none = false
ends (some rest) = rest == ""

abbrev ends_with_color : Option String → Bool
ends_with_color none = false
ends_with_color (some rest) = suffix_ok rest

-- `/^[a-f\d]{24}$/i` and `/^[a-f\d]{24}(::.+)?$/i`
unfoldable pub is_object_id : String → Bool
unfolding after_hex
is_object_id s = ends (after_hex 24 s)

unfoldable pub is_fabric_id : String → Bool
unfolding after_hex suffix_ok
is_fabric_id s = ends_with_color (after_hex 24 s)

abbrev pub is_digit : ℕ → Bool
is_digit n = leb b'0' n && leb n b'9'

-- The leading digits' value behind what is read already.
unfoldable pub digits_value : ℕ → String → ℕ
digits_value n [] = n
digits_value n (c ∷ s) =
    let rest = digits_value (10 * n + (code c - b'0')) s in if is_digit (code c) then rest else n

unfoldable pub digits_read : String → Option ℕ
unfolding digits_value
digits_read [] = none
digits_read (c ∷ s) = if is_digit (code c) then some (digits_value 0 (c ∷ s)) else none

abbrev at_most_zero : Option ℕ → Option ℕ
at_most_zero none = none
at_most_zero (some n) = some 0

-- `parseInt(s, 10)`: none for NaN, and 0 for a number below zero.
unfoldable pub parse_nat : String → Option ℕ
unfolding digits_read trim_start
parse_nat text = elim (trim_start text) [
  | [] ↦ none
  | c ∷ s ↦
      if eqb (code c) b'-'
      then at_most_zero (digits_read s)
      else if eqb (code c) b'+'
      then digits_read s
      else digits_read (c ∷ s)
]

-- `/^#[0-9A-Fa-f]{6}$/`
unfoldable pub is_hex_color : String → Bool
unfolding after_hex
is_hex_color [] = false
is_hex_color (c ∷ s) = eqb (code c) 35 && ends (after_hex 6 s)

-- `s.slice(0, n)` and `s.slice(n)`
take_chars : ℕ → String → String
take_chars zero s = []
take_chars (suc n) [] = []
take_chars (suc n) (c ∷ s) = c ∷ take_chars n s

unfoldable pub slice_to : ℕ → String → String
unfolding take_chars
slice_to n s = take_chars n s

unfoldable pub slice_from : ℕ → String → String
unfolding drop_chars
slice_from n s = drop_chars n s

-- The leading digits are of a number above zero.
digits_positive : String → Bool
digits_positive [] = false
digits_positive (c ∷ s) =
    if leb b'1' (code c) && leb (code c) b'9'
    then true
    else if eqb (code c) b'0'
    then digits_positive s
    else false

signed_positive : String → Bool
unfolding digits_positive
signed_positive [] = false
signed_positive (c ∷ s) = if eqb (code c) b'+' then digits_positive s else digits_positive (c ∷ s)

-- `parseInt(s, 10) > 0`
unfoldable pub is_positive : String → Bool
unfolding trim_start signed_positive
is_positive s = signed_positive (trim_start s)

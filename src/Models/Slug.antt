-- ===== src/Models/Slug.antt =====
-- The slugs of packages/catalog-db/src/models: what the hooks of the four models make of a name,
-- and what the schemas' `lowercase` and `trim` make of a slug. Letters and white space are ASCII's.
pub mod Stable
use Prim.Native.Nat.{◌-◌}
use Prim.Native.Char.{Char, code}
use Prim.Native.String.{String, [], ◌∷◌}
use jhaz_imprints.Common.{ℕ, zero, suc, Bool, true, false, ◌||◌, ◌&&◌, leb, eqb, if◌then◌else◌}
use jhaz_imprints.Common.Text.{trim, is_space}

abbrev pub alphabet : String
alphabet = "abcdefghijklmnopqrstuvwxyz"

unfoldable pub nth_char : String → ℕ → Char
nth_char [] n = "-"
nth_char (c ∷ s) zero = c
nth_char (c ∷ s) (suc n) = nth_char s n

abbrev pub is_capital : ℕ → Bool
is_capital n = leb b'A' n && leb n b'Z'

unfoldable pub to_lower_char : Char → Char
to_lower_char c = if is_capital (code c) then nth_char alphabet (code c - b'A') else c

-- `s.toLowerCase()`
unfoldable pub to_lower : String → String
to_lower [] = []
to_lower (c ∷ s) = to_lower_char c ∷ to_lower s

-- `.replace(/\s+/g, "-")`; the flag says that the run's dash is written.
unfoldable pub dash_spaces : (in_run : Bool) → String → String
dash_spaces in_run [] = []
dash_spaces in_run (c ∷ s) =
    let behind = dash_spaces true s in
    let fresh = dash_spaces false s in
    if is_space (code c) then (if in_run then behind else "-" ∷ behind) else c ∷ fresh

-- A character of `\w`, or a dash.
abbrev pub is_slug_code : ℕ → Bool
is_slug_code n =
    (leb b'a' n && leb n b'z')
    || (is_capital n || ((leb b'0' n && leb n b'9') || (eqb n 95 || eqb n 45)))

-- `.replace(/[^\w\-]/g, "")`
unfoldable pub keep_word : String → String
keep_word [] = []
keep_word (c ∷ s) = let rest = keep_word s in if is_slug_code (code c) then c ∷ rest else rest

unfoldable pub slug_of_name : String → String
slug_of_name name = keep_word (dash_spaces false (trim (to_lower name)))

-- The setters of the schemas' slugs.
unfoldable pub clean_slug : String → String
clean_slug s = trim (to_lower s)

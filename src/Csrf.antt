-- ===== src/Csrf.antt =====
-- utils/csrfToken.ts and middleware/verifyCsrf.ts of packages/api: the signed tokens against forged
-- requests.
pub mod Window
mod Tests
use Prim.Native.Char.{code}
use Prim.Native.String.{[], ◌∷◌}
use Prim.Native.String
use jhaz_imprints.Common.{
  ℕ, String, Bool, true, false, ◌||◌, Option, none, some, ◌==◌, ◌+◌, if◌then◌else◌, ltb, eqb, any,
  List, ◌∷◌ as ◌∷ᴸ◌,
}
use jhaz_imprints.Common.Text.{decimal, trim_start, digits_read}

-- `decoded.split(".")[0]` and `decoded.split(".")[1]`
unfoldable pub before_dot : String → String
before_dot [] = []
before_dot (c ∷ s) = let rest = before_dot s in if eqb (code c) b'.' then "" else c ∷ rest

unfoldable pub after_dot : String → Option String
after_dot [] = none
after_dot (c ∷ s) = let rest = after_dot s in if eqb (code c) b'.' then some s else rest

abbrev pub second_of : Option String → Option String
second_of none = none
second_of (some rest) = some (before_dot rest)

-- A whole number of milliseconds after, or before, the clock's origin.
pub data Timestamp : Type 0 where
  since_origin : ℕ → Timestamp
  before_origin : ℕ → Timestamp

abbrev after_minus : Option ℕ → Option Timestamp
after_minus none = none
after_minus (some n) = some (before_origin n)

abbrev after_plus : Option ℕ → Option Timestamp
after_plus none = none
after_plus (some n) = some (since_origin n)

-- `parseInt(ts, 10)`: none for NaN
unfoldable pub parse_timestamp : String → Option Timestamp
parse_timestamp text = elim (trim_start text) [
  | [] ↦ none
  | c ∷ s ↦
      if eqb (code c) b'-'
      then after_minus (digits_read s)
      else if eqb (code c) b'+'
      then after_plus (digits_read s)
      else after_plus (digits_read (c ∷ s))
]

-- More than ten minutes old, or more than a minute ahead.
abbrev pub is_out_of_time : ℕ → Option Timestamp → Bool
is_out_of_time now none = true
is_out_of_time now (some (since_origin n)) = ltb (n + 600000) now || ltb (now + 60000) n
is_out_of_time now (some (before_origin n)) = ltb 600000 (now + n)

-- The text that a token encodes.
abbrev pub raw_token : (String → String → String) → String → String → String
raw_token hmac secret ts = String.◌++◌ ts (String.◌++◌ "." (hmac secret ts))

-- `hmac` is SHA-256 in hexadecimal, keyed with the secret; `encode` writes a text's bytes in the
-- alphabet of base64url, and `decode` reads them back. Without a secret the call throws.
unfoldable pub generate_csrf_token :
    (hmac : String → String → String) (encode : String → String)
    → (secret : Option String) → (now : ℕ) → Option String
generate_csrf_token hmac encode none now = none
generate_csrf_token hmac encode (some secret) now =
    if secret == "" then none else some (encode (raw_token hmac secret (decimal now)))

-- The two parts of a token, for a secret. Texts of one length are compared byte by byte.
abbrev pub check_parts :
    (String → String → String) → String → ℕ → (ts : String) → Option String → Bool
check_parts hmac secret now ts none = false
check_parts hmac secret now ts (some signature) =
    if ts == ""
    then false
    else if signature == ""
    then false
    else if is_out_of_time now (parse_timestamp ts)
    then false
    else signature == hmac secret ts

unfoldable pub verify_csrf_token :
    (hmac : String → String → String) (decode : String → String)
    → (secret : Option String) → (now : ℕ) → String
    → Bool
unfolding before_dot after_dot
verify_csrf_token hmac decode none now token = false
verify_csrf_token hmac decode (some secret) now token =
    let decoded = decode token in
    if secret == ""
    then false
    else check_parts hmac secret now (before_dot decoded) (second_of (after_dot decoded))

-- A value of a request: missing, or another that counts as false; a text; or any other.
pub data Value : Type 0 where
  falsy : Value
  string : String → Value
  other : Value

-- `a || b`
abbrev pub or_next : Value → Value → Value
or_next falsy b = b
or_next (string s) b = if s == "" then b else string s
or_next other b = other

pub record Request : Type 0 where
  pub method : String
  pub header : Value
  pub body_token : Value
  pub body_csrf : Value

pub data Verdict : Type 0 where
  next : Verdict
  refused : (status : ℕ) (error : String) → Verdict

abbrev pub is_safe : String → Bool
is_safe method = any (λ m. m == method) ("GET" ∷ᴸ "HEAD" ∷ᴸ "OPTIONS" ∷ᴸ List.[])

abbrev pub token_of : Request → Value
token_of r = or_next r.header (or_next r.body_token r.body_csrf)

abbrev pub judge_token : (String → Bool) → Value → Verdict
judge_token verifies (string token) =
    if token == ""
    then refused 403 "MISSING_CSRF_TOKEN"
    else if verifies token
    then next
    else refused 403 "INVALID_CSRF_TOKEN"
judge_token verifies _ = refused 403 "MISSING_CSRF_TOKEN"

unfoldable pub verify_csrf :
    (hmac : String → String → String) (decode : String → String)
    → (secret : Option String) → (now : ℕ) → Request
    → Verdict
verify_csrf hmac decode secret now r =
    if is_safe r.method
    then next
    else judge_token (verify_csrf_token hmac decode secret now) (token_of r)

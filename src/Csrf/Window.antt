-- ===== src/Csrf/Window.antt =====
-- How long a token of csrfToken.ts serves, and what every token that verifyCsrf lets through is.
use Prim.Native.Char.{code}
use Prim.Native.String.{[], ◌∷◌}
use Prim.Native.String
use text.Mathlib.TextLemmas.{nil-append, cons-append}
use jhaz_imprints.Common.{
  ℕ, String, ◌≡◌, refl, sym, ◌∙◌, ap, subst, Bool, true, false, not, ◌&&◌, Option, some, ◌==◌, ◌+◌,
  if◌then◌else◌, leb, eqb, arith, Bool-cases, inl, inr, eq_iff, eq_refl,
}
use jhaz_imprints.Common.Text.{decimal, trim_start, digits_read, is_digit, is_space}
use jhaz_imprints.Common.Text.Trimmed.{all_codes}
use jhaz_imprints.Common.Text.Decimal.{decimal-digits, digits_read-decimal}
use jhaz_imprints.Csrf.{
  before_dot, after_dot, second_of, since_origin, parse_timestamp, is_out_of_time, raw_token,
  generate_csrf_token, check_parts, verify_csrf_token, string, Request, next, refused, is_safe,
  verify_csrf,
}

abbrev pub no_dot : ℕ → Bool
no_dot n = not (eqb n b'.')

before_dot-dotless : (s : String) → all_codes no_dot s ≡ true → before_dot s ≡ s
unfolding before_dot all_codes
before_dot-dotless [] h = refl
before_dot-dotless (c ∷ s) h = ground (arith, before_dot-dotless s)

before_dot-concat :
    (s t : String) → all_codes no_dot s ≡ true → before_dot (String.◌++◌ s (String.◌++◌ "." t)) ≡ s
unfolding before_dot all_codes
before_dot-concat [] t h = rw (nil-append (String.◌++◌ "." t), cons-append "." [] t) refl
before_dot-concat (c ∷ s) t h =
    rw (cons-append c s (String.◌++◌ "." t)) (ground (arith, before_dot-concat s t))

after_dot-concat :
    (s t : String)
    → all_codes no_dot s ≡ true
    → after_dot (String.◌++◌ s (String.◌++◌ "." t)) ≡ some t
unfolding after_dot all_codes
after_dot-concat [] t h =
    rw (nil-append (String.◌++◌ "." t), cons-append "." [] t) (ap some (nil-append t))
after_dot-concat (c ∷ s) t h =
    rw (cons-append c s (String.◌++◌ "." t)) (ground (arith, after_dot-concat s t))

dotless_of_digits : (s : String) → all_codes is_digit s ≡ true → all_codes no_dot s ≡ true
unfolding all_codes
dotless_of_digits [] h = refl
dotless_of_digits (c ∷ s) h = ground (arith, dotless_of_digits s)

parse_timestamp-digits :
    (s : String) (n : ℕ)
    → all_codes is_digit s ≡ true
    → digits_read s ≡ some n
    → parse_timestamp s ≡ some (since_origin n)
unfolding all_codes parse_timestamp digits_read trim_start
parse_timestamp-digits [] n h read = ground arith
parse_timestamp-digits (c ∷ s) n h read =
    let digit : is_digit (code c) ≡ true = ground arith in
    let dense : is_space (code c) ≡ false = ground arith in
    let trimmed : trim_start (c ∷ s) ≡ c ∷ s = rw dense refl in
    rw (parse_timestamp, trimmed) (ground arith)

parse_timestamp-decimal : (n : ℕ) → parse_timestamp (decimal n) ≡ some (since_origin n)
parse_timestamp-decimal n =
    parse_timestamp-digits (decimal n) n (decimal-digits n) (digits_read-decimal n)

decimal_filled : (n : ℕ) → (decimal n == "") ≡ false
unfolding digits_read
decimal_filled n = elim (Bool-cases (decimal n == "")) [
  | inl bare ↦
      let read : digits_read "" ≡ some n =
        subst (λ s. digits_read s ≡ some n) ((eq_iff (decimal n) "").0 bare)
          (digits_read-decimal n) in
      ground (arith, read)
  | inr filled ↦ filled
]

-- Made at `made`, a token serves from a minute before to ten minutes after.
abbrev pub is_timely : (made now : ℕ) → Bool
is_timely made now = leb made (now + 60000) && leb now (made + 600000)

module _ (hmac : String → String → String) (encode decode : String → String) where
  generated :
      (secret : String) (made : ℕ) (token : String)
      → generate_csrf_token hmac encode (some secret) made ≡ some token
      → ((secret == "") ≡ false) × (token ≡ encode (raw_token hmac secret (decimal made)))
  unfolding generate_csrf_token
  generated secret made token h = elim (Bool-cases (secret == "")) [
    | inl bare ↦ ground arith
    | inr filled ↦ (filled, ground arith)
  ]

  check_parts-decimal :
      (secret : String) (made now : ℕ) (signature : String)
      → (signature == "") ≡ false
      → check_parts hmac secret now (decimal made) (some signature)
        ≡ (if is_timely made now then signature == hmac secret (decimal made) else false)
  check_parts-decimal secret made now signature filled =
      ground (arith, decimal_filled made, parse_timestamp-decimal made)

  -- A token that was generated is accepted exactly while it serves.
  verify_csrf_token-generate :
      (secret : String) (made now : ℕ) (token : String)
      → ((s : String) → decode (encode s) ≡ s)
      → all_codes no_dot (hmac secret (decimal made)) ≡ true
      → (hmac secret (decimal made) == "") ≡ false
      → generate_csrf_token hmac encode (some secret) made ≡ some token
      → verify_csrf_token hmac decode (some secret) now token ≡ is_timely made now
  unfolding verify_csrf_token
  verify_csrf_token-generate secret made now token decodes dotless filled made_it =
      let (has_secret, is_token) = generated secret made token made_it in
      let ts = decimal made in
      let digest = hmac secret ts in
      let plain : all_codes no_dot ts ≡ true = dotless_of_digits ts (decimal-digits made) in
      let reads : decode token ≡ raw_token hmac secret ts =
        ap decode is_token ∙ decodes (raw_token hmac secret ts) in
      rw
        (
          has_secret,
          reads,
          before_dot-concat ts digest plain,
          after_dot-concat ts digest plain,
          before_dot-dotless digest dotless,
          check_parts-decimal secret made now digest filled,
          eq_refl digest,
        )
        (ground arith)

module _ (hmac : String → String → String) (encode decode : String → String) where
  filled_token :
      (secret : String) (made : ℕ) (token : String)
      → ((s : String) → decode (encode s) ≡ s)
      → decode "" ≡ ""
      → generate_csrf_token hmac encode (some secret) made ≡ some token
      → (token == "") ≡ false
  unfolding before_dot
  filled_token secret made token decodes bare_text made_it = elim (Bool-cases (token == "")) [
    | inr filled ↦ filled
    | inl bare ↦
        let ts = decimal made in
        let raw = raw_token hmac secret ts in
        let nothing : raw ≡ "" =
          sym (ap decode (generated hmac encode decode secret made token made_it).1 ∙ decodes raw)
          ∙ ap decode ((eq_iff token "").0 bare)
          ∙ bare_text in
        let no_digits : ts ≡ "" =
          sym (before_dot-concat ts (hmac secret ts) (dotless_of_digits ts (decimal-digits made)))
          ∙ ap before_dot nothing in
        ground (arith, decimal_filled made, eq_iff ts "", no_digits)
  ]

-- A request that changes something and whose header has a token of generateCsrfToken passes
-- verifyCsrf exactly from a minute before to ten minutes after the token was made. Base64url is taken to
-- be read as it was written, and the digest to be a text without a dot that is not empty.
pub verify_csrf-generate_csrf_token :
    (hmac : String → String → String) (encode decode : String → String) (secret token : String)
    (made now : ℕ) (r : Request)
    → ((s : String) → decode (encode s) ≡ s)
    → decode "" ≡ ""
    → all_codes no_dot (hmac secret (decimal made)) ≡ true
    → (hmac secret (decimal made) == "") ≡ false
    → generate_csrf_token hmac encode (some secret) made ≡ some token
    → is_safe r.method ≡ false
    → r.header ≡ string token
    → verify_csrf hmac decode (some secret) now r
      ≡ (if is_timely made now then next else refused 403 "INVALID_CSRF_TOKEN")
unfolding verify_csrf
verify_csrf-generate_csrf_token hmac encode decode secret token made now r decodes bare dotless
      filled made_it unsafe sent =
    let has_text = filled_token hmac encode decode secret made token decodes bare made_it in
    let verified =
      verify_csrf_token-generate hmac encode decode secret made now token decodes dotless filled
        made_it in
    rw (unsafe, sent, has_text, has_text, verified) refl

-- The token has a time and its digest, and the time is of the last ten minutes or the next one.
abbrev pub IsSigned :
    (hmac : String → String → String) (decode : String → String)
    → (secret : Option String) → (now : ℕ) → String
    → Type 0
IsSigned hmac decode secret now token =
    (key : String) × (ts : String) × (secret ≡ some key)
    × ((key == "") ≡ false)
    × (before_dot (decode token) ≡ ts)
    × (second_of (after_dot (decode token)) ≡ some (hmac key ts))
    × (is_out_of_time now (parse_timestamp ts) ≡ false)

-- ===== src/Csrf/Tests.antt =====
-- Runs of csrfToken.ts and verifyCsrf.ts, with a digest that is the key before the text.
use Prim.Native.String
use jhaz_imprints.Common.{String, ◌≡◌, refl, none, some, if◌then◌else◌}
use jhaz_imprints.Common.Text.{decimal, digits, digits_read, digits_value, trim_start}
use jhaz_imprints.Common.Text.Trimmed.{all_codes}
use jhaz_imprints.Csrf.{
  before_dot, after_dot, parse_timestamp, generate_csrf_token, verify_csrf_token, string, falsy,
  other, Request, next, refused, verify_csrf,
}
use jhaz_imprints.Csrf.Window.{is_timely, verify_csrf-generate_csrf_token}

abbrev keyed : String → String → String
keyed key ts = String.◌++◌ key ts

abbrev as_is : String → String
as_is s = s

abbrev posting : String → Request
posting token = record {
  method = "POST";
  header = string token;
  body_token = other;
  body_csrf = falsy;
}

made_at_7000 : generate_csrf_token keyed as_is (some "k") 7000 ≡ some "7000.k7000"
unfolding generate_csrf_token decimal digits
made_at_7000 = refl

no_secret : generate_csrf_token keyed as_is (some "") 7000 ≡ none
unfolding generate_csrf_token
no_secret = refl

too_late :
    verify_csrf keyed as_is (some "k") 607001 (posting "7000.k7000")
    ≡ refused 403 "INVALID_CSRF_TOKEN"
unfolding verify_csrf verify_csrf_token before_dot after_dot parse_timestamp digits_read
    digits_value trim_start
too_late = refl

forged :
    verify_csrf keyed as_is (some "k") 7000 (posting "7000.K7000")
    ≡ refused 403 "INVALID_CSRF_TOKEN"
unfolding verify_csrf verify_csrf_token before_dot after_dot parse_timestamp digits_read
    digits_value trim_start
forged = refl

-- A header that is given twice wins over the body, and is no token.
given_twice :
    verify_csrf keyed as_is
      (some "k")
      7000
      (record (posting "7000.k7000") { header = other; body_token = string "7000.k7000" })
    ≡ refused 403 "MISSING_CSRF_TOKEN"
unfolding verify_csrf
given_twice = refl

verify_csrf-generate_csrf_token_example :
    verify_csrf keyed as_is (some "k") 9000 (posting "7000.k7000")
    ≡ (if is_timely 7000 9000 then next else refused 403 "INVALID_CSRF_TOKEN")
unfolding decimal digits all_codes generate_csrf_token
verify_csrf-generate_csrf_token_example =
    verify_csrf-generate_csrf_token keyed as_is as_is "k" "7000.k7000" 7000 9000
      (posting "7000.k7000") (λ s. refl) refl refl refl refl refl refl

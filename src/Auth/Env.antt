-- ===== src/Auth/Env.antt =====
-- What authService.ts relies on: the environment, the hashes, the tokens of `jsonwebtoken`, the
-- password list of haveibeenpwned.com and the two providers of email; and utils/hibp.ts.
use jhaz_imprints.Common.{
  ℕ, String, Bool, false, ◌&&◌, Option, none, some, List, ◌==◌, if◌then◌else◌, any, Result, ok, err,
  error,
}
use jhaz_imprints.Common.Text.{first_part, second_part, slice_to, slice_from, is_positive}
use jhaz_imprints.Schema.{Role}

-- The payload of a token; what it does not have is absent or false.
pub record Claims : Type 0 where
  pub id : Option String
  pub email : Option String
  pub role : Option Role
  pub user_id : Option String
  pub is_temp : Bool
  pub is_device_token : Bool

-- The emails that the service sends.
pub data Mail : Type 0 where
  otp_mail : (otp : String) → Mail
  reset_mail : (url : String) (minutes : ℕ) → Mail
  changed_mail : (name : Option String) → Mail

-- An email provider, where it is configured: whether it takes a mail to an address.
abbrev pub Provider : Type 0
Provider = Option (String → Mail → Bool)

pub record Env : Type 0 where
  pub jwt_secret : Option String
  pub refresh_token_secret : Option String
  pub production : Bool
  pub admin_frontend_url : Option String
  pub frontend_url : Option String
  -- digests in hexadecimal
  pub sha256 : String → String
  pub sha1 : String → String
  -- bcrypt, at a number of rounds
  pub hash_password : ℕ → String → String
  pub compare : (password hash : String) → Bool
  -- `jwt.sign` and `jwt.verify` at a time; lifetimes are in milliseconds
  pub sign : (secret : String) → Claims → (now lifetime : ℕ) → String
  pub verify : (secret token : String) → (now : ℕ) → Option Claims
  -- the lines of the answer for a prefix, if there is a good one in time
  pub fetch_range : String → Option (List String)
  pub resend : Provider
  pub smtp : Provider

-- `if (!secret) throw ...`
abbrev pub need : String → Option String → Result String
need message none = err (error message)
need message (some s) = if s == "" then err (error message) else ok s

abbrev has_breaches : Option String → Bool
has_breaches none = false
has_breaches (some count) = is_positive count

abbrev is_breached : String → String → Bool
is_breached suffix line = first_part ":" line == suffix && has_breaches (second_part ":" line)

abbrev in_range : String → Option (List String) → Bool
in_range suffix none = false
in_range suffix (some lines) = any (is_breached suffix) lines

-- No answer counts as no breach.
unfoldable pub check_pwned_password : Env → String → Bool
check_pwned_password env password =
    let sha1 = env.sha1 password in in_range (slice_from 5 sha1) (env.fetch_range (slice_to 5 sha1))

abbrev delivers : Provider → String → Mail → Bool
delivers none to mail = false
delivers (some send) to mail = send to mail

-- Resend first, SMTP when that fails.
unfoldable pub send_reset_email : Env → String → Mail → Result (Unit {0})
send_reset_email env to mail =
    if delivers env.resend to mail
    then ok tt
    else if delivers env.smtp to mail
    then ok tt
    else err (
        error
          "No email provider configured or active (both Resend and Nodemailer SMTP are unavailable or failed).")

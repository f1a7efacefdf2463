-- ===== src/Auth/Login.antt =====
-- `login` and `verifyAdminOtp` of authService.ts, and the device tokens.
pub mod Guards
pub mod Throttle
pub mod Codes
use Prim.Native.String
use text.Mathlib.Text.{starts_with}
use jhaz_imprints.Common.{
  ℕ, ◌+◌, ◌-◌, ◌/◌, String, Bool, true, false, not, ◌&&◌, Option, none, some, ◌==◌, if◌then◌else◌,
  or_default, ltb, leb, find_first, Result, ok, err, error, Failure, Exec, pure, throw, lift, gets,
  or_throw, guard, ◌>>=◌, ◌>>◌,
}
use jhaz_imprints.Common.Text.{trim, slice_from, decimal}
use jhaz_imprints.Schema.{Role, User, Db, is_admin}
use jhaz_imprints.Store.{has_email, has_user_id, update_user}
use jhaz_imprints.Auth.Env.{Env, Claims, Mail, otp_mail, need, send_reset_email}
use jhaz_imprints.Auth.Sessions.{
  Session, UserData, user_data, minutes, generate_access_token, generate_refresh_token, hash_token,
  signed,
}

abbrev unmapped : String → String
unmapped ip = if starts_with ip "::ffff:" then slice_from 7 ip else ip

abbrev loopback : String → String
loopback ip = if ip == "::1" then "127.0.0.1" else ip

unfoldable pub normalize_ip : String → String
normalize_ip ip = if ip == "" then "" else loopback (unmapped (trim ip))

abbrev pub text_or_empty : Option String → String
text_or_empty none = ""
text_or_empty (some s) = s

-- 9999-12-31T23:59:59Z
abbrev pub forever : ℕ
forever = 253402300799000

-- The lockout after a number of failures in a row.
abbrev pub lockout : ℕ → ℕ → Option ℕ
lockout now fails =
    if leb 20 fails
    then some forever
    else if leb 10 fails
    then some (now + minutes 60)
    else if leb 5 fails
    then some (now + minutes 15)
    else none

abbrev pub or_kept : Option ℕ → Option ℕ → Option ℕ
or_kept none old = old
or_kept (some t) old = some t

abbrev pub with_failure : ℕ → User → User
with_failure now u = record u {
  failed_login_attempts = u.failed_login_attempts + 1;
  locked_until = or_kept (lockout now (u.failed_login_attempts + 1)) u.locked_until;
}

abbrev pub is_locked : ℕ → User → Bool
is_locked now u = elim u.locked_until [ none ↦ false | some t ↦ ltb now t ]

abbrev pub has_lock : User → Bool
has_lock u = elim u.locked_until [ none ↦ false | some t ↦ true ]

abbrev remaining_minutes : ℕ → User → ℕ
remaining_minutes now u = elim u.locked_until [ none ↦ 0 | some t ↦ (t - now + 59999) / 60000 ]

abbrev pub locked_message : ℕ → User → String
locked_message now u =
    String.◌++◌ "Account temporarily locked. Please try again in "
      (String.◌++◌ (decimal (remaining_minutes now u)) " minute(s) or reset your password.")

pub data LoginResult : Type 0 where
  requires_otp : (temp_token : String) → LoginResult
  logged_in : Session → LoginResult

abbrev pub with_otp : Env → ℕ → String → User → User
with_otp env now otp u = record u {
  admin_otp_hash = some (env.sha256 otp);
  admin_otp_expires = some (now + minutes 5);
}

abbrev ip_or_null : String → Option String
ip_or_null ip = if ip == "" then none else some ip

abbrev pub entered : Env → ℕ → String → String → User → User
entered env now refresh ip u = record u {
  refresh_token = some (hash_token env refresh);
  failed_login_attempts = 0;
  locked_until = none;
  last_login_at = some now;
  last_login_ip = ip_or_null ip;
}

abbrev pub without_otp : User → User
without_otp u = record u { admin_otp_hash = none; admin_otp_expires = none }

abbrev temp_claims : User → Claims
temp_claims u = record {
  id = some u.id;
  email = some u.email;
  role = some u.role;
  user_id = none;
  is_temp = true;
  is_device_token = false;
}

abbrev device_claims : String → Claims
device_claims id = record {
  id = none;
  email = none;
  role = none;
  user_id = some id;
  is_temp = false;
  is_device_token = true;
}

abbrev is_device_of : String → Option Claims → Bool
is_device_of id none = false
is_device_of id (some c) = c.is_device_token && elim c.user_id [ none ↦ false | some u ↦ u == id ]

-- `bypassOtp`
abbrev pub trusts : Env → ℕ → Option String → Option String → String → Bool
trusts env now (some secret) (some token) id =
    if secret == ""
    then false
    else if token == ""
    then false
    else is_device_of id (env.verify secret token now)
trusts env now _ _ id = false

unfoldable pub generate_device_token : Env → ℕ → String → Result String
generate_device_token env now id =
    signed (need "JWT_SECRET not set" env.jwt_secret)
      (λ secret. env.sign secret (device_claims id) now (minutes 43200))

-- An admin who comes from another address than last time, on a device that is not known.
abbrev pub needs_otp : Env → ℕ → User → Option String → Option String → Bool
needs_otp env now u ip device =
    is_admin u.role
    && (not (trusts env now env.jwt_secret device u.id)
        && not (normalize_ip (text_or_empty u.last_login_ip) == normalize_ip (text_or_empty ip)))

abbrev pub session_of : User → String → String → Session
session_of u access refresh = record {
  user = user_data none u;
  access_token = access;
  refresh_token = refresh;
}

abbrev pub admin_of : Option User → Option User
admin_of none = none
admin_of (some u) = if is_admin u.role then some u else none

abbrev pub pending_otp : Option String → Option ℕ → Option (String × ℕ)
pending_otp (some hash) (some expires) = if hash == "" then none else some (hash, expires)
pending_otp _ _ = none

abbrev pub temp_id : Claims → Option String
temp_id c = if c.is_temp then (if text_or_empty c.id == "" then none else c.id) else none

abbrev pub entered_by_otp : Env → ℕ → String → String → User → User
entered_by_otp env now refresh ip u = without_otp (entered env now refresh ip u)

module _ {F : Type 0} (env : Env) (now : ℕ) where
  note_wrong_password : User → Exec (Db F) LoginResult
  note_wrong_password u = do
    update_user (has_user_id u.id) (with_failure now)
    throw (error "Invalid email or password")

  ask_otp : String → User → Exec (Db F) LoginResult
  ask_otp otp u = do
    update_user (has_user_id u.id) (with_otp env now otp)
    lift (send_reset_email env u.email (otp_mail otp))
    temp ← lift (
        signed (need "JWT_SECRET not set" env.jwt_secret)
          (λ secret. env.sign secret (temp_claims u) now (minutes 5)))
    pure (requires_otp temp)

  open_session : Option String → User → Exec (Db F) Session
  open_session ip u = do
    access ← lift (generate_access_token env now u)
    refresh ← lift (generate_refresh_token env now u)
    update_user (has_user_id u.id) (entered env now refresh (normalize_ip (text_or_empty ip)))
    pure (session_of u access refresh)

  let_in : Option String → User → Exec (Db F) LoginResult
  unfolding open_session
  let_in ip u = do session ← open_session ip u; pure (logged_in session)

  unfoldable pub login :
      (email password : String)
      → (ip device : Option String) → (otp : String) → Exec (Db F) LoginResult
  unfolding note_wrong_password ask_otp let_in
  login email password ip device otp = do
    found ← gets (λ s. find_first (has_email email) s.users)
    user ← or_throw (error "Invalid email or password") found
    guard (not (is_locked now user)) (error (locked_message now user))
    guard (not (leb 20 user.failed_login_attempts && not (has_lock user)))
        (error "Account locked due to too many failed attempts. Please contact support.")
    if env.compare password user.password
        then (if needs_otp env now user ip device then ask_otp otp user else let_in ip user)
        else note_wrong_password user

  -- The check of the code, for an admin.
  unfoldable pub complete_otp : (otp ip : String) → User → Exec (Db F) Session
  complete_otp otp ip user = do
    pending ←
        or_throw (error "No OTP request found. Please login again.")
          (pending_otp user.admin_otp_hash user.admin_otp_expires)
    guard (leb now pending.1) (error "OTP has expired. Please login again.")
    guard (pending.0 == env.sha256 otp) (error "Invalid OTP code")
    access ← lift (generate_access_token env now user)
    refresh ← lift (generate_refresh_token env now user)
    update_user (has_user_id user.id) (entered_by_otp env now refresh (normalize_ip ip))
    pure (session_of user access refresh)

  unfoldable pub verify_admin_otp : (temp_token otp ip : String) → Exec (Db F) Session
  verify_admin_otp temp_token otp ip = do
    secret ← lift (need "JWT_SECRET not set" env.jwt_secret)
    decoded ←
        or_throw (error "Invalid or expired temporary token") (env.verify secret temp_token now)
    id ← or_throw (error "Invalid temporary token") (temp_id decoded)
    found ← gets (λ s. find_first (has_user_id id) s.users)
    user ← or_throw (error "Access denied") (admin_of found)
    complete_otp otp ip user

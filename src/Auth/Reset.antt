-- ===== src/Auth/Reset.antt =====
-- `requestPasswordReset` and `resetPassword` of authService.ts.
pub mod Laws
pub mod Links
use Prim.Native.String
use Prim.Native.Char.{code}
use Prim.Native.String.{[], ◌∷◌}
use jhaz_imprints.Common.{
  ℕ, ◌+◌, String, Bool, true, false, not, Option, none, some, ◌==◌, if◌then◌else◌, or_default, ltb,
  eqb, ◌&&◌, find_first, Result, ok, err, error, Exec, pure, throw, lift, gets, or_throw, guard,
  ◌>>=◌, ◌>>◌,
}
use jhaz_imprints.Common.Text.{trim}
use jhaz_imprints.Schema.{User, Db, is_admin}
use jhaz_imprints.Store.{has_email, has_user_id, update_user}
use jhaz_imprints.Auth.Env.{
  Env, Mail, reset_mail, changed_mail, send_reset_email, check_pwned_password,
}
use jhaz_imprints.Auth.Sessions.{minutes, hash_token}
use jhaz_imprints.Orders.Notes.{non_empty}

-- `url.replace(/\/$/, "")`
without_slash : String → String
without_slash [] = ""
without_slash (c ∷ s) =
    let rest = without_slash s in if eqb (code c) b'/' && s == "" then "" else c ∷ rest

abbrev url_or : String → Option String → String
url_or d url = or_default (non_empty url) d

-- Admins have a site of their own; outside production both are on this machine.
unfoldable pub site_of : Env → User → String
unfolding without_slash
site_of env u =
    let local = if is_admin u.role then "http://localhost:5173" else "http://localhost:5174" in
    let set = if is_admin u.role then env.admin_frontend_url else env.frontend_url in
    without_slash (if env.production then url_or local set else local)

abbrev pub reset_url : Env → User → String → String
reset_url env u token = String.◌++◌ (site_of env u) (String.◌++◌ "/reset-password?token=" token)

abbrev pub with_reset : Env → ℕ → String → User → User
with_reset env now token u = record u {
  reset_password_token = some (hash_token env token);
  reset_password_expires = some (now + minutes 15);
}

abbrev pub without_reset : User → User
without_reset u = record u { reset_password_token = none; reset_password_expires = none }

-- The password is new, the link is used up, and every session has ended.
abbrev pub with_password : Env → String → User → User
with_password env password u = record u {
  password = env.hash_password 10 password;
  reset_password_token = none;
  reset_password_expires = none;
  refresh_token = none;
}

-- `findUnique({ where: { resetPasswordToken } })`
abbrev pub has_reset_token : String → User → Bool
has_reset_token hash u = elim u.reset_password_token [ none ↦ false | some t ↦ t == hash ]

abbrev text_or_nothing : Option String → String
text_or_nothing name = or_default name ""

-- The name in the mail, if there is one.
abbrev pub user_name : User → Option String
user_name u = non_empty (
    some (
      trim (
        String.◌++◌ (text_or_nothing u.first_name)
          (String.◌++◌ " " (text_or_nothing u.last_name)))))

module _ {F : Type 0} (env : Env) (now : ℕ) where
  -- `raw_token` is the random token.
  send_link : String → User → Exec (Db F) Unit
  send_link raw_token u = do
    update_user (has_user_id u.id) (with_reset env now raw_token)
    lift (send_reset_email env u.email (reset_mail (reset_url env u raw_token) 15))

  abbrev to_known : String → Option User → Exec (Db F) Unit
  to_known raw_token none = pure tt
  to_known raw_token (some u) = send_link raw_token u

  -- An unknown address gets the same answer.
  unfoldable pub request_password_reset : (raw_token email : String) → Exec (Db F) Unit
  unfolding send_link
  request_password_reset raw_token email = do
    found ← gets (λ s. find_first (has_email email) s.users)
    to_known raw_token found

  -- An expired link is taken off before the call throws.
  drop_expired : User → Exec (Db F) Unit
  drop_expired u = do
    update_user (has_user_id u.id) without_reset
    throw (error "This password reset link has expired. Please request a new one.")

  change_password : String → User → Exec (Db F) Unit
  change_password new_password u = do
    guard (not (check_pwned_password env new_password))
        (error "This password has appeared in a data breach. Please choose a different one.")
    update_user (has_user_id u.id) (with_password env new_password)
    lift (send_reset_email env u.email (changed_mail (user_name u)))

  unfoldable pub reset_password : (raw_token new_password : String) → Exec (Db F) Unit
  unfolding drop_expired change_password
  reset_password raw_token new_password = do
    found ← gets (λ s. find_first (has_reset_token (hash_token env raw_token)) s.users)
    user ← or_throw (error "This password reset link is invalid. Please request a new one.") found
    expires ←
        or_throw (error "This password reset link is invalid. Please request a new one.")
          user.reset_password_expires
    if ltb expires now then drop_expired user else change_password new_password user

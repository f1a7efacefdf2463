-- ===== src/Auth/Login/Codes.antt =====
-- A mailed code is good once.
use jhaz_imprints.Common.{
  ℕ, String, ◌≡◌, refl, none, some, arith, find_first, find_first-update_first, Option-cases,
  Bool-cases, Result-cases, ok, err, error, Failure, inl, inr,
}
use jhaz_imprints.Schema.{User, Db, is_admin}
use jhaz_imprints.Store.{has_user_id}
use jhaz_imprints.Auth.Env.{Env, Claims, need}
use jhaz_imprints.Auth.Sessions.{Session}
use jhaz_imprints.Auth.Login.{entered_by_otp, normalize_ip, verify_admin_otp, complete_otp, temp_id}
use jhaz_imprints.Auth.Login.Guards.{verify_admin_otp-IsVerified}

module _ {F : Type 0} (env : Env) (now : ℕ) (temp_token otp ip id : String) (s : Db F) (u : User)
    (found : find_first (has_user_id id) s.users ≡ some u) (unasked : u.admin_otp_hash ≡ none)
    (names : (secret : String) (c : Claims)
      → env.verify secret temp_token now ≡ some c
      → c.id ≡ some id) where
  unasked-throws : (e : Failure) × (verify_admin_otp env now temp_token otp ip s ≡ (err e, s))
  unfolding verify_admin_otp complete_otp
  unasked-throws = elim (Result-cases (need "JWT_SECRET not set" env.jwt_secret)) [
    | inr (e, bad) ↦ (e, ground arith)
    | inl (secret, set) ↦ elim (Option-cases (env.verify secret temp_token now)) [
      | inl bad ↦ (error "Invalid or expired temporary token", ground arith)
      | inr (c, decoded) ↦ elim (Option-cases (temp_id c)) [
        | inl bad ↦ (error "Invalid temporary token", ground arith)
        | inr (i, named) ↦
            let same : c.id ≡ some id = names secret c decoded in
            let is : i ≡ id = ground arith in
            elim (Bool-cases (is_admin u.role)) [
              | inl may ↦ (error "No OTP request found. Please login again.", ground arith)
              | inr never ↦ (error "Access denied", ground arith)
            ]
      ]
    ]
  ]

-- After a session by a mailed code, no call for that admin succeeds with any code, with any
-- temporary token that names the admin, and none changes anything.
pub verify_admin_otp-once :
    {F : Type 0} (env : Env) (now later : ℕ) (temp_token otp ip again other elsewhere : String)
    (s after : Db F) (session : Session)
    → verify_admin_otp env now temp_token otp ip s ≡ (ok session, after)
    → ((secret : String) (c : Claims)
        → env.verify secret again later ≡ some c
        → c.id ≡ some session.user.id)
    → (e : Failure) × (verify_admin_otp env later again other elsewhere after ≡ (err e, after))
verify_admin_otp-once env now later temp_token otp ip again other elsewhere s after session h
      names =
    let was = verify_admin_otp-IsVerified env now temp_token otp ip s after session h in
    unasked-throws env later again other elsewhere session.user.id after
      (entered_by_otp env now session.refresh_token (normalize_ip ip) was.user)
      (ground (
        arith,
        was.found,
        was.stored,
        was.self,
        find_first-update_first (has_user_id was.user.id)
            (entered_by_otp env now session.refresh_token (normalize_ip ip)) s.users (λ u. refl),
      ))
      refl names

-- ===== src/Auth/Reset/Links.antt =====
-- From the request of a link to its use, and what a reset does not do.
use jhaz_imprints.Common.{
  ℕ, ◌+◌, ◌≤◌, String, ◌≡◌, refl, Bool, true, false, Option, none, some, List, [], ◌∷◌, arith,
  eq_refl, find_first, update_first, find_first-holds, find_first-update_both, Result-cases, err,
  error, inl, inr,
}
use jhaz_imprints.Schema.{User, Db}
use jhaz_imprints.Store.{has_email, has_user_id, update_user}
use jhaz_imprints.Auth.Env.{Env, check_pwned_password, send_reset_email, reset_mail}
use jhaz_imprints.Auth.Sessions.{hash_token, minutes}
use jhaz_imprints.Auth.Login.{login, is_locked, locked_message}
use jhaz_imprints.Auth.Login.Throttle.{IsStored}
use jhaz_imprints.Auth.Reset.{
  with_reset, with_password, has_reset_token, reset_password, request_password_reset, send_link,
  reset_url,
}
use jhaz_imprints.Auth.Reset.Laws.{changed, reset-changes, user-changed}

-- A key that no row has finds the row that an update gives it to.
find_first-fresh :
    {A : Type 0} (p q : A → Bool) (f : A → A) (xs : List A) (x : A)
    → find_first p xs ≡ some x
    → find_first q xs ≡ none
    → q (f x) ≡ true
    → find_first q (update_first p f xs) ≡ some (f x)
find_first-fresh p q f [] x found new has = ground arith
find_first-fresh p q f (y ∷ xs) x found new has = ground (arith, find_first-fresh p q f xs x)

module _ {F : Type 0} (env : Env) (now : ℕ) (token email : String) (s : Db F) (u : User)
    (stored : IsStored email u s) where
  abbrev pub requested : Db F
  requested = record s {
    users = update_first (has_user_id u.id) (with_reset env now token) s.users;
  }

  request-stores :
      request_password_reset env now token email s
      ≡ (send_reset_email env u.email (reset_mail (reset_url env u token) 15), requested)
  unfolding request_password_reset send_link update_user
  request-stores =
      elim (Result-cases (send_reset_email env u.email (reset_mail (reset_url env u token) 15))) [
        | inl (_, sent) ↦ ground (arith, stored)
        | inr (e, unsent) ↦ ground (arith, stored)
      ]

-- The link that is mailed for an address is good for 15 minutes: used by then, with a password that
-- is in no known breach, it gives the user of the address the new password, takes the link and the
-- refresh token away, and leaves the rest of the row. The link's token is new: no user has its hash.
pub reset_password-request :
    {F : Type 0} (env : Env) (now later : ℕ) (token email password : String) (s : Db F) (u : User)
    → IsStored email u s
    → find_first (has_reset_token (hash_token env token)) s.users ≡ none
    → later ≤ now + minutes 15
    → check_pwned_password env password ≡ false
    → let after = (request_password_reset env now token email s).1 in
      find_first (has_user_id u.id) (reset_password env later token password after).1.users
      ≡ some (record u {
        password = env.hash_password 10 password;
        reset_password_token = none;
        reset_password_expires = none;
        refresh_token = none;
      })
reset_password-request env now later token email password s u stored new soon safe =
    let asked = request-stores env now token email s u stored in
    let between = requested env now token email s u stored in
    let known : find_first (has_user_id u.id) between.users ≡ some (with_reset env now token u) =
      find_first-update_both (has_user_id u.id) (has_user_id u.id) (with_reset env now token)
        s.users u stored.1 stored.1 (eq_refl u.id) in
    let found : find_first (has_reset_token (hash_token env token)) between.users
        ≡ some (with_reset env now token u) =
      find_first-fresh (has_user_id u.id) (has_reset_token (hash_token env token))
        (with_reset env now token) s.users u stored.1 new (eq_refl (hash_token env token)) in
    ground (
      arith,
      asked,
      reset-changes env later token password between found known refl soon safe,
      user-changed env later token password between found known refl soon safe,
    )

-- A reset does not end a lockout, although the message of the lockout says so: after a reset of a
-- locked account, a login until the lock's end is refused with that message, also with the new
-- password.
pub login-reset_password :
    {F : Type 0} (env : Env) (now later : ℕ) (token email password : String)
    (ip device : Option String) (otp : String) (s : Db F) (u : User) (expires : ℕ)
    → find_first (has_reset_token (hash_token env token)) s.users ≡ some u
    → IsStored email u s
    → u.reset_password_expires ≡ some expires
    → now ≤ expires
    → check_pwned_password env password ≡ false
    → is_locked later u ≡ true
    → let after = (reset_password env now token password s).1 in
      login env later email password ip device otp after
      ≡ (err (error (locked_message later u)), after)
unfolding login
login-reset_password env now later token email password ip device otp s u expires found stored until
      fresh safe locked =
    let done = reset-changes env now token password s found stored.1 until fresh safe in
    let here : find_first (has_email email)
          (changed env now token password s found stored.1 until fresh safe).users
        ≡ some (with_password env password u) =
      find_first-update_both (has_user_id u.id) (has_email email) (with_password env password)
        s.users u stored.1 stored.0 (find_first-holds (has_email email) s.users u stored.0) in
    ground (arith, done, here, locked)

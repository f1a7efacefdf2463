-- ===== src/Auth/Reset/Laws.antt =====
-- The password reset: what a link is good for, how often, and what it leaves.
use jhaz_imprints.Common.{
  ℕ, ◌≤◌, String, ◌≡◌, refl, false, none, some, arith, eq_refl, find_first, update_first, count,
  find_first-holds, find_first-update_both, find_first-update_other, ◌==◌, ◌≢◌, eq_iff, true,
  find_first-count_zero, count-update_first, Result-cases, ok, err, error, inl, inr,
}
use jhaz_imprints.Schema.{User, Db}
use jhaz_imprints.Store.{has_user_id, update_user}
use jhaz_imprints.Auth.Env.{Env, Claims, need, check_pwned_password, send_reset_email, changed_mail}
use jhaz_imprints.Auth.Sessions.{hash_token, refresh}
use jhaz_imprints.Auth.Sessions.Rotation.{refresh-stale}
use jhaz_imprints.Auth.Reset.{
  with_password, has_reset_token, reset_password, change_password, user_name,
}

module _ {F : Type 0} (env : Env) (now : ℕ) (token password : String) (s : Db F) {u : User}
    {expires : ℕ} (found : find_first (has_reset_token (hash_token env token)) s.users ≡ some u)
    (known : find_first (has_user_id u.id) s.users ≡ some u)
    (until : u.reset_password_expires ≡ some expires) (fresh : now ≤ expires)
    (safe : check_pwned_password env password ≡ false) where
  -- The state after a good link was used.
  abbrev pub changed : Db F
  changed = record s {
    users = update_first (has_user_id u.id) (with_password env password) s.users;
  }

  pub reset-changes :
      reset_password env now token password s
      ≡ (send_reset_email env u.email (changed_mail (user_name u)), changed)
  unfolding reset_password change_password update_user
  reset-changes = elim (Result-cases (send_reset_email env u.email (changed_mail (user_name u)))) [
    | inl (_, sent) ↦ ground arith
    | inr (e, unsent) ↦ ground arith
  ]

  pub user-changed :
      find_first (has_user_id u.id) changed.users ≡ some (with_password env password u)
  user-changed =
      find_first-update_both (has_user_id u.id) (has_user_id u.id) (with_password env password)
        s.users u known known (eq_refl u.id)

  others-changed :
      (other : String)
      → other ≢ u.id
      → find_first (has_user_id other) changed.users ≡ find_first (has_user_id other) s.users
  others-changed other apart =
      find_first-update_other (has_user_id u.id) (has_user_id other) (with_password env password)
        s.users
        (λ (x : User) (h : (x.id == u.id) ≡ true).
          let e : (x.id == other) ≡ false =
            ground (arith, eq_iff x.id u.id, eq_iff x.id other, apart) in
          (e, e))

  pub token-changed :
      count (has_reset_token (hash_token env token)) s.users ≤ 1
      → find_first (has_reset_token (hash_token env token)) changed.users ≡ none
  token-changed one = find_first-count_zero (has_reset_token (hash_token env token)) changed.users (
      ground (
        arith,
        count-update_first (has_user_id u.id) (has_reset_token (hash_token env token))
            (with_password env password) s.users u known,
        find_first-holds (has_reset_token (hash_token env token)) s.users u found,
      ))

-- A link that is used in time, with a password that is in no known breach, stores the new password,
-- whether or not the mail about it can be sent: the answer is that of the mail, an error if both
-- providers fail. The user's row has the new password's hash, no link and no refresh token, and is
-- otherwise as it was; every other user, all orders and all payments stay.
pub reset_password-changes :
    {F : Type 0} (env : Env) (now : ℕ) (token password : String) (s : Db F) (u : User) (expires : ℕ)
    → find_first (has_reset_token (hash_token env token)) s.users ≡ some u
    → find_first (has_user_id u.id) s.users ≡ some u
    → u.reset_password_expires ≡ some expires
    → now ≤ expires
    → check_pwned_password env password ≡ false
    → let (answer, after) = reset_password env now token password s in
      (answer ≡ send_reset_email env u.email (changed_mail (user_name u)))
      × (find_first (has_user_id u.id) after.users
          ≡ some (record u {
            password = env.hash_password 10 password;
            reset_password_token = none;
            reset_password_expires = none;
            refresh_token = none;
          }))
      × ((other : String)
          → other ≢ u.id
          → find_first (has_user_id other) after.users ≡ find_first (has_user_id other) s.users)
      × (after.payments ≡ s.payments)
      × (after.orders ≡ s.orders)
reset_password-changes env now token password s u expires found known until fresh safe =
    rw (reset-changes env now token password s found known until fresh safe) (
      refl,
      user-changed env now token password s found known until fresh safe,
      others-changed env now token password s found known until fresh safe,
      refl,
      refl,
    )

pub reset-unknown :
    {F : Type 0} (env : Env) (now : ℕ) (token password : String) (s : Db F)
    → find_first (has_reset_token (hash_token env token)) s.users ≡ none
    → reset_password env now token password s
      ≡ (err (error "This password reset link is invalid. Please request a new one."), s)
unfolding reset_password
reset-unknown env now token password s missing = ground arith

-- A link that was used in time is good no more: whatever came of the mail, a second use at any time and with any password is
-- refused and changes nothing, if no two users have the same link.
pub reset_password-once :
    {F : Type 0} (env : Env) (now later : ℕ) (token password other : String) (s : Db F) (u : User)
    (expires : ℕ)
    → find_first (has_reset_token (hash_token env token)) s.users ≡ some u
    → find_first (has_user_id u.id) s.users ≡ some u
    → u.reset_password_expires ≡ some expires
    → now ≤ expires
    → check_pwned_password env password ≡ false
    → count (has_reset_token (hash_token env token)) s.users ≤ 1
    → let after = (reset_password env now token password s).1 in
      reset_password env later token other after
      ≡ (err (error "This password reset link is invalid. Please request a new one."), after)
reset_password-once env now later token password other s u expires found known until fresh safe
      one =
    reset-unknown env later token other (reset_password env now token password s).1 (
      ground (
        arith,
        reset-changes env now token password s found known until fresh safe,
        token-changed env now token password s found known until fresh safe one,
      ))

-- A reset by a link in time, to a password that is in no known breach, ends the sessions: every
-- refresh token that names the user is refused afterwards, and changes nothing.
pub refresh-reset_password :
    {F : Type 0} (env : Env) (now later : ℕ) (token password old secret : String) (s : Db F)
    (u : User) (expires : ℕ)
    → find_first (has_reset_token (hash_token env token)) s.users ≡ some u
    → find_first (has_user_id u.id) s.users ≡ some u
    → u.reset_password_expires ≡ some expires
    → now ≤ expires
    → check_pwned_password env password ≡ false
    → need "REFRESH_TOKEN_SECRET not set" env.refresh_token_secret ≡ ok secret
    → ((c : Claims) → env.verify secret old later ≡ some c → c.id ≡ some u.id)
    → let after = (reset_password env now token password s).1 in
      refresh env later old after ≡ (err (error "Invalid refresh token"), after)
refresh-reset_password env now later token password old secret s u expires found known until fresh
      safe set of =
    let done = reset-changes env now token password s found known until fresh safe in
    refresh-stale env later old secret (reset_password env now token password s).1 set
      (λ c id v decoded named found' has.
        let mine : c.id ≡ some u.id = of c decoded in
        ground (
          arith,
          done,
          mine,
          named,
          found',
          has,
          user-changed env now token password s found known until fresh safe,
        ))

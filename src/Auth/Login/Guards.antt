-- ===== src/Auth/Login/Guards.antt =====
-- Whom `login` and `verifyAdminOtp` let in.
use jhaz_imprints.Common.{
  ℕ, ◌≤◌, ◌<◌, ◌⊎◌, ◌==◌, Bool-cases, String, ◌≡◌, ◌≢◌, sym, subst, true, false, not, ◌&&◌, Option,
  none, some, arith, eq_iff, find_first, update_first, find_first-holds, Option-cases, Result-cases,
  ok, inl, inr, leb,
}
use jhaz_imprints.Schema.{User, Db, admin}
use jhaz_imprints.Store.{has_email, has_user_id, update_user}
use jhaz_imprints.Orders.Notes.{non_empty}
use jhaz_imprints.Auth.Env.{Env, Claims, need}
use jhaz_imprints.Auth.Sessions.{Session, user_data, generate_access_token, generate_refresh_token}
use jhaz_imprints.Auth.Login.{
  logged_in, is_locked, has_lock, trusts, needs_otp, normalize_ip, text_or_empty, login,
  note_wrong_password, ask_otp, let_in, open_session, verify_admin_otp, complete_otp, temp_id,
}

-- The device token is one that the server has signed for this user, and has not expired.
pub record IsTrusted (env : Env) (now : ℕ) (device : Option String) (user : User) : Type 0 where
  pub secret : String
  pub token : String
  pub claims : Claims
  pub set : env.jwt_secret ≡ some secret
  pub given : device ≡ some token
  pub signed : env.verify secret token now ≡ some claims
  pub of_device : claims.is_device_token ≡ true
  pub of_user : claims.user_id ≡ some user.id

module _ (env : Env) (now : ℕ) where
  is_locked-unlocked :
      (u : User)
      → is_locked now u ≡ false
      → (u.locked_until ≡ none) ⊎ ((t : ℕ) × (u.locked_until ≡ some t) × (t ≤ now))
  is_locked-unlocked u h = elim (Option-cases u.locked_until) [
    | inl free ↦ inl free
    | inr (t, until) ↦ inr (t, until, ground arith)
  ]

  has_lock-few :
      (u : User)
      → (leb 20 u.failed_login_attempts && not (has_lock u)) ≡ false
      → (u.failed_login_attempts < 20) ⊎ ((t : ℕ) × (u.locked_until ≡ some t))
  has_lock-few u h = elim (Option-cases u.locked_until) [
    | inl free ↦ inl (ground arith)
    | inr (t, until) ↦ inr (t, until)
  ]

  trusts-IsTrusted :
      (u : User) (device : Option String)
      → trusts env now env.jwt_secret device u.id ≡ true
      → IsTrusted env now device u
  trusts-IsTrusted u device h = elim (Option-cases env.jwt_secret) [
    | inl unset ↦ ground arith
    | inr (secret, set) ↦ elim (Option-cases device) [
      | inl nothing ↦ ground arith
      | inr (token, given) ↦ elim (Option-cases (env.verify secret token now)) [
        | inl bad ↦ ground arith
        | inr (c, signed) ↦ elim (Option-cases c.user_id) [
          | inl nobody ↦ ground arith
          | inr (id, named) ↦ record {
            secret = secret;
            token = token;
            claims = c;
            set = set;
            given = given;
            signed = signed;
            of_device = ground arith;
            of_user = ground (arith, eq_iff id u.id);
          }
        ]
      ]
    ]
  ]

  needs_otp-known :
      (u : User) (ip device : Option String)
      → needs_otp env now u ip device ≡ false
      → (u.role ≢ admin)
        ⊎ ((normalize_ip (text_or_empty u.last_login_ip) ≡ normalize_ip (text_or_empty ip))
            ⊎ IsTrusted env now device u)
  needs_otp-known u ip device h = elim (Bool-cases (trusts env now env.jwt_secret device u.id)) [
    | inl trusted ↦ inr (inr (trusts-IsTrusted u device trusted))
    | inr strange ↦
        let last = normalize_ip (text_or_empty u.last_login_ip) in
        let this = normalize_ip (text_or_empty ip) in
        elim (Bool-cases (last == this)) [
          | inl same ↦ inr (inl ((eq_iff last this).0 same))
          | inr moved ↦ inl (λ is. ground (arith, is, strange, moved, h))
        ]
  ]

module _ {F : Type 0} (env : Env) (now : ℕ) where
  -- What a session by password stands on, and what it stores.
  pub record IsAdmitted (email password : String) (ip device : Option String) (s after : Db F)
      (session : Session) : Type 0 where
    pub user : User
    pub found : find_first (has_email email) s.users ≡ some user
    pub unlocked : (user.locked_until ≡ none) ⊎ ((t : ℕ) × (user.locked_until ≡ some t) × (t ≤ now))
    pub few : (user.failed_login_attempts < 20) ⊎ ((t : ℕ) × (user.locked_until ≡ some t))
    pub right : env.compare password user.password ≡ true
    pub known :
        (user.role ≢ admin)
        ⊎ ((normalize_ip (text_or_empty user.last_login_ip) ≡ normalize_ip (text_or_empty ip))
            ⊎ IsTrusted env now device user)
    pub access : generate_access_token env now user ≡ ok session.access_token
    pub refresh : generate_refresh_token env now user ≡ ok session.refresh_token
    pub stored : after ≡ record s {
      users =
          update_first
            (has_user_id user.id)
            (λ u. record u {
              refresh_token = some (env.sha256 session.refresh_token);
              failed_login_attempts = 0;
              locked_until = none;
              last_login_at = some now;
              last_login_ip = non_empty (some (normalize_ip (text_or_empty ip)));
            })
            s.users;
    }

  let_in-users :
      (ip : Option String) (u : User) (s after : Db F) (session : Session)
      → let_in env now ip u s ≡ (ok (logged_in session), after)
      → (generate_access_token env now u ≡ ok session.access_token)
        × (generate_refresh_token env now u ≡ ok session.refresh_token)
        × (after ≡ record s {
          users =
              update_first
                (has_user_id u.id)
                (λ x. record x {
                  refresh_token = some (env.sha256 session.refresh_token);
                  failed_login_attempts = 0;
                  locked_until = none;
                  last_login_at = some now;
                  last_login_ip = non_empty (some (normalize_ip (text_or_empty ip)));
                })
                s.users;
        })
  unfolding let_in open_session update_user
  let_in-users ip u s after session h = elim (Result-cases (generate_access_token env now u)) [
    | inr (e, bad) ↦ ground arith
    | inl (access, good) ↦ elim (Result-cases (generate_refresh_token env now u)) [
      | inr (e, bad) ↦ ground arith
      | inl (refresh, fine) ↦ (ground arith, ground arith, ground arith)
    ]
  ]

  not_asked :
      (otp : String) (u : User) (s after : Db F) (session : Session)
      → ask_otp env now otp u s ≢ (ok (logged_in session), after)
  unfolding ask_otp
  not_asked otp u s after session h = ground arith

  not_wrong :
      (u : User) (s after : Db F) (session : Session)
      → note_wrong_password env now u s ≢ (ok (logged_in session), after)
  unfolding note_wrong_password
  not_wrong u s after session h = ground arith

-- A session by password is opened only for the user of the address, whose lockout, if any, is over
-- and who has a lockout if there were twenty failures, only for the right password, and for an admin
-- only from the address of the last login or with a device token that was signed for the admin. The session's
-- tokens are the user's own; in the user's row the failures and the lockout are cleared, the hash of
-- the refresh token, the time and the address are stored, and nothing else in the state changes.
pub login-IsAdmitted :
    {F : Type 0} (env : Env) (now : ℕ) (email password : String) (ip device : Option String)
    (otp : String) (s after : Db F) (session : Session)
    → login env now email password ip device otp s ≡ (ok (logged_in session), after)
    → IsAdmitted env now email password ip device s after session
unfolding login
login-IsAdmitted env now email password ip device otp s after session h =
    elim (Option-cases (find_first (has_email email) s.users)) [
      | inl missing ↦ ground arith
      | inr (u, found) ↦
          let inside : let_in env now ip u s ≡ (ok (logged_in session), after) =
            ground (
              arith,
              not_asked env now otp u s after session,
              not_wrong env now u s after session,
            ) in
          let (access, refresh, stored) = let_in-users env now ip u s after session inside in
          record {
            user = u;
            found = found;
            unlocked = is_locked-unlocked env now u (ground arith);
            few = has_lock-few env now u (ground arith);
            right = ground (arith, not_wrong env now u s after session);
            known = needs_otp-known env now u ip device (
                ground (
                  arith,
                  not_asked env now otp u s after session,
                  not_wrong env now u s after session,
                ));
            access = access;
            refresh = refresh;
            stored = stored;
          }
    ]

-- What a session by a mailed code stands on, and what it stores.
pub record IsVerified {F : Type 0} (env : Env) (now : ℕ) (otp ip : String) (s after : Db F)
    (session : Session) : Type 0 where
  pub user : User
  pub expires : ℕ
  pub found : find_first (has_user_id user.id) s.users ≡ some user
  pub is : user.role ≡ admin
  pub asked : user.admin_otp_hash ≡ some (env.sha256 otp)
  pub until : user.admin_otp_expires ≡ some expires
  pub fresh : now ≤ expires
  pub self : session.user ≡ user_data none user
  pub refresh : generate_refresh_token env now user ≡ ok session.refresh_token
  pub stored : after ≡ record s {
    users =
        update_first
          (has_user_id user.id)
          (λ u. record u {
            refresh_token = some (env.sha256 session.refresh_token);
            failed_login_attempts = 0;
            locked_until = none;
            last_login_at = some now;
            last_login_ip = non_empty (some (normalize_ip ip));
            admin_otp_hash = none;
            admin_otp_expires = none;
          })
          s.users;
  }

module _ {F : Type 0} (env : Env) (now : ℕ) (otp ip : String) (s after : Db F)
    (session : Session) where
  complete_otp-IsVerified :
      (u : User)
      → find_first (has_user_id u.id) s.users ≡ some u
      → u.role ≡ admin
      → complete_otp env now otp ip u s ≡ (ok session, after)
      → IsVerified env now otp ip s after session
  unfolding complete_otp update_user
  complete_otp-IsVerified u found is h = elim (Option-cases u.admin_otp_hash) [
    | inl nothing ↦ ground arith
    | inr (hash, asked) ↦ elim (Option-cases u.admin_otp_expires) [
      | inl nothing ↦ ground arith
      | inr (expires, until) ↦ record {
        user = u;
        expires = expires;
        found = found;
        is = is;
        asked = ground (arith, eq_iff hash (env.sha256 otp));
        until = until;
        fresh = ground arith;
        self = ground arith;
        refresh = ground arith;
        stored = ground arith;
      }
    ]
  ]

-- A code opens a session only for an admin to whom it was mailed and whose code has not expired;
-- the admin's row, with the code used up, is all that changes.
pub verify_admin_otp-IsVerified :
    {F : Type 0} (env : Env) (now : ℕ) (temp_token otp ip : String) (s after : Db F)
    (session : Session)
    → verify_admin_otp env now temp_token otp ip s ≡ (ok session, after)
    → IsVerified env now otp ip s after session
unfolding verify_admin_otp
verify_admin_otp-IsVerified env now temp_token otp ip s after session h =
    elim (Result-cases (need "JWT_SECRET not set" env.jwt_secret)) [
      | inr (e, bad) ↦ ground arith
      | inl (secret, set) ↦ elim (Option-cases (env.verify secret temp_token now)) [
        | inl bad ↦ ground arith
        | inr (c, decoded) ↦ elim (Option-cases (temp_id c)) [
          | inl bad ↦ ground arith
          | inr (id, named) ↦ elim (Option-cases (find_first (has_user_id id) s.users)) [
            | inl missing ↦ ground arith
            | inr (u, found) ↦
                let own : u.id ≡ id =
                  ground (arith, eq_iff u.id id, find_first-holds (has_user_id id) s.users u) in
                complete_otp-IsVerified env now otp ip s after session u
                  (subst (λ i. find_first (has_user_id i) s.users ≡ some u) (sym own) found)
                  (ground arith) (ground arith)
          ]
        ]
      ]
    ]

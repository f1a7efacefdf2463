-- ===== src/Auth/Sessions.antt =====
-- The tokens of authService.ts, and `register`, `refresh`, `logout` and `updateProfile`.
pub mod Rotation
pub mod Accounts
use jhaz_imprints.Common.{
  ℕ, ◌*◌, String, Bool, true, false, Option, none, some, List, [], ◌∷◌, ◌++◌, ◌==◌, if◌then◌else◌,
  or_default, find_first, Result, ok, err, error, Failure, Exec, pure, throw, lift, gets, or_throw,
  attempt, modify, guard, ◌>>=◌, ◌>>◌, not,
}
use jhaz_imprints.Schema.{Role, customer, User, Db}
use jhaz_imprints.Store.{has_email, has_user_id, update_user}
use jhaz_imprints.Auth.Env.{Env, Claims, need, check_pwned_password}

-- The user that a call answers with. `register` and `refresh` show the state of the lockout too.
pub record UserData : Type 0 where
  pub id : String
  pub email : String
  pub phone : Option String
  pub first_name : Option String
  pub last_name : Option String
  pub role : Role
  pub last_login_at : Option ℕ
  pub last_login_ip : Option String
  pub reset_password_token : Option String
  pub reset_password_expires : Option ℕ
  pub admin_otp_hash : Option String
  pub admin_otp_expires : Option ℕ
  pub lockout : Option (ℕ × Option ℕ)

pub record Session : Type 0 where
  pub user : UserData
  pub access_token : String
  pub refresh_token : String

pub record RegisterData : Type 0 where
  pub email : String
  pub password : String
  pub first_name : Option String
  pub last_name : Option String

abbrev pub user_data : Option (ℕ × Option ℕ) → User → UserData
user_data lockout u = record {
  id = u.id;
  email = u.email;
  phone = u.phone;
  first_name = u.first_name;
  last_name = u.last_name;
  role = u.role;
  last_login_at = u.last_login_at;
  last_login_ip = u.last_login_ip;
  reset_password_token = u.reset_password_token;
  reset_password_expires = u.reset_password_expires;
  admin_otp_hash = u.admin_otp_hash;
  admin_otp_expires = u.admin_otp_expires;
  lockout = lockout;
}

abbrev pub with_lockout : User → UserData
with_lockout u = user_data (some (u.failed_login_attempts, u.locked_until)) u

abbrev pub minutes : ℕ → ℕ
minutes n = n * 60000

abbrev pub claims : User → Claims
claims u = record {
  id = some u.id;
  email = some u.email;
  role = some u.role;
  user_id = none;
  is_temp = false;
  is_device_token = false;
}

abbrev pub signed : (secret : Result String) → (String → String) → Result String
signed (ok secret) sign = ok (sign secret)
signed (err e) sign = err e

module _ (env : Env) (now : ℕ) where
  unfoldable pub generate_access_token : User → Result String
  generate_access_token u =
      signed (need "JWT_SECRET not set" env.jwt_secret)
        (λ secret. env.sign secret (claims u) now (minutes 5))

  unfoldable pub generate_refresh_token : User → Result String
  generate_refresh_token u =
      signed (need "REFRESH_TOKEN_SECRET not set" env.refresh_token_secret)
        (λ secret. env.sign secret (claims u) now (minutes 30))

-- `hashToken`
abbrev pub hash_token : Env → String → String
hash_token env token = env.sha256 token

abbrev pub with_token : Env → String → User → User
with_token env token u = record u { refresh_token = some (hash_token env token) }

abbrev pub without_token : User → User
without_token u = record u { refresh_token = none }

abbrev pub new_user : Env → String → RegisterData → User
new_user env id data' = record {
  id = id;
  email = data'.email;
  phone = none;
  first_name = data'.first_name;
  last_name = data'.last_name;
  password = env.hash_password 10 data'.password;
  role = customer;
  refresh_token = none;
  failed_login_attempts = 0;
  locked_until = none;
  reset_password_token = none;
  reset_password_expires = none;
  last_login_at = none;
  last_login_ip = none;
  admin_otp_hash = none;
  admin_otp_expires = none;
}

module _ {F : Type 0} where
  abbrev pub insert_user : User → Db F → Db F
  insert_user u s = record s { users = s.users ++ u ∷ [] }

  -- `findUnique({ where: { email } })` finds nobody, or the call throws.
  abbrev refuse_taken : Option User → Exec (Db F) Unit
  refuse_taken none = pure tt
  refuse_taken (some u) =
      throw (error "If this address is available, your account has been created.")

abbrev pub token_matches : Env → String → Option User → Option User
token_matches env token none = none
token_matches env token (some u) = elim u.refresh_token [
  | none ↦ none
  | some stored ↦
      if stored == "" then none else if stored == hash_token env token then some u else none
]

-- `decoded.id`; a payload without an id finds nobody, for Prisma throws.
abbrev pub user_of : Option String → List User → Option User
user_of none users = none
user_of (some id) users = find_first (has_user_id id) users

abbrev key_of : Option String → User → Bool
key_of none u = false
key_of (some id) u = has_user_id id u

module _ {F : Type 0} (env : Env) (now : ℕ) where
  -- The account is created before its tokens are: a missing secret leaves it there.
  unfoldable pub register : String → RegisterData → Exec (Db F) Session
  register id input = do
    existing ← gets (λ s. find_first (has_email input.email) s.users)
    refuse_taken existing
    guard (not (check_pwned_password env input.password))
        (error "This password has appeared in a data breach. Please choose a different one.")
    let user = new_user env id input
    modify (insert_user user)
    access ← lift (generate_access_token env now user)
    refresh ← lift (generate_refresh_token env now user)
    update_user (has_user_id id) (with_token env refresh)
    pure (record { user = with_lockout user; access_token = access; refresh_token = refresh })

  rotate : String → String → Exec (Db F) Session
  rotate secret token = do
    decoded ← or_throw (error "jwt") (env.verify secret token now)
    found ← gets (λ s. user_of decoded.id s.users)
    user ← or_throw (error "Invalid refresh token") (token_matches env token found)
    access ← lift (generate_access_token env now user)
    refresh ← lift (generate_refresh_token env now user)
    update_user (has_user_id user.id) (with_token env refresh)
    pure (record { user = with_lockout user; access_token = access; refresh_token = refresh })

  unfoldable pub refresh : String → Exec (Db F) Session
  unfolding rotate
  refresh token = do
    secret ← lift (need "REFRESH_TOKEN_SECRET not set" env.refresh_token_secret)
    attempt (rotate secret token) (λ e. throw (error "Invalid refresh token"))

  forget : String → String → Exec (Db F) Unit
  forget secret token = do
    decoded ← or_throw (error "jwt") (env.verify secret token now)
    update_user (key_of decoded.id) without_token
    pure tt

  -- A token that is no longer good counts as logged out.
  unfoldable pub logout : String → Exec (Db F) Unit
  unfolding forget
  logout token = do
    secret ← lift (need "REFRESH_TOKEN seed not set" env.refresh_token_secret)
    attempt (forget secret token) (λ e. pure tt)

-- The columns that `updateProfile` selects.
pub record Profile : Type 0 where
  pub id : String
  pub email : String
  pub first_name : Option String
  pub last_name : Option String
  pub role : Role

abbrev pub renamed : Option String → Option String → User → User
renamed first last u = record u {
  first_name = elim first [ none ↦ u.first_name | some n ↦ some n ];
  last_name = elim last [ none ↦ u.last_name | some n ↦ some n ];
}

unfoldable pub update_profile :
    {F : Type 0} → String → Option String → Option String → Exec (Db F) Profile
update_profile id first last = do
  u ← update_user (has_user_id id) (renamed first last)
  pure (record {
    id = u.id;
    email = u.email;
    first_name = u.first_name;
    last_name = u.last_name;
    role = u.role;
  })

-- ===== src/Auth/Tests.antt =====
-- The theorems on accounts at concrete data: a customer with a session, an open reset link and some
-- failures, and an admin to whom a code was mailed.
use Prim.Native.String
use jhaz_imprints.Common.{
  ℕ, ◌≤◌, String, ◌≡◌, ◌≢◌, ◌≢◌, refl, true, false, none, some, List, [], ◌∷◌, ◌==◌, if◌then◌else◌,
  arith, eq_iff, ok, err, error, find_first, count,
}
use jhaz_imprints.Common.Text.{decimal, trim, slice_from, slice_to, first_part, is_positive}
use jhaz_imprints.Schema.{User, Db, customer, admin}
use jhaz_imprints.Store.{has_email, has_user_id, update_user}
use jhaz_imprints.Auth.Env.{Env, Claims, check_pwned_password, send_reset_email, changed_mail}
use jhaz_imprints.Auth.Sessions.{
  Session, RegisterData, claims, user_data, with_lockout, register, refresh, logout,
  generate_access_token, generate_refresh_token,
}
use jhaz_imprints.Auth.Sessions.Rotation.{IsStable, refresh-once}
use jhaz_imprints.Auth.Sessions.Accounts.{register_unique}
use jhaz_imprints.Auth.Login.{logged_in, login, verify_admin_otp, complete_otp, normalize_ip}
use jhaz_imprints.Auth.Login.Guards.{
  IsAdmitted, IsVerified, login-IsAdmitted, verify_admin_otp-IsVerified,
}
use jhaz_imprints.Auth.Login.Throttle.{Try, attempt_all, guesses_bounded}
use jhaz_imprints.Auth.Reset.{reset_password, request_password_reset, user_name}
use jhaz_imprints.Auth.Reset.Laws.{reset_password-changes, refresh-reset_password}
use jhaz_imprints.Auth.Reset.Links.{reset_password-request}

abbrev ann : User
ann = record {
  id = "u1";
  email = "ann@shop";
  phone = none;
  first_name = some "Ann";
  last_name = none;
  password = "$secret";
  role = customer;
  refresh_token = some "#r0";
  failed_login_attempts = 3;
  locked_until = none;
  reset_password_token = some "#link";
  reset_password_expires = some 900000;
  last_login_at = none;
  last_login_ip = none;
  admin_otp_hash = none;
  admin_otp_expires = none;
}

abbrev ada : User
ada = record ann {
  id = "u2";
  email = "ada@shop";
  role = admin;
  refresh_token = none;
  reset_password_token = none;
  reset_password_expires = none;
  admin_otp_hash = some "#123456";
  admin_otp_expires = some 300000;
}

abbrev temp : Claims
temp = record (claims ada) { is_temp = true }

-- Refresh tokens name Ann, the token "temp" names Ada.
abbrev env : Env
env = record {
  jwt_secret = some "k";
  refresh_token_secret = some "q";
  production = false;
  admin_frontend_url = none;
  frontend_url = none;
  sha256 = λ s. String.◌++◌ "#" s;
  sha1 = λ s. s;
  hash_password = λ rounds s. String.◌++◌ "$" s;
  compare = λ s hash. hash == String.◌++◌ "$" s;
  sign = λ secret c now lifetime. String.◌++◌ "r" (decimal now);
  verify = λ secret token now. if token == "temp" then some temp else some (claims ann);
  fetch_range = λ prefix. some ("FFFFF:7" ∷ []);
  resend = none;
  smtp = some (λ to mail. true);
}

abbrev db : Db ℕ
db = record {
  users = ann ∷ ada ∷ [];
  measurements = [];
  orders = [];
  payments = [];
  history = [];
  jobs = [];
}

abbrev session_at : ℕ → Session
session_at now = record {
  user = with_lockout ann;
  access_token = String.◌++◌ "r" (decimal now);
  refresh_token = String.◌++◌ "r" (decimal now);
}

abbrev inside : ℕ → User → Session
inside now u = record (session_at now) { user = user_data none u }

run : Unit {0}
unfolding login verify_admin_otp complete_otp refresh logout generate_access_token
    generate_refresh_token update_user decimal normalize_ip trim check_pwned_password slice_from
    slice_to first_part is_positive send_reset_email reset_password request_password_reset
run = tt

logs_in :
    login env 7 "ann@shop" "secret" none none "" db
    ≡ (ok (logged_in (inside 7 ann)), (login env 7 "ann@shop" "secret" none none "" db).1)
unfolding run
logs_in = refl

login-IsAdmitted_example :
    IsAdmitted env 7 "ann@shop" "secret" none none db
      (login env 7 "ann@shop" "secret" none none "" db).1
      (inside 7 ann)
login-IsAdmitted_example =
    login-IsAdmitted env 7 "ann@shop" "secret" none none "" db
      (login env 7 "ann@shop" "secret" none none "" db).1 (inside 7 ann) logs_in

abbrev guess : ℕ → Try
guess now = record { time = now; password = "guess"; ip = none; device = none; otp = "" }

abbrev guesses : List Try
guesses = guess 10 ∷ guess 11 ∷ guess 12 ∷ guess 13 ∷ []

guesses_bounded_example :
    (u : User) × (find_first (has_email "ann@shop") (attempt_all env "ann@shop" guesses db).users
      ≡ some u)
    × (u.failed_login_attempts ≤ 5)
guesses_bounded_example =
    guesses_bounded env "ann@shop" 10 guesses db ann (omega arith) (refl, refl)
      (
        omega arith,
        omega arith,
        refl,
        (
          omega arith,
          omega arith,
          refl,
          (omega arith, omega arith, refl, (omega arith, omega arith, refl, tt)),
        ),
      )

verified :
    verify_admin_otp env 7 "temp" "123456" "1.2.3.4" db
    ≡ (ok (inside 7 ada), (verify_admin_otp env 7 "temp" "123456" "1.2.3.4" db).1)
unfolding run
verified = refl

abbrev after_code : Db ℕ
after_code = (verify_admin_otp env 7 "temp" "123456" "1.2.3.4" db).1

verify_admin_otp-IsVerified_example :
    IsVerified env 7 "123456" "1.2.3.4" db after_code (inside 7 ada)
verify_admin_otp-IsVerified_example =
    verify_admin_otp-IsVerified env 7 "temp" "123456" "1.2.3.4" db after_code (inside 7 ada)
      verified

names_ada : (secret : String) (c : Claims) → env.verify secret "temp" 8 ≡ some c → c.id ≡ some "u2"
names_ada secret c h = ground arith

refreshes : refresh env 7 "r0" db ≡ (ok (session_at 7), (refresh env 7 "r0" db).1)
unfolding run
refreshes = refl

stable : IsStable env "r0"
stable secret now later c c' h h' = ground arith

new_hash : env.sha256 (session_at 7).refresh_token ≢ env.sha256 "r0"
unfolding run
new_hash h = ground (arith, eq_iff "#r7" "#r0")

refresh-once_example :
    refresh env 8 "r0" (refresh env 7 "r0" db).1
    ≡ (err (error "Invalid refresh token"), (refresh env 7 "r0" db).1)
refresh-once_example =
    refresh-once env 7 8 "r0" db (refresh env 7 "r0" db).1 (session_at 7) stable refreshes new_hash

names_ann : (now : ℕ) (c : Claims) → env.verify "q" "r0" now ≡ some c → c.id ≡ some "u1"
names_ann now c h = ground arith

unbreached : check_pwned_password env "better" ≡ false
unfolding run
unbreached = refl

reset_password-changes_example :
    let (answer, after) = reset_password env 7 "link" "better" db in
    (answer ≡ send_reset_email env "ann@shop" (changed_mail (user_name ann)))
    × (find_first (has_user_id "u1") after.users
        ≡ some (record ann {
          password = env.hash_password 10 "better";
          reset_password_token = none;
          reset_password_expires = none;
          refresh_token = none;
        }))
    × ((other : String)
        → other ≢ "u1"
        → find_first (has_user_id other) after.users ≡ find_first (has_user_id other) db.users)
    × (after.payments ≡ [])
    × (after.orders ≡ [])
reset_password-changes_example =
    reset_password-changes env 7 "link" "better" db ann 900000 refl refl refl (omega arith)
      unbreached

refresh-reset_password_example :
    refresh env 8 "r0" (reset_password env 7 "link" "better" db).1
    ≡ (err (error "Invalid refresh token"), (reset_password env 7 "link" "better" db).1)
refresh-reset_password_example =
    refresh-reset_password env 7 8 "link" "better" "r0" "q" db ann 900000 refl refl refl
      (omega arith) unbreached refl (names_ann 8)

reset_password-request_example :
    find_first
      (has_user_id "u2")
      (reset_password env 9 "new" "better"
        (request_password_reset env 7 "new" "ada@shop" db).1).1.users
    ≡ some (record ada {
      password = env.hash_password 10 "better";
      reset_password_token = none;
      reset_password_expires = none;
      refresh_token = none;
    })
reset_password-request_example =
    reset_password-request env 7 9 "new" "ada@shop" "better" db ada (refl, refl) refl (omega arith)
      unbreached

abbrev locked : User
locked = record ann { locked_until = some 1000000 }

abbrev eve : RegisterData
eve = record { email = "eve@shop"; password = "long enough"; first_name = none; last_name = none }

register_unique_example : count (has_email "eve@shop") (register env 7 "u3" eve db).1.users ≤ 1
register_unique_example = register_unique env 7 "u3" "eve@shop" eve db (omega arith)

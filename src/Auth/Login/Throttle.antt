-- ===== src/Auth/Login/Throttle.antt =====
-- How often `login` lets somebody guess a password.
use jhaz_imprints.Common.{
  ℕ, ◌+◌, ◌≤◌, ◌<◌, String, ◌≡◌, sym, subst, false, not, ◌&&◌, ◌⊎◌, Option, some, List, [], ◌∷◌,
  arith, if◌then◌else◌, find_first, update_first, find_first-update_both, find_first-holds, eq_refl,
  Bool-cases, inl, inr, leb,
}
use jhaz_imprints.Schema.{User, Db}
use jhaz_imprints.Store.{has_email, has_user_id, update_user}
use jhaz_imprints.Auth.Env.{Env}
use jhaz_imprints.Auth.Sessions.{minutes}
use jhaz_imprints.Auth.Login.{
  is_locked, has_lock, with_failure, forever, login, note_wrong_password,
}

-- One attempt at an account.
pub record Try : Type 0 where
  pub time : ℕ
  pub password : String
  pub ip : Option String
  pub device : Option String
  pub otp : String

abbrev pub attempt_all : {F : Type 0} → Env → String → List Try → Db F → Db F
attempt_all env email [] s = s
attempt_all env email (t ∷ ts) s =
    attempt_all env email ts (login env t.time email t.password t.ip t.device t.otp s).1

-- The attempts fall into a quarter of an hour, and none has the right password.
abbrev pub AreGuesses : Env → ℕ → String → List Try → Type 0
AreGuesses env start hash [] = Unit
AreGuesses env start hash (t ∷ ts) =
    (start ≤ t.time)
    × (t.time < start + minutes 15)
    × (env.compare t.password hash ≡ false)
    × AreGuesses env start hash ts

abbrev pub IsStored : {F : Type 0} → String → User → Db F → Type 0
IsStored email u s =
    (find_first (has_email email) s.users ≡ some u)
    × (find_first (has_user_id u.id) s.users ≡ some u)

-- An account at which no guess is left for the rest of the time, or the count may still rise.
abbrev IsThrottled : ℕ → ℕ → User → Type 0
IsThrottled start most u =
    (u.failed_login_attempts ≤ most)
    × ((u.failed_login_attempts < most)
        ⊎ ((t : ℕ) × (u.locked_until ≡ some t) × (start + minutes 15 ≤ t)))

module _ {F : Type 0} (env : Env) (email : String) (t : Try) (s : Db F) (u : User)
    (stored : IsStored email u s) where
  -- A wrong password is counted, unless the account is locked.
  login-wrong :
      env.compare t.password u.password ≡ false
      → ((login env t.time email t.password t.ip t.device t.otp s).1 ≡ s)
        ⊎ ((is_locked t.time u ≡ false)
            × ((login env t.time email t.password t.ip t.device t.otp s).1 ≡ record s {
              users = update_first (has_user_id u.id) (with_failure t.time) s.users;
            }))
  unfolding login note_wrong_password update_user
  login-wrong wrong = elim (Bool-cases (is_locked t.time u)) [
    | inl locked ↦ inl (ground (arith, stored))
    | inr opened ↦ elim (Bool-cases (leb 20 u.failed_login_attempts && not (has_lock u))) [
      | inl never ↦ inl (ground (arith, stored))
      | inr may ↦ inr (opened, ground (arith, stored))
    ]
  ]

  with_failure-IsStored :
      (now : ℕ)
      → IsStored email
          (with_failure now u)
          (record s { users = update_first (has_user_id u.id) (with_failure now) s.users })
  with_failure-IsStored now = (
    find_first-update_both (has_user_id u.id) (has_email email) (with_failure now) s.users u
        stored.1 stored.0 (find_first-holds (has_email email) s.users u stored.0),
    find_first-update_both (has_user_id u.id) (has_user_id u.id) (with_failure now) s.users u
        stored.1 stored.1 (eq_refl u.id),
  )

with_failure-IsThrottled :
    (start most : ℕ) (u : User) (now : ℕ)
    → 5 ≤ most
    → start + minutes 15 ≤ forever
    → start ≤ now
    → now < start + minutes 15
    → is_locked now u ≡ false
    → IsThrottled start most u
    → IsThrottled start most (with_failure now u)
with_failure-IsThrottled start most u now five early from to opened (few, inr (t, locked, long)) =
    ground arith
with_failure-IsThrottled start most u now five early from to opened (few, inl less) =
    elim (Bool-cases (leb 20 (u.failed_login_attempts + 1))) [
      | inl a ↦ (omega arith, inr (forever, ground arith, early))
      | inr a ↦ elim (Bool-cases (leb 10 (u.failed_login_attempts + 1))) [
        | inl b ↦ (omega arith, inr (now + minutes 60, ground arith, omega arith))
        | inr b ↦ elim (Bool-cases (leb 5 (u.failed_login_attempts + 1))) [
          | inl c ↦ (omega arith, inr (now + minutes 15, ground arith, omega arith))
          | inr c ↦ (omega arith, inl (ground arith))
        ]
      ]
    ]

abbrev EndsBelow : {F : Type 0} → Env → String → List Try → ℕ → Db F → Type 0
EndsBelow env email ts most s =
    (u' : User) × (find_first (has_email email) (attempt_all env email ts s).users ≡ some u')
    × (u'.failed_login_attempts ≤ most)

guesses-IsThrottled :
    {F : Type 0} (env : Env) (email : String) (start most : ℕ) (ts : List Try) (s : Db F) (u : User)
    → 5 ≤ most
    → start + minutes 15 ≤ forever
    → IsStored email u s
    → IsThrottled start most u
    → AreGuesses env start u.password ts
    → EndsBelow env email ts most s
guesses-IsThrottled env email start most [] s u five early stored few _ = (u, stored.0, few.0)
guesses-IsThrottled {F} env email start most (t ∷ ts) s u five early stored few
      (from, to, wrong, rest) =
    elim (login-wrong env email t s u stored wrong) [
      | inl same ↦
          subst (EndsBelow env email ts most) (sym same)
            (guesses-IsThrottled env email start most ts s u five early stored few rest)
      | inr (opened, counted) ↦
          let next : Db F = record s {
            users = update_first (has_user_id u.id) (with_failure t.time) s.users;
          } in
          subst (EndsBelow env email ts most) (sym counted) (
            guesses-IsThrottled env email start most ts next (with_failure t.time u) five early
              (with_failure-IsStored env email t s u stored t.time)
              (with_failure-IsThrottled start most u t.time five early from to opened few) rest)
    ]

-- The number of guesses that a quarter of an hour leaves from a number of failures on.
abbrev pub most_failures : ℕ → ℕ
most_failures fails = if leb 5 fails then fails + 1 else 5

-- In any quarter of an hour before the year 10000, however many wrong passwords are tried at a
-- stored account, from whatever addresses and devices, its count of failures ends at 5 at most, or
-- at most at one above what it was before if that was 5 or more.
pub guesses_bounded :
    {F : Type 0} (env : Env) (email : String) (start : ℕ) (ts : List Try) (s : Db F) (u : User)
    → start + minutes 15 ≤ forever
    → IsStored email u s
    → AreGuesses env start u.password ts
    → (u' : User) × (find_first (has_email email) (attempt_all env email ts s).users ≡ some u')
      × (u'.failed_login_attempts ≤ most_failures u.failed_login_attempts)
guesses_bounded env email start ts s u early stored guesses =
    guesses-IsThrottled env email start (most_failures u.failed_login_attempts) ts s u
      (ground arith) early stored (ground arith) guesses

-- ===== src/Auth/Sessions/Rotation.antt =====
-- Refresh tokens: which are good, how often, and until when.
use jhaz_imprints.Common.{
  ℕ, String, ◌≡◌, ◌≢◌, refl, none, some, arith, eq_iff, find_first, update_first, find_first-holds,
  find_first-update_first, Option-cases, Result-cases, ok, err, error, inl, inr,
}
use jhaz_imprints.Schema.{User, Db}
use jhaz_imprints.Store.{has_user_id, update_user}
use jhaz_imprints.Auth.Env.{Env, Claims, need}
use jhaz_imprints.Auth.Sessions.{
  Session, hash_token, with_token, without_token, generate_access_token, generate_refresh_token,
  token_matches, rotate, refresh, forget, logout,
}

-- The payload of a token does not depend on when it is read.
abbrev pub IsStable : Env → String → Type 0
IsStable env token =
    (secret : String) (now later : ℕ) (c c' : Claims)
    → env.verify secret token now ≡ some c
    → env.verify secret token later ≡ some c'
    → c ≡ c'

-- What a refresh stands on, and what it stores.
pub record IsCurrent {F : Type 0} (env : Env) (now : ℕ) (token : String) (s after : Db F)
    (session : Session) : Type 0 where
  pub user : User
  pub id : String
  pub claims : Claims
  pub secret : String
  pub set : need "REFRESH_TOKEN_SECRET not set" env.refresh_token_secret ≡ ok secret
  pub decoded : env.verify secret token now ≡ some claims
  pub named : claims.id ≡ some id
  pub found : find_first (has_user_id id) s.users ≡ some user
  pub current : user.refresh_token ≡ some (hash_token env token)
  pub access : generate_access_token env now user ≡ ok session.access_token
  pub renewed : generate_refresh_token env now user ≡ ok session.refresh_token
  pub stored : after ≡ record s {
    users = update_first (has_user_id user.id) (with_token env session.refresh_token) s.users;
  }

module _ {F : Type 0} (env : Env) (now : ℕ) (token : String) (s : Db F) where
  matched :
      (id : String) (u v : User)
      → token_matches env token (some u) ≡ some v
      → (u ≡ v) × (u.refresh_token ≡ some (hash_token env token))
  matched id u v h = elim (Option-cases u.refresh_token) [
    | inl nothing ↦ ground arith
    | inr (stored, has) ↦ (ground arith, ground (arith, eq_iff stored (hash_token env token)))
  ]

  rotated :
      (secret : String) (c : Claims) (id : String) (u : User) (session : Session) (after : Db F)
      → need "REFRESH_TOKEN_SECRET not set" env.refresh_token_secret ≡ ok secret
      → env.verify secret token now ≡ some c
      → c.id ≡ some id
      → find_first (has_user_id id) s.users ≡ some u
      → rotate env now secret token s ≡ (ok session, after)
      → IsCurrent env now token s after session
  unfolding rotate update_user
  rotated secret c id u session after set decoded named found h =
      elim (Option-cases (token_matches env token (some u))) [
        | inl wrong ↦ ground arith
        | inr (v, fits) ↦
            let (same, current) = matched id u v fits in
            record {
              user = u;
              id = id;
              claims = c;
              secret = secret;
              set = set;
              decoded = decoded;
              named = named;
              found = found;
              current = current;
              access = ground arith;
              renewed = ground arith;
              stored = ground arith;
            }
      ]

pub refresh-IsCurrent :
    {F : Type 0} (env : Env) (now : ℕ) (token : String) (s after : Db F) (session : Session)
    → refresh env now token s ≡ (ok session, after)
    → IsCurrent env now token s after session
unfolding refresh
refresh-IsCurrent env now token s after session h =
    elim (Result-cases (need "REFRESH_TOKEN_SECRET not set" env.refresh_token_secret)) [
      | inr (e, bad) ↦ ground arith
      | inl (secret, set) ↦ elim (Option-cases (env.verify secret token now)) [
        | inl bad ↦ unfold rotate in ground arith
        | inr (c, decoded) ↦ elim (Option-cases c.id) [
          | inl nobody ↦ unfold rotate in ground arith
          | inr (id, named) ↦ elim (Option-cases (find_first (has_user_id id) s.users)) [
            | inl missing ↦ unfold rotate in ground arith
            | inr (u, found) ↦
                rotated env now token s secret c id u session after set decoded named found
                  (ground arith)
          ]
        ]
      ]
    ]

-- The user whom a token names has another token.
abbrev pub IsStale : {F : Type 0} → Env → ℕ → String → String → Db F → Type 0
IsStale env now secret token s =
    (c : Claims) (id : String) (u : User)
    → env.verify secret token now ≡ some c
    → c.id ≡ some id
    → find_first (has_user_id id) s.users ≡ some u
    → u.refresh_token ≢ some (hash_token env token)

module _ {F : Type 0} (env : Env) (now : ℕ) (token secret : String) (s : Db F) where
  unmatched :
      (u : User)
      → u.refresh_token ≢ some (hash_token env token)
      → token_matches env token (some u) ≡ none
  unmatched u other = elim (Option-cases u.refresh_token) [
    | inl nothing ↦ ground arith
    | inr (stored, has) ↦ ground (arith, eq_iff stored (hash_token env token))
  ]

  pub refresh-stale :
      need "REFRESH_TOKEN_SECRET not set" env.refresh_token_secret ≡ ok secret
      → IsStale env now secret token s
      → refresh env now token s ≡ (err (error "Invalid refresh token"), s)
  unfolding refresh rotate
  refresh-stale set stale = elim (Option-cases (env.verify secret token now)) [
    | inl bad ↦ ground arith
    | inr (c, decoded) ↦ elim (Option-cases c.id) [
      | inl nobody ↦ ground arith
      | inr (id, named) ↦ elim (Option-cases (find_first (has_user_id id) s.users)) [
        | inl missing ↦ ground arith
        | inr (u, found) ↦ ground (arith, unmatched u (stale c id u decoded named found))
      ]
    ]
  ]

-- A refresh token is good once: after a refresh, the same token is refused at any later time and
-- changes nothing, if the hash of the new token is another one and the token's payload does not
-- depend on when it is read.
pub refresh-once :
    {F : Type 0} (env : Env) (now later : ℕ) (token : String) (s after : Db F) (session : Session)
    → IsStable env token
    → refresh env now token s ≡ (ok session, after)
    → env.sha256 session.refresh_token ≢ env.sha256 token
    → refresh env later token after ≡ (err (error "Invalid refresh token"), after)
refresh-once env now later token s after session stable h fresh =
    let was = refresh-IsCurrent env now token s after session h in
    refresh-stale env later token was.secret after was.set (λ c id u decoded named found e.
      let same : was.claims ≡ c = stable was.secret now later was.claims c was.decoded decoded in
      let here : was.id ≡ id = ground (arith, same, was.named, named) in
      let own : was.user.id ≡ was.id = ground (
        arith,
        eq_iff was.user.id was.id,
        find_first-holds (has_user_id was.id) s.users was.user was.found,
      ) in
      fresh (
        ground (
          arith,
          here,
          own,
          was.found,
          was.stored,
          find_first-update_first (has_user_id was.user.id) (with_token env session.refresh_token)
              s.users (λ u. refl),
        )))

module _ {F : Type 0} (env : Env) (now : ℕ) (token secret : String) (s : Db F) (c : Claims)
    (id : String) (u : User) where
  logout-forgets :
      need "REFRESH_TOKEN_SECRET not set" env.refresh_token_secret ≡ ok secret
      → env.verify secret token now ≡ some c
      → c.id ≡ some id
      → find_first (has_user_id id) s.users ≡ some u
      → logout env now token s
        ≡ (ok tt, record s { users = update_first (has_user_id id) without_token s.users })
  unfolding logout forget update_user
  logout-forgets set decoded named found = elim (Option-cases env.refresh_token_secret) [
    | inl missing ↦ ground arith
    | inr (k, has) ↦ ground (arith, eq_iff k "")
  ]

-- After a logout with a token that verifies and names a stored user, every refresh token that names
-- this user is refused at any later time, and changes nothing.
pub refresh-logout :
    {F : Type 0} (env : Env) (now later : ℕ) (token other secret : String) (s : Db F) (c : Claims)
    (id : String) (u : User)
    → need "REFRESH_TOKEN_SECRET not set" env.refresh_token_secret ≡ ok secret
    → env.verify secret token now ≡ some c
    → c.id ≡ some id
    → find_first (has_user_id id) s.users ≡ some u
    → ((c' : Claims) → env.verify secret other later ≡ some c' → c'.id ≡ some id)
    → let after = (logout env now token s).1 in
      refresh env later other after ≡ (err (error "Invalid refresh token"), after)
refresh-logout env now later token other secret s c id u set decoded named found of =
    let out = logout-forgets env now token secret s c id u set decoded named found in
    refresh-stale env later other secret (logout env now token s).1 set
      (λ c' id' u' decoded' named' found' has.
        let mine : c'.id ≡ some id = of c' decoded' in
        ground (
          arith,
          out,
          mine,
          named',
          found',
          has,
          found,
          find_first-update_first (has_user_id id) without_token s.users (λ x. refl),
        ))

-- ===== src/Guards.antt =====
-- The guards in front of the routes: middleware/authenticate.ts and authorize.ts of packages/api, of
-- which packages/catalog-service has copies.
pub mod Chain
mod Tests
use jhaz_imprints.Common.{
  ℕ, String, Bool, true, false, ◌&&◌, Option, none, some, List, [], ◌∷◌, ◌==◌, if◌then◌else◌, any,
  or_default, find_first,
}
use jhaz_imprints.Orders.Notes.{non_empty}

-- A header: absent, given once, or given several times.
pub data Header : Type 0 where
  absent : Header
  one : String → Header
  many : List String → Header

-- The user that the gateway vouches for. The role is whatever text it sends.
pub record RequestUser : Type 0 where
  pub id : String
  pub email : String
  pub role : String

pub record Request : Type 0 where
  pub path : String
  pub internal_secret : Header
  pub user_id : Option String
  pub user_role : Option String
  pub user_email : Option String
  pub user : Option RequestUser

-- A guard lets the request through, perhaps with its user set, or answers it.
pub data Outcome : Type 0 where
  next : Request → Outcome
  answer : (status : ℕ) (type : String) → Outcome

unfoldable pub verify_secret : Option String → Header → Bool
verify_secret none incoming = false
verify_secret (some secret) absent = false
verify_secret (some secret) (many values) = false
verify_secret (some secret) (one value) =
    if secret == "" then false else if value == "" then false else value == secret

abbrev with_user : Request → Option String → Option String → Outcome
with_user r (some id) (some role) =
    next (record r {
      user = some (record { id = id; email = or_default r.user_email ""; role = role });
    })
with_user r _ _ = answer 401 "AUTHENTICATION_FAILED"

unfoldable pub authenticate : Option String → Request → Outcome
authenticate secret r =
    if verify_secret secret r.internal_secret
    then with_user r (non_empty r.user_id) (non_empty r.user_role)
    else answer 403 "GATEWAY_BYPASS_DETECTED"

abbrev is_health : String → Bool
is_health path = if path == "/health" then true else path == "/api/health"

-- The copy of packages/api.
unfoldable pub verify_gateway_origin : Option String → Request → Outcome
verify_gateway_origin secret r =
    if is_health r.path
    then next r
    else if verify_secret secret r.internal_secret
    then next r
    else answer 403 "GATEWAY_BYPASS_DETECTED"

abbrev with_headers : Request → Option String → Option String → Request
with_headers r (some id) (some role) = record r {
  user = some (record { id = id; email = or_default r.user_email ""; role = role });
}
with_headers r _ _ = r

-- The copy of packages/catalog-service, which also takes over the gateway's user.
unfoldable pub catalog_gateway_origin : Option String → Request → Outcome
catalog_gateway_origin secret r =
    if is_health r.path
    then next r
    else if verify_secret secret r.internal_secret
    then next (with_headers r (non_empty r.user_id) (non_empty r.user_role))
    else answer 403 "GATEWAY_BYPASS_DETECTED"

abbrev allows : List String → String → Bool
allows roles role = any (λ r. r == role) roles

abbrev check_role : List String → Request → Option RequestUser → Outcome
check_role roles r none = answer 401 "AUTHENTICATION_FAILED"
check_role roles r (some user) =
    if allows roles user.role then next r else answer 403 "AUTHORIZATION_FAILED"

unfoldable pub authorize : List String → Request → Outcome
authorize roles r = check_role roles r r.user

-- `authenticate` and then `authorize`, as the routes chain them.
abbrev and_then : Outcome → (Request → Outcome) → Outcome
and_then (next r) f = f r
and_then (answer status type) f = answer status type

unfoldable pub protected_route : Option String → List String → Request → Outcome
protected_route secret roles r = and_then (authenticate secret r) (authorize roles)

-- ===== src/Guards/Chain.antt =====
-- Who gets past `authenticate` and `authorize` together.
use jhaz_imprints.Common.{
  String, ◌≡◌, ◌≢◌, refl, true, Option, none, some, List, arith, eq_iff, or_default, Option-cases,
  Bool-cases, inl, inr,
}
use jhaz_imprints.Guards.{
  Header, absent, one, many, Request, next, verify_secret, authenticate, authorize, protected_route,
  allows, RequestUser, catalog_gateway_origin,
}

-- The request has the gateway's secret, and names a user whose role is one of those allowed.
pub record IsVouched (secret : Option String) (roles : List String) (r : Request) (out : Request)
    : Type 0 where
  pub key : String
  pub id : String
  pub role : String
  pub set : secret ≡ some key
  pub non_blank : key ≢ ""
  pub header : r.internal_secret ≡ one key
  pub named : r.user_id ≡ some id
  pub acting : r.user_role ≡ some role
  pub allowed : allows roles role ≡ true
  pub through : out ≡ record r {
    user = some (record { id = id; email = or_default r.user_email ""; role = role });
  }

secret-verify_secret :
    (secret : Option String) (h : Header)
    → verify_secret secret h ≡ true
    → (key : String) × (secret ≡ some key) × (key ≢ "") × (h ≡ one key)
unfolding verify_secret
secret-verify_secret none h e = ground arith
secret-verify_secret (some key) absent e = ground arith
secret-verify_secret (some key) (many values) e = ground arith
secret-verify_secret (some key) (one value) e =
    (key, refl, (λ blank. ground (arith, eq_iff key "")), ground (arith, eq_iff value key))

-- A request gets past both guards only with the gateway's secret in its one header, and with a user
-- whose role the route allows; then that user is the one that the handler sees.
pub protected_route-IsVouched :
    (secret : Option String) (roles : List String) (r out : Request)
    → protected_route secret roles r ≡ next out
    → IsVouched secret roles r out
unfolding protected_route authenticate authorize
protected_route-IsVouched secret roles r out h =
    elim (Bool-cases (verify_secret secret r.internal_secret)) [
      | inr outside ↦ ground arith
      | inl inside ↦ elim (Option-cases r.user_id) [
        | inl nobody ↦ ground arith
        | inr (id, named) ↦ elim (Option-cases r.user_role) [
          | inl nothing ↦ ground arith
          | inr (role, acting) ↦
              let (key, set, non_blank, header) =
                secret-verify_secret secret r.internal_secret inside in
              record {
                key = key;
                id = id;
                role = role;
                set = set;
                non_blank = non_blank;
                header = header;
                named = named;
                acting = acting;
                allowed = ground arith;
                through = ground arith;
              }
        ]
      ]
    ]

-- The catalog service's handlers see a user, and so a role, only with the gateway's secret.
catalog_gateway_origin-user :
    (secret : Option String) (r out : Request) (u : RequestUser)
    → r.user ≡ none
    → catalog_gateway_origin secret r ≡ next out
    → out.user ≡ some u
    → (key : String) × (secret ≡ some key)
      × (key ≢ "")
      × (r.internal_secret ≡ one key)
      × (r.user_id ≡ some u.id)
      × (r.user_role ≡ some u.role)
unfolding catalog_gateway_origin
catalog_gateway_origin-user secret r out u anonymous passed seen =
    elim (Bool-cases (verify_secret secret r.internal_secret)) [
      | inr outside ↦ ground arith
      | inl inside ↦
          let (key, set, non_blank, header) =
            secret-verify_secret secret r.internal_secret inside in
          (key, set, non_blank, header, ground arith, ground arith)
    ]

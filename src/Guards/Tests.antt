-- ===== src/Guards/Tests.antt =====
-- An admin at a route for admins.
use jhaz_imprints.Common.{◌≡◌, refl, none, some, [], ◌∷◌}
use jhaz_imprints.Guards.{
  Request, one, next, protected_route, authenticate, authorize, verify_secret,
}
use jhaz_imprints.Guards.Chain.{IsVouched, protected_route-IsVouched}

abbrev request : Request
request = record {
  path = "/api/orders";
  internal_secret = one "s";
  user_id = some "u2";
  user_role = some "ADMIN";
  user_email = none;
  user = none;
}

abbrev seen : Request
seen = record request { user = some (record { id = "u2"; email = ""; role = "ADMIN" }) }

gets_through : protected_route (some "s") ("ADMIN" ∷ []) request ≡ next seen
unfolding protected_route authenticate authorize verify_secret
gets_through = refl

protected_route-IsVouched_example : IsVouched (some "s") ("ADMIN" ∷ []) request seen
protected_route-IsVouched_example =
    protected_route-IsVouched (some "s") ("ADMIN" ∷ []) request seen gets_through

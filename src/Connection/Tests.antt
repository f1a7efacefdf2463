-- ===== src/Connection/Tests.antt =====
-- A database that comes up at the third attempt.
use jhaz_imprints.Common.{ℕ, zero, suc, String, ◌≡◌, refl, false, Option, none, some, [], ◌∷◌, ok}
use jhaz_imprints.Connection.{Link, connect_mongodb, established}

abbrev fresh : Link
fresh = record {
  connection = false;
  ready = false;
  shutdown_at = none;
  listening = false;
  waits = [];
  exited = false;
}

abbrev third_works : ℕ → Option String
third_works zero = some "refused"
third_works (suc zero) = some "refused"
third_works (suc (suc n)) = none

third_connects :
    connect_mongodb 6 third_works 0 fresh
    ≡ (some (ok tt), established (record fresh { waits = 1000 ∷ 2000 ∷ [] }))
unfolding connect_mongodb
third_connects = refl

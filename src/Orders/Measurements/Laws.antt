-- ===== src/Orders/Measurements/Laws.antt =====
-- The limit on saved profiles, and whose profile an update changes.
use jhaz_imprints.Common.{
  ℕ, ◌≤◌, String, ◌≡◌, refl, List, [], ◌∷◌, arith, eq_iff, count, count-concat, count-update_same,
}
use jhaz_imprints.Schema.{Db}
use jhaz_imprints.Orders.Measurements.{
  MeasurementCreate, of_user, with_id, new_measurement, merged, create_measurement,
  update_measurement,
}

-- A user's request about their profiles; new rows come with the id that the database gives.
pub data Request (F : Type 0) : Type 0 where
  create : (id user : String) → MeasurementCreate F → Request F
  update : (user id : String) → MeasurementCreate F → Request F

module _ {F : Type 0} where
  abbrev pub serve_one : Request F → Db F → Db F
  serve_one (create id user input) s = (create_measurement id user input s).1
  serve_one (update user id input) s = (update_measurement user id input s).1

  abbrev pub serve : List (Request F) → Db F → Db F
  serve [] s = s
  serve (r ∷ rs) s = serve rs (serve_one r s)

  abbrev pub profiles : String → Db F → ℕ
  profiles user s = count (of_user user) s.measurements

  create-le-two :
      (who id user : String) (input : MeasurementCreate F) (s : Db F)
      → profiles who s ≤ 2
      → profiles who (create_measurement id user input s).1 ≤ 2
  unfolding create_measurement
  create-le-two who id user input s h = ground (
    arith,
    eq_iff user who,
    count-concat (of_user who) s.measurements (new_measurement id user input),
  )

  update_keeps :
      (who user id : String) (input : MeasurementCreate F) (s : Db F)
      → profiles who (update_measurement user id input s).1 ≡ profiles who s
  unfolding update_measurement
  update_keeps who user id input s = ground (
    arith,
    count-update_same (with_id id) (of_user who) (merged input) s.measurements (λ m. refl),
  )

-- No series of requests brings a user above two measurement profiles, if the user starts with no
-- more than two.
pub profiles-le-two :
    {F : Type 0} (who : String) (rs : List (Request F)) (s : Db F)
    → profiles who s ≤ 2
    → profiles who (serve rs s) ≤ 2
profiles-le-two who [] s h = h
profiles-le-two who (create id user input ∷ rs) s h =
    profiles-le-two who rs _ (create-le-two who id user input s h)
profiles-le-two who (update user id input ∷ rs) s h =
    profiles-le-two who rs _ (omega (arith, update_keeps who user id input s))

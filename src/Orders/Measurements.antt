-- ===== src/Orders/Measurements.antt =====
-- `getUserMeasurements`, `createMeasurement` and `updateMeasurement` of orderService.ts.
pub mod Laws
use mathlib.Core.List.{reverse}
use jhaz_imprints.Common.{
  ℕ, String, Bool, true, false, Option, none, some, List, [], ◌∷◌, ◌++◌, ◌==◌, leb, if◌then◌else◌,
  or_default, find_first, find_many, update_first, count, app_error, error, Exec, gets, or_throw,
  modify, guard, pure, ◌>>=◌, ◌>>◌,
}
use jhaz_imprints.Schema.{Measurement, OrderMeasurement, Db}
use jhaz_imprints.Store.{missing_row}

-- `MeasurementCreate`: absent fields are `none`.
pub record MeasurementCreate (F : Type 0) : Type 0 where
  pub profile_name : Option String
  pub is_default : Option Bool
  pub body : OrderMeasurement F

abbrev kept_or : {A : Type 0} → Option A → Option A → Option A
kept_or none old = old
kept_or (some a) old = some a

module _ {F : Type 0} where
  abbrev pub of_user : String → Measurement F → Bool
  of_user user m = m.user_id == user

  abbrev pub owned_by : String → String → Measurement F → Bool
  owned_by id user m = if m.id == id then m.user_id == user else false

  abbrev pub with_id : String → Measurement F → Bool
  with_id id m = m.id == id

  -- An absent field leaves the column as it is.
  abbrev merge_body : OrderMeasurement F → OrderMeasurement F → OrderMeasurement F
  merge_body new old = record {
    chest = kept_or new.chest old.chest;
    waist = kept_or new.waist old.waist;
    hip = kept_or new.hip old.hip;
    shoulder = kept_or new.shoulder old.shoulder;
    arm_length = kept_or new.arm_length old.arm_length;
    length = kept_or new.length old.length;
    notes = kept_or new.notes old.notes;
  }

  abbrev pub merged : MeasurementCreate F → Measurement F → Measurement F
  merged input m = record m {
    profile_name = or_default input.profile_name m.profile_name;
    is_default = or_default input.is_default m.is_default;
    body = merge_body input.body m.body;
  }

  -- Newest first, as the rows were created.
  unfoldable pub get_user_measurements : String → Exec (Db F) (List (Measurement F))
  get_user_measurements user = gets (λ s. reverse (find_many (of_user user) s.measurements))

  abbrev pub new_measurement : String → String → MeasurementCreate F → Measurement F
  new_measurement id user input = record {
    id = id;
    user_id = user;
    profile_name = or_default input.profile_name "Default";
    is_default = or_default input.is_default false;
    body = input.body;
  }

  abbrev insert_measurement : Measurement F → Db F → Db F
  insert_measurement m s = record s { measurements = s.measurements ++ m ∷ [] }

  -- `id` is the id that the database gives the row.
  unfoldable pub create_measurement :
      String → String → MeasurementCreate F → Exec (Db F) (Measurement F)
  create_measurement id user input = do
    saved ← gets (λ s. count (of_user user) s.measurements)
    guard (if leb 2 saved then false else true) (
        app_error 400
          "You cannot save more than 2 measurement profiles. Please update an existing profile.")
    modify (insert_measurement (new_measurement id user input))
    pure (new_measurement id user input)

  abbrev merge_row : String → MeasurementCreate F → Db F → Db F
  merge_row id input s = record s {
    measurements = update_first (with_id id) (merged input) s.measurements;
  }

  unfoldable pub update_measurement :
      String → String → MeasurementCreate F → Exec (Db F) (Measurement F)
  update_measurement user id input = do
    existing ← gets (λ s. find_first (owned_by id user) s.measurements)
    or_throw (app_error 404 "Measurement profile not found or access denied") existing
    row ← gets (λ s. find_first (with_id id) s.measurements)
    old ← or_throw missing_row row
    modify (merge_row id input)
    pure (merged input old)

-- ===== src/Orders/Tests/Managing.antt =====
-- Status changes, cancellations, profiles and access, at concrete data.
use jhaz_imprints.Common.{
  ℕ, String, ◌≡◌, ◌≢◌, refl, true, none, some, List, [], ◌∷◌, ◌↔◌, arith, eq_iff, ok, find_first,
  count, ◌==◌, false, error, err,
}
use jhaz_imprints.Numbers.{milli}
use jhaz_imprints.Schema.{customer, admin, tailor, Order, in_production, cancelled, Db, confirmed}
use jhaz_imprints.Store.{has_id, of_order, update_order, add_history}
use jhaz_imprints.Paystack.{Reply, VerifyBody, verify_payment, abandoned, body}
use jhaz_imprints.Orders.Notes.{parse_notes_metadata}
use jhaz_imprints.Orders.Status.{StatusUpdate, update_order_status, updated_order, manual_note}
use jhaz_imprints.Orders.Status.Transitions.{IsAllowed, NamesUser, update_order_status_iff}
use jhaz_imprints.Orders.Status.Writes.{tailor_after, update_order_status-writes}
use jhaz_imprints.Orders.Status.Series.{Request, serve, serve-cancelled}
use jhaz_imprints.Orders.Cancel.{entry_of, delete_pending_order}
use jhaz_imprints.Orders.Cancel.Laws.{delete_pending_order-removes}
use jhaz_imprints.Orders.Measurements.{MeasurementCreate}
use jhaz_imprints.Orders.Measurements.Laws
use jhaz_imprints.Orders.Measurements.Laws.{profiles, profiles-le-two}
use jhaz_imprints.Orders.Tests.Data.{unmeasured, order, payment, db, paid}

run : Unit {0}
unfolding update_order_status update_order add_history delete_pending_order verify_payment
run = tt

abbrev to_production : StatusUpdate
to_production = record { status = in_production; note = none; tailor_id = none }

abbrev sewn : Order ℕ
sewn = record order { status = confirmed; tailor_id = some "t1" }

abbrev sewing : Db ℕ
sewing = record db { orders = sewn ∷ [] }

update_order_status_iff_example :
    ((update_order_status "o1" to_production tailor (some "t1") sewing).0
      ≡ ok (parse_notes_metadata (updated_order tailor to_production sewn)))
    ↔ (IsAllowed sewn (some "t1") tailor in_production × NamesUser sewing.users tailor none)
update_order_status_iff_example =
    update_order_status_iff sewing "o1" to_production tailor (some "t1") sewn refl

update_order_status-writes_example :
    let after = (update_order_status "o1" to_production tailor (some "t1") sewing).1 in
    (find_first (has_id "o1") after.orders
      ≡ some (record sewn {
        status = in_production;
        tailor_id = tailor_after tailor none (some "t1");
      }))
    × ((other : String)
        → ("o1" == other) ≡ false
        → find_first (has_id other) after.orders ≡ find_first (has_id other) sewing.orders)
    × (after.history
        ≡ record {
          order_id = "o1";
          status = in_production;
          note = some (manual_note to_production tailor);
        }
          ∷ [])
    × (after.payments ≡ sewing.payments)
    × (after.users ≡ sewing.users)
    × (after.jobs ≡ sewing.jobs)
unfolding run
update_order_status-writes_example =
    update_order_status-writes sewing "o1" to_production tailor (some "t1") sewn
      (parse_notes_metadata (updated_order tailor to_production sewn)) refl refl

-- A tailor whom nobody knows breaks the foreign key, and nothing is written.
unknown_tailor :
    update_order_status "o1"
      (record to_production { tailor_id = some (some "t9") })
      admin
      none
      sewing
    ≡ (err (error "Foreign key constraint violated: Order_tailorId_fkey"), sewing)
unfolding run
unknown_tailor = refl

abbrev dropped : Order ℕ
dropped = record order { status = cancelled }

abbrev revivals : List Request
revivals =
    record { id = "o1"; input = to_production; role = admin; user = none }
    ∷ record {
      id = "o1";
      input = record { status = cancelled; note = none; tailor_id = none };
      role = admin;
      user = none;
    }
    ∷ []

serve-cancelled_example :
    (last : Order ℕ) × (find_first
        (has_id "o1")
        (serve revivals (record db { orders = dropped ∷ [] })).orders
      ≡ some last)
    × (last.status ≡ cancelled)
serve-cancelled_example =
    serve-cancelled "o1" revivals (record db { orders = dropped ∷ [] }) dropped refl refl

abbrev fetch_abandoned : String → Reply (VerifyBody ℕ)
fetch_abandoned reference = body (record paid { data_status = abandoned })

delete_pending_order-removes_example :
    let after = (delete_pending_order milli fetch_abandoned true "u1" "o1" customer db).1 in
    (find_first (has_id "o1") after.orders ≡ none)
    × (find_first (of_order "o1") after.payments ≡ none)
    × (count (entry_of "o1") after.history ≡ 0)
    × ((other : String)
        → other ≢ "o1"
        → (find_first (has_id other) after.orders ≡ find_first (has_id other) db.orders)
          × (find_first (of_order other) after.payments ≡ find_first (of_order other) db.payments))
    × (after.users ≡ db.users)
    × (after.jobs ≡ db.jobs)
unfolding run
delete_pending_order-removes_example =
    delete_pending_order-removes milli fetch_abandoned true db "u1" "o1" customer refl

reference_named : payment.reference ≢ ""
reference_named h = ground (arith, eq_iff "r1" "")

abbrev profile : MeasurementCreate ℕ
profile = record { profile_name = none; is_default = none; body = unmeasured }

abbrev saves : List (Laws.Request ℕ)
saves =
    Laws.create "m1" "u1" profile
    ∷ Laws.create "m2" "u1" profile
    ∷ Laws.create "m3" "u1" profile
    ∷ Laws.update "u1" "m2" profile
    ∷ []

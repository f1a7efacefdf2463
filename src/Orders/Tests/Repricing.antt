-- ===== src/Orders/Tests/Repricing.antt =====
-- The pending order after the price of its product has gone up.
use jhaz_imprints.Common.{
  ℕ, ◌≡◌, ◌≢◌, refl, true, false, none, some, [], ◌==◌, arith, eq_iff, ok, err, app_error,
  find_first, if◌then◌else◌,
}
use jhaz_imprints.Common.Text.{same_folded}
use jhaz_imprints.Pricing.{compute_order_total, calculate_fabric_yards}
use jhaz_imprints.Orders.Item.{pick_property, units_needed}
use jhaz_imprints.Numbers.{milli}
use jhaz_imprints.Schema.{Db, PaymentStatus, customer}
use jhaz_imprints.Store.{of_order, update_order}
use jhaz_imprints.Catalog.{Catalog}
use jhaz_imprints.Paystack.{initialize_payment, verify_payment}
use jhaz_imprints.Orders.Notes.{OrderView, parse_notes_metadata}
use jhaz_imprints.Orders.Confirm.{confirm_payment, precheck, check_open, judge}
use jhaz_imprints.Orders.Create.{payment_reference}
use jhaz_imprints.Orders.Pay.{PaymentIntent, initialize_order_payment, check_paid, start_payment}
use jhaz_imprints.Orders.Pay.Laws.{IsNewCharge, paid_is_charged_again}
use jhaz_imprints.Orders.Reprice.{
  get_order_by_id, revalidate_order_pricing, reprice_item, reprice_fabric, reprice_product,
}
use jhaz_imprints.Orders.Reprice.Paid.{new_total, repriced, reprice-strands}
use jhaz_imprints.Orders.Tests.Data.{
  product_id, agbada, catalog, row, order, payment, db, paid, fetch_paid, fetch_link,
}

abbrev dear : Catalog ℕ
dear = record catalog {
  product = λ id. if id == product_id then some (record agbada { base_price = 4000000 }) else none;
}

run : Unit {0}
unfolding get_order_by_id revalidate_order_pricing reprice_item reprice_fabric reprice_product
    update_order compute_order_total pick_property same_folded units_needed calculate_fabric_yards
    parse_notes_metadata
run = tt

dearer : new_total milli dear order ≡ 5500000
unfolding run
dearer = refl

differs : milli.eq (new_total milli dear order) 4500000 ≡ false
unfolding run
differs = refl

short : milli.eq (milli.div 450000000 (milli.of_nat 100)) (new_total milli dear order) ≡ false
unfolding run
short = refl

reprice-strands_example :
    (confirm_payment milli fetch_paid true "r1" none
      (revalidate_order_pricing milli dear order db).1).0
    ≡ err (app_error 400 "Payment amount mismatch with Paystack verification")
reprice-strands_example =
    reprice-strands milli dear fetch_paid true db order row [] "r1" none payment paid refl refl refl
      differs refl refl refl refl refl refl refl short

abbrev shown : Db ℕ
shown = (get_order_by_id milli dear "u1" "o1" customer db).1

abbrev view : OrderView ℕ
view = parse_notes_metadata (repriced milli dear order)

abbrev new_intent : PaymentIntent ℕ
new_intent = record {
  already_paid = none;
  access_code = "code";
  authorization_url = "https://pay";
  reference = "r";
  order_id = "o1";
  amount = new_total milli dear order;
}

abbrev after : Db ℕ
after = (initialize_order_payment milli dear fetch_paid fetch_link true 7 "u1" "o1" "ann@shop" db).1

reference_named : payment.reference ≢ ""
reference_named h = ground (arith, eq_iff "r1" "")

started :
    initialize_order_payment milli dear fetch_paid fetch_link true 7 "u1" "o1" "ann@shop" db
    ≡ (ok new_intent, after)
unfolding run initialize_order_payment check_paid start_payment initialize_payment verify_payment
    confirm_payment precheck check_open judge
started = refl

paid_is_charged_again_example :
    IsNewCharge milli fetch_link 7 "u1" "ann@shop" view.order new_intent
    × (find_first (of_order "o1") after.payments
        ≡ some (record payment {
          reference = payment_reference "o1" 7;
          status = PaymentStatus.pending;
          amount = new_total milli dear order;
        }))
unfolding run
paid_is_charged_again_example =
    paid_is_charged_again milli dear fetch_paid fetch_link true 7 "u1" "ann@shop" db shown after
      view (record payment { amount = new_total milli dear order }) paid new_intent refl refl refl
      reference_named refl refl refl refl refl refl short started

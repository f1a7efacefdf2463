-- ===== src/Orders/Tests/Placing.antt =====
-- Orders that are placed from the catalog, priced and paid again.
use jhaz_imprints.Common.{
  ℕ, sym, zero, suc, String, ◌≡◌, ◌⊎◌, refl, true, Option, none, some, List, [], ◌∷◌, ◌==◌, arith,
  ok, err, error, find_first, Bool-cases, inl, inr,
}
use jhaz_imprints.Common.Text.{
  second_part, first_part, same_folded, trim, is_object_id, is_fabric_id,
}
use jhaz_imprints.Pricing.{compute_order_total, calculate_fabric_yards}
use std.Path.{subst}
use jhaz_imprints.Numbers.{milli}
use jhaz_imprints.Schema.{User, OrderItem}
use jhaz_imprints.Store.{has_user_id}
use jhaz_imprints.Catalog.{Fabric, FabricProperty}
use jhaz_imprints.Paystack.{
  Reply, InitializeRequest, InitializeBody, unreachable, initialize_payment,
}
use jhaz_imprints.Orders.Notes.{parse_notes_metadata}
use jhaz_imprints.Orders.Item.{
  choose_fabric, choose_style, priced_item, units_needed, price_item, price_items, check_items,
  pick_property, fabric_title,
}
use jhaz_imprints.Orders.Create.{
  CreatedOrder, create_order, breakdown, payment_reference, new_order, new_payment,
}
use jhaz_imprints.Orders.Create.Laws.{stored, create_order-throws}
use jhaz_imprints.Orders.Reprice.{revalidate_order_pricing}
use jhaz_imprints.Orders.Reprice.Fresh.{HasClearTitles, revalidate-create}
use jhaz_imprints.Orders.Tests.Data.{item, input, row, catalog, lace, red, fabric_id, empty_db}

-- One agbada of lace in the royal style, for a customer who gave no measures.
run : Unit {0}
unfolding price_item choose_fabric first_part choose_style same_folded trim priced_item
    pick_property second_part units_needed calculate_fabric_yards compute_order_total
run = tt

priced : price_items milli catalog (item ∷ []) ≡ ok (row ∷ [])
unfolding run price_items
priced = refl

abbrev created : CreatedOrder ℕ
created = record {
  order =
      parse_notes_metadata
        (new_order "o1" "u1" input (row ∷ []) (breakdown milli input (row ∷ [])).grand_total);
  payment =
      new_payment "o1" (payment_reference "o1" 7) (breakdown milli input (row ∷ [])).grand_total;
  payment_url = "https://pay";
  access_code = "code";
  reference = payment_reference "o1" 7;
  breakdown = breakdown milli input (row ∷ []);
}

abbrev fetch_nothing : InitializeRequest ℕ → Reply InitializeBody
fetch_nothing request = unreachable "no network"

fails :
    (create_order milli catalog fetch_nothing "o1" 7 "u1" input empty_db).0
    ≡ err (error "no network")
unfolding run create_order check_items price_items initialize_payment is_object_id is_fabric_id
fails = refl

create_order-throws_example :
    ((create_order milli catalog fetch_nothing "o1" 7 "u1" input empty_db).1 ≡ empty_db)
    ⊎ ((rows : List (OrderItem ℕ)) × (owner : User) × (price_items milli catalog input.items
          ≡ ok rows)
        × (find_first (has_user_id "u1") empty_db.users ≡ some owner)
        × (initialize_payment milli fetch_nothing owner.email
              (breakdown milli input rows).grand_total
              (payment_reference "o1" 7)
              "o1"
              "u1"
            ≡ err (error "no network"))
        × ((create_order milli catalog fetch_nothing "o1" 7 "u1" input empty_db).1
            ≡ stored milli catalog fetch_nothing "o1" 7 "u1" input empty_db rows))
create_order-throws_example =
    create_order-throws milli catalog fetch_nothing "o1" 7 "u1" input empty_db (error "no network")
      fails

pick_red :
    (p : FabricProperty ℕ) (color : Option String)
    → pick_property color (red ∷ []) ≡ some p
    → red ≡ p
unfolding pick_property
pick_red p none h = ground arith
pick_red p (some c) h = ground arith

title_of_red : second_part " — " (fabric_title lace (some red)) ≡ some "Red"
unfolding second_part
title_of_red = refl

fabric_is_lace : (id : String) (fabric : Fabric ℕ) → catalog.fabric id ≡ some fabric → lace ≡ fabric
fabric_is_lace id fabric h = elim (Bool-cases (id == fabric_id)) [
  | inl here ↦ ground arith
  | inr other ↦ ground arith
]

clear : HasClearTitles catalog
clear id fabric p color found picked =
    let is_lace : lace ≡ fabric = fabric_is_lace id fabric found in
    let is_red : red ≡ p =
      pick_red p color (
        subst (λ (f : Fabric ℕ). pick_property color f.properties ≡ some p) (sym is_lace) picked) in
    rw (← is_lace, ← is_red) title_of_red

eqb_refl : (n : ℕ) → milli.eq n n ≡ true
eqb_refl zero = refl
eqb_refl (suc n) = ground arith

revalidate-create_example :
    let order =
      new_order "o1" "u1" input (row ∷ []) (breakdown milli input (row ∷ [])).grand_total in
    revalidate_order_pricing milli catalog order empty_db
    ≡ (ok (parse_notes_metadata order), empty_db)
revalidate-create_example =
    revalidate-create milli catalog "o1" "u1" input (row ∷ []) empty_db eqb_refl clear priced

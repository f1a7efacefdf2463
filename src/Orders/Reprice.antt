-- ===== src/Orders/Reprice.antt =====
-- `revalidateOrderPricing` and `getOrderById` of orderService.ts. The image addresses that
-- `getOrderById` fills in for display are left out: they are stored nowhere.
pub mod Choice
pub mod Fresh
pub mod Paid
pub mod Access
use Prim.Native.String
use jhaz_imprints.Common.{
  String, Bool, true, false, not, ◌||◌, Option, none, some, List, [], ◌∷◌, ◌==◌, if◌then◌else◌,
  or_default, find_first, update_many, app_error, Exec, gets, or_throw, transaction, modify, guard,
  pure, ◌>>=◌, ◌>>◌,
}
use jhaz_imprints.Numbers.{Arith}
use jhaz_imprints.Schema.{
  Role, OrderItem, Order, Payment, Delivery, Notes, metadata, plain, Db, is_admin, is_tailor,
  is_pending,
}
use jhaz_imprints.Store.{has_id, of_order, update_order}
use jhaz_imprints.Catalog.{StyleOption, Product, Fabric, FabricProperty, Catalog}
use jhaz_imprints.Pricing.{compute_order_total, calculate_fabric_yards}
use jhaz_imprints.Orders.Notes.{OrderView, parse_notes_metadata, non_empty}
use jhaz_imprints.Orders.Item.{
  is_custom_style, has_style, pick_property, property_price, property_yards, property_unit,
  units_needed,
}
use jhaz_imprints.Orders.Create.{delivery_fee, discount, sum_from}
use jhaz_imprints.Orders.Status.{is_assigned}

abbrev pub delivery_in : Option Notes → Option Delivery
delivery_in (some (metadata delivery promo)) = delivery
delivery_in _ = none

abbrev pub promo_in : Option Notes → Option String
promo_in (some (metadata delivery promo)) = promo
promo_in _ = none

-- An item as far as it is repriced, and whether anything changed.
pub record Repriced (F : Type 0) : Type 0 where
  pub item : OrderItem F
  pub updated : Bool

module _ {F : Type 0} where
  abbrev pub set_amount : F → Payment F → Payment F
  set_amount total p = record p { amount = total }

  abbrev pub set_prices : List (OrderItem F) → F → Order F → Order F
  set_prices items total o = record o { items = items; total_amount = total }

  abbrev pub set_amounts : String → F → Db F → Db F
  set_amounts id total s = record s {
    payments = update_many (of_order id) (set_amount total) s.payments;
  }

  write_prices : String → List (OrderItem F) → F → Exec (Db F) (Order F)
  write_prices id items total = do
    updated ← update_order (has_id id) (set_prices items total)
    modify (set_amounts id total)
    pure updated

module _ {F : Type 0} (num : Arith F) where
  abbrev pub differs : F → F → Bool
  differs a b = not (num.eq a b)

  -- 1. The latest price of the style, where the product still has it.
  abbrev latest_style : F → Option (StyleOption F) → F
  latest_style old none = old
  latest_style old (some s) =
      let latest = or_default s.price_modifier (num.of_nat 0) in
      if differs latest old then latest else old

  abbrev style_changed : F → Option (StyleOption F) → Bool
  style_changed old none = false
  style_changed old (some s) = differs (or_default s.price_modifier (num.of_nat 0)) old

  abbrev pub style_option_of : Product F → OrderItem F → Option (StyleOption F)
  style_option_of product item =
      let name = or_default (non_empty (some item.style_option_name)) "Standard" in
      if is_custom_style name then find_first (has_style name) product.style_options else none

  unfoldable pub reprice_product : Option (Product F) → OrderItem F → Repriced F
  reprice_product none item = record { item = item; updated = false }
  reprice_product (some product) item =
      let style = style_option_of product item in
      record {
        item = record item {
          base_price =
              if differs product.base_price item.base_price
              then product.base_price
              else item.base_price;
          style_modifier = latest_style item.style_modifier style;
        };
        updated =
            differs product.base_price item.base_price || style_changed item.style_modifier style;
      }

  abbrev fabric_changed : OrderItem F → Option (FabricProperty F) → Bool
  fabric_changed item p =
      let units = units_needed num item.measurement (property_yards num p) in
      differs (property_price num p) item.fabric_price_per_unit
      || (differs units item.fabric_qty
          || (differs (property_yards num p) item.yards_per_unit
              || differs (num.mul (property_price num p) units) item.fabric_modifier))

  -- 2. The latest price, packaging and quantity of the fabric.
  refresh_fabric : OrderItem F → Option (FabricProperty F) → Repriced F
  refresh_fabric item p =
      let units = units_needed num item.measurement (property_yards num p) in
      if fabric_changed item p
      then record {
        item = record item {
          fabric_price_per_unit = property_price num p;
          fabric_qty = units;
          yards_per_unit = property_yards num p;
          fabric_unit = property_unit num p;
          fabric_yards = calculate_fabric_yards num item.measurement;
          fabric_modifier = num.mul (property_price num p) units;
        };
        updated = true;
      }
      else record { item = item; updated = false }

  abbrev reprice_found : OrderItem F → Option (Fabric F) → Repriced F
  reprice_found item none = record { item = item; updated = false }
  reprice_found item (some fabric) =
      refresh_fabric item (pick_property item.color_name fabric.properties)

  abbrev reprice_chosen : Catalog F → OrderItem F → Option String → Repriced F
  reprice_chosen catalog item none = record { item = item; updated = false }
  reprice_chosen catalog item (some id) = reprice_found item (catalog.fabric id)

  unfoldable pub reprice_fabric : Catalog F → OrderItem F → Repriced F
  unfolding refresh_fabric
  reprice_fabric catalog item = reprice_chosen catalog item (non_empty item.fabric_id)

  -- 3. The total of the item.
  abbrev pub item_total : OrderItem F → F
  item_total item = compute_order_total num (record {
    base_price = item.base_price;
    fabric_price_modifier = some item.fabric_modifier;
    style_price_modifier = some item.style_modifier;
  })

  unfoldable pub reprice_item : Catalog F → OrderItem F → Repriced F
  reprice_item catalog item =
      let a = reprice_product (catalog.product item.product_id) item in
      let b = reprice_fabric catalog a.item in
      let total = item_total b.item in
      record {
        item = record b.item { total_amount = total };
        updated = a.updated || (b.updated || differs total item.total_amount);
      }

  abbrev pub reprice_items : Catalog F → List (OrderItem F) → List (OrderItem F)
  reprice_items catalog [] = []
  reprice_items catalog (i ∷ is) = (reprice_item catalog i).item ∷ reprice_items catalog is

  abbrev pub any_updated : Catalog F → List (OrderItem F) → Bool
  any_updated catalog [] = false
  any_updated catalog (i ∷ is) = (reprice_item catalog i).updated || any_updated catalog is

  abbrev pub latest_total : List (OrderItem F) → Option Notes → F
  latest_total items notes =
      let due =
        num.add (sum_from num (num.of_nat 0) items) (delivery_fee num (delivery_in notes)) in
      num.sub due (discount num (promo_in notes) due)

  unfoldable pub reprice_pending :
      Catalog F → Order F → List (OrderItem F) → Exec (Db F) (OrderView F)
  unfolding write_prices
  reprice_pending catalog order [] = pure (parse_notes_metadata order)
  reprice_pending catalog order (i ∷ is) =
      let items = reprice_items catalog (i ∷ is) in
      let total = latest_total items order.notes in
      if any_updated catalog (i ∷ is) || differs total order.total_amount
      then (do
        updated ← transaction (write_prices order.id items total)
        pure (parse_notes_metadata updated))
      else pure (parse_notes_metadata order)

  unfoldable pub revalidate_order_pricing : Catalog F → Order F → Exec (Db F) (OrderView F)
  unfolding reprice_pending
  revalidate_order_pricing catalog order =
      if is_pending order.status
      then reprice_pending catalog order order.items
      else pure (parse_notes_metadata order)

  unfoldable pub get_order_by_id : Catalog F → String → String → Role → Exec (Db F) (OrderView F)
  get_order_by_id catalog user id role = do
    found ← gets (λ s. find_first (has_id id) s.orders)
    order ← or_throw (app_error 404 (String.◌++◌ "Order not found: " id)) found
    guard (if is_admin role then true else if is_tailor role then true else order.user_id == user)
        (app_error 403 "Forbidden")
    guard (if is_tailor role then is_assigned order.tailor_id (some user) else true)
        (app_error 403 "Forbidden: You are not assigned to this order")
    revalidate_order_pricing catalog order

-- ===== src/Orders/Create.antt =====
-- `createOrder` of orderService.ts. The checks and the pricing of the items are in Orders/Item.
pub mod Laws
use Prim.Native.String
use jhaz_imprints.Common.{
  ℕ, String, Bool, true, false, Option, none, some, List, [], ◌∷◌, ◌++◌, ◌==◌, if◌then◌else◌,
  find_first, Result, ok, app_error, error, Exec, lift, gets, or_throw, transaction, modify, guard,
  pure, ◌>>=◌, ◌>>◌,
}
use jhaz_imprints.Common.Text.{decimal}
use jhaz_imprints.Numbers.{Arith, literal}
use jhaz_imprints.Schema.{
  OrderStatus, PaymentStatus, OrderItem, Order, Payment, User, Delivery, DeliveryMethod, standard,
  express, metadata, Db,
}
use jhaz_imprints.Store.{has_user_id}
use jhaz_imprints.Catalog.{Catalog}
use jhaz_imprints.Paystack.{
  Reply, InitializeRequest, InitializeBody, Initialized, initialize_payment,
}
use jhaz_imprints.Orders.Notes.{OrderView, parse_notes_metadata}
use jhaz_imprints.Orders.Item.{ItemInput, check_items, price_items}

pub record CreateOrderInput (F : Type 0) : Type 0 where
  pub items : List (ItemInput F)
  pub promo_code : Option String
  pub expected_total : Option F
  pub delivery : Option Delivery

pub record Breakdown (F : Type 0) : Type 0 where
  pub items_subtotal : F
  pub delivery_fee : F
  pub discount : F
  pub grand_total : F

pub record CreatedOrder (F : Type 0) : Type 0 where
  pub order : OrderView F
  pub payment : Payment F
  pub payment_url : String
  pub access_code : String
  pub reference : String
  pub breakdown : Breakdown F

-- The reference of a payment: the order's id and the time.
abbrev pub payment_reference : String → ℕ → String
payment_reference id now = String.◌++◌ "order_" (String.◌++◌ id (String.◌++◌ "_" (decimal now)))

module _ {F : Type 0} where
  abbrev pub new_order : String → String → CreateOrderInput F → List (OrderItem F) → F → Order F
  new_order id user input rows total = record {
    id = id;
    user_id = user;
    tailor_id = none;
    items = rows;
    status = OrderStatus.pending;
    total_amount = total;
    notes = some (metadata input.delivery input.promo_code);
  }

  abbrev pub new_payment : String → String → F → Payment F
  new_payment id reference total = record {
    order_id = id;
    amount = total;
    status = PaymentStatus.pending;
    reference = reference;
    provider = "PAYSTACK";
  }

  abbrev insert_both : Order F → Payment F → Db F → Db F
  insert_both o p s = record s { orders = s.orders ++ o ∷ []; payments = s.payments ++ p ∷ [] }

  -- Step 4. `id` is the fresh id of the order; its user is read back for the e-mail address.
  persist : Order F → Payment F → Exec (Db F) User
  persist o p = do
    found ← gets (λ s. find_first (has_user_id o.user_id) s.users)
    user ← or_throw (error "P2003") found
    modify (insert_both o p)
    pure user

module _ {F : Type 0} (num : Arith F) where
  -- `totalOrderAmount` after the loop
  abbrev pub sum_from : F → List (OrderItem F) → F
  sum_from acc [] = acc
  sum_from acc (i ∷ is) = sum_from (num.add acc i.total_amount) is

  abbrev fee : DeliveryMethod → F
  fee express = num.of_nat 7500
  fee standard = num.of_nat 3500

  abbrev pub delivery_fee : Option Delivery → F
  delivery_fee none = num.of_nat 0
  delivery_fee (some d) = fee d.delivery_method

  abbrev pub discount : Option String → F → F
  discount none due = num.of_nat 0
  discount (some code) due =
      if code == "JHAZ10" then num.mul due (literal num 1 10) else num.of_nat 0

  unfoldable pub breakdown : CreateOrderInput F → List (OrderItem F) → Breakdown F
  breakdown input rows =
      let subtotal = sum_from (num.of_nat 0) rows in
      let shipping = delivery_fee input.delivery in
      let off = discount input.promo_code (num.add subtotal shipping) in
      record {
        items_subtotal = subtotal;
        delivery_fee = shipping;
        discount = off;
        grand_total = num.sub (num.add subtotal shipping) off;
      }

  -- The price integrity check: the two totals are at most 1 apart.
  abbrev pub close_to : F → Option F → Bool
  close_to total none = true
  close_to total (some expected) =
      if num.lt (num.of_nat 1) (num.abs (num.sub total expected)) then false else true

  abbrev mismatch : F → Option F → String
  mismatch total none = ""
  mismatch total (some expected) = String.◌++◌ "Price mismatch: your cart shows ₦" (
      String.◌++◌ (num.show expected) (
        String.◌++◌ " but the verified total is ₦"
          (String.◌++◌ (num.show total) ". Please refresh the page and try again.")))

  module _ (catalog : Catalog F)
      (fetch_initialize : InitializeRequest F → Reply InitializeBody) where
    -- Steps 4 and 5, for the rows that step 3 has priced.
    place :
        String → ℕ → String → CreateOrderInput F → List (OrderItem F) → Exec (Db F) (CreatedOrder F)
    unfolding persist breakdown
    place id now user input rows = do
      let bill = breakdown input rows
      guard (close_to bill.grand_total input.expected_total)
          (app_error 409 (mismatch bill.grand_total input.expected_total))
      let reference = payment_reference id now
      let order = new_order id user input rows bill.grand_total
      let payment = new_payment id reference bill.grand_total
      owner ← transaction (persist order payment)
      started ←
          lift
            (initialize_payment num fetch_initialize owner.email bill.grand_total reference id user)
      pure (record {
        order = parse_notes_metadata order;
        payment = payment;
        payment_url = started.authorization_url;
        access_code = started.access_code;
        reference = reference;
        breakdown = bill;
      })

    -- `id` is the id that the database gives the order, `now` the time of the call.
    unfoldable pub create_order :
        String → ℕ → String → CreateOrderInput F → Exec (Db F) (CreatedOrder F)
    unfolding place
    create_order id now user input = do
      lift (check_items input.items)
      rows ← lift (price_items num catalog input.items)
      place id now user input rows

-- ===== src/Orders/Create/Laws.antt =====
-- What `createOrder` stores and asks of Paystack, and how it fails.
use jhaz_imprints.Common.{
  ℕ, String, ◌≡◌, ◌⊎◌, inl, inr, true, some, List, [], ◌∷◌, ◌++◌, arith, Option-cases, Bool-cases,
  Result-cases, ok, err, Failure, find_first,
}
use jhaz_imprints.Numbers.{Arith}
use jhaz_imprints.Schema.{OrderItem, User, Db}
use jhaz_imprints.Store.{has_user_id}
use jhaz_imprints.Catalog.{Catalog}
use jhaz_imprints.Paystack.{Reply, body, InitializeRequest, InitializeBody, initialize_payment}
use jhaz_imprints.Orders.Item.{check_items, price_items}
use jhaz_imprints.Orders.Create.{
  CreateOrderInput, CreatedOrder, breakdown, close_to, payment_reference, new_order, new_payment,
  place, create_order,
}

module _ {F : Type 0} (num : Arith F) (catalog : Catalog F)
    (fetch : InitializeRequest F → Reply InitializeBody) (id : String) (now : ℕ) (user : String)
    (input : CreateOrderInput F) (s : Db F) where
  -- The request that goes to Paystack for a customer and a total.
  abbrev pub charge : User → F → InitializeRequest F
  charge owner total = record {
    email = owner.email;
    amount = num.mul total (num.of_nat 100);
    reference = payment_reference id now;
    order_id = id;
    user_id = user;
  }

  -- The state with the new order and its payment.
  abbrev pub stored : List (OrderItem F) → Db F
  stored rows =
      let total = (breakdown num input rows).grand_total in
      record s {
        orders = s.orders ++ new_order id user input rows total ∷ [];
        payments = s.payments ++ new_payment id (payment_reference id now) total ∷ [];
      }

  -- What stands behind a created order.
  pub record IsPlaced (created : CreatedOrder F) (after : Db F) : Type 0 where
    pub rows : List (OrderItem F)
    pub owner : User
    pub answer : InitializeBody
    pub checked : check_items input.items ≡ ok tt
    pub priced : price_items num catalog input.items ≡ ok rows
    pub close : close_to num created.breakdown.grand_total input.expected_total ≡ true
    pub billed : created.breakdown ≡ breakdown num input rows
    pub found : find_first (has_user_id user) s.users ≡ some owner
    pub charged : fetch (charge owner created.breakdown.grand_total) ≡ body answer
    pub link : created.payment_url ≡ answer.authorization_url
    pub named : created.reference ≡ payment_reference id now
    pub payment : created.payment ≡ new_payment id created.reference created.breakdown.grand_total
    pub kept : after ≡ stored rows

  unplaced :
      (rows : List (OrderItem F)) (e : Failure)
      → (place num catalog fetch id now user input rows s).0 ≡ err e
      → ((place num catalog fetch id now user input rows s).1 ≡ s)
        ⊎ ((owner : User) × (find_first (has_user_id user) s.users ≡ some owner)
            × (initialize_payment num fetch owner.email
                  (breakdown num input rows).grand_total
                  (payment_reference id now)
                  id
                  user
                ≡ err e)
            × ((place num catalog fetch id now user input rows s).1 ≡ stored rows))
  unfolding place
  unplaced rows e h = elim (Option-cases (find_first (has_user_id user) s.users)) [
    | inl missing ↦ inl (ground arith)
    | inr (owner, found) ↦
        elim (Bool-cases
          (close_to num (breakdown num input rows).grand_total input.expected_total)) [
            | inl near ↦ inr (owner, found, ground arith, ground arith)
            | inr far ↦ inl (ground arith)
          ]
  ]

-- A call that throws has written nothing, unless the order could be stored and the call of Paystack
-- failed with this error: then the pending order and its payment stay.
pub create_order-throws :
    {F : Type 0} (num : Arith F) (catalog : Catalog F)
    (fetch : InitializeRequest F → Reply InitializeBody) (id : String) (now : ℕ) (user : String)
    (input : CreateOrderInput F) (s : Db F) (e : Failure)
    → (create_order num catalog fetch id now user input s).0 ≡ err e
    → ((create_order num catalog fetch id now user input s).1 ≡ s)
      ⊎ ((rows : List (OrderItem F)) × (owner : User) × (price_items num catalog input.items
            ≡ ok rows)
          × (find_first (has_user_id user) s.users ≡ some owner)
          × (initialize_payment num fetch owner.email
                (breakdown num input rows).grand_total
                (payment_reference id now)
                id
                user
              ≡ err e)
          × ((create_order num catalog fetch id now user input s).1
              ≡ stored num catalog fetch id now user input s rows))
unfolding create_order
create_order-throws num catalog fetch id now user input s e h =
    elim (Result-cases (check_items input.items)) [
      | inr (e, bad) ↦ inl (ground arith)
      | inl (_, checked) ↦ elim (Result-cases (price_items num catalog input.items)) [
        | inr (e, bad) ↦ inl (ground arith)
        | inl (rows, priced) ↦
            elim (unplaced num catalog fetch id now user input s rows e (ground arith)) [
              | inl kept ↦ inl (ground arith)
              | inr (owner, found, failed, left) ↦
                  inr (rows, owner, priced, found, failed, ground arith)
            ]
      ]
    ]

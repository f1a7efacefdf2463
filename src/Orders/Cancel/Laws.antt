-- ===== src/Orders/Cancel/Laws.antt =====
-- Which orders `deletePendingOrder` deletes, and what it leaves.
use jhaz_imprints.Common.{
  String, ◌≡◌, ◌≢◌, refl, Bool, true, none, some, arith, eq_iff, find_first, find_first-delete_many,
  find_first-delete_other, Option-cases, ok, err, app_error, inl, inr, count, count-delete_many,
  ◌⊎◌,
}
use jhaz_imprints.Numbers.{Arith}
use jhaz_imprints.Schema.{Role, admin, Order, OrderStatus, Payment, Db}
use jhaz_imprints.Store.{has_id, of_order}
use jhaz_imprints.Paystack.{Reply, body, VerifyBody, verify_payment, success}
use jhaz_imprints.Orders.Confirm.{confirm_payment}
use jhaz_imprints.Orders.Cancel.{without_order, entry_of, refuse_if_paid, delete_pending_order}

module _ {F : Type 0} (num : Arith F) (fetch : String → Reply (VerifyBody F)) (queue_up : Bool)
    (s : Db F) (user id : String) (role : Role) where
  -- What a successful call shows of the order, the caller and Paystack.
  pub record IsDeletable : Type 0 where
    pub order : Order F
    pub found : find_first (has_id id) s.orders ≡ some order
    pub pending : order.status ≡ OrderStatus.pending
    pub allowed : (role ≡ admin) ⊎ (order.user_id ≡ user)
    pub unpaid :
        (payment : Payment F) (b : VerifyBody F)
        → find_first (of_order id) s.payments ≡ some payment
        → payment.reference ≢ ""
        → fetch payment.reference ≡ body b
        → b.status ≡ true
        → b.data_status ≢ success

  deletable :
      delete_pending_order num fetch queue_up user id role s ≡ (ok tt, without_order id s)
      → IsDeletable
  unfolding delete_pending_order
  deletable h = elim (Option-cases (find_first (has_id id) s.orders)) [
    | inl missing ↦ ground arith
    | inr (order, found) ↦ record {
      order = order;
      found = found;
      pending = ground arith;
      allowed = ground (arith, eq_iff order.user_id user);
      unpaid = λ payment b owed named answer well paid.
          unfold refuse_if_paid verify_payment in ground (arith, eq_iff payment.reference "");
    }
  ]

  deleted :
      (delete_pending_order num fetch queue_up user id role s).0 ≡ ok tt
      → delete_pending_order num fetch queue_up user id role s ≡ (ok tt, without_order id s)
  unfolding delete_pending_order
  deleted h = ground arith

-- A call that returns has deleted an order that was pending, that the caller owns or an admin asked
-- for, and whose payment, if it has one with a reference, Paystack has not reported as successful.
pub delete_pending_order-IsDeletable :
    {F : Type 0} (num : Arith F) (fetch : String → Reply (VerifyBody F)) (queue_up : Bool)
    (s : Db F) (user id : String) (role : Role)
    → (delete_pending_order num fetch queue_up user id role s).0 ≡ ok tt
    → IsDeletable num fetch queue_up s user id role
delete_pending_order-IsDeletable num fetch queue_up s user id role h =
    deletable num fetch queue_up s user id role (deleted num fetch queue_up s user id role h)

-- A call that returns leaves no row of the order, of its payment or of its history; every other
-- order and its payment are found as before; users and queued notifications are as before.
pub delete_pending_order-removes :
    {F : Type 0} (num : Arith F) (fetch : String → Reply (VerifyBody F)) (queue_up : Bool)
    (s : Db F) (user id : String) (role : Role)
    → (delete_pending_order num fetch queue_up user id role s).0 ≡ ok tt
    → let after = (delete_pending_order num fetch queue_up user id role s).1 in
      (find_first (has_id id) after.orders ≡ none)
      × (find_first (of_order id) after.payments ≡ none)
      × (count (entry_of id) after.history ≡ 0)
      × ((other : String)
          → other ≢ id
          → (find_first (has_id other) after.orders ≡ find_first (has_id other) s.orders)
            × (find_first (of_order other) after.payments ≡ find_first (of_order other) s.payments))
      × (after.users ≡ s.users)
      × (after.jobs ≡ s.jobs)
delete_pending_order-removes {F} num fetch queue_up s user id role h =
    rw (deleted num fetch queue_up s user id role h) (
      find_first-delete_many (has_id id) s.orders,
      find_first-delete_many (of_order id) s.payments,
      count-delete_many (entry_of id) s.history,
      (λ other different. (
        find_first-delete_other (has_id id) (has_id other) s.orders
            (λ o e. ground (arith, eq_iff o.id id, eq_iff o.id other)),
        find_first-delete_other (of_order id) (of_order other) s.payments
            (λ p e. ground (arith, eq_iff p.order_id id, eq_iff p.order_id other)),
      )),
      refl,
      refl,
    )

-- A call that may cancel a pending order, but whose payment Paystack reports as successful, throws
-- the error 400, deletes nothing, and ends in the state that the confirmation of the payment leaves.
pub delete_pending_order-paid :
    {F : Type 0} (num : Arith F) (fetch : String → Reply (VerifyBody F)) (queue_up : Bool)
    (s : Db F) (user id : String) (role : Role) (order : Order F) (payment : Payment F)
    (b : VerifyBody F)
    → find_first (has_id id) s.orders ≡ some order
    → order.status ≡ OrderStatus.pending
    → (role ≡ admin) ⊎ (order.user_id ≡ user)
    → find_first (of_order id) s.payments ≡ some payment
    → payment.reference ≢ ""
    → fetch payment.reference ≡ body b
    → b.status ≡ true
    → b.data_status ≡ success
    → delete_pending_order num fetch queue_up user id role s ≡ (
      err (
          app_error 400
            "This order cannot be cancelled because your payment has already been successfully processed. The order status has been updated to CONFIRMED."),
      (confirm_payment num fetch queue_up payment.reference none s).1,
    )
unfolding delete_pending_order verify_payment
delete_pending_order-paid num fetch queue_up s user id role order payment b found waiting allowed
      owed named answer well paid =
    ground (arith, eq_iff order.user_id user, eq_iff payment.reference "")

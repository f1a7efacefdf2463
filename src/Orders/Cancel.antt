-- ===== src/Orders/Cancel.antt =====
-- `deletePendingOrder` of orderService.ts.
pub mod Laws
use jhaz_imprints.Common.{
  String, Bool, true, false, Option, none, some, List, ◌==◌, if◌then◌else◌, app_error, Exec, Result,
  ok, err, throw, gets, or_throw, modify, guard, find_first, delete_many, ◌>>=◌, ◌>>◌, pure,
}
use jhaz_imprints.Numbers.{Arith}
use jhaz_imprints.Schema.{Role, Order, Payment, StatusEntry, Db, is_admin, is_pending}
use jhaz_imprints.Store.{has_id, of_order, missing_row}
use jhaz_imprints.Paystack.{
  PaystackStatus, success, Reply, VerifyBody, Verification, verify_payment,
}
use jhaz_imprints.Orders.Confirm.{confirm_payment}

abbrev pub entry_of : String → StatusEntry → Bool
entry_of id e = e.order_id == id

module _ {F : Type 0} where
  abbrev pub without_order : String → Db F → Db F
  without_order id s = record s {
    orders = delete_many (has_id id) s.orders;
    payments = delete_many (of_order id) s.payments;
    history = delete_many (entry_of id) s.history;
  }

  -- `prisma.order.delete`: the payment and the history go with the order (onDelete: Cascade).
  delete_order : String → Exec (Db F) Unit
  delete_order id = do
    found ← gets (λ s. find_first (has_id id) s.orders)
    or_throw missing_row found
    modify (without_order id)

module _ {F : Type 0} (num : Arith F) (fetch_verify : String → Reply (VerifyBody F))
    (queue_up : Bool) where
  -- The confirmation that is started behind the answer; whatever it throws is only logged. Here it
  -- runs at once.
  in_background : String → Exec (Db F) Unit
  in_background reference s =
      (ok tt, (confirm_payment num fetch_verify queue_up reference none s).1)

  refuse_if_paid : String → Result (Verification F) → Exec (Db F) Unit
  unfolding in_background
  refuse_if_paid reference (err e) = pure tt
  refuse_if_paid reference (ok v) = elim v.status [
    | success ↦ do
      in_background reference
      throw (
          app_error 400
            "This order cannot be cancelled because your payment has already been successfully processed. The order status has been updated to CONFIRMED.")
    | _ ↦ pure tt
  ]

  check_unpaid : Option (Payment F) → Exec (Db F) Unit
  unfolding refuse_if_paid
  check_unpaid none = pure tt
  check_unpaid (some payment) =
      if payment.reference == ""
      then pure tt
      else refuse_if_paid payment.reference (verify_payment num fetch_verify payment.reference)

  unfoldable pub delete_pending_order : String → String → Role → Exec (Db F) Unit
  unfolding delete_order check_unpaid
  delete_pending_order user id role = do
    found ← gets (λ s. find_first (has_id id) s.orders)
    order ← or_throw (app_error 404 "Order not found") found
    guard (if is_admin role then true else order.user_id == user) (app_error 403 "Forbidden")
    guard (is_pending order.status) (app_error 400 "Only pending orders can be cancelled")
    payment ← gets (λ s. find_first (of_order id) s.payments)
    check_unpaid payment
    delete_order id

-- ===== src/Orders/Confirm/Stale.antt =====
-- Two confirmations whose transactions overlap. The re-read of `confirmPayment` takes no row lock,
-- so under Postgres's default isolation both transactions may read the payment before either
-- writes; `settle_read` is the rest of a transaction from the row that it has read on.
use jhaz_imprints.Common.{String, ◌≡◌, true, false, some, List, [], ◌∷◌, ◌++◌, find_first}
use mathlib.Core.List.{append_assoc}
use jhaz_imprints.Schema.{Order, Payment, User, Job, Db, is_completed, confirmed}
use jhaz_imprints.Store.{has_id, has_reference, has_user_id}
use jhaz_imprints.Orders.Confirm.{settle_read, notification, complete_payment}
use jhaz_imprints.Orders.Confirm.Success.{
  payment-complete_payment, order-complete_payment, kept-complete_payment, settle_read_complete,
}

module _ {F : Type 0} (s : Db F) (reference : String) {payment : Payment F} {order : Order F}
    {user : User} (found : find_first (has_reference reference) s.payments ≡ some payment)
    (of : find_first (has_id payment.order_id) s.orders ≡ some order)
    (owner : find_first (has_user_id order.user_id) s.users ≡ some user)
    (opened : is_completed payment.status ≡ false) where
  -- Two calls that have both read the same open payment, of a stored order with a stored owner, and
  -- then write one after the other, queue the notification of the order twice.
  pub notified_twice :
      (settle_read true reference
        (some payment)
        (settle_read true reference (some payment) s).1).1.jobs
      ≡ s.jobs
        ++ notification (record order { status = confirmed }) user order.items
          ∷ notification (record order { status = confirmed }) user order.items
          ∷ []
  notified_twice =
      let (same_jobs, same_users) = kept-complete_payment s reference found of in
      let queued : List (Job F) =
        s.jobs ++ notification (record order { status = confirmed }) user order.items ∷ [] in
      let between : Db F = record (complete_payment reference s).1 { jobs = queued } in
      rw (settle_read_complete s reference found of user payment opened owner) (
        rw
          (settle_read_complete between reference (payment-complete_payment s reference found of)
            (order-complete_payment s reference found of) user payment opened (rw same_users owner))
          (append_assoc s.jobs _ _))

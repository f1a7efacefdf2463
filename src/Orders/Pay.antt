-- ===== src/Orders/Pay.antt =====
-- `initializeOrderPayment` of orderService.ts: a new payment link for an order that is not paid.
pub mod Laws
use Prim.Native.String
use jhaz_imprints.Common.{
  ℕ, String, Bool, true, false, Option, none, some, List, [], ◌∷◌, ◌++◌, ◌==◌, if◌then◌else◌,
  find_first, update_first, Result, ok, err, app_error, Failure, Exec, gets, lift, modify, guard,
  pure, attempt, ◌>>=◌, ◌>>◌,
}
use jhaz_imprints.Numbers.{Arith}
use jhaz_imprints.Schema.{Role, customer, Order, PaymentStatus, Payment, Db, is_pending}
use jhaz_imprints.Store.{of_order}
use jhaz_imprints.Catalog.{Catalog}
use jhaz_imprints.Paystack.{
  PaystackStatus, success, Reply, VerifyBody, Verification, verify_payment, InitializeRequest,
  InitializeBody, Initialized, initialize_payment,
}
use jhaz_imprints.Orders.Confirm.{confirm_payment}
use jhaz_imprints.Orders.Create.{payment_reference, new_payment}
use jhaz_imprints.Orders.Status.{status_text}
use jhaz_imprints.Orders.Reprice.{get_order_by_id}

pub record PaymentIntent (F : Type 0) : Type 0 where
  -- absent from a new link
  pub already_paid : Option Bool
  pub access_code : String
  pub authorization_url : String
  pub reference : String
  pub order_id : String
  pub amount : F

module _ {F : Type 0} where
  abbrev pub renewed : String → F → Payment F → Payment F
  renewed reference total p = record p {
    reference = reference;
    status = PaymentStatus.pending;
    amount = total;
  }

  abbrev upsert : String → String → F → Option (Payment F) → List (Payment F) → List (Payment F)
  upsert id reference total none ps = ps ++ new_payment id reference total ∷ []
  upsert id reference total (some _) ps = update_first (of_order id) (renewed reference total) ps

  abbrev pub upsert_payment : String → String → F → Db F → Db F
  upsert_payment id reference total s = record s {
    payments = upsert id reference total (find_first (of_order id) s.payments) s.payments;
  }

  abbrev paid_before : Order F → String → PaymentIntent F
  paid_before order reference = record {
    already_paid = some true;
    access_code = "";
    authorization_url = "";
    reference = reference;
    order_id = order.id;
    amount = order.total_amount;
  }

  abbrev intent : Order F → Initialized → PaymentIntent F
  intent order started = record {
    already_paid = none;
    access_code = started.access_code;
    authorization_url = started.authorization_url;
    reference = started.reference;
    order_id = order.id;
    amount = order.total_amount;
  }

module _ {F : Type 0} (num : Arith F) (fetch_verify : String → Reply (VerifyBody F))
    (queue_up : Bool) where
  abbrev after_verify :
      Order F → String → Result (Verification F) → Exec (Db F) (Option (PaymentIntent F))
  after_verify order reference (err e) = pure none
  after_verify order reference (ok v) = elim v.status [
    | success ↦
        attempt
          (do
            confirm_payment num fetch_verify queue_up reference none
            pure (some (paid_before order reference)))
          (λ e. pure none)
    | _ ↦ pure none
  ]

  -- An error of the verification or of the confirmation is logged and ignored.
  unfoldable pub check_paid : Order F → Option (Payment F) → Exec (Db F) (Option (PaymentIntent F))
  check_paid order none = pure none
  check_paid order (some payment) =
      if payment.reference == ""
      then pure none
      else after_verify order payment.reference (verify_payment num fetch_verify payment.reference)

module _ {F : Type 0} (num : Arith F)
    (fetch_initialize : InitializeRequest F → Reply InitializeBody) where
  unfoldable pub start_payment : ℕ → String → String → Order F → Exec (Db F) (PaymentIntent F)
  start_payment now user email order = do
    guard (is_pending order.status) (
        app_error 400 (
          String.◌++◌ "Cannot create payment intent for order with status: "
            (status_text order.status)))
    let reference = payment_reference order.id now
    started ←
        lift
          (initialize_payment num fetch_initialize email order.total_amount reference order.id user)
    modify (upsert_payment order.id reference order.total_amount)
    pure (intent order started)

  abbrev or_start :
      ℕ → String → String → Order F → Option (PaymentIntent F) → Exec (Db F) (PaymentIntent F)
  or_start now user email order (some done) = pure done
  or_start now user email order none = start_payment now user email order

module _ {F : Type 0} (num : Arith F) (catalog : Catalog F)
    (fetch_verify : String → Reply (VerifyBody F))
    (fetch_initialize : InitializeRequest F → Reply InitializeBody) (queue_up : Bool) where
  unfoldable pub initialize_order_payment :
      ℕ → String → String → String → Exec (Db F) (PaymentIntent F)
  initialize_order_payment now user id email = do
    view ← get_order_by_id num catalog user id customer
    existing ← gets (λ s. find_first (of_order id) s.payments)
    done ← check_paid num fetch_verify queue_up view.order existing
    or_start num fetch_initialize now user email view.order done

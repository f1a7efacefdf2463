-- ===== src/Orders/Confirm.antt =====
-- `confirmPayment` of orderService.ts, cut where the code waits: the reads and the call of
-- Paystack (`precheck`), then one transaction and the notification (`settle`).
pub mod Success
pub mod Guards
pub mod Balance
pub mod Race
pub mod Stale
use Prim.Native.String
use mathlib.Core.Option
use text.Mathlib.Text.{starts_with}
use jhaz_imprints.Common.{
  String, Bool, true, false, ◌&&◌, Option, none, some, List, [], ◌∷◌, ◌==◌, if◌then◌else◌,
  or_default, length, find_first, any, Result, ok, err, app_error, error, Exec, pure, throw, lift,
  gets, or_throw, transaction, guard, ◌>>=◌, ◌>>◌,
}
use jhaz_imprints.Common.Text.{decimal}
use jhaz_imprints.Numbers.{Arith}
use jhaz_imprints.Schema.{
  Role, OrderStatus, PaymentStatus, OrderItem, Order, Payment, StatusEntry, User, Job, Db, is_admin,
  is_tailor, is_confirmed, is_completed, is_pending, confirmed, completed,
}
use jhaz_imprints.Store.{
  has_id, has_reference, has_user_id, update_payment, update_order, add_history, add_job,
}
use jhaz_imprints.Paystack.{
  PaystackStatus, Reply, VerifyBody, Verification, verify_payment, success,
}
use jhaz_imprints.Orders.Notes.{OrderView, parse_notes_metadata, non_empty}

-- The user and role of an authenticated request; the webhook passes none.
pub record Caller : Type 0 where
  pub user_id : String
  pub role : Role

pub record Confirmation (F : Type 0) : Type 0 where
  -- absent from the early answer
  pub status : Option PaymentStatus
  pub order : Option (OrderView F)
  pub payment : Payment F
  pub already_processed : Bool

-- The result of the transactions.
pub record Updated (F : Type 0) : Type 0 where
  pub order : Option (Order F)
  pub payment : Payment F
  pub already_processed : Bool

-- What the code does after Paystack has answered.
pub data Precheck (F : Type 0) : Type 0 where
  answered : Confirmation F → Precheck F
  to_fail to_complete : Precheck F

abbrev pub may_confirm : Option Caller → String → Bool
may_confirm none owner = true
may_confirm (some c) owner =
    if c.user_id == ""
    then true
    else if is_admin c.role
    then true
    else if is_tailor c.role
    then true
    else owner == c.user_id

abbrev pub is_note : String → Option String → Bool
is_note prefix none = false
is_note prefix (some note) = starts_with note prefix

abbrev pub is_entry : String → (OrderStatus → Bool) → StatusEntry → Bool
is_entry id test e = if e.order_id == id then test e.status else false

-- An entry that `confirmPayment` writes for a failed payment of the order.
abbrev pub is_failed_entry : String → StatusEntry → Bool
is_failed_entry id e = is_entry id is_pending e && is_note "Payment failed" e.note

abbrev pub is_confirmed_entry : String → StatusEntry → Bool
is_confirmed_entry id e = is_entry id is_confirmed e

-- `o || d`
abbrev pub text_or : String → Option String → String
text_or d o = or_default (non_empty o) d

abbrev pub confirmed_entry : String → StatusEntry
confirmed_entry id = record {
  order_id = id;
  status = confirmed;
  note = some "Payment confirmed via Paystack verification";
}

module _ {F : Type 0} where
  abbrev pub early : Payment F → Order F → Confirmation F
  early payment order = record {
    status = none;
    order = some (parse_notes_metadata order);
    payment = payment;
    already_processed = true;
  }

  abbrev pub still_pending : Payment F → Order F → Confirmation F
  still_pending payment order = record {
    status = some PaymentStatus.pending;
    order = some (parse_notes_metadata order);
    payment = payment;
    already_processed = false;
  }

  -- The first transaction's end: the order is read, and the failure is noted in its history once.
  unfoldable pub note_failure : String → Payment F → Option (Order F) → Exec (Db F) (Updated F)
  note_failure reference payment none = throw (error "Cannot read properties of null")
  note_failure reference payment (some order) = do
    existing ← gets (λ s. any (is_failed_entry order.id) s.history)
    if existing
        then pure tt
        else add_history (record {
          order_id = order.id;
          status = OrderStatus.pending;
          note = some (String.◌++◌ "Payment failed: reference " reference);
        })
    pure (record { order = some order; payment = payment; already_processed = false })

  unfoldable pub fail_payment : String → Exec (Db F) (Updated F)
  unfolding note_failure
  fail_payment reference = do
    payment ←
        update_payment (has_reference reference) (λ p. record p { status = PaymentStatus.failed })
    order ← gets (λ s. find_first (has_id payment.order_id) s.orders)
    note_failure reference payment order

  unfoldable pub complete_payment : String → Exec (Db F) (Updated F)
  complete_payment reference = do
    payment ← update_payment (has_reference reference) (λ p. record p { status = completed })
    order ← update_order (has_id payment.order_id) (λ o. record o { status = confirmed })
    existing ← gets (λ s. any (is_confirmed_entry order.id) s.history)
    if existing then pure tt else add_history (confirmed_entry order.id)
    pure (record { order = some order; payment = payment; already_processed = false })

  -- The re-read inside both transactions: a payment that is completed by now is left alone.
  unfoldable pub unless_completed :
      String → Exec (Db F) (Updated F) → Option (Payment F) → Exec (Db F) (Updated F)
  unless_completed reference update none = update
  unless_completed reference update (some locked) =
      if is_completed locked.status
      then pure (record { order = none; payment = locked; already_processed = true })
      else update

  abbrev pub product_title : List (OrderItem F) → String
  product_title [] = "Custom Outfit"
  product_title (first ∷ []) = text_or "Custom Outfit" (some first.product_name)
  product_title (first ∷ rest) =
      String.◌++◌ (text_or "Custom Outfit" (some first.product_name))
        (String.◌++◌ " & " (String.◌++◌ (decimal (length rest)) " other item(s)"))

  -- The payload of the notification; the first item stands for the order.
  unfoldable pub notification : Order F → User → List (OrderItem F) → Job F
  notification order user [] = record {
    order_id = order.id;
    user_id = order.user_id;
    user_email = user.email;
    user_phone = user.phone;
    user_name = user.first_name;
    total_price = order.total_amount;
    measurement = none;
    product_name = product_title order.items;
    fabric_option = "Standard";
    color_option = "Default";
    style_option = "Standard";
  }
  notification order user (first ∷ _) = record {
    order_id = order.id;
    user_id = order.user_id;
    user_email = user.email;
    user_phone = user.phone;
    user_name = user.first_name;
    total_price = order.total_amount;
    measurement = some first.measurement;
    product_name = product_title order.items;
    fabric_option = text_or "Standard" (some first.fabric_option_name);
    color_option = text_or "Default" first.color_name;
    style_option = text_or "Standard" (some first.style_option_name);
  }

  -- The job is added behind the answer, and only by the call that made the update.
  unfoldable pub notify : Bool → Updated F → Exec (Db F) Unit
  unfolding notification
  notify queue_up updated = elim updated.order [
    | none ↦ pure tt
    | some order ↦ if updated.already_processed then pure tt else do
      found ← gets (λ s. find_first (has_user_id order.user_id) s.users)
      user ← or_throw (error "Cannot read properties of null") found
      if queue_up then add_job (notification order user order.items) else pure tt
  ]

  abbrev pub confirmation : PaymentStatus → Updated F → Confirmation F
  confirmation status u = record {
    status = some status;
    order = Option.map parse_notes_metadata u.order;
    payment = u.payment;
    already_processed = u.already_processed;
  }

  -- The transaction for a payment that has succeeded, from the row that it has re-read on, and the
  -- notification. `queue_up` says whether Redis takes the job.
  unfoldable pub settle_read : Bool → String → Option (Payment F) → Exec (Db F) (Confirmation F)
  settle_read queue_up reference locked = do
    updated ← transaction (unless_completed reference (complete_payment reference) locked)
    notify queue_up updated
    pure (confirmation completed updated)

  -- Everything that follows the answer of Paystack.
  unfoldable pub settle : Bool → String → Precheck F → Exec (Db F) (Confirmation F)
  settle queue_up reference (answered c) = pure c
  settle queue_up reference to_fail = do
    locked ← gets (λ s. find_first (has_reference reference) s.payments)
    updated ← transaction (unless_completed reference (fail_payment reference) locked)
    pure (confirmation PaymentStatus.failed updated)
  settle queue_up reference to_complete = do
    locked ← gets (λ s. find_first (has_reference reference) s.payments)
    settle_read queue_up reference locked

module _ {F : Type 0} (num : Arith F) (fetch_verify : String → Reply (VerifyBody F)) where
  -- What the verification says of the payment as it was read before the call.
  unfoldable pub judge : Payment F → Order F → Verification F → Result (Precheck F)
  judge payment order v = elim v.status [
    | success ↦
        if num.eq v.amount payment.amount
        then ok to_complete
        else err (app_error 400 "Payment amount mismatch with Paystack verification")
    | PaystackStatus.failed ↦ ok to_fail
    | PaystackStatus.abandoned ↦ ok (answered (still_pending payment order))
  ]

  abbrev pub read_verification : Result (Verification F) → Result (Verification F)
  read_verification (ok v) = ok v
  read_verification (err _) = err (app_error 500 "Unable to verify payment with Paystack")

  unfoldable pub check_open : String → Payment F → Exec (Db F) (Precheck F)
  unfolding judge
  check_open reference payment = do
    found ← gets (λ s. find_first (has_id payment.order_id) s.orders)
    order ← or_throw (app_error 404 "Order not found") found
    v ← lift (read_verification (verify_payment num fetch_verify reference))
    lift (judge payment order v)

  unfoldable pub precheck : String → Option Caller → Exec (Db F) (Precheck F)
  unfolding check_open
  precheck reference caller = do
    found ← gets (λ s. find_first (has_reference reference) s.payments)
    payment ← or_throw (app_error 404 "Payment not found") found
    owned ← gets (λ s. find_first (has_id payment.order_id) s.orders)
    order ← or_throw (error "Cannot read properties of null") owned
    guard (may_confirm caller order.user_id)
        (app_error 403 "Forbidden: You do not own this order/payment")
    if is_completed payment.status
        then pure (answered (early payment order))
        else check_open reference payment

  unfoldable pub confirm_payment : Bool → String → Option Caller → Exec (Db F) (Confirmation F)
  confirm_payment queue_up reference caller = do
    checked ← precheck reference caller
    settle queue_up reference checked

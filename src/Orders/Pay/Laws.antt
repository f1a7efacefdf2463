-- ===== src/Orders/Pay/Laws.antt =====
-- Paying again for what was paid.
use jhaz_imprints.Common.{
  ℕ, String, ◌≡◌, ◌≢◌, refl, Bool, true, false, none, some, arith, eq_iff, Result-cases, ok, err,
  find_first, find_first-update_first, inl, inr, app_error,
}
use jhaz_imprints.Numbers.{Arith}
use jhaz_imprints.Schema.{PaymentStatus, Order, Payment, Db, is_completed, customer}
use jhaz_imprints.Store.{of_order, has_id, has_reference}
use jhaz_imprints.Catalog.{Catalog}
use jhaz_imprints.Paystack.{
  Initialized, Reply, body, VerifyBody, verify_payment, success, InitializeRequest, InitializeBody,
  initialize_payment,
}
use jhaz_imprints.Orders.Confirm.{confirm_payment, precheck, check_open, judge}
use jhaz_imprints.Orders.Create.{payment_reference}
use jhaz_imprints.Orders.Pay.{
  PaymentIntent, renewed, upsert_payment, check_paid, start_payment, initialize_order_payment,
}
use jhaz_imprints.Orders.Notes.{OrderView}
use jhaz_imprints.Orders.Reprice.{get_order_by_id}

module _ {F : Type 0} (num : Arith F) (fetch_verify : String → Reply (VerifyBody F))
    (queue_up : Bool) (s : Db F) (order : Order F) (payment : Payment F) (b : VerifyBody F)
    (named : payment.reference ≢ "")
    (owed : find_first (has_reference payment.reference) s.payments ≡ some payment)
    (mine : payment.order_id ≡ order.id)
    (found : find_first (has_id order.id) s.orders ≡ some order)
    (opened : is_completed payment.status ≡ false)
    (answer : fetch_verify payment.reference ≡ body b) (well : b.status ≡ true)
    (paid : b.data_status ≡ success)
    (other : num.eq (num.div b.amount (num.of_nat 100)) payment.amount ≡ false) where
  -- The confirmation throws for the amount.
  confirm-mismatch :
      confirm_payment num fetch_verify queue_up payment.reference none s
      ≡ (err (app_error 400 "Payment amount mismatch with Paystack verification"), s)
  unfolding confirm_payment precheck check_open judge verify_payment
  confirm-mismatch = ground arith

  ignored : check_paid num fetch_verify queue_up order (some payment) s ≡ (ok none, s)
  unfolding check_paid verify_payment
  ignored = ground (arith, confirm-mismatch, eq_iff payment.reference "")

-- The answer has the link that Paystack gave for a charge of the order's total, under the order's
-- reference of this moment, and does not say that the order is paid.
pub record IsNewCharge {F : Type 0} (num : Arith F)
    (fetch : InitializeRequest F → Reply InitializeBody) (now : ℕ) (user email : String)
    (order : Order F) (intent : PaymentIntent F) : Type 0 where
  pub started : Initialized
  pub charged :
      initialize_payment num fetch email order.total_amount
        (payment_reference order.id now)
        order.id
        user
      ≡ ok started
  pub unpaid : intent.already_paid ≡ none
  pub link : intent.authorization_url ≡ started.authorization_url
  pub code : intent.access_code ≡ started.access_code
  pub reference : intent.reference ≡ started.reference
  pub amount : intent.amount ≡ order.total_amount

module _ {F : Type 0} (num : Arith F) (fetch : InitializeRequest F → Reply InitializeBody) (now : ℕ)
    (user email : String) (order : Order F) (s : Db F) (payment : Payment F) where
  -- A new payment takes the place of the old one, whose reference is gone.
  start_payment-renews :
      (intent : PaymentIntent F) (after : Db F)
      → find_first (of_order order.id) s.payments ≡ some payment
      → start_payment num fetch now user email order s ≡ (ok intent, after)
      → find_first (of_order order.id) after.payments
        ≡ some (renewed (payment_reference order.id now) order.total_amount payment)
  unfolding start_payment
  start_payment-renews intent after owed h =
      elim (Result-cases (
        initialize_payment num fetch email order.total_amount (payment_reference order.id now)
          order.id user)) [
            | inr (e, bad) ↦ ground arith
            | inl (started, good) ↦
                let next : upsert_payment order.id (payment_reference order.id now)
                      order.total_amount s
                    ≡ after =
                  ground arith in
                rw (← next) (
                  ground (
                    arith,
                    find_first-update_first (of_order order.id)
                        (renewed (payment_reference order.id now) order.total_amount) s.payments
                        (λ p. refl),
                  ))
          ]

  intent-start_payment :
      (intent : PaymentIntent F) (after : Db F)
      → start_payment num fetch now user email order s ≡ (ok intent, after)
      → IsNewCharge num fetch now user email order intent
  unfolding start_payment
  intent-start_payment intent after h =
      elim (Result-cases (
        initialize_payment num fetch email order.total_amount (payment_reference order.id now)
          order.id user)) [
            | inr (e, bad) ↦ ground arith
            | inl (started, good) ↦ record {
              started = started;
              charged = good;
              unpaid = ground arith;
              link = ground arith;
              code = ground arith;
              reference = ground arith;
              amount = ground arith;
            }
          ]

-- Money that Paystack has taken is lost sight of when its amount is not the stored one: if the
-- owner asks for a payment link, the order's open payment has a reference under which Paystack
-- reports success and another amount, and the call returns, then it returns the link that
-- Paystack gave for a new charge of the order's total, and the payment has the new reference, that
-- total and the status PENDING.
pub paid_is_charged_again :
    {F : Type 0} (num : Arith F) (catalog : Catalog F) (fetch : String → Reply (VerifyBody F))
    (fetch_new : InitializeRequest F → Reply InitializeBody) (queue_up : Bool) (now : ℕ)
    (user email : String) (s shown after : Db F) (view : OrderView F) (payment : Payment F)
    (b : VerifyBody F) (intent : PaymentIntent F)
    → get_order_by_id num catalog user view.order.id customer s ≡ (ok view, shown)
    → find_first (has_id view.order.id) shown.orders ≡ some view.order
    → find_first (of_order view.order.id) shown.payments ≡ some payment
    → payment.reference ≢ ""
    → find_first (has_reference payment.reference) shown.payments ≡ some payment
    → payment.order_id ≡ view.order.id
    → is_completed payment.status ≡ false
    → fetch payment.reference ≡ body b
    → b.status ≡ true
    → b.data_status ≡ success
    → num.eq (num.div b.amount (num.of_nat 100)) payment.amount ≡ false
    → initialize_order_payment num catalog fetch fetch_new queue_up now user view.order.id email s
      ≡ (ok intent, after)
    → IsNewCharge num fetch_new now user email view.order intent
      × (find_first (of_order view.order.id) after.payments
          ≡ some (record payment {
            reference = payment_reference view.order.id now;
            status = PaymentStatus.pending;
            amount = view.order.total_amount;
          }))
unfolding initialize_order_payment
paid_is_charged_again num catalog fetch fetch_new queue_up now user email s shown after view payment
      b intent got stored owed named known mine opened answer well paid other h =
    let skipped : check_paid num fetch queue_up view.order (some payment) shown ≡ (ok none, shown) =
      ignored num fetch queue_up shown view.order payment b named known mine stored opened answer
        well paid other in
    let start : start_payment num fetch_new now user email view.order shown ≡ (ok intent, after) =
      ground (arith, skipped, got, owed, h) in
    (
      intent-start_payment num fetch_new now user email view.order shown payment intent after start,
      (start_payment-renews num fetch_new now user email view.order shown payment intent after owed
          start),
    )

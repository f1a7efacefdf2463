-- ===== src/Orders/Confirm/Guards.antt =====
-- When `confirmPayment` may complete a payment, and what it leaves alone.
use jhaz_imprints.Common.{
  String, ◌≡◌, ◌≢◌, refl, Bool, true, false, Option, some, arith, find_first, count-update_first,
  Option-cases, Result, ok, err, Failure, inl, inr,
}
use jhaz_imprints.Numbers.{Arith}
use jhaz_imprints.Schema.{PaymentStatus, Order, Payment, User, Db, is_completed}
use jhaz_imprints.Store.{
  has_id, has_reference, has_user_id, update_payment, update_order, add_history, add_job,
}
use jhaz_imprints.Paystack.{Reply, body, VerifyBody, Reply-cases, verify_payment, success}
use jhaz_imprints.Orders.Confirm.{
  Caller, Precheck, answered, to_fail, to_complete, early, may_confirm, complete_payment,
  fail_payment, note_failure, unless_completed, settle, settle_read, notify, judge, check_open,
  precheck, confirm_payment,
}
use jhaz_imprints.Orders.Confirm.Success.{complete_payment-ok, kept-complete_payment}
use jhaz_imprints.Orders.Confirm.Balance.{completed_for, completed_of, set_status}
use jhaz_imprints.Orders.Confirm.Race.{precheck_reads}

-- What must hold before a payment is completed.
pub record IsPaid {F : Type 0} (num : Arith F) (fetch : String → Reply (VerifyBody F)) (s : Db F)
    (reference : String) (caller : Option Caller) : Type 0 where
  pub payment : Payment F
  pub order : Order F
  pub answer : VerifyBody F
  pub found : find_first (has_reference reference) s.payments ≡ some payment
  pub of : find_first (has_id payment.order_id) s.orders ≡ some order
  pub opened : is_completed payment.status ≡ false
  pub allowed : may_confirm caller order.user_id ≡ true
  pub fetched : fetch reference ≡ body answer
  pub well : answer.status ≡ true
  pub paid : answer.data_status ≡ success
  pub same : num.eq (num.div answer.amount (num.of_nat 100)) payment.amount ≡ true

module _ {F : Type 0} (num : Arith F) (fetch : String → Reply (VerifyBody F)) (s : Db F)
    (reference : String) (caller : Option Caller) where
  check_open-IsPaid :
      (payment : Payment F) (order : Order F)
      → find_first (has_reference reference) s.payments ≡ some payment
      → find_first (has_id payment.order_id) s.orders ≡ some order
      → is_completed payment.status ≡ false
      → may_confirm caller order.user_id ≡ true
      → (check_open num fetch reference payment s).0 ≡ ok to_complete
      → IsPaid num fetch s reference caller
  unfolding check_open judge verify_payment
  check_open-IsPaid payment order found of opened allowed h = elim (Reply-cases (fetch reference)) [
    | inl none_such ↦ ground arith
    | inr (b, fetched) ↦ record {
      payment = payment;
      order = order;
      answer = b;
      found = found;
      of = of;
      opened = opened;
      allowed = allowed;
      fetched = fetched;
      well = ground arith;
      paid = ground arith;
      same = ground arith;
    }
  ]

  precheck-IsPaid :
      (precheck num fetch reference caller s).0 ≡ ok to_complete
      → IsPaid num fetch s reference caller
  unfolding precheck
  precheck-IsPaid h = elim (Option-cases (find_first (has_reference reference) s.payments)) [
    | inl missing ↦ ground arith
    | inr (payment, found) ↦ elim (Option-cases (find_first (has_id payment.order_id) s.orders)) [
      | inl orphan ↦ ground arith
      | inr (order, of) ↦
          check_open-IsPaid payment order found of (ground arith) (ground arith) (ground arith)
    ]
  ]

  -- A failed payment is no completed one, before and after.
  settle_fail-completed_for :
      (o : String) (queue_up : Bool)
      → completed_for o (settle queue_up reference to_fail s).1 ≡ completed_for o s
  unfolding settle unless_completed fail_payment note_failure update_payment add_history
  settle_fail-completed_for o queue_up =
      elim (Option-cases (find_first (has_reference reference) s.payments)) [
        | inl missing ↦ ground arith
        | inr (x, found) ↦ ground (
          arith,
          count-update_first (has_reference reference) (completed_of o)
              (set_status PaymentStatus.failed) s.payments x found,
        )
      ]

  confirm-IsPaid :
      (o : String) (queue_up : Bool) (r : Result (Precheck F))
      → (precheck num fetch reference caller s).0 ≡ r
      → completed_for o (confirm_payment num fetch queue_up reference caller s).1
        ≢ completed_for o s
      → IsPaid num fetch s reference caller
  unfolding confirm_payment
  confirm-IsPaid o queue_up (err e) h changed =
      absurd (changed (ground (arith, precheck_reads num fetch reference caller s)))
  confirm-IsPaid o queue_up (ok (answered c)) h changed =
      absurd
        (changed (unfold settle in ground (arith, precheck_reads num fetch reference caller s)))
  confirm-IsPaid o queue_up (ok to_fail) h changed = absurd (
      changed (
        ground (
          arith,
          precheck_reads num fetch reference caller s,
          settle_fail-completed_for o queue_up,
        )))
  confirm-IsPaid o queue_up (ok to_complete) h changed = precheck-IsPaid h

-- A confirmation changes the number of completed payments of an order only if the referenced
-- payment was open, the caller may confirm it, and Paystack reports success and the amount due.
pub completes_only_IsPaid :
    {F : Type 0} (num : Arith F) (fetch : String → Reply (VerifyBody F)) (s : Db F)
    (reference : String) (caller : Option Caller) (o : String) (queue_up : Bool)
    → completed_for o (confirm_payment num fetch queue_up reference caller s).1 ≢ completed_for o s
    → IsPaid num fetch s reference caller
completes_only_IsPaid num fetch s reference caller o queue_up changed =
    confirm-IsPaid num fetch s reference caller o queue_up _ refl changed

-- Confirming a completed payment again: whatever Paystack would say, an allowed caller is told
-- that it was processed before, with the stored rows, and nothing is written.
pub confirm_payment-completed :
    {F : Type 0} (num : Arith F) (fetch : String → Reply (VerifyBody F)) (queue_up : Bool)
    (s : Db F) (reference : String) (caller : Option Caller) {payment : Payment F} {order : Order F}
    → find_first (has_reference reference) s.payments ≡ some payment
    → find_first (has_id payment.order_id) s.orders ≡ some order
    → may_confirm caller order.user_id ≡ true
    → is_completed payment.status ≡ true
    → confirm_payment num fetch queue_up reference caller s ≡ (ok (early payment order), s)
unfolding confirm_payment precheck settle
confirm_payment-completed num fetch queue_up s reference caller found of allowed closed =
    ground arith

module _ {F : Type 0} (s : Db F) (reference : String)
    (owned : (o : Order F)
      → (id : String) → find_first (has_id id) s.orders ≡ some o
      → (u : User) × (find_first (has_user_id o.user_id) s.users ≡ some u)) where
  complete-throws :
      (queue_up : Bool) (e : Failure)
      → (settle queue_up reference to_complete s).0 ≡ err e
      → (settle queue_up reference to_complete s).1 ≡ s
  unfolding settle settle_read unless_completed
  complete-throws queue_up e h =
      elim (Option-cases (find_first (has_reference reference) s.payments)) [
        | inl missing ↦ unfold complete_payment update_payment in ground arith
        | inr (x, found) ↦ elim (Option-cases (find_first (has_id x.order_id) s.orders)) [
          | inl orphan ↦ unfold complete_payment update_payment update_order notify in ground arith
          | inr (y, of) ↦
              unfold notify add_job in
              ground (
                arith,
                complete_payment-ok s reference found of,
                kept-complete_payment s reference found of,
                owned y x.order_id of,
              )
        ]
      ]

  fail-throws :
      (queue_up : Bool) (e : Failure)
      → (settle queue_up reference to_fail s).0 ≡ err e
      → (settle queue_up reference to_fail s).1 ≡ s
  unfolding settle unless_completed fail_payment note_failure update_payment add_history
  fail-throws queue_up e h = ground arith

  settle-throws :
      (queue_up : Bool) (p : Precheck F) (e : Failure)
      → (settle queue_up reference p s).0 ≡ err e
      → (settle queue_up reference p s).1 ≡ s
  settle-throws queue_up (answered c) e h = unfold settle in ground arith
  settle-throws queue_up to_fail e h = fail-throws queue_up e h
  settle-throws queue_up to_complete e h = complete-throws queue_up e h

-- A confirmation that throws, wherever it throws, leaves the whole state as it was, if every order
-- has its owner among the users.
pub confirm_payment-throws :
    {F : Type 0} (num : Arith F) (fetch : String → Reply (VerifyBody F)) (queue_up : Bool)
    (s : Db F) (reference : String) (caller : Option Caller) (e : Failure)
    → ((o : Order F) (id : String)
        → find_first (has_id id) s.orders ≡ some o
        → (u : User) × (find_first (has_user_id o.user_id) s.users ≡ some u))
    → (confirm_payment num fetch queue_up reference caller s).0 ≡ err e
    → (confirm_payment num fetch queue_up reference caller s).1 ≡ s
unfolding confirm_payment
confirm_payment-throws {F} num fetch queue_up s reference caller e owned h =
    go (precheck num fetch reference caller s).0 refl
  where
    go :
        (r : Result (Precheck F))
        → (precheck num fetch reference caller s).0 ≡ r
        → (confirm_payment num fetch queue_up reference caller s).1 ≡ s
    go (err e') h' = ground (arith, precheck_reads num fetch reference caller s)
    go (ok p) h' = ground (
      arith,
      precheck_reads num fetch reference caller s,
      settle-throws s reference owned queue_up p e,
    )

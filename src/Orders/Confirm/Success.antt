-- ===== src/Orders/Confirm/Success.antt =====
-- What `confirmPayment` does when Paystack reports success for the amount that is due.
use jhaz_imprints.Common.{
  String, ◌≡◌, refl, true, false, Option, some, [], ◌∷◌, ◌++◌, arith, eq_iff, eq_refl, find_first,
  any, ok, find_first-update_first, find_first-holds, any-concat,
}
use jhaz_imprints.Numbers.{Arith}
use jhaz_imprints.Schema.{Order, Payment, User, Db, is_completed, confirmed, completed}
use jhaz_imprints.Store.{
  has_id, has_reference, has_user_id, update_payment, update_order, add_history, add_job,
}
use jhaz_imprints.Paystack.{Reply, body, VerifyBody, verify_payment, success}
use jhaz_imprints.Orders.Notes.{parse_notes_metadata}
use jhaz_imprints.Orders.Confirm.{
  Caller, Updated, complete_payment, unless_completed, settle, settle_read, to_complete,
  is_confirmed_entry, confirmed_entry, notify, notification, confirmation, precheck, judge,
  check_open, confirm_payment, may_confirm,
}

module _ {F : Type 0} (s : Db F) (reference : String) {payment : Payment F} {order : Order F}
    (found : find_first (has_reference reference) s.payments ≡ some payment)
    (of : find_first (has_id payment.order_id) s.orders ≡ some order) where
  -- The rows that the transaction returns are those it has written.
  abbrev pub written : Updated F
  written = record {
    order = some (record order { status = confirmed });
    payment = record payment { status = completed };
    already_processed = false;
  }

  pub complete_payment-ok : (complete_payment reference s).0 ≡ ok written
  unfolding complete_payment update_payment update_order add_history
  complete_payment-ok = ground arith

  pub payment-complete_payment :
      find_first (has_reference reference) (complete_payment reference s).1.payments
      ≡ some (record payment { status = completed })
  unfolding complete_payment update_payment update_order add_history
  payment-complete_payment = ground (
    arith,
    find_first-update_first (has_reference reference)
        (λ (p : Payment F). record p { status = completed }) s.payments (λ p. refl),
  )

  pub order-complete_payment :
      find_first (has_id payment.order_id) (complete_payment reference s).1.orders
      ≡ some (record order { status = confirmed })
  unfolding complete_payment update_payment update_order add_history
  order-complete_payment = ground (
    arith,
    find_first-update_first (has_id payment.order_id)
        (λ (o : Order F). record o { status = confirmed }) s.orders (λ p. refl),
  )

  history-complete_payment :
      any (is_confirmed_entry payment.order_id) (complete_payment reference s).1.history ≡ true
  unfolding complete_payment update_payment update_order add_history
  history-complete_payment = ground (
    arith,
    eq_iff order.id payment.order_id,
    eq_refl payment.order_id,
    eq_refl order.id,
    find_first-holds (has_id payment.order_id) s.orders order,
    any-concat (is_confirmed_entry payment.order_id) s.history (confirmed_entry order.id),
  )

  pub kept-complete_payment :
      ((complete_payment reference s).1.jobs ≡ s.jobs)
      × ((complete_payment reference s).1.users ≡ s.users)
  unfolding complete_payment update_payment update_order add_history
  kept-complete_payment = (ground arith, ground arith)

  -- The row that the transaction has read may be older than the one in the table.
  pub settle_read_complete :
      (user : User) (row : Payment F)
      → is_completed row.status ≡ false
      → find_first (has_user_id order.user_id) s.users ≡ some user
      → settle_read true reference (some row) s ≡ (
        ok (confirmation completed written),
        record (complete_payment reference s).1 {
          jobs = s.jobs ++ notification (record order { status = confirmed }) user order.items ∷ [];
        },
      )
  unfolding settle_read unless_completed notify add_job
  settle_read_complete user row opened owner =
      ground (arith, complete_payment-ok, kept-complete_payment)

  module _ (num : Arith F) (fetch : String → Reply (VerifyBody F)) (caller : Option Caller)
      {b : VerifyBody F} where
    precheck-to_complete :
        is_completed payment.status ≡ false
        → may_confirm caller order.user_id ≡ true
        → fetch reference ≡ body b
        → b.status ≡ true
        → b.data_status ≡ success
        → num.eq (num.div b.amount (num.of_nat 100)) payment.amount ≡ true
        → precheck num fetch reference caller s ≡ (ok to_complete, s)
    unfolding precheck check_open judge verify_payment
    precheck-to_complete opened allowed answer well paid same = ground arith

-- A confirmation of an open payment, by its owner, an admin, a tailor or the webhook, for which
-- Paystack reports success and the amount that is due: it answers with the completed payment and
-- the confirmed order; both are stored; the history has a confirmation entry of the order; and one
-- notification, to the owner, is added to the queue. It holds whatever the order's status was.
pub confirm_payment-success :
    {F : Type 0} (num : Arith F) (fetch : String → Reply (VerifyBody F)) (s : Db F)
    (reference : String) (caller : Option Caller) {payment : Payment F} {order : Order F}
    {user : User} {b : VerifyBody F}
    → find_first (has_reference reference) s.payments ≡ some payment
    → find_first (has_id payment.order_id) s.orders ≡ some order
    → find_first (has_user_id order.user_id) s.users ≡ some user
    → is_completed payment.status ≡ false
    → may_confirm caller order.user_id ≡ true
    → fetch reference ≡ body b
    → b.status ≡ true
    → b.data_status ≡ success
    → num.eq (num.div b.amount (num.of_nat 100)) payment.amount ≡ true
    → let (answer, after) = confirm_payment num fetch true reference caller s in
      (answer
        ≡ ok (record {
          status = some completed;
          order = some (parse_notes_metadata (record order { status = confirmed }));
          payment = record payment { status = completed };
          already_processed = false;
        }))
      × (find_first (has_reference reference) after.payments
          ≡ some (record payment { status = completed }))
      × (find_first (has_id payment.order_id) after.orders
          ≡ some (record order { status = confirmed }))
      × (any (is_confirmed_entry payment.order_id) after.history ≡ true)
      × (after.jobs
          ≡ s.jobs ++ notification (record order { status = confirmed }) user order.items ∷ [])
unfolding confirm_payment settle
confirm_payment-success num fetch s reference caller {payment = payment} found of owner opened
      allowed answer well paid same =
    rw (precheck-to_complete s reference found of num fetch _ opened allowed answer well paid same)
      (rw (found, settle_read_complete s reference found of _ payment opened owner)
        (
          refl,
          payment-complete_payment s reference found of,
          order-complete_payment s reference found of,
          history-complete_payment s reference found of,
          refl,
        ))

-- ===== src/Orders/Tests/Confirming.antt =====
-- Confirmations of the pending order's payment.
use jhaz_imprints.Common.{
  ap, length, ◌≢◌, Option, ℕ, ◌≤◌, String, ◌≡◌, refl, true, false, none, some, [], ◌∷◌, arith, ok,
  app_error, find_first, any,
}
use jhaz_imprints.Numbers.{milli}
use jhaz_imprints.Schema.{Payment, User, Order, Db, completed, confirmed}
use jhaz_imprints.Store.{
  has_id, has_reference, has_user_id, update_payment, update_order, add_history, add_job,
}
use jhaz_imprints.Paystack.{
  Reply, VerifyBody, unreachable, verify_webhook_signature, verify_payment,
}
use jhaz_imprints.Orders.Notes.{parse_notes_metadata}
use jhaz_imprints.Orders.Confirm.{
  Updated, to_complete, confirm_payment, precheck, check_open, judge, settle, settle_read,
  unless_completed, complete_payment, notify, notification, is_confirmed_entry, fail_payment,
  note_failure,
}
use jhaz_imprints.Orders.Confirm.Success.{confirm_payment-success}
use jhaz_imprints.Orders.Confirm.Guards.{IsPaid, completes_only_IsPaid, confirm_payment-throws}
use jhaz_imprints.Orders.Confirm.Race.{
  System, Reach, here, next, start, complete, queue, notified_once,
}
use jhaz_imprints.Orders.Confirm.Balance.{commit, jobs_for}
use Prim.Native.String
use jhaz_imprints.Orders.Webhook.{paystack_webhook_handler}
use jhaz_imprints.Orders.Webhook.Signature.{IsSigned, paystack_webhook_handler-IsSigned}
use jhaz_imprints.Orders.Confirm.Stale.{notified_twice}
use jhaz_imprints.Orders.Tests.Data.{ann, row, order, payment, db, fetch_paid}

run : Unit {0}
unfolding confirm_payment precheck check_open judge verify_payment settle settle_read commit
    unless_completed complete_payment fail_payment note_failure update_payment update_order
    add_history notify add_job notification
run = tt

confirm_payment-success_example :
    let (answer, after) = confirm_payment milli fetch_paid true "r1" none db in
    (answer
      ≡ ok (record {
        status = some completed;
        order = some (parse_notes_metadata (record order { status = confirmed }));
        payment = record payment { status = completed };
        already_processed = false;
      }))
    × (find_first (has_reference "r1") after.payments
        ≡ some (record payment { status = completed }))
    × (find_first (has_id "o1") after.orders ≡ some (record order { status = confirmed }))
    × (any (is_confirmed_entry "o1") after.history ≡ true)
    × (after.jobs ≡ notification (record order { status = confirmed }) ann (row ∷ []) ∷ [])
confirm_payment-success_example =
    confirm_payment-success milli fetch_paid db "r1" none {payment = payment} refl refl refl refl
      refl refl refl refl refl

completes_only_IsPaid_example : IsPaid milli fetch_paid db "r1" none
unfolding run
completes_only_IsPaid_example =
    completes_only_IsPaid milli fetch_paid db "r1" none "o1" true (λ e. cc)

abbrev fetch_nothing : String → Reply (VerifyBody ℕ)
fetch_nothing reference = unreachable "no network"

abbrev done : Db ℕ
done = record db { payments = record payment { status = completed } ∷ [] }

owned :
    (o : Order ℕ) (id : String)
    → find_first (has_id id) db.orders ≡ some o
    → (u : User) × (find_first (has_user_id o.user_id) db.users ≡ some u)
owned o id h = let same : order ≡ o = ground arith in rw (← same) (ann, refl)

confirm_payment-throws_example : (confirm_payment milli fetch_nothing true "r1" none db).1 ≡ db
unfolding run
confirm_payment-throws_example =
    confirm_payment-throws milli fetch_nothing true db "r1" none
      (app_error 500 "Unable to verify payment with Paystack") owned refl

-- Two calls, of which the second starts before the first has ended.
abbrev first : System ℕ
first = record { db = db; waiting = []; owing = [] }

abbrev paid_now : Payment ℕ
paid_now = record payment { status = completed }

abbrev done_first : Updated ℕ
done_first = record {
  order = some (record order { status = confirmed });
  payment = paid_now;
  already_processed = false;
}

abbrev done_second : Updated ℕ
done_second = record { order = none; payment = paid_now; already_processed = true }

abbrev after_both : Db ℕ
after_both = (commit "r1" (commit "r1" db).1).1

abbrev last : System ℕ
last = record {
  db = (notify true done_first (notify true done_second after_both).1).1;
  waiting = [];
  owing = [];
}

two_calls : Reach milli first last
unfolding run
two_calls =
    next
      (next
        (next
          (next
            (next (next here (start fetch_paid "r1" none to_complete refl))
              (start fetch_paid "r1" none to_complete refl))
            (complete [] (("r1", to_complete) ∷ []) "r1" refl))
          (complete [] [] "r1" refl))
        (queue [] (done_first ∷ []) done_second true refl))
      (queue [] [] done_first true refl)

notified_once_example : jobs_for "o1" last.db ≤ 1
notified_once_example = notified_once milli "o1" first last two_calls (omega arith) (omega arith)

one_job : jobs_for "o1" last.db ≡ 1
unfolding run
one_job = refl

notified_twice_example :
    (settle_read true "r1" (some payment) (settle_read true "r1" (some payment) db).1).1.jobs
    ≡ notification (record order { status = confirmed }) ann (row ∷ [])
      ∷ notification (record order { status = confirmed }) ann (row ∷ [])
      ∷ []
notified_twice_example = notified_twice db "r1" {payment = payment} refl refl refl refl

-- A digest that puts the key before the text, and bodies that are a reference.
abbrev hmac : String → String → String
hmac key text = String.◌++◌ key text

abbrev parse : String → Option (Option String)
parse text = some (some text)

webhook_changes :
    (paystack_webhook_handler milli fetch_paid hmac (some "k") parse true "r1" (some "kr1") db).1
    ≢ db
unfolding run paystack_webhook_handler verify_webhook_signature
webhook_changes h = let more : 1 ≡ 0 = ap (λ (s : Db ℕ). length s.jobs) h in ground arith

paystack_webhook_handler-IsSigned_example :
    IsSigned hmac (some "k") "r1" (some "kr1")
    × ((reference : String) × (parse "r1" ≡ some (some reference))
        × (reference ≢ "")
        × ((paystack_webhook_handler milli fetch_paid hmac
              (some "k")
              parse
              true
              "r1"
              (some "kr1")
              db).1
            ≡ (confirm_payment milli fetch_paid true reference none db).1))
paystack_webhook_handler-IsSigned_example =
    paystack_webhook_handler-IsSigned milli fetch_paid hmac (some "k") parse true "r1" (some "kr1")
      db webhook_changes

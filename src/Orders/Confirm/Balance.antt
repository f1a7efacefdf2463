-- ===== src/Orders/Confirm/Balance.antt =====
-- `confirmPayment`, transaction and notification apart: no notification without a payment that was
-- completed.
use jhaz_imprints.Common.{
  ℕ, ◌+◌, ◌≤◌, String, ◌≡◌, refl, Bool, true, false, Option, none, some, List, [], ◌∷◌, ◌++◌, arith,
  ◌==◌, eq_iff, if◌then◌else◌, to_nat, find_first, count, count-concat, count-update_first,
  count-update_same, find_first-holds, Option-cases, inl, inr, ok, err, Result, Exec, gets,
  transaction, pure, ◌>>=◌,
}
use jhaz_imprints.Schema.{
  Order, OrderItem, User, Payment, PaymentStatus, Job, Db, is_completed, completed,
}
use jhaz_imprints.Store.{
  has_id, has_user_id, has_reference, update_payment, update_order, add_history, add_job,
}
use jhaz_imprints.Orders.Confirm.Success.{complete_payment-ok}
use jhaz_imprints.Orders.Confirm.{
  confirmation, Updated, to_fail, to_complete, complete_payment, fail_payment, note_failure,
  settle_read, unless_completed, notify, notification, settle,
}

abbrev pub completed_of : {F : Type 0} → String → Payment F → Bool
completed_of o p = if p.order_id == o then is_completed p.status else false

abbrev pub job_of : {F : Type 0} → String → Job F → Bool
job_of o j = j.order_id == o

abbrev pub payment_of : {F : Type 0} → String → Payment F → Bool
payment_of o p = p.order_id == o

module _ {F : Type 0} where
  -- Notifications of an order, completed payments of it, and all its payments.
  abbrev pub jobs_for : String → Db F → ℕ
  jobs_for o s = count (job_of o) s.jobs

  abbrev pub completed_for : String → Db F → ℕ
  completed_for o s = count (completed_of o) s.payments

  abbrev pub payments_for : String → Db F → ℕ
  payments_for o s = count (payment_of o) s.payments

-- The notifications that a call has yet to queue for an order.
abbrev pub job_share : {F : Type 0} → String → Updated F → ℕ
job_share o u = elim u.order [ none ↦ 0 | some y ↦ to_nat (y.id == o) ]

abbrev pub jobs_due : {F : Type 0} → String → List (Updated F) → ℕ
jobs_due o [] = 0
jobs_due o (u ∷ us) = job_share o u + jobs_due o us

pub jobs_due-concat :
    {F : Type 0} (o : String) (us vs : List (Updated F))
    → jobs_due o (us ++ vs) ≡ jobs_due o us + jobs_due o vs
jobs_due-concat o [] vs = omega arith
jobs_due-concat o (u ∷ us) vs = omega (arith, jobs_due-concat o us vs)

-- What a step keeps: nothing is queued, or left to be queued, without a newly completed payment.
pub record IsBalanced {F : Type 0} (o : String) (before after : Db F) (due owed : ℕ) : Type 0 where
  pub jobs :
      (jobs_for o after + owed) + completed_for o before
      ≤ completed_for o after + (jobs_for o before + due)
  pub payments : payments_for o after ≡ payments_for o before
  pub kept : completed_for o before ≤ completed_for o after

pub IsBalanced-refl : {F : Type 0} (o : String) (s : Db F) (due : ℕ) → IsBalanced o s s due due
IsBalanced-refl o s due = record { jobs = omega arith; payments = refl; kept = omega arith }

abbrev pub set_status : {F : Type 0} → PaymentStatus → Payment F → Payment F
set_status st p = record p { status = st }

module _ {F : Type 0} (o reference : String) (s : Db F) where
  pub settle_fail-IsBalanced :
      (queue_up : Bool) (due : ℕ) → IsBalanced o s (settle queue_up reference to_fail s).1 due due
  unfolding settle unless_completed fail_payment note_failure update_payment add_history
  settle_fail-IsBalanced queue_up due =
      elim (Option-cases (find_first (has_reference reference) s.payments)) [
        | inl missing ↦ ground arith
        | inr (x, found) ↦ ground (
          arith,
          count-update_first (has_reference reference) (completed_of o)
              (set_status PaymentStatus.failed) s.payments x found,
          count-update_same (has_reference reference) (payment_of o)
              (set_status PaymentStatus.failed) s.payments (λ p. refl),
        )
      ]

pub order_id-notification :
    {F : Type 0} (order : Order F) (user : User) (items : List (OrderItem F))
    → (notification order user items).order_id ≡ order.id
unfolding notification
order_id-notification order user [] = refl
order_id-notification order user (i ∷ is) = refl

module _ {F : Type 0} (o : String) (queue_up : Bool) (s : Db F) where
  pub jobs-notify :
      (order : Option (Order F)) (payment : Payment F) (already : Bool)
      → let u : Updated F = record {
        order = order;
        payment = payment;
        already_processed = already;
      } in
        (jobs_for o (notify queue_up u s).1 ≤ jobs_for o s + job_share o u)
        × ((notify queue_up u s).1.payments ≡ s.payments)
  unfolding notify add_job
  jobs-notify none payment already = (omega arith, refl)
  jobs-notify (some y) payment true = (omega arith, refl)
  jobs-notify (some y) payment false =
      elim (Option-cases (find_first (has_user_id y.user_id) s.users)) [
        | inl missing ↦ ground arith
        | inr (user, found) ↦ ground (
          arith,
          count-concat (job_of o) s.jobs (notification y user y.items),
          order_id-notification y user y.items,
        )
      ]

module _ {F : Type 0} (o reference : String) (s : Db F) {x : Payment F} {y : Order F}
    (found : find_first (has_reference reference) s.payments ≡ some x)
    (of : find_first (has_id x.order_id) s.orders ≡ some y) where
  pub counts-complete_payment :
      is_completed x.status ≡ false
      → (completed_for o (complete_payment reference s).1 ≡ completed_for o s + to_nat (y.id == o))
        × (payments_for o (complete_payment reference s).1 ≡ payments_for o s)
        × (jobs_for o (complete_payment reference s).1 ≡ jobs_for o s)
  unfolding complete_payment update_payment update_order add_history
  counts-complete_payment opened = ground (
    arith,
    count-update_first (has_reference reference) (completed_of o) (set_status completed) s.payments
        x found,
    count-update_same (has_reference reference) (payment_of o) (set_status completed) s.payments
        (λ p. refl),
    find_first-holds (has_id x.order_id) s.orders y of,
    eq_iff y.id x.order_id,
  )

module _ {F : Type 0} where
  -- The transaction of a payment that has succeeded: the first half of `settle`.
  unfoldable pub commit : String → Exec (Db F) (Updated F)
  commit reference = do
    locked ← gets (λ s. find_first (has_reference reference) s.payments)
    transaction (unless_completed reference (complete_payment reference) locked)

  abbrev pub owed_by : Result (Updated F) → List (Updated F)
  owed_by (ok u) = u ∷ []
  owed_by (err e) = []

  -- The other half is the notification.
  pub settle-commit :
      (queue_up : Bool) (reference : String) (s : Db F)
      → settle queue_up reference to_complete s
        ≡ (commit reference >>= λ u. notify queue_up u >>= λ _. pure (confirmation completed u)) s
  unfolding settle settle_read commit
  settle-commit queue_up reference s = refl

module _ {F : Type 0} (o reference : String) (s : Db F) where
  pub commit-IsBalanced :
      (due : ℕ)
      → IsBalanced o s
          (commit reference s).1
          due
          (jobs_due o (owed_by (commit reference s).0) + due)
  unfolding commit unless_completed
  commit-IsBalanced due = elim (Option-cases (find_first (has_reference reference) s.payments)) [
    | inl missing ↦ unfold complete_payment update_payment in ground arith
    | inr (x, found) ↦ elim (Option-cases (find_first (has_id x.order_id) s.orders)) [
      | inl orphan ↦ unfold complete_payment update_payment update_order in ground arith
      | inr (y, of) ↦ ground (
        arith,
        complete_payment-ok s reference found of,
        counts-complete_payment o reference s found of,
      )
    ]
  ]

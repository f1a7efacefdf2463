-- ===== src/Orders/Confirm/Race.antt =====
-- Confirmations that run at the same time, for instance the webhook and the customer's browser.
-- Each call reads and asks Paystack first, its transaction runs at some later moment, and its job is
-- queued later still, with any steps of other calls between. A transaction is one step here, from its
-- re-read to its end, as if the re-read locked the row; Stale is about what happens as it does not.
use jhaz_imprints.Common.{
  ◌+◌, ◌≤◌, String, ◌≡◌, Bool, true, Option, List, [], ◌∷◌, ◌++◌, arith, count, ok, ◌∙◌, ap,
}
use jhaz_imprints.Numbers.{Arith}
use jhaz_imprints.Schema.{Payment, Db}
use jhaz_imprints.Paystack.{Reply, VerifyBody}
use jhaz_imprints.Orders.Confirm.{
  Caller, Confirmation, Precheck, Updated, answered, to_fail, to_complete, notify, settle, precheck,
  check_open,
}
use jhaz_imprints.Orders.Confirm.Balance.{
  IsBalanced, IsBalanced-refl, commit, commit-IsBalanced, completed_for, completed_of, job_share,
  jobs-notify, jobs_due, jobs_due-concat, jobs_for, owed_by, payment_of, payments_for,
  settle_fail-IsBalanced,
}

-- Reading and asking Paystack writes nothing.
pub precheck_reads :
    {F : Type 0} (num : Arith F) (fetch : String → Reply (VerifyBody F)) (reference : String)
    (caller : Option Caller) (s : Db F)
    → (precheck num fetch reference caller s).1 ≡ s
unfolding precheck check_open
precheck_reads num fetch reference caller s = ground arith

-- The database; the calls that have their answer from Paystack and wait for their transaction; and
-- those whose transaction is done and whose job is not queued yet.
pub record System (F : Type 0) : Type 0 where
  pub db : Db F
  pub waiting : List (String × Precheck F)
  pub owing : List (Updated F)

module _ {F : Type 0} (num : Arith F) where
  -- A call of `confirmPayment` comes in, with any caller and any answer of Paystack; or a call, any
  -- of them, goes on: it answers, or its transaction runs, or its job is queued, or is refused.
  pub data Step : System F → System F → Type 0 where
    start :
        {sys : System F} (fetch : String → Reply (VerifyBody F)) (reference : String)
        (caller : Option Caller) (p : Precheck F)
        → (precheck num fetch reference caller sys.db).0 ≡ ok p
        → Step sys (record {
          db = (precheck num fetch reference caller sys.db).1;
          waiting = (reference, p) ∷ sys.waiting;
          owing = sys.owing;
        })
    reply :
        {sys : System F} (before after : List (String × Precheck F)) (reference : String)
        (c : Confirmation F)
        → sys.waiting ≡ before ++ (reference, answered c) ∷ after
        → Step sys (record { db = sys.db; waiting = before ++ after; owing = sys.owing })
    fail :
        {sys : System F} (before after : List (String × Precheck F)) (reference : String)
        → sys.waiting ≡ before ++ (reference, to_fail) ∷ after
        → Step sys (record {
          db = (settle true reference to_fail sys.db).1;
          waiting = before ++ after;
          owing = sys.owing;
        })
    complete :
        {sys : System F} (before after : List (String × Precheck F)) (reference : String)
        → sys.waiting ≡ before ++ (reference, to_complete) ∷ after
        → Step sys (record {
          db = (commit reference sys.db).1;
          waiting = before ++ after;
          owing = owed_by (commit reference sys.db).0 ++ sys.owing;
        })
    queue :
        {sys : System F} (before after : List (Updated F)) (u : Updated F) (queue_up : Bool)
        → sys.owing ≡ before ++ u ∷ after
        → Step sys (record {
          db = (notify queue_up u sys.db).1;
          waiting = sys.waiting;
          owing = before ++ after;
        })

  pub data Reach (a : System F) : System F → Type 0 where
    here : Reach a a
    next : {b c : System F} → Reach a b → Step b c → Reach a c

  abbrev Balances : String → System F → System F → Type 0
  Balances o a b = IsBalanced o a.db b.db (jobs_due o a.owing) (jobs_due o b.owing)

  Step-Balances : {a b : System F} (o : String) → Step a b → Balances o a b
  Step-Balances {a} o (start fetch reference caller p h) =
      rw (precheck_reads num fetch reference caller a.db)
        (IsBalanced-refl o a.db (jobs_due o a.owing))
  Step-Balances {a} o (reply before after reference c h) =
      IsBalanced-refl o a.db (jobs_due o a.owing)
  Step-Balances {a} o (fail before after reference h) =
      settle_fail-IsBalanced o reference a.db true (jobs_due o a.owing)
  Step-Balances {a} o (complete before after reference h) =
      rw (jobs_due-concat o (owed_by (commit reference a.db).0) a.owing)
        (commit-IsBalanced o reference a.db (jobs_due o a.owing))
  Step-Balances {a} o (queue before after u queue_up h) =
      let owed : jobs_due o a.owing ≡ jobs_due o before + (job_share o u + jobs_due o after) =
        ap (jobs_due o) h ∙ jobs_due-concat o before (u ∷ after) in
      let left = jobs_due-concat o before after in
      let (few, same) = jobs-notify o queue_up a.db u.order u.payment u.already_processed in
      let same_completed : completed_for o (notify queue_up u a.db).1 ≡ completed_for o a.db =
        ap (count (completed_of o)) same in
      record {
        jobs = omega (arith, owed, left, few, same_completed);
        payments = ap (count (payment_of o)) same;
        kept = omega (arith, same_completed);
      }

  Reach-Balances : {a b : System F} (o : String) → Reach a b → Balances o a b
  Reach-Balances {a} o here = IsBalanced-refl o a.db (jobs_due o a.owing)
  Reach-Balances {a} o (next {b} {c} r st) =
      let first = Reach-Balances o r in
      let last = Step-Balances o st in
      record {
        jobs = omega (arith, first.jobs, last.jobs);
        payments = last.payments ∙ first.payments;
        kept = omega (arith, first.kept, last.kept);
      }

count_le :
    {F : Type 0} (o : String) (ps : List (Payment F))
    → count (completed_of o) ps ≤ count (payment_of o) ps
count_le o [] = omega arith
count_le o (p ∷ ps) = ground (arith, count_le o ps)

-- If the transactions of `confirmPayment` run one at a time, each from its re-read to its end (the
-- re-read takes no lock, so Postgres does not promise that by default), then, in whatever order the first
-- reads, the transactions and the queueing of jobs of any calls come, an order that has at most one payment, and
-- to begin with no more notifications, queued or to be queued, than completed payments, is never notified twice.
pub notified_once :
    {F : Type 0} (num : Arith F) (o : String) (a b : System F)
    → Reach num a b
    → payments_for o a.db ≤ 1
    → jobs_for o a.db + jobs_due o a.owing ≤ completed_for o a.db
    → jobs_for o b.db ≤ 1
notified_once num o a b r one few =
    let kept = Reach-Balances num o r in
    omega (arith, kept.jobs, kept.payments, count_le o b.db.payments)

-- No overlap of calls undoes a completed payment: their number for an order never falls.
pub completed_stays :
    {F : Type 0} (num : Arith F) (o : String) (a b : System F)
    → Reach num a b
    → completed_for o a.db ≤ completed_for o b.db
completed_stays num o a b r = let kept = Reach-Balances num o r in kept.kept

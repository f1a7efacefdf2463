-- ===== src/Orders/Reprice/Paid.antt =====
-- What repricing stores, and what it does to a payment that is under way.
use jhaz_imprints.Common.{
  String, ◌≡◌, refl, Bool, true, false, Option, some, List, ◌∷◌, arith, eq_iff, ok, err, app_error,
  find_first, find_first-update_first, update_many, update_first, find_first-update_many,
}
use jhaz_imprints.Numbers.{Arith}
use jhaz_imprints.Schema.{Order, OrderStatus, Payment, OrderItem, Db, is_completed}
use jhaz_imprints.Store.{has_id, of_order, has_reference, update_order}
use jhaz_imprints.Catalog.{Catalog}
use jhaz_imprints.Paystack.{Reply, body, VerifyBody, verify_payment, success}
use jhaz_imprints.Orders.Notes.{parse_notes_metadata}
use jhaz_imprints.Orders.Confirm.{Caller, may_confirm, confirm_payment, precheck, check_open, judge}
use jhaz_imprints.Orders.Reprice.{
  reprice_items, latest_total, reprice_pending, revalidate_order_pricing, set_amount, set_prices,
}

module _ {F : Type 0} (num : Arith F) (catalog : Catalog F) (order : Order F) where
  -- The rows and the total of an order by the catalog as it is.
  abbrev pub latest_rows : List (OrderItem F)
  latest_rows = reprice_items num catalog order.items

  abbrev pub new_total : F
  new_total = latest_total num latest_rows order.notes

  abbrev pub repriced : Order F
  repriced = set_prices latest_rows new_total order

  reprice_pending-writes :
      (s : Db F) (i : OrderItem F) (is : List (OrderItem F))
      → find_first (has_id order.id) s.orders ≡ some order
      → order.items ≡ i ∷ is
      → num.eq new_total order.total_amount ≡ false
      → reprice_pending num catalog order order.items s ≡ (
        ok (parse_notes_metadata repriced),
        record s {
          orders = update_first (has_id order.id) (set_prices latest_rows new_total) s.orders;
          payments = update_many (of_order order.id) (set_amount new_total) s.payments;
        },
      )
  unfolding reprice_pending update_order
  reprice_pending-writes s i is found items differ = ground arith

  revalidate-writes :
      (s : Db F) (i : OrderItem F) (is : List (OrderItem F))
      → find_first (has_id order.id) s.orders ≡ some order
      → order.status ≡ OrderStatus.pending
      → order.items ≡ i ∷ is
      → num.eq new_total order.total_amount ≡ false
      → revalidate_order_pricing num catalog order s
        ≡ reprice_pending num catalog order order.items s
  unfolding revalidate_order_pricing
  revalidate-writes s i is found waiting items differ = ground arith

pub revalidate-stores :
    {F : Type 0} (num : Arith F) (catalog : Catalog F) (s : Db F) (order : Order F)
    (i : OrderItem F) (is : List (OrderItem F)) (reference : String) (payment : Payment F)
    → find_first (has_id order.id) s.orders ≡ some order
    → order.status ≡ OrderStatus.pending
    → order.items ≡ i ∷ is
    → num.eq (new_total num catalog order) order.total_amount ≡ false
    → find_first (has_reference reference) s.payments ≡ some payment
    → payment.order_id ≡ order.id
    → let (answer, after) = revalidate_order_pricing num catalog order s in
      (answer ≡ ok (parse_notes_metadata (repriced num catalog order)))
      × (find_first (has_id order.id) after.orders ≡ some (repriced num catalog order))
      × (find_first (has_reference reference) after.payments
          ≡ some (record payment { amount = new_total num catalog order }))
revalidate-stores {F} num catalog s order i is reference payment found waiting items differ owed
      mine =
    rw (revalidate-writes num catalog order s i is found waiting items differ) (
      rw (reprice_pending-writes num catalog order s i is found items differ) (
        refl,
        ground (
          arith,
          find_first-update_first (has_id order.id)
              (set_prices (latest_rows num catalog order) (new_total num catalog order)) s.orders
              (λ o. refl),
        ),
        ground (
          arith,
          find_first-update_many (has_reference reference) (of_order order.id)
              (set_amount (new_total num catalog order)) s.payments (λ p. refl),
          eq_iff payment.order_id order.id,
        ),
      ))

-- A customer who has paid cannot be confirmed any more once the order is repriced: if a pending
-- order's total by the catalog is another, and somebody views the order, then a confirmation of its
-- payment for which Paystack reports success and an amount other than the new total, such as the
-- one that was charged, throws the error 400.
pub reprice-strands :
    {F : Type 0} (num : Arith F) (catalog : Catalog F) (fetch : String → Reply (VerifyBody F))
    (queue_up : Bool) (s : Db F) (order : Order F) (i : OrderItem F) (is : List (OrderItem F))
    (reference : String) (caller : Option Caller) (payment : Payment F) (b : VerifyBody F)
    → find_first (has_id order.id) s.orders ≡ some order
    → order.status ≡ OrderStatus.pending
    → order.items ≡ i ∷ is
    → num.eq (new_total num catalog order) order.total_amount ≡ false
    → find_first (has_reference reference) s.payments ≡ some payment
    → payment.order_id ≡ order.id
    → is_completed payment.status ≡ false
    → may_confirm caller order.user_id ≡ true
    → fetch reference ≡ body b
    → b.status ≡ true
    → b.data_status ≡ success
    → num.eq (num.div b.amount (num.of_nat 100)) (new_total num catalog order) ≡ false
    → (confirm_payment num fetch queue_up reference caller
        (revalidate_order_pricing num catalog order s).1).0
      ≡ err (app_error 400 "Payment amount mismatch with Paystack verification")
unfolding confirm_payment precheck check_open judge verify_payment
reprice-strands num catalog fetch queue_up s order i is reference caller payment b found waiting
      items differ owed mine opened allowed answer well paid short =
    let (answered, stored, charged) =
      revalidate-stores num catalog s order i is reference payment found waiting items differ owed
        mine in
    ground (arith, stored, charged)

-- ===== src/Orders/Status/Series.antt =====
-- Any series of requests to `updateOrderStatus`.
use jhaz_imprints.Common.{
  String, ◌≡◌, Option, some, List, [], ◌∷◌, arith, ◌==◌, eq_iff, find_first, Bool-cases, ◌∙◌,
  Result-cases, ok, inl, inr,
}
use jhaz_imprints.Schema.{Role, cancelled, Order, Db}
use jhaz_imprints.Store.{has_id, update_order, add_history}
use jhaz_imprints.Orders.Notes.{OrderView}
use jhaz_imprints.Orders.Status.{StatusUpdate, update_order_status}
use jhaz_imprints.Orders.Status.Writes.{
  tailor_after, orders-other, update_order_status-writes, update_order_status-refused,
}

-- One request of a series.
pub record Request : Type 0 where
  pub id : String
  pub input : StatusUpdate
  pub role : Role
  pub user : Option String

abbrev pub serve : {F : Type 0} → List Request → Db F → Db F
serve [] s = s
serve (r ∷ rs) s = serve rs (update_order_status r.id r.input r.role r.user s).1

abbrev IsCancelledIn : {F : Type 0} → String → Db F → Type 0
IsCancelledIn {F} o s =
    (order : Order F) × (find_first (has_id o) s.orders ≡ some order) × (order.status ≡ cancelled)

module _ {F : Type 0} (o : String) (r : Request) (s : Db F) where
  status-accepted :
      (order : Order F) (view : OrderView F)
      → find_first (has_id r.id) s.orders ≡ some order
      → order.status ≡ cancelled
      → (update_order_status r.id r.input r.role r.user s).0 ≡ ok view
      → r.input.status ≡ cancelled
  unfolding update_order_status update_order add_history
  status-accepted order view found is h = ground arith

  cancelled_self :
      r.id ≡ o
      → IsCancelledIn o s
      → IsCancelledIn o (update_order_status r.id r.input r.role r.user s).1
  cancelled_self same (order, found, is) =
      let mine : find_first (has_id r.id) s.orders ≡ some order = rw same found in
      elim (Result-cases (update_order_status r.id r.input r.role r.user s).0) [
        | inl (view, accept) ↦ (
          record order {
            status = r.input.status;
            tailor_id = tailor_after r.role r.input.tailor_id order.tailor_id;
          },
          rw (← same)
              (update_order_status-writes s r.id r.input r.role r.user order view mine accept).0,
          status-accepted order view mine is accept,
        )
        | inr (e, refuse) ↦
            rw (update_order_status-refused s r.id r.input r.role r.user e refuse)
              (order, found, is)
      ]

  cancelled-step :
      IsCancelledIn o s → IsCancelledIn o (update_order_status r.id r.input r.role r.user s).1
  cancelled-step (order, found, is) = elim (Bool-cases (r.id == o)) [
    | inr other ↦ (order, orders-other s r.id r.input r.role r.user o other ∙ found, is)
    | inl same ↦ cancelled_self ((eq_iff _ _).0 same) (order, found, is)
  ]

-- No series of requests to `updateOrderStatus`, by whomever, brings a cancelled order back to another
-- status. (A confirmation of its payment does.)
pub serve-cancelled :
    {F : Type 0} (o : String) (rs : List Request) (s : Db F) (order : Order F)
    → find_first (has_id o) s.orders ≡ some order
    → order.status ≡ cancelled
    → (last : Order F) × (find_first (has_id o) (serve rs s).orders ≡ some last)
      × (last.status ≡ cancelled)
serve-cancelled o [] s order found is = (order, found, is)
serve-cancelled o (r ∷ rs) s order found is =
    let (order', found', is') = cancelled-step o r s (order, found, is) in
    serve-cancelled o rs (update_order_status r.id r.input r.role r.user s).1 order' found' is'

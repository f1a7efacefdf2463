-- ===== src/Orders/Status/Writes.antt =====
-- What `updateOrderStatus` writes.
use mathlib.Core.Option
use jhaz_imprints.Common.{
  String, ◌≡◌, refl, true, false, Option, none, some, [], ◌∷◌, ◌++◌, arith, ◌==◌, eq_iff,
  update_first, ap, find_first, find_first-update_first, find_first-update_other, ◌∙◌, ok, err,
  Failure,
}
use jhaz_imprints.Schema.{Role, customer, admin, tailor, Order, Db}
use jhaz_imprints.Store.{has_id, update_order, add_history}
use jhaz_imprints.Orders.Notes.{OrderView}
use jhaz_imprints.Orders.Status.{
  StatusUpdate, update_order_status, updated_order, reassigned, manual_note,
}

-- Whose order it is afterwards: an admin's request may name a tailor or nobody.
abbrev pub tailor_after : Role → Option (Option String) → Option String → Option String
tailor_after admin (some named) old = named
tailor_after admin none old = old
tailor_after customer _ old = old
tailor_after tailor _ old = old

reassigned-tailor_after :
    (role : Role) (named : Option (Option String)) (old : Option String)
    → reassigned role named old ≡ tailor_after role named old
reassigned-tailor_after admin (some t) old = refl
reassigned-tailor_after admin none old = refl
reassigned-tailor_after customer named old = refl
reassigned-tailor_after tailor named old = refl

-- Another order is not touched.
pub orders-other :
    {F : Type 0} (s : Db F) (id : String) (input : StatusUpdate) (role : Role)
    (user : Option String) (other : String)
    → (id == other) ≡ false
    → find_first (has_id other) (update_order_status id input role user s).1.orders
      ≡ find_first (has_id other) s.orders
unfolding update_order_status update_order add_history
orders-other {F} s id input role user other apart = ground (
  arith,
  find_first-update_other (has_id id) (has_id other) (updated_order role input) s.orders
      (λ (x : Order F) (h : (x.id == id) ≡ true).
        let e : (x.id == other) ≡ false =
          ground (arith, eq_iff x.id id, eq_iff id other, eq_iff x.id other) in
        (e, e)),
)

-- The whole state behind an accepted request.
state_accepted :
    {F : Type 0} (s : Db F) (id : String) (input : StatusUpdate) (role : Role)
    (user : Option String) (order : Order F) (view : OrderView F)
    → find_first (has_id id) s.orders ≡ some order
    → (update_order_status id input role user s).0 ≡ ok view
    → (update_order_status id input role user s).1 ≡ record s {
      orders = update_first (has_id id) (updated_order role input) s.orders;
      history =
          s.history
          ++ record { order_id = id; status = input.status; note = some (manual_note input role) }
            ∷ [];
    }
unfolding update_order_status update_order add_history
state_accepted s id input role user order view found h = ground arith

-- An accepted request stores the order with the new status, and with the new tailor if an admin
-- names one or null, and changes no other column of it; adds one history entry with the status; and
-- changes no other order, and no payment, user or queued notification.
pub update_order_status-writes :
    {F : Type 0} (s : Db F) (id : String) (input : StatusUpdate) (role : Role)
    (user : Option String) (order : Order F) (view : OrderView F)
    → find_first (has_id id) s.orders ≡ some order
    → (update_order_status id input role user s).0 ≡ ok view
    → let after = (update_order_status id input role user s).1 in
      (find_first (has_id id) after.orders
        ≡ some (record order {
          status = input.status;
          tailor_id = tailor_after role input.tailor_id order.tailor_id;
        }))
      × ((other : String)
          → (id == other) ≡ false
          → find_first (has_id other) after.orders ≡ find_first (has_id other) s.orders)
      × (after.history
          ≡ s.history
            ++ record { order_id = id; status = input.status; note = some (manual_note input role) }
              ∷ [])
      × (after.payments ≡ s.payments)
      × (after.users ≡ s.users)
      × (after.jobs ≡ s.jobs)
update_order_status-writes s id input role user order view found h =
    let stored =
      find_first-update_first (has_id id) (updated_order role input) s.orders (λ o. refl)
      ∙ ap (λ x. Option.map (updated_order role input) x) found in
    let tailor_set = reassigned-tailor_after role input.tailor_id order.tailor_id in
    let after = state_accepted s id input role user order view found h in
    (
      rw after (
          stored
          ∙ ap (λ t. some (record order { status = input.status; tailor_id = t })) tailor_set),
      orders-other s id input role user,
      rw after refl,
      rw after refl,
      rw after refl,
      rw after refl,
    )

-- A refused request leaves the whole state as it was.
pub update_order_status-refused :
    {F : Type 0} (s : Db F) (id : String) (input : StatusUpdate) (role : Role)
    (user : Option String) (e : Failure)
    → (update_order_status id input role user s).0 ≡ err e
    → (update_order_status id input role user s).1 ≡ s
unfolding update_order_status update_order add_history
update_order_status-refused s id input role user e h = ground arith

-- ===== src/Orders/Status/Transitions.antt =====
-- Which status changes `updateOrderStatus` accepts.
use jhaz_imprints.Common.{
  String, ◌≡◌, ◌≢◌, ◌↔◌, ◌⊎◌, refl, true, Option, none, some, List, arith, eq_iff, find_first,
  Option-cases, ok, inl, inr, eq_refl,
}
use jhaz_imprints.Schema.{
  Role, customer, admin, tailor, OrderStatus, confirmed, in_production, ready, cancelled, User,
  Order, Db,
}
use jhaz_imprints.Store.{has_id, has_user_id, update_order, add_history}
use jhaz_imprints.Orders.Notes.{parse_notes_metadata}
use jhaz_imprints.Orders.Status.{StatusUpdate, update_order_status, updated_order, names_user}

-- The policy. An admin may do anything but revive a cancelled order; a tailor may move an order
-- that is assigned to them from an early status on to production or to ready.
abbrev pub IsAllowed : {F : Type 0} → Order F → Option String → Role → OrderStatus → Type 0
IsAllowed order user customer to = ⊥
IsAllowed order user admin to = (order.status ≢ cancelled) ⊎ (to ≡ cancelled)
IsAllowed order user tailor to =
    (t : String) × (order.tailor_id ≡ some t)
    × (user ≡ some t)
    × ((order.status ≡ OrderStatus.pending)
        ⊎ ((order.status ≡ confirmed) ⊎ (order.status ≡ in_production)))
    × ((to ≡ in_production) ⊎ (to ≡ ready))

-- A tailor whom an admin names is one of the users; what a tailor's request names is not looked at.
abbrev pub NamesUser : List User → Role → Option (Option String) → Type 0
NamesUser users admin (some (some t)) = (u : User) × (find_first (has_user_id t) users ≡ some u)
NamesUser users _ _ = Unit

names_user-NamesUser :
    (users : List User) (role : Role) (tailor_id : Option (Option String))
    → names_user role tailor_id users ≡ true
    → NamesUser users role tailor_id
names_user-NamesUser users admin (some (some t)) h =
    elim (Option-cases (find_first (has_user_id t) users)) [
      | inl missing ↦ ground arith
      | inr (u, found) ↦ (u, found)
    ]
names_user-NamesUser users admin (some none) h = tt
names_user-NamesUser users admin none h = tt
names_user-NamesUser users customer tailor_id h = tt
names_user-NamesUser users tailor tailor_id h = tt

NamesUser-names_user :
    (users : List User) (role : Role) (tailor_id : Option (Option String))
    → NamesUser users role tailor_id
    → names_user role tailor_id users ≡ true
NamesUser-names_user users admin (some (some t)) (u, found) = ground (arith, found)
NamesUser-names_user users admin (some none) h = refl
NamesUser-names_user users admin none h = refl
NamesUser-names_user users customer tailor_id h = refl
NamesUser-names_user users tailor tailor_id h = refl

module _ {F : Type 0} (s : Db F) (id : String) (note : Option String)
    (tailor_id : Option (Option String)) (user : Option String) {order : Order F}
    (found : find_first (has_id id) s.orders ≡ some order) where
  abbrev request : OrderStatus → StatusUpdate
  request to = record { status = to; note = note; tailor_id = tailor_id }

  abbrev Accepts : Role → OrderStatus → Type 0
  Accepts role to =
      (update_order_status id (request to) role user s).0
      ≡ ok (parse_notes_metadata (updated_order role (request to) order))

  accepted :
      (role : Role) (to : OrderStatus)
      → IsAllowed order user role to
      → names_user role tailor_id s.users ≡ true
      → Accepts role to
  unfolding update_order_status update_order add_history
  accepted customer to h known = absurd h
  accepted admin to h known = ground arith
  accepted tailor to (t, assigned, is_user, from, onto) known = ground (arith, eq_refl t)

  known-of_Accepts :
      (role : Role) (to : OrderStatus) → Accepts role to → names_user role tailor_id s.users ≡ true
  unfolding update_order_status update_order add_history
  known-of_Accepts customer to h = refl
  known-of_Accepts admin to h = ground arith
  known-of_Accepts tailor to h = refl

  IsAllowed-of_Accepts :
      (role : Role) (to : OrderStatus) → Accepts role to → IsAllowed order user role to
  unfolding update_order_status update_order add_history
  IsAllowed-of_Accepts customer to h = ground arith
  IsAllowed-of_Accepts admin to h = ground arith
  IsAllowed-of_Accepts tailor to h = elim (Option-cases order.tailor_id) [
    | inl nobody ↦ ground arith
    | inr (t, assigned) ↦ elim (Option-cases user) [
      | inl anonymous ↦ ground arith
      | inr (u, is_user) ↦ (t, assigned, ground (arith, eq_iff t u), ground arith, ground arith)
    ]
  ]

-- A request for a stored order is accepted, with the updated order as the answer, exactly when the
-- policy allows the change to this role and user, and the tailor whom an admin names, if any, is one
-- of the stored users.
pub update_order_status_iff :
    {F : Type 0} (s : Db F) (id : String) (input : StatusUpdate) (role : Role)
    (user : Option String) (order : Order F)
    → find_first (has_id id) s.orders ≡ some order
    → ((update_order_status id input role user s).0
        ≡ ok (parse_notes_metadata (updated_order role input order)))
      ↔ (IsAllowed order user role input.status × NamesUser s.users role input.tailor_id)
update_order_status_iff s id input role user order found = (
  λ h. (
    IsAllowed-of_Accepts s id input.note input.tailor_id user found role input.status h,
    names_user-NamesUser s.users role input.tailor_id
        (known-of_Accepts s id input.note input.tailor_id user found role input.status h),
  ),
  λ h.
      let (allowed, named) = h in
      accepted s id input.note input.tailor_id user found role input.status allowed
        (NamesUser-names_user s.users role input.tailor_id named),
)

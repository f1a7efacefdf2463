-- ===== src/Orders/Status.antt =====
-- `updateOrderStatus` of orderService.ts.
pub mod Transitions
pub mod Writes
pub mod Series
use Prim.Native.String
use jhaz_imprints.Common.{
  String, Bool, true, false, Option, none, some, ◌==◌, if◌then◌else◌, or_default, app_error, error,
  List, is_some, Exec, pure, gets, or_throw, transaction, guard, find_first, ◌>>=◌, ◌>>◌,
}
use jhaz_imprints.Schema.{
  Role, customer, admin, tailor, OrderStatus, confirmed, in_production, ready, dispatched,
  delivered, cancelled, User, Order, Db, is_admin, is_tailor, is_cancelled,
}
use jhaz_imprints.Store.{has_id, has_user_id, update_order, add_history}
use jhaz_imprints.Orders.Notes.{OrderView, parse_notes_metadata, non_empty}

-- The body of the request. `tailor_id` may be absent, null or an id.
pub record StatusUpdate : Type 0 where
  pub status : OrderStatus
  pub note : Option String
  pub tailor_id : Option (Option String)

abbrev pub status_text : OrderStatus → String
status_text OrderStatus.pending = "PENDING"
status_text confirmed = "CONFIRMED"
status_text in_production = "IN_PRODUCTION"
status_text ready = "READY"
status_text dispatched = "DISPATCHED"
status_text delivered = "DELIVERED"
status_text cancelled = "CANCELLED"

abbrev role_text : Role → String
role_text customer = "customer"
role_text admin = "admin"
role_text tailor = "tailor"

-- `order.tailorId === userId`; a null never equals an absent user.
abbrev pub is_assigned : Option String → Option String → Bool
is_assigned (some t) (some u) = t == u
is_assigned _ _ = false

-- `allowedStatuses` and `allowedCurrentStatuses`
abbrev tailor_target : OrderStatus → Bool
tailor_target in_production = true
tailor_target ready = true
tailor_target _ = false

abbrev tailor_source : OrderStatus → Bool
tailor_source OrderStatus.pending = true
tailor_source confirmed = true
tailor_source in_production = true
tailor_source _ = false

abbrev unless : Bool → Bool → Bool
unless a b = if a then b else true

-- The columns that the update sets: the tailor only for an admin who names one, or null.
abbrev pub reassigned : Role → Option (Option String) → Option String → Option String
reassigned admin (some t) old = t
reassigned _ _ old = old

abbrev pub updated_order : {F : Type 0} → Role → StatusUpdate → Order F → Order F
updated_order role input o = record o {
  status = input.status;
  tailor_id = reassigned role input.tailor_id o.tailor_id;
}

abbrev pub manual_note : StatusUpdate → Role → String
manual_note input role = or_default (non_empty input.note) (
    String.◌++◌ "Status updated manually to "
      (String.◌++◌ (status_text input.status) (String.◌++◌ " by " (role_text role))))

-- The foreign key `Order.tailorId`: a tailor who is named is one of the users.
abbrev pub names_user : Role → Option (Option String) → List User → Bool
names_user admin (some (some t)) users = is_some (find_first (has_user_id t) users)
names_user _ _ users = true

module _ {F : Type 0} where
  -- The checks on the stored order, in the source's order.
  check_transition : StatusUpdate → Role → Option String → Order F → Exec (Db F) Unit
  check_transition input role user order = do
    guard (unless (is_tailor role) (is_assigned order.tailor_id user))
        (app_error 403 "Forbidden: You are not assigned to this order")
    guard (unless (is_cancelled order.status) (is_cancelled input.status))
        (app_error 400 "Cannot change status of a cancelled order")
    guard (unless (is_tailor role) (tailor_target input.status)) (
        app_error 403
          "Forbidden: Tailors can only transition orders to IN_PRODUCTION or READY states")
    guard (unless (is_tailor role) (tailor_source order.status)) (
        app_error 403
          "Forbidden: Tailors cannot transition orders that are ready, dispatched, delivered, or cancelled")

  write_status : String → StatusUpdate → Role → Exec (Db F) (Order F)
  write_status id input role = do
    known ← gets (λ s. names_user role input.tailor_id s.users)
    guard known (error "Foreign key constraint violated: Order_tailorId_fkey")
    updated ← update_order (has_id id) (updated_order role input)
    add_history
        (record { order_id = id; status = input.status; note = some (manual_note input role) })
    pure updated

  unfoldable pub update_order_status :
      String → StatusUpdate → Role → Option String → Exec (Db F) (OrderView F)
  unfolding check_transition write_status
  update_order_status id input role user = do
    guard (if is_admin role then true else is_tailor role)
        (app_error 403 "Forbidden: Insufficient permissions to update order status")
    found ← gets (λ s. find_first (has_id id) s.orders)
    order ← or_throw (app_error 404 "Order not found") found
    check_transition input role user order
    updated ← transaction (write_status id input role)
    pure (parse_notes_metadata updated)

-- ===== src/Orders/Reprice/Access.antt =====
-- Who may see an order through `getOrderById`.
use jhaz_imprints.Common.{String, ◌≡◌, some, arith, eq_iff, ok, find_first, Option-cases, inl, inr}
use jhaz_imprints.Numbers.{Arith}
use jhaz_imprints.Schema.{Order, Db, Role, admin, tailor, customer}
use jhaz_imprints.Store.{has_id}
use jhaz_imprints.Catalog.{Catalog}
use jhaz_imprints.Orders.Notes.{OrderView}
use jhaz_imprints.Orders.Reprice.{get_order_by_id, revalidate_order_pricing}

-- An admin sees every order, a tailor those that are assigned to them, a customer their own.
abbrev pub MaySee : {F : Type 0} → Order F → String → Role → Type 0
MaySee order user admin = Unit
MaySee order user tailor = order.tailor_id ≡ some user
MaySee order user customer = order.user_id ≡ user

-- A stored order is shown, as it is after repricing, to those who may see it; and a call that
-- returns anything was made by one of them.
pub get_order_by_id_iff :
    {F : Type 0} (num : Arith F) (catalog : Catalog F) (s : Db F) (user id : String) (role : Role)
    (order : Order F)
    → find_first (has_id id) s.orders ≡ some order
    → (MaySee order user role
        → get_order_by_id num catalog user id role s ≡ revalidate_order_pricing num catalog order s)
      × ((v : OrderView F)
          → (get_order_by_id num catalog user id role s).0 ≡ ok v
          → MaySee order user role)
unfolding get_order_by_id
get_order_by_id_iff num catalog s user id admin order found = (λ h. ground arith, λ v h. tt)
get_order_by_id_iff num catalog s user id tailor order found = elim (Option-cases order.tailor_id) [
  | inl nobody ↦ (λ h. ground arith, λ v h. ground arith)
  | inr (t, assigned) ↦ (λ h. ground (arith, eq_iff t user), λ v h. ground (arith, eq_iff t user))
]
get_order_by_id_iff num catalog s user id customer order found = (
  λ h. ground (arith, eq_iff order.user_id user),
  λ v h. ground (arith, eq_iff order.user_id user),
)

-- ===== src/Store.antt =====
-- Reads and writes of the stored state by key, as Prisma's client makes them for the services.
use jhaz_imprints.Common.{
  String, Bool, none, some, [], ◌∷◌, ◌++◌, ◌==◌, find_first, update_first, ok, err, Failure, error,
  Exec,
}
use jhaz_imprints.Schema.{User, Order, Payment, StatusEntry, Job, Db}

-- Prisma's error P2025, for a write to a row that is not there.
abbrev pub missing_row : Failure
missing_row = error "P2025"

-- The unique keys of the tables.
abbrev pub has_email : String → User → Bool
has_email email u = u.email == email

abbrev pub has_user_id : String → User → Bool
has_user_id id u = u.id == id

module _ {F : Type 0} where
  abbrev pub has_id : String → Order F → Bool
  has_id id o = o.id == id

  abbrev pub has_reference : String → Payment F → Bool
  has_reference reference p = p.reference == reference

  abbrev pub of_order : String → Payment F → Bool
  of_order id p = p.order_id == id

  unfoldable pub update_payment :
      (Payment F → Bool) → (Payment F → Payment F) → Exec (Db F) (Payment F)
  update_payment p f s = elim (find_first p s.payments) [
    | none ↦ (err missing_row, s)
    | some x ↦ (ok (f x), record s { payments = update_first p f s.payments })
  ]

  unfoldable pub update_order : (Order F → Bool) → (Order F → Order F) → Exec (Db F) (Order F)
  update_order p f s = elim (find_first p s.orders) [
    | none ↦ (err missing_row, s)
    | some x ↦ (ok (f x), record s { orders = update_first p f s.orders })
  ]

  unfoldable pub update_user : (User → Bool) → (User → User) → Exec (Db F) User
  update_user p f s = elim (find_first p s.users) [
    | none ↦ (err missing_row, s)
    | some x ↦ (ok (f x), record s { users = update_first p f s.users })
  ]

  unfoldable pub add_history : StatusEntry → Exec (Db F) Unit
  add_history e s = (ok tt, record s { history = s.history ++ e ∷ [] })

  unfoldable pub add_job : Job F → Exec (Db F) Unit
  add_job j s = (ok tt, record s { jobs = s.jobs ++ j ∷ [] })

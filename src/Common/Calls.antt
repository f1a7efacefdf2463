-- ===== src/Common/Calls.antt =====
-- Service calls: actions on the stored state that return or throw. What was written before a
-- throw stays written, unless the call stands in a transaction.
use Prim.Native.Nat.{ℕ}
use Prim.Native.String.{String}
use mathlib.Core.Path.{◌≡◌, refl}
use mathlib.Core.Logic.{◌⊎◌, inl, inr}
use mathlib.Core.Bool.{Bool, true, false}
use mathlib.Core.Option.{Option, none, some}
use native.Mathlib.Omega.{arith}

-- errors/AppError.ts, and the plain `Error` of the language.
pub data Failure : Type 0 where
  app_error : (status_code : ℕ) (message : String) → Failure
  error : (message : String) → Failure

pub data Result {ℓ} (A : Type ℓ) : Type ℓ where
  ok : A → Result A
  err : Failure → Result A

abbrev pub Exec {ℓ} : Type ℓ → Type ℓ → Type ℓ
Exec S A = S → Result A × S

pub Result-cases {ℓ} :
    {A : Type ℓ} (r : Result A) → ((a : A) × (r ≡ ok a)) ⊎ ((e : Failure) × (r ≡ err e))
Result-cases (ok a) = inl (a, refl)
Result-cases (err e) = inr (e, refl)

module _ {ℓ} {S A : Type ℓ} where
  abbrev pub pure : A → Exec S A
  pure a s = (ok a, s)

  abbrev pub throw : Failure → Exec S A
  throw e s = (err e, s)

  -- an outcome that was computed without the state
  abbrev pub lift : Result A → Exec S A
  lift r s = (r, s)

  abbrev pub gets : (S → A) → Exec S A
  gets f s = (ok (f s), s)

  abbrev pub or_throw : Failure → Option A → Exec S A
  or_throw e none s = (err e, s)
  or_throw e (some a) s = (ok a, s)

  abbrev settle_on : S → Result A × S → Result A × S
  settle_on before (ok a, after) = (ok a, after)
  settle_on before (err e, after) = (err e, before)

  -- `prisma.$transaction`: a throw undoes the writes.
  abbrev pub transaction : Exec S A → Exec S A
  transaction m s = settle_on s (m s)

  abbrev caught : (Failure → Exec S A) → Result A × S → Result A × S
  caught h (ok a, s) = (ok a, s)
  caught h (err e, s) = h e s

  -- `try { m } catch (e) { h(e) }`
  abbrev pub attempt : Exec S A → (Failure → Exec S A) → Exec S A
  attempt m h s = caught h (m s)

module _ {ℓ} {S : Type ℓ} where
  abbrev pub modify : (S → S) → Exec S Unit
  modify f s = (ok tt, f s)

  -- `if (!b) throw e;`
  abbrev pub guard : Bool → Failure → Exec S Unit
  guard true e s = (ok tt, s)
  guard false e s = (err e, s)

module _ {ℓ} {S A B : Type ℓ} where
  abbrev continue : (A → Exec S B) → Result A × S → Result B × S
  continue f (ok a, s) = f a s
  continue f (err e, s) = (err e, s)

  infixl 5 ◌>>=◌ ◌>>◌
  abbrev pub ◌>>=◌ : Exec S A → (A → Exec S B) → Exec S B
  ◌>>=◌ m f s = continue f (m s)

  abbrev pub ◌>>◌ : Exec S A → Exec S B → Exec S B
  ◌>>◌ m k = m >>= λ _. k

-- The call changes nothing that is stored.
abbrev pub OnlyReads {ℓ} : {S A : Type ℓ} → Exec S A → Type ℓ
OnlyReads {S} m = (s : S) → (m s).1 ≡ s

module _ {ℓ} {S A B : Type ℓ} (m : Exec S A) (f : A → Exec S B) where
  pub OnlyReads-bind : OnlyReads m → ((a : A) → OnlyReads (f a)) → OnlyReads (m >>= f)
  OnlyReads-bind first rest s = elim (Result-cases (m s).0) [
    | inl (a, done) ↦ ground (arith, first s, done, rest a s)
    | inr (e, bad) ↦ ground (arith, first s, bad)
  ]

  -- A chain that returns has had a first step that returned.
  pub bind-ok :
      (s : S) (b : B)
      → ((m >>= f) s).0 ≡ ok b
      → (a : A) × ((m s).0 ≡ ok a) × ((f a (m s).1).0 ≡ ok b)
  bind-ok s b h = elim (Result-cases (m s).0) [
    | inl (a, done) ↦ (a, done, ground (arith, done))
    | inr (e, bad) ↦ ground (arith, bad)
  ]

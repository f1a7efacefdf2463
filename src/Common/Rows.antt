-- ===== src/Common/Rows.antt =====
-- Tables as lists of rows, oldest first, and the queries that the program makes of them.
use Prim.Native.Nat.{ℕ, suc, ◌+◌, ◌≤◌}
use mathlib.Core.Path.{◌≡◌, refl}
use mathlib.Core.Bool.{Bool, true, false}
use mathlib.Core.Option.{Option, none, some}
use mathlib.Core.Option
use mathlib.Core.List.{List, [], ◌∷◌, ◌++◌}
use native.Mathlib.Omega.{arith}
use jhaz_imprints.Common.Tests.{if◌then◌else◌, to_nat}

module _ {ℓ} {A : Type ℓ} where
  abbrev pub length : List A → ℕ
  length [] = 0
  length (x ∷ xs) = suc (length xs)

  -- `findFirst` and `findUnique`
  abbrev pub find_first : (A → Bool) → List A → Option A
  find_first p [] = none
  find_first p (x ∷ xs) = if p x then some x else find_first p xs

  -- `update` of one row, found by a unique key
  abbrev pub update_first : (A → Bool) → (A → A) → List A → List A
  update_first p f [] = []
  update_first p f (x ∷ xs) = if p x then f x ∷ xs else x ∷ update_first p f xs

  -- `updateMany`
  abbrev pub update_many : (A → Bool) → (A → A) → List A → List A
  update_many p f [] = []
  update_many p f (x ∷ xs) = (if p x then f x else x) ∷ update_many p f xs

  -- `findMany`
  abbrev pub find_many : (A → Bool) → List A → List A
  find_many p [] = []
  find_many p (x ∷ xs) = let rest = find_many p xs in if p x then x ∷ rest else rest

  -- `delete`
  abbrev pub delete_many : (A → Bool) → List A → List A
  delete_many p [] = []
  delete_many p (x ∷ xs) = let rest = delete_many p xs in if p x then rest else x ∷ rest

  -- `count`
  abbrev pub count : (A → Bool) → List A → ℕ
  count p [] = 0
  count p (x ∷ xs) = to_nat (p x) + count p xs

  abbrev pub any : (A → Bool) → List A → Bool
  any p [] = false
  any p (x ∷ xs) = if p x then true else any p xs

  pub count-append : (p : A → Bool) (xs ys : List A) → count p (xs ++ ys) ≡ count p xs + count p ys
  count-append p [] ys = omega arith
  count-append p (x ∷ xs) ys = omega (arith, count-append p xs ys)

  -- What an update of one row does to a count: the row's old share goes, its new share comes.
  pub count-update_first :
      (p q : A → Bool) (f : A → A) (xs : List A) (x : A)
      → find_first p xs ≡ some x
      → count q (update_first p f xs) + to_nat (q x) ≡ count q xs + to_nat (q (f x))
  count-update_first p q f [] x h = ground arith
  count-update_first p q f (y ∷ xs) x h = ground (arith, count-update_first p q f xs x)

  pub count-update_same :
      (p q : A → Bool) (f : A → A) (xs : List A)
      → ((x : A) → q (f x) ≡ q x)
      → count q (update_first p f xs) ≡ count q xs
  count-update_same p q f [] h = refl
  count-update_same p q f (x ∷ xs) h = ground (arith, h x, count-update_same p q f xs h)

  pub find_first-holds :
      (p : A → Bool) (xs : List A) (x : A) → find_first p xs ≡ some x → p x ≡ true
  find_first-holds p [] x h = ground arith
  find_first-holds p (y ∷ xs) x h = ground (arith, find_first-holds p xs x)

  -- The row that an update by `p` has changed is found by `p` again.
  pub find_first-update_first :
      (p : A → Bool) (f : A → A) (xs : List A)
      → ((x : A) → p (f x) ≡ p x)
      → find_first p (update_first p f xs) ≡ Option.map f (find_first p xs)
  find_first-update_first p f [] h = refl
  find_first-update_first p f (x ∷ xs) h = ground (arith, h x, find_first-update_first p f xs h)

  -- An update of another row is not seen.
  pub find_first-update_other :
      (p q : A → Bool) (f : A → A) (xs : List A)
      → ((x : A) → p x ≡ true → (q x ≡ false) × (q (f x) ≡ false))
      → find_first q (update_first p f xs) ≡ find_first q xs
  find_first-update_other p q f [] h = refl
  find_first-update_other p q f (x ∷ xs) h = ground (arith, h x, find_first-update_other p q f xs h)

  pub find_first-delete_many : (p : A → Bool) (xs : List A) → find_first p (delete_many p xs) ≡ none
  find_first-delete_many p [] = refl
  find_first-delete_many p (x ∷ xs) = ground (arith, find_first-delete_many p xs)

  pub count-delete_many : (p : A → Bool) (xs : List A) → count p (delete_many p xs) ≡ 0
  count-delete_many p [] = refl
  count-delete_many p (x ∷ xs) = ground (arith, count-delete_many p xs)

  pub count-delete_le : (p q : A → Bool) (xs : List A) → count q (delete_many p xs) ≤ count q xs
  count-delete_le p q [] = omega arith
  count-delete_le p q (x ∷ xs) = ground (arith, count-delete_le p q xs)

  pub any-concat : (p : A → Bool) (xs : List A) (x : A) → p x ≡ true → any p (xs ++ x ∷ []) ≡ true
  any-concat p [] x h = ground arith
  any-concat p (y ∷ xs) x h = ground (arith, any-concat p xs x h)

  pub count-concat :
      (p : A → Bool) (xs : List A) (x : A) → count p (xs ++ x ∷ []) ≡ count p xs + to_nat (p x)
  count-concat p [] x = omega arith
  count-concat p (y ∷ xs) x = omega (arith, count-concat p xs x)

  -- A delete of other rows is not seen.
  pub find_first-delete_other :
      (p q : A → Bool) (xs : List A)
      → ((x : A) → p x ≡ true → q x ≡ false)
      → find_first q (delete_many p xs) ≡ find_first q xs
  find_first-delete_other p q [] h = refl
  find_first-delete_other p q (x ∷ xs) h = ground (arith, h x, find_first-delete_other p q xs h)

  -- A row that `updateMany` may have changed is still found by what the change keeps.
  pub find_first-update_many :
      (p q : A → Bool) (f : A → A) (xs : List A)
      → ((x : A) → p (f x) ≡ p x)
      → find_first p (update_many q f xs)
        ≡ Option.map (λ x. if q x then f x else x) (find_first p xs)
  find_first-update_many p q f [] h = refl
  find_first-update_many p q f (x ∷ xs) h = ground (arith, h x, find_first-update_many p q f xs h)

  -- A row that two keys find is still found by one after an update by the other.
  pub find_first-update_both :
      (p q : A → Bool) (f : A → A) (xs : List A) (x : A)
      → find_first p xs ≡ some x
      → find_first q xs ≡ some x
      → q (f x) ≡ true
      → find_first q (update_first p f xs) ≡ some (f x)
  find_first-update_both p q f [] x found same kept = ground arith
  find_first-update_both p q f (y ∷ xs) x found same kept = ground (
    arith,
    find_first-update_both p q f xs x,
    find_first-holds p xs x,
    find_first-holds q xs x,
    find_first-holds p (y ∷ xs) x found,
    find_first-holds q (y ∷ xs) x same,
  )

  -- A key that one row alone has finds nothing when that row has lost it.
  pub find_first-count_zero : (p : A → Bool) (xs : List A) → count p xs ≡ 0 → find_first p xs ≡ none
  find_first-count_zero p [] h = refl
  find_first-count_zero p (x ∷ xs) h = ground (arith, find_first-count_zero p xs)

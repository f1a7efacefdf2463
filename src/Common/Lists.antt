-- ===== src/Common/Lists.antt =====
-- Lists as the catalog's queries use them: one row deleted, rows sorted, and lists of texts.
use Prim.Native.Nat.{◌+◌}
use Prim.Native.String.{String}
use mathlib.Core.Path.{◌≡◌, refl}
use mathlib.Core.Logic.{inl, inr}
use mathlib.Core.Bool.{Bool, true, false}
use mathlib.Core.Option
use mathlib.Core.List.{List, [], ◌∷◌, ◌++◌}
use native.Mathlib.Omega.{arith}
use text.Mathlib.Text.{◌==◌}
use text.Mathlib.TextEquality.{eq_iff}
use text.Mathlib.TextPositions.{eq_refl}
use jhaz_imprints.Common.Tests.{if◌then◌else◌, to_nat, Bool-cases}
use jhaz_imprints.Common.Rows.{count, find_first, update_first}

module _ {ℓ} {A : Type ℓ} where
  -- `deleteOne`
  abbrev pub delete_first : (A → Bool) → List A → List A
  delete_first p [] = []
  delete_first p (x ∷ xs) = let rest = delete_first p xs in if p x then xs else x ∷ rest

  abbrev pub insert_by : (A → A → Bool) → A → List A → List A
  insert_by before x [] = x ∷ []
  insert_by before x (y ∷ ys) =
      let rest = insert_by before x ys in if before y x then y ∷ rest else x ∷ y ∷ ys

  -- `sort`: `before y x` says that y must not come behind x.
  abbrev pub sort_by : (A → A → Bool) → List A → List A
  sort_by before [] = []
  sort_by before (x ∷ xs) = insert_by before x (sort_by before xs)

  count-insert_by :
      (p : A → Bool) (before : A → A → Bool) (x : A) (xs : List A)
      → count p (insert_by before x xs) ≡ to_nat (p x) + count p xs
  count-insert_by p before x [] = omega arith
  count-insert_by p before x (y ∷ ys) = ground (arith, count-insert_by p before x ys)

  -- Sorting keeps how many rows of each kind there are.
  pub count-sort_by :
      (p : A → Bool) (before : A → A → Bool) (xs : List A)
      → count p (sort_by before xs) ≡ count p xs
  count-sort_by p before [] = refl
  count-sort_by p before (x ∷ xs) =
      ground (arith, count-insert_by p before x (sort_by before xs), count-sort_by p before xs)

  -- The row that was added last is the one that a key of its own deletes.
  pub delete_first-concat :
      (p : A → Bool) (xs : List A) (x : A)
      → count p xs ≡ 0
      → p x ≡ true
      → delete_first p (xs ++ x ∷ []) ≡ xs
  delete_first-concat p [] x none_yet own = ground arith
  delete_first-concat p (y ∷ ys) x none_yet own = ground (arith, delete_first-concat p ys x)

-- An update by a unique key, read by keys.
module _ {ℓ} {A : Type ℓ} (key : A → String) (f : A → A) where
  pub find_first-update_key :
      (k l : String) (xs : List A)
      → ((x : A) → (key x == k) ≡ true → key (f x) ≡ k)
      → find_first (λ x. key x == l) (update_first (λ x. key x == k) f xs) ≡ (
          if k == l
          then Option.map f (find_first (λ x. key x == l) xs)
          else find_first (λ x. key x == l) xs)
  find_first-update_key k l [] keeps = ground arith
  find_first-update_key k l (x ∷ xs) keeps = elim (Bool-cases (key x == k)) [
    | inl here ↦
        let found : key x ≡ k = (eq_iff (key x) k).0 here in
        let kept : key (f x) ≡ k = keeps x here in ground (arith, found, kept)
    | inr other ↦ elim (Bool-cases (key x == l)) [
      | inl asked ↦
          let apart : (k == l) ≡ false =
            ground (arith, eq_iff (key x) k, eq_iff (key x) l, eq_iff k l) in
          ground arith
      | inr not_asked ↦ ground (arith, find_first-update_key k l xs keeps)
    ]
  ]

-- `list.includes(text)`
abbrev pub includes : String → List String → Bool
includes t [] = false
includes t (x ∷ xs) = if x == t then true else includes t xs

-- `$pull`
abbrev pub pull : String → List String → List String
pull t [] = []
pull t (x ∷ xs) = let rest = pull t xs in if x == t then rest else x ∷ rest

-- `$addToSet`, and `set.add`
abbrev pub add_to_set : String → List String → List String
add_to_set t xs = if includes t xs then xs else xs ++ t ∷ []

pub includes-pull : (t : String) (xs : List String) → includes t (pull t xs) ≡ false
includes-pull t [] = refl
includes-pull t (x ∷ xs) = ground (arith, includes-pull t xs)

pub includes-pull_other :
    (t u : String) (xs : List String) → (t == u) ≡ false → includes u (pull t xs) ≡ includes u xs
includes-pull_other t u [] h = refl
includes-pull_other t u (x ∷ xs) h =
    ground (arith, eq_iff x t, eq_iff x u, eq_iff t u, includes-pull_other t u xs)

pub includes-append :
    (t : String) (xs ys : List String)
    → includes t (xs ++ ys) ≡ (if includes t xs then true else includes t ys)
includes-append t [] ys = refl
includes-append t (x ∷ xs) ys = ground (arith, includes-append t xs ys)

pub includes-add_to_set : (t : String) (xs : List String) → includes t (add_to_set t xs) ≡ true
includes-add_to_set t xs = ground (arith, includes-append t xs (t ∷ []), eq_refl t)

pub includes-add_other :
    (t u : String) (xs : List String)
    → (t == u) ≡ false
    → includes u (add_to_set t xs) ≡ includes u xs
includes-add_other t u xs h = ground (arith, includes-append u xs (t ∷ []))

-- ===== src/CatalogService/Categories/Undone.antt =====
-- A category that is added and deleted again leaves nothing behind.
use jhaz_imprints.Common.{
  String, ◌≡◌, refl, ◌∙◌, ap, Bool, true, false, List, [], ◌∷◌, ◌++◌, arith, ◌==◌, ltb, eq_iff,
  eq_refl, Bool-cases, inl, inr, ok, any, count, any-concat, delete_first, delete_first-concat,
}
use jhaz_imprints.Common.Text.{trim}
use jhaz_imprints.Models.{CategoryEntry, new_category, category_errors, filled_slug, Violation}
use jhaz_imprints.Models.Slug.{clean_slug, slug_of_name}
use jhaz_imprints.Models.Slug.Stable.{clean_slug_twice}
use jhaz_imprints.CatalogService.{Mongo, Mongoose, check_saved, check_saved-cases}
use jhaz_imprints.CatalogService.Categories.{
  has_category_slug, shares_key, category_exists, add_category, delete_category,
}

clean_slug-filled :
    (name slug : String) → let s = filled_slug name (clean_slug slug) in clean_slug s ≡ s
clean_slug-filled name slug = elim (Bool-cases (clean_slug slug == "")) [
  | inl missing ↦ rw missing (clean_slug_twice (slug_of_name name))
  | inr given ↦ rw given (clean_slug_twice slug)
]

unshared :
    (c : CategoryEntry) (cs : List CategoryEntry)
    → any (shares_key c) cs ≡ false
    → count (has_category_slug c.slug) cs ≡ 0
unshared c [] h = refl
unshared c (d ∷ cs) h = ground (arith, unshared c cs, eq_iff c.slug d.slug, eq_iff d.slug c.slug)

check_saved-free {ℓ} :
    {A : Type ℓ} (vs : List Violation) (taken : Bool) (a b : A)
    → check_saved vs taken a ≡ inr b
    → taken ≡ false
check_saved-free (v ∷ vs) taken a b h = ground arith
check_saved-free [] true a b h = ground arith
check_saved-free [] false a b h = refl

-- Deleting a category that was just added, by the slug that it got, gives back the state before.
pub delete_category-add_category :
    {F : Type 0} (db : Mongoose) (e c : CategoryEntry) (s : Mongo F)
    → (add_category db e s).0 ≡ ok c
    → delete_category db c.slug (add_category db e s).1 ≡ (ok tt, s)
unfolding add_category delete_category category_exists
delete_category-add_category {F} db e c s h =
    let new = new_category e in
    elim (Bool-cases (ltb 0 (count (has_category_slug (clean_slug e.slug)) s.categories))) [
      | inl exists ↦ ground (arith, exists)
      | inr absent ↦
          elim (check_saved-cases (category_errors new) (any (shares_key new) s.categories) new) [
            | inr (x, bad) ↦ ground (arith, absent, bad)
            | inl good ↦
                let added : (add_category db e s).1
                    ≡ record s { categories = s.categories ++ new ∷ [] } =
                  ground (arith, absent, good) in
                let it : c ≡ new = ground (arith, absent, good) in
                let slug : clean_slug c.slug ≡ new.slug =
                  ap (λ (x : CategoryEntry). clean_slug x.slug) it
                  ∙ clean_slug-filled (trim e.name) e.slug in
                let unused : count (has_category_slug new.slug) s.categories ≡ 0 =
                  unshared new s.categories (
                    check_saved-free (category_errors new) (any (shares_key new) s.categories) new
                      new good) in
                let there : any (has_category_slug new.slug) (s.categories ++ new ∷ []) ≡ true =
                  any-concat (has_category_slug new.slug) s.categories new (eq_refl new.slug) in
                let gone : delete_first (has_category_slug new.slug) (s.categories ++ new ∷ [])
                    ≡ s.categories =
                  delete_first-concat (has_category_slug new.slug) s.categories new unused
                    (eq_refl new.slug) in
                ground (arith, added, slug, there, gone)
          ]
    ]

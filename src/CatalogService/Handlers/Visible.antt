-- ===== src/CatalogService/Handlers/Visible.antt =====
-- Drafts are for admins and tailors.
use jhaz_imprints.Common.{
  String, ◌≡◌, refl, ◌∙◌, Bool, true, false, not, Option, none, some, List, [], ◌∷◌, arith, ◌==◌,
  Bool-cases, ok, inl, inr, any, bind-ok,
}
use jhaz_imprints.Orders.Notes.{non_empty}
use jhaz_imprints.Models.Product.{ProductDocument, genders, occasions}
use jhaz_imprints.CatalogService.{Mongo, Mongoose}
use jhaz_imprints.CatalogService.Fabrics.{QueryNumber}
use jhaz_imprints.CatalogService.Products.{
  ProductView, ProductDetails, ProductFilter, ListProductsQuery, list_products, product_filter,
  active_filter, check_category, fabrics_filter, check_choice, get_product_by_id_or_slug,
}
use jhaz_imprints.CatalogService.Products.Listing.{IsPaging, list_products-selects, is_stray}
use jhaz_imprints.CatalogService.Handlers.{
  ProductsQuery, products_query, may_see_all, target_active, list_products_handler,
  get_product_handler, Answer,
}

abbrev pub is_draft : {F : Type 0} → ProductView F → Bool
is_draft v = not v.product.is_active

target_sold :
    (role asked : Option String)
    → may_see_all role ≡ false
    → active_filter (target_active role asked) ≡ some true
target_sold role none h = refl
target_sold role (some text) h = elim (Bool-cases (text == "all")) [
  | inl all ↦ ground (arith, all, h)
  | inr part ↦ elim (Bool-cases (text == "false")) [
    | inl drafts ↦ ground (arith, part, drafts, h)
    | inr other ↦ ground (arith, part, other, h)
  ]
]

filter_active :
    {F : Type 0} (db : Mongoose) (q : ListProductsQuery) (s : Mongo F) (filter : ProductFilter)
    → (product_filter db q s).0 ≡ ok filter
    → filter.is_active ≡ active_filter q.is_active
unfolding product_filter
filter_active db q s filter h =
    let (_, _, after_category) = bind-ok (check_category db (non_empty q.category)) _ s filter h in
    let (_, _, after_fabrics) =
      bind-ok (fabrics_filter db (non_empty q.fabric_category)) _ _ filter after_category in
    let (_, _, after_gender) =
      bind-ok (check_choice db "gender" genders (non_empty q.gender)) _ _ filter after_fabrics in
    let (_, _, made) =
      bind-ok (check_choice db "occasion" occasions (non_empty q.occasion)) _ _ filter
        after_gender in
    ground (arith, made)

unsold_is_stray :
    {F : Type 0} (matches : String → String → Bool) (filter : ProductFilter) (v : ProductView F)
    → filter.is_active ≡ some true
    → is_draft v ≡ true
    → is_stray matches filter v ≡ true
unsold_is_stray matches filter v active draft = ground (arith, active)

any-implied {ℓ} :
    {A : Type ℓ} (p q : A → Bool) (xs : List A)
    → ((x : A) → p x ≡ true → q x ≡ true)
    → any q xs ≡ false
    → any p xs ≡ false
any-implied p q [] h k = refl
any-implied p q (x ∷ xs) h k = ground (arith, h x, any-implied p q xs h)

-- The requests of anyone who is neither an admin nor a tailor: the list of products shows none that
-- is not sold, whatever the query says of `isActive`, and the page of one product shows it only if
-- it is sold.
pub drafts_hidden :
    {F : Type 0} (db : Mongoose) (matches : String → String → Bool)
    (paginate : List (ProductDocument F) → (page limit : QueryNumber) → List (ProductDocument F))
    (role : Option String) (s : Mongo F)
    → IsPaging paginate
    → may_see_all role ≡ false
    → ((q : ProductsQuery) (a : Answer (List (ProductView F)))
        → (list_products_handler db matches paginate role q s).0 ≡ ok a
        → any is_draft a.body ≡ false)
      × ((id_or_slug : String) (a : Answer (ProductDetails F))
          → (get_product_handler db role id_or_slug s).0 ≡ ok a
          → is_draft a.body.view ≡ false)
unfolding list_products_handler get_product_handler
drafts_hidden {F} db matches paginate role s paging plain = (
  λ q a h.
      let (vs, listed, answered) =
        bind-ok (list_products db matches paginate (products_query role q)) _ s a h in
      let (filter, made, fits, _) =
        list_products-selects db matches paginate (products_query role q) s vs paging listed in
      let active : filter.is_active ≡ some true =
        filter_active db (products_query role q) s filter made
        ∙ target_sold role q.is_active plain in
      let hidden : any is_draft vs ≡ false =
        any-implied is_draft (is_stray matches filter) vs
          (λ v. unsold_is_stray matches filter v active) fits in
      ground (arith, answered, hidden),
  λ id_or_slug a h.
      let (d, found, rest) = bind-ok (get_product_by_id_or_slug db id_or_slug) _ s a h in
      ground (arith, rest, plain),
)

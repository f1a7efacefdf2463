-- ===== src/CatalogService/Products/Listing.antt =====
-- What the list of products shows.
use mathlib.Core.Option
use jhaz_imprints.Common.{
  ℕ, suc, ◌≤◌, String, ◌≡◌, refl, sym, ◌∙◌, ap, subst, Bool, true, false, not, Option, none, some,
  List, [], ◌∷◌, map, arith, Bool-cases, Result-cases, ok, inl, inr, any, find_many, sort_by,
  or_default, length, insert_by, OnlyReads, OnlyReads-bind,
}
use jhaz_imprints.Common.Text.{is_object_id}
use jhaz_imprints.Orders.Notes.{non_empty}
use jhaz_imprints.Models.Product.{ProductDocument, genders, occasions}
use jhaz_imprints.CatalogService.{Mongo, Mongoose}
use jhaz_imprints.CatalogService.Categories.{get_categories}
use jhaz_imprints.CatalogService.Fabrics.{QueryNumber, at_most_fifty}
use jhaz_imprints.CatalogService.Products.{
  ListProductsQuery, ProductView, ProductFilter, add_images_field, selects, product_filter,
  list_products, selected, newest_first, check_category, fabrics_filter, check_choice,
}

module _ {ℓ} {A : Type ℓ} (q : A → Bool) where
  any-insert :
      (before : A → A → Bool) (x : A) (xs : List A)
      → q x ≡ false
      → any q xs ≡ false
      → any q (insert_by before x xs) ≡ false
  any-insert before x [] h k = ground arith
  any-insert before x (y ∷ ys) h k = ground (arith, any-insert before x ys h)

  any-sort_by :
      (before : A → A → Bool) (xs : List A) → any q xs ≡ false → any q (sort_by before xs) ≡ false
  any-sort_by before [] h = refl
  any-sort_by before (x ∷ xs) h =
      any-insert before x (sort_by before xs) (ground arith) (any-sort_by before xs (ground arith))

  any-find_many :
      (p : A → Bool) (xs : List A)
      → ((x : A) → p x ≡ true → q x ≡ false)
      → any q (find_many p xs) ≡ false
  any-find_many p [] h = refl
  any-find_many p (x ∷ xs) h = ground (arith, h x, any-find_many p xs h)

pub any-map {ℓ ℓ'} :
    {A : Type ℓ} {B : Type ℓ'} (q : B → Bool) (f : A → B) (xs : List A)
    → any q (map f xs) ≡ any (λ x. q (f x)) xs
any-map q f [] = refl
any-map q f (x ∷ xs) = ground (arith, any-map q f xs)

length-map {ℓ ℓ'} :
    {A : Type ℓ} {B : Type ℓ'} (f : A → B) (xs : List A) → length (map f xs) ≡ length xs
length-map f [] = refl
length-map f (x ∷ xs) = ap (λ n. suc n) (length-map f xs)

-- A page of mongoose-paginate-v2 holds documents that were found, and no more than its limit.
pub record IsPaging {F : Type 0}
    (paginate : List (ProductDocument F) → (page limit : QueryNumber) → List (ProductDocument F))
    : Type 0 where
  pub from_found :
      (q : ProductDocument F → Bool) (found : List (ProductDocument F)) (page limit : QueryNumber)
      → any q found ≡ false
      → any q (paginate found page limit) ≡ false
  pub within_limit :
      (found : List (ProductDocument F)) (page : QueryNumber) (n : ℕ)
      → length (paginate found page (some n)) ≤ n

-- The product is not what the filter asks for.
abbrev pub is_stray : {F : Type 0} → (String → String → Bool) → ProductFilter → ProductView F → Bool
is_stray matches filter v = not (selects matches filter v.product)

module _ {F : Type 0} (db : Mongoose) where
  check_category-reads : (o : Option String) → OnlyReads (check_category {F = F} db o)
  unfolding get_categories
  check_category-reads none s = refl
  check_category-reads (some slug) s = ground arith

  fabrics_filter-reads : (o : Option String) → OnlyReads (fabrics_filter {F = F} db o)
  fabrics_filter-reads none s = refl
  fabrics_filter-reads (some text) s = elim (Bool-cases (is_object_id text)) [
    | inl id ↦ ground (arith, id)
    | inr slug ↦ ground (arith, slug)
  ]

  check_choice-reads :
      (what : String) (allowed : List String) (o : Option String)
      → OnlyReads (check_choice {F = F} db what allowed o)
  check_choice-reads what allowed none s = refl
  check_choice-reads what allowed (some choice) s = ground arith

  product_filter-reads : (q : ListProductsQuery) → OnlyReads (product_filter {F = F} db q)
  unfolding product_filter
  product_filter-reads q =
      OnlyReads-bind (check_category db (non_empty q.category)) _
        (check_category-reads (non_empty q.category))
        (λ _.
          OnlyReads-bind (fabrics_filter db (non_empty q.fabric_category)) _
            (fabrics_filter-reads (non_empty q.fabric_category))
            (λ fabrics.
              OnlyReads-bind (check_choice db "gender" genders (non_empty q.gender)) _
                (check_choice-reads "gender" genders (non_empty q.gender))
                (λ _.
                  OnlyReads-bind (check_choice db "occasion" occasions (non_empty q.occasion)) _
                    (check_choice-reads "occasion" occasions (non_empty q.occasion))
                    (λ _ s. refl))))

module _ {F : Type 0} (db : Mongoose) (matches : String → String → Bool)
    (paginate : List (ProductDocument F) → (page limit : QueryNumber) → List (ProductDocument F))
    (q : ListProductsQuery) (s : Mongo F) (vs : List (ProductView F)) where
  abbrev Lists : ProductFilter → Type 0
  Lists filter =
      vs
      ≡ map add_images_field (
          paginate (selected matches filter s) (or_default q.page (some 1))
            (Option.map at_most_fifty (or_default q.limit (some 12))))

  list_products-filters :
      (list_products db matches paginate q s).0 ≡ ok vs
      → (filter : ProductFilter) × ((product_filter db q s).0 ≡ ok filter) × Lists filter
  unfolding list_products
  list_products-filters h =
      let reads = product_filter-reads db q s in
      elim (Result-cases (product_filter {F = F} db q s).0) [
        | inr (e, bad) ↦ ground (arith, bad)
        | inl (filter, found) ↦ (filter, found, ground (arith, found, reads))
      ]

at_most_fifty_le : (n : ℕ) → at_most_fifty n ≤ 50
at_most_fifty_le n = ground arith

-- Every product that the list shows passes the filter that was made of the query; and a page holds
-- at most 50 of them, whatever limit is asked for, as long as the limit is a number. A page of the
-- paging library is taken to hold what was found, and no more than its limit.
pub list_products-selects :
    {F : Type 0} (db : Mongoose) (matches : String → String → Bool)
    (paginate : List (ProductDocument F) → (page limit : QueryNumber) → List (ProductDocument F))
    (q : ListProductsQuery) (s : Mongo F) (vs : List (ProductView F))
    → IsPaging paginate
    → (list_products db matches paginate q s).0 ≡ ok vs
    → (filter : ProductFilter) × ((product_filter db q s).0 ≡ ok filter)
      × (any (is_stray matches filter) vs ≡ false)
      × ((n : ℕ) → or_default q.limit (some 12) ≡ some n → length vs ≤ 50)
unfolding add_images_field
list_products-selects {F} db matches paginate q s vs paging h =
    let (filter, made, shown) = list_products-filters db matches paginate q s vs h in
    let page = or_default q.page (some 1) in
    let limit = Option.map at_most_fifty (or_default q.limit (some 12)) in
    let stray : ProductDocument F → Bool = λ p. not (selects matches filter p) in
    let found_fit : any stray (selected matches filter s) ≡ false =
      any-sort_by stray newest_first (find_many (selects matches filter) s.products) (
        any-find_many stray (selects matches filter) s.products (λ p fits. ground (arith, fits))) in
    let page_fits : any stray (paginate (selected matches filter s) page limit) ≡ false =
      paging.from_found stray (selected matches filter s) page limit found_fit in
    (
      filter,
      made,
      subst (λ ys. any (is_stray matches filter) ys ≡ false) (sym shown)
          (any-map (is_stray matches filter) add_images_field
              (paginate (selected matches filter s) page limit)
            ∙ page_fits),
      λ n asked.
          let capped : limit ≡ some (at_most_fifty n) = ap (Option.map at_most_fifty) asked in
          subst (λ ys. length ys ≤ 50) (sym shown)
            (subst (λ m. m ≤ 50)
              (sym (length-map add_images_field (paginate (selected matches filter s) page limit)))
              (subst (λ l. length (paginate (selected matches filter s) page l) ≤ 50) (sym capped)
                (omega (
                  arith,
                  paging.within_limit (selected matches filter s) page (at_most_fifty n),
                  at_most_fifty_le n,
                )))),
    )

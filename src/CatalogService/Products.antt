-- ===== src/CatalogService/Products.antt =====
-- services/productService.ts: the products as customers read them.
pub mod Search
pub mod Listing
use Prim.Native.String
use mathlib.Core.Option
use jhaz_imprints.Common.{
  ℕ, ltb, String, Bool, true, false, not, Option, none, some, List, [], ◌∷◌, ◌++◌, map, ◌==◌, ◌||◌,
  ◌&&◌, if◌then◌else◌, eqb, leb, is_some, or_default, app_error, ok, Exec, pure, gets, guard,
  find_first, find_many, sort_by, includes, any, ◌>>=◌, ◌>>◌,
}
use jhaz_imprints.Common.Text.{is_object_id, trim}
use jhaz_imprints.Orders.Notes.{non_empty}
use jhaz_imprints.Models.{CategoryEntry, FabricCategory}
use jhaz_imprints.Models.Slug.{clean_slug}
use jhaz_imprints.Models.Fabric.{FabricDocument}
use jhaz_imprints.Models.Product.{ProductDocument, CategoryRef, images_of, genders, occasions}
use jhaz_imprints.CatalogService.{Mongo, Mongoose, cast_id, or_not_found}
use jhaz_imprints.CatalogService.Categories.{get_categories}
use jhaz_imprints.CatalogService.FabricCategories.{find_fabric_category, has_fabric_category_slug}
use jhaz_imprints.CatalogService.Fabrics.{QueryNumber, has_fabric_id, at_most_fifty}
use jhaz_imprints.CatalogService.Products.Search.{escape_reg_exp}

-- `isActive` is absent or a text, as the handler passes it.
pub record ListProductsQuery : Type 0 where
  pub category : Option String
  pub fabric_category : Option String
  pub gender : Option String
  pub occasion : Option String
  pub search : Option String
  pub page : Option QueryNumber
  pub limit : Option QueryNumber
  pub is_active : Option String

-- A lean product with its images.
pub record ProductView (F : Type 0) : Type 0 where
  pub product : ProductDocument F
  pub images : List String

-- A product with its fabrics in place of their ids.
pub record ProductDetails (F : Type 0) : Type 0 where
  pub view : ProductView F
  pub fabrics : List (FabricDocument F)

-- The filter, field by field; a field that is none is not set.
pub record ProductFilter : Type 0 where
  pub is_active : Option Bool
  pub category : Option String
  pub fabrics : Option (List String)
  pub gender : Option String
  pub occasion : Option String
  pub name_pattern : Option String

abbrev pub active_filter : Option String → Option Bool
active_filter none = some true
active_filter (some text) =
    if text == "all" then none else if text == "false" then some false else some true

abbrev pub category_slugs : List CategoryEntry → List String
category_slugs [] = []
category_slugs (c ∷ cs) = c.slug ∷ category_slugs cs

-- `list.join(", ")`
unfoldable pub join_commas : List String → String
join_commas [] = ""
join_commas (x ∷ []) = x
join_commas (x ∷ y ∷ ys) = String.◌++◌ x (String.◌++◌ ", " (join_commas (y ∷ ys)))

abbrev pub invalid_choice : String → List String → String
invalid_choice what allowed =
    String.◌++◌ "Invalid "
      (String.◌++◌ what (String.◌++◌ ". Must be one of: " (join_commas allowed)))

abbrev pub pattern_of : Option String → Option String
pattern_of search = Option.map (λ t. escape_reg_exp (trim t)) (non_empty search)

abbrev pub fabrics_of : Option FabricCategory → List String
fabrics_of none = []
fabrics_of (some c) = c.fabrics

abbrev pub has_ref : String → List CategoryRef → Bool
has_ref slug [] = false
has_ref slug (c ∷ cs) = if c.slug == slug then true else has_ref slug cs

abbrev pub shares_any : List String → List String → Bool
shares_any [] ids = false
shares_any (x ∷ xs) ids = if includes x ids then true else shares_any xs ids

abbrev pub wants {ℓ} : {A : Type ℓ} → Option A → (A → Bool) → Bool
wants none p = true
wants (some a) p = p a

abbrev pub same_flag : Bool → Bool → Bool
same_flag true b = b
same_flag false b = not b

module _ {F : Type 0} where
  abbrev pub has_product_id : String → ProductDocument F → Bool
  has_product_id id p = p.id == id

  abbrev pub newest_first : ProductDocument F → ProductDocument F → Bool
  newest_first a b = ltb b.created_at a.created_at

  -- `addImagesField`
  unfoldable pub add_images_field : ProductDocument F → ProductView F
  add_images_field p = record { product = p; images = images_of p.style_options p.default_style }

  -- `matches` is the regular expression's test, without case.
  abbrev pub selects : (String → String → Bool) → ProductFilter → ProductDocument F → Bool
  selects matches q p =
      wants q.is_active (same_flag p.is_active)
      && (wants q.category (λ slug. has_ref slug p.categories)
          && (wants q.fabrics (shares_any p.fabrics)
              && (wants q.gender (λ g. p.gender == g)
                  && (wants q.occasion (λ o. p.occasion == o)
                      && wants q.name_pattern (λ pattern. matches pattern p.name)))))

  -- The documents that are found, newest first.
  abbrev pub selected :
      (String → String → Bool) → ProductFilter → Mongo F → List (ProductDocument F)
  selected matches filter s = sort_by newest_first (find_many (selects matches filter) s.products)

  -- `populate("fabrics")`: the documents that are there, in the order of the ids.
  abbrev pub populated_fabrics : List String → List (FabricDocument F) → List (FabricDocument F)
  populated_fabrics [] fs = []
  populated_fabrics (id ∷ ids) fs =
      let rest = populated_fabrics ids fs in
      elim (find_first (has_fabric_id id) fs) [ none ↦ rest | some f ↦ f ∷ rest ]

  abbrev pub is_active_slug : String → ProductDocument F → Bool
  is_active_slug slug p = if p.is_active then p.slug == slug else false

  module _ (db : Mongoose) where
    -- A slug that is asked for must be a category's.
    abbrev pub check_category : Option String → Exec (Mongo F) Unit
    check_category none = pure tt
    check_category (some slug) = do
      categories ← get_categories db
      guard (includes slug (category_slugs categories))
          (app_error 400 (invalid_choice "category" (category_slugs categories)))

    abbrev pub find_category_fabrics : String → Exec (Mongo F) (Option FabricCategory)
    find_category_fabrics text =
        if is_object_id text
        then find_fabric_category db text
        else gets (λ s. find_first (has_fabric_category_slug (clean_slug text)) s.fabric_categories)

    abbrev pub fabrics_filter : Option String → Exec (Mongo F) (Option (List String))
    fabrics_filter none = pure none
    fabrics_filter (some text) = find_category_fabrics text >>= λ c. pure (some (fabrics_of c))

    abbrev pub check_choice : String → List String → Option String → Exec (Mongo F) Unit
    check_choice what allowed none = pure tt
    check_choice what allowed (some choice) =
        guard (includes choice allowed) (app_error 400 (invalid_choice what allowed))

    -- The filter of a query, or its error, check by check.
    unfoldable pub product_filter : ListProductsQuery → Exec (Mongo F) ProductFilter
    product_filter q = do
      check_category (non_empty q.category)
      fabrics ← fabrics_filter (non_empty q.fabric_category)
      check_choice "gender" genders (non_empty q.gender)
      check_choice "occasion" occasions (non_empty q.occasion)
      pure (record {
        is_active = active_filter q.is_active;
        category = Option.map clean_slug (non_empty q.category);
        fabrics = fabrics;
        gender = non_empty q.gender;
        occasion = non_empty q.occasion;
        name_pattern = pattern_of q.search;
      })

    -- `matches` is MongoDB's test of a pattern, `paginate` is mongoose-paginate-v2's choice of the
    -- documents of a page; NaN is none.
    module _ (matches : String → String → Bool)
        (paginate : List (ProductDocument F)
          → (page limit : QueryNumber) → List (ProductDocument F)) where
      unfoldable pub list_products : ListProductsQuery → Exec (Mongo F) (List (ProductView F))
      unfolding product_filter
      list_products q = do
        filter ← product_filter q
        gets (λ s. map add_images_field (
            paginate (selected matches filter s) (or_default q.page (some 1))
              (Option.map at_most_fifty (or_default q.limit (some 12)))))

    abbrev details : ProductDocument F → Exec (Mongo F) (ProductDetails F)
    details p =
        gets (λ s. record {
          view = add_images_field p;
          fabrics = populated_fabrics p.fabrics s.fabrics;
        })

    -- `Product.findById`
    abbrev pub find_product : String → Exec (Mongo F) (Option (ProductDocument F))
    find_product id =
        cast_id db id >>= λ key. gets (λ s. find_first (has_product_id key) s.products)

    unfoldable pub get_product_by_id : String → Exec (Mongo F) (ProductDetails F)
    get_product_by_id id = find_product id >>= or_not_found "Product not found" >>= details

    unfoldable pub get_product_by_slug : String → Exec (Mongo F) (ProductDetails F)
    get_product_by_slug slug =
        gets (λ s. find_first (is_active_slug (clean_slug slug)) s.products)
        >>= or_not_found "Product not found"
        >>= details

    unfoldable pub get_product_by_id_or_slug : String → Exec (Mongo F) (ProductDetails F)
    unfolding get_product_by_id get_product_by_slug
    get_product_by_id_or_slug id_or_slug =
        if is_object_id id_or_slug
        then get_product_by_id id_or_slug
        else get_product_by_slug id_or_slug

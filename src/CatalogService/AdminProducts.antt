-- ===== src/CatalogService/AdminProducts.antt =====
-- services/adminProductService.ts
pub mod Dressed
pub mod Writes
pub mod Series
use Prim.Native.String
use mathlib.Core.Option
use text.Mathlib.Text.{starts_with}
use jhaz_imprints.Common.{
  ℕ, String, Bool, true, false, not, Option, none, some, List, [], ◌∷◌, ◌++◌, map, ◌⊎◌, inl, inr,
  ◌==◌, if◌then◌else◌, or_default, is_some, app_error, error, ok, err, Exec, pure, gets, modify,
  guard, find_first, find_many, update_first, delete_many, any, includes, ◌>>=◌, ◌>>◌,
}
use jhaz_imprints.Common.Text.{trim, is_object_id}
use jhaz_imprints.Numbers.{Arith}
use jhaz_imprints.Catalog.{StyleOption}
use jhaz_imprints.Orders.Notes.{non_empty}
use jhaz_imprints.Models.{Violation, below_minimum, require_text}
use jhaz_imprints.Models.Slug.{clean_slug}
use jhaz_imprints.Models.Product.{
  CategoryRef, SeoMeta, ProductDocument, style_names, product_errors, product_pre_save,
  require_among, genders, occasions, categories_errors, style_options_errors,
}
use jhaz_imprints.CatalogService.{
  Mongo, SaveError, duplicate_key, invalid, Mongoose, check_saved, validated, violations_text,
  or_not_found, or_rethrow,
}
use jhaz_imprints.CatalogService.Categories.{get_categories}
use jhaz_imprints.CatalogService.Products.{
  ProductView, add_images_field, has_product_id, find_product, category_slugs, join_commas,
}

-- CreateProduct and UpdateProduct of the shared schemas
pub record CreateProduct (F : Type 0) : Type 0 where
  pub name : String
  pub slug : Option String
  pub description : String
  pub base_price : F
  pub default_style : Option String
  pub production_days : F
  pub categories : List CategoryRef
  pub fabrics : List String
  pub gender : String
  pub occasion : String
  pub style_options : List (StyleOption F)
  pub seo_meta : SeoMeta
  pub is_active : Option Bool

pub record UpdateProduct (F : Type 0) : Type 0 where
  pub name : Option String
  pub slug : Option String
  pub description : Option String
  pub base_price : Option F
  pub default_style : Option String
  pub production_days : Option F
  pub categories : Option (List CategoryRef)
  pub fabrics : Option (List String)
  pub gender : Option String
  pub occasion : Option String
  pub style_options : Option (List (StyleOption F))
  pub seo_meta : Option SeoMeta
  pub is_active : Option Bool

abbrev pub bad_id : String → Bool
bad_id id = not (is_object_id id)

abbrev pub clean_ref : CategoryRef → CategoryRef
clean_ref c = record { name = trim c.name; slug = clean_slug c.slug }

-- An id that has passed the check is written as the database writes it.
abbrev pub as_id : Mongoose → String → String
as_id db id = or_default (db.cast id) id

abbrev pub unknown_slugs : List String → List CategoryRef → List String
unknown_slugs valid [] = []
unknown_slugs valid (c ∷ cs) =
    let rest = unknown_slugs valid cs in if includes c.slug valid then rest else c.slug ∷ rest

abbrev pub unknown_message : List String → List String → String
unknown_message invalid_slugs valid = String.◌++◌ "Unknown category slugs: " (
    String.◌++◌ (join_commas invalid_slugs) (String.◌++◌ ". Valid slugs are: " (join_commas valid)))

abbrev pub is_empty {ℓ} : {A : Type ℓ} → List A → Bool
is_empty [] = true
is_empty (x ∷ xs) = false

module _ {F : Type 0} where
  -- `style.imgUrl && style.imgUrl.startsWith("https://")`
  abbrev pub is_https : StyleOption F → Bool
  is_https o = elim (non_empty o.img_url) [ none ↦ false | some url ↦ starts_with url "https://" ]

  abbrev pub not_https : StyleOption F → Bool
  not_https o = not (is_https o)

  abbrev pub default_message : String → List (StyleOption F) → String
  default_message chosen os = String.◌++◌ "Default style \"" (
      String.◌++◌ chosen (
        String.◌++◌ "\" must be one of the provided style options: "
          (join_commas (style_names os))))

  abbrev pub check_default : List (StyleOption F) → Option String → Exec (Mongo F) Unit
  check_default os none = pure tt
  check_default os (some chosen) =
      guard (includes chosen (style_names os)) (app_error 400 (default_message chosen os))

  unfoldable pub validate_style_options : List (StyleOption F) → Option String → Exec (Mongo F) Unit
  validate_style_options os chosen = do
    guard (not (is_empty os)) (app_error 400 "At least one style option is required.")
    guard (not (any not_https os)) (app_error 400 "All style option image URLs must use HTTPS.")
    check_default os (non_empty chosen)

  abbrev pub validate_category_refs : Mongoose → List CategoryRef → Exec (Mongo F) Unit
  validate_category_refs db refs = do
    categories ← get_categories db
    let valid = category_slugs categories
    let bad = unknown_slugs valid refs
    guard (is_empty bad) (app_error 400 (unknown_message bad valid))

  abbrev pub validate_fabric_refs : List String → Exec (Mongo F) Unit
  validate_fabric_refs ids = guard (is_empty (find_many bad_id ids)) (
      app_error 400
        (String.◌++◌ "Invalid fabric ObjectId(s): " (join_commas (find_many bad_id ids))))

  abbrev pub same_slug : ProductDocument F → ProductDocument F → Bool
  same_slug p other = other.slug == p.slug

  abbrev pub other_has : ProductDocument F → ProductDocument F → Bool
  other_has p other = if other.id == p.id then false else other.slug == p.slug

  abbrev pub new_style : Arith F → StyleOption F → StyleOption F
  new_style num o = record o { price_modifier = some (or_default o.price_modifier (num.of_nat 0)) }

  module _ (num : Arith F) (db : Mongoose) where
    -- The document after the setters and the defaults.
    abbrev pub new_product : (id : String) → (now : ℕ) → CreateProduct F → ProductDocument F
    new_product id now input = record {
      id = id;
      name = trim input.name;
      slug = clean_slug (or_default input.slug "");
      description = input.description;
      base_price = input.base_price;
      production_days = input.production_days;
      categories = map clean_ref input.categories;
      fabrics = map (as_id db) input.fabrics;
      gender = input.gender;
      occasion = input.occasion;
      style_options = map (new_style num) input.style_options;
      default_style = Option.map trim input.default_style;
      seo_meta = input.seo_meta;
      is_active = or_default input.is_active true;
      created_at = now;
    }

    abbrev created_product : ProductDocument F → Mongo F → SaveError ⊎ ProductDocument F
    created_product p s =
        check_saved (product_errors num p) (any (same_slug (product_pre_save p)) s.products)
          (product_pre_save p)

    abbrev insert_product : SaveError ⊎ ProductDocument F → Exec (Mongo F) (ProductView F)
    insert_product (inl duplicate_key) s =
        (err (app_error 409 "A product with this slug already exists"), s)
    insert_product (inl (invalid vs)) s = (err (app_error 400 (violations_text db vs)), s)
    insert_product (inr p) s =
        (ok (add_images_field p), record s { products = s.products ++ p ∷ [] })

    -- `id` and `now` are the new document's.
    unfoldable pub create_product :
        (id : String) → (now : ℕ) → CreateProduct F → Exec (Mongo F) (ProductView F)
    unfolding validate_style_options
    create_product id now input = do
      validate_style_options input.style_options input.default_style
      validate_category_refs db input.categories
      validate_fabric_refs input.fabrics
      created ← gets (created_product (new_product id now input))
      insert_product created

    abbrev pub patched_product : UpdateProduct F → ProductDocument F → ProductDocument F
    patched_product input p = record p {
      name = or_default (Option.map trim input.name) p.name;
      slug = or_default (Option.map clean_slug input.slug) p.slug;
      description = or_default input.description p.description;
      base_price = or_default input.base_price p.base_price;
      production_days = or_default input.production_days p.production_days;
      categories = or_default (Option.map (map clean_ref) input.categories) p.categories;
      fabrics = or_default (Option.map (map (as_id db)) input.fabrics) p.fabrics;
      gender = or_default input.gender p.gender;
      occasion = or_default input.occasion p.occasion;
      style_options =
          or_default (Option.map (map (new_style num)) input.style_options) p.style_options;
      default_style =
          if is_some input.default_style
          then Option.map trim input.default_style
          else p.default_style;
      seo_meta = or_default input.seo_meta p.seo_meta;
      is_active = or_default input.is_active p.is_active;
    }

    abbrev given {ℓ} : {A : Type ℓ} → Option A → (A → List Violation) → List Violation
    given none check = []
    given (some a) check = check a

    abbrev minimum : String → F → F → List Violation
    minimum path least x = if num.lt x least then (path, below_minimum) ∷ [] else []

    -- The validators run on the fields that are set.
    unfoldable pub update_errors : UpdateProduct F → List Violation
    update_errors input =
        given input.name (λ n. require_text "name" (trim n))
        ++ (given input.description (require_text "description")
            ++ (given input.base_price (minimum "basePrice" (num.of_nat 0))
                ++ (given input.production_days (minimum "productionDays" (num.of_nat 1))
                    ++ (given input.categories (λ cs. categories_errors (map clean_ref cs))
                        ++ (given input.gender (require_among "gender" genders)
                            ++ (given input.occasion (require_among "occasion" occasions)
                                ++ given input.style_options (λ os. style_options_errors os)))))))

    -- The style options and the default style as they will be.
    abbrev pub check_merged : String → UpdateProduct F → Exec (Mongo F) Unit
    check_merged id input = do
      found ← find_product db id
      existing ← or_not_found "Product not found" found
      validate_style_options (or_default input.style_options existing.style_options)
          (if is_some input.default_style then input.default_style else existing.default_style)

    abbrev pub check_styles : String → UpdateProduct F → Exec (Mongo F) Unit
    check_styles id input =
        if is_some input.style_options
        then check_merged id input
        else if is_some input.default_style
        then check_merged id input
        else pure tt

    abbrev check_given {ℓ} :
        {A : Type ℓ} → Option A → (A → Exec (Mongo F) Unit) → Exec (Mongo F) Unit
    check_given none check = pure tt
    check_given (some a) check = check a

    unfoldable pub check_update : String → UpdateProduct F → Exec (Mongo F) Unit
    check_update id input = do
      check_styles id input
      check_given input.categories (validate_category_refs db)
      check_given input.fabrics validate_fabric_refs

    -- `findByIdAndUpdate`
    unfoldable pub write_update : String → UpdateProduct F → Exec (Mongo F) (ProductDocument F)
    write_update id input = do
      found ← find_product db id
      or_rethrow db (validated (update_errors input))
      p ← or_not_found "Product not found" found
      let new = patched_product input p
      saved ← gets (λ s. check_saved [] (any (other_has new) s.products) new)
      stored ← or_rethrow db saved
      modify
          (λ s. record s { products = update_first (has_product_id p.id) (λ _. stored) s.products })
      pure stored

    unfoldable pub update_product : String → UpdateProduct F → Exec (Mongo F) (ProductView F)
    unfolding check_update write_update
    update_product id input = do
      check_update id input
      stored ← write_update id input
      pure (add_images_field stored)

  unfoldable pub delete_product : Mongoose → String → Exec (Mongo F) Unit
  delete_product db id = do
    found ← find_product db id
    p ← or_not_found "Product not found" found
    modify (λ s. record s { products = delete_many (has_product_id p.id) s.products })

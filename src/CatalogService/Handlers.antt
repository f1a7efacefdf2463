-- ===== src/CatalogService/Handlers.antt =====
-- handlers/adminProducts.ts, products.ts, fabrics.ts, categories.ts and fabricCategories.ts, with
-- redis.ts: what the service answers, and the events that it publishes.
pub mod Visible
pub mod Told
pub mod Sync
use mathlib.Core.Option
use jhaz_imprints.Common.{
  ℕ, capped, String, Bool, true, false, not, Option, none, some, List, [], ◌∷◌, ◌++◌, ◌==◌,
  if◌then◌else◌, app_error, ok, err, Exec, pure, gets, modify, guard, ◌>>=◌, ◌>>◌,
}
use jhaz_imprints.Common.Text.{is_object_id, parse_nat}
use jhaz_imprints.Numbers.{Arith}
use jhaz_imprints.Orders.Notes.{non_empty}
use jhaz_imprints.Events.{Message}
use jhaz_imprints.Models.{CategoryEntry, FabricCategory}
use jhaz_imprints.Models.Fabric.{FabricDocument}
use jhaz_imprints.Models.Product.{ProductDocument}
use jhaz_imprints.CatalogService.{Mongo, Mongoose}
use jhaz_imprints.CatalogService.Categories.{
  CategoryPatch, get_categories, add_category, update_category, delete_category,
}
use jhaz_imprints.CatalogService.FabricCategories.{
  CreateFabricCategory, UpdateFabricCategory, list_fabric_categories,
  get_fabric_category_by_id_or_slug, create_fabric_category, update_fabric_category,
  delete_fabric_category,
}
use jhaz_imprints.CatalogService.Fabrics.{
  QueryNumber, ListFabricsQuery, FabricList, FabricView, at_least_one, at_most_fifty, list_fabrics,
  get_fabric_by_id_or_slug,
}
use jhaz_imprints.CatalogService.AdminFabrics.{
  CreateFabric, UpdateFabric, create_fabric, update_fabric, delete_fabric,
}
use jhaz_imprints.CatalogService.Products.{
  ListProductsQuery, ProductView, ProductDetails, list_products, get_product_by_id_or_slug,
}
use jhaz_imprints.CatalogService.AdminProducts.{
  CreateProduct, UpdateProduct, create_product, update_product, delete_product,
}

-- A response: its status, and the data of its body.
pub record Answer {ℓ} (A : Type ℓ) : Type ℓ where
  pub status : ℕ
  pub body : A

abbrev pub answers {ℓ} : {A : Type ℓ} → ℕ → A → Answer A
answers status a = record { status = status; body = a }

-- `JSON.stringify`, for what the events carry.
pub record Json (F : Type 0) : Type 0 where
  pub of_product : ProductView F → String
  pub of_fabric : FabricDocument F → String
  pub of_id : String → String

-- Redis for one event: whether it takes the event, the id that it gives, and how many of the oldest
-- entries it would let go of, where more than 10,000 are there.
pub record Redis : Type 0 where
  pub takes : Bool
  pub trims : ℕ
  pub event_id : String

abbrev pub event_message : Redis → String → String → Message
event_message redis type payload = record {
  id = redis.event_id;
  fields = "eventType" ∷ type ∷ "payload" ∷ payload ∷ [];
}

-- The texts of a query; a text that is missing or empty counts as absent.
abbrev pub page_query : Option String → Option QueryNumber
page_query none = none
page_query (some text) = some (Option.map at_least_one (parse_nat text))

abbrev pub limit_query : Option String → Option QueryNumber
limit_query none = none
limit_query (some text) = some (Option.map (λ n. at_most_fifty (at_least_one n)) (parse_nat text))

abbrev pub may_see_all : Option String → Bool
may_see_all none = false
may_see_all (some role) = if role == "ADMIN" then true else role == "TAILOR"

-- `isActive` as it is passed on: drafts are for admins and tailors.
abbrev pub target_active : Option String → Option String → Option String
target_active role none = none
target_active role (some text) =
    if text == "all"
    then (if may_see_all role then some text else some "true")
    else if text == "false"
    then (if may_see_all role then some text else some "true")
    else some text

-- The query of the list of products, all texts.
pub record ProductsQuery : Type 0 where
  pub category : Option String
  pub fabric_category : Option String
  pub gender : Option String
  pub occasion : Option String
  pub search : Option String
  pub page : Option String
  pub limit : Option String
  pub is_active : Option String

pub record FabricsQuery : Type 0 where
  pub include_deleted : Option String
  pub page : Option String
  pub limit : Option String
  pub category : Option String

abbrev pub is_true : Option String → Bool
is_true none = false
is_true (some text) = text == "true"

abbrev pub products_query : Option String → ProductsQuery → ListProductsQuery
products_query role q = record {
  category = q.category;
  fabric_category = q.fabric_category;
  gender = q.gender;
  occasion = q.occasion;
  search = q.search;
  page = page_query (non_empty q.page);
  limit = limit_query (non_empty q.limit);
  is_active = target_active role q.is_active;
}

abbrev pub fabrics_query : FabricsQuery → ListFabricsQuery
fabrics_query q = record {
  page = page_query (non_empty q.page);
  limit = limit_query (non_empty q.limit);
  include_deleted = is_true q.include_deleted;
  category = q.category;
}

module _ {F : Type 0} where
  -- An error of Redis is logged and forgotten.
  unfoldable pub publish_catalog_event : Redis → String → String → Exec (Mongo F) Unit
  publish_catalog_event redis type payload s = (
    ok tt,
    if redis.takes
        then record s {
          stream = capped 10000 redis.trims (s.stream ++ event_message redis type payload ∷ []);
        }
        else s,
  )

  abbrev pub check_id : String → String → Exec (Mongo F) Unit
  check_id message id = guard (is_object_id id) (app_error 400 message)

  -- A product that is no longer sold is for admins and tailors.
  abbrev pub check_visible : Option String → ProductDetails F → Exec (Mongo F) Unit
  check_visible role d =
      guard (if d.view.product.is_active then true else may_see_all role)
        (app_error 404 "Product not found")

  module _ (db : Mongoose) where
    unfoldable pub list_products_handler :
        (String → String → Bool)
        → (List (ProductDocument F) → (page limit : QueryNumber) → List (ProductDocument F))
        → (role : Option String) → ProductsQuery
        → Exec (Mongo F) (Answer (List (ProductView F)))
    list_products_handler matches paginate role q = do
      products ← list_products db matches paginate (products_query role q)
      pure (answers 200 products)

    unfoldable pub get_product_handler :
        (role : Option String) → String → Exec (Mongo F) (Answer (ProductDetails F))
    get_product_handler role id_or_slug = do
      details ← get_product_by_id_or_slug db id_or_slug
      check_visible role details
      pure (answers 200 details)

    unfoldable pub list_fabrics_handler :
        (by_name : List (FabricDocument F) → List (FabricDocument F))
        → FabricsQuery
        → Exec (Mongo F) (Answer (FabricList F))
    list_fabrics_handler by_name q = do
      fabrics ← list_fabrics db by_name (fabrics_query q)
      pure (answers 200 fabrics)

    unfoldable pub get_fabric_handler : String → Exec (Mongo F) (Answer (FabricView F))
    get_fabric_handler id_or_slug = do
      fabric ← get_fabric_by_id_or_slug db id_or_slug
      pure (answers 200 fabric)

    unfoldable pub get_categories_handler : Exec (Mongo F) (Answer (List CategoryEntry))
    get_categories_handler = get_categories db >>= λ categories. pure (answers 200 categories)

    unfoldable pub create_category_handler : CategoryEntry → Exec (Mongo F) (Answer CategoryEntry)
    create_category_handler body = add_category db body >>= λ entry. pure (answers 201 entry)

    unfoldable pub update_category_handler :
        String → CategoryPatch → Exec (Mongo F) (Answer CategoryEntry)
    update_category_handler slug body =
        update_category db slug body >>= λ updated. pure (answers 200 updated)

    unfoldable pub delete_category_handler : String → Exec (Mongo F) (Answer Unit)
    delete_category_handler slug = delete_category db slug >> pure (answers 204 tt)

    unfoldable pub list_fabric_categories_handler : Exec (Mongo F) (Answer (List FabricCategory))
    list_fabric_categories_handler =
        list_fabric_categories db >>= λ categories. pure (answers 200 categories)

    unfoldable pub get_fabric_category_handler : String → Exec (Mongo F) (Answer FabricCategory)
    get_fabric_category_handler id_or_slug =
        get_fabric_category_by_id_or_slug db id_or_slug >>= λ c. pure (answers 200 c)

    -- `parsed` is the shared schema's verdict on the body: its data, or its messages joined.
    abbrev pub or_invalid : {A : Type 0} → Option A → String → Exec (Mongo F) A
    or_invalid none messages s = (err (app_error 400 messages), s)
    or_invalid (some a) messages s = (ok a, s)

    unfoldable pub create_fabric_category_handler :
        (id : String)
        → (parsed : Option CreateFabricCategory) → (messages : String)
        → Exec (Mongo F) (Answer FabricCategory)
    create_fabric_category_handler id parsed messages = do
      input ← or_invalid parsed messages
      c ← create_fabric_category db id input
      pure (answers 201 c)

    unfoldable pub update_fabric_category_handler :
        String
        → (parsed : Option UpdateFabricCategory) → (messages : String)
        → Exec (Mongo F) (Answer FabricCategory)
    update_fabric_category_handler id parsed messages = do
      check_id "Invalid fabric category ID" id
      input ← or_invalid parsed messages
      c ← update_fabric_category db id input
      pure (answers 200 c)

    unfoldable pub delete_fabric_category_handler :
        (now : ℕ) → String → Exec (Mongo F) (Answer Unit)
    delete_fabric_category_handler now id = do
      check_id "Invalid fabric category ID" id
      delete_fabric_category db now id
      pure (answers 204 tt)

  module _ (num : Arith F) (db : Mongoose) (json : Json F) (redis : Redis) where
    unfoldable pub create_product_handler :
        (id : String) → (now : ℕ) → CreateProduct F → Exec (Mongo F) (Answer (ProductView F))
    unfolding publish_catalog_event
    create_product_handler id now body = do
      product ← create_product num db id now body
      publish_catalog_event redis "PRODUCT_CREATED" (json.of_product product)
      pure (answers 201 product)

    unfoldable pub update_product_handler :
        String → UpdateProduct F → Exec (Mongo F) (Answer (ProductView F))
    unfolding publish_catalog_event
    update_product_handler id body = do
      check_id "Invalid product ID" id
      product ← update_product num db id body
      publish_catalog_event redis "PRODUCT_UPDATED" (json.of_product product)
      pure (answers 200 product)

    unfoldable pub delete_product_handler : String → Exec (Mongo F) (Answer Unit)
    unfolding publish_catalog_event
    delete_product_handler id = do
      check_id "Invalid product ID" id
      delete_product db id
      publish_catalog_event redis "PRODUCT_DELETED" (json.of_id id)
      pure (answers 204 tt)

    unfoldable pub create_fabric_handler :
        (id : String) → CreateFabric F → Exec (Mongo F) (Answer (FabricDocument F))
    unfolding publish_catalog_event
    create_fabric_handler id body = do
      fabric ← create_fabric num db id body
      publish_catalog_event redis "FABRIC_CREATED" (json.of_fabric fabric)
      pure (answers 201 fabric)

    unfoldable pub update_fabric_handler :
        String → UpdateFabric F → Exec (Mongo F) (Answer (FabricDocument F))
    unfolding publish_catalog_event
    update_fabric_handler id body = do
      check_id "Invalid fabric ID" id
      fabric ← update_fabric num db id body
      publish_catalog_event redis "FABRIC_UPDATED" (json.of_fabric fabric)
      pure (answers 200 fabric)

    unfoldable pub delete_fabric_handler : (now : ℕ) → String → Exec (Mongo F) (Answer Unit)
    unfolding publish_catalog_event
    delete_fabric_handler now id = do
      check_id "Invalid fabric ID" id
      delete_fabric num db now id
      publish_catalog_event redis "FABRIC_DELETED" (json.of_id id)
      pure (answers 204 tt)

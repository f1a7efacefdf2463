-- ===== src/CatalogService/Tests/Products.antt =====
-- Products that come and go, and the cache that follows them.
use mathlib.Core.Option
use text.Mathlib.Text.{starts_with}
use jhaz_imprints.Common.{
  ℕ, zero, suc, ◌≤◌, String, Bool, true, false, ◌≡◌, refl, Option, none, some, List, [], ◌∷◌, ◌==◌,
  if◌then◌else◌, arith, ok, length, find_first, any, includes,
}
use jhaz_imprints.Common.Text.{trim, trim_start, trim_end}
use jhaz_imprints.Numbers.{milli}
use jhaz_imprints.Catalog.{StyleOption}
use jhaz_imprints.Models.Slug.{clean_slug, to_lower, to_lower_char}
use jhaz_imprints.Models.Product.{ProductDocument, product_errors}
use jhaz_imprints.Events.{Payload, Worker}
use jhaz_imprints.CatalogService.{Mongo}
use jhaz_imprints.CatalogService.Categories.{get_categories}
use jhaz_imprints.CatalogService.Fabrics.{QueryNumber, take}
use jhaz_imprints.CatalogService.Products.{
  ProductView, ProductDetails, add_images_field, has_product_id,
}
use jhaz_imprints.CatalogService.Products.Listing.{IsPaging}
use jhaz_imprints.CatalogService.AdminProducts.{
  CreateProduct, create_product, is_empty, validate_style_options,
}
use jhaz_imprints.CatalogService.AdminProducts.Series.{
  ProductRequest, create, serve_products, serve_products_images,
}
use jhaz_imprints.CatalogService.Handlers.{
  Json, Redis, ProductsQuery, Answer, list_products_handler, get_product_handler,
}
use jhaz_imprints.CatalogService.Handlers.Visible.{is_draft, drafts_hidden}
use jhaz_imprints.CatalogService.Tests.{mongoose, bare}

abbrev shop : Mongo ℕ
shop = record bare { categories = record { name = "Caps"; slug = "caps"; desc = none } ∷ [] }

abbrev plain_style : StyleOption ℕ
plain_style = record { name = "Plain"; price_modifier = none; img_url = some "https://cap" }

abbrev cap : CreateProduct ℕ
cap = record {
  name = "Cap";
  slug = some "p1";
  description = "A cap";
  base_price = 5000;
  default_style = none;
  production_days = 2000;
  categories = record { name = "Caps"; slug = "caps" } ∷ [];
  fabrics = [];
  gender = "men";
  occasion = "casual";
  style_options = plain_style ∷ [];
  seo_meta = record { title = "Cap"; description = "A cap"; keywords = [] };
  is_active = none;
}

abbrev requests : List (ProductRequest ℕ)
requests = create "p1" 3 cap ∷ []

abbrev stored_cap : ProductDocument ℕ
stored_cap = record {
  id = "p1";
  name = "Cap";
  slug = "p1";
  description = "A cap";
  base_price = 5000;
  production_days = 2000;
  categories = record { name = "Caps"; slug = "caps" } ∷ [];
  fabrics = [];
  gender = "men";
  occasion = "casual";
  style_options =
      record { name = "Plain"; price_modifier = some 0; img_url = some "https://cap" } ∷ [];
  default_style = some "Plain";
  seo_meta = record { title = "Cap"; description = "A cap"; keywords = [] };
  is_active = true;
  created_at = 3;
}

cap_stored :
    find_first (has_product_id "p1") (serve_products milli mongoose requests shop).products
    ≡ some stored_cap
unfolding create_product validate_style_options get_categories product_errors trim trim_start
    trim_end clean_slug to_lower to_lower_char
cap_stored = refl

serve_products_images_example :
    let images = (add_images_field stored_cap).images in
    (is_empty images ≡ false)
    × ((url : String) → includes url images ≡ true → starts_with url "https://" ≡ true)
serve_products_images_example =
    serve_products_images milli mongoose requests shop "p1" stored_cap refl cap_stored

-- The first documents, as many as the limit; none for a limit that is no number.
abbrev first_page : List (ProductDocument ℕ) → (page limit : QueryNumber) → List (ProductDocument ℕ)
first_page found page none = []
first_page found page (some n) = take n found

any-take :
    (q : ProductDocument ℕ → Bool) (n : ℕ) (xs : List (ProductDocument ℕ))
    → any q xs ≡ false
    → any q (take n xs) ≡ false
any-take q zero xs h = refl
any-take q (suc n) [] h = refl
any-take q (suc n) (x ∷ xs) h = ground (arith, any-take q n xs)

length-take_le : (n : ℕ) (xs : List (ProductDocument ℕ)) → length (take n xs) ≤ n
length-take_le zero xs = omega arith
length-take_le (suc n) [] = omega arith
length-take_le (suc n) (x ∷ xs) = omega (arith, length-take_le n xs)

found_first :
    (q : ProductDocument ℕ → Bool) (found : List (ProductDocument ℕ)) (page limit : QueryNumber)
    → any q found ≡ false
    → any q (first_page found page limit) ≡ false
found_first q found page none h = refl
found_first q found page (some n) h = any-take q n found h

first_page-IsPaging : IsPaging first_page
first_page-IsPaging = record {
  from_found = found_first;
  within_limit = λ found page n. length-take_le n found;
}

abbrev matches : String → String → Bool
matches pattern text = pattern == text

drafts_hidden_example :
    ((q : ProductsQuery) (a : Answer (List (ProductView ℕ)))
      → (list_products_handler mongoose matches first_page
          (some "CUSTOMER")
          q
          (serve_products milli mongoose requests shop)).0
        ≡ ok a
      → any is_draft a.body ≡ false)
    × ((id_or_slug : String) (a : Answer (ProductDetails ℕ))
        → (get_product_handler mongoose
            (some "CUSTOMER")
            id_or_slug
            (serve_products milli mongoose requests shop)).0
          ≡ ok a
        → is_draft a.body.view ≡ false)
drafts_hidden_example =
    drafts_hidden mongoose matches first_page (some "CUSTOMER")
      (serve_products milli mongoose requests shop) first_page-IsPaging refl

abbrev redis : Redis
redis = record { takes = true; trims = 5; event_id = "1-0" }

-- JSON of the one product of these requests, by its name.
abbrev json : Json ℕ
json = record { of_product = λ v. v.product.name; of_fabric = λ f. f.name; of_id = λ id. id }

abbrev cap_payload : Payload ℕ
cap_payload = record {
  mongo_id = some "p1";
  id = none;
  slug = "p1";
  name = "Cap";
  base_price = 5000;
  is_active = some true;
  style_options = some stored_cap.style_options;
}

abbrev parse : String → Option (Payload ℕ)
parse text = if text == "Cap" then some cap_payload else none

abbrev sent : List (Redis × ProductRequest ℕ)
sent = (redis, create "p1" 3 cap) ∷ []

abbrev idle : Worker ℕ
idle = record { cache = []; acked = []; letters = [] }

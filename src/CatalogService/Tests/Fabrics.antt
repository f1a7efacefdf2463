-- ===== src/CatalogService/Tests/Fabrics.antt =====
-- Fabrics that come, move and go.
use jhaz_imprints.Common.{
  any, not, count, ℕ, String, true, false, ◌≡◌, refl, none, some, List, [], ◌∷◌, ok, err, app_error,
  find_first, update_first,
}
use jhaz_imprints.Common.Text.{is_object_id, trim, trim_start, trim_end}
use jhaz_imprints.Numbers.{milli}
use jhaz_imprints.Models.{FabricCategory}
use jhaz_imprints.Models.Slug.{clean_slug, to_lower, to_lower_char}
use jhaz_imprints.Models.Fabric.{PropertyDocument, FabricDocument, fabric_errors}
use jhaz_imprints.CatalogService.{Mongo}
use jhaz_imprints.CatalogService.FabricCategories.{
  CreateFabricCategory, create_fabric_category, has_fabric_category_id, has_fabric_category_slug,
}
use jhaz_imprints.CatalogService.Fabrics.{ListFabricsQuery, FabricList, FabricView, list_fabrics}
use jhaz_imprints.CatalogService.Fabrics.Listed.{
  IsSorting, Tallies, items, is_stray_fabric, list_fabrics_of_category,
}
use jhaz_imprints.CatalogService.AdminFabrics.{
  CreateFabric, UpdateFabric, create_fabric, update_fabric, with_pulled,
}
use jhaz_imprints.CatalogService.AdminFabrics.Filed.{fabric_of, listing_of}
use jhaz_imprints.CatalogService.AdminFabrics.Series.{
  FabricRequest, create, update, delete, open_category, serve_fabrics, update_fabric-strands,
}
use jhaz_imprints.CatalogService.Tests.{mongoose, bare}

abbrev blue : PropertyDocument ℕ
blue = record {
  color_name = "Blue";
  color_code = none;
  image_url = "https://blue";
  unit = "yard";
  yards_per_unit = none;
  price_modifier = some 500;
  in_stock = none;
  stock_level = none;
  is_active = none;
}

abbrev ankara : CreateFabric ℕ
ankara = record {
  slug = some "ankara";
  name = "Ankara";
  description = none;
  category_id = "prints";
  properties = blue ∷ [];
}

abbrev cotton : UpdateFabric ℕ
cotton = record {
  slug = none;
  name = none;
  description = none;
  category_id = some "plain";
  properties = none;
}

abbrev category : String → CreateFabricCategory
category name = record { name = name; slug = some name }

abbrev requests : List (FabricRequest ℕ)
requests =
    open_category "prints" (category "prints")
    ∷ open_category "plain" (category "plain")
    ∷ create "f1" ankara
    ∷ update "f1" cotton
    ∷ delete 7 "f1"
    ∷ []

abbrev three : List (FabricRequest ℕ)
three =
    open_category "prints" (category "prints")
    ∷ open_category "plain" (category "plain")
    ∷ create "f1" ankara
    ∷ []

abbrev stocked : Mongo ℕ
stocked = serve_fabrics milli mongoose three bare

abbrev moved : FabricDocument ℕ
moved = record {
  id = "f1";
  slug = "ankara";
  name = "Ankara";
  description = none;
  category = "plain";
  properties =
      record blue {
        yards_per_unit = some 1000;
        price_modifier = some 500;
        in_stock = some true;
        is_active = some true;
      }
      ∷ [];
  deleted_at = none;
}

abbrev stray : UpdateFabric ℕ
stray = record cotton { category_id = some "nowhere" }

abbrev stored : FabricDocument ℕ
stored = record moved { category = "prints" }

stored_there : fabric_of stocked "f1" ≡ some stored
unfolding create_fabric_category trim trim_start trim_end clean_slug to_lower to_lower_char
    create_fabric fabric_errors
stored_there = refl

nowhere :
    find_first
      (has_fabric_category_id "nowhere")
      (update_first (has_fabric_category_id "prints") (with_pulled "f1") stocked.fabric_categories)
    ≡ none
unfolding create_fabric_category trim trim_start trim_end clean_slug to_lower to_lower_char
    create_fabric fabric_errors
nowhere = refl

update_fabric-strands_example :
    let outcome = update_fabric milli mongoose "f1" stray stocked in
    (outcome.0 ≡ err (app_error 404 "New Fabric category not found"))
    × (listing_of outcome.1 "prints" "f1" ≡ false)
    × (outcome.1.fabrics ≡ stocked.fabrics)
update_fabric-strands_example =
    update_fabric-strands milli mongoose stocked "f1" "f1" "nowhere" "nowhere" stray stored refl
      stored_there refl refl refl nowhere

abbrev of_prints : ListFabricsQuery
of_prints = record {
  page = none;
  limit = some (some 60);
  include_deleted = false;
  category = some "prints";
}

-- The order in which they were stored.
abbrev as_stored : List (FabricDocument ℕ) → List (FabricDocument ℕ)
as_stored fs = fs

as_stored-IsSorting : IsSorting as_stored
as_stored-IsSorting = record { from_found = λ q found h. h; all_found = λ found. refl }

abbrev prints : FabricCategory
prints = record { id = "prints"; name = "prints"; slug = "prints"; fabrics = "f1" ∷ [] }

prints_there :
    find_first (has_fabric_category_slug (clean_slug "prints")) stocked.fabric_categories
    ≡ some prints
unfolding create_fabric_category trim trim_start trim_end clean_slug to_lower to_lower_char
    create_fabric fabric_errors
prints_there = refl

list_fabrics_of_category_example :
    (shown : FabricList ℕ) × (list_fabrics mongoose as_stored of_prints stocked
      ≡ (ok shown, stocked))
    × (any (λ (v : FabricView ℕ). is_stray_fabric "prints" v.fabric) (items shown) ≡ false)
    × Tallies (count (λ f. not (is_stray_fabric "prints" f)) stocked.fabrics) shown
unfolding is_object_id
list_fabrics_of_category_example =
    list_fabrics_of_category mongoose as_stored of_prints "prints" stocked prints
      as_stored-IsSorting refl refl refl refl prints_there

-- ===== src/Models/Fabric.antt =====
-- Fabric.model.ts: a fabric with its variants.
use Prim.Native.String
use jhaz_imprints.Common.{
  ℕ, suc, String, Bool, true, Option, none, some, List, [], ◌∷◌, ◌++◌, ◌==◌, if◌then◌else◌,
  or_default, includes,
}
use jhaz_imprints.Common.Text.{trim, decimal, is_hex_color}
use jhaz_imprints.Numbers.{Arith, literal}
use jhaz_imprints.Models.{
  required, not_in_enum, below_minimum, custom, Violation, require_text, filled_slug,
}

-- Interface IFabricProperty. A field with a default may be absent in what is sent.
pub record PropertyDocument (F : Type 0) : Type 0 where
  pub color_name : String
  pub color_code : Option String
  pub image_url : String
  pub unit : String
  pub yards_per_unit : Option F
  pub price_modifier : Option F
  pub in_stock : Option Bool
  pub stock_level : Option F
  pub is_active : Option Bool

-- Interface IFabric: `category` is the id of a fabric category.
pub record FabricDocument (F : Type 0) : Type 0 where
  pub id : String
  pub slug : String
  pub name : String
  pub description : Option String
  pub category : String
  pub properties : List (PropertyDocument F)
  pub deleted_at : Option ℕ

abbrev pub fabric_units : List String
fabric_units = "yard" ∷ "trouser-length" ∷ "ft" ∷ "roll" ∷ "pack" ∷ []

abbrev require_unit : String → String → List Violation
require_unit path unit =
    if unit == ""
    then (path, required) ∷ []
    else if includes unit fabric_units
    then []
    else (path, not_in_enum) ∷ []

abbrev color_code_errors : String → Option String → List Violation
color_code_errors path none = []
color_code_errors path (some v) =
    if v == ""
    then []
    else if is_hex_color v
    then []
    else (path, custom "colorCode must be a valid hex color e.g. #4169E1") ∷ []

module _ {F : Type 0} (num : Arith F) where
  -- The schema's setters and defaults.
  abbrev pub new_property : PropertyDocument F → PropertyDocument F
  new_property p = record p {
    color_name = trim p.color_name;
    yards_per_unit = some (or_default p.yards_per_unit (num.of_nat 1));
    price_modifier = some (or_default p.price_modifier (num.of_nat 0));
    in_stock = some (or_default p.in_stock true);
    is_active = some (or_default p.is_active true);
  }

  abbrev pub at_least : String → F → Option F → List Violation
  at_least path least none = []
  at_least path least (some x) = if num.lt x least then (path, below_minimum) ∷ [] else []

  -- `properties.<i>.<field>`
  abbrev property_errors : String → PropertyDocument F → List Violation
  property_errors at p =
      require_text (String.◌++◌ at "colorName") p.color_name
      ++ (color_code_errors (String.◌++◌ at "colorCode") p.color_code
          ++ (require_text (String.◌++◌ at "imageUrl") p.image_url
              ++ (require_unit (String.◌++◌ at "unit") p.unit
                  ++ (at_least (String.◌++◌ at "yardsPerUnit") (literal num 1 10) p.yards_per_unit
                      ++ (at_least (String.◌++◌ at "priceModifier") (num.of_nat 0) p.price_modifier
                          ++ at_least (String.◌++◌ at "stockLevel") (num.of_nat 0)
                              p.stock_level)))))

  abbrev properties_errors : ℕ → List (PropertyDocument F) → List Violation
  properties_errors i [] = []
  properties_errors i (p ∷ ps) =
      property_errors (String.◌++◌ "properties." (String.◌++◌ (decimal i) ".")) p
      ++ properties_errors (suc i) ps

  abbrev non_empty_properties : List (PropertyDocument F) → List Violation
  non_empty_properties [] =
      ("properties", custom "A fabric must have at least one property/variant") ∷ []
  non_empty_properties (p ∷ ps) = []

  unfoldable pub fabric_errors : FabricDocument F → List Violation
  fabric_errors f =
      require_text "name" f.name
      ++ (require_text "category" f.category
          ++ (non_empty_properties f.properties ++ properties_errors 0 f.properties))

-- The hook before a save.
abbrev pub fabric_pre_save : {F : Type 0} → FabricDocument F → FabricDocument F
fabric_pre_save f = record f { slug = filled_slug f.name f.slug }

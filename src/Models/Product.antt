-- ===== src/Models/Product.antt =====
-- Product.model.ts: a product, its hook and its images.
pub mod Images
use Prim.Native.String
use jhaz_imprints.Common.{
  ℕ, suc, String, Bool, true, false, Option, none, some, List, [], ◌∷◌, ◌++◌, map, ◌==◌,
  if◌then◌else◌, or_default, includes, add_to_set, find_first,
}
use jhaz_imprints.Common.Text.{trim}
use jhaz_imprints.Numbers.{Arith}
use jhaz_imprints.Catalog.{StyleOption}
use jhaz_imprints.Orders.Notes.{non_empty}
use jhaz_imprints.Models.{
  required, not_in_enum, below_minimum, custom, Violation, require_text, filled_slug,
}

-- Interfaces ICategoryRef and ISeoMeta
pub record CategoryRef : Type 0 where
  pub name : String
  pub slug : String

pub record SeoMeta : Type 0 where
  pub title : String
  pub description : String
  pub keywords : List String

-- Interface IProduct; an absent list of style options is an empty one.
pub record ProductDocument (F : Type 0) : Type 0 where
  pub id : String
  pub name : String
  pub slug : String
  pub description : String
  pub base_price : F
  pub production_days : F
  pub categories : List CategoryRef
  pub fabrics : List String
  pub gender : String
  pub occasion : String
  pub style_options : List (StyleOption F)
  pub default_style : Option String
  pub seo_meta : SeoMeta
  pub is_active : Bool
  pub created_at : ℕ

abbrev pub genders : List String
genders = "men" ∷ "women" ∷ "unisex" ∷ "kids" ∷ []

abbrev pub occasions : List String
occasions = "social-events-celebrations" ∷ "casual" ∷ "corporate" ∷ "burial" ∷ "wedding" ∷ []

abbrev pub require_among : String → List String → String → List Violation
require_among path allowed value =
    if value == ""
    then (path, required) ∷ []
    else if includes value allowed
    then []
    else (path, not_in_enum) ∷ []

abbrev category_refs_errors : List CategoryRef → List Violation
category_refs_errors [] = []
category_refs_errors (c ∷ cs) =
    require_text "categories.name" c.name
    ++ (require_text "categories.slug" c.slug ++ category_refs_errors cs)

abbrev pub categories_errors : List CategoryRef → List Violation
categories_errors [] = ("categories", custom "At least one category is required") ∷ []
categories_errors (c ∷ cs) = category_refs_errors (c ∷ cs)

-- `set.add`, for an address that is there.
abbrev pub add_some : Option String → List String → List String
add_some none set = set
add_some (some url) set = add_to_set url set

module _ {F : Type 0} where
  abbrev pub style_names : List (StyleOption F) → List String
  style_names [] = []
  style_names (o ∷ os) = o.name ∷ style_names os

  abbrev pub style_options_errors : List (StyleOption F) → List Violation
  style_options_errors [] = []
  style_options_errors (o ∷ os) =
      require_text "styleOptions.name" o.name
      ++ (require_text "styleOptions.imgUrl" (or_default o.img_url "") ++ style_options_errors os)

  -- The hook's default style: the first option's name unless another option is named.
  abbrev pub default_of : List (StyleOption F) → Option String → Option String
  default_of [] chosen = chosen
  default_of (o ∷ os) chosen = elim (non_empty chosen) [
    | none ↦ some (trim o.name)
    | some name ↦ if includes name (style_names (o ∷ os)) then chosen else some (trim o.name)
  ]

  -- The hook before a save.
  abbrev pub product_pre_save : ProductDocument F → ProductDocument F
  product_pre_save p = record p {
    slug = filled_slug p.name p.slug;
    default_style = default_of p.style_options p.default_style;
  }

  abbrev pub is_named : Option String → StyleOption F → Bool
  is_named none o = false
  is_named (some name) o = o.name == name

  abbrev pub add_image : StyleOption F → List String → List String
  add_image o set = add_some (non_empty o.img_url) set

  abbrev pub add_images : List (StyleOption F) → List String → List String
  add_images [] set = set
  add_images (o ∷ os) set = add_images os (add_image o set)

  abbrev pub default_option : Option String → StyleOption F → List (StyleOption F) → StyleOption F
  default_option chosen o os = or_default (find_first (is_named chosen) (o ∷ os)) o

  -- The virtual `images`, and `addImagesField` of productService.ts: the default style's first.
  unfoldable pub images_of : List (StyleOption F) → Option String → List String
  images_of [] chosen = []
  images_of (o ∷ os) chosen = add_images (o ∷ os) (add_image (default_option chosen o os) [])

  module _ (num : Arith F) where
    unfoldable pub product_errors : ProductDocument F → List Violation
    product_errors p =
        require_text "name" p.name
        ++ (require_text "description" p.description
            ++ ((if num.lt p.base_price (num.of_nat 0)
                  then ("basePrice", below_minimum) ∷ []
                  else [])
                ++ ((if num.lt p.production_days (num.of_nat 1)
                      then ("productionDays", below_minimum) ∷ []
                      else [])
                    ++ (categories_errors p.categories
                        ++ (require_among "gender" genders p.gender
                            ++ (require_among "occasion" occasions p.occasion
                                ++ (style_options_errors p.style_options
                                    ++ (require_text "seoMeta.title" p.seo_meta.title
                                        ++ require_text "seoMeta.description"
                                            p.seo_meta.description))))))))

-- ===== src/Models.antt =====
-- packages/catalog-db/src/models: the documents of MongoDB as the catalog service writes them, their
-- hooks, and the rules that a document is validated by. Here: the two kinds of category.
pub mod Slug
pub mod Fabric
pub mod Product
mod Tests
use jhaz_imprints.Common.{String, Option, List, [], ◌∷◌, ◌++◌, map, ◌==◌, if◌then◌else◌}
use mathlib.Core.Option
use jhaz_imprints.Common.Text.{trim}
use jhaz_imprints.Models.Slug.{slug_of_name, clean_slug}

-- What a field breaks: it is required, its value is not among the schema's, it is below the
-- minimum, or the schema's own validator says so.
pub data Rule : Type 0 where
  required not_in_enum below_minimum : Rule
  custom : (message : String) → Rule

-- An entry of `error.errors`: the path and what is wrong there.
abbrev pub Violation : Type 0
Violation = String × Rule

abbrev pub require_text : (path value : String) → List Violation
require_text path value = if value == "" then (path, required) ∷ [] else []

-- The hook of a slug that is missing; the schema's setters run when it is set.
abbrev pub filled_slug : (name slug : String) → String
filled_slug name slug = if slug == "" then clean_slug (slug_of_name name) else slug

-- Interface CategoryEntry, and a document of Category.
pub record CategoryEntry : Type 0 where
  pub name : String
  pub slug : String
  pub desc : Option String

-- The document after the setters and the hook before validation.
abbrev pub new_category : CategoryEntry → CategoryEntry
new_category e = record {
  name = trim e.name;
  slug = filled_slug (trim e.name) (clean_slug e.slug);
  desc = Option.map trim e.desc;
}

abbrev pub category_errors : CategoryEntry → List Violation
category_errors e = require_text "name" e.name ++ require_text "slug" e.slug

-- A document of FabricCategory: `fabrics` holds ids.
pub record FabricCategory : Type 0 where
  pub id : String
  pub name : String
  pub slug : String
  pub fabrics : List String

abbrev pub fabric_category_errors : FabricCategory → List Violation
fabric_category_errors c = require_text "name" c.name ++ require_text "slug" c.slug

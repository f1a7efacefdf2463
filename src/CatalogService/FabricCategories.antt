-- ===== src/CatalogService/FabricCategories.antt =====
-- services/fabricCategoryService.ts
use Prim.Native.String
use mathlib.Core.Option
use jhaz_imprints.Common.{
  ℕ, String, Bool, true, false, Option, none, some, List, [], ◌∷◌, ◌++◌, ◌⊎◌, inl, inr, ◌==◌,
  if◌then◌else◌, or_default, app_error, ok, err, Exec, gets, modify, find_first, update_first,
  update_many, delete_many, any, includes, sort_by, ◌>>=◌, ◌>>◌,
}
use jhaz_imprints.Common.Text.{trim, is_object_id}
use jhaz_imprints.Models.{
  FabricCategory, Violation, require_text, fabric_category_errors, filled_slug,
}
use jhaz_imprints.Models.Slug.{clean_slug}
use jhaz_imprints.Models.Fabric.{FabricDocument}
use jhaz_imprints.CatalogService.{
  Mongo, SaveError, duplicate_key, invalid, Mongoose, check_saved, validated, violations_text,
  cast_id, or_text, or_not_found, or_rethrow,
}

-- CreateFabricCategory and UpdateFabricCategory of the shared schemas
pub record CreateFabricCategory : Type 0 where
  pub name : String
  pub slug : Option String

pub record UpdateFabricCategory : Type 0 where
  pub name : Option String
  pub slug : Option String

abbrev pub has_fabric_category_id : String → FabricCategory → Bool
has_fabric_category_id id c = c.id == id

abbrev pub has_fabric_category_slug : String → FabricCategory → Bool
has_fabric_category_slug slug c = c.slug == slug

abbrev pub clashes : FabricCategory → FabricCategory → Bool
clashes a b = if a.name == b.name then true else a.slug == b.slug

abbrev pub clashes_with_other : FabricCategory → FabricCategory → Bool
clashes_with_other c other = if other.id == c.id then false else clashes c other

-- The document after the setters and the hook before validation.
abbrev pub new_fabric_category : String → CreateFabricCategory → FabricCategory
new_fabric_category id input = record {
  id = id;
  name = trim input.name;
  slug = filled_slug (trim input.name) (clean_slug (or_default input.slug ""));
  fabrics = [];
}

abbrev pub patched_fabric_category : UpdateFabricCategory → FabricCategory → FabricCategory
patched_fabric_category input c = record c {
  name = or_default (Option.map trim input.name) c.name;
  slug = or_default (Option.map clean_slug input.slug) c.slug;
}

abbrev given_text : String → Option String → List Violation
given_text path none = []
given_text path (some value) = require_text path value

-- The validators run on the fields that are set.
abbrev pub update_category_errors : UpdateFabricCategory → List Violation
update_category_errors input =
    given_text "name" (Option.map trim input.name)
    ++ given_text "slug" (Option.map clean_slug input.slug)

abbrev pub not_found_text : String
not_found_text = "Fabric category not found"

module _ {F : Type 0} where
  abbrev pub in_list : List String → FabricDocument F → Bool
  in_list ids f = includes f.id ids

  abbrev pub soft_deleted : ℕ → FabricDocument F → FabricDocument F
  soft_deleted now f = record f { deleted_at = some now }

abbrev fabric_category_name_le : Mongoose → FabricCategory → FabricCategory → Bool
fabric_category_name_le db a b = db.text_le a.name b.name

abbrev pub exists_message : CreateFabricCategory → String
exists_message input =
    String.◌++◌ "A fabric category with name or slug \""
      (String.◌++◌ (or_text (or_default input.slug "") input.name) "\" already exists")

module _ {F : Type 0} (db : Mongoose) where
  unfoldable pub list_fabric_categories : Exec (Mongo F) (List FabricCategory)
  list_fabric_categories = gets (λ s. sort_by (fabric_category_name_le db) s.fabric_categories)

  -- `FabricCategory.findById`
  abbrev pub find_fabric_category : String → Exec (Mongo F) (Option FabricCategory)
  find_fabric_category id = cast_id db id >>= λ key.
      gets (λ s. find_first (has_fabric_category_id key) s.fabric_categories)

  unfoldable pub get_fabric_category_by_id : String → Exec (Mongo F) FabricCategory
  get_fabric_category_by_id id = find_fabric_category id >>= or_not_found not_found_text

  unfoldable pub get_fabric_category_by_slug : String → Exec (Mongo F) FabricCategory
  get_fabric_category_by_slug slug =
      gets (λ s. find_first (has_fabric_category_slug (clean_slug slug)) s.fabric_categories)
      >>= or_not_found not_found_text

  unfoldable pub get_fabric_category_by_id_or_slug : String → Exec (Mongo F) FabricCategory
  unfolding get_fabric_category_by_id get_fabric_category_by_slug
  get_fabric_category_by_id_or_slug id_or_slug =
      if is_object_id id_or_slug
      then get_fabric_category_by_id id_or_slug
      else get_fabric_category_by_slug id_or_slug

  abbrev save_fabric_category :
      CreateFabricCategory → SaveError ⊎ FabricCategory → Exec (Mongo F) FabricCategory
  save_fabric_category input (inl duplicate_key) s = (err (app_error 409 (exists_message input)), s)
  save_fabric_category input (inl (invalid vs)) s = (err (app_error 400 (violations_text db vs)), s)
  save_fabric_category input (inr c) s =
      (ok c, record s { fabric_categories = s.fabric_categories ++ c ∷ [] })

  -- `id` is the new document's.
  unfoldable pub create_fabric_category :
      (id : String) → CreateFabricCategory → Exec (Mongo F) FabricCategory
  create_fabric_category id input = do
    let c = new_fabric_category id input
    created ←
        gets (λ s. check_saved (fabric_category_errors c) (any (clashes c) s.fabric_categories) c)
    save_fabric_category input created

  abbrev save_patched : SaveError ⊎ FabricCategory → Exec (Mongo F) FabricCategory
  save_patched (inl e) s =
      (err (app_error 409 "A fabric category with name or slug already exists"), s)
  save_patched (inr c) s = (
    ok c,
    record s {
      fabric_categories = update_first (has_fabric_category_id c.id) (λ _. c) s.fabric_categories;
    },
  )

  -- A ValidationError is thrown as it is, a duplicate key as 409.
  unfoldable pub update_fabric_category :
      String → UpdateFabricCategory → Exec (Mongo F) FabricCategory
  update_fabric_category id input = do
    found ← find_fabric_category id
    or_rethrow db (validated (update_category_errors input))
    old ← or_not_found not_found_text found
    let c = patched_fabric_category input old
    patched ← gets (λ s. check_saved [] (any (clashes_with_other c) s.fabric_categories) c)
    save_patched patched

  -- The fabrics that the category lists are deleted softly, the category for good.
  unfoldable pub delete_fabric_category : (now : ℕ) → String → Exec (Mongo F) Unit
  delete_fabric_category now id = do
    found ← find_fabric_category id
    c ← or_not_found not_found_text found
    modify
        (λ s. record s { fabrics = update_many (in_list c.fabrics) (soft_deleted now) s.fabrics })
    modify (λ s. record s {
      fabric_categories = delete_many (has_fabric_category_id c.id) s.fabric_categories;
    })

-- ===== src/CatalogService/AdminFabrics.antt =====
-- services/adminFabricService.ts: fabrics, and the list of its fabrics that each category keeps.
pub mod Listed
pub mod Filed
pub mod Writes
pub mod Keeps
pub mod Removals
pub mod Series
use Prim.Native.String
use mathlib.Core.Option
use jhaz_imprints.Common.{
  ℕ, String, Bool, true, false, not, Option, none, some, List, [], ◌∷◌, ◌++◌, map, ◌⊎◌, inl, inr,
  ◌==◌, if◌then◌else◌, or_default, is_some, app_error, error, ok, err, Exec, pure, gets, modify,
  find_first, update_first, any, pull, add_to_set, ◌>>=◌, ◌>>◌,
}
use jhaz_imprints.Common.Text.{trim}
use jhaz_imprints.Numbers.{Arith}
use jhaz_imprints.Orders.Notes.{non_empty}
use jhaz_imprints.Models.{FabricCategory}
use jhaz_imprints.Models.Slug.{clean_slug}
use jhaz_imprints.Models.Fabric.{
  PropertyDocument, FabricDocument, new_property, fabric_errors, fabric_pre_save,
}
use jhaz_imprints.CatalogService.{
  Mongo, SaveError, duplicate_key, invalid, Mongoose, check_saved, violations_text, cast_id,
  or_text, or_not_found,
}
use jhaz_imprints.CatalogService.FabricCategories.{
  has_fabric_category_id, find_fabric_category, not_found_text, soft_deleted,
}
use jhaz_imprints.CatalogService.Fabrics.{has_fabric_id, has_fabric_slug, find_stored_fabric}

-- CreateFabric and UpdateFabric of the shared schemas
pub record CreateFabric (F : Type 0) : Type 0 where
  pub slug : Option String
  pub name : String
  pub description : Option String
  pub category_id : String
  pub properties : List (PropertyDocument F)

pub record UpdateFabric (F : Type 0) : Type 0 where
  pub slug : Option String
  pub name : Option String
  pub description : Option String
  pub category_id : Option String
  pub properties : Option (List (PropertyDocument F))

-- `category.fabrics.push`, `$pull` and `$addToSet`
abbrev pub with_pushed : String → FabricCategory → FabricCategory
with_pushed id c = record c { fabrics = c.fabrics ++ id ∷ [] }

abbrev pub with_pulled : String → FabricCategory → FabricCategory
with_pulled id c = record c { fabrics = pull id c.fabrics }

abbrev pub with_added : String → FabricCategory → FabricCategory
with_added id c = record c { fabrics = add_to_set id c.fabrics }

-- `category` is the category's id as the database writes it.
abbrev pub new_fabric :
    {F : Type 0} → Arith F → (id category : String) → CreateFabric F → FabricDocument F
new_fabric num id category input = record {
  id = id;
  slug = clean_slug (or_default input.slug "");
  name = trim input.name;
  description = Option.map trim input.description;
  category = category;
  properties = map (new_property num) input.properties;
  deleted_at = none;
}

abbrev pub patched_fabric :
    {F : Type 0} → Arith F → Option String → UpdateFabric F → FabricDocument F → FabricDocument F
patched_fabric num category input f = record f {
  slug = or_default (Option.map clean_slug input.slug) f.slug;
  name = or_default (Option.map trim input.name) f.name;
  description =
      if is_some input.description then Option.map trim input.description else f.description;
  category = or_default category f.category;
  properties = or_default (Option.map (map (new_property num)) input.properties) f.properties;
}

abbrev pub fabric_exists_message : {F : Type 0} → CreateFabric F → String
fabric_exists_message input =
    String.◌++◌ "A fabric with slug \""
      (String.◌++◌ (or_text (or_default input.slug "") input.name) "\" already exists")

module _ {F : Type 0} where
  -- The collection of categories after a change of the one with this id.
  abbrev pub change_category : String → (FabricCategory → FabricCategory) → Exec (Mongo F) Unit
  change_category id f = modify (λ s. record s {
    fabric_categories = update_first (has_fabric_category_id id) f s.fabric_categories;
  })

  abbrev pub slug_taken : FabricDocument F → Mongo F → Bool
  slug_taken f s = any (has_fabric_slug f.slug) s.fabrics

  abbrev other_has_slug : FabricDocument F → FabricDocument F → Bool
  other_has_slug f other = if other.id == f.id then false else other.slug == f.slug

  abbrev pub changed_category : Option String → FabricDocument F → Option String
  changed_category none f = none
  changed_category (some id) f = if id == f.category then none else some id

  module _ (num : Arith F) (db : Mongoose) where
    abbrev insert_fabric :
        CreateFabric F → SaveError ⊎ FabricDocument F → Exec (Mongo F) (FabricDocument F)
    insert_fabric input (inl duplicate_key) s =
        (err (app_error 409 (fabric_exists_message input)), s)
    insert_fabric input (inl (invalid vs)) s = (err (app_error 400 (violations_text db vs)), s)
    insert_fabric input (inr f) s = (ok f, record s { fabrics = s.fabrics ++ f ∷ [] })

    -- The slug is filled in behind the validation and before the unique index.
    abbrev created_fabric : FabricDocument F → Mongo F → SaveError ⊎ FabricDocument F
    created_fabric f s =
        check_saved (fabric_errors num f) (slug_taken (fabric_pre_save f) s) (fabric_pre_save f)

    -- `id` is the new document's.
    unfoldable pub create_fabric :
        (id : String) → CreateFabric F → Exec (Mongo F) (FabricDocument F)
    create_fabric id input = do
      key ← cast_id db input.category_id
      found ← gets (λ s. find_first (has_fabric_category_id key) s.fabric_categories)
      category ← or_not_found not_found_text found
      created ← gets (created_fabric (new_fabric num id key input))
      f ← insert_fabric input created
      change_category category.id (with_pushed f.id)
      pure f

    -- The fabric's id leaves the old category's list before the new category is looked up.
    abbrev move_fabric : FabricDocument F → Option String → Exec (Mongo F) Unit
    move_fabric f none = pure tt
    move_fabric f (some id) = do
      change_category f.category (with_pulled f.id)
      found ← find_fabric_category db id
      target ← or_not_found "New Fabric category not found" found
      change_category target.id (with_added f.id)

    abbrev cast_category : Option String → Exec (Mongo F) (Option String)
    cast_category none = pure none
    cast_category (some id) = cast_id db id >>= λ key. pure (some key)

    abbrev save_fabric : SaveError ⊎ FabricDocument F → Exec (Mongo F) (FabricDocument F)
    save_fabric (inl e) s = (err (error (db.message e)), s)
    save_fabric (inr f) s =
        (ok f, record s { fabrics = update_first (has_fabric_id f.id) (λ _. f) s.fabrics })

    -- Nothing here catches the errors of the database.
    unfoldable pub update_fabric : String → UpdateFabric F → Exec (Mongo F) (FabricDocument F)
    update_fabric id input = do
      found ← find_stored_fabric db id
      f ← or_not_found "Fabric not found" found
      move_fabric f (changed_category (non_empty input.category_id) f)
      category ← cast_category (non_empty input.category_id)
      let new = patched_fabric num category input f
      checked_fabric ←
          gets (λ s. check_saved (fabric_errors num new) (any (other_has_slug new) s.fabrics) new)
      save_fabric checked_fabric

    unfoldable pub delete_fabric : (now : ℕ) → String → Exec (Mongo F) Unit
    delete_fabric now id = do
      found ← find_stored_fabric db id
      f ← or_not_found "Fabric not found" found
      change_category f.category (with_pulled f.id)
      modify (λ s. record s {
        fabrics =
            update_first (has_fabric_id f.id) (λ x. fabric_pre_save (soft_deleted now x)) s.fabrics;
      })

-- ===== src/CatalogService/Categories.antt =====
-- services/categoryService.ts
pub mod Undone
use Prim.Native.String
use mathlib.Core.Option
use jhaz_imprints.Common.{
  ℕ, String, Bool, true, false, not, Option, none, some, List, [], ◌∷◌, ◌++◌, ◌⊎◌, inl, inr, ◌==◌,
  if◌then◌else◌, or_default, ltb, app_error, ok, err, Exec, pure, gets, guard, modify, throw,
  find_first, update_first, delete_first, count, any, sort_by, ◌>>=◌, ◌>>◌, is_some,
}
use jhaz_imprints.Common.Text.{trim}
use jhaz_imprints.Models.{CategoryEntry, new_category, category_errors}
use jhaz_imprints.Models.Slug.{clean_slug}
use jhaz_imprints.CatalogService.{
  Mongo, SaveError, duplicate_key, Mongoose, check_saved, or_text, or_not_found,
}

abbrev pub has_category_slug : String → CategoryEntry → Bool
has_category_slug slug c = c.slug == slug

-- Another document would have the name or the slug, which are unique.
abbrev pub shares_key : CategoryEntry → CategoryEntry → Bool
shares_key a b = if a.name == b.name then true else a.slug == b.slug

-- `findOneAndUpdate` sets the fields that the body sends. The route hands the body on unchecked, so
-- it may hold a slug too.
pub record CategoryPatch : Type 0 where
  pub name : Option String
  pub slug : Option String
  pub desc : Option String

abbrev pub patched_category : CategoryPatch → CategoryEntry → CategoryEntry
patched_category patch c = record {
  name = or_default (Option.map trim patch.name) c.name;
  slug = or_default (Option.map clean_slug patch.slug) c.slug;
  desc = if is_some patch.desc then Option.map trim patch.desc else c.desc;
}

abbrev pub shares_with_other : String → CategoryEntry → CategoryEntry → Bool
shares_with_other own c other = if other.slug == own then false else shares_key c other

abbrev pub conflict_message : String → String
conflict_message slug = String.◌++◌ "Category with slug \"" (String.◌++◌ slug "\" already exists")

abbrev pub missing_message : String → String
missing_message slug = String.◌++◌ "Category \"" (String.◌++◌ slug "\" not found")

abbrev category_name_le : Mongoose → CategoryEntry → CategoryEntry → Bool
category_name_le db a b = db.text_le a.name b.name

module _ {F : Type 0} (db : Mongoose) where
  unfoldable pub get_categories : Exec (Mongo F) (List CategoryEntry)
  get_categories = gets (λ s. sort_by (category_name_le db) s.categories)

  unfoldable pub category_exists : String → Mongo F → Bool
  category_exists slug s = ltb 0 (count (has_category_slug (clean_slug slug)) s.categories)

  -- `Category.create`
  abbrev pub created_category : CategoryEntry → Mongo F → SaveError ⊎ CategoryEntry
  created_category c s = check_saved (category_errors c) (any (shares_key c) s.categories) c

  abbrev save_category : SaveError ⊎ CategoryEntry → Exec (Mongo F) CategoryEntry
  save_category (inl e) s =
      (err (app_error 500 (or_text (db.message e) "Failed to create category")), s)
  save_category (inr c) s = (ok c, record s { categories = s.categories ++ c ∷ [] })

  unfoldable pub add_category : CategoryEntry → Exec (Mongo F) CategoryEntry
  unfolding category_exists
  add_category entry = do
    exists ← gets (category_exists entry.slug)
    guard (not exists) (app_error 409 (conflict_message entry.slug))
    created ← gets (created_category (new_category entry))
    save_category created

  unfoldable pub update_category : String → CategoryPatch → Exec (Mongo F) CategoryEntry
  update_category slug patch = do
    found ← gets (λ s. find_first (has_category_slug (clean_slug slug)) s.categories)
    c ← or_not_found (missing_message slug) found
    taken ← gets (λ s. any (shares_with_other c.slug (patched_category patch c)) s.categories)
    guard (not taken)
        (app_error 500 (or_text (db.message duplicate_key) "Failed to update category"))
    modify (λ s. record s {
      categories =
          update_first (has_category_slug (clean_slug slug)) (patched_category patch) s.categories;
    })
    pure (patched_category patch c)

  unfoldable pub delete_category : String → Exec (Mongo F) Unit
  delete_category slug = do
    there ← gets (λ s. any (has_category_slug (clean_slug slug)) s.categories)
    guard there (app_error 404 (missing_message slug))
    modify (λ s. record s {
      categories = delete_first (has_category_slug (clean_slug slug)) s.categories;
    })

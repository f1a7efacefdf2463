-- ===== src/CatalogService/Fabrics.antt =====
-- services/fabricService.ts: the fabrics as customers read them.
pub mod Listed
use mathlib.Core.Option
use jhaz_imprints.Common.{
  ℕ, zero, suc, ◌-◌, ◌*◌, String, Bool, true, false, not, Option, none, some, List, [], ◌∷◌, ◌++◌,
  map, ◌==◌, if◌then◌else◌, eqb, leb, is_some, app_error, ok, Exec, pure, gets, find_first,
  find_many, count, ◌>>=◌, ◌>>◌,
}
use jhaz_imprints.Common.Text.{is_object_id}
use jhaz_imprints.Orders.Notes.{non_empty}
use jhaz_imprints.Models.{FabricCategory}
use jhaz_imprints.Models.Slug.{clean_slug}
use jhaz_imprints.Models.Fabric.{FabricDocument}
use jhaz_imprints.CatalogService.{Mongo, Mongoose, cast_id, or_not_found}
use jhaz_imprints.CatalogService.FabricCategories.{has_fabric_category_id, has_fabric_category_slug}

-- A query number: a whole number, or NaN.
abbrev pub QueryNumber : Type 0
QueryNumber = Option ℕ

pub record ListFabricsQuery : Type 0 where
  pub page : Option QueryNumber
  pub limit : Option QueryNumber
  pub include_deleted : Bool
  pub category : Option String

-- What `populate("category", "-__v -fabrics")` puts in place of the id.
pub record CategorySummary : Type 0 where
  pub id : String
  pub name : String
  pub slug : String

pub record FabricView (F : Type 0) : Type 0 where
  pub fabric : FabricDocument F
  pub category : Option CategorySummary

-- `filter.category`: not set, an id, or null, which no fabric has.
pub data CategoryFilter : Type 0 where
  every : CategoryFilter
  exactly : (id : String) → CategoryFilter
  nothing : CategoryFilter

pub data FabricList (F : Type 0) : Type 0 where
  whole : List (FabricView F) → FabricList F
  paged : (items : List (FabricView F)) (total page limit : ℕ) → FabricList F

abbrev pub take {ℓ} : {A : Type ℓ} → ℕ → List A → List A
take zero xs = []
take (suc n) [] = []
take (suc n) (x ∷ xs) = x ∷ take n xs

abbrev pub drop {ℓ} : {A : Type ℓ} → ℕ → List A → List A
drop zero xs = xs
drop (suc n) [] = []
drop (suc n) (x ∷ xs) = drop n xs

abbrev pub at_least_one : ℕ → ℕ
at_least_one n = if eqb n 0 then 1 else n

abbrev pub at_most_fifty : ℕ → ℕ
at_most_fifty n = if leb n 50 then n else 50

-- `page ? Math.max(1, page) : 1`; absent, NaN and 0 count as missing.
abbrev pub page_number : Option QueryNumber → ℕ
page_number (some (some n)) = at_least_one n
page_number _ = 1

-- `limit ? Math.min(50, Math.max(1, limit)) : 12`
abbrev pub page_limit : Option QueryNumber → ℕ
page_limit (some (some n)) = if eqb n 0 then 12 else at_most_fifty n
page_limit _ = 12

abbrev summary : FabricCategory → CategorySummary
summary c = record { id = c.id; name = c.name; slug = c.slug }

abbrev is_null {ℓ} : {A : Type ℓ} → Option A → Bool
is_null o = not (is_some o)

abbrev exactly_or_nothing : Option FabricCategory → CategoryFilter
exactly_or_nothing none = nothing
exactly_or_nothing (some c) = exactly c.id

module _ {F : Type 0} where
  abbrev pub has_fabric_id : String → FabricDocument F → Bool
  has_fabric_id id f = f.id == id

  abbrev pub has_fabric_slug : String → FabricDocument F → Bool
  has_fabric_slug slug f = f.slug == slug

  abbrev pub in_category : CategoryFilter → FabricDocument F → Bool
  in_category every f = true
  in_category (exactly id) f = f.category == id
  in_category nothing f = false

  -- The filter: not deleted, unless deleted ones are asked for, and of the category.
  abbrev pub is_listed : Bool → CategoryFilter → FabricDocument F → Bool
  is_listed include_deleted filter f =
      if include_deleted
      then in_category filter f
      else if is_some f.deleted_at
      then false
      else in_category filter f

  abbrev pub populated : List FabricCategory → FabricDocument F → FabricView F
  populated cs f = record {
    fabric = f;
    category = Option.map summary (find_first (has_fabric_category_id f.category) cs);
  }

  abbrev pub page_of : ℕ → ℕ → List (FabricView F) → List (FabricView F)
  page_of p l fs = take l (drop ((p - 1) * l) fs)

  abbrev pub listing : ListFabricsQuery → List (FabricView F) → ℕ → FabricList F
  listing q fs total =
      if is_null q.page
      then (if is_null q.limit
          then whole fs
          else paged (page_of (page_number q.page) (page_limit q.limit) fs) total
              (page_number q.page) (page_limit q.limit))
      else paged (page_of (page_number q.page) (page_limit q.limit) fs) total (page_number q.page)
          (page_limit q.limit)

module _ {F : Type 0} (db : Mongoose) where
  abbrev pub exact : String → Exec (Mongo F) CategoryFilter
  exact id = cast_id db id >>= λ key. pure (exactly key)

  abbrev pub by_slug : String → Exec (Mongo F) CategoryFilter
  by_slug slug = gets (λ s.
      exactly_or_nothing
        (find_first (has_fabric_category_slug (clean_slug slug)) s.fabric_categories))

  abbrev pub category_filter : Option String → Exec (Mongo F) CategoryFilter
  category_filter none = pure every
  category_filter (some text) = if is_object_id text then exact text else by_slug text

  abbrev pub matching : Bool → CategoryFilter → Mongo F → List (FabricDocument F)
  matching deleted filter s = find_many (is_listed deleted filter) s.fabrics

  -- `by_name` is MongoDB's order for this one query: fabrics of the same name come in any order, and
  -- another query may have them in another.
  abbrev pub answer_list :
      (by_name : List (FabricDocument F) → List (FabricDocument F))
      → ListFabricsQuery
      → CategoryFilter
      → Mongo F
      → FabricList F
  answer_list by_name q filter s =
      listing q
        (map (populated s.fabric_categories) (by_name (matching q.include_deleted filter s)))
        (count (is_listed q.include_deleted filter) s.fabrics)

  unfoldable pub list_fabrics :
      (by_name : List (FabricDocument F) → List (FabricDocument F))
      → ListFabricsQuery
      → Exec (Mongo F) (FabricList F)
  list_fabrics by_name q = do
    filter ← category_filter (non_empty q.category)
    gets (answer_list by_name q filter)

  -- `Fabric.findById`
  abbrev pub find_stored_fabric : String → Exec (Mongo F) (Option (FabricDocument F))
  find_stored_fabric id =
      cast_id db id >>= λ key. gets (λ s. find_first (has_fabric_id key) s.fabrics)

  abbrev fabric_view : FabricDocument F → Exec (Mongo F) (FabricView F)
  fabric_view f = gets (λ s. populated s.fabric_categories f)

  unfoldable pub get_fabric_by_id : String → Exec (Mongo F) (FabricView F)
  get_fabric_by_id id = find_stored_fabric id >>= or_not_found "Fabric not found" >>= fabric_view

  abbrev pub is_live_slug : String → FabricDocument F → Bool
  is_live_slug slug f = if is_some f.deleted_at then false else has_fabric_slug slug f

  unfoldable pub get_fabric_by_slug : String → Exec (Mongo F) (FabricView F)
  get_fabric_by_slug slug =
      gets (λ s. find_first (is_live_slug (clean_slug slug)) s.fabrics)
      >>= or_not_found "Fabric not found"
      >>= fabric_view

  unfoldable pub get_fabric_by_id_or_slug : String → Exec (Mongo F) (FabricView F)
  unfolding get_fabric_by_id get_fabric_by_slug
  get_fabric_by_id_or_slug id_or_slug =
      if is_object_id id_or_slug then get_fabric_by_id id_or_slug else get_fabric_by_slug id_or_slug

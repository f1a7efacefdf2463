-- ===== src/CatalogService.antt =====
-- packages/catalog-service: its database and what it takes of mongoose. MongoDB is taken to answer;
-- the errors that are modelled are those of the documents.
pub mod Categories
pub mod FabricCategories
pub mod Fabrics
pub mod AdminFabrics
pub mod Products
pub mod AdminProducts
pub mod Handlers
mod Tests
use jhaz_imprints.Common.{
  ℕ, String, ◌≡◌, refl, Bool, true, false, Option, none, some, List, [], ◌∷◌, ◌++◌, ◌⊎◌, inl, inr,
  ◌==◌, if◌then◌else◌, or_default, app_error, error, ok, err, Failure, Exec, pure, or_throw,
  find_first, ◌>>=◌,
}
use Prim.Native.String
use jhaz_imprints.Models.{CategoryEntry, FabricCategory, Violation, Rule}
use jhaz_imprints.Models.Fabric.{FabricDocument}
use jhaz_imprints.Models.Product.{ProductDocument}
use jhaz_imprints.Events.{Message}

-- The collections, each document as often as it is stored, and the stream of events.
pub record Mongo (F : Type 0) : Type 0 where
  pub categories : List CategoryEntry
  pub fabric_categories : List FabricCategory
  pub fabrics : List (FabricDocument F)
  pub products : List (ProductDocument F)
  pub stream : List Message

-- Why a document is not saved: a unique index has its key (code 11000), or it breaks the schema
-- (a ValidationError).
pub data SaveError : Type 0 where
  duplicate_key : SaveError
  invalid : List Violation → SaveError

-- What mongoose and MongoDB add to the code: the canonical text of an ObjectId, or nothing if the
-- text is none (a CastError); the messages of errors; and the order in which texts are sorted.
pub record Mongoose : Type 0 where
  pub cast : String → Option String
  pub cast_message : String → String
  pub rule_message : String → Rule → String
  pub message : SaveError → String
  pub text_le : String → String → Bool

-- Validation first, then the unique indexes.
abbrev pub check_saved {ℓ} : {A : Type ℓ} → List Violation → Bool → A → SaveError ⊎ A
check_saved (v ∷ vs) taken a = inl (invalid (v ∷ vs))
check_saved [] true a = inl duplicate_key
check_saved [] false a = inr a

pub check_saved-cases {ℓ} :
    {A : Type ℓ} (vs : List Violation) (taken : Bool) (a : A)
    → (check_saved vs taken a ≡ inr a) ⊎ ((e : SaveError) × (check_saved vs taken a ≡ inl e))
check_saved-cases (v ∷ vs) taken a = inr (invalid (v ∷ vs), refl)
check_saved-cases [] true a = inr (duplicate_key, refl)
check_saved-cases [] false a = inl refl

abbrev pub validated : List Violation → ◌⊎◌ {0, 0} SaveError Unit
validated vs = check_saved vs false tt

pub validated-cases :
    (vs : List Violation) → (validated vs ≡ inr tt) ⊎ ((e : SaveError) × (validated vs ≡ inl e))
validated-cases (v ∷ vs) = inr (invalid (v ∷ vs), refl)
validated-cases [] = inl refl

-- `a || b` for texts
abbrev pub or_text : String → String → String
or_text a b = if a == "" then b else a

module _ (db : Mongoose) where
  -- `Object.entries(error.errors).map(…).join("; ")`
  abbrev pub violations_text : List Violation → String
  violations_text [] = ""
  violations_text ((path, rule) ∷ []) =
      String.◌++◌ path (String.◌++◌ ": " (db.rule_message path rule))
  violations_text ((path, rule) ∷ v ∷ vs) = String.◌++◌ path (
      String.◌++◌ ": "
        (String.◌++◌ (db.rule_message path rule) (String.◌++◌ "; " (violations_text (v ∷ vs)))))

  -- An id in a query: a text that is no ObjectId throws.
  abbrev pub cast_id : {S : Type 0} → String → Exec S String
  cast_id text = or_throw (error (db.cast_message text)) (db.cast text)

  -- An error of the database is thrown as it is.
  abbrev pub or_rethrow : {S A : Type 0} → SaveError ⊎ A → Exec S A
  or_rethrow (inl e) s = (err (error (db.message e)), s)
  or_rethrow (inr a) s = (ok a, s)

-- A document by its key, or the error 404.
abbrev pub or_not_found {ℓ} : {S A : Type ℓ} → String → Option A → Exec S A
or_not_found message = or_throw (app_error 404 message)

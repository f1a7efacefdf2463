-- ===== src/CatalogService/AdminFabrics/Series.antt =====
-- Series of requests of the administration of fabrics, and the one refusal that breaks the agreement.
use jhaz_imprints.Common.{
  ℕ, String, ◌≡◌, false, none, some, List, [], ◌∷◌, arith, ◌==◌, eq_refl, ok, err, app_error,
  find_first, update_first,
}
use jhaz_imprints.Numbers.{Arith}
use jhaz_imprints.Orders.Notes.{non_empty}
use jhaz_imprints.Models.Fabric.{FabricDocument}
use jhaz_imprints.CatalogService.{Mongo, Mongoose}
use jhaz_imprints.CatalogService.FabricCategories.{
  has_fabric_category_id, CreateFabricCategory, UpdateFabricCategory, create_fabric_category,
  update_fabric_category, delete_fabric_category,
}
use jhaz_imprints.CatalogService.AdminFabrics.{
  CreateFabric, UpdateFabric, with_pulled, create_fabric, update_fabric, delete_fabric,
}
use jhaz_imprints.CatalogService.AdminFabrics.Listed.{listed-pulled}
use jhaz_imprints.CatalogService.AdminFabrics.Filed.{fabric_of, listing_of}

-- A request: new documents with their ids, deletions with their time.
pub data FabricRequest (F : Type 0) : Type 0 where
  create : (id : String) → CreateFabric F → FabricRequest F
  update : (id : String) → UpdateFabric F → FabricRequest F
  delete : (now : ℕ) → (id : String) → FabricRequest F
  open_category : (id : String) → CreateFabricCategory → FabricRequest F
  edit_category : (id : String) → UpdateFabricCategory → FabricRequest F
  close_category : (now : ℕ) → (id : String) → FabricRequest F

module _ {F : Type 0} (num : Arith F) (db : Mongoose) where
  abbrev pub serve_fabric : FabricRequest F → Mongo F → Mongo F
  serve_fabric (create id input) s = (create_fabric num db id input s).1
  serve_fabric (update id input) s = (update_fabric num db id input s).1
  serve_fabric (delete now id) s = (delete_fabric num db now id s).1
  serve_fabric (open_category id input) s = (create_fabric_category db id input s).1
  serve_fabric (edit_category id input) s = (update_fabric_category db id input s).1
  serve_fabric (close_category now id) s = (delete_fabric_category db now id s).1

  abbrev pub serve_fabrics : List (FabricRequest F) → Mongo F → Mongo F
  serve_fabrics [] s = s
  serve_fabrics (r ∷ rs) s = serve_fabrics rs (serve_fabric r s)

  -- A new fabric has a new id, and an update is not refused.
  abbrev pub IsOrderly : FabricRequest F → Mongo F → Type 0
  IsOrderly (create id input) s = fabric_of s id ≡ none
  IsOrderly (update id input) s =
      (f : FabricDocument F) × ((update_fabric num db id input s).0 ≡ ok f)
  IsOrderly (delete now id) s = Unit
  IsOrderly (open_category id input) s = Unit
  IsOrderly (edit_category id input) s = Unit
  IsOrderly (close_category now id) s = Unit

  abbrev pub AreOrderly : List (FabricRequest F) → Mongo F → Type 0
  AreOrderly [] s = Unit
  AreOrderly (r ∷ rs) s = IsOrderly r s × AreOrderly rs (serve_fabric r s)

-- An update that names another category, which does not exist, is answered 404, and afterwards the
-- fabric's category no longer lists the fabric, which is itself unchanged.
pub update_fabric-strands :
    {F : Type 0} (num : Arith F) (db : Mongoose) (s : Mongo F) (id key text missing : String)
    (input : UpdateFabric F) (f : FabricDocument F)
    → db.cast id ≡ some key
    → fabric_of s key ≡ some f
    → non_empty input.category_id ≡ some text
    → (text == f.category) ≡ false
    → db.cast text ≡ some missing
    → find_first
        (has_fabric_category_id missing)
        (update_first (has_fabric_category_id f.category) (with_pulled f.id) s.fabric_categories)
      ≡ none
    → let outcome = update_fabric num db id input s in
      (outcome.0 ≡ err (app_error 404 "New Fabric category not found"))
      × (listing_of outcome.1 f.category f.id ≡ false)
      × (outcome.1.fabrics ≡ s.fabrics)
unfolding update_fabric
update_fabric-strands num db s id key text missing input f cast there named other known gone = (
  ground (arith, cast, there, named, other, known, gone),
  ground (
    arith,
    cast,
    there,
    named,
    other,
    known,
    gone,
    listed-pulled f.category f.id f.category f.id s.fabric_categories,
    eq_refl f.category,
    eq_refl f.id,
  ),
  ground (arith, cast, there, named, other, known, gone),
)

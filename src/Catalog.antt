-- ===== src/Catalog.antt =====
-- packages/catalog-db/src/models: the documents of MongoDB that the order service reads, and the
-- two queries that it makes. An absent list of style options or properties is an empty one here;
-- the code that reads them treats the two alike.
use jhaz_imprints.Common.{String, Bool, Option, List}

pub record StyleOption (F : Type 0) : Type 0 where
  pub name : String
  pub price_modifier : Option F
  pub img_url : Option String

pub record Product (F : Type 0) : Type 0 where
  pub name : String
  pub is_active : Bool
  pub base_price : F
  pub default_style : Option String
  pub style_options : List (StyleOption F)

pub record FabricProperty (F : Type 0) : Type 0 where
  pub color_name : String
  pub image_url : Option String
  pub unit : Option String
  pub yards_per_unit : Option F
  pub price_modifier : Option F

pub record Fabric (F : Type 0) : Type 0 where
  pub name : String
  pub properties : List (FabricProperty F)

-- `Product.findById` and `Fabric.findById`, by the text of an ObjectId.
pub record Catalog (F : Type 0) : Type 0 where
  pub product : String → Option (Product F)
  pub fabric : String → Option (Fabric F)

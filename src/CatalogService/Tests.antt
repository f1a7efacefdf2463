-- ===== src/CatalogService/Tests.antt =====
-- A small catalog: the database and the requests that the theorems are applied to.
pub mod Fabrics
pub mod Products
use jhaz_imprints.Common.{
  ℕ, String, Bool, true, ◌≡◌, refl, Option, none, some, List, [], ◌∷◌, ◌==◌, if◌then◌else◌, arith,
  ok,
}
use jhaz_imprints.Common.Text.{trim, trim_start, trim_end}
use jhaz_imprints.Models.{CategoryEntry}
use jhaz_imprints.Models.Slug.{clean_slug, to_lower, to_lower_char}
use jhaz_imprints.CatalogService.{Mongo, Mongoose}
use jhaz_imprints.CatalogService.Categories.{add_category, delete_category, category_exists}
use jhaz_imprints.CatalogService.Categories.Undone.{delete_category-add_category}

-- Every text but the empty one is taken as an id; texts are not sorted.
abbrev pub mongoose : Mongoose
mongoose = record {
  cast = λ text. if text == "" then none else some text;
  cast_message = λ text. "Cast to ObjectId failed";
  rule_message = λ path rule. "is wrong";
  message = λ e. "not saved";
  text_le = λ a b. true;
}

pub cast_twice : (t k : String) → mongoose.cast t ≡ some k → mongoose.cast k ≡ some k
cast_twice t k h = ground arith

abbrev pub bare : Mongo ℕ
bare = record { categories = []; fabric_categories = []; fabrics = []; products = []; stream = [] }

abbrev agbada : CategoryEntry
agbada = record { name = "Agbada"; slug = "agbada"; desc = none }

agbada_added : (add_category mongoose agbada bare).0 ≡ ok agbada
unfolding add_category category_exists trim trim_start trim_end clean_slug to_lower to_lower_char
agbada_added = refl

delete_category-add_category_example :
    delete_category mongoose "agbada" (add_category mongoose agbada bare).1 ≡ (ok tt, bare)
delete_category-add_category_example =
    delete_category-add_category mongoose agbada agbada bare agbada_added

-- ===== src/Models/Tests.antt =====
-- A slug, and the images of a gown.
use jhaz_imprints.Common.{String, ◌≡◌, refl, none, some, List, [], ◌∷◌}
use jhaz_imprints.Common.{ℕ}
use jhaz_imprints.Catalog.{StyleOption}
use jhaz_imprints.Models.Slug.{
  slug_of_name, to_lower, dash_spaces, keep_word, nth_char, to_lower_char,
}
use jhaz_imprints.Common.Text.{trim, trim_start, trim_end}
use jhaz_imprints.Models.Product.{images_of}

aso_oke : slug_of_name "  Aso  Oké Gown! " ≡ "aso-ok-gown"
unfolding slug_of_name trim trim_start trim_end to_lower to_lower_char nth_char dash_spaces
    keep_word
aso_oke = refl

abbrev style : String → String → StyleOption ℕ
style name url = record { name = name; price_modifier = none; img_url = some url }

abbrev cuts : List (StyleOption ℕ)
cuts = style "Long" "https://b" ∷ style "Wide" "https://a" ∷ []

two_images :
    images_of (style "Short" "https://a" ∷ cuts) (some "Long") ≡ "https://b" ∷ "https://a" ∷ []
unfolding images_of
two_images = refl

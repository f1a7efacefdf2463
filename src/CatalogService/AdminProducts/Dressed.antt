-- ===== src/CatalogService/AdminProducts/Dressed.antt =====
-- Every product that the administration stores can be shown.
use mathlib.Core.Option
use jhaz_imprints.Common.{
  ℕ, String, ◌≡◌, refl, ◌∙◌, ap, Bool, true, false, not, ◌&&◌, Option, none, some, List, [], ◌∷◌,
  map, arith, ◌==◌, if◌then◌else◌, eq_iff, eq_refl, Bool-cases, Option-cases, inl, inr, ok, any,
  includes, or_default, is_some,
}
use jhaz_imprints.Common.Text.{trim}
use jhaz_imprints.Common.Text.Trimmed.{trim_twice, trim_nil}
use jhaz_imprints.Numbers.{Arith}
use jhaz_imprints.Catalog.{StyleOption}
use jhaz_imprints.Orders.Notes.{non_empty}
use jhaz_imprints.Models.Product.{ProductDocument, style_names, default_of, product_pre_save}
use jhaz_imprints.CatalogService.{Mongo, Mongoose}
use jhaz_imprints.CatalogService.AdminProducts.{
  is_empty, not_https, new_style, CreateProduct, UpdateProduct, new_product, patched_product,
  validate_style_options,
}

module _ {F : Type 0} where
  abbrev trimmed_names : List (StyleOption F) → List String
  trimmed_names [] = []
  trimmed_names (o ∷ os) = trim o.name ∷ trimmed_names os

  abbrev names_one : List (StyleOption F) → Option String → Bool
  names_one os none = true
  names_one os (some chosen) = includes (trim chosen) (trimmed_names os)

  -- Style options that all have an image over HTTPS, and a default style, if any, that is the
  -- trimmed name of one of them.
  unfoldable pub has_styles : List (StyleOption F) → Option String → Bool
  has_styles os chosen =
      not (is_empty os) && (not (any not_https os) && names_one os (non_empty chosen))

  includes-trimmed :
      (chosen : String) (os : List (StyleOption F))
      → includes chosen (style_names os) ≡ true
      → includes (trim chosen) (trimmed_names os) ≡ true
  includes-trimmed chosen [] h = ground arith
  includes-trimmed chosen (o ∷ os) h =
      ground (arith, eq_iff o.name chosen, eq_refl (trim chosen), includes-trimmed chosen os)

  module _ (num : Arith F) where
    any-new_style :
        (os : List (StyleOption F)) → any not_https (map (new_style num) os) ≡ any not_https os
    any-new_style [] = refl
    any-new_style (o ∷ os) = ground (arith, any-new_style os)

    nonempty-new_style :
        (os : List (StyleOption F))
        → is_empty os ≡ false
        → is_empty (map (new_style num) os) ≡ false
    nonempty-new_style [] h = h
    nonempty-new_style (o ∷ os) h = refl

    names-new_style :
        (os : List (StyleOption F)) → style_names (map (new_style num) os) ≡ style_names os
    names-new_style [] = refl
    names-new_style (o ∷ os) = ap (λ ns. o.name ∷ ns) (names-new_style os)

    trimmed-new_style :
        (os : List (StyleOption F)) → trimmed_names (map (new_style num) os) ≡ trimmed_names os
    trimmed-new_style [] = refl
    trimmed-new_style (o ∷ os) = ap (λ ns. trim o.name ∷ ns) (trimmed-new_style os)

    has_styles-new_style :
        (os : List (StyleOption F)) (chosen : Option String)
        → has_styles (map (new_style num) os) chosen ≡ has_styles os chosen
    unfolding has_styles
    has_styles-new_style [] chosen = refl
    has_styles-new_style (o ∷ os) chosen = elim (Option-cases (non_empty chosen)) [
      | inl unnamed ↦ ground (arith, any-new_style os, unnamed)
      | inr (d, named) ↦ ground (arith, any-new_style os, named, trimmed-new_style os)
    ]

  names-trim :
      (os : List (StyleOption F)) (d : String)
      → names_one os (non_empty (some d)) ≡ true
      → names_one os (non_empty (some (trim d))) ≡ true
  names-trim os d h = elim (Bool-cases (trim d == "")) [
    | inl bare ↦ ground (arith, bare)
    | inr text ↦ elim (Bool-cases (d == "")) [
      | inl empty ↦
          let bare : trim d ≡ "" = ap trim ((eq_iff d "").0 empty) ∙ trim_nil in
          ground (arith, text, (eq_iff (trim d) "").1 bare)
      | inr given ↦ ground (arith, text, given, trim_twice d)
    ]
  ]

  names-default_of :
      (o : StyleOption F) (os : List (StyleOption F)) (chosen : Option String)
      → names_one (o ∷ os) (non_empty (default_of (o ∷ os) chosen)) ≡ true
  names-default_of o os chosen =
      let first : names_one (o ∷ os) (non_empty (some (trim o.name))) ≡ true =
        ground (arith, trim_twice o.name, eq_refl (trim o.name)) in
      elim (Option-cases (non_empty chosen)) [
        | inl unnamed ↦ ground (arith, unnamed, first)
        | inr (d, named) ↦ elim (Bool-cases (includes d (style_names (o ∷ os)))) [
          | inl known ↦ ground (arith, named, known, includes-trimmed d (o ∷ os) known)
          | inr unknown ↦ ground (arith, named, unknown, first)
        ]
      ]

  has_styles-default_of :
      (os : List (StyleOption F)) (chosen : Option String)
      → is_empty os ≡ false
      → any not_https os ≡ false
      → has_styles os (default_of os chosen) ≡ true
  unfolding has_styles
  has_styles-default_of [] chosen h k = ground arith
  has_styles-default_of (o ∷ os) chosen h k = ground (arith, names-default_of o os chosen)

  has_styles-trim :
      (os : List (StyleOption F)) (d : String)
      → has_styles os (some d) ≡ true
      → has_styles os (some (trim d)) ≡ true
  unfolding has_styles
  has_styles-trim os d h = ground (arith, names-trim os d)

  pub has_styles-checked :
      (os : List (StyleOption F)) (chosen : Option String) (s : Mongo F)
      → (validate_style_options os chosen s).0 ≡ ok tt
      → (is_empty os ≡ false) × (any not_https os ≡ false) × (has_styles os chosen ≡ true)
  unfolding validate_style_options has_styles
  has_styles-checked os chosen s h = elim (Option-cases (non_empty chosen)) [
    | inl unnamed ↦ (ground (arith, unnamed), ground (arith, unnamed), ground (arith, unnamed))
    | inr (d, named) ↦
        (ground (arith, named), ground (arith, named), ground (arith, named, includes-trimmed d os))
  ]

  -- A check of the style options reads nothing and writes nothing.
  pub validate-writes :
      (os : List (StyleOption F)) (chosen : Option String) (s : Mongo F)
      → (validate_style_options os chosen s).1 ≡ s
  unfolding validate_style_options
  validate-writes os chosen s = ground arith

  abbrev pub is_dressed : ProductDocument F → Bool
  is_dressed p = has_styles p.style_options p.default_style

  abbrev pub is_bare : ProductDocument F → Bool
  is_bare p = not (is_dressed p)

  module _ (num : Arith F) (db : Mongoose) where
    pub new_product-dressed :
        (id : String) (now : ℕ) (input : CreateProduct F)
        → is_empty input.style_options ≡ false
        → any not_https input.style_options ≡ false
        → is_dressed (product_pre_save (new_product num db id now input)) ≡ true
    new_product-dressed id now input some_style https =
        has_styles-default_of (map (new_style num) input.style_options)
          (Option.map trim input.default_style)
          (nonempty-new_style num input.style_options some_style)
          (any-new_style num input.style_options ∙ https)

    pub patched-dressed :
        (input : UpdateProduct F) (p : ProductDocument F)
        → has_styles
            (or_default input.style_options p.style_options)
            (if is_some input.default_style then input.default_style else p.default_style)
          ≡ true
        → is_dressed (patched_product num db input p) ≡ true
    patched-dressed input p h = elim (Option-cases input.style_options) [
      | inl same_styles ↦ elim (Option-cases input.default_style) [
        | inl same_default ↦ ground (arith, same_styles, same_default)
        | inr (d, default) ↦ ground (arith, same_styles, default, has_styles-trim p.style_options d)
      ]
      | inr (os, styles) ↦ elim (Option-cases input.default_style) [
        | inl same_default ↦
            ground (arith, styles, same_default, has_styles-new_style num os p.default_style)
        | inr (d, default) ↦ ground (
          arith,
          styles,
          default,
          has_styles-trim os d,
          has_styles-new_style num os (some (trim d)),
        )
      ]
    ]

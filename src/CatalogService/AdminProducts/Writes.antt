-- ===== src/CatalogService/AdminProducts/Writes.antt =====
-- What the administration of products has written when it succeeds, and that it writes nothing else.
use jhaz_imprints.Common.{
  ℕ, String, ◌≡◌, refl, true, Option, some, List, [], ◌∷◌, ◌++◌, arith, ◌⊎◌, if◌then◌else◌,
  Bool-cases, Option-cases, Result-cases, Failure, inl, inr, ok, err, find_first, update_first,
  delete_many, any, or_default, is_some,
}
use jhaz_imprints.Numbers.{Arith}
use jhaz_imprints.Catalog.{StyleOption}
use jhaz_imprints.Models.Product.{ProductDocument, product_errors, product_pre_save}
use jhaz_imprints.CatalogService.{Mongo, Mongoose, check_saved-cases, validated-cases}
use jhaz_imprints.CatalogService.Categories.{get_categories}
use jhaz_imprints.CatalogService.Products.{ProductView, add_images_field, has_product_id}
use jhaz_imprints.CatalogService.AdminProducts.{
  CreateProduct, UpdateProduct, new_product, patched_product, validate_style_options,
  create_product, update_product, delete_product, update_errors, same_slug, other_has, check_update,
  write_update, check_styles,
}
use jhaz_imprints.CatalogService.AdminProducts.Dressed.{
  is_dressed, has_styles, has_styles-checked, validate-writes, new_product-dressed, patched-dressed,
}

module _ {F : Type 0} (num : Arith F) (db : Mongoose) (s : Mongo F) where
  abbrev HasInserted : String → ProductView F → Mongo F → Type 0
  HasInserted id v after =
      (p : ProductDocument F) × (v ≡ add_images_field p)
      × (p.id ≡ id)
      × (is_dressed p ≡ true)
      × (after.products ≡ s.products ++ p ∷ [])
      × (after.stream ≡ s.stream)

  pub create_product-writes :
      (id : String) (now : ℕ) (input : CreateProduct F) (v : ProductView F)
      → (create_product num db id now input s).0 ≡ ok v
      → HasInserted id v (create_product num db id now input s).1
  unfolding create_product get_categories
  create_product-writes id now input v h =
      let reads = validate-writes input.style_options input.default_style s in
      let new = new_product num db id now input in
      elim (Result-cases (validate_style_options input.style_options input.default_style s).0) [
        | inr (e, bad) ↦ ground (arith, bad)
        | inl (_, good) ↦
            let styles = has_styles-checked input.style_options input.default_style s good in
            elim (check_saved-cases (product_errors num new)
              (any (same_slug (product_pre_save new)) s.products) (product_pre_save new)) [
                | inr (e, refused) ↦ ground (arith, good, reads, refused)
                | inl stored ↦ (
                  product_pre_save new,
                  ground (arith, good, reads, stored),
                  refl,
                  new_product-dressed num db id now input styles.0 styles.1,
                  ground (arith, good, reads, stored),
                  ground (arith, good, reads, stored),
                )
              ]
      ]

  abbrev HasReplaced : String → UpdateProduct F → ProductView F → Mongo F → Type 0
  HasReplaced id input v after =
      (key : String) × (p : ProductDocument F) × (db.cast id ≡ some key)
      × (find_first (has_product_id key) s.products ≡ some p)
      × (v ≡ add_images_field (patched_product num db input p))
      × (is_dressed p ≡ true → is_dressed (patched_product num db input p) ≡ true)
      × (after.products
          ≡ update_first (has_product_id p.id) (λ _. patched_product num db input p) s.products)
      × (after.stream ≡ s.stream)

  check_styles-reads :
      (id : String) (input : UpdateProduct F) → (check_styles num db id input s).1 ≡ s
  check_styles-reads id input = elim (Option-cases (db.cast id)) [
    | inl no_id ↦ ground (arith, no_id)
    | inr (key, cast) ↦ elim (Option-cases (find_first (has_product_id key) s.products)) [
      | inl missing ↦ ground (arith, cast, missing)
      | inr (p, there) ↦ ground (
        arith,
        cast,
        there,
        validate-writes (or_default input.style_options p.style_options)
            (if is_some input.default_style then input.default_style else p.default_style) s,
      )
    ]
  ]

  check_update-reads :
      (id : String) (input : UpdateProduct F) → (check_update num db id input s).1 ≡ s
  unfolding check_update get_categories
  check_update-reads id input =
      let reads = check_styles-reads id input in
      elim (Result-cases (check_styles num db id input s).0) [
        | inl (_, good) ↦ ground (arith, good, reads)
        | inr (e, bad) ↦ ground (arith, bad, reads)
      ]

  module _ (id key : String) (input : UpdateProduct F) (v : ProductView F) (p : ProductDocument F)
      (cast : db.cast id ≡ some key) (there : find_first (has_product_id key) s.products ≡ some p)
      (h : (update_product num db id input s).0 ≡ ok v) where
    abbrev merged_styles : List (StyleOption F)
    merged_styles = or_default input.style_options p.style_options

    abbrev merged_default : Option String
    merged_default = if is_some input.default_style then input.default_style else p.default_style

    -- An accepted update that touches the styles has passed the check of the styles.
    styles_checked :
        (is_some input.style_options ≡ true) ⊎ (is_some input.default_style ≡ true)
        → has_styles merged_styles merged_default ≡ true
    unfolding update_product check_update
    styles_checked touched =
        elim (Result-cases (validate_style_options merged_styles merged_default s).0) [
          | inl (_, good) ↦ (has_styles-checked merged_styles merged_default s good).2
          | inr (e, bad) ↦ ground (arith, cast, there, bad)
        ]

    keeps_dressed : is_dressed p ≡ true → is_dressed (patched_product num db input p) ≡ true
    keeps_dressed before = elim (Bool-cases (is_some input.style_options)) [
      | inl touched ↦ patched-dressed num db input p (styles_checked (inl touched))
      | inr same_styles ↦ elim (Bool-cases (is_some input.default_style)) [
        | inl touched ↦ patched-dressed num db input p (styles_checked (inr touched))
        | inr same_default ↦ ground (arith, same_styles, same_default, before)
      ]
    ]

    stored_update :
        (v ≡ add_images_field (patched_product num db input p))
        × ((update_product num db id input s).1.products
            ≡ update_first (has_product_id p.id) (λ _. patched_product num db input p) s.products)
        × ((update_product num db id input s).1.stream ≡ s.stream)
    unfolding update_product write_update
    stored_update =
        let new = patched_product num db input p in
        let reads = check_update-reads id input in
        elim (Result-cases (check_update num db id input s).0) [
          | inr (e, bad) ↦ ground (arith, bad)
          | inl (_, good) ↦ elim (validated-cases (update_errors num db input)) [
            | inl right ↦ elim (check_saved-cases [] (any (other_has new) s.products) new) [
              | inl free ↦ (
                ground (arith, good, reads, cast, there, right, free),
                ground (arith, good, reads, cast, there, right, free),
                ground (arith, good, reads, cast, there, right, free),
              )
              | inr (e, taken) ↦ ground (arith, good, reads, cast, there, right, taken)
            ]
            | inr (e, wrong) ↦ ground (arith, good, reads, cast, there, wrong)
          ]
        ]

  pub update_product-writes :
      (id : String) (input : UpdateProduct F) (v : ProductView F)
      → (update_product num db id input s).0 ≡ ok v
      → HasReplaced id input v (update_product num db id input s).1
  unfolding update_product write_update
  update_product-writes id input v h = elim (Option-cases (db.cast id)) [
    | inl no_id ↦ ground (arith, no_id)
    | inr (key, cast) ↦ elim (Option-cases (find_first (has_product_id key) s.products)) [
      | inl missing ↦
          let reads = check_update-reads id input in
          elim (Result-cases (check_update num db id input s).0) [
            | inr (e, bad) ↦ ground (arith, bad)
            | inl (_, good) ↦ elim (validated-cases (update_errors num db input)) [
              | inl right ↦ ground (arith, good, reads, cast, missing, right)
              | inr (e, wrong) ↦ ground (arith, good, reads, cast, missing, wrong)
            ]
          ]
      | inr (p, there) ↦
          let done = stored_update id key input v p cast there h in
          (key, p, cast, there, done.0, keeps_dressed id key input v p cast there h, done.1, done.2)
    ]
  ]

  pub create_product-refused :
      (id : String) (now : ℕ) (input : CreateProduct F) (e : Failure)
      → (create_product num db id now input s).0 ≡ err e
      → (create_product num db id now input s).1 ≡ s
  unfolding create_product get_categories
  create_product-refused id now input e h =
      let reads = validate-writes input.style_options input.default_style s in
      let new = new_product num db id now input in
      elim (Result-cases (validate_style_options input.style_options input.default_style s).0) [
        | inr (x, bad) ↦ ground (arith, bad, reads)
        | inl (_, good) ↦
            elim (check_saved-cases (product_errors num new)
              (any (same_slug (product_pre_save new)) s.products) (product_pre_save new)) [
                | inr (x, refused) ↦ ground (arith, good, reads, refused)
                | inl stored ↦ ground (arith, good, reads, stored)
              ]
      ]

  write_update-refused :
      (id : String) (input : UpdateProduct F) (e : Failure)
      → (write_update num db id input s).0 ≡ err e
      → (write_update num db id input s).1 ≡ s
  unfolding write_update
  write_update-refused id input e h = elim (Option-cases (db.cast id)) [
    | inl no_id ↦ ground (arith, no_id)
    | inr (key, cast) ↦ elim (validated-cases (update_errors num db input)) [
      | inr (x, wrong) ↦ ground (arith, cast, wrong)
      | inl right ↦ elim (Option-cases (find_first (has_product_id key) s.products)) [
        | inl missing ↦ ground (arith, cast, right, missing)
        | inr (p, there) ↦
            let new = patched_product num db input p in
            elim (check_saved-cases [] (any (other_has new) s.products) new) [
              | inl free ↦ ground (arith, cast, right, there, free)
              | inr (x, taken) ↦ ground (arith, cast, right, there, taken)
            ]
      ]
    ]
  ]

  pub update_product-refused :
      (id : String) (input : UpdateProduct F) (e : Failure)
      → (update_product num db id input s).0 ≡ err e
      → (update_product num db id input s).1 ≡ s
  unfolding update_product
  update_product-refused id input e h =
      let reads = check_update-reads id input in
      elim (Result-cases (check_update num db id input s).0) [
        | inr (x, bad) ↦ ground (arith, bad, reads)
        | inl (_, good) ↦ elim (Result-cases (write_update num db id input s).0) [
          | inl (p, stored) ↦ ground (arith, good, reads, stored)
          | inr (x, bad) ↦ ground (arith, good, reads, bad, write_update-refused id input x bad)
        ]
      ]

pub delete_product-refused :
    {F : Type 0} (db : Mongoose) (s : Mongo F) (id : String) (e : Failure)
    → (delete_product db id s).0 ≡ err e
    → (delete_product db id s).1 ≡ s
unfolding delete_product
delete_product-refused db s id e h = ground arith

pub delete_product-writes :
    {F : Type 0} (db : Mongoose) (s : Mongo F) (id : String)
    → (delete_product db id s).0 ≡ ok tt
    → (key : String) × (p : ProductDocument F) × (db.cast id ≡ some key)
      × (find_first (has_product_id key) s.products ≡ some p)
      × ((delete_product db id s).1
          ≡ record s { products = delete_many (has_product_id p.id) s.products })
unfolding delete_product
delete_product-writes db s id h = elim (Option-cases (db.cast id)) [
  | inl no_id ↦ ground (arith, no_id)
  | inr (key, cast) ↦ elim (Option-cases (find_first (has_product_id key) s.products)) [
    | inl missing ↦ ground (arith, cast, missing)
    | inr (p, there) ↦ (key, p, cast, there, ground (arith, cast, there))
  ]
]

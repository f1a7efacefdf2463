-- ===== src/CatalogService/AdminProducts/Series.antt =====
-- Series of requests of the administration of products.
use jhaz_imprints.Common.{
  ℕ, String, ◌≡◌, refl, sym, ◌∙◌, subst, Bool, true, false, Option, some, List, [], ◌∷◌, ◌++◌,
  arith, ◌==◌, if◌then◌else◌, eq_iff, eq_refl, Bool-cases, Option-cases, Result-cases, inl, inr,
  find_first, update_first, delete_many, any, includes,
}
use text.Mathlib.Text.{starts_with}
use jhaz_imprints.Numbers.{Arith}
use jhaz_imprints.Catalog.{StyleOption}
use jhaz_imprints.Orders.Notes.{non_empty}
use jhaz_imprints.Models.Product.{ProductDocument, images_of}
use jhaz_imprints.Models.Product.Images.{shows, images_of_lem}
use jhaz_imprints.CatalogService.{Mongo, Mongoose}
use jhaz_imprints.CatalogService.Products.{add_images_field, has_product_id}
use jhaz_imprints.CatalogService.AdminProducts.{
  CreateProduct, UpdateProduct, patched_product, create_product, update_product, delete_product,
  not_https, is_https, is_empty,
}
use jhaz_imprints.CatalogService.AdminProducts.Dressed.{is_dressed, is_bare, has_styles}
use jhaz_imprints.CatalogService.AdminProducts.Writes.{
  create_product-writes, update_product-writes, create_product-refused, update_product-refused,
}

pub data ProductRequest (F : Type 0) : Type 0 where
  create : (id : String) → (now : ℕ) → CreateProduct F → ProductRequest F
  update : (id : String) → UpdateProduct F → ProductRequest F
  delete : (id : String) → ProductRequest F

module _ {ℓ} {A : Type ℓ} (q : A → Bool) where
  any-append : (xs ys : List A) → any q (xs ++ ys) ≡ (if any q xs then true else any q ys)
  any-append [] ys = refl
  any-append (x ∷ xs) ys = ground (arith, any-append xs ys)

  any-update_first :
      (p : A → Bool) (y : A) (xs : List A)
      → any q xs ≡ false
      → q y ≡ false
      → any q (update_first p (λ _. y) xs) ≡ false
  any-update_first p y [] h k = refl
  any-update_first p y (x ∷ xs) h k = ground (arith, any-update_first p y xs)

  any-delete_many :
      (p : A → Bool) (xs : List A) → any q xs ≡ false → any q (delete_many p xs) ≡ false
  any-delete_many p [] h = refl
  any-delete_many p (x ∷ xs) h = ground (arith, any-delete_many p xs)

  any-find_first :
      (p : A → Bool) (xs : List A) (x : A)
      → any q xs ≡ false
      → find_first p xs ≡ some x
      → q x ≡ false
  any-find_first p [] x h k = ground arith
  any-find_first p (y ∷ ys) x h k = ground (arith, any-find_first p ys x)

not_in_empty : (u : String) (xs : List String) → is_empty xs ≡ true → includes u xs ≡ false
not_in_empty u [] h = refl
not_in_empty u (x ∷ xs) h = ground arith

module _ {F : Type 0} (num : Arith F) (db : Mongoose) where
  abbrev pub serve_product : ProductRequest F → Mongo F → Mongo F
  serve_product (create id now input) s = (create_product num db id now input s).1
  serve_product (update id input) s = (update_product num db id input s).1
  serve_product (delete id) s = (delete_product db id s).1

  abbrev pub serve_products : List (ProductRequest F) → Mongo F → Mongo F
  serve_products [] s = s
  serve_products (r ∷ rs) s = serve_products rs (serve_product r s)

  -- No product is without its styles.
  abbrev pub AreDressed : Mongo F → Type 0
  AreDressed s = any is_bare s.products ≡ false

  serve_product-AreDressed :
      (r : ProductRequest F) (s : Mongo F) → AreDressed s → AreDressed (serve_product r s)
  serve_product-AreDressed (create id now input) s h =
      elim (Result-cases (create_product num db id now input s).0) [
        | inl (v, done) ↦
            let (p, _, _, dressed, products, _) =
              create_product-writes num db s id now input v done in
            subst (λ ps. any is_bare ps ≡ false) (sym products)
              (ground (arith, any-append is_bare s.products (p ∷ []), dressed))
        | inr (e, refused) ↦
            subst AreDressed (sym (create_product-refused num db s id now input e refused)) h
      ]
  serve_product-AreDressed (update id input) s h =
      elim (Result-cases (update_product num db id input s).0) [
        | inl (v, done) ↦
            let (key, p, _, there, _, keeps, products, _) =
              update_product-writes num db s id input v done in
            let before : is_dressed p ≡ true =
              ground (arith, any-find_first is_bare (has_product_id key) s.products p h there) in
            let after : is_bare (patched_product num db input p) ≡ false =
              ground (arith, keeps before) in
            subst (λ ps. any is_bare ps ≡ false) (sym products)
              (any-update_first is_bare (has_product_id p.id) (patched_product num db input p)
                s.products h after)
        | inr (e, refused) ↦
            subst AreDressed (sym (update_product-refused num db s id input e refused)) h
      ]
  serve_product-AreDressed (delete id) s h = elim (Option-cases (db.cast id)) [
    | inl no_id ↦ unfold delete_product in ground (arith, no_id)
    | inr (key, cast) ↦ elim (Option-cases (find_first (has_product_id key) s.products)) [
      | inl missing ↦ unfold delete_product in ground (arith, cast, missing)
      | inr (p, there) ↦
          unfold delete_product in
          ground (arith, cast, there, any-delete_many is_bare (has_product_id p.id) s.products h)
    ]
  ]

  pub serve_products-AreDressed :
      (rs : List (ProductRequest F)) (s : Mongo F) → AreDressed s → AreDressed (serve_products rs s)
  serve_products-AreDressed [] s h = h
  serve_products-AreDressed (r ∷ rs) s h =
      serve_products-AreDressed rs (serve_product r s) (serve_product-AreDressed r s h)

module _ {F : Type 0} where
  shown_is_https :
      (url : String) (os : List (StyleOption F))
      → any not_https os ≡ false
      → any (shows url) os ≡ true
      → starts_with url "https://" ≡ true
  shown_is_https url [] h k = ground arith
  shown_is_https url (o ∷ os) h k = elim (Option-cases (non_empty o.img_url)) [
    | inl bare ↦ ground (arith, bare)
    | inr (u, has_image) ↦ elim (Bool-cases (u == url)) [
      | inl same ↦
          let secure : starts_with u "https://" ≡ true = ground (arith, has_image) in
          subst (λ x. starts_with x "https://" ≡ true) ((eq_iff u url).0 same) secure
      | inr other ↦ ground (arith, has_image, other, shown_is_https url os)
    ]
  ]

  has_image_of :
      (o : StyleOption F) (os : List (StyleOption F)) (chosen : Option String)
      → is_https o ≡ true
      → is_empty (images_of (o ∷ os) chosen) ≡ false
  has_image_of o os chosen secure = elim (Option-cases (non_empty o.img_url)) [
    | inl bare ↦ ground (arith, bare)
    | inr (u, has_image) ↦ elim (Bool-cases (is_empty (images_of (o ∷ os) chosen))) [
      | inr full ↦ full
      | inl empty ↦
          let shown : includes u (images_of (o ∷ os) chosen) ≡ true =
            (images_of_lem o os chosen).0 u ∙ ground (arith, has_image, eq_refl u) in
          ground (arith, not_in_empty u (images_of (o ∷ os) chosen) empty)
    ]
  ]

  dressed_images :
      (os : List (StyleOption F)) (chosen : Option String)
      → has_styles os chosen ≡ true
      → (is_empty (images_of os chosen) ≡ false)
        × ((url : String)
            → includes url (images_of os chosen) ≡ true
            → starts_with url "https://" ≡ true)
  unfolding has_styles
  dressed_images [] chosen h = ground arith
  dressed_images (o ∷ os) chosen h =
      let secure : any not_https (o ∷ os) ≡ false = ground arith in
      (
        has_image_of o os chosen (ground arith),
        λ url shown.
            shown_is_https url (o ∷ os) secure (sym ((images_of_lem o os chosen).0 url) ∙ shown),
      )

-- Through any series of creations, updates and deletions of products, accepted or not, every stored
-- product keeps at least one image to show, and all its images are addressed over HTTPS.
pub serve_products_images :
    {F : Type 0} (num : Arith F) (db : Mongoose) (rs : List (ProductRequest F)) (s : Mongo F)
    (id : String) (p : ProductDocument F)
    → AreDressed num db s
    → find_first (has_product_id id) (serve_products num db rs s).products ≡ some p
    → let images = (add_images_field p).images in
      (is_empty images ≡ false)
      × ((url : String) → includes url images ≡ true → starts_with url "https://" ≡ true)
unfolding add_images_field
serve_products_images num db rs s id p h found =
    let dressed : is_dressed p ≡ true = ground (
      arith,
      any-find_first is_bare (has_product_id id) (serve_products num db rs s).products p
          (serve_products-AreDressed num db rs s h) found,
    ) in
    dressed_images p.style_options p.default_style dressed

-- ===== src/CatalogService/Handlers/Told.antt =====
-- What the events of the administration of products say of each product, and that a creation and
-- a change keep it true of what is stored.
use mathlib.Core.Option
use jhaz_imprints.Common.{
  ℕ, ◌+◌, ◌<◌, length, capped, capped_short, String, ◌≡◌, refl, sym, ◌∙◌, ap, subst, true, Option,
  none, some, List, [], ◌∷◌, ◌++◌, arith, ◌==◌, if◌then◌else◌, Bool-cases, Result-cases, ok, inl,
  inr, eq_iff, find_first, find_first-holds, update_first, delete_many, find_first-update_key,
  find_first-delete_many, find_first-delete_other,
}
use jhaz_imprints.Common.Text.{is_object_id}
use jhaz_imprints.Numbers.{Arith}
use jhaz_imprints.Models.Product.{ProductDocument}
use jhaz_imprints.Events.{Payload, CachedProduct, Message, key_of_payload, cached, parsed}
use jhaz_imprints.Events.Latest.{told, latest}
use jhaz_imprints.CatalogService.{Mongo, Mongoose}
use jhaz_imprints.CatalogService.Products.{ProductView, has_product_id, add_images_field}
use jhaz_imprints.CatalogService.AdminFabrics.Keeps.{find_first-concat}
use jhaz_imprints.CatalogService.AdminProducts.{
  CreateProduct, UpdateProduct, patched_product, create_product, update_product,
}
use jhaz_imprints.CatalogService.AdminProducts.Series.{ProductRequest, create, update, delete}
use jhaz_imprints.CatalogService.AdminProducts.Writes.{
  create_product-writes, update_product-writes, create_product-refused, update_product-refused,
}
use jhaz_imprints.CatalogService.Handlers.{
  Json, Redis, event_message, create_product_handler, update_product_handler,
  delete_product_handler, publish_catalog_event,
}

-- What the order service keeps of a product.
abbrev pub cached_of : {F : Type 0} → ProductDocument F → CachedProduct F
cached_of p = record {
  id = p.id;
  slug = p.slug;
  name = p.name;
  base_price = p.base_price;
  is_active = p.is_active;
  style_options = p.style_options;
}

abbrev pub product_id : {F : Type 0} → ProductDocument F → String
product_id p = p.id

-- JSON.parse reads back what JSON.stringify has written of this product, or of this id.
abbrev pub ReadsProduct :
    {F : Type 0} → Json F → (String → Option (Payload F)) → ProductView F → Type 0
ReadsProduct {F} json parse v =
    (q : Payload F) × (parse (json.of_product v) ≡ some q)
    × (key_of_payload q ≡ some v.product.id)
    × (cached v.product.id q ≡ cached_of v.product)

abbrev pub ReadsId : {F : Type 0} → Json F → (String → Option (Payload F)) → String → Type 0
ReadsId {F} json parse id = (q : Payload F) × (parse (json.of_id id) ≡ some q) × (q.id ≡ some id)

module _ {F : Type 0} where
  -- What is found of a product once the products of an id are gone.
  pub found-delete_many :
      (id asked : String) (ps : List (ProductDocument F))
      → find_first (has_product_id asked) (delete_many (has_product_id id) ps)
        ≡ (if id == asked then none else find_first (has_product_id asked) ps)
  found-delete_many id asked ps = elim (Bool-cases (id == asked)) [
    | inl gone ↦
        let same : id ≡ asked = (eq_iff id asked).0 gone in
        subst (λ i. find_first (has_product_id i) (delete_many (has_product_id id) ps) ≡ none) same
          (find_first-delete_many (has_product_id id) ps)
        ∙ ground (arith, gone)
    | inr other ↦
        find_first-delete_other (has_product_id id) (has_product_id asked) ps
          (λ (x : ProductDocument F) (h : (x.id == id) ≡ true).
            ground (arith, eq_iff x.id id, eq_iff x.id asked, eq_iff id asked, other))
        ∙ ground (arith, other)
  ]

length-more : (xs : List Message) (m : Message) → length (xs ++ m ∷ []) ≡ length xs + 1
length-more [] m = refl
length-more (x ∷ xs) m = omega (arith, length-more xs m)

module _ {F : Type 0} where
  -- Redis lets go of no event while there are at most 10,000.
  pub added :
      (redis : Redis) (m : Message) (s : Mongo F)
      → length s.stream < 10000
      → capped 10000 redis.trims (s.stream ++ m ∷ []) ≡ s.stream ++ m ∷ []
  added redis m s room =
      capped_short 10000 redis.trims (s.stream ++ m ∷ [])
        (omega (arith, room, length-more s.stream m))

module _ {F : Type 0} (parse : String → Option (Payload F)) where
  pub latest-concat :
      (id : String) (ms : List Message) (m : Message) (old : Option (CachedProduct F))
      → latest parse id (ms ++ m ∷ []) old ≡ told id m (parsed parse m) (latest parse id ms old)
  latest-concat id [] m old = refl
  latest-concat id (x ∷ ms) m old = latest-concat id ms m (told id x (parsed parse x) old)

  -- The last word of the events on each product is what is stored of it.
  abbrev pub IsTold : Mongo F → Type 0
  IsTold s =
      (id : String)
      → latest parse id s.stream none
        ≡ Option.map cached_of (find_first (has_product_id id) s.products)

module _ {F : Type 0} (num : Arith F) (db : Mongoose) (json : Json F) where
  abbrev pub handle_product : Redis → ProductRequest F → Mongo F → Mongo F
  handle_product redis (create id now body) s =
      (create_product_handler num db json redis id now body s).1
  handle_product redis (update id body) s = (update_product_handler num db json redis id body s).1
  handle_product redis (delete id) s = (delete_product_handler num db json redis id s).1

  abbrev pub handle_products : List (Redis × ProductRequest F) → Mongo F → Mongo F
  handle_products [] s = s
  handle_products ((redis, r) ∷ rs) s = handle_products rs (handle_product redis r s)

  module _ (parse : String → Option (Payload F)) where
    -- Redis takes the event, as one of at most 10,000, which is read as it was written; a new product has a new id; and a
    -- deletion writes the id as it is stored.
    abbrev pub IsPlain : Redis → ProductRequest F → Mongo F → Type 0
    IsPlain redis (create id now body) s =
        (redis.takes ≡ true)
        × (length s.stream < 10000)
        × (find_first (has_product_id id) s.products ≡ none)
        × ((v : ProductView F)
            → (create_product num db id now body s).0 ≡ ok v
            → ReadsProduct json parse v)
    IsPlain redis (update id body) s =
        (redis.takes ≡ true)
        × (length s.stream < 10000)
        × ((v : ProductView F)
            → (update_product num db id body s).0 ≡ ok v
            → ReadsProduct json parse v)
    IsPlain redis (delete id) s =
        (redis.takes ≡ true)
        × (length s.stream < 10000)
        × (db.cast id ≡ some id)
        × ReadsId json parse id

    abbrev pub ArePlain : List (Redis × ProductRequest F) → Mongo F → Type 0
    ArePlain [] s = Unit
    ArePlain ((redis, r) ∷ rs) s = IsPlain redis r s × ArePlain rs (handle_product redis r s)

  module _ (parse : String → Option (Payload F)) (redis : Redis) (s : Mongo F)
      (synced : IsTold parse s) (takes : redis.takes ≡ true) (room : length s.stream < 10000) where
    pub create-IsTold :
        (id : String) (now : ℕ) (body : CreateProduct F)
        → find_first (has_product_id id) s.products ≡ none
        → ((v : ProductView F)
            → (create_product num db id now body s).0 ≡ ok v
            → ReadsProduct json parse v)
        → IsTold parse (create_product_handler num db json redis id now body s).1
    unfolding create_product_handler publish_catalog_event add_images_field
    create-IsTold id now body fresh read asked =
        elim (Result-cases (create_product num db id now body s).0) [
          | inr (e, refused) ↦
              let same : (create_product_handler num db json redis id now body s).1 ≡ s =
                ground (arith, refused, create_product-refused num db s id now body e refused) in
              subst (IsTold parse) (sym same) synced asked
          | inl (v, done) ↦
              let (p, shown, is_new, _, products, stream) =
                create_product-writes num db s id now body v done in
              let (q, parses, key, told_of) = read v done in
              let after = (create_product_handler num db json redis id now body s).1 in
              let m = event_message redis "PRODUCT_CREATED" (json.of_product v) in
              let stored : after.products ≡ s.products ++ p ∷ [] =
                ground (arith, done, products, takes) in
              let sent : after.stream ≡ s.stream ++ m ∷ [] =
                ground (arith, done, stream, takes, added redis m s room) in
              let is_p : v.product ≡ p = ap (λ (x : ProductView F). x.product) shown in
              ground (
                arith,
                stored,
                sent,
                latest-concat parse asked s.stream m none,
                synced asked,
                parses,
                key,
                told_of,
                is_p,
                is_new,
                fresh,
                find_first-concat (has_product_id asked) s.products p,
                eq_iff p.id asked,
              )
        ]

    pub update-IsTold :
        (id : String) (body : UpdateProduct F)
        → ((v : ProductView F)
            → (update_product num db id body s).0 ≡ ok v
            → ReadsProduct json parse v)
        → IsTold parse (update_product_handler num db json redis id body s).1
    unfolding update_product_handler publish_catalog_event add_images_field
    update-IsTold id body read asked = elim (Bool-cases (is_object_id id)) [
      | inr no_id ↦ ground (arith, no_id, synced asked)
      | inl valid ↦ elim (Result-cases (update_product num db id body s).0) [
        | inr (e, refused) ↦
            let same : (update_product_handler num db json redis id body s).1 ≡ s =
              ground (arith, valid, refused, update_product-refused num db s id body e refused) in
            subst (IsTold parse) (sym same) synced asked
        | inl (v, done) ↦
            let (key, p, _, there, shown, _, products, stream) =
              update_product-writes num db s id body v done in
            let new = patched_product num db body p in
            let (q, parses, key_of, told_of) = read v done in
            let after = (update_product_handler num db json redis id body s).1 in
            let m = event_message redis "PRODUCT_UPDATED" (json.of_product v) in
            let stored : after.products ≡ update_first (has_product_id p.id) (λ _. new) s.products =
              ground (arith, valid, done, products, takes) in
            let sent : after.stream ≡ s.stream ++ m ∷ [] =
              ground (arith, valid, done, stream, takes, added redis m s room) in
            let is_new : v.product ≡ new = ap (λ (x : ProductView F). x.product) shown in
            let is_key : p.id ≡ key =
              (eq_iff p.id key).0 (find_first-holds (has_product_id key) s.products p there) in
            let own : find_first (has_product_id p.id) s.products ≡ some p =
              subst (λ i. find_first (has_product_id i) s.products ≡ some p) (sym is_key) there in
            ground (
              arith,
              stored,
              sent,
              latest-concat parse asked s.stream m none,
              synced asked,
              parses,
              key_of,
              told_of,
              is_new,
              own,
              find_first-update_key product_id (λ _. new) p.id asked s.products (λ x at. refl),
              eq_iff p.id asked,
            )
      ]
    ]

-- ===== src/CatalogService/AdminFabrics/Writes.antt =====
-- What the administration of fabrics has written when it succeeds.
use jhaz_imprints.Common.{
  ℕ, String, ◌≡◌, ◌⊎◌, sym, subst, true, false, none, some, List, [], ◌∷◌, ◌++◌, arith, ◌==◌,
  eq_iff, Bool-cases, Option-cases, inl, inr, ok, find_first, update_first, any, find_first-holds,
}
use jhaz_imprints.Numbers.{Arith}
use jhaz_imprints.Orders.Notes.{non_empty}
use jhaz_imprints.Models.{FabricCategory}
use jhaz_imprints.Models.Fabric.{FabricDocument, fabric_errors, fabric_pre_save}
use jhaz_imprints.CatalogService.{Mongo, Mongoose, check_saved-cases}
use jhaz_imprints.CatalogService.FabricCategories.{has_fabric_category_id, soft_deleted}
use jhaz_imprints.CatalogService.Fabrics.{has_fabric_id}
use jhaz_imprints.CatalogService.AdminFabrics.{
  CreateFabric, UpdateFabric, with_pushed, with_pulled, with_added, new_fabric, patched_fabric,
  slug_taken, other_has_slug, create_fabric, update_fabric, delete_fabric,
}

module _ {F : Type 0} (num : Arith F) (db : Mongoose) (s : Mongo F) where
  abbrev HasCreated : String → CreateFabric F → FabricDocument F → Mongo F → Type 0
  HasCreated id input f after =
      (key : String) × (t : FabricCategory) × (db.cast input.category_id ≡ some key)
      × (find_first (has_fabric_category_id key) s.fabric_categories ≡ some t)
      × (f.id ≡ id)
      × (f.category ≡ key)
      × (f.deleted_at ≡ none)
      × (after.fabrics ≡ s.fabrics ++ f ∷ [])
      × (after.fabric_categories
          ≡ update_first (has_fabric_category_id key) (with_pushed f.id) s.fabric_categories)

  pub create_fabric-writes :
      (id : String) (input : CreateFabric F) (f : FabricDocument F)
      → (create_fabric num db id input s).0 ≡ ok f
      → HasCreated id input f (create_fabric num db id input s).1
  unfolding create_fabric
  create_fabric-writes id input f h = elim (Option-cases (db.cast input.category_id)) [
    | inl no_id ↦ ground arith
    | inr (key, cast) ↦
        elim (Option-cases (find_first (has_fabric_category_id key) s.fabric_categories)) [
          | inl missing ↦ ground arith
          | inr (t, there) ↦
              let new : FabricDocument F = new_fabric num id key input in
              let same : t.id ≡ key =
                (eq_iff t.id key).0
                  (find_first-holds (has_fabric_category_id key) s.fabric_categories t there) in
              elim (check_saved-cases (fabric_errors num new) (slug_taken (fabric_pre_save new) s)
                (fabric_pre_save new)) [
                  | inl good ↦ (
                    key,
                    t,
                    cast,
                    there,
                    ground (arith, cast, there, good),
                    ground (arith, cast, there, good),
                    ground (arith, cast, there, good),
                    ground (arith, cast, there, good),
                    ground (arith, cast, there, good, same),
                  )
                  | inr (e, bad) ↦ ground (arith, cast, there, bad)
                ]
        ]
  ]

  abbrev pulled : FabricDocument F → List FabricCategory
  pulled old =
      update_first (has_fabric_category_id old.category) (with_pulled old.id) s.fabric_categories

  abbrev Kept : FabricDocument F → FabricDocument F → Mongo F → Type 0
  Kept old f after =
      (after.fabric_categories ≡ s.fabric_categories)
      × ((f.category ≡ old.category) ⊎ (db.cast old.category ≡ some f.category))

  abbrev Moved : FabricDocument F → FabricDocument F → Mongo F → Type 0
  Moved old f after =
      (text : String) × (t : FabricCategory) × (db.cast text ≡ some f.category)
      × (find_first (has_fabric_category_id f.category) (pulled old) ≡ some t)
      × (after.fabric_categories
          ≡ update_first (has_fabric_category_id f.category) (with_added f.id) (pulled old))

  abbrev HasUpdated : String → FabricDocument F → Mongo F → Type 0
  HasUpdated id f after =
      (key : String) × (old : FabricDocument F) × (find_first (has_fabric_id key) s.fabrics
        ≡ some old)
      × (f.id ≡ old.id)
      × (f.deleted_at ≡ old.deleted_at)
      × (after.fabrics ≡ update_first (has_fabric_id f.id) (λ _. f) s.fabrics)
      × (Kept old f after ⊎ Moved old f after)

  module _ (id key : String) (input : UpdateFabric F) (f old : FabricDocument F)
      (cast : db.cast id ≡ some key) (there : find_first (has_fabric_id key) s.fabrics ≡ some old)
      (h : (update_fabric num db id input s).0 ≡ ok f) where
    abbrev after_update : Mongo F
    after_update = (update_fabric num db id input s).1

    -- The category is not named, or it is the one that the fabric has.
    kept_unnamed : non_empty input.category_id ≡ none → HasUpdated id f after_update
    unfolding update_fabric
    kept_unnamed unnamed =
        let new : FabricDocument F = patched_fabric num none input old in
        elim (check_saved-cases (fabric_errors num new) (any (other_has_slug new) s.fabrics) new) [
          | inl good ↦ (
            key,
            old,
            there,
            ground (arith, cast, there, unnamed, good),
            ground (arith, cast, there, unnamed, good),
            ground (arith, cast, there, unnamed, good),
            inl (
              ground (arith, cast, there, unnamed, good),
              inl (ground (arith, cast, there, unnamed, good)),
            ),
          )
          | inr (e, bad) ↦ ground (arith, cast, there, unnamed, bad)
        ]

    module _ (text : String) (named : non_empty input.category_id ≡ some text) where
      kept_named : (text == old.category) ≡ true → HasUpdated id f after_update
      unfolding update_fabric
      kept_named same = elim (Option-cases (db.cast text)) [
        | inl no_id ↦ ground (arith, cast, there, named, same, no_id)
        | inr (k, known) ↦
            let new : FabricDocument F = patched_fabric num (some k) input old in
            let is_old : db.cast old.category ≡ some k =
              subst (λ c. db.cast c ≡ some k) ((eq_iff text old.category).0 same) known in
            elim (check_saved-cases (fabric_errors num new) (any (other_has_slug new) s.fabrics)
              new) [
                | inl good ↦ (
                  key,
                  old,
                  there,
                  ground (arith, cast, there, named, same, known, good),
                  ground (arith, cast, there, named, same, known, good),
                  ground (arith, cast, there, named, same, known, good),
                  inl (
                    ground (arith, cast, there, named, same, known, good),
                    inr (ground (arith, cast, there, named, same, known, good, is_old)),
                  ),
                )
                | inr (e, bad) ↦ ground (arith, cast, there, named, same, known, bad)
              ]
      ]

      moved_named : (text == old.category) ≡ false → HasUpdated id f after_update
      unfolding update_fabric
      moved_named other = elim (Option-cases (db.cast text)) [
        | inl no_id ↦ ground (arith, cast, there, named, other, no_id)
        | inr (k, known) ↦
            elim (Option-cases (find_first (has_fabric_category_id k) (pulled old))) [
              | inl missing ↦ ground (arith, cast, there, named, other, known, missing)
              | inr (t, target) ↦
                  let new : FabricDocument F = patched_fabric num (some k) input old in
                  let same : t.id ≡ k =
                    (eq_iff t.id k).0
                      (find_first-holds (has_fabric_category_id k) (pulled old) t target) in
                  elim (check_saved-cases (fabric_errors num new)
                    (any (other_has_slug new) s.fabrics) new) [
                      | inl good ↦
                          let it : f ≡ new =
                            ground (arith, cast, there, named, other, known, target, good) in
                          let home : f.category ≡ k = ground (arith, it) in
                          (
                            key,
                            old,
                            there,
                            ground (arith, it),
                            ground (arith, it),
                            ground (arith, cast, there, named, other, known, target, good, it),
                            inr (
                              text,
                              t,
                              ground (arith, home, known),
                              subst
                                  (λ c. find_first (has_fabric_category_id c) (pulled old) ≡ some t)
                                  (sym home) target,
                              ground
                                  (arith, cast, there, named, other, known, target, good, it, same),
                            ),
                          )
                      | inr (e, bad) ↦ ground (arith, cast, there, named, other, known, target, bad)
                    ]
            ]
      ]

    has_updated : HasUpdated id f after_update
    has_updated = elim (Option-cases (non_empty input.category_id)) [
      | inl unnamed ↦ kept_unnamed unnamed
      | inr (text, named) ↦ elim (Bool-cases (text == old.category)) [
        | inl same ↦ kept_named text named same
        | inr other ↦ moved_named text named other
      ]
    ]

  pub update_fabric-writes :
      (id : String) (input : UpdateFabric F) (f : FabricDocument F)
      → (update_fabric num db id input s).0 ≡ ok f
      → HasUpdated id f (update_fabric num db id input s).1
  unfolding update_fabric
  update_fabric-writes id input f h = elim (Option-cases (db.cast id)) [
    | inl no_id ↦ ground arith
    | inr (key, cast) ↦ elim (Option-cases (find_first (has_fabric_id key) s.fabrics)) [
      | inl missing ↦ ground arith
      | inr (old, there) ↦ has_updated id key input f old cast there h
    ]
  ]

  pub delete_fabric-writes :
      (now : ℕ) (id : String)
      → (delete_fabric num db now id s).0 ≡ ok tt
      → let after = (delete_fabric num db now id s).1 in
        (key : String) × (old : FabricDocument F) × (find_first (has_fabric_id key) s.fabrics
          ≡ some old)
        × (after.fabric_categories ≡ pulled old)
        × (after.fabrics
            ≡ update_first
                (has_fabric_id old.id)
                (λ x. fabric_pre_save (soft_deleted now x))
                s.fabrics)
  unfolding delete_fabric
  delete_fabric-writes now id h = elim (Option-cases (db.cast id)) [
    | inl no_id ↦ ground arith
    | inr (key, cast) ↦ elim (Option-cases (find_first (has_fabric_id key) s.fabrics)) [
      | inl missing ↦ ground arith
      | inr (old, there) ↦
          (key, old, there, ground (arith, cast, there), ground (arith, cast, there))
    ]
  ]

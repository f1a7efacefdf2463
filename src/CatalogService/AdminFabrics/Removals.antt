-- ===== src/CatalogService/AdminFabrics/Removals.antt =====
-- Fabrics that are deleted and changes of the categories leave the lists and the fabrics in agreement.
use mathlib.Core.Option
use jhaz_imprints.Common.{
  ℕ, String, ◌≡◌, refl, sym, ◌∙◌, subst, true, false, some, [], ◌∷◌, ◌++◌, arith, ◌==◌,
  if◌then◌else◌, eq_iff, eq_refl, Option-cases, inl, inr, ok, find_first, update_first, update_many,
  delete_many, any, includes, find_first-holds, find_first-update_key, find_first-update_many,
}
use jhaz_imprints.Numbers.{Arith}
use jhaz_imprints.Models.{fabric_category_errors}
use jhaz_imprints.Models.Fabric.{FabricDocument, fabric_pre_save}
use jhaz_imprints.CatalogService.{Mongo, Mongoose, check_saved-cases, validated-cases}
use jhaz_imprints.CatalogService.FabricCategories.{
  has_fabric_category_id, soft_deleted, CreateFabricCategory, UpdateFabricCategory, in_list,
  clashes, clashes_with_other, new_fabric_category, patched_fabric_category, update_category_errors,
  create_fabric_category, update_fabric_category, delete_fabric_category,
}
use jhaz_imprints.CatalogService.Fabrics.{has_fabric_id}
use jhaz_imprints.CatalogService.AdminFabrics.{delete_fabric}
use jhaz_imprints.CatalogService.AdminFabrics.Listed.{
  listed, listed-pulled, listed-deleted, category_id_of,
}
use jhaz_imprints.CatalogService.AdminFabrics.Filed.{
  IsFiled, fabric_of, listing_of, Filed-set, Filed-drop, Filed-same, found_by_own_id,
}
use jhaz_imprints.CatalogService.AdminFabrics.Writes.{delete_fabric-writes}
use jhaz_imprints.CatalogService.AdminFabrics.Keeps.{fabric_id, find_first-concat}

module _ {F : Type 0} (num : Arith F) (db : Mongoose) (s : Mongo F) (filed : IsFiled db s) where
  pub delete_fabric-IsFiled :
      (now : ℕ) (id : String)
      → (delete_fabric num db now id s).0 ≡ ok tt
      → IsFiled db (delete_fabric num db now id s).1
  delete_fabric-IsFiled now id h =
      let (key, old, found, categories, fabrics) = delete_fabric-writes num db s now id h in
      let after = (delete_fabric num db now id s).1 in
      let f : FabricDocument F = fabric_pre_save (soft_deleted now old) in
      let there : fabric_of s old.id ≡ some old = found_by_own_id s key old found in
      let replaced : (g : String)
          → fabric_of after g ≡ (if old.id == g then some f else fabric_of s g) =
        λ g.
          subst
            (λ fs.
              find_first (has_fabric_id g) fs ≡ (if old.id == g then some f else fabric_of s g))
            (sym fabrics)
            (ground (
              arith,
              find_first-update_key fabric_id (λ x. fabric_pre_save (soft_deleted now x)) old.id g
                  s.fabrics (λ x at. (eq_iff x.id old.id).0 at),
              there,
              eq_iff old.id g,
            )) in
      let removed : (c g : String)
          → listing_of after c g ≡ (
              if (if old.category == c then old.id == g else false)
              then false
              else listing_of s c g) =
        λ c g.
          subst
            (λ cs. listed c g cs ≡ (
              if (if old.category == c then old.id == g else false)
              then false
              else listing_of s c g))
            (sym categories) (listed-pulled old.category old.id c g s.fabric_categories) in
      let home : (c : String) → listing_of s c old.id ≡ true → old.category ≡ c =
        λ c in_list. let own = filed.own c old.id in_list in ground (arith, own.1, own.2, there) in
      Filed-set filed f (λ c g other. ground (arith, removed c g))
        (λ g other. replaced g ∙ ground arith) (replaced old.id ∙ ground (arith, eq_refl old.id))
        (λ c in_list.
          ground
            (arith, removed c old.id, home c, eq_iff old.category c, eq_refl old.id, eq_refl c))
        (λ alive. ground arith) (filed.canonical old.id old there)

  pub delete_fabric_category-IsFiled :
      (now : ℕ) (id : String)
      → (delete_fabric_category db now id s).0 ≡ ok tt
      → IsFiled db (delete_fabric_category db now id s).1
  unfolding delete_fabric_category
  delete_fabric_category-IsFiled now id h = elim (Option-cases (db.cast id)) [
    | inl no_id ↦ ground arith
    | inr (key, cast) ↦
        elim (Option-cases (find_first (has_fabric_category_id key) s.fabric_categories)) [
          | inl missing ↦ ground arith
          | inr (c, there) ↦
              let after = (delete_fabric_category db now id s).1 in
              let is_key : c.id ≡ key =
                (eq_iff c.id key).0
                  (find_first-holds (has_fabric_category_id key) s.fabric_categories c there) in
              let categories : after.fabric_categories
                  ≡ delete_many (has_fabric_category_id c.id) s.fabric_categories =
                ground (arith, cast, there) in
              let fabrics : after.fabrics
                  ≡ update_many (in_list c.fabrics) (soft_deleted now) s.fabrics =
                ground (arith, cast, there) in
              Filed-drop filed c.id c.fabrics now
                (λ d g.
                  subst (λ cs. listed d g cs ≡ (if c.id == d then false else listing_of s d g))
                    (sym categories) (listed-deleted c.id d g s.fabric_categories))
                (λ g.
                  subst (λ i. listing_of s i g ≡ includes g c.fabrics) (sym is_key)
                    (unfold listed in ground (arith, there)))
                (λ g.
                  subst
                    (λ fs.
                      find_first (has_fabric_id g) fs
                      ≡ Option.map (λ f. if includes f.id c.fabrics then soft_deleted now f else f)
                          (fabric_of s g))
                    (sym fabrics)
                    (find_first-update_many (has_fabric_id g) (in_list c.fabrics) (soft_deleted now)
                      s.fabrics (λ x. refl)))
                (λ g f found.
                  (eq_iff f.id g).0 (find_first-holds (has_fabric_id g) s.fabrics f found))
        ]
  ]

  pub create_fabric_category-IsFiled :
      (id : String) (input : CreateFabricCategory)
      → IsFiled db (create_fabric_category db id input s).1
  unfolding create_fabric_category
  create_fabric_category-IsFiled id input =
      let c = new_fabric_category id input in
      elim (check_saved-cases (fabric_category_errors c) (any (clashes c) s.fabric_categories) c) [
        | inl good ↦
            let after = (create_fabric_category db id input s).1 in
            let categories : after.fabric_categories ≡ s.fabric_categories ++ c ∷ [] =
              ground (arith, good) in
            let fabrics : after.fabrics ≡ s.fabrics = ground (arith, good) in
            Filed-same filed
              (λ d g.
                subst (λ cs. listed d g cs ≡ listing_of s d g) (sym categories)
                  (unfold listed in
                    ground
                      (arith, find_first-concat (has_fabric_category_id d) s.fabric_categories c)))
              (λ g.
                subst (λ fs. find_first (has_fabric_id g) fs ≡ fabric_of s g) (sym fabrics) refl)
        | inr (e, bad) ↦
            let refused : (create_fabric_category db id input s).1 ≡ s = ground (arith, bad) in
            subst (IsFiled db) (sym refused) filed
      ]

  pub update_fabric_category-IsFiled :
      (id : String) (input : UpdateFabricCategory)
      → IsFiled db (update_fabric_category db id input s).1
  unfolding update_fabric_category
  update_fabric_category-IsFiled id input = elim (Option-cases (db.cast id)) [
    | inl no_id ↦
        let refused : (update_fabric_category db id input s).1 ≡ s = ground (arith, no_id) in
        subst (IsFiled db) (sym refused) filed
    | inr (key, cast) ↦
        elim (Option-cases (find_first (has_fabric_category_id key) s.fabric_categories)) [
          | inl missing ↦
              let refused : (update_fabric_category db id input s).1 ≡ s =
                elim (validated-cases (update_category_errors input)) [
                  | inl right ↦ ground (arith, cast, missing, right)
                  | inr (e, wrong) ↦ ground (arith, cast, missing, wrong)
                ] in
              subst (IsFiled db) (sym refused) filed
          | inr (old, there) ↦
              let c = patched_fabric_category input old in
              let is_key : old.id ≡ key =
                (eq_iff old.id key).0
                  (find_first-holds (has_fabric_category_id key) s.fabric_categories old there) in
              let after = (update_fabric_category db id input s).1 in
              elim (validated-cases (update_category_errors input)) [
                | inr (e, wrong) ↦
                    let refused : after ≡ s = ground (arith, cast, there, wrong) in
                    subst (IsFiled db) (sym refused) filed
                | inl right ↦
                    elim (check_saved-cases [] (any (clashes_with_other c) s.fabric_categories) c) [
                      | inl good ↦
                          let categories : after.fabric_categories
                              ≡ update_first (has_fabric_category_id c.id) (λ _. c)
                                  s.fabric_categories =
                            ground (arith, cast, there, right, good) in
                          let fabrics : after.fabrics ≡ s.fabrics =
                            ground (arith, cast, there, right, good) in
                          Filed-same filed
                            (λ d g.
                              subst (λ cs. listed d g cs ≡ listing_of s d g) (sym categories)
                                (unfold listed in
                                  ground (
                                    arith,
                                    find_first-update_key category_id_of (λ _. c) c.id d
                                        s.fabric_categories (λ x at. refl),
                                    is_key,
                                    there,
                                    eq_iff c.id d,
                                  )))
                            (λ g.
                              subst (λ fs. find_first (has_fabric_id g) fs ≡ fabric_of s g)
                                (sym fabrics) refl)
                      | inr (e, bad) ↦
                          let refused : after ≡ s = ground (arith, cast, there, right, bad) in
                          subst (IsFiled db) (sym refused) filed
                    ]
              ]
        ]
  ]

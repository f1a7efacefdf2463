-- ===== src/CatalogService/AdminFabrics/Keeps.antt =====
-- A fabric that is created or updated leaves the lists and the fabrics in agreement.
use jhaz_imprints.Common.{
  String, ◌≡◌, refl, sym, ◌∙◌, subst, Bool, true, false, none, some, List, [], ◌∷◌, ◌++◌, arith,
  ◌==◌, if◌then◌else◌, eq_iff, eq_refl, Bool-cases, inl, inr, ok, find_first, update_first,
  find_first-update_key,
}
use jhaz_imprints.Numbers.{Arith}
use jhaz_imprints.Models.{FabricCategory}
use jhaz_imprints.Models.Fabric.{FabricDocument}
use jhaz_imprints.CatalogService.{Mongo, Mongoose}
use jhaz_imprints.CatalogService.FabricCategories.{has_fabric_category_id}
use jhaz_imprints.CatalogService.Fabrics.{has_fabric_id}
use jhaz_imprints.CatalogService.AdminFabrics.{
  CreateFabric, UpdateFabric, with_pulled, with_added, create_fabric, update_fabric,
}
use jhaz_imprints.CatalogService.AdminFabrics.Listed.{
  listed, listed-pulled, listed-added, listed-pushed,
}
use jhaz_imprints.CatalogService.AdminFabrics.Filed.{
  IsFiled, fabric_of, listing_of, Filed-set, found_by_own_id,
}
use jhaz_imprints.CatalogService.AdminFabrics.Writes.{create_fabric-writes, update_fabric-writes}

abbrev pub fabric_id : {F : Type 0} → FabricDocument F → String
fabric_id f = f.id

pub find_first-concat {ℓ} :
    {A : Type ℓ} (p : A → Bool) (xs : List A) (x : A)
    → find_first p (xs ++ x ∷ [])
      ≡ elim (find_first p xs) [ none ↦ (if p x then some x else none) | some y ↦ some y ]
find_first-concat p [] x = ground arith
find_first-concat p (y ∷ ys) x = ground (arith, find_first-concat p ys x)

module _ {F : Type 0} (num : Arith F) (db : Mongoose)
    (canonical : (t k : String) → db.cast t ≡ some k → db.cast k ≡ some k) (s : Mongo F)
    (filed : IsFiled db s) where
  -- A fabric that the collection finds no longer stands in no list.
  unlisted : (c g : String) → fabric_of s g ≡ none → listing_of s c g ≡ false
  unlisted c g gone = elim (Bool-cases (listing_of s c g)) [
    | inl there ↦ let old = filed.own c g there in ground (arith, old.1)
    | inr absent ↦ absent
  ]

  pub create_fabric-IsFiled :
      (id : String) (input : CreateFabric F) (f : FabricDocument F)
      → fabric_of s id ≡ none
      → (create_fabric num db id input s).0 ≡ ok f
      → IsFiled db (create_fabric num db id input s).1
  create_fabric-IsFiled id input f fresh h =
      let (key, t, cast, there, is_new, home, alive, fabrics, categories) =
        create_fabric-writes num db s id input f h in
      let after = (create_fabric num db id input s).1 in
      let gone : fabric_of s f.id ≡ none = subst (λ i. fabric_of s i ≡ none) (sym is_new) fresh in
      let lists_then : (c g : String)
          → listing_of after c g
            ≡ (if (if key == c then f.id == g else false) then true else listing_of s c g) =
        λ c g.
          subst
            (λ cs.
              listed c g cs
              ≡ (if (if key == c then f.id == g else false) then true else listing_of s c g))
            (sym categories) (listed-pushed key f.id c g s.fabric_categories t there) in
      let fabrics_then : (g : String)
          → fabric_of after g ≡ find_first (has_fabric_id g) (s.fabrics ++ f ∷ []) =
        λ g.
          subst
            (λ fs.
              find_first (has_fabric_id g) fs ≡ find_first (has_fabric_id g) (s.fabrics ++ f ∷ []))
            (sym fabrics) refl in
      Filed-set filed f (λ c g other. ground (arith, lists_then c g))
        (λ g other.
          fabrics_then g ∙ ground (arith, find_first-concat (has_fabric_id g) s.fabrics f))
        (fabrics_then f.id
          ∙ ground (arith, gone, eq_refl f.id, find_first-concat (has_fabric_id f.id) s.fabrics f))
        (λ c in_list. ground (arith, lists_then c f.id, unlisted c f.id gone, home, eq_iff key c))
        (λ _.
          lists_then f.category f.id ∙ ground (arith, home, eq_iff key f.category, eq_refl f.id))
        (subst (λ c. db.cast c ≡ some c) (sym home) (canonical input.category_id key cast))

  -- A fabric is replaced in place.
  module _ (f old : FabricDocument F) (is_old : f.id ≡ old.id)
      (there : fabric_of s old.id ≡ some old) (after : Mongo F)
      (replaced : (g : String)
        → fabric_of after g ≡ (if f.id == g then some f else fabric_of s g)) where
    stored : fabric_of after f.id ≡ some f
    stored = replaced f.id ∙ ground (arith, eq_refl f.id)

    same_others : (g : String) → (f.id == g) ≡ false → fabric_of after g ≡ fabric_of s g
    same_others g other = replaced g ∙ ground arith

    was_live :
        f.deleted_at ≡ old.deleted_at → f.deleted_at ≡ none → listing_of s old.category f.id ≡ true
    was_live same alive =
        subst (λ i. listing_of s old.category i ≡ true) (sym is_old)
          (filed.live old.id old there (sym same ∙ alive))

    was_home : (c : String) → listing_of s c f.id ≡ true → old.category ≡ c
    was_home c listed_there =
        let (x, found, home) = filed.own c f.id listed_there in
        let it : some x ≡ some old =
          sym found ∙ subst (λ i. fabric_of s i ≡ some old) (sym is_old) there in
        ground (arith, it, home)

    kept-IsFiled :
        after.fabric_categories ≡ s.fabric_categories
        → f.deleted_at ≡ old.deleted_at
        → f.category ≡ old.category
        → IsFiled db after
    kept-IsFiled categories same home =
        let lists_then : (c g : String) → listing_of after c g ≡ listing_of s c g =
          λ c g. subst (λ cs. listed c g cs ≡ listing_of s c g) (sym categories) refl in
        Filed-set filed f (λ c g other. lists_then c g) same_others stored
          (λ c in_list. home ∙ was_home c (sym (lists_then c f.id) ∙ in_list))
          (λ alive.
            subst (λ c. listing_of after c f.id ≡ true) (sym home)
              (lists_then old.category f.id ∙ was_live same alive))
          (subst (λ c. db.cast c ≡ some c) (sym home) (filed.canonical old.id old there))

    moved-IsFiled :
        (text : String) (t : FabricCategory)
        → db.cast text ≡ some f.category
        → find_first (has_fabric_category_id f.category) (
            update_first
              (has_fabric_category_id old.category)
              (with_pulled old.id)
              s.fabric_categories)
          ≡ some t
        → after.fabric_categories
          ≡ update_first (has_fabric_category_id f.category) (with_added f.id) (
              update_first
                (has_fabric_category_id old.category)
                (with_pulled old.id)
                s.fabric_categories)
        → IsFiled db after
    moved-IsFiled text t cast target categories =
        let between =
          update_first (has_fabric_category_id old.category) (with_pulled old.id)
            s.fabric_categories in
        let added : (c g : String)
            → listing_of after c g ≡ (
                if (if f.category == c then f.id == g else false)
                then true
                else listed c g between) =
          λ c g.
            subst
              (λ cs. listed c g cs ≡ (
                if (if f.category == c then f.id == g else false)
                then true
                else listed c g between))
              (sym categories) (listed-added f.category f.id c g between t target) in
        let removed : (c g : String)
            → listed c g between ≡ (
                if (if old.category == c then f.id == g else false)
                then false
                else listing_of s c g) =
          λ c g.
            subst
              (λ i. listed c g between ≡ (
                if (if old.category == c then i == g else false) then false else listing_of s c g))
              (sym is_old) (listed-pulled old.category old.id c g s.fabric_categories) in
        Filed-set filed f (λ c g other. ground (arith, added c g, removed c g)) same_others stored
          (λ c in_list. ground (
            arith,
            added c f.id,
            removed c f.id,
            was_home c,
            eq_iff f.category c,
            eq_iff old.category c,
            eq_refl f.id,
            eq_refl c,
          ))
          (λ _. added f.category f.id ∙ ground (arith, eq_refl f.category, eq_refl f.id))
          (canonical text f.category cast)

  pub update_fabric-IsFiled :
      (id : String) (input : UpdateFabric F) (f : FabricDocument F)
      → (update_fabric num db id input s).0 ≡ ok f
      → IsFiled db (update_fabric num db id input s).1
  update_fabric-IsFiled id input f h =
      let (key, old, found, is_old, same, fabrics, change) =
        update_fabric-writes num db s id input f h in
      let after = (update_fabric num db id input s).1 in
      let there : fabric_of s old.id ≡ some old = found_by_own_id s key old found in
      let replaced : (g : String)
          → fabric_of after g ≡ (if f.id == g then some f else fabric_of s g) =
        λ g.
          subst
            (λ fs. find_first (has_fabric_id g) fs ≡ (if f.id == g then some f else fabric_of s g))
            (sym fabrics)
            (ground (
              arith,
              find_first-update_key fabric_id (λ _. f) f.id g s.fabrics (λ x at. refl),
              is_old,
              there,
              eq_iff f.id g,
            )) in
      elim change [
        | inl (categories, home) ↦
            let same_home : f.category ≡ old.category = elim home [
              | inl untouched ↦ untouched
              | inr recast ↦ ground (arith, recast, filed.canonical old.id old there)
            ] in
            kept-IsFiled f old is_old there after replaced categories same same_home
        | inr (text, t, cast, target, categories) ↦
            moved-IsFiled f old is_old there after replaced text t cast target categories
      ]

-- ===== src/CatalogService/AdminFabrics/Filed.antt =====
-- The categories' lists and the fabrics agree, and what keeps them so.
use mathlib.Core.Option
use jhaz_imprints.Common.{
  ℕ, String, ◌≡◌, sym, ◌∙◌, subst, Bool, true, false, Option, none, some, List, arith, ◌==◌,
  if◌then◌else◌, eq_iff, Bool-cases, Option-cases, inl, inr, find_first, find_first-holds, includes,
}
use jhaz_imprints.Models.Fabric.{FabricDocument}
use jhaz_imprints.CatalogService.{Mongo, Mongoose}
use jhaz_imprints.CatalogService.FabricCategories.{soft_deleted}
use jhaz_imprints.CatalogService.Fabrics.{has_fabric_id}
use jhaz_imprints.CatalogService.AdminFabrics.Listed.{listed}

-- `l` says which category lists which fabric, `k` finds a fabric by its id. A fabric stands in no
-- list but its own category's, and stands there unless it is deleted; its category's id is written
-- as the database writes ids.
pub record Filed {F : Type 0} (db : Mongoose) (l : String → String → Bool)
    (k : String → Option (FabricDocument F)) : Type 0 where
  pub own :
      (c g : String) → l c g ≡ true → (f : FabricDocument F) × (k g ≡ some f) × (f.category ≡ c)
  pub live :
      (g : String) (f : FabricDocument F)
      → k g ≡ some f
      → f.deleted_at ≡ none
      → l f.category g ≡ true
  pub canonical :
      (g : String) (f : FabricDocument F) → k g ≡ some f → db.cast f.category ≡ some f.category

abbrev pub fabric_of : {F : Type 0} → Mongo F → String → Option (FabricDocument F)
fabric_of s g = find_first (has_fabric_id g) s.fabrics

abbrev pub listing_of : {F : Type 0} → Mongo F → String → String → Bool
listing_of s c g = listed c g s.fabric_categories

abbrev pub IsFiled : {F : Type 0} → Mongoose → Mongo F → Type 0
IsFiled db s = Filed db (listing_of s) (fabric_of s)

-- A stored fabric is found by its own id.
pub found_by_own_id :
    {F : Type 0} (s : Mongo F) (key : String) (old : FabricDocument F)
    → fabric_of s key ≡ some old
    → fabric_of s old.id ≡ some old
found_by_own_id s key old there =
    subst (λ i. fabric_of s i ≡ some old)
      (sym ((eq_iff old.id key).0 (find_first-holds (has_fabric_id key) s.fabrics old there))) there

module _ {F : Type 0} {db : Mongoose} {l m : String → String → Bool}
    {k n : String → Option (FabricDocument F)} (filed : Filed db l k) where
  -- Nothing that the lists or the fabrics answer has changed.
  pub Filed-same : ((c g : String) → m c g ≡ l c g) → ((g : String) → n g ≡ k g) → Filed db m n
  Filed-same lists fabrics = record {
    own =
        λ c g h. let old = filed.own c g (sym (lists c g) ∙ h) in (old.0, fabrics g ∙ old.1, old.2);
    live = λ g f found alive. lists f.category g ∙ filed.live g f (sym (fabrics g) ∙ found) alive;
    canonical = λ g f found. filed.canonical g f (sym (fabrics g) ∙ found);
  }

  -- One fabric is stored anew, and the lists change for it alone.
  module _ (f : FabricDocument F)
      (same_lists : (c g : String) → (f.id == g) ≡ false → m c g ≡ l c g)
      (same_fabrics : (g : String) → (f.id == g) ≡ false → n g ≡ k g) (stored : n f.id ≡ some f)
      (in_own : (c : String) → m c f.id ≡ true → f.category ≡ c)
      (if_live : f.deleted_at ≡ none → m f.category f.id ≡ true)
      (as_cast : db.cast f.category ≡ some f.category) where
    set-own :
        (c g : String) → m c g ≡ true → (x : FabricDocument F) × (n g ≡ some x) × (x.category ≡ c)
    set-own c g h = elim (Bool-cases (f.id == g)) [
      | inl same ↦
          let here : f.id ≡ g = (eq_iff f.id g).0 same in
          (
            f,
            subst (λ i. n i ≡ some f) here stored,
            in_own c (subst (λ i. m c i ≡ true) (sym here) h),
          )
      | inr other ↦
          let old = filed.own c g (sym (same_lists c g other) ∙ h) in
          (old.0, same_fabrics g other ∙ old.1, old.2)
    ]

    is_stored : (g : String) (x : FabricDocument F) → f.id ≡ g → n g ≡ some x → f ≡ x
    is_stored g x here found =
        let again : some f ≡ some x = sym stored ∙ subst (λ i. n i ≡ some x) (sym here) found in
        ground arith

    set-live :
        (g : String) (x : FabricDocument F)
        → n g ≡ some x
        → x.deleted_at ≡ none
        → m x.category g ≡ true
    set-live g x found alive = elim (Bool-cases (f.id == g)) [
      | inl same ↦
          let here : f.id ≡ g = (eq_iff f.id g).0 same in
          let it : f ≡ x = is_stored g x here found in
          subst (λ i. m x.category i ≡ true) here
            (subst (λ y. m y.category f.id ≡ true) it
              (if_live (subst (λ y. y.deleted_at ≡ none) (sym it) alive)))
      | inr other ↦
          same_lists x.category g other ∙ filed.live g x (sym (same_fabrics g other) ∙ found) alive
    ]

    set-canonical :
        (g : String) (x : FabricDocument F) → n g ≡ some x → db.cast x.category ≡ some x.category
    set-canonical g x found = elim (Bool-cases (f.id == g)) [
      | inl same ↦
          subst (λ y. db.cast y.category ≡ some y.category)
            (is_stored g x ((eq_iff f.id g).0 same) found) as_cast
      | inr other ↦ filed.canonical g x (sym (same_fabrics g other) ∙ found)
    ]

    pub Filed-set : Filed db m n
    Filed-set = record { own = set-own; live = set-live; canonical = set-canonical }

  -- A category goes, and its fabrics are deleted softly.
  module _ (category : String) (ids : List String) (now : ℕ)
      (lists_then : (c g : String) → m c g ≡ (if category == c then false else l c g))
      (ids_then : (g : String) → l category g ≡ includes g ids)
      (fabrics_then : (g : String)
        → n g ≡ Option.map (λ f. if includes f.id ids then soft_deleted now f else f) (k g))
      (by_id : (g : String) (f : FabricDocument F) → k g ≡ some f → f.id ≡ g) where
    drop-own :
        (c g : String) → m c g ≡ true → (x : FabricDocument F) × (n g ≡ some x) × (x.category ≡ c)
    drop-own c g h =
        let old = filed.own c g (ground (arith, lists_then c g)) in
        (
          if includes old.0.id ids then soft_deleted now old.0 else old.0,
          fabrics_then g ∙ ground (arith, old.1),
          ground (arith, old.2),
        )

    drop-live :
        (g : String) (x : FabricDocument F)
        → n g ≡ some x
        → x.deleted_at ≡ none
        → m x.category g ≡ true
    drop-live g x found alive = elim (Option-cases (k g)) [
      | inl missing ↦ ground (arith, fabrics_then g)
      | inr (f, there) ↦ elim (Bool-cases (includes f.id ids)) [
        | inl gone ↦ ground (arith, fabrics_then g)
        | inr kept ↦
            let it : f ≡ x = ground (arith, fabrics_then g) in
            let at_home : l f.category g ≡ true =
              filed.live g f there (subst (λ y. y.deleted_at ≡ none) (sym it) alive) in
            let apart : (category == f.category) ≡ false =
              elim (Bool-cases (category == f.category)) [
                | inl same ↦
                    let listed_here : l category g ≡ true =
                      subst (λ c. l c g ≡ true) (sym ((eq_iff category f.category).0 same))
                        at_home in
                    ground (arith, ids_then g, by_id g f there)
                | inr other ↦ other
              ] in
            subst (λ y. m y.category g ≡ true) it (lists_then f.category g ∙ ground arith)
      ]
    ]

    drop-canonical :
        (g : String) (x : FabricDocument F) → n g ≡ some x → db.cast x.category ≡ some x.category
    drop-canonical g x found = elim (Option-cases (k g)) [
      | inl missing ↦ ground (arith, fabrics_then g)
      | inr (f, there) ↦
          let same : x.category ≡ f.category = ground (arith, fabrics_then g) in
          subst (λ c. db.cast c ≡ some c) (sym same) (filed.canonical g f there)
    ]

    pub Filed-drop : Filed db m n
    Filed-drop = record { own = drop-own; live = drop-live; canonical = drop-canonical }

-- ===== src/CatalogService/AdminFabrics/Listed.antt =====
-- Which fabrics a category lists, and what the changes of the lists do to that.
use mathlib.Core.Option
use jhaz_imprints.Common.{
  String, ◌≡◌, subst, Bool, true, false, Option, none, some, List, [], ◌∷◌, arith, ◌==◌,
  if◌then◌else◌, eq_iff, Bool-cases, inl, inr, find_first, update_first, delete_many, includes,
  includes-append, includes-pull, includes-pull_other, includes-add_to_set, includes-add_other,
  find_first-update_key, find_first-delete_many, find_first-delete_other,
}
use jhaz_imprints.Models.{FabricCategory}
use jhaz_imprints.CatalogService.FabricCategories.{has_fabric_category_id}
use jhaz_imprints.CatalogService.AdminFabrics.{with_pushed, with_pulled, with_added}

abbrev lists : String → Option FabricCategory → Bool
lists f none = false
lists f (some c) = includes f c.fabrics

-- The category with this id lists the fabric.
unfoldable pub listed : (category fabric : String) → List FabricCategory → Bool
listed c f cs = lists f (find_first (has_fabric_category_id c) cs)

abbrev pub category_id_of : FabricCategory → String
category_id_of c = c.id

lists-pull :
    (f g : String) (o : Option FabricCategory)
    → lists g (Option.map (with_pulled f) o) ≡ (if f == g then false else lists g o)
lists-pull f g none = ground arith
lists-pull f g (some c) =
    ground (arith, eq_iff f g, includes-pull f c.fabrics, includes-pull_other f g c.fabrics)

lists-add :
    (f g : String) (c : FabricCategory)
    → includes g (with_added f c).fabrics ≡ (if f == g then true else includes g c.fabrics)
lists-add f g c = elim (Bool-cases (f == g)) [
  | inl same ↦ rw same (
      subst (λ x. includes x (with_added f c).fabrics ≡ true) ((eq_iff f g).0 same)
        (includes-add_to_set f c.fabrics))
  | inr other ↦ rw other (includes-add_other f g c.fabrics other)
]

lists-push :
    (f g : String) (c : FabricCategory)
    → includes g (with_pushed f c).fabrics ≡ (if f == g then true else includes g c.fabrics)
lists-push f g c = ground (arith, includes-append g c.fabrics (f ∷ []))

module _ (k f c g : String) (cs : List FabricCategory) where
  abbrev in_entry : Bool
  in_entry = if k == c then f == g else false

  pub listed-pulled :
      listed c g (update_first (has_fabric_category_id k) (with_pulled f) cs)
      ≡ (if in_entry then false else listed c g cs)
  unfolding listed
  listed-pulled = ground (
    arith,
    find_first-update_key category_id_of (with_pulled f) k c cs (λ x h. (eq_iff x.id k).0 h),
    lists-pull f g (find_first (has_fabric_category_id c) cs),
  )

  module _ (t : FabricCategory) (there : find_first (has_fabric_category_id k) cs ≡ some t) where
    pub listed-added :
        listed c g (update_first (has_fabric_category_id k) (with_added f) cs)
        ≡ (if in_entry then true else listed c g cs)
    unfolding listed
    listed-added = ground (
      arith,
      find_first-update_key category_id_of (with_added f) k c cs (λ x h. (eq_iff x.id k).0 h),
      lists-add f g t,
      eq_iff k c,
    )

    pub listed-pushed :
        listed c g (update_first (has_fabric_category_id k) (with_pushed f) cs)
        ≡ (if in_entry then true else listed c g cs)
    unfolding listed
    listed-pushed = ground (
      arith,
      find_first-update_key category_id_of (with_pushed f) k c cs (λ x h. (eq_iff x.id k).0 h),
      lists-push f g t,
      eq_iff k c,
    )

pub listed-deleted :
    (k c g : String) (cs : List FabricCategory)
    → listed c g (delete_many (has_fabric_category_id k) cs)
      ≡ (if k == c then false else listed c g cs)
unfolding listed
listed-deleted k c g cs = elim (Bool-cases (k == c)) [
  | inl same ↦ rw same (
      subst
        (λ x.
          lists g
            (find_first (has_fabric_category_id x) (delete_many (has_fabric_category_id k) cs))
          ≡ false)
        ((eq_iff k c).0 same)
        (ground (arith, find_first-delete_many (has_fabric_category_id k) cs)))
  | inr other ↦ rw other (
      ground (
        arith,
        find_first-delete_other (has_fabric_category_id k) (has_fabric_category_id c) cs
            (λ (x : FabricCategory) (h : (x.id == k) ≡ true).
              ground (arith, eq_iff x.id k, eq_iff x.id c, eq_iff k c)),
      ))
]

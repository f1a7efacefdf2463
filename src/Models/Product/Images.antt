-- ===== src/Models/Product/Images.antt =====
-- What the images of a product are, against the style options.
use jhaz_imprints.Common.{
  String, ◌≡◌, refl, Bool, true, false, Option, none, some, List, [], ◌∷◌, ◌++◌, arith, ◌==◌,
  eq_iff, if◌then◌else◌, find_first, any, includes, add_to_set, includes-append, Bool-cases,
  Option-cases, inl, inr, subst, sym,
}
use jhaz_imprints.Catalog.{StyleOption}
use jhaz_imprints.Orders.Notes.{non_empty}
use jhaz_imprints.Models.Product.{
  is_named, add_some, add_image, add_images, default_option, images_of,
}

-- No text stands twice.
abbrev pub distinct : List String → Bool
distinct [] = true
distinct (x ∷ xs) = if includes x xs then false else distinct xs

abbrev pub first_of : List String → Option String
first_of [] = none
first_of (x ∷ xs) = some x

distinct-concat :
    (t : String) (xs : List String)
    → distinct xs ≡ true
    → includes t xs ≡ false
    → distinct (xs ++ t ∷ []) ≡ true
distinct-concat t [] h new = refl
distinct-concat t (x ∷ xs) h new =
    ground (arith, includes-append x xs (t ∷ []), eq_iff x t, eq_iff t x, distinct-concat t xs)

distinct-add_to_set :
    (t : String) (xs : List String) → distinct xs ≡ true → distinct (add_to_set t xs) ≡ true
distinct-add_to_set t xs h = ground (arith, distinct-concat t xs)

first_of-append :
    (x : String) (xs ys : List String) → first_of xs ≡ some x → first_of (xs ++ ys) ≡ some x
first_of-append x [] ys h = ground arith
first_of-append x (y ∷ xs) ys h = ground arith

abbrev pub is_url : String → Option String → Bool
is_url url none = false
is_url url (some u) = u == url

includes-add_some :
    (url : String) (o : Option String) (set : List String)
    → includes url (add_some o set) ≡ (if includes url set then true else is_url url o)
includes-add_some url none set = ground arith
includes-add_some url (some u) set = elim (Bool-cases (includes u set)) [
  | inl old ↦ ground (arith, eq_iff u url)
  | inr new ↦ ground (arith, includes-append url set (u ∷ []))
]

distinct-add_some :
    (o : Option String) (set : List String) → distinct set ≡ true → distinct (add_some o set) ≡ true
distinct-add_some none set h = h
distinct-add_some (some u) set h = distinct-add_to_set u set h

first_of-add_some :
    (o : Option String) (x : String) (set : List String)
    → first_of set ≡ some x
    → first_of (add_some o set) ≡ some x
first_of-add_some none x set h = h
first_of-add_some (some u) x set h = ground (arith, first_of-append x set (u ∷ []))

module _ {F : Type 0} where
  -- The option shows this image.
  abbrev pub shows : String → StyleOption F → Bool
  shows url o = is_url url (non_empty o.img_url)

  includes-add_images :
      (url : String) (os : List (StyleOption F)) (set : List String)
      → includes url (add_images os set) ≡ (if includes url set then true else any (shows url) os)
  includes-add_images url [] set = ground arith
  includes-add_images url (o ∷ os) set = ground (
    arith,
    includes-add_images url os (add_image o set),
    includes-add_some url (non_empty o.img_url) set,
  )

  distinct-add_images :
      (os : List (StyleOption F)) (set : List String)
      → distinct set ≡ true
      → distinct (add_images os set) ≡ true
  distinct-add_images [] set h = h
  distinct-add_images (o ∷ os) set h =
      distinct-add_images os (add_image o set) (distinct-add_some (non_empty o.img_url) set h)

  first_of-add_images :
      (os : List (StyleOption F)) (x : String) (set : List String)
      → first_of set ≡ some x
      → first_of (add_images os set) ≡ some x
  first_of-add_images [] x set h = h
  first_of-add_images (o ∷ os) x set h =
      first_of-add_images os x (add_image o set) (first_of-add_some (non_empty o.img_url) x set h)

  shown_by_found :
      (url : String) (p : StyleOption F → Bool) (os : List (StyleOption F)) (o : StyleOption F)
      → find_first p os ≡ some o
      → shows url o ≡ true
      → any (shows url) os ≡ true
  shown_by_found url p [] o found shown = ground arith
  shown_by_found url p (x ∷ os) o found shown = ground (arith, shown_by_found url p os o)

  shown_by_default :
      (url : String) (chosen : Option String) (o : StyleOption F) (os : List (StyleOption F))
      → shows url (default_option chosen o os) ≡ true
      → any (shows url) (o ∷ os) ≡ true
  shown_by_default url chosen o os h = elim (Option-cases (find_first (is_named chosen) (o ∷ os))) [
    | inl nameless ↦
        let same : default_option chosen o os ≡ o = rw nameless refl in
        ground (arith, subst (λ x. shows url x ≡ true) same h)
    | inr (d, found) ↦
        let same : default_option chosen o os ≡ d = rw found refl in
        shown_by_found url (is_named chosen) (o ∷ os) d found
          (subst (λ x. shows url x ≡ true) same h)
  ]

  includes-images_of :
      (url : String) (os : List (StyleOption F)) (chosen : Option String)
      → includes url (images_of os chosen) ≡ any (shows url) os
  unfolding images_of
  includes-images_of url [] chosen = refl
  includes-images_of url (o ∷ os) chosen = ground (
    arith,
    includes-add_images url (o ∷ os) (add_image (default_option chosen o os) []),
    includes-add_some url (non_empty (default_option chosen o os).img_url) [],
    shown_by_default url chosen o os,
  )

  distinct-images_of :
      (os : List (StyleOption F)) (chosen : Option String) → distinct (images_of os chosen) ≡ true
  unfolding images_of
  distinct-images_of [] chosen = refl
  distinct-images_of (o ∷ os) chosen =
      distinct-add_images (o ∷ os) (add_image (default_option chosen o os) [])
        (distinct-add_some (non_empty (default_option chosen o os).img_url) [] refl)

  first_of-images_of :
      (o : StyleOption F) (os : List (StyleOption F)) (chosen : Option String) (url : String)
      → non_empty (default_option chosen o os).img_url ≡ some url
      → first_of (images_of (o ∷ os) chosen) ≡ some url
  unfolding images_of
  first_of-images_of o os chosen url shown =
      first_of-add_images (o ∷ os) url (add_image (default_option chosen o os) [])
        (subst (λ x. first_of (add_some x []) ≡ some url) (sym shown) refl)

pub images_of_lem :
    {F : Type 0} (o : StyleOption F) (os : List (StyleOption F)) (chosen : Option String)
    → let images = images_of (o ∷ os) chosen in
      ((url : String) → includes url images ≡ any (shows url) (o ∷ os))
      × (distinct images ≡ true)
      × ((url : String)
          → non_empty (default_option chosen o os).img_url ≡ some url
          → first_of images ≡ some url)
images_of_lem o os chosen = (
  λ url. includes-images_of url (o ∷ os) chosen,
  distinct-images_of (o ∷ os) chosen,
  λ url. first_of-images_of o os chosen url,
)

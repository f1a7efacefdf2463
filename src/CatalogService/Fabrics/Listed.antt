-- ===== src/CatalogService/Fabrics/Listed.antt =====
-- Which fabrics the list for customers shows, whatever order the database gives fabrics of one name.
use jhaz_imprints.Common.{
  ℕ, zero, suc, ◌*◌, ◌-◌, ◌≤◌, String, ◌≡◌, refl, ◌∙◌, ap, subst, Bool, true, false, not, Option,
  none, some, List, [], ◌∷◌, arith, ◌==◌, ok, length, count, map, any, is_some, find_first,
  find_many, inl, inr, Option-cases, if◌then◌else◌,
}
use jhaz_imprints.Common.Text.{is_object_id}
use jhaz_imprints.Models.{FabricCategory}
use jhaz_imprints.Models.Slug.{clean_slug}
use jhaz_imprints.Models.Fabric.{FabricDocument}
use jhaz_imprints.CatalogService.{Mongo, Mongoose}
use jhaz_imprints.CatalogService.FabricCategories.{has_fabric_category_slug}
use jhaz_imprints.CatalogService.Fabrics.{
  QueryNumber, ListFabricsQuery, FabricList, whole, paged, FabricView, exactly, take, drop,
  page_number, page_limit, is_listed, populated, matching, listing, page_of, answer_list,
  list_fabrics,
}

-- A sort gives back what was found.
pub record IsSorting {F : Type 0} (by_name : List (FabricDocument F) → List (FabricDocument F))
    : Type 0 where
  pub from_found :
      (q : FabricDocument F → Bool) (found : List (FabricDocument F))
      → any q found ≡ false
      → any q (by_name found) ≡ false
  pub all_found : (found : List (FabricDocument F)) → length (by_name found) ≡ length found

module _ {ℓ} {A : Type ℓ} where
  length-take_le : (n : ℕ) (xs : List A) → length (take n xs) ≤ n
  length-take_le zero xs = omega arith
  length-take_le (suc n) [] = omega arith
  length-take_le (suc n) (x ∷ xs) = omega (arith, length-take_le n xs)

  length-find_many : (p : A → Bool) (xs : List A) → length (find_many p xs) ≡ count p xs
  length-find_many p [] = refl
  length-find_many p (x ∷ xs) = ground (arith, length-find_many p xs)

  count-same : (p q : A → Bool) (xs : List A) → ((x : A) → p x ≡ q x) → count p xs ≡ count q xs
  count-same p q [] h = refl
  count-same p q (x ∷ xs) h = ground (arith, h x, count-same p q xs h)

  module _ (q : A → Bool) where
    any-take : (n : ℕ) (xs : List A) → any q xs ≡ false → any q (take n xs) ≡ false
    any-take zero xs h = refl
    any-take (suc n) [] h = refl
    any-take (suc n) (x ∷ xs) h = ground (arith, any-take n xs)

    any-drop : (n : ℕ) (xs : List A) → any q xs ≡ false → any q (drop n xs) ≡ false
    any-drop zero xs h = h
    any-drop (suc n) [] h = refl
    any-drop (suc n) (x ∷ xs) h = any-drop n xs (ground arith)

    any-find_many :
        (p : A → Bool) (xs : List A)
        → ((x : A) → p x ≡ true → q x ≡ false)
        → any q (find_many p xs) ≡ false
    any-find_many p [] h = refl
    any-find_many p (x ∷ xs) h = ground (arith, h x, any-find_many p xs h)

page_limit_le : (limit : Option QueryNumber) → page_limit limit ≤ 50
page_limit_le none = ground arith
page_limit_le (some none) = ground arith
page_limit_le (some (some n)) = ground arith

module _ {F : Type 0} where
  -- A fabric that is deleted, or of another category than this.
  abbrev pub is_stray_fabric : String → FabricDocument F → Bool
  is_stray_fabric category f = if is_some f.deleted_at then true else not (f.category == category)

  abbrev pub items : FabricList F → List (FabricView F)
  items (whole fs) = fs
  items (paged fs total page limit) = fs

  -- The list is complete, or a page of at most fifty with the number of all.
  abbrev pub Tallies : ℕ → FabricList F → Type 0
  Tallies n (whole fs) = length fs ≡ n
  Tallies n (paged fs total page limit) = (total ≡ n) × (length fs ≤ limit) × (limit ≤ 50)

  any-populated :
      (q : FabricDocument F → Bool) (cs : List FabricCategory) (fs : List (FabricDocument F))
      → any (λ (v : FabricView F). q v.fabric) (map (populated cs) fs) ≡ any q fs
  any-populated q cs [] = refl
  any-populated q cs (f ∷ fs) = ground (arith, any-populated q cs fs)

  length-populated :
      (cs : List FabricCategory) (fs : List (FabricDocument F))
      → length (map (populated cs) fs) ≡ length fs
  length-populated cs [] = refl
  length-populated cs (f ∷ fs) = ap (λ n. suc n) (length-populated cs fs)

  items-listing :
      (q : FabricView F → Bool) (asked : ListFabricsQuery) (fs : List (FabricView F)) (total : ℕ)
      → any q fs ≡ false
      → any q (items (listing asked fs total)) ≡ false
  items-listing q asked fs total h =
      let page =
        any-take q (page_limit asked.limit)
          (drop ((page_number asked.page - 1) * page_limit asked.limit) fs)
          (any-drop q ((page_number asked.page - 1) * page_limit asked.limit) fs h) in
      elim (Option-cases asked.page) [
        | inr (n, paged_by) ↦ ground (arith, paged_by, page)
        | inl unpaged ↦ elim (Option-cases asked.limit) [
          | inr (n, limited) ↦ ground (arith, unpaged, limited, page)
          | inl unlimited ↦ ground (arith, unpaged, unlimited, h)
        ]
      ]

  Tallies-page :
      (asked : ListFabricsQuery) (fs : List (FabricView F)) (total : ℕ)
      → Tallies total (
          paged
            (page_of (page_number asked.page) (page_limit asked.limit) fs)
            total
            (page_number asked.page)
            (page_limit asked.limit))
  Tallies-page asked fs total = (
    refl,
    length-take_le (page_limit asked.limit)
        (drop ((page_number asked.page - 1) * page_limit asked.limit) fs),
    page_limit_le asked.limit,
  )

  Tallies-asked :
      (page limit : Option QueryNumber) (deleted : Bool) (category : Option String)
      (fs : List (FabricView F)) (total : ℕ)
      → length fs ≡ total
      → let asked : ListFabricsQuery = record {
        page = page;
        limit = limit;
        include_deleted = deleted;
        category = category;
      } in
        Tallies total (listing asked fs total)
  Tallies-asked none none d c fs total h = h
  Tallies-asked none (some l) d c fs total h =
      Tallies-page (record { page = none; limit = some l; include_deleted = d; category = c }) fs
        total
  Tallies-asked (some p) l d c fs total h =
      Tallies-page (record { page = some p; limit = l; include_deleted = d; category = c }) fs total

  Tallies-listing :
      (asked : ListFabricsQuery) (fs : List (FabricView F)) (total : ℕ)
      → length fs ≡ total
      → Tallies total (listing asked fs total)
  Tallies-listing asked = Tallies-asked asked.page asked.limit asked.include_deleted asked.category

  module _ (db : Mongoose) (by_name : List (FabricDocument F) → List (FabricDocument F))
      (q : ListFabricsQuery) (text : String) (s : Mongo F) (c : FabricCategory)
      (live : q.include_deleted ≡ false) (asked : q.category ≡ some text)
      (filled : (text == "") ≡ false) (by_slug : is_object_id text ≡ false)
      (there : find_first (has_fabric_category_slug (clean_slug text)) s.fabric_categories
        ≡ some c) where
    list_fabrics-answer :
        list_fabrics db by_name q s ≡ (ok (answer_list db by_name q (exactly c.id) s), s)
    unfolding list_fabrics
    list_fabrics-answer = ground (arith, asked, filled, by_slug, there)

    is_listed-stray :
        (f : FabricDocument F)
        → is_listed q.include_deleted (exactly c.id) f ≡ not (is_stray_fabric c.id f)
    is_listed-stray f = ground (arith, live)

-- The list of fabrics as customers ask for it, without deleted ones, of a category that is named by
-- the slug of a stored one. Whatever page and limit are asked for, and in whatever order the
-- database gives fabrics of one name, every fabric shown is of that category and not deleted, and
-- the answer is a list of as many as are stored, or a page with at most as many as its limit, which is at most
-- fifty, and with the number of all that are stored. Sorting is taken to keep what was found.
pub list_fabrics_of_category :
    {F : Type 0} (db : Mongoose) (by_name : List (FabricDocument F) → List (FabricDocument F))
    (q : ListFabricsQuery) (text : String) (s : Mongo F) (c : FabricCategory)
    → IsSorting by_name
    → q.include_deleted ≡ false
    → q.category ≡ some text
    → (text == "") ≡ false
    → is_object_id text ≡ false
    → find_first (has_fabric_category_slug (clean_slug text)) s.fabric_categories ≡ some c
    → (shown : FabricList F) × (list_fabrics db by_name q s ≡ (ok shown, s))
      × (any (λ (v : FabricView F). is_stray_fabric c.id v.fabric) (items shown) ≡ false)
      × Tallies (count (λ f. not (is_stray_fabric c.id f)) s.fabrics) shown
list_fabrics_of_category {F} db by_name q text s c sorting live asked filled slug there =
    let listed = is_listed-stray db by_name q text s c live asked filled slug there in
    let found = matching db q.include_deleted (exactly c.id) s in
    let test : FabricDocument F → Bool = is_listed q.include_deleted (exactly c.id) in
    let views = map (populated s.fabric_categories) (by_name found) in
    let counted : count test s.fabrics ≡ count (λ f. not (is_stray_fabric c.id f)) s.fabrics =
      count-same test (λ f. not (is_stray_fabric c.id f)) s.fabrics listed in
    let fits : any (is_stray_fabric c.id) found ≡ false =
      any-find_many (is_stray_fabric c.id) test s.fabrics (λ f h. ground (arith, listed f, h)) in
    let shown_fit : any (λ (v : FabricView F). is_stray_fabric c.id v.fabric) views ≡ false =
      any-populated (is_stray_fabric c.id) s.fabric_categories (by_name found)
      ∙ sorting.from_found (is_stray_fabric c.id) found fits in
    let all_there : length views ≡ count test s.fabrics =
      length-populated s.fabric_categories (by_name found)
      ∙ sorting.all_found found
      ∙ length-find_many test s.fabrics in
    (
      answer_list db by_name q (exactly c.id) s,
      list_fabrics-answer db by_name q text s c live asked filled slug there,
      items-listing (λ (v : FabricView F). is_stray_fabric c.id v.fabric) q views
          (count test s.fabrics) shown_fit,
      subst (λ n. Tallies n (answer_list db by_name q (exactly c.id) s)) counted
          (Tallies-listing q views (count test s.fabrics) all_there),
    )

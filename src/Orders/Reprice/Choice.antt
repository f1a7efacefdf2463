-- ===== src/Orders/Reprice/Choice.antt =====
-- A fabric property, or a style, that was chosen once is chosen again by its own name.
use jhaz_imprints.Common.{
  String, ◌≡◌, inl, inr, refl, true, false, Option, none, some, List, [], ◌∷◌, arith, ◌==◌, eq_iff,
  Option-cases, Bool-cases, find_first, find_first-holds,
}
use jhaz_imprints.Common.Text.{same_folded}
use jhaz_imprints.Common.Text.Folded.{
  same_folded_refl, same_folded_comm, same_folded_left, same_folded-nil,
}
use jhaz_imprints.Catalog.{StyleOption, FabricProperty}
use jhaz_imprints.Orders.Item.{is_custom_style, has_style, has_color, pick_property}

module _ {F : Type 0} where
  -- Searching again by the colour that a search has found finds the same property.
  find_color :
      (color : String) (ps : List (FabricProperty F)) (p : FabricProperty F)
      → find_first (has_color color) ps ≡ some p
      → find_first (has_color p.color_name) ps ≡ some p
  find_color color ps p h = go ps h (find_first-holds (has_color color) ps p h)
    where
      go :
          (qs : List (FabricProperty F))
          → find_first (has_color color) qs ≡ some p
          → has_color color p ≡ true
          → find_first (has_color p.color_name) qs ≡ some p
      go [] e k = ground arith
      go (q ∷ qs) e k = ground (
        arith,
        go qs,
        same_folded_refl p.color_name,
        same_folded_left p.color_name color q.color_name,
        same_folded_comm p.color_name q.color_name,
        same_folded_comm color q.color_name,
      )

  -- The first property is found by its own colour, if that has a text at all.
  pick_first :
      (q : FabricProperty F) (qs : List (FabricProperty F))
      → pick_property (some q.color_name) (q ∷ qs) ≡ some q
  unfolding pick_property
  pick_first q qs = ground (arith, eq_iff q.color_name "", same_folded_refl q.color_name)

  pick_absent :
      (ps : List (FabricProperty F)) (p : FabricProperty F)
      → pick_property none ps ≡ some p
      → pick_property (some p.color_name) ps ≡ some p
  pick_absent [] p h = unfold pick_property in ground arith
  pick_absent (q ∷ qs) p h =
      let same : q ≡ p = unfold pick_property in ground arith in rw (← same) (pick_first q qs)

  pick_found :
      (color : String) (ps : List (FabricProperty F)) (p : FabricProperty F)
      → find_first (has_color color) ps ≡ some p
      → (color == "") ≡ false
      → pick_property (some p.color_name) ps ≡ some p
  unfolding pick_property
  pick_found color ps p h named = ground (
    arith,
    find_color color ps p,
    eq_iff color "",
    eq_iff p.color_name "",
    find_first-holds (has_color color) ps p h,
    same_folded-nil color,
  )

  pub pick_again :
      (color : Option String) (ps : List (FabricProperty F)) (p : FabricProperty F)
      → pick_property color ps ≡ some p
      → pick_property (some p.color_name) ps ≡ some p
  pick_again none ps p h = pick_absent ps p h
  pick_again (some color) ps p h = elim (Bool-cases (color == "")) [
    | inl blank ↦ pick_absent ps p (unfold pick_property in ground arith)
    | inr named ↦ elim (Option-cases (find_first (has_color color) ps)) [
      | inl missing ↦ pick_absent ps p (unfold pick_property in ground arith)
      | inr (q, found) ↦
          let same : q ≡ p = unfold pick_property in ground arith in
          pick_found color ps p (rw (← same) found) named
    ]
  ]

  pub pick_none :
      (color other : Option String) (ps : List (FabricProperty F))
      → pick_property color ps ≡ none
      → pick_property other ps ≡ none
  unfolding pick_property
  pick_none color none [] h = refl
  pick_none color (some c) [] h = ground arith
  pick_none color other (q ∷ qs) h = ground arith

-- A style that was found by a name is found again by its own.
pub style_again :
    {F : Type 0} (name : String) (ss : List (StyleOption F)) (s : StyleOption F)
    → find_first (has_style name) ss ≡ some s
    → find_first (has_style s.name) ss ≡ some s
style_again {F} name ss s h = go ss h (find_first-holds (has_style name) ss s h)
  where
    go :
        (qs : List (StyleOption F))
        → find_first (has_style name) qs ≡ some s
        → has_style name s ≡ true
        → find_first (has_style s.name) qs ≡ some s
    go [] e k = ground arith
    go (q ∷ qs) e k = ground (
      arith,
      go qs,
      same_folded_refl s.name,
      same_folded_left s.name name q.name,
      same_folded_comm s.name q.name,
      same_folded_comm name q.name,
    )

pub custom_again : (a b : String) → same_folded a b ≡ true → is_custom_style a ≡ is_custom_style b
custom_again a b h =
    ground (arith, same_folded_left a b "standard", same_folded_left a b "original")

pub standard_is_plain : is_custom_style "Standard" ≡ false
unfolding same_folded
standard_is_plain = refl

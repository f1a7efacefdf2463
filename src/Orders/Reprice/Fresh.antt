-- ===== src/Orders/Reprice/Fresh.antt =====
-- A freshly created order is not repriced by the catalog that priced it.
use jhaz_imprints.Orders.Reprice.Choice.{
  pick_again, pick_none, style_again, custom_again, standard_is_plain,
}
use jhaz_imprints.Common.{
  String, ◌≡◌, inl, inr, refl, true, false, Option, none, some, List, [], ◌∷◌, arith, ◌==◌, eq_iff,
  Option-cases, Bool-cases, Result-cases, ok, find_first, find_first-holds, or_default,
}
use jhaz_imprints.Common.Text.{trim, second_part, first_part}
use jhaz_imprints.Numbers.{Arith}
use jhaz_imprints.Schema.{OrderItem, Db}
use jhaz_imprints.Catalog.{StyleOption, Product, Fabric, FabricProperty, Catalog}
use jhaz_imprints.Orders.Notes.{parse_notes_metadata}
use jhaz_imprints.Orders.Create.{CreateOrderInput, breakdown, new_order}
use jhaz_imprints.Orders.Item.{
  ItemInput, ChosenFabric, ChosenStyle, chosen_fabric, is_custom_style, has_style, pick_property,
  property_price, property_yards, units_needed, choose_fabric, choose_style, priced_item,
  price_item, price_items, fabric_title,
}
use jhaz_imprints.Orders.Reprice.{
  revalidate_order_pricing, reprice_product, reprice_fabric, reprice_item, reprice_items,
  any_updated, item_total, style_option_of,
}

-- The colour behind the separator in a fabric's title is the colour of the property: neither the
-- fabric's name nor the colour's has the separator " — " in it.
abbrev pub HasClearTitles : {F : Type 0} → Catalog F → Type 0
HasClearTitles {F} catalog =
    (id : String) (fabric : Fabric F) (p : FabricProperty F) (color : Option String)
    → catalog.fabric id ≡ some fabric
    → pick_property color fabric.properties ≡ some p
    → second_part " — " (fabric_title fabric (some p)) ≡ some p.color_name

module _ {F : Type 0} (num : Arith F) (catalog : Catalog F) (same : (x : F) → num.eq x x ≡ true)
    (clear : HasClearTitles catalog) (item : ItemInput F) (product : Product F)
    (style : ChosenStyle F) where
  unchosen-kept :
      (row : OrderItem F)
      → row.fabric_id ≡ none
      → reprice_fabric num catalog row ≡ record { item = row; updated = false }
  unfolding reprice_fabric
  unchosen-kept row h = ground arith

  found-kept :
      (id : String) (fabric : Fabric F) (color : Option String)
      → catalog.fabric id ≡ some fabric
      → let row =
          priced_item num item product
            (chosen_fabric num id fabric (pick_property color fabric.properties))
            style in
        reprice_fabric num catalog row ≡ record { item = row; updated = false }
  unfolding reprice_fabric priced_item
  found-kept id fabric color h = elim (Option-cases (pick_property color fabric.properties)) [
    | inl nothing ↦ ground (
      arith,
      pick_none color (second_part " — " fabric.name) fabric.properties,
      same (num.of_nat 0),
      same (num.of_nat 1),
      same (units_needed num item.measurement (num.of_nat 1)),
      same (num.mul (num.of_nat 0) (units_needed num item.measurement (num.of_nat 1))),
    )
    | inr (p, picked) ↦ ground (
      arith,
      pick_again color fabric.properties p picked,
      clear id fabric p color h picked,
      same (property_price num (some p)),
      same (property_yards num (some p)),
      same (units_needed num item.measurement (property_yards num (some p))),
      same (
          num.mul (property_price num (some p))
            (units_needed num item.measurement (property_yards num (some p)))),
    )
  ]

  fabric-kept :
      (input : Option String) (fabric : ChosenFabric F)
      → choose_fabric num catalog input ≡ ok fabric
      → let row = priced_item num item product fabric style in
        reprice_fabric num catalog row ≡ record { item = row; updated = false }
  unfolding choose_fabric
  fabric-kept none fabric h = unfold priced_item in unchosen-kept _ (ground arith)
  fabric-kept (some text) fabric h = elim (Bool-cases (text == "")) [
    | inl blank ↦ unfold priced_item in unchosen-kept _ (ground arith)
    | inr named ↦ elim (Option-cases (catalog.fabric (first_part "::" text))) [
      | inl missing ↦ ground arith
      | inr (f, found) ↦
          let chosen : chosen_fabric num (first_part "::" text) f
                (pick_property (second_part "::" text) f.properties)
              ≡ fabric =
            ground arith in
          rw (← chosen) (found-kept (first_part "::" text) f (second_part "::" text) found)
    ]
  ]

module _ {F : Type 0} (num : Arith F) (same : (x : F) → num.eq x x ≡ true) (product : Product F)
    (row : OrderItem F) (based : row.base_price ≡ product.base_price) where
  kept_without_style :
      style_option_of num product row ≡ none
      → reprice_product num (some product) row ≡ record { item = row; updated = false }
  unfolding reprice_product
  kept_without_style h = ground (arith, same product.base_price)

  kept_with_style :
      (s : StyleOption F)
      → style_option_of num product row ≡ some s
      → row.style_modifier ≡ or_default s.price_modifier (num.of_nat 0)
      → reprice_product num (some product) row ≡ record { item = row; updated = false }
  unfolding reprice_product
  kept_with_style s h priced = ground (arith, same product.base_price, same row.style_modifier)

module _ {F : Type 0} (num : Arith F) (same : (x : F) → num.eq x x ≡ true) (item : ItemInput F)
    (product : Product F) (fabric : ChosenFabric F) where
  product-kept :
      (style : ChosenStyle F)
      → choose_style num item.product_id product item.style_option_name ≡ ok style
      → let row = priced_item num item product fabric style in
        reprice_product num (some product) row ≡ record { item = row; updated = false }
  unfolding choose_style priced_item
  product-kept style h =
      let wanted : String = trim (or_default item.style_option_name "Standard") in
      let row : OrderItem F = priced_item num item product fabric style in
      elim (Bool-cases (is_custom_style wanted)) [
        | inr plain ↦
            kept_without_style num same product row refl (ground (arith, standard_is_plain))
        | inl custom ↦ elim (Option-cases (find_first (has_style wanted) product.style_options)) [
          | inl missing ↦ ground arith
          | inr (s, found) ↦ elim (Bool-cases (s.name == "")) [
            | inl blank ↦
                kept_without_style num same product row refl
                  (ground (arith, standard_is_plain, eq_iff s.name ""))
            | inr named ↦
                kept_with_style num same product row refl s
                  (ground (
                    arith,
                    style_again wanted product.style_options s found,
                    custom_again s.name wanted,
                    find_first-holds (has_style wanted) product.style_options s found,
                  ))
                  (ground arith)
          ]
        ]
      ]

module _ {F : Type 0} (num : Arith F) (item : ItemInput F) (product : Product F)
    (fabric : ChosenFabric F) (style : ChosenStyle F) where
  product_id-priced_item : (priced_item num item product fabric style).product_id ≡ item.product_id
  unfolding priced_item
  product_id-priced_item = refl

  total-priced_item :
      let row = priced_item num item product fabric style in row.total_amount ≡ item_total num row
  unfolding priced_item
  total-priced_item = refl

module _ {F : Type 0} (num : Arith F) (catalog : Catalog F) (same : (x : F) → num.eq x x ≡ true)
    (clear : HasClearTitles catalog) where
  item-kept :
      (item : ItemInput F) (row : OrderItem F)
      → price_item num catalog item ≡ ok row
      → reprice_item num catalog row ≡ record { item = row; updated = false }
  item-kept item row h = elim (Option-cases (catalog.product item.product_id)) [
    | inl missing ↦ unfold price_item in ground arith
    | inr (product, found) ↦ elim (Result-cases (choose_fabric num catalog item.fabric_id)) [
      | inr (e, bad) ↦ unfold price_item in ground arith
      | inl (fabric, chosen) ↦
          elim (Result-cases (choose_style num item.product_id product item.style_option_name)) [
            | inr (e, bad) ↦ unfold price_item in ground arith
            | inl (style, styled) ↦
                let priced : priced_item num item product fabric style ≡ row =
                  unfold price_item in ground arith in
                rw (← priced) (
                  unfold reprice_item in
                  ground (
                    arith,
                    product_id-priced_item num item product fabric style,
                    total-priced_item num item product fabric style,
                    product-kept num same item product fabric style styled,
                    fabric-kept num catalog same clear item product style item.fabric_id fabric
                        chosen,
                    same (priced_item num item product fabric style).total_amount,
                  ))
          ]
    ]
  ]

  items-kept :
      (items : List (ItemInput F)) (rows : List (OrderItem F))
      → price_items num catalog items ≡ ok rows
      → (reprice_items num catalog rows ≡ rows) × (any_updated num catalog rows ≡ false)
  unfolding price_items
  items-kept [] rows h =
      let none_priced : [] ≡ rows = ground arith in rw (← none_priced) (refl, refl)
  items-kept (i ∷ is) rows h = elim (Result-cases (price_item num catalog i)) [
    | inr (e, bad) ↦ ground arith
    | inl (row, priced) ↦ elim (Result-cases (price_items num catalog is)) [
      | inr (e, bad) ↦ ground arith
      | inl (rest, later) ↦
          let whole : row ∷ rest ≡ rows = ground arith in
          rw (← whole) (
            ground (arith, item-kept i row priced, items-kept is rest later),
            ground (arith, item-kept i row priced, items-kept is rest later),
          )
    ]
  ]

-- An order as `createOrder` stores it is not repriced while the catalog stays as it was: the call
-- returns the stored order and writes nothing. Prices that are NaN are excluded, and fabrics or
-- colours whose name holds the separator " — ".
pub revalidate-create :
    {F : Type 0} (num : Arith F) (catalog : Catalog F) (id user : String)
    (input : CreateOrderInput F) (rows : List (OrderItem F)) (s : Db F)
    → ((x : F) → num.eq x x ≡ true)
    → HasClearTitles catalog
    → price_items num catalog input.items ≡ ok rows
    → let order = new_order id user input rows (breakdown num input rows).grand_total in
      revalidate_order_pricing num catalog order s ≡ (ok (parse_notes_metadata order), s)
unfolding revalidate_order_pricing breakdown
revalidate-create num catalog id user input [] s same clear h = refl
revalidate-create num catalog id user input (row ∷ rows) s same clear h =
    let (kept, still) = items-kept num catalog same clear input.items (row ∷ rows) h in
    rw (kept, still, same (breakdown num input (row ∷ rows)).grand_total)

-- ===== src/Orders/Item.antt =====
-- What `createOrder` of orderService.ts makes of one item: the checks of the input, the fabric, the
-- style and the price. `revalidateOrderPricing` shares the choice of a style and of a fabric
-- property.
use Prim.Native.String
use jhaz_imprints.Common.{
  String, Bool, true, false, Option, none, some, List, [], ◌∷◌, ◌==◌, if◌then◌else◌, or_default,
  find_first, Result, ok, err, app_error,
}
use jhaz_imprints.Common.Text.{
  same_folded, trim, first_part, second_part, is_object_id, is_fabric_id,
}
use jhaz_imprints.Numbers.{Arith}
use jhaz_imprints.Schema.{OrderMeasurement, OrderItem}
use jhaz_imprints.Catalog.{StyleOption, Product, FabricProperty, Fabric, Catalog}
use jhaz_imprints.Pricing.{compute_order_total, calculate_fabric_yards}
use jhaz_imprints.Orders.Notes.{non_empty}

infixl 5 ◌>>=◌
abbrev pub ◌>>=◌ : {A B : Type 0} → Result A → (A → Result B) → Result B
ok a >>= f = f a
err e >>= f = err e

-- `CreateOrderItemInput`
pub record ItemInput (F : Type 0) : Type 0 where
  pub product_id : String
  pub measurement : OrderMeasurement F
  pub fabric_id : Option String
  pub style_option_name : Option String
  pub notes : Option String

abbrev joined : String → String → String
joined a b = String.◌++◌ a b

abbrev quoted : String → String
quoted s = joined "\"" (joined s "\"")

abbrev text_of : Option String → String
text_of o = or_default o "undefined"

abbrev pub fabric_id_ok : Option String → Bool
fabric_id_ok none = true
fabric_id_ok (some id) = is_fabric_id id

abbrev pub style_ok : Option String → Bool
style_ok none = true
style_ok (some name) = if trim name == "" then false else true

-- Neither "standard" nor "original", in any case: the product's own style list is asked.
abbrev pub is_custom_style : String → Bool
is_custom_style name =
    if same_folded name "standard"
    then false
    else if same_folded name "original"
    then false
    else true

module _ {F : Type 0} where
  -- Step 1, for one item: no database is asked.
  unfoldable pub check_item : ItemInput F → Result (Unit {0})
  check_item item =
      if is_object_id item.product_id
      then (if fabric_id_ok item.fabric_id
          then (if style_ok item.style_option_name
              then ok tt
              else err (
                  app_error 400
                    (joined "styleOptionName cannot be blank for productId=" item.product_id)))
          else err (
              app_error 400 (
                joined "Invalid fabricId format for productId="
                  (joined item.product_id (joined ": " (quoted (text_of item.fabric_id)))))))
      else err (app_error 400 (joined "Invalid or missing productId: " (quoted item.product_id)))

  check_each : List (ItemInput F) → Result (Unit {0})
  unfolding check_item
  check_each [] = ok tt
  check_each (item ∷ items) = let rest = check_each items in check_item item >>= λ _. rest

  unfoldable pub check_items : List (ItemInput F) → Result (Unit {0})
  unfolding check_each
  check_items [] = err (app_error 400 "No items provided in the order")
  check_items (item ∷ items) = check_each (item ∷ items)

  abbrev pub has_color : String → FabricProperty F → Bool
  has_color color p = same_folded p.color_name color

  abbrev first_property : List (FabricProperty F) → Option (FabricProperty F)
  first_property [] = none
  first_property (p ∷ _) = some p

  abbrev or_first : Option (FabricProperty F) → List (FabricProperty F) → Option (FabricProperty F)
  or_first (some p) properties = some p
  or_first none properties = first_property properties

  abbrev by_color : Option String → List (FabricProperty F) → Option (FabricProperty F)
  by_color none properties = none
  by_color (some color) properties = find_first (has_color color) properties

  -- The property of the chosen colour, or else the first one.
  unfoldable pub pick_property : Option String → List (FabricProperty F) → Option (FabricProperty F)
  pick_property color properties = or_first (by_color (non_empty color) properties) properties

  -- `resolvedFabricName`
  abbrev pub fabric_title : Fabric F → Option (FabricProperty F) → String
  fabric_title fabric none = fabric.name
  fabric_title fabric (some p) = joined fabric.name (joined " — " p.color_name)

  abbrev pub has_style : String → StyleOption F → Bool
  has_style name s = same_folded s.name name

-- What step 3b leaves of the fabric.
pub record ChosenFabric (F : Type 0) : Type 0 where
  pub id : Option String
  pub name : String
  pub property : Option (FabricProperty F)
  pub price_per_unit : F
  pub yards_per_unit : F
  pub unit : String

-- What step 3c leaves of the style.
pub record ChosenStyle (F : Type 0) : Type 0 where
  pub name : String
  pub price_modifier : F
  pub option : Option (StyleOption F)

module _ {F : Type 0} (num : Arith F) where
  abbrev pub property_price : Option (FabricProperty F) → F
  property_price none = num.of_nat 0
  property_price (some p) = or_default p.price_modifier (num.of_nat 0)

  abbrev pub property_yards : Option (FabricProperty F) → F
  property_yards none = num.of_nat 1
  property_yards (some p) = or_default p.yards_per_unit (num.of_nat 1)

  abbrev pub property_unit : Option (FabricProperty F) → String
  property_unit none = "yard"
  property_unit (some p) = or_default p.unit "yard"

  abbrev no_fabric : ChosenFabric F
  no_fabric = record {
    id = none;
    name = "Standard";
    property = none;
    price_per_unit = num.of_nat 0;
    yards_per_unit = num.of_nat 1;
    unit = "yard";
  }

  abbrev pub chosen_fabric : String → Fabric F → Option (FabricProperty F) → ChosenFabric F
  chosen_fabric id fabric p = record {
    id = some id;
    name = fabric_title fabric p;
    property = p;
    price_per_unit = property_price p;
    yards_per_unit = property_yards p;
    unit = property_unit p;
  }

  find_fabric : String → Option String → Option (Fabric F) → Result (ChosenFabric F)
  find_fabric id color none = err (app_error 404 (joined "Fabric not found: fabricId=" id))
  find_fabric id color (some fabric) =
      ok (chosen_fabric id fabric (pick_property color fabric.properties))

  -- 3b
  unfoldable pub choose_fabric : Catalog F → Option String → Result (ChosenFabric F)
  unfolding find_fabric
  choose_fabric catalog none = ok no_fabric
  choose_fabric catalog (some text) =
      if text == ""
      then ok no_fabric
      else find_fabric (first_part "::" text) (second_part "::" text)
          (catalog.fabric (first_part "::" text))

  find_style : String → String → Option (StyleOption F) → Result (ChosenStyle F)
  find_style product_id name none = err (
      app_error 404 (
        joined "Style option "
          (joined (quoted name) (joined " not found on productId=" product_id))))
  find_style product_id name (some s) = ok (record {
    name = s.name;
    price_modifier = or_default s.price_modifier (num.of_nat 0);
    option = some s;
  })

  -- 3c
  unfoldable pub choose_style : String → Product F → Option String → Result (ChosenStyle F)
  unfolding find_style
  choose_style product_id product input =
      let name = trim (or_default input "Standard") in
      if is_custom_style name
      then find_style product_id name (find_first (has_style name) product.style_options)
      else ok (record { name = name; price_modifier = num.of_nat 0; option = none })

  -- The packaging units needed for the yards.
  unfoldable pub units_needed : OrderMeasurement F → F → F
  units_needed measurement yards_per_unit =
      num.ceil (num.div (calculate_fabric_yards num measurement) yards_per_unit)

  abbrev default_name : Option String → StyleOption F → Bool
  default_name none s = false
  default_name (some name) s = s.name == name

  abbrev first_style : List (StyleOption F) → Option (StyleOption F)
  first_style [] = none
  first_style (s ∷ _) = some s

  abbrev or_first_style : Option (StyleOption F) → List (StyleOption F) → Option (StyleOption F)
  or_first_style (some s) styles = some s
  or_first_style none styles = first_style styles

  abbrev default_style_option : Product F → Option (StyleOption F)
  default_style_option product =
      or_first_style (find_first (default_name product.default_style) product.style_options)
        product.style_options

  abbrev style_image : Option (StyleOption F) → Option String
  style_image none = none
  style_image (some s) = non_empty s.img_url

  abbrev property_image : Option (FabricProperty F) → Option String
  property_image none = none
  property_image (some p) = p.image_url

  -- `a || b`
  abbrev or_else : Option String → Option String → Option String
  or_else (some a) b = some a
  or_else none b = b

  -- 3d: the row of the order, with its price.
  unfoldable pub priced_item :
      ItemInput F → Product F → ChosenFabric F → ChosenStyle F → OrderItem F
  priced_item item product fabric style =
      let units = units_needed item.measurement fabric.yards_per_unit in
      let fabric_total = num.mul fabric.price_per_unit units in
      let resolved_image = style_image style.option in
      let default_image = style_image (default_style_option product) in
      record {
        product_id = item.product_id;
        product_name = product.name;
        measurement = item.measurement;
        fabric_id = fabric.id;
        fabric_option_name = fabric.name;
        style_option_name = style.name;
        color_name = second_part " — " fabric.name;
        fabric_img_url = property_image fabric.property;
        style_img_url = or_else resolved_image default_image;
        img_url =
            or_else resolved_image
              (or_else (non_empty (property_image fabric.property)) default_image);
        base_price = product.base_price;
        style_modifier = style.price_modifier;
        fabric_price_per_unit = fabric.price_per_unit;
        fabric_qty = units;
        fabric_unit = fabric.unit;
        fabric_yards = calculate_fabric_yards num item.measurement;
        yards_per_unit = fabric.yards_per_unit;
        fabric_modifier = fabric_total;
        total_amount = compute_order_total num (record {
          base_price = product.base_price;
          fabric_price_modifier = some fabric_total;
          style_price_modifier = some style.price_modifier;
        });
        notes = item.notes;
      }

  abbrev active_product : String → Option (Product F) → Result (Product F)
  active_product id none = err (app_error 404 (joined "Product not found: productId=" id))
  active_product id (some product) =
      if product.is_active
      then ok product
      else err (
          app_error 400 (
            joined "Product " (
              joined (quoted product.name)
                " is no longer active and cannot be ordered. Please remove it from your cart.")))

  -- Step 3 for one item.
  unfoldable pub price_item : Catalog F → ItemInput F → Result (OrderItem F)
  price_item catalog item = do
    product ← active_product item.product_id (catalog.product item.product_id)
    fabric ← choose_fabric catalog item.fabric_id
    style ← choose_style item.product_id product item.style_option_name
    ok (priced_item item product fabric style)

  -- The loop of step 3.
  unfoldable pub price_items : Catalog F → List (ItemInput F) → Result (List (OrderItem F))
  price_items catalog [] = ok []
  price_items catalog (item ∷ items) =
      let rest = price_items catalog items in
      do row ← price_item catalog item; rows ← rest; ok (row ∷ rows)

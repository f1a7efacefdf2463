-- ===== src/Pricing.antt =====
-- packages/api/src/services/pricingEngine.ts, and `calculateFabricYards` of orderService.ts.
use jhaz_imprints.Common.{Bool, ◌||◌, Option, if◌then◌else◌, or_default}
use jhaz_imprints.Numbers.{Arith, literal, or_zero}
use jhaz_imprints.Schema.{OrderMeasurement}

pub record PricingInput (F : Type 0) : Type 0 where
  pub base_price : F
  pub fabric_price_modifier : Option F
  pub style_price_modifier : Option F

module _ {F : Type 0} (num : Arith F) where
  -- Two decimal places, with the correction for binary fractions.
  unfoldable pub compute_order_total : PricingInput F → F
  compute_order_total input =
      let fabric = or_default input.fabric_price_modifier (num.of_nat 0) in
      let style = or_default input.style_price_modifier (num.of_nat 0) in
      let total = num.add (num.add input.base_price fabric) style in
      num.div (num.round (num.mul (num.add total num.epsilon) (num.of_nat 100))) (num.of_nat 100)

  abbrev not_positive : F → Bool
  not_positive x = num.le x (num.of_nat 0)

  -- The layout for four positive lengths in centimetres.
  layout_yards : (chest hips height shoulder : F) → F
  layout_yards chest hips height shoulder =
      let max_circumference = num.max chest hips in
      let flat_width = num.add (num.div max_circumference (num.of_nat 2)) (num.of_nat 15) in
      let num_lengths =
        if num.lt (num.of_nat 115) (num.mul flat_width (num.of_nat 2))
        then num.of_nat 2
        else num.of_nat 1 in
      let garment_length = num.mul height (literal num 85 100) in
      let sleeve_length = num.mul shoulder (literal num 15 10) in
      let total_length =
        num.add (num.add (num.mul garment_length num_lengths) sleeve_length) (num.of_nat 20) in
      let yards = num.div total_length (literal num 9144 100) in
      num.max (num.of_nat 2) (num.div (num.round (num.mul yards (num.of_nat 100))) (num.of_nat 100))

  unfoldable pub calculate_fabric_yards : OrderMeasurement F → F
  unfolding layout_yards
  calculate_fabric_yards m =
      let chest = or_zero num m.chest in
      let hips = or_zero num m.hip in
      let height = or_zero num m.length in
      let shoulder = or_zero num m.shoulder in
      if not_positive chest || (not_positive hips || (not_positive height || not_positive shoulder))
      then num.of_nat 2
      else layout_yards chest hips height shoulder

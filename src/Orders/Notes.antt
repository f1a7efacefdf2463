-- ===== src/Orders/Notes.antt =====
-- `parseNotesMetadata` of orderService.ts: an order with the delivery and the promo code that its
-- notes hold.
use jhaz_imprints.Common.{String, Option, none, some, ◌==◌, if◌then◌else◌}
use jhaz_imprints.Schema.{Order, Delivery, Notes, metadata}

pub record OrderView (F : Type 0) : Type 0 where
  pub order : Order F
  pub delivery : Option Delivery
  pub promo_code : Option String

-- `s || null`
abbrev pub non_empty : Option String → Option String
non_empty none = none
non_empty (some s) = if s == "" then none else some s

module _ {F : Type 0} where
  abbrev view_notes : Order F → Option Notes → OrderView F
  view_notes o (some (metadata delivery promo)) = record {
    order = o;
    delivery = delivery;
    promo_code = non_empty promo;
  }
  view_notes o _ = record { order = o; delivery = none; promo_code = none }

  unfoldable pub parse_notes_metadata : Order F → OrderView F
  parse_notes_metadata o = view_notes o o.notes

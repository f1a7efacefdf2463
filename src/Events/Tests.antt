-- ===== src/Events/Tests.antt =====
-- Events of two products, one of them garbled, and one while the database is down.
use jhaz_imprints.Common.{
  ℕ, String, ◌≡◌, refl, false, Option, none, some, List, [], ◌∷◌, ◌++◌, ◌==◌, if◌then◌else◌, arith,
  find_first,
}
use jhaz_imprints.Events.{Payload, Message, Conditions, Worker, is_cached, cached, handle_all}
use jhaz_imprints.Events.Latest.{latest, all_up, smooth, joined, SendSlugs, handle_all-latest}
use jhaz_imprints.Events.Letters.{ids_of, unread, all_reached, letters-handle_all}

abbrev cap : Payload ℕ
cap = record {
  mongo_id = some "p1";
  id = none;
  slug = "p1";
  name = "Cap";
  base_price = 5;
  is_active = none;
  style_options = none;
}

-- JSON.parse, for the texts of these events.
abbrev parse : String → Option (Payload ℕ)
parse text =
    if text == "cap"
    then some cap
    else if text == "dear cap"
    then some (record cap { base_price = 9 })
    else none

abbrev made : String → String → Message
made id text = record { id = id; fields = "eventType" ∷ "PRODUCT_UPDATED" ∷ "payload" ∷ text ∷ [] }

abbrev messages : List (List Message)
messages = (made "1" "cap" ∷ made "2" "{" ∷ []) ∷ (made "3" "dear cap" ∷ []) ∷ []

abbrev idle : Worker ℕ
idle = record { cache = []; acked = []; letters = [] }

same : (a b : String) → a ≡ b → a ≡ b
same a b h = h

sent : SendSlugs (λ id. id) parse (joined messages)
sent = (λ id h. ground arith, (tt, (λ id h. ground arith, tt)))

handle_all-latest_example :
    find_first (is_cached "p1") (handle_all parse (all_up messages) idle).cache
    ≡ latest parse "p1" (joined messages) none
handle_all-latest_example = handle_all-latest parse (λ id. id) same messages idle "p1" tt sent

latest-cap :
    latest parse "p1" (joined messages) none ≡ some (cached "p1" (record cap { base_price = 9 }))
latest-cap = refl

-- The database is down for the second message; the fourth is refused, so that the fifth has no turn.
abbrev down : List (List (Conditions × Message))
down =
    ((smooth, made "1" "cap")
      ∷ (record smooth { db_up = false }, made "2" "dear cap")
      ∷ (smooth, made "3" "{")
      ∷ [])
    ∷ ((record smooth { acks = false }, made "4" "{") ∷ (smooth, made "5" "{") ∷ [])
    ∷ []

letters-handle_all_example :
    ((handle_all parse down idle).acked ≡ [] ++ ids_of (all_reached down))
    × ((handle_all parse down idle).letters ≡ [] ++ unread parse (all_reached down))
letters-handle_all_example = letters-handle_all parse down idle (omega arith)

one_letter :
    unread parse (all_reached down)
    ≡ record { original_id = "3"; event_type = "PRODUCT_UPDATED"; payload = "{" } ∷ []
one_letter = refl

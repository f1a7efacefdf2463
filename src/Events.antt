-- ===== src/Events.antt =====
-- packages/api/src/queues/catalogEventWorker.ts: the cache of products that follows the events of
-- the catalog service.
pub mod Latest
pub mod Letters
mod Tests
use jhaz_imprints.Common.{
  ℕ, capped, String, Bool, true, false, ◌||◌, Option, none, some, List, [], ◌∷◌, ◌++◌, ◌==◌,
  if◌then◌else◌, or_default, find_first, update_first, delete_many, any,
}
use jhaz_imprints.Catalog.{StyleOption}
use jhaz_imprints.Orders.Notes.{non_empty}

-- model CachedProduct; the two columns that always hold an empty list are left out.
pub record CachedProduct (F : Type 0) : Type 0 where
  pub id : String
  pub slug : String
  pub name : String
  pub base_price : F
  pub is_active : Bool
  pub style_options : List (StyleOption F)

-- The JSON of an event: the product, or of a deletion the id alone.
pub record Payload (F : Type 0) : Type 0 where
  pub mongo_id : Option String
  pub id : Option String
  pub slug : String
  pub name : String
  pub base_price : F
  pub is_active : Option Bool
  pub style_options : Option (List (StyleOption F))

-- A message of the stream: keys and values in turn.
pub record Message : Type 0 where
  pub id : String
  pub fields : List String

-- The text of the error and the time are left out.
pub record DeadLetter : Type 0 where
  pub original_id : String
  pub event_type : String
  pub payload : String

-- The cache, and what the worker has written to the stream and to the dead-letter stream.
pub record Worker (F : Type 0) : Type 0 where
  pub cache : List (CachedProduct F)
  pub acked : List String
  pub letters : List DeadLetter

-- What Redis and the database do when a message's turn comes: whether the acknowledgement is
-- accepted, the database is there, and a dead letter is accepted; and how many old letters Redis
-- lets go of.
pub record Conditions : Type 0 where
  pub acks : Bool
  pub db_up : Bool
  pub keeps_letter : Bool
  pub trims : ℕ

abbrev later_or : Option String → Option String → Option String
later_or none here = here
later_or (some v) here = some v

-- `data[key]`: a later field of the same name wins.
abbrev pub field : String → List String → Option String
field key [] = none
field key (k ∷ []) = none
field key (k ∷ v ∷ rest) = later_or (field key rest) (if k == key then some v else none)

abbrev pub is_upsert : String → Bool
is_upsert type = type == "PRODUCT_CREATED" || type == "PRODUCT_UPDATED"

abbrev pub dead_letter : Message → DeadLetter
dead_letter m = record {
  original_id = m.id;
  event_type = or_default (non_empty (field "eventType" m.fields)) "UNKNOWN";
  payload = or_default (non_empty (field "payload" m.fields)) "{}";
}

abbrev pub event_type : Message → String
event_type m = or_default (field "eventType" m.fields) ""

module _ {F : Type 0} where
  abbrev pub is_cached : String → CachedProduct F → Bool
  is_cached id p = p.id == id

  -- `product._id || product.id`
  abbrev pub key_of_payload : Payload F → Option String
  key_of_payload p = later_or (non_empty p.mongo_id) p.id

  abbrev pub cached : String → Payload F → CachedProduct F
  cached id p = record {
    id = id;
    slug = p.slug;
    name = p.name;
    base_price = p.base_price;
    is_active = or_default p.is_active true;
    style_options = or_default p.style_options [];
  }

  abbrev pub replaced : String → Payload F → CachedProduct F → CachedProduct F
  replaced id p old = cached old.id p

  abbrev upsert_at :
      String
      → Payload F
      → List (CachedProduct F)
      → Option (CachedProduct F)
      → List (CachedProduct F)
  upsert_at id p cache none = cache ++ cached id p ∷ []
  upsert_at id p cache (some _) = update_first (is_cached id) (replaced id p) cache

  -- Another product has the slug, which is a unique column.
  abbrev pub has_slug : String → String → CachedProduct F → Bool
  has_slug id slug x = if x.id == id then false else x.slug == slug

  -- A clash of slugs makes Prisma throw, and the event is lost.
  unfoldable pub upsert_product :
      String → Payload F → List (CachedProduct F) → List (CachedProduct F)
  upsert_product id p cache =
      if any (has_slug id p.slug) cache
      then cache
      else upsert_at id p cache (find_first (is_cached id) cache)

  abbrev on_key :
      Option String
      → (String → List (CachedProduct F))
      → List (CachedProduct F)
      → List (CachedProduct F)
  on_key none f cache = cache
  on_key (some id) f cache = f id

  -- Errors, a missing key or row or a database that is down among them, are caught and logged.
  unfoldable pub process_event :
      (db_up : Bool) → String → Payload F → List (CachedProduct F) → List (CachedProduct F)
  process_event false type p cache = cache
  process_event true type p cache =
      if is_upsert type
      then on_key (key_of_payload p) (λ id. upsert_product id p cache) cache
      else if type == "PRODUCT_DELETED"
      then on_key p.id (λ id. delete_many (is_cached id) cache) cache
      else cache

  abbrev pub parsed : (String → Option (Payload F)) → Message → Option (Payload F)
  parsed parse m = elim (field "payload" m.fields) [ none ↦ none | some text ↦ parse text ]

  -- A dead letter that Redis refuses is logged; of more than a thousand, old ones may go.
  abbrev handle_parsed : Conditions → Message → Option (Payload F) → Worker F → Worker F
  handle_parsed c m none w =
      if c.keeps_letter
      then record w { letters = capped 1000 c.trims (w.letters ++ dead_letter m ∷ []) }
      else w
  handle_parsed c m (some p) w = record w { cache = process_event c.db_up (event_type m) p w.cache }

  -- One message whose acknowledgement was accepted. `parse` is JSON.parse.
  unfoldable pub handle : (String → Option (Payload F)) → Conditions → Message → Worker F → Worker F
  handle parse c m w =
      handle_parsed c m (parsed parse m) (record w { acked = w.acked ++ m.id ∷ [] })

  -- What one read has brought. An acknowledgement that is refused throws, and the rest of the batch
  -- is passed over; it is not read again.
  abbrev pub handle_batch :
      (String → Option (Payload F)) → List (Conditions × Message) → Worker F → Worker F
  handle_batch parse [] w = w
  handle_batch parse ((c, m) ∷ ms) w =
      let rest = handle_batch parse ms (handle parse c m w) in if c.acks then rest else w

  -- The batches, one after the other.
  abbrev pub handle_all :
      (String → Option (Payload F)) → List (List (Conditions × Message)) → Worker F → Worker F
  handle_all parse [] w = w
  handle_all parse (b ∷ bs) w = handle_all parse bs (handle_batch parse b w)

-- ===== src/Events/Latest.antt =====
-- The cache shows the latest event of each product.
use jhaz_imprints.Common.{
  String, ◌≡◌, refl, sym, subst, ◌∙◌, ap, Bool, true, false, Option, none, some, List, [], ◌∷◌,
  ◌++◌, arith, ◌==◌, eq_iff, eq_refl, if◌then◌else◌, find_first, find_first-holds, any,
  update_first, delete_many, find_first-update_first, find_first-update_other,
  find_first-delete_many, find_first-delete_other, Option-cases, Bool-cases, inl, inr,
}
use jhaz_imprints.Events.{
  Payload, CachedProduct, Message, Worker, is_cached, key_of_payload, cached, replaced,
  upsert_product, has_slug, is_upsert, process_event, parsed, event_type, handle, handle_batch,
  handle_all, Conditions,
}

abbrev pub has_key : Option String → String → Bool
has_key none id = false
has_key (some k) id = k == id

module _ {F : Type 0} where
  -- What an event says of one product, given what was known of it.
  abbrev pub says :
      String → String → Payload F → Option (CachedProduct F) → Option (CachedProduct F)
  says id type p old =
      if is_upsert type
      then (if has_key (key_of_payload p) id then some (cached id p) else old)
      else if type == "PRODUCT_DELETED"
      then (if has_key p.id id then none else old)
      else old

  abbrev pub told :
      String → Message → Option (Payload F) → Option (CachedProduct F) → Option (CachedProduct F)
  told id m none old = old
  told id m (some p) old = says id (event_type m) p old

  -- The latest word on one product, event by event.
  abbrev pub latest :
      (String → Option (Payload F))
      → String
      → List Message
      → Option (CachedProduct F)
      → Option (CachedProduct F)
  latest parse id [] old = old
  latest parse id (m ∷ ms) old = latest parse id ms (told id m (parsed parse m) old)

  -- Every product has the slug that goes with its id.
  abbrev pub HaveSlugs : (String → String) → List (CachedProduct F) → Type 0
  HaveSlugs slug_of [] = Unit
  HaveSlugs slug_of (x ∷ xs) = (x.slug ≡ slug_of x.id) × HaveSlugs slug_of xs

  abbrev pub SendsSlug : (String → String) → Option (Payload F) → Type 0
  SendsSlug slug_of none = Unit
  SendsSlug slug_of (some p) = (id : String) → key_of_payload p ≡ some id → p.slug ≡ slug_of id

  abbrev pub SendSlugs : (String → String) → (String → Option (Payload F)) → List Message → Type 0
  SendSlugs slug_of parse [] = Unit
  SendSlugs slug_of parse (m ∷ ms) = SendsSlug slug_of (parsed parse m) × SendSlugs slug_of parse ms

  find_first-append :
      (p : CachedProduct F → Bool) (xs : List (CachedProduct F)) (x : CachedProduct F)
      → find_first p xs ≡ none
      → find_first p (xs ++ x ∷ []) ≡ (if p x then some x else none)
  find_first-append p [] x h = refl
  find_first-append p (y ∷ xs) x h = ground (arith, find_first-append p xs x)

  find_first-append_other :
      (p : CachedProduct F → Bool) (xs : List (CachedProduct F)) (x : CachedProduct F)
      → p x ≡ false
      → find_first p (xs ++ x ∷ []) ≡ find_first p xs
  find_first-append_other p [] x h = ground arith
  find_first-append_other p (y ∷ xs) x h = ground (arith, find_first-append_other p xs x h)

  module _ (slug_of : String → String)
      (apart : (a b : String) → slug_of a ≡ slug_of b → a ≡ b) where
    no_clash :
        (id : String) (cache : List (CachedProduct F))
        → HaveSlugs slug_of cache
        → any (has_slug id (slug_of id)) cache ≡ false
    no_clash id [] h = refl
    no_clash id (x ∷ xs) (own, rest) =
        ground
          (arith, no_clash id xs rest, eq_iff x.slug (slug_of id), eq_iff x.id id, apart x.id id)

    HaveSlugs-append :
        (cache : List (CachedProduct F)) (x : CachedProduct F)
        → HaveSlugs slug_of cache
        → x.slug ≡ slug_of x.id
        → HaveSlugs slug_of (cache ++ x ∷ [])
    HaveSlugs-append [] x h own = (own, tt)
    HaveSlugs-append (y ∷ ys) x (o, h) own = (o, HaveSlugs-append ys x h own)

    HaveSlugs-update_first :
        (id : String) (p : Payload F) (cache : List (CachedProduct F))
        → HaveSlugs slug_of cache
        → p.slug ≡ slug_of id
        → HaveSlugs slug_of (update_first (is_cached id) (replaced id p) cache)
    HaveSlugs-update_first id p [] h own = tt
    HaveSlugs-update_first id p (y ∷ ys) (o, h) own = elim (Bool-cases (y.id == id)) [
      | inl here ↦ rw here (rw ((eq_iff y.id id).0 here) own, h)
      | inr other ↦ rw other (o, HaveSlugs-update_first id p ys h own)
    ]

    HaveSlugs-delete_many :
        (id : String) (cache : List (CachedProduct F))
        → HaveSlugs slug_of cache
        → HaveSlugs slug_of (delete_many (is_cached id) cache)
    HaveSlugs-delete_many id [] h = tt
    HaveSlugs-delete_many id (y ∷ ys) (o, h) = elim (Bool-cases (y.id == id)) [
      | inl here ↦ rw here (HaveSlugs-delete_many id ys h)
      | inr other ↦ rw other (o, HaveSlugs-delete_many id ys h)
    ]

    module _ (k : String) (p : Payload F) (cache : List (CachedProduct F))
        (good : HaveSlugs slug_of cache) (own : p.slug ≡ slug_of k) where
      free : any (has_slug k p.slug) cache ≡ false
      free = rw own (no_clash k cache good)

      upsert_self : find_first (is_cached k) (upsert_product k p cache) ≡ some (cached k p)
      unfolding upsert_product
      upsert_self = elim (Option-cases (find_first (is_cached k) cache)) [
        | inl new ↦
            ground (arith, free, find_first-append (is_cached k) cache (cached k p) new, eq_refl k)
        | inr (old, found) ↦ ground (
          arith,
          free,
          eq_iff old.id k,
          find_first-holds (is_cached k) cache old found,
          find_first-update_first (is_cached k) (replaced k p) cache (λ x. refl),
        )
      ]

      upsert_other :
          (id : String)
          → (k == id) ≡ false
          → find_first (is_cached id) (upsert_product k p cache) ≡ find_first (is_cached id) cache
      unfolding upsert_product
      upsert_other id other = ground (
        arith,
        free,
        find_first-append_other (is_cached id) cache (cached k p),
        find_first-update_other (is_cached k) (is_cached id) (replaced k p) cache
            (λ (x : CachedProduct F) (h : (x.id == k) ≡ true).
              let e : (x.id == id) ≡ false =
                ground (arith, eq_iff x.id k, eq_iff k id, eq_iff x.id id) in
              (e, e)),
      )

      upsert-HaveSlugs : HaveSlugs slug_of (upsert_product k p cache)
      unfolding upsert_product
      upsert-HaveSlugs = elim (Option-cases (find_first (is_cached k) cache)) [
        | inl new ↦ rw (free, new) (HaveSlugs-append cache (cached k p) good own)
        | inr (old, found) ↦ rw (free, found) (HaveSlugs-update_first k p cache good own)
      ]

      upsert-says :
          (id : String)
          → find_first (is_cached id) (upsert_product k p cache)
            ≡ (if k == id then some (cached id p) else find_first (is_cached id) cache)
      upsert-says id = elim (Bool-cases (k == id)) [
        | inl here ↦
            let same : k ≡ id = (eq_iff k id).0 here in
            rw here (
              subst (λ i. find_first (is_cached i) (upsert_product k p cache) ≡ some (cached i p))
                same upsert_self)
        | inr other ↦ rw other (upsert_other id other)
      ]

    delete-says :
        (k id : String) (cache : List (CachedProduct F))
        → find_first (is_cached id) (delete_many (is_cached k) cache)
          ≡ (if k == id then none else find_first (is_cached id) cache)
    delete-says k id cache = elim (Bool-cases (k == id)) [
      | inl here ↦
          let same : k ≡ id = (eq_iff k id).0 here in
          rw here (
            subst (λ i. find_first (is_cached i) (delete_many (is_cached k) cache) ≡ none) same
              (find_first-delete_many (is_cached k) cache))
      | inr other ↦ rw other (
          find_first-delete_other (is_cached k) (is_cached id) cache
            (λ (x : CachedProduct F) (h : (x.id == k) ≡ true).
              ground (arith, eq_iff x.id k, eq_iff k id, eq_iff x.id id)))
    ]

    module _ (type : String) (p : Payload F) (cache : List (CachedProduct F))
        (good : HaveSlugs slug_of cache) (own : SendsSlug slug_of (some p)) where
      process-says :
          (id : String)
          → find_first (is_cached id) (process_event true type p cache)
            ≡ says id type p (find_first (is_cached id) cache)
      unfolding process_event
      process-says id = elim (Option-cases (key_of_payload p)) [
        | inl nameless ↦ elim (Option-cases p.id) [
          | inl unnamed ↦ ground arith
          | inr (k, named) ↦ ground (arith, delete-says k id cache)
        ]
        | inr (k, keyed) ↦ elim (Option-cases p.id) [
          | inl unnamed ↦ ground (arith, upsert-says k p cache good (own k keyed) id)
          | inr (i, named) ↦
              ground (arith, upsert-says k p cache good (own k keyed) id, delete-says i id cache)
        ]
      ]

      process-HaveSlugs : HaveSlugs slug_of (process_event true type p cache)
      unfolding process_event
      process-HaveSlugs = elim (Bool-cases (is_upsert type)) [
        | inl up ↦ elim (Option-cases (key_of_payload p)) [
          | inl nameless ↦ rw (up, nameless) good
          | inr (k, keyed) ↦ rw (up, keyed) (upsert-HaveSlugs k p cache good (own k keyed))
        ]
        | inr never ↦ elim (Bool-cases (type == "PRODUCT_DELETED")) [
          | inl gone ↦ elim (Option-cases p.id) [
            | inl unnamed ↦ rw (never, gone, unnamed) good
            | inr (k, named) ↦ rw (never, gone, named) (HaveSlugs-delete_many k cache good)
          ]
          | inr other ↦ rw (never, other) good
        ]
      ]

-- Everything goes well.
abbrev pub smooth : Conditions
smooth = record { acks = true; db_up = true; keeps_letter = true; trims = 0 }

abbrev pub batch_up : List Message → List (Conditions × Message)
batch_up [] = []
batch_up (m ∷ ms) = (smooth, m) ∷ batch_up ms

-- The batches, with everything going well for each message.
abbrev pub all_up : List (List Message) → List (List (Conditions × Message))
all_up [] = []
all_up (b ∷ bs) = batch_up b ∷ all_up bs

-- The messages of all batches.
abbrev pub joined : List (List Message) → List Message
joined [] = []
joined (b ∷ bs) = b ++ joined bs

module _ {F : Type 0} (parse : String → Option (Payload F)) where
  batch_up-concat :
      (ms ns : List Message) (w : Worker F)
      → handle_batch parse (batch_up (ms ++ ns)) w
        ≡ handle_batch parse (batch_up ns) (handle_batch parse (batch_up ms) w)
  batch_up-concat [] ns w = refl
  batch_up-concat (m ∷ ms) ns w = batch_up-concat ms ns (handle parse smooth m w)

  all_up-joined :
      (bs : List (List Message)) (w : Worker F)
      → handle_all parse (all_up bs) w ≡ handle_batch parse (batch_up (joined bs)) w
  all_up-joined [] w = refl
  all_up-joined (b ∷ bs) w =
      all_up-joined bs (handle_batch parse (batch_up b) w) ∙ sym (batch_up-concat b (joined bs) w)

handle_batch-latest :
    {F : Type 0} (parse : String → Option (Payload F)) (slug_of : String → String)
    → ((a b : String) → slug_of a ≡ slug_of b → a ≡ b)
    → (ms : List Message) (w : Worker F) (id : String) → HaveSlugs slug_of w.cache
    → SendSlugs slug_of parse ms
    → find_first (is_cached id) (handle_batch parse (batch_up ms) w).cache
      ≡ latest parse id ms (find_first (is_cached id) w.cache)
handle_batch-latest parse slug_of apart [] w id good own = refl
handle_batch-latest {F} parse slug_of apart (m ∷ ms) w id good (first, rest) =
    elim (Option-cases (parsed parse m)) [
      | inl garbled ↦
          let step : (handle parse smooth m w).cache ≡ w.cache = unfold handle in ground arith in
          handle_batch-latest parse slug_of apart ms (handle parse smooth m w) id
            (subst (HaveSlugs slug_of) (sym step) good) rest
          ∙ ground (arith, step)
      | inr (p, read) ↦
          let sends : SendsSlug slug_of (some p) = subst (SendsSlug slug_of) read first in
          let step : (handle parse smooth m w).cache ≡ process_event true (event_type m) p w.cache =
            unfold handle in ground arith in
          handle_batch-latest parse slug_of apart ms (handle parse smooth m w) id
            (subst (HaveSlugs slug_of) (sym step)
              (process-HaveSlugs slug_of apart (event_type m) p w.cache good sends))
            rest
          ∙ ground
              (arith, step, read, process-says slug_of apart (event_type m) p w.cache good sends id)
    ]

-- While Redis and the database are there, the cache shows for every product what the latest event
-- said of it, however the events come in batches: the product as it was sent last, or nothing after
-- a deletion; events of other products, unknown types and texts that are no JSON make no difference.
-- Each product is taken to keep one slug, and no two products to share it.
pub handle_all-latest :
    {F : Type 0} (parse : String → Option (Payload F)) (slug_of : String → String)
    → ((a b : String) → slug_of a ≡ slug_of b → a ≡ b)
    → (bs : List (List Message)) (w : Worker F) (id : String) → HaveSlugs slug_of w.cache
    → SendSlugs slug_of parse (joined bs)
    → find_first (is_cached id) (handle_all parse (all_up bs) w).cache
      ≡ latest parse id (joined bs) (find_first (is_cached id) w.cache)
handle_all-latest {F} parse slug_of apart bs w id good own =
    ap (λ (v : Worker F). find_first (is_cached id) v.cache) (all_up-joined parse bs w)
    ∙ handle_batch-latest parse slug_of apart (joined bs) w id good own

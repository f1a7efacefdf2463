-- ===== src/Events/Letters.antt =====
-- What the worker acknowledges and what it keeps as a dead letter.
use jhaz_imprints.Common.{
  ◌≤◌, String, ◌≡◌, refl, Bool, Option, none, List, [], ◌∷◌, ◌++◌, sym, ◌∙◌, ap, arith, length,
  Option-cases, Bool-cases, inl, inr, true, if◌then◌else◌, or_default, capped_short, subst,
}
use mathlib.Core.List.{append_assoc, append-nil}
use jhaz_imprints.Orders.Notes.{non_empty}
use jhaz_imprints.Events.{
  Payload, Message, DeadLetter, Conditions, Worker, field, parsed, handle, handle_batch, handle_all,
}

-- The messages whose turn comes: in each batch, those before the first refused acknowledgement.
abbrev pub reached : List (Conditions × Message) → List (Conditions × Message)
reached [] = []
reached ((c, m) ∷ ms) = if c.acks then (c, m) ∷ reached ms else []

abbrev pub all_reached : List (List (Conditions × Message)) → List (Conditions × Message)
all_reached [] = []
all_reached (b ∷ bs) = reached b ++ all_reached bs

abbrev pub ids_of : List (Conditions × Message) → List String
ids_of [] = []
ids_of ((_, m) ∷ ms) = m.id ∷ ids_of ms

ids_of-concat : (xs ys : List (Conditions × Message)) → ids_of (xs ++ ys) ≡ ids_of xs ++ ids_of ys
ids_of-concat [] ys = refl
ids_of-concat ((c, m) ∷ xs) ys = ap (λ l. m.id ∷ l) (ids_of-concat xs ys)

length-concat_le : {A : Type 0} (xs ys : List A) → length xs ≤ length (xs ++ ys)
length-concat_le [] ys = omega arith
length-concat_le (x ∷ xs) ys = omega (arith, length-concat_le xs ys)

-- A message that is no JSON, with its own id, type and text, or the defaults for what is missing.
abbrev letter_of : Message → DeadLetter
letter_of m = record {
  original_id = m.id;
  event_type = or_default (non_empty (field "eventType" m.fields)) "UNKNOWN";
  payload = or_default (non_empty (field "payload" m.fields)) "{}";
}

module _ {F : Type 0} (parse : String → Option (Payload F)) where
  abbrev letter_if : Bool → Option (Payload F) → Message → List DeadLetter
  letter_if true none m = letter_of m ∷ []
  letter_if _ _ m = []

  -- The letters of the messages that are no JSON, where Redis accepts a letter.
  abbrev pub unread : List (Conditions × Message) → List DeadLetter
  unread [] = []
  unread ((c, m) ∷ ms) = letter_if c.keeps_letter (parsed parse m) m ++ unread ms

  unread-concat : (xs ys : List (Conditions × Message)) → unread (xs ++ ys) ≡ unread xs ++ unread ys
  unread-concat [] ys = refl
  unread-concat ((c, m) ∷ xs) ys =
      ap (λ l. letter_if c.keeps_letter (parsed parse m) m ++ l) (unread-concat xs ys)
      ∙ sym (append_assoc (letter_if c.keeps_letter (parsed parse m) m) (unread xs) (unread ys))

  acked-handle :
      (c : Conditions) (m : Message) (w : Worker F)
      → (handle parse c m w).acked ≡ w.acked ++ m.id ∷ []
  unfolding handle
  acked-handle c m w = ground arith

  letters-handle :
      (c : Conditions) (m : Message) (w : Worker F)
      → length (w.letters ++ letter_if c.keeps_letter (parsed parse m) m) ≤ 1000
      → (handle parse c m w).letters ≡ w.letters ++ letter_if c.keeps_letter (parsed parse m) m
  unfolding handle
  letters-handle c m w room = elim (Option-cases (parsed parse m)) [
    | inr (p, read) ↦ rw read (elim (Bool-cases c.keeps_letter) [
      | inl kept ↦ rw kept (sym (append-nil w.letters))
      | inr lost ↦ rw lost (sym (append-nil w.letters))
    ])
    | inl garbled ↦ elim (Bool-cases c.keeps_letter) [
      | inl kept ↦
          ground
            (arith, kept, garbled, room, capped_short 1000 c.trims (w.letters ++ letter_of m ∷ []))
      | inr lost ↦ rw (garbled, lost) (sym (append-nil w.letters))
    ]
  ]

  handle_batch-reached :
      (b : List (Conditions × Message)) (w : Worker F)
      → length (w.letters ++ unread (reached b)) ≤ 1000
      → ((handle_batch parse b w).acked ≡ w.acked ++ ids_of (reached b))
        × ((handle_batch parse b w).letters ≡ w.letters ++ unread (reached b))
  handle_batch-reached [] w room = (sym (append-nil w.acked), sym (append-nil w.letters))
  handle_batch-reached ((c, m) ∷ ms) w room = elim (Bool-cases c.acks) [
    | inr refused ↦ rw refused (sym (append-nil w.acked), sym (append-nil w.letters))
    | inl acked ↦
        let own = letter_if c.keeps_letter (parsed parse m) m in
        let rest = unread (reached ms) in
        let together : (w.letters ++ own) ++ rest ≡ w.letters ++ (own ++ rest) =
          append_assoc w.letters own rest in
        let fits : length (w.letters ++ (own ++ rest)) ≤ 1000 = ground (arith, acked, room) in
        let all_fit : length ((w.letters ++ own) ++ rest) ≤ 1000 =
          subst (λ l. length l ≤ 1000) (sym together) fits in
        let here : (handle parse c m w).letters ≡ w.letters ++ own =
          letters-handle c m w (omega (arith, all_fit, length-concat_le (w.letters ++ own) rest)) in
        let (ids, letters) =
          handle_batch-reached ms (handle parse c m w)
            (subst (λ l. length (l ++ rest) ≤ 1000) (sym here) all_fit) in
        let go : handle_batch parse ((c, m) ∷ ms) w ≡ handle_batch parse ms (handle parse c m w) =
          ap (λ up. if up then handle_batch parse ms (handle parse c m w) else w) acked in
        let turn : reached ((c, m) ∷ ms) ≡ (c, m) ∷ reached ms =
          ap (λ up. if up then (c, m) ∷ reached ms else []) acked in
        (
          ap (λ (v : Worker F). v.acked) go
              ∙ ids
              ∙ ap (λ l. l ++ ids_of (reached ms)) (acked-handle c m w)
              ∙ append_assoc w.acked (m.id ∷ []) (ids_of (reached ms))
              ∙ ap (λ l. w.acked ++ ids_of l) (sym turn),
          ap (λ (v : Worker F). v.letters) go
              ∙ letters
              ∙ ap (λ l. l ++ rest) here
              ∙ together
              ∙ ap (λ l. w.letters ++ unread l) (sym turn),
        )
  ]

-- Whatever Redis and the database do, the worker acknowledges, in order, exactly the messages whose
-- turn comes: in each batch, those before the first whose acknowledgement is refused. Of these, the ones
-- that are no JSON, and no others, are kept in order as dead letters with their id, type and text, if
-- Redis accepts the letter and there are at most a thousand: an event that could be read leaves none,
-- so an event that the database refused is lost.
pub letters-handle_all :
    {F : Type 0} (parse : String → Option (Payload F)) (bs : List (List (Conditions × Message)))
    (w : Worker F)
    → length (w.letters ++ unread parse (all_reached bs)) ≤ 1000
    → ((handle_all parse bs w).acked ≡ w.acked ++ ids_of (all_reached bs))
      × ((handle_all parse bs w).letters ≡ w.letters ++ unread parse (all_reached bs))
letters-handle_all parse [] w room = (sym (append-nil w.acked), sym (append-nil w.letters))
letters-handle_all {F} parse (b ∷ bs) w room =
    let own = unread parse (reached b) in
    let rest = unread parse (all_reached bs) in
    let parts : w.letters ++ unread parse (all_reached (b ∷ bs)) ≡ (w.letters ++ own) ++ rest =
      ap (λ l. w.letters ++ l) (unread-concat parse (reached b) (all_reached bs))
      ∙ sym (append_assoc w.letters own rest) in
    let all_fit : length ((w.letters ++ own) ++ rest) ≤ 1000 =
      subst (λ l. length l ≤ 1000) parts room in
    let (ids, letters) =
      handle_batch-reached parse b w
        (omega (arith, all_fit, length-concat_le (w.letters ++ own) rest)) in
    let (ids_on, letters_on) =
      letters-handle_all parse bs (handle_batch parse b w)
        (subst (λ l. length (l ++ rest) ≤ 1000) (sym letters) all_fit) in
    (
      ids_on
          ∙ ap (λ l. l ++ ids_of (all_reached bs)) ids
          ∙ append_assoc w.acked (ids_of (reached b)) (ids_of (all_reached bs))
          ∙ ap (λ l. w.acked ++ l) (sym (ids_of-concat (reached b) (all_reached bs))),
      letters_on ∙ ap (λ l. l ++ rest) letters ∙ sym parts,
    )

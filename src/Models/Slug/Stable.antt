-- ===== src/Models/Slug/Stable.antt =====
-- What a slug that is made of a name looks like, and that nothing the models do changes it again.
use Prim.Native.Nat.{◌-◌}
use Prim.Native.Char.{Char, code}
use Prim.Native.String.{[], ◌∷◌}
use jhaz_imprints.Common.{
  ℕ, zero, suc, String, ◌≡◌, refl, Bool, true, false, ◌&&◌, ◌||◌, not, leb, eqb, arith, Bool-cases,
  inl, inr,
}
use jhaz_imprints.Common.Text.{trim, is_space}
use jhaz_imprints.Common.Text.Trimmed.{all_codes, all_codes-trim, trim_dense, trim_twice}
use jhaz_imprints.Models.Slug.{
  alphabet, nth_char, is_capital, to_lower_char, to_lower, dash_spaces, is_slug_code, keep_word,
  slug_of_name, clean_slug,
}

-- A small letter, a digit, an underscore or a dash.
abbrev pub is_final_code : ℕ → Bool
is_final_code n =
    (leb b'a' n && leb n b'z') || ((leb b'0' n && leb n b'9') || (eqb n 95 || eqb n 45))

nth_char-final :
    (s : String) (n : ℕ)
    → all_codes is_final_code s ≡ true
    → is_final_code (code (nth_char s n)) ≡ true
unfolding nth_char all_codes
nth_char-final [] n h = refl
nth_char-final (c ∷ s) zero h = ground arith
nth_char-final (c ∷ s) (suc n) h = nth_char-final s n (ground arith)

alphabet-final : all_codes is_final_code alphabet ≡ true
unfolding all_codes
alphabet-final = refl

to_lower_char-final :
    (c : Char) → is_slug_code (code c) ≡ true → is_final_code (code (to_lower_char c)) ≡ true
unfolding to_lower_char
to_lower_char-final c h = elim (Bool-cases (is_capital (code c))) [
  | inl capital ↦ rw capital (nth_char-final alphabet (code c - b'A') alphabet-final)
  | inr small ↦ rw small (ground arith)
]

abbrev not_capital : ℕ → Bool
not_capital n = not (is_capital n)

to_lower_char-small : (c : Char) → not_capital (code (to_lower_char c)) ≡ true
unfolding to_lower_char
to_lower_char-small c = elim (Bool-cases (is_capital (code c))) [
  | inl capital ↦
      let final : is_final_code (code (nth_char alphabet (code c - b'A'))) ≡ true =
        nth_char-final alphabet (code c - b'A') alphabet-final in
      rw capital (ground arith)
  | inr small ↦ rw small (ground arith)
]

to_lower-small : (s : String) → all_codes not_capital (to_lower s) ≡ true
unfolding to_lower all_codes
to_lower-small [] = refl
to_lower-small (c ∷ s) = ground (arith, to_lower_char-small c, to_lower-small s)

module _ (p : ℕ → Bool) (dash : p 45 ≡ true) where
  dash_spaces-all :
      (in_run : Bool) (s : String)
      → all_codes p s ≡ true
      → all_codes p (dash_spaces in_run s) ≡ true
  unfolding dash_spaces all_codes
  dash_spaces-all in_run [] h = refl
  dash_spaces-all in_run (c ∷ s) h = elim (Bool-cases (is_space (code c))) [
    | inl space ↦ elim (Bool-cases in_run) [
      | inl inside ↦ rw (space, inside) (dash_spaces-all true s (ground arith))
      | inr outside ↦ rw (space, outside) (ground (arith, dash_spaces-all true s))
    ]
    | inr dense ↦ rw dense (ground (arith, dash_spaces-all false s))
  ]

-- Small letters that `keep_word` keeps are of a slug.
keep_word-final :
    (s : String) → all_codes not_capital s ≡ true → all_codes is_final_code (keep_word s) ≡ true
unfolding keep_word all_codes
keep_word-final [] h = refl
keep_word-final (c ∷ s) h = elim (Bool-cases (is_slug_code (code c))) [
  | inl kept ↦ rw kept (ground (arith, keep_word-final s))
  | inr dropped ↦ rw dropped (keep_word-final s (ground arith))
]

slug_of_name-final : (name : String) → all_codes is_final_code (slug_of_name name) ≡ true
unfolding slug_of_name
slug_of_name-final name = keep_word-final (dash_spaces false (trim (to_lower name))) (
    dash_spaces-all not_capital refl false (trim (to_lower name))
      (all_codes-trim not_capital (to_lower name) (to_lower-small name)))

module _ where
  final_dense : (n : ℕ) → is_final_code n ≡ true → is_space n ≡ false
  final_dense n h = ground arith

  to_lower-final : (s : String) → all_codes is_final_code s ≡ true → to_lower s ≡ s
  unfolding to_lower to_lower_char all_codes
  to_lower-final [] h = refl
  to_lower-final (c ∷ s) h =
      let small : is_capital (code c) ≡ false = ground arith in
      rw (small, to_lower-final s (ground arith)) refl

  dash_spaces-final : (s : String) → all_codes is_final_code s ≡ true → dash_spaces false s ≡ s
  unfolding dash_spaces all_codes
  dash_spaces-final [] h = refl
  dash_spaces-final (c ∷ s) h =
      let dense : is_space (code c) ≡ false = final_dense (code c) (ground arith) in
      rw (dense, dash_spaces-final s (ground arith)) refl

  keep_word-same : (s : String) → all_codes is_final_code s ≡ true → keep_word s ≡ s
  unfolding keep_word all_codes
  keep_word-same [] h = refl
  keep_word-same (c ∷ s) h =
      let kept : is_slug_code (code c) ≡ true = ground arith in
      rw (kept, keep_word-same s (ground arith)) refl

-- A text of small letters, digits, underscores and dashes.
abbrev pub IsSlug : String → Type 0
IsSlug s = all_codes is_final_code s ≡ true

clean_slug-same : (s : String) → IsSlug s → clean_slug s ≡ s
unfolding clean_slug
clean_slug-same s h = rw (to_lower-final s h) (trim_dense is_final_code final_dense s h)

slug_of_name-same : (s : String) → IsSlug s → slug_of_name s ≡ s
unfolding slug_of_name
slug_of_name-same s h =
    rw (to_lower-final s h, trim_dense is_final_code final_dense s h, dash_spaces-final s h)
      (keep_word-same s h)

to_lower_same : (s : String) → all_codes not_capital s ≡ true → to_lower s ≡ s
unfolding to_lower to_lower_char all_codes
to_lower_same [] h = refl
to_lower_same (c ∷ s) h =
    let small : is_capital (code c) ≡ false = ground arith in
    rw (small, to_lower_same s (ground arith)) refl

-- A slug that the schema has cleaned is clean.
pub clean_slug_twice : (s : String) → clean_slug (clean_slug s) ≡ clean_slug s
unfolding clean_slug
clean_slug_twice s =
    rw
      (to_lower_same (trim (to_lower s))
        (all_codes-trim not_capital (to_lower s) (to_lower-small s)))
      (trim_twice (to_lower s))

-- The slug that is made of a name holds small letters, digits, underscores and dashes only; the
-- schema's setters leave it as it is; and made into a slug again it is the same.
pub slug_of_name_stable :
    (name : String)
    → let slug = slug_of_name name in
      IsSlug slug × (clean_slug slug ≡ slug) × (slug_of_name slug ≡ slug)
slug_of_name_stable name = (
  slug_of_name-final name,
  clean_slug-same (slug_of_name name) (slug_of_name-final name),
  slug_of_name-same (slug_of_name name) (slug_of_name-final name),
)

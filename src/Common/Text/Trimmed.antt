-- ===== src/Common/Text/Trimmed.antt =====
-- What `trim` keeps of a text, for a property of its characters.
use Prim.Native.Char.{code}
use Prim.Native.String.{String, [], ◌∷◌}
use Prim.Native.Nat.{ℕ}
use mathlib.Core.Path.{◌≡◌, refl}
use mathlib.Core.Logic.{inl, inr}
use mathlib.Core.Bool.{Bool, true, false, not, ◌&&◌}
use native.Mathlib.Omega.{arith}
use text.Mathlib.Text.{◌==◌}
use jhaz_imprints.Common.Tests.{Bool-cases}
use jhaz_imprints.Common.Text.{trim, trim_start, trim_end, is_space}

-- Every character's code passes the test.
unfoldable pub all_codes : (ℕ → Bool) → String → Bool
all_codes p [] = true
all_codes p (c ∷ s) = p (code c) && all_codes p s

module _ (p : ℕ → Bool) where
  all_codes-trim_start : (s : String) → all_codes p s ≡ true → all_codes p (trim_start s) ≡ true
  unfolding all_codes trim_start
  all_codes-trim_start [] h = refl
  all_codes-trim_start (c ∷ s) h = ground (arith, all_codes-trim_start s)

  all_codes-trim_end : (s : String) → all_codes p s ≡ true → all_codes p (trim_end s) ≡ true
  unfolding all_codes trim_end
  all_codes-trim_end [] h = refl
  all_codes-trim_end (c ∷ s) h = elim (Bool-cases (is_space (code c) && trim_end s == "")) [
    | inl bare ↦ rw bare refl
    | inr kept ↦ rw kept (ground (arith, all_codes-trim_end s))
  ]

  pub all_codes-trim : (s : String) → all_codes p s ≡ true → all_codes p (trim s) ≡ true
  unfolding trim
  all_codes-trim s h = all_codes-trim_end (trim_start s) (all_codes-trim_start s h)

  module _ (dense : (n : ℕ) → p n ≡ true → is_space n ≡ false) where
    trim_start_dense : (s : String) → all_codes p s ≡ true → trim_start s ≡ s
    unfolding all_codes trim_start
    trim_start_dense [] h = refl
    trim_start_dense (c ∷ s) h = ground (arith, dense (code c))

    trim_end_dense : (s : String) → all_codes p s ≡ true → trim_end s ≡ s
    unfolding all_codes trim_end
    trim_end_dense [] h = refl
    trim_end_dense (c ∷ s) h = ground (arith, dense (code c), trim_end_dense s)

    -- A text without white space stays.
    pub trim_dense : (s : String) → all_codes p s ≡ true → trim s ≡ s
    unfolding trim
    trim_dense s h = ground (arith, trim_start_dense s h, trim_end_dense s h)

abbrev starts_dense : String → Bool
starts_dense [] = true
starts_dense (c ∷ s) = not (is_space (code c))

trim_start_starts : (s : String) → starts_dense (trim_start s) ≡ true
unfolding trim_start
trim_start_starts [] = refl
trim_start_starts (c ∷ s) = ground (arith, trim_start_starts s)

trim_end_starts : (s : String) → starts_dense s ≡ true → starts_dense (trim_end s) ≡ true
unfolding trim_end
trim_end_starts [] h = refl
trim_end_starts (c ∷ s) h =
    let dense_here : is_space (code c) ≡ false = ground arith in rw dense_here (ground arith)

trim_start_same : (s : String) → starts_dense s ≡ true → trim_start s ≡ s
unfolding trim_start
trim_start_same [] h = refl
trim_start_same (c ∷ s) h =
    let dense_here : is_space (code c) ≡ false = ground arith in rw dense_here refl

trim_end_twice : (s : String) → trim_end (trim_end s) ≡ trim_end s
unfolding trim_end
trim_end_twice [] = refl
trim_end_twice (c ∷ s) = elim (Bool-cases (is_space (code c) && trim_end s == "")) [
  | inl bare ↦ rw bare refl
  | inr kept ↦
      let again : (is_space (code c) && trim_end (trim_end s) == "") ≡ false =
        rw (trim_end_twice s) kept in
      rw kept (rw again (rw (trim_end_twice s) refl))
]

-- Trimming is done once and for all.
pub trim_twice : (s : String) → trim (trim s) ≡ trim s
unfolding trim
trim_twice s =
    rw
      (trim_start_same (trim_end (trim_start s))
        (trim_end_starts (trim_start s) (trim_start_starts s)))
      (trim_end_twice (trim_start s))

pub trim_nil : trim "" ≡ ""
unfolding trim trim_start trim_end
trim_nil = refl

-- ===== src/Common/Text/Folded.antt =====
-- Comparison of texts up to the case of letters is an equivalence.
use Prim.Native.String.{String, [], ◌∷◌}
use mathlib.Core.Path.{◌≡◌, refl}
use mathlib.Core.Bool.{true}
use native.Mathlib.Omega.{arith}
use jhaz_imprints.Common.Text.{same_folded}

pub same_folded_refl : (s : String) → same_folded s s ≡ true
unfolding same_folded
same_folded_refl [] = refl
same_folded_refl (c ∷ s) = ground (arith, same_folded_refl s)

pub same_folded_comm : (s t : String) → same_folded s t ≡ same_folded t s
unfolding same_folded
same_folded_comm [] [] = refl
same_folded_comm [] (d ∷ t) = refl
same_folded_comm (c ∷ s) [] = refl
same_folded_comm (c ∷ s) (d ∷ t) = ground (arith, same_folded_comm s t)

-- Texts that are the same up to case compare alike with any third text.
pub same_folded_left : (s t u : String) → same_folded s t ≡ true → same_folded s u ≡ same_folded t u
unfolding same_folded
same_folded_left [] [] u h = refl
same_folded_left [] (d ∷ t) u h = cc
same_folded_left (c ∷ s) [] u h = cc
same_folded_left (c ∷ s) (d ∷ t) [] h = refl
same_folded_left (c ∷ s) (d ∷ t) (e ∷ u) h = ground (arith, same_folded_left s t u)

pub same_folded-nil : (s : String) → same_folded "" s ≡ true → s ≡ ""
unfolding same_folded
same_folded-nil [] h = refl
same_folded-nil (c ∷ s) h = cc

-- ===== src/Common/Streams.antt =====
-- Redis streams of a bounded length.
use Prim.Native.Nat.{ℕ, zero, suc, ◌-◌, ◌≤◌}
use mathlib.Core.Path.{◌≡◌, ap}
use mathlib.Core.List.{List, [], ◌∷◌}
use native.Mathlib.Omega.{arith}
use jhaz_imprints.Common.Tests.{if◌then◌else◌, ltb}
use jhaz_imprints.Common.Rows.{length}

module _ {ℓ} {A : Type ℓ} where
  evict : ℕ → List A → List A
  evict zero xs = xs
  evict (suc n) [] = []
  evict (suc n) (x ∷ xs) = evict n xs

  -- What a Redis stream keeps after XADD with MAXLEN ~ `cap`: it may let go of its oldest entries,
  -- as many as it likes, while `cap` are left.
  unfoldable pub capped : (cap trims : ℕ) → List A → List A
  unfolding evict
  capped cap trims xs = evict (if ltb trims (length xs - cap) then trims else length xs - cap) xs

  pub capped_short : (cap trims : ℕ) (xs : List A) → length xs ≤ cap → capped cap trims xs ≡ xs
  unfolding capped evict
  capped_short cap trims xs h =
      let none_over : length xs - cap ≡ 0 = omega arith in
      let none_gone : (if ltb trims (length xs - cap) then trims else length xs - cap) ≡ 0 =
        ground (arith, none_over) in
      ap (λ n. evict n xs) none_gone

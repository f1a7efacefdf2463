-- ===== src/Common/Text/Decimal.antt =====
-- The decimal text of a number: what it is made of, and that reading it gives the number back.
use Prim.Native.Nat.{ℕ, zero, suc, ◌+◌, ◌-◌, ◌*◌, ◌/◌, ◌%◌, ◌≤◌, ◌<◌}
use Prim.Native.Char.{code}
use Prim.Native.String.{String, [], ◌∷◌}
use Prim.Native.String
use text.Mathlib.TextLemmas.{nil-append, cons-append}
use mathlib.Core.Path.{◌≡◌, refl, ◌∙◌, ap}
use mathlib.Core.Logic.{inl, inr}
use mathlib.Core.Bool.{Bool, true, false}
use mathlib.Core.Option.{some}
use native.Mathlib.Omega.{arith}
use jhaz_imprints.Common.Tests.{Bool-cases, ltb}
use jhaz_imprints.Common.Text.{decimal, digits, digit, digits_value, digits_read, is_digit}
use jhaz_imprints.Common.Text.Trimmed.{all_codes}

all_codes-concat :
    (p : ℕ → Bool) (s t : String)
    → all_codes p s ≡ true
    → all_codes p t ≡ true
    → all_codes p (String.◌++◌ s t) ≡ true
unfolding all_codes
all_codes-concat p [] t hs ht = rw (nil-append t) ht
all_codes-concat p (c ∷ s) t hs ht = rw (cons-append c s t) (ground (arith, all_codes-concat p s t))

digit-digits : (n : ℕ) → all_codes is_digit (digit n) ≡ true
unfolding all_codes
digit-digits zero = refl
digit-digits (suc zero) = refl
digit-digits (suc (suc zero)) = refl
digit-digits (suc (suc (suc zero))) = refl
digit-digits (suc (suc (suc (suc zero)))) = refl
digit-digits (suc (suc (suc (suc (suc zero))))) = refl
digit-digits (suc (suc (suc (suc (suc (suc zero)))))) = refl
digit-digits (suc (suc (suc (suc (suc (suc (suc zero))))))) = refl
digit-digits (suc (suc (suc (suc (suc (suc (suc (suc zero)))))))) = refl
digit-digits (suc (suc (suc (suc (suc (suc (suc (suc (suc n))))))))) = refl

digits-all : (fuel n : ℕ) → all_codes is_digit (digits fuel n) ≡ true
unfolding digits
digits-all zero n = digit-digits n
digits-all (suc fuel) n = elim (Bool-cases (ltb n 10)) [
  | inl short ↦ rw short (digit-digits n)
  | inr long ↦ rw long (
      all_codes-concat is_digit (digits fuel (n / 10)) (digit (n % 10)) (digits-all fuel (n / 10))
        (digit-digits (n % 10)))
]

pub decimal-digits : (n : ℕ) → all_codes is_digit (decimal n) ≡ true
unfolding decimal
decimal-digits n = digits-all n n

digits_value-concat :
    (a : ℕ) (s t : String)
    → all_codes is_digit s ≡ true
    → digits_value a (String.◌++◌ s t) ≡ digits_value (digits_value a s) t
unfolding digits_value all_codes
digits_value-concat a [] t h = ap (digits_value a) (nil-append t)
digits_value-concat a (c ∷ s) t h =
    rw (cons-append c s t) (ground (arith, digits_value-concat (10 * a + (code c - b'0')) s t))

digits_value-digit : (a n : ℕ) → n < 10 → digits_value a (digit n) ≡ 10 * a + n
unfolding digits_value
digits_value-digit a zero h = omega arith
digits_value-digit a (suc zero) h = omega arith
digits_value-digit a (suc (suc zero)) h = omega arith
digits_value-digit a (suc (suc (suc zero))) h = omega arith
digits_value-digit a (suc (suc (suc (suc zero)))) h = omega arith
digits_value-digit a (suc (suc (suc (suc (suc zero))))) h = omega arith
digits_value-digit a (suc (suc (suc (suc (suc (suc zero)))))) h = omega arith
digits_value-digit a (suc (suc (suc (suc (suc (suc (suc zero))))))) h = omega arith
digits_value-digit a (suc (suc (suc (suc (suc (suc (suc (suc zero)))))))) h = omega arith
digits_value-digit a (suc (suc (suc (suc (suc (suc (suc (suc (suc zero))))))))) h = omega arith
digits_value-digit a (suc (suc (suc (suc (suc (suc (suc (suc (suc (suc n)))))))))) h = ground arith

digits_value-digits : (fuel n : ℕ) → n ≤ fuel → digits_value 0 (digits fuel n) ≡ n
unfolding digits
digits_value-digits zero n h = digits_value-digit 0 n (omega arith) ∙ omega arith
digits_value-digits (suc fuel) n h = elim (Bool-cases (ltb n 10)) [
  | inl short ↦ rw short (digits_value-digit 0 n (ground arith) ∙ omega arith)
  | inr long ↦
      let big : 10 ≤ n = ground arith in
      rw
        (
          long,
          digits_value-concat 0 (digits fuel (n / 10)) (digit (n % 10)) (digits-all fuel (n / 10)),
          digits_value-digits fuel (n / 10) (omega arith),
          digits_value-digit (n / 10) (n % 10) (omega arith),
        )
        (omega arith)
]

pub digits_value-decimal : (n : ℕ) → digits_value 0 (decimal n) ≡ n
unfolding decimal
digits_value-decimal n = digits_value-digits n n (omega arith)

-- The text of a number starts with a digit.
starts_digit : String → Bool
starts_digit [] = false
starts_digit (c ∷ s) = is_digit (code c)

starts_digit-concat : (s t : String) → starts_digit s ≡ true → starts_digit (String.◌++◌ s t) ≡ true
unfolding starts_digit
starts_digit-concat [] t h = ground arith
starts_digit-concat (c ∷ s) t h = rw (cons-append c s t) h

starts_digit-digit : (n : ℕ) → starts_digit (digit n) ≡ true
unfolding starts_digit
starts_digit-digit zero = refl
starts_digit-digit (suc zero) = refl
starts_digit-digit (suc (suc zero)) = refl
starts_digit-digit (suc (suc (suc zero))) = refl
starts_digit-digit (suc (suc (suc (suc zero)))) = refl
starts_digit-digit (suc (suc (suc (suc (suc zero))))) = refl
starts_digit-digit (suc (suc (suc (suc (suc (suc zero)))))) = refl
starts_digit-digit (suc (suc (suc (suc (suc (suc (suc zero))))))) = refl
starts_digit-digit (suc (suc (suc (suc (suc (suc (suc (suc zero)))))))) = refl
starts_digit-digit (suc (suc (suc (suc (suc (suc (suc (suc (suc n))))))))) = refl

starts_digit-digits : (fuel n : ℕ) → starts_digit (digits fuel n) ≡ true
unfolding digits
starts_digit-digits zero n = starts_digit-digit n
starts_digit-digits (suc fuel) n = elim (Bool-cases (ltb n 10)) [
  | inl short ↦ rw short (starts_digit-digit n)
  | inr long ↦ rw long (
      starts_digit-concat (digits fuel (n / 10)) (digit (n % 10))
        (starts_digit-digits fuel (n / 10)))
]

digits_read-starts : (s : String) → starts_digit s ≡ true → digits_read s ≡ some (digits_value 0 s)
unfolding starts_digit digits_read
digits_read-starts [] h = ground arith
digits_read-starts (c ∷ s) h = ground arith

pub digits_read-decimal : (n : ℕ) → digits_read (decimal n) ≡ some n
unfolding decimal
digits_read-decimal n =
    digits_read-starts (decimal n) (starts_digit-digits n n) ∙ ap some (digits_value-decimal n)

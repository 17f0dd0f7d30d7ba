-- ===== src/Common/Numerals.antt =====
-- Decimal numerals: what `int()` reads of what `str()` writes.
use Prim.Native.Char.{code}
use Prim.Native.String.{String, char_at}
use interview_analytics_agen.Common.Tests.{leb, leb→le, Bool-cases}
use interview_analytics_agen.Common.Text.{digits, decimal, number}
use Prim.Native.Nat.{ℕ, zero, suc, ◌-◌, ◌/◌, ◌%◌, ◌<◌}
use mathlib.Core.Path.{◌≡◌, refl, ap, ◌∙◌}
use mathlib.Core.Logic.{inl, inr}
use native.Mathlib.Omega.{arith}

-- A decimal digit's character.
digit-code : (d : ℕ) → d < 10 → code (char_at "0123456789" d) - b'0' ≡ d
digit-code zero h = refl
digit-code (suc zero) h = refl
digit-code (suc (suc zero)) h = refl
digit-code (suc (suc (suc zero))) h = refl
digit-code (suc (suc (suc (suc zero)))) h = refl
digit-code (suc (suc (suc (suc (suc zero))))) h = refl
digit-code (suc (suc (suc (suc (suc (suc zero)))))) h = refl
digit-code (suc (suc (suc (suc (suc (suc (suc zero))))))) h = refl
digit-code (suc (suc (suc (suc (suc (suc (suc (suc zero)))))))) h = refl
digit-code (suc (suc (suc (suc (suc (suc (suc (suc (suc zero))))))))) h = refl
digit-code (suc (suc (suc (suc (suc (suc (suc (suc (suc (suc d)))))))))) h = absurd (omega arith)

number-digits :
    (fuel n : ℕ) (rest : String) → n < fuel → number 0 (digits fuel n rest) ≡ number n rest
unfolding number digits
number-digits zero n rest h = absurd (omega arith)
number-digits (suc fuel) n rest h =
    let d = char_at "0123456789" (n % 10) in
    let read : code d - b'0' ≡ n % 10 = digit-code (n % 10) (omega arith) in
    elim (Bool-cases (leb 10 n)) [
      | inl big ↦ rw big (
          number-digits fuel (n / 10) (String.◌∷◌ d rest) (omega (arith, leb→le 10 n big))
          ∙ ap (λ m. number m rest) (omega (arith, read)))
      | inr small ↦ rw small (ap (λ m. number m rest) (ground (arith, read)))
    ]

pub number-decimal : (n : ℕ) → number 0 (decimal n) ≡ n
unfolding decimal number
number-decimal n = number-digits (suc n) n "" (omega arith)

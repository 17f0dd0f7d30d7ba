-- ===== src/Processing/Millionths.antt =====
-- An instance of the floating-point numbers, for the tests: millionths, and one number that stands
-- for all that lies below zero.
use interview_analytics_agen.Common.{
  ℕ, zero, suc, ◌+◌, ◌-◌, ◌*◌, ◌/◌, ◌≤◌, Bool, true, false, Option, none, some, List, [], ◌∷◌, leb,
  ltb, nat_eq, if◌then◌else◌, number, decimal, ◌≡◌, refl, ap, arith, leb→le,
}
use interview_analytics_agen.Common.Numerals.{number-decimal}
use interview_analytics_agen.Common.Value.{Value, scalar}
use interview_analytics_agen.Common.Floats.{Floats, IsOrdered}

abbrev pub Millionths : Type 0
Millionths = Option ℕ

-- Some digits further to the right.
abbrev shifted : ℕ → ℕ → ℕ
shifted a zero = a
shifted a (suc k) = shifted (a / 10) k

abbrev cut : ℕ → ℕ → ℕ
cut zero a = a
cut (suc j) a = cut j (a / 10) * 10

abbrev both : (ℕ → ℕ → Option ℕ) → Millionths → Millionths → Millionths
both g (some a) (some b) = g a b
both g _ _ = none

abbrev le_millionths : Millionths → Millionths → Bool
le_millionths none y = true
le_millionths (some a) none = false
le_millionths (some a) (some b) = leb a b

abbrev add_millionths : Millionths → Millionths → Millionths
add_millionths = both λ a b. some (a + b)

abbrev sum_millionths : List Millionths → Millionths
sum_millionths [] = some 0
sum_millionths (x ∷ xs) = add_millionths x (sum_millionths xs)

abbrev cut_to : ℕ → Millionths → Millionths
cut_to n none = none
cut_to n (some a) = some (cut (6 - n) a)

abbrev read_millionths : Value → Option Millionths
read_millionths (scalar t b) = some (if b then some (number 0 t) else none)
read_millionths _ = none

abbrev write_millionths : Millionths → Value
write_millionths none = scalar "" false
write_millionths (some a) = scalar (decimal a) true

instance abbrev pub millionths_floats : Floats Millionths
millionths_floats = record {
  le = le_millionths;
  literal = λ m k. some (shifted (m * 1000000) k);
  minus_one = none;
  add = add_millionths;
  sub = both λ a b. if ltb a b then none else some (a - b);
  mul = both λ a b. some (a * b / 1000000);
  div = both λ a b. if nat_eq b 0 then none else some (a * 1000000 / b);
  abs = λ x. x;
  sum = sum_millionths;
  round = λ x n. cut_to n x;
  read = read_millionths;
  write = write_millionths;
}

shifted-le : (a b k : ℕ) → a ≤ b → shifted a k ≤ shifted b k
shifted-le a b zero h = h
shifted-le a b (suc k) h = shifted-le (a / 10) (b / 10) k (omega arith)

cut-le : (j a b : ℕ) → a ≤ b → cut j a ≤ cut j b
cut-le zero a b h = h
cut-le (suc j) a b h = omega (arith, cut-le j (a / 10) (b / 10) (omega arith))

cut-shifted : (m k : ℕ) → cut (6 - k) (shifted (m * 1000000) k) ≡ shifted (m * 1000000) k
cut-shifted m zero = omega arith
cut-shifted m (suc zero) = omega arith
cut-shifted m (suc (suc zero)) = omega arith
cut-shifted m (suc (suc (suc zero))) = omega arith
cut-shifted m (suc (suc (suc (suc zero)))) = omega arith
cut-shifted m (suc (suc (suc (suc (suc zero))))) = omega arith
cut-shifted m (suc (suc (suc (suc (suc (suc k)))))) =
    let none_left : 6 - suc (suc (suc (suc (suc (suc k))))) ≡ 0 = omega arith in
    ap (λ j. cut j (shifted (m * 1000000) (suc (suc (suc (suc (suc (suc k)))))))) none_left

leb_le : (a b : ℕ) → a ≤ b → leb a b ≡ true
leb_le a b h = ground arith

round_monotone :
    (x y : Millionths) (n : ℕ)
    → le_millionths x y ≡ true
    → le_millionths (cut_to n x) (cut_to n y) ≡ true
round_monotone none y n h = refl
round_monotone (some a) none n h = h
round_monotone (some a) (some b) n h = leb_le _ _ (cut-le (6 - n) a b (leb→le a b h))

read_written : (x : Millionths) → read_millionths (write_millionths x) ≡ some x
read_written none = refl
read_written (some a) = ap (λ n. some (some n)) (number-decimal a)

pub Millionths-IsOrdered : IsOrdered Millionths
Millionths-IsOrdered = record {
  refl_of_le = ground arith;
  le_trans = ground arith;
  le_total = ground arith;
  literals = λ m n k h. leb_le _ _ (shifted-le (m * 1000000) (n * 1000000) k (omega arith));
  same_literal = λ m k. ap (λ a. some (shifted a k)) (omega arith);
  round_le = round_monotone;
  round_literal = λ m k. ap some (cut-shifted m k);
  read_write = read_written;
}

-- ===== src/Common/Floats.antt =====
-- Python's `float` numbers as the program uses them, an interface: comparisons come from `<=`, and
-- NaN is the value that is not `<=` itself.
use Prim.Native.Nat.{ℕ, suc, ◌*◌, ◌≤◌}
use mathlib.Core.Path.{◌≡◌}
use mathlib.Core.Logic.{◌⊎◌}
use mathlib.Core.Bool.{Bool, true, ◌&&◌, not}
use mathlib.Core.Option.{Option, some}
use mathlib.Core.List.{List}
use native.Mathlib.Omega.{arith}
use interview_analytics_agen.Common.Tests.{if◌then◌else◌}
use interview_analytics_agen.Common.Value.{Value}

pub record Floats (W : Type 0) : Type 0 where
  pub le : W → W → Bool
  -- `literal m k` is the literal of m / 10^k; -1.0 is the program's only other one.
  pub literal : ℕ → ℕ → W
  pub minus_one : W
  pub add : W → W → W
  pub sub : W → W → W
  pub mul : W → W → W
  pub div : W → W → W
  pub abs : W → W
  -- `sum(values)`, whose rounding depends on Python's version.
  pub sum : List W → W
  -- `round(value, digits)`
  pub round : W → ℕ → W
  -- `float(value)` of a document's value, `none` where it raises.
  pub read : Value → Option W
  -- A number in a document.
  pub write : W → Value

-- What Python documents of them: `<=` is a total order of the numbers, `round` keeps it and does
-- not touch a literal that has no more digits, and a number read back is the number.
pub record IsOrdered (W : Type 0) ⦃f : Floats W⦄ : Type 0 where
  pub refl_of_le : (x y : W) → f.le x y ≡ true → (f.le x x ≡ true) × (f.le y y ≡ true)
  pub le_trans : (x y z : W) → f.le x y ≡ true → f.le y z ≡ true → f.le x z ≡ true
  pub le_total :
      (x y : W) → f.le x x ≡ true → f.le y y ≡ true → (f.le x y ≡ true) ⊎ (f.le y x ≡ true)
  pub literals : (m n k : ℕ) → m ≤ n → f.le (f.literal m k) (f.literal n k) ≡ true
  pub same_literal : (m k : ℕ) → f.literal (m * 10) (suc k) ≡ f.literal m k
  pub round_le : (x y : W) (n : ℕ) → f.le x y ≡ true → f.le (f.round x n) (f.round y n) ≡ true
  pub round_literal : (m k : ℕ) → f.round (f.literal m k) k ≡ f.literal m k
  pub read_write : (x : W) → f.read (f.write x) ≡ some x

module _ {W : Type 0} ⦃f : Floats W⦄ where
  -- `x < y`, `x == y`
  abbrev pub lt : W → W → Bool
  lt x y = f.le x y && not (f.le y x)

  abbrev pub eq : W → W → Bool
  eq x y = f.le x y && f.le y x

  -- `max(x, y)` and `min(x, y)`: the first one unless the second is beyond it.
  abbrev pub maximum : W → W → W
  maximum x y = if lt x y then y else x

  abbrev pub minimum : W → W → W
  minimum x y = if lt y x then y else x

  -- A number of the ints, `0.0` and `1.0`.
  abbrev pub of_nat : ℕ → W
  of_nat n = f.literal n 0

  abbrev pub nought : W
  nought = of_nat 0

  -- `x or y`
  abbrev pub or_else : W → W → W
  or_else x y = if eq x nought then y else x

  -- `max(low, min(high, x))` lies between its bounds, whatever x is, NaN included.
  pub clamp-le :
      (low high x : W)
      → f.le low high ≡ true
      → f.le high high ≡ true
      → f.le (maximum low (minimum high x)) high ≡ true
  clamp-le low high x h r = ground arith

  pub le-clamp :
      (low high x : W) → f.le low low ≡ true → f.le low (maximum low (minimum high x)) ≡ true
  le-clamp low high x r = ground arith

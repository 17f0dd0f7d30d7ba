-- ===== src/Common/Int.antt =====
-- Integers of the settings, which may be negative.
use Prim.Native.Nat.{ℕ, suc, max}
use interview_analytics_agen.Common.Tests.{◌==◌ as nat_eq, if◌then◌else◌}

-- `negsuc n` is -(n + 1).
pub data ℤ : Type 0 where
  pos : ℕ → ℤ
  negsuc : ℕ → ℤ

-- `max(0, n)`
abbrev pub pos_part : ℤ → ℕ
pos_part (pos n) = n
pos_part (negsuc n) = 0

-- `max(low, n)` for a low bound that is not negative.
abbrev pub at_least : ℕ → ℤ → ℕ
at_least low n = max low (pos_part n)

-- `max(1, n + 1)`
abbrev pub rounds : ℤ → ℕ
rounds (pos n) = suc n
rounds (negsuc n) = 1

-- `n or default`
abbrev pub or_default : ℤ → ℤ → ℤ
or_default (pos n) d = if nat_eq n 0 then d else pos n
or_default (negsuc n) d = negsuc n

-- ===== src/Common/Int.antt =====
-- Signed integers over the native numbers, and words read as two's complement.
use Prim.Native.Nat.{ℕ, zero, suc, ◌+◌, ◌-◌, ◌<◌, ◌^◌}
use mathlib.Core.Path.{◌≡◌}
use mathlib.Core.Logic.{◌⊎◌}
use native.Mathlib.Omega.{arith}
use high_performance_logger.Common.Tests.{ltb, leb, if◌then◌else◌}

-- `negsuc n` is -(n + 1).
pub data ℤ : Type 0 where
  pos : ℕ → ℤ
  negsuc : ℕ → ℤ

abbrev pub pos_part : ℤ → ℕ
pos_part (pos n) = n
pos_part (negsuc n) = 0

abbrev pub neg_part : ℤ → ℕ
neg_part (pos n) = 0
neg_part (negsuc n) = suc n

abbrev pub sub_ℕ : ℕ → ℕ → ℤ
sub_ℕ a b = if leb b a then pos (a - b) else negsuc (b - a - 1)

infixl 65 ◌-ℤ◌
unfoldable pub ◌-ℤ◌ : ℤ → ℤ → ℤ
a -ℤ b = sub_ℕ (pos_part a + neg_part b) (neg_part a + pos_part b)

-- `static_cast<std::intptr_t>(word)` on a 64-bit word.
abbrev pub signed64 : ℕ → ℤ
signed64 w = if ltb w (2 ^ 63) then pos w else negsuc (2 ^ 64 - w - 1)

pub data Sign : Type 0 where
  negative nothing positive : Sign

abbrev pub sign : ℤ → Sign
sign (pos zero) = nothing
sign (pos (suc n)) = positive
sign (negsuc n) = negative

-- The sign of `static_cast<intptr_t>(a) - static_cast<intptr_t>(b)`.
unfoldable pub diff_sign : ℕ → ℕ → Sign
unfolding ◌-ℤ◌
diff_sign a b = sign (signed64 a -ℤ signed64 b)

-- Below 2 ^ 63 the difference of two words has the sign of their order.
pub diff_sign-cases :
    (a b : ℕ)
    → a < 2 ^ 63
    → b < 2 ^ 63
    → ((a ≡ b) × (diff_sign a b ≡ nothing))
      ⊎ ((a < b) × (diff_sign a b ≡ negative))
      ⊎ ((b < a) × (diff_sign a b ≡ positive))
unfolding diff_sign
diff_sign-cases a b ha hb = ground arith

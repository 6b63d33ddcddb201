-- ===== src/Common/Bits.antt =====
-- Laws of `&` and `|` on native numbers: a mask of low ones is a remainder.
use Prim.Native.Nat.{
  ℕ, zero, suc, ◌+◌, ◌-◌, ◌*◌, ◌/◌, ◌%◌, ◌^◌, ◌≤◌, ◌<◌, min, max, bit_and, bit_or, digits,
  bit_and-bitwise, bit_or-bitwise,
}
use mathlib.Core.Path.{◌≡◌, refl, ap, ◌∙◌}
use native.Mathlib.Nat.{
  pow-suc, pow-succ', one-le-pow, add-mul-mod_self_left, mod-eq_of_lt, mod-lt, div-add-mod,
}
use native.Mathlib.Omega.{arith}

-- Both operations are one recursion on the digits, so their laws are proved once.
module _ (z : ℕ → ℕ) (f : ℕ → ℕ → ℕ) where
  -- Any count of digits that covers the first number gives one result.
  digits_enough : (n m a b : ℕ) → a ≤ n → a ≤ m → digits z f n a b ≡ digits z f m a b
  digits_enough zero zero a b p q = refl
  digits_enough zero (suc m) zero b p q = refl
  digits_enough zero (suc m) (suc a) b p q = absurd (omega arith)
  digits_enough (suc n) zero zero b p q = refl
  digits_enough (suc n) zero (suc a) b p q = absurd (omega arith)
  digits_enough (suc n) (suc m) zero b p q = refl
  digits_enough (suc n) (suc m) (suc a) b p q =
      omega (arith, digits_enough n m (suc a / 2) (b / 2) (omega arith) (omega arith))

-- The lowest digit of `a & b`, and the rest.
pub bit_and_step : (a b : ℕ) → bit_and a b ≡ bit_and (a / 2) (b / 2) * 2 + min (a % 2) (b % 2)
bit_and_step zero b = omega (arith, bit_and-bitwise 0 b, bit_and-bitwise 0 (b / 2))
bit_and_step (suc a) b = omega (
  arith,
  bit_and-bitwise (suc a) b,
  bit_and-bitwise (suc a / 2) (b / 2),
  digits_enough (λ _. zero) min a (suc a / 2) (suc a / 2) (b / 2) (omega arith) (omega arith),
)

-- The lowest digit of `a | b`, and the rest.
pub bit_or_step : (a b : ℕ) → bit_or a b ≡ bit_or (a / 2) (b / 2) * 2 + max (a % 2) (b % 2)
bit_or_step zero b = omega (arith, bit_or-bitwise 0 b, bit_or-bitwise 0 (b / 2))
bit_or_step (suc a) b = omega (
  arith,
  bit_or-bitwise (suc a) b,
  bit_or-bitwise (suc a / 2) (b / 2),
  digits_enough (λ n. n) max a (suc a / 2) (suc a / 2) (b / 2) (omega arith) (omega arith),
)

bit_and-zero_below : (n a : ℕ) → a ≤ n → bit_and a 0 ≡ 0
bit_and-zero_below n zero h = refl
bit_and-zero_below zero (suc a) h = absurd (omega arith)
bit_and-zero_below (suc n) (suc a) h =
    omega (arith, bit_and_step (suc a) 0, bit_and-zero_below n (suc a / 2) (omega arith))

mod_double : (a p : ℕ) → 0 < p → a % (2 * p) ≡ a / 2 % p * 2 + a % 2
mod_double a p h =
    ap (λ (t : ℕ). t % (2 * p)) split
    ∙ (add-mul-mod_self_left (a / 2 % p * 2 + a % 2) (2 * p) (a / 2 / p)
        ∙ mod-eq_of_lt (omega (arith, mod-lt (a / 2) h)))
  where
    split : a ≡ a / 2 % p * 2 + a % 2 + 2 * p * (a / 2 / p)
    split = omega (arith, div-add-mod (a / 2) p)

-- `a & (2 ^ k - 1)` is the remainder by `2 ^ k`.
pub bit_and-ones : (k a : ℕ) → bit_and a (2 ^ k - 1) ≡ a % 2 ^ k
bit_and-ones zero a = omega (arith, bit_and-zero_below a a (omega arith))
bit_and-ones (suc k) a = omega (
  arith,
  bit_and_step a (2 ^ suc k - 1),
  bit_and-ones k (a / 2),
  pow-suc 2 k,
  one-le-pow k 2,
  mod_double a (2 ^ k) (one-le-pow k 2 (omega arith)),
  ap (λ (t : ℕ). a % t) (pow-succ' 2 k),
  ap (λ (t : ℕ). bit_and (a / 2) t) half,
)
  where
    half : (2 ^ suc k - 1) / 2 ≡ 2 ^ k - 1
    half = omega (arith, pow-suc 2 k, one-le-pow k 2)

bit_or-zero_below : (n a : ℕ) → a ≤ n → bit_or a 0 ≡ a
bit_or-zero_below n zero h = refl
bit_or-zero_below zero (suc a) h = absurd (omega arith)
bit_or-zero_below (suc n) (suc a) h =
    omega (arith, bit_or_step (suc a) 0, bit_or-zero_below n (suc a / 2) (omega arith))

pub bit_or-zero : (a : ℕ) → bit_or a 0 ≡ a
bit_or-zero a = bit_or-zero_below a a (omega arith)

pub pow-add : (a b : ℕ) → 2 ^ (a + b) ≡ 2 ^ a * 2 ^ b
pow-add a zero = ap (λ (n : ℕ). 2 ^ n) {y = a} (omega arith) ∙ omega arith
pow-add a (suc b) =
    ap (λ (n : ℕ). 2 ^ n) {y = suc (a + b)} (omega arith)
    ∙ omega (arith, pow-suc 2 (a + b), pow-add a b, ap (λ (n : ℕ). 2 ^ a * n) (pow-suc 2 b))

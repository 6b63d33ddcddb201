-- ===== src/Ring/Index.antt =====
-- Slots of a ring of `2 ^ k` cells: `position & mask_` is the position modulo the capacity.
use Prim.Native.Nat.{bit_and}
use native.Mathlib.Nat.{
  add-mod_right, mod-lt, mod-eq_of_lt, div-add-mod, one-le-pow, mul-le-mul_left,
}
use high_performance_logger.Common.{
  ℕ, ◌+◌, ◌-◌, ◌*◌, ◌/◌, ◌%◌, ◌^◌, ◌≤◌, ◌<◌, ◌≡◌, ap, arith, ◌∙◌, sym, dec_lt,
}
use high_performance_logger.Common.Bits.{bit_and-ones}

quotients_le : (c p q : ℕ) → c * q < c * p + c → q ≤ p
quotients_le c p q h = grind (arith, mul-le-mul_left)

-- Two positions in one slot, less than a round apart, are one.
mod-injective : (c p q : ℕ) → p ≤ q → q < p + c → p % c ≡ q % c → p ≡ q
mod-injective c p q h l e =
    omega (arith, div-add-mod p c, div-add-mod q c, ap (λ (t : ℕ). c * t) same, e)
  where
    same : p / c ≡ q / c
    same = omega (
      arith,
      quotients_le c (q / c) (p / c) (omega (arith, div-add-mod p c, div-add-mod q c)),
      quotients_le c (p / c) (q / c) (omega (arith, div-add-mod p c, div-add-mod q c)),
    )

module _ (k : ℕ) where
  -- The slot of a position, as `bit_and position mask_` computes it.
  abbrev pub slot : ℕ → ℕ
  slot p = bit_and p (2 ^ k - 1)

  pub slot-round : (p : ℕ) → slot (p + 2 ^ k) ≡ slot p
  slot-round p = bit_and-ones k (p + 2 ^ k) ∙ add-mod_right p (2 ^ k) ∙ sym (bit_and-ones k p)

  pub slot-lt : (p : ℕ) → slot p < 2 ^ k
  slot-lt p = omega (arith, bit_and-ones k p, mod-lt p (one-le-pow k 2 (omega arith)))

  pub slot_of_lt : (p : ℕ) → p < 2 ^ k → slot p ≡ p
  slot_of_lt p h = bit_and-ones k p ∙ mod-eq_of_lt h

  pub slot-injective : (p q : ℕ) → p < q + 2 ^ k → q < p + 2 ^ k → slot p ≡ slot q → p ≡ q
  slot-injective p q h l e = elim (dec_lt p q) [
    | yes lt ↦ mod-injective (2 ^ k) p q (omega arith) l same
    | no ge ↦ sym (mod-injective (2 ^ k) q p (omega arith) h (sym same))
  ]
    where
      same : p % 2 ^ k ≡ q % 2 ^ k
      same = sym (bit_and-ones k p) ∙ e ∙ bit_and-ones k q

-- ===== src/Ring/Capacity.antt =====
-- `RoundUpPowerOfTwo`: smearing the top bit downwards gives the least power of two that suffices.
use Prim.Native.Nat.{bit_or}
use native.Mathlib.Nat.{pow-suc, one-le-pow, mul-le-mul_left, pow-le-pow_right, div-add-mod, mod-lt}
use mathlib.Core.Path.{subst₂}
use high_performance_logger.Common.{
  ℕ, zero, suc, ◌+◌, ◌-◌, ◌*◌, ◌/◌, ◌^◌, ◌≤◌, ◌<◌, ◌≡◌, max, arith, ap, refl, dec_lt, ◌∙◌, ltb,
  if◌then◌else◌,
}
use high_performance_logger.Common.Word.{add64}
use high_performance_logger.Common.Bits.{bit_or_step, bit_or-zero, pow-add}
use high_performance_logger.Ring.{smear, round_up_power_of_two}

record OrBounds (w a b : ℕ) : Type 0 where
  below : bit_or a b < 2 ^ w
  left : a ≤ bit_or a b
  right : b ≤ bit_or a b

or_bounds : (w a b : ℕ) → a < 2 ^ w → b < 2 ^ w → OrBounds w a b
or_bounds zero a b h l = ground (
  arith,
  ap (λ (t : ℕ). bit_or t b) {x = a} {y = 0} (omega arith),
  ap (λ (t : ℕ). bit_or 0 t) {x = b} {y = 0} (omega arith),
)
or_bounds (suc w) a b h l = omega (
  arith,
  bit_or_step a b,
  pow-suc 2 w,
  or_bounds w (a / 2) (b / 2) (omega (arith, pow-suc 2 w)) (omega (arith, pow-suc 2 w)),
)

-- Digits above `w` are not touched by a number below `2 ^ w`.
or_high : (w h a b : ℕ) → a < 2 ^ w → b < 2 ^ w → bit_or (h * 2 ^ w + a) b ≡ h * 2 ^ w + bit_or a b
or_high zero h a b p q = ground (
  arith,
  bit_or-zero (h * 1 + a),
  bit_or-zero a,
  ap (λ (t : ℕ). bit_or (h * 1 + a) t) {x = b} {y = 0} (omega arith),
  ap (λ (t : ℕ). bit_or a t) {x = b} {y = 0} (omega arith),
)
or_high (suc w) h a b p q = omega (
  arith,
  bit_or_step (h * 2 ^ suc w + a) b,
  bit_or_step a b,
  pow-suc 2 w,
  twice,
  ap (λ (t : ℕ). bit_or t (b / 2)) halved,
  or_high w h (a / 2) (b / 2) (omega (arith, pow-suc 2 w)) (omega (arith, pow-suc 2 w)),
)
  where
    twice : h * 2 ^ suc w ≡ h * 2 ^ w * 2
    twice = omega (arith, ap (λ (t : ℕ). h * t) (pow-suc 2 w))

    halved : (h * 2 ^ suc w + a) / 2 ≡ h * 2 ^ w + a / 2
    halved = omega (arith, twice)

-- Of `m` bits all but the lowest `d` are ones.
record Ones (m d a : ℕ) : Type 0 where
  below : a < 2 ^ m
  high : 2 ^ m ≤ a + 2 ^ d

-- The rounds after the last zero has gone change nothing.
smear_full : (m t a : ℕ) → Ones m 0 a → Ones m 0 (smear t a)
unfolding smear
smear_full m t a o =
    let b : OrBounds m a (a / 2 ^ t) = or_bounds m a (a / 2 ^ t) o.below (omega (arith, o.below)) in
    omega (arith, o.high, b.below, b.left)

-- With the top `t` of `t + d` bits set, a number is a multiple of `2 ^ d` and a rest.
record Split (t d a : ℕ) : Type 0 where
  rest : ℕ
  fits : rest < 2 ^ d
  whole : a ≡ (2 ^ t - 1) * 2 ^ d + rest

pred-mul : (p q : ℕ) → 1 ≤ p → (p - 1) * q + q ≡ p * q
pred-mul zero q h = absurd (omega arith)
pred-mul (suc p) q h = omega (arith, ap (λ (t : ℕ). t * q) {x = suc p - 1} {y = p} (omega arith))

Split-Ones : (t d a : ℕ) → Ones (t + d) d a → Split t d a
Split-Ones t d a o = record {
  rest = a - (2 ^ t - 1) * 2 ^ d;
  fits = omega (arith, facts, pow-add t d, o.below);
  whole = omega (arith, facts, pow-add t d, o.high);
}
  where
    facts : (2 ^ t - 1) * 2 ^ d + 2 ^ d ≡ 2 ^ t * 2 ^ d
    facts = pred-mul (2 ^ t) (2 ^ d) (one-le-pow t 2 (omega arith))

-- The quotient of a number just below `p * q` by `p` is just below `q`.
quotient_below : (p q b a : ℕ) → p * b ≤ a → a < p * q → b < q
quotient_below p q b a h l = grind (arith, mul-le-mul_left)

quotient_high : (p q r b a : ℕ) → q ≤ p * r → a < p * b + p → p * q ≤ a + q → q ≤ b + r
quotient_high p q r b a s l h = elim (dec_lt (b + r) q) [
  | yes small ↦ absurd (omega (arith, scaled small, product))
  | no big ↦ omega arith
]
  where
    scaled : b + r < q → p * (b + r + 1) ≤ p * q
    scaled small = mul-le-mul_left p (omega (arith, small))

    product : p * (b + r + 1) ≡ p * b + p * r + p
    product = omega arith

-- The remaining zeros after a round: twice as many ones, or none left.
step_size : (t d : ℕ) → 2 ^ d ≤ 2 ^ t * 2 ^ (d - t)
step_size t d = elim (dec_lt t d) [
  | yes below ↦
      omega
        (arith, pow-add t (d - t), ap (λ (n : ℕ). 2 ^ n) {x = t + (d - t)} {y = d} (omega arith))
  | no above ↦ omega (
    arith,
    pow-le-pow_right {n = 2} (omega arith) {i = d} {j = t} (omega arith),
    ap (λ (n : ℕ). 2 ^ t * 2 ^ n) {x = d - t} {y = 0} (omega arith),
  )
]

smear-Ones : (t d a : ℕ) → Ones (t + d) d a → Ones (t + d) (d - t) (smear t a)
unfolding smear
smear-Ones t d a o = omega (
  arith,
  whole,
  b.below,
  b.right,
  quotient_high (2 ^ t) (2 ^ d) (2 ^ (d - t)) (a / 2 ^ t) a (step_size t d) under
      (omega (arith, o.high, pow-add t d)),
  pow-add t d,
  pred-mul (2 ^ t) (2 ^ d) (one-le-pow t 2 (omega arith)),
)
  where
    s : Split t d a
    s = Split-Ones t d a o

    under : a < 2 ^ t * (a / 2 ^ t) + 2 ^ t
    under = omega (arith, div-add-mod a (2 ^ t), mod-lt a (one-le-pow t 2 (omega arith)))

    small : a / 2 ^ t < 2 ^ d
    small =
        quotient_below (2 ^ t) (2 ^ d) (a / 2 ^ t) a (omega (arith, div-add-mod a (2 ^ t)))
          (omega (arith, o.below, pow-add t d))

    b : OrBounds d s.rest (a / 2 ^ t)
    b = or_bounds d s.rest (a / 2 ^ t) s.fits small

    whole : bit_or a (a / 2 ^ t) ≡ (2 ^ t - 1) * 2 ^ d + bit_or s.rest (a / 2 ^ t)
    whole =
        ap (λ (x : ℕ). bit_or x (a / 2 ^ t)) s.whole
        ∙ or_high d (2 ^ t - 1) s.rest (a / 2 ^ t) s.fits small

Ones-eq : {m m' d d' : ℕ} (a : ℕ) → m ≡ m' → d ≡ d' → Ones m d a → Ones m' d' a
Ones-eq a e f = subst₂ (λ m d. Ones m d a) e f

-- One round of the function, whether or not zeros are left.
smear_round : (m t a : ℕ) → Ones m (m - t) a → Ones m (m - (t + t)) (smear t a)
smear_round m t a o = elim (dec_lt t m) [
  | yes below ↦
      Ones-eq (smear t a) (omega arith) (omega arith)
        (smear-Ones t (m - t) a (Ones-eq a (omega arith) refl o))
  | no above ↦
      Ones-eq (smear t a) refl (omega arith) (smear_full m t a (Ones-eq a refl (omega arith) o))
]

-- The number of binary digits.
digit_count : (k n : ℕ) → 1 ≤ n → n < 2 ^ k → (m : ℕ) × (m < k) × (2 ^ m ≤ n) × (n < 2 ^ suc m)
digit_count zero n h l = absurd (omega (arith, h, l))
digit_count (suc k) n h l = elim (dec_lt n (2 ^ k)) [
  | yes small ↦ let (m, a, b, c) = digit_count k n h small in (m, omega arith, b, c)
  | no big ↦ (k, omega arith, omega arith, l)
]

-- Six rounds set every digit below the highest.
smear_all :
    (m n : ℕ)
    → m ≤ 64
    → 2 ^ m ≤ n + 2 ^ (m - 1)
    → n < 2 ^ m
    → smear 32 (smear 16 (smear 8 (smear 4 (smear 2 (smear 1 n))))) + 1 ≡ 2 ^ m
smear_all m n h top l = omega (arith, last.below, last.high)
  where
    first : Ones m (m - 1) n
    first = record { below = l; high = top }

    rounds : Ones m (m - 64) (smear 32 (smear 16 (smear 8 (smear 4 (smear 2 (smear 1 n))))))
    rounds = smear_round m 32 _ (
        smear_round m 16 _
          (smear_round m 8 _ (smear_round m 4 _ (smear_round m 2 _ (smear_round m 1 n first)))))

    last : Ones m 0 (smear 32 (smear 16 (smear 8 (smear 4 (smear 2 (smear 1 n))))))
    last = Ones-eq _ refl (omega arith) rounds

normalized : (n : ℕ) → (if ltb n 2 then 2 else n) - 1 ≡ max n 2 - 1
normalized n = ground arith

rounded :
    (m n : ℕ)
    → m < 63
    → 2 ^ m ≤ n
    → n < 2 ^ suc m
    → add64 (smear 32 (smear 16 (smear 8 (smear 4 (smear 2 (smear 1 n)))))) 1 ≡ 2 ^ suc m
rounded m n h a b = omega (
  arith,
  smear_all (suc m) n (omega arith) top b,
  pow-le-pow_right {n = 2} (omega arith) {i = suc m} {j = 63} (omega arith),
)
  where
    top : 2 ^ suc m ≤ n + 2 ^ (suc m - 1)
    top = omega (arith, pow-suc 2 m, a, ap (λ (t : ℕ). 2 ^ t) {x = suc m - 1} {y = m} (omega arith))

-- For a request of at most 2 ^ 63 the capacity is the least power of two that is at least the
-- request and at least 2; the addition does not wrap.
pub round_up_least :
    (n : ℕ)
    → n ≤ 2 ^ 63
    → (k : ℕ) × (round_up_power_of_two n ≡ 2 ^ k)
      × (1 ≤ k)
      × (k ≤ 63)
      × (max n 2 ≤ 2 ^ k)
      × (2 ^ k < 2 * max n 2)
unfolding round_up_power_of_two
round_up_least n h =
    let (m, a, b, c) = digit_count 63 (max n 2 - 1) (omega arith) (omega arith) in
    (
      suc m,
      rw (normalized n) (rounded m (max n 2 - 1) a b c),
      omega arith,
      omega arith,
      omega arith,
      omega (arith, pow-suc 2 m),
    )

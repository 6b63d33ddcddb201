-- ===== src/Common/Decimal.antt =====
-- `std::to_chars` in base ten.
use Prim.Native.Nat.{ℕ, zero, suc, ◌+◌, ◌-◌, ◌*◌, ◌/◌, ◌%◌, ◌^◌, ◌≤◌, ◌<◌}
use mathlib.Core.Path.{◌≡◌, refl, ◌∙◌}
use mathlib.Core.List.{List, [], ◌∷◌, ◌++◌}
use mathlib.Core.Option.{Option, none, some}
use native.Mathlib.Nat.{pow-suc}
use native.Mathlib.Omega.{arith}
use high_performance_logger.Common.Tests.{ltb, leb, if◌then◌else◌, Bool-cases}
use high_performance_logger.Common.Lists.{length, length-append}
use high_performance_logger.Common.Int.{ℤ, pos, negsuc}
use mathlib.Core.Logic.{inl, inr}

-- The digits of a number, highest first.
pub digits_below : ℕ → ℕ → List ℕ
digits_below zero n = []
digits_below (suc fuel) n =
    let more = digits_below fuel (n / 10) ++ (b'0' + n % 10) ∷ [] in
    if ltb n 10 then (b'0' + n) ∷ [] else more

unfoldable pub decimal : ℕ → List ℕ
unfolding digits_below
decimal n = digits_below (suc n) n

unfoldable pub decimal_ℤ : ℤ → List ℕ
unfolding decimal
decimal_ℤ (pos n) = decimal n
decimal_ℤ (negsuc n) = b'-' ∷ decimal (suc n)

-- A conversion into a buffer of `room` bytes, which fails if the digits do not fit.
unfoldable pub to_chars : ℕ → List ℕ → Option (List ℕ)
to_chars room text = if leb (length text) room then some text else none

-- The number that a list of digits stands for.
abbrev pub value_from : ℕ → List ℕ → ℕ
value_from acc [] = acc
value_from acc (c ∷ cs) = value_from (acc * 10 + (c - b'0')) cs

value_from-append :
    (acc : ℕ) (xs ys : List ℕ) → value_from acc (xs ++ ys) ≡ value_from (value_from acc xs) ys
value_from-append acc [] ys = refl
value_from-append acc (x ∷ xs) ys = value_from-append (acc * 10 + (x - b'0')) xs ys

value-digits_below : (fuel n : ℕ) → n < fuel → value_from 0 (digits_below fuel n) ≡ n
unfolding digits_below
value-digits_below zero n h = absurd (omega arith)
value-digits_below (suc fuel) n h = elim (Bool-cases (ltb n 10)) [
  | inl small ↦ rw small (omega arith)
  | inr big ↦ rw big (
      value_from-append 0 (digits_below fuel (n / 10)) ((b'0' + n % 10) ∷ [])
      ∙ omega (arith, value-digits_below fuel (n / 10) (ground arith)))
]

-- Reading the digits of a number back gives the number.
pub value-decimal : (n : ℕ) → value_from 0 (decimal n) ≡ n
unfolding decimal
value-decimal n = value-digits_below (suc n) n (omega arith)

length-digits_below : (d fuel n : ℕ) → n < 10 ^ suc d → length (digits_below fuel n) ≤ suc d
unfolding digits_below
length-digits_below d zero n h = omega arith
length-digits_below zero (suc fuel) n h = ground arith
length-digits_below (suc d) (suc fuel) n h = elim (Bool-cases (ltb n 10)) [
  | inl small ↦ rw small (omega arith)
  | inr big ↦ rw big (
      omega (
        arith,
        length-append (digits_below fuel (n / 10)) ((b'0' + n % 10) ∷ []),
        length-digits_below d fuel (n / 10) (omega (arith, pow-suc 10 (suc d))),
      ))
]

-- A number below 10 ^ (d + 1) has at most d + 1 digits.
pub length-decimal : (d n : ℕ) → n < 10 ^ suc d → length (decimal n) ≤ suc d
unfolding decimal
length-decimal d n h = length-digits_below d (suc n) n h

-- A text of decimal digits only.
abbrev pub IsDigits : List ℕ → Type 0
IsDigits [] = Unit {0}
IsDigits (c ∷ cs) = (b'0' ≤ c) × (c ≤ b'9') × IsDigits cs

IsDigits-append : (xs ys : List ℕ) → IsDigits xs → IsDigits ys → IsDigits (xs ++ ys)
IsDigits-append [] ys h k = k
IsDigits-append (x ∷ xs) ys (low, high, h) k = (low, high, IsDigits-append xs ys h k)

digits_below-IsDigits : (fuel n : ℕ) → IsDigits (digits_below fuel n)
unfolding digits_below
digits_below-IsDigits zero n = tt
digits_below-IsDigits (suc fuel) n = elim (Bool-cases (ltb n 10)) [
  | inl small ↦ rw small (ground arith, ground arith, tt)
  | inr big ↦
      rw big
        (IsDigits-append _ _ (digits_below-IsDigits fuel (n / 10)) (ground arith, ground arith, tt))
]

-- A number is written with digits, and with at least one.
pub decimal-IsDigits : (n : ℕ) → IsDigits (decimal n)
unfolding decimal
decimal-IsDigits n = digits_below-IsDigits (suc n) n

nonempty_append : (xs : List ℕ) (c : ℕ) → 0 < length (xs ++ c ∷ [])
nonempty_append xs c = omega (arith, length-append xs (c ∷ []))

pub positive_length-decimal : (n : ℕ) → 0 < length (decimal n)
unfolding decimal digits_below
positive_length-decimal n = elim (Bool-cases (ltb n 10)) [
  | inl small ↦ rw small (omega arith)
  | inr big ↦ rw big (nonempty_append (digits_below n (n / 10)) (b'0' + n % 10))
]

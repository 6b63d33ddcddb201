-- ===== src/Service/Numbers/Laws.antt =====
-- The number parser of examples/service_example.cpp against printed numbers.
use high_performance_logger.Common.{
  ℕ, suc, ◌<◌, ◌≡◌, Bool, true, false, List, [], ◌∷◌, length, ◌==◌, ◌&&◌, refl, sym, ap, ◌∙◌, arith,
  inl, inr, some, Bool-cases,
}
use mathlib.Core.Path.{subst}
use high_performance_logger.Common.Int.{ℤ, pos, negsuc}
use high_performance_logger.Common.Decimal.{
  decimal, decimal_ℤ, IsDigits, decimal-IsDigits, positive_length-decimal, value_from,
  value-decimal,
}
use high_performance_logger.Service.Numbers.{
  IntegerType, signed_value, negated, is_in_range, digits_of, parse_integer, scan_digits, whole,
}

digits_of-IsDigits : (xs : List ℕ) → IsDigits xs → digits_of xs ≡ (xs, [])
unfolding digits_of
digits_of-IsDigits [] h = refl
digits_of-IsDigits (x ∷ xs) (low, high, h) = ground (arith, digits_of-IsDigits xs h)

from-digits :
    (type : IntegerType) (is_negative : Bool) (xs : List ℕ) (z fallback : ℤ)
    → IsDigits xs
    → 0 < length xs
    → signed_value is_negative (value_from 0 xs) ≡ z
    → is_in_range type z ≡ true
    → whole fallback (scan_digits type is_negative (digits_of xs)) ≡ z
from-digits type b [] z fallback d l v r = absurd (omega arith)
from-digits type b (x ∷ xs) z fallback d l v r = rw (digits_of-IsDigits (x ∷ xs) d, v, r) refl

from_unsigned :
    (type : IntegerType) (n : ℕ) (xs : List ℕ) (fallback : ℤ)
    → xs ≡ decimal n
    → is_in_range type (pos n) ≡ true
    → parse_integer type xs fallback ≡ pos n
unfolding parse_integer
from_unsigned type n [] fallback e r =
    absurd (omega (arith, ap (length {A = ℕ}) e, positive_length-decimal n))
from_unsigned type n (x ∷ xs) fallback e r =
    let d : IsDigits (x ∷ xs) = subst IsDigits (sym e) (decimal-IsDigits n) in
    let no_sign : type.is_signed && (x == b'-') ≡ false = ground (arith, d.0) in
    rw no_sign (
      from-digits type false (x ∷ xs) (pos n) fallback d (omega arith)
        (ap pos (ap (value_from 0) e ∙ value-decimal n)) r)

-- A printed integer of the type is parsed to that integer, whatever the fallback.
pub parse_integer-decimal_ℤ :
    (type : IntegerType) (z fallback : ℤ)
    → is_in_range type z ≡ true
    → parse_integer type (decimal_ℤ z) fallback ≡ z
unfolding parse_integer decimal_ℤ
parse_integer-decimal_ℤ type (pos n) fallback r = from_unsigned type n (decimal n) fallback refl r
parse_integer-decimal_ℤ type (negsuc n) fallback r =
    let has_sign : type.is_signed && true ≡ true = ground arith in
    rw has_sign (
      from-digits type true (decimal (suc n)) (negsuc n) fallback (decimal-IsDigits (suc n))
        (positive_length-decimal (suc n)) (ap negated (value-decimal (suc n))) r)

scanned_in_range :
    (type : IntegerType) (is_negative : Bool) (p : List ℕ × List ℕ) (fallback : ℤ)
    → is_in_range type fallback ≡ true
    → is_in_range type (whole fallback (scan_digits type is_negative p)) ≡ true
scanned_in_range type b ([], rest) fallback r = r
scanned_in_range type b (c ∷ cs, rest) fallback r =
    elim (Bool-cases (is_in_range type (signed_value b (value_from 0 (c ∷ cs))))) [
      | inl fits ↦ rw fits (at_end rest fits)
      | inr big ↦ rw big r
    ]
  where
    at_end :
        (rest : List ℕ)
        → is_in_range type (signed_value b (value_from 0 (c ∷ cs))) ≡ true
        → is_in_range type (whole fallback (some (signed_value b (value_from 0 (c ∷ cs))), rest))
          ≡ true
    at_end [] h = h
    at_end (d ∷ ds) h = r

-- What is parsed is in the range of its type if the fallback is.
pub parse_integer_in_range :
    (type : IntegerType) (text : List ℕ) (fallback : ℤ)
    → is_in_range type fallback ≡ true
    → is_in_range type (parse_integer type text fallback) ≡ true
unfolding parse_integer
parse_integer_in_range type [] fallback r = r
parse_integer_in_range type (c ∷ cs) fallback r =
    elim (Bool-cases (type.is_signed && (c == b'-'))) [
      | inl minus ↦ rw minus (scanned_in_range type true (digits_of cs) fallback r)
      | inr plain ↦ rw plain (scanned_in_range type false (digits_of (c ∷ cs)) fallback r)
    ]

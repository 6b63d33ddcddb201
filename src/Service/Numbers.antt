-- ===== src/Service/Numbers.antt =====
-- `ParseInteger` of examples/service_example.cpp, with `std::from_chars` in base ten.
pub mod Laws
use high_performance_logger.Common.{
  ℕ, zero, suc, Bool, true, false, ◌&&◌, Option, none, some, List, [], ◌∷◌, leb, ◌==◌,
  if◌then◌else◌,
}
use high_performance_logger.Common.Int.{ℤ, pos, negsuc}
use high_performance_logger.Common.Decimal.{value_from}

-- An integer type from -(highest + 1), or 0 if it has no sign, to `highest`.
pub record IntegerType : Type 0 where
  pub is_signed : Bool
  pub highest : ℕ

abbrev pub int : IntegerType
int = record { is_signed = true; highest = 2147483647 }

abbrev pub uint16_t : IntegerType
uint16_t = record { is_signed = false; highest = 65535 }

abbrev pub is_in_range : IntegerType → ℤ → Bool
is_in_range type (pos n) = leb n type.highest
is_in_range type (negsuc n) = type.is_signed && leb n type.highest

abbrev pub is_digit : ℕ → Bool
is_digit c = leb b'0' c && leb c b'9'

-- The digits at the front of a text, and what follows them.
unfoldable pub digits_of : List ℕ → List ℕ × List ℕ
digits_of [] = ([], [])
digits_of (c ∷ cs) =
    let (digits, rest) = digits_of cs in if is_digit c then (c ∷ digits, rest) else ([], c ∷ cs)

abbrev pub negated : ℕ → ℤ
negated zero = pos 0
negated (suc n) = negsuc n

abbrev pub signed_value : Bool → ℕ → ℤ
signed_value true n = negated n
signed_value false n = pos n

abbrev pub if_in_range : IntegerType → ℤ → Option ℤ
if_in_range type z = if is_in_range type z then some z else none

-- The number, unless there is no digit or it is out of range, and the text behind it.
abbrev pub scan_digits : IntegerType → Bool → List ℕ × List ℕ → Option ℤ × List ℕ
scan_digits type is_negative ([], rest) = (none, rest)
scan_digits type is_negative (c ∷ cs, rest) =
    (if_in_range type (signed_value is_negative (value_from 0 (c ∷ cs))), rest)

unfoldable pub from_chars : IntegerType → List ℕ → Option ℤ × List ℕ
unfolding digits_of
from_chars type [] = (none, [])
from_chars type (c ∷ cs) =
    if type.is_signed && (c == b'-')
    then scan_digits type true (digits_of cs)
    else scan_digits type false (digits_of (c ∷ cs))

abbrev pub whole : ℤ → Option ℤ × List ℕ → ℤ
whole fallback (some value, []) = value
whole fallback (some value, c ∷ cs) = fallback
whole fallback (none, rest) = fallback

unfoldable pub parse_integer : IntegerType → List ℕ → ℤ → ℤ
unfolding from_chars
parse_integer type text fallback = whole fallback (from_chars type text)

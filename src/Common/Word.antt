-- ===== src/Common/Word.antt =====
-- `std::size_t` and `std::uint64_t` arithmetic, and signed differences of such words.
use Prim.Native.Nat.{ℕ, ◌+◌, ◌-◌, ◌%◌, ◌^◌}

abbrev pub word_mod : ℕ
word_mod = 2 ^ 64

-- 64-bit addition and subtraction.
abbrev pub add64 : ℕ → ℕ → ℕ
add64 a b = (a + b) % word_mod

abbrev pub sub64 : ℕ → ℕ → ℕ
sub64 a b = (a + word_mod - b) % word_mod

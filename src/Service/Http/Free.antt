-- ===== src/Service/Http/Free.antt =====
-- Texts without a given byte, as the searches of examples/service_example.cpp pass over them.
use high_performance_logger.Common.{ℕ, ◌≡◌, ◌≢◌, Bool, true, ◌&&◌, not, List, [], ◌∷◌, ◌==◌, arith}

-- A text without a byte.
abbrev pub IsFree : ℕ → List ℕ → Type 0
IsFree c [] = Unit {0}
IsFree c (x ∷ xs) = (x ≢ c) × IsFree c xs

-- The same as a test.
abbrev pub lacks : ℕ → List ℕ → Bool
lacks c [] = true
lacks c (x ∷ xs) = not (x == c) && lacks c xs

pub lacks-IsFree : (c : ℕ) (xs : List ℕ) → lacks c xs ≡ true → IsFree c xs
lacks-IsFree c [] h = tt
lacks-IsFree c (x ∷ xs) h = (λ e. ground arith, lacks-IsFree c xs (ground arith))

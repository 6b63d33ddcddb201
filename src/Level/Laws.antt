-- ===== src/Level/Laws.antt =====
-- What the filter and the parser of include/hlog/log_level.h compute.
use high_performance_logger.Common.{
  ℕ, ◌≤◌, true, List, [], ◌∷◌, map, length, ◌≡◌, ◌≢◌, ◌↔◌, refl, arith, ap, length-map,
}
use high_performance_logger.Level.{
  LogLevel, off, rank, should_log, tolower, same_chars, equals_ignore_case,
}

-- A message passes the filter exactly when its level is not Off and is at least the configured
-- level; a configured Off lets nothing through.
pub should_log_iff : (m c : LogLevel) → (should_log m c ≡ true) ↔ ((m ≢ off) × (rank c ≤ rank m))
unfolding should_log
should_log_iff m c = (λ h. ground arith, λ h. ground arith)

abbrev lower : List ℕ → List ℕ
lower = map tolower

same_chars-lower : (a b : List ℕ) → same_chars a b ≡ true → lower a ≡ lower b
unfolding same_chars
same_chars-lower [] [] h = refl
same_chars-lower [] (y ∷ b) h = cc
same_chars-lower (x ∷ a) [] h = cc
same_chars-lower (x ∷ a) (y ∷ b) h = ground (arith, same_chars-lower a b)

lower-same_chars : (a b : List ℕ) → lower a ≡ lower b → same_chars a b ≡ true
unfolding same_chars
lower-same_chars [] [] h = refl
lower-same_chars [] (y ∷ b) h = cc
lower-same_chars (x ∷ a) [] h = cc
lower-same_chars (x ∷ a) (y ∷ b) h = ground (arith, lower-same_chars a b)

-- Two texts are equal for the parser exactly when they are equal in lower case.
pub equals_ignore_case_iff :
    (a b : List ℕ) → (equals_ignore_case a b ≡ true) ↔ (map tolower a ≡ map tolower b)
unfolding equals_ignore_case
equals_ignore_case_iff a b = (
  λ h. ground (arith, same_chars-lower a b),
  λ h.
      ground (arith, lower-same_chars a b, length-map tolower a, length-map tolower b, ap length h),
)

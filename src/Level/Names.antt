-- ===== src/Level/Names.antt =====
-- The names of the levels in include/hlog/log_level.h, printed and read back.
use mathlib.Core.List.{append_cancel_left}
use high_performance_logger.Common.{
  ℕ, true, List, ◌++◌, map, ◌≡◌, refl, sym, ◌∙◌, ap, Bool-cases, inl, inr,
}
use high_performance_logger.Level.{
  LogLevel, trace, debug, info, warn, error, critical, off, to_string, tolower, equals_ignore_case,
  try_parse_log_level, print,
}
use high_performance_logger.Common.Text.{codes}
use high_performance_logger.Level.Laws.{equals_ignore_case_iff}

-- The comparison sees a text in lower case only.
same_lower :
    (a b c : List ℕ)
    → map tolower a ≡ map tolower b
    → equals_ignore_case a c ≡ equals_ignore_case b c
same_lower a b c h = elim (Bool-cases (equals_ignore_case a c)) [
  | inl y ↦ y ∙ sym ((equals_ignore_case_iff b c).1 (sym h ∙ (equals_ignore_case_iff a c).0 y))
  | inr n ↦ elim (Bool-cases (equals_ignore_case b c)) [
    | inl y ↦ (equals_ignore_case_iff a c).1 (h ∙ (equals_ignore_case_iff b c).0 y) ∙ sym y
    | inr m ↦ n ∙ sym m
  ]
]

parse_name : (l d : LogLevel) → try_parse_log_level (to_string l) d ≡ (true, l)
unfolding try_parse_log_level to_string
parse_name trace d = refl
parse_name debug d = refl
parse_name info d = refl
parse_name warn d = refl
parse_name error d = refl
parse_name critical d = refl
parse_name off d = refl

parse_same :
    (a b : List ℕ) (d : LogLevel)
    → map tolower a ≡ map tolower b
    → try_parse_log_level a d ≡ try_parse_log_level b d
unfolding try_parse_log_level
parse_same a b d h =
    rw
      (
        same_lower a b (codes "trace") h,
        same_lower a b (codes "debug") h,
        same_lower a b (codes "info") h,
        same_lower a b (codes "warn") h,
        same_lower a b (codes "warning") h,
        same_lower a b (codes "error") h,
        same_lower a b (codes "critical") h,
        same_lower a b (codes "off") h,
      )
      refl

-- What a level adds to a stream is read back as that level, in upper, lower or mixed case.
pub parse-print :
    (output added text : List ℕ) (l d : LogLevel)
    → print output l ≡ output ++ added
    → map tolower text ≡ map tolower added
    → try_parse_log_level text d ≡ (true, l)
unfolding print
parse-print output added text l d h same =
    parse_same text (to_string l) d
      (same ∙ ap (map tolower) (sym (append_cancel_left output _ _ h)))
    ∙ parse_name l d

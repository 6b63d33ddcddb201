-- ===== src/Level/Tests.antt =====
-- Runs of the level parser, and the theorem of Level.Names at a concrete input.
use high_performance_logger.Common.{◌≡◌, true, refl}
use high_performance_logger.Level.Names.{parse-print}
use high_performance_logger.Common.Text.{codes}
use high_performance_logger.Level.{
  to_string, warn, info, print, try_parse_log_level, tolower, parse_log_level,
}

parse_warning : parse_log_level (codes "WarNing") info ≡ warn
unfolding parse_log_level
parse_warning = refl

parse-print_example : try_parse_log_level (codes "Warn") info ≡ (true, warn)
unfolding print to_string tolower
parse-print_example = parse-print (codes "level=") (codes "WARN") (codes "Warn") warn info refl refl

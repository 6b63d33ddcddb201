-- ===== src/Formatter/Tests.antt =====
-- The theorems on the formatter at concrete patterns.
use high_performance_logger.Common.{◌≡◌, [], ◌++◌}
use high_performance_logger.Common.Text.{codes}
use high_performance_logger.Common.Int.{ℤ, pos}
use high_performance_logger.Level.{info}
use high_performance_logger.Message.{LogMessage}
use high_performance_logger.Payload.{empty_payload}
use high_performance_logger.Formatter.{Tm, make_formatter, format_to, base_name}
use high_performance_logger.Formatter.Interpret.{interpret, format_to-interpret}
use high_performance_logger.Formatter.BaseName.{Divides, base_name-Divides}

abbrev noon : ℤ → Tm
noon t = record {
  tm_year = pos 124;
  tm_mon = pos 0;
  tm_mday = pos 1;
  tm_hour = pos 12;
  tm_min = pos 0;
  tm_sec = pos 0;
}

abbrev message : LogMessage
message = record {
  timestamp = pos 0;
  level = info;
  logger_name = codes "app";
  thread_id = 1;
  source = record { file = []; line = pos 0; function = [] };
  payload = empty_payload;
}

format_to-interpret_example :
    format_to noon (make_formatter (codes "[%l] %n 100%%")) (codes "> ") message
    ≡ codes "> " ++ interpret noon message (codes "[%l] %n 100%%")
format_to-interpret_example = format_to-interpret noon message (codes "[%l] %n 100%%") (codes "> ")

base_name-Divides_example : Divides (codes "src/main.cpp") (base_name (codes "src/main.cpp"))
base_name-Divides_example = base_name-Divides (codes "src/main.cpp")

-- ===== src/Level.antt =====
-- include/hlog/log_level.h: the levels, the filter, and the parser of level names.
pub mod Laws
pub mod Names
mod Tests
use high_performance_logger.Common.{
  ℕ, ◌+◌, Bool, true, false, ◌&&◌, ◌||◌, not, List, [], ◌∷◌, ◌++◌, ltb, leb, ◌==◌, if◌then◌else◌,
  length,
}
use high_performance_logger.Common.Text.{codes}

pub data LogLevel : Type 0 where
  trace debug info warn error critical off : LogLevel

-- The enumerator's value, `static_cast<std::uint8_t>(level)`.
abbrev pub rank : LogLevel → ℕ
rank trace = 0
rank debug = 1
rank info = 2
rank warn = 3
rank error = 4
rank critical = 5
rank off = 6

unfoldable pub to_string : LogLevel → List ℕ
to_string trace = codes "TRACE"
to_string debug = codes "DEBUG"
to_string info = codes "INFO"
to_string warn = codes "WARN"
to_string error = codes "ERROR"
to_string critical = codes "CRITICAL"
to_string off = codes "OFF"

abbrev pub is_off : LogLevel → Bool
is_off off = true
is_off _ = false

unfoldable pub should_log : LogLevel → LogLevel → Bool
should_log message_level configured_level =
    not (is_off configured_level)
    && leb (rank configured_level) (rank message_level)
    && not (is_off message_level)

-- `std::tolower` on an `unsigned char` in the "C" locale.
unfoldable pub tolower : ℕ → ℕ
tolower c = if leb b'A' c && leb c b'Z' then c + 32 else c

-- The loop of `EqualsIgnoreCase` over two texts of one size; sizes that differ are never met.
same_chars : List ℕ → List ℕ → Bool
unfolding tolower
same_chars [] [] = true
same_chars (l ∷ left) (r ∷ right) =
    let rest = same_chars left right in if tolower l == tolower r then rest else false
same_chars _ _ = false

unfoldable pub equals_ignore_case : List ℕ → List ℕ → Bool
unfolding same_chars
equals_ignore_case left right = if length left == length right then same_chars left right else false

-- The out parameter `level` is the second component, as it stands on return.
unfoldable pub try_parse_log_level : List ℕ → LogLevel → Bool × LogLevel
unfolding equals_ignore_case
try_parse_log_level text level =
    if equals_ignore_case text (codes "trace")
    then (true, trace)
    else if equals_ignore_case text (codes "debug")
    then (true, debug)
    else if equals_ignore_case text (codes "info")
    then (true, info)
    else if equals_ignore_case text (codes "warn") || equals_ignore_case text (codes "warning")
    then (true, warn)
    else if equals_ignore_case text (codes "error")
    then (true, error)
    else if equals_ignore_case text (codes "critical")
    then (true, critical)
    else if equals_ignore_case text (codes "off")
    then (true, off)
    else (false, level)

unfoldable pub parse_log_level : List ℕ → LogLevel → LogLevel
unfolding try_parse_log_level
parse_log_level text fallback =
    let (parsed, level) = try_parse_log_level text fallback in if parsed then level else fallback

-- `operator<<`, on what the stream has received so far.
unfoldable pub print : List ℕ → LogLevel → List ℕ
unfolding to_string
print output level = output ++ to_string level

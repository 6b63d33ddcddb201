-- ===== src/Formatter.antt =====
-- include/hlog/pattern_formatter.h and src/core/pattern_formatter.cpp: a pattern is compiled to
-- tokens once, and each message is formatted from the tokens.
pub mod Interpret
pub mod BaseName
mod Tests
use high_performance_logger.Common.{
  ℕ, zero, suc, ◌+◌, ◌-◌, Bool, true, false, not, ◌&&◌, ◌||◌, Option, none, some, List, [], ◌∷◌,
  ◌++◌, ◌==◌, if◌then◌else◌, length, drop, replicate,
}
use high_performance_logger.Common.Text.{codes}
use high_performance_logger.Common.Int.{ℤ, pos, negsuc, ◌-ℤ◌}
use high_performance_logger.Common.Decimal.{decimal_ℤ, to_chars}
use high_performance_logger.Level.{to_string}
use high_performance_logger.Payload.{view}
use high_performance_logger.Message.{LogMessage, quotient, remainder}

abbrev pub default_log_pattern : List ℕ
default_log_pattern = codes "%Y-%m-%d %H:%M:%S.%e [%l] [%n] [tid=%t] %v"

pub data TokenType : Type 0 where
  literal year month day hour minute second millisecond : TokenType
  level logger_name thread_id payload source_file source_line source_function : TokenType

-- `literal` is the text of a literal token.
pub record Token : Type 0 where
  pub type : TokenType
  pub text : List ℕ

pub record PatternFormatter : Type 0 where
  pub pattern : List ℕ
  pub tokens : List Token

-- The part of `std::tm` that is read.
pub record Tm : Type 0 where
  pub tm_year : ℤ
  pub tm_mon : ℤ
  pub tm_mday : ℤ
  pub tm_hour : ℤ
  pub tm_min : ℤ
  pub tm_sec : ℤ

pub record TimestampParts : Type 0 where
  pub local_time : Tm
  pub millisecond : ℤ

-- The cases of `switch (specifier)` that push a token.
unfoldable pub token_type_of : ℕ → Option TokenType
token_type_of c =
    if c == b'Y'
    then some year
    else if c == b'm'
    then some month
    else if c == b'd'
    then some day
    else if c == b'H'
    then some hour
    else if c == b'M'
    then some minute
    else if c == b'S'
    then some second
    else if c == b'e'
    then some millisecond
    else if c == b'l'
    then some level
    else if c == b'n'
    then some logger_name
    else if c == b't'
    then some thread_id
    else if c == b'v'
    then some payload
    else if c == b's'
    then some source_file
    else if c == b'#'
    then some source_line
    else if c == b'!'
    then some source_function
    else none

abbrev pub push_token : List Token → TokenType → List ℕ → List Token
push_token tokens t text = tokens ++ record { type = t; text = text } ∷ []

unfoldable pub flush_literal : List ℕ → List Token → List Token
flush_literal [] tokens = tokens
flush_literal (c ∷ text) tokens = push_token tokens literal (c ∷ text)

-- The pending literal and the tokens so far.
pub record Compiled : Type 0 where
  pub pending : List ℕ
  pub done : List Token

-- One specifier that is not `+`.
unfoldable pub compile_specifier : ℕ → Compiled → Compiled
unfolding flush_literal token_type_of
compile_specifier c s =
    if c == b'%' then record s { pending = s.pending ++ b'%' ∷ [] } else elim (token_type_of c) [
      | none ↦ record s { pending = s.pending ++ b'%' ∷ c ∷ [] }
      | some t ↦ record { pending = []; done = push_token (flush_literal s.pending s.done) t [] }
    ]

-- The loop of `compile_pattern` and the flush behind it; `plus` is what `%+` does.
unfoldable pub compile_from : (Compiled → Compiled) → List ℕ → Compiled → List Token
unfolding compile_specifier
compile_from plus [] s = flush_literal s.pending s.done
compile_from plus (c ∷ []) s = flush_literal (s.pending ++ c ∷ []) s.done
compile_from plus (c ∷ d ∷ rest) s =
    let plain = compile_from plus (d ∷ rest) (record s { pending = s.pending ++ c ∷ [] }) in
    let special = compile_from plus rest (if d == b'+' then plus s else compile_specifier d s) in
    if c == b'%' then special else plain

-- `%+` without and with `allow_default_expansion`.
unfoldable pub keep_plus : Compiled → Compiled
keep_plus s = record { pending = codes "%+"; done = flush_literal s.pending s.done }

unfoldable pub expand_default : Compiled → Compiled
unfolding keep_plus compile_from
expand_default s = record {
  pending = [];
  done =
      compile_from keep_plus default_log_pattern
        (record { pending = []; done = flush_literal s.pending s.done });
}

unfoldable pub rebuild_tokens : List ℕ → List Token
unfolding expand_default
rebuild_tokens pattern = compile_from expand_default pattern (record { pending = []; done = [] })

-- The constructor, and `SetPattern`.
unfoldable pub make_formatter : List ℕ → PatternFormatter
unfolding rebuild_tokens
make_formatter pattern = record { pattern = pattern; tokens = rebuild_tokens pattern }

unfoldable pub set_pattern : PatternFormatter → List ℕ → PatternFormatter
unfolding rebuild_tokens
set_pattern f pattern = record f { pattern = pattern; tokens = rebuild_tokens pattern }

append_digits : ℕ → Option (List ℕ) → List ℕ → List ℕ
append_digits width none output = output
append_digits width (some text) output = (output ++ replicate (width - length text) b'0') ++ text

unfoldable pub append_integer : List ℕ → ℤ → ℕ → List ℕ
unfolding append_digits
append_integer output value width = append_digits width (to_chars 32 (decimal_ℤ value)) output

-- The index of the last `/` or `\`.
abbrev pub is_separator : ℕ → Bool
is_separator c = c == b'/' || c == 92

find_last_separator : List ℕ → Option ℕ
find_last_separator [] = none
find_last_separator (c ∷ cs) = elim (find_last_separator cs) [
  | some i ↦ some (suc i)
  | none ↦ if is_separator c then some 0 else none
]

unfoldable pub base_name : List ℕ → List ℕ
unfolding find_last_separator
base_name path = elim (find_last_separator path) [ none ↦ path | some i ↦ drop (i + 1) path ]

abbrev pub is_time_token : TokenType → Bool
is_time_token year = true
is_time_token month = true
is_time_token day = true
is_time_token hour = true
is_time_token minute = true
is_time_token second = true
is_time_token millisecond = true
is_time_token _ = false

abbrev plus_one : ℤ → ℤ
plus_one z = z -ℤ negsuc 0

-- `localtime` is `localtime_r`, from seconds since the epoch.
module _ (localtime : ℤ → Tm) where
  unfoldable pub make_timestamp_parts : ℤ → TimestampParts
  make_timestamp_parts timestamp = record {
    local_time = localtime (quotient timestamp 1000000000);
    millisecond = remainder (quotient timestamp 1000000) 1000;
  }

  -- The second `switch` of `FormatTo`.
  unfoldable pub append_token : List ℕ → LogMessage → TimestampParts → TokenType → List ℕ
  unfolding append_integer base_name to_string
  append_token output m parts literal = output
  append_token output m parts year =
      append_integer output (parts.local_time.tm_year -ℤ negsuc 1899) 4
  append_token output m parts month = append_integer output (plus_one parts.local_time.tm_mon) 2
  append_token output m parts day = append_integer output parts.local_time.tm_mday 2
  append_token output m parts hour = append_integer output parts.local_time.tm_hour 2
  append_token output m parts minute = append_integer output parts.local_time.tm_min 2
  append_token output m parts second = append_integer output parts.local_time.tm_sec 2
  append_token output m parts millisecond = append_integer output parts.millisecond 3
  append_token output m parts level = output ++ to_string m.level
  append_token output m parts logger_name = output ++ m.logger_name
  append_token output m parts thread_id = append_integer output (pos m.thread_id) 0
  append_token output m parts payload = output ++ view m.payload
  append_token output m parts source_file = output ++ base_name m.source.file
  append_token output m parts source_line = elim m.source.line [
    | pos (suc n) ↦ append_integer output (pos (suc n)) 0
    | _ ↦ output
  ]
  append_token output m parts source_function = output ++ m.source.function

  abbrev pub is_literal : TokenType → Bool
  is_literal literal = true
  is_literal _ = false

  -- The loop over the tokens. The parts of the time are computed at the first token that needs them;
  -- before that they are `none`, and `blank` stands for the zeroed struct.
  unfoldable pub format_tokens : TimestampParts → Bool → List Token → LogMessage → List ℕ → List ℕ
  unfolding append_token make_timestamp_parts
  format_tokens parts has_time [] m output = output
  format_tokens parts has_time (t ∷ tokens) m output =
      let first = is_time_token t.type && not has_time in
      let parts' = if first then make_timestamp_parts m.timestamp else parts in
      let after_literal = format_tokens parts has_time tokens m (output ++ t.text) in
      let after_field =
        format_tokens parts' (has_time || first) tokens m (append_token output m parts' t.type) in
      if is_literal t.type then after_literal else after_field

  abbrev pub zero_parts : TimestampParts
  zero_parts = record {
    local_time = record {
      tm_year = pos 0;
      tm_mon = pos 0;
      tm_mday = pos 0;
      tm_hour = pos 0;
      tm_min = pos 0;
      tm_sec = pos 0;
    };
    millisecond = pos 0;
  }

  unfoldable pub format_to : PatternFormatter → List ℕ → LogMessage → List ℕ
  unfolding format_tokens
  format_to f output m = format_tokens zero_parts false f.tokens m output

  unfoldable pub format : PatternFormatter → LogMessage → List ℕ
  unfolding format_to
  format f m = format_to f [] m

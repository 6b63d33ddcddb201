-- ===== src/Sinks/Console.antt =====
-- include/hlog/sinks/console_sink.h and src/sinks/console_sink.cpp.
use high_performance_logger.Common.{ℕ, Bool, false, List, [], ◌∷◌, ◌++◌, if◌then◌else◌}
use high_performance_logger.Common.Int.{ℤ}
use high_performance_logger.Message.{LogMessage}
use high_performance_logger.Formatter.{
  PatternFormatter, Tm, make_formatter, format_to, default_log_pattern,
}
use high_performance_logger.Sinks.Stream.{Exec, ok, Stream, stream_write, stream_flush}
use high_performance_logger.Sinks.Interface.{
  SinkInterface, default_next_auto_flush_time, default_flush_if_due,
}

pub data ConsoleStream : Type 0 where
  stdout stderr : ConsoleStream

pub record ConsoleSinkOptions : Type 0 where
  pub stream : ConsoleStream
  pub auto_flush : Bool
  pub pattern : List ℕ

abbrev pub default_options : ConsoleSinkOptions
default_options = record { stream = stdout; auto_flush = false; pattern = default_log_pattern }

pub record ConsoleSink : Type 0 where
  pub output : Stream
  pub auto_flush : Bool
  pub formatter : PatternFormatter

abbrev pub resolve_console_stream : Stream → Stream → ConsoleStream → Stream
resolve_console_stream out err stderr = err
resolve_console_stream out err stdout = out

-- The constructor, over the two standard streams.
unfoldable pub make_console_sink : Stream → Stream → ConsoleSinkOptions → ConsoleSink
make_console_sink out err options = record {
  output = resolve_console_stream out err options.stream;
  auto_flush = options.auto_flush;
  formatter = make_formatter options.pattern;
}

-- A failed stream is not noticed.
unfoldable pub write : (ℤ → Tm) → LogMessage → Exec ConsoleSink (Unit {0})
write localtime message s =
    let o = stream_write s.output (format_to localtime s.formatter [] message ++ 10 ∷ []) in
    (ok tt, record s { output = if s.auto_flush then stream_flush o else o })

unfoldable pub flush : Exec ConsoleSink (Unit {0})
flush s = (ok tt, record s { output = stream_flush s.output })

abbrev pub console_interface : (ℤ → Tm) → SinkInterface
console_interface localtime = record {
  State = ConsoleSink;
  Reading = Unit {0};
  write = λ r. write localtime;
  flush = flush;
  next_auto_flush_time = default_next_auto_flush_time;
  flush_if_due = default_flush_if_due;
}

-- ===== src/Sinks/Interface.antt =====
-- include/hlog/sink.h: the abstract class Sink. `Reading` is what one call of `Write` reads of the
-- clock.
use high_performance_logger.Common.{ℕ, Bool, none}
use high_performance_logger.Common.Int.{ℤ}
use high_performance_logger.Message.{LogMessage}
use high_performance_logger.Formatter.{Tm}
use high_performance_logger.Sinks.Stream.{Exec, Deadline, pure}
use high_performance_logger.Sinks.File
use high_performance_logger.Sinks.File.{FileSink}
use high_performance_logger.Sinks.Rotating
use high_performance_logger.Sinks.Rotating.{RotatingFileSink}

pub record SinkInterface : Type 1 where
  pub State : Type 0
  pub Reading : Type 0
  pub write : Reading → LogMessage → Exec State (Unit {0})
  pub flush : Exec State (Unit {0})
  pub next_auto_flush_time : State → Deadline
  pub flush_if_due : ℕ → Exec State Bool

-- The default implementations of the two virtual functions that are not pure.
abbrev pub default_next_auto_flush_time {ℓ} : {S : Type ℓ} → S → Deadline
default_next_auto_flush_time s = none

abbrev pub default_flush_if_due {ℓ} : {S : Type ℓ} → ℕ → Exec S Bool
default_flush_if_due now = pure Bool.false

module _ (localtime : ℤ → Tm) where
  abbrev pub file_interface : SinkInterface
  file_interface = record {
    State = FileSink;
    Reading = ℕ;
    write = File.write localtime;
    flush = File.flush;
    next_auto_flush_time = File.next_auto_flush_time;
    flush_if_due = File.flush_if_due;
  }

  abbrev pub rotating_interface : SinkInterface
  rotating_interface = record {
    State = RotatingFileSink;
    Reading = ℕ;
    write = Rotating.write localtime;
    flush = Rotating.flush;
    next_auto_flush_time = Rotating.next_auto_flush_time;
    flush_if_due = Rotating.flush_if_due;
  }

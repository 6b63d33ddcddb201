-- ===== src/Message.antt =====
-- include/hlog/detail/log_message.h: what travels through the queue.
use high_performance_logger.Common.{ℕ, List, ◌/◌, suc, ◌%◌}
use high_performance_logger.Common.Int.{ℤ, pos, negsuc, sub_ℕ}
use high_performance_logger.Level.{LogLevel}
use high_performance_logger.Payload.{LogPayload}

pub record SourceLocation : Type 0 where
  pub file : List ℕ
  pub line : ℤ
  pub function : List ℕ

-- `timestamp` is in nanoseconds since the epoch.
pub record LogMessage : Type 0 where
  pub timestamp : ℤ
  pub level : LogLevel
  pub logger_name : List ℕ
  pub thread_id : ℕ
  pub source : SourceLocation
  pub payload : LogPayload

pub data QueueItemType : Type 0 where
  log flush : QueueItemType

pub record QueueItem : Type 0 where
  pub type : QueueItemType
  pub ticket : ℕ
  pub message : LogMessage

-- Integer division and remainder truncate towards zero.
abbrev pub quotient : ℤ → ℕ → ℤ
quotient (pos n) d = pos (n / d)
quotient (negsuc n) d = sub_ℕ 0 (suc n / d)

abbrev pub remainder : ℤ → ℕ → ℤ
remainder (pos n) d = pos (n % d)
remainder (negsuc n) d = sub_ℕ 0 (suc n % d)

-- ===== src/Sinks/File.antt =====
-- include/hlog/sinks/file_sink.h and src/sinks/file_sink.cpp: lines are staged in a buffer and
-- written to the file in batches.
pub mod Laws
pub mod Runs
pub mod Due
mod Tests
use high_performance_logger.Common.{
  ℕ, zero, suc, ◌+◌, Bool, true, false, Option, none, some, List, [], ◌∷◌, ◌++◌, leb, ◌==◌, not,
  ◌&&◌, ◌||◌, if◌then◌else◌, length,
}
use high_performance_logger.Common.Text.{codes}
use high_performance_logger.Common.Int.{ℤ, pos}
use high_performance_logger.Message.{LogMessage}
use high_performance_logger.Formatter.{
  PatternFormatter, Tm, make_formatter, format_to, default_log_pattern,
}
use high_performance_logger.Sinks.Stream.{
  Result, ok, throw, Exec, ◌>>=◌, ◌>>◌, pure, Deadline, is_due, is_positive, nanoseconds, Stream,
  stream_write, stream_flush,
}

pub record FileSinkOptions : Type 0 where
  pub truncate : Bool
  pub max_batch_size : ℕ
  pub flush_interval : ℤ
  pub pattern : List ℕ

abbrev pub default_options : FileSinkOptions
default_options = record {
  truncate = false;
  max_batch_size = 65536;
  flush_interval = pos 50;
  pattern = default_log_pattern;
}

pub record FileSink : Type 0 where
  pub options : FileSinkOptions
  pub output : Stream
  pub staging_buffer : List ℕ
  pub batch_started_at : ℕ
  pub formatter : PatternFormatter

abbrev pub normalize_batch_size : ℕ → ℕ
normalize_batch_size batch_size = if batch_size == 0 then 1 else batch_size

-- The constructor. `existing` is the content of the file at `path`, and `can_open` says whether the
-- file system lets it be opened; `plan` is the fate of the stream's operations.
unfoldable pub make_file_sink :
    Bool → List ℕ → List (Option ℕ) → List ℕ → FileSinkOptions → Result FileSink
make_file_sink can_open existing plan path options =
    if can_open
    then ok (record {
      options = record options { max_batch_size = normalize_batch_size options.max_batch_size };
      output = record {
        content = if options.truncate then [] else existing;
        flushed = if options.truncate then 0 else length existing;
        good = true;
        plan = plan;
      };
      staging_buffer = [];
      batch_started_at = 0;
      formatter = make_formatter options.pattern;
    })
    else throw (codes "failed to open log file: " ++ path)

abbrev set_output : FileSink → Stream → FileSink
set_output s o = record s { output = o }

-- `if (!output_) throw …`
abbrev pub check_output : List ℕ → Exec FileSink (Unit {0})
check_output e s = if s.output.good then (ok tt, s) else (throw e, s)

write_batch : Exec FileSink (Unit {0})
write_batch s =
    (do
      check_output (codes "failed to write log batch")
      (λ r. (ok tt, record r { staging_buffer = []; batch_started_at = 0 })))
      (set_output s (stream_write s.output s.staging_buffer))

flush_output : Exec FileSink (Unit {0})
flush_output s =
    check_output (codes "failed to flush log file") (set_output s (stream_flush s.output))

abbrev pub is_empty {ℓ} : {A : Type ℓ} → List A → Bool
is_empty [] = true
is_empty (x ∷ xs) = false

unfoldable pub drain_staging_buffer : Bool → Exec FileSink (Unit {0})
unfolding write_batch flush_output
drain_staging_buffer flush_stream = do
  (λ s. if is_empty s.staging_buffer then (ok tt, s) else write_batch s)
  (λ s. if flush_stream then flush_output s else (ok tt, s))

-- `now - batch_started_at_ >= flush_interval`, with both parts of the test before it.
abbrev pub interval_over : FileSink → ℕ → Bool
interval_over s now =
    is_positive s.options.flush_interval
    && not (s.batch_started_at == 0)
    && leb (s.batch_started_at + nanoseconds s.options.flush_interval) now

-- The second half of `Write`.
unfoldable pub drain_if_needed : ℕ → Exec FileSink (Unit {0})
unfolding drain_staging_buffer
drain_if_needed now s =
    let flush_for_size = leb s.options.max_batch_size (length s.staging_buffer) in
    let flush_for_interval = interval_over s now in
    if flush_for_size || flush_for_interval
    then drain_staging_buffer flush_for_interval s
    else (ok tt, s)

module _ (localtime : ℤ → Tm) where
  -- The line of a message joins the batch, which `now` starts if it was empty.
  unfoldable pub stage : ℕ → LogMessage → FileSink → FileSink
  stage now message s = record s {
    batch_started_at = if is_empty s.staging_buffer then now else s.batch_started_at;
    staging_buffer = format_to localtime s.formatter s.staging_buffer message ++ 10 ∷ [];
  }

  -- `now` is what `Clock::now()` returns.
  unfoldable pub write : ℕ → LogMessage → Exec FileSink (Unit {0})
  unfolding stage drain_if_needed
  write now message s = drain_if_needed now (stage now message s)

unfoldable pub flush : Exec FileSink (Unit {0})
unfolding drain_staging_buffer
flush = drain_staging_buffer true

unfoldable pub next_auto_flush_time : FileSink → Deadline
next_auto_flush_time s =
    if is_empty s.staging_buffer
      || not (is_positive s.options.flush_interval)
      || s.batch_started_at == 0
    then none
    else some (s.batch_started_at + nanoseconds s.options.flush_interval)

unfoldable pub flush_if_due : ℕ → Exec FileSink Bool
unfolding next_auto_flush_time drain_staging_buffer
flush_if_due now s =
    if is_due (next_auto_flush_time s) now
    then (do drain_staging_buffer true; pure true) s
    else (ok false, s)

-- ===== src/Sinks/Rotating.antt =====
-- include/hlog/sinks/rotating_file_sink.h and src/sinks/rotating_file_sink.cpp: a file sink that
-- moves the file to numbered archives before it would outgrow its limit.
pub mod FileSystem
pub mod Archives
pub mod Contents
pub mod Sizes
mod Tests
use high_performance_logger.Common.{
  ℕ, zero, suc, ◌+◌, Bool, true, false, Option, none, some, List, [], ◌∷◌, ◌++◌, leb, ltb, ◌==◌,
  not, ◌&&◌, ◌||◌, if◌then◌else◌, length,
}
use high_performance_logger.Common.Text.{codes}
use high_performance_logger.Common.Word.{add64}
use high_performance_logger.Common.Int.{ℤ, pos}
use high_performance_logger.Common.Decimal.{decimal}
use high_performance_logger.Message.{LogMessage}
use high_performance_logger.Formatter.{
  PatternFormatter, Tm, make_formatter, format_to, default_log_pattern,
}
use high_performance_logger.Sinks.Stream.{
  Result, ok, throw, Exec, ◌>>=◌, ◌>>◌, pure, Deadline, is_due, is_positive, nanoseconds,
  bind_result,
}
use FileSystem.{
  Disk, remove_file, file_exists, rename_file, file_size, open_truncated, open_append, append_to,
  sync,
}

pub record RotatingFileSinkOptions : Type 0 where
  pub truncate_on_open : Bool
  pub max_file_size : ℕ
  pub max_files : ℕ
  pub max_batch_size : ℕ
  pub flush_interval : ℤ
  pub pattern : List ℕ

abbrev pub default_options : RotatingFileSinkOptions
default_options = record {
  truncate_on_open = false;
  max_file_size = 10485760;
  max_files = 3;
  max_batch_size = 65536;
  flush_interval = pos 50;
  pattern = default_log_pattern;
}

-- `disk` is the file system, in which `output_` writes to the file at `path` while it is open; `good`
-- is the state of that stream.
pub record RotatingFileSink : Type 0 where
  pub path : List ℕ
  pub options : RotatingFileSinkOptions
  pub disk : Disk
  pub is_open : Bool
  pub good : Bool
  pub staging_buffer : List ℕ
  pub current_size : ℕ
  pub batch_started_at : ℕ
  pub formatter : PatternFormatter

abbrev pub normalize_size : ℕ → ℕ
normalize_size value = if value == 0 then 1 else value

abbrev pub archive_path : List ℕ → ℕ → List ℕ
archive_path path index = path ++ b'.' ∷ decimal index

-- An operation on the file system, within the sink.
abbrev pub on_disk {ℓ} : {A : Type ℓ} → Exec Disk A → Exec RotatingFileSink A
on_disk op s = let (r, d) = op s.disk in (r, record s { disk = d })

-- A failed operation becomes an exception with this message.
abbrev pub or_throw {ℓ} : {A : Type ℓ} → List ℕ → Option A → Exec RotatingFileSink A
or_throw e none s = (throw e, s)
or_throw e (some a) s = (ok a, s)

abbrev pub attempt {ℓ} : {A : Type ℓ} → List ℕ → (Disk → Option A × Disk) → Exec RotatingFileSink A
attempt e op s = let (o, d) = op s.disk in or_throw e o (record s { disk = d })

unfoldable pub remove_if_exists : List ℕ → Exec RotatingFileSink (Unit {0})
remove_if_exists path =
    attempt (codes "failed to remove path during rotation: " ++ path) (remove_file path)

move_file : Bool → List ℕ → List ℕ → Exec RotatingFileSink (Unit {0})
unfolding remove_if_exists
move_file false source destination = pure tt
move_file true source destination = do
  remove_if_exists destination
  attempt ((codes "failed to rotate log file from " ++ source) ++ codes " to " ++ destination)
      (rename_file source destination)

unfoldable pub rename_if_exists : List ℕ → List ℕ → Exec RotatingFileSink (Unit {0})
unfolding move_file
rename_if_exists source destination = do
  exists ← attempt (codes "failed to inspect path during rotation: " ++ source) (file_exists source)
  move_file exists source destination

-- A stream that cannot be opened is in a failed state.
abbrev opened : List ℕ → Option (Unit {0}) → Exec RotatingFileSink (Unit {0})
opened e none s = (throw e, record s { good = false })
opened e (some u) s = (ok tt, record s { is_open = true; good = true })

unfoldable pub open_file : Bool → Exec RotatingFileSink (Unit {0})
open_file truncate s =
    let (o, d) = (if truncate then open_truncated s.path else open_append s.path) s.disk in
    opened (codes "failed to open log file: " ++ s.path) o (record s { disk = d })

abbrev set_current_size : ℕ → Exec RotatingFileSink (Unit {0})
set_current_size n s = (ok tt, record s { current_size = n })

-- `for (index = 1; index <= max_files; ++index)`, with the rounds left.
remove_archives : ℕ → ℕ → Exec RotatingFileSink (Unit {0})
unfolding remove_if_exists
remove_archives zero index s = (ok tt, s)
remove_archives (suc left) index s =
    (do remove_if_exists (archive_path s.path index); remove_archives left (index + 1)) s

reset_files : Bool → Exec RotatingFileSink (Unit {0})
unfolding remove_archives remove_if_exists open_file
reset_files true s =
    (do
      remove_if_exists s.path
      remove_archives s.options.max_files 1
      set_current_size 0
      open_file true)
      s
reset_files false s =
    (do
      size ← attempt (codes "failed to query log file size: " ++ s.path) (file_size s.path)
      set_current_size size
      open_file false)
      s

unfoldable pub reset_on_startup : Exec RotatingFileSink (Unit {0})
unfolding reset_files
reset_on_startup s = reset_files s.options.truncate_on_open s

abbrev is_empty {ℓ} : {A : Type ℓ} → List A → Bool
is_empty [] = true
is_empty (x ∷ xs) = false

-- The constructor.
unfoldable pub make_rotating_file_sink :
    Disk → List ℕ → RotatingFileSinkOptions → Result (Unit {0}) × RotatingFileSink
unfolding reset_on_startup
make_rotating_file_sink disk path options =
    let s : RotatingFileSink = record {
      path = path;
      options = record options {
        max_file_size = normalize_size options.max_file_size;
        max_batch_size = normalize_size options.max_batch_size;
      };
      disk = disk;
      is_open = false;
      good = true;
      staging_buffer = [];
      current_size = 0;
      batch_started_at = 0;
      formatter = make_formatter options.pattern;
    } in
    if is_empty path
    then (throw (codes "RotatingFileSink requires a non-empty path"), s)
    else reset_on_startup s

-- `for (index = max_files; index > 1; --index)`.
unfoldable pub shift_archives : ℕ → Exec RotatingFileSink (Unit {0})
unfolding rename_if_exists
shift_archives zero s = (ok tt, s)
shift_archives (suc zero) s = (ok tt, s)
shift_archives (suc (suc i)) s =
    (do
      rename_if_exists (archive_path s.path (suc i)) (archive_path s.path (suc (suc i)))
      shift_archives (suc i))
      s

-- `output_.close()`.
abbrev pub close : RotatingFileSink → RotatingFileSink
close s = record s { is_open = false }

unfoldable pub rotate_files : Exec RotatingFileSink (Unit {0})
unfolding shift_archives rename_if_exists open_file
rotate_files s =
    (if s.options.max_files == 0 then (do set_current_size 0; open_file true) else (do
      shift_archives s.options.max_files
      rename_if_exists s.path (archive_path s.path 1)
      set_current_size 0
      open_file true))
      (close s)

-- `output_.write` in a good stream: on a closed one it fails. Flushing a closed one does nothing.
abbrev write_good : Exec RotatingFileSink (Unit {0})
write_good s =
    let (o, d) = append_to s.path s.staging_buffer s.disk in
    (ok tt, record s { disk = d; good = elim o [ none ↦ false | some u ↦ true ] })

abbrev write_closed : Exec RotatingFileSink (Unit {0})
write_closed s = (ok tt, record s { good = false })

abbrev flush_good : Exec RotatingFileSink (Unit {0})
flush_good s =
    let (o, d) = sync s.disk in
    (ok tt, record s { disk = d; good = elim o [ none ↦ false | some u ↦ true ] })

-- `if (!output_) throw …`
abbrev check_output : List ℕ → Exec RotatingFileSink (Unit {0})
check_output e s = if s.good then (ok tt, s) else (throw e, s)

unfoldable pub write_batch : Exec RotatingFileSink (Unit {0})
write_batch = do
  (λ s. if s.good then (if s.is_open then write_good s else write_closed s) else (ok tt, s))
  check_output (codes "failed to write rotating log batch")
  (λ s. (
    ok tt,
    record s {
      current_size = add64 s.current_size (length s.staging_buffer);
      staging_buffer = [];
      batch_started_at = 0;
    },
  ))

unfoldable pub flush_output : Exec RotatingFileSink (Unit {0})
flush_output = do
  (λ s. if s.good && s.is_open then flush_good s else (ok tt, s))
  check_output (codes "failed to flush rotating log file")

unfoldable pub drain_staging_buffer : Bool → Exec RotatingFileSink (Unit {0})
unfolding write_batch flush_output
drain_staging_buffer flush_stream = do
  (λ s. if is_empty s.staging_buffer then (ok tt, s) else write_batch s)
  (λ s. if flush_stream then flush_output s else (ok tt, s))

-- The bytes of the file and of the batch.
abbrev pub active_size : RotatingFileSink → ℕ
active_size s = add64 s.current_size (length s.staging_buffer)

-- The first part of `Write`: make room for a line.
unfoldable pub rotate_if_needed : List ℕ → Exec RotatingFileSink (Unit {0})
unfolding drain_staging_buffer rotate_files
rotate_if_needed formatted s =
    if ltb s.options.max_file_size (add64 (active_size s) (length formatted))
      && ltb 0 (active_size s)
    then (do drain_staging_buffer true; rotate_files) s
    else (ok tt, s)

abbrev pub interval_over : RotatingFileSink → ℕ → Bool
interval_over s now =
    is_positive s.options.flush_interval
    && not (s.batch_started_at == 0)
    && leb (s.batch_started_at + nanoseconds s.options.flush_interval) now

-- The line joins the batch.
unfoldable pub stage : ℕ → List ℕ → Exec RotatingFileSink (Unit {0})
stage now formatted s = (
  ok tt,
  record s {
    batch_started_at = if is_empty s.staging_buffer then now else s.batch_started_at;
    staging_buffer = s.staging_buffer ++ formatted;
  },
)

unfoldable pub drain_if_needed : ℕ → Exec RotatingFileSink (Unit {0})
unfolding drain_staging_buffer
drain_if_needed now s =
    let flush_for_size = leb s.options.max_batch_size (length s.staging_buffer) in
    let flush_for_interval = interval_over s now in
    if flush_for_size || flush_for_interval
    then drain_staging_buffer flush_for_interval s
    else (ok tt, s)

unfoldable pub write_line : ℕ → List ℕ → Exec RotatingFileSink (Unit {0})
unfolding rotate_if_needed stage drain_if_needed
write_line now formatted = do rotate_if_needed formatted; stage now formatted; drain_if_needed now

-- `now` is what `Clock::now()` returns, after any rotation.
unfoldable pub write : (ℤ → Tm) → ℕ → LogMessage → Exec RotatingFileSink (Unit {0})
unfolding write_line
write localtime now message s =
    write_line now (format_to localtime s.formatter [] message ++ 10 ∷ []) s

unfoldable pub flush : Exec RotatingFileSink (Unit {0})
unfolding drain_staging_buffer
flush = drain_staging_buffer true

unfoldable pub next_auto_flush_time : RotatingFileSink → Deadline
next_auto_flush_time s =
    if is_empty s.staging_buffer
      || not (is_positive s.options.flush_interval)
      || s.batch_started_at == 0
    then none
    else some (s.batch_started_at + nanoseconds s.options.flush_interval)

unfoldable pub flush_if_due : ℕ → Exec RotatingFileSink Bool
unfolding next_auto_flush_time drain_staging_buffer
flush_if_due now s =
    if is_due (next_auto_flush_time s) now
    then (do drain_staging_buffer true; pure true) s
    else (ok false, s)

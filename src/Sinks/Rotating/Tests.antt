-- ===== src/Sinks/Rotating/Tests.antt =====
-- The theorems on the sizes and on the archives at concrete states.
use high_performance_logger.Common.{true, none, some, ℕ_discrete, ◌≡◌, [], arith, refl}
use high_performance_logger.Common.Text.{codes}
use high_performance_logger.Sinks.Rotating.{
  RotatingFileSink, default_options, write_line, rotate_if_needed, stage, drain_if_needed,
  rotate_files,
}
use high_performance_logger.Sinks.Rotating.FileSystem.{
  put_file, file_exists, remove_file, rename_file, open_truncated, List_ℕ-discrete,
}
use high_performance_logger.Common.Decimal.{decimal}
use high_performance_logger.Sinks.Rotating.Archives.{Rotation, rotate_files-Rotation}
use high_performance_logger.Sinks.Rotating.Sizes.{WroteLine, write_line-WroteLine}

abbrev sink : RotatingFileSink
sink = record {
  path = codes "a.log";
  options = default_options;
  disk = record { files = λ p. none; plan = [] };
  is_open = true;
  good = true;
  staging_buffer = [];
  current_size = 0;
  batch_started_at = 0;
  formatter = record { pattern = []; tokens = [] };
}

write_line-WroteLine_example : WroteLine (codes "line") sink (write_line 7 (codes "line") sink).1
unfolding write_line rotate_if_needed stage drain_if_needed
write_line-WroteLine_example = write_line-WroteLine 7 (codes "line") sink refl (omega arith) refl

-- A sink with one archive of two.
abbrev full_sink : RotatingFileSink
full_sink = record sink {
  options = record default_options { max_files = 2 };
  disk = record {
    files =
        put_file (put_file (λ p. none) (codes "a.log") (some (codes "new"))) (codes "a.log.1")
          (some (codes "old"));
    plan = [];
  };
}

rotate_files-Rotation_example : Rotation full_sink (rotate_files full_sink).1
unfolding rotate_files file_exists remove_file rename_file open_truncated List_ℕ-discrete decimal
    ℕ_discrete
rotate_files-Rotation_example = rotate_files-Rotation full_sink refl

last_archive : (rotate_files full_sink).1.disk.files (codes "a.log.2") ≡ some (codes "old")
unfolding rotate_files file_exists remove_file rename_file open_truncated List_ℕ-discrete decimal
    ℕ_discrete
last_archive = refl

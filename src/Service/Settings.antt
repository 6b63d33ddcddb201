-- ===== src/Service/Settings.antt =====
-- The settings of the service: `GetEnvOrDefault` and `LoadConfig` of examples/service_example.cpp, and
-- examples/runtime_paths.h. `env` is what `std::getenv` returns, and directories can be made.
pub mod Bounds
use high_performance_logger.Common.{
  ℕ, Bool, false, Option, none, some, List, [], ◌∷◌, ◌++◌, ltb, ◌==◌, if◌then◌else◌,
}
use high_performance_logger.Common.Text.{codes}
use high_performance_logger.Common.Int.{ℤ, pos, negsuc, pos_part}
use high_performance_logger.Level.{info, error, parse_log_level}
use high_performance_logger.Formatter.{default_log_pattern}
use high_performance_logger.Sinks.Console.{stderr}
use high_performance_logger.Sinks.Console
use high_performance_logger.Sinks.Rotating
use high_performance_logger.Logger.Worker
use high_performance_logger.Config.{
  LoggerConfig, SinkConfig, console_sink_config, rotating_file_sink_config,
}
use high_performance_logger.Service.Numbers.{int, uint16_t, parse_integer}

pub record ServiceConfig : Type 0 where
  pub port : ℤ
  pub worker_count : ℤ
  pub max_requests : ℤ
  pub logger : LoggerConfig

abbrev pub Environment : Type 0
Environment = List ℕ → Option (List ℕ)

-- `std::max` of a natural number and an integer.
abbrev pub max_ℤ : ℕ → ℤ → ℤ
max_ℤ a (pos b) = if ltb a b then pos b else pos a
max_ℤ a (negsuc b) = pos a

abbrev pub or_default : List ℕ → Option (List ℕ) → List ℕ
or_default fallback none = fallback
or_default fallback (some value) = value

unfoldable pub get_env_or_default : Environment → List ℕ → List ℕ → List ℕ
get_env_or_default env name fallback = or_default fallback (env name)

-- `path / name` on POSIX, with `name` relative and not empty.
unfoldable pub join_path : List ℕ → List ℕ → List ℕ
join_path [] name = name
join_path (c ∷ []) name = if c == b'/' then c ∷ name else c ∷ b'/' ∷ name
join_path (c ∷ d ∷ cs) name = c ∷ join_path (d ∷ cs) name

abbrev pub artifact_root_of : Option (List ℕ) → List ℕ
artifact_root_of none = codes "out"
artifact_root_of (some []) = codes "out"
artifact_root_of (some (c ∷ cs)) = c ∷ cs

unfoldable pub artifact_root : Environment → List ℕ
artifact_root env = artifact_root_of (env (codes "HLOG_ARTIFACT_DIR"))

unfoldable pub runtime_dir : Environment → List ℕ
unfolding artifact_root join_path
runtime_dir env = join_path (artifact_root env) (codes "runtime")

unfoldable pub runtime_log_path : Environment → List ℕ → List ℕ
unfolding runtime_dir join_path
runtime_log_path env file_name = join_path (runtime_dir env) file_name

module _ (env : Environment) where
  -- An `int` setting, no less than `lowest`.
  unfoldable pub setting : ℕ → List ℕ → List ℕ → ℕ → ℤ
  unfolding get_env_or_default parse_integer
  setting lowest name text fallback =
      max_ℤ lowest (parse_integer int (get_env_or_default env name text) (pos fallback))

  unfoldable pub file_config : List ℕ → List ℕ → SinkConfig
  unfolding setting
  file_config log_path pattern =
      rotating_file_sink_config log_path (record Rotating.default_options {
        pattern = pattern;
        max_file_size =
            pos_part (setting 1024 (codes "HLOG_ROTATE_BYTES") (codes "10485760") 10485760);
        max_files = pos_part (setting 1 (codes "HLOG_ROTATE_FILES") (codes "5") 5);
        max_batch_size = pos_part (setting 1 (codes "HLOG_BATCH_BYTES") (codes "65536") 65536);
        flush_interval = setting 0 (codes "HLOG_FLUSH_MS") (codes "250") 250;
      })

  abbrev file_configs : List ℕ → List ℕ → List SinkConfig
  file_configs [] pattern = []
  file_configs (c ∷ log_path) pattern = file_config (c ∷ log_path) pattern ∷ []

  unfoldable pub load_config : ServiceConfig
  unfolding setting file_config get_env_or_default runtime_log_path parse_integer
  load_config =
      let pattern = get_env_or_default env (codes "HLOG_PATTERN") default_log_pattern in
      let log_path =
        get_env_or_default env (codes "HLOG_LOG_PATH")
          (runtime_log_path env (codes "service.log")) in
      record {
        port =
            parse_integer uint16_t (get_env_or_default env (codes "HLOG_PORT") (codes "8080"))
              (pos 8080);
        worker_count = setting 1 (codes "HLOG_WORKERS") (codes "4") 4;
        max_requests = setting 0 (codes "HLOG_MAX_REQUESTS") (codes "0") 0;
        logger = record {
          name = codes "hlog-http-service";
          async_options = record Worker.default_options {
            queue_size = pos_part (setting 256 (codes "HLOG_QUEUE_SIZE") (codes "8192") 8192);
            level =
                parse_log_level (get_env_or_default env (codes "HLOG_LEVEL") (codes "info")) info;
            flush_level =
                parse_log_level (get_env_or_default env (codes "HLOG_FLUSH_LEVEL") (codes "error"))
                  error;
          };
          sinks =
              console_sink_config
                (record { stream = stderr; auto_flush = false; pattern = pattern })
              ∷ file_configs log_path pattern;
        };
      }

-- ===== src/Service/Settings/Bounds.antt =====
-- The bounds that `LoadConfig` of examples/service_example.cpp keeps.
use high_performance_logger.Common.{ℕ, ◌≤◌, ◌≡◌, ◌≢◌, true, List, [], ◌∷◌, refl, arith}
use high_performance_logger.Common.Text.{codes}
use high_performance_logger.Common.Int.{ℤ, pos, negsuc, pos_part}
use high_performance_logger.Config.{
  SinkConfig, console_sink_config, file_sink_config, rotating_file_sink_config,
}
use high_performance_logger.Service.Numbers.{int, uint16_t, is_in_range}
use high_performance_logger.Service.Numbers.Laws.{parse_integer_in_range}
use high_performance_logger.Service.Settings.{
  Environment, ServiceConfig, max_ℤ, setting, get_env_or_default, file_config, file_configs,
  load_config,
}

abbrev pub highest_int : ℕ
highest_int = 2147483647

-- An `int` that is not below a bound.
abbrev pub IsBetween : ℕ → ℤ → Type 0
IsBetween lowest z = (lowest ≤ pos_part z) × (pos_part z ≤ highest_int) × (z ≡ pos (pos_part z))

IsBetween-max_ℤ :
    (lowest : ℕ) (z : ℤ)
    → lowest ≤ highest_int
    → is_in_range int z ≡ true
    → IsBetween lowest (max_ℤ lowest z)
IsBetween-max_ℤ lowest (pos n) h r = ground arith
IsBetween-max_ℤ lowest (negsuc n) h r = ground arith

-- What the rotating sink of the service is given.
abbrev pub IsSane : SinkConfig → Type 0
IsSane (console_sink_config options) = Unit {0}
IsSane (file_sink_config path options) = Unit {0}
IsSane (rotating_file_sink_config path options) =
    (path ≢ [])
    × (1024 ≤ options.max_file_size)
    × (1 ≤ options.max_files)
    × (1 ≤ options.max_batch_size)
    × IsBetween 0 options.flush_interval

abbrev pub AreSane : List SinkConfig → Type 0
AreSane [] = Unit {0}
AreSane (c ∷ cs) = IsSane c × AreSane cs

pub record Bounded (c : ServiceConfig) : Type 0 where
  pub port : is_in_range uint16_t c.port ≡ true
  pub worker_count : IsBetween 1 c.worker_count
  pub max_requests : IsBetween 0 c.max_requests
  pub queue_size : 256 ≤ c.logger.async_options.queue_size
  pub queue_limit : c.logger.async_options.queue_size ≤ highest_int
  pub some_sink : c.logger.sinks ≢ []
  pub sinks : AreSane c.logger.sinks

module _ (env : Environment) where
  IsBetween-setting :
      (lowest : ℕ) (name text : List ℕ) (fallback : ℕ)
      → lowest ≤ highest_int
      → fallback ≤ highest_int
      → IsBetween lowest (setting env lowest name text fallback)
  unfolding setting
  IsBetween-setting lowest name text fallback l h =
      IsBetween-max_ℤ lowest _ l (
        parse_integer_in_range int (get_env_or_default env name text) (pos fallback) (ground arith))

  IsSane-file_config :
      (log_path pattern : List ℕ) → log_path ≢ [] → IsSane (file_config env log_path pattern)
  unfolding file_config
  IsSane-file_config log_path pattern n = (
    n,
    (IsBetween-setting 1024 _ _ 10485760 (omega arith) (omega arith)).0,
    (IsBetween-setting 1 _ _ 5 (omega arith) (omega arith)).0,
    (IsBetween-setting 1 _ _ 65536 (omega arith) (omega arith)).0,
    IsBetween-setting 0 _ _ 250 (omega arith) (omega arith),
  )

  AreSane-file_configs : (log_path pattern : List ℕ) → AreSane (file_configs env log_path pattern)
  AreSane-file_configs [] pattern = tt
  AreSane-file_configs (c ∷ log_path) pattern =
      (IsSane-file_config (c ∷ log_path) pattern (λ e. cc), tt)

-- Whatever the environment holds, the port, the number of workers and of requests, the size of the
-- queue and the limits of the rotating sink are in their ranges, and there is a sink.
pub load_config-Bounded : (env : Environment) → Bounded (load_config env)
unfolding load_config
load_config-Bounded env = record {
  port =
      parse_integer_in_range uint16_t (get_env_or_default env (codes "HLOG_PORT") (codes "8080"))
        (pos 8080) refl;
  worker_count = IsBetween-setting env 1 _ _ 4 (omega arith) (omega arith);
  max_requests = IsBetween-setting env 0 _ _ 0 (omega arith) (omega arith);
  queue_size = (IsBetween-setting env 256 _ _ 8192 (omega arith) (omega arith)).0;
  queue_limit = (IsBetween-setting env 256 _ _ 8192 (omega arith) (omega arith)).1;
  some_sink = λ e. cc;
  sinks = (tt, AreSane-file_configs env _ _);
}

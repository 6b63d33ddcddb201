-- ===== src/Config.antt =====
-- include/hlog/logger_config.h and src/config/logger_config.cpp: sinks and loggers from options.
-- What the constructors of the sinks find in the world is a parameter.
mod Laws
mod Tests
use high_performance_logger.Common.{ℕ, Bool, true, false, List, [], ◌∷◌, ◌++◌, some, none, Option}
use high_performance_logger.Common.Text.{codes}
use high_performance_logger.Sinks.Stream.{Result, ok, throw}
use high_performance_logger.Sinks.Console.{ConsoleSinkOptions, ConsoleSink}
use high_performance_logger.Sinks.File.{FileSinkOptions, FileSink}
use high_performance_logger.Sinks.Rotating.{RotatingFileSinkOptions, RotatingFileSink}
use high_performance_logger.Logger.Worker.{AsyncLogger, AsyncLoggerOptions, make_async_logger}

pub data SinkConfig : Type 0 where
  console_sink_config : ConsoleSinkOptions → SinkConfig
  file_sink_config : List ℕ → FileSinkOptions → SinkConfig
  rotating_file_sink_config : List ℕ → RotatingFileSinkOptions → SinkConfig

pub record LoggerConfig : Type 0 where
  pub name : List ℕ
  pub async_options : AsyncLoggerOptions
  pub sinks : List SinkConfig

-- What a `unique_ptr<Sink>` points to: a sink of one configuration, or a MultiSink over several.
pub data OneSink : Type 0 where
  console : ConsoleSink → OneSink
  file : FileSink → OneSink
  rotating : RotatingFileSink → OneSink

pub data AnySink : Type 0 where
  single : OneSink → AnySink
  multi : List OneSink → AnySink

abbrev pub map_result {ℓ κ} : {A : Type ℓ} {B : Type κ} → (A → B) → Result A → Result B
map_result f (ok a) = ok (f a)
map_result f (throw e) = throw e

abbrev pub and_then {ℓ κ} : {A : Type ℓ} {B : Type κ} → Result A → (A → Result B) → Result B
and_then (ok a) f = f a
and_then (throw e) f = throw e

-- The constructors of the sinks, each with the part of the world that it opens.
pub record Constructors : Type 0 where
  pub make_console : ConsoleSinkOptions → ConsoleSink
  pub make_file : List ℕ → FileSinkOptions → Result FileSink
  pub make_rotating : List ℕ → RotatingFileSinkOptions → Result RotatingFileSink

module _ (world : Constructors) where
  -- `std::visit` on the configuration.
  unfoldable pub create_sink : SinkConfig → Result OneSink
  create_sink (console_sink_config options) = ok (console (world.make_console options))
  create_sink (file_sink_config path options) = map_result file (world.make_file path options)
  create_sink (rotating_file_sink_config path options) =
      map_result rotating (world.make_rotating path options)

  -- `sinks.push_back(CreateSink(config))` for each configuration.
  unfoldable pub create_each : List OneSink → List SinkConfig → Result (List OneSink)
  create_each sinks [] = ok sinks
  create_each sinks (config ∷ configs) =
      and_then (create_sink config) (λ s. create_each (sinks ++ s ∷ []) configs)

  unfoldable pub create_sinks : List SinkConfig → Result AnySink
  create_sinks [] = throw (codes "CreateSink requires at least one sink config")
  create_sinks (config ∷ []) = map_result single (create_sink config)
  create_sinks (config ∷ other ∷ configs) =
      map_result multi (create_each [] (config ∷ other ∷ configs))

  unfoldable pub create_logger : LoggerConfig → Result (AsyncLogger AnySink)
  create_logger config = and_then (create_sinks config.sinks) (λ s.
      make_async_logger (codes "AsyncLogger requires a valid sink") config.name (some s)
        config.async_options)

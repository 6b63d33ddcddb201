-- ===== src/Config/Tests.antt =====
-- CreateSink on two configurations.
use high_performance_logger.Common.{◌≡◌, List, [], ◌∷◌, refl}
use high_performance_logger.Common.Text.{codes}
use high_performance_logger.Sinks.Stream.{ok, Stream}
use high_performance_logger.Sinks.Console
use high_performance_logger.Sinks.Console.{make_console_sink}
use high_performance_logger.Sinks.File.{make_file_sink}
use high_performance_logger.Sinks.Rotating
use high_performance_logger.Sinks.Rotating.{RotatingFileSink}
use high_performance_logger.Common.{true, Option}
use high_performance_logger.Config.{
  Constructors, SinkConfig, OneSink, console, multi, console_sink_config, rotating,
  rotating_file_sink_config, create_sink, create_each, create_sinks,
}
use high_performance_logger.Config.Laws.{Made, fan_out, create_sinks-Made}

abbrev empty_stream : Stream
empty_stream = record { content = []; flushed = 0; good = true; plan = [] }

abbrev no_failure : RotatingFileSink
no_failure = record {
  path = codes "a.log";
  options = Rotating.default_options;
  disk = record { files = λ p. Option.none; plan = [] };
  is_open = true;
  good = true;
  staging_buffer = [];
  current_size = 0;
  batch_started_at = 0;
  formatter = record { pattern = []; tokens = [] };
}

abbrev world : Constructors
world = record {
  make_console = make_console_sink empty_stream empty_stream;
  make_file = make_file_sink true [] [];
  make_rotating = λ path options. ok no_failure;
}

abbrev configs : List SinkConfig
configs =
    console_sink_config Console.default_options
    ∷ rotating_file_sink_config (codes "a.log") Rotating.default_options
    ∷ []

abbrev both : List OneSink
both =
    console (make_console_sink empty_stream empty_stream Console.default_options)
    ∷ rotating no_failure
    ∷ []

create_sinks-Made_example : (ss : List OneSink) × Made world configs ss × (multi both ≡ fan_out ss)
unfolding create_sinks create_each create_sink
create_sinks-Made_example = create_sinks-Made world configs (multi both) refl

-- ===== src/Lib.antt =====
-- A model of hlog, an asynchronous logger in C++, and what is proved of it.
--
-- The program. Threads call AsyncLogger (include/hlog/async_logger.h, src/core/async_logger.cpp).
-- A call that passes the level filter builds a LogPayload from its arguments, puts a QueueItem into
-- a LockFreeRingBuffer and wakes the worker. The worker takes the items out in order and hands each
-- message to a Sink, which renders it with a PatternFormatter and writes lines in batches.
--
-- Files and code.
--   Common      lists, words, integers and decimal texts that the parts share
--   Level       include/hlog/log_level.h: should_log is ShouldLog, parse_log_level ParseLogLevel
--   Ring        include/hlog/detail/lock_free_ring_buffer.h: `advance` is one access of TryEnqueue or
--               TryDequeue to shared memory, `Pc` where a thread stands in its call. Ring.System
--               interleaves any number of threads, Ring.Queue is the abstract bounded queue,
--               Ring.Invariant what holds between two accesses, Ring.Refine the refinement
--   Payload     include/hlog/detail/log_payload.h; Payload.Parts is BuildPayload and
--               AppendPayloadPart of include/hlog/async_logger.h
--   Message     include/hlog/detail/log_message.h
--   Formatter   include/hlog/pattern_formatter.h and src/core/pattern_formatter.cpp:
--               rebuild_tokens is RebuildTokens, format_to FormatTo
--   Sinks       include/hlog/sink.h (Interface), and the sinks of include/hlog/sinks and src/sinks:
--               File, Rotating, Console, Multi. Each operation returns ok or throws and leaves a state
--   Logger      src/core/async_logger.cpp. Gate is the word operation_state_. Machine has every access
--               of Log, Flush and Stop (call_step) and of WorkerLoop (worker_step) to shared memory as
--               one step, save that a look of WaitForWakeup is one; Machine.System interleaves any
--               number of threads and the worker; Machine.Flush, Machine.Exit, Machine.Drain,
--               Machine.Pending and Machine.Races prove what Flush, the gate, the worker and Stats
--               do. Worker has the same operations in larger steps, Calls a whole logging call;
--               there Publish is refused only by a full queue
--   Config      include/hlog/logger_config.h and src/config/logger_config.cpp
--   Service     examples/service_example.cpp, a service that logs with hlog: Settings is LoadConfig,
--               Numbers ParseInteger, Http ParseRequest and BuildHttpResponse, Sending SendAll,
--               Handling HandleConnection, Descriptor FileDescriptor, Connections ConnectionQueue,
--               and Running the accepting loop of main with its workers, one use of the queue a step
--   Benchmark   examples/benchmark_support.h: MutexAsyncLogger, with which the benchmarks compare
--
-- Bounds. Words have 64 bits and wrap around. The ring is shown to work while fewer than 2 ^ 63
-- positions, less the capacity, have been claimed, which a signed difference of positions needs;
-- payloads below 2 ^ 64 - 1 bytes. SendAll alone runs on fuel, and one turn
-- for each byte and one more are enough; retry loops are steps of a relation, the others recurse on
-- their data.
--
-- Outside the model. Memory orders: accesses are sequentially consistent. localtime is a parameter.
-- An output stream is a byte list with a plan that says which operations fail. A clock reading is an
-- argument. Allocation does not fail. The queue of the logger is the bounded queue of
-- Ring.Queue. Stats reads its counters in one moment, and is_quiescent the word of the gate. Times
-- and intervals do not overflow. HandleConnection reads one recv of at most 4096 bytes. Two calls of Stop at once and the destructor are left out. The start of main of the
-- service example (its sockets), its count of requests beyond the int range, the other examples, the
-- benchmark programs and the tests are not modelled.

pub mod Common
pub mod Level
pub mod Ring
pub mod Payload
pub mod Message
pub mod Formatter
pub mod Sinks
pub mod Logger
pub mod Config
pub mod Service
pub mod Benchmark

-- ===== src/Benchmark/Stuck.antt =====
-- A flush of MutexAsyncLogger (examples/benchmark_support.h) that the worker leaves behind.
use high_performance_logger.Common.{ℕ, ◌+◌, ◌≡◌, Bool, true, false}
use high_performance_logger.Benchmark.{
  MutexAsyncLogger, WorkerPc, leaving, last_flush, exited, writing_tail, Step, logs, asks_flush,
  asks_stop, works, Steps, here, then_step,
}

abbrev pub requests_of : {l m : MutexAsyncLogger} → Step l m → ℕ
requests_of (logs payload) = 0
requests_of asks_flush = 1
requests_of asks_stop = 0
requests_of works = 0

-- How many flushes are asked for in a run.
abbrev pub requests : {l m : MutexAsyncLogger} → Steps l m → ℕ
requests here = 0
requests (then_step r step) = requests r + requests_of step

-- The worker has left its loop.
abbrev has_left : WorkerPc → Bool
has_left leaving = true
has_left (writing_tail tail) = true
has_left last_flush = true
has_left exited = true
has_left _ = false

record Behind (complete request : ℕ) (m : MutexAsyncLogger) : Type 0 where
  left : has_left m.worker ≡ true
  same : m.flush_complete_ticket ≡ complete
  asked : m.flush_request_ticket ≡ request

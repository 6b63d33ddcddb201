-- ===== src/Benchmark.antt =====
-- examples/benchmark_support.h: the logger with a mutex that the benchmarks compare with, and the
-- payloads that they log. One step is one use of the mutex, one call of the sink or one other access;
-- the two waits on a condition are steps that change nothing until the condition holds. What the
-- worker reads under one hold of the mutex is one step: `stopping_`, which it reads twice there, is
-- only ever set, so the later read decides.
mod Order
mod Stuck
mod Tests
use high_performance_logger.Common.{
  ℕ, ◌+◌, ◌≡◌, Bool, true, false, ◌&&◌, ◌||◌, not, List, [], ◌∷◌, ◌++◌, ◌==◌, ltb, leb, length,
  if◌then◌else◌, replicate,
}
use high_performance_logger.Common.Text.{codes}
use high_performance_logger.Common.Word.{add64}
use high_performance_logger.Common.Int.{ℤ}
use high_performance_logger.Common.Decimal.{decimal_ℤ}

-- Where the worker stands in WorkerLoop, with its batch and ticket.
pub data WorkerPc : Type 0 where
  waiting leaving last_flush exited : WorkerPc
  writing : List (List ℕ) → ℕ → WorkerPc
  flushing completing : ℕ → WorkerPc
  writing_tail : List (List ℕ) → WorkerPc

-- `given` are the payloads that the sink was given, and `flushed` how many of them had been when it
-- was flushed last; `logged` are those of all calls of Log.
pub record MutexAsyncLogger : Type 0 where
  pub queue : List (List ℕ)
  pub stopping : Bool
  pub flush_request_ticket : ℕ
  pub flush_complete_ticket : ℕ
  pub written : ℕ
  pub worker : WorkerPc
  pub given : List (List ℕ)
  pub flushed : ℕ
  pub logged : List (List ℕ)

abbrev pub start : MutexAsyncLogger
start = record {
  queue = [];
  stopping = false;
  flush_request_ticket = 0;
  flush_complete_ticket = 0;
  written = 0;
  worker = waiting;
  given = [];
  flushed = 0;
  logged = [];
}

abbrev pub is_empty {ℓ} : {A : Type ℓ} → List A → Bool
is_empty [] = true
is_empty (x ∷ xs) = false

unfoldable pub log : List ℕ → MutexAsyncLogger → MutexAsyncLogger
log payload l = record l { queue = l.queue ++ payload ∷ []; logged = l.logged ++ payload ∷ [] }

-- The first part of Flush, up to its wait.
unfoldable pub request_flush : MutexAsyncLogger → MutexAsyncLogger
request_flush l = record l { flush_request_ticket = add64 l.flush_request_ticket 1 }

-- What Flush waits for.
abbrev pub flush_done : MutexAsyncLogger → Bool
flush_done l = leb l.flush_request_ticket l.flush_complete_ticket

unfoldable pub request_stop : MutexAsyncLogger → MutexAsyncLogger
request_stop l = record l { stopping = true }

abbrev pub flush_pending : MutexAsyncLogger → Bool
flush_pending l = ltb l.flush_complete_ticket l.flush_request_ticket

-- The wait has ended: leave the loop, or take the batch and the ticket.
abbrev pub take_batch : MutexAsyncLogger → MutexAsyncLogger
take_batch l = if is_empty l.queue && l.stopping then record l { worker = leaving } else record l {
  queue = [];
  worker = writing l.queue (if flush_pending l then l.flush_request_ticket else 0);
}

abbrev pub write_one : List ℕ → WorkerPc → MutexAsyncLogger → MutexAsyncLogger
write_one payload next l = record l {
  given = l.given ++ payload ∷ [];
  written = add64 l.written 1;
  worker = next;
}

abbrev pub flush_sink : WorkerPc → MutexAsyncLogger → MutexAsyncLogger
flush_sink next l = record l { flushed = length l.given; worker = next }

unfoldable pub worker_step : WorkerPc → MutexAsyncLogger → MutexAsyncLogger
worker_step waiting l =
    if l.stopping || flush_pending l || not (is_empty l.queue) then take_batch l else l
worker_step (writing [] ticket) l = record l {
  worker = if ticket == 0 then waiting else flushing ticket;
}
worker_step (writing (payload ∷ batch) ticket) l = write_one payload (writing batch ticket) l
worker_step (flushing ticket) l = flush_sink (completing ticket) l
worker_step (completing ticket) l = record l { flush_complete_ticket = ticket; worker = waiting }
worker_step leaving l = record l { queue = []; worker = writing_tail l.queue }
worker_step (writing_tail []) l = record l { worker = last_flush }
worker_step (writing_tail (payload ∷ tail)) l = write_one payload (writing_tail tail) l
worker_step last_flush l = flush_sink exited l
worker_step exited l = l

-- A step of a caller or of the worker.
pub data Step (l : MutexAsyncLogger) : MutexAsyncLogger → Type 0 where
  logs : (payload : List ℕ) → Step l (log payload l)
  asks_flush : Step l (request_flush l)
  asks_stop : Step l (request_stop l)
  works : Step l (worker_step l.worker l)

pub data Steps (l : MutexAsyncLogger) : MutexAsyncLogger → Type 0 where
  here : Steps l l
  then_step : {m n : MutexAsyncLogger} → Steps l m → Step m n → Steps l n

-- The payloads.
unfoldable pub make_payload : ℤ → ℤ → List ℕ
make_payload thread_id index =
    ((codes "thread=" ++ decimal_ℤ thread_id) ++ codes " seq=") ++ decimal_ℤ index

abbrev pub long_payload_blob : List ℕ
long_payload_blob = replicate 512 b'x'

unfoldable pub make_large_payload : ℤ → ℤ → List ℕ
unfolding make_payload
make_large_payload thread_id index =
    (make_payload thread_id index ++ codes " payload=") ++ long_payload_blob

-- ===== src/Logger/Machine.antt =====
-- Every access to shared memory of src/core/async_logger.cpp, as a step of the calling thread or of
-- the worker. One step stands for one atomic access, one use of the queue or one call of the sink;
-- but NotifyWorker is one step, so are the two counters of a dropped message, and so is a look of
-- WaitForWakeup at what it waits for, which loads wake_signal_, worker_failed_ and operation_state_
-- (`wake_test`). The queue is the bounded queue of Ring/Queue.antt, which may also refuse while another
-- call has claimed a cell and not released it (`busy`).
pub mod System
pub mod Flush
pub mod Exit
pub mod Races
pub mod Drain
pub mod Pending
mod Tests
use high_performance_logger.Common.{
  ℕ, ◌+◌, Bool, true, false, ◌&&◌, ◌||◌, not, Option, none, some, List, [], ◌∷◌, ◌++◌, ltb, leb,
  ◌==◌, length,
}
use high_performance_logger.Common.Word.{add64, sub64}
use high_performance_logger.Level.{should_log}
use high_performance_logger.Message.{LogMessage, QueueItemType, log, flush, QueueItem}
use high_performance_logger.Sinks.Stream.{Result, ok, throw, is_due}
use high_performance_logger.Sinks.Interface.{SinkInterface}
use high_performance_logger.Logger.Gate.{
  try_start_operation, finish_operation, request_stop, stop_requested, active_operation_count,
}
use high_performance_logger.Logger.Worker.{
  AsyncLogger, OverflowPolicy, block, drop_newest, is_log, first_failure,
}

-- What a call has come to: it returned false, or true for a message or for a flush ticket, or
-- nothing (Stop).
pub data Outcome : Type 0 where
  refused : Outcome
  logged : QueueItem → Outcome
  flushed : ℕ → Outcome
  stopped : Outcome

-- Where a thread stands in Log, Flush or Stop.
pub data Pc : Type 0 where
  idle : Pc
  log_enter log_failure log_level log_count : QueueItem → Pc
  flush_enter flush_failure flush_ticket : LogMessage → Pc
  publish_failure publish_enqueue publish_notify : QueueItem → Pc
  uncount count_dropped : QueueItem → Pc
  wait_load wait_last : ℕ → Pc
  wait_failure wait_asleep : ℕ → ℕ → Pc
  finish finish_notify returned : Outcome → Pc
  stop_enter stop_notify stop_join : Pc

-- Where the worker stands in WorkerLoop; `required` and `progress` are its two locals. `again` is
-- true behind the second TryDequeue of the loop.
pub data WorkerPc : Type 0 where
  draining : (required progress : Bool) → WorkerPc
  handling : (again required : Bool) → QueueItem → WorkerPc
  completing : (again required : Bool) → ℕ → WorkerPc
  counting deciding : (again required : Bool) → QueueItem → WorkerPc
  flush_required : (again : Bool) → WorkerPc
  flush_due : (progress : Bool) → WorkerPc
  stop_test active_test : (progress : Bool) → WorkerPc
  load_signal : WorkerPc
  try_again wake_test blocking blocked : ℕ → WorkerPc
  last_flush : WorkerPc
  fail_message : List ℕ → WorkerPc
  fail_stop fail_flag fail_ticket : WorkerPc
  fail_complete : ℕ → WorkerPc
  fail_notify : WorkerPc
  exited : WorkerPc

-- What a step did that the other threads, or the ghost state, must hear of.
pub data Note : Type 0 where
  nothing pushed taken notified joined written : Note
  ticketed : ℕ → Note
  synced : Note
  synced_flush : Note

abbrev pub blocks : OverflowPolicy → QueueItemType → Bool
blocks policy flush = true
blocks block log = true
blocks drop_newest log = false

abbrev pub flush_item : LogMessage → ℕ → QueueItem
flush_item m t = record { type = flush; ticket = t; message = m }

-- Publish has put the item into the queue.
abbrev pub after_publish : QueueItem → Pc
after_publish item = elim item.type [ log ↦ finish (logged item) | flush ↦ wait_load item.ticket ]

-- Publish gives up: a message is taken out of the count.
abbrev pub give_up : QueueItem → Pc
give_up item = elim item.type [ log ↦ uncount item | flush ↦ finish refused ]

-- `is_joined` and `has_exited` are what the thread object of the worker says.
module _ {S : Type 0} (busy is_joined has_exited : Bool) (l : AsyncLogger S) where
  unfoldable pub call_step : Pc → AsyncLogger S × Pc × Note
  call_step idle = (l, idle, nothing)
  call_step (log_enter item) = elim (try_start_operation l.operation_state) [
    | none ↦ (l, returned refused, nothing)
    | some state ↦ (record l { operation_state = state }, log_failure item, nothing)
  ]
  call_step (log_failure item) =
      (l, elim l.worker_failed [ true ↦ finish refused | false ↦ log_level item ], nothing)
  call_step (log_level item) = (
    l,
    elim (should_log item.message.level l.level) [ true ↦ log_count item | false ↦ finish refused ],
    nothing,
  )
  call_step (log_count item) =
      (record l { enqueued = add64 l.enqueued 1 }, publish_failure item, nothing)
  call_step (flush_enter m) = elim (try_start_operation l.operation_state) [
    | none ↦ (l, returned refused, nothing)
    | some state ↦ (record l { operation_state = state }, flush_failure m, nothing)
  ]
  call_step (flush_failure m) = (
    l,
    elim (is_joined || l.worker_failed) [ true ↦ finish refused | false ↦ flush_ticket m ],
    nothing,
  )
  call_step (flush_ticket m) =
      let t = add64 l.flush_request_ticket 1 in
      (record l { flush_request_ticket = t }, publish_failure (flush_item m t), ticketed t)
  call_step (publish_failure item) =
      (l, elim l.worker_failed [ true ↦ give_up item | false ↦ publish_enqueue item ], nothing)
  call_step (publish_enqueue item) = elim (ltb (length l.queue) l.queue_capacity && not busy) [
    | true ↦ (record l { queue = l.queue ++ item ∷ [] }, publish_notify item, pushed)
    | false ↦ (
      l,
      elim (blocks l.overflow_policy item.type) [
        | true ↦ publish_failure item
        | false ↦ count_dropped item
      ],
      nothing,
    )
  ]
  call_step (publish_notify item) =
      (record l { wake_signal = add64 l.wake_signal 1 }, after_publish item, notified)
  call_step (uncount item) = (record l { enqueued = sub64 l.enqueued 1 }, finish refused, nothing)
  call_step (count_dropped item) = (
    record l { enqueued = sub64 l.enqueued 1; dropped = add64 l.dropped 1 },
    finish refused,
    nothing,
  )
  call_step (wait_load t) = (
    l,
    elim (ltb l.flush_complete_ticket t) [
      | true ↦ wait_failure t l.flush_complete_ticket
      | false ↦ wait_last t
    ],
    nothing,
  )
  call_step (wait_failure t c) =
      (l, elim l.worker_failed [ true ↦ finish refused | false ↦ wait_asleep t c ], nothing)
  call_step (wait_asleep t c) = (
    l,
    elim (l.flush_complete_ticket == c) [ true ↦ wait_asleep t c | false ↦ wait_load t ],
    nothing,
  )
  call_step (wait_last t) =
      (l, elim l.worker_failed [ true ↦ finish refused | false ↦ finish (flushed t) ], nothing)
  call_step (finish o) =
      let (state, last) = finish_operation l.operation_state in
      (
        record l { operation_state = state },
        elim last [ true ↦ finish_notify o | false ↦ returned o ],
        nothing,
      )
  call_step (finish_notify o) =
      (record l { wake_signal = add64 l.wake_signal 1 }, returned o, notified)
  call_step (returned o) = (l, returned o, nothing)
  call_step stop_enter =
      let (state, closed) = request_stop l.operation_state in
      (
        record l { operation_state = state },
        elim closed [ true ↦ stop_notify | false ↦ stop_join ],
        nothing,
      )
  call_step stop_notify = (record l { wake_signal = add64 l.wake_signal 1 }, stop_join, notified)
  call_step stop_join = (
    l,
    elim (is_joined || has_exited) [ true ↦ returned stopped | false ↦ stop_join ],
    elim has_exited [ true ↦ joined | false ↦ nothing ],
  )

-- Behind HandleItem: the inner loop goes on, or the second use of it flushes if it must.
abbrev pub after_handling : Bool → Bool → WorkerPc
after_handling false required = draining required true
after_handling true required = elim required [
  | true ↦ flush_required true
  | false ↦ draining false false
]

module _ (sink : SinkInterface) where
  open sink use {State, Reading}

  -- A call of the sink: on success go on, and on an exception to the `catch`.
  abbrev pub on_sink :
      {A : Type 0}
      → AsyncLogger State
      → Result A × State
      → (A → WorkerPc)
      → Note
      → AsyncLogger State × WorkerPc × Note
  on_sink l r next n = elim r.0 [
    | ok a ↦ (record l { sink = r.1 }, next a, n)
    | throw e ↦ (record l { sink = r.1 }, fail_message e, nothing)
  ]

  -- The wait ends: the predicate of WaitForWakeup.
  abbrev pub should_wake : ℕ → AsyncLogger State → Bool
  should_wake signal l =
      not (l.wake_signal == signal)
      || l.worker_failed
      || stop_requested l.operation_state && (active_operation_count l.operation_state == 0)

  unfoldable pub worker_step :
      Bool → Reading → ℕ → AsyncLogger State → WorkerPc → AsyncLogger State × WorkerPc × Note
  worker_step busy reading now l (draining required progress) =
      elim (elim busy as (λ _. List QueueItem) [ true ↦ [] | false ↦ l.queue ]) [
        | [] ↦
            (l, elim required [ true ↦ flush_required false | false ↦ flush_due progress ], nothing)
        | item ∷ items ↦ (record l { queue = items }, handling false required item, taken)
      ]
  worker_step busy reading now l (handling again required item) = elim item.type [
    | flush ↦
        on_sink l (sink.flush l.sink) (λ _. completing again required item.ticket) synced_flush
    | log ↦
        on_sink l (sink.write reading item.message l.sink) (λ _. counting again required item)
          written
  ]
  worker_step busy reading now l (completing again required t) =
      (record l { flush_complete_ticket = t }, after_handling again required, nothing)
  worker_step busy reading now l (counting again required item) =
      (record l { written = add64 l.written 1 }, deciding again required item, nothing)
  worker_step busy reading now l (deciding again required item) =
      (l, after_handling again (should_log item.message.level l.flush_level || required), nothing)
  worker_step busy reading now l (flush_required false) =
      on_sink l (sink.flush l.sink) (λ _. flush_due true) synced
  worker_step busy reading now l (flush_required true) =
      on_sink l (sink.flush l.sink) (λ _. draining false false) synced
  worker_step busy reading now l (flush_due progress) =
      on_sink l (sink.flush_if_due now l.sink) (λ b. stop_test (b || progress)) nothing
  worker_step busy reading now l (stop_test progress) = (
    l,
    elim (stop_requested l.operation_state) [
      | true ↦ active_test progress
      | false ↦ elim progress [ true ↦ draining false false | false ↦ load_signal ]
    ],
    nothing,
  )
  worker_step busy reading now l (active_test progress) = (
    l,
    elim (active_operation_count l.operation_state == 0) [
      | true ↦ last_flush
      | false ↦ elim progress [ true ↦ draining false false | false ↦ load_signal ]
    ],
    nothing,
  )
  worker_step busy reading now l load_signal = (l, try_again l.wake_signal, nothing)
  worker_step busy reading now l (try_again signal) =
      elim (elim busy as (λ _. List QueueItem) [ true ↦ [] | false ↦ l.queue ]) [
        | [] ↦ (l, wake_test signal, nothing)
        | item ∷ items ↦ (record l { queue = items }, handling true false item, taken)
      ]
  worker_step busy reading now l (wake_test signal) = (
    l,
    elim (should_wake signal l || is_due (sink.next_auto_flush_time l.sink) now) [
      | true ↦ draining false false
      | false ↦ blocking signal
    ],
    nothing,
  )
  worker_step busy reading now l (blocking signal) = (l, blocked signal, nothing)
  worker_step busy reading now l (blocked signal) = (
    l,
    elim (is_due (sink.next_auto_flush_time l.sink) now) [
      | true ↦ draining false false
      | false ↦ blocked signal
    ],
    nothing,
  )
  worker_step busy reading now l last_flush = on_sink l (sink.flush l.sink) (λ _. exited) synced
  worker_step busy reading now l (fail_message e) =
      (record l { background_failure = first_failure e l.background_failure }, fail_stop, nothing)
  worker_step busy reading now l fail_stop =
      let (state, closed) = request_stop l.operation_state in
      (record l { operation_state = state }, fail_flag, nothing)
  worker_step busy reading now l fail_flag =
      (record l { worker_failed = true }, fail_ticket, nothing)
  worker_step busy reading now l fail_ticket = (l, fail_complete l.flush_request_ticket, nothing)
  worker_step busy reading now l (fail_complete t) =
      (record l { flush_complete_ticket = t }, fail_notify, nothing)
  worker_step busy reading now l fail_notify =
      (record l { wake_signal = add64 l.wake_signal 1 }, exited, notified)
  worker_step busy reading now l exited = (l, exited, nothing)

-- ===== src/Logger/Worker.antt =====
-- The state of an AsyncLogger, and what its operations and its worker do to it
-- (include/hlog/async_logger.h, src/core/async_logger.cpp). The queue is the bounded queue that
-- Ring/Refine.antt shows LockFreeRingBuffer to be.
pub mod Laws
use high_performance_logger.Common.{
  ℕ, zero, suc, ◌+◌, ◌-◌, ◌<◌, ◌≤◌, Bool, true, false, ◌&&◌, ◌||◌, not, Option, none, some, List,
  [], ◌∷◌, ◌++◌, ltb, leb, ◌==◌, length,
}
use high_performance_logger.Common.Word.{add64, sub64}
use high_performance_logger.Level.{LogLevel, info, error, should_log}
use high_performance_logger.Message.{QueueItemType, log, flush, QueueItem}
use high_performance_logger.Sinks.Stream.{Result, ok, throw, Exec, ◌>>=◌, ◌>>◌, pure}
use high_performance_logger.Sinks.Interface.{SinkInterface}
use high_performance_logger.Ring.{round_up_power_of_two}
use high_performance_logger.Logger.Gate.{request_stop}

pub data OverflowPolicy : Type 0 where
  block drop_newest : OverflowPolicy

pub record AsyncLoggerOptions : Type 0 where
  pub queue_size : ℕ
  pub overflow_policy : OverflowPolicy
  pub level : LogLevel
  pub flush_level : LogLevel

abbrev pub default_options : AsyncLoggerOptions
default_options = record {
  queue_size = 8192;
  overflow_policy = block;
  level = info;
  flush_level = error;
}

pub record LoggerStats : Type 0 where
  pub enqueued : ℕ
  pub dropped : ℕ
  pub written : ℕ
  pub pending : ℕ

pub record AsyncLogger (S : Type 0) : Type 0 where
  pub name : List ℕ
  pub sink : S
  pub queue : List QueueItem
  pub queue_capacity : ℕ
  pub overflow_policy : OverflowPolicy
  pub operation_state : ℕ
  pub level : LogLevel
  pub flush_level : LogLevel
  pub wake_signal : ℕ
  pub flush_request_ticket : ℕ
  pub flush_complete_ticket : ℕ
  pub enqueued : ℕ
  pub dropped : ℕ
  pub written : ℕ
  pub worker_failed : Bool
  pub background_failure : Option (List ℕ)

-- The constructor, of a sink that is there or null. The worker thread starts with it.
unfoldable pub make_async_logger :
    {S : Type 0} → List ℕ → List ℕ → Option S → AsyncLoggerOptions → Result (AsyncLogger S)
make_async_logger message new_name none options = throw message
make_async_logger message new_name (some s) options = ok (record {
  name = new_name;
  sink = s;
  queue = [];
  queue_capacity = round_up_power_of_two options.queue_size;
  overflow_policy = options.overflow_policy;
  operation_state = 0;
  level = options.level;
  flush_level = options.flush_level;
  wake_signal = 0;
  flush_request_ticket = 0;
  flush_complete_ticket = 0;
  enqueued = 0;
  dropped = 0;
  written = 0;
  worker_failed = false;
  background_failure = none;
})

abbrev pub set_level : {S : Type 0} → LogLevel → AsyncLogger S → AsyncLogger S
set_level new_level l = record l { level = new_level }

abbrev pub set_flush_level : {S : Type 0} → LogLevel → AsyncLogger S → AsyncLogger S
set_flush_level new_level l = record l { flush_level = new_level }

abbrev pub level_of : {S : Type 0} → AsyncLogger S → LogLevel
level_of l = l.level

abbrev pub flush_level_of : {S : Type 0} → AsyncLogger S → LogLevel
flush_level_of l = l.flush_level

abbrev pub failed : {S : Type 0} → AsyncLogger S → Bool
failed l = l.worker_failed

-- An empty text where the worker has not failed.
abbrev text_or_empty : Option (List ℕ) → List ℕ
text_or_empty none = []
text_or_empty (some text) = text

abbrev pub failure_message : {S : Type 0} → AsyncLogger S → List ℕ
failure_message l = text_or_empty l.background_failure

abbrev pub name_of : {S : Type 0} → AsyncLogger S → List ℕ
name_of l = l.name

abbrev pub notify_worker : {S : Type 0} → AsyncLogger S → AsyncLogger S
notify_worker l = record l { wake_signal = add64 l.wake_signal 1 }

unfoldable pub stats : {S : Type 0} → AsyncLogger S → LoggerStats
stats l = record {
  enqueued = l.enqueued;
  dropped = l.dropped;
  written = l.written;
  pending = elim (leb l.written l.enqueued) [ true ↦ l.enqueued - l.written | false ↦ 0 ];
}

abbrev pub is_log : QueueItem → Bool
is_log item = elim item.type [ log ↦ true | flush ↦ false ]

-- The statements of `Publish` before its loop.
unfoldable pub publish_begin : {S : Type 0} → QueueItem → AsyncLogger S → AsyncLogger S
publish_begin item l = elim (is_log item) [
  | true ↦ record l { enqueued = add64 l.enqueued 1 }
  | false ↦ l
]

abbrev pub PublishResult : Type 0
PublishResult = Option Bool

-- An item that is not published is taken out of `enqueued_`, and is counted as dropped if the
-- queue was full.
abbrev pub uncount : {S : Type 0} → QueueItem → AsyncLogger S → AsyncLogger S
uncount item l = elim (is_log item) [
  | true ↦ record l { enqueued = sub64 l.enqueued 1 }
  | false ↦ l
]

abbrev pub count_dropped : {S : Type 0} → QueueItem → AsyncLogger S → AsyncLogger S
count_dropped item l = elim (is_log item) [
  | true ↦ record l { enqueued = sub64 l.enqueued 1; dropped = add64 l.dropped 1 }
  | false ↦ l
]

-- One turn of the loop of `Publish`, or the statements behind it when the worker has failed; the
-- answer is `none` when the loop goes on.
unfoldable pub publish_attempt :
    {S : Type 0} → Bool → QueueItem → AsyncLogger S → PublishResult × AsyncLogger S
publish_attempt block_on_full item l = elim l.worker_failed [
  | true ↦ (some false, uncount item l)
  | false ↦ elim (ltb (length l.queue) l.queue_capacity) [
    | true ↦ (some true, notify_worker (record l { queue = l.queue ++ item ∷ [] }))
    | false ↦ elim block_on_full [ true ↦ (none, l) | false ↦ (some false, count_dropped item l) ]
  ]
]

abbrev pub first_failure : List ℕ → Option (List ℕ) → Option (List ℕ)
first_failure message none = some message
first_failure message (some first) = some first

-- `RecordWorkerFailure`; the first failure is kept.
unfoldable pub record_worker_failure : {S : Type 0} → List ℕ → AsyncLogger S → AsyncLogger S
record_worker_failure message l =
    let (state, _) = request_stop l.operation_state in
    notify_worker (record l {
      background_failure = first_failure message l.background_failure;
      operation_state = state;
      worker_failed = true;
      flush_complete_ticket = l.flush_request_ticket;
    })

module _ (sink : SinkInterface) where
  open sink use {State, Reading}

  abbrev pub on_sink : {A : Type 0} → Exec State A → Exec (AsyncLogger State) A
  on_sink op l = let (r, s) = op l.sink in (r, record l { sink = s })

  abbrev pub handle_flush : QueueItem → AsyncLogger State → Result Bool × AsyncLogger State
  handle_flush item l = (ok false, record l { flush_complete_ticket = item.ticket })

  abbrev pub handle_written : QueueItem → AsyncLogger State → Result Bool × AsyncLogger State
  handle_written item l =
      (ok (should_log item.message.level l.flush_level), record l { written = add64 l.written 1 })

  unfoldable pub handle_item : Reading → QueueItem → Exec (AsyncLogger State) Bool
  handle_item reading item = elim item.type [
    | flush ↦ on_sink sink.flush >>= (λ _. handle_flush item)
    | log ↦ on_sink (sink.write reading item.message) >>= (λ _. handle_written item)
  ]

  -- The inner loop of `WorkerLoop`, on the items that `TryDequeue` gives it; the answer is
  -- `flush_required`. Item `i` is written at `readings i`.
  unfoldable pub handle_items :
      (ℕ → Reading) → List QueueItem → Bool → Exec (AsyncLogger State) Bool
  handle_items readings [] flush_required l = (ok flush_required, l)
  handle_items readings (item ∷ items) flush_required l =
      let (r, l') = handle_item (readings 0) item l in
      elim r [
        | ok b ↦ handle_items (λ i. readings (suc i)) items (b || flush_required) l'
        | throw e ↦ (throw e, l')
      ]

  -- One turn of `WorkerLoop` up to its exit test; the answer is `made_progress`.
  unfoldable pub worker_pass : (ℕ → Reading) → ℕ → List QueueItem → Exec (AsyncLogger State) Bool
  worker_pass readings now items = handle_items readings items false >>= λ flush_required.
      elim flush_required [ true ↦ on_sink sink.flush | false ↦ pure tt ]
      >> (on_sink (sink.flush_if_due now) >>= λ due.
          pure (due || flush_required || not (length items == 0)))

  -- The `catch` around the loop.
  unfoldable pub guarded :
      {A : Type 0} → Exec (AsyncLogger State) A → Exec (AsyncLogger State) (Option A)
  guarded op l =
      let (r, l') = op l in
      elim r [ ok a ↦ (ok (some a), l') | throw e ↦ (ok none, record_worker_failure e l') ]

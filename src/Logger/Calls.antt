-- ===== src/Logger/Calls.antt =====
-- Whole calls of the logging functions (include/hlog/async_logger.h: Log) and the loop of Publish
-- (src/core/async_logger.cpp). `turns` says what the other threads do between the turns of the loop;
-- the answer is `none` while the call still waits for room.
use high_performance_logger.Common.{
  ℕ, Bool, true, false, Option, none, some, List, [], ◌∷◌, not, ◌||◌, leb,
}
use high_performance_logger.Common.Int.{ℤ, pos}
use high_performance_logger.Level.{LogLevel, should_log}
use high_performance_logger.Message.{SourceLocation, QueueItem, log}
use high_performance_logger.Payload.Parts.{Arg, build_payload}
use high_performance_logger.Logger.Gate.{try_start_operation, finish_operation, request_stop}
use high_performance_logger.Logger.Worker.{
  AsyncLogger, OverflowPolicy, block, drop_newest, PublishResult, publish_begin, publish_attempt,
  notify_worker,
}

-- What the destructor of a guard does.
abbrev pub leave : {S : Type 0} → AsyncLogger S → AsyncLogger S
leave l =
    let (state, last) = finish_operation l.operation_state in
    elim last [
      | true ↦ notify_worker (record l { operation_state = state })
      | false ↦ record l { operation_state = state }
    ]

abbrev pub leave_if : {S : Type 0} → PublishResult × AsyncLogger S → PublishResult × AsyncLogger S
leave_if (none, l) = (none, l)
leave_if (some b, l) = (some b, leave l)

unfoldable pub publish_loop :
    {S : Type 0}
    → List (AsyncLogger S → AsyncLogger S)
    → Bool
    → QueueItem
    → AsyncLogger S
    → PublishResult × AsyncLogger S
publish_loop [] block_on_full item l = publish_attempt block_on_full item l
publish_loop (others ∷ turns) block_on_full item l =
    let (r, l') = publish_attempt block_on_full item l in
    let rest = publish_loop turns block_on_full item (others l') in
    elim r [ none ↦ rest | some b ↦ (some b, l') ]

unfoldable pub publish :
    {S : Type 0}
    → List (AsyncLogger S → AsyncLogger S)
    → Bool
    → QueueItem
    → AsyncLogger S
    → PublishResult × AsyncLogger S
publish turns block_on_full item l = publish_loop turns block_on_full item (publish_begin item l)

abbrev blocks : OverflowPolicy → Bool
blocks block = true
blocks drop_newest = false

abbrev pub log_item :
    {S : Type 0} → ℤ → ℕ → LogLevel → SourceLocation → List Arg → AsyncLogger S → QueueItem
log_item now thread severity location args l = record {
  type = log;
  ticket = 0;
  message = record {
    timestamp = now;
    level = severity;
    logger_name = l.name;
    thread_id = thread;
    source = location;
    payload = build_payload args;
  };
}

unfoldable pub log_message :
    {S : Type 0}
    → List (AsyncLogger S → AsyncLogger S)
    → ℤ
    → ℕ
    → LogLevel
    → SourceLocation
    → List Arg
    → AsyncLogger S
    → PublishResult × AsyncLogger S
log_message turns now thread severity location args l =
    elim (try_start_operation l.operation_state) [
      | none ↦ (some false, l)
      | some state ↦
          let started : AsyncLogger _ = record l { operation_state = state } in
          elim (l.worker_failed || not (should_log severity l.level)) [
            | true ↦ (some false, leave started)
            | false ↦ leave_if (
                publish turns (blocks l.overflow_policy)
                  (log_item now thread severity location args l) started)
          ]
    ]

-- The functions of the interface: the severity is in the name, and the source location is empty or
-- the caller's.
abbrev pub no_location : SourceLocation
no_location = record { file = []; line = pos 0; function = [] }

module _ {S : Type 0} (turns : List (AsyncLogger S → AsyncLogger S)) (now : ℤ) (thread : ℕ) where
  abbrev pub log_trace : List Arg → AsyncLogger S → PublishResult × AsyncLogger S
  log_trace = log_message turns now thread LogLevel.trace no_location

  abbrev pub log_trace_at :
      SourceLocation → List Arg → AsyncLogger S → PublishResult × AsyncLogger S
  log_trace_at = log_message turns now thread LogLevel.trace

  abbrev pub log_debug : List Arg → AsyncLogger S → PublishResult × AsyncLogger S
  log_debug = log_message turns now thread LogLevel.debug no_location

  abbrev pub log_debug_at :
      SourceLocation → List Arg → AsyncLogger S → PublishResult × AsyncLogger S
  log_debug_at = log_message turns now thread LogLevel.debug

  abbrev pub log_info : List Arg → AsyncLogger S → PublishResult × AsyncLogger S
  log_info = log_message turns now thread LogLevel.info no_location

  abbrev pub log_info_at : SourceLocation → List Arg → AsyncLogger S → PublishResult × AsyncLogger S
  log_info_at = log_message turns now thread LogLevel.info

  abbrev pub log_warn : List Arg → AsyncLogger S → PublishResult × AsyncLogger S
  log_warn = log_message turns now thread LogLevel.warn no_location

  abbrev pub log_warn_at : SourceLocation → List Arg → AsyncLogger S → PublishResult × AsyncLogger S
  log_warn_at = log_message turns now thread LogLevel.warn

  abbrev pub log_error : List Arg → AsyncLogger S → PublishResult × AsyncLogger S
  log_error = log_message turns now thread LogLevel.error no_location

  abbrev pub log_error_at :
      SourceLocation → List Arg → AsyncLogger S → PublishResult × AsyncLogger S
  log_error_at = log_message turns now thread LogLevel.error

  abbrev pub log_critical : List Arg → AsyncLogger S → PublishResult × AsyncLogger S
  log_critical = log_message turns now thread LogLevel.critical no_location

  abbrev pub log_critical_at :
      SourceLocation → List Arg → AsyncLogger S → PublishResult × AsyncLogger S
  log_critical_at = log_message turns now thread LogLevel.critical

-- The test of the loop that waits for a ticket: `none` while it goes on.
unfoldable pub flush_wait : {S : Type 0} → ℕ → AsyncLogger S → Option Bool
flush_wait ticket l = elim (leb ticket l.flush_complete_ticket) [
  | true ↦ some (not l.worker_failed)
  | false ↦ elim l.worker_failed [ true ↦ some false | false ↦ none ]
]

-- `Stop`, before it joins the worker.
unfoldable pub stop_begin : {S : Type 0} → AsyncLogger S → AsyncLogger S
stop_begin l =
    let (state, closed) = request_stop l.operation_state in
    elim closed [
      | true ↦ notify_worker (record l { operation_state = state })
      | false ↦ record l { operation_state = state }
    ]

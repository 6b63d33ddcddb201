-- ===== src/Logger/Tests.antt =====
-- The theorems on the logger at concrete states.
use high_performance_logger.Common.{
  ℕ, ◌+◌, ◌≡◌, true, false, ◌&&◌, ◌||◌, ◌==◌, none, List, [], ◌∷◌, refl, arith,
}
use high_performance_logger.Common.Int.{pos}
use high_performance_logger.Level.{info, error}
use high_performance_logger.Message.{QueueItem, QueueItemType, log, flush}
use high_performance_logger.Payload.{empty_payload}
use high_performance_logger.Sinks.Stream.{ok}
use high_performance_logger.Sinks.Interface.{SinkInterface}
use high_performance_logger.Logger.Gate.{is_quiescent}
use high_performance_logger.Logger.Gate.Laws.{
  Gate, word_of, end_operation, gate_call, word_call, word_call-gate_call, is_quiescent_lem,
}
use high_performance_logger.Logger.Worker.{AsyncLogger, block, handle_items}
use high_performance_logger.Logger.Worker.Laws.{any_urgent, after_all, handle_items_ok}

-- The last operation of a stopping logger ends.
abbrev closing : Gate
closing = record { closed = true; active = 1 }

word_call-gate_call_example :
    word_call end_operation (word_of closing)
    ≡ (word_of (gate_call end_operation closing).0, (gate_call end_operation closing).1)
word_call-gate_call_example = word_call-gate_call end_operation closing (omega arith, omega arith)

is_quiescent_lem_example : is_quiescent (word_of closing) ≡ (true && (1 == 0))
is_quiescent_lem_example = is_quiescent_lem closing (omega arith)

-- A sink that counts the writes.
abbrev counting : SinkInterface
counting = record {
  State = ℕ;
  Reading = ℕ;
  write = λ now m s. (ok tt, s + 1);
  flush = λ s. (ok tt, s);
  next_auto_flush_time = λ s. none;
  flush_if_due = λ now s. (ok false, s);
}

abbrev item_of : QueueItemType → ℕ → QueueItem
item_of t n = record {
  type = t;
  ticket = n;
  message = record {
    timestamp = pos 0;
    level = error;
    logger_name = [];
    thread_id = 1;
    source = record { file = []; line = pos 0; function = [] };
    payload = empty_payload;
  };
}

abbrev fresh : AsyncLogger ℕ
fresh = record {
  name = [];
  sink = 0;
  queue = [];
  queue_capacity = 8192;
  overflow_policy = block;
  operation_state = 0;
  level = info;
  flush_level = error;
  wake_signal = 0;
  flush_request_ticket = 0;
  flush_complete_ticket = 0;
  enqueued = 0;
  dropped = 0;
  written = 0;
  worker_failed = false;
  background_failure = none;
}

abbrev two_items : List QueueItem
two_items = item_of log 0 ∷ item_of flush 1 ∷ []

handle_items_ok_example :
    handle_items counting (λ i. i) two_items false fresh
    ≡ (ok (any_urgent error two_items || false), after_all counting two_items 1 fresh)
handle_items_ok_example =
    handle_items_ok counting two_items (λ i. i) false fresh 1 (omega arith) refl

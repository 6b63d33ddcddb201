-- ===== src/Logger/Machine/Races/Accepted.antt =====
-- A whole call of Log by one thread (include/hlog/async_logger.h, src/core/async_logger.cpp).
use high_performance_logger.Common.{
  ℕ, suc, ◌≡◌, Bool, true, false, ◌&&◌, not, ltb, List, [], ◌∷◌, ◌++◌, length, refl, ap,
}
use high_performance_logger.Common.Word.{add64}
use high_performance_logger.Message.{LogMessage, log}
use high_performance_logger.Level.{should_log}
use high_performance_logger.Sinks.Interface.{SinkInterface}
use high_performance_logger.Logger.Gate.{
  try_start_operation, finish_operation, stop_requested, active_operation_count,
}
use high_performance_logger.Logger.Worker.{AsyncLogger}
use high_performance_logger.Logger.Machine.{Outcome, Pc, WorkerPc, Note, call_step, blocks}
use high_performance_logger.Logger.Machine.System.{
  Ghosts, System, record_note, woken, joins, call, thread, log_call,
}
use high_performance_logger.Logger.Machine.Races.Runs.{
  Steps, here, then, standing, to, message_item,
}

-- The logger at the gate's word `state`, with the message counted and queued or not.
abbrev pub running : {S : Type 0} → AsyncLogger S → ℕ → AsyncLogger S
running l state = record l { operation_state = state; worker_failed = false }

abbrev pub queued : {S : Type 0} → LogMessage → AsyncLogger S → AsyncLogger S
queued m l = record l {
  enqueued = add64 l.enqueued 1;
  queue = l.queue ++ message_item m ∷ [];
  wake_signal = add64 l.wake_signal 1;
}

abbrev pub pushed_ghosts : Ghosts → Ghosts
pushed_ghosts g = record g { claims = suc g.claims }

module _ (sink : SinkInterface) where
  open sink use {State}

  module _ (rest : List Pc) (g : Ghosts) (m : LogMessage) where
    -- What a step of the first thread leaves.
    abbrev stepped : WorkerPc → AsyncLogger State × Pc × Note → System State
    stepped w r = record {
      logger = r.0;
      worker = woken r.2 w;
      threads = r.1 ∷ Pc.idle ∷ rest;
      is_joined = joins r.2 false;
      ghosts = record_note r.2 g;
    }

    abbrev pushes : AsyncLogger State → Bool → AsyncLogger State × Pc × Note
    pushes l b = elim b [
      | true ↦ (
        record l { queue = l.queue ++ message_item m ∷ [] },
        Pc.publish_notify (message_item m),
        Note.pushed,
      )
      | false ↦ (
        l,
        elim (blocks l.overflow_policy log) [
          | true ↦ Pc.publish_failure (message_item m)
          | false ↦ Pc.count_dropped (message_item m)
        ],
        Note.nothing,
      )
    ]

    -- A whole call of Log by the first thread, while the worker stands still where nothing wakes it.
    pub accepted :
        (l : AsyncLogger State) (w : WorkerPc)
        → woken Note.notified w ≡ w
        → should_log m.level l.level ≡ true
        → (ltb (length l.queue) l.queue_capacity && not false) ≡ true
        → Steps sink (standing sink rest g false (running l 0) w Pc.idle Pc.idle) (
            standing sink rest
              (pushed_ghosts g)
              false
              (running (queued m l) 0)
              w
              (Pc.returned (Outcome.logged (message_item m)))
              Pc.idle)
    unfolding call_step try_start_operation finish_operation stop_requested active_operation_count
    accepted l w awake passes room =
        then
          (then
            (then
              (then
                (then
                  (then
                    (then
                      (then
                        (then here (
                          call 0 (Pc.log_enter (message_item m)) refl
                            (log_call (message_item m) refl)))
                        (thread false 0 (Pc.log_enter (message_item m)) refl))
                      (thread false 0 (Pc.log_failure (message_item m)) refl))
                    (to sink (thread false 0 (Pc.log_level (message_item m)) refl) (
                      ap
                        (λ b.
                          standing sink rest g false (running l 1) w
                            (elim b [
                              | true ↦ Pc.log_count (message_item m)
                              | false ↦ Pc.finish Outcome.refused
                            ])
                            Pc.idle)
                        passes)))
                  (thread false 0 (Pc.log_count (message_item m)) refl))
                (thread false 0 (Pc.publish_failure (message_item m)) refl))
              (to sink (thread false 0 (Pc.publish_enqueue (message_item m)) refl) (
                ap
                  (λ b.
                    stepped w (pushes (record (running l 1) { enqueued = add64 l.enqueued 1 }) b))
                  room)))
            (to sink (thread false 0 (Pc.publish_notify (message_item m)) refl) (
              ap
                (λ x.
                  standing sink rest (pushed_ghosts g) false (running (queued m l) 1) x
                    (Pc.finish (Outcome.logged (message_item m))) Pc.idle)
                awake)))
          (thread false 0 (Pc.finish (Outcome.logged (message_item m))) refl)

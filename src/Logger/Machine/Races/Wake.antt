-- ===== src/Logger/Machine/Races/Wake.antt =====
-- A notification between the test of the wake-up predicate and the sleep is lost: NotifyWorker does not
-- hold `wake_mutex_`.
use high_performance_logger.Common.{
  ℕ, ◌<◌, ◌≡◌, Bool, true, false, ◌||◌, none, some, List, [], ◌∷◌, ◌++◌, length, get_elem?, refl,
  sym, arith, ap, ap₂,
}
use mathlib.Core.Path.{subst}
use high_performance_logger.Common.Word.{word_mod}
use high_performance_logger.Level.{should_log}
use high_performance_logger.Logger.Gate.{stop_requested}
use high_performance_logger.Message.{LogMessage}
use high_performance_logger.Sinks.Stream.{Deadline, is_due}
use high_performance_logger.Sinks.Interface.{SinkInterface}
use high_performance_logger.Logger.Worker.{AsyncLogger}
use high_performance_logger.Logger.Machine.{Outcome, Pc, WorkerPc, worker_step, should_wake}
use high_performance_logger.Logger.Machine.System.{Ghosts, System, work, worker}
use high_performance_logger.Logger.Machine.Races.Accepted.{running, queued, pushed_ghosts, accepted}
use high_performance_logger.Logger.Machine.Races.Runs.{
  Steps, here, then, Steps-trans, to, standing, message_item,
}

module _ (sink : SinkInterface) where
  open sink use {State, Reading}

  module _ (rest : List Pc) (g : Ghosts) (reading : Reading) (m : LogMessage)
      (l : AsyncLogger State) where
    abbrev asleep : System State
    asleep =
        standing sink rest (pushed_ghosts g) false (running (queued m l) 0)
          (WorkerPc.blocked l.wake_signal) (Pc.returned (Outcome.logged (message_item m))) Pc.idle

    -- The predicate does not hold and there is no deadline: the worker is about to sleep.
    calm :
        sink.next_auto_flush_time l.sink ≡ none
        → (should_wake sink l.wake_signal (running l 0)
            || is_due (sink.next_auto_flush_time l.sink) 0)
          ≡ false
    unfolding stop_requested
    calm never = rw never (ground arith)

    sleeps :
        sink.next_auto_flush_time l.sink ≡ none
        → should_log m.level l.level ≡ true
        → length l.queue < l.queue_capacity
        → Steps sink
            (standing sink rest g false
              (running l 0)
              (WorkerPc.wake_test l.wake_signal)
              Pc.idle
              Pc.idle)
            asleep
    unfolding worker_step
    sleeps never passes room =
        then
          (Steps-trans sink
            (then here (
              to sink (worker false reading 0) (
                ap
                  (λ b.
                    standing sink rest g false (running l 0)
                      (elim b [
                        | true ↦ WorkerPc.draining false false
                        | false ↦ WorkerPc.blocking l.wake_signal
                      ])
                      Pc.idle Pc.idle)
                  (calm never))))
            (accepted sink rest g m l (WorkerPc.blocking l.wake_signal) refl passes (ground arith)))
          (worker false reading 0)

    -- A message that is logged between the worker's test of what it waits for and its sleep, at a sink
    -- without a deadline: Log has returned true, the message is in the queue, the worker sleeps though
    -- the predicate that it waits for holds, and no step of its own wakes it. It is so for every
    -- logger at that test whose gate is open and where nobody is inside, which has not failed, whose
    -- level lets the message pass, whose queue has room, and whose signal is the one the worker loaded.
    pub wake_lost :
        (signal : ℕ)
        → l.wake_signal ≡ signal
        → signal < word_mod
        → l.operation_state ≡ 0
        → l.worker_failed ≡ false
        → sink.next_auto_flush_time l.sink ≡ none
        → should_log m.level l.level ≡ true
        → length l.queue < l.queue_capacity
        → (t : System State) × Steps sink
            (standing sink rest g false l (WorkerPc.wake_test signal) Pc.idle Pc.idle)
            t
          × (get_elem? t.threads 0 ≡ some (Pc.returned (Outcome.logged (message_item m))))
          × (t.worker ≡ WorkerPc.blocked signal)
          × (t.logger.queue ≡ l.queue ++ message_item m ∷ [])
          × (should_wake sink signal t.logger ≡ true)
          × ((busy : Bool) (again : Reading) (now : ℕ) → work sink busy again now t ≡ t)
    unfolding worker_step
    wake_lost signal same small open_gate alive never passes room = (
      asleep,
      subst
          (λ k.
            Steps sink (standing sink rest g false k (WorkerPc.wake_test signal) Pc.idle Pc.idle)
              asleep)
          unchanged
          (subst
            (λ n.
              Steps sink
                (standing sink rest g false (running l 0) (WorkerPc.wake_test n) Pc.idle Pc.idle)
                asleep)
            same (sleeps never passes room)),
      refl,
      ap WorkerPc.blocked same,
      refl,
      ground (arith, same, small),
      λ busy again now. ap (λ d. sleeping d now) never,
    )
      where
        unchanged : running l 0 ≡ l
        unchanged =
            ap₂ (λ n b. record l { operation_state = n; worker_failed = b }) (sym open_gate)
              (sym alive)

        sleeping : Deadline → ℕ → System State
        sleeping d now =
            standing sink rest (pushed_ghosts g) false (running (queued m l) 0)
              (elim (is_due d now) [
                | true ↦ WorkerPc.draining false false
                | false ↦ WorkerPc.blocked l.wake_signal
              ])
              (Pc.returned (Outcome.logged (message_item m))) Pc.idle

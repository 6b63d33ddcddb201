-- ===== src/Logger/Machine/Races/Stop.antt =====
-- A message accepted just before Stop is left behind: WorkerLoop tests for its exit after its last
-- look at the queue, and does not look again.
use high_performance_logger.Common.{
  ◌^◌, ◌<◌, ◌≡◌, Bool, true, false, some, List, [], ◌∷◌, ◌++◌, length, get_elem?, refl, arith, ap,
  ap₂, sym,
}
use mathlib.Core.Path.{subst}
use high_performance_logger.Common.Word.{add64}
use high_performance_logger.Message.{LogMessage}
use high_performance_logger.Level.{should_log}
use high_performance_logger.Sinks.Stream.{ok}
use high_performance_logger.Sinks.Interface.{SinkInterface}
use high_performance_logger.Logger.Gate.{request_stop, stop_requested, active_operation_count}
use high_performance_logger.Logger.Worker.{AsyncLogger}
use high_performance_logger.Logger.Machine.{
  Outcome, Pc, WorkerPc, Note, call_step, worker_step, on_sink,
}
use high_performance_logger.Logger.Machine.System.{
  Ghosts, System, record_note, call, thread, worker, stop_call,
}
use high_performance_logger.Logger.Machine.Races.Accepted.{running, queued, pushed_ghosts, accepted}
use high_performance_logger.Logger.Machine.Races.Runs.{
  Steps, here, then, Steps-trans, standing, to, message_item,
}

module _ (sink : SinkInterface) where
  open sink use {State, Reading}

  module _ (rest : List Pc) (g : Ghosts) (reading : Reading) (m : LogMessage) where
    -- What a step of the worker leaves.
    abbrev worked : Pc → Ghosts → AsyncLogger State × WorkerPc × Note → System State
    worked p gs r = record {
      logger = r.0;
      worker = r.1;
      threads = p ∷ Pc.stop_join ∷ rest;
      is_joined = false;
      ghosts = record_note r.2 gs;
    }

    -- Then a whole call of Stop, and the worker leaves.
    left :
        (l : AsyncLogger State) (progress : Bool) (after : State) (gs : Ghosts) (p : Pc)
        → sink.flush l.sink ≡ (ok tt, after)
        → let t = record l {
          operation_state = 2 ^ 63;
          worker_failed = false;
          wake_signal = add64 l.wake_signal 1;
          sink = after;
        } in
          Steps sink
            (standing sink rest gs false (running l 0) (WorkerPc.stop_test progress) p Pc.idle)
            (standing sink rest
              (record gs { synced_upto = gs.handled })
              true
              t
              WorkerPc.exited
              p
              (Pc.returned Outcome.stopped))
    unfolding call_step worker_step request_stop stop_requested active_operation_count
    left l progress after gs p flushes =
        then
          (then
            (then
              (then
                (then
                  (then (then here (call 1 Pc.stop_enter refl stop_call))
                    (thread false 1 Pc.stop_enter refl))
                  (thread false 1 Pc.stop_notify refl))
                (worker false reading 0))
              (worker false reading 0))
            (to sink (worker false reading 0) (
              ap
                (λ r. worked p gs (
                  on_sink sink
                    (record l {
                      operation_state = 2 ^ 63;
                      worker_failed = false;
                      wake_signal = add64 l.wake_signal 1;
                    })
                    r (λ _. WorkerPc.exited) Note.synced))
                flushes)))
          (thread false 1 Pc.stop_join refl)

    -- A message that is logged between the worker's last look at the queue and its test for the exit,
    -- and a Stop behind it: Log has returned true, Stop has returned, the worker has left without a
    -- failure, and the message is still in the queue. It is so for every logger at that point whose
    -- gate is open and where nobody is inside, whose level lets the message pass, whose queue has
    -- room, and whose sink can be flushed.
    pub stop_loses :
        (l : AsyncLogger State) (progress : Bool) (after : State)
        → l.operation_state ≡ 0
        → l.worker_failed ≡ false
        → should_log m.level l.level ≡ true
        → length l.queue < l.queue_capacity
        → sink.flush l.sink ≡ (ok tt, after)
        → (t : System State) × Steps sink
            (standing sink rest g false l (WorkerPc.stop_test progress) Pc.idle Pc.idle)
            t
          × (get_elem? t.threads 0 ≡ some (Pc.returned (Outcome.logged (message_item m))))
          × (get_elem? t.threads 1 ≡ some (Pc.returned Outcome.stopped))
          × (t.worker ≡ WorkerPc.exited)
          × (t.logger.worker_failed ≡ false)
          × (t.logger.queue ≡ l.queue ++ message_item m ∷ [])
    stop_loses l progress after open_gate alive passes room flushes = (
      left_behind,
      subst
          (λ k.
            Steps sink (standing sink rest g false k (WorkerPc.stop_test progress) Pc.idle Pc.idle)
              left_behind)
          same
          (Steps-trans sink
            (accepted sink rest g m l (WorkerPc.stop_test progress) refl passes (ground arith))
            (left (queued m l) progress after (pushed_ghosts g)
              (Pc.returned (Outcome.logged (message_item m))) flushes)),
      refl,
      refl,
      refl,
      refl,
      refl,
    )
      where
        left_behind : System State
        left_behind =
            standing sink rest (record (pushed_ghosts g) { synced_upto = g.handled }) true
              (record (queued m l) {
                operation_state = 2 ^ 63;
                worker_failed = false;
                wake_signal = add64 (queued m l).wake_signal 1;
                sink = after;
              })
              WorkerPc.exited (Pc.returned (Outcome.logged (message_item m)))
              (Pc.returned Outcome.stopped)

        same : running l 0 ≡ l
        same =
            ap₂ (λ n b. record l { operation_state = n; worker_failed = b }) (sym open_gate)
              (sym alive)

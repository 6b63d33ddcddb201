-- ===== src/Benchmark/Tests.antt =====
-- Runs of the mutex logger, and its theorems at them.
use high_performance_logger.Common.{◌≡◌, refl}
use high_performance_logger.Common.Text.{codes}
use high_performance_logger.Common.Int.{pos}
use high_performance_logger.Common.Decimal.{decimal_ℤ}
use high_performance_logger.Benchmark.{
  MutexAsyncLogger, start, log, request_flush, request_stop, worker_step, waiting, exited, logs,
  asks_flush, asks_stop, works, Steps, here, then_step, make_payload,
}
use high_performance_logger.Benchmark.Order.{Ended, exited-Ended}

abbrev turn : MutexAsyncLogger → MutexAsyncLogger
turn l = worker_step l.worker l

-- A payload is logged, then the logger stops.
abbrev logged_one : MutexAsyncLogger
logged_one = request_stop (log (codes "a") start)

abbrev ended_run : MutexAsyncLogger
ended_run = turn (turn (turn (turn (turn (turn (turn logged_one))))))

run_to_end : Steps start ended_run
run_to_end =
    then_step
      (then_step
        (then_step
          (then_step
            (then_step
              (then_step (then_step (then_step (then_step here (logs (codes "a"))) asks_stop) works)
                works)
              works)
            works)
          works)
        works)
      works

run_ended : ended_run.worker ≡ exited
unfolding worker_step log request_stop
run_ended = refl

exited-Ended_example : Ended ended_run
exited-Ended_example = exited-Ended ended_run run_to_end run_ended

-- A flush is asked for, and Stop comes before the worker looks.
abbrev left_behind : MutexAsyncLogger
left_behind = request_stop (request_flush start)

run_left_behind : Steps start left_behind
run_left_behind = then_step (then_step here asks_flush) asks_stop

-- The worker leaves the loop, another flush is asked for, and the worker ends.
abbrev at_exit : MutexAsyncLogger
at_exit = turn (turn (turn (request_flush (worker_step waiting left_behind))))

run_to_exit : Steps (worker_step waiting left_behind) at_exit
run_to_exit = then_step (then_step (then_step (then_step here asks_flush) works) works) works

at_exit_exited : at_exit.worker ≡ exited
unfolding worker_step request_flush request_stop
at_exit_exited = refl

payload : make_payload (pos 3) (pos 14) ≡ codes "thread=3 seq=14"
unfolding make_payload decimal_ℤ
payload = refl

-- ===== src/Logger/Machine/Tests.antt =====
-- Runs of a logger with its worker, and the theorems on them.
use high_performance_logger.Common.{
  ℕ, suc, ◌+◌, ◌*◌, ◌^◌, ◌≤◌, ◌≡◌, Bool, true, false, some, none, List, [], ◌∷◌, ◌++◌, get_elem?,
  Option-cases, inl, inr, refl, arith,
}
use high_performance_logger.Common.Int.{pos}
use high_performance_logger.Level.{info, error, should_log}
use high_performance_logger.Message.{LogMessage, log, flush}
use high_performance_logger.Payload.{empty_payload}
use high_performance_logger.Ring.{round_up_power_of_two}
use high_performance_logger.Sinks.Stream.{ok}
use high_performance_logger.Sinks.Interface.{SinkInterface}
use high_performance_logger.Logger.Gate.{
  try_start_operation, finish_operation, request_stop, stop_requested, active_operation_count,
}
use high_performance_logger.Logger.Worker.{
  AsyncLogger, block, default_options, make_async_logger, stats,
}
use high_performance_logger.Logger.Machine.{
  Outcome, Pc, WorkerPc, call_step, worker_step, flush_item, should_wake,
}
use high_performance_logger.Logger.Machine.System.{
  no_ghosts, System, call, thread, worker, log_call, flush_call, stop_call, Step, Reach, init,
  later, start, work, call_at,
}
use high_performance_logger.Logger.Machine.Flush.Reached.{flush_waits}
use high_performance_logger.Logger.Machine.Pending.Counts.{count_coming, in_hand}
use high_performance_logger.Logger.Machine.Pending.Works.{lost_by}
use high_performance_logger.Logger.Machine.Pending.Reached.{lost, loses, pending_lem}
use high_performance_logger.Logger.Worker.Laws.{logs}
use high_performance_logger.Logger.Machine.Exit.Count.{count_inside}
use high_performance_logger.Logger.Machine.Exit.Reached.{exited_at_rest}
use high_performance_logger.Logger.Machine.Drain.{NeverThrows, Exited, worker_exits}
use high_performance_logger.Logger.Machine.Races.Runs.{Steps, standing, message_item}
use high_performance_logger.Logger.Machine.Races.Stop.{stop_loses}
use high_performance_logger.Logger.Machine.Races.Tickets.{flush_waits_in_vain}
use high_performance_logger.Logger.Machine.Races.Wake.{wake_lost}

-- A sink that counts the writes.
abbrev counting : SinkInterface
counting = record {
  State = ℕ;
  Reading = ℕ;
  write = λ now m s. (ok tt, s + 1);
  flush = λ s. (ok tt, s);
  next_auto_flush_time = λ s. none;
  flush_if_due = λ now s. (ok false, s);
}

abbrev message : LogMessage
message = record {
  timestamp = pos 0;
  level = error;
  logger_name = [];
  thread_id = 1;
  source = record { file = []; line = pos 0; function = [] };
  payload = empty_payload;
}

abbrev fresh : AsyncLogger ℕ
fresh = record {
  name = [];
  sink = 0;
  queue = [];
  queue_capacity = 8192;
  overflow_policy = block;
  operation_state = 0;
  level = info;
  flush_level = error;
  wake_signal = 0;
  flush_request_ticket = 0;
  flush_complete_ticket = 0;
  enqueued = 0;
  dropped = 0;
  written = 0;
  worker_failed = false;
  background_failure = none;
}

abbrev begun : System ℕ
begun = start counting 2 fresh

begun-Reach : Reach counting 2 [] default_options begun
unfolding make_async_logger round_up_power_of_two
begun-Reach = init [] 0 fresh refl

-- Several steps of one thread, and of the worker.
abbrev steps_of : ℕ → List Pc → System ℕ → System ℕ
steps_of i [] s = s
steps_of i (p ∷ ps) s = steps_of i ps (call_at counting false i s p)

abbrev works : ℕ → System ℕ → System ℕ
works ℕ.zero s = s
works (suc n) s = works n (work counting false 0 0 s)

works-Reach :
    (n : ℕ) (s : System ℕ)
    → Reach counting 2 [] default_options s
    → Reach counting 2 [] default_options (works n s)
works-Reach ℕ.zero s r = r
works-Reach (suc n) s r = works-Reach n (work counting false 0 0 s) (later r (worker false 0 0))

-- A step of a thread from where it stands.
abbrev stepped : ℕ → System ℕ → System ℕ
stepped i s = elim (get_elem? s.threads i) [ none ↦ s | some p ↦ call_at counting false i s p ]

stepped-Reach :
    (i : ℕ) (s : System ℕ)
    → Reach counting 2 [] default_options s
    → Reach counting 2 [] default_options (stepped i s)
stepped-Reach i s r = elim (Option-cases (get_elem? s.threads i)) [
  | inl e ↦ rw (e, stepped) r
  | inr (p, e) ↦ rw (e, stepped) (later r (thread false i p e))
]

abbrev moves : ℕ → ℕ → System ℕ → System ℕ
moves ℕ.zero i s = s
moves (suc n) i s = moves n i (stepped i s)

moves-Reach :
    (n i : ℕ) (s : System ℕ)
    → Reach counting 2 [] default_options s
    → Reach counting 2 [] default_options (moves n i s)
moves-Reach ℕ.zero i s r = r
moves-Reach (suc n) i s r = moves-Reach n i (stepped i s) (stepped-Reach i s r)

-- A call of Flush until it waits, the worker's part of it, and its end.
abbrev flushing : System ℕ
flushing = record begun { threads = Pc.flush_enter message ∷ Pc.idle ∷ [] }

abbrev flush_done : System ℕ
flush_done = moves 3 0 (works 3 (moves 6 0 flushing))

flush_done-Reach : Reach counting 2 [] default_options flush_done
flush_done-Reach = moves-Reach 3 0 (works 3 (moves 6 0 flushing)) (
    works-Reach 3 (moves 6 0 flushing) (
      moves-Reach 6 0 flushing
        (later begun-Reach (call 0 (Pc.flush_enter message) refl (flush_call message)))))

flush_waits_example :
    (flush_done.ghosts.mark 1 ≤ flush_done.ghosts.synced_upto)
    × (flush_done.ghosts.synced_upto ≤ flush_done.ghosts.handled)
unfolding call_step worker_step try_start_operation finish_operation stop_requested
    active_operation_count
flush_waits_example =
    flush_waits counting 2 [] default_options flush_done 0 1 flush_done-Reach (omega arith) refl

-- A message that the worker has taken and the sink has not written.
abbrev logging : System ℕ
logging = record begun { threads = Pc.log_enter (message_item message) ∷ Pc.idle ∷ [] }

abbrev in_write : System ℕ
in_write = works 1 (moves 6 0 logging)

in_write-Reach : Reach counting 2 [] default_options in_write
in_write-Reach = works-Reach 1 (moves 6 0 logging) (
    moves-Reach 6 0 logging (
      later begun-Reach
        (call 0 (Pc.log_enter (message_item message)) refl (log_call (message_item message) refl))))

-- The sink that counts never throws.
lost_by-counting : (reading : ℕ) (w : WorkerPc) (state : ℕ) → lost_by counting reading w state ≡ 0
lost_by-counting reading (WorkerPc.handling again required item) state =
    elim item.type as (λ t. elim t as (λ _. ℕ) [ log ↦ 0 | flush ↦ 0 ] ≡ 0) [
      | log ↦ refl
      | flush ↦ refl
    ]
lost_by-counting reading w state = refl

loses-counting : {s t : System ℕ} (st : Step counting s t) → loses counting st ≡ 0
loses-counting {s} (worker busy reading now) = lost_by-counting reading s.worker s.logger.sink
loses-counting st = refl

lost-counting :
    {s : System ℕ} (r : Reach counting 2 [] default_options s)
    → lost counting 2 [] default_options r ≡ 0
lost-counting (init text state l e) = refl
lost-counting (later r st) = omega (arith, lost-counting r, loses-counting st)

pending_lem_example :
    (stats in_write.logger).pending
    ≡ logs in_write.logger.queue
      + count_coming in_write.threads
      + in_hand in_write.worker
      + lost counting 2 [] default_options in_write-Reach
unfolding call_step worker_step try_start_operation should_log stop_requested active_operation_count
pending_lem_example =
    pending_lem counting 2 [] default_options in_write in_write-Reach (omega arith)
      (omega (arith, lost-counting in_write-Reach))

in_hand_test : in_hand in_write.worker ≡ 1
unfolding call_step worker_step try_start_operation should_log stop_requested active_operation_count
in_hand_test = refl

-- A logger that is stopped while idle.
abbrev stopping : System ℕ
stopping = record begun { threads = Pc.stop_enter ∷ Pc.idle ∷ [] }

abbrev gone : System ℕ
gone = works 5 (moves 2 0 stopping)

gone-Reach : Reach counting 2 [] default_options gone
gone-Reach =
    works-Reach 5 (moves 2 0 stopping)
      (moves-Reach 2 0 stopping (later begun-Reach (call 0 Pc.stop_enter refl stop_call)))

exited_at_rest_example :
    let t = work counting false 0 0 gone in
    (count_inside gone.threads ≡ 0)
    × (count_inside t.threads ≡ 0)
    × (t.worker ≡ WorkerPc.exited)
    × (t.logger.queue ≡ gone.logger.queue)
unfolding call_step worker_step request_stop finish_operation stop_requested active_operation_count
exited_at_rest_example =
    exited_at_rest counting 2 (omega arith) [] default_options gone (work counting false 0 0 gone)
      gone-Reach refl refl (worker false 0 0)

-- An idle worker about to test for its exit, as reached from the start.
drained :
    works 2 begun
    ≡ standing counting [] no_ghosts false fresh (WorkerPc.stop_test false) Pc.idle Pc.idle
unfolding worker_step
drained = refl

stop_loses_example :
    (t : System ℕ) × Steps counting
      (standing counting [] no_ghosts false fresh (WorkerPc.stop_test false) Pc.idle Pc.idle)
      t
    × (get_elem? t.threads 0 ≡ some (Pc.returned (Outcome.logged (message_item message))))
    × (get_elem? t.threads 1 ≡ some (Pc.returned Outcome.stopped))
    × (t.worker ≡ WorkerPc.exited)
    × (t.logger.worker_failed ≡ false)
    × (t.logger.queue ≡ [] ++ message_item message ∷ [])
unfolding should_log
stop_loses_example =
    stop_loses counting [] no_ghosts 0 message fresh false 0 refl refl refl (omega arith) refl

-- The second thread takes the first ticket; the first thread takes the second one and is in the queue
-- before it.
abbrev both_flushing : System ℕ
both_flushing = record begun { threads = Pc.flush_enter message ∷ Pc.flush_enter message ∷ [] }

abbrev crossed : System ℕ
crossed = moves 3 1 (moves 6 0 (moves 3 1 both_flushing))

crossed-Reach : Reach counting 2 [] default_options crossed
crossed-Reach = moves-Reach 3 1 (moves 6 0 (moves 3 1 both_flushing)) (
    moves-Reach 6 0 (moves 3 1 both_flushing) (
      moves-Reach 3 1 both_flushing (
        later (later begun-Reach (call 0 (Pc.flush_enter message) refl (flush_call message)))
          (call 1 (Pc.flush_enter message) refl (flush_call message)))))

crossed_queue : crossed.logger.queue ≡ flush_item message 2 ∷ flush_item message 1 ∷ []
unfolding call_step try_start_operation stop_requested
crossed_queue = refl

crossed_threads : crossed.threads ≡ Pc.wait_load 2 ∷ Pc.wait_load 1 ∷ []
unfolding call_step try_start_operation stop_requested
crossed_threads = refl

flush_waits_in_vain_example :
    (s : System ℕ) × Steps counting
      (standing counting [] crossed.ghosts false crossed.logger
        (WorkerPc.draining false false)
        (Pc.wait_load 2)
        (Pc.wait_load 1))
      s
    × (s.logger.queue ≡ [])
    × (s.logger.flush_complete_ticket ≡ 1)
    × (s.logger.sink ≡ 0)
    × (s.ghosts.handled ≡ crossed.ghosts.handled + 2)
    × (s.ghosts.synced_upto ≡ crossed.ghosts.handled + 1)
    × (get_elem? s.threads 0 ≡ some (Pc.wait_asleep 2 1))
    × ((busy : Bool) → call_at counting busy 0 s (Pc.wait_asleep 2 1) ≡ s)
unfolding call_step try_start_operation stop_requested
flush_waits_in_vain_example =
    flush_waits_in_vain counting [] crossed.ghosts 0 message message 1 2 [] crossed.logger false
      false 0 0 (Pc.wait_load 1) refl refl (omega arith) refl refl

-- The worker is about to test what it waits for.
abbrev dozing : System ℕ
dozing = works 5 begun

dozing-Reach : Reach counting 2 [] default_options dozing
dozing-Reach = works-Reach 5 begun begun-Reach

dozing_at :
    dozing ≡ standing counting [] no_ghosts false fresh (WorkerPc.wake_test 0) Pc.idle Pc.idle
unfolding worker_step stop_requested
dozing_at = refl

wake_lost_example :
    (t : System ℕ) × Steps counting
      (standing counting [] no_ghosts false fresh (WorkerPc.wake_test 0) Pc.idle Pc.idle)
      t
    × (get_elem? t.threads 0 ≡ some (Pc.returned (Outcome.logged (message_item message))))
    × (t.worker ≡ WorkerPc.blocked 0)
    × (t.logger.queue ≡ [] ++ message_item message ∷ [])
    × (should_wake counting 0 t.logger ≡ true)
    × ((busy : Bool) (again : ℕ) (now : ℕ) → work counting busy again now t ≡ t)
unfolding should_log
wake_lost_example =
    wake_lost counting [] no_ghosts 0 message fresh 0 refl (omega arith) refl refl refl refl
      (omega arith)

-- A stopping logger with a message and a flush item in its queue.
abbrev closing : AsyncLogger ℕ
closing = record fresh {
  operation_state = 2 ^ 63;
  queue = message_item message ∷ flush_item message 1 ∷ [];
}

counting-NeverThrows : NeverThrows counting
counting-NeverThrows = record {
  writes = λ r m s. (s + 1, refl);
  flushes = λ s. (s, refl);
  checks = λ now s. (false, s, refl);
}

worker_exits_example :
    Exited counting counting-NeverThrows
      (λ k. k)
      (λ k. k * 10)
      []
      false
      0
      closing
      no_ghosts
      (WorkerPc.draining false false)
unfolding stop_requested active_operation_count
worker_exits_example =
    worker_exits counting counting-NeverThrows (λ k. k) (λ k. k * 10) [] false 0 false false closing
      no_ghosts refl refl

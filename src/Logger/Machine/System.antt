-- ===== src/Logger/Machine/System.antt =====
-- A logger with its threads and its worker, interleaved. The ghost state is not in
-- the program: how many items have been enqueued (`claims`), dequeued (`takes`) and handled, how many
-- had been handled when the sink was last flushed (`synced_upto`), how many flush tickets have been
-- taken, and for each of them how many items had been enqueued then (`mark`).
use high_performance_logger.Common.{
  ℕ, suc, ◌≡◌, Bool, true, false, some, List, get_elem?, set, replicate,
}
use high_performance_logger.Common.Family.{update}
use high_performance_logger.Message.{LogMessage, log, QueueItem}
use high_performance_logger.Sinks.Interface.{SinkInterface}
use high_performance_logger.Logger.Worker.{AsyncLogger, AsyncLoggerOptions, make_async_logger}
use high_performance_logger.Sinks.Stream.{ok}
use high_performance_logger.Logger.Machine.{
  Pc, WorkerPc, Note, idle, log_enter, flush_enter, stop_enter, returned, Outcome, exited, blocked,
  wake_test, pushed, taken, notified, joined, written, ticketed, synced, synced_flush, draining,
  call_step, worker_step,
}

pub record Ghosts : Type 0 where
  pub claims : ℕ
  pub takes : ℕ
  pub handled : ℕ
  pub synced_upto : ℕ
  pub tickets : ℕ
  pub mark : ℕ → ℕ

pub record System (S : Type 0) : Type 0 where
  pub logger : AsyncLogger S
  pub worker : WorkerPc
  pub threads : List Pc
  pub is_joined : Bool
  pub ghosts : Ghosts

abbrev pub no_ghosts : Ghosts
no_ghosts = record {
  claims = 0;
  takes = 0;
  handled = 0;
  synced_upto = 0;
  tickets = 0;
  mark = λ _. 0;
}

-- The ghost state after a step.
abbrev pub record_note : Note → Ghosts → Ghosts
record_note pushed g = record g { claims = suc g.claims }
record_note taken g = record g { takes = suc g.takes }
record_note written g = record g { handled = suc g.handled }
record_note (ticketed t) g = record g { tickets = suc g.tickets; mark = update g.mark t g.claims }
record_note synced g = record g { synced_upto = g.handled }
record_note synced_flush g = record g { synced_upto = g.handled; handled = suc g.handled }
record_note _ g = g

-- `notify_one` wakes the worker if it sleeps on the condition variable.
abbrev pub woken : Note → WorkerPc → WorkerPc
woken notified (blocked signal) = wake_test signal
woken n w = w

abbrev pub has_exited : WorkerPc → Bool
has_exited exited = true
has_exited w = false

abbrev pub joins : Note → Bool → Bool
joins joined b = true
joins n b = b

module _ (sink : SinkInterface) where
  open sink use {State, Reading}

  -- A step of thread `i`, which stands at `p`, and a step of the worker.
  abbrev pub call_at : Bool → ℕ → System State → Pc → System State
  call_at busy i s p =
      let (l, q, n) = call_step busy s.is_joined (has_exited s.worker) s.logger p in
      record {
        logger = l;
        worker = woken n s.worker;
        threads = set s.threads i q;
        is_joined = joins n s.is_joined;
        ghosts = record_note n s.ghosts;
      }

  abbrev pub work : Bool → Reading → ℕ → System State → System State
  work busy reading now s =
      let (l, w, n) = worker_step sink busy reading now s.logger s.worker in
      record s { logger = l; worker = w; ghosts = record_note n s.ghosts }

  -- The calls that a thread can make.
  pub data Entry : Pc → Type 0 where
    log_call : (item : QueueItem) → item.type ≡ log → Entry (log_enter item)
    flush_call : (m : LogMessage) → Entry (flush_enter m)
    stop_call : Entry stop_enter

  pub data Step (s : System State) : System State → Type 0 where
    call :
        (i : ℕ) (p : Pc)
        → get_elem? s.threads i ≡ some idle
        → Entry p
        → Step s (record s { threads = set s.threads i p })
    collect :
        (i : ℕ) (o : Outcome)
        → get_elem? s.threads i ≡ some (returned o)
        → Step s (record s { threads = set s.threads i idle })
    thread :
        (busy : Bool) (i : ℕ) (p : Pc)
        → get_elem? s.threads i ≡ some p
        → Step s (call_at busy i s p)
    worker : (busy : Bool) (reading : Reading) (now : ℕ) → Step s (work busy reading now s)
    spurious :
        (signal : ℕ) → s.worker ≡ blocked signal → Step s (record s { worker = wake_test signal })

  -- A new logger, with its worker, and `n` threads that use it.
  abbrev pub start : ℕ → AsyncLogger State → System State
  start n l = record {
    logger = l;
    worker = draining false false;
    threads = replicate n idle;
    is_joined = false;
    ghosts = no_ghosts;
  }

  -- The states that a new logger can come to.
  pub data Reach (n : ℕ) (name : List ℕ) (options : AsyncLoggerOptions)
      : System State → Type 0 where
    init :
        (message : List ℕ) (state : State) (l : AsyncLogger State)
        → make_async_logger message name (some state) options ≡ ok l
        → Reach n name options (start n l)
    later : {s t : System State} → Reach n name options s → Step s t → Reach n name options t

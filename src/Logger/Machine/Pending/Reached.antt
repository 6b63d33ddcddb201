-- ===== src/Logger/Machine/Pending/Reached.antt =====
-- What Stats says, in every state that a logger can come to (src/core/async_logger.cpp: Stats).
use high_performance_logger.Common.{
  ℕ, suc, ◌+◌, ◌-◌, ◌%◌, ◌<◌, ◌≡◌, refl, ap, some, List, get_elem?, arith,
}
use mathlib.Core.Path.{subst}
use high_performance_logger.Common.Word.{word_mod}
use high_performance_logger.Sinks.Stream.{Result, ok, throw}
use high_performance_logger.Sinks.Interface.{SinkInterface}
use high_performance_logger.Logger.Worker.{
  AsyncLogger, AsyncLoggerOptions, make_async_logger, stats,
}
use high_performance_logger.Logger.Worker.Laws.{logs}
use high_performance_logger.Logger.Machine.{Pc, call_step}
use high_performance_logger.Logger.Machine.System.{
  System, has_exited, Entry, log_call, flush_call, stop_call, Step, call, collect, thread, worker,
  spurious, start, Reach, init, later,
}
use high_performance_logger.Logger.Machine.Flush.Defs.{Local, view}
use high_performance_logger.Logger.Machine.Flush.Reached.{Reach-Inv, tickets-Step}
use high_performance_logger.Logger.Machine.Pending.Counts.{
  coming, count_coming, in_hand, count_coming-set, coming_small, count_coming-replicate,
  in_hand-woken,
}
use high_performance_logger.Logger.Machine.Pending.Calls.{IsLog, call_step-Balance}
use high_performance_logger.Logger.Machine.Pending.Works.{worker_step-Balance, lost_by}

module _ (sink : SinkInterface) where
  open sink use {State, Reading}

  -- The messages at which the sink has thrown.
  abbrev pub loses : {s t : System State} → Step sink s t → ℕ
  loses {s} (worker busy reading now) = lost_by sink reading s.worker s.logger.sink
  loses st = 0

  -- Every message that is counted has been written, waits, is on its way in, is in the worker's hand
  -- or has been lost.
  abbrev Counts : System State → ℕ → Type 0
  Counts s n =
      s.logger.enqueued
      ≡ (s.logger.written + logs s.logger.queue + count_coming s.threads + in_hand s.worker + n)
        % word_mod

  Entry-coming : (p : Pc) → Entry sink p → coming p ≡ 0
  Entry-coming p (log_call item e) = refl
  Entry-coming p (flush_call m) = refl
  Entry-coming p stop_call = refl

  Local-IsLog : (s : System State) (p : Pc) → Local (view s.logger s.ghosts) p → IsLog p
  Local-IsLog s (Pc.log_count item) h = h
  Local-IsLog s p h = tt

  Step-Counts :
      {s t : System State} (st : Step sink s t) (n : ℕ)
      → ((i : ℕ) (p : Pc) → get_elem? s.threads i ≡ some p → IsLog p)
      → Counts s n
      → Counts t (n + loses st)
  Step-Counts {s} (call i p e entry) n k h =
      omega (arith, h, count_coming-set s.threads i Pc.idle p e, Entry-coming p entry)
  Step-Counts {s} (collect i o e) n k h =
      omega (arith, h, count_coming-set s.threads i (Pc.returned o) Pc.idle e)
  Step-Counts {s} (thread busy i p e) n k h =
      let r = call_step busy s.is_joined (has_exited s.worker) s.logger p in
      let rest = count_coming s.threads - coming p + in_hand s.worker + n in
      let b = call_step-Balance s.logger busy s.is_joined (has_exited s.worker) p (k i p e) in
      let small = coming_small s.threads i p e in
      let after = b.keeps rest (omega (arith, h, small)) in
      omega (arith, after, small, count_coming-set s.threads i p r.1 e, in_hand-woken r.2 s.worker)
  Step-Counts {s} (worker busy reading now) n k h =
      let b = worker_step-Balance sink busy reading now s.logger s.worker in
      let after = b.keeps (count_coming s.threads + n) (omega (arith, h)) in omega (arith, after)
  Step-Counts {s} (spurious signal e) n k h = omega (arith, h, ap in_hand e)

  module _ (n : ℕ) (name : List ℕ) (options : AsyncLoggerOptions) where
    abbrev pub lost : {s : System State} → Reach sink n name options s → ℕ
    lost (init message state l e) = 0
    lost (later r st) = lost r + loses st

    abbrev CountsFrom : Result (AsyncLogger State) → Type 0
    CountsFrom (ok l) = Counts (start sink n l) 0
    CountsFrom (throw e) = Unit

    start-Counts :
        (message : List ℕ) (state : State)
        → CountsFrom (make_async_logger message name (some state) options)
    unfolding make_async_logger
    start-Counts message state = omega (arith, count_coming-replicate n)

    Reach-Counts :
        {s : System State} (r : Reach sink n name options s)
        → suc s.ghosts.tickets < word_mod
        → Counts s (lost r)
    Reach-Counts (init message state l e) fits = subst CountsFrom e (start-Counts message state)
    Reach-Counts (later {s} {t} r st) fits =
        let small : suc s.ghosts.tickets < word_mod = omega (arith, fits, tickets-Step sink st) in
        let inv = Reach-Inv sink n name options r small in
        Step-Counts st (lost r) (λ i p e. Local-IsLog s p (inv.threads i p e))
          (Reach-Counts r small)

    -- Between any two steps of the threads and the worker, in every run from a new logger, `pending`
    -- of Stats, its counters read in that one moment, is the number of messages in the queue, of
    -- those that are counted and on their way into it or out of the count, of the one that the
    -- worker has taken and not yet counted as written, and of those at which the sink threw in
    -- Write. It is so as long as these and the messages written are fewer than 2 ^ 64 together, and
    -- fewer than 2 ^ 64 - 1 flush tickets have been taken.
    pub pending_lem :
        (s : System State) (r : Reach sink n name options s)
        → suc s.ghosts.tickets < word_mod
        → s.logger.written
            + logs s.logger.queue
            + count_coming s.threads
            + in_hand s.worker
            + lost r
          < word_mod
        → (stats s.logger).pending
          ≡ logs s.logger.queue + count_coming s.threads + in_hand s.worker + lost r
    unfolding stats
    pending_lem s r small fits = ground (arith, Reach-Counts r small)

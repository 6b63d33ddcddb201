-- ===== src/Logger/Machine/Races/Tickets.antt =====
-- Two calls of Flush whose items reach the queue in the other order than their tickets were taken: the
-- completion ticket goes back, and the later ticket is waited for in vain.
use high_performance_logger.Common.{
  ℕ, suc, ◌+◌, ◌<◌, ◌≡◌, Bool, true, false, ltb, ◌==◌, some, List, ◌∷◌, get_elem?, refl, arith, ap,
  ap₂, sym,
}
use mathlib.Core.Path.{subst}
use high_performance_logger.Message.{LogMessage, QueueItem}
use high_performance_logger.Sinks.Stream.{ok}
use high_performance_logger.Sinks.Interface.{SinkInterface}
use high_performance_logger.Logger.Worker.{AsyncLogger}
use high_performance_logger.Logger.Machine.{
  Pc, WorkerPc, Note, call_step, worker_step, flush_item, on_sink,
}
use high_performance_logger.Logger.Machine.System.{
  Ghosts, System, record_note, call_at, thread, worker,
}
use high_performance_logger.Logger.Machine.Races.Runs.{Steps, here, then, Steps-trans, standing, to}

module _ (sink : SinkInterface) where
  open sink use {State, Reading}

  module _ (rest : List Pc) (g : Ghosts) (reading : Reading) (m m' : LogMessage) (t u : ℕ)
      (items : List QueueItem) where
    -- Both items in the queue, the later ticket first.
    abbrev crossed : AsyncLogger State → AsyncLogger State
    crossed l = record l { worker_failed = false; queue = flush_item m u ∷ flush_item m' t ∷ items }

    abbrev both_taken : Ghosts
    both_taken = record g {
      takes = suc (suc g.takes);
      handled = suc (suc g.handled);
      synced_upto = suc g.handled;
    }

    abbrev handled_item : Pc → Pc → Ghosts → AsyncLogger State × WorkerPc × Note → System State
    handled_item p q gs r = record {
      logger = r.0;
      worker = r.1;
      threads = p ∷ q ∷ rest;
      is_joined = false;
      ghosts = record_note r.2 gs;
    }

    -- The worker takes both items while the threads stand still.
    both :
        (l : AsyncLogger State) (required progress : Bool) (first second : State) (p q : Pc)
        → sink.flush l.sink ≡ (ok tt, first)
        → sink.flush first ≡ (ok tt, second)
        → Steps sink
            (standing sink rest g false (crossed l) (WorkerPc.draining required progress) p q)
            (standing sink rest both_taken false
              (record l {
                worker_failed = false;
                queue = items;
                sink = second;
                flush_complete_ticket = t;
              })
              (WorkerPc.draining required true)
              p
              q)
    unfolding worker_step
    both l required progress first second p q e e' =
        then
          (then
            (then
              (then
                (then (then here (worker false reading 0)) (
                  to sink (worker false reading 0) (
                    ap
                      (λ r.
                        handled_item p q (record g { takes = suc g.takes })
                          (on_sink sink
                            (record l { worker_failed = false; queue = flush_item m' t ∷ items }) r
                            (λ _. WorkerPc.completing false required u) Note.synced_flush))
                      e)))
                (worker false reading 0))
              (worker false reading 0))
            (to sink (worker false reading 0) (
              ap
                (λ r.
                  handled_item p q
                    (record g {
                      takes = suc (suc g.takes);
                      handled = suc g.handled;
                      synced_upto = g.handled;
                    })
                    (on_sink sink
                      (record l {
                        worker_failed = false;
                        queue = items;
                        sink = first;
                        flush_complete_ticket = u;
                      })
                      r (λ _. WorkerPc.completing false required t) Note.synced_flush))
                e')))
          (worker false reading 0)

    abbrev finished : AsyncLogger State → State → AsyncLogger State
    finished l second = record l {
      worker_failed = false;
      queue = items;
      sink = second;
      flush_complete_ticket = t;
    }

    -- The waiting thread sees the lower ticket and goes to sleep on it.
    asleep :
        (l : AsyncLogger State) (required : Bool) (second : State) (q : Pc)
        → ltb t u ≡ true
        → Steps sink
            (standing sink rest both_taken false
              (finished l second)
              (WorkerPc.draining required true)
              (Pc.wait_load u)
              q)
            (standing sink rest both_taken false
              (finished l second)
              (WorkerPc.draining required true)
              (Pc.wait_asleep u t)
              q)
    unfolding call_step
    asleep l required second q less =
        then
          (then here (
            to sink (thread false 0 (Pc.wait_load u) refl) (
              ap
                (λ b.
                  standing sink rest both_taken false (finished l second)
                    (WorkerPc.draining required true)
                    (elim b [ true ↦ Pc.wait_failure u t | false ↦ Pc.wait_last u ]) q)
                less)))
          (thread false 0 (Pc.wait_failure u t) refl)

    -- Two flush items with the later ticket `u` in front, a sink that does not throw, and the call of
    -- Flush with that ticket waiting: when the worker has taken both items and handled them, the sink
    -- flushed for each of the two, the completion ticket is the lower one, and the call of Flush
    -- sleeps on it, from which no step of its own wakes it.
    pub flush_waits_in_vain :
        (l : AsyncLogger State) (required progress : Bool) (first second : State) (q : Pc)
        → l.worker_failed ≡ false
        → l.queue ≡ flush_item m u ∷ flush_item m' t ∷ items
        → t < u
        → sink.flush l.sink ≡ (ok tt, first)
        → sink.flush first ≡ (ok tt, second)
        → (s : System State) × Steps sink
            (standing sink rest g false l (WorkerPc.draining required progress) (Pc.wait_load u) q)
            s
          × (s.logger.queue ≡ items)
          × (s.logger.flush_complete_ticket ≡ t)
          × (s.logger.sink ≡ second)
          × (s.ghosts.handled ≡ g.handled + 2)
          × (s.ghosts.synced_upto ≡ g.handled + 1)
          × (get_elem? s.threads 0 ≡ some (Pc.wait_asleep u t))
          × ((busy : Bool) → call_at sink busy 0 s (Pc.wait_asleep u t) ≡ s)
    unfolding call_step
    flush_waits_in_vain l required progress first second q alive placed less e e' = (
      last,
      subst
          (λ k.
            Steps sink
              (standing sink rest g false k (WorkerPc.draining required progress) (Pc.wait_load u)
                q)
              last)
          same
          (Steps-trans sink (both l required progress first second (Pc.wait_load u) q e e')
            (asleep l required second q (ground arith))),
      refl,
      refl,
      refl,
      omega arith,
      omega arith,
      refl,
      λ busy.
          ap
            (λ b.
              standing sink rest both_taken false (finished l second)
                (WorkerPc.draining required true)
                (elim b [ true ↦ Pc.wait_asleep u t | false ↦ Pc.wait_load u ]) q)
            equal,
    )
      where
        last : System State
        last =
            standing sink rest both_taken false (finished l second)
              (WorkerPc.draining required true) (Pc.wait_asleep u t) q

        same : crossed l ≡ l
        same = ap₂ (λ b k. record l { worker_failed = b; queue = k }) (sym alive) (sym placed)

        equal : (t == t) ≡ true
        equal = ground arith

-- ===== src/Logger/Machine/Drain.antt =====
-- What the worker does when it is left alone: src/core/async_logger.cpp, WorkerLoop.
use high_performance_logger.Common.{
  ℕ, suc, ◌+◌, ◌≡◌, Bool, true, false, ◌||◌, ◌==◌, List, [], ◌∷◌, length, refl, arith, ap, sym, ◌∙◌,
}
use mathlib.Core.Path.{subst}
use high_performance_logger.Common.Word.{add64}
use high_performance_logger.Message.{LogMessage, QueueItemType, log, flush, QueueItem}
use high_performance_logger.Level.{should_log}
use high_performance_logger.Sinks.Stream.{ok}
use high_performance_logger.Sinks.Interface.{SinkInterface}
use high_performance_logger.Logger.Gate.{stop_requested, active_operation_count}
use high_performance_logger.Logger.Worker.{AsyncLogger}
use high_performance_logger.Logger.Machine.{Pc, WorkerPc, Note, worker_step, on_sink}
use high_performance_logger.Logger.Machine.System.{Ghosts, System, record_note, work}

-- A sink whose operations never throw.
pub record NeverThrows (sink : SinkInterface) : Type 0 where
  pub writes :
      (r : sink.Reading) (m : LogMessage) (s : sink.State)
      → (t : sink.State) × (sink.write r m s ≡ (ok tt, t))
  pub flushes : (s : sink.State) → (t : sink.State) × (sink.flush s ≡ (ok tt, t))
  pub checks :
      (now : ℕ) (s : sink.State)
      → (b : Bool) × (t : sink.State) × (sink.flush_if_due now s ≡ (ok b, t))

-- `readings` and `clock` are what the sink and the worker read at each step.
module _ (sink : SinkInterface) (never : NeverThrows sink) (readings : ℕ → sink.Reading)
    (clock : ℕ → ℕ) (ts : List Pc) (j : Bool) where
  open sink use {State}

  -- The worker's own steps from the `k`-th to the `n`-th, one after the other, while every other
  -- thread stands still.
  pub data OwnRun (k : ℕ) (s : System State) : ℕ → System State → Type 0 where
    here : OwnRun k s k s
    then :
        {n : ℕ} {t : System State}
        → OwnRun k s n t
        → OwnRun k s (suc n) (work sink false (readings n) (clock n) t)

  OwnRun-trans :
      {k n : ℕ} {s t : System State} {m : ℕ} {u : System State}
      → OwnRun k s n t
      → OwnRun n t m u
      → OwnRun k s m u
  OwnRun-trans a here = a
  OwnRun-trans a (then b) = then (OwnRun-trans a b)

  to : {k n : ℕ} {s t u : System State} → OwnRun k s n t → t ≡ u → OwnRun k s n u
  to {k} {n} {s} run e = subst (OwnRun k s n) e run

  abbrev at_worker : WorkerPc → AsyncLogger State → Ghosts → System State
  at_worker w l g = record { logger = l; worker = w; threads = ts; is_joined = j; ghosts = g }

  abbrev left_by : Ghosts → AsyncLogger State × WorkerPc × Note → System State
  left_by g r = at_worker r.1 r.0 (record_note r.2 g)

  -- A run of the worker that does not touch the gate, from a logger to another.
  pub record Ran (k : ℕ) (l : AsyncLogger State) (g : Ghosts) (w : WorkerPc) (n : ℕ)
      (queue : List QueueItem) : Type 0 where
    pub upto : ℕ
    pub next : AsyncLogger State
    pub ghosts : Ghosts
    pub required : Bool
    pub steps :
        OwnRun k (at_worker w l g) upto (at_worker (WorkerPc.draining required true) next ghosts)
    pub queue_left : next.queue ≡ queue
    pub handled : ghosts.handled ≡ g.handled + n
    pub state : next.operation_state ≡ l.operation_state
    pub alive : next.worker_failed ≡ l.worker_failed

  handle_one :
      (k : ℕ) (kind : QueueItemType) (ticket : ℕ) (m : LogMessage) (items : List QueueItem)
      (required : Bool) (l : AsyncLogger State) (g : Ghosts)
      → l.queue ≡ items
      → let item : QueueItem = record { type = kind; ticket = ticket; message = m } in
        Ran k l g (WorkerPc.handling false required item) 1 items
  unfolding worker_step
  handle_one k log ticket m items required l g e =
      let (s, done) = never.writes (readings k) m l.sink in
      let item : QueueItem = record { type = log; ticket = ticket; message = m } in
      record {
        upto = suc (suc (suc k));
        next = record l { sink = s; written = add64 l.written 1 };
        ghosts = record g { handled = suc g.handled };
        required = should_log m.level l.flush_level || required;
        steps = then (
            then (
              to (then here) (
                ap
                  (λ r.
                    left_by g
                      (on_sink sink l r (λ _. WorkerPc.counting false required item) Note.written))
                  done)));
        queue_left = e;
        handled = omega arith;
        state = refl;
        alive = refl;
      }
  handle_one k flush ticket m items required l g e =
      let (s, done) = never.flushes l.sink in
      record {
        upto = suc (suc k);
        next = record l { sink = s; flush_complete_ticket = ticket };
        ghosts = record g { synced_upto = g.handled; handled = suc g.handled };
        required = required;
        steps = then (
            to (then here) (
              ap
                (λ r. left_by g (
                  on_sink sink l r (λ _. WorkerPc.completing false required ticket)
                    Note.synced_flush))
                done));
        queue_left = e;
        handled = omega arith;
        state = refl;
        alive = refl;
      }

  take_one :
      (k : ℕ) (item : QueueItem) (items : List QueueItem) (required progress : Bool)
      (l : AsyncLogger State) (g : Ghosts)
      → l.queue ≡ item ∷ items
      → OwnRun k (at_worker (WorkerPc.draining required progress) l g) (suc k) (
          at_worker
            (WorkerPc.handling false required item)
            (record l { queue = items })
            (record g { takes = suc g.takes }))
  unfolding worker_step
  take_one k item items required progress l g e =
      subst
        (λ q.
          OwnRun k (at_worker (WorkerPc.draining required progress) (record l { queue = q }) g)
            (suc k)
            (at_worker (WorkerPc.handling false required item) (record l { queue = items })
              (record g { takes = suc g.takes })))
        (sym e) (then here)

  -- The inner loop empties the queue.
  drain_all :
      (k : ℕ) (items : List QueueItem) (item : QueueItem) (required progress : Bool)
      (l : AsyncLogger State) (g : Ghosts)
      → l.queue ≡ item ∷ items
      → Ran k l g (WorkerPc.draining required progress) (length l.queue) []
  drain_all k [] item required progress l g e =
      let first =
        handle_one (suc k) item.type item.ticket item.message [] required (record l { queue = [] })
          (record g { takes = suc g.takes }) refl in
      record {
        upto = first.upto;
        next = first.next;
        ghosts = first.ghosts;
        required = first.required;
        steps = OwnRun-trans (take_one k item [] required progress l g e) first.steps;
        queue_left = first.queue_left;
        handled = omega (arith, first.handled, ap length e);
        state = first.state;
        alive = first.alive;
      }
  drain_all k (other ∷ items) item required progress l g e =
      let first =
        handle_one (suc k) item.type item.ticket item.message (other ∷ items) required
          (record l { queue = other ∷ items }) (record g { takes = suc g.takes }) refl in
      let rest =
        drain_all first.upto items other first.required true first.next first.ghosts
          first.queue_left in
      record {
        upto = rest.upto;
        next = rest.next;
        ghosts = rest.ghosts;
        required = rest.required;
        steps =
            OwnRun-trans (take_one k item (other ∷ items) required progress l g e)
              (OwnRun-trans first.steps rest.steps);
        queue_left = rest.queue_left;
        handled =
            omega (arith, rest.handled, first.handled, ap length e, ap length first.queue_left);
        state = rest.state ∙ first.state;
        alive = rest.alive ∙ first.alive;
      }

  -- Where the loop ends: the queue is empty and the sink has been flushed after the last item.
  pub record Exited (k : ℕ) (l : AsyncLogger State) (g : Ghosts) (w : WorkerPc) : Type 0 where
    pub upto : ℕ
    pub last : AsyncLogger State
    pub ghosts : Ghosts
    pub steps : OwnRun k (at_worker w l g) upto (at_worker WorkerPc.exited last ghosts)
    pub empty : last.queue ≡ []
    pub handled : ghosts.handled ≡ g.handled + length l.queue
    pub flushed : ghosts.synced_upto ≡ ghosts.handled
    pub alive : last.worker_failed ≡ l.worker_failed

  abbrev Closed : AsyncLogger State → Type 0
  Closed l =
      (stop_requested l.operation_state ≡ true)
      × ((active_operation_count l.operation_state == 0) ≡ true)

  from_due :
      (k : ℕ) (progress : Bool) (l : AsyncLogger State) (g : Ghosts)
      → Closed l
      → l.queue ≡ []
      → Exited k l g (WorkerPc.flush_due progress)
  unfolding worker_step
  from_due k progress l g (closed, quiet) e =
      let (b, s, checked) = never.checks (clock k) l.sink in
      let (t, done) = never.flushes s in
      record {
        upto = suc (suc (suc (suc k)));
        last = record l { sink = t };
        ghosts = record g { synced_upto = g.handled };
        steps =
            to
              (then (
                to
                  (then (
                    to
                      (then (
                        to (then here) (
                          ap
                            (λ r. left_by g (
                              on_sink sink l r (λ due. WorkerPc.stop_test (due || progress))
                                Note.nothing))
                            checked)))
                      (ap
                        (λ c.
                          at_worker
                            (elim c [
                              | true ↦ WorkerPc.active_test (b || progress)
                              | false ↦ elim (b || progress) [
                                | true ↦ WorkerPc.draining false false
                                | false ↦ WorkerPc.load_signal
                              ]
                            ])
                            (record l { sink = s }) g)
                        closed)))
                  (ap
                    (λ c.
                      at_worker
                        (elim c [
                          | true ↦ WorkerPc.last_flush
                          | false ↦ elim (b || progress) [
                            | true ↦ WorkerPc.draining false false
                            | false ↦ WorkerPc.load_signal
                          ]
                        ])
                        (record l { sink = s }) g)
                    quiet)))
              (ap
                (λ r.
                  left_by g
                    (on_sink sink (record l { sink = s }) r (λ _. WorkerPc.exited) Note.synced))
                done);
        empty = e;
        handled = omega (arith, ap length e);
        flushed = refl;
        alive = refl;
      }

  -- The worker sees an empty queue.
  see_empty :
      (k : ℕ) (required progress : Bool) (l : AsyncLogger State) (g : Ghosts)
      → l.queue ≡ []
      → OwnRun k (at_worker (WorkerPc.draining required progress) l g) (suc k) (
          at_worker
            (elim required [
              | true ↦ WorkerPc.flush_required false
              | false ↦ WorkerPc.flush_due progress
            ])
            l
            g)
  unfolding worker_step
  see_empty k required progress l g e =
      subst
        (λ q.
          OwnRun k (at_worker (WorkerPc.draining required progress) (record l { queue = q }) g)
            (suc k)
            (at_worker
              (elim required [
                | true ↦ WorkerPc.flush_required false
                | false ↦ WorkerPc.flush_due progress
              ])
              (record l { queue = q }) g))
        (sym e) (then here)

  from_empty :
      (k : ℕ) (required progress : Bool) (l : AsyncLogger State) (g : Ghosts)
      → Closed l
      → l.queue ≡ []
      → Exited k l g (WorkerPc.draining required progress)
  unfolding worker_step
  from_empty k false progress l g closed e =
      let rest = from_due (suc k) progress l g closed e in
      record {
        upto = rest.upto;
        last = rest.last;
        ghosts = rest.ghosts;
        steps = OwnRun-trans (see_empty k false progress l g e) rest.steps;
        empty = rest.empty;
        handled = rest.handled;
        flushed = rest.flushed;
        alive = rest.alive;
      }
  from_empty k true progress l g closed e =
      let (s, done) = never.flushes l.sink in
      let rest =
        from_due (suc (suc k)) true (record l { sink = s }) (record g { synced_upto = g.handled })
          closed e in
      record {
        upto = rest.upto;
        last = rest.last;
        ghosts = rest.ghosts;
        steps =
            OwnRun-trans
              (to (then (see_empty k true progress l g e)) (
                ap (λ r. left_by g (on_sink sink l r (λ _. WorkerPc.flush_due true) Note.synced))
                  done))
              rest.steps;
        empty = rest.empty;
        handled = rest.handled;
        flushed = rest.flushed;
        alive = rest.alive;
      }

  from_queue :
      (k : ℕ) (queue : List QueueItem) (required progress : Bool) (l : AsyncLogger State)
      (g : Ghosts)
      → Closed l
      → l.queue ≡ queue
      → Exited k l g (WorkerPc.draining required progress)
  from_queue k [] required progress l g closed e = from_empty k required progress l g closed e
  from_queue k (item ∷ items) required progress l g closed e =
      let run = drain_all k items item required progress l g e in
      let rest =
        from_empty run.upto run.required true run.next run.ghosts
          (subst (λ n. (stop_requested n ≡ true) × ((active_operation_count n == 0) ≡ true))
            (sym run.state) closed)
          run.queue_left in
      record {
        upto = rest.upto;
        last = rest.last;
        ghosts = rest.ghosts;
        steps = OwnRun-trans run.steps rest.steps;
        empty = rest.empty;
        handled = omega (arith, rest.handled, run.handled, ap length run.queue_left);
        flushed = rest.flushed;
        alive = rest.alive ∙ run.alive;
      }

  -- Once the gate is closed and nobody is inside, the worker in its inner loop, with a sink that never
  -- throws, comes to its exit in finitely many steps of its own while the other threads stand still,
  -- whatever the clock and the sink's readings say at each of them, where each look at the queue finds
  -- the item in front: it has handled as many items as were in the queue, the queue is empty, the
  -- sink has been flushed behind the last of them, and the worker has not failed if it had not before.
  pub worker_exits :
      (k : ℕ) (required progress : Bool) (l : AsyncLogger State) (g : Ghosts)
      → stop_requested l.operation_state ≡ true
      → (active_operation_count l.operation_state == 0) ≡ true
      → Exited k l g (WorkerPc.draining required progress)
  worker_exits k required progress l g closed quiet =
      from_queue k l.queue required progress l g (closed, quiet) refl

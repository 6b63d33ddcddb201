-- ===== src/Logger/Machine/Flush/Works.antt =====
-- A step of the worker keeps what is known of the tickets.
use high_performance_logger.Common.{
  ℕ, suc, ◌≤◌, ◌≡◌, ◌⊎◌, inl, inr, Bool, true, false, ◌||◌, ◌==◌, List, [], ◌∷◌, length, refl,
  arith, sym, ap,
}
use mathlib.Core.Path.{subst}
use high_performance_logger.Message.{QueueItemType, log, flush, QueueItem}
use high_performance_logger.Level.{should_log}
use high_performance_logger.Sinks.Stream.{Result, ok, throw, is_due}
use high_performance_logger.Sinks.Interface.{SinkInterface}
use high_performance_logger.Logger.Gate.{stop_requested, active_operation_count}
use high_performance_logger.Logger.Worker.{AsyncLogger}
use high_performance_logger.Logger.Machine.{
  WorkerPc, Note, worker_step, on_sink, after_handling, should_wake,
}
use high_performance_logger.Logger.Machine.System.{Ghosts, record_note}
use high_performance_logger.Logger.Machine.Flush.Defs.{
  View, view, PlacedAt, Placed, WorkerLocal, SharedBy, Grows,
}
use high_performance_logger.Logger.Machine.Flush.Grow.{Grows-refl, Placed-Grows, reached-Grows}

pub record GoodWork {S : Type 0} (l : AsyncLogger S) (g : Ghosts) (l' : AsyncLogger S) (g' : Ghosts)
    (w : WorkerPc) : Type 0 where
  pub grows : Grows (view l g) (view l' g')
  pub shared : SharedBy l' g'
  pub local : WorkerLocal (view l' g') g'.takes g'.handled w

either-WorkerLocal :
    (v : View) (takes handled : ℕ) (b : Bool) (p q : WorkerPc)
    → WorkerLocal v takes handled p
    → WorkerLocal v takes handled q
    → WorkerLocal v takes handled (elim b [ true ↦ p | false ↦ q ])
either-WorkerLocal v takes handled true p q h k = h
either-WorkerLocal v takes handled false p q h k = k

module _ {S : Type 0} (l : AsyncLogger S) (g : Ghosts) (h : SharedBy l g) where
  keep : (w : WorkerPc) → WorkerLocal (view l g) g.takes g.handled w → GoodWork l g l g w
  keep w k = record { grows = Grows-refl (view l g); shared = h; local = k }

  choose :
      (b : Bool) (p q : WorkerPc)
      → WorkerLocal (view l g) g.takes g.handled p
      → WorkerLocal (view l g) g.takes g.handled q
      → GoodWork l g l g (elim b [ true ↦ p | false ↦ q ])
  choose b p q j k = keep _ (either-WorkerLocal (view l g) g.takes g.handled b p q j k)

  after-WorkerLocal :
      (again required : Bool) (l' : AsyncLogger S) (g' : Ghosts)
      → g'.takes ≡ g'.handled
      → WorkerLocal (view l' g') g'.takes g'.handled (after_handling again required)
  after-WorkerLocal false required l' g' e = e
  after-WorkerLocal true true l' g' e = e
  after-WorkerLocal true false l' g' e = e

  -- The item in front of the queue is taken.
  take-GoodWork :
      (queue : List QueueItem) (again required : Bool) (empty : WorkerPc)
      → (queue ≡ []) ⊎ (queue ≡ l.queue)
      → g.takes ≡ g.handled
      → WorkerLocal (view l g) g.takes g.handled empty
      → let r = elim queue as (λ _. AsyncLogger S × WorkerPc × Note) [
        | [] ↦ (l, empty, Note.nothing)
        | item ∷ items ↦
            (record l { queue = items }, WorkerPc.handling again required item, Note.taken)
      ] in
        GoodWork l g r.0 (record_note r.2 g) r.1
  take-GoodWork [] again required empty e k j = keep empty j
  take-GoodWork (item ∷ items) again required empty (inl e) k j = absurd cc
  take-GoodWork (item ∷ items) again required empty (inr e) k j =
      let placed : Placed (view l g) g.takes (item ∷ items) =
        subst (Placed (view l g) g.takes) (sym e) h.placed in
      record {
        grows = Grows-refl (view l g);
        shared = record {
          marks = h.marks;
          counted = h.counted;
          done = h.done;
          order = omega (arith, h.order);
          sizes = omega (arith, h.sizes, ap length e);
          placed = placed.1;
          known = h.known;
          reached = h.reached;
        };
        local =
            (omega (arith, k), subst (λ n. PlacedAt (view l g) n item.type item.ticket) k placed.0);
      }

  -- The sink has been flushed, or an item has been handed to it: `synced_upto` and `handled` move up.
  advance-GoodWork :
      (s : S) (w : WorkerPc) (y z : ℕ)
      → g.synced_upto ≤ y
      → y ≤ z
      → z ≤ g.takes
      → WorkerLocal (view l (record g { synced_upto = y; handled = z })) g.takes z w
      → GoodWork l g (record l { sink = s }) (record g { synced_upto = y; handled = z }) w
  advance-GoodWork s w y z up below room k = record {
    grows = grown;
    shared = record {
      marks = record { ordered = h.marks.ordered; bounded = h.marks.bounded };
      counted = h.counted;
      done = below;
      order = room;
      sizes = h.sizes;
      placed = Placed-Grows (view l g) v' grown g.takes l.queue h.placed;
      known = h.known;
      reached = reached-Grows (view l g) v' grown l.flush_complete_ticket h.known h.reached;
    };
    local = k;
  }
    where
      v' : View
      v' = view l (record g { synced_upto = y; handled = z })

      grown : Grows (view l g) v'
      grown = record {
        request = omega arith;
        claims = omega arith;
        synced = up;
        failed = λ e. e;
        mark = λ t r. refl;
      }

  sink-GoodWork :
      {A : Type 0} (r : Result A × S) (next : A → WorkerPc) (n : Note)
      → ((a : A) (s : S) → GoodWork l g (record l { sink = s }) (record_note n g) (next a))
      → let q = elim r.0 as (λ _. AsyncLogger S × WorkerPc × Note) [
        | ok a ↦ (record l { sink = r.1 }, next a, n)
        | throw e ↦ (record l { sink = r.1 }, WorkerPc.fail_message e, Note.nothing)
      ] in
        GoodWork l g q.0 (record_note q.2 g) q.1
  sink-GoodWork (ok a, s) next n k = k a s
  sink-GoodWork (throw e, s) next n k = record {
    grows = Grows-refl (view l g);
    shared = h;
    local = tt;
  }

  -- The completion of a ticket that is known to be reached.
  complete-GoodWork :
      (t : ℕ) (w : WorkerPc)
      → t ≤ l.flush_request_ticket
      → (l.worker_failed ≡ true) ⊎ (g.mark t ≤ g.synced_upto)
      → WorkerLocal (view l g) g.takes g.handled w
      → GoodWork l g (record l { flush_complete_ticket = t }) g w
  complete-GoodWork t w k r j = record {
    grows = Grows-refl (view l g);
    shared = record {
      marks = h.marks;
      counted = h.counted;
      done = h.done;
      order = h.order;
      sizes = h.sizes;
      placed = h.placed;
      known = k;
      reached = r;
    };
    local = j;
  }

  fail-GoodWork : GoodWork l g (record l { worker_failed = true }) g WorkerPc.fail_ticket
  fail-GoodWork = record {
    grows = grown;
    shared = record {
      marks = record { ordered = h.marks.ordered; bounded = h.marks.bounded };
      counted = h.counted;
      done = h.done;
      order = h.order;
      sizes = h.sizes;
      placed = Placed-Grows (view l g) v' grown g.takes l.queue h.placed;
      known = h.known;
      reached = inl refl;
    };
    local = refl;
  }
    where
      v' : View
      v' = view (record l { worker_failed = true }) g

      grown : Grows (view l g) v'
      grown = record {
        request = omega arith;
        claims = omega arith;
        synced = omega arith;
        failed = λ e. refl;
        mark = λ t r. refl;
      }

module _ (sink : SinkInterface) where
  open sink use {State, Reading}

  module _ (l : AsyncLogger State) (g : Ghosts) (h : SharedBy l g) where
    -- A use of the sink after which everything handled so far has been flushed.
    synced-GoodWork :
        (next : WorkerPc)
        → WorkerLocal (view l (record g { synced_upto = g.handled })) g.takes g.handled next
        → let r = on_sink sink l (sink.flush l.sink) (λ _. next) Note.synced in
          GoodWork l g r.0 (record_note r.2 g) r.1
    synced-GoodWork next k =
        sink-GoodWork l g h (sink.flush l.sink) (λ _. next) Note.synced
          (λ a s. advance-GoodWork l g h s next g.handled g.handled h.done (omega arith) h.order k)

    handling-GoodWork :
        (kind : QueueItemType) (reading : Reading) (again required : Bool) (item : QueueItem)
        → g.takes ≡ suc g.handled
        → PlacedAt (view l g) g.handled kind item.ticket
        → let r = elim kind as (λ _. AsyncLogger State × WorkerPc × Note) [
          | flush ↦
              on_sink sink l
                (sink.flush l.sink)
                (λ _. WorkerPc.completing again required item.ticket)
                Note.synced_flush
          | log ↦
              on_sink sink l
                (sink.write reading item.message l.sink)
                (λ _. WorkerPc.counting again required item)
                Note.written
        ] in
          GoodWork l g r.0 (record_note r.2 g) r.1
    handling-GoodWork flush reading again required item e (k, m) =
        sink-GoodWork l g h (sink.flush l.sink)
          (λ _. WorkerPc.completing again required item.ticket) Note.synced_flush
          (λ a s.
            advance-GoodWork l g h s _ g.handled (suc g.handled) h.done (omega arith)
              (omega (arith, e)) (e, k, m))
    handling-GoodWork log reading again required item e k =
        sink-GoodWork l g h (sink.write reading item.message l.sink)
          (λ _. WorkerPc.counting again required item) Note.written
          (λ a s.
            advance-GoodWork l g h s _ g.synced_upto (suc g.handled) (omega arith)
              (omega (arith, h.done)) (omega (arith, e)) e)

    -- What TryDequeue sees.
    seen :
        (busy : Bool)
        → let q = elim busy as (λ _. List QueueItem) [ true ↦ [] | false ↦ l.queue ] in
          (q ≡ []) ⊎ (q ≡ l.queue)
    seen true = inl refl
    seen false = inr refl

    loop_back :
        (progress : Bool)
        → g.takes ≡ g.handled
        → WorkerLocal
            (view l g)
            g.takes
            g.handled
            (elim progress [ true ↦ WorkerPc.draining false false | false ↦ WorkerPc.load_signal ])
    loop_back progress k =
        either-WorkerLocal (view l g) g.takes g.handled progress (WorkerPc.draining false false)
          WorkerPc.load_signal k k

    pub worker_step-GoodWork :
        (busy : Bool) (reading : Reading) (now : ℕ) (w : WorkerPc)
        → WorkerLocal (view l g) g.takes g.handled w
        → let r = worker_step sink busy reading now l w in GoodWork l g r.0 (record_note r.2 g) r.1
    unfolding worker_step
    worker_step-GoodWork busy reading now (WorkerPc.draining required progress) k =
        take-GoodWork l g h _ false required
          (elim required [
            | true ↦ WorkerPc.flush_required false
            | false ↦ WorkerPc.flush_due progress
          ])
          (seen busy) k
          (either-WorkerLocal (view l g) g.takes g.handled required (WorkerPc.flush_required false)
            (WorkerPc.flush_due progress) k k)
    worker_step-GoodWork busy reading now (WorkerPc.handling again required item) k =
        handling-GoodWork item.type reading again required item k.0 k.1
    worker_step-GoodWork busy reading now (WorkerPc.completing again required t) (k, r, m) =
        complete-GoodWork l g h t _ r (inr m) (after-WorkerLocal l g h again required l g k)
    worker_step-GoodWork busy reading now (WorkerPc.counting again required item) k = record {
      grows = Grows-refl (view l g);
      shared = h;
      local = k;
    }
    worker_step-GoodWork busy reading now (WorkerPc.deciding again required item) k = keep l g h _ (
        after-WorkerLocal l g h again (should_log item.message.level l.flush_level || required) l g
          k)
    worker_step-GoodWork busy reading now (WorkerPc.flush_required false) k =
        synced-GoodWork (WorkerPc.flush_due true) k
    worker_step-GoodWork busy reading now (WorkerPc.flush_required true) k =
        synced-GoodWork (WorkerPc.draining false false) k
    worker_step-GoodWork busy reading now (WorkerPc.flush_due progress) k =
        sink-GoodWork l g h (sink.flush_if_due now l.sink) (λ b. WorkerPc.stop_test (b || progress))
          Note.nothing (λ a s. record { grows = Grows-refl (view l g); shared = h; local = k })
    worker_step-GoodWork busy reading now (WorkerPc.stop_test progress) k =
        choose l g h (stop_requested l.operation_state) (WorkerPc.active_test progress)
          (elim progress [ true ↦ WorkerPc.draining false false | false ↦ WorkerPc.load_signal ]) k
          (loop_back progress k)
    worker_step-GoodWork busy reading now (WorkerPc.active_test progress) k =
        choose l g h (active_operation_count l.operation_state == 0) WorkerPc.last_flush
          (elim progress [ true ↦ WorkerPc.draining false false | false ↦ WorkerPc.load_signal ]) k
          (loop_back progress k)
    worker_step-GoodWork busy reading now WorkerPc.load_signal k = keep l g h _ k
    worker_step-GoodWork busy reading now (WorkerPc.try_again signal) k =
        take-GoodWork l g h _ true false (WorkerPc.wake_test signal) (seen busy) k k
    worker_step-GoodWork busy reading now (WorkerPc.wake_test signal) k =
        choose l g h (should_wake sink signal l || is_due (sink.next_auto_flush_time l.sink) now)
          (WorkerPc.draining false false) (WorkerPc.blocking signal) k k
    worker_step-GoodWork busy reading now (WorkerPc.blocking signal) k = keep l g h _ k
    worker_step-GoodWork busy reading now (WorkerPc.blocked signal) k =
        choose l g h (is_due (sink.next_auto_flush_time l.sink) now) (WorkerPc.draining false false)
          (WorkerPc.blocked signal) k k
    worker_step-GoodWork busy reading now WorkerPc.last_flush k = synced-GoodWork WorkerPc.exited tt
    worker_step-GoodWork busy reading now (WorkerPc.fail_message e) k = record {
      grows = Grows-refl (view l g);
      shared = h;
      local = tt;
    }
    worker_step-GoodWork busy reading now WorkerPc.fail_stop k = record {
      grows = Grows-refl (view l g);
      shared = h;
      local = tt;
    }
    worker_step-GoodWork busy reading now WorkerPc.fail_flag k = fail-GoodWork l g h
    worker_step-GoodWork busy reading now WorkerPc.fail_ticket k = keep l g h _ (k, omega arith)
    worker_step-GoodWork busy reading now (WorkerPc.fail_complete t) (k, r) =
        complete-GoodWork l g h t _ r (inl k) k
    worker_step-GoodWork busy reading now WorkerPc.fail_notify k = record {
      grows = Grows-refl (view l g);
      shared = h;
      local = tt;
    }
    worker_step-GoodWork busy reading now WorkerPc.exited k = keep l g h _ tt

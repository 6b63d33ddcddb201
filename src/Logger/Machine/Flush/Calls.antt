-- ===== src/Logger/Machine/Flush/Calls.antt =====
-- A step of a call keeps what is known of the tickets.
use high_performance_logger.Common.{
  ℕ, suc, ◌+◌, ◌<◌, ◌≤◌, ◌≡◌, inl, inr, Bool, true, false, ◌&&◌, ◌||◌, not, ◌==◌, ltb, Bool-cases,
  Option, none, some, [], ◌∷◌, ◌++◌, length, refl, arith, length-append, sym,
}
use mathlib.Core.Path.{subst}
use high_performance_logger.Common.Word.{add64, word_mod}
use high_performance_logger.Message.{LogMessage, QueueItemType, log, flush, QueueItem}
use high_performance_logger.Level.{should_log}
use high_performance_logger.Logger.Gate.{try_start_operation, finish_operation, request_stop}
use high_performance_logger.Logger.Worker.{AsyncLogger}
use high_performance_logger.Logger.Machine.{
  Outcome, Pc, Note, call_step, give_up, after_publish, blocks, flush_item,
}
use high_performance_logger.Logger.Machine.System.{Ghosts, record_note}
use high_performance_logger.Logger.Machine.Flush.Defs.{
  View, view, PlacedAt, Ticketed, Local, SharedBy, Grows,
}
use high_performance_logger.Logger.Machine.Flush.Grow.{
  Grows-refl, Placed-Grows, Placed-append, reached-Grows,
}

pub record Good {S : Type 0} (l : AsyncLogger S) (g : Ghosts) (l' : AsyncLogger S) (q : Pc)
    (n : Note) : Type 0 where
  pub grows : Grows (view l g) (view l' (record_note n g))
  pub shared : SharedBy l' (record_note n g)
  pub local : Local (view l' (record_note n g)) q
  pub takes : (record_note n g).takes ≡ g.takes
  pub handled : (record_note n g).handled ≡ g.handled

either-Local :
    (v : View) (b : Bool) (p q : Pc)
    → Local v p
    → Local v q
    → Local v (elim b [ true ↦ p | false ↦ q ])
either-Local v true p q h k = h
either-Local v false p q h k = k

give_up-Local : (v : View) (item : QueueItem) → Local v (give_up item)
give_up-Local v item =
    elim item.type
      as (λ k. Local v (elim k [ log ↦ Pc.uncount item | flush ↦ Pc.finish Outcome.refused ])) [
        | log ↦ tt
        | flush ↦ tt
      ]

after_publish-Local :
    (v : View) (item : QueueItem) → Ticketed v item.type item.ticket → Local v (after_publish item)
after_publish-Local v item =
    elim item.type
      as (λ k.
        Ticketed v k item.ticket
        → Local v
            (elim k [ log ↦ Pc.finish (Outcome.logged item) | flush ↦ Pc.wait_load item.ticket ])) [
              | log ↦ λ h. tt
              | flush ↦ λ h. h
            ]

module _ {S : Type 0} (l : AsyncLogger S) (g : Ghosts) (h : SharedBy l g) where
  -- A step that leaves the queue and the tickets alone.
  keep : (q : Pc) → Local (view l g) q → Good l g l q Note.nothing
  keep q k = record {
    takes = refl;
    handled = refl;
    grows = Grows-refl (view l g);
    shared = h;
    local = k;
  }

  last-PlacedAt :
      (k : QueueItemType) (t : ℕ)
      → Ticketed (view l g) k t
      → PlacedAt (view l (record_note Note.pushed g)) (g.takes + length l.queue) k t
  last-PlacedAt log t k = tt
  last-PlacedAt flush t k = (k, omega (arith, h.marks.bounded t k, h.sizes))

  push-Good :
      (item : QueueItem)
      → Ticketed (view l g) item.type item.ticket
      → Good l g (record l { queue = l.queue ++ item ∷ [] }) (Pc.publish_notify item) Note.pushed
  push-Good item k = record {
    takes = refl;
    handled = refl;
    grows = grown;
    shared = record {
      marks = record {
        ordered = h.marks.ordered;
        bounded = λ t r. omega (arith, h.marks.bounded t r);
      };
      counted = h.counted;
      done = h.done;
      order = h.order;
      sizes = omega (arith, h.sizes, length-append l.queue (item ∷ []));
      placed =
          Placed-append v' g.takes l.queue item
            (Placed-Grows (view l g) v' grown g.takes l.queue h.placed)
            (last-PlacedAt item.type item.ticket k);
      known = h.known;
      reached = h.reached;
    };
    local = k;
  }
    where
      v' : View
      v' = view (record l { queue = l.queue ++ item ∷ [] }) (record_note Note.pushed g)

      grown : Grows (view l g) v'
      grown = record {
        request = omega arith;
        claims = omega arith;
        synced = omega arith;
        failed = λ e. e;
        mark = λ t r. refl;
      }

  ticket-Good :
      (m : LogMessage)
      → suc g.tickets < word_mod
      → let t = add64 l.flush_request_ticket 1 in
        Good l g
          (record l { flush_request_ticket = t })
          (Pc.publish_failure (flush_item m t))
          (Note.ticketed t)
  ticket-Good m fits = record {
    takes = refl;
    handled = refl;
    grows = grown;
    shared = record {
      marks = record {
        ordered = λ a b i j. ground (arith, h.marks.ordered a b, h.marks.bounded a, next);
        bounded = λ a i. ground (arith, h.marks.bounded a, next);
      };
      counted = next;
      done = h.done;
      order = h.order;
      sizes = h.sizes;
      placed = Placed-Grows (view l g) v' grown g.takes l.queue h.placed;
      known = omega (arith, next, h.known, h.counted);
      reached = reached-Grows (view l g) v' grown l.flush_complete_ticket h.known h.reached;
    };
    local = omega arith;
  }
    where
      t : ℕ
      t = add64 l.flush_request_ticket 1

      v' : View
      v' = view (record l { flush_request_ticket = t }) (record_note (Note.ticketed t) g)

      next : t ≡ suc g.tickets
      next = omega (arith, h.counted, fits)

      grown : Grows (view l g) v'
      grown = record {
        request = omega (arith, next, h.counted);
        claims = omega arith;
        synced = omega arith;
        failed = λ e. e;
        mark = λ u r. ground (arith, next, h.counted);
      }

  wait-Good :
      (t : ℕ)
      → t ≤ l.flush_request_ticket
      → Good l g l
          (elim (ltb l.flush_complete_ticket t) [
            | true ↦ Pc.wait_failure t l.flush_complete_ticket
            | false ↦ Pc.wait_last t
          ])
          Note.nothing
  wait-Good t k = elim (Bool-cases (ltb l.flush_complete_ticket t)) [
    | inl e ↦ rw e (keep _ k)
    | inr e ↦
        rw e (
          keep _ (k, ground (arith, h.reached, h.marks.ordered t l.flush_complete_ticket, h.known)))
  ]

  start-Good :
      (state : Option ℕ) (q : Pc)
      → Local (view l g) q
      → let r = elim state as (λ _. AsyncLogger S × Pc × Note) [
        | none ↦ (l, Pc.returned Outcome.refused, Note.nothing)
        | some t ↦ (record l { operation_state = t }, q, Note.nothing)
      ] in
        Good l g r.0 r.1 r.2
  start-Good none q k = keep (Pc.returned Outcome.refused) tt
  start-Good (some t) q k = record {
    takes = refl;
    handled = refl;
    grows = Grows-refl (view l g);
    shared = h;
    local = k;
  }

  enqueue-Good :
      (b : Bool) (item : QueueItem)
      → Ticketed (view l g) item.type item.ticket
      → let r = elim b as (λ _. AsyncLogger S × Pc × Note) [
        | true ↦ (record l { queue = l.queue ++ item ∷ [] }, Pc.publish_notify item, Note.pushed)
        | false ↦ (
          l,
          elim (blocks l.overflow_policy item.type) [
            | true ↦ Pc.publish_failure item
            | false ↦ Pc.count_dropped item
          ],
          Note.nothing,
        )
      ] in
        Good l g r.0 r.1 r.2
  enqueue-Good true item k = push-Good item k
  enqueue-Good false item k = keep _ (
      either-Local (view l g) (blocks l.overflow_policy item.type) (Pc.publish_failure item)
        (Pc.count_dropped item) k tt)

  join-Good :
      (x b : Bool)
      → Good l g l
          (elim b [ true ↦ Pc.returned Outcome.stopped | false ↦ Pc.stop_join ])
          (elim x [ true ↦ Note.joined | false ↦ Note.nothing ])
  join-Good true b = record {
    takes = refl;
    handled = refl;
    grows = Grows-refl (view l g);
    shared = h;
    local = either-Local (view l g) b (Pc.returned Outcome.stopped) Pc.stop_join tt tt;
  }
  join-Good false b =
      keep _ (either-Local (view l g) b (Pc.returned Outcome.stopped) Pc.stop_join tt tt)

  last-Good :
      (b : Bool) (t : ℕ)
      → l.worker_failed ≡ b
      → Local (view l g) (Pc.wait_last t)
      → Local
          (view l g)
          (elim b [ true ↦ Pc.finish Outcome.refused | false ↦ Pc.finish (Outcome.flushed t) ])
  last-Good true t e k = tt
  last-Good false t e (k, inl f) = absurd cc
  last-Good false t e (k, inr m) = (k, m)

  pub call_step-Good :
      (busy j x : Bool) (p : Pc)
      → suc g.tickets < word_mod
      → Local (view l g) p
      → Good l g (call_step busy j x l p).0 (call_step busy j x l p).1 (call_step busy j x l p).2
  unfolding call_step
  call_step-Good busy j x Pc.idle f k = keep _ tt
  call_step-Good busy j x (Pc.log_enter item) f k =
      start-Good (try_start_operation l.operation_state) (Pc.log_failure item) k
  call_step-Good busy j x (Pc.log_failure item) f k =
      keep _ (
        either-Local (view l g) l.worker_failed (Pc.finish Outcome.refused) (Pc.log_level item) tt
          k)
  call_step-Good busy j x (Pc.log_level item) f k = keep _ (
      either-Local (view l g) (should_log item.message.level l.level) (Pc.log_count item)
        (Pc.finish Outcome.refused) k tt)
  call_step-Good busy j x (Pc.log_count item) f k = record {
    takes = refl;
    handled = refl;
    grows = Grows-refl (view l g);
    shared = h;
    local = subst (λ t. Ticketed (view l g) t item.ticket) (sym k) tt;
  }
  call_step-Good busy j x (Pc.flush_enter m) f k =
      start-Good (try_start_operation l.operation_state) (Pc.flush_failure m) tt
  call_step-Good busy j x (Pc.flush_failure m) f k = keep _ (
      either-Local (view l g) (j || l.worker_failed) (Pc.finish Outcome.refused) (Pc.flush_ticket m)
        tt tt)
  call_step-Good busy j x (Pc.flush_ticket m) f k = ticket-Good m f
  call_step-Good busy j x (Pc.publish_failure item) f k = keep _ (
      either-Local (view l g) l.worker_failed (give_up item) (Pc.publish_enqueue item)
        (give_up-Local (view l g) item) k)
  call_step-Good busy j x (Pc.publish_enqueue item) f k =
      enqueue-Good (ltb (length l.queue) l.queue_capacity && not busy) item k
  call_step-Good busy j x (Pc.publish_notify item) f k = record {
    takes = refl;
    handled = refl;
    grows = Grows-refl (view l g);
    shared = h;
    local = after_publish-Local (view l g) item k;
  }
  call_step-Good busy j x (Pc.uncount item) f k = record {
    takes = refl;
    handled = refl;
    grows = Grows-refl (view l g);
    shared = h;
    local = tt;
  }
  call_step-Good busy j x (Pc.count_dropped item) f k = record {
    takes = refl;
    handled = refl;
    grows = Grows-refl (view l g);
    shared = h;
    local = tt;
  }
  call_step-Good busy j x (Pc.wait_load t) f k = wait-Good t k
  call_step-Good busy j x (Pc.wait_failure t c) f k = keep _ (
      either-Local (view l g) l.worker_failed (Pc.finish Outcome.refused) (Pc.wait_asleep t c) tt k)
  call_step-Good busy j x (Pc.wait_asleep t c) f k = keep _ (
      either-Local (view l g) (l.flush_complete_ticket == c) (Pc.wait_asleep t c) (Pc.wait_load t) k
        k)
  call_step-Good busy j x (Pc.wait_last t) f k = keep _ (last-Good l.worker_failed t refl k)
  call_step-Good busy j x (Pc.finish o) f k = record {
    takes = refl;
    handled = refl;
    grows = Grows-refl (view l g);
    shared = h;
    local =
        either-Local (view l g) (finish_operation l.operation_state).1 (Pc.finish_notify o)
          (Pc.returned o) k k;
  }
  call_step-Good busy j x (Pc.finish_notify o) f k = record {
    takes = refl;
    handled = refl;
    grows = Grows-refl (view l g);
    shared = h;
    local = k;
  }
  call_step-Good busy j x (Pc.returned o) f k = keep _ k
  call_step-Good busy j x Pc.stop_enter f k = record {
    takes = refl;
    handled = refl;
    grows = Grows-refl (view l g);
    shared = h;
    local =
        either-Local (view l g) (request_stop l.operation_state).1 Pc.stop_notify Pc.stop_join tt
          tt;
  }
  call_step-Good busy j x Pc.stop_notify f k = record {
    takes = refl;
    handled = refl;
    grows = Grows-refl (view l g);
    shared = h;
    local = tt;
  }
  call_step-Good busy j x Pc.stop_join f k = join-Good x (j || x)

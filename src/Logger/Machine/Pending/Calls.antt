-- ===== src/Logger/Machine/Pending/Calls.antt =====
-- A step of a call keeps the number of the counted messages (src/core/async_logger.cpp: Publish).
use high_performance_logger.Common.{
  ℕ, ◌+◌, ◌%◌, ◌≡◌, refl, ap, Bool, true, false, ◌&&◌, ◌||◌, not, ltb, ◌==◌, Option, none, some, [],
  ◌∷◌, ◌++◌, length, arith,
}
use high_performance_logger.Common.Word.{word_mod}
use high_performance_logger.Level.{should_log}
use high_performance_logger.Message.{QueueItemType, log, flush, QueueItem}
use high_performance_logger.Logger.Gate.{try_start_operation, finish_operation, request_stop}
use high_performance_logger.Logger.Worker.{AsyncLogger, OverflowPolicy, block, drop_newest}
use high_performance_logger.Logger.Worker.Laws.{logs}
use high_performance_logger.Logger.Machine.{
  Outcome, Pc, Note, call_step, give_up, after_publish, blocks,
}
use high_performance_logger.Logger.Machine.Pending.Counts.{weight, typed, coming, logs-append}

-- A message at the front of Log, before it is counted.
abbrev pub IsLog : Pc → Type 0
IsLog (Pc.log_count item) = item.type ≡ log
IsLog p = Unit

-- A step from `p` to `q` keeps the number of counted messages, with `x` of them elsewhere.
pub record Balance {S : Type 0} (l : AsyncLogger S) (p : Pc) (l' : AsyncLogger S) (q : Pc)
    : Type 0 where
  pub keeps :
      (x : ℕ)
      → l.enqueued ≡ (x + l.written + logs l.queue + coming p) % word_mod
      → l'.enqueued ≡ (x + l'.written + logs l'.queue + coming q) % word_mod

module _ {S : Type 0} (l : AsyncLogger S) where
  either-coming :
      (b : Bool) (p q : Pc) (n : ℕ)
      → coming p ≡ n
      → coming q ≡ n
      → coming (elim b [ true ↦ p | false ↦ q ]) ≡ n
  either-coming true p q n j k = j
  either-coming false p q n j k = k

  give_up-coming : (item : QueueItem) → coming (give_up item) ≡ weight item
  give_up-coming item =
      elim item.type
        as (λ k.
          coming (elim k [ log ↦ Pc.uncount item | flush ↦ Pc.finish Outcome.refused ])
          ≡ elim k [ log ↦ 1 | flush ↦ 0 ]) [ log ↦ refl | flush ↦ refl ]

  after_publish-coming : (item : QueueItem) → coming (after_publish item) ≡ 0
  after_publish-coming item =
      elim item.type
        as (λ k.
          coming
            (elim k [ log ↦ Pc.finish (Outcome.logged item) | flush ↦ Pc.wait_load item.ticket ])
          ≡ 0) [ log ↦ refl | flush ↦ refl ]

  -- The counters and the queue are left alone.
  stay :
      (l' : AsyncLogger S) (p q : Pc)
      → l'.enqueued ≡ l.enqueued
      → l'.written ≡ l.written
      → l'.queue ≡ l.queue
      → coming q ≡ coming p
      → Balance l p l' q
  stay l' p q e w k c = record { keeps = λ x h. omega (arith, e, w, ap logs k, c, h) }

  start-Balance :
      (p q : Pc) (r : Option ℕ)
      → coming p ≡ 0
      → coming q ≡ 0
      → let t = elim r as (λ _. AsyncLogger S × Pc × Note) [
        | none ↦ (l, Pc.returned Outcome.refused, Note.nothing)
        | some state ↦ (record l { operation_state = state }, q, Note.nothing)
      ] in
        Balance l p t.0 t.1
  start-Balance p q none j k = record { keeps = λ x h. omega (arith, j, h) }
  start-Balance p q (some state) j k = record { keeps = λ x h. omega (arith, j, k, h) }

  refused-coming :
      (policy : OverflowPolicy) (t : QueueItemType) (item : QueueItem)
      → coming (elim (blocks policy t) [
        | true ↦ Pc.publish_failure (typed t item)
        | false ↦ Pc.count_dropped (typed t item)
      ])
        ≡ weight (typed t item)
  refused-coming policy flush item = refl
  refused-coming block log item = refl
  refused-coming drop_newest log item = refl

  enqueue-Balance :
      (b : Bool) (item : QueueItem)
      → let r = elim b as (λ _. AsyncLogger S × Pc × Note) [
        | true ↦ (record l { queue = l.queue ++ item ∷ [] }, Pc.publish_notify item, Note.pushed)
        | false ↦ (
          l,
          elim (blocks l.overflow_policy item.type) [
            | true ↦ Pc.publish_failure item
            | false ↦ Pc.count_dropped item
          ],
          Note.nothing,
        )
      ] in
        Balance l (Pc.publish_enqueue item) r.0 r.1
  enqueue-Balance true item = record { keeps = λ x h. omega (arith, h, logs-append l.queue item) }
  enqueue-Balance false item =
      stay l _ _ refl refl refl (refused-coming l.overflow_policy item.type item)

  pub call_step-Balance :
      (busy j x : Bool) (p : Pc)
      → IsLog p
      → Balance l p (call_step busy j x l p).0 (call_step busy j x l p).1
  unfolding call_step
  call_step-Balance busy j x Pc.idle k = stay _ _ _ refl refl refl refl
  call_step-Balance busy j x (Pc.log_enter item) k =
      start-Balance (Pc.log_enter item) (Pc.log_failure item)
        (try_start_operation l.operation_state) refl refl
  call_step-Balance busy j x (Pc.log_failure item) k =
      stay _ _ _ refl refl refl
        (either-coming l.worker_failed (Pc.finish Outcome.refused) (Pc.log_level item) 0 refl refl)
  call_step-Balance busy j x (Pc.log_level item) k = stay _ _ _ refl refl refl (
      either-coming (should_log item.message.level l.level) (Pc.log_count item)
        (Pc.finish Outcome.refused) 0 refl refl)
  call_step-Balance busy j x (Pc.log_count item) k =
      let one : weight item ≡ 1 = ap (λ t. weight (typed t item)) k in
      record { keeps = λ y h. omega (arith, h, one) }
  call_step-Balance busy j x (Pc.flush_enter m) k =
      start-Balance (Pc.flush_enter m) (Pc.flush_failure m) (try_start_operation l.operation_state)
        refl refl
  call_step-Balance busy j x (Pc.flush_failure m) k = stay _ _ _ refl refl refl (
      either-coming (j || l.worker_failed) (Pc.finish Outcome.refused) (Pc.flush_ticket m) 0 refl
        refl)
  call_step-Balance busy j x (Pc.flush_ticket m) k = stay _ _ _ refl refl refl refl
  call_step-Balance busy j x (Pc.publish_failure item) k = stay _ _ _ refl refl refl (
      either-coming l.worker_failed (give_up item) (Pc.publish_enqueue item) (weight item)
        (give_up-coming item) refl)
  call_step-Balance busy j x (Pc.publish_enqueue item) k =
      enqueue-Balance (ltb (length l.queue) l.queue_capacity && not busy) item
  call_step-Balance busy j x (Pc.publish_notify item) k =
      stay _ _ _ refl refl refl (after_publish-coming item)
  call_step-Balance busy j x (Pc.uncount item) k = record { keeps = λ y h. omega (arith, h) }
  call_step-Balance busy j x (Pc.count_dropped item) k = record { keeps = λ y h. omega (arith, h) }
  call_step-Balance busy j x (Pc.wait_load t) k = stay _ _ _ refl refl refl (
      either-coming (ltb l.flush_complete_ticket t) (Pc.wait_failure t l.flush_complete_ticket)
        (Pc.wait_last t) 0 refl refl)
  call_step-Balance busy j x (Pc.wait_failure t c) k =
      stay _ _ _ refl refl refl
        (either-coming l.worker_failed (Pc.finish Outcome.refused) (Pc.wait_asleep t c) 0 refl refl)
  call_step-Balance busy j x (Pc.wait_asleep t c) k = stay _ _ _ refl refl refl (
      either-coming (l.flush_complete_ticket == c) (Pc.wait_asleep t c) (Pc.wait_load t) 0 refl
        refl)
  call_step-Balance busy j x (Pc.wait_last t) k = stay _ _ _ refl refl refl (
      either-coming l.worker_failed (Pc.finish Outcome.refused) (Pc.finish (Outcome.flushed t)) 0
        refl refl)
  call_step-Balance busy j x (Pc.finish o) k = stay _ _ _ refl refl refl (
      either-coming (finish_operation l.operation_state).1 (Pc.finish_notify o) (Pc.returned o) 0
        refl refl)
  call_step-Balance busy j x (Pc.finish_notify o) k = stay _ _ _ refl refl refl refl
  call_step-Balance busy j x (Pc.returned o) k = stay _ _ _ refl refl refl refl
  call_step-Balance busy j x Pc.stop_enter k =
      stay _ _ _ refl refl refl
        (either-coming (request_stop l.operation_state).1 Pc.stop_notify Pc.stop_join 0 refl refl)
  call_step-Balance busy j x Pc.stop_notify k = stay _ _ _ refl refl refl refl
  call_step-Balance busy j x Pc.stop_join k =
      stay _ _ _ refl refl refl
        (either-coming (j || x) (Pc.returned Outcome.stopped) Pc.stop_join 0 refl refl)

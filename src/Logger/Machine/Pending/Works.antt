-- ===== src/Logger/Machine/Pending/Works.antt =====
-- A step of the worker keeps the number of the counted messages (src/core/async_logger.cpp:
-- HandleItem, RecordWorkerFailure).
use high_performance_logger.Common.{
  ℕ, ◌+◌, ◌%◌, ◌≡◌, refl, ap, Bool, true, false, ◌||◌, ◌==◌, List, [], ◌∷◌, arith,
}
use high_performance_logger.Common.Word.{word_mod}
use high_performance_logger.Level.{should_log}
use high_performance_logger.Message.{QueueItemType, log, flush, QueueItem}
use high_performance_logger.Sinks.Stream.{Result, ok, throw, is_due}
use high_performance_logger.Sinks.Interface.{SinkInterface}
use high_performance_logger.Logger.Gate.{stop_requested, active_operation_count}
use high_performance_logger.Logger.Worker.{AsyncLogger}
use high_performance_logger.Logger.Worker.Laws.{logs}
use high_performance_logger.Logger.Machine.{
  WorkerPc, Note, worker_step, after_handling, should_wake,
}
use high_performance_logger.Logger.Machine.Pending.Counts.{typed, in_hand, logs-cons}

-- The same for the worker, where `n` messages are lost.
pub record WorkerBalance {S : Type 0} (l : AsyncLogger S) (w : WorkerPc) (l' : AsyncLogger S)
    (w' : WorkerPc) (n : ℕ) : Type 0 where
  pub keeps :
      (x : ℕ)
      → l.enqueued ≡ (x + l.written + logs l.queue + in_hand w) % word_mod
      → l'.enqueued ≡ (x + l'.written + logs l'.queue + in_hand w' + n) % word_mod

module _ {S : Type 0} (l : AsyncLogger S) where
  same :
      (l' : AsyncLogger S) (w w' : WorkerPc)
      → l'.enqueued ≡ l.enqueued
      → l'.written ≡ l.written
      → l'.queue ≡ l.queue
      → in_hand w' ≡ in_hand w
      → WorkerBalance l w l' w' 0
  same l' w w' e k q c = record { keeps = λ x h. omega (arith, e, k, ap logs q, c, h) }

  either-in_hand :
      (b : Bool) (p q : WorkerPc)
      → in_hand p ≡ 0
      → in_hand q ≡ 0
      → in_hand (elim b [ true ↦ p | false ↦ q ]) ≡ 0
  either-in_hand true p q j k = j
  either-in_hand false p q j k = k

  after_handling-in_hand : (again required : Bool) → in_hand (after_handling again required) ≡ 0
  after_handling-in_hand false required = refl
  after_handling-in_hand true true = refl
  after_handling-in_hand true false = refl

  take-Balance :
      (busy : Bool) (queue : List QueueItem) (again required : Bool) (w empty : WorkerPc)
      → l.queue ≡ queue
      → in_hand w ≡ 0
      → in_hand empty ≡ 0
      → let r =
          elim (elim busy as (λ _. List QueueItem) [ true ↦ [] | false ↦ queue ])
            as (λ _. AsyncLogger S × WorkerPc × Note) [
              | [] ↦ (l, empty, Note.nothing)
              | item ∷ items ↦
                  (record l { queue = items }, WorkerPc.handling again required item, Note.taken)
            ] in
        WorkerBalance l w r.0 r.1 0
  take-Balance true queue again required w empty e j k =
      same l w empty refl refl refl (omega (arith, j, k))
  take-Balance false [] again required w empty e j k =
      same l w empty refl refl refl (omega (arith, j, k))
  take-Balance false (item ∷ items) again required w empty e j k = record {
    keeps = λ x h. omega (arith, j, h, ap logs e, logs-cons item items);
  }

  sink-Balance :
      {A : Type 0} (r : Result A × S) (w : WorkerPc) (next : A → WorkerPc) (n : Note)
      → in_hand w ≡ 0
      → ((a : A) → in_hand (next a) ≡ 0)
      → let q = elim r.0 as (λ _. AsyncLogger S × WorkerPc × Note) [
        | ok a ↦ (record l { sink = r.1 }, next a, n)
        | throw e ↦ (record l { sink = r.1 }, WorkerPc.fail_message e, Note.nothing)
      ] in
        WorkerBalance l w q.0 q.1 0
  sink-Balance (ok a, s) w next n j k = record { keeps = λ x h. omega (arith, j, k a, h) }
  sink-Balance (throw e, s) w next n j k = record { keeps = λ x h. omega (arith, j, h) }

  write-Balance :
      {A : Type 0} (r : Result A × S) (again required : Bool) (item : QueueItem) (n : Note)
      → let q = elim r.0 as (λ _. AsyncLogger S × WorkerPc × Note) [
        | ok a ↦ (record l { sink = r.1 }, WorkerPc.counting again required (typed log item), n)
        | throw e ↦ (record l { sink = r.1 }, WorkerPc.fail_message e, Note.nothing)
      ] in
        WorkerBalance l
          (WorkerPc.handling again required (typed log item))
          q.0
          q.1
          (elim r.0 [ ok a ↦ 0 | throw e ↦ 1 ])
  write-Balance (ok a, s) again required item n = record { keeps = λ x h. omega (arith, h) }
  write-Balance (throw e, s) again required item n = record { keeps = λ x h. omega (arith, h) }

module _ (sink : SinkInterface) where
  open sink use {State, Reading}

  -- A step of the worker loses a message when the sink throws in Write.
  abbrev pub lost_by : Reading → WorkerPc → State → ℕ
  lost_by reading (WorkerPc.handling again required item) s = elim item.type [
    | log ↦ elim (sink.write reading item.message s).0 [ ok a ↦ 0 | throw e ↦ 1 ]
    | flush ↦ 0
  ]
  lost_by reading w s = 0

  abbrev StepBalance : Bool → Reading → ℕ → AsyncLogger State → WorkerPc → Type 0
  StepBalance busy reading now l w =
      let r = worker_step sink busy reading now l w in
      WorkerBalance l w r.0 r.1 (lost_by reading w l.sink)

  handle-Balance :
      (busy : Bool) (reading : Reading) (now : ℕ) (l : AsyncLogger State) (again required : Bool)
      (t : QueueItemType) (item : QueueItem)
      → StepBalance busy reading now l (WorkerPc.handling again required (typed t item))
  unfolding worker_step
  handle-Balance busy reading now l again required log item =
      write-Balance l (sink.write reading item.message l.sink) again required item Note.written
  handle-Balance busy reading now l again required flush item =
      sink-Balance l (sink.flush l.sink) (WorkerPc.handling again required (typed flush item))
        (λ _. WorkerPc.completing again required item.ticket) Note.synced_flush refl (λ _. refl)

  pub worker_step-Balance :
      (busy : Bool) (reading : Reading) (now : ℕ) (l : AsyncLogger State) (w : WorkerPc)
      → StepBalance busy reading now l w
  unfolding worker_step
  worker_step-Balance busy reading now l (WorkerPc.draining required progress) =
      take-Balance l busy l.queue false required (WorkerPc.draining required progress) _ refl refl (
        either-in_hand l required (WorkerPc.flush_required false) (WorkerPc.flush_due progress) refl
          refl)
  worker_step-Balance busy reading now l (WorkerPc.handling again required item) =
      handle-Balance busy reading now l again required item.type item
  worker_step-Balance busy reading now l (WorkerPc.completing again required t) =
      same l _ _ _ refl refl refl (after_handling-in_hand l again required)
  worker_step-Balance busy reading now l (WorkerPc.counting again required item) = record {
    keeps = λ x h. omega (arith, h);
  }
  worker_step-Balance busy reading now l (WorkerPc.deciding again required item) =
      same l _ _ _ refl refl refl
        (after_handling-in_hand l again (should_log item.message.level l.flush_level || required))
  worker_step-Balance busy reading now l (WorkerPc.flush_required false) =
      sink-Balance l (sink.flush l.sink) (WorkerPc.flush_required false)
        (λ _. WorkerPc.flush_due true) Note.synced refl (λ _. refl)
  worker_step-Balance busy reading now l (WorkerPc.flush_required true) =
      sink-Balance l (sink.flush l.sink) (WorkerPc.flush_required true)
        (λ _. WorkerPc.draining false false) Note.synced refl (λ _. refl)
  worker_step-Balance busy reading now l (WorkerPc.flush_due progress) =
      sink-Balance l (sink.flush_if_due now l.sink) (WorkerPc.flush_due progress)
        (λ b. WorkerPc.stop_test (b || progress)) Note.nothing refl (λ _. refl)
  worker_step-Balance busy reading now l (WorkerPc.stop_test progress) =
      same l _ _ _ refl refl refl (
        either-in_hand l (stop_requested l.operation_state) (WorkerPc.active_test progress)
          (elim progress [ true ↦ WorkerPc.draining false false | false ↦ WorkerPc.load_signal ])
          refl
          (either-in_hand l progress (WorkerPc.draining false false) WorkerPc.load_signal refl
            refl))
  worker_step-Balance busy reading now l (WorkerPc.active_test progress) =
      same l _ _ _ refl refl refl (
        either-in_hand l (active_operation_count l.operation_state == 0) WorkerPc.last_flush
          (elim progress [ true ↦ WorkerPc.draining false false | false ↦ WorkerPc.load_signal ])
          refl
          (either-in_hand l progress (WorkerPc.draining false false) WorkerPc.load_signal refl
            refl))
  worker_step-Balance busy reading now l WorkerPc.load_signal = same l _ _ _ refl refl refl refl
  worker_step-Balance busy reading now l (WorkerPc.try_again signal) =
      take-Balance l busy l.queue true false (WorkerPc.try_again signal) (WorkerPc.wake_test signal)
        refl refl refl
  worker_step-Balance busy reading now l (WorkerPc.wake_test signal) = same l _ _ _ refl refl refl (
      either-in_hand l (should_wake sink signal l || is_due (sink.next_auto_flush_time l.sink) now)
        (WorkerPc.draining false false) (WorkerPc.blocking signal) refl refl)
  worker_step-Balance busy reading now l (WorkerPc.blocking signal) =
      same l _ _ _ refl refl refl refl
  worker_step-Balance busy reading now l (WorkerPc.blocked signal) = same l _ _ _ refl refl refl (
      either-in_hand l (is_due (sink.next_auto_flush_time l.sink) now)
        (WorkerPc.draining false false) (WorkerPc.blocked signal) refl refl)
  worker_step-Balance busy reading now l WorkerPc.last_flush =
      sink-Balance l (sink.flush l.sink) WorkerPc.last_flush (λ _. WorkerPc.exited) Note.synced refl
        (λ _. refl)
  worker_step-Balance busy reading now l (WorkerPc.fail_message e) =
      same l _ _ _ refl refl refl refl
  worker_step-Balance busy reading now l WorkerPc.fail_stop = same l _ _ _ refl refl refl refl
  worker_step-Balance busy reading now l WorkerPc.fail_flag = same l _ _ _ refl refl refl refl
  worker_step-Balance busy reading now l WorkerPc.fail_ticket = same l _ _ _ refl refl refl refl
  worker_step-Balance busy reading now l (WorkerPc.fail_complete t) =
      same l _ _ _ refl refl refl refl
  worker_step-Balance busy reading now l WorkerPc.fail_notify = same l _ _ _ refl refl refl refl
  worker_step-Balance busy reading now l WorkerPc.exited = same l _ _ _ refl refl refl refl

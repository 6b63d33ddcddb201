-- ===== src/Logger/Machine/Exit/Works.antt =====
-- What a step of the worker does to the word of the gate.
use high_performance_logger.Common.{
  ℕ, ◌<◌, ◌≡◌, Bool, true, false, ◌||◌, ◌==◌, List, [], ◌∷◌, refl, arith, ap, ◌^◌, sym, ◌∙◌,
}
use high_performance_logger.Message.{QueueItemType, log, flush, QueueItem}
use high_performance_logger.Level.{should_log}
use high_performance_logger.Sinks.Stream.{Result, ok, throw, is_due}
use high_performance_logger.Sinks.Interface.{SinkInterface}
use high_performance_logger.Logger.Gate.{stop_requested, active_operation_count, request_stop}
use high_performance_logger.Logger.Gate.Laws.{
  Gate, word_of, close_gate, word_call-gate_call, stop_requested_lem, count_lem,
}
use high_performance_logger.Logger.Worker.{AsyncLogger}
use high_performance_logger.Logger.Machine.{
  WorkerPc, Note, worker_step, on_sink, after_handling, should_wake,
}

-- What the worker knows of the gate: on its way out it is closed, and unless the worker has failed
-- nobody is inside.
abbrev pub Quiet : Gate → Bool → WorkerPc → Type 0
Quiet g failed (WorkerPc.active_test progress) = g.closed ≡ true
Quiet g failed WorkerPc.last_flush = (g.closed ≡ true) × (g.active ≡ 0)
Quiet g failed WorkerPc.fail_flag = g.closed ≡ true
Quiet g failed WorkerPc.fail_ticket = (g.closed ≡ true) × (failed ≡ true)
Quiet g failed (WorkerPc.fail_complete t) = (g.closed ≡ true) × (failed ≡ true)
Quiet g failed WorkerPc.fail_notify = (g.closed ≡ true) × (failed ≡ true)
Quiet g failed WorkerPc.exited = (g.closed ≡ true) × (failed ≡ false → g.active ≡ 0)
Quiet g failed w = Unit

pub record Works {S : Type 0} (g : Gate) (l' : AsyncLogger S) (w : WorkerPc) : Type 0 where
  pub next : Gate
  pub word : l'.operation_state ≡ word_of next
  pub active : next.active ≡ g.active
  pub quiet : Quiet next l'.worker_failed w

module _ {S : Type 0} (l : AsyncLogger S) (g : Gate) (h : l.operation_state ≡ word_of g)
    (small : g.active < 2 ^ 63) where
  same :
      (l' : AsyncLogger S) (w : WorkerPc)
      → l'.operation_state ≡ l.operation_state
      → Quiet g l'.worker_failed w
      → Works g l' w
  same l' w e k = record { next = g; word = e ∙ h; active = refl; quiet = k }

  stop-Works :
      Works g (record l { operation_state = (request_stop l.operation_state).0 }) WorkerPc.fail_flag
  stop-Works = record {
    next = record g { closed = true };
    word = ap (λ w. (request_stop w).0) h ∙ ap (λ r. r.0) (word_call-gate_call close_gate g small);
    active = refl;
    quiet = refl;
  }

  loop_back :
      (progress : Bool)
      → Works g l
          (elim progress [ true ↦ WorkerPc.draining false false | false ↦ WorkerPc.load_signal ])
  loop_back true = same l _ refl tt
  loop_back false = same l _ refl tt

  stop_test-Works :
      (b progress : Bool)
      → stop_requested l.operation_state ≡ b
      → Works g l (elim b [
        | true ↦ WorkerPc.active_test progress
        | false ↦ elim progress [
          | true ↦ WorkerPc.draining false false
          | false ↦ WorkerPc.load_signal
        ]
      ])
  stop_test-Works true progress e =
      same l _ refl
        (sym (stop_requested_lem g.closed g.active small) ∙ ap stop_requested (sym h) ∙ e)
  stop_test-Works false progress e = loop_back progress

  active_test-Works :
      (b progress : Bool)
      → g.closed ≡ true
      → (active_operation_count l.operation_state == 0) ≡ b
      → Works g l (elim b [
        | true ↦ WorkerPc.last_flush
        | false ↦ elim progress [
          | true ↦ WorkerPc.draining false false
          | false ↦ WorkerPc.load_signal
        ]
      ])
  active_test-Works true progress c e =
      same l _ refl
        (c, ground (arith, count_lem g.closed g.active small, ap active_operation_count h, e))
  active_test-Works false progress c e = loop_back progress

  after-Works :
      (again required : Bool) (l' : AsyncLogger S)
      → l'.operation_state ≡ l.operation_state
      → Works g l' (after_handling again required)
  after-Works false required l' e = same l' _ e tt
  after-Works true true l' e = same l' _ e tt
  after-Works true false l' e = same l' _ e tt

  take-Works :
      (queue : List QueueItem) (again required : Bool) (empty : WorkerPc)
      → Quiet g l.worker_failed empty
      → let r = elim queue as (λ _. AsyncLogger S × WorkerPc × Note) [
        | [] ↦ (l, empty, Note.nothing)
        | item ∷ items ↦
            (record l { queue = items }, WorkerPc.handling again required item, Note.taken)
      ] in
        Works g r.0 r.1
  take-Works [] again required empty k = same l _ refl k
  take-Works (item ∷ items) again required empty k = same _ _ refl tt

  sink-Works :
      {A : Type 0} (r : Result A × S) (next : A → WorkerPc) (n : Note)
      → ((a : A) → Quiet g l.worker_failed (next a))
      → let q = elim r.0 as (λ _. AsyncLogger S × WorkerPc × Note) [
        | ok a ↦ (record l { sink = r.1 }, next a, n)
        | throw e ↦ (record l { sink = r.1 }, WorkerPc.fail_message e, Note.nothing)
      ] in
        Works g q.0 q.1
  sink-Works (ok a, s) next n k = same _ _ refl (k a)
  sink-Works (throw e, s) next n k = same _ _ refl tt

  either-Works :
      (b : Bool) (p q : WorkerPc)
      → Quiet g l.worker_failed p
      → Quiet g l.worker_failed q
      → Works g l (elim b [ true ↦ p | false ↦ q ])
  either-Works true p q j k = same l p refl j
  either-Works false p q j k = same l q refl k

  either-Quiet :
      (b : Bool) (p q : WorkerPc)
      → Quiet g l.worker_failed p
      → Quiet g l.worker_failed q
      → Quiet g l.worker_failed (elim b [ true ↦ p | false ↦ q ])
  either-Quiet true p q j k = j
  either-Quiet false p q j k = k

module _ (sink : SinkInterface) where
  open sink use {State, Reading}

  module _ (l : AsyncLogger State) (g : Gate) (h : l.operation_state ≡ word_of g)
      (small : g.active < 2 ^ 63) where
    handling-Works :
        (kind : QueueItemType) (reading : Reading) (again required : Bool) (item : QueueItem)
        → let r = elim kind as (λ _. AsyncLogger State × WorkerPc × Note) [
          | flush ↦
              on_sink sink l
                (sink.flush l.sink)
                (λ _. WorkerPc.completing again required item.ticket)
                Note.synced_flush
          | log ↦
              on_sink sink l
                (sink.write reading item.message l.sink)
                (λ _. WorkerPc.counting again required item)
                Note.written
        ] in
          Works g r.0 r.1
    handling-Works flush reading again required item =
        sink-Works l g h small (sink.flush l.sink)
          (λ _. WorkerPc.completing again required item.ticket) Note.synced_flush (λ a. tt)
    handling-Works log reading again required item =
        sink-Works l g h small (sink.write reading item.message l.sink)
          (λ _. WorkerPc.counting again required item) Note.written (λ a. tt)

    -- Every step of the worker but the closing of the gate leaves the word alone.
    pub worker_step-Works :
        (busy : Bool) (reading : Reading) (now : ℕ) (w : WorkerPc)
        → Quiet g l.worker_failed w
        → let r = worker_step sink busy reading now l w in Works g r.0 r.1
    unfolding worker_step
    worker_step-Works busy reading now (WorkerPc.draining required progress) k =
        take-Works l g h small (elim busy [ true ↦ [] | false ↦ l.queue ]) false required
          (elim required [
            | true ↦ WorkerPc.flush_required false
            | false ↦ WorkerPc.flush_due progress
          ])
          (either-Quiet l g h small required (WorkerPc.flush_required false)
            (WorkerPc.flush_due progress) tt tt)
    worker_step-Works busy reading now (WorkerPc.handling again required item) k =
        handling-Works item.type reading again required item
    worker_step-Works busy reading now (WorkerPc.completing again required t) k =
        after-Works l g h small again required _ refl
    worker_step-Works busy reading now (WorkerPc.counting again required item) k =
        same l g h small _ _ refl tt
    worker_step-Works busy reading now (WorkerPc.deciding again required item) k =
        after-Works l g h small again (should_log item.message.level l.flush_level || required) l
          refl
    worker_step-Works busy reading now (WorkerPc.flush_required false) k =
        sink-Works l g h small (sink.flush l.sink) (λ _. WorkerPc.flush_due true) Note.synced
          (λ a. tt)
    worker_step-Works busy reading now (WorkerPc.flush_required true) k =
        sink-Works l g h small (sink.flush l.sink) (λ _. WorkerPc.draining false false) Note.synced
          (λ a. tt)
    worker_step-Works busy reading now (WorkerPc.flush_due progress) k =
        sink-Works l g h small (sink.flush_if_due now l.sink)
          (λ b. WorkerPc.stop_test (b || progress)) Note.nothing (λ a. tt)
    worker_step-Works busy reading now (WorkerPc.stop_test progress) k =
        stop_test-Works l g h small (stop_requested l.operation_state) progress refl
    worker_step-Works busy reading now (WorkerPc.active_test progress) k =
        active_test-Works l g h small (active_operation_count l.operation_state == 0) progress k
          refl
    worker_step-Works busy reading now WorkerPc.load_signal k = same l g h small _ _ refl tt
    worker_step-Works busy reading now (WorkerPc.try_again signal) k =
        take-Works l g h small (elim busy [ true ↦ [] | false ↦ l.queue ]) true false
          (WorkerPc.wake_test signal) tt
    worker_step-Works busy reading now (WorkerPc.wake_test signal) k =
        either-Works l g h small
          (should_wake sink signal l || is_due (sink.next_auto_flush_time l.sink) now)
          (WorkerPc.draining false false) (WorkerPc.blocking signal) tt tt
    worker_step-Works busy reading now (WorkerPc.blocking signal) k = same l g h small _ _ refl tt
    worker_step-Works busy reading now (WorkerPc.blocked signal) k =
        either-Works l g h small (is_due (sink.next_auto_flush_time l.sink) now)
          (WorkerPc.draining false false) (WorkerPc.blocked signal) tt tt
    worker_step-Works busy reading now WorkerPc.last_flush k =
        sink-Works l g h small (sink.flush l.sink) (λ _. WorkerPc.exited) Note.synced
          (λ a. (k.0, λ f. k.1))
    worker_step-Works busy reading now (WorkerPc.fail_message e) k = same l g h small _ _ refl tt
    worker_step-Works busy reading now WorkerPc.fail_stop k = stop-Works l g h small
    worker_step-Works busy reading now WorkerPc.fail_flag k = same l g h small _ _ refl (k, refl)
    worker_step-Works busy reading now WorkerPc.fail_ticket k = same l g h small _ _ refl k
    worker_step-Works busy reading now (WorkerPc.fail_complete t) k = same l g h small _ _ refl k
    worker_step-Works busy reading now WorkerPc.fail_notify k =
        same l g h small _ _ refl (k.0, λ f. absurd (cc))
    worker_step-Works busy reading now WorkerPc.exited k = same l g h small _ _ refl k

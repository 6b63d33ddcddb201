-- ===== src/Logger/Machine/Exit/Calls.antt =====
-- What a step of a call does to the word of the gate.
use high_performance_logger.Common.{
  ℕ, ◌+◌, ◌-◌, ◌<◌, ◌≤◌, ◌≡◌, Bool, true, false, ◌&&◌, ◌||◌, ◌==◌, not, ltb, length, Option, none,
  some, [], ◌∷◌, ◌++◌, refl, arith, ap, ◌^◌, sym, ◌∙◌,
}
use high_performance_logger.Message.{log, flush, QueueItem}
use high_performance_logger.Level.{should_log}
use high_performance_logger.Logger.Gate.{try_start_operation, finish_operation, request_stop}
use high_performance_logger.Logger.Gate.Laws.{
  Gate, word_of, start_operation, end_operation, close_gate, word_call-gate_call,
}
use high_performance_logger.Logger.Worker.{AsyncLogger}
use high_performance_logger.Logger.Machine.{
  Outcome, Pc, Note, call_step, give_up, after_publish, blocks,
}
use high_performance_logger.Logger.Machine.Exit.Count.{inside}

-- From the gate `g` to another: open gates may close, and a closed gate lets nobody in.
pub record Passes {S : Type 0} (l : AsyncLogger S) (g : Gate) (l' : AsyncLogger S) (p q : Pc)
    : Type 0 where
  pub next : Gate
  pub word : l'.operation_state ≡ word_of next
  pub active : next.active + inside p ≡ g.active + inside q
  pub closed : g.closed ≡ true → (next.closed ≡ true) × (inside q ≤ inside p)
  pub failed : l'.worker_failed ≡ l.worker_failed

-- A start that succeeds finds the gate open.
start-open :
    (b : Bool) (n state : ℕ)
    → n + 1 < 2 ^ 63
    → try_start_operation (word_of (record { closed = b; active = n })) ≡ some state
    → (b ≡ false) × (state ≡ word_of (record { closed = b; active = n + 1 }))
start-open true n state small e = absurd (
    ground
      (arith, word_call-gate_call start_operation (record { closed = true; active = n }) small, e))
start-open false n state small e = (
  refl,
  ground
      (arith, word_call-gate_call start_operation (record { closed = false; active = n }) small, e),
)

module _ {S : Type 0} (l : AsyncLogger S) (g : Gate) (h : l.operation_state ≡ word_of g) where
  -- A step that leaves the word alone and the thread where it is, inside or outside.
  stay :
      (l' : AsyncLogger S) (p q : Pc)
      → l'.operation_state ≡ l.operation_state
      → l'.worker_failed ≡ l.worker_failed
      → inside q ≡ inside p
      → Passes l g l' p q
  stay l' p q e f k = record {
    failed = f;
    next = g;
    word = e ∙ h;
    active = omega (arith, k);
    closed = λ c. (c, omega (arith, k));
  }

  either-inside :
      (b : Bool) (p q : Pc) (n : ℕ)
      → inside p ≡ n
      → inside q ≡ n
      → inside (elim b [ true ↦ p | false ↦ q ]) ≡ n
  either-inside true p q n j k = j
  either-inside false p q n j k = k

  finish-Passes :
      (o : Outcome)
      → 0 < g.active
      → g.active < 2 ^ 63
      → let r = finish_operation l.operation_state in
        Passes l g
          (record l { operation_state = r.0 })
          (Pc.finish o)
          (elim r.1 [ true ↦ Pc.finish_notify o | false ↦ Pc.returned o ])
  finish-Passes o pos small = record {
    next = record g { active = g.active - 1 };
    word =
        ap (λ w. (finish_operation w).0) h
        ∙ ap (λ r. r.0) (word_call-gate_call end_operation g (pos, small));
    active = omega (
      arith,
      either-inside (finish_operation l.operation_state).1 (Pc.finish_notify o) (Pc.returned o) 0
          refl refl,
    );
    failed = refl;
    closed = λ c. (
      c,
      omega (
        arith,
        either-inside (finish_operation l.operation_state).1 (Pc.finish_notify o) (Pc.returned o) 0
            refl refl,
      ),
    );
  }

  stop-Passes :
      g.active < 2 ^ 63
      → let r = request_stop l.operation_state in
        Passes l g
          (record l { operation_state = r.0 })
          Pc.stop_enter
          (elim r.1 [ true ↦ Pc.stop_notify | false ↦ Pc.stop_join ])
  stop-Passes small = record {
    next = record g { closed = true };
    word = ap (λ w. (request_stop w).0) h ∙ ap (λ r. r.0) (word_call-gate_call close_gate g small);
    active = omega (
      arith,
      either-inside (request_stop l.operation_state).1 Pc.stop_notify Pc.stop_join 0 refl refl,
    );
    failed = refl;
    closed = λ c. (
      refl,
      omega (
        arith,
        either-inside (request_stop l.operation_state).1 Pc.stop_notify Pc.stop_join 0 refl refl,
      ),
    );
  }

  start-Passes :
      (p q : Pc)
      → inside p ≡ 0
      → inside q ≡ 1
      → g.active + 1 < 2 ^ 63
      → (r : Option ℕ) → try_start_operation l.operation_state ≡ r
      → let t = elim r as (λ _. AsyncLogger S × Pc × Note) [
        | none ↦ (l, Pc.returned Outcome.refused, Note.nothing)
        | some state ↦ (record l { operation_state = state }, q, Note.nothing)
      ] in
        Passes l g t.0 p t.1
  start-Passes p q out into small none e =
      stay l p (Pc.returned Outcome.refused) refl refl (omega (arith, out))
  start-Passes p q out into small (some state) e =
      let (open_gate, word) =
        start-open g.closed g.active state small (ap try_start_operation (sym h) ∙ e) in
      record {
        next = record g { active = g.active + 1 };
        word = word;
        active = omega (arith, out, into);
        failed = refl;
        closed = λ c. absurd (cc);
      }

  join-Passes :
      (x b : Bool)
      → Passes l g l Pc.stop_join
          (elim b [ true ↦ Pc.returned Outcome.stopped | false ↦ Pc.stop_join ])
  join-Passes x b =
      stay l Pc.stop_join _ refl refl
        (either-inside b (Pc.returned Outcome.stopped) Pc.stop_join 0 refl refl)

  enqueue-Passes :
      (b : Bool) (item : QueueItem)
      → let r = elim b as (λ _. AsyncLogger S × Pc × Note) [
        | true ↦ (record l { queue = l.queue ++ item ∷ [] }, Pc.publish_notify item, Note.pushed)
        | false ↦ (
          l,
          elim (blocks l.overflow_policy item.type) [
            | true ↦ Pc.publish_failure item
            | false ↦ Pc.count_dropped item
          ],
          Note.nothing,
        )
      ] in
        Passes l g r.0 (Pc.publish_enqueue item) r.1
  enqueue-Passes true item = stay _ _ _ refl refl refl
  enqueue-Passes false item = stay l _ _ refl refl (
      either-inside (blocks l.overflow_policy item.type) (Pc.publish_failure item)
        (Pc.count_dropped item) 1 refl refl)

  give_up-inside : (item : QueueItem) → inside (give_up item) ≡ 1
  give_up-inside item =
      elim item.type
        as (λ k.
          inside (elim k [ log ↦ Pc.uncount item | flush ↦ Pc.finish Outcome.refused ]) ≡ 1) [
            | log ↦ refl
            | flush ↦ refl
          ]

  after_publish-inside : (item : QueueItem) → inside (after_publish item) ≡ 1
  after_publish-inside item =
      elim item.type
        as (λ k.
          inside
            (elim k [ log ↦ Pc.finish (Outcome.logged item) | flush ↦ Pc.wait_load item.ticket ])
          ≡ 1) [ log ↦ refl | flush ↦ refl ]

  -- Every step of a call passes the gate.
  pub call_step-Passes :
      (busy j x : Bool) (p : Pc)
      → inside p ≤ g.active
      → g.active + 1 < 2 ^ 63
      → Passes l g (call_step busy j x l p).0 p (call_step busy j x l p).1
  unfolding call_step
  call_step-Passes busy j x Pc.idle k f = stay _ _ _ refl refl refl
  call_step-Passes busy j x (Pc.log_enter item) k f =
      start-Passes (Pc.log_enter item) (Pc.log_failure item) refl refl f
        (try_start_operation l.operation_state) refl
  call_step-Passes busy j x (Pc.log_failure item) k f =
      stay _ _ _ refl refl
        (either-inside l.worker_failed (Pc.finish Outcome.refused) (Pc.log_level item) 1 refl refl)
  call_step-Passes busy j x (Pc.log_level item) k f = stay _ _ _ refl refl (
      either-inside (should_log item.message.level l.level) (Pc.log_count item)
        (Pc.finish Outcome.refused) 1 refl refl)
  call_step-Passes busy j x (Pc.log_count item) k f = stay _ _ _ refl refl refl
  call_step-Passes busy j x (Pc.flush_enter m) k f =
      start-Passes (Pc.flush_enter m) (Pc.flush_failure m) refl refl f
        (try_start_operation l.operation_state) refl
  call_step-Passes busy j x (Pc.flush_failure m) k f = stay _ _ _ refl refl (
      either-inside (j || l.worker_failed) (Pc.finish Outcome.refused) (Pc.flush_ticket m) 1 refl
        refl)
  call_step-Passes busy j x (Pc.flush_ticket m) k f = stay _ _ _ refl refl refl
  call_step-Passes busy j x (Pc.publish_failure item) k f = stay _ _ _ refl refl (
      either-inside l.worker_failed (give_up item) (Pc.publish_enqueue item) 1 (give_up-inside item)
        refl)
  call_step-Passes busy j x (Pc.publish_enqueue item) k f =
      enqueue-Passes (ltb (length l.queue) l.queue_capacity && not busy) item
  call_step-Passes busy j x (Pc.publish_notify item) k f =
      stay _ _ _ refl refl (after_publish-inside item)
  call_step-Passes busy j x (Pc.uncount item) k f = stay _ _ _ refl refl refl
  call_step-Passes busy j x (Pc.count_dropped item) k f = stay _ _ _ refl refl refl
  call_step-Passes busy j x (Pc.wait_load t) k f = stay _ _ _ refl refl (
      either-inside (ltb l.flush_complete_ticket t) (Pc.wait_failure t l.flush_complete_ticket)
        (Pc.wait_last t) 1 refl refl)
  call_step-Passes busy j x (Pc.wait_failure t c) k f =
      stay _ _ _ refl refl
        (either-inside l.worker_failed (Pc.finish Outcome.refused) (Pc.wait_asleep t c) 1 refl refl)
  call_step-Passes busy j x (Pc.wait_asleep t c) k f = stay _ _ _ refl refl (
      either-inside (l.flush_complete_ticket == c) (Pc.wait_asleep t c) (Pc.wait_load t) 1 refl
        refl)
  call_step-Passes busy j x (Pc.wait_last t) k f = stay _ _ _ refl refl (
      either-inside l.worker_failed (Pc.finish Outcome.refused) (Pc.finish (Outcome.flushed t)) 1
        refl refl)
  call_step-Passes busy j x (Pc.finish o) k f = finish-Passes o k (omega (arith, f))
  call_step-Passes busy j x (Pc.finish_notify o) k f = stay _ _ _ refl refl refl
  call_step-Passes busy j x (Pc.returned o) k f = stay _ _ _ refl refl refl
  call_step-Passes busy j x Pc.stop_enter k f = stop-Passes (omega (arith, f))
  call_step-Passes busy j x Pc.stop_notify k f = stay _ _ _ refl refl refl
  call_step-Passes busy j x Pc.stop_join k f = join-Passes x (j || x)

-- ===== src/Benchmark/Order.antt =====
-- What the worker of MutexAsyncLogger (examples/benchmark_support.h) has written when it ends.
use high_performance_logger.Common.{
  ℕ, ◌≡◌, ◌%◌, Bool, true, false, List, [], ◌∷◌, ◌++◌, length, refl, sym, ap, ◌∙◌, arith,
  append_assoc, append-nil, length-append, Bool-cases, inl, inr, ◌||◌, ◌&&◌, not, ◌==◌,
}
use high_performance_logger.Common.Word.{add64, word_mod}
use high_performance_logger.Benchmark.{
  WorkerPc, waiting, leaving, last_flush, exited, writing, flushing, completing, writing_tail,
  MutexAsyncLogger, start, log, request_flush, request_stop, worker_step, write_one, take_batch,
  is_empty, flush_pending, Step, logs, asks_flush, asks_stop, works, Steps, here, then_step,
}

-- What the worker has taken and not written.
abbrev held : WorkerPc → List (List ℕ)
held (writing batch ticket) = batch
held (writing_tail tail) = tail
held _ = []

abbrev is_exited : WorkerPc → Bool
is_exited exited = true
is_exited _ = false

record Inv (l : MutexAsyncLogger) : Type 0 where
  order : l.given ++ (held l.worker ++ l.queue) ≡ l.logged
  counted : l.written ≡ length l.given % word_mod
  all_flushed : is_exited l.worker ≡ true → l.flushed ≡ length l.given

log-Inv : (payload : List ℕ) (l : MutexAsyncLogger) → Inv l → Inv (log payload l)
unfolding log
log-Inv payload l v = record {
  order =
      ap (λ x. l.given ++ x) (sym (append_assoc (held l.worker) l.queue (payload ∷ [])))
      ∙ sym (append_assoc l.given (held l.worker ++ l.queue) (payload ∷ []))
      ∙ ap (λ x. x ++ payload ∷ []) v.order;
  counted = v.counted;
  all_flushed = v.all_flushed;
}

counted_one :
    (w : ℕ) (given : List (List ℕ)) (payload : List ℕ)
    → w ≡ length given % word_mod
    → add64 w 1 ≡ length (given ++ payload ∷ []) % word_mod
counted_one w given payload e = omega (arith, e, length-append given (payload ∷ []))

clash : {b : Bool} → b ≡ true → b ≡ false → ⊥
clash x y = cc

-- Steps of the worker that neither write nor leave.
moved-Inv :
    (l : MutexAsyncLogger) (queue : List (List ℕ)) (complete flushed : ℕ) (p : WorkerPc)
    → Inv l
    → held l.worker ++ l.queue ≡ held p ++ queue
    → is_exited p ≡ false
    → Inv (record l {
      queue = queue;
      flush_complete_ticket = complete;
      flushed = flushed;
      worker = p;
    })
moved-Inv l queue complete flushed p v e n = record {
  order = ap (λ x. l.given ++ x) (sym e) ∙ v.order;
  counted = v.counted;
  all_flushed = λ x. absurd (clash x n);
}

module _ (l : MutexAsyncLogger) (v : Inv l) where
  wrote-Inv :
      (payload : List ℕ) (batch : List (List ℕ)) (p : WorkerPc)
      → held l.worker ≡ payload ∷ batch
      → held p ≡ batch
      → is_exited p ≡ false
      → Inv (write_one payload p l)
  wrote-Inv payload batch p e f n = record {
    order =
        ap (λ x. (l.given ++ payload ∷ []) ++ (x ++ l.queue)) f
        ∙ append_assoc l.given (payload ∷ []) (batch ++ l.queue)
        ∙ ap (λ x. l.given ++ (x ++ l.queue)) (sym e)
        ∙ v.order;
    counted = counted_one l.written l.given payload v.counted;
    all_flushed = λ x. absurd (clash x n);
  }

  taken-Inv : l.worker ≡ waiting → Inv (take_batch l)
  taken-Inv e = elim (Bool-cases (is_empty l.queue && l.stopping)) [
    | inl done ↦ rw done (
        moved-Inv l l.queue l.flush_complete_ticket l.flushed leaving v
          (ap (λ w. held w ++ l.queue) e) refl)
    | inr more ↦ rw more (
        moved-Inv l [] l.flush_complete_ticket l.flushed (writing l.queue _) v
          (ap (λ w. held w ++ l.queue) e ∙ sym (append-nil l.queue)) refl)
  ]

  worker_step-Inv : (p : WorkerPc) → l.worker ≡ p → Inv (worker_step p l)
  unfolding worker_step
  worker_step-Inv waiting e =
      elim (Bool-cases (l.stopping || flush_pending l || not (is_empty l.queue))) [
        | inl woken ↦ rw woken (taken-Inv e)
        | inr asleep ↦ rw asleep v
      ]
  worker_step-Inv (writing [] ticket) e = elim (Bool-cases (ticket == 0)) [
    | inl none ↦ rw none (
        moved-Inv l l.queue l.flush_complete_ticket l.flushed waiting v
          (ap (λ w. held w ++ l.queue) e) refl)
    | inr some_ticket ↦ rw some_ticket (
        moved-Inv l l.queue l.flush_complete_ticket l.flushed (flushing ticket) v
          (ap (λ w. held w ++ l.queue) e) refl)
  ]
  worker_step-Inv (writing (payload ∷ batch) ticket) e =
      wrote-Inv payload batch (writing batch ticket) (ap held e) refl refl
  worker_step-Inv (flushing ticket) e =
      moved-Inv l l.queue l.flush_complete_ticket (length l.given) (completing ticket) v
        (ap (λ w. held w ++ l.queue) e) refl
  worker_step-Inv (completing ticket) e =
      moved-Inv l l.queue ticket l.flushed waiting v (ap (λ w. held w ++ l.queue) e) refl
  worker_step-Inv leaving e =
      moved-Inv l [] l.flush_complete_ticket l.flushed (writing_tail l.queue) v
        (ap (λ w. held w ++ l.queue) e ∙ sym (append-nil l.queue)) refl
  worker_step-Inv (writing_tail []) e =
      moved-Inv l l.queue l.flush_complete_ticket l.flushed last_flush v
        (ap (λ w. held w ++ l.queue) e) refl
  worker_step-Inv (writing_tail (payload ∷ tail)) e =
      wrote-Inv payload tail (writing_tail tail) (ap held e) refl refl
  worker_step-Inv last_flush e = record {
    order = ap (λ w. l.given ++ (held w ++ l.queue)) (sym e) ∙ v.order;
    counted = v.counted;
    all_flushed = λ x. refl;
  }
  worker_step-Inv exited e = v

Step-Inv : {l m : MutexAsyncLogger} → Step l m → Inv l → Inv m
unfolding request_flush request_stop
Step-Inv {l} (logs payload) v = log-Inv payload l v
Step-Inv {l} asks_flush v = record {
  order = v.order;
  counted = v.counted;
  all_flushed = v.all_flushed;
}
Step-Inv {l} asks_stop v = record {
  order = v.order;
  counted = v.counted;
  all_flushed = v.all_flushed;
}
Step-Inv {l} works v = worker_step-Inv l v l.worker refl

Steps-Inv : {l : MutexAsyncLogger} → Steps start l → Inv l
Steps-Inv here = record { order = refl; counted = omega arith; all_flushed = λ x. absurd (cc) }
Steps-Inv (then_step r step) = Step-Inv step (Steps-Inv r)

-- What is left when the worker has ended.
pub record Ended (l : MutexAsyncLogger) : Type 0 where
  pub order : l.given ++ l.queue ≡ l.logged
  pub counted : l.written ≡ length l.given % word_mod
  pub all_flushed : l.flushed ≡ length l.given

-- When the worker of the mutex logger has ended, the sink was given the first of the logged payloads,
-- in their order, the others are those still in the queue, the counter says how many were given, and
-- the sink was flushed after the last of them.
pub exited-Ended : (l : MutexAsyncLogger) → Steps start l → l.worker ≡ exited → Ended l
exited-Ended l r e =
    let v = Steps-Inv r in
    record {
      order = ap (λ w. l.given ++ (held w ++ l.queue)) (sym e) ∙ v.order;
      counted = v.counted;
      all_flushed = v.all_flushed (ap is_exited e);
    }

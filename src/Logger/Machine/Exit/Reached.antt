-- ===== src/Logger/Machine/Exit/Reached.antt =====
-- When the worker has left its loop, the logger is at rest.
use high_performance_logger.Common.{
  ℕ, ◌+◌, ◌<◌, ◌≤◌, ◌≡◌, ◌^◌, Bool, true, false, Option, none, some, List, length, get_elem?, set,
  refl, arith, sym, ◌∙◌, length-set, length-replicate,
}
use mathlib.Core.Path.{subst}
use high_performance_logger.Sinks.Stream.{Result, ok, throw}
use high_performance_logger.Sinks.Interface.{SinkInterface}
use high_performance_logger.Logger.Gate.{try_start_operation}
use high_performance_logger.Logger.Gate.Laws.{Gate, word_of}
use high_performance_logger.Logger.Worker.{AsyncLogger, AsyncLoggerOptions, make_async_logger}
use high_performance_logger.Logger.Machine.{Pc, WorkerPc, Note, Outcome, call_step, worker_step}
use high_performance_logger.Logger.Machine.System.{
  Ghosts, System, woken, has_exited, work, Entry, log_call, flush_call, stop_call, Step, call,
  collect, thread, worker, spurious, start, Reach, init, later,
}
use high_performance_logger.Logger.Machine.Exit.Count.{
  inside, count_inside, count_small, count-set, count_positive, count-idle,
}
use high_performance_logger.Logger.Machine.Exit.Calls.{Passes, call_step-Passes}
use high_performance_logger.Logger.Machine.Exit.Works.{Quiet, Works, worker_step-Works}

-- The gate's word counts the threads that are inside; there are `n` threads.
pub record Gated {S : Type 0} (n : ℕ) (s : System S) : Type 0 where
  pub gate : Gate
  pub word : s.logger.operation_state ≡ word_of gate
  pub active : gate.active ≡ count_inside s.threads
  pub size : length s.threads ≡ n
  pub quiet : Quiet gate s.logger.worker_failed s.worker

-- The gate may close, and a closed gate lets nobody in.
Quiet-moves :
    (g g' : Gate) (failed : Bool) (w : WorkerPc)
    → (g.closed ≡ true → (g'.closed ≡ true) × (g'.active ≤ g.active))
    → Quiet g failed w
    → Quiet g' failed w
Quiet-moves g g' failed (WorkerPc.active_test progress) m k = (m k).0
Quiet-moves g g' failed WorkerPc.last_flush m (k, z) = ((m k).0, omega (arith, (m k).1, z))
Quiet-moves g g' failed WorkerPc.fail_flag m k = (m k).0
Quiet-moves g g' failed WorkerPc.fail_ticket m (k, f) = ((m k).0, f)
Quiet-moves g g' failed (WorkerPc.fail_complete t) m (k, f) = ((m k).0, f)
Quiet-moves g g' failed WorkerPc.fail_notify m (k, f) = ((m k).0, f)
Quiet-moves g g' failed WorkerPc.exited m (k, z) = ((m k).0, λ f. omega (arith, (m k).1, z f))
Quiet-moves g g' failed w m k = k

woken-Quiet :
    (g : Gate) (failed : Bool) (n : Note) (w : WorkerPc)
    → Quiet g failed w
    → Quiet g failed (woken n w)
woken-Quiet g failed Note.notified (WorkerPc.blocked signal) k = k
woken-Quiet g failed n w k = k

-- A thread that is outside leaves the queue alone.
start_quiet :
    {S : Type 0} (l : AsyncLogger S) (q : Pc) (r : Option ℕ)
    → let t = elim r as (λ _. AsyncLogger S × Pc × Note) [
      | none ↦ (l, Pc.returned Outcome.refused, Note.nothing)
      | some state ↦ (record l { operation_state = state }, q, Note.nothing)
    ] in
      (t.0.queue ≡ l.queue) × (t.0.worker_failed ≡ l.worker_failed)
start_quiet l q none = (refl, refl)
start_quiet l q (some state) = (refl, refl)

outside_quiet :
    {S : Type 0} (busy j x : Bool) (l : AsyncLogger S) (p : Pc)
    → inside p ≡ 0
    → ((call_step busy j x l p).0.queue ≡ l.queue)
      × ((call_step busy j x l p).0.worker_failed ≡ l.worker_failed)
unfolding call_step
outside_quiet busy j x l Pc.idle h = (refl, refl)
outside_quiet busy j x l (Pc.log_enter item) h =
    start_quiet l (Pc.log_failure item) (try_start_operation l.operation_state)
outside_quiet busy j x l (Pc.flush_enter m) h =
    start_quiet l (Pc.flush_failure m) (try_start_operation l.operation_state)
outside_quiet busy j x l (Pc.finish_notify o) h = (refl, refl)
outside_quiet busy j x l (Pc.returned o) h = (refl, refl)
outside_quiet busy j x l Pc.stop_enter h = (refl, refl)
outside_quiet busy j x l Pc.stop_notify h = (refl, refl)
outside_quiet busy j x l Pc.stop_join h = (refl, refl)
outside_quiet busy j x l p h = absurd (omega arith)

woken-exited : (n : Note) → woken n WorkerPc.exited ≡ WorkerPc.exited
woken-exited Note.notified = refl
woken-exited n = refl

module _ (sink : SinkInterface) (n : ℕ) (few : n + 1 < 2 ^ 63) where
  open sink use {State, Reading}

  Entry-outside : (p : Pc) → Entry sink p → inside p ≡ 0
  Entry-outside p (log_call item e) = refl
  Entry-outside p (flush_call m) = refl
  Entry-outside p stop_call = refl

  -- A thread that goes from outside to outside.
  move-Gated :
      (s : System State) (i : ℕ) (p q : Pc)
      → get_elem? s.threads i ≡ some p
      → inside p ≡ inside q
      → Gated n s
      → Gated n (record s { threads = set s.threads i q })
  move-Gated s i p q e same g = record {
    gate = g.gate;
    word = g.word;
    active = omega (arith, g.active, count-set s.threads i p q e, same);
    size = length-set s.threads i q ∙ g.size;
    quiet = g.quiet;
  }

  Passes-Gated :
      (s : System State) (i : ℕ) (l' : AsyncLogger State) (p q : Pc) (note : Note) (b : Bool)
      (gs : Ghosts)
      → get_elem? s.threads i ≡ some p
      → (g : Gated n s) → Passes s.logger g.gate l' p q
      → let t : System State = record {
        logger = l';
        worker = woken note s.worker;
        threads = set s.threads i q;
        is_joined = b;
        ghosts = gs;
      } in
        Gated n t
  Passes-Gated s i l' p q note b gs e g k = record {
    gate = k.next;
    word = k.word;
    active = omega (arith, k.active, g.active, count-set s.threads i p q e);
    size = length-set s.threads i q ∙ g.size;
    quiet =
        subst (λ f. Quiet k.next f (woken note s.worker)) (sym k.failed)
          (woken-Quiet k.next s.logger.worker_failed note s.worker (
            Quiet-moves g.gate k.next s.logger.worker_failed s.worker
              (λ c. ((k.closed c).0, omega (arith, k.active, (k.closed c).1))) g.quiet));
  }

  Works-Gated :
      (s : System State) (l' : AsyncLogger State) (w : WorkerPc) (gs : Ghosts)
      → (g : Gated n s) → Works g.gate l' w
      → Gated n (record s { logger = l'; worker = w; ghosts = gs })
  Works-Gated s l' w gs g k = record {
    gate = k.next;
    word = k.word;
    active = omega (arith, k.active, g.active);
    size = g.size;
    quiet = k.quiet;
  }

  blocked-Gated :
      (s : System State) (signal : ℕ)
      → Gated n s
      → Gated n (record s { worker = WorkerPc.wake_test signal })
  blocked-Gated s signal g = record {
    gate = g.gate;
    word = g.word;
    active = g.active;
    size = g.size;
    quiet = tt;
  }

  -- Every step keeps the word of the gate in step with the threads, for fewer than 2 ^ 63 - 1 threads.
  pub Step-Gated : {s t : System State} → Step sink s t → Gated n s → Gated n t
  Step-Gated {s} (call i p e entry) g = move-Gated s i Pc.idle p e (sym (Entry-outside p entry)) g
  Step-Gated {s} (collect i o e) g = move-Gated s i (Pc.returned o) Pc.idle e refl g
  Step-Gated {s} (thread busy i p e) g = Passes-Gated s i _ p _ _ _ _ e g (
      call_step-Passes s.logger g.gate g.word busy s.is_joined (has_exited s.worker) p
        (omega (arith, g.active, count_positive s.threads i p e))
        (omega (arith, g.active, g.size, count_small s.threads, few)))
  Step-Gated {s} (worker busy reading now) g = Works-Gated s _ _ _ g (
      worker_step-Works sink s.logger g.gate g.word
        (omega (arith, g.active, g.size, count_small s.threads, few)) busy reading now s.worker
        g.quiet)
  Step-Gated {s} (spurious signal e) g = blocked-Gated s signal g

  module _ (name : List ℕ) (options : AsyncLoggerOptions) where
    abbrev StartsGated : Result (AsyncLogger State) → Type 0
    StartsGated (ok l) = Gated n (start sink n l)
    StartsGated (throw e) = Unit

    start-Gated :
        (message : List ℕ) (state : State)
        → StartsGated (make_async_logger message name (some state) options)
    unfolding make_async_logger
    start-Gated message state = record {
      gate = record { closed = false; active = 0 };
      word = refl;
      active = sym (count-idle n);
      size = length-replicate n Pc.idle;
      quiet = tt;
    }

    pub Reach-Gated : {s : System State} → Reach sink n name options s → Gated n s
    Reach-Gated (init message state l e) = subst StartsGated e (start-Gated message state)
    Reach-Gated (later r st) = Step-Gated st (Reach-Gated r)

    -- A step from a state at rest.
    abbrev AtRest : System State → Type 0
    AtRest s = (s.worker ≡ WorkerPc.exited) × (s.logger.worker_failed ≡ false)

    nobody_inside : (s : System State) → Gated n s → AtRest s → count_inside s.threads ≡ 0
    nobody_inside s g (e, f) =
        let (closed, nobody) = subst (Quiet g.gate s.logger.worker_failed) e g.quiet in
        omega (arith, nobody f, g.active)

    exit_step :
        (busy : Bool) (reading : Reading) (now : ℕ) (s : System State)
        → AtRest s
        → AtRest (work sink busy reading now s)
          × ((work sink busy reading now s).logger.queue ≡ s.logger.queue)
    unfolding worker_step
    exit_step busy reading now s (e, f) = rw e ((refl, f), refl)

    rest-Step :
        (s t : System State)
        → Gated n s
        → AtRest s
        → Step sink s t
        → AtRest t × (t.logger.queue ≡ s.logger.queue)
    rest-Step s t g (e, f) (call i p there entry) = ((e, f), refl)
    rest-Step s t g (e, f) (collect i o there) = ((e, f), refl)
    rest-Step s t g (e, f) (thread busy i p there) =
        let outside : inside p ≡ 0 =
          omega (arith, count_positive s.threads i p there, nobody_inside s g (e, f)) in
        let (same, alive) =
          outside_quiet busy s.is_joined (has_exited s.worker) s.logger p outside in
        (
          (
            subst
                (λ w.
                  woken (call_step busy s.is_joined (has_exited s.worker) s.logger p).2 w
                  ≡ WorkerPc.exited)
                (sym e) (woken-exited _),
            alive ∙ f,
          ),
          same,
        )
    rest-Step s t g (e, f) (worker busy reading now) = exit_step busy reading now s (e, f)
    rest-Step s t g (e, f) (spurious signal other) = absurd cc

    -- Once the worker has left its loop without a failure, with fewer than 2 ^ 63 - 1 threads, no
    -- thread is inside Log or Flush, and whatever step is taken, nobody comes in, the worker does not
    -- come back, and the queue stays as it is.
    pub exited_at_rest :
        (s t : System State)
        → Reach sink n name options s
        → s.worker ≡ WorkerPc.exited
        → s.logger.worker_failed ≡ false
        → Step sink s t
        → (count_inside s.threads ≡ 0)
          × (count_inside t.threads ≡ 0)
          × (t.worker ≡ WorkerPc.exited)
          × (t.logger.queue ≡ s.logger.queue)
    exited_at_rest s t r e f st =
        let g = Reach-Gated r in
        let (still, same) = rest-Step s t g (e, f) st in
        (nobody_inside s g (e, f), nobody_inside t (Step-Gated st g) still, still.0, same)

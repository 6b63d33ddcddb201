-- ===== src/Logger/Machine/Flush/Reached.antt =====
-- What Flush promises, in every state that a logger can come to.
use high_performance_logger.Common.{
  ℕ, zero, suc, ◌<◌, ◌≤◌, ◌≡◌, ◌⊎◌, inl, inr, Bool, some, List, [], ◌∷◌, get_elem?, set, replicate,
  refl, arith, sym,
}
use mathlib.Core.Path.{subst}
use high_performance_logger.Common.Word.{word_mod}
use high_performance_logger.Sinks.Stream.{Result, ok, throw}
use high_performance_logger.Sinks.Interface.{SinkInterface}
use high_performance_logger.Logger.Worker.{AsyncLogger, AsyncLoggerOptions, make_async_logger}
use high_performance_logger.Logger.Machine.{flushed, Pc, WorkerPc, Note, call_step, worker_step}
use high_performance_logger.Logger.Machine.System.{
  Ghosts, System, record_note, woken, has_exited, Entry, log_call, flush_call, stop_call, Step,
  call, collect, thread, worker, spurious, start, Reach, init, later,
}
use high_performance_logger.Logger.Machine.Flush.Defs.{View, view, Local, WorkerLocal, Inv}
use high_performance_logger.Logger.Machine.Flush.Grow.{Local-Grows, WorkerLocal-Grows}
use high_performance_logger.Logger.Machine.Flush.Calls.{Good, call_step-Good}
use high_performance_logger.Logger.Machine.Flush.Works.{GoodWork, worker_step-GoodWork}

get_elem?-set :
    (ps : List Pc) (i j : ℕ) (q p : Pc)
    → get_elem? (set ps i q) j ≡ some p
    → (p ≡ q) ⊎ (get_elem? ps j ≡ some p)
get_elem?-set [] i j q p h = inr h
get_elem?-set (x ∷ ps) zero zero q p h = inl cc
get_elem?-set (x ∷ ps) zero (suc j) q p h = inr h
get_elem?-set (x ∷ ps) (suc i) zero q p h = inr h
get_elem?-set (x ∷ ps) (suc i) (suc j) q p h = get_elem?-set ps i j q p h

get_elem?-replicate : (n i : ℕ) (q p : Pc) → get_elem? (replicate n q) i ≡ some p → p ≡ q
get_elem?-replicate zero i q p h = absurd cc
get_elem?-replicate (suc n) zero q p h = cc
get_elem?-replicate (suc n) (suc i) q p h = get_elem?-replicate n i q p h

woken-WorkerLocal :
    (v : View) (takes handled : ℕ) (n : Note) (w : WorkerPc)
    → WorkerLocal v takes handled w
    → WorkerLocal v takes handled (woken n w)
woken-WorkerLocal v takes handled Note.notified (WorkerPc.blocked signal) h = h
woken-WorkerLocal v takes handled n w h = h

set-Local :
    (v : View) (ps : List Pc) (i : ℕ) (q : Pc)
    → ((j : ℕ) (p : Pc) → get_elem? ps j ≡ some p → Local v p)
    → Local v q
    → (j : ℕ) (p : Pc) → get_elem? (set ps i q) j ≡ some p
    → Local v p
set-Local v ps i q old h j p e = elim (get_elem?-set ps i j q p e) [
  | inl same ↦ subst (Local v) (sym same) h
  | inr there ↦ old j p there
]

module _ (sink : SinkInterface) where
  open sink use {State, Reading}

  entry-Local : (v : View) (p : Pc) → Entry sink p → Local v p
  entry-Local v p (log_call item e) = e
  entry-Local v p (flush_call m) = tt
  entry-Local v p stop_call = tt

  Good-Inv :
      (s : System State) (i : ℕ) (l' : AsyncLogger State) (q : Pc) (n : Note) (b : Bool)
      → Inv s
      → Good s.logger s.ghosts l' q n
      → let t : System State = record {
        logger = l';
        worker = woken n s.worker;
        threads = set s.threads i q;
        is_joined = b;
        ghosts = record_note n s.ghosts;
      } in
        Inv t
  Good-Inv s i l' q n b inv good = record {
    shared = good.shared;
    worker = woken-WorkerLocal v' g'.takes g'.handled n s.worker (
        subst (λ t. WorkerLocal v' t g'.handled s.worker) (sym good.takes)
          (subst (λ h. WorkerLocal v' s.ghosts.takes h s.worker) (sym good.handled)
            (WorkerLocal-Grows v v' good.grows s.ghosts.takes s.ghosts.handled s.worker
              inv.worker)));
    threads =
        set-Local v' s.threads i q
          (λ j p there. Local-Grows v v' good.grows p (inv.threads j p there)) good.local;
  }
    where
      g' : Ghosts
      g' = record_note n s.ghosts

      v : View
      v = view s.logger s.ghosts

      v' : View
      v' = view l' g'

  GoodWork-Inv :
      (s : System State) (l' : AsyncLogger State) (w : WorkerPc) (g' : Ghosts)
      → Inv s
      → GoodWork s.logger s.ghosts l' g' w
      → Inv (record s { logger = l'; worker = w; ghosts = g' })
  GoodWork-Inv s l' w g' inv good = record {
    shared = good.shared;
    worker = good.local;
    threads = λ i p there.
        Local-Grows (view s.logger s.ghosts) (view l' g') good.grows p (inv.threads i p there);
  }

  blocked-Local :
      (s : System State) (signal : ℕ) (w : WorkerPc)
      → w ≡ WorkerPc.blocked signal
      → WorkerLocal (view s.logger s.ghosts) s.ghosts.takes s.ghosts.handled w
      → s.ghosts.takes ≡ s.ghosts.handled
  blocked-Local s signal (WorkerPc.blocked other) e h = h
  blocked-Local s signal w e h = absurd cc

  -- Every step of any thread and of the worker keeps what is known of the tickets, while fewer than
  -- 2 ^ 64 - 1 tickets have been taken.
  pub Step-Inv :
      {s t : System State} → Step sink s t → suc s.ghosts.tickets < word_mod → Inv s → Inv t
  Step-Inv {s} (call i p e entry) fits inv = record {
    shared = inv.shared;
    worker = inv.worker;
    threads =
        set-Local (view s.logger s.ghosts) s.threads i p inv.threads
          (entry-Local (view s.logger s.ghosts) p entry);
  }
  Step-Inv {s} (collect i o e) fits inv = record {
    shared = inv.shared;
    worker = inv.worker;
    threads = set-Local (view s.logger s.ghosts) s.threads i Pc.idle inv.threads tt;
  }
  Step-Inv {s} (thread busy i p e) fits inv = Good-Inv s i _ _ _ _ inv (
      call_step-Good s.logger s.ghosts inv.shared busy s.is_joined (has_exited s.worker) p fits
        (inv.threads i p e))
  Step-Inv {s} (worker busy reading now) fits inv =
      GoodWork-Inv s _ _ _ inv (
        worker_step-GoodWork sink s.logger s.ghosts inv.shared busy reading now s.worker inv.worker)
  Step-Inv {s} (spurious signal e) fits inv = record {
    shared = inv.shared;
    worker = blocked-Local s signal s.worker e inv.worker;
    threads = inv.threads;
  }

  -- The tickets only grow in number.
  tickets-record_note : (n : Note) (g : Ghosts) → g.tickets ≤ (record_note n g).tickets
  tickets-record_note (Note.ticketed t) g = omega arith
  tickets-record_note n g = omega arith

  pub tickets-Step : {s t : System State} → Step sink s t → s.ghosts.tickets ≤ t.ghosts.tickets
  tickets-Step (call i p e entry) = omega arith
  tickets-Step (collect i o e) = omega arith
  tickets-Step {s} (thread busy i p e) =
      tickets-record_note (call_step busy s.is_joined (has_exited s.worker) s.logger p).2 s.ghosts
  tickets-Step {s} (worker busy reading now) =
      tickets-record_note (worker_step sink busy reading now s.logger s.worker).2 s.ghosts
  tickets-Step (spurious signal e) = omega arith

  module _ (n : ℕ) (name : List ℕ) (options : AsyncLoggerOptions) where
    abbrev first_view : View
    first_view = record { request = 0; failed = Bool.false; claims = 0; synced = 0; mark = λ _. 0 }

    abbrev StartsWell : Result (AsyncLogger State) → Type 0
    StartsWell (ok l) = Inv (start sink n l)
    StartsWell (throw e) = Unit

    start-Inv :
        (message : List ℕ) (state : State)
        → StartsWell (make_async_logger message name (some state) options)
    unfolding make_async_logger
    start-Inv message state = record {
      shared = record {
        marks = record { ordered = λ t u h k. omega arith; bounded = λ t h. omega arith };
        counted = refl;
        done = omega arith;
        order = omega arith;
        sizes = refl;
        placed = tt;
        known = omega arith;
        reached = inr (omega arith);
      };
      worker = refl;
      threads =
          λ i p there. subst (Local first_view) (sym (get_elem?-replicate n i Pc.idle p there)) tt;
    }

    pub Reach-Inv :
        {s : System State} → Reach sink n name options s → suc s.ghosts.tickets < word_mod → Inv s
    Reach-Inv (init message state l e) fits = subst StartsWell e (start-Inv message state)
    Reach-Inv (later {s} {t} r st) fits =
        let small : suc s.ghosts.tickets < word_mod = omega (arith, fits, tickets-Step st) in
        Step-Inv st small (Reach-Inv r small)

    -- Whenever a call of Flush has come back with true, the number of items that had been put into
    -- the queue when it took its ticket is at most the number that the worker had handled, without an
    -- exception of the sink, when it last flushed the sink with success.
    -- It is so while fewer than 2 ^ 64 - 1 tickets have been taken.
    pub flush_waits :
        (s : System State) (i t : ℕ)
        → Reach sink n name options s
        → suc s.ghosts.tickets < word_mod
        → get_elem? s.threads i ≡ some (Pc.returned (flushed t))
        → (s.ghosts.mark t ≤ s.ghosts.synced_upto) × (s.ghosts.synced_upto ≤ s.ghosts.handled)
    flush_waits s i t r fits e =
        let inv = Reach-Inv r fits in ((inv.threads i _ e).1, inv.shared.done)

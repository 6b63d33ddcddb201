-- ===== src/Service/Running/Invariant.antt =====
-- What holds between any two steps of the service of examples/service_example.cpp.
use high_performance_logger.Common.{
  ℕ, ◌<◌, ◌≤◌, ◌≡◌, Bool, true, false, List, [], ◌∷◌, ◌++◌, length, refl, sym, ap, ◌∙◌, arith, ◌⊎◌,
  append_assoc, length-append,
}
use mathlib.Core.Path.{subst}
use high_performance_logger.Service.Handling.{AcceptedConnection}
use high_performance_logger.Service.Running.{
  Service, WorkerPc, popping, done, handling, MainPc, accepting, in_accept, stopping, joining,
  finished, start, accept_one,
}

-- Before the queue is stopped.
abbrev pub IsOpen : MainPc → Type 0
IsOpen (accepting n) = Unit {0}
IsOpen (in_accept n) = Unit {0}
IsOpen stopping = Unit {0}
IsOpen joining = ⊥
IsOpen finished = ⊥

stopped_twice : {b : Bool} → b ≡ false → b ≡ true → ⊥
stopped_twice e f = cc

pub popping_handling : {k : ℕ} {c : AcceptedConnection} → popping ≡ handling k c → ⊥
popping_handling e = cc

pub popping_done : popping ≡ done → ⊥
popping_done e = cc

pub not_empty : {c : AcceptedConnection} {cs : List AcceptedConnection} → c ∷ cs ≡ [] → ⊥
not_empty e = cc

pub busy_done : {w : WorkerPc} {k : ℕ} {c : AcceptedConnection} → w ≡ handling k c → w ≡ done → ⊥
busy_done e f = cc

pub same_place : {k l : ℕ} {c d : AcceptedConnection} → handling k c ≡ handling l d → k ≡ l
same_place e = cc

module _ (worker_count max_requests : ℕ) where
  -- What holds between any two steps.
  pub record Inv (s : Service) : Type 0 where
    pub order : s.taken ++ s.connections.queue ≡ s.accepted
    pub fresh : (k : ℕ) → length s.taken ≤ k → s.handled k ≡ 0
    pub current :
        (i k : ℕ) (c : AcceptedConnection)
        → s.worker i ≡ handling k c
        → (k < length s.taken) × (s.handled k ≡ 0)
    pub one_each :
        (i j k : ℕ) (c d : AcceptedConnection)
        → s.worker i ≡ handling k c
        → s.worker j ≡ handling k d
        → i ≡ j
    pub covered :
        (k : ℕ)
        → k < length s.taken
        → (s.handled k ≡ 1)
          ⊎ ((i : ℕ) × (c : AcceptedConnection) × (i < worker_count) × (s.worker i ≡ handling k c))
    pub ended_empty :
        (i : ℕ) → s.worker i ≡ done → (s.connections.stopped ≡ true) × (s.connections.queue ≡ [])
    pub open_queue : IsOpen s.main → s.connections.stopped ≡ false
    pub joined : s.main ≡ finished → (i : ℕ) → i < worker_count → s.worker i ≡ done
    pub counted : (n : ℕ) → s.main ≡ accepting n → n ≡ length s.accepted
    pub called :
        (n : ℕ)
        → s.main ≡ in_accept n
        → (n ≡ length s.accepted) × (0 < max_requests → n < max_requests)
    pub bounded : 0 < max_requests → length s.accepted ≤ max_requests

  pub start-Inv : Inv start
  start-Inv = record {
    order = refl;
    fresh = λ k l. refl;
    current = λ i k c e. absurd (cc);
    one_each = λ i j k c d e f. absurd (cc);
    covered = λ k l. absurd (omega arith);
    ended_empty = λ i e. absurd (cc);
    open_queue = λ o. refl;
    joined = λ e. absurd (cc);
    counted = λ n e. ground arith;
    called = λ n e. absurd (cc);
    bounded = λ p. omega arith;
  }

  pub accept_one-Inv :
      (n : ℕ) (c : AcceptedConnection) (s : Service)
      → s.main ≡ in_accept n
      → Inv s
      → Inv (accept_one n c s)
  unfolding accept_one
  accept_one-Inv n c s m v = record {
    order = sym (append_assoc s.taken s.connections.queue (c ∷ [])) ∙ ap (λ l. l ++ c ∷ []) v.order;
    fresh = v.fresh;
    current = v.current;
    one_each = v.one_each;
    covered = v.covered;
    ended_empty = λ i e. absurd (stopped_twice (is_open) (v.ended_empty i e).0);
    open_queue = λ o. is_open;
    joined = λ e. absurd (cc);
    counted = λ k e. ground (arith, (v.called n m).0, length-append s.accepted (c ∷ []));
    called = λ k e. absurd (cc);
    bounded =
        λ p. omega (arith, (v.called n m).0, (v.called n m).1 p, length-append s.accepted (c ∷ []));
  }
    where
      is_open : s.connections.stopped ≡ false
      is_open = v.open_queue (subst IsOpen (sym m) tt)

  -- A step of the main thread that adds no connection.
  pub main_step-Inv :
      (s : Service) (m : MainPc) (stopped : Bool)
      → Inv s
      → (s.connections.stopped ≡ true → stopped ≡ true)
      → (IsOpen m → stopped ≡ false)
      → (m ≡ finished → (i : ℕ) → i < worker_count → s.worker i ≡ done)
      → ((n : ℕ) → m ≡ accepting n → n ≡ length s.accepted)
      → ((n : ℕ)
          → m ≡ in_accept n
          → (n ≡ length s.accepted) × (0 < max_requests → n < max_requests))
      → Inv (record s { main = m; connections = record s.connections { stopped = stopped } })
  main_step-Inv s m stopped v stays o j n k = record {
    order = v.order;
    fresh = v.fresh;
    current = v.current;
    one_each = v.one_each;
    covered = v.covered;
    ended_empty = λ i e. (stays (v.ended_empty i e).0, (v.ended_empty i e).1);
    open_queue = o;
    joined = j;
    counted = n;
    called = k;
    bounded = v.bounded;
  }

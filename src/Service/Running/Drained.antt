-- ===== src/Service/Running/Drained.antt =====
-- When the service of examples/service_example.cpp ends, every connection has been handled once.
use high_performance_logger.Common.{
  ℕ, ◌<◌, ◌≤◌, ◌≡◌, true, ◌++◌, length, arith, refl, sym, ap, ◌∙◌, inl, inr, append-nil,
}
use mathlib.Core.Path.{subst}
use high_performance_logger.Service.Running.{
  Service, stopping, joining, finished, stop_workers, Step, accepts, enters, accept_fails,
  in_accept, accepting, leaves, interrupted, stops, joins, works, Reach, started, then_step,
}
use high_performance_logger.Service.Running.Invariant.{
  Inv, IsOpen, start-Inv, accept_one-Inv, main_step-Inv, busy_done,
}
use high_performance_logger.Service.Running.Turns.{worker_turn-Inv}

same_count : {k n : ℕ} → in_accept n ≡ in_accept k → k ≡ n
same_count e = cc

module _ (worker_count max_requests : ℕ) where
  Step-Inv :
      {s t : Service}
      → Step worker_count max_requests s t
      → Inv worker_count max_requests s
      → Inv worker_count max_requests t
  unfolding stop_workers
  Step-Inv {s} (enters n m g) v =
      main_step-Inv worker_count max_requests s (in_accept n) s.connections.stopped v (λ e. e)
        (λ o. v.open_queue (subst IsOpen (sym m) tt)) (λ e. absurd (cc)) (λ k e. absurd (cc))
        (λ k e. (same_count e ∙ v.counted n m, λ p. ground (arith, g, same_count e)))
  Step-Inv {s} (accepts n c m) v = accept_one-Inv worker_count max_requests n c s m v
  Step-Inv {s} (accept_fails n m) v =
      main_step-Inv worker_count max_requests s (accepting n) s.connections.stopped v (λ e. e)
        (λ o. v.open_queue (subst IsOpen (sym m) tt)) (λ e. absurd (cc))
        (λ k e. ground (arith, (v.called n m).0)) (λ k e. absurd (cc))
  Step-Inv {s} (leaves n m g) v =
      main_step-Inv worker_count max_requests s stopping s.connections.stopped v (λ e. e)
        (λ o. v.open_queue (subst IsOpen (sym m) tt)) (λ e. absurd (cc)) (λ k e. absurd (cc))
        (λ k e. absurd (cc))
  Step-Inv {s} interrupted v = record {
    order = v.order;
    fresh = v.fresh;
    current = v.current;
    one_each = v.one_each;
    covered = v.covered;
    ended_empty = v.ended_empty;
    open_queue = v.open_queue;
    joined = v.joined;
    counted = v.counted;
    called = v.called;
    bounded = v.bounded;
  }
  Step-Inv {s} (stops m) v =
      main_step-Inv worker_count max_requests s joining true v (λ e. refl) (λ o. absurd o)
        (λ e. absurd (cc)) (λ k e. absurd (cc)) (λ k e. absurd (cc))
  Step-Inv {s} (joins m d) v =
      main_step-Inv worker_count max_requests s finished s.connections.stopped v (λ e. e)
        (λ o. absurd o) (λ e. d) (λ k e. absurd (cc)) (λ k e. absurd (cc))
  Step-Inv {s} (works i l) v = worker_turn-Inv worker_count max_requests i s (s.worker i) l refl v

  Reach-Inv : {s : Service} → Reach worker_count max_requests s → Inv worker_count max_requests s
  Reach-Inv started = start-Inv worker_count max_requests
  Reach-Inv (then_step r step) = Step-Inv step (Reach-Inv r)

-- What the service has done when its main thread has joined the workers.
pub record AllHandled (max_requests : ℕ) (s : Service) : Type 0 where
  pub in_order : s.taken ≡ s.accepted
  pub once : (k : ℕ) → k < length s.accepted → s.handled k ≡ 1
  pub no_other : (k : ℕ) → length s.accepted ≤ k → s.handled k ≡ 0
  pub within : 0 < max_requests → length s.accepted ≤ max_requests

-- When the service, with at least one worker, has joined its workers, the connections were taken in
-- the order in which they were accepted, each was handled exactly once, and there are no more of them
-- than the limit if there is one.
pub finished-AllHandled :
    (worker_count max_requests : ℕ) (s : Service)
    → 0 < worker_count
    → Reach worker_count max_requests s
    → s.main ≡ finished
    → AllHandled max_requests s
finished-AllHandled n m s some_worker r f =
    let v = Reach-Inv n m r in
    let nothing_left = (v.ended_empty 0 (v.joined f 0 some_worker)).1 in
    let in_order : s.taken ≡ s.accepted =
      sym (append-nil s.taken) ∙ ap (λ q. s.taken ++ q) (sym nothing_left) ∙ v.order in
    record {
      in_order = in_order;
      once = λ k l. elim (v.covered k (subst (λ x. k < length x) (sym in_order) l)) [
        | inl one ↦ one
        | inr (i, c, near, e) ↦ absurd (busy_done e (v.joined f i near))
      ];
      no_other = λ k l. v.fresh k (subst (λ x. length x ≤ k) (sym in_order) l);
      within = v.bounded;
    }

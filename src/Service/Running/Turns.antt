-- ===== src/Service/Running/Turns.antt =====
-- The turns of a worker of examples/service_example.cpp keep what holds between steps.
use high_performance_logger.Common.{
  ℕ, ◌+◌, ◌<◌, ◌≡◌, Bool, true, false, List, [], ◌∷◌, ◌++◌, length, refl, sym, ap, ◌∙◌, arith,
  ℕ_discrete, ◌⊎◌, inl, inr, append_assoc, length-append,
}
use high_performance_logger.Common.Family.{update, update-cases, update_elsewhere, update_there}
use high_performance_logger.Service.Handling.{AcceptedConnection}
use high_performance_logger.Service.Connections.{front, behind_front, got, ended}
use high_performance_logger.Service.Running.{
  Service, WorkerPc, popping, done, handling, finished, worker_turn, after_pop,
}
use high_performance_logger.Service.Running.Invariant.{
  Inv, busy_done, popping_handling, popping_done, not_empty, same_place,
}

module _ (worker_count max_requests : ℕ) where
  handled-Inv :
      (i k : ℕ) (c : AcceptedConnection) (s : Service)
      → i < worker_count
      → s.worker i ≡ handling k c
      → Inv worker_count max_requests s
      → Inv worker_count max_requests (worker_turn i s (handling k c))
  unfolding worker_turn
  handled-Inv i k c s small w v = record {
    order = v.order;
    fresh = λ j l. ground (arith, v.fresh j l, v.current i k c w);
    current = λ j l d e. elim (update-cases s.worker i popping j (handling l d) e) [
      | inl (_, f) ↦ absurd (cc)
      | inr (n, f) ↦ (
        (v.current j l d f).0,
        update_elsewhere s.handled k (s.handled k + 1) l (λ same. n (clash j l d f same))
            ∙ (v.current j l d f).1,
      )
    ];
    one_each = λ j j2 l d d2 e f. elim (update-cases s.worker i popping j (handling l d) e) [
      | inl (_, g) ↦ absurd (cc)
      | inr (_, g) ↦ elim (update-cases s.worker i popping j2 (handling l d2) f) [
        | inl (_, h) ↦ absurd (cc)
        | inr (_, h) ↦ v.one_each j j2 l d d2 g h
      ]
    ];
    covered = still_covered;
    ended_empty = λ j e. elim (update-cases s.worker i popping j done e) [
      | inl (_, f) ↦ absurd (cc)
      | inr (_, f) ↦ v.ended_empty j f
    ];
    open_queue = v.open_queue;
    joined = λ e j l. absurd (busy_done w (v.joined e i small));
    counted = v.counted;
    called = v.called;
    bounded = v.bounded;
  }
    where
      clash : (j l : ℕ) (d : AcceptedConnection) → s.worker j ≡ handling l d → k ≡ l → i ≡ j
      clash j l d f same = v.one_each i j l c d (w ∙ ap (λ x. handling x c) same) f

      still_covered :
          (l : ℕ)
          → l < length s.taken
          → (update s.handled k (s.handled k + 1) l ≡ 1)
            ⊎ ((j : ℕ) × (d : AcceptedConnection) × (j < worker_count)
                × (update s.worker i popping j ≡ handling l d))
      still_covered l b = elim (ℕ_discrete k l) [
        | yes same ↦ inl (
            update_there s.handled k (s.handled k + 1) l same
            ∙ ap (λ x. x + 1) (v.current i k c w).1)
        | no other ↦ elim (v.covered l b) [
          | inl once ↦ inl (update_elsewhere s.handled k (s.handled k + 1) l other ∙ once)
          | inr (j, d, small, f) ↦ inr (
            j,
            d,
            small,
            update_elsewhere s.worker i popping j
                  (λ e. other (same_place (sym w ∙ ap s.worker e ∙ f)))
                ∙ f,
          )
        ]
      ]

  -- The `Pop` of a worker that stands before it.
  module _ (i : ℕ) (s : Service) (small : i < worker_count) (w : s.worker i ≡ popping)
      (v : Inv worker_count max_requests s) where
    still_handling :
        (p : WorkerPc) (j l : ℕ) (d : AcceptedConnection)
        → s.worker j ≡ handling l d
        → update s.worker i p j ≡ handling l d
    still_handling p j l d f =
        update_elsewhere s.worker i p j (λ e. popping_handling (sym w ∙ ap s.worker e ∙ f)) ∙ f

    not_joined : s.main ≡ finished → ⊥
    not_joined e = popping_done (sym w ∙ v.joined e i small)

    got-Inv :
        (c : AcceptedConnection) (cs : List AcceptedConnection)
        → s.connections.queue ≡ c ∷ cs
        → Inv worker_count max_requests (after_pop i s (got c, record s.connections { queue = cs }))
    got-Inv c cs q = record {
      order = append_assoc s.taken (c ∷ []) cs ∙ ap (λ x. s.taken ++ x) (sym q) ∙ v.order;
      fresh = λ k l. v.fresh k (omega (arith, l, longer));
      current = λ j l d e. elim (update-cases s.worker i here j (handling l d) e) [
        | inl (_, f) ↦
            (omega (arith, longer, same_place f), v.fresh l (omega (arith, same_place f)))
        | inr (_, f) ↦ (omega (arith, longer, (v.current j l d f).0), (v.current j l d f).1)
      ];
      one_each = λ j j2 l d d2 e f. elim (update-cases s.worker i here j (handling l d) e) [
        | inl (a, g) ↦ elim (update-cases s.worker i here j2 (handling l d2) f) [
          | inl (b, h) ↦ sym a ∙ b
          | inr (_, h) ↦ absurd (omega (arith, same_place g, (v.current j2 l d2 h).0))
        ]
        | inr (_, g) ↦ elim (update-cases s.worker i here j2 (handling l d2) f) [
          | inl (b, h) ↦ absurd (omega (arith, same_place h, (v.current j l d g).0))
          | inr (_, h) ↦ v.one_each j j2 l d d2 g h
        ]
      ];
      covered = λ l b. elim (ℕ_discrete (length s.taken) l) [
        | yes same ↦
            inr (i, c, small, update_there s.worker i here i refl ∙ ap (λ x. handling x c) same)
        | no other ↦ elim (v.covered l (omega (arith, b, longer, other))) [
          | inl once ↦ inl once
          | inr (j, d, near, f) ↦ inr (j, d, near, still_handling here j l d f)
        ]
      ];
      ended_empty = λ j e. elim (update-cases s.worker i here j done e) [
        | inl (_, f) ↦ absurd (cc)
        | inr (_, f) ↦ absurd (not_empty (sym q ∙ (v.ended_empty j f).1))
      ];
      open_queue = v.open_queue;
      joined = λ e j l. absurd (not_joined e);
      counted = v.counted;
      called = v.called;
      bounded = v.bounded;
    }
      where
        here : WorkerPc
        here = handling (length s.taken) c

        longer : length (s.taken ++ c ∷ []) ≡ length s.taken + 1
        longer = length-append s.taken (c ∷ [])

    ended-Inv :
        s.connections.queue ≡ []
        → s.connections.stopped ≡ true
        → Inv worker_count max_requests (after_pop i s (ended, record s.connections { queue = [] }))
    ended-Inv q b = record {
      order = ap (λ x. s.taken ++ x) (sym q) ∙ v.order;
      fresh = v.fresh;
      current = λ j l d e. elim (update-cases s.worker i done j (handling l d) e) [
        | inl (_, f) ↦ absurd (cc)
        | inr (_, f) ↦ v.current j l d f
      ];
      one_each = λ j j2 l d d2 e f. elim (update-cases s.worker i done j (handling l d) e) [
        | inl (_, g) ↦ absurd (cc)
        | inr (_, g) ↦ elim (update-cases s.worker i done j2 (handling l d2) f) [
          | inl (_, h) ↦ absurd (cc)
          | inr (_, h) ↦ v.one_each j j2 l d d2 g h
        ]
      ];
      covered = λ l c. elim (v.covered l c) [
        | inl once ↦ inl once
        | inr (j, d, near, f) ↦ inr (j, d, near, still_handling done j l d f)
      ];
      ended_empty = λ j e. (b, refl);
      open_queue = v.open_queue;
      joined = λ e j l. absurd (not_joined e);
      counted = v.counted;
      called = v.called;
      bounded = v.bounded;
    }

    pop-Inv :
        (q : List AcceptedConnection) (b : Bool)
        → s.connections.queue ≡ q
        → s.connections.stopped ≡ b
        → Inv worker_count max_requests
            (after_pop i s (front b q, record s.connections { queue = behind_front q }))
    pop-Inv [] true e f = ended-Inv e f
    pop-Inv [] false e f = v
    pop-Inv (c ∷ cs) b e f = got-Inv c cs e

  pub worker_turn-Inv :
      (i : ℕ) (s : Service) (p : WorkerPc)
      → i < worker_count
      → s.worker i ≡ p
      → Inv worker_count max_requests s
      → Inv worker_count max_requests (worker_turn i s p)
  unfolding worker_turn
  worker_turn-Inv i s popping l w v =
      pop-Inv i s l w v s.connections.queue s.connections.stopped refl refl
  worker_turn-Inv i s (handling k c) l w v = handled-Inv i k c s l w v
  worker_turn-Inv i s done l w v = v

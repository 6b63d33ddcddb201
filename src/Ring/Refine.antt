-- ===== src/Ring/Refine.antt =====
-- LockFreeRingBuffer implements the bounded queue of Ring.Queue.
use high_performance_logger.Common.{
  ℕ, suc, ◌+◌, ◌-◌, ◌^◌, ◌≤◌, ◌<◌, ◌≡◌, arith, refl, ap, Bool, true, false, Bool-cases, inl, inr,
  ◌⊎◌, ◌&&◌, ◌==◌, not, Option, some, none, ◌∙◌, sym, List, [], ◌∷◌, ◌++◌, length,
}
use high_performance_logger.Common.Family.{update, window, window-update, length-window}
use high_performance_logger.Common.Word.{add64}
use high_performance_logger.Common.Int.{diff_sign-cases}
use high_performance_logger.Ring.{
  Pc, Cell, advance, round_up_power_of_two, idle, enq_begin, enq_at, enq_test, enq_claimed,
  enq_stored, enq_done, deq_begin, deq_at, deq_test, deq_claimed, deq_moved, deq_done, enqueue_test,
  dequeue_test,
}
use high_performance_logger.Ring.System.{
  System, Step, call_enqueue, call_dequeue, collect, run, Reach, run_at, contents, is_done,
}
use high_performance_logger.Ring.Queue
use high_performance_logger.Ring.Queue.{
  Call, Queue, QueueStep, Turns, resting, pushing, pushed, popping, popped,
}
use high_performance_logger.Ring.Invariant.Defs.{seq, Local}
use high_performance_logger.Ring.Invariant.Others.{head-lt-tail}
use high_performance_logger.Ring.Invariant.Steps.{Inv, view, at_mask, local_at}
use high_performance_logger.Ring.Invariant.Reached.{Reach-Inv, claims_mono}

-- What a thread's program counter says of its call.
abbrev pub call_of : {V : Type 0} → (ℕ → V) → Pc V → Call V
call_of h idle = resting
call_of h (enq_begin v) = pushing v
call_of h (enq_at v _) = pushing v
call_of h (enq_test v _ _) = pushing v
call_of h (enq_claimed _ _) = pushed true
call_of h (enq_stored _) = pushed true
call_of h (enq_done b) = pushed b
call_of h deq_begin = popping
call_of h (deq_at _) = popping
call_of h (deq_test _ _) = popping
call_of h (deq_claimed p) = popped (some (h p))
call_of h (deq_moved _ v) = popped (some v)
call_of h (deq_done o) = popped o

abbrev pub queue_of : {V : Type 0} → System V → Queue V
queue_of s = record { items = contents s; call = λ i. call_of s.history (s.pc i) }

-- Thread `i` goes on to `p`, while the history becomes `h` and the items `xs`.
abbrev moved_on : {V : Type 0} → System V → ℕ → Pc V → (ℕ → V) → List V → Queue V
moved_on s i p h xs = record { items = xs; call = λ j. call_of h (update s.pc i p j) }

module _ {V : Type 0} (s : System V) (i : ℕ) (p : Pc V) where
  moved_on-Turns :
      (h : ℕ → V) (xs : List V)
      → ((j : ℕ) → call_of h (s.pc j) ≡ call_of s.history (s.pc j))
      → Turns (queue_of s) (moved_on s i p h xs) i (call_of h p)
  moved_on-Turns h xs same = record { mine = ground arith; others = λ j n. ground (arith, same j) }

  moved_on-call :
      (xs : List V)
      → call_of s.history p ≡ call_of s.history (s.pc i)
      → (j : ℕ) → (moved_on s i p s.history xs).call j ≡ (queue_of s).call j
  moved_on-call xs e j = ground arith

module _ {V : Type 0} (fresh : V) (moved_from : V → V) (k : ℕ) (two : 2 ≤ 2 ^ k) (s : System V)
    (i : ℕ) (inv : Inv k s) (fits : s.claims + 1 + 2 ^ k < 2 ^ 63) where
  abbrev Moves : System V → Type 0
  Moves t = QueueStep (2 ^ k) (queue_of s) (queue_of t)

  abbrev local : {p : Pc V} → s.pc i ≡ p → Local k (view s) p
  local e = local_at fresh moved_from k two s i inv e

  -- Claiming a position changes no settled answer.
  same_calls :
      (v : V) (j : ℕ) → call_of (update s.history s.claims v) (s.pc j) ≡ call_of s.history (s.pc j)
  same_calls v j = ground (arith, inv.threads.local j, inv.cells.order)

  idles :
      (p p' : Pc V)
      → s.pc i ≡ p
      → call_of s.history p' ≡ call_of s.history p
      → (j : ℕ) → call_of s.history (update s.pc i p' j) ≡ call_of s.history (s.pc j)
  idles p p' e c = moved_on-call s i p' (contents s) (c ∙ ap (call_of s.history) (sym e))

  turns :
      (p' : Pc V) (xs : List V)
      → Turns (queue_of s) (moved_on s i p' s.history xs) i (call_of s.history p')
  turns p' xs = moved_on-Turns s i p' s.history xs (λ j. refl)

  contents-claim :
      (v : V)
      → window (update s.history s.claims v) s.takes (s.claims + 1 - s.takes) ≡ contents s ++ v ∷ []
  contents-claim v =
      ap (window (update s.history s.claims v) s.takes) {y = suc (s.claims - s.takes)}
        (omega (arith, inv.cells.order))
      ∙ window-update s.history s.takes (s.claims - s.takes) s.claims v
          (omega (arith, inv.cells.order))

  contents-take :
      s.takes < s.claims
      → contents s ≡ s.history s.takes ∷ window s.history (s.takes + 1) (s.claims - (s.takes + 1))
  contents-take h = ap (window s.history s.takes) {y = suc (s.claims - (s.takes + 1))} (omega arith)

  room_to_push : (p : ℕ) → s.claims ≡ p → seq k (view s) p ≡ p → length (contents s) < 2 ^ k
  room_to_push p e free =
      ground (arith, length-window s.history s.takes (s.claims - s.takes), inv.cells.next p)

  something_to_pop :
      (p : ℕ)
      → s.takes ≡ p
      → seq k (view s) p ≡ p + 1
      → contents s ≡ s.history p ∷ window s.history (s.takes + 1) (s.claims - (s.takes + 1))
  something_to_pop p e ready =
      contents-take (head-lt-tail k two (view s) inv.cells (rw e ready))
      ∙ ap (λ x. s.history x ∷ window s.history (s.takes + 1) (s.claims - (s.takes + 1))) e

  enqueue_test_refines :
      (sp : Bool) (v : V) (p q : ℕ)
      → s.pc i ≡ enq_test v p q
      → Moves (run_at fresh moved_from sp i s (enq_test v p q))
  unfolding run_at advance enqueue_test
  enqueue_test_refines sp v p q e =
      let l = local e in
      elim (diff_sign-cases q p (omega arith) (omega arith)) [
        | inl (same, d) ↦ elim (Bool-cases (not sp && s.ring.enqueue_pos == p)) [
          | inl won ↦
              rw (d, won)
                (Queue.push i v (ap (call_of s.history) e)
                  (room_to_push p (ground (arith, inv.tail_is))
                    (l.2 same (ground (arith, inv.tail_is))))
                  (contents-claim v)
                  (moved_on-Turns s i (enq_claimed v p) (update s.history s.claims v) _
                    (same_calls v)))
          | inr lost ↦ rw (d, lost) (Queue.wait refl (idles _ (enq_at v s.ring.enqueue_pos) e refl))
        ]
        | inr (inl (less, d)) ↦ rw d (
            Queue.refuse_push i v (ap (call_of s.history) e) refl
              (turns (enq_done false) (contents s)))
        | inr (inr (more, d)) ↦
            rw d (Queue.wait refl (idles _ (enq_at v s.ring.enqueue_pos) e refl))
      ]

  dequeue_test_refines :
      (sp : Bool) (p q : ℕ)
      → s.pc i ≡ deq_test p q
      → Moves (run_at fresh moved_from sp i s (deq_test p q))
  unfolding run_at advance dequeue_test
  dequeue_test_refines sp p q e =
      let l = local e in
      elim (diff_sign-cases q (add64 p 1) (omega (arith, inv.cells.order)) (omega arith)) [
        | inl (same, d) ↦ elim (Bool-cases (not sp && s.ring.dequeue_pos == p)) [
          | inl won ↦
              rw (d, won)
                (Queue.pop i (s.history p) (ap (call_of s.history) e)
                  (something_to_pop p (ground (arith, inv.head_is))
                    (l.2 (same ∙ omega (arith, inv.cells.order)) (ground (arith, inv.head_is))))
                  (turns (deq_claimed p) _))
          | inr lost ↦ rw (d, lost) (Queue.wait refl (idles _ (deq_at s.ring.dequeue_pos) e refl))
        ]
        | inr (inl (less, d)) ↦ rw d (
            Queue.refuse_pop i (ap (call_of s.history) e) refl (turns (deq_done none) (contents s)))
        | inr (inr (more, d)) ↦ rw d (Queue.wait refl (idles _ (deq_at s.ring.dequeue_pos) e refl))
      ]

  run_at_refines : (sp : Bool) (p : Pc V) → s.pc i ≡ p → Moves (run_at fresh moved_from sp i s p)
  unfolding run_at advance
  run_at_refines sp (enq_test v p q) e = enqueue_test_refines sp v p q e
  run_at_refines sp (deq_test p q) e = dequeue_test_refines sp p q e
  run_at_refines sp (deq_claimed p) e = Queue.wait refl (
      idles _ _ e (
        ap (λ v. popped (some v))
          (ap (λ (c : Cell V). c.value) (at_mask fresh moved_from k two s i inv p) ∙ (local e).3)))
  run_at_refines sp (deq_moved p v) e = Queue.wait refl (idles _ _ e refl)
  run_at_refines sp (enq_stored p) e = Queue.wait refl (idles _ _ e refl)
  run_at_refines sp (enq_claimed v p) e = Queue.wait refl (idles _ _ e refl)
  run_at_refines sp p e = Queue.wait refl (idles _ _ e refl)

-- A call that has returned has its answer.
done-answer :
    {V : Type 0} (h : ℕ → V) (p : Pc V)
    → is_done p ≡ true
    → ((r : Bool) × (call_of h p ≡ pushed r)) ⊎ ((r : Option V) × (call_of h p ≡ popped r))
done-answer h (enq_done b) e = inl (b, refl)
done-answer h (deq_done o) e = inr (o, refl)
done-answer h p e = cc

module _ {V : Type 0} (fresh : V) (moved_from : V → V) (k : ℕ) (two : 2 ≤ 2 ^ k) where
  Step_refines :
      {s t : System V}
      → Step fresh moved_from s t
      → t.claims + 1 + 2 ^ k < 2 ^ 63
      → Inv k s
      → QueueStep (2 ^ k) (queue_of s) (queue_of t)
  Step_refines {s} (call_enqueue i v e) fits inv =
      Queue.call_push i v (ap (call_of s.history) e) refl
        (moved_on-Turns s i _ s.history _ (λ j. refl))
  Step_refines {s} (call_dequeue i e) fits inv =
      Queue.call_pop i (ap (call_of s.history) e) refl
        (moved_on-Turns s i _ s.history _ (λ j. refl))
  Step_refines {s} (collect i e) fits inv = elim (done-answer s.history (s.pc i) e) [
    | inl (r, h) ↦ Queue.finish_push i r h refl (moved_on-Turns s i idle s.history _ (λ j. refl))
    | inr (r, h) ↦ Queue.finish_pop i r h refl (moved_on-Turns s i idle s.history _ (λ j. refl))
  ]
  Step_refines {s} (run i sp) fits inv =
      run_at_refines fresh moved_from k two s i inv
        (omega (arith, fits, claims_mono fresh moved_from {s = s} (run i sp))) sp (s.pc i) refl

  -- From any state that threads can reach over a buffer made for a request that rounds up to 2 ^ k
  -- cells, at least two, every step of any thread is a step of the bounded queue of that capacity,
  -- as long as fewer than 2 ^ 63 positions, less the capacity and one, have been claimed.
  pub Reach_refines :
      (n : ℕ) {s t : System V}
      → round_up_power_of_two n ≡ 2 ^ k
      → Reach fresh moved_from n s
      → Step fresh moved_from s t
      → t.claims + 1 + 2 ^ k < 2 ^ 63
      → QueueStep (2 ^ k) (queue_of s) (queue_of t)
  Reach_refines n e r st fits = Step_refines st fits (
      Reach-Inv fresh moved_from k two n e r (omega (arith, fits, claims_mono fresh moved_from st)))

-- ===== src/Ring/Refuse.antt =====
-- When LockFreeRingBuffer turns a call away.
use high_performance_logger.Common.{
  ℕ, zero, suc, ◌+◌, ◌-◌, ◌^◌, ◌≤◌, ◌<◌, ◌≡◌, arith, refl, ap, inl, inr, ◌⊎◌, ◌∙◌, [], length,
  dec_lt, Bool, false, none,
}
use high_performance_logger.Common.Int.{diff_sign, diff_sign-cases, negative}
use high_performance_logger.Common.Word.{add64}
use high_performance_logger.Common.Family.{update, update_there, window, length-window}
use high_performance_logger.Ring.{
  Ring, Pc, enq_at, enq_test, enq_done, deq_at, deq_test, deq_done, sequence_of, Cell,
  round_up_power_of_two, advance, enqueue_test, dequeue_test,
}
use high_performance_logger.Ring.System.{
  System, contents, Reach, run_at, run_thread, Event, quiet, pushed, popped, event, note,
}
use high_performance_logger.Ring.Index.{slot, slot-round}
use high_performance_logger.Ring.Invariant.Defs.{seq}
use high_performance_logger.Ring.Invariant.Steps.{Inv, view, at_mask, local_at}
use high_performance_logger.Ring.Invariant.Reached.{Reach-Inv}

-- The position among the next `2 ^ k` that shares the slot of `p`.
next_of :
    (k fuel e p : ℕ)
    → 1 ≤ 2 ^ k
    → e ≤ p + fuel
    → p < e + 2 ^ k
    → (q : ℕ) × ((q ≡ p) ⊎ (p + 2 ^ k ≤ q)) × (e ≤ q) × (q < e + 2 ^ k) × (slot k q ≡ slot k p)
next_of k zero e p h a b = (p, inl refl, omega arith, b, refl)
next_of k (suc fuel) e p h a b = elim (dec_lt p e) [
  | yes before ↦
      let (q, x, y, z, same) = next_of k fuel e (p + 2 ^ k) h (omega arith) (omega arith) in
      (q, inr (omega (arith, x)), y, z, same ∙ slot-round k p)
  | no after ↦ (p, inl refl, omega arith, b, refl)
]

-- What a step of a thread makes of its own place.
module _ {V : Type 0} (fresh : V) (moved_from : V → V) (sp : Bool) (i : ℕ) (s : System V) where
  pc_after :
      (p : Pc V)
      → (run_at fresh moved_from sp i s p).pc i ≡ (advance fresh moved_from sp s.ring p).1
  unfolding run_at
  pc_after p =
      noted (event p (advance fresh moved_from sp s.ring p).1)
      ∙ update_there s.pc i (advance fresh moved_from sp s.ring p).1 i refl
    where
      after : System V
      after = record s {
        ring = (advance fresh moved_from sp s.ring p).0;
        pc = update s.pc i (advance fresh moved_from sp s.ring p).1;
      }

      noted : (e : Event V) → (note e after).pc i ≡ after.pc i
      noted quiet = refl
      noted (pushed v) = refl
      noted popped = refl

below-negative : (a b : ℕ) → a < 2 ^ 63 → b < 2 ^ 63 → a < b → diff_sign a b ≡ negative
below-negative a b ha hb h = ground (arith, diff_sign-cases a b ha hb)

module _ {V : Type 0} (fresh : V) (moved_from : V → V) (k : ℕ) (two : 2 ≤ 2 ^ k) (n : ℕ)
    (s : System V) (cap : round_up_power_of_two n ≡ 2 ^ k) (r : Reach fresh moved_from n s)
    (fits : s.claims + 1 + 2 ^ k < 2 ^ 63) (i : ℕ) where
  inv : Inv k s
  inv = Reach-Inv fresh moved_from k two n cap r fits

  loaded : (p : ℕ) → sequence_of fresh moved_from s.ring p ≡ seq k (view s) p
  loaded p = ap (λ (c : Cell V). c.sequence) (at_mask fresh moved_from k two s i inv p)

  -- What the invariant says of the cell that a position leads to, however old the position is.
  latest :
      (p : ℕ)
      → p ≤ s.claims
      → (q : ℕ) × ((q ≡ p) ⊎ (p + 2 ^ k ≤ q))
        × (s.claims ≤ q)
        × (q < s.claims + 2 ^ k)
        × (((seq k (view s) p ≡ q) × (q < s.takes + 2 ^ k))
            ⊎ ((seq k (view s) p + 2 ^ k ≡ q) × (s.takes + 2 ^ k ≤ q))
            ⊎ (seq k (view s) p + 2 ^ k ≡ q + 1))
  latest p h =
      let (q, x, y, z, same) =
        next_of k s.claims s.claims p (omega arith) (omega arith) (omega arith) in
      (
        q,
        x,
        y,
        z,
        ground (arith, inv.cells.next q y z, ap (λ (t : ℕ). (s.ring.buffer t).sequence) same),
      )

  nothing : s.claims ≡ s.takes → contents s ≡ []
  nothing e = ap (window s.history s.takes) {x = s.claims - s.takes} {y = 0} (omega arith)

  -- Two steps of the thread: the load, and the test of what was loaded.
  gives_up :
      (first second : Bool) (p test end : Pc V)
      → s.pc i ≡ p
      → ((sp : Bool) → (advance fresh moved_from sp s.ring p).1 ≡ test)
      → ((sp : Bool) (r : Ring V) → (advance fresh moved_from sp r test).1 ≡ end)
      → (run_thread fresh moved_from second i (run_thread fresh moved_from first i s)).pc i ≡ end
  gives_up first second p test end e a b =
      let t = run_thread fresh moved_from first i s in
      let at_test : t.pc i ≡ test =
        pc_after fresh moved_from first i s (s.pc i)
        ∙ ap (λ q. (advance fresh moved_from first s.ring q).1) e
        ∙ a first in
      pc_after fresh moved_from second i t (t.pc i)
      ∙ ap (λ q. (advance fresh moved_from second t.ring q).1) at_test
      ∙ b second t.ring

  when_full :
      (v : V) (p : ℕ)
      → s.pc i ≡ enq_at v p
      → sequence_of fresh moved_from s.ring p < p
      → (p ≡ s.claims)
        × ((length (contents s) ≡ 2 ^ k)
            ⊎ ((sequence_of fresh moved_from s.ring p + 2 ^ k ≡ p + 1) × (p < s.takes + 2 ^ k)))
  when_full v p e less = ground (
    arith,
    latest p (local_at fresh moved_from k two s i inv e),
    local_at fresh moved_from k two s i inv e,
    loaded p,
    inv.cells.room,
    inv.cells.order,
    length-window s.history s.takes (s.claims - s.takes),
  )

  -- In a reachable state, a producer that loads a sequence below its position gives up at its test,
  -- which refuses the value; it holds the newest position, and either the queue holds as many items as it can, or the consumer of the position one round
  -- earlier has claimed it and not yet released its cell.
  pub full_when_refused :
      (v : V) (p : ℕ)
      → s.pc i ≡ enq_at v p
      → sequence_of fresh moved_from s.ring p < p
      → ((first second : Bool)
          → (run_thread fresh moved_from second i (run_thread fresh moved_from first i s)).pc i
            ≡ enq_done false)
        × (p ≡ s.claims)
        × ((length (contents s) ≡ 2 ^ k)
            ⊎ ((sequence_of fresh moved_from s.ring p + 2 ^ k ≡ p + 1) × (p < s.takes + 2 ^ k)))
  unfolding advance
  full_when_refused v p e less = (
    λ first second.
        gives_up first second (enq_at v p) (enq_test v p q) (enq_done false) e (λ sp. refl)
          (λ sp r. ap (λ d. (enqueue_test fresh moved_from sp r v p d).1) below),
    (when_full v p e less).0,
    (when_full v p e less).1,
  )
    where
      q : ℕ
      q = sequence_of fresh moved_from s.ring p

      below : diff_sign q p ≡ negative
      below =
          below-negative q p (omega (arith, less, local_at fresh moved_from k two s i inv e))
            (omega (arith, local_at fresh moved_from k two s i inv e)) less

  when_empty :
      (p : ℕ)
      → s.pc i ≡ deq_at p
      → sequence_of fresh moved_from s.ring p < p + 1
      → (p ≡ s.takes)
        × ((contents s ≡ []) ⊎ ((sequence_of fresh moved_from s.ring p ≡ p) × (p < s.claims)))
  when_empty p e less = ground (
    arith,
    latest p (omega (arith, inv.cells.order, local_at fresh moved_from k two s i inv e)),
    local_at fresh moved_from k two s i inv e,
    loaded p,
    inv.cells.room,
    inv.cells.order,
    nothing,
  )

  -- In a reachable state, a consumer that loads a sequence below the one it waits for gives up at
  -- its test, which returns nothing; it holds the oldest position, and either the queue is empty, or the
  -- producer of that position has claimed it and not yet published it.
  pub empty_when_refused :
      (p : ℕ)
      → s.pc i ≡ deq_at p
      → sequence_of fresh moved_from s.ring p < p + 1
      → ((first second : Bool)
          → (run_thread fresh moved_from second i (run_thread fresh moved_from first i s)).pc i
            ≡ deq_done none)
        × (p ≡ s.takes)
        × ((contents s ≡ []) ⊎ ((sequence_of fresh moved_from s.ring p ≡ p) × (p < s.claims)))
  unfolding advance
  empty_when_refused p e less = (
    λ first second.
        gives_up first second (deq_at p) (deq_test p q) (deq_done none) e (λ sp. refl)
          (λ sp r. ap (λ d. (dequeue_test fresh moved_from sp r p d).1) below),
    (when_empty p e less).0,
    (when_empty p e less).1,
  )
    where
      q : ℕ
      q = sequence_of fresh moved_from s.ring p

      next : add64 p 1 ≡ p + 1
      next = omega (arith, inv.cells.order, local_at fresh moved_from k two s i inv e)

      below : diff_sign q (add64 p 1) ≡ negative
      below =
          ap (diff_sign q) next
          ∙ below-negative q (p + 1)
              (omega (arith, less, inv.cells.order, local_at fresh moved_from k two s i inv e))
              (omega (arith, inv.cells.order, local_at fresh moved_from k two s i inv e)) less

-- ===== src/Ring/Invariant/Reached.antt =====
-- The invariant in every state that the threads can reach.
use high_performance_logger.Common.{ℕ, ◌+◌, ◌-◌, ◌^◌, ◌≤◌, ◌<◌, ◌≡◌, arith, refl, ap, inl}
use high_performance_logger.Ring.{make, advance, round_up_power_of_two, idle, enq_begin, deq_begin}
use high_performance_logger.Ring.System.{
  System, Step, call_enqueue, call_dequeue, collect, run, Reach, init, later, start, run_at, note,
  event, quiet, pushed, popped, Event,
}
use high_performance_logger.Ring.Index.{slot_of_lt}
use high_performance_logger.Ring.Invariant.Steps.{Inv, quiet_step, run_at-Inv}

module _ {V : Type 0} (fresh : V) (moved_from : V → V) where
  claims-note : (s : System V) (e : Event V) → s.claims ≤ (note e s).claims
  claims-note s quiet = omega arith
  claims-note s (pushed v) = omega arith
  claims-note s popped = omega arith

  pub claims_mono : {s t : System V} → Step fresh moved_from s t → s.claims ≤ t.claims
  unfolding run_at
  claims_mono (call_enqueue i v e) = omega arith
  claims_mono (call_dequeue i e) = omega arith
  claims_mono (collect i e) = omega arith
  claims_mono {s} (run i sp) =
      claims-note _ (event (s.pc i) (advance fresh moved_from sp s.ring (s.pc i)).1)

  module _ (k : ℕ) (two : 2 ≤ 2 ^ k) where
    -- Every step of any thread keeps the invariant of a buffer of 2 ^ k cells, at least two, as long as
    -- fewer than 2 ^ 63 positions, less the capacity and one, have been claimed.
    pub Step-Inv :
        {s t : System V}
        → Step fresh moved_from s t
        → t.claims + 1 + 2 ^ k < 2 ^ 63
        → Inv k s
        → Inv k t
    Step-Inv {s} (call_enqueue i v e) fits inv =
        quiet_step fresh moved_from k two s i inv idle (enq_begin v) e tt refl refl
    Step-Inv {s} (call_dequeue i e) fits inv =
        quiet_step fresh moved_from k two s i inv idle deq_begin e tt refl refl
    Step-Inv {s} (collect i e) fits inv =
        quiet_step fresh moved_from k two s i inv (s.pc i) idle refl tt refl refl
    Step-Inv {s} (run i sp) fits inv =
        run_at-Inv fresh moved_from k two s i inv
          (omega (arith, fits, claims_mono {s = s} (run i sp))) sp (s.pc i) refl

    start-Inv : (n : ℕ) → round_up_power_of_two n ≡ 2 ^ k → Inv k (start fresh moved_from n)
    unfolding make
    start-Inv n e = record {
      capacity_is = e;
      mask_is = ap (λ (t : ℕ). t - 1) e;
      tail_is = refl;
      head_is = refl;
      cells = record {
        order = omega arith;
        room = omega arith;
        small = λ i. ground (arith, e);
        next = λ q a b. inl (ground (arith, e, slot_of_lt k q), omega arith);
        held = λ p a b. absurd (omega arith);
      };
      threads = record {
        local = λ i. tt;
        one_writer = λ i j p a b. cc;
        one_reader = λ i j p a b. cc;
      };
    }

    pub Reach-Inv :
        (n : ℕ) {s : System V}
        → round_up_power_of_two n ≡ 2 ^ k
        → Reach fresh moved_from n s
        → s.claims + 1 + 2 ^ k < 2 ^ 63
        → Inv k s
    Reach-Inv n e init fits = start-Inv n e
    Reach-Inv n e (later {s} {t} r st) fits =
        Step-Inv st fits (Reach-Inv n e r (omega (arith, fits, claims_mono st)))

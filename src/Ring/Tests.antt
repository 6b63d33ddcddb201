-- ===== src/Ring/Tests.antt =====
-- Runs of the ring buffer, and its theorems at concrete inputs.
use high_performance_logger.Common.{
  ℕ, ℕ_discrete, zero, suc, ◌+◌, ◌*◌, ◌^◌, ◌≤◌, ◌<◌, ◌≡◌, ◌⊎◌, max, refl, arith, false, [], ◌∷◌,
  length, Bool, none,
}
use high_performance_logger.Common.Family.{update}
use high_performance_logger.Common.Int.{diff_sign}
use high_performance_logger.Ring.{
  idle, enq_done, deq_done, enq_begin, deq_begin, round_up_power_of_two, sequence_of, advance, make,
  smear,
}
use high_performance_logger.Ring.Capacity.{round_up_least}
use high_performance_logger.Ring.System.{
  System, call_enqueue, call_dequeue, collect, run, Reach, init, later, start, run_at, run_thread,
  contents,
}
use high_performance_logger.Ring.Queue.{QueueStep}
use high_performance_logger.Ring.Refine.{queue_of, Reach_refines}
use high_performance_logger.Ring.Refuse.{full_when_refused, empty_when_refused}
use high_performance_logger.Ring.Invariant.Steps.{Inv}
use high_performance_logger.Ring.Invariant.Reached.{Reach-Inv, Step-Inv}

round_up_2 : round_up_power_of_two 2 ≡ 2 ^ 1
unfolding round_up_power_of_two smear
round_up_2 = refl

round_up_5 : round_up_power_of_two 5 ≡ 8
unfolding round_up_power_of_two smear
round_up_5 = refl

two : 2 ≤ 2 ^ 1
two = omega arith

abbrev same : ℕ → ℕ
same v = v

abbrev begun : System ℕ
begun = start 0 same 2

abbrev call_push : ℕ → System ℕ → System ℕ
call_push v s = record s { pc = update s.pc 0 (enq_begin v) }

abbrev call_pop : System ℕ → System ℕ
call_pop s = record s { pc = update s.pc 0 deq_begin }

abbrev collected : System ℕ → System ℕ
collected s = record s { pc = update s.pc 0 idle }

abbrev runs : ℕ → System ℕ → System ℕ
runs zero s = s
runs (suc n) s = runs n (run_thread 0 same false 0 s)

Reach-runs : (n : ℕ) (s : System ℕ) → Reach 0 same 2 s → Reach 0 same 2 (runs n s)
Reach-runs zero s r = r
Reach-runs (suc n) s r = Reach-runs n (run_thread 0 same false 0 s) (later r (run 0 false))

-- Two enqueues, and a third that is about to find the buffer full.
abbrev one_in : System ℕ
one_in = runs 5 (call_push 7 begun)

abbrev two_in : System ℕ
two_in = runs 5 (call_push 8 (collected one_in))

abbrev third : System ℕ
third = runs 1 (call_push 9 (collected two_in))

one_in-Reach : Reach 0 same 2 one_in
one_in-Reach = Reach-runs 5 (call_push 7 begun) (later init (call_enqueue 0 7 refl))

two_in-Reach : Reach 0 same 2 two_in
unfolding run_at advance make ℕ_discrete diff_sign round_up_power_of_two smear
two_in-Reach =
    Reach-runs 5 (call_push 8 (collected one_in))
      (later (later one_in-Reach (collect 0 refl)) (call_enqueue 0 8 refl))

third-Reach : Reach 0 same 2 third
unfolding run_at advance make ℕ_discrete diff_sign round_up_power_of_two smear
third-Reach =
    Reach-runs 1 (call_push 9 (collected two_in))
      (later (later two_in-Reach (collect 0 refl)) (call_enqueue 0 9 refl))

two_items : contents two_in ≡ 7 ∷ 8 ∷ []
unfolding run_at advance make ℕ_discrete diff_sign round_up_power_of_two smear
two_items = refl

abbrev popping_none : System ℕ
popping_none = runs 1 (call_pop begun)

Reach_refines_example :
    QueueStep (2 ^ 1) (queue_of third) (queue_of (run_thread 0 same false 0 third))
unfolding run_at advance make ℕ_discrete diff_sign round_up_power_of_two smear
Reach_refines_example =
    Reach_refines 0 same 1 two 2 round_up_2 third-Reach (run 0 false) (omega arith)

full_when_refused_example :
    ((first second : Bool)
      → (run_thread 0 same second 0 (run_thread 0 same first 0 third)).pc 0 ≡ enq_done false)
    × (2 ≡ third.claims)
    × ((length (contents third) ≡ 2 ^ 1)
        ⊎ ((sequence_of 0 same third.ring 2 + 2 ^ 1 ≡ 3) × (2 < third.takes + 2 ^ 1)))
unfolding run_at advance make ℕ_discrete diff_sign round_up_power_of_two smear
full_when_refused_example =
    full_when_refused 0 same 1 two 2 third round_up_2 third-Reach (omega arith) 0 9 2 refl
      (omega arith)

empty_when_refused_example :
    ((first second : Bool)
      → (run_thread 0 same second 0 (run_thread 0 same first 0 popping_none)).pc 0 ≡ deq_done none)
    × (0 ≡ popping_none.takes)
    × ((contents popping_none ≡ [])
        ⊎ ((sequence_of 0 same popping_none.ring 0 ≡ 0) × (0 < popping_none.claims)))
unfolding run_at advance make ℕ_discrete diff_sign round_up_power_of_two smear
empty_when_refused_example =
    empty_when_refused 0 same 1 two 2 popping_none round_up_2
      (Reach-runs 1 (call_pop begun) (later init (call_dequeue 0 refl))) (omega arith) 0 0 refl
      (omega arith)

Step-Inv_example : Inv 1 (run_thread 0 same false 0 third)
unfolding run_at advance make ℕ_discrete diff_sign round_up_power_of_two smear
Step-Inv_example =
    Step-Inv 0 same 1 two {s = third} (run 0 false) (omega arith)
      (Reach-Inv 0 same 1 two 2 round_up_2 third-Reach (omega arith))

round_up_least_example :
    (k : ℕ) × (round_up_power_of_two 100 ≡ 2 ^ k)
    × (1 ≤ k)
    × (k ≤ 63)
    × (max 100 2 ≤ 2 ^ k)
    × (2 ^ k < 2 * max 100 2)
round_up_least_example = round_up_least 100 (omega arith)

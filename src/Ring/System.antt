-- ===== src/Ring/System.antt =====
-- Any number of threads over one LockFreeRingBuffer, interleaved at every access to shared memory
-- (all accesses sequentially consistent). `history`, `claims` and `takes` are not in the program:
-- they record the value, and the number, of the successful exchanges.
use high_performance_logger.Common.{ℕ, ◌+◌, ◌-◌, Bool, true, false, List, ◌≡◌}
use high_performance_logger.Common.Family.{update, window}
use high_performance_logger.Ring.{
  Ring, Pc, idle, enq_begin, enq_test, enq_claimed, enq_done, deq_begin, deq_test, deq_claimed,
  deq_done, make, advance,
}

pub record System (V : Type 0) : Type 0 where
  pub ring : Ring V
  pub pc : ℕ → Pc V
  pub history : ℕ → V
  pub claims : ℕ
  pub takes : ℕ

-- What a step of one thread did to the queue as a whole.
pub data Event (V : Type 0) : Type 0 where
  quiet : Event V
  pushed : V → Event V
  popped : Event V

abbrev pub event : {V : Type 0} → Pc V → Pc V → Event V
event (enq_test _ _ _) (enq_claimed v _) = pushed v
event (deq_test _ _) (deq_claimed _) = popped
event _ _ = quiet

abbrev pub note : {V : Type 0} → Event V → System V → System V
note quiet s = s
note (pushed v) s = record s { history = update s.history s.claims v; claims = s.claims + 1 }
note popped s = record s { takes = s.takes + 1 }

-- The queue's content: what has been claimed by a producer and not by a consumer, oldest first.
abbrev pub contents : {V : Type 0} → System V → List V
contents s = window s.history s.takes (s.claims - s.takes)

-- The call has returned.
abbrev pub is_done : {V : Type 0} → Pc V → Bool
is_done (enq_done _) = true
is_done (deq_done _) = true
is_done _ = false

module _ {V : Type 0} (fresh : V) (moved_from : V → V) where
  -- A step of thread `i`, which stands at `p`.
  unfoldable pub run_at : Bool → ℕ → System V → Pc V → System V
  run_at spurious i s p =
      let (r, p') = advance fresh moved_from spurious s.ring p in
      note (event p p') (record s { ring = r; pc = update s.pc i p' })

  abbrev pub run_thread : Bool → ℕ → System V → System V
  run_thread spurious i s = run_at spurious i s (s.pc i)

  pub data Step (s : System V) : System V → Type 0 where
    call_enqueue :
        (i : ℕ) (v : V) → s.pc i ≡ idle → Step s (record s { pc = update s.pc i (enq_begin v) })
    call_dequeue : (i : ℕ) → s.pc i ≡ idle → Step s (record s { pc = update s.pc i deq_begin })
    collect : (i : ℕ) → is_done (s.pc i) ≡ true → Step s (record s { pc = update s.pc i idle })
    run : (i : ℕ) (spurious : Bool) → Step s (run_thread spurious i s)

  abbrev pub start : ℕ → System V
  start requested_capacity = record {
    ring = make fresh moved_from requested_capacity;
    pc = λ _. idle;
    history = λ _. fresh;
    claims = 0;
    takes = 0;
  }

  pub data Reach (requested_capacity : ℕ) : System V → Type 0 where
    init : Reach requested_capacity (start requested_capacity)
    later : {s t : System V} → Reach requested_capacity s → Step s t → Reach requested_capacity t

-- ===== src/Ring/Queue.antt =====
-- The specification of LockFreeRingBuffer: a bounded first-in first-out queue on which each call
-- takes effect at one instant between its start and its return.
use high_performance_logger.Common.{
  ℕ, ◌<◌, ◌≡◌, ◌≢◌, Bool, true, false, Option, none, some, List, [], ◌∷◌, ◌++◌, length,
}

-- A thread's call, as its caller sees it. `pushed` and `popped` hold the answer, which is settled
-- and may still have to be returned.
pub data Call (V : Type 0) : Type 0 where
  resting : Call V
  pushing : V → Call V
  pushed : Bool → Call V
  popping : Call V
  popped : Option V → Call V

pub record Queue (V : Type 0) : Type 0 where
  pub items : List V
  pub call : ℕ → Call V

-- The call of thread `i` becomes `c`, and no other changes.
pub record Turns {V : Type 0} (a b : Queue V) (i : ℕ) (c : Call V) : Type 0 where
  pub mine : b.call i ≡ c
  pub others : (j : ℕ) → i ≢ j → b.call j ≡ a.call j

module _ {V : Type 0} (bound : ℕ) (a b : Queue V) where
  abbrev pub Kept : Type 0
  Kept = b.items ≡ a.items

  pub data QueueStep : Type 0 where
    wait : Kept → ((j : ℕ) → b.call j ≡ a.call j) → QueueStep
    call_push : (i : ℕ) (v : V) → a.call i ≡ resting → Kept → Turns a b i (pushing v) → QueueStep
    call_pop : (i : ℕ) → a.call i ≡ resting → Kept → Turns a b i popping → QueueStep
    push :
        (i : ℕ) (v : V)
        → a.call i ≡ pushing v
        → length a.items < bound
        → b.items ≡ a.items ++ v ∷ []
        → Turns a b i (pushed true)
        → QueueStep
    refuse_push :
        (i : ℕ) (v : V) → a.call i ≡ pushing v → Kept → Turns a b i (pushed false) → QueueStep
    pop :
        (i : ℕ) (v : V)
        → a.call i ≡ popping
        → a.items ≡ v ∷ b.items
        → Turns a b i (popped (some v))
        → QueueStep
    refuse_pop : (i : ℕ) → a.call i ≡ popping → Kept → Turns a b i (popped none) → QueueStep
    finish_push : (i : ℕ) (r : Bool) → a.call i ≡ pushed r → Kept → Turns a b i resting → QueueStep
    finish_pop :
        (i : ℕ) (r : Option V) → a.call i ≡ popped r → Kept → Turns a b i resting → QueueStep

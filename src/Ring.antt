-- ===== src/Ring.antt =====
-- include/hlog/detail/lock_free_ring_buffer.h: the bounded queue of slots with sequence numbers,
-- and the steps of `TryEnqueue` and `TryDequeue`, one access to shared memory at a time.
pub mod Index
pub mod Capacity
pub mod System
pub mod Queue
pub mod Refine
pub mod Refuse
mod Tests
pub mod Invariant
use Prim.Native.Nat.{bit_and, bit_or}
use high_performance_logger.Common.{
  ℕ, ◌+◌, ◌-◌, ◌/◌, ◌^◌, Bool, true, false, not, ◌&&◌, Option, none, some, ltb, ◌==◌, if◌then◌else◌,
}
use high_performance_logger.Common.Word.{add64, sub64}
use high_performance_logger.Common.Int.{Sign, negative, nothing, positive, diff_sign}
use high_performance_logger.Common.Family.{update}

-- `normalized |= normalized >> k`
smear : ℕ → ℕ → ℕ
smear k n = bit_or n (n / 2 ^ k)

-- `sizeof(std::size_t)` is 8.
unfoldable pub round_up_power_of_two : ℕ → ℕ
unfolding smear
round_up_power_of_two value =
    let normalized = (if ltb value 2 then 2 else value) - 1 in
    add64 (smear 32 (smear 16 (smear 8 (smear 4 (smear 2 (smear 1 normalized)))))) 1

pub record Cell (V : Type 0) : Type 0 where
  pub sequence : ℕ
  pub value : V

-- `buffer` is the array of cells, of which those below `capacity` exist.
pub record Ring (V : Type 0) : Type 0 where
  pub capacity : ℕ
  pub mask : ℕ
  pub buffer : ℕ → Cell V
  pub enqueue_pos : ℕ
  pub dequeue_pos : ℕ

-- Where a thread stands in `TryEnqueue` or `TryDequeue`, with its live local variables.
pub data Pc (V : Type 0) : Type 0 where
  idle : Pc V
  enq_begin : V → Pc V  -- before the first load of `enqueue_pos_`
  enq_at : V → (position : ℕ) → Pc V  -- before the load of the cell's sequence
  enq_test : V → (position sequence : ℕ) → Pc V  -- before the test of `diff`
  enq_claimed : V → (position : ℕ) → Pc V  -- the exchange succeeded
  enq_stored : (position : ℕ) → Pc V  -- before the store of the sequence
  enq_done : Bool → Pc V
  deq_begin : Pc V
  deq_at : (position : ℕ) → Pc V
  deq_test : (position sequence : ℕ) → Pc V
  deq_claimed : (position : ℕ) → Pc V
  deq_moved : (position : ℕ) → V → Pc V
  deq_done : Option V → Pc V

-- `fresh` is `T value{}`, and `moved_from` what `std::move` leaves behind.
module _ {V : Type 0} (fresh : V) (moved_from : V → V) where
  unfoldable pub make : ℕ → Ring V
  make requested_capacity =
      let capacity = round_up_power_of_two requested_capacity in
      record {
        capacity = capacity;
        mask = capacity - 1;
        buffer = λ i. record { sequence = if ltb i capacity then i else 0; value = fresh };
        enqueue_pos = 0;
        dequeue_pos = 0;
      }

  abbrev pub index : Ring V → ℕ → ℕ
  index r position = bit_and position r.mask

  abbrev pub sequence_of : Ring V → ℕ → ℕ
  sequence_of r position = (r.buffer (index r position)).sequence

  abbrev pub value_of : Ring V → ℕ → V
  value_of r position = (r.buffer (index r position)).value

  abbrev pub store_value : Ring V → ℕ → V → Ring V
  store_value r position v = record r {
    buffer =
        update r.buffer (index r position)
          (record { sequence = sequence_of r position; value = v });
  }

  abbrev pub store_sequence : Ring V → ℕ → ℕ → Ring V
  store_sequence r position s = record r {
    buffer =
        update r.buffer (index r position) (record { sequence = s; value = value_of r position });
  }

  -- The body of the loop of `TryEnqueue` from the computation of `diff`. `spurious` says that a
  -- weak exchange fails though the position is the expected one.
  pub enqueue_test : Bool → Ring V → V → ℕ → Sign → Ring V × Pc V
  enqueue_test spurious r v position nothing =
      if not spurious && r.enqueue_pos == position
      then (record r { enqueue_pos = add64 position 1 }, enq_claimed v position)
      else (r, enq_at v r.enqueue_pos)
  enqueue_test spurious r v position negative = (r, enq_done false)
  enqueue_test spurious r v position positive = (r, enq_at v r.enqueue_pos)

  -- The same of `TryDequeue`.
  pub dequeue_test : Bool → Ring V → ℕ → Sign → Ring V × Pc V
  dequeue_test spurious r position nothing =
      if not spurious && r.dequeue_pos == position
      then (record r { dequeue_pos = add64 position 1 }, deq_claimed position)
      else (r, deq_at r.dequeue_pos)
  dequeue_test spurious r position negative = (r, deq_done none)
  dequeue_test spurious r position positive = (r, deq_at r.dequeue_pos)

  -- The next step of a thread at `pc`.
  unfoldable pub advance : Bool → Ring V → Pc V → Ring V × Pc V
  unfolding enqueue_test dequeue_test
  advance spurious r idle = (r, idle)
  advance spurious r (enq_begin v) = (r, enq_at v r.enqueue_pos)
  advance spurious r (enq_at v p) = (r, enq_test v p (sequence_of r p))
  advance spurious r (enq_test v p s) = enqueue_test spurious r v p (diff_sign s p)
  advance spurious r (enq_claimed v p) = (store_value r p v, enq_stored p)
  advance spurious r (enq_stored p) = (store_sequence r p (add64 p 1), enq_done true)
  advance spurious r (enq_done b) = (r, enq_done b)
  advance spurious r deq_begin = (r, deq_at r.dequeue_pos)
  advance spurious r (deq_at p) = (r, deq_test p (sequence_of r p))
  advance spurious r (deq_test p s) = dequeue_test spurious r p (diff_sign s (add64 p 1))
  advance spurious r (deq_claimed p) =
      (store_value r p (moved_from (value_of r p)), deq_moved p (value_of r p))
  advance spurious r (deq_moved p v) = (store_sequence r p (add64 p r.capacity), deq_done (some v))
  advance spurious r (deq_done o) = (r, deq_done o)

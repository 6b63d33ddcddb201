-- ===== src/Ring/Invariant/Defs.antt =====
-- What holds of the cells, the positions and every thread of a ring of `2 ^ k` cells. Positions are
-- plain numbers here: the words of the ring agree with them while they stay below 2 ^ 63.
use high_performance_logger.Common.{ℕ, ◌+◌, ◌^◌, ◌≤◌, ◌<◌, ◌≡◌, ◌⊎◌, Option, none, some}
use high_performance_logger.Ring.{
  Cell, Pc, enq_at, enq_test, enq_claimed, enq_stored, deq_at, deq_test, deq_claimed, deq_moved,
}
use high_performance_logger.Ring.Index.{slot}

-- The position whose cell a thread owns for writing, and for reading.
abbrev pub writes : {V : Type 0} → Pc V → Option ℕ
writes (enq_claimed _ p) = some p
writes (enq_stored p) = some p
writes _ = none

abbrev pub reads : {V : Type 0} → Pc V → Option ℕ
reads (deq_claimed p) = some p
reads (deq_moved p _) = some p
reads _ = none

-- The cells, the values claimed so far, and the two positions.
pub record View (V : Type 0) : Type 0 where
  pub cell : ℕ → Cell V
  pub history : ℕ → V
  pub tail : ℕ  -- `enqueue_pos_`
  pub head : ℕ  -- `dequeue_pos_`

module _ {V : Type 0} (k : ℕ) where
  abbrev pub seq : View V → ℕ → ℕ
  seq w p = (w.cell (slot k p)).sequence

  abbrev pub val : View V → ℕ → V
  val w p = (w.cell (slot k p)).value

  -- What the locals of a thread say of the shared state.
  abbrev pub Local : View V → Pc V → Type 0
  Local w (enq_at v p) = p ≤ w.tail
  Local w (enq_test v p s) =
      (p ≤ w.tail) × (s ≤ w.tail + 2 ^ k) × (s ≡ p → w.tail ≡ p → seq w p ≡ p)
  Local w (enq_claimed v p) =
      (p < w.tail) × (w.tail ≤ p + 2 ^ k) × (seq w p ≡ p) × (w.history p ≡ v)
  Local w (enq_stored p) =
      (p < w.tail) × (w.tail ≤ p + 2 ^ k) × (seq w p ≡ p) × (val w p ≡ w.history p)
  Local w (deq_at p) = p ≤ w.head
  Local w (deq_test p s) =
      (p ≤ w.head) × (s ≤ w.tail + 2 ^ k) × (s ≡ p + 1 → w.head ≡ p → seq w p ≡ p + 1)
  Local w (deq_claimed p) =
      (p < w.head) × (w.tail ≤ p + 2 ^ k) × (seq w p ≡ p + 1) × (val w p ≡ w.history p)
  Local w (deq_moved p v) =
      (p < w.head) × (w.tail ≤ p + 2 ^ k) × (seq w p ≡ p + 1) × (w.history p ≡ v)
  Local w _ = Unit

  -- The next position of a slot is `q`: its cell is free for `q`, or a producer of the position
  -- before has yet to publish, or that position is published and not yet released.
  abbrev pub Next : View V → ℕ → Type 0
  Next w q =
      ((seq w q ≡ q) × (q < w.head + 2 ^ k))
      ⊎ ((seq w q + 2 ^ k ≡ q) × (w.head + 2 ^ k ≤ q))
      ⊎ (seq w q + 2 ^ k ≡ q + 1)

  pub record Cells (w : View V) : Type 0 where
    pub order : w.head ≤ w.tail
    pub room : w.tail ≤ w.head + 2 ^ k
    pub small : (i : ℕ) → (w.cell i).sequence ≤ w.tail + 2 ^ k
    pub next : (q : ℕ) → w.tail ≤ q → q < w.tail + 2 ^ k → Next w q
    pub held : (p : ℕ) → w.head ≤ p → p < w.tail → seq w p ≡ p + 1 → val w p ≡ w.history p

  pub record Threads (w : View V) (pc : ℕ → Pc V) : Type 0 where
    pub local : (i : ℕ) → Local w (pc i)
    pub one_writer : (i j p : ℕ) → writes (pc i) ≡ some p → writes (pc j) ≡ some p → i ≡ j
    pub one_reader : (i j p : ℕ) → reads (pc i) ≡ some p → reads (pc j) ≡ some p → i ≡ j

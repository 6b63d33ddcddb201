-- ===== src/Ring/Invariant/Others.antt =====
-- What a change of the shared state leaves true of the cells and of the threads that did not make
-- it, for each of the six changes.
use high_performance_logger.Common.{ℕ, ◌+◌, ◌^◌, ◌≤◌, ◌<◌, ◌≡◌, ◌≢◌, arith, some, dec_lt}
use high_performance_logger.Common.Family.{update}
use high_performance_logger.Ring.{
  Pc, enq_at, enq_test, enq_claimed, enq_stored, deq_at, deq_test, deq_claimed, deq_moved,
}
use high_performance_logger.Ring.Index.{slot, slot-injective, slot-round}
use high_performance_logger.Ring.Invariant.Defs.{View, seq, val, writes, reads, Local, Cells}

module _ {V : Type 0} (k : ℕ) (two : 2 ≤ 2 ^ k) (w : View V) (cells : Cells k w) where
  open cells use {order, room, small, next, held}

  abbrev pub put : ℕ → ℕ → V → View V
  put p s v = record w { cell = update w.cell (slot k p) (record { sequence = s; value = v }) }

  -- A producer claims the position `tail`.
  module _ (free : seq k w w.tail ≡ w.tail) (v : V) where
    abbrev pub claimed : View V
    claimed = record w { history = update w.history w.tail v; tail = w.tail + 1 }

    pub claimed-Cells : Cells k claimed
    claimed-Cells = record {
      order = omega arith;
      room = ground (arith, next w.tail);
      small = λ i. omega (arith, small i);
      next = λ q a b. elim (dec_lt q (w.tail + 2 ^ k)) [
        | yes l ↦ ground (arith, next q)
        | no m ↦ ground (arith, slot-round k w.tail)
      ];
      held = λ p a b e. ground (arith, held p);
    }

    pub claimed-Local : (q : Pc V) → Local k w q → Local k claimed q
    claimed-Local (enq_at x p) h = omega arith
    claimed-Local (enq_test x p s) h = ground arith
    claimed-Local (enq_claimed x p) h = ground (arith, slot-round k p)
    claimed-Local (enq_stored p) h = ground (arith, slot-round k p)
    claimed-Local (deq_test p s) h = omega arith
    claimed-Local (deq_claimed p) h = ground (arith, slot-round k p)
    claimed-Local (deq_moved p x) h = ground (arith, slot-round k p)
    claimed-Local (deq_at p) h = h
    claimed-Local _ h = tt

  -- A consumer claims the position `head`.
  module _ (ready : seq k w w.head ≡ w.head + 1) where
    abbrev pub taken : View V
    taken = record w { head = w.head + 1 }

    pub head-lt-tail : w.head < w.tail
    head-lt-tail = ground (arith, next w.tail)

    pub taken-Cells : Cells k taken
    taken-Cells = record {
      order = omega (arith, head-lt-tail);
      room = omega arith;
      small = λ i. omega (arith, small i);
      next = λ q a b. ground (arith, next q, slot-round k w.head);
      held = λ p a b e. held p (omega arith) b e;
    }

    pub taken-Local : (q : Pc V) → Local k w q → Local k taken q
    taken-Local (enq_at x p) h = h
    taken-Local (enq_test x p s) h = h
    taken-Local (enq_claimed x p) h = h
    taken-Local (enq_stored p) h = h
    taken-Local (deq_at p) h = omega arith
    taken-Local (deq_test p s) h = ground arith
    taken-Local (deq_claimed p) h = ground arith
    taken-Local (deq_moved p x) h = ground arith
    taken-Local _ h = tt

  -- The producer of `p` stores the value `v`.
  module _ (p : ℕ) (v : V) (below : p < w.tail) (recent : w.tail ≤ p + 2 ^ k)
      (mine : seq k w p ≡ p) where
    abbrev pub filled : View V
    filled = put p p v

    pub filled-Cells : Cells k filled
    filled-Cells = record {
      order = order;
      room = room;
      small = λ i. ground (arith, small i);
      next = λ q a b. ground (arith, next q);
      held = λ q a b e. ground (arith, held q, slot-injective k p q);
    }

    pub filled-Local : (q : Pc V) → Local k w q → writes q ≢ some p → Local k filled q
    filled-Local (enq_at x q) h d = h
    filled-Local (enq_test x q s) h d = ground arith
    filled-Local (enq_claimed x q) h d = ground arith
    filled-Local (enq_stored q) h d = ground arith
    filled-Local (deq_at q) h d = h
    filled-Local (deq_test q s) h d = ground arith
    filled-Local (deq_claimed q) h d = ground (arith, slot-injective k p q)
    filled-Local (deq_moved q x) h d = ground arith
    filled-Local _ h d = tt

    -- It publishes the position.
    abbrev pub published : View V
    published = put p (p + 1) (val k w p)

    module _ (stored : val k w p ≡ w.history p) where
      pub published-Cells : Cells k published
      published-Cells = record {
        order = order;
        room = room;
        small = λ i. ground (arith, small i);
        next = λ q a b. ground (arith, next q, slot-round k p, slot-injective k q (p + 2 ^ k));
        held = λ q a b e. ground (arith, held q, slot-injective k p q);
      }

    pub published-Local : (q : Pc V) → Local k w q → writes q ≢ some p → Local k published q
    published-Local (enq_at x q) h d = h
    published-Local (enq_test x q s) h d = ground arith
    published-Local (enq_claimed x q) h d = ground arith
    published-Local (enq_stored q) h d = ground arith
    published-Local (deq_at q) h d = h
    published-Local (deq_test q s) h d = ground (arith, slot-injective k p q)
    published-Local (deq_claimed q) h d = ground (arith, slot-injective k p q)
    published-Local (deq_moved q x) h d = ground (arith, slot-injective k p q)
    published-Local _ h d = tt

  -- The consumer of `p` moves the value out and leaves `v`.
  module _ (p : ℕ) (v : V) (below : p < w.head) (recent : w.tail ≤ p + 2 ^ k)
      (mine : seq k w p ≡ p + 1) where
    abbrev pub emptied : View V
    emptied = put p (p + 1) v

    pub emptied-Cells : Cells k emptied
    emptied-Cells = record {
      order = order;
      room = room;
      small = λ i. ground (arith, small i);
      next = λ q a b. ground (arith, next q);
      held = λ q a b e. ground (arith, held q);
    }

    pub emptied-Local : (q : Pc V) → Local k w q → reads q ≢ some p → Local k emptied q
    emptied-Local (enq_at x q) h d = h
    emptied-Local (enq_test x q s) h d = ground arith
    emptied-Local (enq_claimed x q) h d = ground arith
    emptied-Local (enq_stored q) h d = ground (arith, slot-injective k p q)
    emptied-Local (deq_at q) h d = h
    emptied-Local (deq_test q s) h d = ground arith
    emptied-Local (deq_claimed q) h d = ground arith
    emptied-Local (deq_moved q x) h d = ground arith
    emptied-Local _ h d = tt

    -- It releases the cell for the next round.
    abbrev pub released : View V
    released = put p (p + 2 ^ k) (val k w p)

    pub released-Cells : Cells k released
    released-Cells = record {
      order = order;
      room = room;
      small = λ i. ground (arith, small i);
      next = λ q a b. ground (arith, next q, slot-round k p, slot-injective k q (p + 2 ^ k));
      held = λ q a b e. ground (arith, held q, slot-injective k p q);
    }

    pub released-Local : (q : Pc V) → Local k w q → reads q ≢ some p → Local k released q
    released-Local (enq_at x q) h d = h
    released-Local (enq_test x q s) h d = ground (arith, slot-injective k p q)
    released-Local (enq_claimed x q) h d = ground (arith, slot-injective k p q)
    released-Local (enq_stored q) h d = ground (arith, slot-injective k p q)
    released-Local (deq_at q) h d = h
    released-Local (deq_test q s) h d = ground arith
    released-Local (deq_claimed q) h d = ground arith
    released-Local (deq_moved q x) h d = ground arith
    released-Local _ h d = tt

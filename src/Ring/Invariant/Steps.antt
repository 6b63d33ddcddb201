-- ===== src/Ring/Invariant/Steps.antt =====
-- Every step of a thread keeps the invariant of the ring.
use high_performance_logger.Common.{
  ℕ, ◌+◌, ◌-◌, ◌^◌, ◌≤◌, ◌<◌, ◌≡◌, ◌≢◌, arith, none, some, sym, ◌∙◌, ap, Bool, ℕ_discrete, refl,
  inl, inr, ◌&&◌, ◌==◌, not, Bool-cases, true, false,
}
use Prim.Native.Nat.{bit_and}
use mathlib.Core.Path.{subst}
use mathlib.Core.Option.{some-injective}
use mathlib.Core.Logic.{ite}
use high_performance_logger.Common.Word.{add64}
use high_performance_logger.Common.Int.{diff_sign-cases}
use high_performance_logger.Common.Family.{update}
use high_performance_logger.Ring.{
  Cell, Pc, idle, enq_begin, enq_at, enq_test, enq_claimed, enq_stored, enq_done, deq_begin, deq_at,
  deq_test, deq_claimed, deq_moved, deq_done, advance, enqueue_test, dequeue_test, store_value,
  store_sequence, value_of,
}
use high_performance_logger.Ring.System.{System, run_at}
use high_performance_logger.Ring.Index.{slot}
use high_performance_logger.Ring.Invariant.Defs.{
  View, seq, val, writes, reads, Local, Cells, Threads,
}
use high_performance_logger.Ring.Invariant.Others.{
  claimed, claimed-Cells, claimed-Local, taken, head-lt-tail, taken-Cells, taken-Local, filled,
  filled-Cells, filled-Local, published, published-Cells, published-Local, emptied, emptied-Cells,
  emptied-Local, released, released-Cells, released-Local,
}

abbrev pub view : {V : Type 0} → System V → View V
view s = record { cell = s.ring.buffer; history = s.history; tail = s.claims; head = s.takes }

pub record Inv {V : Type 0} (k : ℕ) (s : System V) : Type 0 where
  pub capacity_is : s.ring.capacity ≡ 2 ^ k
  pub mask_is : s.ring.mask ≡ 2 ^ k - 1
  pub tail_is : s.ring.enqueue_pos ≡ s.claims
  pub head_is : s.ring.dequeue_pos ≡ s.takes
  pub cells : Cells k (view s)
  pub threads : Threads k (view s) s.pc

-- Thread `i` moves to `p`, and the shared state from `w` to `w'`.
Threads-step :
    {V : Type 0} (k : ℕ) (w w' : View V) (pc : ℕ → Pc V) (i : ℕ) (p : Pc V)
    → Threads k w pc
    → Local k w' p
    → ((j : ℕ) → i ≢ j → Local k w' (pc j))
    → ((j x : ℕ) → i ≢ j → writes p ≡ some x → writes (pc j) ≢ some x)
    → ((j x : ℕ) → i ≢ j → reads p ≡ some x → reads (pc j) ≢ some x)
    → Threads k w' (update pc i p)
Threads-step k w w' pc i p t mine others ws rs = record {
  local = λ j. elim (ℕ_discrete i j) as (λ d. Local k w' (ite d p (pc j))) [
    | yes e ↦ mine
    | no n ↦ others j n
  ];
  one_writer = λ a b x e f. ground (arith, t.one_writer a b x, ws a x, ws b x);
  one_reader = λ a b x e f. ground (arith, t.one_reader a b x, rs a x, rs b x);
}

module _ {V : Type 0} (fresh : V) (moved_from : V → V) (k : ℕ) (two : 2 ≤ 2 ^ k) (s : System V)
    (i : ℕ) (inv : Inv k s) where
  abbrev pub w : View V
  w = view s

  -- A step that changes no shared state.
  pub quiet_step :
      (p p' : Pc V)
      → s.pc i ≡ p
      → Local k (view s) p'
      → writes p' ≡ none
      → reads p' ≡ none
      → Inv k (record s { pc = update s.pc i p' })
  quiet_step p p' e l a b = record {
    capacity_is = inv.capacity_is;
    mask_is = inv.mask_is;
    tail_is = inv.tail_is;
    head_is = inv.head_is;
    cells = inv.cells;
    threads =
        Threads-step k (view s) (view s) s.pc i p' inv.threads l (λ j n. inv.threads.local j)
          (λ j x n f. cc) (λ j x n f. cc);
  }

  -- A step that writes one cell.
  cell_step :
      (b : ℕ → Cell V) (w' : View V) (p' : Pc V)
      → record w { cell = b } ≡ w'
      → Cells k w'
      → Threads k w' (update s.pc i p')
      → Inv k (record s { ring = record s.ring { buffer = b }; pc = update s.pc i p' })
  cell_step b w' p' e c t = record {
    capacity_is = inv.capacity_is;
    mask_is = inv.mask_is;
    tail_is = inv.tail_is;
    head_is = inv.head_is;
    cells = subst (Cells k) (sym e) c;
    threads = subst (λ x. Threads k x (update s.pc i p')) (sym e) t;
  }

  -- What `store_value` and `store_sequence` write is what `put` writes.
  put_path :
      (p : ℕ) {a b : ℕ} {u v : V}
      → a ≡ b
      → u ≡ v
      → record w {
        cell = update s.ring.buffer (bit_and p s.ring.mask) (record { sequence = a; value = u });
      }
        ≡ record w { cell = update w.cell (slot k p) (record { sequence = b; value = v }) }
  put_path p f g = λ j. record w {
    cell =
        update s.ring.buffer (bit_and p (inv.mask_is j)) (record { sequence = f j; value = g j });
  }

  pub at_mask : (p : ℕ) → s.ring.buffer (bit_and p s.ring.mask) ≡ w.cell (slot k p)
  at_mask p = ap (λ m. s.ring.buffer (bit_and p m)) inv.mask_is

  pub local_at : {p : Pc V} → s.pc i ≡ p → Local k w p
  local_at e = subst (Local k w) e (inv.threads.local i)

  -- Another thread owns another cell.
  not_mine :
      {p : Pc V} (x : ℕ)
      → s.pc i ≡ p
      → writes p ≡ some x
      → (j : ℕ) → i ≢ j
      → writes (s.pc j) ≢ some x
  not_mine {p} x e h j n f = n (inv.threads.one_writer i j x (ap writes e ∙ h) f)

  not_read :
      {p : Pc V} (x : ℕ) → s.pc i ≡ p → reads p ≡ some x → (j : ℕ) → i ≢ j → reads (s.pc j) ≢ some x
  not_read {p} x e h j n f = n (inv.threads.one_reader i j x (ap reads e ∙ h) f)

  fill_step :
      (v : V) (p : ℕ)
      → s.pc i ≡ enq_claimed v p
      → Inv k (record s {
        ring = store_value fresh moved_from s.ring p v;
        pc = update s.pc i (enq_stored p);
      })
  fill_step v p e =
      let l = local_at e in
      cell_step _ (filled k two w inv.cells p v l.0 l.1 l.2) (enq_stored p)
        (put_path p (ap (λ (c : Cell V). c.sequence) (at_mask p) ∙ l.2) refl)
        (filled-Cells k two w inv.cells p v l.0 l.1 l.2)
        (Threads-step k w _ s.pc i (enq_stored p) inv.threads (ground arith)
          (λ j n.
            filled-Local k two w inv.cells p v l.0 l.1 l.2 (s.pc j) (inv.threads.local j)
              (not_mine p e refl j n))
          (λ j x n h. not_mine x e h j n) (λ j x n h. cc))

  publish_step :
      (p : ℕ)
      → s.pc i ≡ enq_stored p
      → add64 p 1 ≡ p + 1
      → Inv k (record s {
        ring = store_sequence fresh moved_from s.ring p (add64 p 1);
        pc = update s.pc i (enq_done true);
      })
  publish_step p e fits =
      let l = local_at e in
      cell_step _ (published k two w inv.cells p fresh l.0 l.1 l.2) (enq_done true)
        (put_path p fits (ap (λ (c : Cell V). c.value) (at_mask p)))
        (published-Cells k two w inv.cells p fresh l.0 l.1 l.2 l.3)
        (Threads-step k w _ s.pc i (enq_done true) inv.threads tt
          (λ j n.
            published-Local k two w inv.cells p fresh l.0 l.1 l.2 (s.pc j) (inv.threads.local j)
              (not_mine p e refl j n))
          (λ j x n h. cc) (λ j x n h. cc))

  empty_step :
      (p : ℕ) (v : V)
      → s.pc i ≡ deq_claimed p
      → Inv k (record s {
        ring = store_value fresh moved_from s.ring p v;
        pc = update s.pc i (deq_moved p (value_of fresh moved_from s.ring p));
      })
  empty_step p v e =
      let l = local_at e in
      let u = value_of fresh moved_from s.ring p in
      let same : u ≡ val k w p = ap (λ (c : Cell V). c.value) (at_mask p) in
      cell_step _ (emptied k two w inv.cells p v l.0 l.1 l.2) (deq_moved p u)
        (put_path p (ap (λ (c : Cell V). c.sequence) (at_mask p) ∙ l.2) refl)
        (emptied-Cells k two w inv.cells p v l.0 l.1 l.2)
        (Threads-step k w _ s.pc i (deq_moved p u) inv.threads
          (l.0, l.1, ground arith, sym (same ∙ l.3))
          (λ j n.
            emptied-Local k two w inv.cells p v l.0 l.1 l.2 (s.pc j) (inv.threads.local j)
              (not_read p e refl j n))
          (λ j x n h. cc) (λ j x n h. not_read x e h j n))

  release_step :
      (p : ℕ) (v : V)
      → s.pc i ≡ deq_moved p v
      → add64 p s.ring.capacity ≡ p + 2 ^ k
      → Inv k (record s {
        ring = store_sequence fresh moved_from s.ring p (add64 p s.ring.capacity);
        pc = update s.pc i (deq_done (some v));
      })
  release_step p v e fits =
      let l = local_at e in
      cell_step _ (released k two w inv.cells p v l.0 l.1 l.2) (deq_done (some v))
        (put_path p fits (ap (λ (c : Cell V). c.value) (at_mask p)))
        (released-Cells k two w inv.cells p v l.0 l.1 l.2)
        (Threads-step k w _ s.pc i (deq_done (some v)) inv.threads tt
          (λ j n.
            released-Local k two w inv.cells p v l.0 l.1 l.2 (s.pc j) (inv.threads.local j)
              (not_read p e refl j n))
          (λ j x n h. cc) (λ j x n h. cc))

  writes_below : (j x : ℕ) → writes (s.pc j) ≡ some x → x < s.claims
  writes_below j x h = ground (arith, inv.threads.local j)

  reads_below : (j x : ℕ) → reads (s.pc j) ≡ some x → x < s.takes
  reads_below j x h = ground (arith, inv.threads.local j)

  claim_step :
      (v : V) (p : ℕ)
      → s.claims ≡ p
      → seq k w p ≡ p
      → add64 p 1 ≡ p + 1
      → Inv k (record s {
        ring = record s.ring { enqueue_pos = add64 p 1 };
        pc = update s.pc i (enq_claimed v p);
        history = update s.history s.claims v;
        claims = s.claims + 1;
      })
  claim_step v p e free fits =
      let f : seq k w w.tail ≡ w.tail = rw e free in
      record {
        capacity_is = inv.capacity_is;
        mask_is = inv.mask_is;
        tail_is = omega arith;
        head_is = inv.head_is;
        cells = claimed-Cells k two w inv.cells f v;
        threads =
            Threads-step k w (claimed k two w inv.cells f v) s.pc i (enq_claimed v p) inv.threads
              (omega arith, omega arith, free, ground arith)
              (λ j n. claimed-Local k two w inv.cells f v (s.pc j) (inv.threads.local j))
              (λ j x n h g. omega (arith, writes_below j x g, some-injective p x h))
              (λ j x n h. cc);
      }

  take_step :
      (p : ℕ)
      → s.takes ≡ p
      → seq k w p ≡ p + 1
      → add64 p 1 ≡ p + 1
      → Inv k (record s {
        ring = record s.ring { dequeue_pos = add64 p 1 };
        pc = update s.pc i (deq_claimed p);
        takes = s.takes + 1;
      })
  take_step p e ready fits =
      let f : seq k w w.head ≡ w.head + 1 = rw e ready in
      let below = head-lt-tail k two w inv.cells f in
      record {
        capacity_is = inv.capacity_is;
        mask_is = inv.mask_is;
        tail_is = inv.tail_is;
        head_is = omega arith;
        cells = taken-Cells k two w inv.cells f;
        threads =
            Threads-step k w (taken k two w inv.cells f) s.pc i (deq_claimed p) inv.threads
              (
                omega arith,
                omega (arith, inv.cells.room),
                ready,
                inv.cells.held p (omega arith) (omega arith) ready,
              )
              (λ j n. taken-Local k two w inv.cells f (s.pc j) (inv.threads.local j))
              (λ j x n h. cc) (λ j x n h g. omega (arith, reads_below j x g, some-injective p x h));
      }

  module _ (fits : s.claims + 1 + 2 ^ k < 2 ^ 63) where
    add_one : (p : ℕ) → p ≤ s.claims → add64 p 1 ≡ p + 1
    add_one p h = omega arith

    add_round : (p : ℕ) → p ≤ s.claims → add64 p s.ring.capacity ≡ p + 2 ^ k
    add_round p h = omega (arith, inv.capacity_is)

    enqueue_test_step :
        (sp : Bool) (v : V) (p q : ℕ)
        → s.pc i ≡ enq_test v p q
        → Inv k (run_at fresh moved_from sp i s (enq_test v p q))
    unfolding run_at advance enqueue_test
    enqueue_test_step sp v p q e =
        let l = local_at e in
        elim (diff_sign-cases q p (omega arith) (omega arith)) [
          | inl (same, d) ↦ elim (Bool-cases (not sp && s.ring.enqueue_pos == p)) [
            | inl won ↦
                rw (d, won)
                  (claim_step v p (ground (arith, inv.tail_is))
                    (l.2 same (ground (arith, inv.tail_is))) (add_one p (omega arith)))
            | inr lost ↦
                rw (d, lost)
                  (quiet_step (enq_test v p q) (enq_at v s.ring.enqueue_pos) e
                    (omega (arith, inv.tail_is)) refl refl)
          ]
          | inr (inl (less, d)) ↦ rw d (quiet_step (enq_test v p q) (enq_done false) e tt refl refl)
          | inr (inr (more, d)) ↦ rw d (
              quiet_step (enq_test v p q) (enq_at v s.ring.enqueue_pos) e
                (omega (arith, inv.tail_is)) refl refl)
        ]

    dequeue_test_step :
        (sp : Bool) (p q : ℕ)
        → s.pc i ≡ deq_test p q
        → Inv k (run_at fresh moved_from sp i s (deq_test p q))
    unfolding run_at advance dequeue_test
    dequeue_test_step sp p q e =
        let l = local_at e in
        let h : p ≤ s.claims = omega (arith, inv.cells.order) in
        let one_more = add_one p h in
        elim (diff_sign-cases q (add64 p 1) (omega arith) (omega arith)) [
          | inl (same, d) ↦ elim (Bool-cases (not sp && s.ring.dequeue_pos == p)) [
            | inl won ↦
                rw (d, won)
                  (take_step p (ground (arith, inv.head_is))
                    (l.2 (same ∙ one_more) (ground (arith, inv.head_is))) one_more)
            | inr lost ↦
                rw (d, lost)
                  (quiet_step (deq_test p q) (deq_at s.ring.dequeue_pos) e
                    (omega (arith, inv.head_is)) refl refl)
          ]
          | inr (inl (less, d)) ↦ rw d (quiet_step (deq_test p q) (deq_done none) e tt refl refl)
          | inr (inr (more, d)) ↦ rw d (
              quiet_step (deq_test p q) (deq_at s.ring.dequeue_pos) e (omega (arith, inv.head_is))
                refl refl)
        ]

    pub run_at-Inv : (sp : Bool) (p : Pc V) → s.pc i ≡ p → Inv k (run_at fresh moved_from sp i s p)
    unfolding run_at advance
    run_at-Inv sp idle e = quiet_step idle idle e tt refl refl
    run_at-Inv sp (enq_begin v) e =
        quiet_step (enq_begin v) _ e (omega (arith, inv.tail_is)) refl refl
    run_at-Inv sp (enq_at v p) e =
        let l = local_at e in
        quiet_step (enq_at v p) _ e
          (l, inv.cells.small _, λ a b. ap (λ (c : Cell V). c.sequence) (sym (at_mask p)) ∙ a) refl
          refl
    run_at-Inv sp (enq_test v p q) e = enqueue_test_step sp v p q e
    run_at-Inv sp (enq_claimed v p) e = fill_step v p e
    run_at-Inv sp (enq_stored p) e = publish_step p e (add_one p (omega (arith, local_at e)))
    run_at-Inv sp (enq_done b) e = quiet_step (enq_done b) _ e tt refl refl
    run_at-Inv sp deq_begin e = quiet_step deq_begin _ e (omega (arith, inv.head_is)) refl refl
    run_at-Inv sp (deq_at p) e =
        let l = local_at e in
        quiet_step (deq_at p) _ e
          (l, inv.cells.small _, λ a b. ap (λ (c : Cell V). c.sequence) (sym (at_mask p)) ∙ a) refl
          refl
    run_at-Inv sp (deq_test p q) e = dequeue_test_step sp p q e
    run_at-Inv sp (deq_claimed p) e = empty_step p _ e
    run_at-Inv sp (deq_moved p v) e =
        release_step p v e (add_round p (omega (arith, inv.cells.order, local_at e)))
    run_at-Inv sp (deq_done o) e = quiet_step (deq_done o) _ e tt refl refl

-- ===== src/Logger/Machine/Flush/Grow.antt =====
-- What is known of the tickets stays true while the view grows.
use high_performance_logger.Common.{
  ℕ, suc, ◌+◌, ◌≤◌, ◌≡◌, ◌⊎◌, inl, inr, true, List, [], ◌∷◌, ◌++◌, length, refl, arith,
}
use mathlib.Core.Path.{subst}
use high_performance_logger.Message.{QueueItemType, log, flush, QueueItem}
use high_performance_logger.Logger.Machine.{Outcome, Pc, WorkerPc}
use high_performance_logger.Logger.Machine.Flush.Defs.{
  View, PlacedAt, Placed, Ticketed, Ended, Local, WorkerLocal, Grows,
}

pub Grows-refl : (v : View) → Grows v v
Grows-refl v = record {
  request = omega arith;
  claims = omega arith;
  synced = omega arith;
  failed = λ e. e;
  mark = λ t h. refl;
}

module _ (v w : View) (g : Grows v w) where
  PlacedAt-Grows : (at : ℕ) (k : QueueItemType) (t : ℕ) → PlacedAt v at k t → PlacedAt w at k t
  PlacedAt-Grows at log t h = tt
  PlacedAt-Grows at flush t h = omega (arith, g.request, g.mark t, h)

  pub Placed-Grows : (at : ℕ) (items : List QueueItem) → Placed v at items → Placed w at items
  Placed-Grows at [] h = tt
  Placed-Grows at (item ∷ items) (h, rest) =
      (PlacedAt-Grows at item.type item.ticket h, Placed-Grows (suc at) items rest)

  Ticketed-Grows : (k : QueueItemType) (t : ℕ) → Ticketed v k t → Ticketed w k t
  Ticketed-Grows log t h = tt
  Ticketed-Grows flush t h = omega (arith, g.request, h)

  Ended-Grows : (o : Outcome) → Ended v o → Ended w o
  Ended-Grows (Outcome.flushed t) (h, m) =
      (omega (arith, g.request), omega (arith, g.mark t h, g.synced, m))
  Ended-Grows Outcome.refused h = tt
  Ended-Grows (Outcome.logged item) h = tt
  Ended-Grows Outcome.stopped h = tt

  pub reached-Grows :
      (t : ℕ)
      → t ≤ v.request
      → (v.failed ≡ true) ⊎ (v.mark t ≤ v.synced)
      → (w.failed ≡ true) ⊎ (w.mark t ≤ w.synced)
  reached-Grows t h (inl e) = inl (g.failed e)
  reached-Grows t h (inr m) = inr (omega (arith, g.mark t h, g.synced, m))

  pub Local-Grows : (p : Pc) → Local v p → Local w p
  Local-Grows (Pc.publish_failure item) h = Ticketed-Grows item.type item.ticket h
  Local-Grows (Pc.publish_enqueue item) h = Ticketed-Grows item.type item.ticket h
  Local-Grows (Pc.publish_notify item) h = Ticketed-Grows item.type item.ticket h
  Local-Grows (Pc.wait_load t) h = omega (arith, g.request, h)
  Local-Grows (Pc.wait_failure t c) h = omega (arith, g.request, h)
  Local-Grows (Pc.wait_asleep t c) h = omega (arith, g.request, h)
  Local-Grows (Pc.wait_last t) (h, r) = (omega (arith, g.request, h), reached-Grows t h r)
  Local-Grows (Pc.finish o) h = Ended-Grows o h
  Local-Grows (Pc.finish_notify o) h = Ended-Grows o h
  Local-Grows (Pc.returned o) h = Ended-Grows o h
  Local-Grows p h = h

  pub WorkerLocal-Grows :
      (takes handled : ℕ) (p : WorkerPc)
      → WorkerLocal v takes handled p
      → WorkerLocal w takes handled p
  WorkerLocal-Grows takes handled (WorkerPc.handling again required item) (h, placed) =
      (h, PlacedAt-Grows handled item.type item.ticket placed)
  WorkerLocal-Grows takes handled (WorkerPc.completing again required t) (h, k, m) =
      (h, omega (arith, g.request, k), omega (arith, g.mark t k, g.synced, m))
  WorkerLocal-Grows takes handled WorkerPc.fail_ticket h = g.failed h
  WorkerLocal-Grows takes handled (WorkerPc.fail_complete t) (h, k) =
      (g.failed h, omega (arith, g.request, k))
  WorkerLocal-Grows takes handled WorkerPc.fail_notify h = g.failed h
  WorkerLocal-Grows takes handled p h = h

-- An item behind the others.
pub Placed-append :
    (v : View) (at : ℕ) (items : List QueueItem) (item : QueueItem)
    → Placed v at items
    → PlacedAt v (at + length items) item.type item.ticket
    → Placed v at (items ++ item ∷ [])
Placed-append v at [] item h k =
    (subst (λ n. PlacedAt v n item.type item.ticket) (omega arith) k, tt)
Placed-append v at (x ∷ items) item (h, rest) k = (
  h,
  Placed-append v (suc at) items item rest
      (subst (λ n. PlacedAt v n item.type item.ticket) (omega arith) k),
)

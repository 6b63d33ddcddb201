-- ===== src/Logger/Machine/Pending/Counts.antt =====
-- The messages that are counted and not written: on their way in, and in the worker's hand.
use high_performance_logger.Common.{
  ℕ, zero, suc, ◌+◌, ◌≤◌, ◌≡◌, refl, ap, some, List, [], ◌∷◌, ◌++◌, get_elem?, set, replicate,
  arith,
}
use high_performance_logger.Message.{QueueItemType, log, flush, QueueItem}
use high_performance_logger.Logger.Worker.Laws.{logs}
use high_performance_logger.Logger.Machine.{Pc, WorkerPc, Note}
use high_performance_logger.Logger.Machine.System.{woken}

-- One for a message, nothing for a flush item.
abbrev pub weight : QueueItem → ℕ
weight item = elim item.type [ log ↦ 1 | flush ↦ 0 ]

abbrev pub typed : QueueItemType → QueueItem → QueueItem
typed t item = record item { type = t }

-- A message that is counted and neither in the queue nor taken out of the count: on its way in.
abbrev pub coming : Pc → ℕ
coming (Pc.publish_failure item) = weight item
coming (Pc.publish_enqueue item) = weight item
coming (Pc.uncount item) = 1
coming (Pc.count_dropped item) = 1
coming p = 0

abbrev pub count_coming : List Pc → ℕ
count_coming [] = 0
count_coming (p ∷ ps) = coming p + count_coming ps

-- The message that the worker has taken and not counted as written.
abbrev pub in_hand : WorkerPc → ℕ
in_hand (WorkerPc.handling again required item) = weight item
in_hand (WorkerPc.counting again required item) = 1
in_hand w = 0

pub count_coming-set :
    (ps : List Pc) (i : ℕ) (p q : Pc)
    → get_elem? ps i ≡ some p
    → count_coming (set ps i q) + coming p ≡ count_coming ps + coming q
count_coming-set [] i p q h = absurd cc
count_coming-set (x ∷ ps) zero p q h = let e : x ≡ p = cc in omega (arith, ap coming e)
count_coming-set (x ∷ ps) (suc i) p q h = omega (arith, count_coming-set ps i p q h)

pub coming_small :
    (ps : List Pc) (i : ℕ) (p : Pc) → get_elem? ps i ≡ some p → coming p ≤ count_coming ps
coming_small [] i p h = absurd cc
coming_small (x ∷ ps) zero p h = let e : x ≡ p = cc in omega (arith, ap coming e)
coming_small (x ∷ ps) (suc i) p h = omega (arith, coming_small ps i p h)

pub count_coming-replicate : (n : ℕ) → count_coming (replicate n Pc.idle) ≡ 0
count_coming-replicate zero = refl
count_coming-replicate (suc n) = omega (arith, count_coming-replicate n)

pub in_hand-woken : (n : Note) (w : WorkerPc) → in_hand (woken n w) ≡ in_hand w
in_hand-woken Note.notified (WorkerPc.blocked signal) = refl
in_hand-woken n w = refl

pub logs-cons :
    (item : QueueItem) (items : List QueueItem) → logs (item ∷ items) ≡ weight item + logs items
logs-cons item items =
    elim item.type as (λ t. logs (typed t item ∷ items) ≡ weight (typed t item) + logs items) [
      | log ↦ refl
      | flush ↦ omega arith
    ]

pub logs-append :
    (items : List QueueItem) (item : QueueItem)
    → logs (items ++ item ∷ []) ≡ logs items + weight item
logs-append [] item = omega (arith, logs-cons item [])
logs-append (first ∷ items) item =
    omega
      (arith, logs-cons first (items ++ item ∷ []), logs-cons first items, logs-append items item)

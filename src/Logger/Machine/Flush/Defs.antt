-- ===== src/Logger/Machine/Flush/Defs.antt =====
-- What holds of the flush tickets of a logger between two steps.
use high_performance_logger.Common.{
  ℕ, suc, ◌+◌, ◌≤◌, ◌≡◌, ◌⊎◌, Bool, true, List, [], ◌∷◌, length, get_elem?, some,
}
use high_performance_logger.Message.{QueueItemType, log, flush, QueueItem}
use high_performance_logger.Logger.Worker.{AsyncLogger}
use high_performance_logger.Logger.Machine.{Outcome, flushed, Pc, WorkerPc}
use high_performance_logger.Logger.Machine.System.{Ghosts, System}

-- What the threads' knowledge of their tickets rests on.
pub record View : Type 0 where
  pub request : ℕ
  pub failed : Bool
  pub claims : ℕ
  pub synced : ℕ
  pub mark : ℕ → ℕ

abbrev pub view : {S : Type 0} → AsyncLogger S → Ghosts → View
view l g = record {
  request = l.flush_request_ticket;
  failed = l.worker_failed;
  claims = g.claims;
  synced = g.synced_upto;
  mark = g.mark;
}

-- An item at position `at` of all that have been enqueued: a flush item stands behind everything
-- that had been enqueued when its ticket was taken.
abbrev pub PlacedAt : View → ℕ → QueueItemType → ℕ → Type 0
PlacedAt v at log t = Unit
PlacedAt v at flush t = (t ≤ v.request) × (v.mark t ≤ at)

abbrev pub Placed : View → ℕ → List QueueItem → Type 0
Placed v at [] = Unit
Placed v at (item ∷ items) = PlacedAt v at item.type item.ticket × Placed v (suc at) items

abbrev pub Ticketed : View → QueueItemType → ℕ → Type 0
Ticketed v log t = Unit
Ticketed v flush t = t ≤ v.request

abbrev pub Ended : View → Outcome → Type 0
Ended v (flushed t) = (t ≤ v.request) × (v.mark t ≤ v.synced)
Ended v o = Unit

-- What a thread knows of its ticket.
abbrev pub Local : View → Pc → Type 0
Local v (Pc.log_enter item) = item.type ≡ log
Local v (Pc.log_failure item) = item.type ≡ log
Local v (Pc.log_level item) = item.type ≡ log
Local v (Pc.log_count item) = item.type ≡ log
Local v (Pc.publish_failure item) = Ticketed v item.type item.ticket
Local v (Pc.publish_enqueue item) = Ticketed v item.type item.ticket
Local v (Pc.publish_notify item) = Ticketed v item.type item.ticket
Local v (Pc.wait_load t) = t ≤ v.request
Local v (Pc.wait_failure t c) = t ≤ v.request
Local v (Pc.wait_asleep t c) = t ≤ v.request
Local v (Pc.wait_last t) = (t ≤ v.request) × ((v.failed ≡ true) ⊎ (v.mark t ≤ v.synced))
Local v (Pc.finish o) = Ended v o
Local v (Pc.finish_notify o) = Ended v o
Local v (Pc.returned o) = Ended v o
Local v p = Unit

-- What the worker knows of the items that it has taken.
abbrev pub WorkerLocal : View → (takes handled : ℕ) → WorkerPc → Type 0
WorkerLocal v takes handled (WorkerPc.handling again required item) =
    (takes ≡ suc handled) × PlacedAt v handled item.type item.ticket
WorkerLocal v takes handled (WorkerPc.completing again required t) =
    (takes ≡ handled) × (t ≤ v.request) × (v.mark t ≤ v.synced)
WorkerLocal v takes handled (WorkerPc.fail_message e) = Unit
WorkerLocal v takes handled WorkerPc.fail_stop = Unit
WorkerLocal v takes handled WorkerPc.fail_flag = Unit
WorkerLocal v takes handled WorkerPc.fail_ticket = v.failed ≡ true
WorkerLocal v takes handled (WorkerPc.fail_complete t) = (v.failed ≡ true) × (t ≤ v.request)
WorkerLocal v takes handled WorkerPc.fail_notify = v.failed ≡ true
WorkerLocal v takes handled WorkerPc.exited = Unit
WorkerLocal v takes handled w = takes ≡ handled

-- The marks grow with the tickets.
pub record Marks (v : View) : Type 0 where
  pub ordered : (t u : ℕ) → t ≤ u → u ≤ v.request → v.mark t ≤ v.mark u
  pub bounded : (t : ℕ) → t ≤ v.request → v.mark t ≤ v.claims

pub record Shared (v : View) (queue : List QueueItem) (complete takes handled tickets : ℕ)
    : Type 0 where
  pub marks : Marks v
  pub counted : v.request ≡ tickets
  pub done : v.synced ≤ handled
  pub order : handled ≤ takes
  pub sizes : v.claims ≡ takes + length queue
  pub placed : Placed v takes queue
  pub known : complete ≤ v.request
  pub reached : (v.failed ≡ true) ⊎ (v.mark complete ≤ v.synced)

abbrev pub SharedBy : {S : Type 0} → AsyncLogger S → Ghosts → Type 0
SharedBy l g = Shared (view l g) l.queue l.flush_complete_ticket g.takes g.handled g.tickets

pub record Inv {S : Type 0} (s : System S) : Type 0 where
  pub shared : SharedBy s.logger s.ghosts
  pub worker : WorkerLocal (view s.logger s.ghosts) s.ghosts.takes s.ghosts.handled s.worker
  pub threads : (i : ℕ) (p : Pc) → get_elem? s.threads i ≡ some p → Local (view s.logger s.ghosts) p

-- How the view of a thread may change while others take steps.
pub record Grows (v w : View) : Type 0 where
  pub request : v.request ≤ w.request
  pub claims : v.claims ≤ w.claims
  pub synced : v.synced ≤ w.synced
  pub failed : v.failed ≡ true → w.failed ≡ true
  pub mark : (t : ℕ) → t ≤ v.request → w.mark t ≡ v.mark t

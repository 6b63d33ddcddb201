-- ===== src/Service/Running.antt =====
-- `main` of examples/service_example.cpp, behind the start of its workers: the thread that accepts
-- connections, and the workers that handle them. `taken` and `handled` are not in the program: the
-- connections in the order of their `Pop`, and how often each of them, by its place, was handled.
mod Invariant
mod Turns
pub mod Drained
use high_performance_logger.Common.{
  ℕ, ◌+◌, ◌<◌, ◌≡◌, Bool, true, false, ◌&&◌, ◌||◌, List, [], ◌∷◌, ◌++◌, ◌==◌, ltb, length,
}
use high_performance_logger.Common.Family.{update}
use high_performance_logger.Service.Handling.{AcceptedConnection}
use high_performance_logger.Service.Connections.{
  ConnectionQueue, empty_queue, Popped, waiting, ended, got, push, pop, stop,
}

pub data WorkerPc : Type 0 where
  popping done : WorkerPc
  handling : ℕ → AcceptedConnection → WorkerPc

-- Both have the number of requests accepted so far; `in_accept` is the call of `accept`.
pub data MainPc : Type 0 where
  accepting in_accept : ℕ → MainPc
  stopping joining finished : MainPc

pub record Service : Type 0 where
  pub connections : ConnectionQueue
  pub worker : ℕ → WorkerPc
  pub main : MainPc
  pub running : Bool
  pub accepted : List AcceptedConnection
  pub taken : List AcceptedConnection
  pub handled : ℕ → ℕ

abbrev pub start : Service
start = record {
  connections = empty_queue;
  worker = λ i. popping;
  main = accepting 0;
  running = true;
  accepted = [];
  taken = [];
  handled = λ k. 0;
}

abbrev pub after_pop : ℕ → Service → Popped × ConnectionQueue → Service
after_pop i s (waiting, q) = s
after_pop i s (ended, q) = record s { connections = q; worker = update s.worker i done }
after_pop i s (got c, q) = record s {
  connections = q;
  worker = update s.worker i (handling (length s.taken) c);
  taken = s.taken ++ c ∷ [];
}

unfoldable pub worker_turn : ℕ → Service → WorkerPc → Service
unfolding pop
worker_turn i s popping = after_pop i s (pop s.connections)
worker_turn i s (handling k c) = record s {
  worker = update s.worker i popping;
  handled = update s.handled k (s.handled k + 1);
}
worker_turn i s done = s

unfoldable pub accept_one : ℕ → AcceptedConnection → Service → Service
unfolding push
accept_one n c s = record s {
  connections = push c s.connections;
  main = accepting (n + 1);
  accepted = s.accepted ++ c ∷ [];
}

unfoldable pub stop_workers : Service → Service
unfolding stop
stop_workers s = record s { connections = stop s.connections; main = joining }

module _ (worker_count max_requests : ℕ) where
  -- The condition of the accepting loop.
  abbrev pub keep_going : ℕ → Service → Bool
  keep_going n s = s.running && ((max_requests == 0) || ltb n max_requests)

  pub data Step (s : Service) : Service → Type 0 where
    enters :
        (n : ℕ)
        → s.main ≡ accepting n
        → keep_going n s ≡ true
        → Step s (record s { main = in_accept n })
    accepts : (n : ℕ) (c : AcceptedConnection) → s.main ≡ in_accept n → Step s (accept_one n c s)
    accept_fails : (n : ℕ) → s.main ≡ in_accept n → Step s (record s { main = accepting n })
    leaves :
        (n : ℕ)
        → s.main ≡ accepting n
        → keep_going n s ≡ false
        → Step s (record s { main = stopping })
    interrupted : Step s (record s { running = false })
    stops : s.main ≡ stopping → Step s (stop_workers s)
    joins :
        s.main ≡ joining
        → ((i : ℕ) → i < worker_count → s.worker i ≡ done)
        → Step s (record s { main = finished })
    works : (i : ℕ) → i < worker_count → Step s (worker_turn i s (s.worker i))

  pub data Reach : Service → Type 0 where
    started : Reach start
    then_step : {s t : Service} → Reach s → Step s t → Reach t

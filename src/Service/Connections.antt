-- ===== src/Service/Connections.antt =====
-- `ConnectionQueue` of examples/service_example.cpp. Each operation is one use of the mutex; `Pop`
-- waits on the condition while the queue is empty and not stopped.
use high_performance_logger.Common.{Bool, true, false, List, [], ◌∷◌, ◌++◌}
use high_performance_logger.Service.Handling.{AcceptedConnection}

pub record ConnectionQueue : Type 0 where
  pub queue : List AcceptedConnection
  pub stopped : Bool

abbrev pub empty_queue : ConnectionQueue
empty_queue = record { queue = []; stopped = false }

-- `Pop` goes on waiting, returns false, or returns true with a connection.
pub data Popped : Type 0 where
  waiting ended : Popped
  got : AcceptedConnection → Popped

unfoldable pub push : AcceptedConnection → ConnectionQueue → ConnectionQueue
push connection q = record q { queue = q.queue ++ connection ∷ [] }

abbrev pub front : Bool → List AcceptedConnection → Popped
front stopped (c ∷ cs) = got c
front true [] = ended
front false [] = waiting

abbrev pub behind_front : List AcceptedConnection → List AcceptedConnection
behind_front [] = []
behind_front (c ∷ cs) = cs

unfoldable pub pop : ConnectionQueue → Popped × ConnectionQueue
pop q = (front q.stopped q.queue, record q { queue = behind_front q.queue })

unfoldable pub stop : ConnectionQueue → ConnectionQueue
stop q = record q { stopped = true }

-- ===== src/Logger/Machine/Races/Runs.antt =====
-- Runs of two threads and the worker.
use high_performance_logger.Common.{◌≡◌, Bool, List, ◌∷◌}
use mathlib.Core.Path.{subst}
use high_performance_logger.Message.{LogMessage, log, QueueItem}
use high_performance_logger.Sinks.Interface.{SinkInterface}
use high_performance_logger.Logger.Worker.{AsyncLogger}
use high_performance_logger.Logger.Machine.{Pc, WorkerPc}
use high_performance_logger.Logger.Machine.System.{Ghosts, System, Step}

abbrev pub message_item : LogMessage → QueueItem
message_item m = record { type = log; ticket = 0; message = m }

module _ (sink : SinkInterface) where
  open sink use {State, Reading}

  pub data Steps (s : System State) : System State → Type 0 where
    here : Steps s s
    then : {t u : System State} → Steps s t → Step sink t u → Steps s u

  pub Steps-trans : {s t u : System State} → Steps s t → Steps t u → Steps s u
  Steps-trans a here = a
  Steps-trans a (then b st) = then (Steps-trans a b) st

  -- Two threads and the worker, and other threads that stand still.
  abbrev pub standing :
      List Pc → Ghosts → Bool → AsyncLogger State → WorkerPc → Pc → Pc → System State
  standing rest g j l w p q = record {
    logger = l;
    worker = w;
    threads = p ∷ q ∷ rest;
    is_joined = j;
    ghosts = g;
  }

  -- The same step, where the state that it leads to is known.
  pub to : {s t u : System State} → Step sink s t → t ≡ u → Step sink s u
  to {s} st e = subst (Step sink s) e st

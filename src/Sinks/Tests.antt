-- ===== src/Sinks/Tests.antt =====
-- The theorems on a fan-out, with children that count.
use high_performance_logger.Common.{ℕ, suc, ◌≡◌, Bool, true, false, some, List, [], ◌∷◌, refl, leb}
use high_performance_logger.Sinks.Stream.{ok, is_due}
use high_performance_logger.Sinks.Interface.{SinkInterface}
use high_performance_logger.Sinks.Multi.{
  multi_next_auto_flush_time, multi_flush_if_due, multi_flush_from, any_due, any_of, EachChecked,
  multi_due, multi_flush_if_due-EachChecked,
}

-- A child with a deadline that moves by 50 at each flush.
abbrev child : SinkInterface
child = record {
  State = ℕ;
  Reading = ℕ;
  write = λ now m s. (ok tt, s);
  flush = λ s. (ok tt, s);
  next_auto_flush_time = λ s. some s;
  flush_if_due = λ now s. (ok (leb s now), suc s);
}

multi_due_example :
    is_due (multi_next_auto_flush_time child (9 ∷ 3 ∷ [])) 4 ≡ any_due child 4 (9 ∷ 3 ∷ [])
multi_due_example = multi_due child 4 (9 ∷ 3 ∷ [])

multi_flush_if_due-EachChecked_example :
    (bs : List Bool) × EachChecked child 4 (3 ∷ 9 ∷ []) bs (4 ∷ 10 ∷ []) × (true ≡ any_of false bs)
unfolding multi_flush_if_due multi_flush_from
multi_flush_if_due-EachChecked_example =
    multi_flush_if_due-EachChecked child 4 (3 ∷ 9 ∷ []) true (4 ∷ 10 ∷ []) refl

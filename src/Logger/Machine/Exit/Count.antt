-- ===== src/Logger/Machine/Exit/Count.antt =====
-- The threads that are inside an operation.
use high_performance_logger.Common.{
  ℕ, zero, suc, ◌+◌, ◌≤◌, ◌≡◌, some, List, [], ◌∷◌, length, get_elem?, set, replicate, refl, ap,
  arith,
}
use high_performance_logger.Logger.Machine.{Pc}

-- Between TryStartOperation and FinishOperation.
abbrev pub inside : Pc → ℕ
inside Pc.idle = 0
inside (Pc.log_enter item) = 0
inside (Pc.flush_enter m) = 0
inside (Pc.finish_notify o) = 0
inside (Pc.returned o) = 0
inside Pc.stop_enter = 0
inside Pc.stop_notify = 0
inside Pc.stop_join = 0
inside p = 1

abbrev pub count_inside : List Pc → ℕ
count_inside [] = 0
count_inside (p ∷ ps) = inside p + count_inside ps

pub inside_small : (p : Pc) → inside p ≤ 1
inside_small Pc.idle = omega arith
inside_small p = omega arith

pub count_small : (ps : List Pc) → count_inside ps ≤ length ps
count_small [] = omega arith
count_small (p ∷ ps) = omega (arith, inside_small p, count_small ps)

pub count-set :
    (ps : List Pc) (i : ℕ) (p q : Pc)
    → get_elem? ps i ≡ some p
    → count_inside (set ps i q) + inside p ≡ count_inside ps + inside q
count-set [] i p q h = absurd cc
count-set (x ∷ ps) zero p q h = let e : x ≡ p = cc in omega (arith, ap inside e)
count-set (x ∷ ps) (suc i) p q h = omega (arith, count-set ps i p q h)

pub count_positive :
    (ps : List Pc) (i : ℕ) (p : Pc) → get_elem? ps i ≡ some p → inside p ≤ count_inside ps
count_positive [] i p h = absurd cc
count_positive (x ∷ ps) zero p h = let e : x ≡ p = cc in omega (arith, ap inside e)
count_positive (x ∷ ps) (suc i) p h = omega (arith, count_positive ps i p h)

pub count-idle : (n : ℕ) → count_inside (replicate n Pc.idle) ≡ 0
count-idle zero = refl
count-idle (suc n) = omega (arith, count-idle n)

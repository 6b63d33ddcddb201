-- ===== src/Sinks/Multi.antt =====
-- include/hlog/sinks/multi_sink.h: every call goes to each child in turn, until one throws.
use high_performance_logger.Common.{
  ℕ, suc, ◌≡◌, Bool, false, ◌||◌, Option, none, some, List, [], ◌∷◌, ◌++◌, refl, arith,
}
use high_performance_logger.Common.{length, ◌==◌}
use high_performance_logger.Message.{LogMessage}
use high_performance_logger.Sinks.Stream.{Result, ok, throw, Exec, Deadline, is_due}
use high_performance_logger.Sinks.Interface.{SinkInterface}
use high_performance_logger.Common.{min}

abbrev pub min_deadline : Deadline → Deadline → Deadline
min_deadline none d = d
min_deadline (some a) none = some a
min_deadline (some a) (some b) = some (min a b)

-- What a child's operation leaves, and then the children behind it: they are reached if the child
-- does not throw.
abbrev pub on_first {ℓ κ} :
    {S : Type ℓ} {A B : Type κ}
    → Result A × S
    → List S
    → (A → Result B × List S)
    → Result B × List S
on_first (ok a, s) ss rest = let (r, ss') = rest a in (r, s ∷ ss')
on_first (throw e, s) ss rest = (throw e, s ∷ ss)

-- `AddSink`, of a sink that is there or null.
unfoldable pub add_sink {ℓ} : {S : Type ℓ} → List ℕ → Option S → Exec (List S) (Unit {0})
add_sink message none ss = (throw message, ss)
add_sink message (some s) ss = (ok tt, ss ++ s ∷ [])

-- The constructor of a list of sinks, and the loop of it.
unfoldable pub add_sinks {ℓ} : {S : Type ℓ} → List ℕ → List (Option S) → Exec (List S) (Unit {0})
unfolding add_sink
add_sinks message [] ss = (ok tt, ss)
add_sinks message (s ∷ sinks) ss =
    let (r, ss') = add_sink message s ss in
    let rest = add_sinks message sinks ss' in elim r [ ok _ ↦ rest | throw e ↦ (throw e, ss') ]

abbrev pub size {ℓ} : {S : Type ℓ} → List S → ℕ
size ss = length ss

abbrev pub empty {ℓ} : {S : Type ℓ} → List S → Bool
empty ss = length ss == 0

-- `flushed = answer || flushed` over the answers.
abbrev pub any_of : Bool → List Bool → Bool
any_of a [] = a
any_of a (b ∷ bs) = any_of (b || a) bs

module _ (child : SinkInterface) where
  open child use {State, Reading}

  -- Child `i` reads `readings i`.
  unfoldable pub multi_write : (ℕ → Reading) → LogMessage → Exec (List State) (Unit {0})
  multi_write readings message [] = (ok tt, [])
  multi_write readings message (s ∷ ss) =
      on_first (child.write (readings 0) message s) ss
        (λ _. multi_write (λ i. readings (suc i)) message ss)

  unfoldable pub multi_flush : Exec (List State) (Unit {0})
  multi_flush [] = (ok tt, [])
  multi_flush (s ∷ ss) = on_first (child.flush s) ss (λ _. multi_flush ss)

  unfoldable pub multi_next_from : Deadline → List State → Deadline
  multi_next_from d [] = d
  multi_next_from d (s ∷ ss) = multi_next_from (min_deadline d (child.next_auto_flush_time s)) ss

  unfoldable pub multi_next_auto_flush_time : List State → Deadline
  unfolding multi_next_from
  multi_next_auto_flush_time = multi_next_from none

  -- The loop of `FlushIfDue`, with the local `flushed`.
  unfoldable pub multi_flush_from : Bool → ℕ → Exec (List State) Bool
  multi_flush_from flushed now [] = (ok flushed, [])
  multi_flush_from flushed now (s ∷ ss) =
      on_first (child.flush_if_due now s) ss (λ b. multi_flush_from (b || flushed) now ss)

  unfoldable pub multi_flush_if_due : ℕ → Exec (List State) Bool
  unfolding multi_flush_from
  multi_flush_if_due = multi_flush_from false

  abbrev pub multi_interface : SinkInterface
  multi_interface = record {
    State = List State;
    Reading = ℕ → Reading;
    write = multi_write;
    flush = multi_flush;
    next_auto_flush_time = multi_next_auto_flush_time;
    flush_if_due = multi_flush_if_due;
  }

  abbrev pub any_due : ℕ → List State → Bool
  any_due now [] = false
  any_due now (s ∷ ss) = is_due (child.next_auto_flush_time s) now || any_due now ss

  due_min :
      (a b : Deadline) (now : ℕ) → is_due (min_deadline a b) now ≡ (is_due a now || is_due b now)
  due_min none b now = refl
  due_min (some a) none now = ground arith
  due_min (some a) (some b) now = ground arith

  due_from :
      (d : Deadline) (now : ℕ) (ss : List State)
      → is_due (multi_next_from d ss) now ≡ (is_due d now || any_due now ss)
  unfolding multi_next_from
  due_from d now [] = ground arith
  due_from d now (s ∷ ss) = ground (
    arith,
    due_from (min_deadline d (child.next_auto_flush_time s)) now ss,
    due_min d (child.next_auto_flush_time s) now,
  )

  -- A fan-out is due exactly when one of its children is.
  pub multi_due :
      (now : ℕ) (ss : List State) → is_due (multi_next_auto_flush_time ss) now ≡ any_due now ss
  unfolding multi_next_auto_flush_time
  multi_due now ss = due_from none now ss

  -- Each child has been asked, with these answers.
  abbrev pub EachChecked : ℕ → List State → List Bool → List State → Type 0
  EachChecked now [] [] [] = Unit
  EachChecked now (s ∷ ss) (b ∷ bs) (t ∷ ts) =
      (child.flush_if_due now s ≡ (ok b, t)) × EachChecked now ss bs ts
  EachChecked now _ _ _ = ⊥

  abbrev Checked : ℕ → List State → Bool → Bool → List State → Type 0
  Checked now ss flushed b ts =
      (bs : List Bool) × EachChecked now ss bs ts × (b ≡ any_of flushed bs)

  first-Checked :
      (now : ℕ) (s : State) (ss : List State) (flushed b : Bool) (ts : List State)
      (r : Result Bool × State)
      → ((a b : Bool) (ts : List State)
          → multi_flush_from a now ss ≡ (ok b, ts)
          → Checked now ss a b ts)
      → child.flush_if_due now s ≡ r
      → on_first r ss (λ a. multi_flush_from (a || flushed) now ss) ≡ (ok b, ts)
      → Checked now (s ∷ ss) flushed b ts
  first-Checked now s ss flushed b [] (ok a, s') rest e h = absurd cc
  first-Checked now s ss flushed b (t ∷ ts) (ok a, s') rest e h =
      let (bs, each, total) = rest (a || flushed) b ts cc in (a ∷ bs, (cc, each), total)
  first-Checked now s ss flushed b ts (throw message, s') rest e h = absurd cc

  flush_from-Checked :
      (now : ℕ) (ss : List State) (flushed b : Bool) (ts : List State)
      → multi_flush_from flushed now ss ≡ (ok b, ts)
      → Checked now ss flushed b ts
  unfolding multi_flush_from
  flush_from-Checked now [] flushed b [] h = ([], tt, cc)
  flush_from-Checked now [] flushed b (t ∷ ts) h = absurd cc
  flush_from-Checked now (s ∷ ss) flushed b ts h =
      first-Checked now s ss flushed b ts (child.flush_if_due now s) (flush_from-Checked now ss)
        refl h

  -- A FlushIfDue of a fan-out that does not throw has asked every child once, and answers whether
  -- one of them had something due, though an earlier one has answered already.
  pub multi_flush_if_due-EachChecked :
      (now : ℕ) (ss : List State) (b : Bool) (ts : List State)
      → multi_flush_if_due now ss ≡ (ok b, ts)
      → (bs : List Bool) × EachChecked now ss bs ts × (b ≡ any_of false bs)
  unfolding multi_flush_if_due
  multi_flush_if_due-EachChecked now ss b ts h = flush_from-Checked now ss false b ts h

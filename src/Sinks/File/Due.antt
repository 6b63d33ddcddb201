-- ===== src/Sinks/File/Due.antt =====
-- The automatic flush of FileSink: no batch stays past its deadline once the sink is called.
use high_performance_logger.Common.{
  ℕ, ◌≡◌, Bool, true, false, [], leb, ◌||◌, length, refl, arith, Bool-cases, inl, inr,
}
use high_performance_logger.Common.Int.{ℤ}
use high_performance_logger.Message.{LogMessage}
use high_performance_logger.Formatter.{Tm}
use high_performance_logger.Sinks.Stream.{Result, ok, pure, is_due, bind_ok}
use high_performance_logger.Sinks.File.{
  FileSink, drain_staging_buffer, drain_if_needed, interval_over, stage, write,
  next_auto_flush_time, flush_if_due,
}
use high_performance_logger.Sinks.File.Laws.{Drained, drain-Drained}

empty_never_due :
    (s : FileSink) (now : ℕ) → s.staging_buffer ≡ [] → is_due (next_auto_flush_time s) now ≡ false
unfolding next_auto_flush_time
empty_never_due s now h = ground arith

or_false : (a b : Bool) → (a || b) ≡ false → b ≡ false
or_false true b h = cc
or_false false b h = h

calm_not_due :
    (s : FileSink) (now : ℕ)
    → interval_over s now ≡ false
    → is_due (next_auto_flush_time s) now ≡ false
unfolding next_auto_flush_time
calm_not_due s now h = ground arith

drained_not_due :
    (now : ℕ) (r : FileSink)
    → (drain_if_needed now r).0 ≡ ok tt
    → is_due (next_auto_flush_time (drain_if_needed now r).1) now ≡ false
unfolding drain_if_needed
drained_not_due now r e =
    elim (Bool-cases
      (leb r.options.max_batch_size (length r.staging_buffer) || interval_over r now)) [
        | inl needed ↦
            rw needed
              (empty_never_due _ now (drain-Drained (interval_over r now) r (rw needed at e)).batch)
        | inr calm ↦ rw calm (calm_not_due r now (or_false _ _ calm))
      ]

-- A batch that a successful write at `now` leaves is not due at `now`.
pub write_not_due :
    (localtime : ℤ → Tm) (now : ℕ) (m : LogMessage) (s : FileSink)
    → (write localtime now m s).0 ≡ ok tt
    → is_due (next_auto_flush_time (write localtime now m s).1) now ≡ false
unfolding write
write_not_due localtime now m s h = drained_not_due now (stage localtime now m s) h

done_true : {a b : Bool} → ok a ≡ ok b → b ≡ a
done_true h = ground arith

-- `FlushIfDue` drains the batch and pushes it to the device exactly if the deadline has come, and
-- otherwise changes nothing; either way nothing is due at `now` when it returns.
pub flush_if_due_lem :
    (now : ℕ) (s : FileSink) {done : Bool}
    → (flush_if_due now s).0 ≡ ok done
    → let t = (flush_if_due now s).1 in
      (done ≡ is_due (next_auto_flush_time s) now)
      × (is_due (next_auto_flush_time t) now ≡ false)
      × (done ≡ true → Drained true s t)
      × (done ≡ false → t ≡ s)
unfolding flush_if_due
flush_if_due_lem now s {done} h = elim (Bool-cases (is_due (next_auto_flush_time s) now)) [
  | inl due ↦
      let e =
        bind_ok (λ _. pure true) (drain_staging_buffer true s).0 (drain_staging_buffer true s).1
          (rw due at h) in
      let d = drain-Drained true s e in
      let h' : Result.ok true ≡ ok done = rw (due, e) at h in
      rw due (
        rw e (
          (done_true h'),
          empty_never_due (drain_staging_buffer true s).1 now d.batch,
          (λ _. d),
          (λ f. absurd (ground (arith, done_true h', f))),
        ))
  | inr early ↦ rw early (ground arith, early, (λ f. ground arith), λ _. refl)
]

-- ===== src/Sinks/File/Runs.antt =====
-- Whole histories of a FileSink, and when a batch is due.
use high_performance_logger.Common.{
  ℕ, ◌≡◌, true, List, [], ◌∷◌, ◌++◌, length, refl, sym, ap, ◌∙◌, arith, append_assoc, append-nil,
  Bool-cases, inl, inr,
}
use high_performance_logger.Common.Int.{ℤ}
use high_performance_logger.Message.{LogMessage}
use high_performance_logger.Formatter.{PatternFormatter, Tm}
use high_performance_logger.Sinks.Stream.{
  Result, ok, Exec, ◌>>=◌, ◌>>◌, pure, is_due, bind_result, bind_ok,
}
use high_performance_logger.Sinks.File.{
  FileSink, drain_staging_buffer, write, flush, next_auto_flush_time, flush_if_due,
}
use high_performance_logger.Sinks.File.Laws.{
  total, drain-Drained, Drained-Kept, IsBounded, line, write-Wrote,
}

-- The calls that the logger makes, with the time of each.
pub data SinkCall : Type 0 where
  writes : (now : ℕ) → LogMessage → SinkCall
  flushes : SinkCall
  checks : (now : ℕ) → SinkCall

module _ (localtime : ℤ → Tm) where
  abbrev pub call : SinkCall → Exec FileSink (Unit {0})
  call (writes now m) = write localtime now m
  call flushes = flush
  call (checks now) = do flushed ← flush_if_due now; pure tt

  -- The first exception ends the history.
  unfoldable pub run : List SinkCall → Exec FileSink (Unit {0})
  run [] s = (ok tt, s)
  run (c ∷ cs) s = let (r, t) = call c s in bind_result (λ _. run cs) r t

  abbrev pub lines : PatternFormatter → List SinkCall → List ℕ
  lines f [] = []
  lines f (writes now m ∷ cs) = line localtime f m ++ lines f cs
  lines f (flushes ∷ cs) = lines f cs
  lines f (checks now ∷ cs) = lines f cs

  abbrev lines_of : PatternFormatter → SinkCall → List ℕ
  lines_of f (writes now m) = line localtime f m
  lines_of f flushes = []
  lines_of f (checks now) = []

  -- A step that adds this text to what the file will hold.
  pub record Added (text : List ℕ) (s t : FileSink) : Type 0 where
    pub sum : total t ≡ total s ++ text
    pub bounded : IsBounded t
    pub formatter : t.formatter ≡ s.formatter

  -- The body of `FlushIfDue` once it is due.
  abbrev checked : FileSink → Result (Unit {0}) × FileSink
  checked s = (do r ← (do drain_staging_buffer true; pure true); pure tt) s

  checked-Added :
      (s : FileSink)
      → IsBounded s
      → (drain_staging_buffer true s).0 ≡ ok tt
      → Added [] s (checked s).1
  checked-Added s b h =
      let k = Drained-Kept true s _ (omega (arith, b)) (drain-Drained true s h) in
      rw h (record {
        sum = k.text ∙ sym (append-nil (total s));
        bounded = k.bounded;
        formatter = k.formatter;
      })

  checked_ok : (s : FileSink) → (checked s).0 ≡ ok tt → (drain_staging_buffer true s).0 ≡ ok tt
  checked_ok s h = ground arith

  call-Added :
      (c : SinkCall) (s : FileSink)
      → IsBounded s
      → (call c s).0 ≡ ok tt
      → Added (lines_of s.formatter c) s (call c s).1
  unfolding flush flush_if_due
  call-Added (writes now m) s b h =
      let w = write-Wrote localtime now m s b h in
      record { sum = w.text; bounded = w.bounded; formatter = w.formatter }
  call-Added flushes s b h =
      let k = Drained-Kept true s _ (omega (arith, b)) (drain-Drained true s h) in
      record {
        sum = k.text ∙ sym (append-nil (total s));
        bounded = k.bounded;
        formatter = k.formatter;
      }
  call-Added (checks now) s b h = elim (Bool-cases (is_due (next_auto_flush_time s) now)) [
    | inl due ↦ rw due (checked-Added s b (checked_ok _ (rw due at h)))
    | inr early ↦
        rw early (record { sum = sym (append-nil (total s)); bounded = b; formatter = refl })
  ]

  lines_first :
      (c : SinkCall) (cs : List SinkCall) (f : PatternFormatter) {g : PatternFormatter}
      → g ≡ f
      → lines_of f c ++ lines g cs ≡ lines f (c ∷ cs)
  lines_first (writes now m) cs f e = ap (λ x. line localtime f m ++ lines x cs) e
  lines_first flushes cs f e = ap (λ x. lines x cs) e
  lines_first (checks now) cs f e = ap (λ x. lines x cs) e

  -- A history without an exception puts every line of its writes, in order, behind what was there,
  -- and leaves the batch below its limit.
  pub run-Added :
      (cs : List SinkCall) (s : FileSink)
      → IsBounded s
      → (run cs s).0 ≡ ok tt
      → Added (lines s.formatter cs) s (run cs s).1
  unfolding run
  run-Added [] s b h = record { sum = sym (append-nil (total s)); bounded = b; formatter = refl }
  run-Added (c ∷ cs) s b h =
      let e : (call c s).0 ≡ ok tt = bind_ok (λ _. run cs) (call c s).0 (call c s).1 h in
      let a = call-Added c s b e in
      let z = run-Added cs (call c s).1 a.bounded (rw e at h) in
      rw e (record {
        sum =
            z.sum
            ∙ ap (λ l. l ++ lines (call c s).1.formatter cs) a.sum
            ∙ append_assoc (total s) (lines_of s.formatter c) _
            ∙ ap (λ l. total s ++ l) (lines_first c cs s.formatter a.formatter);
        bounded = z.bounded;
        formatter = z.formatter ∙ a.formatter;
      })

  -- After a history and a flush without an exception, from a sink whose batch is below its limit, the
  -- file itself holds what was there and every line of the writes in order, all of it
  -- has been pushed to the device, and the batch is empty.
  pub run-flush :
      (cs : List SinkCall) (s t : FileSink)
      → IsBounded s
      → run cs s ≡ (ok tt, t)
      → (flush t).0 ≡ ok tt
      → let u = (flush t).1 in
        (u.output.content ≡ total s ++ lines s.formatter cs)
        × (u.output.flushed ≡ length u.output.content)
        × (u.staging_buffer ≡ [])
  unfolding flush
  run-flush cs s t b h f =
      let a = run-Added cs s b (ap (λ x. x.0) h) in
      let d = drain-Drained true t f in
      (d.content ∙ ap total (sym (ap (λ x. x.1) h)) ∙ a.sum, d.pushed refl, d.batch)

-- ===== src/Sinks/File/Tests.antt =====
-- The theorems on the file sink at a concrete history.
use high_performance_logger.Common.{
  ℕ, ◌≡◌, ◌⊎◌, true, false, Option, some, List, [], ◌∷◌, arith, refl, length,
}
use high_performance_logger.Common.Text.{codes}
use high_performance_logger.Common.Int.{ℤ, pos}
use high_performance_logger.Level.{info}
use high_performance_logger.Message.{LogMessage}
use high_performance_logger.Payload.{empty_payload}
use high_performance_logger.Formatter.{Tm, format_to}
use high_performance_logger.Sinks.Stream.{is_due, stream_write, stream_flush}
use high_performance_logger.Sinks.File.{
  FileSink, default_options, write, flush, stage, drain_if_needed, drain_staging_buffer,
  next_auto_flush_time, flush_if_due,
}
use high_performance_logger.Sinks.File.Laws.{Wrote, write-Wrote, drain_throws, Drained}
use high_performance_logger.Sinks.File.Runs.{writes, flushes, run, lines, run-flush}
use high_performance_logger.Sinks.File.Due.{flush_if_due_lem, write_not_due}

abbrev noon : ℤ → Tm
noon t = record {
  tm_year = pos 124;
  tm_mon = pos 0;
  tm_mday = pos 1;
  tm_hour = pos 12;
  tm_min = pos 0;
  tm_sec = pos 0;
}

abbrev message : LogMessage
message = record {
  timestamp = pos 0;
  level = info;
  logger_name = codes "app";
  thread_id = 1;
  source = record { file = []; line = pos 0; function = [] };
  payload = empty_payload;
}

-- A sink with an empty pattern.
abbrev sink_with : List (Option ℕ) → List ℕ → FileSink
sink_with plan staged = record {
  options = default_options;
  output = record { content = []; flushed = 0; good = true; plan = plan };
  staging_buffer = staged;
  batch_started_at = 5;
  formatter = record { pattern = []; tokens = [] };
}

write-Wrote_example :
    Wrote noon message (sink_with [] []) (write noon 7 message (sink_with [] [])).1
unfolding write stage drain_if_needed format_to
write-Wrote_example = write-Wrote noon 7 message (sink_with [] []) (omega arith) refl

drain_throws_example :
    let t = (drain_staging_buffer false (sink_with (some 1 ∷ []) (codes "ab"))).1 in
    (t.output.good ≡ false)
    × ((t.staging_buffer ≡ codes "ab")
        ⊎ ((t.output.content ≡ codes "ab") × (t.staging_buffer ≡ [])))
unfolding drain_staging_buffer stream_write
drain_throws_example = drain_throws false (sink_with (some 1 ∷ []) (codes "ab")) refl

run-flush_example :
    let u = (flush (run noon (writes 7 message ∷ flushes ∷ []) (sink_with [] [])).1).1 in
    (u.output.content ≡ lines noon (sink_with [] []).formatter (writes 7 message ∷ flushes ∷ []))
    × (u.output.flushed ≡ length u.output.content)
    × (u.staging_buffer ≡ [])
unfolding run write stage drain_if_needed flush drain_staging_buffer stream_write stream_flush
    format_to
run-flush_example =
    run-flush noon (writes 7 message ∷ flushes ∷ []) (sink_with [] [])
      (run noon (writes 7 message ∷ flushes ∷ []) (sink_with [] [])).1 (omega arith) refl refl

flush_if_due_lem_example :
    let s = sink_with [] (codes "ab") in
    let t = (flush_if_due 100000000 s).1 in
    (true ≡ is_due (next_auto_flush_time s) 100000000)
    × (is_due (next_auto_flush_time t) 100000000 ≡ false)
    × (true ≡ true → Drained true s t)
    × (true ≡ false → t ≡ s)
unfolding flush_if_due drain_staging_buffer stream_write stream_flush
flush_if_due_lem_example = flush_if_due_lem 100000000 (sink_with [] (codes "ab")) refl

write_not_due_example :
    is_due (next_auto_flush_time (write noon 7 message (sink_with [] [])).1) 7 ≡ false
unfolding write stage drain_if_needed format_to
write_not_due_example = write_not_due noon 7 message (sink_with [] []) refl

-- ===== src/Sinks/File/Laws.antt =====
-- FileSink loses no line: file and batch together hold every line written, in order.
use high_performance_logger.Common.{
  ℕ, ◌<◌, ◌≤◌, ◌≡◌, Bool, true, false, List, [], ◌∷◌, ◌++◌, leb, ◌||◌, length, refl, ap, ◌∙◌, arith,
  append_assoc, append-nil, Bool-cases, inl, inr, ◌⊎◌,
}
use high_performance_logger.Common.Int.{ℤ}
use high_performance_logger.Message.{LogMessage}
use high_performance_logger.Formatter.{PatternFormatter, Tm, format_to}
use high_performance_logger.Formatter.Interpret.{format_to-append}
use high_performance_logger.Sinks.Stream.{ok, throw, stream_write, stream_flush}
use high_performance_logger.Sinks.File.{
  FileSink, drain_staging_buffer, interval_over, stage, write, drain_if_needed,
}

-- What the file will hold once the batch is drained.
abbrev pub total : FileSink → List ℕ
total s = s.output.content ++ s.staging_buffer

-- A successful drain.
pub record Drained (flush_stream : Bool) (s t : FileSink) : Type 0 where
  pub content : t.output.content ≡ total s
  pub batch : t.staging_buffer ≡ []
  pub pushed : flush_stream ≡ true → t.output.flushed ≡ length t.output.content
  pub options : t.options ≡ s.options
  pub formatter : t.formatter ≡ s.formatter

-- It succeeds or throws.
pub drain-Drained :
    (b : Bool) (s : FileSink)
    → (drain_staging_buffer b s).0 ≡ ok tt
    → Drained b s (drain_staging_buffer b s).1
unfolding drain_staging_buffer stream_write stream_flush
drain-Drained b s h = record {
  content = ground (arith, append-nil s.output.content);
  batch = ground arith;
  pushed = λ e. ground arith;
  options = ground arith;
  formatter = ground arith;
}

-- A drain that throws leaves the stream failed, and the batch either untouched or written whole.
pub drain_throws :
    (b : Bool) (s : FileSink) {e : List ℕ}
    → (drain_staging_buffer b s).0 ≡ throw e
    → let t = (drain_staging_buffer b s).1 in
      (t.output.good ≡ false)
      × ((t.staging_buffer ≡ s.staging_buffer)
          ⊎ ((t.output.content ≡ total s) × (t.staging_buffer ≡ [])))
unfolding drain_staging_buffer stream_write stream_flush
drain_throws b s h = (ground arith, ground (arith, append-nil s.output.content))

-- The batch is below its limit.
abbrev pub IsBounded : FileSink → Type 0
IsBounded s = length s.staging_buffer < s.options.max_batch_size

-- A step that only moves text from the batch to the file.
pub record Kept (s t : FileSink) : Type 0 where
  pub text : total t ≡ total s
  pub bounded : IsBounded t
  pub options : t.options ≡ s.options
  pub formatter : t.formatter ≡ s.formatter

pub Drained-Kept :
    (b : Bool) (s t : FileSink) → 1 ≤ s.options.max_batch_size → Drained b s t → Kept s t
Drained-Kept b s t h d = record {
  text = ap (λ l. t.output.content ++ l) d.batch ∙ append-nil _ ∙ d.content;
  bounded = ground (arith, d.batch, d.options);
  options = d.options;
  formatter = d.formatter;
}

drain_if_needed-Kept :
    (now : ℕ) (s : FileSink)
    → 1 ≤ s.options.max_batch_size
    → (drain_if_needed now s).0 ≡ ok tt
    → Kept s (drain_if_needed now s).1
unfolding drain_if_needed
drain_if_needed-Kept now s h e =
    elim (Bool-cases
      (leb s.options.max_batch_size (length s.staging_buffer) || interval_over s now)) [
        | inl needed ↦ rw needed (
            Drained-Kept (interval_over s now) s _ h
              (drain-Drained (interval_over s now) s (rw needed at e)))
        | inr calm ↦
            rw calm
              (record { text = refl; bounded = ground arith; options = refl; formatter = refl })
      ]

module _ (localtime : ℤ → Tm) where
  -- The line of a message.
  abbrev pub line : PatternFormatter → LogMessage → List ℕ
  line f m = format_to localtime f [] m ++ 10 ∷ []

  stage-total :
      (now : ℕ) (m : LogMessage) (s : FileSink)
      → total (stage localtime now m s) ≡ total s ++ line s.formatter m
  unfolding stage
  stage-total now m s =
      ap (λ l. s.output.content ++ (l ++ 10 ∷ []))
        (format_to-append localtime m s.formatter s.staging_buffer)
      ∙ simp append_assoc

  -- What a successful write does: the line comes behind all that was there, and the batch is
  -- below its limit.
  pub record Wrote (m : LogMessage) (s t : FileSink) : Type 0 where
    pub text : total t ≡ total s ++ line s.formatter m
    pub bounded : IsBounded t
    pub options : t.options ≡ s.options
    pub formatter : t.formatter ≡ s.formatter

  staged_options :
      (now : ℕ) (m : LogMessage) (s : FileSink)
      → ((stage localtime now m s).options ≡ s.options)
        × ((stage localtime now m s).formatter ≡ s.formatter)
  unfolding stage
  staged_options now m s = (refl, refl)

  -- A successful write adds exactly the rendered line to what the file and the batch hold together,
  -- keeps the batch below its limit, and changes neither the options nor the pattern.
  pub write-Wrote :
      (now : ℕ) (m : LogMessage) (s : FileSink)
      → IsBounded s
      → (write localtime now m s).0 ≡ ok tt
      → Wrote m s (write localtime now m s).1
  unfolding write
  write-Wrote now m s small h = record {
    text = k.text ∙ stage-total now m s;
    bounded = k.bounded;
    options = k.options;
    formatter = k.formatter;
  }
    where
      k : Kept (stage localtime now m s) (write localtime now m s).1
      k = drain_if_needed-Kept now (stage localtime now m s) (omega (arith, small)) h

-- ===== src/Formatter/Interpret.antt =====
-- Compiling a pattern and formatting from its tokens writes what reading the pattern from left to
-- right and replacing each specifier would write.
use high_performance_logger.Common.{
  ℕ, zero, suc, ◌-◌, Bool, true, false, not, ◌&&◌, ◌||◌, Option, none, some, List, [], ◌∷◌, ◌++◌,
  ◌==◌, if◌then◌else◌, ◌≡◌, refl, sym, ap, ap₂, ◌∙◌, arith, append_assoc, append-nil, Bool-cases,
  Option-cases, inl, inr, replicate, length, leb,
}
use high_performance_logger.Common.Text.{codes}
use high_performance_logger.Common.Int.{ℤ, pos, negsuc}
use high_performance_logger.Common.Decimal.{decimal_ℤ, to_chars}
use high_performance_logger.Common.Int.{◌-ℤ◌}
use high_performance_logger.Level.{to_string}
use high_performance_logger.Payload.{view}
use high_performance_logger.Message.{LogMessage, quotient, remainder}
use high_performance_logger.Formatter.{
  TokenType, literal, year, month, day, hour, minute, second, millisecond, level, logger_name,
  thread_id, payload, source_file, source_line, source_function, Token, PatternFormatter, Tm,
  TimestampParts, token_type_of, flush_literal, push_token, Compiled, compile_specifier,
  compile_from, keep_plus, expand_default, rebuild_tokens, make_formatter, append_integer,
  append_digits, is_time_token, make_timestamp_parts, base_name, append_token, is_literal,
  format_tokens, format_to, default_log_pattern, zero_parts,
}

append_digits-append :
    (w : ℕ) (o : Option (List ℕ)) (out : List ℕ)
    → append_digits w o out ≡ out ++ append_digits w o []
unfolding append_digits
append_digits-append w none out = sym (append-nil out)
append_digits-append w (some t) out = append_assoc out (replicate (w - length t) b'0') t

append_integer-append :
    (out : List ℕ) (z : ℤ) (w : ℕ) → append_integer out z w ≡ out ++ append_integer [] z w
unfolding append_integer
append_integer-append out z w = append_digits-append w (to_chars 32 (decimal_ℤ z)) out

-- A number with zeros in front up to a width, if it has at most 32 characters.
abbrev pub padded : ℕ → ℤ → List ℕ
padded width value =
    let text = decimal_ℤ value in
    if leb (length text) 32 then replicate (width - length text) b'0' ++ text else []

-- A line that is known.
abbrev pub line_text : ℤ → List ℕ
line_text (pos (suc n)) = padded 0 (pos (suc n))
line_text (pos zero) = []
line_text (negsuc n) = []

abbrev on_some {ℓ κ} : {A : Type ℓ} {B : Type κ} → (A → B) → Option A → Option B
on_some f none = none
on_some f (some a) = some (f a)

chosen {ℓ κ} :
    {A : Type ℓ} {B : Type κ} (f : A → B) (b : Bool) {x : B} {t : A} {r : Option B} (q : Option A)
    → x ≡ f t
    → r ≡ on_some f q
    → (if b then some x else r) ≡ on_some f (if b then some t else q)
chosen f true q e h = ap some e
chosen f false q e h = h

padded-integer : (width : ℕ) (value : ℤ) → padded width value ≡ append_integer [] value width
unfolding append_integer append_digits to_chars
padded-integer width value = elim (Bool-cases (leb (length (decimal_ℤ value)) 32)) [
  | inl fits ↦ rw fits refl
  | inr long ↦ rw long refl
]

module _ (localtime : ℤ → Tm) (m : LogMessage) where
  -- The text of a field, from the message alone.
  abbrev pub field_text : TokenType → List ℕ
  field_text t = append_token localtime [] m (make_timestamp_parts localtime m.timestamp) t

  source_line-append :
      (line : ℤ) (out : List ℕ)
      → elim line as (λ _. List ℕ) [ pos (suc n) ↦ append_integer out (pos (suc n)) 0 | _ ↦ out ]
        ≡ out
          ++ elim line as (λ _. List ℕ) [ pos (suc n) ↦ append_integer [] (pos (suc n)) 0 | _ ↦ [] ]
  source_line-append (pos zero) out = sym (append-nil out)
  source_line-append (pos (suc n)) out = append_integer-append out (pos (suc n)) 0
  source_line-append (negsuc n) out = sym (append-nil out)

  append_token-append :
      (out : List ℕ) (parts : TimestampParts) (t : TokenType)
      → append_token localtime out m parts t ≡ out ++ append_token localtime [] m parts t
  unfolding append_token
  append_token-append out parts literal = sym (append-nil out)
  append_token-append out parts year = append_integer-append out _ 4
  append_token-append out parts month = append_integer-append out _ 2
  append_token-append out parts day = append_integer-append out _ 2
  append_token-append out parts hour = append_integer-append out _ 2
  append_token-append out parts minute = append_integer-append out _ 2
  append_token-append out parts second = append_integer-append out _ 2
  append_token-append out parts millisecond = append_integer-append out _ 3
  append_token-append out parts level = refl
  append_token-append out parts logger_name = refl
  append_token-append out parts thread_id = append_integer-append out _ 0
  append_token-append out parts payload = refl
  append_token-append out parts source_file = refl
  append_token-append out parts source_line = source_line-append m.source.line out
  append_token-append out parts source_function = refl

  -- Only the time tokens read the parts of the time.
  append_token_timeless :
      (out : List ℕ) (p q : TimestampParts) (t : TokenType)
      → is_time_token t ≡ false
      → append_token localtime out m p t ≡ append_token localtime out m q t
  unfolding append_token
  append_token_timeless out p q year h = cc
  append_token_timeless out p q month h = cc
  append_token_timeless out p q day h = cc
  append_token_timeless out p q hour h = cc
  append_token_timeless out p q minute h = cc
  append_token_timeless out p q second h = cc
  append_token_timeless out p q millisecond h = cc
  append_token_timeless out p q _ h = refl

  abbrev token_text : Token → List ℕ
  token_text t = if is_literal localtime t.type then t.text else field_text t.type

  abbrev rendered : List Token → List ℕ
  rendered [] = []
  rendered (t ∷ ts) = token_text t ++ rendered ts

  rendered-append : (xs ys : List Token) → rendered (xs ++ ys) ≡ rendered xs ++ rendered ys
  rendered-append [] ys = refl
  rendered-append (t ∷ xs) ys =
      ap (λ l. token_text t ++ l) (rendered-append xs ys)
      ∙ sym (append_assoc (token_text t) (rendered xs) (rendered ys))

  abbrev now : TimestampParts
  now = make_timestamp_parts localtime m.timestamp

  abbrev refreshed : TimestampParts → Bool → Bool → TimestampParts
  refreshed parts timed has_time = if timed && not has_time then now else parts

  refreshed-later :
      (parts : TimestampParts) (timed b : Bool)
      → (b ≡ true → parts ≡ now)
      → (b || timed && not b) ≡ true
      → refreshed parts timed b ≡ now
  refreshed-later parts true true h e = h refl
  refreshed-later parts true false h e = refl
  refreshed-later parts false true h e = h refl
  refreshed-later parts false false h e = cc

  refreshed-now :
      (parts : TimestampParts) (timed b : Bool)
      → (b ≡ true → parts ≡ now)
      → timed ≡ true
      → refreshed parts timed b ≡ now
  refreshed-now parts true true h e = h refl
  refreshed-now parts true false h e = refl
  refreshed-now parts false b h e = cc

  field-append :
      (parts : TimestampParts) (b : Bool) (t : TokenType) (out : List ℕ)
      → (b ≡ true → parts ≡ now)
      → append_token localtime out m (refreshed parts (is_time_token t) b) t ≡ out ++ field_text t
  field-append parts b t out h = elim (Bool-cases (is_time_token t)) [
    | inl timed ↦
        ap (λ p. append_token localtime out m p t) (refreshed-now parts (is_time_token t) b h timed)
        ∙ append_token-append out now t
    | inr free ↦ append_token_timeless out _ now t free ∙ append_token-append out now t
  ]

  -- The parts that are computed at the first time token are those that each token would compute.
  format_tokens-rendered :
      (parts : TimestampParts) (has_time : Bool) (ts : List Token) (out : List ℕ)
      → (has_time ≡ true → parts ≡ now)
      → format_tokens localtime parts has_time ts m out ≡ out ++ rendered ts
  unfolding format_tokens
  format_tokens-rendered parts b [] out h = sym (append-nil out)
  format_tokens-rendered parts b (t ∷ ts) out h = elim (Bool-cases (is_literal localtime t.type)) [
    | inl lit ↦ rw lit (
        format_tokens-rendered parts b ts (out ++ t.text) h ∙ append_assoc out t.text (rendered ts))
    | inr field ↦ rw field (
        format_tokens-rendered (refreshed parts (is_time_token t.type) b) _ ts _
          (refreshed-later parts (is_time_token t.type) b h)
        ∙ ap (λ l. l ++ rendered ts) (field-append parts b t.type out h)
        ∙ append_assoc out (field_text t.type) (rendered ts))
  ]

  abbrev meaning : Compiled → List ℕ
  meaning s = rendered s.done ++ s.pending

  -- The local time of the message.
  abbrev clock : Tm
  clock = localtime (quotient m.timestamp 1000000000)

  -- What each specifier stands for: a date or time of the message's time stamp, or a part of it.
  unfoldable pub field_of : ℕ → Option (List ℕ)
  field_of c =
      if c == b'Y'
      then some (padded 4 (clock.tm_year -ℤ negsuc 1899))
      else if c == b'm'
      then some (padded 2 (clock.tm_mon -ℤ negsuc 0))
      else if c == b'd'
      then some (padded 2 clock.tm_mday)
      else if c == b'H'
      then some (padded 2 clock.tm_hour)
      else if c == b'M'
      then some (padded 2 clock.tm_min)
      else if c == b'S'
      then some (padded 2 clock.tm_sec)
      else if c == b'e'
      then some (padded 3 (remainder (quotient m.timestamp 1000000) 1000))
      else if c == b'l'
      then some (to_string m.level)
      else if c == b'n'
      then some (m.logger_name)
      else if c == b't'
      then some (padded 0 (pos m.thread_id))
      else if c == b'v'
      then some (view m.payload)
      else if c == b's'
      then some (base_name m.source.file)
      else if c == b'#'
      then some (line_text m.source.line)
      else if c == b'!'
      then some (m.source.function)
      else none

  -- A specifier other than `+`: a field, `%` for itself, and the unknown ones with their `%`.
  abbrev pub specifier_text : ℕ → List ℕ
  specifier_text d =
      if d == b'%' then b'%' ∷ [] else elim (field_of d) [ none ↦ b'%' ∷ d ∷ [] | some text ↦ text ]

  line-field :
      (line : ℤ)
      → line_text line
        ≡ elim line as (λ _. List ℕ) [ pos (suc n) ↦ append_integer [] (pos (suc n)) 0 | _ ↦ [] ]
  line-field (pos zero) = refl
  line-field (pos (suc n)) = padded-integer 0 (pos (suc n))
  line-field (negsuc n) = refl

  field_of-token : (c : ℕ) → field_of c ≡ on_some field_text (token_type_of c)
  unfolding field_of token_type_of append_token make_timestamp_parts
  field_of-token c = chosen field_text (c == b'Y') _ (padded-integer 4 _) (
      chosen field_text (c == b'm') _ (padded-integer 2 _) (
        chosen field_text (c == b'd') _ (padded-integer 2 _) (
          chosen field_text (c == b'H') _ (padded-integer 2 _) (
            chosen field_text (c == b'M') _ (padded-integer 2 _) (
              chosen field_text (c == b'S') _ (padded-integer 2 _) (
                chosen field_text (c == b'e') _ (padded-integer 3 _) (
                  chosen field_text (c == b'l') _ refl (
                    chosen field_text (c == b'n') _ refl (
                      chosen field_text (c == b't') _ (padded-integer 0 _) (
                        chosen field_text (c == b'v') _ refl (
                          chosen field_text (c == b's') _ refl (
                            chosen field_text (c == b'#') _ (line-field m.source.line)
                              (chosen field_text (c == b'!') _ refl (refl))))))))))))))

  specifier-token :
      (d : ℕ) (o : Option TokenType)
      → token_type_of d ≡ o
      → elim (field_of d) as (λ _. List ℕ) [ none ↦ b'%' ∷ d ∷ [] | some text ↦ text ]
        ≡ elim o as (λ _. List ℕ) [ none ↦ b'%' ∷ d ∷ [] | some t ↦ field_text t ]
  specifier-token d none e = rw (field_of-token d, e) refl
  specifier-token d (some t) e = rw (field_of-token d, e) refl

  -- A pattern read from left to right; `plus` is the text of `%+`.
  abbrev pub interpret_from : List ℕ → List ℕ → List ℕ
  interpret_from plus [] = []
  interpret_from plus (c ∷ []) = c ∷ []
  interpret_from plus (c ∷ d ∷ rest) =
      let plain = c ∷ interpret_from plus (d ∷ rest) in
      let special = (if d == b'+' then plus else specifier_text d) ++ interpret_from plus rest in
      if c == b'%' then special else plain

  flush_literal-meaning :
      (l : List ℕ) (ts : List Token) → rendered (flush_literal l ts) ≡ rendered ts ++ l
  unfolding flush_literal
  flush_literal-meaning [] ts = sym (append-nil (rendered ts))
  flush_literal-meaning (c ∷ l) ts =
      rendered-append ts _ ∙ ap (λ x. rendered ts ++ x) (append-nil (c ∷ l))

  -- No token type of the table is `literal`.
  token_type_of-field :
      (d : ℕ) (t : TokenType) → token_type_of d ≡ some t → is_literal localtime t ≡ false
  unfolding token_type_of
  token_type_of-field d t h = ground arith

  pushed_meaning :
      (t : TokenType) (s : Compiled)
      → is_literal localtime t ≡ false
      → rendered (push_token (flush_literal s.pending s.done) t []) ++ []
        ≡ meaning s ++ field_text t
  pushed_meaning t s field =
      append-nil _
      ∙ rendered-append (flush_literal s.pending s.done) _
      ∙ ap₂ (λ a b. a ++ b) (flush_literal-meaning s.pending s.done)
          (rw field (append-nil (field_text t)))

  compile_specifier-meaning :
      (d : ℕ) (s : Compiled) → meaning (compile_specifier d s) ≡ meaning s ++ specifier_text d
  unfolding compile_specifier
  compile_specifier-meaning d s = elim (Bool-cases (d == b'%')) [
    | inl percent ↦ rw percent (sym (append_assoc (rendered s.done) s.pending _))
    | inr other ↦ elim (Option-cases (token_type_of d)) [
      | inl absent ↦
          rw (other, absent, specifier-token d none absent)
            (sym (append_assoc (rendered s.done) s.pending _))
      | inr (t, present) ↦
          rw (other, present, specifier-token d (some t) present)
            (pushed_meaning t s (token_type_of-field d t present))
    ]
  ]

  step_meaning :
      (plus : Compiled → Compiled) (text : List ℕ)
      → ((s : Compiled) → meaning (plus s) ≡ meaning s ++ text)
      → (d : ℕ) (s : Compiled)
      → meaning (if d == b'+' then plus s else compile_specifier d s)
        ≡ meaning s ++ (if d == b'+' then text else specifier_text d)
  step_meaning plus text h d s = elim (Bool-cases (d == b'+')) [
    | inl e ↦ rw e (h s)
    | inr n ↦ rw n (compile_specifier-meaning d s)
  ]

  compile_from-meaning :
      (plus : Compiled → Compiled) (text : List ℕ)
      → ((s : Compiled) → meaning (plus s) ≡ meaning s ++ text)
      → (p : List ℕ) (s : Compiled)
      → rendered (compile_from plus p s) ≡ meaning s ++ interpret_from text p
  unfolding compile_from
  compile_from-meaning plus text h [] s =
      flush_literal-meaning s.pending s.done ∙ sym (append-nil (meaning s))
  compile_from-meaning plus text h (c ∷ []) s =
      flush_literal-meaning (s.pending ++ c ∷ []) s.done
      ∙ sym (append_assoc (rendered s.done) s.pending (c ∷ []))
  compile_from-meaning plus text h (c ∷ d ∷ rest) s = elim (Bool-cases (c == b'%')) [
    | inl special ↦ rw special (
        compile_from-meaning plus text h rest _
        ∙ ap (λ l. l ++ interpret_from text rest) (step_meaning plus text h d s)
        ∙ append_assoc (meaning s) _ (interpret_from text rest))
    | inr plain ↦ rw plain (
        compile_from-meaning plus text h (d ∷ rest) (record s { pending = s.pending ++ c ∷ [] })
        ∙ simp append_assoc)
  ]

  -- `%+` inside the default pattern stands for itself.
  keep_plus-meaning : (s : Compiled) → meaning (keep_plus s) ≡ meaning s ++ codes "%+"
  unfolding keep_plus
  keep_plus-meaning s = ap (λ l. l ++ codes "%+") (flush_literal-meaning s.pending s.done)

  abbrev pub default_text : List ℕ
  default_text = interpret_from (codes "%+") default_log_pattern

  expand_default-meaning : (s : Compiled) → meaning (expand_default s) ≡ meaning s ++ default_text
  unfolding expand_default
  expand_default-meaning s =
      append-nil _
      ∙ compile_from-meaning keep_plus (codes "%+") keep_plus-meaning default_log_pattern
          (record { pending = []; done = flush_literal s.pending s.done })
      ∙ ap (λ l. l ++ default_text) (append-nil _ ∙ flush_literal-meaning s.pending s.done)

  -- The whole of a pattern, with `%+` for the default pattern.
  abbrev pub interpret : List ℕ → List ℕ
  interpret = interpret_from default_text

  -- A formatter appends to the output exactly what its pattern says, read from left to right: text
  -- stands for itself, `%%` for `%`, `%+` for the default pattern, and an unknown specifier for itself.
  -- Of the message's local time `%Y` is the year in four digits (tm_year + 1900), `%m` the month
  -- (tm_mon + 1), `%d` the day, `%H` the hour, `%M` the minute and `%S` the second, each in two; `%e`
  -- is the milliseconds in three, `%l` the level, `%n` the logger's name, `%t` the thread, `%v` the
  -- payload, `%s` the base name of the file, `%#` its line if it is above 0, `%!` the function.
  pub format_to-interpret :
      (pattern : List ℕ) (output : List ℕ)
      → format_to localtime (make_formatter pattern) output m ≡ output ++ interpret pattern
  unfolding format_to make_formatter
  format_to-interpret pattern output =
      format_tokens-rendered (zero_parts localtime) false (rebuild_tokens pattern) output (λ h. cc)
      ∙ ap (λ l. output ++ l)
          (compile_from-meaning expand_default default_text expand_default-meaning pattern
            (record { pending = []; done = [] }))

  -- A formatter never looks at what the output held before.
  pub format_to-append :
      (f : PatternFormatter) (output : List ℕ)
      → format_to localtime f output m ≡ output ++ format_to localtime f [] m
  unfolding format_to
  format_to-append f output =
      format_tokens-rendered (zero_parts localtime) false f.tokens output (λ h. cc)
      ∙ ap (λ l. output ++ l)
          (sym (format_tokens-rendered (zero_parts localtime) false f.tokens [] (λ h. cc)))

-- ===== src/Logger/Worker/Laws.antt =====
-- What the worker does with the items that it takes, and the counters.
use high_performance_logger.Common.{
  ℕ, suc, ◌+◌, ◌<◌, ◌≡◌, refl, ap, ap₂, ◌∙◌, Bool, true, false, ◌&&◌, ◌||◌, List, [], ◌∷◌, arith,
}
use high_performance_logger.Common.Word.{add64, word_mod}
use high_performance_logger.Level.{LogLevel, should_log}
use high_performance_logger.Message.{LogMessage, QueueItemType, log, flush, QueueItem}
use high_performance_logger.Sinks.Stream.{Result, ok, throw, Exec, bind_result}
use high_performance_logger.Sinks.Interface.{SinkInterface}
use high_performance_logger.Logger.Worker.{
  AsyncLogger, is_log, handle_item, handle_items, handle_written, handle_flush,
}

abbrev item_of : QueueItemType → ℕ → LogMessage → QueueItem
item_of t n m = record { type = t; ticket = n; message = m }

-- The log items of a list.
abbrev pub logs : List QueueItem → ℕ
logs [] = 0
logs (item ∷ items) = elim (is_log item) [ true ↦ 1 + logs items | false ↦ logs items ]

-- The ticket of the last flush item, or the one from before.
abbrev pub last_ticket : ℕ → List QueueItem → ℕ
last_ticket t [] = t
last_ticket t (item ∷ items) =
    last_ticket (elim (is_log item) [ true ↦ t | false ↦ item.ticket ]) items

-- Whether one of the items is a message that the flush level asks to flush.
abbrev pub is_urgent : LogLevel → QueueItem → Bool
is_urgent flush_level item = is_log item && should_log item.message.level flush_level

abbrev pub any_urgent : LogLevel → List QueueItem → Bool
any_urgent flush_level [] = false
any_urgent flush_level (item ∷ items) = is_urgent flush_level item || any_urgent flush_level items

module _ (sink : SinkInterface) where
  open sink use {State, Reading}

  -- What the sink is asked for, one request for each item, in order.
  abbrev pub request : Reading → QueueItem → Exec State (Unit {0})
  request reading item s = elim item.type [
    | flush ↦ sink.flush s
    | log ↦ sink.write reading item.message s
  ]

  abbrev pub requests : (ℕ → Reading) → List QueueItem → Exec State (Unit {0})
  requests readings [] s = (ok tt, s)
  requests readings (item ∷ items) s =
      let (r, s') = request (readings 0) item s in
      let rest = requests (λ i. readings (suc i)) items s' in bind_result (λ _ _. rest) r s'

  -- One item that is handled.
  abbrev pub after : QueueItem → State → AsyncLogger State → AsyncLogger State
  after item s l = elim item.type [
    | flush ↦ record l { sink = s; flush_complete_ticket = item.ticket }
    | log ↦ record l { sink = s; written = add64 l.written 1 }
  ]

  handle_typed :
      (t : QueueItemType) (ticket : ℕ) (message : LogMessage) (reading : Reading)
      (l : AsyncLogger State) (r : Result (Unit {0})) (s : State)
      → let item = item_of t ticket message in
        request reading item l.sink ≡ (r, s)
        → handle_item sink reading item l
          ≡ bind_result
              (λ _ _. (ok (is_urgent l.flush_level item), after item s l))
              r
              (record l { sink = s })
  unfolding handle_item
  handle_typed log ticket message reading l (ok _) s h =
      ap
        (λ p.
          bind_result (λ _. handle_written sink (item_of log ticket message)) p.0
            (record l { sink = p.1 }))
        h
  handle_typed log ticket message reading l (throw e) s h =
      ap
        (λ p.
          bind_result (λ _. handle_written sink (item_of log ticket message)) p.0
            (record l { sink = p.1 }))
        h
  handle_typed flush ticket message reading l (ok _) s h =
      ap
        (λ p.
          bind_result (λ _. handle_flush sink (item_of flush ticket message)) p.0
            (record l { sink = p.1 }))
        h
  handle_typed flush ticket message reading l (throw e) s h =
      ap
        (λ p.
          bind_result (λ _. handle_flush sink (item_of flush ticket message)) p.0
            (record l { sink = p.1 }))
        h

  -- The logger once the sink has done all that the items ask for.
  abbrev pub after_all : List QueueItem → State → AsyncLogger State → AsyncLogger State
  after_all items s l = record l {
    sink = s;
    written = add64 l.written (logs items);
    flush_complete_ticket = last_ticket l.flush_complete_ticket items;
  }

  after_all-after :
      (t : QueueItemType) (ticket : ℕ) (message : LogMessage) (items : List QueueItem)
      (s s' : State) (l : AsyncLogger State)
      → let item = item_of t ticket message in
        after_all items s' (after item s l) ≡ after_all (item ∷ items) s' l
  after_all-after log ticket message items s s' l =
      ap
        (λ n. record l {
          sink = s';
          written = n;
          flush_complete_ticket = last_ticket l.flush_complete_ticket items;
        })
        (omega arith)
  after_all-after flush ticket message items s s' l = refl

  abbrev Handles : List QueueItem → (ℕ → Reading) → State → Type 0
  Handles items readings s =
      (flush_required : Bool) (l : AsyncLogger State)
      → l.written < word_mod
      → requests readings items l.sink ≡ (ok tt, s)
      → handle_items sink readings items flush_required l
        ≡ (ok (any_urgent l.flush_level items || flush_required), after_all items s l)

  -- What is left of the loop after an item.
  abbrev go_on :
      (ℕ → Reading)
      → List QueueItem
      → Bool
      → Result Bool × AsyncLogger State
      → Result Bool × AsyncLogger State
  go_on readings items flush_required p = elim p.0 [
    | ok b ↦ handle_items sink readings items (b || flush_required) p.1
    | throw e ↦ (throw e, p.1)
  ]

  Handles-one :
      (t : QueueItemType) (ticket : ℕ) (message : LogMessage) (items : List QueueItem)
      (readings : ℕ → Reading) (flush_required : Bool) (l : AsyncLogger State) (s s' : State)
      (r : Result (Unit {0}))
      → l.written < word_mod
      → Handles items readings s'
      → bind_result (λ _ _. requests readings items s) r s ≡ (ok tt, s')
      → let item = item_of t ticket message in
        go_on readings items flush_required (
          bind_result
            (λ _ _. (ok (is_urgent l.flush_level item), after item s l))
            r
            (record l { sink = s }))
        ≡ (
          ok (any_urgent l.flush_level (item ∷ items) || flush_required),
          after_all (item ∷ items) s' l,
        )
  Handles-one t ticket message items readings flush_required l s s' (throw e) w rest h = absurd cc
  Handles-one log ticket message items readings flush_required l s s' (ok _) w rest h =
      let urgent = should_log message.level l.flush_level in
      rest (urgent || flush_required) (after (item_of log ticket message) s l) (omega arith) h
      ∙ ap₂ (λ b l'. (ok b, l')) (ground arith) (after_all-after log ticket message items s s' l)
  Handles-one flush ticket message items readings flush_required l s s' (ok _) w rest h =
      rest flush_required (after (item_of flush ticket message) s l) w h

  -- The worker's inner loop over any items, when the sink throws at none of them: the sink has had one request
  -- for each item, in order; `written_` has grown by the number of log items; the flush ticket
  -- completed is that of the last flush item; and a flush is required if one was already or one of
  -- the messages has the flush level.
  pub handle_items_ok :
      (items : List QueueItem) (readings : ℕ → Reading) (flush_required : Bool)
      (l : AsyncLogger State) (s : State)
      → l.written < word_mod
      → requests readings items l.sink ≡ (ok tt, s)
      → handle_items sink readings items flush_required l
        ≡ (ok (any_urgent l.flush_level items || flush_required), after_all items s l)
  unfolding handle_items
  handle_items_ok [] readings flush_required l s w h =
      ap₂ (λ s' n. (ok flush_required, record l { sink = s'; written = n })) (ap (λ p. p.1) h)
        (omega arith)
  handle_items_ok (item ∷ items) readings flush_required l s w h =
      let (r, s') = request (readings 0) item l.sink in
      ap (go_on (λ i. readings (suc i)) items flush_required)
        (handle_typed item.type item.ticket item.message (readings 0) l r s' refl)
      ∙ Handles-one item.type item.ticket item.message items (λ i. readings (suc i)) flush_required
          l s' s r w (λ b l'. handle_items_ok items (λ i. readings (suc i)) b l' s) h

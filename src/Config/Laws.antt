-- ===== src/Config/Laws.antt =====
-- What CreateSink makes of a list of configurations.
use high_performance_logger.Common.{
  ◌≡◌, List, [], ◌∷◌, ◌++◌, refl, ap, ◌∙◌, append_assoc, append-nil, sym,
}
use high_performance_logger.Sinks.Stream.{Result, ok, throw}
use high_performance_logger.Config.{
  SinkConfig, OneSink, AnySink, single, multi, Constructors, and_then, map_result, create_sink,
  create_each, create_sinks,
}

-- One sink is used as it is.
abbrev pub fan_out : List OneSink → AnySink
fan_out (s ∷ []) = single s
fan_out ss = multi ss

ok-inj {ℓ} : {A : Type ℓ} {x y : A} → ok x ≡ ok y → y ≡ x
ok-inj h = cc

module _ (world : Constructors) where
  -- Each sink is made from the configuration at its place.
  abbrev pub Made : List SinkConfig → List OneSink → Type 0
  Made [] [] = Unit
  Made (c ∷ cs) (s ∷ ss) = (create_sink world c ≡ ok s) × Made cs ss
  Made _ _ = ⊥

  abbrev Appended : List SinkConfig → List OneSink → List OneSink → Type 0
  Appended cs sinks all = (ss : List OneSink) × Made cs ss × (all ≡ sinks ++ ss)

  first-Made :
      (c : SinkConfig) (cs : List SinkConfig) (sinks all : List OneSink) (r : Result OneSink)
      → ((sinks' : List OneSink) → create_each world sinks' cs ≡ ok all → Appended cs sinks' all)
      → create_sink world c ≡ r
      → and_then r (λ s. create_each world (sinks ++ s ∷ []) cs) ≡ ok all
      → Appended (c ∷ cs) sinks all
  first-Made c cs sinks all (ok s) rest e h =
      let (ss, made, whole) = rest (sinks ++ s ∷ []) h in
      (s ∷ ss, (e, made), whole ∙ append_assoc sinks (s ∷ []) ss)
  first-Made c cs sinks all (throw m) rest e h = absurd cc

  create_each-Made :
      (cs : List SinkConfig) (sinks all : List OneSink)
      → create_each world sinks cs ≡ ok all
      → Appended cs sinks all
  unfolding create_each
  create_each-Made [] sinks all h = ([], tt, ok-inj h ∙ sym (append-nil sinks))
  create_each-Made (c ∷ cs) sinks all h =
      first-Made c cs sinks all (create_sink world c) (λ sinks'. create_each-Made cs sinks' all)
        refl h

  one-Made :
      (c : SinkConfig) (s : AnySink) (r : Result OneSink)
      → create_sink world c ≡ r
      → map_result single r ≡ ok s
      → (ss : List OneSink) × Made (c ∷ []) ss × (s ≡ fan_out ss)
  one-Made c s (ok x) e h = (x ∷ [], (e, tt), cc)
  one-Made c s (throw m) e h = absurd cc

  fan_out-several :
      (c d : SinkConfig) (cs : List SinkConfig) (ss : List OneSink)
      → Made (c ∷ d ∷ cs) ss
      → multi ss ≡ fan_out ss
  fan_out-several c d cs [] made = absurd made
  fan_out-several c d cs (x ∷ []) made = absurd made.1
  fan_out-several c d cs (x ∷ y ∷ ss) made = refl

  several-Made :
      (c d : SinkConfig) (cs : List SinkConfig) (s : AnySink) (r : Result (List OneSink))
      → create_each world [] (c ∷ d ∷ cs) ≡ r
      → map_result multi r ≡ ok s
      → (ss : List OneSink) × Made (c ∷ d ∷ cs) ss × (s ≡ fan_out ss)
  several-Made c d cs s (throw m) e h = absurd cc
  several-Made c d cs s (ok all) e h =
      let (ss, made, whole) = create_each-Made (c ∷ d ∷ cs) [] all e in
      (ss, made, ok-inj h ∙ ap multi whole ∙ fan_out-several c d cs ss made)

  -- A CreateSink of a list that succeeds has made one sink from each configuration, in order, and
  -- gives the only one as it is or a fan-out over all of them.
  pub create_sinks-Made :
      (cs : List SinkConfig) (s : AnySink)
      → create_sinks world cs ≡ ok s
      → (ss : List OneSink) × Made cs ss × (s ≡ fan_out ss)
  unfolding create_sinks
  create_sinks-Made [] s h = absurd cc
  create_sinks-Made (c ∷ []) s h = one-Made c s (create_sink world c) refl h
  create_sinks-Made (c ∷ d ∷ cs) s h =
      several-Made c d cs s (create_each world [] (c ∷ d ∷ cs)) refl h

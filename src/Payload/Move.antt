-- ===== src/Payload/Move.antt =====
-- Construction, copying and moving of payloads.
use high_performance_logger.Common.{
  ℕ, ◌-◌, ◌≡◌, ◌<◌, List, [], refl, arith, length, ◌∙◌, length-set, set, ◌⊎◌, inl, inr,
  get_elem?-set_self, take-zero,
}
use high_performance_logger.Common.Word.{word_mod}
use high_performance_logger.Payload.{
  LogPayload, Place, inside, on_heap, view, reset_inline, move_from, move_at, assign, empty_payload,
  from_text, copy_of,
}
use high_performance_logger.Payload.Laws.{IsValid, Becomes, assign-Becomes, empty_payload-IsValid}

reset_inline-IsValid :
    (p : LogPayload) → IsValid p → IsValid (reset_inline p) × (view (reset_inline p) ≡ [])
unfolding reset_inline
reset_inline-IsValid p v = (
  record {
    inline_bytes = length-set p.inline_storage 0 0 ∙ v.inline_bytes;
    stored = refl;
    fits = omega arith;
    terminated = get_elem?-set_self p.inline_storage 0 0 (omega arith);
  },
  take-zero (set p.inline_storage 0 0),
)

-- After a move: both payloads are valid, the target holds the text of the source, and the source is
-- empty, or unchanged where its text is inline.
pub record Moved (other q rest : LogPayload) : Type 0 where
  pub target : IsValid q
  pub source : IsValid rest
  pub holds : view q ≡ view other
  pub left :
      ((view rest ≡ []) × (other.data_at ≡ on_heap)) ⊎ ((rest ≡ other) × (other.data_at ≡ inside))

move_at-Moved :
    (d : Place) (p other : LogPayload)
    → other.data_at ≡ d
    → IsValid p
    → IsValid other
    → length (view other) < word_mod - 1
    → Moved other (move_at d p other).0 (move_at d p other).1
unfolding move_at
move_at-Moved inside p other e v o h = record {
  target = done.valid;
  source = o;
  holds = done.holds;
  left = inr (refl, e);
}
  where
    done : Becomes (reset_inline p) (assign (reset_inline p) (view other)) (view other)
    done = assign-Becomes (reset_inline p) (reset_inline-IsValid p v).0 (view other) h
move_at-Moved on_heap p other e v o h = record {
  target = record {
    inline_bytes = v.inline_bytes;
    stored = ground arith;
    fits = o.fits;
    terminated = ground arith;
  };
  source = (reset_inline-IsValid other o).0;
  holds = ground arith;
  left = inl ((reset_inline-IsValid other o).1, e);
}

-- Moving one valid payload into another leaves both valid, the target with the text of the source,
-- and the source empty if its text was on the heap and unchanged if it was inline.
pub move_from-Moved :
    (p other : LogPayload)
    → IsValid p
    → IsValid other
    → length (view other) < word_mod - 1
    → Moved other (move_from p other).0 (move_from p other).1
unfolding move_from
move_from-Moved p other v o h = move_at-Moved other.data_at p other refl v o h

-- A copy is valid and holds the text of the original; so does a payload made from a text.
pub copy_of-view :
    (other : LogPayload)
    → length (view other) < word_mod - 1
    → IsValid (copy_of other) × (view (copy_of other) ≡ view other)
unfolding copy_of
copy_of-view other h = (done.valid, done.holds)
  where
    done : Becomes empty_payload (assign empty_payload (view other)) (view other)
    done = assign-Becomes empty_payload empty_payload-IsValid.0 (view other) h

-- A payload made from a text is valid and holds it.
pub view-from_text :
    (text : List ℕ)
    → length text < word_mod - 1
    → IsValid (from_text text) × (view (from_text text) ≡ text)
unfolding from_text
view-from_text text h = (done.valid, done.holds)
  where
    done : Becomes empty_payload (assign empty_payload text) text
    done = assign-Becomes empty_payload empty_payload-IsValid.0 text h

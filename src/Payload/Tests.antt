-- ===== src/Payload/Tests.antt =====
-- The theorems on payloads at concrete inputs.
use high_performance_logger.Common.{◌≡◌, none, List, [], ◌∷◌, arith}
use high_performance_logger.Common.Text.{codes}
use high_performance_logger.Common.Decimal.{decimal_ℤ}
use high_performance_logger.Common.Int.{pos}
use high_performance_logger.Payload.{LogPayload, from_text, view, move_from, empty_payload}
use high_performance_logger.Payload.Laws.{IsValid, empty_payload-IsValid}
use high_performance_logger.Payload.Edits.{
  Edit, appending, pushing, assigning, appending_c, clearing, edit_each, edit_text_each,
  edit_each_lem,
}
use high_performance_logger.Payload.Move.{Moved, move_from-Moved, view-from_text}
use high_performance_logger.Payload.Parts.{Arg, text_arg, integral_arg, build_payload}
use high_performance_logger.Payload.Parts.Render.{Compact, render_all, build_payload-Compact}

abbrev hi : LogPayload
hi = empty_payload

hi-IsValid : IsValid hi
hi-IsValid = empty_payload-IsValid.0

abbrev args : List Arg
args = text_arg (codes "n = ") ∷ integral_arg 9 (pos 42) ∷ []

build_payload-Compact_example : Compact (build_payload args) (render_all args)
unfolding decimal_ℤ
build_payload-Compact_example = build_payload-Compact args (tt, (omega arith, tt)) (omega arith)

abbrev some_edits : List Edit
some_edits =
    appending (codes "text")
    ∷ pushing 33
    ∷ assigning (codes "new ")
    ∷ appending_c none
    ∷ clearing
    ∷ []

edit_each_lem_example :
    IsValid (edit_each hi some_edits)
    × (view (edit_each hi some_edits) ≡ edit_text_each (view hi) some_edits)
unfolding empty_payload
edit_each_lem_example =
    edit_each_lem hi some_edits hi-IsValid
      (omega arith, (omega arith, (omega arith, (omega arith, (omega arith, tt)))))

move_from-Moved_example : Moved hi (move_from hi hi).0 (move_from hi hi).1
unfolding empty_payload
move_from-Moved_example = move_from-Moved hi hi hi-IsValid hi-IsValid (omega arith)

view-from_text_example :
    IsValid (from_text (codes "text")) × (view (from_text (codes "text")) ≡ codes "text")
view-from_text_example = view-from_text (codes "text") (omega arith)

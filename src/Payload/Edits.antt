-- ===== src/Payload/Edits.antt =====
-- Sequences of the operations of include/hlog/detail/log_payload.h that change a payload's text.
use high_performance_logger.Common.{
  ℕ, ◌-◌, ◌<◌, ◌≡◌, Option, none, some, List, [], ◌∷◌, ◌++◌, length, refl, sym, ◌∙◌, ap, append-nil,
}
use mathlib.Core.Path.{subst}
use high_performance_logger.Common.Word.{word_mod}
use high_performance_logger.Payload.{
  LogPayload, assign, append, push_back, clear, view, assign_c_string, append_c_string,
}
use high_performance_logger.Payload.Laws.{
  IsValid, Becomes, assign-Becomes, append-Becomes, push_back-Becomes, clear-Becomes,
}

-- One operation; a C string may be null.
pub data Edit : Type 0 where
  clearing : Edit
  assigning appending : List ℕ → Edit
  assigning_c appending_c : Option (List ℕ) → Edit
  pushing : ℕ → Edit

unfoldable pub edit : LogPayload → Edit → LogPayload
edit p clearing = clear p
edit p (assigning text) = assign p text
edit p (appending text) = append p text
edit p (assigning_c text) = assign_c_string p text
edit p (appending_c text) = append_c_string p text
edit p (pushing c) = push_back p c

unfoldable pub edit_each : LogPayload → List Edit → LogPayload
unfolding edit
edit_each p [] = p
edit_each p (e ∷ edits) = edit_each (edit p e) edits

-- What the operations do to a plain text.
abbrev pub text_of : Option (List ℕ) → List ℕ
text_of none = []
text_of (some text) = text

abbrev pub edit_text : List ℕ → Edit → List ℕ
edit_text t clearing = []
edit_text t (assigning text) = text
edit_text t (appending text) = t ++ text
edit_text t (assigning_c text) = text_of text
edit_text t (appending_c text) = t ++ text_of text
edit_text t (pushing c) = t ++ c ∷ []

abbrev pub edit_text_each : List ℕ → List Edit → List ℕ
edit_text_each t [] = t
edit_text_each t (e ∷ edits) = edit_text_each (edit_text t e) edits

-- No text on the way is longer than memory can be.
abbrev pub AllFit : List ℕ → List Edit → Type 0
AllFit t [] = Unit {0}
AllFit t (e ∷ edits) = (length (edit_text t e) < word_mod - 1) × AllFit (edit_text t e) edits

record Edited (q : LogPayload) (text : List ℕ) : Type 0 where
  valid : IsValid q
  holds : view q ≡ text

from-Becomes : {p q : LogPayload} {text : List ℕ} → Becomes p q text → Edited q text
from-Becomes b = record { valid = b.valid; holds = b.holds }

edit-Edited :
    (p : LogPayload) (e : Edit)
    → IsValid p
    → length (edit_text (view p) e) < word_mod - 1
    → Edited (edit p e) (edit_text (view p) e)
unfolding edit assign_c_string append_c_string
edit-Edited p clearing v l = from-Becomes (clear-Becomes p v)
edit-Edited p (assigning text) v l = from-Becomes (assign-Becomes p v text l)
edit-Edited p (appending text) v l = from-Becomes (append-Becomes p v text l)
edit-Edited p (assigning_c none) v l = from-Becomes (clear-Becomes p v)
edit-Edited p (assigning_c (some text)) v l = from-Becomes (assign-Becomes p v text l)
edit-Edited p (appending_c none) v l = record { valid = v; holds = sym (append-nil (view p)) }
edit-Edited p (appending_c (some text)) v l = from-Becomes (append-Becomes p v text l)
edit-Edited p (pushing c) v l = from-Becomes (push_back-Becomes p v c l)

-- Any sequence of assignments, appends, pushed characters and clears leaves a valid payload valid,
-- and its text is what the same sequence makes of a plain text, while that fits into memory.
pub edit_each_lem :
    (p : LogPayload) (edits : List Edit)
    → IsValid p
    → AllFit (view p) edits
    → IsValid (edit_each p edits) × (view (edit_each p edits) ≡ edit_text_each (view p) edits)
unfolding edit_each
edit_each_lem p [] v f = (v, refl)
edit_each_lem p (e ∷ edits) v (l, f) =
    let done = edit-Edited p e v l in
    let (valid, holds) =
      edit_each_lem (edit p e) edits done.valid (subst (λ t. AllFit t edits) (sym done.holds) f) in
    (valid, holds ∙ ap (λ t. edit_text_each t edits) done.holds)

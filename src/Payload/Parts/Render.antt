-- ===== src/Payload/Parts/Render.antt =====
-- A logging call writes its arguments one after the other, whatever storage the payload uses.
use high_performance_logger.Common.{
  ℕ, suc, ◌+◌, ◌-◌, ◌^◌, ◌<◌, ◌≤◌, ◌≡◌, true, false, none, some, List, [], ◌∷◌, ◌++◌, if◌then◌else◌,
  leb, length, refl, arith, append_assoc, append-nil, length-append, ap, sym, ◌∙◌,
}
use mathlib.Core.Path.{subst}
use high_performance_logger.Common.Text.{codes}
use high_performance_logger.Common.Word.{word_mod}
use high_performance_logger.Common.Int.{ℤ, pos, negsuc}
use high_performance_logger.Common.Decimal.{decimal_ℤ, to_chars, length-decimal}
use high_performance_logger.Payload.{
  LogPayload, inside, on_heap, inline_capacity, view, empty_payload,
}
use high_performance_logger.Payload.Laws.{
  IsValid, Becomes, append-Becomes, push_back-Becomes, empty_payload-IsValid,
}
use high_performance_logger.Payload.Parts.{
  Arg, payload_arg, text_arg, pointer_arg, array_arg, char_arg, raw_char_arg, bool_arg,
  integral_arg, streamed, until_zero, append_some, append_payload_part, append_parts, build_payload,
}

-- The text of an argument.
abbrev pub render : Arg → List ℕ
render (payload_arg value) = view value
render (text_arg value) = value
render (pointer_arg none) = codes "(null)"
render (pointer_arg (some value)) = value
render (array_arg value) = until_zero value
render (char_arg value) = value ∷ []
render (raw_char_arg value) = value ∷ []
render (bool_arg true) = b'1' ∷ []
render (bool_arg false) = b'0' ∷ []
render (integral_arg digits10 value) = decimal_ℤ value
render (streamed text) = text

abbrev pub render_all : List Arg → List ℕ
render_all [] = []
render_all (a ∷ args) = render a ++ render_all args

-- A value of an integral type with `digits10` has at most one more digit.
abbrev pub InType : Arg → Type 0
InType (integral_arg d (pos n)) = n < 10 ^ suc d
InType (integral_arg d (negsuc n)) = suc n < 10 ^ suc d
InType _ = Unit

abbrev pub AllInType : List Arg → Type 0
AllInType [] = Unit
AllInType (a ∷ args) = InType a × AllInType args

-- The buffer of `digits10 + 3` characters holds every value of the type.
to_chars-decimal :
    (d : ℕ) (v : ℤ)
    → InType (integral_arg d v)
    → to_chars (d + 3) (decimal_ℤ v) ≡ some (decimal_ℤ v)
unfolding to_chars decimal_ℤ
to_chars-decimal d (pos n) h = ground (arith, length-decimal d n h)
to_chars-decimal d (negsuc n) h = ground (arith, length-decimal d (suc n) h)

part-Becomes :
    (p : LogPayload) (a : Arg)
    → IsValid p
    → InType a
    → length (view p ++ render a) < word_mod - 1
    → Becomes p (append_payload_part p a) (view p ++ render a)
unfolding append_payload_part
part-Becomes p (payload_arg value) v t h = append-Becomes p v (view value) h
part-Becomes p (text_arg value) v t h = append-Becomes p v value h
part-Becomes p (pointer_arg none) v t h = append-Becomes p v (codes "(null)") h
part-Becomes p (pointer_arg (some value)) v t h = append-Becomes p v value h
part-Becomes p (array_arg value) v t h = append-Becomes p v (until_zero value) h
part-Becomes p (char_arg value) v t h = push_back-Becomes p v value h
part-Becomes p (raw_char_arg value) v t h = push_back-Becomes p v value h
part-Becomes p (bool_arg true) v t h = push_back-Becomes p v b'1' h
part-Becomes p (bool_arg false) v t h = push_back-Becomes p v b'0' h
part-Becomes p (integral_arg d value) v t h =
    subst (λ o. Becomes p (append_some p o) (view p ++ decimal_ℤ value))
      (sym (to_chars-decimal d value t)) (append-Becomes p v (decimal_ℤ value) h)
part-Becomes p (streamed text) v t h = append-Becomes p v text h

-- The payload is inline exactly while its text fits.
pub record Compact (p : LogPayload) (text : List ℕ) : Type 0 where
  pub valid : IsValid p
  pub holds : view p ≡ text
  pub place : p.data_at ≡ (if leb (length text) inline_capacity then inside else on_heap)

Becomes-Compact :
    (p q : LogPayload) (text more : List ℕ)
    → Compact p text
    → Becomes p q (view p ++ more)
    → Compact q (text ++ more)
Becomes-Compact p q text more c b = record {
  valid = b.valid;
  holds = b.holds ∙ ap (λ l. l ++ more) c.holds;
  place = ground (
    arith,
    ap (λ l. length (l ++ more)) c.holds,
    length-append text more,
    b.place,
    c.place,
    c.valid.stored,
  );
}

append_parts-Compact :
    (p : LogPayload) (args : List Arg) (text : List ℕ)
    → Compact p text
    → AllInType args
    → length (text ++ render_all args) < word_mod - 1
    → Compact (append_parts p args) (text ++ render_all args)
unfolding append_parts
append_parts-Compact p [] text c t h = subst (Compact p) (sym (append-nil text)) c
append_parts-Compact p (a ∷ args) text c t h =
    subst (Compact (append_parts (append_payload_part p a) args))
      (append_assoc text (render a) (render_all args))
      (append_parts-Compact (append_payload_part p a) args (text ++ render a)
        (Becomes-Compact p _ text (render a) c (
          part-Becomes p a c.valid t.0
            (omega (arith, ap (λ l. length (l ++ render a)) c.holds, sizes, h))))
        t.1 (omega (arith, regrouped, h)))
  where
    regrouped :
        length ((text ++ render a) ++ render_all args)
        ≡ length (text ++ (render a ++ render_all args))
    regrouped = ap (length {A = ℕ}) (append_assoc text (render a) (render_all args))

    sizes : length (text ++ render a) ≤ length (text ++ (render a ++ render_all args))
    sizes = omega (arith, regrouped, length-append (text ++ render a) (render_all args))

-- The payload of a logging call holds the texts of its arguments in order, is well formed, and
-- stays in the inline buffer exactly if they have at most 256 bytes together, for integers within
-- their types and less than 2 ^ 64 - 1 bytes.
pub build_payload-Compact :
    (args : List Arg)
    → AllInType args
    → length (render_all args) < word_mod - 1
    → Compact (build_payload args) (render_all args)
unfolding build_payload empty_payload
build_payload-Compact args t h =
    append_parts-Compact empty_payload args []
      (record { valid = empty_payload-IsValid.0; holds = empty_payload-IsValid.1; place = refl }) t
      h

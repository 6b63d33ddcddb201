-- ===== src/Payload/Parts.antt =====
-- include/hlog/async_logger.h, `AppendPayloadPart` and `BuildPayload`: each argument of a logging
-- call is appended to the payload in turn.
pub mod Render
use high_performance_logger.Common.{
  ℕ, suc, ◌+◌, ◌^◌, ◌<◌, Bool, true, false, Option, none, some, List, [], ◌∷◌, ◌++◌, if◌then◌else◌,
  ◌==◌,
}
use high_performance_logger.Common.Text.{codes}
use high_performance_logger.Common.Int.{ℤ, pos, negsuc}
use high_performance_logger.Common.Decimal.{decimal_ℤ, to_chars}
use high_performance_logger.Payload.{LogPayload, view, append, push_back, empty_payload}

-- An argument by the branch of `if constexpr` that its type takes. `streamed` is the text that
-- `operator<<` of a floating-point or another streamable type writes.
pub data Arg : Type 0 where
  payload_arg : LogPayload → Arg
  text_arg : List ℕ → Arg
  pointer_arg : Option (List ℕ) → Arg  -- `const char*`, up to its zero
  array_arg : List ℕ → Arg  -- `char[n]`
  char_arg : ℕ → Arg
  raw_char_arg : ℕ → Arg  -- `signed char`, `unsigned char`: the byte
  bool_arg : Bool → Arg
  integral_arg : (digits10 : ℕ) → ℤ → Arg
  streamed : List ℕ → Arg

-- `std::string_view` of a zero-terminated array.
abbrev pub until_zero : List ℕ → List ℕ
until_zero [] = []
until_zero (c ∷ cs) = let rest = c ∷ until_zero cs in if c == 0 then [] else rest

append_some : LogPayload → Option (List ℕ) → LogPayload
unfolding append
append_some p none = p
append_some p (some text) = append p text

unfoldable pub append_payload_part : LogPayload → Arg → LogPayload
unfolding append_some
append_payload_part p (payload_arg value) = append p (view value)
append_payload_part p (text_arg value) = append p value
append_payload_part p (pointer_arg none) = append p (codes "(null)")
append_payload_part p (pointer_arg (some value)) = append p value
append_payload_part p (array_arg value) = append p (until_zero value)
append_payload_part p (char_arg value) = push_back p value
append_payload_part p (raw_char_arg value) = push_back p value
append_payload_part p (bool_arg value) = push_back p (if value then b'1' else b'0')
append_payload_part p (integral_arg digits10 value) =
    append_some p (to_chars (digits10 + 3) (decimal_ℤ value))
append_payload_part p (streamed text) = append p text

append_parts : LogPayload → List Arg → LogPayload
unfolding append_payload_part
append_parts p [] = p
append_parts p (a ∷ args) = append_parts (append_payload_part p a) args

unfoldable pub build_payload : List Arg → LogPayload
unfolding append_parts
build_payload args = append_parts empty_payload args

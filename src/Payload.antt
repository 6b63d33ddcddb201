-- ===== src/Payload.antt =====
-- include/hlog/detail/log_payload.h: the message text, in 256 bytes inside the object or on the
-- heap. The bytes passed to an operation never point into the payload that it changes.
pub mod Laws
pub mod Edits
pub mod Move
pub mod Parts
mod Tests
use high_performance_logger.Common.{
  ℕ, zero, suc, ◌+◌, ◌*◌, ◌%◌, ◌^◌, max, Bool, true, false, Option, none, some, List, [], ◌∷◌, leb,
  ◌==◌, if◌then◌else◌, length, set, take, replicate, overwrite,
}
use high_performance_logger.Common.Word.{add64, word_mod}

abbrev pub inline_capacity : ℕ
inline_capacity = 256

-- Where `data_` points.
pub data Place : Type 0 where
  inside on_heap : Place

pub record LogPayload : Type 0 where
  pub inline_storage : List ℕ
  pub heap_storage : Option (List ℕ)
  pub data_at : Place
  pub size : ℕ
  pub capacity : ℕ

abbrev heap_bytes : Option (List ℕ) → List ℕ
heap_bytes none = []
heap_bytes (some h) = h

abbrev bytes_at : Place → LogPayload → List ℕ
bytes_at inside p = p.inline_storage
bytes_at on_heap p = heap_bytes p.heap_storage

-- The array that `data_` points to, and the payload with that array replaced.
abbrev pub bytes : LogPayload → List ℕ
bytes p = bytes_at p.data_at p

abbrev write_at : Place → LogPayload → List ℕ → LogPayload
write_at inside p b = record p { inline_storage = b }
write_at on_heap p b = record p { heap_storage = some b }

abbrev pub write : LogPayload → List ℕ → LogPayload
write p b = write_at p.data_at p b

-- `data_[size_] = '\0'`
abbrev pub terminate : LogPayload → LogPayload
terminate p = write p (set (bytes p) p.size 0)

unfoldable pub reset_inline : LogPayload → LogPayload
reset_inline p = record {
  inline_storage = set p.inline_storage 0 0;
  heap_storage = none;
  data_at = inside;
  size = 0;
  capacity = inline_capacity;
}

-- `LogPayload()`: the storage is zeroed, then reset.
unfoldable pub empty_payload : LogPayload
unfolding reset_inline
empty_payload = reset_inline (record {
  inline_storage = replicate (inline_capacity + 1) 0;
  heap_storage = none;
  data_at = inside;
  size = 0;
  capacity = inline_capacity;
})

-- `make_unique<char[]>` zeroes the array; `size_` bytes are copied, and a zero follows them.
grow : LogPayload → ℕ → LogPayload
grow p new_capacity = record p {
  heap_storage =
      some
        (set (overwrite (replicate (add64 new_capacity 1) 0) 0 (take p.size (bytes p))) p.size 0);
  data_at = on_heap;
  capacity = new_capacity;
}

unfoldable pub ensure_capacity : LogPayload → ℕ → LogPayload
unfolding grow
ensure_capacity p required_size =
    if leb required_size p.capacity
    then p
    else grow p (max (p.capacity * 2 % word_mod) required_size)

-- A `memcpy` of no bytes changes nothing, so the tests for an empty text need no branch here.
unfoldable pub assign : LogPayload → List ℕ → LogPayload
unfolding ensure_capacity
assign p value =
    let q = ensure_capacity p (length value) in
    terminate (record (write q (overwrite (bytes q) 0 value)) { size = length value })

unfoldable pub append : LogPayload → List ℕ → LogPayload
unfolding ensure_capacity
append p [] = p
append p (c ∷ value) =
    let n = length (c ∷ value) in
    let q = ensure_capacity p (add64 p.size n) in
    terminate (record (write q (overwrite (bytes q) q.size (c ∷ value))) { size = add64 q.size n })

unfoldable pub push_back : LogPayload → ℕ → LogPayload
unfolding ensure_capacity
push_back p value =
    let q = ensure_capacity p (add64 p.size 1) in
    terminate (record (write q (set (bytes q) q.size value)) { size = add64 q.size 1 })

unfoldable pub clear : LogPayload → LogPayload
clear p = terminate (record p { size = 0 })

abbrev pub view : LogPayload → List ℕ
view p = take p.size (bytes p)

abbrev pub is_inline : LogPayload → Bool
is_inline p = elim p.data_at [ inside ↦ true | on_heap ↦ false ]

abbrev pub is_empty : LogPayload → Bool
is_empty p = p.size == 0

-- `MoveFrom`: the payload moved into, and what is left of the other.
move_at : Place → LogPayload → LogPayload → LogPayload × LogPayload
unfolding assign reset_inline
move_at inside p other = (assign (reset_inline p) (view other), other)
move_at on_heap p other = (
  record p {
    heap_storage = other.heap_storage;
    data_at = on_heap;
    capacity = other.capacity;
    size = other.size;
  },
  reset_inline other,
)

unfoldable pub move_from : LogPayload → LogPayload → LogPayload × LogPayload
unfolding move_at
move_from p other = move_at other.data_at p other

-- The constructors, and assignment of a text and of a `const char*`.
unfoldable pub from_text : List ℕ → LogPayload
unfolding empty_payload assign
from_text value = assign empty_payload value

unfoldable pub from_c_string : Option (List ℕ) → LogPayload
unfolding empty_payload assign
from_c_string none = empty_payload
from_c_string (some value) = assign empty_payload value

unfoldable pub copy_of : LogPayload → LogPayload
unfolding empty_payload assign
copy_of other = assign empty_payload (view other)

unfoldable pub moved_out_of : LogPayload → LogPayload × LogPayload
unfolding empty_payload move_from
moved_out_of other = move_from empty_payload other

unfoldable pub assign_c_string : LogPayload → Option (List ℕ) → LogPayload
unfolding clear assign
assign_c_string p none = clear p
assign_c_string p (some value) = assign p value

unfoldable pub append_c_string : LogPayload → Option (List ℕ) → LogPayload
unfolding append
append_c_string p none = p
append_c_string p (some value) = append p value

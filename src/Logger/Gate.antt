-- ===== src/Logger/Gate.antt =====
-- `operation_state_` of src/core/async_logger.cpp: one 64-bit word that counts the operations in
-- progress, with bit 63 set once the logger is stopping. Each function is one atomic update: the
-- loops around the compare-exchanges repeat until one succeeds.
pub mod Laws
use high_performance_logger.Common.{
  ℕ, ◌-◌, ◌^◌, Bool, true, false, ◌&&◌, not, Option, none, some, ◌==◌,
}
use high_performance_logger.Common.Word.{add64, sub64}
use Prim.Native.Nat.{bit_and, bit_or}

abbrev pub operation_gate_closed_bit : ℕ
operation_gate_closed_bit = 2 ^ 63

abbrev pub active_operation_mask : ℕ
active_operation_mask = 2 ^ 63 - 1

unfoldable pub stop_requested : ℕ → Bool
stop_requested state = not (bit_and state operation_gate_closed_bit == 0)

unfoldable pub active_operation_count : ℕ → ℕ
active_operation_count state = bit_and state active_operation_mask

-- The state with the operation in progress, or `none` for an empty guard.
unfoldable pub try_start_operation : ℕ → Option ℕ
try_start_operation state = elim (stop_requested state) [
  | true ↦ none
  | false ↦ some (add64 state 1)
]

-- The new state, and whether the worker is notified.
unfoldable pub finish_operation : ℕ → ℕ × Bool
finish_operation previous =
    let remaining = sub64 (active_operation_count previous) 1 in
    (sub64 previous 1, stop_requested previous && (remaining == 0))

-- The new state, and whether this call closed the gate.
unfoldable pub request_stop : ℕ → ℕ × Bool
request_stop state = elim (stop_requested state) [
  | true ↦ (state, false)
  | false ↦ (bit_or state operation_gate_closed_bit, true)
]

-- What the worker leaves its loop on.
unfoldable pub is_quiescent : ℕ → Bool
is_quiescent state = stop_requested state && (active_operation_count state == 0)

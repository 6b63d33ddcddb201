-- ===== src/Logger/Gate/Laws.antt =====
-- The word of Logger/Gate.antt stands for a flag and a count.
use high_performance_logger.Common.{
  ℕ, zero, suc, ◌+◌, ◌-◌, ◌*◌, ◌/◌, ◌^◌, ◌<◌, ◌≤◌, ◌≡◌, refl, ap, ap₂, ◌∙◌, Bool, true, false, ◌&&◌,
  Option, none, some, ◌==◌, not, arith,
}
use high_performance_logger.Common.Bits.{bit_and_step, bit_or_step, bit_and-ones}
use native.Mathlib.Nat.{pow-suc, pow-succ'}
use high_performance_logger.Logger.Gate.{
  stop_requested, active_operation_count, try_start_operation, finish_operation, request_stop,
  is_quiescent,
}
use Prim.Native.Nat.{bit_and, bit_or}

pub record Gate : Type 0 where
  pub closed : Bool
  pub active : ℕ

abbrev pub word_of : Gate → ℕ
word_of g = elim g.closed [ true ↦ 2 ^ 63 + g.active | false ↦ g.active ]

-- The bit above `n < 2 ^ k` is the only one that a mask of that bit lets through.
bit_and-power : (k c n : ℕ) → c ≤ 1 → n < 2 ^ k → bit_and (c * 2 ^ k + n) (2 ^ k) ≡ c * 2 ^ k
bit_and-power zero c n small less = bit_and-ones 1 (c * 2 ^ 0 + n) ∙ omega arith
bit_and-power (suc k) c n small less =
    bit_and_step (c * 2 ^ suc k + n) (2 ^ suc k)
    ∙ omega (
      arith,
      ap₂ bit_and half half',
      bit_and-power k c (n / 2) small (omega (arith, pow-suc 2 k)),
      pow-suc 2 k,
      double,
    )
  where
    double : c * 2 ^ suc k ≡ 2 * (c * 2 ^ k)
    double = ap (λ (m : ℕ). c * m) (pow-succ' 2 k) ∙ ground arith

    half : (c * 2 ^ suc k + n) / 2 ≡ c * 2 ^ k + n / 2
    half = omega (arith, double)

    half' : 2 ^ suc k / 2 ≡ 2 ^ k
    half' = omega (arith, pow-succ' 2 k)

bit_or-power : (k n : ℕ) → n < 2 ^ k → bit_or n (2 ^ k) ≡ 2 ^ k + n
bit_or-power zero zero less = refl
bit_or-power zero (suc n) less = absurd (omega arith)
bit_or-power (suc k) n less =
    bit_or_step n (2 ^ suc k)
    ∙ omega (
      arith,
      ap (bit_or (n / 2)) half,
      bit_or-power k (n / 2) (omega (arith, pow-succ' 2 k)),
      pow-succ' 2 k,
    )
  where
    half : 2 ^ suc k / 2 ≡ 2 ^ k
    half = omega (arith, pow-succ' 2 k)

pub stop_requested_lem :
    (b : Bool) (n : ℕ)
    → n < 2 ^ 63
    → stop_requested (word_of (record { closed = b; active = n })) ≡ b
unfolding stop_requested
stop_requested_lem true n less = ground (arith, bit_and-power 63 1 n (omega arith) less)
stop_requested_lem false n less = ground (arith, bit_and-power 63 0 n (omega arith) less)

pub count_lem :
    (b : Bool) (n : ℕ)
    → n < 2 ^ 63
    → active_operation_count (word_of (record { closed = b; active = n })) ≡ n
unfolding active_operation_count
count_lem true n less = omega (arith, bit_and-ones 63 (2 ^ 63 + n))
count_lem false n less = omega (arith, bit_and-ones 63 n)

-- What an operation does to a gate, and what it answers.
pub data GateCall : Type 0 where
  start_operation end_operation close_gate : GateCall

abbrev pub start_gate : Gate → Gate × Bool
start_gate g = elim g.closed [
  | true ↦ (g, false)
  | false ↦ (record g { active = g.active + 1 }, true)
]

abbrev pub end_gate : Gate → Gate × Bool
end_gate g = (record g { active = g.active - 1 }, g.closed && (g.active - 1 == 0))

abbrev pub gate_call : GateCall → Gate → Gate × Bool
gate_call start_operation g = start_gate g
gate_call end_operation g = end_gate g
gate_call close_gate g = (record g { closed = true }, not g.closed)

abbrev started : ℕ → Option ℕ → ℕ × Bool
started state none = (state, false)
started state (some next) = (next, true)

abbrev pub word_call : GateCall → ℕ → ℕ × Bool
word_call start_operation state = started state (try_start_operation state)
word_call end_operation state = finish_operation state
word_call close_gate state = request_stop state

-- No operation ends that has not started, and there is room for one more.
abbrev pub Allowed : GateCall → Gate → Type 0
Allowed start_operation g = g.active + 1 < 2 ^ 63
Allowed end_operation g = (0 < g.active) × (g.active < 2 ^ 63)
Allowed close_gate g = g.active < 2 ^ 63

abbrev Agree : GateCall → Gate → Type 0
Agree c g = word_call c (word_of g) ≡ (word_of (gate_call c g).0, (gate_call c g).1)

start-Agree :
    (b : Bool) (n : ℕ) → n + 1 < 2 ^ 63 → Agree start_operation (record { closed = b; active = n })
unfolding try_start_operation
start-Agree true n h = ground (arith, stop_requested_lem true n (omega arith))
start-Agree false n h = ground (arith, stop_requested_lem false n (omega arith))

end-Agree :
    (b : Bool) (n : ℕ)
    → 0 < n
    → n < 2 ^ 63
    → Agree end_operation (record { closed = b; active = n })
unfolding finish_operation
end-Agree true n h h' =
    ap₂ (λ (a : ℕ) (c : Bool). (a, c)) (omega arith)
      (ground (arith, stop_requested_lem true n h', count_lem true n h'))
end-Agree false n h h' =
    ap₂ (λ (a : ℕ) (c : Bool). (a, c)) (omega arith) (ground (arith, stop_requested_lem false n h'))

close-Agree : (b : Bool) (n : ℕ) → n < 2 ^ 63 → Agree close_gate (record { closed = b; active = n })
unfolding request_stop
close-Agree true n h = ground (arith, stop_requested_lem true n h)
close-Agree false n h = ground (arith, stop_requested_lem false n h, bit_or-power 63 n h)

-- Each of TryStartOperation, FinishOperation and RequestStop on the word does what the flag and
-- the count say and gives their answer (started; the worker must be notified; closed by this call),
-- as long as fewer than 2 ^ 63 operations are in progress and none ends that has not started.
pub word_call-gate_call :
    (c : GateCall) (g : Gate)
    → Allowed c g
    → word_call c (word_of g) ≡ (word_of (gate_call c g).0, (gate_call c g).1)
word_call-gate_call start_operation g h = start-Agree g.closed g.active h
word_call-gate_call end_operation g (h, h') = end-Agree g.closed g.active h h'
word_call-gate_call close_gate g h = close-Agree g.closed g.active h

-- The worker's exit test on the word holds exactly if the gate is closed and no operation is in
-- progress, for fewer than 2 ^ 63 operations.
pub is_quiescent_lem :
    (g : Gate) → g.active < 2 ^ 63 → is_quiescent (word_of g) ≡ (g.closed && (g.active == 0))
unfolding is_quiescent
is_quiescent_lem g h =
    ap₂ (λ (c : Bool) (n : ℕ). c && (n == 0)) (stop_requested_lem g.closed g.active h)
      (count_lem g.closed g.active h)

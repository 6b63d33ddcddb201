-- ===== src/Sinks/Stream.antt =====
-- What the sinks use of the standard library: exceptions, the steady clock and output streams.
use high_performance_logger.Common.{
  ℕ, suc, ◌*◌, Bool, true, false, Option, none, some, List, [], ◌∷◌, ◌++◌, leb, take, length, ◌≡◌,
  refl, ◌⊎◌, inl, inr,
}
use high_performance_logger.Common.Int.{ℤ, pos, negsuc}

-- An exception, by its message.
pub data Result {ℓ} (A : Type ℓ) : Type ℓ where
  ok : A → Result A
  throw : List ℕ → Result A

-- An operation that may throw, and the state that it leaves in either case.
abbrev pub Exec {ℓ κ} : Type ℓ → Type κ → Type (ℓ ⊔ κ)
Exec S A = S → Result A × S

abbrev pub bind_result {ℓ κ μ} :
    {S : Type ℓ} {A : Type κ} {B : Type μ} → (A → Exec S B) → Result A → Exec S B
bind_result f (ok a) s = f a s
bind_result f (throw e) s = (throw e, s)

infixl 5 ◌>>=◌ ◌>>◌
abbrev pub ◌>>=◌ {ℓ κ μ} :
    {S : Type ℓ} {A : Type κ} {B : Type μ} → Exec S A → (A → Exec S B) → Exec S B
◌>>=◌ m f s = let (r, s') = m s in bind_result f r s'

abbrev pub ◌>>◌ {ℓ κ} : {S : Type ℓ} {B : Type κ} → Exec S (Unit {0}) → Exec S B → Exec S B
◌>>◌ m k s = let (r, s') = m s in bind_result (λ _. k) r s'

abbrev pub pure {ℓ κ} : {S : Type ℓ} {A : Type κ} → A → Exec S A
pure a s = (ok a, s)

-- A time point of the steady clock in nanoseconds; a default-constructed one is 0, and a deadline
-- of `none` is `time_point::max()`.
abbrev pub Deadline : Type 0
Deadline = Option ℕ

-- `deadline == max() || now < deadline`, negated.
abbrev pub is_due : Deadline → ℕ → Bool
is_due none now = false
is_due (some d) now = leb d now

abbrev pub is_positive : ℤ → Bool
is_positive (pos (suc n)) = true
is_positive _ = false

-- An interval in milliseconds, as nanoseconds.
abbrev pub nanoseconds : ℤ → ℕ
nanoseconds (pos n) = n * 1000000
nanoseconds (negsuc n) = 0

-- An `std::ofstream`. `content` is what has been written to the file, `flushed` how much of it has
-- been pushed to the device, and `good` the state that `!output_` tests. `plan` says for each write
-- and flush to come whether it succeeds (`none`), or fails after some bytes.
pub record Stream : Type 0 where
  pub content : List ℕ
  pub flushed : ℕ
  pub good : Bool
  pub plan : List (Option ℕ)

abbrev pub first_fault : List (Option ℕ) → Option ℕ
first_fault [] = none
first_fault (f ∷ fs) = f

abbrev pub rest_of_plan : List (Option ℕ) → List (Option ℕ)
rest_of_plan [] = []
rest_of_plan (f ∷ fs) = fs

abbrev stream_write_with : Option ℕ → Stream → List ℕ → Stream
stream_write_with none o text = record o { content = o.content ++ text; plan = rest_of_plan o.plan }
stream_write_with (some n) o text = record o {
  content = o.content ++ take n text;
  good = false;
  plan = rest_of_plan o.plan;
}

abbrev stream_flush_with : Option ℕ → Stream → Stream
stream_flush_with none o = record o { flushed = length o.content; plan = rest_of_plan o.plan }
stream_flush_with (some n) o = record o { good = false; plan = rest_of_plan o.plan }

-- A stream in a failed state does nothing.
unfoldable pub stream_write : Stream → List ℕ → Stream
stream_write o text = elim o.good [
  | true ↦ stream_write_with (first_fault o.plan) o text
  | false ↦ o
]

unfoldable pub stream_flush : Stream → Stream
stream_flush o = elim o.good [ true ↦ stream_flush_with (first_fault o.plan) o | false ↦ o ]

pub Result-cases : (r : Result (Unit {0})) → (r ≡ ok tt) ⊎ ((e : List ℕ) × (r ≡ throw e))
Result-cases (ok tt) = inl refl
Result-cases (throw e) = inr (e, refl)

-- A sequence that does not throw: its first part does not, and it goes on from there.
pub bind_ok {ℓ κ} :
    {S : Type ℓ} {B : Type κ} (f : Unit {0} → Exec S B) (r : Result (Unit {0})) (s : S) {b : B}
    → (bind_result f r s).0 ≡ ok b
    → r ≡ ok tt
bind_ok f (ok tt) s h = refl
bind_ok f (throw e) s h = cc

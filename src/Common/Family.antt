-- ===== src/Common/Family.antt =====
-- Families indexed by numbers, with an update at one index.
use Prim.Native.Nat.{ℕ, zero, suc, ◌+◌}
use mathlib.Core.Path.{◌≡◌, refl, ap, ap₂}
use mathlib.Core.Logic.{ite, ◌⊎◌, inl, inr, ◌≢◌}
use mathlib.Core.List.{List, [], ◌∷◌, ◌++◌}
use high_performance_logger.Common.Lists.{length}
use native.Mathlib.Decide.{ℕ_discrete}
use native.Mathlib.Omega.{arith}

abbrev pub update {ℓ} : {A : Type ℓ} → (ℕ → A) → ℕ → A → ℕ → A
update f i a j = ite (ℕ_discrete i j) a (f j)

-- The `n` values from index `d` on.
abbrev pub window {ℓ} : {A : Type ℓ} → (ℕ → A) → ℕ → ℕ → List A
window f d zero = []
window f d (suc n) = f d ∷ window f (d + 1) n

module _ {ℓ} {A : Type ℓ} (f : ℕ → A) where
  -- Writing just past a window extends it.
  pub window-update :
      (d n i : ℕ) (a : A) → i ≡ d + n → window (update f i a) d (suc n) ≡ window f d n ++ a ∷ []
  window-update d zero i a e = ground arith
  window-update d (suc n) i a e = ap₂ ◌∷◌ (ground arith) (window-update (d + 1) n i a (omega arith))

  pub length-window : (d n : ℕ) → length (window f d n) ≡ n
  length-window d zero = refl
  length-window d (suc n) = ap suc (length-window (d + 1) n)

module _ {ℓ} {A : Type ℓ} (f : ℕ → A) (i : ℕ) (a : A) where
  -- What a family holds after an update: the new value at its place, and elsewhere the old one.
  pub update-cases :
      (j : ℕ) (b : A) → update f i a j ≡ b → ((i ≡ j) × (a ≡ b)) ⊎ ((i ≢ j) × (f j ≡ b))
  update-cases j b e = elim (ℕ_discrete i j) [
    | yes same ↦ inl (same, ground (arith, e))
    | no other ↦ inr (other, ground (arith, e))
  ]

  pub update_elsewhere : (j : ℕ) → i ≢ j → update f i a j ≡ f j
  update_elsewhere j n = ground arith

  pub update_there : (j : ℕ) → i ≡ j → update f i a j ≡ a
  update_there j e = ground arith

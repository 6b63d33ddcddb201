-- ===== src/Common/Lists.antt =====
-- Lists under native indices.
use Prim.Native.Nat.{ℕ, zero, suc, ◌+◌, ◌-◌, ◌≤◌, ◌<◌, min}
use mathlib.Core.Path.{◌≡◌, refl, ap}
use mathlib.Core.List.{List, [], ◌∷◌, ◌++◌, map}
use mathlib.Core.Option.{Option, none, some}
use native.Mathlib.Omega.{arith}

module _ {ℓ} {A : Type ℓ} where
  abbrev pub length : List A → ℕ
  length [] = 0
  length (x ∷ xs) = suc (length xs)

  abbrev pub get_elem? : List A → ℕ → Option A
  get_elem? [] i = none
  get_elem? (x ∷ xs) zero = some x
  get_elem? (x ∷ xs) (suc i) = get_elem? xs i

  -- A write out of range changes nothing.
  abbrev pub set : List A → ℕ → A → List A
  set [] i v = []
  set (x ∷ xs) zero v = v ∷ xs
  set (x ∷ xs) (suc i) v = x ∷ set xs i v

  abbrev pub take : ℕ → List A → List A
  take zero xs = []
  take (suc n) [] = []
  take (suc n) (x ∷ xs) = x ∷ take n xs

  abbrev pub drop : ℕ → List A → List A
  drop zero xs = xs
  drop (suc n) [] = []
  drop (suc n) (x ∷ xs) = drop n xs

  abbrev pub replicate : ℕ → A → List A
  replicate zero x = []
  replicate (suc n) x = x ∷ replicate n x

  pub length-append : (xs ys : List A) → length (xs ++ ys) ≡ length xs + length ys
  length-append [] ys = omega arith
  length-append (x ∷ xs) ys = omega (arith, length-append xs ys)

  pub length-replicate : (n : ℕ) (x : A) → length (replicate n x) ≡ n
  length-replicate zero x = refl
  length-replicate (suc n) x = ap suc (length-replicate n x)

  pub length-set : (xs : List A) (i : ℕ) (v : A) → length (set xs i v) ≡ length xs
  length-set [] i v = refl
  length-set (x ∷ xs) zero v = refl
  length-set (x ∷ xs) (suc i) v = ap suc (length-set xs i v)

  pub length-drop : (n : ℕ) (xs : List A) → length (drop n xs) ≡ length xs - n
  length-drop zero xs = omega arith
  length-drop (suc n) [] = omega arith
  length-drop (suc n) (x ∷ xs) = omega (arith, length-drop n xs)

  pub length-take : (n : ℕ) (xs : List A) → length (take n xs) ≡ min n (length xs)
  length-take zero xs = omega arith
  length-take (suc n) [] = omega arith
  length-take (suc n) (x ∷ xs) = omega (arith, length-take n xs)

  pub take-append : (xs ys : List A) → take (length xs) (xs ++ ys) ≡ xs
  take-append [] ys = refl
  take-append (x ∷ xs) ys = ap (λ l. x ∷ l) (take-append xs ys)

  pub take-length : (xs : List A) → take (length xs) xs ≡ xs
  take-length [] = refl
  take-length (x ∷ xs) = ap (λ l. x ∷ l) (take-length xs)

pub length-map {ℓ κ} :
    {A : Type ℓ} {B : Type κ} (f : A → B) (xs : List A) → length (map f xs) ≡ length xs
length-map f [] = refl
length-map f (x ∷ xs) = ap suc (length-map f xs)

module _ {ℓ} {A : Type ℓ} where
  -- `memcpy(buf + i, src, n)`; what would go past the end is dropped.
  abbrev pub overwrite : List A → ℕ → List A → List A
  overwrite [] i src = []
  overwrite (x ∷ xs) zero [] = x ∷ xs
  overwrite (x ∷ xs) zero (s ∷ src) = s ∷ overwrite xs zero src
  overwrite (x ∷ xs) (suc i) src = x ∷ overwrite xs i src

  pub length-overwrite :
      (xs : List A) (i : ℕ) (src : List A) → length (overwrite xs i src) ≡ length xs
  length-overwrite [] i src = refl
  length-overwrite (x ∷ xs) zero [] = refl
  length-overwrite (x ∷ xs) zero (s ∷ src) = ap suc (length-overwrite xs zero src)
  length-overwrite (x ∷ xs) (suc i) src = ap suc (length-overwrite xs i src)

  -- The first bytes after a copy that stays inside the buffer.
  pub take-overwrite :
      (xs : List A) (i : ℕ) (src : List A) (n : ℕ)
      → n ≡ i + length src
      → n ≤ length xs
      → take n (overwrite xs i src) ≡ take i xs ++ src
  take-overwrite [] zero [] n e h = rw e refl
  take-overwrite [] zero (s ∷ src) n e h = absurd (omega arith)
  take-overwrite [] (suc i) src n e h = absurd (omega arith)
  take-overwrite (x ∷ xs) zero [] n e h = rw e refl
  take-overwrite (x ∷ xs) zero (s ∷ src) zero e h = absurd (omega arith)
  take-overwrite (x ∷ xs) zero (s ∷ src) (suc n) e h =
      ap (λ l. s ∷ l) (take-overwrite xs zero src n (omega arith) (omega arith))
  take-overwrite (x ∷ xs) (suc i) src zero e h = absurd (omega arith)
  take-overwrite (x ∷ xs) (suc i) src (suc n) e h =
      ap (λ l. x ∷ l) (take-overwrite xs i src n (omega arith) (omega arith))

  pub take-set_self : (xs : List A) (n : ℕ) (v : A) → take n (set xs n v) ≡ take n xs
  take-set_self [] n v = refl
  take-set_self (x ∷ xs) zero v = refl
  take-set_self (x ∷ xs) (suc n) v = ap (λ l. x ∷ l) (take-set_self xs n v)

  pub get_elem?-set_self :
      (xs : List A) (n : ℕ) (v : A) → n < length xs → get_elem? (set xs n v) n ≡ some v
  get_elem?-set_self [] n v h = absurd (omega arith)
  get_elem?-set_self (x ∷ xs) zero v h = refl
  get_elem?-set_self (x ∷ xs) (suc n) v h = get_elem?-set_self xs n v (omega arith)

  pub take-zero : (xs : List A) → take 0 xs ≡ []
  take-zero [] = refl
  take-zero (x ∷ xs) = refl

  -- Writing the byte at `n` extends what the first `n` bytes hold.
  pub take-set_last :
      (xs : List A) (n m : ℕ) (v : A)
      → m ≡ suc n
      → n < length xs
      → take m (set xs n v) ≡ take n xs ++ v ∷ []
  take-set_last [] n m v e h = absurd (omega arith)
  take-set_last (x ∷ xs) zero m v e h = rw e (ap (λ l. v ∷ l) (take-zero xs))
  take-set_last (x ∷ xs) (suc n) zero v e h = absurd (omega arith)
  take-set_last (x ∷ xs) (suc n) (suc m) v e h =
      ap (λ l. x ∷ l) (take-set_last xs n m v (omega arith) (omega arith))

pub take-nil {ℓ} : (A : Type ℓ) (n : ℕ) → take {A = A} n [] ≡ []
take-nil A zero = refl
take-nil A (suc n) = refl

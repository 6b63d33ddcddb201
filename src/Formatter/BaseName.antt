-- ===== src/Formatter/BaseName.antt =====
-- `BaseName`: the file name behind the last separator of a path.
use native.Mathlib.Numerals.{add-one}
use high_performance_logger.Common.{
  ℕ, suc, Bool, true, false, ◌||◌, none, some, List, [], ◌∷◌, ◌++◌, drop, ◌≡◌, refl, ap, ◌⊎◌, inl,
  inr, Option-cases, arith,
}
use high_performance_logger.Formatter.{is_separator, find_last_separator, base_name}

abbrev pub has_separator : List ℕ → Bool
has_separator [] = false
has_separator (c ∷ cs) = is_separator c || has_separator cs

-- A directory part: nothing, or a text that ends in a separator.
abbrev pub IsDirectory : List ℕ → Type 0
IsDirectory dir =
    (dir ≡ []) ⊎ ((d : List ℕ) × (c : ℕ) × (dir ≡ d ++ c ∷ []) × (is_separator c ≡ true))

pub record Divides (path file : List ℕ) : Type 0 where
  pub dir : List ℕ
  pub whole : path ≡ dir ++ file
  pub directory : IsDirectory dir
  pub bare : has_separator file ≡ false

none-bare : (p : List ℕ) → find_last_separator p ≡ none → has_separator p ≡ false
unfolding find_last_separator
none-bare [] h = refl
none-bare (c ∷ cs) h = ground (arith, none-bare cs)

later :
    (c : ℕ) (dir : List ℕ)
    → IsDirectory dir
    → (dir ≡ [] → is_separator c ≡ true)
    → IsDirectory (c ∷ dir)
later c dir (inl e) h = inr ([], c, ap (λ l. c ∷ l) e, h e)
later c dir (inr (d, x, e, s)) h = inr (c ∷ d, x, ap (λ l. c ∷ l) e, s)

divides_at :
    (p : List ℕ) (i : ℕ)
    → find_last_separator p ≡ some i
    → (dir : List ℕ) × (p ≡ dir ++ drop (suc i) p)
      × ((d : List ℕ) × (c : ℕ) × (dir ≡ d ++ c ∷ []) × (is_separator c ≡ true))
      × (has_separator (drop (suc i) p) ≡ false)
unfolding find_last_separator
divides_at [] i h = cc
divides_at (c ∷ cs) i h = elim (Option-cases (find_last_separator cs)) [
  | inl absent ↦ (c ∷ [], ground arith, ([], c, refl, ground arith), ground (arith, none-bare cs))
  | inr (j, present) ↦
      let (dir, whole, (d, x, e, s), bare) = divides_at cs j present in
      (c ∷ dir, ground arith, (c ∷ d, x, ap (λ l. c ∷ l) e, s), ground arith)
]

-- A path is a directory part followed by its base name, which has no separator.
pub base_name-Divides : (path : List ℕ) → Divides path (base_name path)
unfolding base_name
base_name-Divides path = elim (Option-cases (find_last_separator path)) [
  | inl absent ↦
      rw (absent, base_name)
        (record { dir = []; whole = refl; directory = inl refl; bare = none-bare path absent })
  | inr (i, present) ↦
      let (dir, whole, (d, c, e, s), bare) = divides_at path i present in
      rw (present, base_name, add-one)
        (record { dir = dir; whole = whole; directory = inr (d, c, e, s); bare = bare })
]

-- ===== src/Sinks/Rotating/Archives/Shift.antt =====
-- How RotateFiles of src/sinks/rotating_file_sink.cpp moves the archives by one place.
use high_performance_logger.Common.{
  ℕ, zero, suc, ◌<◌, ◌≤◌, ◌≡◌, Option, none, some, List, ◌∷◌, length, refl, sym, ap, ap₂, ◌∙◌,
  arith, ◌≢◌, ℕ_discrete, length-append, ℕ_discrete,
}
use mathlib.Core.List.{append_cancel_left}
use high_performance_logger.Common.Decimal.{decimal, value_from, value-decimal}
use high_performance_logger.Sinks.Stream.{ok, bind_ok}
use high_performance_logger.Sinks.Rotating.{
  RotatingFileSink, shift_archives, rename_if_exists, archive_path,
}
use high_performance_logger.Sinks.Rotating.FileSystem.{rename_file, file_exists, remove_file}

-- The file itself and then the archives, the youngest first.
abbrev pub slot : List ℕ → ℕ → List ℕ
slot path zero = path
slot path (suc j) = archive_path path (suc j)

abbrev pub or_else {ℓ} : {A : Type ℓ} → Option A → Option A → Option A
or_else none b = b
or_else (some a) b = some a

decimal_injective : (i j : ℕ) → decimal i ≡ decimal j → i ≡ j
decimal_injective i j h = sym (value-decimal i) ∙ ap (value_from 0) h ∙ value-decimal j

archives_apart : (path : List ℕ) (i j : ℕ) → i ≢ j → archive_path path i ≢ archive_path path j
archives_apart path i j n h =
    let t : b'.' ∷ decimal i ≡ b'.' ∷ decimal j = append_cancel_left path _ _ h in
    n (decimal_injective i j (cc))

pub slots_apart : (path : List ℕ) (i j : ℕ) → i < j → slot path i ≢ slot path j
slots_apart path zero zero l h = omega arith
slots_apart path zero (suc j) l h =
    omega (arith, ap (length {A = ℕ}) h, length-append path (b'.' ∷ decimal (suc j)))
slots_apart path (suc i) zero l h = omega arith
slots_apart path (suc i) (suc j) l h = archives_apart path (suc i) (suc j) (λ e. omega arith) h

-- A file that is there moves and takes the place of the other one.
pub record MovedFile (source destination : List ℕ) (f g : List ℕ → Option (List ℕ)) : Type 0 where
  pub there : g destination ≡ or_else (f source) (f destination)
  pub gone : g source ≡ none
  pub others : (p : List ℕ) → p ≢ source → p ≢ destination → g p ≡ f p

pub rename-MovedFile :
    (a b : List ℕ) (s : RotatingFileSink)
    → a ≢ b
    → (rename_if_exists a b s).0 ≡ ok tt
    → MovedFile a b s.disk.files (rename_if_exists a b s).1.disk.files
unfolding rename_if_exists file_exists remove_file rename_file
rename-MovedFile a b s n h = record {
  there = ground arith;
  gone = ground arith;
  others = λ p na nb. ground arith;
}

-- What a shift of the archives 1, …, m - 1 by one place does.
pub record Shifted (path : List ℕ) (m : ℕ) (f g : List ℕ → Option (List ℕ)) : Type 0 where
  pub last :
      (j : ℕ)
      → suc (suc j) ≡ m
      → g (slot path m) ≡ or_else (f (slot path (suc j))) (f (slot path m))
  pub between : (j : ℕ) → suc (suc j) < m → g (slot path (suc (suc j))) ≡ f (slot path (suc j))
  pub first : 2 ≤ m → g (slot path 1) ≡ none
  pub others : (p : List ℕ) → ((j : ℕ) → 1 ≤ j → j ≤ m → p ≢ slot path j) → g p ≡ f p
  pub alone : m ≤ 1 → g ≡ f

pub or_else-none {ℓ} : {A : Type ℓ} (a : Option A) → or_else a none ≡ a
or_else-none none = refl
or_else-none (some a) = refl

-- One more place at the old end.
module _ (path : List ℕ) (i : ℕ) {f h g : List ℕ → Option (List ℕ)}
    (moved : MovedFile (slot path (suc i)) (slot path (suc (suc i))) f h)
    (rest : Shifted path (suc i) h g) where
  untouched : (j : ℕ) → j < suc i → h (slot path j) ≡ f (slot path j)
  untouched j l =
      moved.others (slot path j) (slots_apart path j (suc i) l)
        (slots_apart path j (suc (suc i)) (omega (arith, l)))

  further :
      (j : ℕ) → suc (suc j) < suc (suc i) → g (slot path (suc (suc j))) ≡ f (slot path (suc j))
  further j l = elim (ℕ_discrete (suc j) i) [
    | yes e ↦
        ap (λ k. g (slot path k)) (ap suc e)
        ∙ rest.last j (ap suc e)
        ∙ ap₂ or_else (untouched (suc j) (omega (arith, l))) moved.gone
        ∙ or_else-none (f (slot path (suc j)))
    | no n ↦ rest.between j (omega (arith, l)) ∙ untouched (suc j) (omega (arith, l))
  ]

  above : (j : ℕ) → suc i < j → g (slot path j) ≡ h (slot path j)
  above j l =
      rest.others (slot path j) (λ k a b e. slots_apart path k j (omega (arith, l, b)) (sym e))

  emptied : g (slot path 1) ≡ none
  emptied = elim (ℕ_discrete i zero) [
    | yes e ↦
        ap (λ k. k (slot path 1)) (rest.alone (omega (arith, e)))
        ∙ ap (λ k. h (slot path (suc k))) (sym e)
        ∙ moved.gone
    | no n ↦ rest.first (omega arith)
  ]

  one_further : Shifted path (suc (suc i)) f g
  one_further = record {
    last = λ j e.
        above (suc (suc i)) (omega arith)
        ∙ moved.there
        ∙ ap (λ k. or_else (f (slot path (suc k))) (f (slot path (suc (suc i)))))
            (omega (arith, sym e));
    between = further;
    first = λ _. emptied;
    others = λ p n.
        rest.others p (λ j a b. n j a (omega (arith, b)))
        ∙ moved.others p (n (suc i) (omega arith) (omega arith))
            (n (suc (suc i)) (omega arith) (omega arith));
    alone = λ l. absurd (omega arith);
  }

none_moved : (path : List ℕ) (m : ℕ) (f : List ℕ → Option (List ℕ)) → m ≤ 1 → Shifted path m f f
none_moved path m f l = record {
  last = λ j e. absurd (omega arith);
  between = λ j k. absurd (omega arith);
  first = λ k. absurd (omega arith);
  others = λ p n. refl;
  alone = λ k. refl;
}

pub rename_path : (a b : List ℕ) (s : RotatingFileSink) → (rename_if_exists a b s).1.path ≡ s.path
unfolding rename_if_exists
rename_path a b s = ground arith

rename_options :
    (a b : List ℕ) (s : RotatingFileSink) → (rename_if_exists a b s).1.options ≡ s.options
unfolding rename_if_exists
rename_options a b s = ground arith

pub shift-Shifted :
    (m : ℕ) (s : RotatingFileSink)
    → (shift_archives m s).0 ≡ ok tt
    → ((shift_archives m s).1.path ≡ s.path)
      × Shifted s.path m s.disk.files (shift_archives m s).1.disk.files
unfolding shift_archives
shift-Shifted zero s h = (refl, none_moved s.path 0 s.disk.files (omega arith))
shift-Shifted (suc zero) s h = (refl, none_moved s.path 1 s.disk.files (omega arith))
shift-Shifted (suc (suc i)) s h =
    let a = slot s.path (suc i) in
    let b = slot s.path (suc (suc i)) in
    let r = rename_if_exists a b s in
    let e : r.0 ≡ ok tt = bind_ok (λ _. shift_archives (suc i)) r.0 r.1 h in
    let same = rename_path a b s in
    let moved = rename-MovedFile a b s (slots_apart s.path (suc i) (suc (suc i)) (omega arith)) e in
    let (path, rest) = shift-Shifted (suc i) r.1 (rw e at h) in
    let rest' : Shifted s.path (suc i) r.1.disk.files (shift_archives (suc i) r.1).1.disk.files =
      rw same at rest in
    rw e (path ∙ same, one_further s.path i moved rest')

-- ===== src/Sinks/Rotating/Archives.antt =====
-- What RotateFiles of src/sinks/rotating_file_sink.cpp does to the file and to each archive.
pub mod Shift
use high_performance_logger.Common.{
  ℕ, zero, suc, ◌-◌, ◌<◌, ◌≤◌, ◌≡◌, true, Option, none, some, List, [], ◌∷◌, ◌==◌, length, refl,
  sym, ap, ap₂, ◌∙◌, arith, Bool-cases, inl, inr, ◌≢◌, ℕ_discrete, length-append, ℕ_discrete,
}
use mathlib.Core.List.{append_cancel_left}
use mathlib.Core.Path.{subst}
use high_performance_logger.Common.Decimal.{decimal, value_from, value-decimal}
use high_performance_logger.Sinks.Stream.{ok, Exec, ◌>>◌, bind_ok}
use high_performance_logger.Sinks.Rotating.{
  close, RotatingFileSink, rotate_files, open_file, shift_archives, rename_if_exists, archive_path,
}
use high_performance_logger.Sinks.Rotating.FileSystem.{
  open_truncated, rename_file, file_exists, remove_file,
}
use high_performance_logger.Sinks.Rotating.Archives.Shift.{
  slot, or_else, slots_apart, MovedFile, rename-MovedFile, Shifted, or_else-none, rename_path,
  shift-Shifted,
}

-- What a rotation does to the file and its archives: slot 0 is the file, slot j the archive j.
pub record Rotation (s t : RotatingFileSink) : Type 0 where
  pub newest : t.disk.files s.path ≡ some []
  pub archived :
      (j : ℕ)
      → suc j < s.options.max_files
      → t.disk.files (slot s.path (suc j)) ≡ s.disk.files (slot s.path j)
  pub oldest :
      (j : ℕ)
      → suc j ≡ s.options.max_files
      → t.disk.files (slot s.path (suc j))
        ≡ or_else (s.disk.files (slot s.path j)) (s.disk.files (slot s.path (suc j)))
  pub others :
      (p : List ℕ)
      → ((j : ℕ) → j ≤ s.options.max_files → p ≢ slot s.path j)
      → t.disk.files p ≡ s.disk.files p

record Opened (path : List ℕ) (f g : List ℕ → Option (List ℕ)) : Type 0 where
  fresh : g path ≡ some []
  others : (p : List ℕ) → p ≢ path → g p ≡ f p

abbrev reopen : Exec RotatingFileSink (Unit {0})
reopen = do (λ r. (ok tt, record r { current_size = 0 })); open_file true

reopen-Opened :
    (s : RotatingFileSink)
    → (reopen s).0 ≡ ok tt
    → Opened s.path s.disk.files (reopen s).1.disk.files
unfolding open_file open_truncated
reopen-Opened s h = record { fresh = ground arith; others = λ p n. ground arith }

-- The file joins the archives behind them, and a new one is opened.
module _ (path : List ℕ) (m : ℕ) {f g k l : List ℕ → Option (List ℕ)}
    (shifted : Shifted path (suc m) f g) (moved : MovedFile path (slot path 1) g k)
    (opened : Opened path k l) where
  kept : (j : ℕ) → l (slot path (suc j)) ≡ k (slot path (suc j))
  kept j = opened.others _ (λ e. slots_apart path 0 (suc j) (omega arith) (sym e))

  file_alone : g path ≡ f path
  file_alone = shifted.others path (λ j a b. slots_apart path 0 j a)

  beyond : (j : ℕ) → g (slot path (suc (suc j))) ≡ k (slot path (suc (suc j)))
  beyond j = sym (
      moved.others _ (λ e. slots_apart path 0 (suc (suc j)) (omega arith) (sym e))
        (λ e. slots_apart path 1 (suc (suc j)) (omega arith) (sym e)))

  archived_at : (j : ℕ) → suc j < suc m → l (slot path (suc j)) ≡ f (slot path j)
  archived_at zero h =
      kept 0
      ∙ moved.there
      ∙ ap₂ or_else file_alone (shifted.first (omega arith))
      ∙ or_else-none (f path)
  archived_at (suc j) h = kept (suc j) ∙ sym (beyond j) ∙ shifted.between j h

  oldest_at :
      (j : ℕ)
      → suc j ≡ suc m
      → l (slot path (suc j)) ≡ or_else (f (slot path j)) (f (slot path (suc j)))
  oldest_at zero e =
      kept 0
      ∙ moved.there
      ∙ ap₂ or_else file_alone (ap (λ x. x (slot path 1)) (shifted.alone (omega arith)))
  oldest_at (suc j) e =
      kept (suc j)
      ∙ sym (beyond j)
      ∙ ap (λ x. g (slot path x)) e
      ∙ shifted.last j e
      ∙ ap (λ x. or_else (f (slot path (suc j))) (f (slot path x))) (sym e)

  others_at : (p : List ℕ) → ((j : ℕ) → j ≤ suc m → p ≢ slot path j) → l p ≡ f p
  others_at p n =
      opened.others p (n 0 (omega arith))
      ∙ moved.others p (n 0 (omega arith)) (n 1 (omega arith))
      ∙ shifted.others p (λ j a b. n j b)

abbrev archive_file : List ℕ → Exec RotatingFileSink (Unit {0})
archive_file path = rename_if_exists path (archive_path path 1)

with_archives :
    (n m : ℕ) (s : RotatingFileSink)
    → n ≡ s.options.max_files
    → suc m ≡ n
    → ((do shift_archives n; archive_file s.path; reopen) s).0 ≡ ok tt
    → Rotation s ((do shift_archives n; archive_file s.path; reopen) s).1
with_archives n m s k q h =
    let a = shift_archives n s in
    let e : a.0 ≡ ok tt = bind_ok (λ _. do archive_file s.path; reopen) a.0 a.1 h in
    let h2 : ((do archive_file s.path; reopen) a.1).0 ≡ ok tt = rw e at h in
    let b = archive_file s.path a.1 in
    let e2 : b.0 ≡ ok tt = bind_ok (λ _. reopen) b.0 b.1 h2 in
    let (path, by_n) = shift-Shifted n s e in
    let shifted = subst (λ x. Shifted s.path x s.disk.files a.1.disk.files) (sym q) by_n in
    let moved =
      rename-MovedFile s.path (archive_path s.path 1) a.1 (slots_apart s.path 0 1 (omega arith))
        e2 in
    let opened =
      subst (λ p. Opened p b.1.disk.files (reopen b.1).1.disk.files)
        (rename_path s.path (archive_path s.path 1) a.1 ∙ path) (reopen-Opened b.1 (rw e2 at h2)) in
    rw e (
      rw e2 (record {
        newest = opened.fresh;
        archived = λ j l. archived_at s.path m shifted moved opened j (omega (arith, l, k, q));
        oldest = λ j l. oldest_at s.path m shifted moved opened j (l ∙ sym k ∙ sym q);
        others =
            λ p n. others_at s.path m shifted moved opened p (λ j l. n j (omega (arith, l, k, q)));
      }))

from_close : {s t : RotatingFileSink} → Rotation (close s) t → Rotation s t
from_close r = record {
  newest = r.newest;
  archived = r.archived;
  oldest = r.oldest;
  others = r.others;
}

-- A rotation that succeeds leaves an empty file and each other archive with what the one before it
-- held, the first with what the file held; the last keeps what it held if there was nothing to take
-- its place. No other file is touched.
pub rotate_files-Rotation :
    (s : RotatingFileSink) → (rotate_files s).0 ≡ ok tt → Rotation s (rotate_files s).1
unfolding rotate_files
rotate_files-Rotation s h = elim (Bool-cases (s.options.max_files == 0)) [
  | inl zero_files ↦
      let opened : Opened s.path s.disk.files (reopen (close s)).1.disk.files =
        reopen-Opened (close s) (rw zero_files at h) in
      rw zero_files (record {
        newest = opened.fresh;
        archived = λ j l. absurd (ground arith);
        oldest = λ j l. absurd (ground arith);
        others = λ p n. opened.others p (n 0 (omega arith));
      })
  | inr some_files ↦ rw some_files (
      from_close (
        with_archives s.options.max_files (s.options.max_files - 1) (close s) refl (ground arith)
          (rw some_files at h)))
]
